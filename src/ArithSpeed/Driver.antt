-- ===== src/ArithSpeed/Driver.antt =====
-- main of arith_speed/arith_speed.cpp behind the reading of the lists: the options that are numbers,
-- and the loops over devices, functions, sizes, vectors and ranges. What is printed is a line with
-- the time, or `# error`.
use u_clbench.Base.{
  ℕ, ◌-◌, ◌/◌, ◌^◌, Bool, true, false, not, ◌&&◌, ◌||◌, Option, none, some, List, [], ◌∷◌, ◌++◌,
  map, get_or, replicate, ◌==◌, if◌then◌else◌,
}
use u_clbench.Base.Int.{pos, negsuc}
use u_clbench.Base.Run.{Run, done, fault, no_fuel}
use u_clbench.Base.Text.{Bytes}
use u_clbench.CommandLine.Settings.{atoi}
use u_clbench.Opencl.{
  context, queue, release, Log, Env, ok, call_only, new_or_fail, release_or_null,
}
use u_clbench.Opencl.Staged.{Staged, behind, each, repeat_loop, mean}
use u_clbench.ArithSpeed.{Function, vec, vliw}
use u_clbench.ArithSpeed.Kernel.{is_lanes}
use u_clbench.ArithSpeed.Settings.{Config}
use u_clbench.ArithSpeed.Bench.{run_benchmark}
use u_clbench.ArithSpeed.Check.Host.{Numbers, initial_data, inconsistent}
use u_clbench.ArithSpeed.Jobs.{Range, is_trans, unroll_factor, max_range, work_range, vec_loop}

-- `localA` and `blocksA`: an `int` as a `size_t`, 0 where nothing is given
unfoldable pub size_option : Option Bytes → ℕ
unfolding atoi
size_option none = 0
size_option (some w) = elim (atoi w) [ pos n ↦ n | negsuc n ↦ 2 ^ 64 - 1 - n ]

-- what `get_device_info` tells of a device, and its row of sizes
pub record Device : Type 0 where
  pub max_work_item_size : ℕ
  pub max_compute_units : ℕ
  pub global_mem_size : ℕ
  pub sizes : List ℕ

-- One run: the function, the size, whether numbers are doubles, and the numbers to a work item.
pub record Point : Type 0 where
  pub function : Function
  pub size : ℕ
  pub is_double : Bool
  pub lanes : ℕ

-- a line of the output; no time is `# error`, or not a number
pub record Line : Type 0 where
  pub point : Point
  pub range : Range
  pub time : Option ℕ

-- `sizeof(cl_float)` and `sizeof(cl_double)`
abbrev pub width : Bool → ℕ
width true = 8
width false = 4

-- `maxLocal` and `maxGlobal` of a device, and its memory in KB
abbrev pub largest : Config → Device → Range
largest c d =
    max_range (size_option c.local_str) (size_option c.blocks_str) d.max_work_item_size
      d.max_compute_units

abbrev pub memory : Device → ℕ
memory d = d.global_mem_size / 1024

-- the widths of the loops over `vec`; from 2 ^ 31 on the unsigned `vec` becomes 0, and the loop
-- does not end
abbrev pub widths : Config → Run (List ℕ)
widths c = vec_loop 33 c.max_vec 1

-- the widths for which `getTypeStr` has a vector type
abbrev pub is_lane : ℕ → Bool
is_lane v = v == 1 || v == 2 || v == 4 || v == 8 || v == 16

-- The kernels for `vec` and `vliw` do without one.
unfoldable pub is_valid : Function → ℕ → Bool
is_valid vec lanes = true
is_valid vliw lanes = true
is_valid f lanes = is_lane lanes

-- `!trans && double_flag`
abbrev pub with_doubles : Config → Function → Bool
with_doubles c f = not (is_trans f) && not (c.double_flag == 0)

abbrev pub point_of : Function → ℕ → Bool → ℕ → Point
point_of f size is_double lanes = record {
  function = f;
  size = size;
  is_double = is_double;
  lanes = lanes;
}

-- the runs for a function and a size: with floats, and with doubles where they are asked for
unfoldable pub points : Config → List ℕ → Function → ℕ → List Point
points c ws f size =
    map (point_of f size false) ws
    ++ (if with_doubles c f then map (point_of f size true) ws else [])

module _ {F : Type 0} (e : Env F) (c : Config) (repeats fuel : ℕ)
    (run : Point → Range → Staged F ℕ) where
  -- the loop over `ws`, for the values left; an error ends it
  unfoldable pub ws_loop : Device → Point → List ℕ → Staged F (List Line)
  unfolding repeat_loop mean work_range max_range size_option
  ws_loop d p [] s = done (ok [], s)
  ws_loop d p (ws ∷ rest) s =
      elim (work_range fuel (width p.is_double) p.lanes (memory d) (largest c d) ws) [
        | done r ↦ behind (repeat_loop (λ (t : ℕ). t) (run p r) repeats 0 s) λ time s1. elim time [
          | none ↦ done (ok (record { point = p; range = r; time = none } ∷ []), s1)
          | some t ↦ behind (ws_loop d p rest s1) λ lines s2.
              done (ok (record { point = p; range = r; time = mean repeats (some t) } ∷ lines), s2)
        ]
        | fault ↦ fault
        | no_fuel ↦ no_fuel
      ]

  -- the loops over the widths
  unfoldable pub size_body : Device → Function → ℕ → Staged F (List Line)
  unfolding ws_loop points each vec_loop
  size_body d f size s = elim (widths c) [
    | done ws ↦ each (λ p. ws_loop d p (0 ∷ 1 ∷ [])) (points c ws f size) s
    | fault ↦ fault
    | no_fuel ↦ no_fuel
  ]

  -- the loop over the sizes, for a cell of `functions`; one that was never written is a fault
  unfoldable pub function_body : Device → Option Function → Staged F (List Line)
  unfolding size_body each
  function_body d none s = fault
  function_body d (some f) s = each (size_body d f) d.sizes s

  -- one device: a context that stays, and a queue that is given back
  unfoldable pub device_body : List (Option Function) → Device → Staged F (List Line × ℕ)
  unfolding function_body new_or_fail call_only each
  device_body functions d s = behind (done (new_or_fail e context 0 (pos 1) s)) λ context' s1.
      behind (done (new_or_fail e queue 0 (pos 1) s1)) λ commands s2.
        behind (each (function_body d) functions s2) λ lines s3.
          behind (done (call_only e (release queue commands) s3))
            λ x s4. done (ok (lines, context'), s4)

  -- the loop over the devices, with the context of the last one
  unfoldable pub device_loop :
      List (Option Function) → List Device → Option ℕ → Staged F (List Line × Option ℕ)
  unfolding device_body
  device_loop functions [] last s = done (ok ([], last), s)
  device_loop functions (d ∷ devices) last s = behind (device_body functions d s) λ first s1.
      behind (device_loop functions devices (some first.1) s1)
        λ rest s2. done (ok (first.0 ++ rest.0, rest.1), s2)

  -- from the first device on, with the release of the one context that main still knows
  unfoldable pub arith_main : List (Option Function) → List Device → Staged F (List Line)
  unfolding device_loop release_or_null
  arith_main functions devices s =
      behind (device_loop functions devices none s)
        λ r s1. behind (done (release_or_null e context r.1 s1)) λ x s2. done (ok r.0, s2)

-- the data for a point, and whether its check is on and fails
unfoldable pub data_of : {F : Type 0} → (Bool → Numbers F) → Point → List F
unfolding initial_data
data_of num p =
    let (a, b) = initial_data (num p.is_double) p.function in
    replicate p.lanes a ++ replicate p.lanes b

unfoldable pub results_differ : {F : Type 0} → (Bool → Numbers F) → Config → Point → List F → Bool
unfolding initial_data inconsistent unroll_factor
results_differ num c p results =
    let (a, b) = initial_data (num p.is_double) p.function in
    not (c.check_flag == 0)
    && inconsistent (num p.is_double) p.function p.size (p.size / unroll_factor p.function) p.lanes
        a b (get_or results 0 (num p.is_double).nought)

-- `type` in `genKernel` has no room for the name double16. Its other arrays have room for the texts
-- of up to 32 lanes; that more lanes overflow them too is told by `in_arrays` alone.
abbrev pub no_room : Point → Bool
no_room p = not (is_lanes p.function) && p.is_double && p.lanes == 16

-- the run of a point
unfoldable pub run_point :
    {F : Type 0}
    → Env F
    → (Log F → ℕ → ℕ)
    → (Bool → Numbers F)
    → Config
    → Point
    → Range
    → Staged F ℕ
unfolding run_benchmark data_of results_differ is_valid
run_point e stamp num c p r s =
    if no_room p
    then fault
    else done (
        run_benchmark e stamp (width p.is_double) p.lanes r.local_size r.global_size (data_of num p)
          (results_differ num c p) (is_valid p.function p.lanes) s)
