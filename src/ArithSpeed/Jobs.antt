-- ===== src/ArithSpeed/Jobs.antt =====
-- What arith_speed/arith_speed.cpp measures: the functions named on the command line, whether they
-- count as transcendental, and the sizes of the range of work items.
pub mod Names
pub mod Halving
use u_clbench.Base.{
  ℕ, zero, suc, ◌+◌, ◌*◌, ◌/◌, ◌%◌, ◌^◌, Bool, true, false, Option, none, some, List, [], ◌∷◌, ◌&&◌,
  ltb, leb, if◌then◌else◌,
}
use u_clbench.Base.Run.{◌>>=◌, Run, done, no_fuel}
use u_clbench.Base.Text.{Bytes, codes, same}
use u_clbench.ArithSpeed.{
  Function, add, mul, sub, div, mad, mad_mul, vec, vliw, exp, log, sqr, sqrt, cos, sin, tan,
}

-- the chain of `strcmp`; `none` is a name that is not recognized
unfoldable pub function_named : Bytes → Option Function
unfolding same
function_named ptr =
    if same ptr (codes "exp")
    then some exp
    else if same ptr (codes "log")
    then some log
    else if same ptr (codes "sqr")
    then some sqr
    else if same ptr (codes "sqrt")
    then some sqrt
    else if same ptr (codes "cos")
    then some cos
    else if same ptr (codes "sin")
    then some sin
    else if same ptr (codes "tan")
    then some tan
    else if same ptr (codes "add")
    then some add
    else if same ptr (codes "mul")
    then some mul
    else if same ptr (codes "sub")
    then some sub
    else if same ptr (codes "div")
    then some div
    else if same ptr (codes "mad")
    then some mad
    else if same ptr (codes "mad_mul")
    then some mad_mul
    else if same ptr (codes "vec")
    then some vec
    else if same ptr (codes "vliw")
    then some vliw
    else none

-- The cells of `functions` up to `num_functions`, from the words between the commas; `none` is a
-- cell that is counted and never written.
unfoldable pub named_functions : List Bytes → List (Option Function)
unfolding function_named
named_functions [] = []
named_functions (ptr ∷ ptrs) = function_named ptr ∷ named_functions ptrs

-- without a list of names
abbrev pub all_functions : List (Option Function)
all_functions =
    some add
    ∷ some sub
    ∷ some mul
    ∷ some div
    ∷ some mad
    ∷ some mad_mul
    ∷ some vec
    ∷ some vliw
    ∷ some exp
    ∷ some log
    ∷ some sqr
    ∷ some sqrt
    ∷ some cos
    ∷ some sin
    ∷ some tan
    ∷ []

-- `functions`, given the words of `function_str` if there is one
unfoldable pub functions : Option (List Bytes) → List (Option Function)
unfolding named_functions
functions none = all_functions
functions (some words) = named_functions words

-- `trans`
unfoldable pub is_trans : Function → Bool
is_trans add = false
is_trans mul = false
is_trans sub = false
is_trans div = false
is_trans mad = false
is_trans mad_mul = false
is_trans vec = false
is_trans vliw = false
is_trans f = true

-- `TRANS_OPERATIONS` and `ARITH_OPERATIONS`: what `run_benchmark` unrolls, and divides the size by
unfoldable pub unroll_factor : Function → ℕ
unfolding is_trans
unroll_factor f = if is_trans f then 10 else 100

-- The numbers of work items per group and in all.
pub record Range : Type 0 where
  pub local_size : ℕ
  pub global_size : ℕ

-- the loop that halves both, with a bound on its rounds; `width` is the size of a number
unfoldable pub halve_loop : ℕ → ℕ → ℕ → ℕ → Range → Run Range
halve_loop zero width lanes memory r = no_fuel
halve_loop (suc f) width lanes memory r =
    let rest =
      halve_loop f width lanes memory
        (record { local_size = r.local_size / 2; global_size = r.global_size / 2 }) in
    if ltb memory ((r.global_size + 2) * width * lanes % 2 ^ 64) then rest else done r

-- `maxLocal` and `maxGlobal` for a device
unfoldable pub max_range : (local_a blocks_a max_work_item_size max_compute_units : ℕ) → Range
max_range local_a blocks_a size units =
    let local = if ltb 0 local_a && leb local_a size then local_a else size in
    record {
      local_size = local;
      global_size = (if ltb 0 blocks_a then blocks_a else units) * local;
    }

-- `local` and `global` for `ws`, 0 or 1; `memory` is the memory of the device in KB
unfoldable pub work_range : ℕ → ℕ → ℕ → ℕ → Range → ℕ → Run Range
unfolding halve_loop
work_range fuel width lanes memory largest zero = done (record { local_size = 1; global_size = 1 })
work_range fuel width lanes memory largest (suc ws) = halve_loop fuel width lanes memory largest

-- the loop over `vec`, with a bound on its rounds
unfoldable pub vec_loop : ℕ → ℕ → ℕ → Run (List ℕ)
vec_loop zero max_vec lanes = no_fuel
vec_loop (suc f) max_vec lanes =
    let rest = vec_loop f max_vec (lanes * 2 % 2 ^ 32) in
    if leb lanes max_vec then (rest >>= λ ls. done (lanes ∷ ls)) else done []
