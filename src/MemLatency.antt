-- ===== src/MemLatency.antt =====
-- The memory latency benchmark, mem_latency/mem_latency.cpp: the size of the buffer, the chain of
-- indices written into it, and the host's walk along the chain. A `cl_uint` is a number below
-- 2 ^ 32 and a `cl_ulong` one below 2 ^ 64, with the wrap-around written out.
mod Chain
mod Fill
pub mod Settings
pub mod Size
pub mod Options
pub mod Device
pub mod Agree
pub mod Bench
pub mod Computed
pub mod Host
pub mod Leaks
pub mod Serve
pub mod Whole
pub mod Driver
pub mod Measured
pub mod Layout
use u_clbench.Base.{
  ℕ, zero, suc, ◌+◌, ◌-◌, ◌*◌, ◌/◌, ◌%◌, ◌^◌, Bool, true, false, ◌&&◌, List, ltb, ◌==◌,
  if◌then◌else◌, length, get_or, set,
}
use u_clbench.Base.Run.{Run, done, fault, no_fuel, ◌>>=◌}
use u_clbench.Base.Text.{Bytes, codes}

-- `enum _MEM_TYPE`, in the order of its values
pub data MemType : Type 0 where
  global constant local : MemType

-- `enum _DATA_LAYOUT`
pub data DataLayout : Type 0 where
  sequential cache_step : DataLayout

unfoldable pub mtype_to_string : MemType → Bytes
mtype_to_string global = codes "global"
mtype_to_string local = codes "local"
mtype_to_string constant = codes "const"

unfoldable pub data_layout_to_string : DataLayout → Bytes
data_layout_to_string sequential = codes "sequential"
data_layout_to_string cache_step = codes "cache_step"

-- `CACHE_STEP_WIDTH` and `REQUIRED_ITERATION_DIVISOR`
abbrev pub cache_step_width : ℕ
cache_step_width = 128

abbrev pub required_iteration_divisor : ℕ
required_iteration_divisor = 128

-- What `get_device_info` tells of the device; the flag is `type == CL_DEVICE_TYPE_ACCELERATOR`.
pub record Limits : Type 0 where
  pub global_mem_size : ℕ
  pub local_mem_size : ℕ
  pub max_constant_buffer_size : ℕ
  pub is_accelerator : Bool

-- `switch(mt)`
unfoldable pub type_limit : MemType → Limits → ℕ
type_limit global info = info.global_mem_size
type_limit local info = info.local_mem_size
type_limit constant info = info.max_constant_buffer_size

abbrev is_local : MemType → Bool
is_local local = true
is_local _ = false

-- `limit -= 64`, and half of that on an accelerator's local memory
unfoldable pub usable_limit : MemType → Limits → ℕ
unfolding type_limit
usable_limit mt info =
    let limit = (type_limit mt info + 2 ^ 64 - 64) % 2 ^ 64 in
    if is_local mt && info.is_accelerator then limit / 2 else limit

-- the number of elements for a requested size, a multiple of `required_iteration_divisor`
unfoldable pub fitted_elems : ℕ → ℕ → ℕ
fitted_elems limit size =
    let fitted = if ltb limit size then limit else size in
    let num_elems = (fitted / 4) % 2 ^ 32 in num_elems - num_elems % required_iteration_divisor

-- `num_elems * sizeof(cl_uint)`
unfoldable pub buffer_size : ℕ → ℕ
buffer_size num_elems = num_elems * 4

-- `data[i] = v`
abbrev pub store : List ℕ → ℕ → ℕ → Run (List ℕ)
store data_buf i v = if ltb i (length data_buf) then done (set data_buf i v) else fault

-- the next index of the chain, where it does not end
pub next_index : ℕ → ℕ → ℕ
next_index num_elems newindex =
    if ltb num_elems newindex then newindex % ((num_elems + 2 ^ 32 - 1) % 2 ^ 32) else newindex

-- `while(true)` of `case _CACHE_STEP`, with a bound on its rounds
unfoldable pub cache_step_loop : ℕ → ℕ → ℕ → List ℕ → Run (List ℕ)
cache_step_loop zero num_elems index buf = no_fuel
cache_step_loop (suc f) num_elems index buf =
    let newindex = (index + cache_step_width) % 2 ^ 32 in
    elim (newindex == num_elems) [
      | true ↦ store buf index 0
      | false ↦ store buf index (next_index num_elems newindex) >>= λ buf'.
          cache_step_loop f num_elems (next_index num_elems newindex) buf'
    ]

-- `for` of `case _SEQUENTIAL`, with the rounds left and the counter
pub sequential_loop : ℕ → ℕ → List ℕ → Run (List ℕ)
sequential_loop zero i buf = done buf
sequential_loop (suc n) i buf =
    store buf i ((i + 1) % 2 ^ 32) >>= λ buf'. sequential_loop n (i + 1) buf'

-- `switch(layout)` on a buffer fresh from malloc
unfoldable pub prepare_data : ℕ → DataLayout → ℕ → List ℕ → Run (List ℕ)
unfolding cache_step_loop sequential_loop next_index
prepare_data fuel cache_step num_elems buf =
    store buf 0 1 >>= λ buf'. cache_step_loop fuel num_elems 1 buf'
prepare_data fuel sequential num_elems buf =
    sequential_loop num_elems 0 buf >>= λ buf'. store buf' ((num_elems + 2 ^ 32 - 1) % 2 ^ 32) 0

-- the result of the host's walk
pub record Walked : Type 0 where
  pub opcount : ℕ
  pub expected_result : ℕ

-- `opcount++`, and every 128th index added up
pub count_op : ℕ → Walked → Walked
count_op next w =
    let opcount' = (w.opcount + 1) % 2 ^ 32 in
    record {
      opcount = opcount';
      expected_result =
          if opcount' % required_iteration_divisor == 0
          then (w.expected_result + next) % 2 ^ 32
          else w.expected_result;
    }

-- `while(next)`, with a bound on its rounds
unfoldable pub check_loop : ℕ → List ℕ → ℕ → Walked → Run Walked
unfolding count_op
check_loop zero buf next w = if next == 0 then done w else no_fuel
check_loop (suc f) buf next w = elim (next == 0) [
  | true ↦ done w
  | false ↦ elim (ltb next (length buf)) [
    | false ↦ fault
    | true ↦ check_loop f buf (get_or buf next 0) (count_op (get_or buf next 0) w)
  ]
]

-- "check data layout and calculate expected result"
unfoldable pub check_layout : ℕ → ℕ → List ℕ → Run Walked
unfolding check_loop
check_layout fuel iterations buf =
    if ltb 0 (length buf)
    then (check_loop fuel buf (get_or buf 0 0) (record { opcount = 1; expected_result = 0 })
        >>= λ w. done (record w { expected_result = (w.expected_result * iterations) % 2 ^ 32 }))
    else fault
