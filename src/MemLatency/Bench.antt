-- ===== src/MemLatency/Bench.antt =====
-- The calls of OpenCL that `run_latency_benchmark` of mem_latency/mem_latency.cpp makes. Events are
-- no objects here; the times that they tell are a parameter.
use u_clbench.Base.{ℕ, ◌+◌, ◌-◌, ◌*◌, ◌%◌, ◌^◌, Bool, not, Option, some, List, ◌==◌, get_or, length}
use u_clbench.Base.Int.{pos}
use u_clbench.Base.Run.{Run, done, fault, no_fuel}
use u_clbench.Opencl.{
  queue, program, kernel, buffer, release, write_buffer, read_buffer, set_kernel_value,
  build_program, enqueue_kernel, get_profiling, finish, wait_for_events, Log, Env, Session, Outcome,
  ok, Call, Done, Action, pure, return_with, ◌>>=◌, ◌>>◌, call, call_only, contents_seen,
  return_if_failed, new_or_fail, new_or_null, or_codes,
}
use u_clbench.MemLatency.{MemType, global, constant, local, DataLayout, Limits, Walked, buffer_size}
use u_clbench.MemLatency.Host.{num_elems, prepared}

-- What a run gives back: whether it says "result mismatch", `*time_taken` in nanoseconds,
-- `*ops_performed`, and `size`, of which `*data_size_kb` is made.
pub record Report : Type 0 where
  pub mismatch : Bool
  pub nanoseconds : ℕ
  pub ops_performed : ℕ
  pub data_size : ℕ

-- what is given back, from the times of the run and the result that was read back
unfoldable pub report : List ℕ → Walked → ℕ → ℕ × ℕ → ℕ → Report
report buf w iterations times cl_result = record {
  mismatch = not (cl_result == w.expected_result);
  nanoseconds = (times.1 + 2 ^ 64 - times.0) % 2 ^ 64;
  ops_performed = iterations * w.opcount % 2 ^ 64;
  data_size = length buf * 4;
}

-- `source_path`: 0 is global_latency.cl, 1 local_latency.cl and 2 constant_latency.cl
unfoldable pub source_path : MemType → ℕ
source_path global = 0
source_path constant = 2
source_path local = 1

module _ (e : Env ℕ) (stamp : Log ℕ → ℕ → ℕ) where
  -- a time of the event, behind the log
  unfoldable pub time_seen : ℕ → Action ℕ ℕ
  time_seen i s = (ok (stamp s.log i), s)

  -- `err = ..; err |= ..;` and `return 1` where one of the two failed
  unfoldable pub both_or_fail : Call ℕ → Call ℕ → Action ℕ Done
  unfolding call return_if_failed or_codes
  both_or_fail c d = do
    err ← call e c
    err' ← call e d
    return_if_failed e (or_codes err err') (pos 1)

  -- the upload, the arguments and the run of kernel `k`, with the times of its start and end
  unfoldable pub run_kernel : ℕ → ℕ → ℕ → List ℕ → ℕ → Action ℕ (ℕ × ℕ)
  unfolding call return_if_failed or_codes both_or_fail time_seen
  run_kernel k input result buf iterations = do
    both_or_fail (write_buffer input buf) finish
    arg0 ← call e (set_kernel_value k 0 input)
    arg1 ← call e (set_kernel_value k 1 result)
    arg2 ← call e (set_kernel_value k 2 (iterations % 2 ^ 32))
    return_if_failed e (or_codes (or_codes arg0 arg1) arg2) (pos 1)
    started ← call e (enqueue_kernel k 1 1)
    return_if_failed e started (pos 1)
    both_or_fail finish wait_for_events
    both_or_fail (get_profiling 0) (get_profiling 1)
    time_start ← time_seen 0
    time_end ← time_seen 1
    pure (time_start, time_end)

  -- the result that is read back
  unfoldable pub read_result : ℕ → Action ℕ ℕ
  unfolding both_or_fail contents_seen
  read_result result = do
    both_or_fail (read_buffer result 4) finish
    shown ← contents_seen e result
    pure (get_or shown 0 0)

  -- with both buffers; NULL for one of them is an error
  unfoldable pub with_buffers :
      ℕ → ℕ → ℕ → List ℕ → Walked → ℕ → Option ℕ → Option ℕ → Action ℕ Report
  unfolding run_kernel read_result call_only report
  with_buffers q p k buf w iterations (some input) (some result) = do
    times ← run_kernel k input result buf iterations
    cl_result ← read_result result
    call_only e (release buffer input)
    call_only e (release program p)
    call_only e (release kernel k)
    call_only e (release queue q)
    pure (report buf w iterations times cl_result)
  with_buffers q p k buf w iterations _ _ = return_with (pos 1)

  -- from `clCreateCommandQueue` on, by the file of the kernel; `return 0` is going on with the report
  unfoldable pub latency_calls : ℕ → List ℕ → Walked → ℕ → Action ℕ Report
  unfolding with_buffers call return_if_failed new_or_fail new_or_null buffer_size
  latency_calls file buf w iterations = do
    q ← new_or_fail e queue 0 (pos 1)
    p ← new_or_fail e program file (pos 1)
    built ← call e (build_program p)
    return_if_failed e built (pos 1)
    k ← new_or_fail e kernel 0 (pos 1)
    input ← new_or_null e buffer (buffer_size (length buf))
    result ← new_or_null e buffer 4
    with_buffers q p k buf w iterations input result

  -- behind what the host prepares
  abbrev pub calls_behind :
      ℕ → Run (List ℕ × Walked) → ℕ → Session ℕ → Run (Outcome Report × Session ℕ)
  calls_behind file (done (buf, w)) iterations s = done (latency_calls file buf w iterations s)
  calls_behind file fault iterations s = fault
  calls_behind file no_fuel iterations s = no_fuel

  -- the whole function, on the buffer that `malloc` gives for the number of elements
  unfoldable pub run_latency_benchmark :
      (ℕ → List ℕ)
      → Limits
      → ℕ
      → MemType
      → DataLayout
      → ℕ
      → Session ℕ
      → Run (Outcome Report × Session ℕ)
  unfolding source_path num_elems prepared latency_calls
  run_latency_benchmark malloc info size mt layout iterations s =
      let n = num_elems mt info size in
      calls_behind (source_path mt) (prepared layout n iterations (malloc n)) iterations s
