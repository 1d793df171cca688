-- ===== src/ArithSpeed/Bench.antt =====
-- The calls of OpenCL that `genKernel` and `run_benchmark` of arith_speed/arith_speed.cpp make.
-- The times that events tell are a parameter. `valid` says whether OpenCL has a vector type for the
-- numbers of a work item, where the kernel needs one.
use u_clbench.Base.{ℕ, ◌+◌, ◌-◌, ◌*◌, ◌%◌, ◌^◌, Bool, not, Option, some, List, if◌then◌else◌}
use u_clbench.Base.Int.{ℤ, pos}
use u_clbench.Opencl.{
  program, kernel, buffer, release, write_buffer, read_buffer, set_kernel_arg, build_program,
  enqueue_kernel, get_profiling, finish, Log, Env, ok, Action, pure, return_with, ◌>>=◌, ◌>>◌, call,
  call_only, contents_seen, return_if_failed, new_or_fail, new_or_null, start_or_fail, event,
  or_codes,
}

module _ {F : Type 0} (e : Env F) (stamp : Log F → ℕ → ℕ) where
  -- the calls of `genKernel`, and "Invalid vector type"; where it gives NULL, `run_benchmark` returns 1
  unfoldable pub build_kernel : Bool → Action F ℕ
  unfolding call call_only return_if_failed new_or_fail
  build_kernel valid = if not valid then return_with (pos 1) else (do
    p ← new_or_fail e program 0 (pos 1)
    built ← call e (build_program p)
    return_if_failed e built (pos 1)
    k ← new_or_fail e kernel 0 (pos 1)
    call_only e (release program p)
    pure k)

  -- `transferDataToDevice` and `transferDataFromDevice`; the code of `clFinish` is dropped
  unfoldable pub transfer_to_device : ℕ → List F → Action F ℤ
  unfolding call call_only
  transfer_to_device device_data v = do
    err ← call e (write_buffer device_data v)
    call_only e finish
    pure err

  unfoldable pub transfer_from_device : ℕ → ℕ → Action F ℤ
  unfolding call call_only
  transfer_from_device device_data bytes = do
    err ← call e (read_buffer device_data bytes)
    call_only e finish
    pure err

  -- the three arguments, their codes joined
  unfoldable pub set_arguments : ℕ → Action F ℤ
  unfolding call or_codes
  set_arguments k = do
    arg0 ← call e (set_kernel_arg k 0 8)
    arg1 ← call e (set_kernel_arg k 1 8)
    arg2 ← call e (set_kernel_arg k 2 4)
    pure (or_codes (or_codes arg0 arg1) arg2)

  -- `time_end - time_start`
  unfoldable pub time_between : Action F ℕ
  time_between s = (ok ((stamp s.log 1 + 2 ^ 64 - stamp s.log 0) % 2 ^ 64), s)

  -- `*time_taken` in nanoseconds, behind both questions for it
  unfoldable pub time_taken : Action F ℕ
  unfolding call_only time_between
  time_taken = do call_only e (get_profiling 0); call_only e (get_profiling 1); time_between

  -- What is run: the bytes of a number, the numbers to a work item, the ranges, the data, and the
  -- check of the results, which says whether they differ.
  module _ (width vec local_size global_size : ℕ) (data_set : List F)
      (differs : List F → Bool) where
    -- behind the results: the check, the time and the releases
    unfoldable pub judged : ℕ → ℕ → ℕ → ℕ → List F → Action F ℕ
    unfolding time_taken call_only
    judged k v input output results = if differs results then return_with (pos 1) else (do
      nanoseconds ← time_taken
      call_only e (release buffer input)
      call_only e (release buffer output)
      call_only e (release kernel k)
      call_only e (release event v)
      pure nanoseconds)

    -- with kernel `k` and both buffers; NULL for one of them is an error
    unfoldable pub run_on_buffers : ℕ → Option ℕ → Option ℕ → Action F ℕ
    unfolding start_or_fail transfer_to_device transfer_from_device set_arguments judged call
        call_only return_if_failed contents_seen
    run_on_buffers k (some input) (some output) = do
      arguments ← set_arguments k
      return_if_failed e arguments (pos 1)
      wrote ← transfer_to_device input data_set
      return_if_failed e wrote (pos 1)
      call_only e finish
      v ← start_or_fail e (enqueue_kernel k global_size local_size) (pos 1)
      finished ← call e finish
      return_if_failed e finished (pos 1)
      read ← transfer_from_device output (width * vec)
      return_if_failed e read (pos 1)
      results ← contents_seen e output
      judged k v input output results
    run_on_buffers k _ _ = return_with (pos 1)

    -- the whole function; `return 0` is going on with the time
    unfoldable pub run_benchmark : Bool → Action F ℕ
    unfolding build_kernel new_or_null run_on_buffers
    run_benchmark valid = do
      k ← build_kernel valid
      input ← new_or_null e buffer (width * 2 * vec)
      output ← new_or_null e buffer (width * global_size * vec)
      run_on_buffers k input output
