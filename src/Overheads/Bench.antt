-- ===== src/Overheads/Bench.antt =====
-- What is run on a device, as calls of OpenCL. The times that events tell are left out.
use u_clbench.Base.{ℕ, zero, suc, ◌+◌, ltb, ◌||◌, if◌then◌else◌}
use u_clbench.Base.Int.{ℤ, negsuc}
use u_clbench.Opencl.{
  program, kernel, buffer, release, set_kernel_arg, build_program, enqueue_kernel, finish, Env,
  Action, Done, pure, return_with, ◌>>=◌, ◌>>◌, call, call_only, return_if_failed, new_or_fail,
  new_or_null, start_or_fail, event, wait_for_events, or_codes,
}

module _ {F : Type 0} (e : Env F) where
  -- the loop over the arguments: a buffer of one number for each, from `i` on, and `err` behind it
  unfoldable pub argument_loop : ℕ → ℕ → ℕ → ℤ → Action F ℤ
  unfolding new_or_null call or_codes
  argument_loop k zero i err = pure err
  argument_loop k (suc rounds) i err = do
    new_or_null e buffer 4
    err' ← call e (set_kernel_arg k i 8)
    argument_loop k rounds (i + 1) (or_codes err err')

  -- the ten rounds that are measured, with the variable `event`
  unfoldable pub invocation_loop : ℕ → ℕ → ℕ → Action F ℕ
  unfolding call_only start_or_fail
  invocation_loop k zero last = pure last
  invocation_loop k (suc rounds) last = do
    v ← start_or_fail e (enqueue_kernel k 1 1) (negsuc 0)
    call_only e finish
    call_only e wait_for_events
    invocation_loop k rounds v

  -- from the warm up call on, for kernel `k` of program `p`
  unfoldable pub rounds_on : ℕ → ℕ → Action F Done
  unfolding invocation_loop call call_only return_if_failed
  rounds_on k p = do
    err ← call e (enqueue_kernel k 1 1)
    return_if_failed e err (negsuc 0)
    call_only e finish
    last ← invocation_loop k 10 0
    call_only e (release event last)
    call_only e (release kernel k)
    call_only e (release program p)
    return_with e.success

  unfoldable pub run_kernel_benchmark : ℕ → ℕ → Action F Done
  unfolding argument_loop rounds_on call return_if_failed new_or_fail
  run_kernel_benchmark n_args n_lines =
      if ltb n_args 1 || ltb n_lines 1 then return_with (negsuc 0) else (do
        p ← new_or_fail e program 0 (negsuc 0)
        built ← call e (build_program p)
        return_if_failed e built (negsuc 0)
        k ← new_or_fail e kernel 0 (negsuc 0)
        arguments ← argument_loop k n_args 0 e.success
        return_if_failed e arguments (negsuc 0)
        rounds_on k p)
