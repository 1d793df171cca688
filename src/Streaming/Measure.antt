-- ===== src/Streaming/Measure.antt =====
-- `measureLocalMemory` and what runs it, as calls of OpenCL.
use u_clbench.Base.{ℕ, zero, suc, ◌*◌, Bool, true, false, Option, none}
use u_clbench.Base.Int.{ℤ, pos}
use u_clbench.Opencl.{
  context, queue, program, kernel, buffer, release, set_kernel_arg, build_program, enqueue_kernel,
  finish, flush, Env, Action, Done, pure, return_with, ◌>>=◌, ◌>>◌, call, call_only,
  return_if_failed, new_or_fail, new_or_null, new_or_return, release_or_null, or_codes,
}
use u_clbench.Streaming.{Space, private_space, global_space, local_space, vector_bytes, local_bytes}

-- `g1` and `g2`
abbrev pub Pair : Type 0
Pair = Option ℕ × Option ℕ

-- `sizeof(cl_mem)`
abbrev pub mem_bytes : ℕ
mem_bytes = 8

module _ {F : Type 0} (e : Env F) where
  -- `err |= clSetKernelArg(kernel, i, bytes, ..)`
  unfoldable pub add_argument : ℕ → ℕ → ℕ → ℤ → Action F ℤ
  unfolding call or_codes
  add_argument k i bytes err =
      call e (set_kernel_arg k i bytes) >>= λ err'. pure (or_codes err err')

  -- the arguments behind the first one
  unfoldable pub set_arguments : Space → ℕ → ℕ → Bool → ℕ → ℤ → Action F (Pair × ℤ)
  unfolding new_or_null add_argument vector_bytes local_bytes
  set_arguments private_space f4 elements larg k err = pure ((none, none), err)
  set_arguments global_space f4 elements larg k err = do
    g1 ← new_or_null e buffer (vector_bytes f4 * elements)
    g2 ← new_or_null e buffer (vector_bytes f4 * elements * 2)
    err1 ← add_argument k 1 mem_bytes err
    err2 ← add_argument k 2 mem_bytes err1
    pure ((g1, g2), err2)
  set_arguments local_space f4 elements true k err = do
    err1 ← add_argument k 1 (local_bytes f4 * elements) err
    err2 ← add_argument k 2 (local_bytes f4 * elements * 2) err1
    pure ((none, none), err2)
  set_arguments local_space f4 elements false k err = pure ((none, none), err)

  -- the WARMUP_CYCLES rounds of "warmup", which are three
  unfoldable pub warmup : ℕ → ℕ → ℕ → Action F ℤ
  unfolding call call_only
  warmup k local global_size = do
    err1 ← call e (enqueue_kernel k global_size local)
    call_only e finish
    err2 ← call e (enqueue_kernel k global_size local)
    call_only e finish
    err3 ← call e (enqueue_kernel k global_size local)
    call_only e finish
    pure err3

  -- "start actual measurement", with the rounds left and `err`
  unfoldable pub run_loop : ℕ → ℕ → ℕ → ℕ → ℤ → Action F ℤ
  unfolding call call_only return_if_failed
  run_loop k local global_size zero err = pure err
  run_loop k local global_size (suc n) err = do
    err' ← call e (enqueue_kernel k global_size local)
    return_if_failed e err' (pos 1)
    call_only e flush
    run_loop k local global_size n err'

  -- `output`, and `g1` and `g2` where the type is 2
  unfoldable pub release_buffers : Space → ℕ → Pair → Action F Done
  unfolding release_or_null call_only
  release_buffers private_space output g = call_only e (release buffer output)
  release_buffers global_space output g = do
    call_only e (release buffer output)
    release_or_null e buffer g.0
    release_or_null e buffer g.1
  release_buffers local_space output g = call_only e (release buffer output)

  -- one round of the loop over `ws`: `err` behind it
  unfoldable pub measure_round : Space → ℕ → ℕ → ℕ → Bool → ℕ → ℕ → Action F ℤ
  unfolding set_arguments warmup run_loop release_buffers new_or_fail call call_only
      return_if_failed add_argument
  measure_round space f4 elements iterations larg local global_size = do
    p ← new_or_fail e program 0 (pos 1)
    built ← call e (build_program p)
    return_if_failed e built (pos 1)
    k ← new_or_fail e kernel 0 (pos 1)
    output ← new_or_fail e buffer (4 * global_size) (pos 1)
    err0 ← add_argument k 0 mem_bytes e.success
    arguments ← set_arguments space f4 elements larg k err0
    return_if_failed e arguments.1 (pos 1)
    warm ← warmup k local global_size
    err ← run_loop k local global_size iterations warm
    call_only e finish
    release_buffers space output arguments.0
    call_only e (release program p)
    call_only e (release kernel k)
    pure err

  -- the round with one work-item and that with many, for which `local` and `global_size` are given
  unfoldable pub measure_local_memory : Space → ℕ → ℕ → ℕ → Bool → ℕ → ℕ → Action F Done
  unfolding measure_round
  measure_local_memory space f4 elements iterations larg local global_size = do
    measure_round space f4 elements iterations larg 1 1
    err ← measure_round space f4 elements iterations larg local global_size
    return_with err

  -- the context and the command queue
  unfoldable pub prepare_benchmark : Action F (ℕ × ℕ)
  unfolding new_or_return
  prepare_benchmark = do c ← new_or_return e context 0; q ← new_or_return e queue 0; pure (c, q)
