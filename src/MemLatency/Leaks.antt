-- ===== src/MemLatency/Leaks.antt =====
-- What `run_latency_benchmark` of mem_latency/mem_latency.cpp holds behind a run.
use u_clbench.Base.{
  ℕ, ◌%◌, ◌^◌, ◌≡◌, refl, ap, ◌∙◌, Option, none, some, List, ◌∷◌, length, get_or, true,
}
use u_clbench.Base.Int.{ℤ, pos}
use u_clbench.Opencl.{
  queue, program, kernel, buffer, write_buffer, read_buffer, set_kernel_value, build_program,
  enqueue_kernel, get_profiling, finish, wait_for_events, Log, Env, Session, ok, Call, or_codes,
}
use u_clbench.Opencl.Held.{
  held, Released, Holds, Owes, Anything, is_quiet, Keeps, Keeps-call, Keeps-without,
  Keeps-return_code, Keeps-new_or_fail, Keeps-new_or_null, Keeps-contents_seen,
}
use u_clbench.Opencl.Objects.{Object, or_none, without, without-head, without-second}
use u_clbench.Opencl.Triples.{Triple, After-ok, Triple-bind, Triple-pure, Triple-return}
use u_clbench.MemLatency.{Walked, buffer_size}
use u_clbench.MemLatency.Bench.{
  Report, report, time_seen, both_or_fail, run_kernel, read_result, with_buffers, latency_calls,
}

module _ (e : Env ℕ) (stamp : Log ℕ → ℕ → ℕ) (P : Session ℕ → Type 0)
    (zero_code : e.success ≡ pos 0) where
  one_ne : pos 1 ≡ e.success → ⊥
  one_ne w = let z = zero_code in cc

  time_seen-Keeps : (os : List Object) (i : ℕ) → Keeps e P os (time_seen e stamp i) (λ t. os)
  unfolding time_seen
  time_seen-Keeps os i = record { runs = λ s p. p }

  both_or_fail-Keeps :
      (os : List Object) (c d : Call ℕ)
      → is_quiet c ≡ true
      → is_quiet d ≡ true
      → Keeps e P os (both_or_fail e stamp c d) (λ x. os)
  unfolding both_or_fail
  both_or_fail-Keeps os c d p q = Triple-bind (Keeps-call e P os c p) λ a.
      Triple-bind (Keeps-call e P os d q)
        λ b. Keeps-return_code e P os (or_codes a b) (pos 1) one_ne

  run_kernel-Keeps :
      (os : List Object) (k input result : ℕ) (buf : List ℕ) (iterations : ℕ)
      → Keeps e P os (run_kernel e stamp k input result buf iterations) (λ t. os)
  unfolding run_kernel
  run_kernel-Keeps os k input result buf iterations =
      let test = λ (err : ℤ). Keeps-return_code e P os err (pos 1) one_ne in
      let set = λ (i n : ℕ). Keeps-call e P os (set_kernel_value k i n) refl in
      Triple-bind (both_or_fail-Keeps os (write_buffer input buf) finish refl refl) λ d.
        Triple-bind (set 0 input) λ arg0. Triple-bind (set 1 result) λ arg1.
          Triple-bind (set 2 (iterations % 2 ^ 32)) λ arg2.
            Triple-bind (test (or_codes (or_codes arg0 arg1) arg2)) λ d.
              Triple-bind (Keeps-call e P os (enqueue_kernel k 1 1) refl) λ started.
                Triple-bind (test started) λ d.
                  Triple-bind (both_or_fail-Keeps os finish wait_for_events refl refl) λ d.
                    Triple-bind
                      (both_or_fail-Keeps os (get_profiling 0) (get_profiling 1) refl refl)
                      λ d. Triple-bind (time_seen-Keeps os 0) λ t0.
                        Triple-bind (time_seen-Keeps os 1) λ t1. Triple-pure (t0, t1) (λ s p. p)

  read_result-Keeps :
      (os : List Object) (result : ℕ) → Keeps e P os (read_result e stamp result) (λ v. os)
  unfolding read_result
  read_result-Keeps os result =
      Triple-bind (both_or_fail-Keeps os (read_buffer result 4) finish refl refl) λ d.
        Triple-bind (Keeps-contents_seen e P os result) λ v. Triple-pure (get_or v 0 0) (λ s p. p)

  -- what a run leaves: the buffer for the result, above what was held
  abbrev pub ResultLeft : List Object → Report → Session ℕ → Type 0
  ResultLeft before r s = (b : ℕ) × Holds e ((buffer, b) ∷ before) s

  -- the objects in the order of their creation, given back from the second buffer on
  released :
      (q p k input result : ℕ) (before : List Object)
      → without
          (queue, q)
          (without
            (kernel, k)
            (without
              (program, p)
              (without
                (buffer, input)
                ((buffer, result)
                  ∷ (buffer, input)
                  ∷ (kernel, k)
                  ∷ (program, p)
                  ∷ (queue, q)
                  ∷ before))))
        ≡ (buffer, result) ∷ before
  released q p k input result before =
      ap (λ x. without (queue, q) (without (kernel, k) (without (program, p) x)))
        (without-second buffer result input ((kernel, k) ∷ (program, p) ∷ (queue, q) ∷ before))
      ∙ ap (λ x. without (queue, q) (without (kernel, k) ((buffer, result) ∷ (kernel, k) ∷ x)))
          (without-head (program, p) ((queue, q) ∷ before))
      ∙ ap (λ x. without (queue, q) ((buffer, result) ∷ x))
          (without-head (kernel, k) ((queue, q) ∷ before))
      ∙ ap (λ x. (buffer, result) ∷ x) (without-head (queue, q) before)

  with_buffers-ResultLeft :
      (before : List Object) (q p k : ℕ) (buf : List ℕ) (w : Walked) (iterations : ℕ)
      (i r : Option ℕ)
      → Triple
          (Owes e P)
          (Anything e)
          (Holds e (
            or_none buffer r (or_none buffer i ((kernel, k) ∷ (program, p) ∷ (queue, q) ∷ before))))
          (with_buffers e stamp q p k buf w iterations i r)
          (ResultLeft before)
  unfolding with_buffers
  with_buffers-ResultLeft before q p k buf w it none none =
      Triple-return (pos 1) (λ s h z. absurd (one_ne z))
  with_buffers-ResultLeft before q p k buf w it none (some r) =
      Triple-return (pos 1) (λ s h z. absurd (one_ne z))
  with_buffers-ResultLeft before q p k buf w it (some i) none =
      Triple-return (pos 1) (λ s h z. absurd (one_ne z))
  with_buffers-ResultLeft before q p k buf w it (some i) (some r) =
      Triple-bind (run_kernel-Keeps _ k i r buf it) λ times.
        Triple-bind (read_result-Keeps _ r) λ v. Triple-bind (Keeps-without e P _ buffer i) λ d.
          Triple-bind (Keeps-without e P _ program p) λ d.
            Triple-bind (Keeps-without e P _ kernel k) λ d.
              Triple-bind (Keeps-without e P _ queue q) λ d.
                Triple-pure (report buf w it times v)
                  (λ s h. (r, λ y. h y ∙ released q p k i r before))

  latency_calls-ResultLeft :
      (before : List Object) (file : ℕ) (buf : List ℕ) (w : Walked) (iterations : ℕ)
      → Triple
          (Owes e P)
          (Anything e)
          (Holds e before)
          (latency_calls e stamp file buf w iterations)
          (ResultLeft before)
  unfolding latency_calls
  latency_calls-ResultLeft before file buf w it =
      Triple-bind (Keeps-new_or_fail e P before queue 0 (pos 1) one_ne) λ q.
        Triple-bind (Keeps-new_or_fail e P _ program file (pos 1) one_ne) λ p.
          Triple-bind (Keeps-call e P _ (build_program p) refl) λ built.
            Triple-bind (Keeps-return_code e P _ built (pos 1) one_ne) λ d.
              Triple-bind (Keeps-new_or_fail e P _ kernel 0 (pos 1) one_ne) λ k.
                Triple-bind (Keeps-new_or_null e P _ buffer (buffer_size (length buf))) λ i.
                  Triple-bind (Keeps-new_or_null e P _ buffer 4)
                    λ r. with_buffers-ResultLeft before q p k buf w it i r

-- Each run that ends with success, and whose releases succeed, leaves one buffer behind, that for
-- the result, above what was held before, and nothing else but its event, which is no object here.
pub latency_calls-held :
    (e : Env ℕ) (stamp : Log ℕ → ℕ → ℕ) (file : ℕ) (buf : List ℕ) (w : Walked) (iterations : ℕ)
    → e.success ≡ pos 0
    → (s : Session ℕ) (r : Report) → (latency_calls e stamp file buf w iterations s).0 ≡ ok r
    → Released e.success (latency_calls e stamp file buf w iterations s).1.log
    → (b : ℕ) × (held e.success (latency_calls e stamp file buf w iterations s).1.log
        ≡ (buffer, b) ∷ held e.success s.log)
latency_calls-held e stamp file buf w iterations z s r p taken =
    let before = held e.success s.log in
    let o = latency_calls e stamp file buf w iterations s in
    let (b, h) =
      After-ok (Owes e (Holds e before)) (Anything e) (ResultLeft e stamp (Holds e before) z before)
        o.0 r o.1
        ((latency_calls-ResultLeft e stamp (Holds e before) z before file buf w iterations).runs s
          (λ y. refl))
        p in
    (b, h taken)
