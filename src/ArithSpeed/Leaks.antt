-- ===== src/ArithSpeed/Leaks.antt =====
-- What `run_benchmark` of arith_speed/arith_speed.cpp holds behind a run.
use u_clbench.Base.{ℕ, ◌*◌, ◌≡◌, refl, ap, ◌∙◌, Bool, not, Option, none, some, List, ◌∷◌}
use u_clbench.Base.Int.{ℤ, pos}
use u_clbench.Opencl.{
  program, kernel, buffer, event, write_buffer, read_buffer, set_kernel_arg, build_program,
  enqueue_kernel, get_profiling, finish, Log, Env, Session, ok, or_codes,
}
use u_clbench.Opencl.Held.{
  held, Released, Holds, Owes, Anything, Keeps, Keeps-call, Keeps-call_only, Keeps-without,
  Keeps-return_code, Keeps-new_or_fail, Keeps-start_or_fail, Keeps-new_or_null, Keeps-contents_seen,
  Keeps-pure,
}
use u_clbench.Opencl.Objects.{Object, or_none, without, without-head, without-second}
use u_clbench.Opencl.Triples.{After-ok, Triple-bind, Triple-pure, Triple-return, Triple-if}
use u_clbench.ArithSpeed.Bench.{
  build_kernel, transfer_to_device, transfer_from_device, set_arguments, time_between, time_taken,
  judged, run_on_buffers, run_benchmark,
}

module _ {F : Type 0} (e : Env F) (stamp : Log F → ℕ → ℕ) (P : Session F → Type 0)
    (zero_code : e.success ≡ pos 0) where
  one_ne : pos 1 ≡ e.success → ⊥
  one_ne w = let z = zero_code in cc

  build_kernel-Keeps :
      (valid : Bool) (os : List Object)
      → Keeps e P os (build_kernel e stamp valid) (λ k. (kernel, k) ∷ os)
  unfolding build_kernel
  build_kernel-Keeps valid os =
      Triple-if (not valid) (λ y. Triple-return (pos 1) (λ s h z. absurd (one_ne z)))
        λ n. Triple-bind (Keeps-new_or_fail e P os program 0 (pos 1) one_ne) λ p.
          Triple-bind (Keeps-call e P _ (build_program p) refl) λ built.
            Triple-bind (Keeps-return_code e P _ built (pos 1) one_ne) λ d.
              Triple-bind (Keeps-new_or_fail e P ((program, p) ∷ os) kernel 0 (pos 1) one_ne) λ k.
                Triple-bind (Keeps-without e P _ program p) λ d.
                  Triple-pure k
                    (λ s h r. h r ∙ ap (λ x. (kernel, k) ∷ x) (without-head (program, p) os))

  transfer_to_device-Keeps :
      (os : List Object) (b : ℕ) (v : List F)
      → Keeps e P os (transfer_to_device e stamp b v) (λ err. os)
  unfolding transfer_to_device
  transfer_to_device-Keeps os b v =
      Triple-bind (Keeps-call e P os (write_buffer b v) refl)
        λ err. Triple-bind (Keeps-call_only e P os finish refl) λ d. Keeps-pure e P os err

  transfer_from_device-Keeps :
      (os : List Object) (b bytes : ℕ)
      → Keeps e P os (transfer_from_device e stamp b bytes) (λ err. os)
  unfolding transfer_from_device
  transfer_from_device-Keeps os b bytes =
      Triple-bind (Keeps-call e P os (read_buffer b bytes) refl)
        λ err. Triple-bind (Keeps-call_only e P os finish refl) λ d. Keeps-pure e P os err

  set_arguments-Keeps :
      (os : List Object) (k : ℕ) → Keeps e P os (set_arguments e stamp k) (λ err. os)
  unfolding set_arguments
  set_arguments-Keeps os k =
      let set = λ (i bytes : ℕ). Keeps-call e P os (set_kernel_arg k i bytes) refl in
      Triple-bind (set 0 8) λ a.
        Triple-bind (set 1 8)
          λ b. Triple-bind (set 2 4) λ c. Keeps-pure e P os (or_codes (or_codes a b) c)

  time_between-Keeps : (os : List Object) → Keeps e P os (time_between e stamp) (λ t. os)
  unfolding time_between
  time_between-Keeps os = record { runs = λ s h. h }

  time_taken-Keeps : (os : List Object) → Keeps e P os (time_taken e stamp) (λ t. os)
  unfolding time_taken
  time_taken-Keeps os =
      Triple-bind (Keeps-call_only e P os (get_profiling 0) refl)
        λ d. Triple-bind (Keeps-call_only e P os (get_profiling 1) refl) λ d. time_between-Keeps os

  module _ (width vec local_size global_size : ℕ) (data_set : List F)
      (differs : List F → Bool) where
    judged-Keeps :
        (os : List Object) (k v i o : ℕ) (results : List F)
        → Keeps e P
            ((event, v) ∷ (buffer, o) ∷ (buffer, i) ∷ (kernel, k) ∷ os)
            (judged e stamp width vec local_size global_size data_set differs k v i o results)
            (λ t. os)
    unfolding judged
    judged-Keeps os k v i o results =
        let all = (event, v) ∷ (buffer, o) ∷ (buffer, i) ∷ (kernel, k) ∷ os in
        Triple-if (differs results) (λ y. Triple-return (pos 1) (λ s h z. absurd (one_ne z)))
          (λ n. Triple-bind (time_taken-Keeps all) λ t.
            Triple-bind (Keeps-without e P all buffer i) λ d.
              Triple-bind (Keeps-without e P _ buffer o) λ d.
                Triple-bind (Keeps-without e P _ kernel k) λ d.
                  Triple-bind (Keeps-without e P _ event v)
                    λ d. Triple-pure t (λ s h r. h r ∙ released os k v i o))
      where
        released :
            (os : List Object) (k v i o : ℕ)
            → without
                (event, v)
                (without
                  (kernel, k)
                  (without
                    (buffer, o)
                    (without
                      (buffer, i)
                      ((event, v) ∷ (buffer, o) ∷ (buffer, i) ∷ (kernel, k) ∷ os))))
              ≡ os
        released os k v i o =
            ap (λ x. without (event, v) ((event, v) ∷ without (kernel, k) (without (buffer, o) x)))
              (without-second buffer o i ((kernel, k) ∷ os))
            ∙ ap (λ x. without (event, v) ((event, v) ∷ without (kernel, k) x))
                (without-head (buffer, o) ((kernel, k) ∷ os))
            ∙ ap (λ x. without (event, v) ((event, v) ∷ x)) (without-head (kernel, k) os)
            ∙ without-head (event, v) os

    run_on_buffers-Keeps :
        (os : List Object) (k : ℕ) (i o : Option ℕ)
        → Keeps e P
            (or_none buffer o (or_none buffer i ((kernel, k) ∷ os)))
            (run_on_buffers e stamp width vec local_size global_size data_set differs k i o)
            (λ t. os)
    unfolding run_on_buffers
    run_on_buffers-Keeps os k none none = Triple-return (pos 1) (λ s h z. absurd (one_ne z))
    run_on_buffers-Keeps os k none (some o) = Triple-return (pos 1) (λ s h z. absurd (one_ne z))
    run_on_buffers-Keeps os k (some i) none = Triple-return (pos 1) (λ s h z. absurd (one_ne z))
    run_on_buffers-Keeps os k (some i) (some o) =
        let all = (buffer, o) ∷ (buffer, i) ∷ (kernel, k) ∷ os in
        let test = λ (err : ℤ). Keeps-return_code e P all err (pos 1) one_ne in
        Triple-bind (set_arguments-Keeps all k) λ a. Triple-bind (test a) λ d.
          Triple-bind (transfer_to_device-Keeps all i data_set) λ w. Triple-bind (test w) λ d.
            Triple-bind (Keeps-call_only e P all finish refl) λ d.
              Triple-bind
                (Keeps-start_or_fail e P all (enqueue_kernel k global_size local_size) (pos 1) refl
                  one_ne)
                λ v.
                  let more = (event, v) ∷ all in
                  let test' = λ (err : ℤ). Keeps-return_code e P more err (pos 1) one_ne in
                  Triple-bind (Keeps-call e P more finish refl) λ f. Triple-bind (test' f) λ d.
                    Triple-bind (transfer_from_device-Keeps more o (width * vec)) λ r.
                      Triple-bind (test' r) λ d.
                        Triple-bind (Keeps-contents_seen e P more o)
                          λ results. judged-Keeps os k v i o results

    run_benchmark-Keeps :
        (valid : Bool) (os : List Object)
        → Keeps e P os
            (run_benchmark e stamp width vec local_size global_size data_set differs valid)
            (λ t. os)
    unfolding run_benchmark
    run_benchmark-Keeps valid os = Triple-bind (build_kernel-Keeps valid os) λ k.
        Triple-bind (Keeps-new_or_null e P _ buffer (width * 2 * vec)) λ i.
          Triple-bind (Keeps-new_or_null e P _ buffer (width * global_size * vec))
            λ o. run_on_buffers-Keeps os k i o

-- Each run that ends with success, and whose releases all report success, has given back every
-- object that it created: the kernel, its program, both buffers and the event.
pub run_benchmark-held :
    {F : Type 0} (e : Env F) (stamp : Log F → ℕ → ℕ) (width vec local_size global_size : ℕ)
    (data_set : List F) (differs : List F → Bool) (valid : Bool)
    → e.success ≡ pos 0
    → (s : Session F) (t : ℕ)
    → (run_benchmark e stamp width vec local_size global_size data_set differs valid s).0 ≡ ok t
    → Released e.success
        (run_benchmark e stamp width vec local_size global_size data_set differs valid s).1.log
    → (held e.success
          (run_benchmark e stamp width vec local_size global_size data_set differs valid s).1.log
        ≡ held e.success s.log)
run_benchmark-held e stamp width vec local_size global_size data_set differs valid z s t p taken =
    let before = held e.success s.log in
    let o = run_benchmark e stamp width vec local_size global_size data_set differs valid s in
    After-ok (Owes e (Holds e before)) (Anything e) (λ t. Holds e before) o.0 t o.1
      ((run_benchmark-Keeps e stamp (Holds e before) z width vec local_size global_size data_set
          differs valid before).runs
        s (λ r. refl))
      p taken
