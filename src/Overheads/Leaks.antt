-- ===== src/Overheads/Leaks.antt =====
-- What `run_kernel_benchmark` of kernel_overheads/kernel_overheads.cpp holds behind a run.
use u_clbench.Base.{
  ℕ, zero, suc, ◌+◌, ◌≡◌, refl, ap, ◌∙◌, arith, true, none, some, List, [], ◌∷◌, ◌++◌, length,
  length-append, ltb, ◌||◌, if◌then◌else◌,
}
use u_clbench.Base.Int.{ℤ, pos, negsuc, ◌==ℤ◌, ==ℤ_self}
use u_clbench.Opencl.{
  program, kernel, buffer, event, wait_for_events, create, set_kernel_arg, build_program,
  enqueue_kernel, finish, Log, Env, Session, returned, or_codes, new_or_null,
}
use u_clbench.Opencl.Held.{
  Holds, Owes, Anything, Keeps-call, Keeps-call_only, Keeps-without, Keeps-release,
  Keeps-start_or_fail, Keeps-return_code, Keeps-new_or_fail, held, Released,
}
use u_clbench.Opencl.Objects.{Object, without, without-head}
use u_clbench.Opencl.Triples.{
  Triple, Triple-bind, Triple-pure, Triple-last, Triple-return, Triple-if, Triple-exists,
  Triple-new_object, After-returned,
}
use u_clbench.Overheads.Bench.{argument_loop, invocation_loop, rounds_on, run_kernel_benchmark}

-- buffers by their numbers, above other objects
abbrev pub above : List ℕ → List Object → List Object
above [] os = os
above (b ∷ bs) os = (buffer, b) ∷ above bs os

above-append :
    (bs : List ℕ) (b : ℕ) (os : List Object) → above bs ((buffer, b) ∷ os) ≡ above (bs ++ b ∷ []) os
above-append [] b os = refl
above-append (c ∷ bs) b os = ap (◌∷◌ (buffer, c)) (above-append bs b os)

-- events by their numbers, above other objects
abbrev pub events : List ℕ → List Object → List Object
events [] os = os
events (v ∷ vs) os = (event, v) ∷ events vs os

events-append :
    (vs : List ℕ) (v : ℕ) (os : List Object)
    → events vs ((event, v) ∷ os) ≡ events (vs ++ v ∷ []) os
events-append [] v os = refl
events-append (w ∷ vs) v os = ap (◌∷◌ (event, w)) (events-append vs v os)

without-below_events :
    (vs : List ℕ) (os : List Object) (k : ℕ)
    → (without (kernel, k) (events vs os) ≡ events vs (without (kernel, k) os))
      × (without (program, k) (events vs os) ≡ events vs (without (program, k) os))
without-below_events [] os k = (refl, refl)
without-below_events (v ∷ vs) os k =
    let (p, q) = without-below_events vs os k in (ap (◌∷◌ (event, v)) p, ap (◌∷◌ (event, v)) q)

without-kernel :
    (k : ℕ) (bs : List ℕ) (os : List Object)
    → without (kernel, k) (above bs os) ≡ above bs (without (kernel, k) os)
without-kernel k [] os = refl
without-kernel k (b ∷ bs) os = ap (◌∷◌ (buffer, b)) (without-kernel k bs os)

without-program :
    (k : ℕ) (bs : List ℕ) (os : List Object)
    → without (program, k) (above bs os) ≡ above bs (without (program, k) os)
without-program k [] os = refl
without-program k (b ∷ bs) os = ap (◌∷◌ (buffer, b)) (without-program k bs os)

module _ {F : Type 0} (e : Env F) (n_args : ℕ) (before : List Object)
    (zero_code : e.success ≡ pos 0)
    (created : (log : Log F) (o : ℕ) → e.status log (create buffer o 4) ≡ e.success) where
  -- as many buffers as arguments, above what was held
  abbrev With : ℕ → List Object → Session F → Type 0
  With n os s = (x : (bs : List ℕ) × (length bs ≡ n)) × Holds e (above x.0 os) s

  -- and nine events above these
  abbrev Left : Session F → Type 0
  Left s =
      (x : (bs : List ℕ) × (vs : List ℕ) × (length bs ≡ n_args) × (length vs ≡ 9)) × Holds e
        (events x.1 (above x.0 before)) s

  one_ne : negsuc 0 ≡ e.success → ⊥
  one_ne w = let z = zero_code in cc

  new_buffer-Keeps :
      (os : List Object)
      → Triple
          (Owes e Left)
          (Anything e)
          (Holds e os)
          (new_or_null e buffer 4)
          (λ o s. (b : ℕ) × Holds e ((buffer, b) ∷ os) s)
  unfolding new_or_null
  new_buffer-Keeps os =
      Triple-bind {Q = λ x s. Holds e ((buffer, x.0) ∷ os) s}
        (Triple-new_object e buffer 4 (λ s err p w.
          let q : (err ==ℤ e.success) ≡ true = rw (w ∙ created s.log s.next) (==ℤ_self e.success) in
          λ r. rw q (ap (◌∷◌ (buffer, s.next)) (p r))))
        (λ x. Triple-pure (if x.1 ==ℤ e.success then some x.0 else none) (λ s p. (x.0, p)))

  argument_loop-With :
      (k n i : ℕ) (err : ℤ) (os : List Object)
      → Triple (Owes e Left) (Anything e) (Holds e os) (argument_loop e k n i err) (λ x. With n os)
  unfolding argument_loop
  argument_loop-With k zero i err os = Triple-pure err (λ s p. (([], refl), p))
  argument_loop-With k (suc n) i err os = Triple-bind (new_buffer-Keeps os) λ o. Triple-exists λ b.
      Triple-bind (Keeps-call e Left ((buffer, b) ∷ os) (set_kernel_arg k i 8) refl) λ err'.
        Triple-last (argument_loop-With k n (i + 1) (or_codes err err') ((buffer, b) ∷ os))
          (λ x s ((bs, l), h). (
            (bs ++ b ∷ [], omega (arith, length-append {0} bs (b ∷ []))),
            λ r. h r ∙ above-append bs b os,
          ))

  -- the events of the rounds before the last stay
  abbrev Rounds : List Object → ℕ → ℕ → Session F → Type 0
  Rounds os n last s =
      (x : (vs : List ℕ) × (length vs ≡ n)) × Holds e ((event, last) ∷ events x.0 os) s

  invocation_loop-Rounds :
      (k n last : ℕ) (os : List Object)
      → Triple
          (Owes e Left)
          (Anything e)
          (Holds e ((event, last) ∷ os))
          (invocation_loop e k n last)
          (Rounds os n)
  unfolding invocation_loop
  invocation_loop-Rounds k zero last os = Triple-pure last (λ s p. (([], refl), p))
  invocation_loop-Rounds k (suc n) last os =
      let os' = (event, last) ∷ os in
      Triple-bind (Keeps-start_or_fail e Left os' (enqueue_kernel k 1 1) (negsuc 0) refl one_ne)
        λ v. Triple-bind (Keeps-call_only e Left ((event, v) ∷ os') finish refl) λ d.
          Triple-bind (Keeps-call_only e Left ((event, v) ∷ os') wait_for_events refl) λ d.
            Triple-last (invocation_loop-Rounds k n v os') (λ w s ((vs, l), h). (
              (vs ++ last ∷ [], omega (arith, length-append {0} vs (last ∷ []))),
              λ r. h r ∙ ap (◌∷◌ (event, w)) (events-append vs last os),
            ))

  -- the first round
  first_round-Rounds :
      (k n : ℕ) (os : List Object)
      → Triple (Owes e Left) (Anything e) (Holds e os) (invocation_loop e k (suc n) 0) (Rounds os n)
  unfolding invocation_loop
  first_round-Rounds k n os =
      Triple-bind (Keeps-start_or_fail e Left os (enqueue_kernel k 1 1) (negsuc 0) refl one_ne) λ v.
        Triple-bind (Keeps-call_only e Left ((event, v) ∷ os) finish refl) λ d.
          Triple-bind (Keeps-call_only e Left ((event, v) ∷ os) wait_for_events refl)
            λ d. invocation_loop-Rounds k n v os

  -- the rounds and the releases, with a certain list of buffers above
  rounds_on-Left :
      (k p : ℕ) (bs : List ℕ)
      → length bs ≡ n_args
      → Triple
          (Owes e Left)
          (Anything e)
          (Holds e (above bs ((kernel, k) ∷ (program, p) ∷ before)))
          (rounds_on e k p)
          (λ d s. ⊥)
  unfolding rounds_on
  rounds_on-Left k p bs l =
      let os = above bs ((kernel, k) ∷ (program, p) ∷ before) in
      Triple-bind (Keeps-call e Left os (enqueue_kernel k 1 1) refl) λ err.
        Triple-bind (Keeps-return_code e Left os err (negsuc 0) one_ne) λ d.
          Triple-bind (Keeps-call_only e Left os finish refl) λ d.
            Triple-bind (first_round-Rounds k 9 os) λ last. Triple-exists λ x.
              Triple-bind (Keeps-release e Left (events x.0 os) event last) λ d.
                Triple-bind (Keeps-without e Left (events x.0 os) kernel k) λ d.
                  Triple-bind (Keeps-without e Left _ program p) λ d.
                    Triple-return e.success
                      (λ s h w. ((bs, x.0, l, x.1), λ r. h r ∙ released k p bs x.0))
    where
      released :
          (k p : ℕ) (bs vs : List ℕ)
          → without
              (program, p)
              (without (kernel, k) (events vs (above bs ((kernel, k) ∷ (program, p) ∷ before))))
            ≡ events vs (above bs before)
      released k p bs vs =
          ap (without (program, p)) (
            (without-below_events vs (above bs ((kernel, k) ∷ (program, p) ∷ before)) k).0
            ∙ ap (events vs) (
                without-kernel k bs ((kernel, k) ∷ (program, p) ∷ before)
                ∙ ap (above bs) (without-head (kernel, k) ((program, p) ∷ before))))
          ∙ (without-below_events vs (above bs ((program, p) ∷ before)) p).1
          ∙ ap (events vs) (
              without-program p bs ((program, p) ∷ before)
              ∙ ap (above bs) (without-head (program, p) before))

  run_kernel_benchmark-Left :
      (n_lines : ℕ)
      → Triple
          (Owes e Left)
          (Anything e)
          (Holds e before)
          (run_kernel_benchmark e n_args n_lines)
          (λ d s. ⊥)
  unfolding run_kernel_benchmark
  run_kernel_benchmark-Left n_lines =
      Triple-if (ltb n_args 1 || ltb n_lines 1)
        (λ t. Triple-return (negsuc 0) (λ s h w. absurd (one_ne w)))
        λ f. Triple-bind (Keeps-new_or_fail e Left before program 0 (negsuc 0) one_ne) λ p.
          Triple-bind (Keeps-call e Left _ (build_program p) refl) λ built.
            Triple-bind (Keeps-return_code e Left _ built (negsuc 0) one_ne) λ d.
              Triple-bind
                (Keeps-new_or_fail e Left ((program, p) ∷ before) kernel 0 (negsuc 0) one_ne)
                λ k.
                  Triple-bind
                    (argument_loop-With k n_args 0 e.success ((kernel, k) ∷ (program, p) ∷ before))
                    λ x. Triple-exists λ y.
                      Triple-bind (Keeps-return_code e Left _ x (negsuc 0) one_ne)
                        λ d. rounds_on-Left k p y.0 y.1

-- Where OpenCL creates the buffers that are asked for and every release in the log reports success,
-- each run that reports success leaves as many buffers behind as the kernel has arguments, and nine
-- of its ten events, above what was held before, and nothing else.
pub run_kernel_benchmark-held :
    {F : Type 0} (e : Env F) (n_args n_lines : ℕ)
    → e.success ≡ pos 0
    → ((log : Log F) (o : ℕ) → e.status log (create buffer o 4) ≡ e.success)
    → (s : Session F) → (run_kernel_benchmark e n_args n_lines s).0 ≡ returned e.success
    → Released e.success (run_kernel_benchmark e n_args n_lines s).1.log
    → (bs : List ℕ) × (vs : List ℕ) × (length bs ≡ n_args)
      × (length vs ≡ 9)
      × (held e.success (run_kernel_benchmark e n_args n_lines s).1.log
          ≡ events vs (above bs (held e.success s.log)))
run_kernel_benchmark-held e n_args n_lines z c s w taken =
    let before = held e.success s.log in
    let r = run_kernel_benchmark e n_args n_lines s in
    let (x, h) =
      After-returned (Owes e (Left e n_args before z c)) (Anything e) (λ d t. ⊥) r.0 e.success r.1
        ((run_kernel_benchmark-Left e n_args before z c n_lines).runs s (λ y. refl)) w refl in
    (x.0, x.1, x.2, x.3, h taken)
