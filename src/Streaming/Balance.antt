-- ===== src/Streaming/Balance.antt =====
-- `measureLocalMemory` gives back what it took, where it reports success.
use u_clbench.Base.{
  ℕ, zero, suc, ◌*◌, ◌≡◌, refl, ap, ◌∙◌, Bool, true, false, Option, none, some, List, ◌∷◌,
}
use u_clbench.Base.Int.{ℤ, pos}
use u_clbench.Opencl.{
  program, kernel, buffer, set_kernel_arg, build_program, enqueue_kernel, finish, flush,
  release_or_null, Env, Session, returned, or_codes,
}
use u_clbench.Opencl.Held.{
  Holds, Keeps, Keeps-call, Keeps-call_only, Keeps-release, Keeps-without, Keeps-return_code,
  Keeps-new_or_fail, Keeps-new_or_null, Keeps-pure, Keeps-return, Keeps-held, held, Released,
}
use u_clbench.Opencl.Objects.{Object, without, without-head, without-second, without_three, or_none}
use u_clbench.Opencl.Triples.{Triple-bind, Triple-pure, Triple-last}
use u_clbench.Streaming.{Space, private_space, global_space, local_space, vector_bytes, local_bytes}
use u_clbench.Streaming.Measure.{
  Pair, mem_bytes, add_argument, set_arguments, warmup, run_loop, release_buffers, measure_round,
  measure_local_memory,
}

-- what is held for `g1` and `g2`
abbrev with_pair : Space → Pair → List Object → List Object
with_pair private_space g os = os
with_pair global_space g os = or_none buffer g.1 (or_none buffer g.0 os)
with_pair local_space g os = os

abbrev or_null_without : Option ℕ → List Object → List Object
or_null_without none os = os
or_null_without (some o) os = without (buffer, o) os

-- The pair is given back behind the buffer below it.
pair-gone :
    (output : ℕ) (g : Pair) (os : List Object)
    → or_null_without g.1 (
        or_null_without g.0
          (without (buffer, output) (with_pair global_space g ((buffer, output) ∷ os))))
      ≡ os
pair-gone output (none, none) os = without-head (buffer, output) os
pair-gone output (some a, none) os =
    ap (without (buffer, a)) (without-second buffer a output os) ∙ without-head (buffer, a) os
pair-gone output (none, some b) os =
    ap (without (buffer, b)) (without-second buffer b output os) ∙ without-head (buffer, b) os
pair-gone output (some a, some b) os = without_three buffer output a b os

module _ {F : Type 0} (e : Env F) (before : List Object) (zero_code : e.success ≡ pos 0) where
  one_ne : pos 1 ≡ e.success → ⊥
  one_ne w = let z = zero_code in cc

  add_argument-Keeps :
      (os : List Object) (k i bytes : ℕ) (err : ℤ)
      → Keeps e (Holds e before) os (add_argument e k i bytes err) (λ x. os)
  unfolding add_argument
  add_argument-Keeps os k i bytes err =
      Triple-bind (Keeps-call e (Holds e before) os (set_kernel_arg k i bytes) refl)
        λ err'. Keeps-pure e (Holds e before) os (or_codes err err')

  set_arguments-Keeps :
      (os : List Object) (space : Space) (f4 elements : ℕ) (larg : Bool) (k : ℕ) (err : ℤ)
      → Keeps e
          (Holds e before)
          os
          (set_arguments e space f4 elements larg k err)
          (λ r. with_pair space r.0 os)
  unfolding set_arguments
  set_arguments-Keeps os private_space f4 elements larg k err =
      Triple-pure ((none, none), err) (λ s h. h)
  set_arguments-Keeps os global_space f4 elements larg k err =
      Triple-bind (Keeps-new_or_null e (Holds e before) os buffer (vector_bytes f4 * elements))
        λ g1.
          Triple-bind
            (Keeps-new_or_null e (Holds e before) _ buffer (vector_bytes f4 * elements * 2))
            λ g2. Triple-bind (add_argument-Keeps _ k 1 mem_bytes err) λ err1.
              Triple-bind (add_argument-Keeps _ k 2 mem_bytes err1)
                λ err2. Triple-pure ((g1, g2), err2) (λ s h. h)
  set_arguments-Keeps os local_space f4 elements true k err =
      Triple-bind (add_argument-Keeps os k 1 (local_bytes f4 * elements) err) λ err1.
        Triple-bind (add_argument-Keeps os k 2 (local_bytes f4 * elements * 2) err1)
          λ err2. Triple-pure ((none, none), err2) (λ s h. h)
  set_arguments-Keeps os local_space f4 elements false k err =
      Triple-pure ((none, none), err) (λ s h. h)

  warmup-Keeps :
      (os : List Object) (k local global_size : ℕ)
      → Keeps e (Holds e before) os (warmup e k local global_size) (λ err. os)
  unfolding warmup
  warmup-Keeps os k local global_size =
      let run = Keeps-call e (Holds e before) os (enqueue_kernel k global_size local) refl in
      let wait = Keeps-call_only e (Holds e before) os finish refl in
      Triple-bind run λ x. Triple-bind wait λ x. Triple-bind run λ x.
        Triple-bind wait
          λ x. Triple-bind run λ err. Triple-bind wait λ x. Keeps-pure e (Holds e before) os err

  run_loop-Keeps :
      (os : List Object) (k local global_size n : ℕ) (err : ℤ)
      → Keeps e (Holds e before) os (run_loop e k local global_size n err) (λ x. os)
  unfolding run_loop
  run_loop-Keeps os k local global_size zero err = Keeps-pure e (Holds e before) os err
  run_loop-Keeps os k local global_size (suc n) err =
      Triple-bind (Keeps-call e (Holds e before) os (enqueue_kernel k global_size local) refl)
        λ err'. Triple-bind (Keeps-return_code e (Holds e before) os err' (pos 1) one_ne) λ x.
          Triple-bind (Keeps-call_only e (Holds e before) os flush refl)
            λ x. run_loop-Keeps os k local global_size n err'

  release_or_null-Keeps :
      (os : List Object) (o : Option ℕ)
      → Keeps e (Holds e before) os (release_or_null e buffer o) (λ d. or_null_without o os)
  unfolding release_or_null
  release_or_null-Keeps os none = Keeps-pure e (Holds e before) os tt
  release_or_null-Keeps os (some o) = Keeps-without e (Holds e before) os buffer o

  release_buffers-Keeps :
      (os : List Object) (space : Space) (output : ℕ) (g : Pair)
      → Keeps e
          (Holds e before)
          (with_pair space g ((buffer, output) ∷ os))
          (release_buffers e space output g)
          (λ d. os)
  unfolding release_buffers
  release_buffers-Keeps os private_space output g =
      Keeps-release e (Holds e before) os buffer output
  release_buffers-Keeps os global_space output g =
      Triple-bind (Keeps-without e (Holds e before) _ buffer output) λ x.
        Triple-bind (release_or_null-Keeps _ g.0)
          λ x. Triple-last (release_or_null-Keeps _ g.1) (λ d s p r. p r ∙ pair-gone output g os)
  release_buffers-Keeps os local_space output g = Keeps-release e (Holds e before) os buffer output

  below_kernel :
      (k p : ℕ) (os : List Object)
      → without (program, p) ((kernel, k) ∷ (program, p) ∷ os) ≡ (kernel, k) ∷ os
  below_kernel k p os = ap (◌∷◌ (kernel, k)) (without-head (program, p) os)

  measure_round-Keeps :
      (space : Space) (f4 elements iterations : ℕ) (larg : Bool) (local global_size : ℕ)
      → Keeps e
          (Holds e before)
          before
          (measure_round e space f4 elements iterations larg local global_size)
          (λ err. before)
  unfolding measure_round
  measure_round-Keeps space f4 elements iterations larg local global_size =
      Triple-bind (Keeps-new_or_fail e (Holds e before) before program 0 (pos 1) one_ne) λ p.
        Triple-bind (Keeps-call e (Holds e before) _ (build_program p) refl) λ built.
          Triple-bind (Keeps-return_code e (Holds e before) _ built (pos 1) one_ne) λ x.
            Triple-bind (Keeps-new_or_fail e (Holds e before) _ kernel 0 (pos 1) one_ne) λ k.
              Triple-bind
                (Keeps-new_or_fail e (Holds e before) _ buffer (4 * global_size) (pos 1) one_ne)
                λ output. Triple-bind (add_argument-Keeps _ k 0 mem_bytes e.success) λ err0.
                  Triple-bind (set_arguments-Keeps _ space f4 elements larg k err0) λ arguments.
                    Triple-bind (Keeps-return_code e (Holds e before) _ arguments.1 (pos 1) one_ne)
                      λ x. Triple-bind (warmup-Keeps _ k local global_size) λ warm.
                        Triple-bind (run_loop-Keeps _ k local global_size iterations warm) λ err.
                          Triple-bind (Keeps-call_only e (Holds e before) _ finish refl) λ x.
                            Triple-bind (release_buffers-Keeps _ space output arguments.0) λ x.
                              Triple-bind
                                (Triple-last (Keeps-without e (Holds e before) _ program p)
                                  (λ d s h r. h r ∙ below_kernel k p before))
                                λ x.
                                  Triple-bind (Keeps-release e (Holds e before) before kernel k)
                                    λ x. Keeps-pure e (Holds e before) before err

module _ {F : Type 0} (e : Env F) (zero_code : e.success ≡ pos 0) where
  measure_local_memory-Keeps :
      (before : List Object) (space : Space) (f4 elements iterations : ℕ) (larg : Bool)
      (local global_size : ℕ)
      → Keeps e
          (Holds e before)
          before
          (measure_local_memory e space f4 elements iterations larg local global_size)
          (λ d. before)
  unfolding measure_local_memory
  measure_local_memory-Keeps before space f4 elements iterations larg local global_size =
      Triple-bind (measure_round-Keeps e before zero_code space f4 elements iterations larg 1 1)
        λ x.
          Triple-bind
            (measure_round-Keeps e before zero_code space f4 elements iterations larg local
              global_size)
            λ err. Keeps-return e before (λ d. before) err

  -- Where the function returns success, which is 0, and every release in the log reported success,
  -- both of its rounds have given back the program, the kernel and the buffers that they created,
  -- whatever error codes OpenCL gave to the other calls, and also where a buffer in global memory
  -- could not be created: the same objects are held as when it was called.
  pub measure_local_memory-held :
      (space : Space) (f4 elements iterations : ℕ) (larg : Bool) (local global_size : ℕ)
      (s : Session F)
      → (measure_local_memory e space f4 elements iterations larg local global_size s).0
        ≡ returned e.success
      → Released e.success
          (measure_local_memory e space f4 elements iterations larg local global_size s).1.log
      → held e.success
          (measure_local_memory e space f4 elements iterations larg local global_size s).1.log
        ≡ held e.success s.log
  measure_local_memory-held space f4 elements iterations larg local global_size s h r =
      Keeps-held e _ (λ b d. b)
        (λ b. measure_local_memory-Keeps b space f4 elements iterations larg local global_size) s h
        r
