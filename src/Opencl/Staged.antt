-- ===== src/Opencl/Staged.antt =====
-- Code with calls of OpenCL, loops and memory: the main functions of the benchmarks.
use u_clbench.Base.{
  ℕ, zero, suc, ◌+◌, ◌/◌, ◌<◌, ◌≡◌, refl, ap, ◌∙◌, Bool, false, Option, none, some, arith, List, [],
  ◌∷◌, ◌++◌, ltb, All, if◌then◌else◌,
}
use u_clbench.Base.Int.{ℤ, pos, negsuc}
use u_clbench.Base.Run.{Run, done, fault, no_fuel}
use u_clbench.Opencl.{Session, Outcome, ok, returned, exited}

abbrev pub Staged : Type 0 → Type 0 → Type 0
Staged F A = Session F → Run (Outcome A × Session F)

abbrev pub behind :
    {F A B : Type 0} → Run (Outcome A × Session F) → (A → Staged F B) → Run (Outcome B × Session F)
behind (done (ok a, s)) k = k a s
behind (done (returned err, s)) k = done (returned err, s)
behind (done (exited code, s)) k = done (exited code, s)
behind fault k = fault
behind no_fuel k = no_fuel

-- a loop whose rounds give lists
unfoldable pub each : {F A B : Type 0} → (A → Staged F (List B)) → List A → Staged F (List B)
each f [] s = done (ok [], s)
each f (a ∷ as') s =
    behind (f a s) λ first s1. behind (each f as' s1) λ rest s2. done (ok (first ++ rest), s2)

-- `err > 0`
abbrev is_positive : ℤ → Bool
is_positive (pos n) = ltb 0 n
is_positive (negsuc n) = false

-- a round of a loop over `repeats`, behind the run: the time up to now, `none` for NAN
abbrev pub add_time : {A : Type 0} → (A → ℕ) → ℕ → Outcome A → Option ℕ
add_time nanoseconds time (ok r) = some (time + nanoseconds r)
add_time nanoseconds time (returned err) = if is_positive err then none else some time
add_time nanoseconds time (exited code) = none

-- the loop over `repeats`, which an error ends
unfoldable pub repeat_loop : {F A : Type 0} → (A → ℕ) → Staged F A → ℕ → ℕ → Staged F (Option ℕ)
repeat_loop nanoseconds run zero time s = done (ok (some time), s)
repeat_loop nanoseconds run (suc rounds) time s = elim (run s) [
  | done (o, s') ↦ elim (add_time nanoseconds time o) [
    | none ↦ done (ok none, s')
    | some time' ↦ repeat_loop nanoseconds run rounds time' s'
  ]
  | fault ↦ fault
  | no_fuel ↦ no_fuel
]

-- `time /= repeats`, in whole nanoseconds; 0 / 0 is not a number
unfoldable pub mean : ℕ → Option ℕ → Option ℕ
mean zero time = none
mean (suc n) none = none
mean (suc n) (some t) = some (t / suc n)

-- the code goes on with a result for which `Q` holds
abbrev pub Ends : {F A : Type 0} → Run (Outcome A × Session F) → (A → Type 0) → Type 0
Ends {F} {A} r Q = (a : A) × (s : Session F) × (r ≡ done (ok a, s)) × Q a

pub Ends-behind :
    {F A B : Type 0} {Q : A → Type 0} {T : B → Type 0} (r : Run (Outcome A × Session F))
    (k : A → Staged F B)
    → Ends r Q
    → ((a : A) (s : Session F) → Q a → Ends (k a s) T)
    → Ends (behind r k) T
Ends-behind r k (a, s, p, q) h =
    let (b, t, p', q') = h a s q in (b, t, ap (λ x. behind x k) p ∙ p', q')

-- A time that is a number.
abbrev pub Timed : Option ℕ → Type 0
Timed time = (t : ℕ) × (time ≡ some t)

pub Timed-mean : (n : ℕ) (time : Option ℕ) → 0 < n → Timed time → Timed (mean n time)
unfolding mean
Timed-mean zero time h t = absurd (omega arith)
Timed-mean (suc n) none h (t, p) = cc
Timed-mean (suc n) (some t) h u = (t / suc n, refl)

pub repeat_loop-Timed :
    {F A : Type 0} (nanoseconds : A → ℕ) (run : Staged F A)
    → ((s : Session F) → (r : A) × (t : Session F) × (run s ≡ done (ok r, t)))
    → (n time : ℕ) (s : Session F) → Ends (repeat_loop nanoseconds run n time s) Timed
unfolding repeat_loop
repeat_loop-Timed nanoseconds run h zero time s = (some time, s, refl, (time, refl))
repeat_loop-Timed nanoseconds run h (suc n) time s =
    let (r, t, p) = h s in
    let (a, u, q, w) = repeat_loop-Timed nanoseconds run h n (time + nanoseconds r) t in
    (a, u, rw (repeat_loop, p) q, w)

-- the lists that a function gives, behind one another
abbrev pub concat_map {ℓ} : {A : Type 0} {B : Type ℓ} → (A → List B) → List A → List B
concat_map f [] = []
concat_map f (a ∷ as') = f a ++ concat_map f as'

-- A loop gives what its rounds give, for a relation of lists that goes with `++`.
pub Ends-each :
    {F A B C : Type 0} (Rel : List C → List B → Type 0) (f : A → Staged F (List B)) (g : A → List C)
    (P : A → Type 0)
    → Rel [] []
    → ((x y : List C) (v w : List B) → Rel x v → Rel y w → Rel (x ++ y) (v ++ w))
    → ((a : A) (s : Session F) → P a → Ends (f a s) (Rel (g a)))
    → (as' : List A) (s : Session F) → All P as'
    → Ends (each f as' s) (Rel (concat_map g as'))
unfolding each
Ends-each Rel f g P none_of both h [] s p = ([], s, refl, none_of)
Ends-each Rel f g P none_of both h (a ∷ as') s (p, ps) = Ends-behind _ _ (h a s p) λ first s1 q.
    Ends-behind _ _ (Ends-each Rel f g P none_of both h as' s1 ps)
      λ rest s2 w. (first ++ rest, s2, refl, both (g a) (concat_map g as') first rest q w)
