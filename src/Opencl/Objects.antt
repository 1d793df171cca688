-- ===== src/Opencl/Objects.antt =====
-- Objects as kinds with numbers, and lists of those that are held.
use mathlib.Core.Path.{subst}
use u_clbench.Base.{
  Option, none, some, ◌≢◌, ℕ, ◌≡◌, refl, sym, ◌∙◌, ap, Bool, List, [], ◌∷◌, ◌&&◌, ◌==◌, ==_self,
  ==_ne, ℕ_discrete, if◌then◌else◌,
}
use u_clbench.Opencl.{Kind, context, queue, program, kernel, buffer, region, event}

-- an object, by its kind and its number
abbrev pub Object : Type 0
Object = Kind × ℕ

abbrev pub kind_number : Kind → ℕ
kind_number context = 0
kind_number queue = 1
kind_number program = 2
kind_number kernel = 3
kind_number buffer = 4
kind_number region = 5
kind_number event = 6

abbrev pub same_object : Object → Object → Bool
same_object (k, a) (l, b) = kind_number k == kind_number l && a == b

abbrev pub without : Object → List Object → List Object
without o [] = []
without o (p ∷ ps) = if same_object o p then ps else p ∷ without o ps

pub without-head : (o : Object) (os : List Object) → without o (o ∷ os) ≡ os
without-head (k, a) os = rw (==_self (kind_number k), ==_self a) refl

-- The object below the first one, of the same kind, is taken out.
pub without-second :
    (k : Kind) (a b : ℕ) (os : List Object) → without (k, b) ((k, a) ∷ (k, b) ∷ os) ≡ (k, a) ∷ os
without-second k a b os = elim (ℕ_discrete b a) [
  | yes h ↦ rw (==_self (kind_number k), h, ==_self a) refl
  | no h ↦ rw (==_self (kind_number k), ==_ne b a h, ==_self b) refl
]

-- what is held for a pointer
abbrev pub or_none : Kind → Option ℕ → List Object → List Object
or_none k none os = os
or_none k (some o) os = (k, o) ∷ os

pub without-ne :
    (k : Kind) (a b : ℕ) (os : List Object)
    → b ≢ a
    → without (k, b) ((k, a) ∷ os) ≡ (k, a) ∷ without (k, b) os
without-ne k a b os h = rw (==_self (kind_number k), ==_ne b a h) refl

-- three objects of a kind, the oldest given back first
pub without_three :
    (k : Kind) (a b c : ℕ) (os : List Object)
    → without (k, c) (without (k, b) (without (k, a) ((k, c) ∷ (k, b) ∷ (k, a) ∷ os))) ≡ os
without_three k a b c os = elim (ℕ_discrete a c) [
  | yes p ↦
      subst
        (λ x. without (k, c) (without (k, b) (without (k, x) ((k, c) ∷ (k, b) ∷ (k, x) ∷ os))) ≡ os)
        (sym p)
        (ap (λ x. without (k, c) (without (k, b) x)) (without-head (k, c) ((k, b) ∷ (k, c) ∷ os))
          ∙ ap (without (k, c)) (without-head (k, b) ((k, c) ∷ os))
          ∙ without-head (k, c) os)
  | no n ↦
      let first : without (k, a) ((k, c) ∷ (k, b) ∷ (k, a) ∷ os) ≡ (k, c) ∷ (k, b) ∷ os =
        without-ne k c a ((k, b) ∷ (k, a) ∷ os) n ∙ ap (◌∷◌ (k, c)) (without-second k b a os) in
      ap (λ x. without (k, c) (without (k, b) x)) first
      ∙ ap (without (k, c)) (without-second k c b os)
      ∙ without-head (k, c) os
]
