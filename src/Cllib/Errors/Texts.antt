-- ===== src/Cllib/Errors/Texts.antt =====
-- The texts tell the error codes apart.
use u_clbench.Base.{
  ℕ, zero, suc, ◌≡◌, ◌<◌, refl, ◌∙◌, sym, ap, arith, Bool-cases, inl, inr, Bool, true, not, ◌&&◌,
  List, [], ◌∷◌, length, get_or,
}
use u_clbench.Base.Int.{ℤ, ◌==ℤ◌, ==ℤ_iff, ==ℤ_self}
use u_clbench.Base.Text.{Bytes, same, same_iff}
use u_clbench.Cllib.Errors.{cases, scan, ocl_error_string}

abbrev no_case : Bytes × Bytes
no_case = ([], [])

abbrev pub label : List (Bytes × Bytes) → ℕ → Bytes
label cs i = (get_or cs i no_case).0

abbrev pub text : List (Bytes × Bytes) → ℕ → Bytes
text cs i = (get_or cs i no_case).1

-- C refuses a `switch` with two equal labels.
abbrev pub Distinct : (Bytes → ℤ) → List (Bytes × Bytes) → Type 0
Distinct value cs =
    (i j : ℕ) → i < length cs → j < length cs → value (label cs i) ≡ value (label cs j) → i ≡ j

scan-label :
    (value : Bytes → ℤ) (cs : List (Bytes × Bytes)) (i : ℕ)
    → Distinct value cs
    → i < length cs
    → scan value (value (label cs i)) cs ≡ text cs i
unfolding scan
scan-label value [] i d h = absurd (omega arith)
scan-label value ((l, t) ∷ cs) zero d h = rw (==ℤ_self (value l))
scan-label value ((l, t) ∷ cs) (suc i) d h = elim (Bool-cases (value (label cs i) ==ℤ value l)) [
  | inl e ↦ absurd (omega (arith, d (suc i) 0 h (omega arith) ((==ℤ_iff _ _).0 e)))
  | inr e ↦ rw e (
      scan-label value cs i
        (λ a b p q w. omega (arith, d (suc a) (suc b) (omega arith) (omega arith) w)) (omega arith))
]

-- no text of the list is `t`
abbrev fresh : Bytes → List (Bytes × Bytes) → Bool
fresh t [] = true
fresh t ((l, u) ∷ cs) = not (same t u) && fresh t cs

abbrev distinct_texts : List (Bytes × Bytes) → Bool
distinct_texts [] = true
distinct_texts ((l, t) ∷ cs) = fresh t cs && distinct_texts cs

fresh-text :
    (t : Bytes) (cs : List (Bytes × Bytes)) (i : ℕ)
    → fresh t cs ≡ true
    → i < length cs
    → t ≡ text cs i
    → ⊥
fresh-text t [] i f h e = absurd (omega arith)
fresh-text t ((l, u) ∷ cs) zero f h e = ground (arith, same_iff t u)
fresh-text t ((l, u) ∷ cs) (suc i) f h e = fresh-text t cs i (ground arith) (omega arith) e

text_injective :
    (cs : List (Bytes × Bytes)) (i j : ℕ)
    → distinct_texts cs ≡ true
    → i < length cs
    → j < length cs
    → text cs i ≡ text cs j
    → i ≡ j
text_injective [] i j d h k e = absurd (omega arith)
text_injective ((l, t) ∷ cs) zero zero d h k e = refl
text_injective ((l, t) ∷ cs) zero (suc j) d h k e =
    absurd (fresh-text t cs j (ground arith) (omega arith) e)
text_injective ((l, t) ∷ cs) (suc i) zero d h k e =
    absurd (fresh-text t cs i (ground arith) (omega arith) (sym e))
text_injective ((l, t) ∷ cs) (suc i) (suc j) d h k e =
    ap suc (text_injective cs i j (ground arith) (omega arith) (omega arith) e)

cases-distinct_texts : distinct_texts cases ≡ true
unfolding cases same
cases-distinct_texts = refl

-- When the labels of the `switch` have distinct values, as C demands, each of the 45 codes has a
-- text of its own: equal texts come from equal codes.
pub ocl_error_string_injective :
    (value : Bytes → ℤ) (i j : ℕ)
    → Distinct value cases
    → i < length cases
    → j < length cases
    → ocl_error_string value (value (label cases i))
      ≡ ocl_error_string value (value (label cases j))
    → i ≡ j
unfolding ocl_error_string
ocl_error_string_injective value i j d h k e =
    text_injective cases i j cases-distinct_texts h k
      (sym (scan-label value cases i d h) ∙ e ∙ scan-label value cases j d k)
