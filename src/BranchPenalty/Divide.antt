-- ===== src/BranchPenalty/Divide.antt =====
-- Quotient and remainder of the next number.
use native.Mathlib.Nat.{mod-eq_of_lt, mod_self, suc-mod, div-add-mod', div-eq_of_lt-le}
use u_clbench.Base.{ℕ, suc, ◌+◌, ◌/◌, ◌%◌, ◌<◌, ◌≡◌, ◌∙◌, ap, arith}

module _ (i d : ℕ) (pos : 0 < d) where
  pub div-suc_inside : i % d + 1 < d → (suc i / d ≡ i / d) × (suc i % d ≡ i % d + 1)
  div-suc_inside h = (
    div-eq_of_lt-le d (omega (arith, div-add-mod' i d)) (omega (arith, div-add-mod' i d)),
    suc-mod i d ∙ mod-eq_of_lt (omega arith) ∙ omega arith,
  )

  pub div-suc_end : i % d + 1 ≡ d → (suc i / d ≡ i / d + 1) × (suc i % d ≡ 0)
  div-suc_end h = (
    div-eq_of_lt-le d (omega (arith, div-add-mod' i d)) (omega (arith, div-add-mod' i d)),
    suc-mod i d ∙ ap (λ x. x % d) (let e : suc (i % d) ≡ d = omega arith in e) ∙ mod_self d,
  )
