-- ===== src/Cllib/Platforms/Arrays.antt =====
-- Writing a run of values into an array, from an offset on.
use mathlib.Core.List.{append-nil}
use u_clbench.Base.{
  ℕ, zero, suc, ◌+◌, ◌≤◌, ◌≡◌, refl, ap, arith, Option, some, List, [], ◌∷◌, ◌++◌, map, length,
  take,
}

module _ {ℓ} {A : Type ℓ} where
  -- A write out of bounds changes nothing.
  unfoldable pub write_from : List (Option A) → ℕ → List A → List (Option A)
  write_from cells off [] = cells
  write_from [] off (x ∷ xs) = []
  write_from (c ∷ cells) zero (x ∷ xs) = some x ∷ write_from cells zero xs
  write_from (c ∷ cells) (suc off) (x ∷ xs) = c ∷ write_from cells off (x ∷ xs)

  pub length-write_from :
      (cells : List (Option A)) (off : ℕ) (xs : List A)
      → length (write_from cells off xs) ≡ length cells
  unfolding write_from
  length-write_from cells off [] = refl
  length-write_from [] off (x ∷ xs) = refl
  length-write_from (c ∷ cells) zero (x ∷ xs) = ap suc (length-write_from cells zero xs)
  length-write_from (c ∷ cells) (suc off) (x ∷ xs) = ap suc (length-write_from cells off (x ∷ xs))

  pub take-write_from_before :
      (cells : List (Option A)) (off : ℕ) (xs : List A)
      → take off (write_from cells off xs) ≡ take off cells
  unfolding write_from
  take-write_from_before cells off [] = refl
  take-write_from_before [] zero (x ∷ xs) = refl
  take-write_from_before [] (suc off) (x ∷ xs) = refl
  take-write_from_before (c ∷ cells) zero (x ∷ xs) = refl
  take-write_from_before (c ∷ cells) (suc off) (x ∷ xs) =
      ap (◌∷◌ c) (take-write_from_before cells off (x ∷ xs))

  pub take-write_from :
      (cells : List (Option A)) (off end : ℕ) (xs : List A)
      → off + length xs ≡ end
      → end ≤ length cells
      → take end (write_from cells off xs) ≡ take off cells ++ map (λ x. some x) xs
  unfolding write_from
  take-write_from cells off end [] e h = let p : off ≡ end = omega arith in rw (append-nil, p)
  take-write_from [] off end (x ∷ xs) e h = absurd (omega arith)
  take-write_from (c ∷ cells) zero zero (x ∷ xs) e h = absurd (omega arith)
  take-write_from (c ∷ cells) zero (suc end) (x ∷ xs) e h =
      ap (◌∷◌ (some x)) (take-write_from cells zero end xs (omega arith) (omega arith))
  take-write_from (c ∷ cells) (suc off) zero (x ∷ xs) e h = absurd (omega arith)
  take-write_from (c ∷ cells) (suc off) (suc end) (x ∷ xs) e h =
      ap (◌∷◌ c) (take-write_from cells off end (x ∷ xs) (omega arith) (omega arith))
