-- ===== src/BranchPenalty/Pattern.antt =====
-- Every pattern is a run of equal branches for each of its types, over and over.
use native.Mathlib.Nat.{
  mod-lt, mod-eq_of_lt, mod_self, zero-mod, zero-div, mul-div_left, le-div_iff_mul-le,
}
use u_clbench.Base.{
  ℕ, zero, suc, ◌+◌, ◌*◌, ◌/◌, ◌%◌, ◌<◌, ◌≤◌, ◌≡◌, false, ◌∙◌, refl, ap, arith, dec_lt, List, [],
  ◌∷◌, ◌++◌, get_or, ◌==◌, ==_ne, All,
}
use u_clbench.BranchPenalty.{
  bpsize, next_branch, selector_loop, branch_selector, size_loop, type_loop, patterns,
}
use u_clbench.BranchPenalty.Divide.{div-suc_inside, div-suc_end}

-- the branch of work item `i`
abbrev pub branch_of : ℕ → ℕ → ℕ → ℕ
branch_of t s i = (i / s) % t + 1

module _ (t s : ℕ) (types : 0 < t) (size : 0 < s) where
  next_branch_first : next_branch t s 0 0 ≡ branch_of t s 0
  unfolding next_branch
  next_branch_first =
      rw (zero-mod s, zero-div s, zero-mod t, mod-eq_of_lt {n = 0 + 1} {m = t + 1} (omega arith))
        refl

  next_branch_inside :
      (i : ℕ) → i % s + 1 < s → next_branch t s (suc i) (branch_of t s i) ≡ branch_of t s (suc i)
  unfolding next_branch
  next_branch_inside i h =
      let (q, r) = div-suc_inside i s size h in
      let b : (i / s) % t < t = mod-lt (i / s) types in
      let z : (suc i % s == 0) ≡ false = ==_ne (suc i % s) 0 (omega arith) in
      let m : ((i / s) % t + 1) % (t + 1) ≡ (i / s) % t + 1 = mod-eq_of_lt (omega arith) in
      rw (z, q, m) (ground arith)

  next_branch_end :
      (i : ℕ) → i % s + 1 ≡ s → next_branch t s (suc i) (branch_of t s i) ≡ branch_of t s (suc i)
  unfolding next_branch
  next_branch_end i h =
      let (q, r) = div-suc_end i s size h in
      let b : (i / s) % t < t = mod-lt (i / s) types in
      elim (dec_lt ((i / s) % t + 1) t) [
        | yes inside ↦
            let (_, m) = div-suc_inside (i / s) t types inside in
            let e : i / s + 1 ≡ suc (i / s) = omega arith in
            let w : ((i / s) % t + 1 + 1) % (t + 1) ≡ (i / s) % t + 1 + 1 =
              mod-eq_of_lt (omega arith) in
            rw (r, q, e, m, w) (ground arith)
        | no outside ↦
            let (_, m) = div-suc_end (i / s) t types (omega arith) in
            let e : i / s + 1 ≡ suc (i / s) = omega arith in
            let w : (i / s) % t + 1 + 1 ≡ t + 1 = omega arith in
            rw (r, q, e, m, w, mod_self (t + 1)) refl
      ]

  next_branch-branch_of :
      (i : ℕ) → next_branch t s (suc i) (branch_of t s i) ≡ branch_of t s (suc i)
  next_branch-branch_of i = elim (dec_lt (i % s + 1) s) [
    | yes h ↦ next_branch_inside i h
    | no h ↦ next_branch_end i (omega (arith, mod-lt i size))
  ]

  selector_loop-branch_of :
      (n i j : ℕ)
      → j < n
      → get_or (selector_loop n t s (suc i) (branch_of t s i)) j 0 ≡ branch_of t s (suc i + j)
  unfolding selector_loop
  selector_loop-branch_of zero i j h = absurd (omega arith)
  selector_loop-branch_of (suc n) i zero h =
      next_branch-branch_of i ∙ ap (branch_of t s) (omega arith)
  selector_loop-branch_of (suc n) i (suc j) h =
      let e : suc i + 1 ≡ suc (suc i) = omega arith in
      rw (next_branch-branch_of i, e)
        (selector_loop-branch_of n (suc i) j (omega arith) ∙ ap (branch_of t s) (omega arith))

  selector_loop_first :
      (n i : ℕ) → i < suc n → get_or (selector_loop (suc n) t s 0 0) i 0 ≡ branch_of t s i
  unfolding selector_loop
  selector_loop_first n zero h = next_branch_first
  selector_loop_first n (suc i) h =
      let e : 0 + 1 ≡ suc 0 = omega arith in
      rw (next_branch_first, e)
        (selector_loop-branch_of n 0 i (omega arith) ∙ ap (branch_of t s) (omega arith))

  branch_selector-branch_of :
      (i : ℕ) → i < bpsize → get_or (branch_selector t s) i 0 ≡ branch_of t s i
  unfolding branch_selector
  branch_selector-branch_of i h = selector_loop_first 127 i h

-- A pattern of `t` types of branches, each `s` work items wide: the branch of every work item is
-- the number of its run, from 1 to `t` and again from 1, and each of the `t` types has its run.
pub record Shows (t s : ℕ) : Type 0 where
  pub some_type : 0 < t
  pub some_item : 0 < s
  pub fits : t * s ≤ bpsize
  pub runs : (i : ℕ) → i < bpsize → get_or (branch_selector t s) i 0 ≡ branch_of t s i
  pub all_types : (v : ℕ) → v < t → get_or (branch_selector t s) (v * s) 0 ≡ v + 1

Shows-fits : (t s : ℕ) → 0 < t → 0 < s → t * s ≤ bpsize → Shows t s
Shows-fits t s p q h = record {
  some_type = p;
  some_item = q;
  fits = h;
  runs = branch_selector-branch_of t s p q;
  all_types = λ v b.
      branch_selector-branch_of t s p q (v * s) (inside v b)
      ∙ rw (mul-div_left v {n = s} q, mod-eq_of_lt b) refl;
}
  where
    inside : (v : ℕ) → v < t → v * s < bpsize
    inside v b = grind arith

abbrev pub Shown : ℕ × ℕ → Type 0
Shown p = Shows p.0 p.1

All-append : {A : Type 0} (P : A → Type 0) (xs ys : List A) → All P xs → All P ys → All P (xs ++ ys)
All-append P [] ys h k = k
All-append P (x ∷ xs) ys (p, h) k = (p, All-append P xs ys h k)

size_loop-Shown : (n t s : ℕ) → 0 < t → 0 < s → n + s ≡ bpsize / t + 1 → All Shown (size_loop n t s)
unfolding size_loop
size_loop-Shown zero t s p q e = tt
size_loop-Shown (suc n) t s p q e = (
  Shows-fits t s p q
      (omega (arith, (le-div_iff_mul-le {k = t} {x = s} {y = 128} p).0 (omega arith))),
  size_loop-Shown n t (s + 1) p (omega arith) (omega arith),
)

type_loop-Shown : (n t : ℕ) → 0 < t → All Shown (type_loop n t)
unfolding type_loop
type_loop-Shown zero t p = tt
type_loop-Shown (suc n) t p =
    All-append Shown (size_loop (bpsize / t) t 1) (type_loop n (t + 1))
      (size_loop-Shown (bpsize / t) t 1 p (omega arith) refl)
      (type_loop-Shown n (t + 1) (omega arith))

-- Every pattern that is measured shows all its types of branches within the 128 work items.
pub patterns-Shown : All Shown patterns
unfolding patterns
patterns-Shown = type_loop-Shown bpsize 1 (omega arith)
