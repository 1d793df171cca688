-- ===== src/BranchPenalty/Lines.antt =====
-- The lines that branch_penalty prints for a device: `normtime` is set with the first pattern, and
-- with no other.
use mathlib.Core.Path.{subst}
use u_clbench.Base.{
  ℕ, ◌≡◌, refl, sym, ap, ◌∙◌, Bool, true, false, List, [], ◌∷◌, ◌++◌, map, All, ◌==◌, ◌&&◌, arith,
  if◌then◌else◌,
}
use u_clbench.BranchPenalty.Calls.{pattern_of, Printed}
use u_clbench.BranchPenalty.{patterns, size_loop, type_loop}
use u_clbench.BranchPenalty.Bench.{Line}

abbrev is_first : ℕ × ℕ → Bool
is_first p = p.0 == 1 && p.1 == 1

-- the patterns behind the first
abbrev later : List (ℕ × ℕ)
later = size_loop 127 1 2 ++ type_loop 127 2

all_others : List (ℕ × ℕ) → Bool
all_others [] = true
all_others (p ∷ ps) = if is_first p then false else all_others ps

not_first : (b c : Bool) → (if b then false else c) ≡ true → (b ≡ false) × (c ≡ true)
not_first true c h = ground arith
not_first false c h = (refl, h)

by_check : (ps : List (ℕ × ℕ)) → all_others ps ≡ true → All (λ p. is_first p ≡ false) ps
unfolding all_others
by_check [] h = tt
by_check (p ∷ ps) h =
    let (first, others) = not_first (is_first p) (all_others ps) h in (first, by_check ps others)

later-others : All (λ p. is_first p ≡ false) later
unfolding type_loop size_loop all_others
later-others = by_check later refl

-- a line for a pattern, when `normtime` was as given
abbrev pub LineFor : ℕ × ℕ → ℕ → Line → Type 0
LineFor p normtime l =
    ((l.branchtypes, l.branchsize) ≡ p)
    × (l.normtime ≡ (if p.0 == 1 && p.1 == 1 then l.time_taken else normtime))

abbrev pub LinesFor : List (ℕ × ℕ) → ℕ → List Line → Type 0
LinesFor [] normtime [] = Unit
LinesFor [] normtime (l ∷ ls) = ⊥
LinesFor (p ∷ ps) normtime [] = ⊥
LinesFor (p ∷ ps) normtime (l ∷ ls) = LineFor p normtime l × LinesFor ps l.normtime ls

LinesFor-later :
    (ps : List (ℕ × ℕ)) (normtime : ℕ) (ls : List Line)
    → All (λ p. is_first p ≡ false) ps
    → LinesFor ps normtime ls
    → (map pattern_of ls ≡ ps) × All (λ (m : Line). m.normtime ≡ normtime) ls
LinesFor-later [] normtime [] h k = (refl, tt)
LinesFor-later [] normtime (l ∷ ls) h k = absurd k
LinesFor-later (p ∷ ps) normtime [] h k = absurd k
LinesFor-later (p ∷ ps) normtime (l ∷ ls) (f, h) ((q, n), k) =
    let same_time : l.normtime ≡ normtime = n ∙ ap (λ b. if b then l.time_taken else normtime) f in
    let (same_ps, times) = LinesFor-later ps normtime ls h (rw (sym same_time) k) in
    (rw (q, same_ps) refl, (same_time, times))

pub LinesFor-Printed : (ls : List Line) → LinesFor patterns 0 ls → Printed ls
unfolding patterns type_loop size_loop
LinesFor-Printed [] k = absurd k
LinesFor-Printed (l ∷ ls) ((q, n), k) =
    let same_time : l.normtime ≡ l.time_taken = n in
    let rest : LinesFor later l.time_taken ls = subst (λ x. LinesFor later x ls) same_time k in
    let (same_ps, times) = LinesFor-later later l.time_taken ls later-others rest in
    (rw (q, same_ps) refl, (same_time, times))
