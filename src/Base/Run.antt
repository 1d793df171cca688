-- ===== src/Base/Run.antt =====
-- The outcome of a loop or of code that reads and writes memory.
use Prim.Native.Nat.{ℕ, zero, suc}
use mathlib.Core.List.{List, [], ◌∷◌}
use u_clbench.Base.Lists.{length, set}
use u_clbench.Base.Tests.{ltb, if◌then◌else◌}

-- `fault` is an access out of bounds or another undefined operation, `no_fuel` a loop that has
-- not ended within the rounds given to it.
pub data Run {ℓ} (A : Type ℓ) : Type ℓ where
  done : A → Run A
  fault : Run A
  no_fuel : Run A

-- one computation behind another, which is not run behind a failure
infixl 5 ◌>>=◌
abbrev pub ◌>>=◌ {ℓ ℓ'} : {B : Type ℓ} {A : Type ℓ'} → Run B → (B → Run A) → Run A
no_fuel >>= onwards = no_fuel
fault >>= onwards = fault
done value >>= onwards = onwards value

-- `a[i] = v`
abbrev pub write_cell {ℓ} : {A : Type ℓ} → List A → ℕ → A → Run (List A)
write_cell a i v = if ltb i (length a) then done (set a i v) else fault

-- `a[i]`
abbrev pub read_cell {ℓ} : {A : Type ℓ} → List A → ℕ → Run A
read_cell [] i = fault
read_cell (x ∷ xs) zero = done x
read_cell (x ∷ xs) (suc i) = read_cell xs i
