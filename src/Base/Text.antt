-- ===== src/Base/Text.antt =====
-- Texts as lists of bytes, and the functions of string.h that the program calls on them.
use Prim.Native.Char.{code}
use Prim.Native.String.{String}
use Prim.Native.Nat.{ℕ, zero, suc, ◌+◌, ◌/◌, ◌%◌, ◌^◌, ◌≤◌, ◌<◌}
use native.Mathlib.Nat.{pow-suc}
use native.Mathlib.Decide.{dec_lt}
use u_clbench.Base.Lists.{length}
use mathlib.Core.Path.{◌≡◌}
use mathlib.Core.Logic.{◌↔◌}
use native.Mathlib.Omega.{arith}
use u_clbench.Base.Int.{ℤ, pos, negsuc}
use mathlib.Core.Bool.{Bool, true, false, ◌&&◌, ◌||◌}
use mathlib.Core.List.{List, [], ◌∷◌}
use u_clbench.Base.Tests.{◌==◌, ltb, lt→ltb, le→ltb, if◌then◌else◌}

-- A C string without its end mark.
abbrev pub Bytes : Type 0
Bytes = List ℕ

-- The code points of a text: its bytes, for every literal of the sources is ASCII.
abbrev pub codes : String → Bytes
codes String.[] = []
codes (String.◌∷◌ c s) = code c ∷ codes s

-- `strcmp(a, b) == 0`
unfoldable pub same : Bytes → Bytes → Bool
same [] [] = true
same [] (d ∷ right) = false
same (c ∷ left) [] = false
same (c ∷ left) (d ∷ right) = same left right && (c == d)

-- `%lu`, `%u` and `%d` for a number that is not negative
dec_digits : ℕ → ℕ → Bytes → Bytes
dec_digits zero n acc = acc
dec_digits (suc f) n acc =
    let rest = dec_digits f (n / 10) ((b'0' + n % 10) ∷ acc) in
    if ltb n 10 then (b'0' + n) ∷ acc else rest

unfoldable pub decimal : ℕ → Bytes
unfolding dec_digits
decimal n = dec_digits (suc n) n []

-- no more digits than the power of ten that bounds the number
dec_digits-length :
    (k f n : ℕ) (acc : Bytes) → n < 10 ^ suc k → length (dec_digits f n acc) ≤ suc k + length acc
unfolding dec_digits
dec_digits-length k zero n acc h = omega arith
dec_digits-length zero (suc f) n acc h = rw (lt→ltb n 10 (omega arith)) (omega arith)
dec_digits-length (suc k) (suc f) n acc h =
    let p = pow-suc 10 (suc k) in
    let rest = dec_digits f (n / 10) ((b'0' + n % 10) ∷ acc) in
    let ih = dec_digits-length k f (n / 10) ((b'0' + n % 10) ∷ acc) (omega arith) in
    elim (dec_lt n 10) [
      | yes l ↦ rw (lt→ltb n 10 l) (omega arith)
      | no g ↦ rw (le→ltb n 10 (omega arith)) (omega arith)
    ]

pub decimal-length : (k n : ℕ) → n < 10 ^ suc k → length (decimal n) ≤ suc k
unfolding decimal
decimal-length k n h = let l = dec_digits-length k (suc n) n [] h in omega arith

-- `%d` and `%i`
unfoldable pub integer : ℤ → Bytes
unfolding decimal
integer (pos n) = decimal n
integer (negsuc n) = b'-' ∷ decimal (n + 1)

pub same_iff : (left right : Bytes) → (same left right ≡ true) ↔ (left ≡ right)
unfolding same
same_iff [] [] = ground arith
same_iff [] (d ∷ right) = ground arith
same_iff (c ∷ left) [] = ground arith
same_iff (c ∷ left) (d ∷ right) = ground (arith, same_iff left right)

-- `strncmp(a, b, strlen(a)) == 0`
unfoldable pub starts_with : Bytes → Bytes → Bool
starts_with [] b = true
starts_with (x ∷ a) [] = false
starts_with (x ∷ a) (y ∷ b) = x == y && starts_with a b

-- `strstr(text, part) != NULL`
unfoldable pub strstr : Bytes → Bytes → Bool
unfolding starts_with
strstr [] part = starts_with part []
strstr (c ∷ cs) part = starts_with part (c ∷ cs) || strstr cs part
