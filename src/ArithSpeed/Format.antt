-- ===== src/ArithSpeed/Format.antt =====
-- `sprintf` for the conversions that the program uses.
use u_clbench.Base.{ℕ, zero, suc, ◌+◌, ◌-◌, ◌/◌, ◌%◌, List, [], ◌∷◌, ◌++◌, ltb, ◌==◌, if◌then◌else◌}
use u_clbench.Base.Text.{Bytes, decimal}

-- An argument: a text, or an `int` that is not negative.
pub data Argument : Type 0 where
  text : Bytes → Argument
  number : ℕ → Argument

abbrev hex_digit : ℕ → ℕ
hex_digit n = if ltb n 10 then b'0' + n else b'a' + n - 10

hex_digits : ℕ → ℕ → Bytes → Bytes
hex_digits zero n acc = acc
hex_digits (suc f) n acc =
    let rest = hex_digits f (n / 16) (hex_digit (n % 16) ∷ acc) in
    if ltb n 16 then hex_digit n ∷ acc else rest

-- `%x`
unfoldable pub hexadecimal : ℕ → Bytes
unfolding hex_digits
hexadecimal n = hex_digits (suc n) n []

-- one argument, under the letter of its conversion
unfoldable pub convert : ℕ → Argument → Bytes
unfolding hexadecimal decimal
convert c (text t) = t
convert c (number n) = if c == b'c' then n ∷ [] else if c == b'x' then hexadecimal n else decimal n

unfoldable pub sprintf : Bytes → List Argument → Bytes
unfolding convert
sprintf [] args = []
sprintf (c ∷ []) args = c ∷ []
sprintf (c ∷ d ∷ cs) args =
    let plain = sprintf (d ∷ cs) args in
    if c == b'%'
    then elim args [ [] ↦ sprintf cs [] | (a ∷ later) ↦ convert d a ++ sprintf cs later ]
    else c ∷ plain
