-- ===== src/CommandLine/Scan.antt =====
-- The functions of the C library that take the lists of the command line apart: `strtok` at
-- commas, and `sscanf` for `%lu`, `%i` and `%d`.
use u_clbench.Base.{
  ℕ, ◌+◌, ◌-◌, ◌*◌, ◌%◌, ◌^◌, Bool, true, false, List, [], ◌∷◌, Option, none, some, ltb, leb, ◌==◌,
  ◌||◌, ◌&&◌, if◌then◌else◌,
}
use u_clbench.Base.Int.{ℤ, pos, negsuc}
use u_clbench.Base.Text.{Bytes}

-- a word that is not empty, before the others
abbrev pub push_word : Bytes → List Bytes → List Bytes
push_word [] words = words
push_word (c ∷ w) words = (c ∷ w) ∷ words

-- what stands before the first comma, and the words behind it
abbrev pub split : Bytes → Bytes × List Bytes
split [] = ([], [])
split (c ∷ s) =
    let rest = split s in if c == b',' then ([], push_word rest.0 rest.1) else (c ∷ rest.0, rest.1)

-- the words that `strtok(s, ",")` and its further calls return
unfoldable pub tokens : Bytes → List Bytes
tokens s = push_word (split s).0 (split s).1

-- `isspace`
abbrev is_space : ℕ → Bool
is_space c = c == b' ' || (leb 9 c && leb c 13)

abbrev skip_spaces : Bytes → Bytes
skip_spaces [] = []
skip_spaces (c ∷ s) = let rest = skip_spaces s in if is_space c then rest else c ∷ s

-- the value of a digit, 36 for what is none
abbrev digit_value : ℕ → ℕ
digit_value c =
    if leb b'0' c && leb c b'9'
    then c - b'0'
    else if leb b'a' c && leb c b'f'
    then c - b'a' + 10
    else if leb b'A' c && leb c b'F'
    then c - b'A' + 10
    else 36

-- the digits at the head: their value behind that of those before them, and the rest
abbrev digits : ℕ → ℕ → Bytes → ℕ × Bytes
digits base n [] = (n, [])
digits base n (c ∷ s) =
    let rest = digits base (n * base + digit_value c) s in
    if ltb (digit_value c) base then rest else (n, c ∷ s)

-- at least one digit
abbrev number : ℕ → Bytes → Option (ℕ × Bytes)
number base [] = none
number base (c ∷ s) = if ltb (digit_value c) base then some (digits base 0 (c ∷ s)) else none

-- `%i`: the base by the prefix
abbrev any_base : Bytes → Option (ℕ × Bytes)
any_base [] = none
any_base (c ∷ []) = number 10 (c ∷ [])
any_base (c ∷ d ∷ s) =
    if c == b'0'
    then (if d == b'x' || d == b'X' then number 16 s else number 8 (c ∷ d ∷ s))
    else number 10 (c ∷ d ∷ s)

-- whether there is a minus sign, and what stands behind the sign
abbrev sign : Bytes → Bool × Bytes
sign [] = (false, [])
sign (c ∷ s) = if c == b'-' then (true, s) else if c == b'+' then (false, s) else (false, c ∷ s)

-- `strtoul`: 64 bits, the largest number where the digits are too many
abbrev to_ulong : Bool → ℕ → ℕ
to_ulong minus n = if leb (2 ^ 64) n then 2 ^ 64 - 1 else if minus then (2 ^ 64 - n) % 2 ^ 64 else n

-- `sscanf(s, "%lu", ..)`: the number, and what stands behind it
unfoldable pub scan_ulong : Bytes → Option (ℕ × Bytes)
scan_ulong s =
    let signed = sign (skip_spaces s) in
    elim (number 10 signed.1) [ none ↦ none | some (n, rest) ↦ some (to_ulong signed.0 n, rest) ]

-- `strtol`, its low 32 bits as they are stored
abbrev to_word : Bool → ℕ → ℕ
to_word minus n =
    if minus
    then (2 ^ 64 - (if leb (2 ^ 63) n then 2 ^ 63 else n)) % 2 ^ 32
    else (if leb (2 ^ 63) n then 2 ^ 63 - 1 else n) % 2 ^ 32

-- `sscanf(s, "%i", ..)` into an `unsigned int`
unfoldable pub scan_i : Bytes → Option ℕ
scan_i s =
    let signed = sign (skip_spaces s) in
    elim (any_base signed.1) [ none ↦ none | some (n, rest) ↦ some (to_word signed.0 n) ]

-- `sscanf(s, "%d", ..)` into an `unsigned int`
unfoldable pub scan_d : Bytes → Option ℕ
scan_d s =
    let signed = sign (skip_spaces s) in
    elim (number 10 signed.1) [ none ↦ none | some (n, rest) ↦ some (to_word signed.0 n) ]

-- `strtol`: 64 bits
abbrev to_long : Bool → ℕ → ℤ
to_long minus n =
    if minus && ltb 0 n
    then negsuc ((if leb (2 ^ 63) n then 2 ^ 63 else n) - 1)
    else pos (if leb (2 ^ 63) n then 2 ^ 63 - 1 else n)

-- `strtol(s, NULL, 10)`
unfoldable pub scan_long : Bytes → Option ℤ
scan_long s =
    let signed = sign (skip_spaces s) in
    elim (number 10 signed.1) [ none ↦ none | some (n, rest) ↦ some (to_long signed.0 n) ]
