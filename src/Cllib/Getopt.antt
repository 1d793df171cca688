-- ===== src/Cllib/Getopt.antt =====
-- `getopt_long` of cllib/clcommon.cpp, for systems without one. `argv` is the list of words, and
-- reading it at `argc` gives NULL. Its static and global variables are the fields of a state.
pub mod Flags
pub mod LongMatch
pub mod Progress
use u_clbench.Base.{
  ℕ, zero, suc, ◌+◌, ◌-◌, Bool, true, false, Option, none, some, List, [], ◌∷◌, not, ◌&&◌, ◌||◌,
  ltb, leb, ◌==◌, if◌then◌else◌, length, get_elem?, get_or, drop,
}
use u_clbench.Base.Int.{ℤ, pos, negsuc}
use u_clbench.Base.Text.{Bytes, starts_with}

-- `struct option`; a flag is the number of the variable that it points to
pub record LongOption : Type 0 where
  pub name : Bytes
  pub has_arg : ℕ
  pub flag : Option ℕ
  pub val : ℕ

pub record State : Type 0 where
  pub optind : ℕ
  pub optarg : Option Bytes
  pub optopt : ℕ
  pub lastidx : ℕ
  pub lastofs : ℕ

-- What a call leaves: its result, the state, `*longindex`, and the flag written with its value.
pub record Outcome : Type 0 where
  pub result : ℤ
  pub state : State
  pub longindex : Option ℕ
  pub stored : Option (ℕ × ℕ)

abbrev pub returns : ℤ → State → Outcome
returns r s = record { result = r; state = s; longindex = none; stored = none }

-- the text before `=`, and the text from behind it on, if there is one
pub split_value : Bytes → Bytes × Option Bytes
split_value [] = ([], none)
split_value (c ∷ cs) =
    let (key, value) = split_value cs in if c == b'=' then ([], some cs) else (c ∷ key, value)

-- `match`: NULL, an option by its number, or -1
pub data Match : Type 0 where
  no_match ambiguous : Match
  found : ℕ → Match

-- behind one more imperfect match
pub another : Match → ℕ → Match
another no_match k = found k
another _ k = ambiguous

-- the loop over the options, the number of the next one and `match`
unfoldable pub match_loop : Bytes → List LongOption → ℕ → Match → Match
unfolding another starts_with
match_loop key [] k m = m
match_loop key (o ∷ os) k m =
    let rest = match_loop key os (k + 1) (if starts_with key o.name then another m k else m) in
    if starts_with key o.name && (length o.name == length key) then found k else rest

-- the character at a place of a word, 0 at its end
abbrev pub char_at : Bytes → ℕ → ℕ
char_at w i = get_or w i 0

abbrev pub colon : Bytes → Bool
colon optstring = char_at optstring 0 == b':'

-- `++optind`, `times` times
abbrev advance : State → ℕ → State
advance s times = record s { optind = s.optind + times }

-- the option is taken: its flag is written, or its value returned
unfoldable pub finish : LongOption → ℕ → State → Outcome
finish o k s = elim o.flag [
  | some f ↦ record { result = pos 0; state = s; longindex = some k; stored = some (f, o.val) }
  | none ↦ record { result = pos o.val; state = s; longindex = some k; stored = none }
]

-- no argument where one is required: `:` or `?`
missing : Bytes → State → ℕ → Outcome
missing optstring s k =
    if colon optstring
    then record { result = pos b':'; state = s; longindex = some k; stored = none }
    else record { result = pos b'?'; state = advance s 1; longindex = some k; stored = none }

-- option `o`, number `k`, has a place for an argument: from behind `=`, or else the next word
with_value : Bytes → List Bytes → State → LongOption → ℕ → Option Bytes → Outcome
with_value optstring argv s o k (some v) = finish o k (advance (record s { optarg = some v }) 1)
with_value optstring argv s o k none =
    let next = get_elem? argv (s.optind + 1) in
    let s' = record s { optarg = next } in
    elim next [
      | some w ↦ finish o k (advance s' 2)
      | none ↦ if o.has_arg == 1 then missing optstring s' k else finish o k (advance s' 2)
    ]

-- behind the search for a long option
take_long : Bytes → List Bytes → List LongOption → State → Option Bytes → Match → Outcome
take_long optstring argv opts s value (found k) = elim (get_elem? opts k) [
  | none ↦ returns (negsuc 0) s
  | some o ↦
      if ltb 0 o.has_arg then with_value optstring argv s o k value else finish o k (advance s 1)
]
take_long optstring argv opts s value m =
    if colon optstring then returns (pos b':') s else returns (pos b'?') (advance s 1)

-- "long option"
pub long_option : Bytes → List Bytes → List LongOption → State → Bytes → Outcome
long_option optstring argv opts s word =
    let (key, value) = split_value (drop 2 word) in
    take_long optstring argv opts s value (match_loop key opts 0 no_match)

-- `strchr(optstring, c)` as the text from the place found on; its end for the character 0
pub strchr : Bytes → ℕ → Option Bytes
strchr [] c = if c == 0 then some [] else none
strchr (x ∷ xs) c = if x == c then some (x ∷ xs) else strchr xs c

-- `tmp[1]==':'`: an argument is expected, in this word or else in the next one
short_value : Bytes → Bytes → List Bytes → State → Bytes → Outcome
short_value optstring tmp argv s word =
    let here = drop (s.lastofs + 2) word in
    let next = get_elem? argv (s.optind + 1) in
    if char_at tmp 2 == b':' || not (char_at word (s.lastofs + 2) == 0)
    then returns (pos s.optopt) (
        advance
          (record s { optarg = if char_at word (s.lastofs + 2) == 0 then none else some here }) 1)
    else elim next [
      | some w ↦ returns (pos s.optopt) (advance (record s { optarg = some w }) 2)
      | none ↦ returns (pos b':') (advance (record s { optarg = none }) 1)
    ]

-- one character of a word of short options; `none` is `goto again`
short_option : Bytes → List Bytes → State → Bytes → Option Outcome × State
short_option optstring argv s word =
    let s1 = if s.lastidx == s.optind then s else record s { lastidx = s.optind; lastofs = 0 } in
    let s2 = record s1 { optopt = char_at word (s1.lastofs + 1) } in
    elim (strchr optstring s2.optopt) [
      | none ↦ (some (returns (pos b'?') (advance s2 1)), s2)
      | some tmp ↦
          if char_at tmp 0 == 0
          then (none, advance s2 1)
          else if char_at tmp 1 == b':'
          then (some (short_value optstring tmp argv s2 word), s2)
          else (some (returns (pos s2.optopt) (record s2 { lastofs = s2.lastofs + 1 })), s2)
    ]

-- from `again:` on; a `goto` goes to the next word, so as many rounds as words are enough
pub again : ℕ → Bytes → List Bytes → List LongOption → State → Outcome
again zero optstring argv opts s = returns (negsuc 0) s
again (suc f) optstring argv opts s = elim (get_elem? argv s.optind) [
  | none ↦ returns (negsuc 0) s
  | some word ↦
      if char_at optstring 0 == b'-' && not (char_at word 0 == b'-')
      then returns (pos 1) (advance (record s { optarg = some word }) 1)
      else if not (char_at word 0 == b'-') || char_at word 1 == 0
      then returns (negsuc 0) s
      else if char_at word 1 == b'-' && char_at word 2 == 0
      then returns (negsuc 0) (advance s 1)
      else if char_at word 1 == b'-'
      then long_option optstring argv opts s word
      else (let (o, s') = short_option optstring argv s word in
          elim o [ some r ↦ r | none ↦ again f optstring argv opts s' ])
]

-- one call
unfoldable pub getopt_long : Bytes → List Bytes → List LongOption → State → Outcome
unfolding again long_option short_option take_long with_value missing finish short_value strchr
    split_value match_loop
getopt_long optstring argv opts s =
    again (suc (length argv)) optstring argv opts
      (if s.optind == 0 then record s { optind = 1; lastidx = 0 } else s)
