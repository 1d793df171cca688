-- ===== src/Cllib/Getopt/Flags.antt =====
-- A long option without an argument is taken when its name is written out, and the options that
-- a table names.
use u_clbench.Base.{
  ℕ, ◌+◌, ◌≡◌, ◌≢◌, ◌<◌, refl, sym, ap, ◌∙◌, arith, true, false, Option, none, some, List, [], ◌∷◌,
  ◌++◌, ◌&&◌, ◌==◌, not, Bool, if◌then◌else◌, ==_ne, length, get_elem?, All, Bool-cases, inl, inr,
}
use u_clbench.Base.Text.{Bytes, same, same_iff}
use u_clbench.Cllib.Getopt.{
  LongOption, State, no_match, split_value, char_at, finish, take_long, long_option, getopt_long,
}
use u_clbench.Cllib.Getopt.LongMatch.{
  IsKey, match_loop-exact, get_elem?-append, again_long, getopt_long-exact,
}
use u_clbench.Cllib.Getopt.Progress.{getopt_long-again}

split_value-plain : (key : Bytes) → IsKey key → split_value key ≡ (key, none)
unfolding split_value
split_value-plain [] h = refl
split_value-plain (c ∷ key) ((z, e), h) = rw (split_value-plain key h, ==_ne c b'=' e)

long_option-plain :
    (optstring : Bytes) (argv : List Bytes) (before after : List LongOption) (o : LongOption)
    (key : Bytes) (s : State)
    → IsKey key
    → All (λ (q : LongOption). q.name ≢ key) before
    → o.name ≡ key
    → o.has_arg ≡ 0
    → long_option optstring argv (before ++ o ∷ after) s (b'-' ∷ b'-' ∷ key)
      ≡ finish o (length before) (record s { optind = s.optind + 1 })
unfolding long_option take_long
long_option-plain optstring argv before after o key s ik d e a =
    rw
      (
        split_value-plain key ik,
        match_loop-exact key before after o 0 (length before) no_match d e (omega arith),
      )
      (rw (take_long, get_elem?-append before after o) (rw a refl))

getopt_long-plain :
    (optstring : Bytes) (argv : List Bytes) (before after : List LongOption) (o : LongOption)
    (key : Bytes) (s : State)
    → 0 < s.optind
    → get_elem? argv s.optind ≡ some (b'-' ∷ b'-' ∷ key)
    → char_at key 0 ≢ 0
    → IsKey key
    → All (λ (q : LongOption). q.name ≢ key) before
    → o.name ≡ key
    → o.has_arg ≡ 0
    → getopt_long optstring argv (before ++ o ∷ after) s
      ≡ finish o (length before) (record s { optind = s.optind + 1 })
getopt_long-plain optstring argv before after o key s p g z ik d e a =
    getopt_long-again optstring argv (before ++ o ∷ after) s p
    ∙ again_long (length argv) optstring argv (before ++ o ∷ after) s _ g z
    ∙ long_option-plain optstring argv before after o key s ik d e a

-- the first option with a name
abbrev pub first_named : Bytes → List LongOption → Option LongOption
first_named key [] = none
first_named key (o ∷ os) = let rest = first_named key os in if same o.name key then some o else rest

-- a table taken apart at an option
abbrev pub SplitAt : Bytes → List LongOption → LongOption → Type 0
SplitAt key opts o =
    (before : List LongOption) × (after : List LongOption) × (opts ≡ before ++ o ∷ after)
    × All (λ (q : LongOption). q.name ≢ key) before
    × (o.name ≡ key)

first_named-SplitAt :
    (key : Bytes) (opts : List LongOption) (o : LongOption)
    → first_named key opts ≡ some o
    → SplitAt key opts o
first_named-SplitAt key [] o h = cc
first_named-SplitAt key (q ∷ qs) o h = elim (Bool-cases (same q.name key)) [
  | inl y ↦
      let e : q ≡ o = ground (arith, (rw y at h)) in
      ([], qs, ap (λ x. x ∷ qs) e, tt, ap (λ x. x.name) (sym e) ∙ (same_iff q.name key).0 y)
  | inr n ↦
      let (before, after, e, d, k) = first_named-SplitAt key qs o (rw n at h) in
      (q ∷ before, after, ap (λ x. q ∷ x) e, (λ w. ground (arith, same_iff q.name key), d), k)
]

-- every character of a name on the command line, as a test
abbrev pub is_key : Bytes → Bool
is_key [] = true
is_key (c ∷ key) = not (c == 0) && not (c == b'=') && is_key key

is_key-IsKey : (key : Bytes) → is_key key ≡ true → IsKey key
is_key-IsKey [] h = tt
is_key-IsKey (c ∷ key) h = ((ground arith, ground arith), is_key-IsKey key (ground arith))

-- the same, and at least one
abbrev pub is_name : Bytes → Bool
is_name [] = false
is_name (c ∷ key) = is_key (c ∷ key)

is_name_head : (key : Bytes) → is_name key ≡ true → char_at key 0 ≢ 0
is_name_head [] h = cc
is_name_head (c ∷ key) h = (is_key-IsKey (c ∷ key) h).0.0

is_name-is_key : (key : Bytes) → is_name key ≡ true → is_key key ≡ true
is_name-is_key [] h = refl
is_name-is_key (c ∷ key) h = h

-- a call for a word with the name of an option
module _ (optstring : Bytes) (argv : List Bytes) (opts : List LongOption) (o : LongOption)
    (s : State) (p : 0 < s.optind) where
  pub getopt_long-valued :
      (key value : Bytes)
      → get_elem? argv s.optind ≡ some (b'-' ∷ b'-' ∷ (key ++ b'=' ∷ value))
      → is_key key ≡ true
      → first_named key opts ≡ some o
      → 0 < o.has_arg
      → (k : ℕ) × (getopt_long optstring argv opts s
          ≡ finish o k (record s { optind = s.optind + 1; optarg = some value }))
  getopt_long-valued key value g ik f a =
      let (before, after, e, d, n) = first_named-SplitAt key opts o f in
      (
        length before,
        ap (λ x. getopt_long optstring argv x s) e
            ∙ getopt_long-exact optstring argv before after o key value s p g (is_key-IsKey key ik)
                d n a,
      )

  pub getopt_long-flag :
      (key : Bytes)
      → get_elem? argv s.optind ≡ some (b'-' ∷ b'-' ∷ key)
      → is_name key ≡ true
      → first_named key opts ≡ some o
      → o.has_arg ≡ 0
      → (k : ℕ) × (getopt_long optstring argv opts s
          ≡ finish o k (record s { optind = s.optind + 1 }))
  getopt_long-flag key g ik f a =
      let (before, after, e, d, n) = first_named-SplitAt key opts o f in
      let h = is_key-IsKey key (is_name-is_key key ik) in
      (
        length before,
        ap (λ x. getopt_long optstring argv x s) e
            ∙ getopt_long-plain optstring argv before after o key s p g (is_name_head key ik) h d n
                a,
      )
