-- ===== src/Cllib/Getopt/LongMatch.antt =====
-- A long option whose name is written out is taken, whatever other names begin with it.
use u_clbench.Base.{
  ℕ, suc, ◌+◌, ◌≡◌, ◌≢◌, ◌<◌, refl, ap, ◌∙◌, arith, true, some, List, [], ◌∷◌, ◌++◌, ◌&&◌, ◌==◌,
  ==_ne, ==_self, length, get_elem?, Bool-cases, lt→ltb, inl, inr, All,
}
use u_clbench.Base.Text.{Bytes, starts_with}
use u_clbench.Cllib.Getopt.{
  LongOption, State, Match, no_match, found, split_value, match_loop, char_at, finish, with_value,
  take_long, long_option, again, getopt_long,
}
use u_clbench.Cllib.Getopt.Progress.{getopt_long-again}

starts_with_self : (w : Bytes) → starts_with w w ≡ true
unfolding starts_with
starts_with_self [] = refl
starts_with_self (c ∷ w) = ground (arith, starts_with_self w)

-- a prefix of the same length is the whole
prefix_whole :
    (key name : Bytes) → starts_with key name ≡ true → length name ≡ length key → name ≡ key
unfolding starts_with
prefix_whole [] [] h l = refl
prefix_whole [] (c ∷ name) h l = absurd (omega arith)
prefix_whole (x ∷ key) [] h l = absurd (omega arith)
prefix_whole (x ∷ key) (c ∷ name) h l = ground (arith, prefix_whole key name)

pub match_loop-exact :
    (key : Bytes) (before after : List LongOption) (o : LongOption) (k n : ℕ) (m : Match)
    → All (λ (q : LongOption). q.name ≢ key) before
    → o.name ≡ key
    → k + length before ≡ n
    → match_loop key (before ++ o ∷ after) k m ≡ found n
unfolding match_loop
match_loop-exact key [] after o k n m h e l =
    rw (e, starts_with_self key, ==_self (length key)) (ap (λ x. found x) (omega arith))
match_loop-exact key (q ∷ before) after o k n m (h, hs) e l =
    elim (Bool-cases (starts_with key q.name && (length q.name == length key))) [
      | inl w ↦ absurd (h (prefix_whole key q.name (ground arith) (ground arith)))
      | inr w ↦ rw w (match_loop-exact key before after o (k + 1) n _ hs e (omega arith))
    ]

-- the characters of a name on the command line
abbrev pub IsKey : Bytes → Type 0
IsKey = All (λ c. (c ≢ 0) × (c ≢ b'='))

split_value-key :
    (key value : Bytes) → IsKey key → split_value (key ++ b'=' ∷ value) ≡ (key, some value)
unfolding split_value
split_value-key [] value h = refl
split_value-key (c ∷ key) value ((z, e), h) = rw (split_value-key key value h, ==_ne c b'=' e)

pub key_head : (key value : Bytes) → IsKey key → char_at (key ++ b'=' ∷ value) 0 ≢ 0
key_head [] value h = omega arith
key_head (c ∷ key) value h = h.0.0

pub get_elem?-append {ℓ} :
    {A : Type ℓ} (xs ys : List A) (x : A) → get_elem? (xs ++ x ∷ ys) (length xs) ≡ some x
get_elem?-append [] ys x = refl
get_elem?-append (y ∷ xs) ys x = get_elem?-append xs ys x

pub again_long :
    (f : ℕ) (optstring : Bytes) (argv : List Bytes) (opts : List LongOption) (s : State)
    (word : Bytes)
    → get_elem? argv s.optind ≡ some (b'-' ∷ b'-' ∷ word)
    → char_at word 0 ≢ 0
    → again (suc f) optstring argv opts s ≡ long_option optstring argv opts s (b'-' ∷ b'-' ∷ word)
unfolding again
again_long f optstring argv opts s word g h = ground arith

long_option-exact :
    (optstring : Bytes) (argv : List Bytes) (before after : List LongOption) (o : LongOption)
    (key value : Bytes) (s : State)
    → IsKey key
    → All (λ (q : LongOption). q.name ≢ key) before
    → o.name ≡ key
    → 0 < o.has_arg
    → long_option optstring argv (before ++ o ∷ after) s (b'-' ∷ b'-' ∷ (key ++ b'=' ∷ value))
      ≡ finish o (length before) (record s { optind = s.optind + 1; optarg = some value })
unfolding long_option take_long with_value
long_option-exact optstring argv before after o key value s ik d e a =
    rw
      (
        split_value-key key value ik,
        match_loop-exact key before after o 0 (length before) no_match d e (omega arith),
      )
      (rw (take_long, get_elem?-append before after o) (rw (lt→ltb 0 o.has_arg a)))

-- The word `--key=value` takes the first option named `key`, whichever others begin with it: an
-- option that takes an argument gets `value`, the next call starts at the next word, and the
-- option's flag is written or its value returned.
pub getopt_long-exact :
    (optstring : Bytes) (argv : List Bytes) (before after : List LongOption) (o : LongOption)
    (key value : Bytes) (s : State)
    → 0 < s.optind
    → get_elem? argv s.optind ≡ some (b'-' ∷ b'-' ∷ (key ++ b'=' ∷ value))
    → IsKey key
    → All (λ (q : LongOption). q.name ≢ key) before
    → o.name ≡ key
    → 0 < o.has_arg
    → (getopt_long optstring argv (before ++ o ∷ after) s
        ≡ finish o (length before) (record s { optind = s.optind + 1; optarg = some value }))
getopt_long-exact optstring argv before after o key value s p g ik d e a =
    getopt_long-again optstring argv (before ++ o ∷ after) s p
    ∙ again_long (length argv) optstring argv (before ++ o ∷ after) s _ g (key_head key value ik)
    ∙ long_option-exact optstring argv before after o key value s ik d e a
