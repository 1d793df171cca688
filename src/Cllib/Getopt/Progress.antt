-- ===== src/Cllib/Getopt/Progress.antt =====
-- Each call of `getopt_long` goes forward, so a loop over the options ends.
use u_clbench.Base.{
  ℕ, zero, suc, ◌+◌, ◌≤◌, ◌<◌, ◌≡◌, ◌≢◌, refl, arith, false, Option, none, some, List, [], ◌∷◌, ◌⊎◌,
  inl, inr, ◌==◌, if◌then◌else◌, length, get_elem?, ==_ne, Option-cases,
}
use u_clbench.Base.Int.{negsuc}
use u_clbench.Base.Text.{Bytes}
use u_clbench.Cllib.Getopt.{
  LongOption, State, Outcome, Match, found, colon, char_at, finish, missing, with_value, take_long,
  long_option, strchr, short_value, short_option, again, getopt_long,
}

get_elem?-beyond {ℓ} : {A : Type ℓ} (xs : List A) (i : ℕ) → length xs ≤ i → get_elem? xs i ≡ none
get_elem?-beyond [] i h = refl
get_elem?-beyond (x ∷ xs) zero h = absurd (omega arith)
get_elem?-beyond (x ∷ xs) (suc i) h = get_elem?-beyond xs i (omega arith)

module _ (optstring : Bytes) (argv : List Bytes) (opts : List LongOption) where
  pub getopt_long-again :
      (s : State)
      → 0 < s.optind
      → getopt_long optstring argv opts s ≡ again (suc (length argv)) optstring argv opts s
  unfolding getopt_long
  getopt_long-again s p =
      let e : (s.optind == 0) ≡ false = ==_ne s.optind 0 (omega arith) in rw (e, getopt_long)

  -- behind the last word there is no option
  pub getopt_long-end :
      (s : State)
      → 0 < s.optind
      → get_elem? argv s.optind ≡ none
      → getopt_long optstring argv opts s
        ≡ record { result = negsuc 0; state = s; longindex = none; stored = none }
  unfolding again
  getopt_long-end s p e = rw (getopt_long-again s p) (rw (again, e) refl)

module _ (optstring : Bytes) (argv : List Bytes) (opts : List LongOption)
    (plain : colon optstring ≡ false) where
  finish-optind : (o : LongOption) (k : ℕ) (s : State) → (finish o k s).state.optind ≡ s.optind
  unfolding finish
  finish-optind o k s = ground arith

  with_value_forward :
      (s : State) (o : LongOption) (k : ℕ) (value : Option Bytes)
      → s.optind < (with_value optstring argv s o k value).state.optind
  unfolding with_value missing finish
  with_value_forward s o k (some v) = ground arith
  with_value_forward s o k none = ground arith

  -- Only the character 0 could end the loop, and no option is returned for it.
  take_long_forward :
      (s : State) (value : Option Bytes) (m : Match)
      → ((take_long optstring argv opts s value m).result ≡ negsuc 0)
        ⊎ (s.optind < (take_long optstring argv opts s value m).state.optind)
  unfolding take_long finish
  take_long_forward s value (found k) = elim (Option-cases (get_elem? opts k)) [
    | inl e ↦ rw (e, take_long) (inl refl)
    | inr (o, e) ↦ rw (e, take_long) (inr (ground (arith, with_value_forward s o k value)))
  ]
  take_long_forward s value _ = rw plain (inr (omega arith))

  long_option_forward :
      (s : State) (word : Bytes)
      → ((long_option optstring argv opts s word).result ≡ negsuc 0)
        ⊎ (s.optind < (long_option optstring argv opts s word).state.optind)
  unfolding long_option
  long_option_forward s word = take_long_forward s _ _

  -- the place in the word at `optind` up to which its characters have been read
  abbrev pub place : State → ℕ
  place s = if s.lastidx == s.optind then s.lastofs else 0

  abbrev pub word_at : ℕ → Bytes
  word_at i = elim (get_elem? argv i) [ some w ↦ w | none ↦ [] ]

  -- to a later word, or further into the same one
  abbrev pub Forward : State → State → Type 0
  Forward s t =
      (s.optind < t.optind)
      ⊎ ((t.optind ≡ s.optind) × (place t ≡ place s + 1) × (place t < length (word_at s.optind)))

  short_value_forward :
      (s : State) (tmp word : Bytes)
      → s.optind < (short_value optstring tmp argv s word).state.optind
  unfolding short_value
  short_value_forward s tmp word = ground arith

  char_at_inside : (w : Bytes) (i : ℕ) → char_at w i ≢ 0 → i < length w
  char_at_inside [] i h = absurd (h refl)
  char_at_inside (c ∷ w) zero h = omega arith
  char_at_inside (c ∷ w) (suc i) h = omega (arith, char_at_inside w i h)

  strchr_head : (xs : Bytes) (c : ℕ) (tmp : Bytes) → strchr xs c ≡ some tmp → char_at tmp 0 ≡ c
  unfolding strchr
  strchr_head [] c tmp e = ground arith
  strchr_head (x ∷ xs) c tmp e = ground (arith, strchr_head xs c tmp)

  short_option-Forward :
      (s : State) (word : Bytes) (o : Outcome)
      → word_at s.optind ≡ word
      → (short_option optstring argv s word).0 ≡ some o
      → Forward s o.state
  unfolding short_option
  short_option-Forward s word o g e =
      let p : ℕ = place s + 1 in
      elim (Option-cases (strchr optstring (char_at word p))) [
        | inl n ↦ ground arith
        | inr (tmp, f) ↦ ground (
          arith,
          strchr_head optstring (char_at word p) tmp,
          char_at_inside word p,
          short_value_forward (record s { optopt = char_at word p }) tmp word,
          short_value_forward
              (record s { lastidx = s.optind; lastofs = 0; optopt = char_at word p }) tmp word,
        )
      ]

  short_option_again :
      (s : State) (word : Bytes)
      → (short_option optstring argv s word).0 ≡ none
      → (short_option optstring argv s word).1.optind ≡ s.optind + 1
  unfolding short_option
  short_option_again s word e = ground arith

  again-Forward :
      (f : ℕ) (s : State)
      → (again f optstring argv opts s).result ≢ negsuc 0
      → Forward s (again f optstring argv opts s).state
  unfolding again
  again-Forward zero s h = absurd (h refl)
  again-Forward (suc f) s h = elim (Option-cases (get_elem? argv s.optind)) [
    | inl e ↦ ground arith
    | inr (word, e) ↦ elim (Option-cases (short_option optstring argv s word).0) [
      | inl n ↦ ground (
        arith,
        long_option_forward s word,
        short_option_again s word,
        again-Forward f (short_option optstring argv s word).1,
      )
      | inr (o, m) ↦ ground (arith, long_option_forward s word, short_option-Forward s word o)
    ]
  ]

  -- Where the option string does not begin with a colon, every call that does not report the end
  -- of the options goes on to a later word, or reads the next character inside the same word.
  pub getopt_long-Forward :
      (s : State)
      → 0 < s.optind
      → (getopt_long optstring argv opts s).result ≢ negsuc 0
      → Forward s (getopt_long optstring argv opts s).state
  getopt_long-Forward s p h =
      rw (getopt_long-again optstring argv opts s p)
        (again-Forward (suc (length argv)) s (rw (getopt_long-again optstring argv opts s p) at h))

module _ (optstring : Bytes) (argv : List Bytes) (opts : List LongOption)
    (plain : colon optstring ≡ false) where
  -- The bound on the jumps back to `again:` is never met: any larger one gives the same outcome.
  pub again_enough :
      (f g : ℕ) (s : State)
      → length argv < f + s.optind
      → length argv < g + s.optind
      → again f optstring argv opts s ≡ again g optstring argv opts s
  unfolding again
  again_enough zero zero s h k = refl
  again_enough zero (suc g) s h k = rw (get_elem?-beyond argv s.optind (omega arith), again)
  again_enough (suc f) zero s h k = rw (get_elem?-beyond argv s.optind (omega arith), again)
  again_enough (suc f) (suc g) s h k = elim (Option-cases (get_elem? argv s.optind)) [
    | inl e ↦ ground arith
    | inr (word, e) ↦ ground (
      arith,
      short_option_again optstring argv opts plain s word,
      again_enough f g (short_option optstring argv s word).1,
    )
  ]
