-- ===== src/CommandLine/Settings/Words.antt =====
-- Command lines made of `--key=value` and `--key`: a loop over the options takes them one by one.
use u_clbench.Base.{
  ℕ, zero, suc, ◌+◌, ◌≤◌, ◌<◌, ◌≡◌, refl, ap, ◌∙◌, arith, true, false, List, [], ◌∷◌, ◌++◌, map,
  Option, none, some, ◌⊎◌, inl, inr, length, get_elem?, length-append,
}
use mathlib.Core.List.{append_assoc}
use u_clbench.Base.Int.{pos, negsuc, ◌==ℤ◌}
use u_clbench.Base.Run.{Run, done}
use u_clbench.Base.Text.{Bytes}
use u_clbench.Cllib.Getopt.{State, LongOption, Outcome, finish, getopt_long}
use u_clbench.Cllib.Getopt.Progress.{getopt_long-end}
use u_clbench.Cllib.Getopt.Flags.{
  first_named, is_key, is_name, getopt_long-valued, getopt_long-flag,
}
use u_clbench.CommandLine.Settings.{Leaving, Program, round, option_loop, size, start, read_options}

abbrev pub valued : Bytes → Bytes → Bytes
valued key value = b'-' ∷ b'-' ∷ (key ++ b'=' ∷ value)

abbrev pub plain : Bytes → Bytes
plain key = b'-' ∷ b'-' ∷ key

module _ {ℓ} {S : Type ℓ} (p : Program S) where
  -- one round of the loop takes the word at `optind` and leaves the settings `t` for `s`
  abbrev pub Takes : Bytes → S → S → Type ℓ
  Takes word s t =
      (argv : List Bytes) (g : State)
      → 0 < g.optind
      → get_elem? argv g.optind ≡ some word
      → (g' : State) × (g'.optind ≡ suc g.optind)
        × ((f : ℕ) → option_loop p argv (suc f) g s ≡ option_loop p argv f g' t)

  -- where an option is stored or returned, and the `switch` leaves `t`
  one_round :
      (argv : List Bytes) (g : State) (o : Outcome) (s t : S) (f : ℕ)
      → getopt_long p.optstring argv p.options g ≡ o
      → (o.result ==ℤ negsuc 0) ≡ false
      → round p argv o s ≡ inr t
      → option_loop p argv (suc f) g s ≡ option_loop p argv f o.state t
  unfolding option_loop
  one_round argv g o s t f e n r =
      ap
        (λ x. elim (x.result ==ℤ negsuc 0) as (λ b. Run (Leaving ⊎ S)) [
          | true ↦ done (inr s)
          | false ↦ elim (round p argv x s) as (λ b. Run (Leaving ⊎ S)) [
            | inl l ↦ done (inl l)
            | inr t ↦ option_loop p argv f x.state t
          ]
        ])
        e
      ∙ rw n (rw r refl)

  pub Takes-valued :
      (key value : Bytes) (o : LongOption) (s t : S)
      → is_key key ≡ true
      → first_named key p.options ≡ some o
      → 0 < o.has_arg
      → o.flag ≡ none
      → p.switch (pos o.val) (some value) s ≡ inr t
      → Takes (valued key value) s t
  unfolding finish
  Takes-valued key value o s t ik f a fl w argv g i e =
      let (k, q) = getopt_long-valued p.optstring argv p.options o g i key value e ik f a in
      let after = record g { optind = g.optind + 1; optarg = some value } in
      let fin : finish o k after
          ≡ record { result = pos o.val; state = after; longindex = some k; stored = none } =
        rw fl refl in
      (after, omega arith, λ n. one_round argv g _ s t n (q ∙ fin) refl w)

  pub Takes-flag :
      (key : Bytes) (o : LongOption) (v : ℕ) (s t : S)
      → is_name key ≡ true
      → first_named key p.options ≡ some o
      → o.has_arg ≡ 0
      → o.flag ≡ some v
      → ((arg : Option Bytes) → p.switch (pos 0) arg (p.write_flag v o.val s) ≡ inr t)
      → Takes (plain key) s t
  unfolding finish
  Takes-flag key o v s t ik f a fl w argv g i e =
      let (k, q) = getopt_long-flag p.optstring argv p.options o g i key e ik f a in
      let after = record g { optind = g.optind + 1 } in
      let fin : finish o k after
          ≡ record { result = pos 0; state = after; longindex = some k; stored = some (v, o.val) } =
        rw fl refl in
      (after, omega arith, λ n. one_round argv g _ s t n (q ∙ fin) refl (w g.optarg))

  option_loop-end :
      (argv : List Bytes) (g : State) (s : S) (f : ℕ)
      → 0 < g.optind
      → get_elem? argv g.optind ≡ none
      → option_loop p argv (suc f) g s ≡ done (inr s)
  unfolding option_loop
  option_loop-end argv g s f i e =
      rw (option_loop, getopt_long-end p.optstring argv p.options g i e) refl

length-size : (argv : List Bytes) → length argv ≤ size argv
unfolding size
length-size [] = omega arith
length-size (w ∷ ws) = omega (arith, length-size ws)

length-map {ℓ} : {A B : Type ℓ} (f : A → B) (xs : List A) → length (map f xs) ≡ length xs
length-map f [] = refl
length-map f (x ∷ xs) = ap suc (length-map f xs)

-- the effects of words one behind another
abbrev pub all_of {ℓ} : {W : Type 0} {S : Type ℓ} → (W → S → S) → List W → S → S
all_of apply [] s = s
all_of apply (w ∷ ws) s = all_of apply ws (apply w s)

get_elem?-length {ℓ} :
    {A : Type ℓ} (xs ys : List A) → get_elem? (xs ++ ys) (length xs) ≡ get_elem? ys 0
get_elem?-length [] ys = refl
get_elem?-length (x ∷ xs) ys = get_elem?-length xs ys

module _ {ℓ} {W : Type 0} {S : Type ℓ} (p : Program S) (print : W → Bytes) (apply : W → S → S)
    (takes : (w : W) (s : S) → Takes p (print w) s (apply w s)) where
  option_loop-words :
      (ws : List W) (before : List Bytes) (g : State) (s : S) (f : ℕ)
      → 0 < g.optind
      → g.optind ≡ length before
      → length ws < f
      → option_loop p (before ++ map print ws) f g s ≡ done (inr (all_of apply ws s))
  option_loop-words [] before g s zero i e h = absurd (omega arith)
  option_loop-words (w ∷ ws) before g s zero i e h = absurd (omega arith)
  option_loop-words [] before g s (suc f) i e h =
      option_loop-end p (before ++ []) g s f i
        (ap (get_elem? (before ++ [])) e ∙ get_elem?-length before [])
  option_loop-words (w ∷ ws) before g s (suc f) i e h =
      let argv = before ++ print w ∷ map print ws in
      let here : get_elem? argv g.optind ≡ some (print w) =
        ap (get_elem? argv) e ∙ get_elem?-length before (print w ∷ map print ws) in
      let (g', n, step) = takes w s argv g i here in
      let ih =
        option_loop-words ws (before ++ print w ∷ []) g' (apply w s) f (omega arith)
          (omega (arith, length-append {0} before (print w ∷ []))) (omega arith) in
      step f ∙ (rw (append_assoc before (print w ∷ []) (map print ws)) at ih)

  -- A program whose loop takes each of certain words gives the settings that the words give one
  -- behind another, for every list of them behind its name.
  pub read_options-words :
      (name : Bytes) (ws : List W) (s : S)
      → read_options p (name ∷ map print ws) s ≡ done (inr (all_of apply ws s))
  unfolding read_options size
  read_options-words name ws s =
      option_loop-words ws (name ∷ []) start s (suc (size (name ∷ map print ws))) (omega arith) refl
        (omega (arith, length-size (map print ws), length-map {0} print ws))
