-- ===== src/CommandLine/Settings/Ends.antt =====
-- The loops over the options end: each call of `getopt_long` leaves fewer characters to read.
use u_clbench.Base.{
  ℕ, zero, suc, ◌+◌, ◌-◌, ◌≤◌, ◌<◌, ◌≡◌, ◌≢◌, refl, ap, ◌∙◌, arith, false, List, [], ◌∷◌, Option,
  none, some, ◌⊎◌, inl, inr, length, get_elem?, drop, Option-cases, Bool-cases, ◌==◌, if◌then◌else◌,
}
use u_clbench.Base.Int.{negsuc, ◌==ℤ◌, ==ℤ_iff}
use u_clbench.Base.Run.{Run, done}
use u_clbench.Base.Text.{Bytes}
use u_clbench.Cllib.Getopt.{State, LongOption, colon, getopt_long}
use u_clbench.Cllib.Getopt.Progress.{Forward, word_at, getopt_long-end, getopt_long-Forward}
use u_clbench.CommandLine.Settings.{Leaving, Program, round, option_loop, size, start, read_options}

-- how far the word at `optind` has been read
abbrev read_to : State → ℕ
read_to g = if g.lastidx == g.optind then g.lastofs else 0

-- what is left to read: the rest of the word, and the words behind it
abbrev left_in : List Bytes → State → Option Bytes → ℕ
left_in argv g none = 0
left_in argv g (some w) = suc (length w - read_to g) + size (drop (suc g.optind) argv)

abbrev pub left : List Bytes → State → ℕ
left argv g = left_in argv g (get_elem? argv g.optind)

size-drop : (argv : List Bytes) (i : ℕ) → size (drop i argv) ≤ size argv
unfolding size
size-drop [] zero = omega arith
size-drop [] (suc i) = omega arith
size-drop (w ∷ ws) zero = ground arith
size-drop (w ∷ ws) (suc i) = ground (arith, size-drop ws i)

size-drop_later : (argv : List Bytes) (i j : ℕ) → i ≤ j → size (drop j argv) ≤ size (drop i argv)
unfolding size
size-drop_later [] zero j h = size-drop [] j
size-drop_later [] (suc i) zero h = absurd (omega arith)
size-drop_later [] (suc i) (suc j) h = omega arith
size-drop_later (w ∷ ws) zero j h = size-drop (w ∷ ws) j
size-drop_later (w ∷ ws) (suc i) zero h = absurd (omega arith)
size-drop_later (w ∷ ws) (suc i) (suc j) h = size-drop_later ws i j (omega arith)

size-drop_here :
    (argv : List Bytes) (i : ℕ) (w : Bytes)
    → get_elem? argv i ≡ some w
    → size (drop i argv) ≡ suc (length w) + size (drop (suc i) argv)
unfolding size
size-drop_here [] i w h = ground arith
size-drop_here (v ∷ ws) zero w h = ground arith
size-drop_here (v ∷ ws) (suc i) w h = size-drop_here ws i w h

left-size : (argv : List Bytes) (g : State) → left argv g ≤ size (drop g.optind argv)
left-size argv g = elim (Option-cases (get_elem? argv g.optind)) [
  | inl n ↦ rw n (omega arith)
  | inr (w, e) ↦ rw e (omega (arith, size-drop_here argv g.optind w e))
]

module _ (optstring : Bytes) (argv : List Bytes) (opts : List LongOption)
    (plain : colon optstring ≡ false) where
  left-Forward :
      (g t : State) (w : Bytes)
      → get_elem? argv g.optind ≡ some w
      → Forward optstring argv opts plain g t
      → left argv t < left argv g
  left-Forward g t w e (inl later) =
      rw e (omega (arith, left-size argv t, size-drop_later argv (suc g.optind) t.optind later))
  left-Forward g t w e (inr (same, further, inside)) =
      let e' : get_elem? argv t.optind ≡ some w = ap (get_elem? argv) same ∙ e in
      let r = ap (λ i. size (drop (suc i) argv)) same in
      let n : read_to t < length w = rw (word_at, e) at inside in
      let here : left argv g ≡ left_in argv g (some w) = ap (left_in argv g) e in
      let there : left argv t ≡ left_in argv t (some w) = ap (left_in argv t) e' in
      omega (arith, r, further, n, here, there)

  -- a call that returns an option leaves less to read
  getopt_long_less :
      (g : State)
      → 0 < g.optind
      → (getopt_long optstring argv opts g).result ≢ negsuc 0
      → (left argv (getopt_long optstring argv opts g).state < left argv g)
        × (0 < (getopt_long optstring argv opts g).state.optind)
  getopt_long_less g i n =
      let w = getopt_long-Forward optstring argv opts plain g i n in
      let p : 0 < (getopt_long optstring argv opts g).state.optind = elim w [
        | inl later ↦ omega arith
        | inr (same, further, inside) ↦ omega arith
      ] in
      elim (Option-cases (get_elem? argv g.optind)) [
        | inl e ↦ absurd (n (ap (λ o. o.result) (getopt_long-end optstring argv opts g i e)))
        | inr (v, e) ↦ (left-Forward g (getopt_long optstring argv opts g).state v e w, p)
      ]

-- the rounds that a loop is given for what is left
module _ {ℓ} {S : Type ℓ} (p : Program S) (argv : List Bytes) where
  abbrev Ends : ℕ → State → S → Type ℓ
  Ends f g s = (r : Leaving ⊎ S) × (option_loop p argv f g s ≡ done r)

  behind_round :
      (b : Leaving ⊎ S) (f : ℕ) (g : State)
      → ((t : S) → Ends f g t)
      → (r : Leaving ⊎ S) × (elim b as (λ x. Run (Leaving ⊎ S)) [
        | inl l ↦ done (inl l)
        | inr t ↦ option_loop p argv f g t
      ]
          ≡ done r)
  behind_round (inl l) f g ih = (inl l, refl)
  behind_round (inr t) f g ih = ih t

  option_loop_ends :
      colon p.optstring ≡ false
      → (f : ℕ) (g : State) → 0 < g.optind
      → left argv g < f
      → (s : S) → Ends f g s
  unfolding option_loop
  option_loop_ends plain zero g i h s = absurd (omega arith)
  option_loop_ends plain (suc f) g i h s =
      let o = getopt_long p.optstring argv p.options g in
      elim (Bool-cases (o.result ==ℤ negsuc 0)) [
        | inl e ↦ rw (option_loop, e) (inr s, refl)
        | inr n ↦
            let less =
              getopt_long_less p.optstring argv p.options plain g i
                (λ q. ground (arith, ==ℤ_iff o.result (negsuc 0))) in
            rw (option_loop, n)
              (behind_round (round p argv o s) f o.state
                (option_loop_ends plain f o.state less.1 (omega (arith, less.0))))
      ]

-- Whatever a program's table and its `switch` are, where its option string does not begin with a
-- colon the loop over the options comes to an end on every command line: the characters of the
-- words with their ends, and one, are rounds enough.
pub read_options_ends {ℓ} :
    {S : Type ℓ} (p : Program S) (argv : List Bytes) (s : S)
    → colon p.optstring ≡ false
    → (r : Leaving ⊎ S) × (read_options p argv s ≡ done r)
unfolding read_options
read_options_ends p argv s plain =
    option_loop_ends p argv plain (suc (size argv)) start (omega arith)
      (omega (arith, left-size argv start, size-drop argv 1)) s
