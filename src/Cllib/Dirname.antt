-- ===== src/Cllib/Dirname.antt =====
-- `dirname` of cllib/clcommon.cpp, for systems without one: the path is changed in place, and is its
-- characters in front of the end mark.
use u_clbench.Base.{
  ℕ, zero, suc, ◌≡◌, ◌≢◌, refl, sym, ap, ◌∙◌, arith, Option, none, some, [], ◌∷◌, ◌++◌, ◌==◌, ==_ne,
  if◌then◌else◌, length, length-append, get_or, take, All,
}
use u_clbench.Base.Run.{Run, done, fault, no_fuel}
use u_clbench.Base.Text.{Bytes, codes}

-- `strrchr(path, SLASH) - path`
unfoldable pub last_slash : Bytes → Option ℕ
last_slash [] = none
last_slash (c ∷ cs) = elim (last_slash cs) [
  | some i ↦ some (suc i)
  | none ↦ if c == b'/' then some 0 else none
]

-- "remove trailing slashes", from place `c` down to the one behind the first
unfoldable pub cut_trailing : ℕ → Bytes → Bytes
cut_trailing zero path = path
cut_trailing (suc c) path =
    let rest = cut_trailing c (take (suc c) path) in
    if get_or path (suc c) 0 == b'/' then rest else path

-- "slashes in the middle", from place `c` down; behind the first character the test reads in front
-- of the path
unfoldable pub cut_middle : ℕ → Bytes → Run Bytes
cut_middle zero path = if get_or path 0 0 == b'/' then fault else done path
cut_middle (suc c) path =
    let rest = cut_middle c (take (suc c) path) in
    if get_or path (suc c) 0 == b'/' then rest else done path

-- `for(;;)`, with a bound on its rounds
unfoldable pub dirname : ℕ → Bytes → Run Bytes
unfolding last_slash cut_trailing cut_middle
dirname zero path = no_fuel
dirname (suc f) path =
    let again = λ (c : ℕ). dirname f (cut_trailing c path) in
    elim (last_slash path) [
      | none ↦ done (codes ".")
      | some zero ↦ done (take 1 path)
      | some (suc c) ↦ if length path == suc (suc c) then again (suc c) else cut_middle (suc c) path
    ]

last_slash-none : (base : Bytes) → All (λ (c : ℕ). c ≢ b'/') base → last_slash base ≡ none
unfolding last_slash
last_slash-none [] h = refl
last_slash-none (c ∷ base) (n, h) = rw (last_slash-none base h, ==_ne c b'/' n) refl

last_slash-append :
    (front base : Bytes)
    → All (λ (c : ℕ). c ≢ b'/') base
    → last_slash (front ++ b'/' ∷ base) ≡ some (length front)
unfolding last_slash
last_slash-append [] base h = rw (last_slash-none base h) refl
last_slash-append (c ∷ front) base h = rw (last_slash-append front base h) refl

get_or-append :
    (front : Bytes) (c : ℕ) (rest : Bytes) → get_or (front ++ c ∷ rest) (length front) 0 ≡ c
get_or-append [] c rest = refl
get_or-append (x ∷ front) c rest = get_or-append front c rest

take-length : (front rest : Bytes) → take (length front) (front ++ rest) ≡ front
take-length [] rest = refl
take-length (x ∷ front) rest = ap (◌∷◌ x) (take-length front rest)

cut_middle_stop : (c : ℕ) (path : Bytes) → get_or path c 0 ≢ b'/' → cut_middle c path ≡ done path
unfolding cut_middle
cut_middle_stop zero path h = rw (==_ne _ b'/' h) refl
cut_middle_stop (suc c) path h = rw (==_ne _ b'/' h) refl

dirname-front :
    (f c : ℕ) (dir base : Bytes)
    → length dir ≡ suc c
    → get_or dir c 0 ≢ b'/'
    → base ≢ []
    → last_slash (dir ++ b'/' ∷ base) ≡ some (suc c)
    → get_or (dir ++ b'/' ∷ base) (suc c) 0 ≡ b'/'
    → take (suc c) (dir ++ b'/' ∷ base) ≡ dir
    → dirname (suc f) (dir ++ b'/' ∷ base) ≡ done dir
unfolding dirname
dirname-front f c dir [] l n e s g t = absurd (e refl)
dirname-front f c dir (b ∷ base) l n e s g t =
    let k : length (dir ++ b'/' ∷ b ∷ base) ≢ suc (suc c) =
      λ h. omega (arith, h, l, length-append dir (b'/' ∷ b ∷ base)) in
    rw (dirname, s, ==_ne (length (dir ++ b'/' ∷ b ∷ base)) (suc (suc c)) k, cut_middle, g, t)
      (cut_middle_stop c dir n)

-- A path made of a directory that does not end in a slash, a slash, and a last name that is not
-- empty and has no slash gives the directory, and one round of the loop is enough.
pub dirname_lem :
    (f : ℕ) (front : Bytes) (last : ℕ) (base : Bytes)
    → last ≢ b'/'
    → base ≢ []
    → All (λ (c : ℕ). c ≢ b'/') base
    → dirname (suc f) ((front ++ last ∷ []) ++ b'/' ∷ base) ≡ done (front ++ last ∷ [])
dirname_lem f front last base n e h =
    let dir = front ++ last ∷ [] in
    let l : length dir ≡ suc (length front) = omega (arith, length-append front (last ∷ [])) in
    dirname-front f (length front) dir base l (λ q. n (sym (get_or-append front last []) ∙ q)) e
      (rw l at (last_slash-append dir base h)) (rw l at (get_or-append dir b'/' base))
      (rw l at (take-length dir (b'/' ∷ base)))
