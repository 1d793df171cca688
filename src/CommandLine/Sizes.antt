-- ===== src/CommandLine/Sizes.antt =====
-- The table that the words of `--sizes` fill.
use mathlib.Core.Option
use native.Mathlib.Nat.{suc-mul, mul-le-mul_right, mul_comm}
use u_clbench.Base.{
  ℕ, zero, suc, ◌+◌, ◌*◌, ◌≤◌, ◌<◌, ◌≡◌, inl, inr, refl, sym, ap, ◌∙◌, arith, List, [], ◌∷◌, Option,
  none, some, Option-cases, length, get_or, replicate, length-replicate, dec_lt,
}
use u_clbench.Base.Run.{done, fault, read_cell}
use u_clbench.Base.Text.{Bytes}
use u_clbench.CommandLine.{sizes_loop, read_sizes, default_sizes, parse_size}
use u_clbench.CommandLine.Scan.{tokens}
use u_clbench.CommandLine.Columns.{
  row_bound, column, column-length, fill_column-done, fill_column-behind, column-ne, column-at,
  cell_ne_of_column,
}

-- the sizes of the words, `none` where one of them is not a size
abbrev pub all_sizes : List Bytes → Option (List ℕ)
all_sizes [] = some []
all_sizes (w ∷ words) = elim (parse_size w) [
  | none ↦ none
  | some size ↦ Option.map (◌∷◌ size) (all_sizes words)
]

all_sizes-some :
    (w : Bytes) (words : List Bytes) (sizes : List ℕ)
    → all_sizes (w ∷ words) ≡ some sizes
    → (size : ℕ) × ((rest : List ℕ) × ((parse_size w ≡ some size)
          × ((all_sizes words ≡ some rest) × (size ∷ rest ≡ sizes))))
all_sizes-some w words sizes h = elim (Option-cases (parse_size w)) [
  | inl e ↦ let k : all_sizes (w ∷ words) ≡ none = rw (all_sizes, e) refl in cc
  | inr (size, e) ↦ elim (Option-cases (all_sizes words)) [
    | inl q ↦ let k : all_sizes (w ∷ words) ≡ none = rw (all_sizes, e, q) refl in cc
    | inr (rest, q) ↦
        let k : all_sizes (w ∷ words) ≡ some (size ∷ rest) = rw (all_sizes, e, q) refl in
        (size, (rest, (e, (q, cc))))
  ]
]

module _ (max_sizes used : ℕ) where
  -- the table behind the writes of all columns
  abbrev pub columns : ℕ → List ℕ → List ℕ → List ℕ
  columns n [] t = t
  columns n (size ∷ sizes) t = columns (suc n) sizes (column max_sizes size n used 0 t)

  columns-length : (n : ℕ) (sizes t : List ℕ) → length (columns n sizes t) ≡ length t
  columns-length n [] t = refl
  columns-length n (size ∷ sizes) t =
      columns-length (suc n) sizes (column max_sizes size n used 0 t)
      ∙ column-length max_sizes size n used 0 t

  sizes_loop-columns :
      (words : List Bytes) (sizes t : List ℕ) (n : ℕ)
      → all_sizes words ≡ some sizes
      → n + length sizes ≤ max_sizes
      → used * max_sizes ≤ length t
      → sizes_loop max_sizes used words t n ≡ done (some (columns n sizes t, n + length sizes))
  unfolding sizes_loop
  sizes_loop-columns [] sizes t n p h l =
      let q : [] ≡ sizes = cc in let z : n + 0 ≡ n = omega arith in rw (sym q, z) refl
  sizes_loop-columns (w ∷ words) sizes t n p h l =
      let (size, (rest, (e, (p', q)))) = all_sizes-some w words sizes p in
      let m : suc (length rest) ≡ length sizes = ap length q in
      let z : 0 + used ≡ used = omega arith in
      let c = ap (λ x. x * max_sizes) z in
      let f = fill_column-done max_sizes size n used 0 t (omega arith) (omega arith) in
      let s = column-length max_sizes size n used 0 t in
      let ih =
        sizes_loop-columns words rest (column max_sizes size n used 0 t) (suc n) p' (omega arith)
          (omega arith) in
      let k : suc n + length rest ≡ n + suc (length rest) = omega arith in
      rw (sizes_loop, e, f, ih, sym q, k) refl

  -- A column that was filled stays.
  columns-before :
      (sizes t : List ℕ) (n i j : ℕ)
      → j < n
      → n + length sizes ≤ max_sizes
      → get_or (columns n sizes t) (j + i * max_sizes) 0 ≡ get_or t (j + i * max_sizes) 0
  columns-before [] t n i j h k = refl
  columns-before (size ∷ sizes) t n i j h k =
      columns-before sizes (column max_sizes size n used 0 t) (suc n) i j (omega arith)
        (omega arith)
      ∙ column-ne max_sizes size n used 0 (j + i * max_sizes) t
          (λ i' l. cell_ne_of_column max_sizes i' i n j (omega arith) (omega arith) (omega arith))

  columns-at :
      (sizes t : List ℕ) (n i j : ℕ)
      → i < used
      → j < length sizes
      → n + length sizes ≤ max_sizes
      → used * max_sizes ≤ length t
      → get_or (columns n sizes t) ((n + j) + i * max_sizes) 0 ≡ get_or sizes j 0
  columns-at [] t n i j a h k l = absurd (omega arith)
  columns-at (size ∷ sizes) t n i zero a h k l =
      let z : n + 0 ≡ n = omega arith in
      let m = mul-le-mul_right {m = suc i} max_sizes a in
      rw z (
        columns-before sizes (column max_sizes size n used 0 t) (suc n) i n (omega arith)
          (omega arith)
        ∙ column-at max_sizes size n used 0 i t (omega arith) (omega arith) (omega arith)
            (omega (arith, suc-mul i max_sizes)))
  columns-at (size ∷ sizes) t n i (suc j) a h k l =
      let z : n + suc j ≡ suc n + j = omega arith in
      let s = column-length max_sizes size n used 0 t in
      rw z (
        columns-at sizes (column max_sizes size n used 0 t) (suc n) i j a (omega arith)
          (omega arith) (omega arith))

  sizes_loop-fault :
      (words : List Bytes) (sizes t : List ℕ) (n : ℕ)
      → all_sizes words ≡ some sizes
      → 0 < used
      → n ≤ max_sizes
      → max_sizes < n + length sizes
      → length t ≡ used * max_sizes
      → sizes_loop max_sizes used words t n ≡ fault
  unfolding sizes_loop
  sizes_loop-fault [] sizes t n p u h k l =
      let q : [] ≡ sizes = cc in let m : 0 ≡ length sizes = ap length q in absurd (omega arith)
  sizes_loop-fault (w ∷ words) sizes t n p u h k l =
      let (size, (rest, (e, (p', q)))) = all_sizes-some w words sizes p in
      let m : suc (length rest) ≡ length sizes = ap length q in
      elim (dec_lt n max_sizes) [
        | yes lt ↦
            let z : 0 + used ≡ used = omega arith in
            let c = ap (λ x. x * max_sizes) z in
            let f = fill_column-done max_sizes size n used 0 t lt (omega arith) in
            let s = column-length max_sizes size n used 0 t in
            let ih =
              sizes_loop-fault words rest (column max_sizes size n used 0 t) (suc n) p' u
                (omega arith) (omega arith) (omega arith) in
            rw (sizes_loop, e, f, ih) refl
        | no ge ↦
            let f = fill_column-behind max_sizes size n used t (omega arith) u (omega arith) in
            rw (sizes_loop, e, f) refl
      ]

  -- the table of zeros
  abbrev pub blank : List ℕ
  blank = replicate (max_sizes * used) 0

  blank-length : length blank ≡ used * max_sizes
  blank-length = length-replicate (max_sizes * used) 0 ∙ mul_comm max_sizes used

  pub read_sizes-columns :
      (sizes_str : Bytes) (sizes : List ℕ)
      → all_sizes (tokens sizes_str) ≡ some sizes
      → length sizes ≤ max_sizes
      → read_sizes max_sizes used sizes_str ≡ done (some (columns 0 sizes blank, length sizes))
  unfolding read_sizes
  read_sizes-columns sizes_str sizes p h =
      let z : 0 + length sizes ≡ length sizes = omega arith in
      let l = blank-length in
      sizes_loop-columns (tokens sizes_str) sizes blank 0 p (omega arith) (omega arith) ∙ rw z refl

  pub default_sizes-columns :
      (size : ℕ)
      → 0 < max_sizes
      → default_sizes max_sizes used size ≡ done (some (columns 0 (size ∷ []) blank, 1))
  unfolding default_sizes
  default_sizes-columns size h =
      let z : 0 + used ≡ used = omega arith in
      let c = ap (λ x. x * max_sizes) z in
      let l = blank-length in
      rw (fill_column-done max_sizes size 0 used 0 blank h (omega arith)) refl

  read_cell-get_or : (t : List ℕ) (k : ℕ) → k < length t → read_cell t k ≡ done (get_or t k 0)
  read_cell-get_or [] k h = absurd (omega arith)
  read_cell-get_or (x ∷ t) zero h = refl
  read_cell-get_or (x ∷ t) (suc k) h = read_cell-get_or t k (omega arith)

  -- what stands at the place of a device and a size
  pub columns-read :
      (sizes : List ℕ) (i j : ℕ)
      → length sizes ≤ max_sizes
      → i < used
      → j < length sizes
      → read_cell (columns 0 sizes blank) (j + i * max_sizes) ≡ read_cell sizes j
  columns-read sizes i j h a b =
      let l = blank-length in
      let m = columns-length 0 sizes blank in
      let r = row_bound max_sizes used i j a (omega arith) in
      let z : 0 + j ≡ j = omega arith in
      let c = columns-at sizes blank 0 i j a b (omega arith) (omega arith) in
      read_cell-get_or (columns 0 sizes blank) (j + i * max_sizes) (omega arith)
      ∙ ap done (rw z at c)
      ∙ sym (read_cell-get_or sizes j b)

  -- Where every word of `--sizes` is a size, there are more of them than MAX_SIZES, and some device
  -- is chosen, main writes behind the end of the table.
  pub read_sizes-fault :
      (sizes_str : Bytes) (sizes : List ℕ)
      → all_sizes (tokens sizes_str) ≡ some sizes
      → max_sizes < length sizes
      → 0 < used
      → read_sizes max_sizes used sizes_str ≡ fault
  unfolding read_sizes
  read_sizes-fault sizes_str sizes p h u =
      sizes_loop-fault (tokens sizes_str) sizes blank 0 p u (omega arith) (omega arith) blank-length
