-- ===== src/CommandLine/Columns.antt =====
-- The cells of the table of sizes: a row of `MAX_SIZES` for each device, filled column by column.
use native.Mathlib.Nat.{suc-mul, mul-le-mul_right}
use u_clbench.Base.{
  ℕ, zero, suc, ◌+◌, ◌*◌, ◌≤◌, ◌<◌, ◌≡◌, ◌≢◌, refl, sym, ap, ◌∙◌, arith, List, length, get_or,
  get_or-set_self, get_or-set_ne, set, length-set, dec_lt, lt→ltb, le→ltb, ℕ_discrete,
}
use u_clbench.Base.Run.{done, fault, write_cell}
use u_clbench.CommandLine.{fill_column}

-- Cells of the table.
pub row_bound :
    (max_sizes used i j : ℕ) → i < used → j < max_sizes → j + i * max_sizes < used * max_sizes
row_bound max_sizes used i j h k =
    let m = mul-le-mul_right {m = suc i} max_sizes h in omega (arith, suc-mul i max_sizes)

cell_ne_of_row :
    (max_sizes i i' j j' : ℕ) → i < i' → j < max_sizes → j + i * max_sizes ≢ j' + i' * max_sizes
cell_ne_of_row max_sizes i i' j j' h k e = let m = row_bound max_sizes i' i j h k in omega arith

pub cell_ne_of_column :
    (max_sizes i i' j j' : ℕ)
    → j < max_sizes
    → j' < max_sizes
    → j ≢ j'
    → j + i * max_sizes ≢ j' + i' * max_sizes
cell_ne_of_column max_sizes i i' j j' h h' n e = elim (dec_lt i i') [
  | yes l ↦ cell_ne_of_row max_sizes i i' j j' l h e
  | no ge ↦ elim (dec_lt i' i) [
    | yes l ↦ cell_ne_of_row max_sizes i' i j' j l h' (sym e)
    | no ge' ↦ let q : i ≡ i' = omega arith in let m = ap (λ x. x * max_sizes) q in n (omega arith)
  ]
]

-- the table behind the writes of a column
abbrev pub column : ℕ → ℕ → ℕ → ℕ → ℕ → List ℕ → List ℕ
column max_sizes size j zero i t = t
column max_sizes size j (suc rounds) i t =
    column max_sizes size j rounds (suc i) (set t (j + i * max_sizes) size)

pub column-length :
    (max_sizes size j rounds i : ℕ) (t : List ℕ)
    → length (column max_sizes size j rounds i t) ≡ length t
column-length max_sizes size j zero i t = refl
column-length max_sizes size j (suc rounds) i t =
    column-length max_sizes size j rounds (suc i) (set t (j + i * max_sizes) size)
    ∙ length-set t (j + i * max_sizes) size

pub fill_column-done :
    (max_sizes size j rounds i : ℕ) (t : List ℕ)
    → j < max_sizes
    → (i + rounds) * max_sizes ≤ length t
    → fill_column max_sizes size j rounds i t ≡ done (column max_sizes size j rounds i t)
unfolding fill_column
fill_column-done max_sizes size j zero i t h k = refl
fill_column-done max_sizes size j (suc rounds) i t h k =
    let b = row_bound max_sizes (i + suc rounds) i j (omega arith) h in
    let l = lt→ltb (j + i * max_sizes) (length t) (omega arith) in
    let q : suc i + rounds ≡ i + suc rounds = omega arith in
    let m = ap (λ x. x * max_sizes) q in
    let s = length-set t (j + i * max_sizes) size in
    let ih =
      fill_column-done max_sizes size j rounds (suc i) (set t (j + i * max_sizes) size) h
        (omega arith) in
    rw (write_cell, l) ih

-- a column behind the last one
fill_column-fault :
    (max_sizes size j rounds i : ℕ) (t : List ℕ)
    → max_sizes ≤ j
    → length t ≤ (i + suc rounds) * max_sizes
    → fill_column max_sizes size j (suc rounds) i t ≡ fault
unfolding fill_column
fill_column-fault max_sizes size j zero i t h k =
    let q : i + 1 ≡ suc i = omega arith in
    let m = ap (λ x. x * max_sizes) q ∙ suc-mul i max_sizes in
    rw (write_cell, le→ltb (j + i * max_sizes) (length t) (omega arith)) refl
fill_column-fault max_sizes size j (suc rounds) i t h k =
    elim (dec_lt (j + i * max_sizes) (length t)) [
      | yes lt ↦
          let q : suc i + suc rounds ≡ i + suc (suc rounds) = omega arith in
          let m = ap (λ x. x * max_sizes) q in
          let s = length-set t (j + i * max_sizes) size in
          let ih =
            fill_column-fault max_sizes size j rounds (suc i) (set t (j + i * max_sizes) size) h
              (omega arith) in
          rw (write_cell, lt→ltb (j + i * max_sizes) (length t) lt) ih
      | no ge ↦ rw (write_cell, le→ltb (j + i * max_sizes) (length t) (omega arith)) refl
    ]

pub fill_column-behind :
    (max_sizes size j used : ℕ) (t : List ℕ)
    → max_sizes ≤ j
    → 0 < used
    → length t ≤ used * max_sizes
    → fill_column max_sizes size j used 0 t ≡ fault
fill_column-behind max_sizes size j zero t h u l = absurd (omega arith)
fill_column-behind max_sizes size j (suc rounds) t h u l =
    let z : 0 + suc rounds ≡ suc rounds = omega arith in
    let c = ap (λ x. x * max_sizes) z in
    fill_column-fault max_sizes size j rounds 0 t h (omega arith)

-- Another cell than those of the column.
pub column-ne :
    (max_sizes size j rounds i k : ℕ) (t : List ℕ)
    → ((i' : ℕ) → i ≤ i' → j + i' * max_sizes ≢ k)
    → get_or (column max_sizes size j rounds i t) k 0 ≡ get_or t k 0
column-ne max_sizes size j zero i k t h = refl
column-ne max_sizes size j (suc rounds) i k t h =
    column-ne max_sizes size j rounds (suc i) k (set t (j + i * max_sizes) size)
      (λ i' l. h i' (omega arith))
    ∙ get_or-set_ne t (j + i * max_sizes) k size 0 (h i (omega arith))

-- a cell of the column
pub column-at :
    (max_sizes size j rounds i i' : ℕ) (t : List ℕ)
    → j < max_sizes
    → i ≤ i'
    → i' < i + rounds
    → i' * max_sizes + max_sizes ≤ length t
    → get_or (column max_sizes size j rounds i t) (j + i' * max_sizes) 0 ≡ size
column-at max_sizes size j zero i i' t h a b l = absurd (omega arith)
column-at max_sizes size j (suc rounds) i i' t h a b l = elim (ℕ_discrete i i') [
  | yes q ↦
      let c = ap (λ x. x * max_sizes) q in
      let same_cell : j + i * max_sizes ≡ j + i' * max_sizes = omega arith in
      column-ne max_sizes size j rounds (suc i) (j + i' * max_sizes)
        (set t (j + i * max_sizes) size)
        (λ r g e. cell_ne_of_row max_sizes i' r j j (omega arith) h (sym e))
      ∙ rw same_cell (get_or-set_self t (j + i' * max_sizes) size 0 (omega arith))
  | no n ↦
      let s = length-set t (j + i * max_sizes) size in
      column-at max_sizes size j rounds (suc i) i' (set t (j + i * max_sizes) size) h (omega arith)
        (omega arith) (omega arith)
]
