-- ===== src/Cllib/Info/Blocks.antt =====
-- The blocks of memory that malloc gave out and free did not take back.
use u_clbench.Base.{ℕ, suc, Option, none, some, List, [], ◌∷◌, ◌==◌, if◌then◌else◌}

-- `next` is an address that no block had before.
pub record Heap : Type 0 where
  pub next : ℕ
  pub live : List ℕ

pub record Block (A : Type 0) : Type 0 where
  pub address : ℕ
  pub content : A

-- `malloc`, and what is written to the block then
unfoldable pub malloc : {A : Type 0} → A → Heap → Block A × Heap
malloc a h =
    (record { address = h.next; content = a }, record { next = suc h.next; live = h.next ∷ h.live })

-- without the block at `a`, if there is one
unfoldable pub without : ℕ → List ℕ → Option (List ℕ)
without a [] = none
without a (b ∷ bs) =
    let others = without a bs in
    if b == a then some bs else elim others [ none ↦ none | some cs ↦ some (b ∷ cs) ]

-- calls of `free` in order; `none` when a block is not live
unfoldable pub free_all : List ℕ → Heap → Option Heap
unfolding without
free_all [] h = some h
free_all (a ∷ more) h = elim (without a h.live) [
  | none ↦ none
  | some bs ↦ free_all more (record h { live = bs })
]
