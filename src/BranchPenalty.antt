-- ===== src/BranchPenalty.antt =====
-- The branch penalty benchmark, branch_penalty/branch_penalty.cpp: which devices and which
-- patterns of branches it measures, and the selector that each work item branches on.
mod Divide
pub mod Settings
pub mod Bench
pub mod Calls
pub mod Steps
mod Lines
pub mod Driver
pub mod Pattern
pub mod Source
use u_clbench.Base.{
  ℕ, zero, suc, ◌+◌, ◌/◌, ◌%◌, Bool, true, false, Option, none, some, List, [], ◌∷◌, ◌++◌, not,
  ◌&&◌, ◌==◌, if◌then◌else◌,
}
use u_clbench.Base.Int.{ℤ, pos, negsuc, ◌==ℤ◌}

-- `BPSIZE`
abbrev pub bpsize : ℕ
bpsize = 128

-- `curbranch` behind the two tests of a round
pub next_branch : ℕ → ℕ → ℕ → ℕ → ℕ
next_branch branchtypes branchsize i curbranch =
    let counted = if i % branchsize == 0 then curbranch + 1 else curbranch in
    if counted % (branchtypes + 1) == 0 then 1 else counted

-- `for(int i = 0; i<BPSIZE; ++i)`, with the rounds left: what is written from cell `i` on
pub selector_loop : ℕ → ℕ → ℕ → ℕ → ℕ → List ℕ
selector_loop zero branchtypes branchsize i curbranch = []
selector_loop (suc n) branchtypes branchsize i curbranch =
    let curbranch' = next_branch branchtypes branchsize i curbranch in
    curbranch' ∷ selector_loop n branchtypes branchsize (i + 1) curbranch'

-- the array `branchSelector` for one pattern
unfoldable pub branch_selector : ℕ → ℕ → List ℕ
unfolding selector_loop next_branch
branch_selector branchtypes branchsize = selector_loop bpsize branchtypes branchsize 0 0

-- the loop over `branchsize`, with the rounds left
pub size_loop : ℕ → ℕ → ℕ → List (ℕ × ℕ)
size_loop zero branchtypes branchsize = []
size_loop (suc n) branchtypes branchsize =
    (branchtypes, branchsize) ∷ size_loop n branchtypes (branchsize + 1)

-- the loop over `branchtypes`, with the rounds left
pub type_loop : ℕ → ℕ → List (ℕ × ℕ)
type_loop zero branchtypes = []
type_loop (suc n) branchtypes =
    size_loop (bpsize / branchtypes) branchtypes 1 ++ type_loop n (branchtypes + 1)

-- the patterns measured, in order
unfoldable pub patterns : List (ℕ × ℕ)
unfolding type_loop size_loop
patterns = type_loop bpsize 1

-- `device_id != -1 && device_id != i` skips device `i`
unfoldable pub is_measured : ℤ → ℕ → Bool
is_measured device_id i = not (not (device_id ==ℤ negsuc 0) && not (device_id ==ℤ pos i))
