-- ===== src/BranchPenalty/Source.antt =====
-- `oclLoadProgSource` of branch_penalty/oclutils.h: the text of a file behind a preamble.
use u_clbench.Base.{ℕ, ◌+◌, Option, none, some, ◌++◌, ◌==◌, if◌then◌else◌, length}
use u_clbench.Base.Text.{Bytes}

-- The bytes in front of the NUL that is put behind them, and `*szFinalLength`, given whether its
-- address is and its value before.
unfoldable pub ocl_load_prog_source :
    (files : Bytes → Option Bytes) → Bytes → Bytes → Option ℕ → Option Bytes × Option ℕ
ocl_load_prog_source files path preamble final_length = elim (files path) [
  | none ↦ (none, final_length)
  | some source ↦ if length source == 0 then (none, final_length) else (
    some (preamble ++ source),
    elim final_length [ none ↦ none | some n ↦ some (length source + length preamble) ],
  )
]
