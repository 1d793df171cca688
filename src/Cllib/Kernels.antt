-- ===== src/Cllib/Kernels.antt =====
-- Loading a kernel's source from a file: both forms of `load_kernel` of cllib/clcommon.cpp. The
-- files and what OpenCL makes of a source are parameters; malloc finds room, as the code relies on.
pub mod Agree
use u_clbench.Base.{
  ℕ, ◌%◌, ◌+◌, Bool, true, false, Option, none, some, List, [], ◌∷◌, ◌++◌, not, ◌&&◌, ◌||◌, ◌==◌,
  if◌then◌else◌, length,
}
use u_clbench.Base.Int.{ℤ, ◌==ℤ◌}
use u_clbench.Base.Run.{Run, done, fault, ◌>>=◌}
use u_clbench.Base.Text.{Bytes}

-- the text in front of the first NUL
unfoldable pub c_string : Bytes → Bytes
c_string [] = []
c_string (c ∷ cs) = let rest = c_string cs in if c == 0 then [] else c ∷ rest

-- The program or NULL, and whether the file is still open.
pub record Loaded (P : Type 0) : Type 0 where
  pub program : Option P
  pub left_open : Bool

-- `files` gives the bytes of the files that can be opened, `create` the program and the error of
-- `clCreateProgramWithSource` for a text, `page` the size of a page of memory.
module _ {P : Type 0} (success : ℤ) (files : Bytes → Option Bytes) (create : Bytes → Option P × ℤ)
    (page : ℕ) where
  abbrev pub checked : Option P × ℤ → Option P
  checked (none, err) = none
  checked (some p, err) = if err ==ℤ success then some p else none

  -- without `UNIX`; `fread` of no bytes reads no item
  unfoldable pub load_kernel_stdio : Bytes → Bytes → Loaded P
  unfolding c_string
  load_kernel_stdio path preamble = elim (files path) [
    | none ↦ record { program = none; left_open = false }
    | some source ↦
        if length source == 0 then record { program = none; left_open = false } else record {
          program = checked (create (c_string (preamble ++ source)));
          left_open = false;
        }
  ]

  -- `strlen` of a mapped file runs on into the zeros of its last page; there are none behind a file
  -- that fills its pages, and a file of no bytes cannot be mapped
  unfoldable pub mapped_text : Bytes → Run Bytes
  unfolding c_string
  mapped_text source =
      if length source % page == 0
        && (length source == 0 || length (c_string source) == length source)
      then fault
      else done (c_string source)

  abbrev pub loaded_with : Option P → Loaded P
  loaded_with none = record { program = none; left_open = true }
  loaded_with (some p) = record { program = some p; left_open = false }

  -- with `UNIX`
  unfoldable pub load_kernel_mmap : Bytes → Bytes → Run (Loaded P)
  unfolding mapped_text
  load_kernel_mmap path preamble = elim (files path) [
    | none ↦ done (record { program = none; left_open = false })
    | some source ↦ mapped_text source >>= λ mm. done (loaded_with (create (preamble ++ mm)).0)
  ]
