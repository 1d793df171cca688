-- ===== src/CommandLine.antt =====
-- The lists of device numbers and of sizes that the main functions of arith_speed/arith_speed.cpp,
-- buffer_bandwidth/buffer_bandwidth.cpp and mem_streaming/mem_streaming.cpp take from the command
-- line, in the same words but for constants and texts.
pub mod Inputs
pub mod Jobs
pub mod Scan
pub mod Settings
pub mod Columns
pub mod Devices
pub mod Sizes
use u_clbench.Base.{
  ℕ, zero, suc, ◌+◌, ◌-◌, ◌*◌, ◌%◌, ◌^◌, Bool, true, false, List, [], ◌∷◌, Option, none, some,
  length, replicate, ltb, ◌==◌, ◌||◌, if◌then◌else◌,
}
use u_clbench.Base.Run.{Run, done, fault, ◌>>=◌, write_cell, read_cell}
use u_clbench.Base.Text.{Bytes}
use u_clbench.CommandLine.Scan.{scan_ulong, scan_i, tokens}

-- `none` is `return 1` from main behind a message.
abbrev pub Checked : Type 0 → Type 0
Checked A = Run (Option A)

module _ {D : Type 0} (devices : List D) where
  -- the loop over the words of `--device`; `used` is the array `used_devices`, and `n` is
  -- `used_num_devices`
  unfoldable pub choose_loop : List Bytes → List D → ℕ → Checked (List D × ℕ)
  choose_loop [] used n = done (some (used, n))
  choose_loop (w ∷ words) used n =
      let skip = choose_loop words used n in
      elim (scan_i w) [
        | none ↦ done none
        | some id ↦
            if ltb id (length devices)
            then (do
              d ← read_cell devices id
              stored ← write_cell used n d
              choose_loop words stored (suc n))
            else skip
      ]

  -- `used_devices` for the words of `--device`; `cells` is what `malloc` returns
  unfoldable pub choose_devices : List D → Bytes → Checked (List D × ℕ)
  unfolding choose_loop tokens
  choose_devices cells devices_str = choose_loop (tokens devices_str) cells 0

-- the cases of the letter behind a size, modulo 2^64
unfoldable pub size_of_unit : ℕ → ℕ → Option ℕ
size_of_unit s m =
    if m == b'K' || m == b'k'
    then some (s * 1024 % 2 ^ 64)
    else if m == b'M' || m == b'm'
    then some (s * 1024 * 1024 % 2 ^ 64)
    else none

-- one word of `--sizes`
unfoldable pub parse_size : Bytes → Option ℕ
unfolding size_of_unit
parse_size w = elim (scan_ulong w) [
  | none ↦ none
  | some (s, []) ↦ some s
  | some (s, m ∷ rest) ↦ size_of_unit s m
]

-- `sizes[j + i * MAX_SIZES] = size` for the devices from `i` on, `rounds` of them
unfoldable pub fill_column : ℕ → ℕ → ℕ → ℕ → ℕ → List ℕ → Run (List ℕ)
fill_column max_sizes size j zero i sizes = done sizes
fill_column max_sizes size j (suc rounds) i sizes = do
  stored ← write_cell sizes (j + i * max_sizes) size
  fill_column max_sizes size j rounds (suc i) stored

-- the loop over the words of `--sizes`: the table, and `num_sizes`
unfoldable pub sizes_loop : ℕ → ℕ → List Bytes → List ℕ → ℕ → Checked (List ℕ × ℕ)
unfolding fill_column
sizes_loop max_sizes used [] sizes n = done (some (sizes, n))
sizes_loop max_sizes used (w ∷ words) sizes n = elim (parse_size w) [
  | none ↦ done none
  | some size ↦ fill_column max_sizes size n used 0 sizes >>= λ stored.
      sizes_loop max_sizes used words stored (suc n)
]

-- the table for the words of `--sizes`
unfoldable pub read_sizes : ℕ → ℕ → Bytes → Checked (List ℕ × ℕ)
unfolding sizes_loop tokens
read_sizes max_sizes used sizes_str =
    sizes_loop max_sizes used (tokens sizes_str) (replicate (max_sizes * used) 0) 0

-- the table where no sizes are given
unfoldable pub default_sizes : ℕ → ℕ → ℕ → Checked (List ℕ × ℕ)
unfolding fill_column
default_sizes max_sizes used size =
    fill_column max_sizes size 0 used 0 (replicate (max_sizes * used) 0) >>= λ stored.
    done (some (stored, 1))
