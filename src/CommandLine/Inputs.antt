-- ===== src/CommandLine/Inputs.antt =====
-- What main of buffer_bandwidth/buffer_bandwidth.cpp and of mem_streaming/mem_streaming.cpp take
-- from the command line before they run anything, and the order of their runs.
use u_clbench.Base.{
  ℕ, zero, suc, ◌+◌, ◌*◌, List, [], ◌∷◌, ◌++◌, Option, none, some, length, if◌then◌else◌,
}
use u_clbench.Base.Run.{Run, done, fault, no_fuel, ◌>>=◌, write_cell, read_cell}
use u_clbench.Base.Text.{Bytes, codes, same}
use u_clbench.CommandLine.{Checked, choose_devices, read_sizes, default_sizes}
use u_clbench.CommandLine.Scan.{scan_d}

-- what goes on where main has not returned
abbrev pub checked : {A B : Type 0} → Checked A → (A → Checked B) → Checked B
checked (done (some a)) onwards = onwards a
checked (done none) onwards = done none
checked fault onwards = fault
checked no_fuel onwards = no_fuel

module _ {D : Type 0} where
  -- `used_devices[i] = devices[i]` from `i` on
  abbrev pub copy_devices : List D → ℕ → List D → Run (List D)
  copy_devices [] i cells = done cells
  copy_devices (d ∷ devices) i cells = write_cell cells i d >>= copy_devices devices (suc i)

  abbrev pub all_devices : List D → List D → Checked (List D × ℕ)
  all_devices devices cells =
      copy_devices devices 0 cells >>= λ used. done (some (used, length devices))

  -- `used_devices` and `used_num_devices`; `cells` is what `malloc` returns
  unfoldable pub used_devices : List D → List D → Option Bytes → Checked (List D × ℕ)
  unfolding same choose_devices
  used_devices devices cells none = all_devices devices cells
  used_devices devices cells (some devices_str) =
      if same devices_str (codes "all")
      then all_devices devices cells
      else choose_devices devices cells devices_str

-- `sizes` and `num_sizes`, by MAX_SIZES and the size that is taken where none is given
unfoldable pub table_of_sizes : ℕ → ℕ → ℕ → Option Bytes → Checked (List ℕ × ℕ)
unfolding read_sizes default_sizes
table_of_sizes max_sizes size used none = default_sizes max_sizes used size
table_of_sizes max_sizes size used (some sizes_str) = read_sizes max_sizes used sizes_str

-- `--repeats` and `--iterations`
unfoldable pub read_count : ℕ → Option Bytes → Checked ℕ
unfolding scan_d
read_count default_count none = done (some default_count)
read_count default_count (some str) = done (scan_d str)

pub record Texts : Type 0 where
  pub devices_str : Option Bytes
  pub sizes_str : Option Bytes
  pub repeat_str : Option Bytes
  pub iterations_str : Option Bytes

pub record Inputs (D : Type 0) : Type 0 where
  pub used : List D
  pub used_num_devices : ℕ
  pub sizes : List ℕ
  pub num_sizes : ℕ
  pub repeats : ℕ
  pub iterations : ℕ

-- MAX_SIZES, the size where none is given, and DEFAULT_ITERATIONS
pub record Settings : Type 0 where
  pub max_sizes : ℕ
  pub default_size : ℕ
  pub iterations_default : ℕ

abbrev pub bandwidth_settings : Settings
bandwidth_settings = record {
  max_sizes = 64;
  default_size = 128 * 1024 * 1024;
  iterations_default = 25;
}

abbrev pub streaming_settings : Settings
streaming_settings = record {
  max_sizes = 50;
  default_size = 10 * 1024 * 1024;
  iterations_default = 10;
}

module _ {D : Type 0} (settings : Settings) where
  unfoldable pub read_inputs : List D → List D → Texts → Checked (Inputs D)
  unfolding used_devices table_of_sizes read_count
  read_inputs devices cells texts =
      checked (used_devices devices cells texts.devices_str) λ (used, used_num_devices).
        checked
          (table_of_sizes settings.max_sizes settings.default_size used_num_devices texts.sizes_str)
          λ (sizes, num_sizes). checked (read_count 1 texts.repeat_str) λ repeats.
            checked (read_count settings.iterations_default texts.iterations_str) λ iterations.
              done (
                some (record {
                  used = used;
                  used_num_devices = used_num_devices;
                  sizes = sizes;
                  num_sizes = num_sizes;
                  repeats = repeats;
                  iterations = iterations;
                }))

  -- the sizes that are run on device number `i`, from `j` on
  unfoldable pub sizes_of_device : List ℕ → D → ℕ → ℕ → ℕ → Run (List (D × ℕ))
  sizes_of_device sizes d i zero j = done []
  sizes_of_device sizes d i (suc rounds) j = do
    size ← read_cell sizes (j + i * settings.max_sizes)
    runs ← sizes_of_device sizes d i rounds (suc j)
    done ((d, size) ∷ runs)

  -- the devices that are run, from `i` on
  unfoldable pub device_loop : List D → List ℕ → ℕ → ℕ → ℕ → Run (List (D × ℕ))
  unfolding sizes_of_device
  device_loop used sizes num_sizes zero i = done []
  device_loop used sizes num_sizes (suc rounds) i = do
    d ← read_cell used i
    runs ← sizes_of_device sizes d i num_sizes 0
    others ← device_loop used sizes num_sizes rounds (suc i)
    done (runs ++ others)

  -- The device and the size for each round of the loops around the repetitions, in their order.
  unfoldable pub planned_runs : List D → List D → Texts → Checked (List (D × ℕ))
  unfolding read_inputs device_loop
  planned_runs devices cells texts = checked (read_inputs devices cells texts) λ inputs.
      device_loop inputs.used inputs.sizes inputs.num_sizes inputs.used_num_devices 0 >>= λ runs.
      done (some runs)
