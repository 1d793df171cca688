-- ===== src/CommandLine/Jobs.antt =====
-- The runs that main makes for a command line: each chosen device with each size.
use u_clbench.Base.{ℕ, List, [], ◌∷◌, ◌++◌, map, Option, none, some, if◌then◌else◌}
use u_clbench.Base.Text.{Bytes, codes, same}
use u_clbench.CommandLine.Devices.{picked}
use u_clbench.CommandLine.Sizes.{all_sizes}
use u_clbench.CommandLine.Scan.{tokens}

module _ {D : Type 0} where
  -- the devices that are asked for, `none` where a word is not a number
  abbrev pub chosen_devices : List D → Option Bytes → Option (List D)
  chosen_devices devices none = some devices
  chosen_devices devices (some devices_str) =
      if same devices_str (codes "all") then some devices else picked devices (tokens devices_str)

-- the sizes that are asked for, `none` where a word is not a size
abbrev pub wanted_sizes : ℕ → Option Bytes → Option (List ℕ)
wanted_sizes size none = some (size ∷ [])
wanted_sizes size (some sizes_str) = all_sizes (tokens sizes_str)

-- Each device with each size, the devices outermost.
abbrev pub pairs : {D : Type 0} → List D → List ℕ → List (D × ℕ)
pairs [] sizes = []
pairs (d ∷ ds) sizes = map (λ s. (d, s)) sizes ++ pairs ds sizes
