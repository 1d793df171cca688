-- ===== src/Bandwidth/Settings.antt =====
-- The command line of buffer_bandwidth/buffer_bandwidth.cpp: the loop over the options in main.
use u_clbench.Base.{
  ℕ, ◌≡◌, refl, arith, List, [], ◌∷◌, map, Option, none, some, ◌⊎◌, inl, inr, ◌==◌, ◌||◌,
  if◌then◌else◌,
}
use u_clbench.Base.Int.{ℤ, pos, negsuc}
use u_clbench.Base.Run.{Run, done}
use u_clbench.Base.Text.{Bytes, codes, same}
use u_clbench.Cllib.Getopt.{LongOption}
use u_clbench.CommandLine.Settings.{
  Leaving, aborted, Program, flag_option, text_option, read_options,
}
use u_clbench.CommandLine.Settings.Words.{
  valued, plain, Takes, Takes-valued, Takes-flag, all_of, read_options-words,
}

-- the variables of main that the options set
pub record Config : Type 0 where
  pub info_flag : ℕ
  pub usage_flag : ℕ
  pub csv_flag : ℕ
  pub pinned_flag : ℕ
  pub mapped_flag : ℕ
  pub sizes_str : Option Bytes
  pub devices_str : Option Bytes
  pub repeat_str : Option Bytes
  pub iterations_str : Option Bytes

abbrev pub initial : Config
initial = record {
  info_flag = 0;
  usage_flag = 0;
  csv_flag = 0;
  pinned_flag = 0;
  mapped_flag = 0;
  sizes_str = none;
  devices_str = none;
  repeat_str = none;
  iterations_str = none;
}

-- `long_options`; the flags are numbered as they stand in the record
abbrev long_options : List LongOption
long_options =
    flag_option "info" 0 1
    ∷ flag_option "help" 1 1
    ∷ flag_option "csv" 2 1
    ∷ flag_option "pinned" 3 1
    ∷ flag_option "pageable" 3 0
    ∷ flag_option "mapped" 4 1
    ∷ flag_option "direct" 4 0
    ∷ text_option "sizes" b'a'
    ∷ text_option "device" b'b'
    ∷ text_option "repeats" b'c'
    ∷ text_option "iterations" b'd'
    ∷ []

abbrev write_flag : ℕ → ℕ → Config → Config
write_flag f v c =
    if f == 0
    then record c { info_flag = v }
    else if f == 1
    then record c { usage_flag = v }
    else if f == 2
    then record c { csv_flag = v }
    else if f == 3
    then record c { pinned_flag = v }
    else record c { mapped_flag = v }

-- the `switch`
abbrev switch : ℤ → Option Bytes → Config → Leaving ⊎ Config
switch (negsuc n) optarg c = inl aborted
switch (pos n) optarg c =
    if n == 0 || n == b'?'
    then inr c
    else if n == b'a'
    then inr (record c { sizes_str = optarg })
    else if n == b'b'
    then inr (record c { devices_str = optarg })
    else if n == b'c'
    then inr (record c { repeat_str = optarg })
    else if n == b'd'
    then inr (record c { iterations_str = optarg })
    else inl aborted

abbrev pub bandwidth_program : Program Config
bandwidth_program = record {
  optstring = codes "a:";
  options = long_options;
  write_flag = write_flag;
  switch = switch;
}

unfoldable pub bandwidth_config : List Bytes → Run (Leaving ⊎ Config)
unfolding read_options
bandwidth_config argv = read_options bandwidth_program argv initial

-- the words that name an option of the table
pub data Word : Type 0 where
  info help csv pinned pageable mapped direct : Word
  sizes device repeats iterations : Bytes → Word

abbrev pub print : Word → Bytes
print info = plain (codes "info")
print help = plain (codes "help")
print csv = plain (codes "csv")
print pinned = plain (codes "pinned")
print pageable = plain (codes "pageable")
print mapped = plain (codes "mapped")
print direct = plain (codes "direct")
print (sizes v) = valued (codes "sizes") v
print (device v) = valued (codes "device") v
print (repeats v) = valued (codes "repeats") v
print (iterations v) = valued (codes "iterations") v

abbrev pub apply : Word → Config → Config
apply info c = record c { info_flag = 1 }
apply help c = record c { usage_flag = 1 }
apply csv c = record c { csv_flag = 1 }
apply pinned c = record c { pinned_flag = 1 }
apply pageable c = record c { pinned_flag = 0 }
apply mapped c = record c { mapped_flag = 1 }
apply direct c = record c { mapped_flag = 0 }
apply (sizes v) c = record c { sizes_str = some v }
apply (device v) c = record c { devices_str = some v }
apply (repeats v) c = record c { repeat_str = some v }
apply (iterations v) c = record c { iterations_str = some v }

takes : (w : Word) (c : Config) → Takes bandwidth_program (print w) c (apply w c)
unfolding same
takes info c =
    Takes-flag bandwidth_program (codes "info") (flag_option "info" 0 1) 0 c _ refl refl refl refl
      (λ arg. refl)
takes help c =
    Takes-flag bandwidth_program (codes "help") (flag_option "help" 1 1) 1 c _ refl refl refl refl
      (λ arg. refl)
takes csv c =
    Takes-flag bandwidth_program (codes "csv") (flag_option "csv" 2 1) 2 c _ refl refl refl refl
      (λ arg. refl)
takes pinned c =
    Takes-flag bandwidth_program (codes "pinned") (flag_option "pinned" 3 1) 3 c _ refl refl refl
      refl (λ arg. refl)
takes pageable c =
    Takes-flag bandwidth_program (codes "pageable") (flag_option "pageable" 3 0) 3 c _ refl refl
      refl refl (λ arg. refl)
takes mapped c =
    Takes-flag bandwidth_program (codes "mapped") (flag_option "mapped" 4 1) 4 c _ refl refl refl
      refl (λ arg. refl)
takes direct c =
    Takes-flag bandwidth_program (codes "direct") (flag_option "direct" 4 0) 4 c _ refl refl refl
      refl (λ arg. refl)
takes (sizes v) c =
    Takes-valued bandwidth_program (codes "sizes") v (text_option "sizes" b'a') c _ refl refl
      (omega arith) refl refl
takes (device v) c =
    Takes-valued bandwidth_program (codes "device") v (text_option "device" b'b') c _ refl refl
      (omega arith) refl refl
takes (repeats v) c =
    Takes-valued bandwidth_program (codes "repeats") v (text_option "repeats" b'c') c _ refl refl
      (omega arith) refl refl
takes (iterations v) c =
    Takes-valued bandwidth_program (codes "iterations") v (text_option "iterations" b'd') c _ refl
      refl (omega arith) refl refl

-- Any options of the table, with any values, are read as the settings that they give one behind
-- another: the later of two words for one setting counts, and all else stays as it was.
pub bandwidth_config-print :
    (name : Bytes) (ws : List Word)
    → bandwidth_config (name ∷ map print ws) ≡ done (inr (all_of apply ws initial))
unfolding bandwidth_config
bandwidth_config-print name ws =
    read_options-words bandwidth_program print apply takes name ws initial
