-- ===== src/BranchPenalty/Settings.antt =====
-- The command line of branch_penalty/branch_penalty.cpp: the loop over the options in main.
use u_clbench.Base.{
  ℕ, ◌≡◌, refl, arith, List, [], ◌∷◌, map, Option, ◌⊎◌, inr, ◌==◌, ◌||◌, if◌then◌else◌,
}
use u_clbench.Base.Int.{ℤ, pos, negsuc}
use u_clbench.Base.Run.{Run, done}
use u_clbench.Base.Text.{Bytes, codes, same}
use u_clbench.Cllib.Getopt.{LongOption}
use u_clbench.CommandLine.Settings.{
  Leaving, Program, flag_option, text_option, atoi, as_unsigned, with_optarg, read_options,
}
use u_clbench.CommandLine.Settings.Words.{
  valued, plain, Takes, Takes-valued, Takes-flag, all_of, read_options-words,
}

-- the variables of main that the options set
pub record Config : Type 0 where
  pub info_flag : ℕ
  pub csv_flag : ℕ
  pub usage_flag : ℕ
  pub device_id : ℤ
  pub repeats : ℕ

abbrev pub initial : Config
initial = record { info_flag = 0; csv_flag = 0; usage_flag = 0; device_id = negsuc 0; repeats = 1 }

-- `long_options`; the flags are numbered as they stand in the record
abbrev long_options : List LongOption
long_options =
    flag_option "info" 0 1
    ∷ flag_option "help" 2 1
    ∷ flag_option "csv" 1 1
    ∷ text_option "device" b'a'
    ∷ text_option "repeats" b'b'
    ∷ []

abbrev write_flag : ℕ → ℕ → Config → Config
write_flag f v c =
    if f == 0
    then record c { info_flag = v }
    else if f == 1
    then record c { csv_flag = v }
    else record c { usage_flag = v }

-- the `switch`
abbrev switch : ℤ → Option Bytes → Config → Leaving ⊎ Config
switch (negsuc n) optarg c = inr c
switch (pos n) optarg c =
    if n == 0 || n == b'?'
    then inr c
    else if n == b'a'
    then with_optarg optarg (λ w. record c { device_id = atoi w })
    else if n == b'b'
    then with_optarg optarg (λ w. record c { repeats = as_unsigned (atoi w) })
    else inr c

abbrev pub penalty_program : Program Config
penalty_program = record {
  optstring = codes "a:";
  options = long_options;
  write_flag = write_flag;
  switch = switch;
}

unfoldable pub penalty_config : List Bytes → Run (Leaving ⊎ Config)
unfolding read_options
penalty_config argv = read_options penalty_program argv initial

-- the words that name an option of the table
pub data Word : Type 0 where
  info help csv : Word
  device repeat_count : Bytes → Word

abbrev pub print : Word → Bytes
print info = plain (codes "info")
print help = plain (codes "help")
print csv = plain (codes "csv")
print (device v) = valued (codes "device") v
print (repeat_count v) = valued (codes "repeats") v

abbrev pub apply : Word → Config → Config
apply info c = record c { info_flag = 1 }
apply help c = record c { usage_flag = 1 }
apply csv c = record c { csv_flag = 1 }
apply (device v) c = record c { device_id = atoi v }
apply (repeat_count v) c = record c { repeats = as_unsigned (atoi v) }

takes : (w : Word) (c : Config) → Takes penalty_program (print w) c (apply w c)
unfolding same
takes info c =
    Takes-flag penalty_program (codes "info") (flag_option "info" 0 1) 0 c _ refl refl refl refl
      (λ arg. refl)
takes help c =
    Takes-flag penalty_program (codes "help") (flag_option "help" 2 1) 2 c _ refl refl refl refl
      (λ arg. refl)
takes csv c =
    Takes-flag penalty_program (codes "csv") (flag_option "csv" 1 1) 1 c _ refl refl refl refl
      (λ arg. refl)
takes (device v) c =
    Takes-valued penalty_program (codes "device") v (text_option "device" b'a') c _ refl refl
      (omega arith) refl refl
takes (repeat_count v) c =
    Takes-valued penalty_program (codes "repeats") v (text_option "repeats" b'b') c _ refl refl
      (omega arith) refl refl

-- Any options of the table, with any values, are read as the settings that they give one behind
-- another: the later of two words for one setting counts, and all else stays as it was.
pub penalty_config-print :
    (name : Bytes) (ws : List Word)
    → penalty_config (name ∷ map print ws) ≡ done (inr (all_of apply ws initial))
unfolding penalty_config
penalty_config-print name ws = read_options-words penalty_program print apply takes name ws initial
