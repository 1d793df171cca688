-- ===== src/ArithSpeed/Settings.antt =====
-- The command line of arith_speed/arith_speed.cpp: the loop over the options in main.
use u_clbench.Base.{
  ℕ, ◌≡◌, refl, arith, List, [], ◌∷◌, map, Option, none, some, ◌⊎◌, inl, inr, ◌==◌, ◌||◌,
  if◌then◌else◌,
}
use u_clbench.Base.Int.{ℤ, pos, negsuc}
use u_clbench.Base.Run.{Run, done}
use u_clbench.Base.Text.{Bytes, codes, same}
use u_clbench.Cllib.Getopt.{LongOption}
use u_clbench.CommandLine.Settings.{
  Leaving, aborted, Program, flag_option, text_option, atoi, as_unsigned, with_optarg, read_options,
}
use u_clbench.CommandLine.Settings.Words.{
  valued, plain, Takes, Takes-valued, Takes-flag, all_of, read_options-words,
}

-- the variables of main that the options set
pub record Config : Type 0 where
  pub info_flag : ℕ
  pub csv_flag : ℕ
  pub native_flag : ℕ
  pub check_flag : ℕ
  pub usage_flag : ℕ
  pub double_flag : ℕ
  pub sizes_str : Option Bytes
  pub devices_str : Option Bytes
  pub repeat_str : Option Bytes
  pub function_str : Option Bytes
  pub local_str : Option Bytes
  pub blocks_str : Option Bytes
  pub max_vec : ℕ

abbrev pub initial : Config
initial = record {
  info_flag = 0;
  csv_flag = 0;
  native_flag = 0;
  check_flag = 1;
  usage_flag = 0;
  double_flag = 0;
  sizes_str = none;
  devices_str = none;
  repeat_str = none;
  function_str = none;
  local_str = none;
  blocks_str = none;
  max_vec = 16;
}

-- `long_options`; the flags are numbered as they stand in the record
abbrev long_options : List LongOption
long_options =
    flag_option "info" 0 1
    ∷ flag_option "csv" 1 1
    ∷ flag_option "default" 2 0
    ∷ flag_option "native" 2 1
    ∷ flag_option "nochecks" 3 0
    ∷ flag_option "checks" 3 1
    ∷ flag_option "double" 5 1
    ∷ flag_option "help" 4 1
    ∷ text_option "operations" b'a'
    ∷ text_option "device" b'b'
    ∷ text_option "repeats" b'c'
    ∷ text_option "functions" b'd'
    ∷ text_option "local" b'e'
    ∷ text_option "groups" b'f'
    ∷ text_option "maxvec" b'g'
    ∷ []

abbrev write_flag : ℕ → ℕ → Config → Config
write_flag f v c =
    if f == 0
    then record c { info_flag = v }
    else if f == 1
    then record c { csv_flag = v }
    else if f == 2
    then record c { native_flag = v }
    else if f == 3
    then record c { check_flag = v }
    else if f == 4
    then record c { usage_flag = v }
    else record c { double_flag = v }

-- the `switch`
abbrev switch : ℤ → Option Bytes → Config → Leaving ⊎ Config
switch (negsuc n) optarg c = inl aborted
switch (pos n) optarg c =
    if n == 0 || n == b'?'
    then inr c
    else if n == b'a'
    then inr (record c { sizes_str = optarg })
    else if n == b'b'
    then inr (record c { devices_str = optarg })
    else if n == b'c'
    then inr (record c { repeat_str = optarg })
    else if n == b'd'
    then inr (record c { function_str = optarg })
    else if n == b'e'
    then inr (record c { local_str = optarg })
    else if n == b'f'
    then inr (record c { blocks_str = optarg })
    else if n == b'g'
    then with_optarg optarg (λ w. record c { max_vec = as_unsigned (atoi w) })
    else inl aborted

abbrev pub arith_program : Program Config
arith_program = record {
  optstring = codes "a:";
  options = long_options;
  write_flag = write_flag;
  switch = switch;
}

unfoldable pub arith_config : List Bytes → Run (Leaving ⊎ Config)
unfolding read_options
arith_config argv = read_options arith_program argv initial

-- the words that name an option of the table
pub data Word : Type 0 where
  info csv default native nochecks checks double help : Word
  operations device repeats functions local groups maxvec : Bytes → Word

abbrev pub print : Word → Bytes
print info = plain (codes "info")
print csv = plain (codes "csv")
print default = plain (codes "default")
print native = plain (codes "native")
print nochecks = plain (codes "nochecks")
print checks = plain (codes "checks")
print double = plain (codes "double")
print help = plain (codes "help")
print (operations v) = valued (codes "operations") v
print (device v) = valued (codes "device") v
print (repeats v) = valued (codes "repeats") v
print (functions v) = valued (codes "functions") v
print (local v) = valued (codes "local") v
print (groups v) = valued (codes "groups") v
print (maxvec v) = valued (codes "maxvec") v

abbrev pub apply : Word → Config → Config
apply info c = record c { info_flag = 1 }
apply csv c = record c { csv_flag = 1 }
apply default c = record c { native_flag = 0 }
apply native c = record c { native_flag = 1 }
apply nochecks c = record c { check_flag = 0 }
apply checks c = record c { check_flag = 1 }
apply double c = record c { double_flag = 1 }
apply help c = record c { usage_flag = 1 }
apply (operations v) c = record c { sizes_str = some v }
apply (device v) c = record c { devices_str = some v }
apply (repeats v) c = record c { repeat_str = some v }
apply (functions v) c = record c { function_str = some v }
apply (local v) c = record c { local_str = some v }
apply (groups v) c = record c { blocks_str = some v }
apply (maxvec v) c = record c { max_vec = as_unsigned (atoi v) }

takes : (w : Word) (c : Config) → Takes arith_program (print w) c (apply w c)
unfolding same
takes info c =
    Takes-flag arith_program (codes "info") (flag_option "info" 0 1) 0 c _ refl refl refl refl
      (λ arg. refl)
takes csv c =
    Takes-flag arith_program (codes "csv") (flag_option "csv" 1 1) 1 c _ refl refl refl refl
      (λ arg. refl)
takes default c =
    Takes-flag arith_program (codes "default") (flag_option "default" 2 0) 2 c _ refl refl refl refl
      (λ arg. refl)
takes native c =
    Takes-flag arith_program (codes "native") (flag_option "native" 2 1) 2 c _ refl refl refl refl
      (λ arg. refl)
takes nochecks c =
    Takes-flag arith_program (codes "nochecks") (flag_option "nochecks" 3 0) 3 c _ refl refl refl
      refl (λ arg. refl)
takes checks c =
    Takes-flag arith_program (codes "checks") (flag_option "checks" 3 1) 3 c _ refl refl refl refl
      (λ arg. refl)
takes double c =
    Takes-flag arith_program (codes "double") (flag_option "double" 5 1) 5 c _ refl refl refl refl
      (λ arg. refl)
takes help c =
    Takes-flag arith_program (codes "help") (flag_option "help" 4 1) 4 c _ refl refl refl refl
      (λ arg. refl)
takes (operations v) c =
    Takes-valued arith_program (codes "operations") v (text_option "operations" b'a') c _ refl refl
      (omega arith) refl refl
takes (device v) c =
    Takes-valued arith_program (codes "device") v _ c _ refl refl (omega arith) refl refl
takes (repeats v) c =
    Takes-valued arith_program (codes "repeats") v _ c _ refl refl (omega arith) refl refl
takes (functions v) c =
    Takes-valued arith_program (codes "functions") v _ c _ refl refl (omega arith) refl refl
takes (local v) c =
    Takes-valued arith_program (codes "local") v _ c _ refl refl (omega arith) refl refl
takes (groups v) c =
    Takes-valued arith_program (codes "groups") v _ c _ refl refl (omega arith) refl refl
takes (maxvec v) c =
    Takes-valued arith_program (codes "maxvec") v _ c _ refl refl (omega arith) refl refl

-- Any options of the table, with any values, are read as the settings that they give one behind
-- another: the later of two words for one setting counts, and all else stays as it was.
pub arith_config-print :
    (name : Bytes) (ws : List Word)
    → arith_config (name ∷ map print ws) ≡ done (inr (all_of apply ws initial))
unfolding arith_config
arith_config-print name ws = read_options-words arith_program print apply takes name ws initial
