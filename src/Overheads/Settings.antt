-- ===== src/Overheads/Settings.antt =====
-- The command line of kernel_overheads/kernel_overheads.cpp: the test of `argc` and the loop over
-- the options in main.
use u_clbench.Base.{
  ℕ, ◌≡◌, ◌<◌, refl, ap, ◌∙◌, arith, List, [], ◌∷◌, map, Option, none, some, ◌⊎◌, inl, inr, ◌==◌,
  ◌||◌, ltb, leb, false, if◌then◌else◌, length, le→ltb, replicate, zero, suc, ◌^◌,
}
use u_clbench.Base.Int.{ℤ, pos, negsuc}
use u_clbench.Base.Run.{Run, done}
use u_clbench.Base.Text.{Bytes, codes, same}
use u_clbench.Cllib.Getopt.{LongOption}
use u_clbench.CommandLine.Scan.{scan_i}
use u_clbench.CommandLine.Settings.{
  Leaving, aborted, exited, crashed, Program, flag_option, as_int, read_options,
}
use u_clbench.CommandLine.Settings.Words.{
  valued, plain, Takes, Takes-valued, Takes-flag, all_of, read_options-words,
}

-- `csv_flag`, and `device_id`, which main does not initialise: `none` until an option sets it
pub record Config : Type 0 where
  pub csv_flag : ℕ
  pub device_id : Option ℤ

abbrev pub initial : Config
initial = record { csv_flag = 0; device_id = none }

-- `{"device", required_argument, 0, 'a'}`
abbrev device_option : LongOption
device_option = record { name = codes "device"; has_arg = 1; flag = none; val = b'a' }

abbrev write_flag : ℕ → ℕ → Config → Config
write_flag f v c = record c { csv_flag = v }

-- `case 'a'` for the number that `sscanf` reads: below -1, and without a number, `show_help`
abbrev take_device : Config → Option ℕ → Leaving ⊎ Config
take_device c none = inl exited
take_device c (some w) = elim (as_int w) [
  | pos n ↦ inr (record c { device_id = some (pos n) })
  | negsuc n ↦ if n == 0 then inr (record c { device_id = some (negsuc 0) }) else inl exited
]

-- the `switch`
abbrev switch : ℤ → Option Bytes → Config → Leaving ⊎ Config
switch (negsuc n) optarg c = inl aborted
switch (pos n) optarg c =
    if n == 0 || n == b'?'
    then inr c
    else if n == b'a'
    then (elim optarg [ none ↦ inl crashed | some w ↦ take_device c (scan_i w) ])
    else inl aborted

abbrev pub overheads_program : Program Config
overheads_program = record {
  optstring = [];
  options = flag_option "csv" 0 1 ∷ device_option ∷ [];
  write_flag = write_flag;
  switch = switch;
}

-- with the test `argc < 3` before the loop
unfoldable pub overheads_config : List Bytes → Run (Leaving ⊎ Config)
unfolding read_options
overheads_config argv =
    if ltb (length argv) 3 then done (inl exited) else read_options overheads_program argv initial

-- the words that name an option: a number for `%i` below 2 ^ 31, and -1
pub data Word : Type 0 where
  csv all : Word
  device : (w : Bytes) (n : ℕ) → scan_i w ≡ some n → n < 2 ^ 31 → Word

abbrev pub print : Word → Bytes
print csv = plain (codes "csv")
print all = valued (codes "device") (codes "-1")
print (device w n e l) = valued (codes "device") w

abbrev pub apply : Word → Config → Config
apply csv c = record c { csv_flag = 1 }
apply all c = record c { device_id = some (negsuc 0) }
apply (device w n e l) c = record c { device_id = some (pos n) }

gt→leb : (a b : ℕ) → b < a → leb a b ≡ false
gt→leb a b l = ground arith

as_int_small : (n : ℕ) → n < 2 ^ 31 → as_int n ≡ pos n
as_int_small n l = rw (gt→leb (2 ^ 31) n l) refl

takes : (w : Word) (c : Config) → Takes overheads_program (print w) c (apply w c)
unfolding same scan_i
takes csv c =
    Takes-flag overheads_program (codes "csv") (flag_option "csv" 0 1) 0 c _ refl refl refl refl
      (λ arg. refl)
takes all c =
    Takes-valued overheads_program (codes "device") (codes "-1") device_option c _ refl refl
      (omega arith) refl refl
takes (device w n e l) c =
    Takes-valued overheads_program (codes "device") w device_option c _ refl refl (omega arith) refl
      (ap (take_device c) e ∙ rw (take_device, as_int_small n l) refl)

-- Two words or more that name an option are read as the settings that they give one behind
-- another; a single one, or none, ends the program with the usage text.
pub overheads_config-print :
    (name : Bytes) (v w : Word) (ws : List Word)
    → (overheads_config (name ∷ []) ≡ done (inl exited))
      × (overheads_config (name ∷ print v ∷ []) ≡ done (inl exited))
      × (overheads_config (name ∷ map print (v ∷ w ∷ ws))
          ≡ done (inr (all_of apply (v ∷ w ∷ ws) initial)))
unfolding overheads_config
overheads_config-print name v w ws =
    let argv = name ∷ map print (v ∷ w ∷ ws) in
    (
      refl,
      refl,
      rw (le→ltb (length argv) 3 (omega arith))
          (read_options-words overheads_program print apply takes name (v ∷ w ∷ ws) initial),
    )

-- Only `--csv`, twice or more often, passes the test for three words, and leaves the number of the
-- device that main goes on to read without a value.
pub overheads_config-device_id :
    (name : Bytes) (n : ℕ)
    → overheads_config (name ∷ map print (csv ∷ csv ∷ replicate n csv))
      ≡ done (inr (record { csv_flag = 1; device_id = none }))
overheads_config-device_id name n =
    (overheads_config-print name csv csv (replicate n csv)).2 ∙ ap (λ c. done (inr c)) (only_csv n)
  where
    only_csv :
        (n : ℕ)
        → all_of apply (replicate n csv) (record { csv_flag = 1; device_id = none })
          ≡ record { csv_flag = 1; device_id = none }
    only_csv zero = refl
    only_csv (suc n) = only_csv n
