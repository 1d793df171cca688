-- ===== src/CommandLine/Settings.antt =====
-- The loops over `getopt_long` with which the main functions of the six benchmarks read their
-- command lines. What they have in common is here; the tables and the `switch` are the programs'.
pub mod Ends
pub mod Words
use u_clbench.Base.{
  ℕ, zero, suc, ◌+◌, ◌-◌, ◌*◌, ◌%◌, ◌^◌, Bool, true, false, List, [], ◌∷◌, Option, none, some, ◌⊎◌,
  inl, inr, length, leb, ◌==◌, if◌then◌else◌,
}
use u_clbench.Base.Int.{ℤ, pos, negsuc, ◌==ℤ◌}
use u_clbench.Base.Run.{Run, done, no_fuel}
use u_clbench.Base.Text.{Bytes, codes}
use u_clbench.Cllib.Getopt.{LongOption, State, Outcome, getopt_long}
use u_clbench.CommandLine.Scan.{scan_d, scan_long}
use Prim.Native.String.{String}

-- `abort()`, `exit` behind a message, and a read through NULL
pub data Leaving : Type 0 where
  aborted exited crashed : Leaving

-- A program: its option string, its table, where flags are stored, and the `switch` over the
-- result of a call with `optarg`.
pub record Program {ℓ} (S : Type ℓ) : Type ℓ where
  pub optstring : Bytes
  pub options : List LongOption
  pub write_flag : ℕ → ℕ → S → S
  pub switch : ℤ → Option Bytes → S → Leaving ⊎ S

-- rows of a table: `{name, no_argument, &flag, val}` and `{name, optional_argument, 0, val}`
abbrev pub flag_option : String → ℕ → ℕ → LongOption
flag_option name flag val = record { name = codes name; has_arg = 0; flag = some flag; val = val }

abbrev pub text_option : String → ℕ → LongOption
text_option name val = record { name = codes name; has_arg = 2; flag = none; val = val }

-- `atoi` and `atol` of `optarg`, and what is done with the number
abbrev pub as_int : ℕ → ℤ
as_int w = if leb (2 ^ 31) w then negsuc (2 ^ 32 - 1 - w) else pos w

unfoldable pub atoi : Bytes → ℤ
unfolding scan_d
atoi w = elim (scan_d w) [ none ↦ pos 0 | some n ↦ as_int n ]

unfoldable pub atol : Bytes → ℤ
unfolding scan_long
atol w = elim (scan_long w) [ none ↦ pos 0 | some n ↦ n ]

-- an `int` as an `unsigned`
abbrev pub as_unsigned : ℤ → ℕ
as_unsigned (pos n) = n % 2 ^ 32
as_unsigned (negsuc n) = 2 ^ 32 - 1 - n % 2 ^ 32

-- a call of a function that reads `optarg`
abbrev pub with_optarg {ℓ} : {S : Type ℓ} → Option Bytes → (Bytes → S) → Leaving ⊎ S
with_optarg none f = inl crashed
with_optarg (some w) f = inr (f w)

module _ {ℓ} {S : Type ℓ} (p : Program S) (argv : List Bytes) where
  -- one round behind the call
  abbrev pub round : Outcome → S → Leaving ⊎ S
  round o s =
      p.switch o.result o.state.optarg
        (elim o.stored [ none ↦ s | some (f, v) ↦ p.write_flag f v s ])

  -- The loop. Some programs test for -1 before their `switch`, others behind it, where -1 has no
  -- case.
  unfoldable pub option_loop : ℕ → State → S → Run (Leaving ⊎ S)
  option_loop zero g s = no_fuel
  option_loop (suc f) g s =
      let o = getopt_long p.optstring argv p.options g in
      elim (o.result ==ℤ negsuc 0) [
        | true ↦ done (inr s)
        | false ↦ elim (round o s) [ inl l ↦ done (inl l) | inr t ↦ option_loop f o.state t ]
      ]

-- the characters of the words with their ends
unfoldable pub size : List Bytes → ℕ
size [] = 0
size (w ∷ ws) = suc (length w) + size ws

-- `optind` and the variables of `getopt_long` at the start
abbrev pub start : State
start = record { optind = 1; optarg = none; optopt = 0; lastidx = 0; lastofs = 0 }

-- the settings that a command line gives, from those at the start of main
unfoldable pub read_options {ℓ} : {S : Type ℓ} → Program S → List Bytes → S → Run (Leaving ⊎ S)
unfolding option_loop size
read_options p argv s = option_loop p argv (suc (size argv)) start s
