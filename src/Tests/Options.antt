-- ===== src/Tests/Options.antt =====
-- Command lines at concrete inputs.
use u_clbench.Base.{ap, ℕ, ◌≡◌, refl, none, some, List, [], ◌∷◌, arith, length}
use u_clbench.Base.Int.{pos}
use u_clbench.Base.Text.{Bytes, codes}
use u_clbench.Cllib.Getopt.{LongOption, State, getopt_long, finish}
use u_clbench.Cllib.Getopt.Progress.{Forward, getopt_long-Forward}
use u_clbench.Cllib.Getopt.LongMatch.{IsKey, getopt_long-exact}

abbrev takes : Bytes → ℕ → LongOption
takes name val = record { name = name; has_arg = 1; flag = none; val = val }

abbrev options : List LongOption
options =
    takes (codes "size-list") b'l' ∷ takes (codes "size") b's' ∷ takes (codes "device") b'd' ∷ []

abbrev words : List Bytes
words = codes "program" ∷ codes "--size=64" ∷ codes "-d" ∷ codes "3" ∷ []

abbrev start : State
start = record { optind = 1; optarg = none; optopt = 0; lastidx = 0; lastofs = 0 }

exact_run : getopt_long (codes "d:") words options start ≡ record {
  result = pos b's';
  state = record start { optind = 2; optarg = some (codes "64") };
  longindex = some 1;
  stored = none;
}
unfolding getopt_long finish
exact_run = refl

abbrev third : State
third = record start { optind = 2 }

getopt_long-Forward_example :
    Forward
      (codes "d:")
      words
      options
      refl
      third
      (getopt_long (codes "d:") words options third).state
unfolding getopt_long
getopt_long-Forward_example =
    getopt_long-Forward (codes "d:") words options refl third (omega arith) (λ h. cc)

IsKey-size : IsKey (codes "size")
IsKey-size = (
  (omega arith, omega arith),
  ((omega arith, omega arith), ((omega arith, omega arith), ((omega arith, omega arith), tt))),
)

longer : codes "size-list" ≡ codes "size" → ⊥
longer h = omega (arith, ap (λ (b : Bytes). length b) h)

getopt_long-exact_example :
    getopt_long (codes "d:") words options start
    ≡ finish (takes (codes "size") b's') 1 (record start { optind = 2; optarg = some (codes "64") })
getopt_long-exact_example =
    getopt_long-exact (codes "d:") words (takes (codes "size-list") b'l' ∷ [])
      (takes (codes "device") b'd' ∷ []) (takes (codes "size") b's') (codes "size") (codes "64")
      start (omega arith) refl IsKey-size (λ h. longer h, tt) refl (omega arith)
