-- ===== src/Tests/Mains.antt =====
-- Command lines of the benchmarks.
use u_clbench.Base.{◌≡◌, refl, List, [], ◌∷◌, map, none, some, ◌⊎◌, inl, inr}
use u_clbench.Base.Int.{pos}
use u_clbench.Base.Run.{done}
use u_clbench.Base.Text.{Bytes, codes}
use u_clbench.Cllib.Getopt.{getopt_long}
use u_clbench.CommandLine.Settings.{atoi, Leaving, aborted, crashed, read_options}
use u_clbench.CommandLine.Settings.Ends.{read_options_ends}
use u_clbench.CommandLine.Settings.Words.{all_of}
use u_clbench.ArithSpeed.Settings as Arith
use u_clbench.Bandwidth.Settings as Bandwidth
use u_clbench.MemLatency.Settings as Latency
use u_clbench.Overheads.Settings as Overheads
use u_clbench.BranchPenalty.Settings as Penalty
use u_clbench.Streaming.Settings as Streaming

abbrev words : List Bytes
words = codes "arith_speed" ∷ codes "--csv" ∷ codes "--groups=4" ∷ codes "-a" ∷ []

read_options_ends_example :
    (r : Leaving ⊎ Arith.Config) × (read_options Arith.arith_program words Arith.initial ≡ done r)
read_options_ends_example = read_options_ends Arith.arith_program words Arith.initial refl

-- `-a` as the last word has no value: the result is a colon, for which there is no case.
last_word : Arith.arith_config words ≡ done (inl aborted)
unfolding Arith.arith_config getopt_long
last_word = refl

-- an option with a value in the next word, and one without a value at the end
next_word :
    Latency.latency_config (codes "mem_latency" ∷ codes "--device" ∷ codes "3" ∷ [])
    ≡ done (inr (record Latency.initial { device_id = pos 3 }))
unfolding Latency.latency_config getopt_long atoi
next_word = refl

no_word :
    Penalty.penalty_config (codes "branch_penalty" ∷ codes "--device" ∷ []) ≡ done (inl crashed)
unfolding Penalty.penalty_config getopt_long
no_word = refl

abbrev given : List Arith.Word
given = Arith.csv ∷ Arith.local (codes "64") ∷ Arith.nochecks ∷ Arith.local (codes "32") ∷ []

arith_config-print_example :
    Arith.arith_config (codes "arith_speed" ∷ map Arith.print given)
    ≡ done (inr (all_of Arith.apply given Arith.initial))
arith_config-print_example = Arith.arith_config-print (codes "arith_speed") given

overheads_config-device_id_example :
    Overheads.overheads_config
      (codes "x" ∷ map Overheads.print (Overheads.csv ∷ Overheads.csv ∷ []))
    ≡ done (inr (record { csv_flag = 1; device_id = none }))
overheads_config-device_id_example = Overheads.overheads_config-device_id (codes "x") 0

mapped_words :
    Bandwidth.bandwidth_config (codes "x" ∷ codes "--mapped" ∷ codes "--sizes=4K,1M" ∷ [])
    ≡ done (inr (record Bandwidth.initial { mapped_flag = 1; sizes_str = some (codes "4K,1M") }))
unfolding Bandwidth.bandwidth_config getopt_long
mapped_words = refl

global_words :
    Streaming.streaming_config (codes "x" ∷ codes "--global" ∷ codes "--vec=3" ∷ [])
    ≡ done (inr (record Streaming.initial { type_flag = 2; vector_str = some (codes "3") }))
unfolding Streaming.streaming_config getopt_long
global_words = refl
