-- ===== src/Tests/CommandLine.antt =====
-- Command lines, and the kernels and devices of the overheads benchmark.
use u_clbench.Base.{All, ℕ, ◌≤◌, ◌≡◌, refl, arith, none, some, List, [], ◌∷◌, ◌++◌, length}
use u_clbench.Base.Int.{pos, negsuc}
use u_clbench.Base.Run.{done, fault}
use u_clbench.Base.Text.{codes}
use u_clbench.CommandLine.{choose_devices, read_sizes, parse_size}
use u_clbench.CommandLine.Scan.{tokens, scan_i, scan_ulong}
use u_clbench.CommandLine.Devices.{choose_devices-fault}
use u_clbench.CommandLine.Sizes.{read_sizes-fault}
use u_clbench.CommandLine.Inputs.{Texts}
use u_clbench.Overheads.{Line, gen_kernel}
use u_clbench.Overheads.Pieces.{Scoped, head, lines_text}
use u_clbench.Overheads.Text.{gen_kernel-lines}
use u_clbench.Overheads.Devices.{devices_to_run, devices_to_run-asked_for}

-- two devices, numbered 5 and 7
abbrev cards : List ℕ
cards = 5 ∷ 7 ∷ []

abbrev garbage : List ℕ
garbage = 9 ∷ 9 ∷ []

abbrev words : Texts
words = record {
  devices_str = some (codes "1,0x0");
  sizes_str = some (codes "1K,4");
  repeat_str = none;
  iterations_str = some (codes "3");
}

choose_devices-fault_example : choose_devices cards garbage (codes "0,1,0") ≡ fault
unfolding tokens scan_i
choose_devices-fault_example =
    choose_devices-fault cards garbage (5 ∷ 7 ∷ 5 ∷ []) (codes "0,1,0") refl (omega arith)

choose_devices_stops : choose_devices cards garbage (codes "1,x") ≡ done none
unfolding choose_devices scan_i
choose_devices_stops = refl

read_sizes-fault_example : read_sizes 2 1 (codes "1,2,3m") ≡ fault
unfolding tokens parse_size scan_ulong
read_sizes-fault_example =
    read_sizes-fault 2 1 (codes "1,2,3m") (1 ∷ 2 ∷ 3145728 ∷ []) refl (omega arith) (omega arith)

gen_kernel-lines_example :
    (ls : List Line) × ((gen_kernel (λ k. 1000) 32767 4 20
        ≡ done (some (head 4 ++ lines_text ls ++ codes "}\n")))
      × (All (Scoped 4) ls × (20 ≤ length ls)))
gen_kernel-lines_example =
    gen_kernel-lines (λ k. 1000) 32767 (λ k. omega arith) 4 20 (omega arith) (omega arith)
      (omega arith) (omega arith)

devices_to_run-asked_for_example : devices_to_run cards (pos 2) ≡ fault
devices_to_run-asked_for_example = devices_to_run-asked_for cards (pos 2)

devices_to_run_all : devices_to_run cards (negsuc 0) ≡ done (some cards)
unfolding devices_to_run
devices_to_run_all = refl
