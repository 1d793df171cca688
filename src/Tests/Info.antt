-- ===== src/Tests/Info.antt =====
-- What is told about devices, at concrete inputs.
use u_clbench.Base.{ℕ, ◌+◌, ◌≡◌, some, [], ◌∷◌, replicate, length}
use u_clbench.Base.Text.{Bytes}
use u_clbench.Cllib.Info.{
  Queries, get_device_info, free_device_info, get_platform_info, free_platform_info,
}
use u_clbench.Cllib.Info.Balance.{
  free_device_info-get_device_info, free_platform_info-get_platform_info,
}
use u_clbench.Cllib.Info.Blocks.{Heap}
use u_clbench.Cllib.Info.Report.{print_device_list}
use u_clbench.Cllib.Info.Report.Columns.{print_device_list_balanced}

-- each number is the number of letters in what is asked, each text what is asked
abbrev queries : Queries ℕ ℕ
queries = record {
  number = λ d b. length b + d;
  numbers = λ d b n. replicate n (64 + d);
  text_size = λ d b. length b + 1;
  text = λ d b n. b;
  platform_text_size = λ p b. length b + 1;
  platform_text = λ p b n. b;
}

abbrev macros : Bytes → ℕ
macros b = length b

abbrev heap : Heap
heap = record { next = 5; live = 4 ∷ 2 ∷ [] }

free_device_info-get_device_info_example :
    free_device_info (get_device_info queries 7 heap).0 (get_device_info queries 7 heap).1
    ≡ some (record heap { next = 13 })
free_device_info-get_device_info_example = free_device_info-get_device_info queries 7 heap

platform_blocks_balanced :
    free_platform_info (get_platform_info queries 7 heap).0 (get_platform_info queries 7 heap).1
    ≡ some (record heap { next = 11 })
platform_blocks_balanced = free_platform_info-get_platform_info queries 7 heap

print_device_list_balanced_example :
    (print_device_list macros queries (7 ∷ 8 ∷ []) 0 heap).1 ≡ some (record heap { next = 21 })
print_device_list_balanced_example = print_device_list_balanced macros queries (7 ∷ 8 ∷ []) 0 heap
