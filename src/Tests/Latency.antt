-- ===== src/Tests/Latency.antt =====
-- The memory latency benchmark at concrete inputs.
use u_clbench.Base.{
  All, ℕ, suc, ◌-◌, ◌%◌, ◌^◌, ◌≤◌, ◌+◌, ◌<◌, ◌≡◌, refl, true, false, List, [], ◌∷◌, map, replicate,
  arith, ◌⊎◌,
}
use u_clbench.Base.Int.{pos, negsuc}
use u_clbench.Base.Run.{done, ◌>>=◌}
use u_clbench.MemLatency.{
  global, constant, local, sequential, cache_step, Limits, type_limit, usable_limit, fitted_elems,
  buffer_size, prepare_data, check_layout,
}
use u_clbench.MemLatency.Agree.{check_layout-latency_cnt}
use u_clbench.MemLatency.Device.{latency_cnt}
use u_clbench.MemLatency.Options.{
  Choice, initial, device_jobs, Meets, job_pair, device_jobs-type_set, device_jobs-All,
}
use u_clbench.MemLatency.Size.{fitted_elems_largest}

abbrev garbage : List ℕ
garbage = replicate 256 77

-- two rows: 256 operations for 256 elements
cache_step_run :
    (prepare_data 256 cache_step 256 garbage >>= λ buf. check_layout 256 3 buf)
    ≡ done (record { opcount = 256; expected_result = 576 })
unfolding prepare_data check_layout
cache_step_run = refl

-- one row: the chain runs back to element 0 and overwrites it, and one operation is counted
single_row_run :
    (prepare_data 128 cache_step 128 (replicate 128 77) >>= λ buf. check_layout 128 3 buf)
    ≡ done (record { opcount = 1; expected_result = 0 })
unfolding prepare_data check_layout
single_row_run = refl

check_layout-latency_cnt_example :
    (buf' : List ℕ) × (sum : ℕ) × (prepare_data 256 cache_step 256 garbage ≡ done buf')
    × (check_layout 256 5 buf' ≡ done (record { opcount = 256; expected_result = sum }))
    × (latency_cnt (suc 256) buf' (5 % 2 ^ 32) ≡ done sum)
check_layout-latency_cnt_example =
    check_layout-latency_cnt cache_step 256 2 5 garbage (omega arith) (omega arith) (omega arith)
      refl

abbrev card : Limits
card = record {
  global_mem_size = 4096;
  local_mem_size = 1088;
  max_constant_buffer_size = 48;
  is_accelerator = false;
}

program : Unit {0}
unfolding type_limit
program = tt

fitted_elems_largest_example :
    (buffer_size (fitted_elems (usable_limit local card) 5000) + 64 ≤ type_limit local card)
    × (buffer_size (fitted_elems (usable_limit local card) 5000) ≤ 5000)
    × (fitted_elems (usable_limit local card) 5000 % 128 ≡ 0)
    × ((x : ℕ)
        → x % 512 ≡ 0
        → x ≤ usable_limit local card
        → x ≤ 5000
        → (usable_limit local card < 2 ^ 34) ⊎ (5000 < 2 ^ 34)
        → x ≤ buffer_size (fitted_elems (usable_limit local card) 5000))
unfolding program
fitted_elems_largest_example = fitted_elems_largest local card 5000 (omega arith) (omega arith)

abbrev chosen : Choice
chosen = record initial { mem_type = local; type_set = true }

device_jobs-type_set_example :
    All
      (λ j.
        (j.mem_type ≡ chosen.mem_type) × (j.iterations ≡ 2 ^ 64 - 1) × (j.bytesize ≡ 2 ^ 64 - 1))
      (device_jobs chosen (negsuc 0) (negsuc 0))
device_jobs-type_set_example = device_jobs-type_set chosen refl

device_jobs-All_example :
    (map job_pair (device_jobs initial (pos 7) (negsuc 0))
      ≡ (sequential, global)
        ∷ (sequential, constant)
        ∷ (sequential, local)
        ∷ (cache_step, global)
        ∷ (cache_step, constant)
        ∷ (cache_step, local)
        ∷ [])
    × All (Meets (pos 7) (negsuc 0)) (device_jobs initial (pos 7) (negsuc 0))
device_jobs-All_example = device_jobs-All initial (pos 7) (negsuc 0) refl refl
