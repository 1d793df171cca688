-- ===== src/MemLatency/Device.antt =====
-- The kernel `latencyCnt` of mem_latency/global_latency.cl, which the device runs on the buffer.
-- constant_latency.cl has the same text, for a buffer in constant memory.
use u_clbench.Base.{ℕ, zero, suc, ◌+◌, ◌%◌, ◌^◌, true, false, List, ltb, ◌==◌, length, get_or}
use u_clbench.Base.Run.{Run, done, fault, no_fuel, ◌>>=◌}

-- `k` reads in a row, each of `input` at the index that the one before it read
unfoldable pub hops : ℕ → List ℕ → ℕ → Run ℕ
hops zero input next = done next
hops (suc k) input next = elim (ltb next (length input)) [
  | true ↦ hops k input (get_or input next 0)
  | false ↦ fault
]

-- `do { ...; res += next; } while(next)`, with a bound on its rounds; it is left with
-- `next` at 0.
unfoldable pub unrolled_loop : ℕ → List ℕ → ℕ → ℕ → Run ℕ
unrolled_loop zero input next res = no_fuel
unrolled_loop (suc f) input next res = hops 128 input next >>= λ next'. elim (next' == 0) [
  | true ↦ done ((res + next') % 2 ^ 32)
  | false ↦ unrolled_loop f input next' ((res + next') % 2 ^ 32)
]

-- `for(uint i = 0; i<iterations; ++i)`, with the rounds left; `next` is 0 at the head of each
unfoldable pub iteration_loop : ℕ → ℕ → List ℕ → ℕ → Run ℕ
iteration_loop zero fuel input res = done res
iteration_loop (suc n) fuel input res =
    unrolled_loop fuel input 0 res >>= λ res'. iteration_loop n fuel input res'

unfoldable pub latency_cnt : ℕ → List ℕ → ℕ → Run ℕ
unfolding iteration_loop unrolled_loop hops
latency_cnt fuel input iterations = iteration_loop iterations fuel input 0
