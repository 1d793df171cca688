-- ===== src/MemLatency/Host.antt =====
-- What `run_latency_benchmark` of mem_latency/mem_latency.cpp does before it calls OpenCL.
use u_clbench.Base.{
  ℕ, suc, ◌+◌, ◌*◌, ◌^◌, ◌%◌, ◌≤◌, ◌≡◌, refl, sym, ap, ◌∙◌, List, ◌==◌, ==_self, length,
  if◌then◌else◌,
}
use u_clbench.Base.Run.{Run, done, fault, ◌>>=◌}
use u_clbench.MemLatency.{
  MemType, DataLayout, Limits, usable_limit, fitted_elems, prepare_data, Walked, check_layout,
}
use u_clbench.MemLatency.Agree.{check_layout-latency_cnt}
use u_clbench.MemLatency.Layout.{prepare_data-Walk}
use u_clbench.MemLatency.Device.{latency_cnt}

-- `num_elems`
unfoldable pub num_elems : MemType → Limits → ℕ → ℕ
unfolding usable_limit fitted_elems
num_elems mt info size = fitted_elems (usable_limit mt info) size

-- the buffer `data_buf` that `malloc` gives, filled and walked through, with the assertion on the
-- number of steps; `n` bounds the rounds of both loops
unfoldable pub prepared : DataLayout → ℕ → ℕ → List ℕ → Run (List ℕ × Walked)
unfolding prepare_data check_layout
prepared layout n iterations data_buf = prepare_data n layout n data_buf >>= λ buf.
    check_layout n iterations buf >>= λ w. if w.opcount == n then done (buf, w) else fault

done_injective : {A : Type 0} (x y : A) → done x ≡ done y → x ≡ y
done_injective x y p = cc

-- Where the buffer has two rows or more, the assertion holds, and the sum of the walk is what the
-- kernel computes.
pub prepared-latency_cnt :
    (layout : DataLayout) (n m iterations : ℕ) (data_buf : List ℕ)
    → n ≡ 128 * m
    → 2 ≤ m
    → n + 128 ≤ 2 ^ 32
    → length data_buf ≡ n
    → (buf : List ℕ) × (w : Walked) × (prepared layout n iterations data_buf ≡ done (buf, w))
      × (w.opcount ≡ n)
      × (length buf ≡ n)
      × (latency_cnt (suc n) buf (iterations % 2 ^ 32) ≡ done w.expected_result)
unfolding prepared
prepared-latency_cnt layout n m iterations data_buf e b s l =
    let (buf, sum, ran, walked, counted) =
      check_layout-latency_cnt layout n m iterations data_buf e b s l in
    let w : Walked = record { opcount = n; expected_result = sum } in
    let (buf', ran', size, walk) = prepare_data-Walk layout n m data_buf e b s l in
    let same : buf' ≡ buf = done_injective buf' buf (sym ran' ∙ ran) in
    (
      buf,
      w,
      rw ran (rw walked (rw (==_self n) refl)),
      refl,
      ap (λ x. length x) (sym same) ∙ size,
      counted,
    )
