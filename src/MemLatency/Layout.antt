-- ===== src/MemLatency/Layout.antt =====
-- The layout and the host's check of it: the buffer is one cycle over all its elements.
use u_clbench.Base.{
  ℕ, zero, suc, ◌+◌, ◌*◌, ◌-◌, ◌%◌, ◌^◌, ◌≤◌, ◌<◌, ◌≡◌, refl, ◌∙◌, sym, arith, List, length, get_or,
  set, length-set, get_or-set_self, get_or-set_ne, lt→ltb, dec_lt,
}
use u_clbench.Base.Run.{done}
use u_clbench.MemLatency.{DataLayout, cache_step, sequential, sequential_loop, prepare_data}
use u_clbench.MemLatency.Chain.{Tour-whole}
use u_clbench.MemLatency.Fill.{Walk, home, step, cache_step_loop-Filled}

-- what the sequential loop leaves of a buffer, from index `i` on
record Counted (n i : ℕ) (buf buf' : List ℕ) : Type 0 where
  size : length buf' ≡ n
  below : (x : ℕ) → x < i → get_or buf' x 0 ≡ get_or buf x 0
  above : (x : ℕ) → i ≤ x → x < n → get_or buf' x 0 ≡ x + 1

sequential_loop-suc :
    (r i : ℕ) (buf : List ℕ)
    → i < length buf
    → i + 1 < 2 ^ 32
    → sequential_loop (suc r) i buf ≡ sequential_loop r (i + 1) (set buf i (i + 1))
unfolding sequential_loop
sequential_loop-suc r i buf h b =
    let w : (i + 1) % 2 ^ 32 ≡ i + 1 = omega arith in rw (w, lt→ltb i (length buf) h)

sequential_loop-Counted :
    (n r i : ℕ) (buf : List ℕ)
    → i + r ≡ n
    → length buf ≡ n
    → n < 2 ^ 32
    → (buf' : List ℕ) × (sequential_loop r i buf ≡ done buf') × Counted n i buf buf'
unfolding sequential_loop
sequential_loop-Counted n zero i buf e l s =
    (buf, refl, record { size = l; below = λ x h. refl; above = λ x h b. absurd (omega arith) })
sequential_loop-Counted n (suc r) i buf e l s =
    let (buf', ran, c) =
      sequential_loop-Counted n r (i + 1) (set buf i (i + 1)) (omega arith)
        (length-set buf i (i + 1) ∙ l) s in
    (
      buf',
      sequential_loop-suc r i buf (omega arith) (omega arith) ∙ ran,
      record {
        size = c.size;
        below = λ x h. c.below x (omega arith) ∙ get_or-set_ne buf i x (i + 1) 0 (omega arith);
        above = λ x h b. elim (dec_lt i x) [
          | yes p ↦ c.above x (omega arith) b
          | no p ↦
              let q : i ≡ x = omega arith in
              c.below x (omega arith) ∙ rw q (get_or-set_self buf x (x + 1) 0 (omega arith))
        ];
      },
    )

-- counting up from `i`, and from the last element to 0
Walk-up :
    (n k i : ℕ) (buf : List ℕ)
    → length buf ≡ n
    → 0 < i
    → i + suc k ≡ n
    → ((x : ℕ) → 0 < x → x + 1 < n → get_or buf x 0 ≡ x + 1)
    → get_or buf (n - 1) 0 ≡ 0
    → Walk buf i (suc k)
Walk-up n zero i buf l h e up end =
    let p : i ≡ n - 1 = omega arith in step h (omega arith) (home (rw p end))
Walk-up n (suc k) i buf l h e up end =
    step h (omega arith)
      (rw (up i h (omega arith)) (Walk-up n k (i + 1) buf l (omega arith) (omega arith) up end))

Walk-subst : {buf : List ℕ} {i i' k k' : ℕ} → i ≡ i' → k ≡ k' → Walk buf i k → Walk buf i' k'
Walk-subst p q w = rw (← p, ← q) w

sequential_end :
    (n : ℕ) (buf buf' : List ℕ)
    → sequential_loop n 0 buf ≡ done buf'
    → n - 1 < length buf'
    → (0 < n) × (n < 2 ^ 32)
    → prepare_data n sequential n buf ≡ done (set buf' (n - 1) 0)
unfolding prepare_data
sequential_end n buf buf' ran h b =
    let w : (n + 2 ^ 32 - 1) % 2 ^ 32 ≡ n - 1 = omega arith in
    rw (ran, w, lt→ltb (n - 1) (length buf') h)

-- Filled, the buffer leads from element 0 through all others and back.
pub prepare_data-Walk :
    (layout : DataLayout) (n m : ℕ) (buf : List ℕ)
    → n ≡ 128 * m
    → 2 ≤ m
    → n + 128 ≤ 2 ^ 32
    → length buf ≡ n
    → (buf' : List ℕ) × (prepare_data n layout n buf ≡ done buf')
      × (length buf' ≡ n)
      × Walk buf' (get_or buf' 0 0) (n - 1)
unfolding prepare_data
prepare_data-Walk cache_step n m buf e b s l =
    let (buf', ran, f) =
      cache_step_loop-Filled (Tour-whole n m (n - 1) e b s (omega arith)) n (set buf 0 1)
        (omega arith) (length-set buf 0 1 ∙ l) (omega arith) in
    (
      buf',
      rw (lt→ltb 0 (length buf) (omega arith)) ran,
      f.size,
      rw (f.head ∙ get_or-set_self buf 0 1 0 (omega arith)) f.walk,
    )
prepare_data-Walk sequential n m buf e b s l =
    let (buf', ran, c) = sequential_loop-Counted n n 0 buf (omega arith) l (omega arith) in
    let buf2 = set buf' (n - 1) 0 in
    let up : (x : ℕ) → x + 1 < n → get_or buf2 x 0 ≡ x + 1 = λ x h.
      get_or-set_ne buf' (n - 1) x 0 0 (omega arith) ∙ c.above x (omega arith) (omega arith) in
    let size : length buf2 ≡ n = length-set buf' (n - 1) 0 ∙ c.size in
    (
      buf2,
      sequential_end n buf buf' ran (omega (arith, c.size)) (omega arith),
      size,
      Walk-subst {buf = buf2} (sym (up 0 (omega arith))) (omega arith) (
          Walk-up n (n - 2) (0 + 1) buf2 size (omega arith) (omega arith) (λ x _. up x)
            (get_or-set_self buf' (n - 1) 0 0 (omega (arith, c.size)))),
    )
