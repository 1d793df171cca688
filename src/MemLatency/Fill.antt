-- ===== src/MemLatency/Fill.antt =====
-- What the two loops that fill the buffer leave in it, and the walk that follows from it.
use u_clbench.Base.{
  ℕ, zero, suc, ◌+◌, ◌%◌, ◌^◌, ◌≤◌, ◌<◌, ◌≡◌, ◌≢◌, refl, ◌∙◌, sym, arith, List, if◌then◌else◌, ◌==◌,
  ==_iff, ==_self, ==_ne, Bool-cases, inl, inr, length, get_or, set, length-set, get_or-set_self,
  get_or-set_ne, lt→ltb, ◌⊎◌,
}
use u_clbench.Base.Run.{done}
use u_clbench.MemLatency.{next_index, cache_step_loop}
use u_clbench.MemLatency.Chain.{Tour, last, hop}

-- Reading index after index from `i`, the buffer leads to 0 in `k` hops, inside its bounds.
pub data Walk (buf : List ℕ) : ℕ → ℕ → Type 0 where
  home : {i : ℕ} → i ≡ 0 → Walk buf i 0
  step : {i k : ℕ} → 0 < i → i < length buf → Walk buf (get_or buf i 0) k → Walk buf i (suc k)

-- what the loop writes at index `x`
pub link : ℕ → ℕ → ℕ
link n x = if (x + 128) == n then 0 else next_index n (x + 128)

-- A buffer filled from index `i` on: nothing that the chain has written is lost.
pub record Filled (n i k : ℕ) (buf buf' : List ℕ) : Type 0 where
  pub size : length buf' ≡ n
  pub head : get_or buf' 0 0 ≡ get_or buf 0 0
  pub keeps : (x : ℕ) → get_or buf x 0 ≡ link n x → get_or buf' x 0 ≡ link n x
  pub walk : Walk buf' i k

cell_cases : (i x : ℕ) → (i ≡ x) ⊎ (i ≢ x)
cell_cases i x = elim (Bool-cases (i == x)) [
  | inl e ↦ inl ((==_iff i x).0 e)
  | inr e ↦ inr (λ p. ground arith)
]

store_keeps :
    (n i x v : ℕ) (buf : List ℕ)
    → i < length buf
    → v ≡ link n i
    → get_or buf x 0 ≡ link n x
    → get_or (set buf i v) x 0 ≡ link n x
store_keeps n i x v buf h w e = elim (cell_cases i x) [
  | inl p ↦ rw (← p) (get_or-set_self buf i v 0 h ∙ w)
  | inr p ↦ get_or-set_ne buf i x v 0 p ∙ e
]

loop_last :
    (f n i : ℕ) (buf : List ℕ)
    → i < length buf
    → (i + 128) % 2 ^ 32 ≡ n
    → cache_step_loop (suc f) n i buf ≡ done (set buf i 0)
unfolding cache_step_loop
loop_last f n i buf h e = rw (cache_step_loop, e, ==_self n, lt→ltb i (length buf) h)

loop_hop :
    (f n i : ℕ) (buf : List ℕ)
    → i < length buf
    → i + 128 < 2 ^ 32
    → i + 128 ≢ n
    → cache_step_loop (suc f) n i buf
      ≡ cache_step_loop f n (next_index n (i + 128)) (set buf i (next_index n (i + 128)))
unfolding cache_step_loop
loop_hop f n i buf h b ne =
    let e : (i + 128) % 2 ^ 32 ≡ i + 128 = omega arith in
    rw (cache_step_loop, e, ==_ne (i + 128) n ne, lt→ltb i (length buf) h) (rw e)

link_last : (n i : ℕ) → i + 128 ≡ n → link n i ≡ 0
unfolding link
link_last n i e = ground arith

link_hop : (n i : ℕ) → i + 128 ≢ n → link n i ≡ next_index n (i + 128)
unfolding link
link_hop n i e = ground arith

-- Along a tour the loop ends, having filled the buffer.
pub cache_step_loop-Filled :
    {n i k : ℕ}
    → Tour n i k
    → (f : ℕ) (buf : List ℕ) → k ≤ f
    → length buf ≡ n
    → n < 2 ^ 32
    → (buf' : List ℕ) × (cache_step_loop f n i buf ≡ done buf') × Filled n i k buf buf'
cache_step_loop-Filled {n} (last {i} h e) zero buf b l s = absurd (omega arith)
cache_step_loop-Filled {n} (last {i} h e) (suc f) buf b l s = (
  set buf i 0,
  loop_last f n i buf (omega arith) (omega arith),
  record {
    size = length-set buf i 0 ∙ l;
    head = get_or-set_ne buf i 0 0 0 (omega arith);
    keeps = λ x p. store_keeps n i x 0 buf (omega arith) (sym (link_last n i e)) p;
    walk =
        step h (omega (arith, length-set buf i 0))
          (rw (get_or-set_self buf i 0 0 (omega arith)) (home refl));
  },
)
cache_step_loop-Filled {n} (hop h b16 b ne e t) zero buf c l s = absurd (omega arith)
cache_step_loop-Filled {n} (hop {i} {i'} h b16 b ne e t) (suc f) buf c l s =
    let buf1 = set buf i i' in
    let wrote : get_or buf1 i 0 ≡ link n i =
      get_or-set_self buf i i' 0 (omega arith) ∙ sym (link_hop n i ne ∙ e) in
    let (buf', ran, filled) =
      cache_step_loop-Filled t f buf1 (omega arith) (length-set buf i i' ∙ l) s in
    let read : get_or buf' i 0 ≡ i' = filled.keeps i wrote ∙ link_hop n i ne ∙ e in
    (
      buf',
      rw (loop_hop f n i buf (omega arith) b16 ne, e) ran,
      record {
        size = filled.size;
        head = filled.head ∙ get_or-set_ne buf i 0 i' 0 (omega arith);
        keeps = λ x p.
            filled.keeps x (store_keeps n i x i' buf (omega arith) (sym (link_hop n i ne ∙ e)) p);
        walk = step h (omega (arith, filled.size)) (rw read filled.walk);
      },
    )
