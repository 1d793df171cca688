-- ===== src/MemLatency/Agree.antt =====
-- The host's walk and the device's kernel on one buffer: both count its elements, and both add up
-- the same indices.
use u_clbench.Base.{
  ℕ, ap, ◌/◌, zero, suc, ◌+◌, ◌*◌, ◌-◌, ◌%◌, ◌^◌, ◌≤◌, ◌<◌, ◌≡◌, ◌≢◌, refl, ◌∙◌, sym, arith, List,
  ◌==◌, ==_ne, length, get_or, lt→ltb, true, false,
}
use u_clbench.Base.Run.{Run, done, ◌>>=◌}
use u_clbench.MemLatency.{DataLayout, prepare_data, Walked, count_op, check_loop, check_layout}
use u_clbench.MemLatency.Fill.{Walk, home, step}
use u_clbench.MemLatency.Device.{hops, unrolled_loop, iteration_loop, latency_cnt}
use u_clbench.MemLatency.Layout.{prepare_data-Walk}

check_loop_step :
    (f i : ℕ) (buf : List ℕ) (w : Walked)
    → 0 < i
    → i < length buf
    → check_loop (suc f) buf i w ≡ check_loop f buf (get_or buf i 0) (count_op (get_or buf i 0) w)
unfolding check_loop
check_loop_step f i buf w h b = rw (check_loop, ==_ne i 0 (omega arith), lt→ltb i (length buf) b)

check_loop_home : (f : ℕ) (buf : List ℕ) (w : Walked) → check_loop f buf 0 w ≡ done w
unfolding check_loop
check_loop_home zero buf w = refl
check_loop_home (suc f) buf w = refl

hops_step :
    (r i : ℕ) (buf : List ℕ) → i < length buf → hops (suc r) buf i ≡ hops r buf (get_or buf i 0)
unfolding hops
hops_step r i buf b = rw (hops, lt→ltb i (length buf) b)

-- what is left of a round of the kernel's loop after `r` more hops
rest_of_round : ℕ → ℕ → List ℕ → ℕ → ℕ → Run ℕ
rest_of_round r g buf i res = hops r buf i >>= λ next'. elim (next' == 0) [
  | true ↦ done ((res + next') % 2 ^ 32)
  | false ↦ unrolled_loop g buf next' ((res + next') % 2 ^ 32)
]

rest_of_round_hop :
    (r g i res : ℕ) (buf : List ℕ)
    → i < length buf
    → rest_of_round (suc r) g buf i res ≡ rest_of_round r g buf (get_or buf i 0) res
unfolding rest_of_round
rest_of_round_hop r g i res buf b = rw (hops_step r i buf b)

rest_of_round_end :
    (g i res : ℕ) (buf : List ℕ) → i ≡ 0 → rest_of_round 0 g buf i res ≡ done ((res + i) % 2 ^ 32)
unfolding rest_of_round hops
rest_of_round_end g i res buf e = ground arith

rest_of_round_next :
    (g i res : ℕ) (buf : List ℕ)
    → 0 < i
    → rest_of_round 0 (suc g) buf i res ≡ rest_of_round 128 g buf i ((res + i) % 2 ^ 32)
unfolding rest_of_round hops unrolled_loop
rest_of_round_next g i res buf h = rw (==_ne i 0 (omega arith), ◌>>=◌)

count_op_sample :
    (x oc e : ℕ)
    → (oc + 1) % 128 ≡ 0
    → oc + 1 < 2 ^ 32
    → count_op x (record { opcount = oc; expected_result = e })
      ≡ record { opcount = oc + 1; expected_result = (e + x) % 2 ^ 32 }
unfolding count_op
count_op_sample x oc e h b = ground arith

count_op_skip :
    (x oc e : ℕ)
    → (oc + 1) % 128 ≢ 0
    → oc + 1 < 2 ^ 32
    → count_op x (record { opcount = oc; expected_result = e })
      ≡ record { opcount = oc + 1; expected_result = e }
unfolding count_op
count_op_skip x oc e h b = ground arith

Walk-zero : {buf : List ℕ} {i : ℕ} → Walk buf i 0 → i ≡ 0
Walk-zero (home p) = p

Walk-suc : {buf : List ℕ} {i k : ℕ} → Walk buf i (suc k) → 0 < i
Walk-suc (step h b t) = h

-- Both loops end: the host with `n` operations counted, and the two sums grow alike.
record Agrees (buf : List ℕ) (i n f g r oc e res : ℕ) : Type 0 where
  e' : ℕ
  res' : ℕ
  host :
      check_loop f buf i (record { opcount = oc; expected_result = e })
      ≡ done (record { opcount = n; expected_result = e' })
  device : rest_of_round (suc r) g buf i res ≡ done res'
  sums : (e' + res) % 2 ^ 32 ≡ (res' + e) % 2 ^ 32
  small : res' < 2 ^ 32

Agrees-end :
    (buf : List ℕ) (i n f g oc e res : ℕ)
    → 0 < i
    → i < length buf
    → get_or buf i 0 ≡ 0
    → (oc + 1) % 128 ≡ 0
    → oc + 1 ≡ n
    → n < 2 ^ 32
    → Agrees buf i n (suc f) g 0 oc e res
Agrees-end buf i n f g oc e res h b z d q s = record {
  e' = (e + 0) % 2 ^ 32;
  res' = (res + 0) % 2 ^ 32;
  host =
      check_loop_step f i buf _ h b
      ∙ rw (z, count_op_sample 0 oc e d (omega arith), q) (check_loop_home f buf _);
  device = rest_of_round_hop 0 g i res buf b ∙ rw z (rest_of_round_end g 0 res buf refl);
  sums = omega arith;
  small = omega arith;
}

Agrees-sample :
    (buf : List ℕ) (i n f g oc e res : ℕ)
    → 0 < i
    → i < length buf
    → 0 < get_or buf i 0
    → (oc + 1) % 128 ≡ 0
    → oc + 1 < 2 ^ 32
    → Agrees buf
        (get_or buf i 0)
        n
        f
        g
        127
        (oc + 1)
        ((e + get_or buf i 0) % 2 ^ 32)
        ((res + get_or buf i 0) % 2 ^ 32)
    → Agrees buf i n (suc f) (suc g) 0 oc e res
Agrees-sample buf i n f g oc e res h b z d s a = record {
  e' = a.e';
  res' = a.res';
  host = check_loop_step f i buf _ h b ∙ rw (count_op_sample (get_or buf i 0) oc e d s) a.host;
  device =
      rest_of_round_hop 0 (suc g) i res buf b
      ∙ rest_of_round_next g (get_or buf i 0) res buf z
      ∙ a.device;
  sums = omega (arith, a.sums);
  small = a.small;
}

Agrees-skip :
    (buf : List ℕ) (i n f g r oc e res : ℕ)
    → 0 < i
    → i < length buf
    → (oc + 1) % 128 ≢ 0
    → oc + 1 < 2 ^ 32
    → Agrees buf (get_or buf i 0) n f g r (oc + 1) e res
    → Agrees buf i n (suc f) g (suc r) oc e res
Agrees-skip buf i n f g r oc e res h b d s a = record {
  e' = a.e';
  res' = a.res';
  host = check_loop_step f i buf _ h b ∙ rw (count_op_skip (get_or buf i 0) oc e d s) a.host;
  device = rest_of_round_hop (suc r) g i res buf b ∙ a.device;
  sums = a.sums;
  small = a.small;
}

Walk-Agrees :
    {buf : List ℕ} {i k : ℕ}
    → Walk buf i k
    → (n f g r oc e res : ℕ) → 0 < k
    → k ≤ f
    → k ≤ g
    → r < 128
    → (oc + r + 1) % 128 ≡ 0
    → n % 128 ≡ 0
    → oc + k ≡ n
    → n < 2 ^ 32
    → Agrees buf i n f g r oc e res
Walk-Agrees (home p) n f g r oc e res z kf kg rb d m q s = absurd (omega arith)
Walk-Agrees (step h b t) n zero g r oc e res z kf kg rb d m q s = absurd (omega arith)
Walk-Agrees (step h b t) n (suc f) zero r oc e res z kf kg rb d m q s = absurd (omega arith)
Walk-Agrees {buf} (step {i} {k = zero} h b t) n (suc f) (suc g) zero oc e res z kf kg rb d m q s =
    Agrees-end buf i n f (suc g) oc e res h b (Walk-zero t) (omega arith) (omega arith) s
Walk-Agrees {buf} (step {i} {k = zero} h b t) n (suc f) (suc g) (suc r) oc e res z kf kg rb d m q
      s =
    absurd (omega arith)
Walk-Agrees {buf} (step {i} {k = suc k} h b t) n (suc f) (suc g) zero oc e res z kf kg rb d m q s =
    Agrees-sample buf i n f g oc e res h b (Walk-suc t) (omega arith) (omega arith) (
      Walk-Agrees t n f g 127 (oc + 1) _ _ (omega arith) (omega arith) (omega arith) (omega arith)
        (omega arith) m (omega arith) s)
Walk-Agrees {buf} (step {i} {k = suc k} h b t) n (suc f) (suc g) (suc r) oc e res z kf kg rb d m q
      s =
    Agrees-skip buf i n f (suc g) r oc e res h b (omega arith) (omega arith) (
      Walk-Agrees t n f (suc g) r (oc + 1) e res (omega arith) (omega arith) (omega arith)
        (omega arith) (omega arith) m (omega arith) s)

expected_of : Run Walked → ℕ
expected_of (done w) = w.expected_result
expected_of _ = 0

unrolled_loop-rest_of_round :
    (g res : ℕ) (buf : List ℕ) → unrolled_loop (suc g) buf 0 res ≡ rest_of_round 128 g buf 0 res
unfolding unrolled_loop rest_of_round
unrolled_loop-rest_of_round g res buf = refl

-- The kernel's inner loop from element 0, on a buffer that the host has walked.
unrolled_loop-check_loop :
    (buf : List ℕ) (n sum res g : ℕ)
    → length buf ≡ n
    → Walk buf (get_or buf 0 0) (n - 1)
    → n % 128 ≡ 0
    → 2 ≤ n
    → n < 2 ^ 32
    → n ≤ g
    → check_loop n buf (get_or buf 0 0) (record { opcount = 1; expected_result = 0 })
      ≡ done (record { opcount = n; expected_result = sum })
    → unrolled_loop (suc g) buf 0 res ≡ done ((sum + res) % 2 ^ 32)
unfolding expected_of
unrolled_loop-check_loop buf n sum res g l t d b s gb host =
    let a =
      Walk-Agrees t n n g 126 1 0 res (omega arith) (omega arith) (omega arith) (omega arith)
        (omega arith) d (omega arith) s in
    let same : a.e' ≡ sum = ap expected_of (sym a.host ∙ host) in
    let total : a.res' ≡ (sum + res) % 2 ^ 32 = omega (arith, a.sums, a.small, same) in
    unrolled_loop-rest_of_round g res buf
    ∙ rest_of_round_hop 127 g 0 res buf (omega arith)
    ∙ a.device
    ∙ ap (λ x. done x) total

iteration_loop-sum :
    (buf : List ℕ) (sum g : ℕ)
    → ((res : ℕ) → unrolled_loop g buf 0 res ≡ done ((sum + res) % 2 ^ 32))
    → (k res : ℕ) → res < 2 ^ 32
    → iteration_loop k g buf res ≡ done ((res + k * sum) % 2 ^ 32)
unfolding iteration_loop
iteration_loop-sum buf sum g h zero res b = ap (λ x. done x) (omega arith)
iteration_loop-sum buf sum g h (suc k) res b = rw (h res) (
    iteration_loop-sum buf sum g h k ((sum + res) % 2 ^ 32) (omega arith)
    ∙ ap (λ x. done x) (omega arith))

times_low_word : (sum it : ℕ) → (0 + it % 2 ^ 32 * sum) % 2 ^ 32 ≡ (sum * it) % 2 ^ 32
times_low_word sum it =
    let split : it ≡ 2 ^ 32 * (it / 2 ^ 32) + it % 2 ^ 32 = omega arith in
    omega (arith, ap (λ (t : ℕ). sum * t) split)

latency_cnt_sum :
    (buf : List ℕ) (sum g it : ℕ)
    → ((res : ℕ) → unrolled_loop g buf 0 res ≡ done ((sum + res) % 2 ^ 32))
    → latency_cnt g buf (it % 2 ^ 32) ≡ done ((sum * it) % 2 ^ 32)
unfolding latency_cnt
latency_cnt_sum buf sum g it h =
    iteration_loop-sum buf sum g h (it % 2 ^ 32) 0 (omega arith)
    ∙ ap (λ x. done x) (times_low_word sum it)

check_layout_lem :
    (f it n sum : ℕ) (buf : List ℕ)
    → 0 < length buf
    → check_loop f buf (get_or buf 0 0) (record { opcount = 1; expected_result = 0 })
      ≡ done (record { opcount = n; expected_result = sum })
    → check_layout f it buf ≡ done (record { opcount = n; expected_result = (sum * it) % 2 ^ 32 })
unfolding check_layout
check_layout_lem f it n sum buf h e = rw (lt→ltb 0 (length buf) h, e)

-- For either layout and a buffer of at least two rows of 128 elements, whatever malloc left in
-- it: the buffer is filled within its bounds, the host's check ends with one operation counted
-- for each element, so its assertion holds, and the kernel, given the low word of the number of
-- iterations, returns the very result that the host expects.
pub check_layout-latency_cnt :
    (layout : DataLayout) (n m iterations : ℕ) (buf : List ℕ)
    → n ≡ 128 * m
    → 2 ≤ m
    → n + 128 ≤ 2 ^ 32
    → length buf ≡ n
    → (buf' : List ℕ) × (sum : ℕ) × (prepare_data n layout n buf ≡ done buf')
      × (check_layout n iterations buf' ≡ done (record { opcount = n; expected_result = sum }))
      × (latency_cnt (suc n) buf' (iterations % 2 ^ 32) ≡ done sum)
check_layout-latency_cnt layout n m it buf e b s l =
    let (buf', ran, size, walk) = prepare_data-Walk layout n m buf e b s l in
    let a =
      Walk-Agrees walk n n n 126 1 0 0 (omega arith) (omega arith) (omega arith) (omega arith)
        (omega arith) (omega arith) (omega arith) (omega arith) in
    let pass = λ (res : ℕ).
      unrolled_loop-check_loop buf' n a.e' res n size walk (omega arith) (omega arith) (omega arith)
        (omega arith) a.host in
    (
      buf',
      (a.e' * it) % 2 ^ 32,
      ran,
      check_layout_lem n it n a.e' buf' (omega arith) a.host,
      latency_cnt_sum buf' a.e' (suc n) it pass,
    )
