-- ===== src/MemLatency/Chain.antt =====
-- The chain of indices that the cache-step layout makes: from index 1, in strides of 128 and
-- column by column, over every index but 0 and back to 0.
use native.Mathlib.Nat.{add-mod_right, mod-eq_of_lt}
use native.Mathlib.Decide.{dec_lt}
use u_clbench.Base.{
  ℕ, zero, suc, ◌+◌, ◌-◌, ◌*◌, ◌%◌, ◌^◌, ◌≤◌, ◌<◌, ◌≡◌, ◌≢◌, refl, ◌∙◌, arith, lt→ltb,
}
use u_clbench.MemLatency.{next_index}

-- From index `i` the chain reaches 0 after `k` hops, and meets it only there.
pub data Tour (num_elems : ℕ) : ℕ → ℕ → Type 0 where
  last : {i : ℕ} → 0 < i → i + 128 ≡ num_elems → Tour num_elems i 1
  hop :
      {i i' k : ℕ}
      → 0 < i
      → i + 128 < 2 ^ 32
      → i < num_elems
      → i + 128 ≢ num_elems
      → next_index num_elems (i + 128) ≡ i'
      → Tour num_elems i' k
      → Tour num_elems i (suc k)

next_index_inside : (n i i' : ℕ) → i ≤ n → i ≡ i' → next_index n i ≡ i'
unfolding next_index
next_index_inside n i i' h e = ground arith

-- behind the end of column `c` stands the head of the next one
wrap_mod : (d x : ℕ) → x < d → (x + d) % d ≡ x
wrap_mod d x h = rw add-mod_right (mod-eq_of_lt h)

next_index_wrap : (n c : ℕ) → 256 ≤ n → n ≤ 2 ^ 32 → c < 127 → next_index n (n + c + 1) ≡ c + 2
unfolding next_index
next_index_wrap n c h k d =
    let e : (n + 2 ^ 32 - 1) % 2 ^ 32 ≡ n - 1 = omega arith in
    let p : n + c + 1 ≡ c + 2 + (n - 1) = omega arith in
    rw (lt→ltb n (n + c + 1) (omega arith), e, p) (wrap_mod (n - 1) (c + 2) (omega arith))

-- `m` rows, `r` columns behind column `c`, and `k` hops left at row `j` of column `c`
Tour-column :
    (n m k r c j : ℕ)
    → n ≡ 128 * m
    → 2 ≤ m
    → n + 128 ≤ 2 ^ 32
    → c + r ≡ 127
    → j < m
    → (r ≡ 0 → j + 1 < m)
    → k + j + 1 ≡ r * m + m
    → Tour n (c + 1 + 128 * j) k
Tour-column n m zero zero c j e h b s p q t = absurd (omega (arith, q refl))
Tour-column n m zero (suc r) c j e h b s p q t = absurd (omega arith)
Tour-column n m (suc zero) zero c j e h b s p q t = last (omega arith) (omega arith)
Tour-column n m (suc (suc k)) zero c j e h b s p q t =
    hop (omega arith) (omega arith) (omega arith) (omega arith)
      (next_index_inside n _ (c + 1 + 128 * (j + 1)) (omega arith) (omega arith))
      (Tour-column n m (suc k) zero c (j + 1) e h b s (omega arith) (λ _. omega arith)
        (omega arith))
Tour-column n m (suc k) (suc r) c j e h b s p q t = elim (dec_lt (j + 1) m) [
  | yes inside ↦
      hop (omega arith) (omega arith) (omega arith) (omega arith)
        (next_index_inside n _ (c + 1 + 128 * (j + 1)) (omega arith) (omega arith))
        (Tour-column n m k (suc r) c (j + 1) e h b s inside (λ z. omega arith) (omega arith))
  | no end ↦
      hop (omega arith) (omega arith) (omega arith) (omega arith)
        (let x : c + 1 + 128 * j + 128 ≡ n + c + 1 = omega arith in
          rw x (next_index_wrap n c (omega arith) (omega arith) (omega arith) ∙ omega arith))
        (Tour-column n m k r (c + 1) 0 e h b (omega arith) (omega arith) (λ z. omega arith)
          (omega arith))
]

-- A buffer of two rows or more is visited whole.
pub Tour-whole : (n m k : ℕ) → n ≡ 128 * m → 2 ≤ m → n + 128 ≤ 2 ^ 32 → k + 1 ≡ n → Tour n 1 k
Tour-whole n m k e h b t =
    Tour-column n m k 127 0 0 e h b refl (omega arith) (λ z. omega arith) (omega arith)
