-- ===== src/ArithSpeed/Check/Lane.antt =====
-- The host repeats what the kernel does to its first lane.
use u_clbench.Base.{
  ℕ, zero, suc, ◌+◌, ◌*◌, ◌/◌, ◌%◌, ◌≡◌, ◌⊎◌, inl, inr, refl, ap, ◌∙◌, arith, ◌==◌, if◌then◌else◌,
}
use u_clbench.ArithSpeed.Check.{Arithmetic, check_round, check_rounds, check_vliw}
use u_clbench.ArithSpeed.Kernel.{operation}

mod_three : (n : ℕ) → (n % 3 ≡ 0) ⊎ ((n % 3 ≡ 1) ⊎ (n % 3 ≡ 2))
mod_three n = ground arith

split_product : (i q s : ℕ) → i * (3 * q + s) ≡ 3 * (i * q) + i * s
split_product i q s = ground arith

-- the place of lane 0 in round `i`, up to threes, when `vec` leaves `s`
place_mod_three : (i vec s : ℕ) → vec % 3 ≡ s → (i * vec + 0) % 3 ≡ i * s % 3
place_mod_three i vec s h =
    let e : vec ≡ 3 * (vec / 3) + s = omega arith in
    let w : i * vec ≡ i * (3 * (vec / 3) + s) = ap (λ (v : ℕ). i * v) e in
    omega (arith, w, split_product i (vec / 3) s)

module _ {T : Type 0} (ops : Arithmetic T) where
  -- `a op= b` for the character of an operation
  abbrev pub apply : ℕ → T → T → T
  apply c b a =
      if c == b'+' then ops.plus a b else if c == b'*' then ops.times a b else ops.minus a b

  -- the kernel's first lane: rounds `i` to `i + n - 1` of the unrolled body
  abbrev pub lane_rounds : ℕ → ℕ → ℕ → T → T → T
  lane_rounds vec zero i b a = a
  lane_rounds vec (suc n) i b a = lane_rounds vec n (i + 1) b (apply (operation (i * vec + 0)) b a)

  -- the kernel's loop over `iterations`, unrolled a hundred times
  abbrev pub lane : ℕ → ℕ → T → T → T
  lane vec zero b a = a
  lane vec (suc n) b a = lane vec n b (lane_rounds vec 100 0 b a)

  check_round-apply :
      (vec i : ℕ) (b a : T) → check_round ops vec i b a ≡ apply (operation (i * vec + 0)) b a
  unfolding check_round
  check_round-apply vec i b a = elim (mod_three vec) [
    | inl z ↦
        let e : (i * vec + 0) % 3 ≡ 0 = omega (arith, place_mod_three i vec 0 z) in rw (z, e) refl
    | inr (inl o) ↦
        let e : (i * vec + 0) % 3 ≡ i % 3 = omega (arith, place_mod_three i vec 1 o) in
        elim (mod_three i) [
          | inl r ↦ rw (o, e, r) refl
          | inr (inl r) ↦ rw (o, e, r) refl
          | inr (inr r) ↦ rw (o, e, r) refl
        ]
    | inr (inr t) ↦
        let e = place_mod_three i vec 2 t in
        elim (mod_three i) [
          | inl r ↦ let p : (i * vec + 0) % 3 ≡ 0 = omega (arith, e) in rw (t, p, r) refl
          | inr (inl r) ↦ let p : (i * vec + 0) % 3 ≡ 2 = omega (arith, e) in rw (t, p, r) refl
          | inr (inr r) ↦ let p : (i * vec + 0) % 3 ≡ 1 = omega (arith, e) in rw (t, p, r) refl
        ]
  ]

  check_rounds-lane_rounds :
      (vec n i : ℕ) (b a : T) → check_rounds ops vec n i b a ≡ lane_rounds vec n i b a
  unfolding check_rounds
  check_rounds-lane_rounds vec zero i b a = refl
  check_rounds-lane_rounds vec (suc n) i b a =
      check_rounds-lane_rounds vec n (i + 1) b (check_round ops vec i b a)
      ∙ ap (λ (x : T). lane_rounds vec n (i + 1) b x) (check_round-apply vec i b a)

  -- For any width and any number of iterations, the host arrives at the value that the operations
  -- written into the kernel, with a hundred rounds unrolled, give the first lane.
  pub check_vliw-lane : (vec n : ℕ) (b a : T) → check_vliw ops vec n b a ≡ lane vec n b a
  unfolding check_vliw
  check_vliw-lane vec zero b a = refl
  check_vliw-lane vec (suc n) b a =
      check_vliw-lane vec n b (check_rounds ops vec 100 0 b a)
      ∙ ap (λ (x : T). lane vec n b x) (check_rounds-lane_rounds vec 100 0 b a)
