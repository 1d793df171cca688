-- ===== src/ArithSpeed/Jobs/Halving.antt =====
-- The loop that halves the range of work items until its memory is there.
use native.Mathlib.Nat.{mul-le-mul_right}
use u_clbench.Base.{
  ℕ, zero, suc, ◌+◌, ◌*◌, ◌/◌, ◌%◌, ◌^◌, ◌<◌, ◌≤◌, ◌≡◌, refl, arith, ltb, lt→ltb, le→ltb, dec_lt,
}
use u_clbench.Base.Run.{done, no_fuel}
use u_clbench.ArithSpeed.Jobs.{Range, halve_loop}

-- what the loop compares with the memory
abbrev pub demand : ℕ → ℕ → Range → ℕ
demand width lanes r = (r.global_size + 2) * width * lanes

abbrev pub halved : Range → Range
halved r = record { local_size = r.local_size / 2; global_size = r.global_size / 2 }

abbrev pub halved_times : ℕ → Range → Range
halved_times zero r = r
halved_times (suc n) r = halved_times n (halved r)

demand_mono :
    (width lanes : ℕ) (r t : Range)
    → r.global_size ≤ t.global_size
    → demand width lanes r ≤ demand width lanes t
demand_mono width lanes r t h = mul-le-mul_right lanes (mul-le-mul_right width (omega arith))

-- the test of the loop, where the product fits 64 bits
test_wrap :
    (width lanes memory : ℕ) (r : Range)
    → demand width lanes r < 2 ^ 64
    → ltb memory ((r.global_size + 2) * width * lanes % 2 ^ 64) ≡ ltb memory (demand width lanes r)
test_wrap width lanes memory r h =
    let e : demand width lanes r % 2 ^ 64 ≡ demand width lanes r = omega arith in rw e refl

demand_least : (width lanes : ℕ) (r : Range) → 2 * width * lanes ≤ demand width lanes r
demand_least width lanes r =
    demand_mono width lanes (record { local_size = 0; global_size = 0 }) r (omega arith)

-- When the memory is enough for two numbers per lane, and the product that is compared fits 64
-- bits, the loop ends within one round more than there are work items: it halves both sizes as
-- often as needed for the range to fit into the memory, and no more often.
pub halve_loop_enough :
    (f width lanes memory : ℕ) (r : Range)
    → demand width lanes r < 2 ^ 64
    → 2 * width * lanes ≤ memory
    → r.global_size < f
    → (n : ℕ) × (halve_loop f width lanes memory r ≡ done (halved_times n r))
      × (demand width lanes (halved_times n r) ≤ memory)
      × ((m : ℕ) → m < n → memory < demand width lanes (halved_times m r))
unfolding halve_loop
halve_loop_enough zero width lanes memory r w h b = absurd (omega arith)
halve_loop_enough (suc f) width lanes memory r w h b = elim (dec_lt memory (demand width lanes r)) [
  | no k ↦ (
    0,
    rw (test_wrap width lanes memory r w, le→ltb memory (demand width lanes r) (omega arith)) refl,
    omega arith,
    λ m l. absurd (omega arith),
  )
  | yes k ↦
      let smaller = demand_mono width lanes (halved r) r (omega arith) in
      let (n, e, fits, least) =
        halve_loop_enough f width lanes memory (halved r) (omega arith) h
          (halved_fuel f width lanes memory r h k b) in
      (
        suc n,
        rw (test_wrap width lanes memory r w, lt→ltb memory (demand width lanes r) k) e,
        fits,
        λ m l. before width lanes memory r n m k least l,
      )
]
  where
    before :
        (width lanes memory : ℕ) (r : Range) (n m : ℕ)
        → memory < demand width lanes r
        → ((m : ℕ) → m < n → memory < demand width lanes (halved_times m (halved r)))
        → m < suc n
        → memory < demand width lanes (halved_times m r)
    before width lanes memory r n zero k least l = k
    before width lanes memory r n (suc m) k least l = least m (omega arith)

    halved_fuel :
        (f width lanes memory : ℕ) (r : Range)
        → 2 * width * lanes ≤ memory
        → memory < demand width lanes r
        → r.global_size < suc f
        → r.global_size / 2 < f
    halved_fuel f width lanes memory r h k b = elim (dec_lt 0 r.global_size) [
      | yes p ↦ omega arith
      | no p ↦ absurd (
          omega (
            arith,
            demand_mono width lanes r (record { local_size = 0; global_size = 0 }) (omega arith),
          ))
    ]

-- With less memory the loop never ends, as long as the product that is compared fits 64 bits: no
-- number of rounds is enough.
pub halve_loop_endless :
    (f width lanes memory : ℕ) (r : Range)
    → demand width lanes r < 2 ^ 64
    → memory < 2 * width * lanes
    → halve_loop f width lanes memory r ≡ no_fuel
unfolding halve_loop
halve_loop_endless zero width lanes memory r w h = refl
halve_loop_endless (suc f) width lanes memory r w h =
    let least = demand_least width lanes r in
    let smaller = demand_mono width lanes (halved r) r (omega arith) in
    rw (test_wrap width lanes memory r w, lt→ltb memory (demand width lanes r) (omega arith))
      (halve_loop_endless f width lanes memory (halved r) (omega arith) h)
