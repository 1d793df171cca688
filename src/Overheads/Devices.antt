-- ===== src/Overheads/Devices.antt =====
-- The devices that main of kernel_overheads/kernel_overheads.cpp runs.
use u_clbench.Base.{
  ℕ, zero, suc, ◌+◌, ◌≤◌, ◌<◌, ◌≡◌, refl, ◌∙◌, arith, Option, none, some, List, [], ◌∷◌, length,
  get_elem?, dec_lt, ℕ_discrete, ltb, leb, Bool-cases, inl, inr, ◌-◌, ◌^◌, lt→ltb, le→ltb, ◌==◌,
  ==_self, ==_ne, if◌then◌else◌,
}
use u_clbench.Base.Int.{ℤ, pos, negsuc}
use u_clbench.Base.Run.{Run, done, fault, ◌>>=◌, read_cell}

module _ {D : Type 0} (devices : List D) where
  -- `lower_id`, and the rounds up to `upper_id`. `device_id + 1` overflows for the largest `int`, which
  -- is a fault, and with a number below -1 a cell in front of the array is read first.
  abbrev pub id_range : ℤ → Run (ℕ × ℕ)
  id_range (pos n) = if leb (2 ^ 31 - 1) n then fault else done (n, 1)
  id_range (negsuc n) = if n == 0 then done (0, length devices) else fault

  -- the devices that the loop of main takes from `id` on; `none` is an exit behind them
  unfoldable pub id_loop : ℕ → ℕ → Run (Option (List D))
  id_loop zero id = done (some [])
  id_loop (suc rounds) id =
      let onwards = id_loop rounds (suc id) in
      if ltb (length devices) id
      then done none
      else (read_cell devices id >>= λ d.
          onwards >>= λ o. done (elim o [ none ↦ none | some ds ↦ some (d ∷ ds) ]))

  unfoldable pub devices_to_run : ℤ → Run (Option (List D))
  unfolding id_loop
  devices_to_run device_id = id_range device_id >>= λ (lower, rounds). id_loop rounds lower

  read_cell-get_elem? :
      (xs : List D) (i : ℕ)
      → read_cell xs i ≡ elim (get_elem? xs i) as (λ o. Run D) [ none ↦ fault | some d ↦ done d ]
  read_cell-get_elem? [] i = refl
  read_cell-get_elem? (x ∷ xs) zero = refl
  read_cell-get_elem? (x ∷ xs) (suc i) = read_cell-get_elem? xs i

  -- what stands for a device that there is, or is not
  abbrev pub one_device : ℕ → Option D → Run (Option (List D))
  one_device n (some d) = done (some (d ∷ []))
  one_device n none = if n == length devices then fault else done none

  -- what main means to run
  abbrev pub asked_for : ℤ → Run (Option (List D))
  asked_for (pos n) = if leb (2 ^ 31 - 1) n then fault else one_device n (get_elem? devices n)
  asked_for (negsuc n) = if n == 0 then done (some devices) else fault

  id_loop-all :
      (ds : List D) (id : ℕ)
      → id + length ds ≤ length devices
      → ((k : ℕ) → k < length ds → read_cell devices (id + k) ≡ read_cell ds k)
      → id_loop (length ds) id ≡ done (some ds)
  unfolding id_loop
  id_loop-all [] id h r = refl
  id_loop-all (d ∷ ds) id h r =
      let z : id + 0 ≡ id = omega arith in
      let first : read_cell devices id ≡ done d = rw z at (r 0 (omega arith)) in
      let ih =
        id_loop-all ds (suc id) (omega arith) (λ k l.
          let y : suc id + k ≡ id + suc k = omega arith in rw y (r (suc k) (omega arith))) in
      rw (le→ltb (length devices) id (omega arith), first, ih) refl

  get_elem?-some : (xs : List D) (n : ℕ) → n < length xs → (d : D) × (get_elem? xs n ≡ some d)
  get_elem?-some [] n h = absurd (omega arith)
  get_elem?-some (x ∷ xs) zero h = (x, refl)
  get_elem?-some (x ∷ xs) (suc n) h = get_elem?-some xs n (omega arith)

  get_elem?-none : (xs : List D) (n : ℕ) → length xs ≤ n → get_elem? xs n ≡ none
  get_elem?-none [] n h = refl
  get_elem?-none (x ∷ xs) zero h = absurd (omega arith)
  get_elem?-none (x ∷ xs) (suc n) h = get_elem?-none xs n (omega arith)

  id_loop-one_device : (n : ℕ) → id_loop 1 n ≡ one_device n (get_elem? devices n)
  unfolding id_loop
  id_loop-one_device n = elim (dec_lt n (length devices)) [
    | yes l ↦
        let (d, g) = get_elem?-some devices n l in
        let r : read_cell devices n ≡ done d = read_cell-get_elem? devices n ∙ rw g refl in
        rw (le→ltb (length devices) n (omega arith), r, g) refl
    | no ge ↦
        let g = get_elem?-none devices n (omega arith) in
        let r : read_cell devices n ≡ fault = read_cell-get_elem? devices n ∙ rw g refl in
        elim (ℕ_discrete n (length devices)) [
          | yes e ↦
              rw (le→ltb (length devices) n (omega arith), r, g, e, ==_self (length devices)) refl
          | no ne ↦
              rw (lt→ltb (length devices) n (omega arith), g, ==_ne n (length devices) ne) refl
        ]
  ]

  -- With -1 main runs every device, in order. With another number from 0 on, below the largest
  -- `int`, it runs the device of that number where there is one, and exits where the number is
  -- larger than the number of devices; where it is equal to that, main reads behind the end of the
  -- array. With a number below -1 it reads in front of the array, and the largest `int` overflows.
  pub devices_to_run-asked_for : (device_id : ℤ) → devices_to_run device_id ≡ asked_for device_id
  unfolding devices_to_run
  devices_to_run-asked_for (negsuc n) = elim (Bool-cases (n == 0)) [
    | inl y ↦
        let all =
          id_loop-all devices 0 (omega arith)
            (λ k l. let z : 0 + k ≡ k = omega arith in rw z refl) in
        rw (y, all) refl
    | inr y ↦ rw y refl
  ]
  devices_to_run-asked_for (pos n) = elim (Bool-cases (leb (2 ^ 31 - 1) n)) [
    | inl y ↦ rw y refl
    | inr y ↦ rw (y, id_loop-one_device n) refl
  ]
