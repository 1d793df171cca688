-- ===== src/CommandLine/Devices.antt =====
-- The devices that `--device` chooses, and the array that they are written to.
use mathlib.Core.Option
use u_clbench.Base.{
  ℕ, zero, suc, ◌+◌, ◌≤◌, ◌<◌, ◌≡◌, ◌⊎◌, inl, inr, refl, sym, ap, ◌∙◌, arith, true, false, List, [],
  ◌∷◌, ◌++◌, Option, none, some, Option-cases, length, get_elem?, set, drop, length-set, dec_lt,
  ltb, lt→ltb, le→ltb,
}
use u_clbench.Base.Run.{done, fault, write_cell, read_cell}
use u_clbench.Base.Text.{Bytes}
use u_clbench.CommandLine.{choose_loop, choose_devices}
use u_clbench.CommandLine.Scan.{scan_i, tokens}

module _ {D : Type 0} where
  read_cell-cases :
      (xs : List D) (i : ℕ)
      → ((d : D) × ((get_elem? xs i ≡ some d)
            × ((read_cell xs i ≡ done d) × (ltb i (length xs) ≡ true))))
        ⊎ ((get_elem? xs i ≡ none) × (ltb i (length xs) ≡ false))
  read_cell-cases [] i = inr (refl, le→ltb i 0 (omega arith))
  read_cell-cases (x ∷ xs) zero = inl (x, (refl, (refl, lt→ltb 0 (suc (length xs)) (omega arith))))
  read_cell-cases (x ∷ xs) (suc i) = elim (read_cell-cases xs i) [
    | inl (d, (g, (r, h))) ↦ inl (d, (g, (r, ground (arith, h))))
    | inr (g, h) ↦ inr (g, ground (arith, h))
  ]

  -- the writes of a list into the cells from `n` on
  abbrev pub write_all : List D → ℕ → List D → List D
  write_all used n [] = used
  write_all used n (d ∷ ds) = write_all (set used n d) (suc n) ds

  write_all-cons :
      (x : D) (used : List D) (n : ℕ) (ds : List D)
      → write_all (x ∷ used) (suc n) ds ≡ x ∷ write_all used n ds
  write_all-cons x used n [] = refl
  write_all-cons x used n (d ∷ ds) = write_all-cons x (set used n d) (suc n) ds

  pub write_all-drop :
      (used ds : List D)
      → length ds ≤ length used
      → write_all used 0 ds ≡ ds ++ drop (length ds) used
  write_all-drop used [] h = refl
  write_all-drop [] (d ∷ ds) h = absurd (omega arith)
  write_all-drop (x ∷ used) (d ∷ ds) h =
      write_all-cons d used 0 ds ∙ ap (◌∷◌ d) (write_all-drop used ds (omega arith))

module _ {D : Type 0} (devices : List D) where
  abbrev prepend : Option D → List D → List D
  prepend none ds = ds
  prepend (some d) ds = d ∷ ds

  -- The devices of the numbers that there are, in the order of the words; `none` where some word
  -- is not a number.
  abbrev pub picked : List Bytes → Option (List D)
  picked [] = some []
  picked (w ∷ words) = elim (scan_i w) [
    | none ↦ none
    | some id ↦ Option.map (prepend (get_elem? devices id)) (picked words)
  ]

  abbrev stored : List D → ℕ → List D → List D × ℕ
  stored used n ds = (write_all used n ds, n + length ds)

  stored_next :
      (used : List D) (n : ℕ) (d : D) (o : Option (List D))
      → Option.map (stored (set used n d) (suc n)) o
        ≡ Option.map (stored used n) (Option.map (◌∷◌ d) o)
  stored_next used n d none = refl
  stored_next used n d (some ds) =
      let h : suc n + length ds ≡ n + suc (length ds) = omega arith in
      ap (λ m. some (write_all (set used n d) (suc n) ds, m)) h

  map_id : (o : Option (List D)) → Option.map (λ ds. ds) o ≡ o
  map_id none = refl
  map_id (some ds) = refl

  choose_loop-picked :
      (words : List Bytes) (used : List D) (n : ℕ)
      → n + length words ≤ length used
      → choose_loop devices words used n ≡ done (Option.map (stored used n) (picked words))
  unfolding choose_loop
  choose_loop-picked [] used n h =
      let z : n + 0 ≡ n = omega arith in ap (λ m. done (some (used, m))) (sym z)
  choose_loop-picked (w ∷ words) used n h = elim (Option-cases (scan_i w)) [
    | inl e ↦ rw (choose_loop, picked, e) refl
    | inr (id, e) ↦ elim (read_cell-cases devices id) [
      | inl (d, (g, (r, b))) ↦
          let m : suc n + length words ≤ length (set used n d) =
            omega (arith, length-set used n d) in
          let k = choose_loop-picked words (set used n d) (suc n) m in
          let l = lt→ltb n (length used) (omega arith) in
          rw
            (choose_loop, picked, e, b, r, write_cell, l, g, k, stored_next used n d (picked words))
            refl
      | inr (g, b) ↦
          let k = choose_loop-picked words used n (omega arith) in
          rw (choose_loop, picked, e, b, g, k, map_id (picked words)) refl
    ]
  ]

  map-some :
      (f : List D → List D) (o : Option (List D)) (ds : List D)
      → Option.map f o ≡ some ds
      → (rest : List D) × ((o ≡ some rest) × (f rest ≡ ds))
  map-some f none ds h = cc
  map-some f (some rest) ds h = (rest, (refl, cc))

  picked-some :
      (w : Bytes) (words : List Bytes) (ds : List D)
      → picked (w ∷ words) ≡ some ds
      → (id : ℕ) × ((rest : List D) × ((scan_i w ≡ some id)
            × ((picked words ≡ some rest) × (prepend (get_elem? devices id) rest ≡ ds))))
  picked-some w words ds h = elim (Option-cases (scan_i w)) [
    | inl e ↦ let k : picked (w ∷ words) ≡ none = rw (picked, e) refl in cc
    | inr (id, e) ↦
        let k : picked (w ∷ words) ≡ Option.map (prepend (get_elem? devices id)) (picked words) =
          rw (picked, e) refl in
        let r = map-some (prepend (get_elem? devices id)) (picked words) ds (sym k ∙ h) in
        (id, (r.0, (e, r.1)))
  ]

  prepend-length : (o : Option D) (ds : List D) → length (prepend o ds) ≤ suc (length ds)
  prepend-length none ds = omega arith
  prepend-length (some d) ds = omega arith

  picked-length :
      (words : List Bytes) (ds : List D) → picked words ≡ some ds → length ds ≤ length words
  picked-length [] ds h = let k : [] ≡ ds = cc in rw (sym k) (omega arith)
  picked-length (w ∷ words) ds h =
      let (id, (rest, (e, (p, q)))) = picked-some w words ds h in
      let k = picked-length words rest p in
      let l = prepend-length (get_elem? devices id) rest in let m = ap length q in omega arith

  -- Too many devices.
  choose_loop-fault :
      (words : List Bytes) (used ds : List D) (n : ℕ)
      → picked words ≡ some ds
      → n ≤ length used
      → length used < n + length ds
      → choose_loop devices words used n ≡ fault
  unfolding choose_loop
  choose_loop-fault [] used ds n p h k =
      let q : [] ≡ ds = cc in let l : 0 ≡ length ds = ap length q in absurd (omega arith)
  choose_loop-fault (w ∷ words) used ds n p h k =
      let (id, (rest, (e, (p', q)))) = picked-some w words ds p in
      elim (read_cell-cases devices id) [
        | inl (d, (g, (r, b))) ↦
            let l : suc (length rest) ≡ length ds =
              ap length (sym (ap (λ o. prepend o rest) g) ∙ q) in
            elim (dec_lt n (length used)) [
              | yes lt ↦
                  let m = length-set used n d in
                  let ih =
                    choose_loop-fault words (set used n d) rest (suc n) p' (omega arith)
                      (omega arith) in
                  rw (choose_loop, e, b, r, write_cell, lt→ltb n (length used) lt, ih) refl
              | no ge ↦
                  rw (choose_loop, e, b, r, write_cell, le→ltb n (length used) (omega arith)) refl
            ]
        | inr (g, b) ↦
            let l : length rest ≡ length ds = ap length (sym (ap (λ o. prepend o rest) g) ∙ q) in
            let ih = choose_loop-fault words used rest n p' h (omega arith) in
            rw (choose_loop, e, b, ih) refl
      ]

  choose_loop-stored :
      (words : List Bytes) (used ds : List D) (n : ℕ)
      → picked words ≡ some ds
      → n + length ds ≤ length used
      → choose_loop devices words used n ≡ done (some (stored used n ds))
  unfolding choose_loop
  choose_loop-stored [] used ds n p h =
      let q : [] ≡ ds = cc in let z : n + 0 ≡ n = omega arith in rw (sym q, z) refl
  choose_loop-stored (w ∷ words) used ds n p h =
      let (id, (rest, (e, (p', q)))) = picked-some w words ds p in
      elim (read_cell-cases devices id) [
        | inl (d, (g, (r, b))) ↦
            let c : d ∷ rest ≡ ds = sym (ap (λ o. prepend o rest) g) ∙ q in
            let l : suc (length rest) ≡ length ds = ap length c in
            let m = length-set used n d in
            let ih = choose_loop-stored words (set used n d) rest (suc n) p' (omega arith) in
            let z : suc n + length rest ≡ n + suc (length rest) = omega arith in
            rw
              (choose_loop, e, b, r, write_cell, lt→ltb n (length used) (omega arith), ih, sym c, z)
              refl
        | inr (g, b) ↦
            let c : rest ≡ ds = sym (ap (λ o. prepend o rest) g) ∙ q in
            let l : length rest ≡ length ds = ap length c in
            let ih = choose_loop-stored words used rest n p' (omega arith) in
            rw (choose_loop, e, b, ih, c) refl
      ]

  pub choose_devices-stored :
      (cells ds : List D) (devices_str : Bytes)
      → picked (tokens devices_str) ≡ some ds
      → length ds ≤ length cells
      → choose_devices devices cells devices_str
        ≡ done (some (ds ++ drop (length ds) cells, length ds))
  unfolding choose_devices
  choose_devices-stored cells ds devices_str p h =
      let z : 0 + length ds ≡ length ds = omega arith in
      choose_loop-stored (tokens devices_str) cells ds 0 p (omega arith)
      ∙ rw (z, write_all-drop cells ds h) refl

  map-length :
      (cells : List D) (o : Option (List D))
      → ((ds : List D) → o ≡ some ds → length ds ≤ length cells)
      → Option.map (stored cells 0) o
        ≡ Option.map (λ ds. (ds ++ drop (length ds) cells, length ds)) o
  map-length cells none h = refl
  map-length cells (some ds) h =
      let z : 0 + length ds ≡ length ds = omega arith in
      rw (z, write_all-drop cells ds (h ds refl)) refl

  -- With no more words in `--device` than the array has cells, main stops when some word is not a
  -- number. Else the array begins with the devices of the numbers that there are, in the order of
  -- the words, the rest of it is as it was, and their count is returned with it.
  pub choose_devices-picked :
      (cells : List D) (devices_str : Bytes)
      → length (tokens devices_str) ≤ length cells
      → choose_devices devices cells devices_str
        ≡ done (
            Option.map
              (λ ds. (ds ++ drop (length ds) cells, length ds))
              (picked (tokens devices_str)))
  unfolding choose_devices
  choose_devices-picked cells devices_str h =
      choose_loop-picked (tokens devices_str) cells 0 (omega arith)
      ∙ ap done (
          map-length cells (picked (tokens devices_str))
            (λ ds p. let k = picked-length (tokens devices_str) ds p in omega arith))

  -- Where the words of `--device` are numbers, and they choose more devices than the array has
  -- cells, as repeated numbers do, main writes behind the end of the array.
  pub choose_devices-fault :
      (cells ds : List D) (devices_str : Bytes)
      → picked (tokens devices_str) ≡ some ds
      → length cells < length ds
      → choose_devices devices cells devices_str ≡ fault
  unfolding choose_devices
  choose_devices-fault cells ds devices_str p h =
      choose_loop-fault (tokens devices_str) cells ds 0 p (omega arith) (omega arith)
