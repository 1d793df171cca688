-- ===== src/Streaming/Bounds.antt =====
-- The numbers of work-items and of elements per work-item.
use native.Mathlib.Nat.{lt-div-mul-add, div-mul-le_self}
use u_clbench.Base.{
  ℕ, zero, suc, ◌+◌, ◌-◌, ◌*◌, ◌/◌, ◌≤◌, ◌<◌, ◌≡◌, refl, arith, dec_lt, lt→ltb, le→ltb, ==_ne,
}
use u_clbench.Base.Run.{done}
use u_clbench.Streaming.{private_space, fit_local, many_items, elements_to_alloc}

-- what the loop leaves in `local`
Fits : ℕ → ℕ → ℕ → Type 0
Fits elements local fitted = (fitted ≤ elements) × ((fitted ≤ local) × (0 < fitted))

fit_local-Fits :
    (fuel elements local : ℕ)
    → local < fuel
    → 0 < local
    → 0 < elements
    → (fitted : ℕ) × ((fit_local fuel elements local ≡ done fitted) × Fits elements local fitted)
unfolding fit_local Fits
fit_local-Fits zero elements local h p q = absurd (omega arith)
fit_local-Fits (suc fuel) elements local h p q = elim (dec_lt elements local) [
  | yes l ↦
      let (fitted, (e, (a, (b, c)))) =
        fit_local-Fits fuel elements (local / 2) (omega arith) (omega arith) q in
      (fitted, (rw (lt→ltb elements local l) e, (a, (omega arith, c))))
  | no g ↦ (local, (rw (le→ltb elements local (omega arith)) refl, (omega arith, (omega arith, p))))
]

-- On a device that allows at least one work-item, and for at least one element, the loop that
-- halves the size of a group ends within the rounds of the model, the group has at least one
-- work-item, no more than the device allows and no more than there are elements, and the elements
-- of private memory that each of its work-items has are enough for all the elements and leave
-- fewer than one for each work-item over.
pub many_items-covers :
    (max_local units elements old : ℕ)
    → 0 < max_local
    → 0 < elements
    → (local : ℕ) × ((alloc : ℕ) × ((many_items max_local units elements
            ≡ done (local, units * local))
          × ((elements_to_alloc private_space elements local old ≡ done alloc)
              × ((0 < local)
                  × ((local ≤ max_local)
                      × ((local ≤ elements)
                          × ((elements ≤ alloc * local) × (alloc * local < elements + local))))))))
unfolding many_items elements_to_alloc Fits
many_items-covers max_local units elements old h k =
    let (local, (e, (a, (b, c)))) =
      fit_local-Fits (suc max_local) elements max_local (omega arith) h k in
    let alloc = (elements + local - 1) / local in
    let n = ==_ne local 0 (omega arith) in
    let up = lt-div-mul-add {a = elements + local - 1} c in
    let low = div-mul-le_self (elements + local - 1) local in
    (local, (alloc, (rw e refl, (rw n refl, (c, (b, (a, (omega arith, omega arith))))))))
