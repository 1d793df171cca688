-- ===== src/MemLatency/Size.antt =====
-- The size of the buffer: what is left of a request after the device's limit and the rounding.
use u_clbench.Base.{ℕ, ◌⊎◌, ◌+◌, ◌%◌, ◌^◌, ◌≤◌, ◌<◌, ◌≡◌, arith, false, ltb, inl, inr, Bool-cases}
use u_clbench.MemLatency.{
  MemType, global, Limits, type_limit, usable_limit, fitted_elems, buffer_size,
}

fitted_elems_fits :
    (limit size : ℕ)
    → (buffer_size (fitted_elems limit size) ≤ size)
      × (buffer_size (fitted_elems limit size) ≤ limit)
      × (fitted_elems limit size % 128 ≡ 0)
unfolding fitted_elems buffer_size
fitted_elems_fits limit size = elim (Bool-cases (ltb limit size)) [
  | inl e ↦ rw e (ground arith)
  | inr e ↦ rw e (ground arith)
]

fitted_elems_greatest :
    (limit size x : ℕ)
    → x % 512 ≡ 0
    → x ≤ limit
    → x ≤ size
    → (limit < 2 ^ 34) ⊎ (size < 2 ^ 34)
    → x ≤ buffer_size (fitted_elems limit size)
unfolding fitted_elems buffer_size
fitted_elems_greatest limit size x d l s b = elim (Bool-cases (ltb limit size)) [
  | inl e ↦ rw e (ground arith)
  | inr e ↦ rw e (ground arith)
]

usable_limit_below :
    (mt : MemType) (info : Limits)
    → 64 ≤ type_limit mt info
    → type_limit mt info < 2 ^ 64
    → usable_limit mt info + 64 ≤ type_limit mt info
unfolding usable_limit
usable_limit_below global info h b = ground arith
usable_limit_below _ info h b = ground arith

-- On a device that reports at least 64 bytes of the memory asked for, the buffer leaves 64 bytes
-- of it free, is no larger than the request, and has whole rows of 128 elements; if the limit that
-- main sets or the request is below 16 GB, it is the largest with whole rows that is within that
-- limit, which for local memory on an accelerator is half of the memory, and within the request.
pub fitted_elems_largest :
    (mt : MemType) (info : Limits) (size : ℕ)
    → 64 ≤ type_limit mt info
    → type_limit mt info < 2 ^ 64
    → (buffer_size (fitted_elems (usable_limit mt info) size) + 64 ≤ type_limit mt info)
      × (buffer_size (fitted_elems (usable_limit mt info) size) ≤ size)
      × (fitted_elems (usable_limit mt info) size % 128 ≡ 0)
      × ((x : ℕ)
          → x % 512 ≡ 0
          → x ≤ usable_limit mt info
          → x ≤ size
          → (usable_limit mt info < 2 ^ 34) ⊎ (size < 2 ^ 34)
          → x ≤ buffer_size (fitted_elems (usable_limit mt info) size))
fitted_elems_largest mt info size h b =
    let (f, g, d) = fitted_elems_fits (usable_limit mt info) size in
    (
      omega (arith, usable_limit_below mt info h b),
      f,
      d,
      fitted_elems_greatest (usable_limit mt info) size,
    )

-- On a device that reports less than 64 bytes, and is no accelerator, the subtraction wraps and
-- no request below 2 ^ 63 bytes is cut to the device's memory.
pub usable_limit_wraps :
    (mt : MemType) (info : Limits) (size : ℕ)
    → type_limit mt info < 64
    → info.is_accelerator ≡ false
    → size < 2 ^ 63
    → (2 ^ 63 ≤ usable_limit mt info)
      × (fitted_elems (usable_limit mt info) size ≡ fitted_elems size size)
unfolding usable_limit fitted_elems
usable_limit_wraps global info size h a b = ground arith
usable_limit_wraps _ info size h a b = ground arith
