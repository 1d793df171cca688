-- ===== src/Bandwidth/Honest.antt =====
-- What the functions that measure a transfer do on an OpenCL that does what it is told: every call
-- succeeds, and a buffer shows what was last written, stored or copied into it.
use u_clbench.Base.{ℕ, ◌<◌, ◌≡◌, refl, ap, ◌∙◌, arith, Bool, false, List}
use u_clbench.Base.Int.{pos}
use u_clbench.Opencl.{buffer, release, write_buffer, Env, Session, returned, or_codes}
use u_clbench.Opencl.Triples.{After-return, Triple-bind, Triple-return, Triple-weaken, Triple-given}
use u_clbench.Opencl.Honest.{
  or_success, contents, update_self, Honest, Never, Works, Always, Shows, Works-call_only,
  Works-call, Works-return_if_failed, Works-new_or_return, Works-finish,
}
use u_clbench.Bandwidth.{
  Direction, host_to_device, device_to_host, device_to_device, measure, MemMode, AccessMode,
  measure_host_to_device, measure_device_to_host, measure_device_to_device,
}
use u_clbench.Bandwidth.Steps.{
  Works-check_transfer, Works-send_loop, Works-unmap_pinned, Works-release_pinned,
  Works-host_source, Works-host_target, Works-receive_loop, Works-check_same, Works-copy_loop,
}

module _ {F : Type 0} (differs : F → F → Bool) (same : (x : F) → differs x x ≡ false) (e : Env F)
    (good : Honest e) where
  Works-measure_host_to_device :
      (v : List F) (bytes n : ℕ) (mm : MemMode) (am : AccessMode)
      → 0 < n
      → Works e good Always
          (measure_host_to_device differs e v bytes n mm am)
          (λ x. Never e good e.success)
  unfolding measure_host_to_device
  Works-measure_host_to_device v bytes n mm am h =
      Triple-bind (Works-new_or_return e good (λ m. Unit) buffer bytes) λ d.
        Triple-bind (Works-host_source differs same e good mm bytes v) λ source. Triple-given λ q.
          Triple-bind (Works-finish e good (λ m. Unit)) λ x.
            Triple-bind
              (Triple-weaken (λ s p. (refl, λ z. absurd (omega arith)))
                (Works-send_loop differs same e good am d bytes v source.1 n e.success q))
              λ err. Triple-given λ r. Triple-bind (Works-finish e good (λ m. m d ≡ v)) λ x.
                Triple-bind (Works-unmap_pinned differs same e good (λ m. m d ≡ v) mm source.0) λ x.
                  Triple-bind (Works-finish e good (λ m. m d ≡ v)) λ x.
                    Triple-bind (Works-check_transfer differs same e good d bytes v) λ x.
                      Triple-bind (Works-release_pinned differs same e good mm source.0) λ x.
                        Triple-bind
                          (Works-call_only e good {Q = Always} (release buffer d) (λ s err p. tt))
                          λ x. Triple-return err (λ s p. r)

  Works-measure_device_to_host :
      (v : List F) (bytes n : ℕ) (mm : MemMode) (am : AccessMode)
      → Works e good Always
          (measure_device_to_host differs e v bytes n mm am)
          (λ x. Never e good e.success)
  unfolding measure_device_to_host
  Works-measure_device_to_host v bytes n mm am =
      Triple-bind (Works-new_or_return e good (λ m. Unit) buffer bytes) λ d.
        Triple-bind
          (Works-call e good {Q = Shows d v} (write_buffer d v)
            (λ s c p. update_self d v (contents s.log)))
          λ written. Triple-given λ q.
            Triple-bind (Works-host_target differs same e good (λ m. m d ≡ v) mm bytes written q)
              λ target. Triple-given λ q'. Triple-bind (Works-finish e good (λ m. m d ≡ v)) λ x.
                Triple-bind (Works-finish e good (λ m. m d ≡ v)) λ x.
                  Triple-bind
                    (Works-receive_loop differs same e good mm am d bytes v n target.1 v q' refl)
                    λ result. Triple-given λ r. Triple-given λ same_data.
                      Triple-bind (Works-finish e good (λ m. m d ≡ v)) λ x.
                        Triple-bind
                          (Works-unmap_pinned differs same e good (λ m. m d ≡ v) mm target.0)
                          λ x. Triple-bind (Works-finish e good (λ m. m d ≡ v)) λ x.
                            Triple-bind
                              (Works-check_same differs same e good d bytes v result.1 same_data)
                              λ x.
                                Triple-bind (Works-release_pinned differs same e good mm target.0)
                                  λ x.
                                    Triple-bind
                                      (Works-call_only e good {Q = Always} (release buffer d)
                                        (λ s err p. tt))
                                      λ x. Triple-return result.0 (λ s p. r)

  Works-measure_device_to_device :
      (v : List F) (bytes n : ℕ)
      → e.success ≡ pos 0
      → 0 < n
      → Works e good Always
          (measure_device_to_device differs e v bytes n)
          (λ x. Never e good e.success)
  unfolding measure_device_to_device
  Works-measure_device_to_device v bytes n zero_code h =
      Triple-bind (Works-new_or_return e good (λ m. Unit) buffer bytes) λ src.
        Triple-bind (Works-new_or_return e good (λ m. Unit) buffer bytes) λ dst.
          Triple-bind
            (Works-call e good {Q = Shows src v} (write_buffer src v)
              (λ s c p. update_self src v (contents s.log)))
            λ err. Triple-bind (Works-return_if_failed e good err) λ x.
              Triple-bind (Works-finish e good (λ m. m src ≡ v)) λ x.
                Triple-bind
                  (Triple-weaken (λ s p. (p, λ z. absurd (omega arith)))
                    (Works-copy_loop differs same e good src dst v n err))
                  λ copied. Triple-bind (Works-finish e good (λ m. m dst ≡ v)) λ x.
                    Triple-bind (Works-check_transfer differs same e good dst bytes v) λ x.
                      Triple-bind
                        (Works-call e good {Q = Always} (release buffer src) (λ s c p. tt))
                        λ err1. Triple-given λ q1.
                          Triple-bind
                            (Works-call e good {Q = Always} (release buffer dst) (λ s c p. tt))
                            λ err2.
                              Triple-return (or_codes err1 err2)
                                (λ s p. or_success err1 err2 e.success q1 p.0 zero_code)

  Works-measure :
      (way : Direction) (v : List F) (bytes n : ℕ) (mm : MemMode) (am : AccessMode)
      → e.success ≡ pos 0
      → 0 < n
      → Works e good Always (measure differs e way v bytes n mm am) (λ x. Never e good e.success)
  Works-measure host_to_device v bytes n mm am zero_code h =
      Works-measure_host_to_device v bytes n mm am h
  Works-measure device_to_host v bytes n mm am zero_code h =
      Works-measure_device_to_host v bytes n mm am
  Works-measure device_to_device v bytes n mm am zero_code h =
      Works-measure_device_to_device v bytes n zero_code h

  -- Where every call of OpenCL reports success, which is 0, where a buffer that is read or mapped
  -- shows what was last written, stored or copied into it, and no number differs from itself, each of
  -- the three functions that measure a transfer, in every mode, with at least one iteration,
  -- returns success: its check of the data that arrived does not exit.
  pub measure-returned :
      (way : Direction) (v : List F) (bytes n : ℕ) (mm : MemMode) (am : AccessMode) (s : Session F)
      → e.success ≡ pos 0
      → 0 < n
      → (measure differs e way v bytes n mm am s).0 ≡ returned e.success
  measure-returned way v bytes n mm am s zero_code h =
      let r =
        After-return (λ err. err ≡ e.success) (measure differs e way v bytes n mm am s).0
          (measure differs e way v bytes n mm am s).1
          ((Works-measure way v bytes n mm am zero_code h).runs s tt) in
      r.1.1 ∙ ap returned r.1.0
