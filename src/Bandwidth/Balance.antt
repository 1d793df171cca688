-- ===== src/Bandwidth/Balance.antt =====
-- A function that measures a transfer gives back what it took, where it reports success.
use u_clbench.Base.{ℕ, zero, suc, ◌≡◌, refl, Bool, List, ◌∷◌}
use u_clbench.Base.Int.{ℤ, negsuc}
use u_clbench.Opencl.{
  or_codes, buffer, region, write_buffer, read_buffer, copy_buffer, store, finish, Env, Session,
  failed, returned,
}
use u_clbench.Opencl.Held.{
  Holds, Keeps, Keeps-call, Keeps-call_only, Keeps-release, Keeps-return_if_failed,
  Keeps-new_or_return, Keeps-map_or_return, Keeps-map_buffer, Created-return_if_failed,
  Created-failed, Created-succeeded, Keeps-contents_seen, Keeps-pure, Keeps-return, Keeps-exit,
  Keeps-release_second, Keeps-call_release, Keeps-held, held, Released,
}
use u_clbench.Opencl.Objects.{Object}
use u_clbench.Opencl.Triples.{Triple-bind, Triple-if, Triple-pure, Triple-weaken}
use u_clbench.Bandwidth.{
  Direction, host_to_device, device_to_host, device_to_device, measure, MemMode, pinned, pageable,
  AccessMode, mapped, direct, any_differs, check_transfer, unmap_pinned, release_pinned,
  host_source, send_loop, measure_host_to_device, host_target, received, receive_loop,
  measure_device_to_host, copy_loop, measure_device_to_device,
}

-- with the pinned buffer, and with its region too
abbrev with_buffer : MemMode → ℕ → List Object → List Object
with_buffer pinned p os = (buffer, p) ∷ os
with_buffer pageable p os = os

abbrev with_region : MemMode → ℕ → List Object → List Object
with_region pinned p os = (region, p) ∷ (buffer, p) ∷ os
with_region pageable p os = os

module _ {F : Type 0} (differs : F → F → Bool) (e : Env F) (before : List Object) where
  unmap_pinned-Keeps :
      (os : List Object) (mm : MemMode) (p : ℕ)
      → Keeps e
          (Holds e before)
          (with_region mm p os)
          (unmap_pinned differs e mm p)
          (λ d. with_buffer mm p os)
  unfolding unmap_pinned
  unmap_pinned-Keeps os pinned p = Keeps-release e (Holds e before) _ region p
  unmap_pinned-Keeps os pageable p = Keeps-pure e (Holds e before) os tt

  release_pinned-Keeps :
      (os : List Object) (mm : MemMode) (p : ℕ)
      → Keeps e (Holds e before) (with_buffer mm p os) (release_pinned differs e mm p) (λ d. os)
  unfolding release_pinned
  release_pinned-Keeps os pinned p = Keeps-release e (Holds e before) os buffer p
  release_pinned-Keeps os pageable p = Keeps-pure e (Holds e before) os tt

  check_transfer-Keeps :
      (os : List Object) (d bytes : ℕ) (host_data : List F)
      → Keeps e (Holds e before) os (check_transfer differs e d bytes host_data) (λ d. os)
  unfolding check_transfer
  check_transfer-Keeps os d bytes host_data =
      Triple-bind (Keeps-call_only e (Holds e before) os (read_buffer d bytes) refl) λ x.
        Triple-bind (Keeps-contents_seen e (Holds e before) os d) λ check_data.
          Triple-if (any_differs differs e check_data host_data)
            (λ c. Keeps-exit e (Holds e before) os (λ d. os) (negsuc 0))
            (λ c. Keeps-pure e (Holds e before) os tt)

  host_source-Keeps :
      (os : List Object) (mm : MemMode) (bytes : ℕ) (host_data : List F)
      → Keeps e
          (Holds e before)
          os
          (host_source differs e mm bytes host_data)
          (λ source. with_region mm source.0 os)
  unfolding host_source
  host_source-Keeps os pinned bytes host_data =
      Triple-bind (Keeps-new_or_return e (Holds e before) os buffer bytes) λ p.
        Triple-bind (Keeps-map_or_return e (Holds e before) _ p bytes) λ x.
          Triple-bind (Keeps-call_only e (Holds e before) _ (store p host_data) refl) λ x.
            Triple-bind (Keeps-release e (Holds e before) _ region p) λ x.
              Triple-bind (Keeps-map_or_return e (Holds e before) _ p bytes) λ x.
                Triple-bind (Keeps-contents_seen e (Holds e before) _ p)
                  λ transfer_data. Triple-pure (p, transfer_data) (λ s h. h)
  host_source-Keeps os pageable bytes host_data = Triple-pure (0, host_data) (λ s h. h)

  send_loop-Keeps :
      (os : List Object) (am : AccessMode) (d bytes : ℕ) (host_data transfer_data : List F) (n : ℕ)
      (err : ℤ)
      → Keeps e
          (Holds e before)
          os
          (send_loop differs e am d bytes host_data transfer_data n err)
          (λ err'. os)
  unfolding send_loop
  send_loop-Keeps os am d bytes host_data transfer_data zero err =
      Keeps-pure e (Holds e before) os err
  send_loop-Keeps os direct d bytes host_data transfer_data (suc n) err =
      Triple-bind (Keeps-call e (Holds e before) os (write_buffer d transfer_data) refl) λ err'.
        Triple-bind (Keeps-return_if_failed e (Holds e before) os err')
          λ x. send_loop-Keeps os direct d bytes host_data transfer_data n err'
  send_loop-Keeps os mapped d bytes host_data transfer_data (suc n) err =
      Triple-bind (Keeps-map_buffer e (Holds e before) os d bytes) λ err'.
        Triple-bind (Created-return_if_failed e (Holds e before) (region, d) os err') λ x.
          Triple-bind (Keeps-call_only e (Holds e before) _ (store d host_data) refl) λ x.
            Triple-bind (Keeps-release e (Holds e before) os region d)
              λ x. send_loop-Keeps os mapped d bytes host_data transfer_data n err'

  -- what a host-to-device measurement does
  pub measure_host_to_device-Keeps :
      (host_data : List F) (bytes iterations : ℕ) (mm : MemMode) (am : AccessMode)
      → Keeps e
          (Holds e before)
          before
          (measure_host_to_device differs e host_data bytes iterations mm am)
          (λ d. before)
  unfolding measure_host_to_device
  measure_host_to_device-Keeps host_data bytes iterations mm am =
      Triple-bind (Keeps-new_or_return e (Holds e before) before buffer bytes) λ dmem.
        Triple-bind (host_source-Keeps _ mm bytes host_data) λ source.
          Triple-bind (Keeps-call_only e (Holds e before) _ finish refl) λ x.
            Triple-bind (send_loop-Keeps _ am dmem bytes host_data source.1 iterations e.success)
              λ err. Triple-bind (Keeps-call_only e (Holds e before) _ finish refl) λ x.
                Triple-bind (unmap_pinned-Keeps _ mm source.0) λ x.
                  Triple-bind (Keeps-call_only e (Holds e before) _ finish refl) λ x.
                    Triple-bind (check_transfer-Keeps _ dmem bytes host_data) λ x.
                      Triple-bind (release_pinned-Keeps _ mm source.0) λ x.
                        Triple-bind (Keeps-release e (Holds e before) before buffer dmem)
                          λ x. Keeps-return e before (λ d. before) err

  host_target-Keeps :
      (os : List Object) (mm : MemMode) (bytes : ℕ) (err : ℤ)
      → Keeps e
          (Holds e before)
          os
          (host_target differs e mm bytes err)
          (λ target. with_region mm target.0 os)
  unfolding host_target
  host_target-Keeps os pinned bytes err =
      Triple-bind (Keeps-new_or_return e (Holds e before) os buffer bytes) λ p.
        Triple-bind (Keeps-map_or_return e (Holds e before) _ p bytes)
          λ x. Triple-pure (p, e.success) (λ s h. h)
  host_target-Keeps os pageable bytes err = Triple-pure (0, err) (λ s h. h)

  receive_loop-Keeps :
      (os : List Object) (mm : MemMode) (am : AccessMode) (d bytes n : ℕ) (err : ℤ)
      (host_data : List F)
      → Keeps e (Holds e before) os (receive_loop differs e mm am d bytes n err host_data) (λ r. os)
  unfolding receive_loop
  receive_loop-Keeps os mm am d bytes zero err host_data =
      Keeps-pure e (Holds e before) os (err, host_data)
  receive_loop-Keeps os mm direct d bytes (suc n) err host_data =
      Triple-bind (Keeps-call e (Holds e before) os (read_buffer d bytes) refl) λ err'.
        Triple-bind (Keeps-return_if_failed e (Holds e before) os err') λ x.
          Triple-bind (Keeps-contents_seen e (Holds e before) os d) λ arrived.
            receive_loop-Keeps os mm direct d bytes n err' (received differs e mm arrived host_data)
  receive_loop-Keeps os mm mapped d bytes (suc n) err host_data =
      Triple-bind (Keeps-map_buffer e (Holds e before) os d bytes) λ err'.
        Triple-if (failed e err')
          (λ f.
            Triple-weaken (λ s h. Created-failed e (Holds e before) (region, d) os err' s f h)
              (receive_loop-Keeps os mm mapped d bytes n err' host_data))
          (λ f.
            Triple-weaken (λ s h. Created-succeeded e (Holds e before) (region, d) os err' s f h)
              (Triple-bind (Keeps-contents_seen e (Holds e before) _ d) λ arrived.
                Triple-bind (Keeps-release e (Holds e before) os region d)
                  λ x. receive_loop-Keeps os mm mapped d bytes n err' arrived))

  pub measure_device_to_host-Keeps :
      (host_data : List F) (bytes iterations : ℕ) (mm : MemMode) (am : AccessMode)
      → Keeps e
          (Holds e before)
          before
          (measure_device_to_host differs e host_data bytes iterations mm am)
          (λ d. before)
  unfolding measure_device_to_host
  measure_device_to_host-Keeps host_data bytes iterations mm am =
      Triple-bind (Keeps-new_or_return e (Holds e before) before buffer bytes) λ dmem.
        Triple-bind (Keeps-call e (Holds e before) _ (write_buffer dmem host_data) refl) λ written.
          Triple-bind (host_target-Keeps _ mm bytes written) λ target.
            Triple-bind (Keeps-call_only e (Holds e before) _ finish refl) λ x.
              Triple-bind (Keeps-call_only e (Holds e before) _ finish refl) λ x.
                Triple-bind (receive_loop-Keeps _ mm am dmem bytes iterations target.1 host_data)
                  λ result. Triple-bind (Keeps-call_only e (Holds e before) _ finish refl) λ x.
                    Triple-bind (unmap_pinned-Keeps _ mm target.0) λ x.
                      Triple-bind (Keeps-call_only e (Holds e before) _ finish refl) λ x.
                        Triple-bind (check_transfer-Keeps _ dmem bytes result.1) λ x.
                          Triple-bind (release_pinned-Keeps _ mm target.0) λ x.
                            Triple-bind (Keeps-release e (Holds e before) before buffer dmem)
                              λ x. Keeps-return e before (λ d. before) result.0

  copy_loop-Keeps :
      (os : List Object) (src dst n : ℕ) (err : ℤ)
      → Keeps e (Holds e before) os (copy_loop differs e src dst n err) (λ err'. os)
  unfolding copy_loop
  copy_loop-Keeps os src dst zero err = Keeps-pure e (Holds e before) os err
  copy_loop-Keeps os src dst (suc n) err =
      Triple-bind (Keeps-call e (Holds e before) os (copy_buffer src dst) refl)
        λ err'. copy_loop-Keeps os src dst n err'

  measure_device_to_device-Keeps :
      (host_data : List F) (bytes iterations : ℕ)
      → Keeps e
          (Holds e before)
          before
          (measure_device_to_device differs e host_data bytes iterations)
          (λ d. before)
  unfolding measure_device_to_device
  measure_device_to_device-Keeps host_data bytes iterations =
      Triple-bind (Keeps-new_or_return e (Holds e before) before buffer bytes) λ src.
        Triple-bind (Keeps-new_or_return e (Holds e before) _ buffer bytes) λ dst.
          Triple-bind (Keeps-call e (Holds e before) _ (write_buffer src host_data) refl) λ err.
            Triple-bind (Keeps-return_if_failed e (Holds e before) _ err) λ x.
              Triple-bind (Keeps-call_only e (Holds e before) _ finish refl) λ x.
                Triple-bind (copy_loop-Keeps _ src dst iterations err) λ copied.
                  Triple-bind (Keeps-call_only e (Holds e before) _ finish refl) λ x.
                    Triple-bind (check_transfer-Keeps _ dst bytes host_data) λ x.
                      Triple-bind (Keeps-release_second e (Holds e before) before buffer dst src)
                        λ err1.
                          Triple-bind (Keeps-call_release e (Holds e before) before buffer dst)
                            λ err2. Keeps-return e before (λ d. before) (or_codes err1 err2)

module _ {F : Type 0} (differs : F → F → Bool) (e : Env F) where
  measure-Keeps :
      (before : List Object) (way : Direction) (host_data : List F) (bytes iterations : ℕ)
      (mm : MemMode) (am : AccessMode)
      → Keeps e
          (Holds e before)
          before
          (measure differs e way host_data bytes iterations mm am)
          (λ d. before)
  measure-Keeps before host_to_device host_data bytes iterations mm am =
      measure_host_to_device-Keeps differs e before host_data bytes iterations mm am
  measure-Keeps before device_to_host host_data bytes iterations mm am =
      measure_device_to_host-Keeps differs e before host_data bytes iterations mm am
  measure-Keeps before device_to_device host_data bytes iterations mm am =
      measure_device_to_device-Keeps differs e before host_data bytes iterations

  -- Each of the three functions that measure a transfer, in every mode, on data of any size and
  -- with any number of iterations, where it returns success and every release and unmapping in the
  -- log reported success, has given back every buffer that it created and every region that it
  -- mapped, whatever error codes OpenCL gave to the other calls on the way: the same objects are
  -- held as when it was called.
  pub measure-held :
      (way : Direction) (host_data : List F) (bytes iterations : ℕ) (mm : MemMode) (am : AccessMode)
      (s : Session F)
      → (measure differs e way host_data bytes iterations mm am s).0 ≡ returned e.success
      → Released e.success (measure differs e way host_data bytes iterations mm am s).1.log
      → held e.success (measure differs e way host_data bytes iterations mm am s).1.log
        ≡ held e.success s.log
  measure-held way host_data bytes iterations mm am s h r =
      Keeps-held e _ (λ b d. b) (λ b. measure-Keeps b way host_data bytes iterations mm am) s h r
