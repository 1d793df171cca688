-- ===== src/Bandwidth.antt =====
-- The bandwidth benchmark, buffer_bandwidth/buffer_bandwidth.cpp: the three functions that measure
-- a direction of transfer, and what runs them. The times they take are left out.
pub mod Settings
pub mod Balance
pub mod Honest
pub mod Runs
pub mod Steps
use u_clbench.Base.{
  ℕ, zero, suc, ◌+◌, ◌-◌, ◌*◌, ◌%◌, ◌^◌, Bool, true, false, List, [], ◌∷◌, ◌||◌, ltb, if◌then◌else◌,
}
use u_clbench.Base.Int.{ℤ, pos, negsuc}
use u_clbench.Opencl.{
  Kind, context, queue, program, kernel, buffer, region, Call, create, release, write_buffer,
  read_buffer, copy_buffer, store, finish, Env, Session, Outcome, ok, returned, exited, Action,
  Done, pure, return_with, exit_with, ◌>>=◌, ◌>>◌, call, call_only, contents_seen, new_object,
  failed, return_if_failed, new_or_return, map_buffer, map_or_return, or_codes,
}

-- `_MemMode`
pub data MemMode : Type 0 where
  pinned pageable : MemMode

-- `_AccessMode`
pub data AccessMode : Type 0 where
  mapped direct : AccessMode

-- the three measurements of `run_benchmark`
pub data Direction : Type 0 where
  host_to_device device_to_host device_to_device : Direction

-- `differs a b` is `a != b` for two numbers that are transferred. `host_data` are the `size` numbers of
-- `data`, and `bytes` is `size * sizeof(cl_float)`.
module _ {F : Type 0} (differs : F → F → Bool) (e : Env F) where
  -- Some number of the second array, of those that were sent, differs from the one at its place in
  -- the first.
  unfoldable pub any_differs : List F → List F → Bool
  any_differs [] [] = false
  any_differs [] (y ∷ ys) = true
  any_differs (x ∷ xs) [] = false
  any_differs (x ∷ xs) (y ∷ ys) = differs x y || any_differs xs ys

  -- "get data back and check"
  unfoldable pub check_transfer : ℕ → ℕ → List F → Action F Done
  unfolding any_differs
  check_transfer d bytes host_data = do
    call_only e (read_buffer d bytes)
    check_data ← contents_seen e d
    (if any_differs check_data host_data then exit_with (negsuc 0) else pure tt)

  -- "if pinned, unmap"
  unfoldable pub unmap_pinned : MemMode → ℕ → Action F Done
  unmap_pinned pinned p = call_only e (release region p)
  unmap_pinned pageable p = pure tt

  unfoldable pub release_pinned : MemMode → ℕ → Action F Done
  release_pinned pinned p = call_only e (release buffer p)
  release_pinned pageable p = pure tt

  -- `pinned_hmem`, where there is one, and what `transfer_data` points to
  unfoldable pub host_source : MemMode → ℕ → List F → Action F (ℕ × List F)
  host_source pinned bytes host_data = do
    p ← new_or_return e buffer bytes
    map_or_return e p bytes
    call_only e (store p host_data)
    call_only e (release region p)
    map_or_return e p bytes
    transfer_data ← contents_seen e p
    pure (p, transfer_data)
  host_source pageable bytes host_data = pure (0, host_data)

  -- "actual transfer" to the device, with the rounds left and `err` before them
  unfoldable pub send_loop : AccessMode → ℕ → ℕ → List F → List F → ℕ → ℤ → Action F ℤ
  send_loop am d bytes host_data transfer_data zero err = pure err
  send_loop direct d bytes host_data transfer_data (suc n) err = do
    err' ← call e (write_buffer d transfer_data)
    return_if_failed e err' err'
    send_loop direct d bytes host_data transfer_data n err'
  send_loop mapped d bytes host_data transfer_data (suc n) err = do
    err' ← map_buffer e d bytes
    return_if_failed e err' err'
    call_only e (store d host_data)
    call_only e (release region d)
    send_loop mapped d bytes host_data transfer_data n err'

  unfoldable pub measure_host_to_device : List F → ℕ → ℕ → MemMode → AccessMode → Action F Done
  unfolding host_source send_loop unmap_pinned check_transfer release_pinned
  measure_host_to_device host_data bytes iterations mm am = do
    dmem ← new_or_return e buffer bytes
    source ← host_source mm bytes host_data
    call_only e finish
    err ← send_loop am dmem bytes host_data source.1 iterations e.success
    call_only e finish
    unmap_pinned mm source.0
    call_only e finish
    check_transfer dmem bytes host_data
    release_pinned mm source.0
    call_only e (release buffer dmem)
    return_with err

  -- `pinned_hmem`, where there is one, and `err`
  unfoldable pub host_target : MemMode → ℕ → ℤ → Action F (ℕ × ℤ)
  host_target pinned bytes err = do
    p ← new_or_return e buffer bytes
    map_or_return e p bytes
    pure (p, e.success)
  host_target pageable bytes err = pure (0, err)

  -- what `data` holds behind a transfer into `transfer_data`
  abbrev received : MemMode → List F → List F → List F
  received pinned arrived host_data = host_data
  received pageable arrived host_data = arrived

  -- "actual transfer" from the device: `err` and `data` behind it
  unfoldable pub receive_loop :
      MemMode → AccessMode → ℕ → ℕ → ℕ → ℤ → List F → Action F (ℤ × List F)
  receive_loop mm am d bytes zero err host_data = pure (err, host_data)
  receive_loop mm direct d bytes (suc n) err host_data = do
    err' ← call e (read_buffer d bytes)
    return_if_failed e err' err'
    arrived ← contents_seen e d
    receive_loop mm direct d bytes n err' (received mm arrived host_data)
  receive_loop mm mapped d bytes (suc n) err host_data = map_buffer e d bytes >>= λ err'.
      if failed e err' then receive_loop mm mapped d bytes n err' host_data else (do
        arrived ← contents_seen e d
        call_only e (release region d)
        receive_loop mm mapped d bytes n err' arrived)

  unfoldable pub measure_device_to_host : List F → ℕ → ℕ → MemMode → AccessMode → Action F Done
  unfolding host_target receive_loop unmap_pinned check_transfer release_pinned
  measure_device_to_host host_data bytes iterations mm am = do
    dmem ← new_or_return e buffer bytes
    written ← call e (write_buffer dmem host_data)
    target ← host_target mm bytes written
    call_only e finish
    call_only e finish
    result ← receive_loop mm am dmem bytes iterations target.1 host_data
    call_only e finish
    unmap_pinned mm target.0
    call_only e finish
    check_transfer dmem bytes result.1
    release_pinned mm target.0
    call_only e (release buffer dmem)
    return_with result.0

  -- "actual transfer" on the device
  unfoldable pub copy_loop : ℕ → ℕ → ℕ → ℤ → Action F ℤ
  copy_loop src dst zero err = pure err
  copy_loop src dst (suc n) err = do err' ← call e (copy_buffer src dst); copy_loop src dst n err'

  unfoldable pub measure_device_to_device : List F → ℕ → ℕ → Action F Done
  unfolding copy_loop check_transfer or_codes
  measure_device_to_device host_data bytes iterations = do
    src ← new_or_return e buffer bytes
    dst ← new_or_return e buffer bytes
    err ← call e (write_buffer src host_data)
    return_if_failed e err err
    call_only e finish
    copied ← copy_loop src dst iterations err
    call_only e finish
    check_transfer dst bytes host_data
    err1 ← call e (release buffer src)
    err2 ← call e (release buffer dst)
    return_with (or_codes err1 err2)

  -- what `run_benchmark` calls for each of its measurements
  abbrev pub measure : Direction → List F → ℕ → ℕ → MemMode → AccessMode → Action F Done
  measure host_to_device host_data bytes iterations mm am =
      measure_host_to_device host_data bytes iterations mm am
  measure device_to_host host_data bytes iterations mm am =
      measure_device_to_host host_data bytes iterations mm am
  measure device_to_device host_data bytes iterations mm am =
      measure_device_to_device host_data bytes iterations
