-- ===== src/Bandwidth/Steps.antt =====
-- The parts of the measuring functions on an OpenCL that does what it is told.
use u_clbench.Base.{ℕ, zero, suc, ◌≡◌, refl, ◌∙◌, Bool, true, false, List, [], ◌∷◌}
use u_clbench.Base.Int.{ℤ, negsuc}
use u_clbench.Opencl.{
  buffer, region, release, write_buffer, read_buffer, copy_buffer, store, Env, failed,
}
use u_clbench.Opencl.Triples.{
  Triple-bind, Triple-if, Triple-pure, Triple-exit, Triple-weaken, Triple-given, Triple-call,
}
use u_clbench.Opencl.Honest.{
  contents, update_self, update-source, Honest, Works, Always, Shows, Works-call_only, Works-call,
  Works-return_if_failed, Works-go_on, Works-new_or_return, Works-map_buffer, Works-map_or_return,
  Works-contents_seen,
}
use u_clbench.Bandwidth.{
  MemMode, pinned, pageable, AccessMode, mapped, direct, any_differs, check_transfer, unmap_pinned,
  release_pinned, host_source, send_loop, host_target, received, receive_loop, copy_loop,
}

module _ {F : Type 0} (differs : F → F → Bool) (same : (x : F) → differs x x ≡ false) (e : Env F)
    (good : Honest e) where
  any_differs_self : (v : List F) → any_differs differs e v v ≡ false
  unfolding any_differs
  any_differs_self [] = refl
  any_differs_self (x ∷ v) = rw (same x) (any_differs_self v)

  differs-⊥ : (w v : List F) → w ≡ v → any_differs differs e w v ≡ true → ⊥
  differs-⊥ w v p c = let h : any_differs differs e w v ≡ false = rw p (any_differs_self v) in cc

  pub Works-check_transfer :
      (d bytes : ℕ) (v : List F)
      → Works e good (Shows d v) (check_transfer differs e d bytes v) (λ x. Always)
  unfolding check_transfer
  Works-check_transfer d bytes v =
      Triple-bind (Works-call_only e good (read_buffer d bytes) (λ s err p. p)) λ x.
        Triple-bind (Works-contents_seen e good d v) λ check_data.
          Triple-if (any_differs differs e check_data v)
            (λ c. Triple-exit (negsuc 0) (λ s p. absurd (differs-⊥ check_data v p.0 c)))
            (λ c. Triple-pure tt (λ s p. tt))

  -- every transfer leaves the data in the buffer
  pub Works-send_loop :
      (am : AccessMode) (d bytes : ℕ) (v w : List F) (n : ℕ) (err : ℤ)
      → w ≡ v
      → Works e good
          (λ s. (err ≡ e.success) × (n ≡ 0 → Shows d v s))
          (send_loop differs e am d bytes v w n err)
          (λ err' s. (err' ≡ e.success) × Shows d v s)
  unfolding send_loop
  Works-send_loop am d bytes v w zero err q = Triple-pure err (λ s p. (p.0, p.1 refl))
  Works-send_loop direct d bytes v w (suc n) err q =
      Triple-bind
        (Works-call e good {Q = Shows d v} (write_buffer d w)
          (λ s err' p. update_self d w (contents s.log) ∙ q))
        λ err'.
          Triple-bind (Works-go_on e good err') λ x.
            Triple-weaken (λ s p. (p.0, λ z. p.1)) (Works-send_loop direct d bytes v w n err' q)
  Works-send_loop mapped d bytes v w (suc n) err q =
      Triple-bind (Triple-weaken (λ s p. tt) (Works-map_buffer e good (λ m. Unit) d bytes)) λ err'.
        Triple-bind (Works-go_on e good err') λ x.
          Triple-bind
            (Works-call_only e good {Q = λ s. (err' ≡ e.success) × (n ≡ 0 → Shows d v s)}
              (store d v) (λ s c p. (p.0, λ z. update_self d v (contents s.log))))
            λ x.
              Triple-bind (Works-call_only e good (release region d) (λ s c p. p))
                λ x. Works-send_loop mapped d bytes v w n err' q

  pub Works-unmap_pinned :
      (T : (ℕ → List F) → Type 0) (mm : MemMode) (p : ℕ)
      → Works e good
          (λ s. T (contents s.log))
          (unmap_pinned differs e mm p)
          (λ x s. T (contents s.log))
  unfolding unmap_pinned
  Works-unmap_pinned T pinned p = Works-call_only e good (release region p) (λ s err h. h)
  Works-unmap_pinned T pageable p = Triple-pure tt (λ s h. h)

  pub Works-release_pinned :
      (mm : MemMode) (p : ℕ) → Works e good Always (release_pinned differs e mm p) (λ x. Always)
  unfolding release_pinned
  Works-release_pinned pinned p = Works-call_only e good (release buffer p) (λ s err h. tt)
  Works-release_pinned pageable p = Triple-pure tt (λ s h. tt)

  pub Works-host_source :
      (mm : MemMode) (bytes : ℕ) (v : List F)
      → Works e good Always
          (host_source differs e mm bytes v)
          (λ source s. (source.1 ≡ v) × Always s)
  unfolding host_source
  Works-host_source pinned bytes v =
      Triple-bind (Works-new_or_return e good (λ m. Unit) buffer bytes) λ p.
        Triple-bind (Works-map_or_return e good (λ m. Unit) p bytes) λ x.
          Triple-bind
            (Works-call_only e good {Q = Shows p v} (store p v)
              (λ s err h. update_self p v (contents s.log)))
            λ x. Triple-bind (Works-call_only e good (release region p) (λ s err h. h)) λ x.
              Triple-bind (Works-map_or_return e good (λ m. m p ≡ v) p bytes) λ x.
                Triple-bind (Works-contents_seen e good p v)
                  λ transfer_data. Triple-pure (p, transfer_data) (λ s h. (h.0, tt))
  Works-host_source pageable bytes v = Triple-pure (0, v) (λ s h. (refl, tt))

  pub Works-host_target :
      (T : (ℕ → List F) → Type 0) (mm : MemMode) (bytes : ℕ) (err : ℤ)
      → err ≡ e.success
      → Works e good
          (λ s. T (contents s.log))
          (host_target differs e mm bytes err)
          (λ target s. (target.1 ≡ e.success) × T (contents s.log))
  unfolding host_target
  Works-host_target T pinned bytes err q =
      Triple-bind (Works-new_or_return e good T buffer bytes) λ p.
        Triple-bind (Works-map_or_return e good T p bytes)
          λ x. Triple-pure (p, e.success) (λ s h. (refl, h))
  Works-host_target T pageable bytes err q = Triple-pure (0, err) (λ s h. (q, h))

  received_same :
      (mm : MemMode) (v w host_data : List F)
      → w ≡ v
      → host_data ≡ v
      → received differs e mm w host_data ≡ v
  received_same pinned v w host_data p q = q
  received_same pageable v w host_data p q = p

  -- The host has the data behind the loop as before it.
  pub Works-receive_loop :
      (mm : MemMode) (am : AccessMode) (d bytes : ℕ) (v : List F) (n : ℕ) (err : ℤ)
      (host_data : List F)
      → err ≡ e.success
      → host_data ≡ v
      → Works e good
          (Shows d v)
          (receive_loop differs e mm am d bytes n err host_data)
          (λ r s. (r.0 ≡ e.success) × ((r.1 ≡ v) × Shows d v s))
  unfolding receive_loop
  Works-receive_loop mm am d bytes v zero err host_data q h =
      Triple-pure (err, host_data) (λ s p. (q, (h, p)))
  Works-receive_loop mm direct d bytes v (suc n) err host_data q h =
      Triple-bind (Works-call e good (read_buffer d bytes) (λ s c p. p)) λ err'. Triple-given λ q'.
        Triple-bind (Triple-weaken (λ s p. (q', p)) (Works-return_if_failed e good err')) λ x.
          Triple-bind (Works-contents_seen e good d v) λ arrived. Triple-given λ a.
            Works-receive_loop mm direct d bytes v n err' (received differs e mm arrived host_data)
              q' (received_same mm v arrived host_data a h)
  Works-receive_loop mm mapped d bytes v (suc n) err host_data q h =
      Triple-bind (Works-map_buffer e good (λ m. m d ≡ v) d bytes) λ err'. Triple-given λ q'.
        Triple-if (failed e err')
          (λ f. Works-receive_loop mm mapped d bytes v n err' host_data q' h)
          (λ f. Triple-bind (Works-contents_seen e good d v) λ arrived. Triple-given λ a.
            Triple-bind (Works-call_only e good (release region d) (λ s c p. p))
              λ x. Works-receive_loop mm mapped d bytes v n err' arrived q' a)

  pub Works-check_same :
      (d bytes : ℕ) (v w : List F)
      → w ≡ v
      → Works e good (Shows d v) (check_transfer differs e d bytes w) (λ x. Always)
  Works-check_same d bytes v w q = rw q (Works-check_transfer d bytes v)

  pub Works-copy_loop :
      (src dst : ℕ) (v : List F) (n : ℕ) (err : ℤ)
      → Works e good
          (λ s. Shows src v s × (n ≡ 0 → Shows dst v s))
          (copy_loop differs e src dst n err)
          (λ err'. Shows dst v)
  unfolding copy_loop
  Works-copy_loop src dst v zero err = Triple-pure err (λ s p. p.1 refl)
  Works-copy_loop src dst v (suc n) err =
      Triple-bind
        (Triple-call e (copy_buffer src dst) (λ s c p w. (
          update-source dst src v (contents s.log) p.0,
          λ z. update_self dst (contents s.log src) (contents s.log) ∙ p.0,
        )))
        λ err'. Works-copy_loop src dst v n err'
