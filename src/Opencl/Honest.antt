-- ===== src/Opencl/Honest.antt =====
-- An OpenCL that does what it is told: every call succeeds, and a buffer shows what was last
-- written, stored or copied into it. Code on it returns nothing but success and does not exit.
use u_clbench.Base.{
  ℕ, ◌≡◌, refl, sym, ◌∙◌, List, [], ◌∷◌, ◌==◌, ==_self, Bool-cases, inl, inr, if◌then◌else◌,
}
use u_clbench.Base.Int.{ℤ, pos}
use u_clbench.Opencl.{
  Kind, region, Call, create, write_buffer, copy_buffer, store, finish, Log, Env, Session, Action,
  call, call_only, return_if_failed, new_or_return, map_buffer, map_or_return, contents_seen,
  or_codes,
}
use u_clbench.Opencl.Triples.{
  Triple, Triple-bind, Triple-pure, Triple-call, Triple-call_only, Triple-return_if_failed,
  Triple-new_object,
}

-- CL_SUCCESS is 0.
pub or_success : (a b c : ℤ) → a ≡ c → b ≡ c → c ≡ pos 0 → or_codes a b ≡ c
unfolding or_codes
or_success a b c p q r =
    let a0 : a ≡ pos 0 = p ∙ r in let b0 : b ≡ pos 0 = q ∙ r in rw (a0, b0) (sym r)

-- what the buffers hold behind a log
abbrev pub update : {F : Type 0} → ℕ → List F → (ℕ → List F) → ℕ → List F
update b v memory c = if b == c then v else memory c

abbrev pub contents : {F : Type 0} → Log F → ℕ → List F
contents [] = λ b. []
contents ((write_buffer b v, err) ∷ log) = update b v (contents log)
contents ((store b v, err) ∷ log) = update b v (contents log)
contents ((copy_buffer a b, err) ∷ log) = update b (contents log a) (contents log)
contents (entry ∷ log) = contents log

pub update_self : {F : Type 0} (b : ℕ) (v : List F) (memory : ℕ → List F) → update b v memory b ≡ v
update_self b v memory = rw (==_self b) refl

-- A copy of what another buffer holds leaves that one as it is.
pub update-source :
    {F : Type 0} (b c : ℕ) (v : List F) (memory : ℕ → List F)
    → memory c ≡ v
    → update b (memory c) memory c ≡ v
update-source b c v memory h = elim (Bool-cases (b == c)) [ inl p ↦ rw p h | inr p ↦ rw p h ]

module _ {F : Type 0} where
  abbrev pub Always : Session F → Type 0
  Always s = Unit

  abbrev pub Shows : ℕ → List F → Session F → Type 0
  Shows b v s = contents s.log b ≡ v

pub record Honest {F : Type 0} (e : Env F) : Type 0 where
  pub answers : (log : Log F) (c : Call F) → e.status log c ≡ e.success
  pub shows : (log : Log F) (b : ℕ) → e.seen log b ≡ contents log b

module _ {F : Type 0} (e : Env F) (good : Honest e) where
  abbrev pub Succeeds : ℤ → Session F → Type 0
  Succeeds err s = err ≡ e.success

  abbrev pub Never : ℤ → Session F → Type 0
  Never code s = ⊥

  -- a triple of code that returns nothing but success and does not exit
  abbrev pub Works :
      {A : Type 0} → (Session F → Type 0) → Action F A → (A → Session F → Type 0) → Type 0
  Works P m Q = Triple Succeeds Never P m Q

  -- a call that leaves the contents
  pub Works-call_only :
      {P : Session F → Type 0} {Q : Session F → Type 0} (c : Call F)
      → ((s : Session F) (err : ℤ) → P s → Q (record s { log = (c, err) ∷ s.log }))
      → Works P (call_only e c) (λ x. Q)
  Works-call_only c h = Triple-call_only e c (λ s err p w. h s err p)

  pub Works-call :
      {P : Session F → Type 0} {Q : Session F → Type 0} (c : Call F)
      → ((s : Session F) (err : ℤ) → P s → Q (record s { log = (c, err) ∷ s.log }))
      → Works P (call e c) (λ err s. (err ≡ e.success) × Q s)
  Works-call c h = Triple-call e c (λ s err p w. (w ∙ good.answers s.log c, h s err p))

  pub Works-return_if_failed :
      {Q : Session F → Type 0} (err : ℤ)
      → Works (λ s. (err ≡ e.success) × Q s) (return_if_failed e err err) (λ x. Q)
  Works-return_if_failed err = Triple-return_if_failed e err err (λ s p f. p.0) (λ s p f. p.1)

  -- the same, where the code is looked at again
  pub Works-go_on :
      {Q : Session F → Type 0} (err : ℤ)
      → Works
          (λ s. (err ≡ e.success) × Q s)
          (return_if_failed e err err)
          (λ x s. (err ≡ e.success) × Q s)
  Works-go_on err = Triple-return_if_failed e err err (λ s p f. p.0) (λ s p f. p)

  pub Works-new_or_return :
      (T : (ℕ → List F) → Type 0) (k : Kind) (bytes : ℕ)
      → Works (λ s. T (contents s.log)) (new_or_return e k bytes) (λ o s. T (contents s.log))
  unfolding new_or_return
  Works-new_or_return T k bytes =
      Triple-bind {Q = λ x s. (x.1 ≡ e.success) × T (contents s.log)}
        (Triple-new_object e k bytes (λ s err p w. (w ∙ good.answers s.log _, p)))
        (λ x. Triple-bind (Works-return_if_failed x.1) (λ d. Triple-pure x.0 (λ s p. p)))

  pub Works-map_buffer :
      (T : (ℕ → List F) → Type 0) (b bytes : ℕ)
      → Works
          (λ s. T (contents s.log))
          (map_buffer e b bytes)
          (λ err s. (err ≡ e.success) × T (contents s.log))
  unfolding map_buffer
  Works-map_buffer T b bytes = Works-call (create region b bytes) (λ s err p. p)

  pub Works-map_or_return :
      (T : (ℕ → List F) → Type 0) (b bytes : ℕ)
      → Works (λ s. T (contents s.log)) (map_or_return e b bytes) (λ x s. T (contents s.log))
  unfolding map_or_return
  Works-map_or_return T b bytes =
      Triple-bind (Works-map_buffer T b bytes) (λ err. Works-return_if_failed err)

  pub Works-contents_seen :
      (b : ℕ) (v : List F) → Works (Shows b v) (contents_seen e b) (λ w s. (w ≡ v) × Shows b v s)
  unfolding contents_seen
  Works-contents_seen b v = record { runs = λ s p. (good.shows s.log b ∙ p, p) }

  pub Works-finish :
      (T : (ℕ → List F) → Type 0)
      → Works (λ s. T (contents s.log)) (call_only e finish) (λ x s. T (contents s.log))
  Works-finish T = Works-call_only finish (λ s err p. p)
