-- ===== src/Opencl/Held.antt =====
-- The objects that were created and the regions that were mapped, and not given back. A release or
-- an unmapping that fails gives nothing back.
use u_clbench.Base.{
  none, some, ℕ, ◌≡◌, refl, ◌∙◌, ap, arith, Bool, true, false, List, [], ◌∷◌, if◌then◌else◌,
}
use u_clbench.Base.Int.{ℤ, ◌==ℤ◌, ==ℤ_iff, ==ℤ_self}
use u_clbench.Opencl.{
  Kind, region, Call, create, release, write_buffer, read_buffer, copy_buffer, store,
  set_kernel_arg, build_program, enqueue_kernel, finish, flush, set_kernel_value, get_profiling,
  wait_for_events, Log, Env, Session, returned, Action, pure, call, call_only, failed,
  return_if_failed, new_or_return, map_buffer, map_or_return, contents_seen, new_or_fail,
  new_or_null, start_or_fail, with_event, event, return_with, exit_with,
}
use u_clbench.Opencl.Triples.{
  Triple, Triple-bind, Triple-pure, Triple-call, Triple-call_only, Triple-return_if_failed,
  Triple-new_object, Triple-with_event, Triple-return, Triple-exit, After-returned,
}
use u_clbench.Opencl.Objects.{Object, without, or_none, without-head, without-second}

-- behind a log, the latest first
abbrev pub held : {F : Type 0} → ℤ → Log F → List Object
held success [] = []
held success ((create k o bytes, err) ∷ log) =
    if err ==ℤ success then (k, o) ∷ held success log else held success log
held success ((release k o, err) ∷ log) =
    if err ==ℤ success then without (k, o) (held success log) else held success log
held success (entry ∷ log) = held success log

-- Every release and every unmapping in the log reported success.
abbrev pub Released : {F : Type 0} → ℤ → Log F → Type 0
Released success [] = Unit
Released success ((release k o, err) ∷ log) = (err ≡ success) × Released success log
Released success (entry ∷ log) = Released success log

pub Released-rest :
    {F : Type 0} (success err : ℤ) (c : Call F) (log : Log F)
    → Released success ((c, err) ∷ log)
    → Released success log
Released-rest success err (create k o bytes) log r = r
Released-rest success err (release k o) log r = r.1
Released-rest success err (write_buffer b v) log r = r
Released-rest success err (read_buffer b n) log r = r
Released-rest success err (copy_buffer a b) log r = r
Released-rest success err (store b v) log r = r
Released-rest success err (set_kernel_arg k i n) log r = r
Released-rest success err (build_program p) log r = r
Released-rest success err (enqueue_kernel k g l) log r = r
Released-rest success err finish log r = r
Released-rest success err flush log r = r
Released-rest success err (set_kernel_value k i n) log r = r
Released-rest success err (get_profiling i) log r = r
Released-rest success err wait_for_events log r = r

held-release :
    {F : Type 0} (success err : ℤ) (k : Kind) (o : ℕ) (log : Log F)
    → err ≡ success
    → held success ((release k o, err) ∷ log) ≡ without (k, o) (held success log)
held-release success err k o log p =
    let q : (err ==ℤ success) ≡ true = rw p (==ℤ_self success) in rw q refl

-- neither a creation nor a release
abbrev pub is_quiet : {F : Type 0} → Call F → Bool
is_quiet (create k o bytes) = false
is_quiet (release k o) = false
is_quiet c = true

held-quiet :
    {F : Type 0} (success err : ℤ) (c : Call F) (log : Log F)
    → is_quiet c ≡ true
    → held success ((c, err) ∷ log) ≡ held success log
held-quiet success err (create k o bytes) log h = cc
held-quiet success err (release k o) log h = cc
held-quiet success err (write_buffer b v) log h = refl
held-quiet success err (read_buffer b n) log h = refl
held-quiet success err (copy_buffer a b) log h = refl
held-quiet success err (store b v) log h = refl
held-quiet success err (set_kernel_arg k i n) log h = refl
held-quiet success err (build_program p) log h = refl
held-quiet success err (enqueue_kernel k g l) log h = refl
held-quiet success err finish log h = refl
held-quiet success err flush log h = refl
held-quiet success err (set_kernel_value k i n) log h = refl
held-quiet success err (get_profiling i) log h = refl
held-quiet success err wait_for_events log h = refl

module _ {F : Type 0} (e : Env F) where
  -- what is held, if all that was given back up to then was taken
  abbrev pub Holds : List Object → Session F → Type 0
  Holds os s = Released e.success s.log → held e.success s.log ≡ os

  -- behind a release
  pub Holds-release :
      (s : Session F) (os after : List Object) (err : ℤ) (k : Kind) (o : ℕ)
      → Holds os s
      → without (k, o) os ≡ after
      → Released e.success ((release k o, err) ∷ s.log)
      → held e.success ((release k o, err) ∷ s.log) ≡ after
  Holds-release s os after err k o p q r =
      held-release e.success err k o s.log r.0 ∙ ap (without (k, o)) (p r.1) ∙ q

  -- What a function owes where it returns success.
  abbrev pub Owes : (Session F → Type 0) → ℤ → Session F → Type 0
  Owes P err s = err ≡ e.success → P s

  abbrev pub Anything : ℤ → Session F → Type 0
  Anything code s = Unit

  failed-ne : (err : ℤ) → failed e err ≡ true → err ≡ e.success → ⊥
  failed-ne err f h = ground (arith, ==ℤ_iff err e.success)

  not_failed : (err : ℤ) → failed e err ≡ false → (err ==ℤ e.success) ≡ true
  not_failed err f = ground arith

module _ {F : Type 0} (e : Env F) (P : Session F → Type 0) where
  abbrev pub Keeps : {A : Type 0} → List Object → Action F A → (A → List Object) → Type 0
  Keeps {A} os m after = Triple (Owes e P) (Anything e) (Holds e os) m (λ a. Holds e (after a))

  pub Keeps-call :
      (os : List Object) (c : Call F) → is_quiet c ≡ true → Keeps os (call e c) (λ err. os)
  Keeps-call os c q = Triple-call e c (λ s err p w r.
      held-quiet e.success err c s.log q ∙ p (Released-rest e.success err c s.log r))

  pub Keeps-call_only :
      (os : List Object) (c : Call F) → is_quiet c ≡ true → Keeps os (call_only e c) (λ d. os)
  Keeps-call_only os c q = Triple-call_only e c (λ s err p w r.
      held-quiet e.success err c s.log q ∙ p (Released-rest e.success err c s.log r))

  pub Keeps-release :
      (os : List Object) (k : Kind) (o : ℕ)
      → Keeps ((k, o) ∷ os) (call_only e (release k o)) (λ d. os)
  Keeps-release os k o =
      Triple-call_only e (release k o)
        (λ s err p w. Holds-release e s _ os err k o p (without-head (k, o) os))

  pub Keeps-return_if_failed :
      (os : List Object) (err : ℤ) → Keeps os (return_if_failed e err err) (λ d. os)
  Keeps-return_if_failed os err =
      Triple-return_if_failed e err err (λ s p f h. absurd (failed-ne e err f h)) (λ s p f. p)

  -- `return` with a code that is not success
  pub Keeps-return_code :
      (os : List Object) (err code : ℤ)
      → (code ≡ e.success → ⊥)
      → Keeps os (return_if_failed e err code) (λ d. os)
  Keeps-return_code os err code n =
      Triple-return_if_failed e err code (λ s p f h. absurd (n h)) (λ s p f. p)

  -- behind a creation, whatever its error code
  abbrev pub Created : Object → List Object → ℤ → Session F → Type 0
  Created o os err = Holds e (if err ==ℤ e.success then o ∷ os else os)

  pub Created-return_if_failed :
      (o : Object) (os : List Object) (err : ℤ)
      → Triple
          (Owes e P)
          (Anything e)
          (Created o os err)
          (return_if_failed e err err)
          (λ d. Holds e (o ∷ os))
  Created-return_if_failed o os err =
      Triple-return_if_failed e err err (λ s p f h. absurd (failed-ne e err f h))
        (λ s p f. rw (not_failed e err f) at p)

  Created-cons :
      (o : Object) (os : List Object) (err : ℤ) (objects : List Object)
      → objects ≡ os
      → (if err ==ℤ e.success then o ∷ objects else objects)
        ≡ (if err ==ℤ e.success then o ∷ os else os)
  Created-cons o os err objects h = rw h

  pub Keeps-new_or_return :
      (os : List Object) (k : Kind) (bytes : ℕ)
      → Keeps os (new_or_return e k bytes) (λ o. (k, o) ∷ os)
  unfolding new_or_return
  Keeps-new_or_return os k bytes =
      Triple-bind {Q = λ x. Created (k, x.0) os x.1}
        (Triple-new_object e k bytes (λ s err p w r. Created-cons (k, s.next) os err _ (p r)))
        (λ x.
          Triple-bind (Created-return_if_failed (k, x.0) os x.1) (λ d. Triple-pure x.0 (λ s p. p)))

  pub Keeps-map_buffer :
      (os : List Object) (b bytes : ℕ)
      → Triple (Owes e P) (Anything e) (Holds e os) (map_buffer e b bytes) (Created (region, b) os)
  unfolding map_buffer
  Keeps-map_buffer os b bytes =
      Triple-call e (create region b bytes) (λ s err p w r. Created-cons (region, b) os err _ (p r))

  pub Created-failed :
      (o : Object) (os : List Object) (err : ℤ) (s : Session F)
      → failed e err ≡ true
      → Created o os err s
      → Holds e os s
  Created-failed o os err s f h = let n : (err ==ℤ e.success) ≡ false = ground arith in rw n at h

  pub Created-succeeded :
      (o : Object) (os : List Object) (err : ℤ) (s : Session F)
      → failed e err ≡ false
      → Created o os err s
      → Holds e (o ∷ os) s
  Created-succeeded o os err s f h = rw (not_failed e err f) at h

  pub Keeps-map_or_return :
      (os : List Object) (b bytes : ℕ) → Keeps os (map_or_return e b bytes) (λ d. (region, b) ∷ os)
  unfolding map_or_return
  Keeps-map_or_return os b bytes =
      Triple-bind (Keeps-map_buffer os b bytes) (λ err. Created-return_if_failed (region, b) os err)

  pub Keeps-contents_seen : (os : List Object) (b : ℕ) → Keeps os (contents_seen e b) (λ v. os)
  unfolding contents_seen
  Keeps-contents_seen os b = record { runs = λ s p. p }

  pub Keeps-pure : {A : Type 0} (os : List Object) (a : A) → Keeps os (pure a) (λ x. os)
  Keeps-pure os a = Triple-pure a (λ s p. p)

  pub Keeps-exit :
      {A : Type 0} (os : List Object) (after : A → List Object) (code : ℤ)
      → Keeps os (exit_with code) after
  Keeps-exit os after code = Triple-exit code (λ s p. tt)

  pub Keeps-call_release :
      (os : List Object) (k : Kind) (o : ℕ) → Keeps ((k, o) ∷ os) (call e (release k o)) (λ err. os)
  Keeps-call_release os k o =
      Triple-call e (release k o)
        (λ s err p w. Holds-release e s _ os err k o p (without-head (k, o) os))

  pub Keeps-release_second :
      (os : List Object) (k : Kind) (a o : ℕ)
      → Keeps ((k, a) ∷ (k, o) ∷ os) (call e (release k o)) (λ err. (k, a) ∷ os)
  Keeps-release_second os k a o =
      Triple-call e (release k o)
        (λ s err p w. Holds-release e s _ ((k, a) ∷ os) err k o p (without-second k a o os))

module _ {F : Type 0} (e : Env F) (P : Session F → Type 0) where
  -- a release, whatever is held
  pub Keeps-without :
      (os : List Object) (k : Kind) (o : ℕ)
      → Keeps e P os (call_only e (release k o)) (λ d. without (k, o) os)
  Keeps-without os k o =
      Triple-call_only e (release k o) (λ s err p w. Holds-release e s os _ err k o p refl)

  pub Keeps-new_or_fail :
      (os : List Object) (k : Kind) (bytes : ℕ) (code : ℤ)
      → (code ≡ e.success → ⊥)
      → Keeps e P os (new_or_fail e k bytes code) (λ o. (k, o) ∷ os)
  unfolding new_or_fail
  Keeps-new_or_fail os k bytes code n =
      Triple-bind {Q = λ x. Created e P (k, x.0) os x.1}
        (Triple-new_object e k bytes (λ s err p w r. Created-cons e P (k, s.next) os err _ (p r)))
        (λ x.
          Triple-bind {Q = λ d. Holds e ((k, x.0) ∷ os)}
            (Triple-return_if_failed e x.1 code (λ s p f w. absurd (n w))
              (λ s p f. Created-succeeded e P (k, x.0) os x.1 s f p))
            (λ d. Triple-pure x.0 (λ s p. p)))

  pub Keeps-start_or_fail :
      (os : List Object) (c : Call F) (code : ℤ)
      → is_quiet c ≡ true
      → (code ≡ e.success → ⊥)
      → Keeps e P os (start_or_fail e c code) (λ v. (event, v) ∷ os)
  unfolding start_or_fail with_event
  Keeps-start_or_fail os c code quiet n =
      Triple-bind {Q = λ x. Created e P (event, x.0) os x.1}
        (Triple-with_event e c (λ s err p w r.
          Created-cons e P (event, s.next) os err _
            (held-quiet e.success err c s.log quiet ∙ p (Released-rest e.success err c s.log r))))
        (λ x.
          Triple-bind {Q = λ d. Holds e ((event, x.0) ∷ os)}
            (Triple-return_if_failed e x.1 code (λ s p f w. absurd (n w))
              (λ s p f. Created-succeeded e P (event, x.0) os x.1 s f p))
            (λ d. Triple-pure x.0 (λ s p. p)))

  pub Keeps-new_or_null :
      (os : List Object) (k : Kind) (bytes : ℕ)
      → Keeps e P os (new_or_null e k bytes) (λ o. or_none k o os)
  unfolding new_or_null
  Keeps-new_or_null os k bytes =
      Triple-bind {Q = λ x. Created e P (k, x.0) os x.1}
        (Triple-new_object e k bytes (λ s err p w r. Created-cons e P (k, s.next) os err _ (p r)))
        (λ x.
          Triple-pure (if x.1 ==ℤ e.success then some x.0 else none)
            (λ s p r. p r ∙ or_none_if (x.1 ==ℤ e.success) k x.0 os))
    where
      or_none_if :
          (b : Bool) (k : Kind) (o : ℕ) (os : List Object)
          → (if b then (k, o) ∷ os else os) ≡ or_none k (if b then some o else none) os
      or_none_if true k o os = refl
      or_none_if false k o os = refl

module _ {F : Type 0} (e : Env F) where
  -- a return with what was held at the call
  pub Keeps-return :
      (before : List Object) {A : Type 0} (after : A → List Object) (err : ℤ)
      → Keeps e (Holds e before) before (return_with err) after
  Keeps-return before after err = Triple-return err (λ s p h. p)

  -- where the code returns success
  pub Keeps-held :
      {A : Type 0} (m : Action F A) (after : List Object → A → List Object)
      → ((before : List Object) → Keeps e (Holds e before) before m (after before))
      → (s : Session F) → (m s).0 ≡ returned e.success
      → Released e.success (m s).1.log
      → held e.success (m s).1.log ≡ held e.success s.log
  Keeps-held m after k s w r =
      After-returned (Owes e (Holds e (held e.success s.log))) (Anything e)
        (λ a. Holds e (after (held e.success s.log) a)) (m s).0 e.success (m s).1
        ((k (held e.success s.log)).runs s (λ r. refl)) w refl r
