-- ===== src/Opencl/Triples.antt =====
-- Statements about code that makes calls: what holds before, and what holds behind each outcome.
use mathlib.Core.Path.{subst}
use u_clbench.Base.{ℕ, suc, ◌≡◌, refl, Bool, true, false, ◌∷◌, if◌then◌else◌}
use u_clbench.Base.Int.{ℤ}
use u_clbench.Opencl.{
  Kind, Call, create, Env, Session, Outcome, ok, returned, exited, Action, Done, pure, return_with,
  exit_with, ◌>>=◌, call, call_only, new_object, with_event, event, failed, return_if_failed,
}

-- `R` is what has to hold behind a return, `X` behind an exit.
module _ {F : Type 0} (R X : ℤ → Session F → Type 0) where
  abbrev pub After : {A : Type 0} → (A → Session F → Type 0) → Outcome A → Session F → Type 0
  After Q (ok a) s = Q a s
  After Q (returned err) s = R err s
  After Q (exited code) s = X code s

  -- Where `P` holds before the code runs, `Q` holds of its result, or it leaves as it may.
  pub record Triple {A : Type 0} (P : Session F → Type 0) (m : Action F A)
      (Q : A → Session F → Type 0) : Type 0 where
    pub runs : (s : Session F) → P s → After Q (m s).0 (m s).1

returned_injective :
    {A : Type 0} (o : Outcome A) (a b : ℤ) → o ≡ returned a → o ≡ returned b → a ≡ b
returned_injective o a b p q = cc

ok_injective : {A : Type 0} (o : Outcome A) (a b : A) → o ≡ ok a → o ≡ ok b → a ≡ b
ok_injective o a b p q = cc

module _ {F : Type 0} (R X : ℤ → Session F → Type 0) {A : Type 0} (Q : A → Session F → Type 0) where
  pub After-returned :
      (o : Outcome A) (err : ℤ) (s : Session F) → After R X Q o s → o ≡ returned err → R err s
  After-returned (ok a) err s h w = cc
  After-returned (returned code) err s h w =
      subst (λ (x : ℤ). R x s) (returned_injective (returned code) code err refl w) h
  After-returned (exited code) err s h w = cc

  pub After-ok : (o : Outcome A) (a : A) (s : Session F) → After R X Q o s → o ≡ ok a → Q a s
  After-ok (ok b) a s h w = subst (λ (x : A). Q x s) (ok_injective (ok b) b a refl w) h
  After-ok (returned err) a s h w = cc
  After-ok (exited code) a s h w = cc

module _ {F : Type 0} (R X : ℤ → Session F → Type 0) {A : Type 0}
    {Q Q' : A → Session F → Type 0} where
  After-last :
      (o : Outcome A) (s : Session F)
      → ((a : A) (t : Session F) → Q a t → Q' a t)
      → After R X Q o s
      → After R X Q' o s
  After-last (ok a) s w h = w a s h
  After-last (returned err) s w h = h
  After-last (exited code) s w h = h

-- Code that neither goes on nor exits returns with an error code for which `T` holds.
pub After-return :
    {F A : Type 0} (T : ℤ → Type 0) (o : Outcome A) (s : Session F)
    → After (λ err t. T err) (λ code t. ⊥) (λ a t. ⊥) o s
    → (err : ℤ) × (T err × (o ≡ returned err))
After-return T (ok a) s h = absurd h
After-return T (returned err) s h = (err, (h, refl))
After-return T (exited code) s h = absurd h

module _ {F : Type 0} {R X : ℤ → Session F → Type 0} where
  After-then :
      {A B : Type 0} {Q : A → Session F → Type 0} {T : B → Session F → Type 0} (o : Outcome A)
      (f : A → Action F B) (s : Session F)
      → After R X Q o s
      → ((a : A) → Triple R X (Q a) (f a) T)
      → After R X T
          (elim o as (λ x. Outcome B × Session F) [
            | ok a ↦ f a s
            | returned err ↦ (returned err, s)
            | exited code ↦ (exited code, s)
          ]).0
          (elim o as (λ x. Outcome B × Session F) [
            | ok a ↦ f a s
            | returned err ↦ (returned err, s)
            | exited code ↦ (exited code, s)
          ]).1
  After-then (ok a) f s h k = (k a).runs s h
  After-then (returned err) f s h k = h
  After-then (exited code) f s h k = h

  pub Triple-bind :
      {A B : Type 0} {P : Session F → Type 0} {Q : A → Session F → Type 0}
      {T : B → Session F → Type 0} {m : Action F A} {f : A → Action F B}
      → Triple R X P m Q
      → ((a : A) → Triple R X (Q a) (f a) T)
      → Triple R X P (m >>= f) T
  Triple-bind {m} {f} t k = record { runs = λ s p. After-then (m s).0 f (m s).1 (t.runs s p) k }

  pub Triple-pure :
      {A : Type 0} {P : Session F → Type 0} {Q : A → Session F → Type 0} (a : A)
      → ((s : Session F) → P s → Q a s)
      → Triple R X P (pure a) Q
  Triple-pure a h = record { runs = h }

  pub Triple-return :
      {A : Type 0} {P : Session F → Type 0} {Q : A → Session F → Type 0} (err : ℤ)
      → ((s : Session F) → P s → R err s)
      → Triple R X P (return_with err) Q
  Triple-return err h = record { runs = h }

  pub Triple-exit :
      {A : Type 0} {P : Session F → Type 0} {Q : A → Session F → Type 0} (code : ℤ)
      → ((s : Session F) → P s → X code s)
      → Triple R X P (exit_with code) Q
  Triple-exit code h = record { runs = h }

  pub Triple-if :
      {A : Type 0} {P : Session F → Type 0} {Q : A → Session F → Type 0} {m m' : Action F A}
      (c : Bool)
      → (c ≡ true → Triple R X P m Q)
      → (c ≡ false → Triple R X P m' Q)
      → Triple R X P (if c then m else m') Q
  Triple-if true t e = t refl
  Triple-if false t e = e refl

  pub Triple-weaken :
      {A : Type 0} {P P' : Session F → Type 0} {Q : A → Session F → Type 0} {m : Action F A}
      → ((s : Session F) → P' s → P s)
      → Triple R X P m Q
      → Triple R X P' m Q
  Triple-weaken w t = record { runs = λ s p. t.runs s (w s p) }

  pub Triple-last :
      {A : Type 0} {P : Session F → Type 0} {Q Q' : A → Session F → Type 0} {m : Action F A}
      → Triple R X P m Q
      → ((a : A) (s : Session F) → Q a s → Q' a s)
      → Triple R X P m Q'
  Triple-last {m} t w = record { runs = λ s p. After-last R X (m s).0 (m s).1 w (t.runs s p) }

  -- a part of the premise that no state changes
  pub Triple-given :
      {A E : Type 0} {P : Session F → Type 0} {Q : A → Session F → Type 0} {m : Action F A}
      → (E → Triple R X P m Q)
      → Triple R X (λ s. E × P s) m Q
  Triple-given h = record { runs = λ s p. (h p.0).runs s p.1 }

  -- a premise with a witness
  pub Triple-exists :
      {A E : Type 0} {P : E → Session F → Type 0} {Q : A → Session F → Type 0} {m : Action F A}
      → ((x : E) → Triple R X (P x) m Q)
      → Triple R X (λ s. (x : E) × P x s) m Q
  Triple-exists h = record { runs = λ s p. (h p.0).runs s p.1 }

  module _ (e : Env F) where
    pub Triple-call :
        {P : Session F → Type 0} {Q : ℤ → Session F → Type 0} (c : Call F)
        → ((s : Session F) (err : ℤ)
            → P s
            → err ≡ e.status s.log c
            → Q err (record s { log = (c, err) ∷ s.log }))
        → Triple R X P (call e c) Q
    unfolding call
    Triple-call c h = record { runs = λ s p. h s (e.status s.log c) p refl }

    pub Triple-call_only :
        {P : Session F → Type 0} {Q : Done → Session F → Type 0} (c : Call F)
        → ((s : Session F) (err : ℤ)
            → P s
            → err ≡ e.status s.log c
            → Q tt (record s { log = (c, err) ∷ s.log }))
        → Triple R X P (call_only e c) Q
    unfolding call_only
    Triple-call_only c h = record { runs = λ s p. h s (e.status s.log c) p refl }

    -- behind the test of an error code
    pub Triple-return_if_failed :
        {P : Session F → Type 0} {Q : Done → Session F → Type 0} (err code : ℤ)
        → ((s : Session F) → P s → failed e err ≡ true → R code s)
        → ((s : Session F) → P s → failed e err ≡ false → Q tt s)
        → Triple R X P (return_if_failed e err code) Q
    unfolding return_if_failed
    Triple-return_if_failed err code r q =
        Triple-if (failed e err) (λ f. Triple-return code (λ s p. r s p f))
          (λ f. Triple-pure tt (λ s p. q s p f))

    pub Triple-with_event :
        {P : Session F → Type 0} {Q : ℕ × ℤ → Session F → Type 0} (c : Call F)
        → ((s : Session F) (err : ℤ)
            → P s
            → err ≡ e.status s.log c
            → Q
                (s.next, err)
                (record {
                  log = (create event s.next 0, err) ∷ (c, err) ∷ s.log;
                  next = suc s.next;
                }))
        → Triple R X P (with_event e c) Q
    unfolding with_event
    Triple-with_event c h = record { runs = λ s p. h s (e.status s.log c) p refl }

    pub Triple-new_object :
        {P : Session F → Type 0} {Q : ℕ × ℤ → Session F → Type 0} (k : Kind) (bytes : ℕ)
        → ((s : Session F) (err : ℤ)
            → P s
            → err ≡ e.status s.log (create k s.next bytes)
            → Q
                (s.next, err)
                (record { log = (create k s.next bytes, err) ∷ s.log; next = suc s.next }))
        → Triple R X P (new_object e k bytes) Q
    unfolding new_object
    Triple-new_object k bytes h = record {
      runs = λ s p. h s (e.status s.log (create k s.next bytes)) p refl;
    }
