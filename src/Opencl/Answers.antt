-- ===== src/Opencl/Answers.antt =====
-- An OpenCL whose calls succeed: code on it goes on to its end.
use u_clbench.Base.{ℕ, ◌≡◌, refl, ap, ◌∙◌, arith, Bool, true, false, none, some, if◌then◌else◌}
use u_clbench.Base.Int.{ℤ, pos, ◌==ℤ◌, ==ℤ_self}
use u_clbench.Opencl.{
  ◌>>=◌, Kind, Call, create, Log, Env, Session, Outcome, ok, returned, exited, Action, pure, call,
  call_only, return_if_failed, new_or_fail, new_or_null, start_or_fail, with_event,
}
use u_clbench.Opencl.Triples.{
  After, Triple, Triple-bind, Triple-pure, Triple-call, Triple-call_only, Triple-return_if_failed,
  Triple-new_object, Triple-with_event,
}

-- code that neither returns early nor exits, with a fact about its result
abbrev pub Goes : {F A : Type 0} → Action F A → (A → Type 0) → Type 0
Goes m Q = Triple (λ err s. ⊥) (λ code s. ⊥) (λ s. Unit {0}) m (λ a s. Q a)

pub Goes-then :
    {F A B : Type 0} (Q : A → Type 0) (T : B → Type 0) (m : Action F A) (f : A → Action F B)
    → Goes m Q
    → ((a : A) → Q a → Goes (f a) T)
    → Goes (m >>= f) T
Goes-then Q T m f h k = Triple-bind h (λ a. record { runs = λ s q. (k a q).runs s tt })

pub Goes-pure : {F A : Type 0} (Q : A → Type 0) (a : A) → Q a → Goes {F = F} (pure a) Q
Goes-pure Q a q = Triple-pure a (λ s u. q)

-- the branch that is taken
pub Goes-else :
    {F A : Type 0} (Q : A → Type 0) (m k : Action F A) (b : Bool)
    → b ≡ false
    → Goes k Q
    → Goes (if b then m else k) Q
Goes-else Q m k b p h = rw p h

pub Goes-ok :
    {F A : Type 0} (Q : A → Type 0) (o : Outcome A) (s : Session F)
    → After (λ err t. ⊥) (λ code t. ⊥) (λ a t. Q a) o s
    → (a : A) × (o ≡ ok a) × Q a
Goes-ok Q (ok a) s h = (a, refl, h)
Goes-ok Q (returned err) s h = absurd h
Goes-ok Q (exited code) s h = absurd h

module _ {F : Type 0} (e : Env F)
    (answers : (log : Log F) (c : Call F) → e.status log c ≡ e.success) where
  abbrev pub Succeeded : ℤ → Type 0
  Succeeded err = err ≡ e.success

  pub Goes-call : (c : Call F) → Goes (call e c) Succeeded
  Goes-call c = Triple-call e c (λ s err p w. w ∙ answers s.log c)

  pub Goes-call_only : (c : Call F) → Goes (call_only e c) (λ d. Unit {0})
  Goes-call_only c = Triple-call_only e c (λ s err p w. tt)

  succeeded : (err : ℤ) → err ≡ e.success → (err ==ℤ e.success) ≡ true
  succeeded err p = rw p (==ℤ_self e.success)

  pub Goes-test :
      (err : ℤ) → err ≡ e.success → Goes (return_if_failed e err (pos 1)) (λ d. Unit {0})
  Goes-test err p =
      Triple-return_if_failed e err (pos 1) (λ s u f. let t = succeeded err p in ground arith)
        (λ s u f. tt)

  pub Goes-new_or_fail :
      (k : Kind) (bytes : ℕ) → Goes (new_or_fail e k bytes (pos 1)) (λ o. Unit {0})
  unfolding new_or_fail
  Goes-new_or_fail k bytes =
      Triple-bind {Q = λ x s. x.1 ≡ e.success}
        (Triple-new_object e k bytes (λ s err p w. w ∙ answers s.log (create k s.next bytes)))
        (λ x. record {
          runs =
              λ s q. (Triple-bind (Goes-test x.1 q) (λ d. Triple-pure x.0 (λ s p. tt))).runs s tt;
        })

  pub Goes-start_or_fail : (c : Call F) → Goes (start_or_fail e c (pos 1)) (λ v. Unit {0})
  unfolding start_or_fail with_event
  Goes-start_or_fail c =
      Triple-bind {Q = λ x s. x.1 ≡ e.success}
        (Triple-with_event e c (λ s err p w. w ∙ answers s.log c))
        (λ x. record {
          runs =
              λ s q. (Triple-bind (Goes-test x.1 q) (λ d. Triple-pure x.0 (λ s p. tt))).runs s tt;
        })

  pub Goes-new_or_null :
      (k : Kind) (bytes : ℕ) → Goes (new_or_null e k bytes) (λ o. (b : ℕ) × (o ≡ some b))
  unfolding new_or_null
  Goes-new_or_null k bytes =
      Triple-bind {Q = λ x s. x.1 ≡ e.success}
        (Triple-new_object e k bytes (λ s err p w. w ∙ answers s.log (create k s.next bytes)))
        (λ x.
          Triple-pure (if x.1 ==ℤ e.success then some x.0 else none)
            (λ s q. (x.0, ap (λ t. if t then some x.0 else none) (succeeded x.1 q))))
