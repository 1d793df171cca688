-- ===== src/BranchPenalty/Steps.antt =====
-- Code of branch_penalty that goes on to its end, with the calls of OpenCL that it makes and the
-- objects that it creates.
use mathlib.Core.List.{append_assoc}
use u_clbench.Base.{ℕ, suc, ◌+◌, ◌≡◌, refl, sym, ap, ◌∙◌, List, [], ◌∷◌, ◌++◌, arith}
use u_clbench.Base.Int.{ℤ}
use u_clbench.Opencl.{
  Call, create, Log, Env, Session, Outcome, Action, ok, returned, exited, pure, ◌>>=◌, ◌>>◌,
  call_only, new_object, Kind,
}

-- the calls of a log in the order in which they were made, in front of others
abbrev pub calls_onto : Log ℕ → List (Call ℕ) → List (Call ℕ)
calls_onto [] others = others
calls_onto ((c, err) ∷ log) others = calls_onto log (c ∷ others)

-- From one state to another these calls are made, and as many objects are created.
pub record Makes (s t : Session ℕ) (cs : List (Call ℕ)) (objects : ℕ) : Type 0 where
  pub made : (others : List (Call ℕ)) → calls_onto t.log others ≡ calls_onto s.log (cs ++ others)
  pub created : t.next ≡ objects + s.next

-- the code goes on from `s` with a result for which `Q` holds, and has made these calls
pub record Steps {A : Type 0} (m : Action ℕ A) (s : Session ℕ) (cs : List (Call ℕ)) (n : ℕ)
    (Q : A → Type 0) : Type 0 where
  pub result : A
  pub final : Session ℕ
  pub runs : m s ≡ (ok result, final)
  pub makes : Makes s final cs n
  pub holds : Q result

-- what `>>=` does with an outcome
abbrev pub onwards :
    {A B : Type 0} → Outcome A × Session ℕ → (A → Action ℕ B) → Outcome B × Session ℕ
onwards x k = elim x.0 [
  | ok a ↦ k a x.1
  | returned err ↦ (returned err, x.1)
  | exited code ↦ (exited code, x.1)
]

pub Steps-behind :
    {A B : Type 0} {T : B → Type 0} (m : Action ℕ A) (k : A → Action ℕ B) (s : Session ℕ)
    (cs cs' : List (Call ℕ)) (n n' : ℕ) (a : A) (t : Session ℕ)
    → m s ≡ (ok a, t)
    → Makes s t cs n
    → Steps (k a) t cs' n' T
    → Steps (m >>= k) s (cs ++ cs') (n' + n) T
Steps-behind m k s cs cs' n n' a t p f g = record {
  result = g.result;
  final = g.final;
  runs = ap (λ x. onwards x k) p ∙ g.runs;
  makes = record {
    made = λ others.
        g.makes.made others
        ∙ f.made (cs' ++ others)
        ∙ ap (calls_onto s.log) (sym (append_assoc cs cs' others));
    created = omega (arith, f.created, g.makes.created);
  };
  holds = g.holds;
}

pub Steps-bind :
    {A B : Type 0} {Q : A → Type 0} {T : B → Type 0} (m : Action ℕ A) (k : A → Action ℕ B)
    (s : Session ℕ) (cs cs' : List (Call ℕ)) (n n' : ℕ)
    → Steps m s cs n Q
    → ((a : A) (t : Session ℕ) → Q a → Steps (k a) t cs' n' T)
    → Steps (m >>= k) s (cs ++ cs') (n' + n) T
Steps-bind m k s cs cs' n n' f h =
    Steps-behind m k s cs cs' n n' f.result f.final f.runs f.makes (h f.result f.final f.holds)

pub Steps-pure :
    {A : Type 0} {Q : A → Type 0} (a : A) (s : Session ℕ) → Q a → Steps (pure a) s [] 0 Q
Steps-pure a s q = record {
  result = a;
  final = s;
  runs = refl;
  makes = record { made = λ others. refl; created = omega arith };
  holds = q;
}

-- a value made of the result at the end
pub Steps-end :
    {A B : Type 0} {Q : A → Type 0} {T : B → Type 0} (m : Action ℕ A) (f : A → B) (s : Session ℕ)
    (cs : List (Call ℕ)) (n : ℕ)
    → Steps m s cs n Q
    → ((a : A) → Q a → T (f a))
    → Steps (m >>= λ a. pure (f a)) s cs n T
Steps-end m f s cs n g h = record {
  result = f g.result;
  final = g.final;
  runs = ap (λ x. onwards x (λ b. pure (f b))) g.runs;
  makes = g.makes;
  holds = h g.result g.holds;
}

module _ (e : Env ℕ) where
  pub Steps-call :
      {B : Type 0} {T : B → Type 0} (c : Call ℕ) (k : Action ℕ B) (s : Session ℕ)
      (cs : List (Call ℕ)) (n : ℕ)
      → ((t : Session ℕ) → t.next ≡ s.next → Steps k t cs n T)
      → Steps (call_only e c >> k) s (c ∷ cs) n T
  unfolding call_only
  Steps-call c k s cs n h =
      let g = h (record s { log = (c, e.status s.log c) ∷ s.log }) refl in
      record {
        result = g.result;
        final = g.final;
        runs = g.runs;
        makes = record { made = g.makes.made; created = g.makes.created };
        holds = g.holds;
      }

  pub Steps-new :
      {B : Type 0} {T : B → Type 0} (kd : Kind) (bytes i : ℕ) (k : ℕ × ℤ → Action ℕ B)
      (s : Session ℕ) (cs : List (Call ℕ)) (n : ℕ)
      → s.next ≡ i
      → ((err : ℤ) (t : Session ℕ) → t.next ≡ suc i → Steps (k (i, err)) t cs n T)
      → Steps (new_object e kd bytes >>= k) s (create kd i bytes ∷ cs) (suc n) T
  unfolding new_object
  Steps-new kd bytes i k s cs n r h =
      let c = create kd s.next bytes in
      let err = e.status s.log c in
      let s1 : Session ℕ = record { log = (c, err) ∷ s.log; next = suc s.next } in
      let g = h err s1 (ap suc r) in
      record {
        result = g.result;
        final = g.final;
        runs = ap (λ i. k (i, err) s1) r ∙ g.runs;
        makes = record {
          made = λ others.
              g.makes.made others ∙ ap (λ i. calls_onto s.log (create kd i bytes ∷ cs ++ others)) r;
          created = omega (arith, g.makes.created);
        };
        holds = g.holds;
      }
