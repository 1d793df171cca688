-- ===== src/MemLatency/Serve.antt =====
-- An OpenCL on which `latencyCnt` does what its source says: `run_latency_benchmark` of
-- mem_latency/mem_latency.cpp gets through, and the sums of the host and of the device agree.
use u_clbench.Base.{
  ℕ, zero, suc, length, ◌≡◌, ap, arith, ◌∙◌, true, ◌&&◌, none, some, List, [], ◌∷◌, ◌==◌,
  if◌then◌else◌,
}
use u_clbench.Base.Int.{ℤ, pos, ◌==ℤ◌, ==ℤ_self}
use u_clbench.Base.Run.{Run, done, fault, no_fuel}
use u_clbench.Opencl.{
  Kind, program, create, write_buffer, set_kernel_value, enqueue_kernel, Call, Log, Env, Session,
  Action, call, call_only, return_if_failed, new_or_fail, new_or_null, or_codes,
}
use u_clbench.Opencl.Objects.{kind_number}
use u_clbench.Opencl.Honest.{or_success, update}
use u_clbench.Opencl.Triples.{
  Triple, Triple-bind, Triple-pure, Triple-call, Triple-call_only, Triple-return_if_failed,
  Triple-new_object, Triple-given, Triple-weaken,
}
use u_clbench.MemLatency.Bench.{both_or_fail}
use u_clbench.MemLatency.Device.{latency_cnt}

-- the argument `i` of kernel `k` that was set last
abbrev pub argument : ℕ → ℕ → Log ℕ → ℕ
argument k i [] = 0
argument k i ((set_kernel_value l j n, err) ∷ log) =
    if i == j && k == l then n else argument k i log
argument k i (entry ∷ log) = argument k i log

abbrev pub result_cells : Run ℕ → List ℕ
result_cells (done r) = r ∷ []
result_cells fault = []
result_cells no_fuel = []

-- the file of the program that was created last
abbrev pub program_file : Log ℕ → ℕ
program_file [] = 0
program_file ((create k o n, err) ∷ log) =
    if kind_number k == kind_number program then n else program_file log
program_file (entry ∷ log) = program_file log

-- what the kernel of a file writes for its input and its number of iterations: that of
-- global_latency.cl takes no more rounds in its inner loop than the input has elements; what the
-- others write is left open
abbrev pub kernel_result : ℕ → List ℕ → ℕ → List ℕ
kernel_result zero input iterations =
    result_cells (latency_cnt (suc (length input)) input iterations)
kernel_result (suc file) input iterations = []

-- what the buffers hold behind a log
abbrev pub memory : Log ℕ → ℕ → List ℕ
memory [] = λ b. []
memory ((write_buffer b v, err) ∷ log) = update b v (memory log)
memory ((enqueue_kernel k g l, err) ∷ log) =
    update (argument k 1 log)
      (kernel_result (program_file log) (memory log (argument k 0 log)) (argument k 2 log))
      (memory log)
memory (entry ∷ log) = memory log

pub record Serves (e : Env ℕ) : Type 0 where
  pub answers : (log : Log ℕ) (c : Call ℕ) → e.status log c ≡ e.success
  pub shows : (log : Log ℕ) (b : ℕ) → e.seen log b ≡ memory log b

-- code that neither returns early nor exits
abbrev pub Runs :
    {A : Type 0} → (Session ℕ → Type 0) → Action ℕ A → (A → Session ℕ → Type 0) → Type 0
Runs P m Q = Triple (λ err s. ⊥) (λ code s. ⊥) P m Q

abbrev pub On : (Log ℕ → Type 0) → Session ℕ → Type 0
On P s = P s.log

abbrev pub Any : Session ℕ → Type 0
Any s = Unit

abbrev pub Good : Env ℕ → (Log ℕ → Type 0) → ℤ → Session ℕ → Type 0
Good e P err s = (err ≡ e.success) × P s.log

module _ (e : Env ℕ) (stamp : Log ℕ → ℕ → ℕ) (good : Serves e) (zero_code : e.success ≡ pos 0) where
  pub Runs-call :
      (P Q : Log ℕ → Type 0) (c : Call ℕ)
      → ((log : Log ℕ) (err : ℤ) → P log → Q ((c, err) ∷ log))
      → Runs (On P) (call e c) (Good e Q)
  Runs-call P Q c h = Triple-call e c (λ s err p w. (w ∙ good.answers s.log c, h s.log err p))

  pub Runs-call_only :
      (P Q : Log ℕ → Type 0) (c : Call ℕ)
      → ((log : Log ℕ) (err : ℤ) → P log → Q ((c, err) ∷ log))
      → Runs (On P) (call_only e c) (λ d. On Q)
  Runs-call_only P Q c h = Triple-call_only e c (λ s err p w. h s.log err p)

  succeeded : (err : ℤ) → err ≡ e.success → (err ==ℤ e.success) ≡ true
  succeeded err p = rw p (==ℤ_self e.success)

  pub Runs-test :
      (P : Log ℕ → Type 0) (err : ℤ)
      → Runs (Good e P err) (return_if_failed e err (pos 1)) (λ d. On P)
  Runs-test P err =
      Triple-return_if_failed e err (pos 1) (λ s p f. let t = succeeded err p.0 in ground arith)
        (λ s p f. p.1)

  pub Runs-both_or_fail :
      (P Q T : Log ℕ → Type 0) (c d : Call ℕ)
      → ((log : Log ℕ) (err : ℤ) → P log → Q ((c, err) ∷ log))
      → ((log : Log ℕ) (err : ℤ) → Q log → T ((d, err) ∷ log))
      → Runs (On P) (both_or_fail e stamp c d) (λ x. On T)
  unfolding both_or_fail
  Runs-both_or_fail P Q T c d h k = Triple-bind (Runs-call P Q c h) λ a. Triple-given λ p.
      Triple-bind (Runs-call Q T d k) λ b.
        Triple-weaken (λ s t. (or_success a b e.success p t.0 zero_code, t.1))
          (Runs-test T (or_codes a b))

  pub Runs-new_or_fail :
      (P Q : Log ℕ → Type 0) (k : Kind) (bytes : ℕ)
      → ((log : Log ℕ) (o : ℕ) (err : ℤ) → P log → Q ((create k o bytes, err) ∷ log))
      → Runs (On P) (new_or_fail e k bytes (pos 1)) (λ o. On Q)
  unfolding new_or_fail
  Runs-new_or_fail P Q k bytes h =
      Triple-bind {Q = λ x. Good e Q x.1}
        (Triple-new_object e k bytes
          (λ s err p w. (w ∙ good.answers s.log (create k s.next bytes), h s.log s.next err p)))
        (λ x. Triple-bind (Runs-test Q x.1) (λ d. Triple-pure x.0 (λ s p. p)))

  pub Runs-new_or_null :
      (P Q : Log ℕ → Type 0) (k : Kind) (bytes : ℕ)
      → ((log : Log ℕ) (o : ℕ) (err : ℤ) → P log → Q ((create k o bytes, err) ∷ log))
      → Runs (On P) (new_or_null e k bytes) (λ o s. ((b : ℕ) × (o ≡ some b)) × Q s.log)
  unfolding new_or_null
  Runs-new_or_null P Q k bytes h =
      Triple-bind {Q = λ x. Good e Q x.1}
        (Triple-new_object e k bytes
          (λ s err p w. (w ∙ good.answers s.log (create k s.next bytes), h s.log s.next err p)))
        (λ x.
          Triple-pure (if x.1 ==ℤ e.success then some x.0 else none)
            (λ s p. ((x.0, ap (λ t. if t then some x.0 else none) (succeeded x.1 p.0)), p.1)))
