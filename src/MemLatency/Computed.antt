-- ===== src/MemLatency/Computed.antt =====
-- `run_latency_benchmark` of mem_latency/mem_latency.cpp step by step, on such an OpenCL: what the
-- calls leave in the buffers, and what is read back.
use mathlib.Core.Path.{subst}
use u_clbench.Base.{
  ℕ, ◌*◌, ◌%◌, ◌^◌, ◌≡◌, refl, sym, ap, ◌∙◌, false, Option, some, List, [], ◌∷◌, suc, suc, length,
  get_or, ==_self,
}
use u_clbench.Base.Int.{ℤ, pos}
use u_clbench.Base.Run.{done}
use u_clbench.Opencl.{
  queue, program, kernel, buffer, release, write_buffer, read_buffer, set_kernel_value,
  build_program, enqueue_kernel, get_profiling, finish, wait_for_events, Call, Log, Env, call_only,
  or_codes, contents_seen,
}
use u_clbench.Opencl.Honest.{or_success, update, update_self}
use u_clbench.Opencl.Triples.{Triple-bind, Triple-pure, Triple-given, Triple-weaken}
use u_clbench.MemLatency.{Walked, buffer_size}
use u_clbench.MemLatency.Bench.{
  Report, report, time_seen, run_kernel, read_result, with_buffers, latency_calls,
}
use u_clbench.MemLatency.Device.{latency_cnt}
use u_clbench.MemLatency.Serve.{
  Runs, On, Any, Serves, argument, result_cells, kernel_result, program_file, memory, Runs-call,
  Runs-call_only, Runs-test, Runs-both_or_fail, Runs-new_or_fail, Runs-new_or_null,
}

module _ (e : Env ℕ) (stamp : Log ℕ → ℕ → ℕ) (good : Serves e) (zero_code : e.success ≡ pos 0) where
  -- the kernel is that of global_latency.cl
  abbrev pub Loaded : Log ℕ → Type 0
  Loaded log = program_file log ≡ 0

  module _ (k input result : ℕ) (buf : List ℕ) (iterations sum : ℕ)
      (computed : latency_cnt (suc (length buf)) buf (iterations % 2 ^ 32) ≡ done sum) where
    -- what is known behind the upload, behind each of the arguments, and behind the run
    abbrev Uploaded : Log ℕ → Type 0
    Uploaded log = (program_file log ≡ 0) × (memory log input ≡ buf)

    abbrev Input : Log ℕ → Type 0
    Input log = (program_file log ≡ 0) × (memory log input ≡ buf) × (argument k 0 log ≡ input)

    abbrev Both : Log ℕ → Type 0
    Both log =
        (program_file log ≡ 0)
        × (memory log input ≡ buf)
        × (argument k 0 log ≡ input)
        × (argument k 1 log ≡ result)

    abbrev All : Log ℕ → Type 0
    All log =
        (program_file log ≡ 0)
        × (memory log input ≡ buf)
        × (argument k 0 log ≡ input)
        × (argument k 1 log ≡ result)
        × (argument k 2 log ≡ iterations % 2 ^ 32)

    abbrev pub Computed : Log ℕ → Type 0
    Computed log = memory log result ≡ sum ∷ []

    run_shows : (log : Log ℕ) (err : ℤ) → All log → Computed ((enqueue_kernel k 1 1, err) ∷ log)
    run_shows log err (f, m, a, b, c) =
        let cells =
          kernel_result (program_file log) (memory log (argument k 0 log)) (argument k 2 log) in
        ap (λ x. update x cells (memory log) result) b
        ∙ update_self result cells (memory log)
        ∙ ap (λ x. kernel_result x (memory log (argument k 0 log)) (argument k 2 log)) f
        ∙ ap (λ x. kernel_result 0 (memory log x) (argument k 2 log)) a
        ∙ ap (λ x. kernel_result 0 x (argument k 2 log)) m
        ∙ ap (kernel_result 0 buf) c
        ∙ ap result_cells computed

    set_itself :
        (i n : ℕ) (err : ℤ) (log : Log ℕ) → argument k i ((set_kernel_value k i n, err) ∷ log) ≡ n
    set_itself i n err log = rw (==_self i, ==_self k) refl

    Runs-time : (i : ℕ) → Runs (On Computed) (time_seen e stamp i) (λ t. On Computed)
    unfolding time_seen
    Runs-time i = record { runs = λ s m. m }

    Runs-run_kernel :
        Runs (On Loaded) (run_kernel e stamp k input result buf iterations) (λ times. On Computed)
    unfolding run_kernel
    Runs-run_kernel =
        Triple-bind
          (Runs-both_or_fail e stamp good zero_code Loaded Uploaded Uploaded
            (write_buffer input buf) finish (λ log err f. (f, update_self input buf (memory log)))
            (λ log err m. m))
          λ d.
            Triple-bind
              (Runs-call e stamp good zero_code Uploaded Input (set_kernel_value k 0 input)
                (λ log err (f, m). (f, m, set_itself 0 input err log)))
              λ arg0. Triple-given λ p0.
                Triple-bind
                  (Runs-call e stamp good zero_code Input Both (set_kernel_value k 1 result)
                    (λ log err (f, m, a). (f, m, a, set_itself 1 result err log)))
                  λ arg1. Triple-given λ p1.
                    Triple-bind
                      (Runs-call e stamp good zero_code Both All
                        (set_kernel_value k 2 (iterations % 2 ^ 32))
                        (λ log err (f, m, a, b).
                          (f, m, a, b, set_itself 2 (iterations % 2 ^ 32) err log)))
                      λ arg2. Triple-given λ p2.
                        Triple-bind
                          (Triple-weaken
                            (λ s h. (
                              or_success (or_codes arg0 arg1) arg2 e.success
                                  (or_success arg0 arg1 e.success p0 p1 zero_code) p2 zero_code,
                              h,
                            ))
                            (Runs-test e stamp good zero_code All
                              (or_codes (or_codes arg0 arg1) arg2)))
                          λ d.
                            Triple-bind
                              (Runs-call e stamp good zero_code All Computed (enqueue_kernel k 1 1)
                                run_shows)
                              λ started.
                                Triple-bind (Runs-test e stamp good zero_code Computed started) λ d.
                                  Triple-bind
                                    (Runs-both_or_fail e stamp good zero_code Computed Computed
                                      Computed finish wait_for_events (λ log err m. m)
                                      (λ log err m. m))
                                    λ d.
                                      Triple-bind
                                        (Runs-both_or_fail e stamp good zero_code Computed Computed
                                          Computed (get_profiling 0) (get_profiling 1)
                                          (λ log err m. m) (λ log err m. m))
                                        λ d. Triple-bind (Runs-time 0) λ t0.
                                          Triple-bind (Runs-time 1)
                                            λ t1. Triple-pure (t0, t1) (λ s m. m)

    Runs-contents_seen :
        Runs (On Computed) (contents_seen e result) (λ v s. (v ≡ sum ∷ []) × Unit {0})
    unfolding contents_seen
    Runs-contents_seen = record { runs = λ s m. (good.shows s.log result ∙ m, tt) }

    Runs-read_result : Runs (On Computed) (read_result e stamp result) (λ v s. (v ≡ sum) × Unit {0})
    unfolding read_result
    Runs-read_result =
        Triple-bind
          (Runs-both_or_fail e stamp good zero_code Computed Computed Computed
            (read_buffer result 4) finish (λ log err m. m) (λ log err m. m))
          λ d.
            Triple-bind Runs-contents_seen
              λ v. Triple-pure (get_or v 0 0) (λ s p. (ap (λ x. get_or x 0 0) p.0, tt))

  -- what a run reports
  abbrev pub Agreed : List ℕ → Walked → ℕ → Report → Type 0
  Agreed buf w iterations r =
      (r.mismatch ≡ false)
      × (r.ops_performed ≡ iterations * w.opcount % 2 ^ 64)
      × (r.data_size ≡ length buf * 4)

  module _ (buf : List ℕ) (w : Walked) (iterations : ℕ)
      (computed : latency_cnt (suc (length buf)) buf (iterations % 2 ^ 32)
        ≡ done w.expected_result) where
    report-Agreed :
        (times : ℕ × ℕ) (v : ℕ)
        → v ≡ w.expected_result
        → Agreed buf w iterations (report buf w iterations times v)
    unfolding report
    report-Agreed times v p = (rw p (rw (==_self w.expected_result) refl), refl, refl)

    Runs-release : (c : Call ℕ) → Runs Any (call_only e c) (λ d. Any)
    Runs-release c =
        Runs-call_only e stamp good zero_code (λ log. Unit) (λ log. Unit) c (λ log err u. tt)

    Runs-with_buffers :
        (q p k input result : ℕ)
        → Runs
            (On Loaded)
            (with_buffers e stamp q p k buf w iterations (some input) (some result))
            (λ r s. Agreed buf w iterations r)
    unfolding with_buffers
    Runs-with_buffers q p k input result =
        Triple-bind (Runs-run_kernel k input result buf iterations w.expected_result computed)
          λ times.
            Triple-bind (Runs-read_result k input result buf iterations w.expected_result computed)
              λ v. Triple-given λ same. Triple-bind (Runs-release (release buffer input)) λ d.
                Triple-bind (Runs-release (release program p)) λ d.
                  Triple-bind (Runs-release (release kernel k)) λ d.
                    Triple-bind (Runs-release (release queue q)) λ d.
                      Triple-pure (report buf w iterations times v)
                        (λ s u. report-Agreed times v same)

    pub Runs-latency_calls :
        Runs Any (latency_calls e stamp 0 buf w iterations) (λ r s. Agreed buf w iterations r)
    unfolding latency_calls
    Runs-latency_calls =
        Triple-bind
          (Runs-new_or_fail e stamp good zero_code (λ log. Unit) (λ log. Unit) queue 0
            (λ log o err u. tt))
          λ q.
            Triple-bind
              (Runs-new_or_fail e stamp good zero_code (λ log. Unit) Loaded program 0
                (λ log o err u. refl))
              λ p.
                Triple-bind
                  (Runs-call e stamp good zero_code Loaded Loaded (build_program p)
                    (λ log err f. f))
                  λ built. Triple-bind (Runs-test e stamp good zero_code Loaded built) λ d.
                    Triple-bind
                      (Runs-new_or_fail e stamp good zero_code Loaded Loaded kernel 0
                        (λ log o err f. f))
                      λ k.
                        Triple-bind
                          (Runs-new_or_null e stamp good zero_code Loaded Loaded buffer
                            (buffer_size (length buf)) (λ log o err f. f))
                          λ i. Triple-given λ (a, ia).
                            Triple-bind
                              (Runs-new_or_null e stamp good zero_code Loaded Loaded buffer 4
                                (λ log o err f. f))
                              λ r. Triple-given λ (b, rb). both_made q p k i r a b ia rb
      where
        both_made :
            (q p k : ℕ) (i r : Option ℕ) (a b : ℕ)
            → i ≡ some a
            → r ≡ some b
            → Runs
                (On Loaded)
                (with_buffers e stamp q p k buf w iterations i r)
                (λ r s. Agreed buf w iterations r)
        both_made q p k i r a b ia rb =
            subst
              (λ x.
                Runs (On Loaded) (with_buffers e stamp q p k buf w iterations x r)
                  (λ r s. Agreed buf w iterations r))
              (sym ia)
              (subst
                (λ x.
                  Runs (On Loaded) (with_buffers e stamp q p k buf w iterations (some a) x)
                    (λ r s. Agreed buf w iterations r))
                (sym rb) (Runs-with_buffers q p k a b))
