-- ===== src/Tests/Runs.antt =====
-- Runs of the latency, arithmetic and overheads benchmarks on an OpenCL whose calls succeed.
use u_clbench.Base.{
  ℕ, ◌+◌, ◌*◌, ◌%◌, ◌^◌, ◌≡◌, refl, arith, Bool, true, false, Option, some, List, [], ◌∷◌, length,
  replicate, length-replicate, map, ◌==◌, not, ◌-◌, ◌/◌,
}
use u_clbench.Base.Int.{pos}
use u_clbench.Base.Run.{done}
use u_clbench.Opencl.{Log, Env, Session, ok, returned}
use u_clbench.Opencl.Held.{held, Released}
use u_clbench.Tests.Releases.{all-Released}
use u_clbench.MemLatency.{Limits, global, sequential}
use u_clbench.MemLatency.Bench.{Report, source_path, run_latency_benchmark}
use u_clbench.MemLatency.Host.{num_elems}
use u_clbench.MemLatency.Serve.{Serves}
use u_clbench.MemLatency.Serve
use u_clbench.MemLatency.Whole.{run_latency_benchmark-Serves}
use u_clbench.MemLatency.Options.{initial}
use u_clbench.MemLatency.Settings
use u_clbench.MemLatency.Measured.{Measured}
use u_clbench.ArithSpeed.{Function, add, exp}
use u_clbench.ArithSpeed.Settings as ArithSettings
use u_clbench.ArithSpeed.Check.{Arithmetic}
use u_clbench.ArithSpeed.Check.Host.{Numbers}
use u_clbench.ArithSpeed.Driver.{Device, Line}
use u_clbench.ArithSpeed.Bench.{run_benchmark}
use u_clbench.ArithSpeed.Leaks.{run_benchmark-held}
use u_clbench.BranchPenalty.{is_measured}
use u_clbench.BranchPenalty.Settings as PenaltySettings
use u_clbench.BranchPenalty.Bench as Penalty
use u_clbench.BranchPenalty.Calls.{all_calls, Reported}
use u_clbench.BranchPenalty.Steps.{calls_onto}
use u_clbench.BranchPenalty.Driver.{penalty_main-calls}
use u_clbench.Overheads.Bench.{run_kernel_benchmark}
use u_clbench.Overheads.Leaks.{above, events, run_kernel_benchmark-held}

abbrev server : Env ℕ
server = record { success = pos 0; status = λ log c. pos 0; seen = Serve.memory }

server-Serves : Serves server
server-Serves = record { answers = λ log c. refl; shows = λ log b. refl }

abbrev fresh : Session ℕ
fresh = record { log = []; next = 0 }

abbrev no_times : Log ℕ → ℕ → ℕ
no_times log i = 0

abbrev zeros : ℕ → List ℕ
zeros n = replicate n 0

length-zeros : (n : ℕ) → length (zeros n) ≡ n
length-zeros n = length-replicate n 0

abbrev card : Limits
card = record {
  global_mem_size = 65536;
  local_mem_size = 16384;
  max_constant_buffer_size = 8192;
  is_accelerator = false;
}

two_rows : num_elems global card 1024 ≡ 128 * 2
unfolding num_elems
two_rows = refl

global_file : source_path global ≡ 0
unfolding source_path
global_file = refl

run_latency_benchmark-Serves_example :
    (r : Report) × (t : Session ℕ) × (run_latency_benchmark server no_times zeros card 1024 global
        sequential 3 fresh
      ≡ done (ok r, t))
    × (r.mismatch ≡ false)
    × (r.ops_performed ≡ 3 * (128 * 2) % 2 ^ 64)
    × (r.data_size ≡ 128 * 2 * 4)
run_latency_benchmark-Serves_example =
    run_latency_benchmark-Serves zeros card 1024 global sequential 3 2 server no_times fresh
      global_file two_rows (omega arith) (omega arith) (length-zeros (128 * 2)) refl server-Serves

abbrev small : Settings.Config
small = record Settings.initial {
  choice = record initial { type_set = true };
  bytesize_param = pos 1024;
  iterations_param = pos 3;
}

-- the numbers modulo 2 ^ 16, for the data of the arithmetic benchmark
abbrev wrapped : Arithmetic ℕ
wrapped = record {
  plus = λ a b. (a + b) % 2 ^ 16;
  times = λ a b. a * b % 2 ^ 16;
  minus = λ a b. (a + 2 ^ 16 - b) % 2 ^ 16;
}

abbrev numbers : Bool → Numbers ℕ
numbers is_double = record {
  arithmetic = wrapped;
  divided = λ a b. a / b;
  tenth = 0;
  expf = λ a. a;
  logf = λ a. a;
  square = λ a. a * a;
  sqrtf = λ a. a;
  cosf = λ a. a;
  sinf = λ a. a;
  tanf = λ a. a;
  nought = 0;
  one = 1;
  above_one = 1;
  below_one = 1;
  thousandth = 0;
  apart = λ k a b. not (a == b);
}

abbrev unchecked : ArithSettings.Config
unchecked = record ArithSettings.initial { check_flag = 0; double_flag = 1; max_vec = 2 }

abbrev board : Device
board = record {
  max_work_item_size = 4;
  max_compute_units = 2;
  global_mem_size = 1048576;
  sizes = 1000 ∷ 2000 ∷ [];
}

abbrev two_functions : List (Option Function)
two_functions = some add ∷ some exp ∷ []

good_run :
    (run_benchmark server no_times 4 2 1 1 (1 ∷ 1 ∷ 1 ∷ 1 ∷ []) (λ results. false) true fresh).0
    ≡ ok 0
unfolding run_benchmark
good_run = refl

-- The log of the run has only releases that succeeded.
good_releases :
    Released
      (pos 0)
      (run_benchmark server no_times 4 2 1 1
        (1 ∷ 1 ∷ 1 ∷ 1 ∷ [])
        (λ results. false)
        true
        fresh).1.log
unfolding run_benchmark
good_releases =
    all-Released (pos 0)
      (run_benchmark server no_times 4 2 1 1 (1 ∷ 1 ∷ 1 ∷ 1 ∷ []) (λ results. false) true
        fresh).1.log
      refl

run_benchmark-held_example :
    held
      (pos 0)
      (run_benchmark server no_times 4 2 1 1
        (1 ∷ 1 ∷ 1 ∷ 1 ∷ [])
        (λ results. false)
        true
        fresh).1.log
    ≡ []
run_benchmark-held_example =
    run_benchmark-held server no_times 4 2 1 1 (1 ∷ 1 ∷ 1 ∷ 1 ∷ []) (λ results. false) true refl
      fresh 0 good_run good_releases

good_invocations : (run_kernel_benchmark server 2 30 fresh).0 ≡ returned (pos 0)
unfolding run_kernel_benchmark
good_invocations = refl

good_kernel_releases : Released (pos 0) (run_kernel_benchmark server 2 30 fresh).1.log
unfolding run_kernel_benchmark
good_kernel_releases = all-Released (pos 0) (run_kernel_benchmark server 2 30 fresh).1.log refl

run_kernel_benchmark-held_example :
    (bs : List ℕ) × (vs : List ℕ) × (length bs ≡ 2)
    × (length vs ≡ 9)
    × (held (pos 0) (run_kernel_benchmark server 2 30 fresh).1.log ≡ events vs (above bs []))
run_kernel_benchmark-held_example =
    run_kernel_benchmark-held server 2 30 refl (λ log o. refl) fresh good_invocations
      good_kernel_releases

abbrev second_device : PenaltySettings.Config
second_device = record PenaltySettings.initial { device_id = pos 1; csv_flag = 1 }

penalty_main-calls_example :
    (rs : List (ℕ × List Penalty.Line)) × (t : Session ℕ) × (Penalty.penalty_main server
        (λ log i. i)
        second_device
        (some 3)
        fresh
      ≡ (ok (map (λ (i, lines). (i, map Penalty.csv_line lines)) rs), t))
    × (calls_onto t.log [] ≡ all_calls 1 0)
    × Reported (1 ∷ []) rs
unfolding is_measured
penalty_main-calls_example =
    penalty_main-calls server (λ log i. i) second_device 3 fresh (λ log p. refl) refl refl
