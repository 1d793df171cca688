-- ===== src/BranchPenalty/Calls.antt =====
-- Which calls the loop over the devices makes in branch_penalty/branch_penalty.cpp, and what it
-- prints.
use u_clbench.Base.{ℕ, zero, suc, ◌+◌, ◌*◌, ◌≡◌, List, [], ◌∷◌, ◌++◌, map, All, if◌then◌else◌}
use u_clbench.Base.Int.{ℤ}
use u_clbench.Opencl.{
  context, queue, program, kernel, buffer, Call, create, release, write_buffer, read_buffer,
  set_kernel_value, build_program, enqueue_kernel, get_profiling, finish, wait_for_events,
}
use u_clbench.Opencl.Staged.{concat_map}
use u_clbench.BranchPenalty.{bpsize, branch_selector, patterns, is_measured}
use u_clbench.BranchPenalty.Bench.{Line, Objects}

abbrev pub pattern_of : Line → ℕ × ℕ
pattern_of l = (l.branchtypes, l.branchsize)

-- the lines of a device: one for each pattern, in order, each with the time of the first
abbrev pub Printed : List Line → Type 0
Printed [] = ⊥
Printed (l ∷ ls) =
    (map pattern_of (l ∷ ls) ≡ patterns) × All (λ (m : Line). m.normtime ≡ l.time_taken) (l ∷ ls)

-- what is printed for the devices with these numbers: for each one line for a pattern
abbrev pub Reported : List ℕ → List (ℕ × List Line) → Type 0
Reported ms rs = (map (λ r. r.0) rs ≡ ms) × All (λ r. Printed r.1) rs

-- the calls for one pattern: its selector is what the kernel then runs on
abbrev pub pattern_calls : ℕ → ℕ → ℕ × ℕ → List (Call ℕ)
pattern_calls k selector p =
    write_buffer selector (branch_selector p.0 p.1)
    ∷ enqueue_kernel k bpsize bpsize
    ∷ finish
    ∷ wait_for_events
    ∷ get_profiling 0
    ∷ get_profiling 1
    ∷ []

-- the calls of kernel `k`: its arguments, three runs to warm up, and the patterns
abbrev pub run_calls : ℕ → ℕ → ℕ → List (Call ℕ)
run_calls k selector results =
    set_kernel_value k 0 selector
      ∷ set_kernel_value k 1 results
      ∷ enqueue_kernel k bpsize bpsize
      ∷ enqueue_kernel k bpsize bpsize
      ∷ enqueue_kernel k bpsize bpsize
      ∷ concat_map (pattern_calls k selector) patterns
    ++ (read_buffer results (bpsize * 4) ∷ [])

-- the calls with kernel `k`, and the releases
abbrev pub kernel_calls : Objects → ℕ → List (Call ℕ)
kernel_calls o k =
    run_calls k o.for_selector o.for_results
    ++ (release buffer o.for_selector
        ∷ release buffer o.for_results
        ∷ release context o.for_context
        ∷ release kernel k
        ∷ release program o.for_program
        ∷ release queue o.for_queue
        ∷ [])

-- the objects of a device but for its kernel, by the number of the first
abbrev pub objects_from : ℕ → Objects
objects_from c = record {
  for_context = c;
  for_queue = suc c;
  for_selector = suc (suc c);
  for_results = suc (suc (suc c));
  for_program = suc (suc (suc (suc c)));
}

abbrev pub creations : Objects → List (Call ℕ)
creations o =
    create context o.for_context 0
    ∷ create queue o.for_queue 0
    ∷ create buffer o.for_selector (bpsize * 4)
    ∷ create buffer o.for_results (bpsize * 4)
    ∷ create program o.for_program 0
    ∷ []

-- the calls behind the creations
abbrev pub build_calls : Objects → ℕ → List (Call ℕ)
build_calls o k = build_program o.for_program ∷ create kernel k 0 ∷ kernel_calls o k

-- the calls of a device, by the number of the first of the six objects that are created for it
abbrev pub device_calls : ℕ → List (Call ℕ)
device_calls c = let o = objects_from c in creations o ++ build_calls o (suc o.for_program)

-- the calls of as many devices, one behind another
abbrev pub all_calls : ℕ → ℕ → List (Call ℕ)
all_calls zero n = []
all_calls (suc devices) n = device_calls n ++ all_calls devices (6 + n)

-- the numbers of the devices that are measured, `n` of them from `i` on
abbrev pub measured : ℤ → ℕ → ℕ → List ℕ
measured device_id zero i = []
measured device_id (suc n) i =
    let others = measured device_id n (i + 1) in
    if is_measured device_id i then i ∷ others else others
