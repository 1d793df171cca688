-- ===== src/BranchPenalty/Bench.antt =====
-- The loop over the devices in main of branch_penalty/branch_penalty.cpp, as calls of OpenCL.
-- The queries that `print_short_device_info` and `print_csv_device_info` make are left out.
-- `shrCheckError` prints what failed and the code goes on; that is left out, as are the build log
-- and the arguments that no other call depends on. A selector's floats are the natural numbers that
-- they stand for, and events are no objects here.
use u_clbench.Base.{
  ℕ, zero, suc, ◌+◌, ◌-◌, ◌*◌, ◌%◌, ◌^◌, Option, none, some, List, [], ◌∷◌, map, not, ◌&&◌, ◌==◌,
  if◌then◌else◌,
}
use u_clbench.Base.Int.{ℤ, pos, negsuc}
use u_clbench.Opencl.{
  ◌>>=◌, ◌>>◌, context, queue, program, kernel, buffer, release, write_buffer, read_buffer,
  set_kernel_value, build_program, enqueue_kernel, get_profiling, finish, wait_for_events, Log, Env,
  Action, ok, pure, return_with, call, call_only, return_if_failed, new_object,
}
use u_clbench.BranchPenalty.{bpsize, branch_selector, patterns, is_measured}
use u_clbench.BranchPenalty.Settings.{Config}

-- what is known of a pattern behind its run, the times in nanoseconds
pub record Line : Type 0 where
  pub branchtypes : ℕ
  pub branchsize : ℕ
  pub time_taken : ℕ
  pub normtime : ℕ

-- What is printed for a pattern: with --csv a line, whose last column is the quotient of the times,
-- and otherwise the time alone, in one line for all that have as many types of branches.
pub data Entry : Type 0 where
  csv_line : Line → Entry
  number : ℕ → Entry

abbrev pub printed : ℕ → Line → Entry
printed csv_flag l = if csv_flag == 0 then number l.time_taken else csv_line l

-- the numbers of the objects that a device has besides its kernel
pub record Objects : Type 0 where
  pub for_context : ℕ
  pub for_queue : ℕ
  pub for_selector : ℕ
  pub for_results : ℕ
  pub for_program : ℕ

module _ (e : Env ℕ) (stamp : Log ℕ → ℕ → ℕ) where
  -- `time_start` or `time_end`, behind both questions for them; whatever stands there, where the
  -- question failed
  unfoldable pub time_of : ℕ → Action ℕ ℕ
  time_of i s = (ok (stamp s.log i), s)

  -- the body of the inner loop, with the time of the first pattern
  unfoldable pub measure_pattern : ℕ → ℕ → ℕ → ℕ → ℕ → Action ℕ Line
  unfolding call_only time_of
  measure_pattern k selector t b normtime = do
    call_only e (write_buffer selector (branch_selector t b))
    call_only e (enqueue_kernel k bpsize bpsize)
    call_only e finish
    call_only e wait_for_events
    call_only e (get_profiling 0)
    call_only e (get_profiling 1)
    time_start ← time_of 0
    time_end ← time_of 1
    let time_taken = (time_end + 2 ^ 64 - time_start) % 2 ^ 64 in
        pure record {
          branchtypes = t;
          branchsize = b;
          time_taken = time_taken;
          normtime = if t == 1 && b == 1 then time_taken else normtime;
        }

  -- both loops, over the patterns left
  unfoldable pub pattern_loop : ℕ → ℕ → List (ℕ × ℕ) → ℕ → Action ℕ (List Line)
  unfolding measure_pattern
  pattern_loop k selector [] normtime = pure []
  pattern_loop k selector (p ∷ ps) normtime = do
    line ← measure_pattern k selector p.0 p.1 normtime
    lines ← pattern_loop k selector ps line.normtime
    pure (line ∷ lines)

  -- from the arguments on, for the two buffers
  unfoldable pub run_patterns : ℕ → ℕ → ℕ → Action ℕ (List Line)
  unfolding call_only pattern_loop
  run_patterns k selector results = do
    call_only e (set_kernel_value k 0 selector)
    call_only e (set_kernel_value k 1 results)
    call_only e (enqueue_kernel k bpsize bpsize)
    call_only e (enqueue_kernel k bpsize bpsize)
    call_only e (enqueue_kernel k bpsize bpsize)
    lines ← pattern_loop k selector patterns 0
    call_only e (read_buffer results (bpsize * 4))
    pure lines

  -- the objects that are created in front of the build; none is asked for whether it could be
  unfoldable pub create_objects : Action ℕ Objects
  unfolding new_object
  create_objects = do
    c ← new_object e context 0
    q ← new_object e queue 0
    selector ← new_object e buffer (bpsize * 4)
    results ← new_object e buffer (bpsize * 4)
    p ← new_object e program 0
    pure record {
      for_context = c.0;
      for_queue = q.0;
      for_selector = selector.0;
      for_results = results.0;
      for_program = p.0;
    }

  -- behind the creation of kernel `k`
  unfoldable pub with_kernel : Objects → ℕ → Action ℕ (List Line)
  unfolding run_patterns call_only
  with_kernel o k = do
    lines ← run_patterns k o.for_selector o.for_results
    call_only e (release buffer o.for_selector)
    call_only e (release buffer o.for_results)
    call_only e (release context o.for_context)
    call_only e (release kernel k)
    call_only e (release program o.for_program)
    call_only e (release queue o.for_queue)
    pure lines

  -- the build, and `return -1` where it fails
  unfoldable pub build_and_run : Objects → Action ℕ (List Line)
  unfolding call return_if_failed new_object with_kernel
  build_and_run o = do
    built ← call e (build_program o.for_program)
    return_if_failed e built (negsuc 0)
    k ← new_object e kernel 0
    with_kernel o k.0

  -- the body of the loop
  unfoldable pub run_device : Action ℕ (List Line)
  unfolding create_objects build_and_run
  run_device = create_objects >>= build_and_run

  -- the loop over `num_devices`, with the rounds left: the lines of each device that is measured
  unfoldable pub device_loop : ℤ → ℕ → ℕ → Action ℕ (List (ℕ × List Line))
  unfolding run_device
  device_loop device_id zero i = pure []
  device_loop device_id (suc n) i =
      let others = device_loop device_id n (i + 1) in
      if is_measured device_id i
      then (do lines ← run_device; rest ← others; pure ((i, lines) ∷ rest))
      else others

  -- main from the test of `clDevices` on, by the number of devices; `none` is NULL
  unfoldable pub penalty_main : Config → Option ℕ → Action ℕ (List (ℕ × List Entry))
  unfolding device_loop
  penalty_main c none = return_with (pos 1)
  penalty_main c (some num_devices) = if not (c.info_flag == 0) then return_with (pos 0) else (do
    measured ← device_loop c.device_id num_devices 0
    pure (map (λ (i, lines). (i, map (printed c.csv_flag) lines)) measured))
