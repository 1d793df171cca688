-- ===== src/BranchPenalty/Driver.antt =====
-- What the loop over the devices does in main of branch_penalty/branch_penalty.cpp.
use mathlib.Core.List.{append-nil, map}
use mathlib.Core.Path.{subst}
use u_clbench.Base.{
  ℕ, zero, suc, ◌+◌, ◌≡◌, refl, ap, ◌∙◌, Bool, true, false, not, List, [], ◌∷◌, length, ◌==◌, arith,
  if◌then◌else◌, some,
}
use u_clbench.Base.Int.{ℤ, pos, negsuc, ◌==ℤ◌, ==ℤ_self}
use u_clbench.Opencl.{
  kernel, Call, build_program, Log, Env, Session, Action, return_with, ok, pure, ◌>>=◌, ◌>>◌, call,
  call_only, return_if_failed, new_object,
}
use u_clbench.Opencl.Staged.{concat_map}
use u_clbench.BranchPenalty.Calls.{
  Printed, Reported, pattern_calls, run_calls, kernel_calls, objects_from, creations, build_calls,
  device_calls, all_calls, measured,
}
use u_clbench.BranchPenalty.Lines.{LineFor, LinesFor, LinesFor-Printed}
use u_clbench.BranchPenalty.Steps.{
  calls_onto, Steps, onwards, Steps-behind, Steps-bind, Steps-pure, Steps-end, Steps-call,
  Steps-new,
}
use u_clbench.BranchPenalty.{patterns, is_measured}
use u_clbench.BranchPenalty.Settings.{Config}
use u_clbench.BranchPenalty.Bench.{
  csv_line, Entry, printed, Line, time_of, measure_pattern, pattern_loop, Objects, run_patterns,
  create_objects, with_kernel, build_and_run, run_device, device_loop, penalty_main,
}

module _ (e : Env ℕ) (stamp : Log ℕ → ℕ → ℕ) where
  measure_pattern-Steps :
      (k selector normtime : ℕ) (p : ℕ × ℕ) (s : Session ℕ)
      → Steps
          (measure_pattern e stamp k selector p.0 p.1 normtime)
          s
          (pattern_calls k selector p)
          0
          (LineFor p normtime)
  unfolding measure_pattern time_of call_only
  measure_pattern-Steps k selector normtime p s = record {
    result = _;
    final = _;
    runs = refl;
    makes = record { made = λ others. refl; created = omega arith };
    holds = (refl, refl);
  }

  pattern_loop-Steps :
      (k selector : ℕ) (ps : List (ℕ × ℕ)) (normtime : ℕ) (s : Session ℕ)
      → Steps
          (pattern_loop e stamp k selector ps normtime)
          s
          (concat_map (pattern_calls k selector) ps)
          0
          (LinesFor ps normtime)
  unfolding pattern_loop
  pattern_loop-Steps k selector [] normtime s = Steps-pure [] s tt
  pattern_loop-Steps k selector (p ∷ ps) normtime s =
      Steps-bind (measure_pattern e stamp k selector p.0 p.1 normtime) _ s _ _ 0 0
        (measure_pattern-Steps k selector normtime p s)
        λ l t q.
          Steps-end (pattern_loop e stamp k selector ps l.normtime) (λ ls. l ∷ ls) t _ 0
            (pattern_loop-Steps k selector ps l.normtime t) λ ls q'. (q, q')

  run_patterns-Steps :
      (k selector results : ℕ) (s : Session ℕ)
      → Steps (run_patterns e stamp k selector results) s (run_calls k selector results) 0 Printed
  unfolding run_patterns
  run_patterns-Steps k selector results s = Steps-call e _ _ s _ 0 λ s1 n1.
      Steps-call e _ _ s1 _ 0 λ s2 n2. Steps-call e _ _ s2 _ 0 λ s3 n3.
        Steps-call e _ _ s3 _ 0 λ s4 n4. Steps-call e _ _ s4 _ 0 λ s5 n5.
          Steps-bind (pattern_loop e stamp k selector patterns 0) _ s5 _ _ 0 0
            (pattern_loop-Steps k selector patterns 0 s5)
            λ ls t q. Steps-call e _ _ t _ 0 λ u n6. Steps-pure ls u (LinesFor-Printed ls q)

  with_kernel-Steps :
      (o : Objects) (k : ℕ) (s : Session ℕ)
      → Steps (with_kernel e stamp o k) s (kernel_calls o k) 0 Printed
  unfolding with_kernel
  with_kernel-Steps o k s =
      Steps-bind (run_patterns e stamp k o.for_selector o.for_results) _ s _ _ 0 0
        (run_patterns-Steps k o.for_selector o.for_results s)
        λ ls t q. Steps-call e _ _ t _ 0 λ u1 m1. Steps-call e _ _ u1 _ 0 λ u2 m2.
          Steps-call e _ _ u2 _ 0 λ u3 m3. Steps-call e _ _ u3 _ 0 λ u4 m4.
            Steps-call e _ _ u4 _ 0 λ u5 m5. Steps-call e _ _ u5 _ 0 λ u6 m6. Steps-pure ls u6 q

  module _ (builds : (log : Log ℕ) (p : ℕ) → e.status log (build_program p) ≡ e.success) where
    -- The build succeeds, and the code goes on.
    Steps-build :
        {B : Type 0} {T : B → Type 0} (p : ℕ) (k : Action ℕ B) (s : Session ℕ) (cs : List (Call ℕ))
        (n : ℕ)
        → ((t : Session ℕ) → t.next ≡ s.next → Steps k t cs n T)
        → Steps
            (call e (build_program p) >>= λ built. return_if_failed e built (negsuc 0) >> k)
            s
            (build_program p ∷ cs)
            n
            T
    unfolding call return_if_failed
    Steps-build p k s cs n h =
        let err = e.status s.log (build_program p) in
        let s1 : Session ℕ = record s { log = (build_program p, err) ∷ s.log } in
        let goes : (err ==ℤ e.success) ≡ true =
          ap (λ x. x ==ℤ e.success) (builds s.log p) ∙ ==ℤ_self e.success in
        let g = h s1 refl in
        record {
          result = g.result;
          final = g.final;
          runs =
              ap (λ x. onwards ((if not x then return_with (negsuc 0) else pure tt) s1) (λ d. k))
                goes
              ∙ g.runs;
          makes = record { made = g.makes.made; created = g.makes.created };
          holds = g.holds;
        }

    build_and_run-Steps :
        (o : Objects) (k : ℕ) (s : Session ℕ)
        → s.next ≡ k
        → Steps (build_and_run e stamp o) s (build_calls o k) 1 Printed
    unfolding build_and_run
    build_and_run-Steps o k s n = Steps-build o.for_program _ s _ 1 λ s1 n1.
        Steps-new e kernel 0 k (λ x. with_kernel e stamp o x.0) s1 _ 0 (n1 ∙ n)
          λ err s2 n2. with_kernel-Steps o k s2

    run_device-Steps :
        (s : Session ℕ) → Steps (run_device e stamp) s (device_calls s.next) 6 Printed
    unfolding run_device create_objects new_object
    run_device-Steps s =
        let o = objects_from s.next in
        Steps-behind (create_objects e stamp) (build_and_run e stamp) s (creations o)
          (build_calls o (suc o.for_program)) 5 1 o _ refl
          (record { made = λ others. refl; created = omega arith })
          (build_and_run-Steps o (suc o.for_program) _ refl)

    -- the objects created for as many devices
    abbrev objects_of : ℕ → ℕ
    objects_of zero = 0
    objects_of (suc devices) = objects_of devices + 6

    abbrev Reports : Action ℕ (List (ℕ × List Line)) → List ℕ → Session ℕ → Type 0
    Reports m ms s = Steps m s (all_calls (length ms) s.next) (objects_of (length ms)) (Reported ms)

    device_round-Steps :
        (i : ℕ) (ms : List ℕ) (others : Action ℕ (List (ℕ × List Line)))
        → ((t : Session ℕ) → Reports others ms t)
        → (measures : Bool) (s : Session ℕ)
        → Reports
            (if measures
              then run_device e stamp >>= (λ lines. others >>= λ rest. pure ((i, lines) ∷ rest))
              else others)
            (if measures then i ∷ ms else ms)
            s
    device_round-Steps i ms others h false s = h s
    device_round-Steps i ms others h true s =
        let f = run_device-Steps s in
        Steps-behind (run_device e stamp) (λ lines. others >>= λ rest. pure ((i, lines) ∷ rest)) s
          (device_calls s.next) (all_calls (length ms) (6 + s.next)) 6 (objects_of (length ms))
          f.result f.final f.runs f.makes
          (subst
            (λ j.
              Steps (others >>= λ rest. pure ((i, f.result) ∷ rest)) f.final
                (all_calls (length ms) j) (objects_of (length ms)) (Reported (i ∷ ms)))
            f.makes.created
            (Steps-end others (λ rest. (i, f.result) ∷ rest) f.final _ _ (h f.final)
              (λ rs q. (ap (λ l. i ∷ l) q.0, (f.holds, q.1)))))

    device_loop-Steps :
        (device_id : ℤ) (n i : ℕ) (s : Session ℕ)
        → Reports (device_loop e stamp device_id n i) (measured device_id n i) s
    unfolding device_loop
    device_loop-Steps device_id zero i s = Steps-pure [] s (refl, tt)
    device_loop-Steps device_id (suc n) i s =
        device_round-Steps i (measured device_id n (i + 1))
          (device_loop e stamp device_id n (i + 1)) (device_loop-Steps device_id n (i + 1))
          (is_measured device_id i) s

-- As long as the kernel builds, whatever else OpenCL reports, with `--csv` and without `--info`: main
-- comes to its end; besides the queries for the printed properties of a device, it makes for each
-- device that is chosen, one behind another, the calls that create its six objects, set the kernel
-- up, for each pattern in order write that pattern's selector and run the kernel on it, and release
-- the objects, and no other calls; and it prints for each of these devices one line for each
-- pattern, in order, all of them relative to the time of the first.
pub penalty_main-calls :
    (e : Env ℕ) (stamp : Log ℕ → ℕ → ℕ) (c : Config) (num_devices : ℕ) (s : Session ℕ)
    → ((log : Log ℕ) (p : ℕ) → e.status log (build_program p) ≡ e.success)
    → c.info_flag ≡ 0
    → c.csv_flag ≡ 1
    → (rs : List (ℕ × List Line)) × (t : Session ℕ) × (penalty_main e stamp c (some num_devices) s
        ≡ (ok (map (λ (i, lines). (i, map csv_line lines)) rs), t))
      × (calls_onto t.log []
          ≡ calls_onto s.log (all_calls (length (measured c.device_id num_devices 0)) s.next))
      × Reported (measured c.device_id num_devices 0) rs
unfolding penalty_main
penalty_main-calls e stamp c num_devices s builds h csv =
    let f = device_loop-Steps e stamp builds c.device_id num_devices 0 s in
    let shown = λ (flag : ℕ) (rs : List (ℕ × List Line)).
      map {B = ℕ × List Entry} (λ (r : ℕ × List Line). (r.0, map (printed flag) r.1)) rs in
    (
      f.result,
      f.final,
      ap
            (λ b.
              (if not (b == 0)
                  then return_with (pos 0)
                  else (device_loop e stamp c.device_id num_devices 0 >>= λ rs.
                      pure (shown c.csv_flag rs)))
                s)
            h
          ∙ ap (λ x. onwards x (λ rs. pure (shown c.csv_flag rs))) f.runs
          ∙ ap (λ flag. (ok (shown flag f.result), f.final)) csv,
      f.makes.made [] ∙ ap (calls_onto s.log) (append-nil _),
      f.holds,
    )
