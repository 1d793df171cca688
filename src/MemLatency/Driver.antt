-- ===== src/MemLatency/Driver.antt =====
-- main of mem_latency/mem_latency.cpp behind the loop over the options: the devices, the jobs for
-- each, and the repetitions of a run. What is printed is left out, but for the times.
use u_clbench.Base.{
  ℕ, not, ◌||◌, Option, none, some, List, [], ◌∷◌, ◌++◌, get_elem?, ◌==◌, if◌then◌else◌,
}
use u_clbench.Base.Int.{ℤ, pos, negsuc}
use u_clbench.Base.Run.{Run, done, fault, no_fuel}
use u_clbench.Opencl.{context, release, Log, Env, ok, returned, call_only, new_or_fail}
use u_clbench.Opencl.Staged.{Staged, behind, repeat_loop, mean}
use u_clbench.MemLatency.{Limits}
use u_clbench.MemLatency.Options.{Job, device_jobs}
use u_clbench.MemLatency.Settings.{Config}
use u_clbench.MemLatency.Bench.{Report, run_latency_benchmark}

-- `used_devices`; a number is not compared with the number of devices
abbrev pub used_devices : {D : Type 0} → ℤ → List D → Run (List D)
used_devices (negsuc n) devices = if n == 0 then done devices else fault
used_devices (pos n) devices = elim (get_elem? devices n) [ none ↦ fault | some d ↦ done (d ∷ []) ]

module _ (e : Env ℕ) (stamp : Log ℕ → ℕ → ℕ) (malloc : ℕ → List ℕ) (repeats : ℕ) where
  -- the body of the inner loop: a context, the runs in it, and its release
  unfoldable pub run_job : Limits → Job → Staged ℕ (Job × Option ℕ)
  unfolding repeat_loop mean new_or_fail call_only run_latency_benchmark
  run_job info j s =
      let run =
        run_latency_benchmark e stamp malloc info j.bytesize j.mem_type j.layout j.iterations in
      behind (done (new_or_fail e context 0 (pos 1) s)) λ c s1.
        behind (repeat_loop (λ (r : Report). r.nanoseconds) run repeats 0 s1) λ total s2.
          behind (done (call_only e (release context c) s2))
            λ d s3. done (ok (j, mean repeats total), s3)

  -- the loops over layouts and types
  unfoldable pub job_loop : Limits → List Job → Staged ℕ (List (Job × Option ℕ))
  unfolding run_job
  job_loop info [] s = done (ok [], s)
  job_loop info (j ∷ jobs) s =
      behind (run_job info j s)
        λ first s1. behind (job_loop info jobs s1) λ rest s2. done (ok (first ∷ rest), s2)

  -- the loop over the devices, by what `get_device_info` tells of each
  unfoldable pub device_loop : List Job → List Limits → Staged ℕ (List (Job × Option ℕ))
  unfolding job_loop
  device_loop jobs [] s = done (ok [], s)
  device_loop jobs (d ∷ devices) s =
      behind (job_loop d jobs s)
        λ first s1. behind (device_loop jobs devices s1) λ rest s2. done (ok (first ++ rest), s2)

-- main from the test of `devices` on; `none` is NULL
unfoldable pub latency_main :
    Env ℕ
    → (Log ℕ → ℕ → ℕ)
    → (ℕ → List ℕ)
    → Config
    → Option (List Limits)
    → Staged ℕ (List (Job × Option ℕ))
unfolding device_loop device_jobs
latency_main e stamp malloc c none s = done (returned (pos 1), s)
latency_main e stamp malloc c (some devices) s =
    if not (c.usage_flag == 0) || not (c.info_flag == 0)
    then done (returned (pos 0), s)
    else elim (used_devices c.device_id devices) [
      | done used ↦
          device_loop e stamp malloc c.repeats
            (device_jobs c.choice c.iterations_param c.bytesize_param) used s
      | fault ↦ fault
      | no_fuel ↦ no_fuel
    ]
