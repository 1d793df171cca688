-- ===== src/MemLatency/Measured.antt =====
-- main of mem_latency/mem_latency.cpp, on a device that runs the kernel as its source says.
use u_clbench.Base.{ℕ, ◌+◌, ◌*◌, ◌^◌, ◌≤◌, ◌≡◌, Option, List, [], ◌∷◌, ◌++◌, map, All}
use u_clbench.Opencl.Staged.{Timed}
use u_clbench.MemLatency.{Limits}
use u_clbench.MemLatency.Host.{num_elems}
use u_clbench.MemLatency.Options.{Job}
use u_clbench.MemLatency.Bench.{source_path}

-- The kernel for a job is that of global_latency.cl, the number of elements is two rows or more, and `newindex` does not wrap around.
abbrev pub Fits : Limits → Job → Type 0
Fits info j =
    (source_path j.mem_type ≡ 0)
    × (m : ℕ) × (num_elems j.mem_type info j.bytesize ≡ 128 * m)
    × (2 ≤ m)
    × (128 * m + 128 ≤ 2 ^ 32)

-- each job with a time that is a number
abbrev pub Measured : List Job → List (Job × Option ℕ) → Type 0
Measured jobs measured = (map (λ x. x.0) measured ≡ jobs) × All (λ x. Timed x.1) measured

-- the jobs of each device behind one another
abbrev pub jobs_on : List Job → List Limits → List Job
jobs_on jobs [] = []
jobs_on jobs (d ∷ devices) = jobs ++ jobs_on jobs devices
