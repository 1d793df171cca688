-- ===== src/MemLatency/Whole.antt =====
-- The whole of `run_latency_benchmark` of mem_latency/mem_latency.cpp, on a device that runs the
-- kernel as its source says.
use u_clbench.Base.{ℕ, suc, ◌+◌, ◌*◌, ◌%◌, ◌^◌, ◌≤◌, ◌≡◌, refl, ap, ◌∙◌, false, List, length}
use u_clbench.Base.Int.{pos}
use u_clbench.Base.Run.{done}
use u_clbench.Opencl.{Log, Env, Session, Outcome, ok, returned, exited}
use u_clbench.Opencl.Triples.{After}
use u_clbench.MemLatency.{MemType, DataLayout, Limits}
use u_clbench.MemLatency.Device.{latency_cnt}
use u_clbench.MemLatency.Host.{num_elems, prepared, prepared-latency_cnt}
use u_clbench.MemLatency.Bench.{
  Report, source_path, latency_calls, calls_behind, run_latency_benchmark,
}
use u_clbench.MemLatency.Serve.{Serves}
use u_clbench.MemLatency.Computed.{Runs-latency_calls}

pub After-goes_on :
    {A : Type 0} (Q : A → Type 0) (o : Outcome A) (s : Session ℕ)
    → After (λ err t. ⊥) (λ code t. ⊥) (λ a t. Q a) o s
    → (a : A) × (o ≡ ok a) × Q a
After-goes_on Q (ok a) s h = (a, refl, h)
After-goes_on Q (returned err) s h = absurd h
After-goes_on Q (exited code) s h = absurd h

-- On an OpenCL whose calls succeed and that runs the kernel of global_latency.cl as its source says,
-- a run for a type of memory whose kernel that is, which is global memory, and for two rows of 128 elements or more, up to 2 ^ 32 of them, comes to its end and reports success: there is no
-- mismatch between the sums of the host and of the device, the operations are the elements times
-- the iterations, modulo 2 ^ 64, and the size is that of the elements.
pub run_latency_benchmark-Serves :
    (malloc : ℕ → List ℕ) (info : Limits) (size : ℕ) (mt : MemType) (layout : DataLayout)
    (iterations m : ℕ) (e : Env ℕ) (stamp : Log ℕ → ℕ → ℕ) (s : Session ℕ)
    → source_path mt ≡ 0
    → num_elems mt info size ≡ 128 * m
    → 2 ≤ m
    → 128 * m + 128 ≤ 2 ^ 32
    → length (malloc (128 * m)) ≡ 128 * m
    → e.success ≡ pos 0
    → Serves e
    → (r : Report) × (t : Session ℕ) × (run_latency_benchmark e stamp malloc info size mt layout
          iterations s
        ≡ done (ok r, t))
      × (r.mismatch ≡ false)
      × (r.ops_performed ≡ iterations * (128 * m) % 2 ^ 64)
      × (r.data_size ≡ 128 * m * 4)
unfolding run_latency_benchmark
run_latency_benchmark-Serves malloc info size mt layout iterations m e stamp s file n two small l z
      good =
    let (buf, w, ran, ops, whole, counted) =
      prepared-latency_cnt layout (128 * m) m iterations (malloc (128 * m)) refl two small l in
    let same_fuel = ap (λ x. latency_cnt (suc x) buf (iterations % 2 ^ 32)) whole ∙ counted in
    let o = latency_calls e stamp 0 buf w iterations s in
    let (r, p, (mismatch, performed, data_size)) =
      After-goes_on _ o.0 o.1
        ((Runs-latency_calls e stamp good z buf w iterations same_fuel).runs s tt) in
    (
      r,
      o.1,
      ap
            (λ f.
              calls_behind e stamp f
                (prepared layout (num_elems mt info size) iterations
                  (malloc (num_elems mt info size)))
                iterations s)
            file
          ∙ ap (λ x. calls_behind e stamp 0 (prepared layout x iterations (malloc x)) iterations s)
              n
          ∙ ap (λ x. calls_behind e stamp 0 x iterations s) ran
          ∙ ap (λ x. done (x, o.1)) p,
      mismatch,
      performed ∙ ap (λ x. iterations * x % 2 ^ 64) ops,
      data_size ∙ ap (λ x. x * 4) whole,
    )
