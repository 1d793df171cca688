-- ===== src/Tests/Bandwidth.antt =====
-- The bandwidth and the streaming benchmark on an OpenCL that keeps what is written into its buffers.
use u_clbench.Base.{
  ℕ, ◌+◌, ◌*◌, ◌<◌, ◌≤◌, ◌≡◌, refl, arith, Bool, false, not, [], ◌∷◌, ◌==◌, ==_self,
}
use u_clbench.Base.Int.{pos}
use u_clbench.Base.Run.{done}
use u_clbench.Opencl.{
  Env, Session, returned, new_or_return, call, map_or_return, call_only, contents_seen,
}
use u_clbench.Opencl.Held.{held, Released}
use u_clbench.Tests.Releases.{all-Released}
use u_clbench.Opencl.Honest.{Honest, contents}
use u_clbench.Bandwidth.{
  measure_device_to_host, host_to_device, device_to_host, pinned, mapped, direct, measure,
}
use u_clbench.Bandwidth.Balance.{measure-held}
use u_clbench.Bandwidth.Honest.{measure-returned}
use u_clbench.Streaming.{global_space, private_space, many_items, elements_to_alloc}
use u_clbench.Streaming.Measure.{measure_local_memory}
use u_clbench.Streaming.Balance.{measure_local_memory-held}
use u_clbench.Streaming.Bounds.{many_items-covers}

abbrev differs : ℕ → ℕ → Bool
differs a b = not (a == b)

differs_self : (a : ℕ) → differs a a ≡ false
differs_self a = rw (==_self a) refl

abbrev keeper : Env ℕ
keeper = record { success = pos 0; status = λ log c. pos 0; seen = contents }

keeper-Honest : Honest keeper
keeper-Honest = record { answers = λ log c. refl; shows = λ log b. refl }

abbrev start : Session ℕ
start = record { log = []; next = 0 }

measure-returned_example :
    (measure differs keeper host_to_device (3 ∷ 1 ∷ []) 8 2 pinned mapped start).0
    ≡ returned (pos 0)
measure-returned_example =
    measure-returned differs differs_self keeper keeper-Honest host_to_device (3 ∷ 1 ∷ []) 8 2
      pinned mapped start refl (omega arith)

good_releases :
    Released
      (pos 0)
      (measure differs keeper device_to_host (3 ∷ 1 ∷ []) 8 2 pinned direct start).1.log
unfolding measure_device_to_host new_or_return call map_or_return call_only contents_seen
good_releases =
    all-Released (pos 0)
      (measure differs keeper device_to_host (3 ∷ 1 ∷ []) 8 2 pinned direct start).1.log refl

measure-held_example :
    held (pos 0) (measure differs keeper device_to_host (3 ∷ 1 ∷ []) 8 2 pinned direct start).1.log
    ≡ []
measure-held_example =
    measure-held differs keeper device_to_host (3 ∷ 1 ∷ []) 8 2 pinned direct start
      (measure-returned differs differs_self keeper keeper-Honest device_to_host (3 ∷ 1 ∷ []) 8 2
        pinned direct start refl (omega arith))
      good_releases

good_local_releases :
    Released (pos 0) (measure_local_memory keeper global_space 1 512 2 false 64 128 start).1.log
unfolding measure_local_memory
good_local_releases =
    all-Released (pos 0) (measure_local_memory keeper global_space 1 512 2 false 64 128 start).1.log
      refl

measure_local_memory-held_example :
    held (pos 0) (measure_local_memory keeper global_space 1 512 2 false 64 128 start).1.log ≡ []
unfolding measure_local_memory
measure_local_memory-held_example =
    measure_local_memory-held keeper refl global_space 1 512 2 false 64 128 start refl
      good_local_releases

many_items-covers_example :
    (local : ℕ) × ((alloc : ℕ) × ((many_items 1024 30 100 ≡ done (local, 30 * local))
        × ((elements_to_alloc private_space 100 local 0 ≡ done alloc)
            × ((0 < local)
                × ((local ≤ 1024)
                    × ((local ≤ 100) × ((100 ≤ alloc * local) × (alloc * local < 100 + local))))))))
many_items-covers_example = many_items-covers 1024 30 100 0 (omega arith) (omega arith)

many_items_run : many_items 1024 30 100 ≡ done (64, 1920)
unfolding many_items
many_items_run = refl
