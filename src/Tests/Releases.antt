-- ===== src/Tests/Releases.antt =====
-- Logs all of whose releases succeeded.
use u_clbench.Base.{◌≡◌, arith, Bool, true, [], ◌∷◌, ◌&&◌}
use u_clbench.Base.Int.{ℤ, ◌==ℤ◌, ==ℤ_iff}
use u_clbench.Opencl.{
  Call, create, release, write_buffer, read_buffer, copy_buffer, store, set_kernel_arg,
  build_program, enqueue_kernel, finish, flush, set_kernel_value, get_profiling, wait_for_events,
  Log,
}
use u_clbench.Opencl.Held.{Released}

-- the code of a release is success
abbrev is_taken : {F : Type 0} → ℤ → Call F → ℤ → Bool
is_taken success (release k o) err = err ==ℤ success
is_taken success c err = true

abbrev pub are_taken : {F : Type 0} → ℤ → Log F → Bool
are_taken success [] = true
are_taken success ((c, err) ∷ log) = is_taken success c err && are_taken success log

both : (a b : Bool) → (a && b) ≡ true → (a ≡ true) × (b ≡ true)
both a b h = ground arith

pub all-Released :
    {F : Type 0} (success : ℤ) (log : Log F) → are_taken success log ≡ true → Released success log
all-Released success [] h = tt
all-Released success ((release k o, err) ∷ log) h =
    let (p, q) = both (err ==ℤ success) (are_taken success log) h in
    ((==ℤ_iff err success).0 p, all-Released success log q)
all-Released success ((create k o n, err) ∷ log) h = all-Released success log h
all-Released success ((write_buffer b v, err) ∷ log) h = all-Released success log h
all-Released success ((read_buffer b n, err) ∷ log) h = all-Released success log h
all-Released success ((copy_buffer a b, err) ∷ log) h = all-Released success log h
all-Released success ((store b v, err) ∷ log) h = all-Released success log h
all-Released success ((set_kernel_arg k i n, err) ∷ log) h = all-Released success log h
all-Released success ((build_program p, err) ∷ log) h = all-Released success log h
all-Released success ((enqueue_kernel k g l, err) ∷ log) h = all-Released success log h
all-Released success ((finish, err) ∷ log) h = all-Released success log h
all-Released success ((flush, err) ∷ log) h = all-Released success log h
all-Released success ((set_kernel_value k i n, err) ∷ log) h = all-Released success log h
all-Released success ((get_profiling i, err) ∷ log) h = all-Released success log h
all-Released success ((wait_for_events, err) ∷ log) h = all-Released success log h
