-- ===== src/ArithSpeed/Unchecked.antt =====
-- main of arith_speed/arith_speed.cpp without the checks of the results, on an OpenCL whose calls
-- succeed.
use u_clbench.Base.{ℕ, ◌≡◌}
use u_clbench.Base.Int.{ℤ, pos}
use u_clbench.Opencl.{Call, Log, Env}

abbrev Over : {A : Type 0} → A → Type 0
Over a = Unit

module _ {F : Type 0} (e : Env F) (stamp : Log F → ℕ → ℕ)
    (answers : (log : Log F) (c : Call F) → e.status log c ≡ e.success)
    (zero_code : e.success ≡ pos 0) where
  abbrev Succeeded : ℤ → Type 0
  Succeeded err = err ≡ e.success
