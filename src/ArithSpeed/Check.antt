-- ===== src/ArithSpeed/Check.antt =====
-- The check of the results in `run_benchmark` of arith_speed/arith_speed.cpp: that of `vliw`. The
-- numbers and their operations are a parameter.
pub mod Host
pub mod Lane
use u_clbench.Base.{ℕ, zero, suc, ◌+◌, ◌%◌, Bool, ◌==◌, if◌then◌else◌}

-- `+=`, `*=` and `-=`
pub record Arithmetic (T : Type 0) : Type 0 where
  pub plus : T → T → T
  pub times : T → T → T
  pub minus : T → T → T

module _ {T : Type 0} (ops : Arithmetic T) where
  -- one round of the loop of `case 1`
  unfoldable pub round_one : ℕ → T → T → T
  round_one i b a =
      let a1 = if i % 3 == 0 then ops.plus a b else a in
      let a2 = if i % 3 == 1 then ops.times a1 b else a1 in
      if i % 3 == 2 then ops.minus a2 b else a2

  -- one round of the loop of `case 2`
  unfoldable pub round_two : ℕ → T → T → T
  round_two i b a =
      let a1 = if i % 3 == 0 then ops.plus a b else a in
      let a2 = if i % 3 == 1 then ops.minus a1 b else a1 in
      if i % 3 == 2 then ops.times a2 b else a2

  -- one round of the loop of the case that `ops` selects
  unfoldable pub check_round : ℕ → ℕ → T → T → T
  unfolding round_one round_two
  check_round vec i b a =
      if vec % 3 == 1
      then round_one i b a
      else if vec % 3 == 2
      then round_two i b a
      else ops.plus a b

  -- the loop over `i`, with the rounds left
  unfoldable pub check_rounds : ℕ → ℕ → ℕ → T → T → T
  unfolding check_round
  check_rounds vec zero i b a = a
  check_rounds vec (suc n) i b a = check_rounds vec n (i + 1) b (check_round vec i b a)

  -- the loop over `j` up to `_size`, with `ARITH_OPERATIONS` operations in each round
  unfoldable pub check_vliw : ℕ → ℕ → T → T → T
  unfolding check_rounds
  check_vliw vec zero b a = a
  check_vliw vec (suc n) b a = check_vliw vec n b (check_rounds vec 100 0 b a)
