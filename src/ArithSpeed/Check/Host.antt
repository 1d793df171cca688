-- ===== src/ArithSpeed/Check/Host.antt =====
-- What the host expects of the kernel of each function, and the comparison of the results, in
-- `run_benchmark` of arith_speed/arith_speed.cpp. The numbers and their functions are a parameter.
use u_clbench.Base.{ℕ, zero, suc, Bool}
use u_clbench.ArithSpeed.{
  Function, add, sub, mul, div, mad, mad_mul, vec, vliw, exp, log, sqr, sqrt, cos, sin, tan,
  num_fct,
}
use u_clbench.ArithSpeed.Check.{Arithmetic, check_vliw}

-- the operators, `0.1`, the functions of math.h, the constants that the data are made of, and
-- `fabs(a - r) > MAX_ERROR * k`
pub record Numbers (T : Type 0) : Type 0 where
  pub arithmetic : Arithmetic T
  pub divided : T → T → T
  pub tenth : T
  pub expf : T → T
  pub logf : T → T
  pub square : T → T
  pub sqrtf : T → T
  pub cosf : T → T
  pub sinf : T → T
  pub tanf : T → T
  pub nought : T
  pub one : T
  pub above_one : T
  pub below_one : T
  pub thousandth : T
  pub apart : ℕ → T → T → Bool

module _ {T : Type 0} (num : Numbers T) where
  -- `data[i]` and `data[i+vec]`
  unfoldable pub initial_data : Function → T × T
  initial_data add = (num.one, num.one)
  initial_data sub = (num.one, num.one)
  initial_data mul = (num.above_one, num.below_one)
  initial_data div = (num.above_one, num.below_one)
  initial_data mad_mul = (num.above_one, num.below_one)
  initial_data vec = (num.above_one, num.below_one)
  initial_data vliw = (num.above_one, num.below_one)
  initial_data mad = (num.one, num.one)
  initial_data tan = (num.thousandth, num.nought)
  initial_data f = (num.one, num.nought)

  -- `a * b + 0.1`
  abbrev pub multiply_add : T → T → T
  multiply_add a b = num.arithmetic.plus (num.arithmetic.times a b) num.tenth

  -- the loops of the cases for two operands: `a` behind them
  unfoldable pub binary_loop : (T → T → T) → ℕ → T → T → T
  binary_loop op zero a b = a
  binary_loop op (suc n) a b = binary_loop op n b (op a b)

  -- the loop of `_MAD_MUL`
  unfoldable pub mad_mul_loop : ℕ → T → T → T → T → T
  mad_mul_loop zero a b c d = a
  mad_mul_loop (suc n) a b c d = let tmp = multiply_add a b in mad_mul_loop n b tmp d tmp

  -- the loop of `_VEC`
  unfoldable pub minus_loop : ℕ → T → T → T
  minus_loop zero a b = a
  minus_loop (suc n) a b = minus_loop n (num.arithmetic.minus a b) b

  -- the loops of the cases for one operand
  unfoldable pub unary_loop : (T → T) → ℕ → T → T
  unary_loop f zero a = a
  unary_loop f (suc n) a = unary_loop f n (f a)

  -- `a` behind the `switch`, for `size`, `_size` and `vec`, from `data[0]` and `data[vec]`
  unfoldable pub expected : Function → ℕ → ℕ → ℕ → T → T → T
  unfolding binary_loop mad_mul_loop minus_loop unary_loop check_vliw
  expected add size rounds lanes a b = binary_loop num.arithmetic.plus size a b
  expected mul size rounds lanes a b = binary_loop num.arithmetic.times size a b
  expected sub size rounds lanes a b = binary_loop num.arithmetic.minus size a b
  expected div size rounds lanes a b = binary_loop num.divided size a b
  expected mad size rounds lanes a b = binary_loop multiply_add size a b
  expected mad_mul size rounds lanes a b = mad_mul_loop size a b b a
  expected vec size rounds lanes a b = minus_loop size a b
  expected vliw size rounds lanes a b = check_vliw num.arithmetic lanes rounds b a
  expected exp size rounds lanes a b = unary_loop num.expf size a
  expected log size rounds lanes a b = unary_loop num.logf size a
  expected sqr size rounds lanes a b = unary_loop num.square size a
  expected sqrt size rounds lanes a b = unary_loop num.sqrtf size a
  expected cos size rounds lanes a b = unary_loop num.cosf size a
  expected sin size rounds lanes a b = unary_loop num.sinf size a
  expected tan size rounds lanes a b = unary_loop num.tanf size a
  expected num_fct size rounds lanes a b = num.nought

  -- the bound on the error, in multiples of MAX_ERROR
  unfoldable pub error_bound : Function → ℕ
  error_bound sin = 5000
  error_bound tan = 100
  error_bound f = 1

  -- "Check consistency": whether the run returns 1 behind it
  unfoldable pub inconsistent : Function → ℕ → ℕ → ℕ → T → T → T → Bool
  unfolding expected error_bound
  inconsistent f size rounds lanes a b result =
      num.apart (error_bound f) (expected f size rounds lanes a b) result
