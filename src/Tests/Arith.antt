-- ===== src/Tests/Arith.antt =====
-- The arithmetic benchmark at concrete inputs.
use u_clbench.ArithSpeed.{num_fct, function_to_string}
use u_clbench.ArithSpeed.Jobs.{Range, halve_loop, work_range, vec_loop, function_named}
use u_clbench.ArithSpeed.Jobs.Halving.{demand, halved_times, halve_loop_enough, halve_loop_endless}
use u_clbench.ArithSpeed.Jobs.Names.{function_named-function_to_string}
use u_clbench.Base.Run.{done, no_fuel}
use u_clbench.ArithSpeed.Check.{Arithmetic, check_rounds, check_vliw}
use u_clbench.ArithSpeed.Check.Host.{Numbers, inconsistent}
use u_clbench.ArithSpeed.Check.Lane.{lane, check_vliw-lane}
use u_clbench.Base.{false, ltb, ◌||◌, ◌*◌, ◌-◌, ◌+◌, ℕ, ◌≤◌, ◌<◌, ◌∷◌, some, ◌≡◌, refl, [], arith}
use u_clbench.Base.Text.{codes}
use u_clbench.Base.Int.{negsuc}
use u_clbench.ArithSpeed.{add, default, native, vliw, mad_mul}
use u_clbench.ArithSpeed.Writer.{at_end}
use u_clbench.ArithSpeed.{function_to_code}
use u_clbench.ArithSpeed.Kernel.{
  write_start, is_lanes, is_vliw, cl_int, cl_double, write_kernel, gen_kernel, invalid_type,
}
use u_clbench.ArithSpeed.Kernel.Parts.{kernel_text}
use u_clbench.ArithSpeed.Kernel.Text.{write_kernel-kernel_text}

write_kernel-kernel_text_example :
    write_kernel (codes "junk") cl_double (codes "double") vliw native 2 64 3
    ≡ done (at_end (kernel_text cl_double (codes "double") vliw native 2 64 3))
unfolding write_start function_to_code is_lanes is_vliw
write_kernel-kernel_text_example =
    write_kernel-kernel_text (codes "junk") cl_double (codes "double") vliw native 2 64 3
      (omega arith)

-- two lanes and two rounds: the operations run on from lane to lane and from round to round
vliw_run :
    write_kernel [] cl_int (codes "int") vliw default 2 64 2
    ≡ done (
        at_end (
          codes
            "__kernel __attribute__((reqd_work_group_size (64,1,1))) void arith_speed(\n \t            __global int* input, \n \t            __global int* output, \n \t            const unsigned int iterations) \n { \n   unsigned int i; \n   unsigned int gid = get_global_id(0);\n  int a0 = input[0], b0 = input[2];\n  int a1 = input[1], b1 = input[3];\n  for(i = 0; i < iterations; ++i) {\n    a0 += b0;a1 *= b1;\n    a0 -= b0;a1 += b1;\n  }\n  output[2*gid+0] = a0;\n  output[2*gid+1] = a1;\n}\n"))
unfolding write_kernel
vliw_run = refl

-- there are no vectors of `int`
int_vector_run : gen_kernel [] cl_int mad_mul default 2 64 1 ≡ invalid_type (negsuc 999)
unfolding gen_kernel
int_vector_run = refl

abbrev card : Range
card = record { local_size = 256; global_size = 4096 }

-- 4096 work items with vectors of 16 `float` and 100000 KB: two halvings
work_range_run :
    work_range 5000 4 16 100000 card 1 ≡ done (record { local_size = 64; global_size = 1024 })
unfolding work_range
work_range_run = refl

vec_loop_run : vec_loop 6 16 1 ≡ done (1 ∷ 2 ∷ 4 ∷ 8 ∷ 16 ∷ [])
unfolding vec_loop
vec_loop_run = refl

halve_loop_enough_example :
    (n : ℕ) × (halve_loop 5000 4 16 100000 card ≡ done (halved_times n card))
    × (demand 4 16 (halved_times n card) ≤ 100000)
    × ((m : ℕ) → m < n → 100000 < demand 4 16 (halved_times m card))
halve_loop_enough_example =
    halve_loop_enough 5000 4 16 100000 card (omega arith) (omega arith) (omega arith)

halve_loop_endless_example : halve_loop 70 8 16 255 card ≡ no_fuel
halve_loop_endless_example = halve_loop_endless 70 8 16 255 card (omega arith) (omega arith)

function_named-function_to_string_example :
    function_named (function_to_string mad_mul) ≡ some mad_mul
function_named-function_to_string_example =
    function_named-function_to_string mad_mul (λ h. absurd (mad_mul-ne-num_fct h))
  where
    mad_mul-ne-num_fct : mad_mul ≡ num_fct → ⊥
    mad_mul-ne-num_fct h = cc

-- natural numbers in place of the numbers of the benchmark
abbrev naturals : Arithmetic ℕ
naturals = record { plus = λ x y. x + y; times = λ x y. x * y; minus = λ x y. x - y }

-- three rounds of width 2: + 2, - 2, * 2
check_rounds_run : check_rounds naturals 2 3 0 2 5 ≡ 10
unfolding check_rounds
check_rounds_run = refl

check_vliw-lane_example : check_vliw naturals 2 3 1 5 ≡ lane naturals 2 3 1 5
check_vliw-lane_example = check_vliw-lane naturals 2 3 1 5

-- `apart` is any difference
abbrev counting : Numbers ℕ
counting = record {
  arithmetic = naturals;
  divided = λ x y. x;
  tenth = 1;
  expf = λ x. x + x;
  logf = λ x. x;
  square = λ x. x * x;
  sqrtf = λ x. x;
  cosf = λ x. x;
  sinf = λ x. x;
  tanf = λ x. x;
  nought = 0;
  one = 1;
  above_one = 2;
  below_one = 1;
  thousandth = 1;
  apart = λ k x y. ltb x y || ltb y x;
}

-- twenty numbers of Fibonacci
consistent_run : inconsistent counting add 20 2 1 1 1 10946 ≡ false
unfolding inconsistent
consistent_run = refl
