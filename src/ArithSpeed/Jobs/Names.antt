-- ===== src/ArithSpeed/Jobs/Names.antt =====
-- The names of the functions.
use u_clbench.Base.{◌≡◌, ◌≢◌, refl, some}
use u_clbench.ArithSpeed.{
  Function, function_to_string, add, mul, sub, div, mad, mad_mul, vec, vliw, exp, log, sqr, sqrt,
  cos, sin, tan, num_fct,
}
use u_clbench.ArithSpeed.Jobs.{function_named}

-- The name that is printed for a function is the name by which it is chosen.
pub function_named-function_to_string :
    (f : Function) → f ≢ num_fct → function_named (function_to_string f) ≡ some f
unfolding function_named function_to_string
function_named-function_to_string add h = refl
function_named-function_to_string mul h = refl
function_named-function_to_string sub h = refl
function_named-function_to_string div h = refl
function_named-function_to_string mad h = refl
function_named-function_to_string mad_mul h = refl
function_named-function_to_string vec h = refl
function_named-function_to_string vliw h = refl
function_named-function_to_string exp h = refl
function_named-function_to_string log h = refl
function_named-function_to_string sqr h = refl
function_named-function_to_string sqrt h = refl
function_named-function_to_string cos h = refl
function_named-function_to_string sin h = refl
function_named-function_to_string tan h = refl
function_named-function_to_string num_fct h = absurd (h refl)
