-- ===== src/ArithSpeed.antt =====
-- The arithmetic benchmark, arith_speed/arith_speed.cpp: its functions and types, and the source
-- of a function's operations.
pub mod Format
pub mod Settings
pub mod Bench
pub mod Driver
pub mod Lines
pub mod Unchecked
pub mod Leaks
pub mod Writer
pub mod Kernel
pub mod Jobs
pub mod Check
use u_clbench.Base.{ℕ, Bool, true, false, Option, none, some}
use u_clbench.Base.Text.{Bytes, codes}

-- `_FUNCTION_TYPE`
pub data FunctionType : Type 0 where
  default native : FunctionType

-- `_FUNCTION`
pub data Function : Type 0 where
  add mul sub div mad mad_mul vec vliw exp log sqr sqrt cos sin tan num_fct : Function

unfoldable pub function_to_string : Function → Bytes
function_to_string add = codes "add"
function_to_string mul = codes "mul"
function_to_string sub = codes "sub"
function_to_string div = codes "div"
function_to_string mad = codes "mad"
function_to_string mad_mul = codes "mad_mul"
function_to_string vec = codes "vec"
function_to_string vliw = codes "vliw"
function_to_string exp = codes "exp"
function_to_string log = codes "log"
function_to_string sqr = codes "sqr"
function_to_string sqrt = codes "sqrt"
function_to_string cos = codes "cos"
function_to_string sin = codes "sin"
function_to_string tan = codes "tan"
function_to_string num_fct = codes "???"

-- What `function_to_code` returns and writes; `none` is NULL.
pub record Code : Type 0 where
  pub format : Option Bytes
  pub binary_op : Bool
  pub ntemps : ℕ

abbrev binary : ℕ → Bytes → Code
binary n text = record { format = some text; binary_op = true; ntemps = n }

abbrev unary : FunctionType → Bytes → Bytes → Code
unary default text text' = record { format = some text; binary_op = false; ntemps = 0 }
unary native text text' = record { format = some text'; binary_op = false; ntemps = 0 }

abbrev quotient : FunctionType → Bytes
quotient default = codes "tmp = a / b; a = b; b = tmp;"
quotient native = codes "tmp = native_divide(a,b); a = b; b = tmp;"

unfoldable pub function_to_code : Function → FunctionType → Code
function_to_code add ftype = binary 1 (codes "tmp = a + b; a = b; b = tmp;")
function_to_code sub ftype = binary 1 (codes "tmp = a - b; a = b; b = tmp;")
function_to_code mul ftype = binary 1 (codes "tmp = a * b; a = b; b = tmp;")
function_to_code div ftype = binary 1 (quotient ftype)
function_to_code mad ftype = binary 1 (codes "tmp = a * b + (%s)0.1; a = b; b = tmp;")
function_to_code mad_mul ftype =
    binary 2 (codes "tmp = a * b + (%s)0.1; tmp2 = c * d; a = b; b = tmp; c = d; d = tmp2;")
function_to_code vec ftype = binary 0 (codes "a%d -= b%d;;")
function_to_code vliw ftype = binary 0 (codes "a%d %c= b%d;")
function_to_code exp ftype = unary ftype (codes "a = exp(a);") (codes "a = native_exp(a);")
function_to_code log ftype = unary ftype (codes "a = log(a);") (codes "a = native_log(a);")
function_to_code sqr ftype =
    unary ftype (codes "a = powr(a, (%s)2.0);") (codes "a = native_powr(a, (%s)2.0);")
function_to_code sqrt ftype = unary ftype (codes "a = sqrt(a);") (codes "a = native_sqrt(a);")
function_to_code cos ftype = unary ftype (codes "a = cos(a);") (codes "a = native_cos(a);")
function_to_code sin ftype = unary ftype (codes "a = sin(a);") (codes "a = native_sin(a);")
function_to_code tan ftype = unary ftype (codes "a = tan(a);") (codes "a = native_tan(a);")
function_to_code num_fct ftype = record { format = none; binary_op = false; ntemps = 0 }

unfoldable pub ftype_to_string : FunctionType → Bytes
ftype_to_string default = codes "def"
ftype_to_string native = codes "nat"
