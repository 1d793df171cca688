-- ===== src/ArithSpeed/Kernel.antt =====
-- The source of a kernel: `writeStart`, `getTypeStr` and the part of `genKernel` that writes
-- `kernelCode`, of arith_speed/arith_speed.cpp. An `int` that a caller passes is not negative.
pub mod Parts
pub mod Text
use u_clbench.Base.{
  leb, ◌||◌, ℕ, zero, suc, ◌+◌, ◌-◌, ◌%◌, Bool, true, false, Option, none, some, List, [], ◌∷◌,
  ◌++◌, not, ◌&&◌, ◌||◌, ltb, ◌==◌, if◌then◌else◌, length, get_or,
}
use u_clbench.Base.Int.{ℤ, negsuc}
use u_clbench.Base.Run.{Run, done, fault}
use u_clbench.Base.Text.{Bytes, codes}
use u_clbench.ArithSpeed.{
  Function, FunctionType, Code, function_to_code, mad, mad_mul, vec, vliw, sqr,
}
use u_clbench.ArithSpeed.Format.{Argument, text, number, sprintf}
use u_clbench.ArithSpeed.Writer.{Writer, put, put_by, rounds, at_end}

-- the type that the templates are made for
pub data Scalar : Type 0 where
  cl_int cl_float cl_double : Scalar

-- `getTypeStr<T>(type)`
unfoldable pub scalar_name : Scalar → Bytes
scalar_name cl_int = codes "int"
scalar_name cl_float = codes "float"
scalar_name cl_double = codes "double"

-- `getTypeStr<T>(type, vec, err)`; `none` is the error -1000
unfoldable pub get_type_str : Scalar → ℕ → Option Bytes
unfolding scalar_name sprintf
get_type_str cl_int lanes = if not (lanes == 1) then none else some (codes "int")
get_type_str t lanes =
    if not (lanes == 1)
      && not (lanes == 2)
      && not (lanes == 4)
      && not (lanes == 8)
      && not (lanes == 16)
    then none
    else if lanes == 1
    then some (scalar_name t)
    else some (scalar_name t ++ sprintf (codes "%d") (number lanes ∷ []))

abbrev pub fun_start : Bytes
fun_start =
    codes
      "__kernel __attribute__((reqd_work_group_size (%d,1,1))) void arith_speed(\n \t            __global %s* input, \n \t            __global %s* output, \n \t            const unsigned int iterations) \n { \n   unsigned int i; \n   unsigned int gid = get_global_id(0);\n"

abbrev pub preamble : Bytes
preamble =
    codes
      "#ifdef cl_khr_fp64\n#pragma OPENCL EXTENSION cl_khr_fp64 : enable\n#endif\n#ifdef cl_amd_fp64\n#pragma OPENCL EXTENSION cl_amd_fp64 : enable\n#endif\n\n"

-- `writeStart<T>`: the text in `prog` behind it
unfoldable pub write_start : Scalar → ℕ → Bytes
unfolding sprintf scalar_name
write_start cl_double local =
    sprintf preamble []
    ++ sprintf fun_start
        (number local ∷ text (scalar_name cl_double) ∷ text (scalar_name cl_double) ∷ [])
write_start t local =
    sprintf fun_start (number local ∷ text (scalar_name t) ∷ text (scalar_name t) ∷ [])

-- `fct == _VEC || fct == _VLIW`
unfoldable pub is_lanes : Function → Bool
is_lanes vec = true
is_lanes vliw = true
is_lanes f = false

-- `fct == _SQR || fct == _MAD || fct == _MAD_MUL`
unfoldable pub is_typed : Function → Bool
is_typed sqr = true
is_typed mad = true
is_typed mad_mul = true
is_typed f = false

unfoldable pub is_vliw : Function → Bool
is_vliw vliw = true
is_vliw f = false

-- `fctStr` from NULL is not read
abbrev pub format_of : Code → Bytes
format_of c = elim c.format [ none ↦ [] | some f ↦ f ]

-- the text of one operation, `fctStr`, over what the stack held there; `type` is the type's name
unfoldable pub function_text : Bytes → Bytes → Function → FunctionType → ℕ → Bytes
unfolding is_typed function_to_code sprintf rounds put
function_text stack type vec ftype lanes =
    (rounds (λ i. put (sprintf (format_of (function_to_code vec ftype)) (number i ∷ number i ∷ [])))
      lanes 0 (record { code = stack; pos = 0 })).code
function_text stack type vliw ftype lanes = format_of (function_to_code vliw ftype)
function_text stack type fct ftype lanes =
    if is_typed fct
    then sprintf (format_of (function_to_code fct ftype)) (text type ∷ [])
    else sprintf (format_of (function_to_code fct ftype)) []

-- one variable, from the cells `from` to `from + lanes - 1` of the input
unfoldable pub declare_lanes : ℕ → ℕ → Writer → Writer
unfolding is_lanes put rounds sprintf
declare_lanes from lanes =
    rounds (λ i. put (sprintf (codes ", input[%d]") (number (i + from) ∷ []))) (lanes - 1) 1

-- the variables of the functions `vec` and `vliw`
unfoldable pub declare_scalars : Bytes → ℕ → Writer → Writer
unfolding is_lanes put rounds sprintf
declare_scalars type lanes =
    rounds
      (λ i. put (
        sprintf (codes "  %s a%d = input[%d], b%d = input[%d];\n")
          (text type ∷ number i ∷ number i ∷ number i ∷ number (i + lanes) ∷ [])))
      lanes 0

-- the variable `a` of the other functions
unfoldable pub declare_first : Bytes → ℕ → Writer → Writer
unfolding put put_by declare_lanes sprintf
declare_first type lanes w = put_by 3 (codes ");\n") (
    declare_lanes 0 lanes
      (put (sprintf (codes "  %s a = (%s)(input[0]") (text type ∷ text type ∷ [])) w))

-- the variables `b` and `tmp`
unfoldable pub declare_second : Bytes → ℕ → Writer → Writer
unfolding put declare_lanes sprintf
declare_second type lanes w = put (sprintf (codes ");\n  %s tmp;\n") (text type ∷ [])) (
    declare_lanes lanes lanes (
      put (sprintf (codes "  %s b = (%s)(input[%d]") (text type ∷ text type ∷ number lanes ∷ []))
        w))

-- the variables `c`, `d` and `tmp2`
unfoldable pub declare_more : Bytes → ℕ → Writer → Writer
unfolding put declare_lanes sprintf
declare_more type lanes w = put (sprintf (codes ");\n  %s tmp2;\n") (text type ∷ [])) (
    declare_lanes 0 lanes (
      put (sprintf (codes ");\n  %s d = (%s)(input[0]") (text type ∷ text type ∷ [])) (
        declare_lanes lanes lanes (
          put
            (sprintf (codes "  %s c = (%s)(input[%d]") (text type ∷ text type ∷ number lanes ∷ []))
            w))))

-- the variables of the other functions
unfoldable pub declare_vectors : Bytes → ℕ → Code → Writer → Writer
unfolding declare_first declare_second declare_more
declare_vectors type lanes c w =
    let a = declare_first type lanes w in
    let b = declare_second type lanes a in
    let d = declare_more type lanes b in
    if c.binary_op then (if ltb 1 c.ntemps then d else b) else a

-- `operation[cnt%3]`
abbrev pub operation : ℕ → ℕ
operation cnt = get_or (codes "+*-") (cnt % 3) 0

-- the loop over the lanes of `vliw`, with `cnt` before it
unfoldable pub vliw_lanes : Bytes → ℕ → ℕ → ℕ → Writer → Writer
unfolding put sprintf
vliw_lanes fct_str zero j cnt w = w
vliw_lanes fct_str (suc n) j cnt w =
    vliw_lanes fct_str n (j + 1) (cnt + 1)
      (put (sprintf fct_str (number j ∷ number (operation cnt) ∷ number j ∷ [])) w)

-- the loop over `unroll_factor` of `vliw`, with `cnt` before it
unfoldable pub vliw_rounds : Bytes → ℕ → ℕ → ℕ → Writer → Writer
unfolding put_by vliw_lanes
vliw_rounds fct_str lanes zero cnt w = w
vliw_rounds fct_str lanes (suc n) cnt w =
    vliw_rounds fct_str lanes n (cnt + lanes)
      (put_by 1 (codes "\n") (vliw_lanes fct_str lanes 0 cnt (put_by 4 (codes "    ") w)))

-- the operations
unfoldable pub operations : Function → Bytes → ℕ → ℕ → ℕ → Writer → Writer
unfolding is_vliw vliw_rounds rounds put_by sprintf
operations fct fct_str fct_len lanes unroll_factor =
    if is_vliw fct
    then vliw_rounds fct_str lanes unroll_factor 0
    else rounds (λ i. put_by (fct_len + 5) (sprintf (codes "    %s\n") (text fct_str ∷ [])))
        unroll_factor 0

-- the values that are copied back
unfoldable pub copy_back : Function → Code → ℕ → Writer → Writer
unfolding is_lanes put rounds sprintf
copy_back fct c lanes =
    if is_lanes fct
    then rounds
        (λ i. put (
          sprintf (codes "  output[%d*gid+%d] = a%d;\n") (number lanes ∷ number i ∷ number i ∷ [])))
        lanes 0
    else if lanes == 1
    then put
        (if ltb c.ntemps 2 then codes "  output[gid] = a;\n" else codes "  output[gid] = a + c;\n")
    else rounds
        (λ i. put (
          if ltb c.ntemps 2
          then sprintf (codes "  output[%d*gid+%d] = a.s%x;\n")
              (number lanes ∷ number i ∷ number i ∷ [])
          else sprintf (codes "  output[%d*gid+%d] = a.s%x + c.s%x;\n")
              (number lanes ∷ number i ∷ number i ∷ number i ∷ [])))
        lanes 0

-- `kernelCode` and `pos` when the text is complete, given the name of the type and `fctStr`
unfoldable pub assemble : Scalar → Bytes → Function → Code → ℕ → ℕ → ℕ → Bytes → Writer
unfolding is_lanes write_start declare_scalars declare_vectors operations copy_back put_by
assemble t type fct c lanes local unroll_factor fct_str =
    let start = at_end (write_start t local) in
    let declared =
      if is_lanes fct
      then declare_scalars type lanes start
      else declare_vectors type lanes c start in
    let opened = put_by 36 (codes "  for(i = 0; i < iterations; ++i) {\n") declared in
    let filled = operations fct fct_str (length fct_str) lanes unroll_factor opened in
    put_by 2 (codes "}\n") (copy_back fct c lanes (put_by 4 (codes "  }\n") filled))

-- The arrays `type`, `fctStr` and `kernelCode` have to hold their texts and the ends of these. Each
-- text only grows, so its last length tells whether all writes stay inside.
abbrev pub in_arrays : Bytes → Bytes → Writer → Run Writer
in_arrays type fct_str w =
    if leb 8 (length type) || leb 512 (length fct_str) || leb 131072 (length w.code)
    then fault
    else done w

unfoldable pub write_kernel :
    Bytes → Scalar → Bytes → Function → FunctionType → ℕ → ℕ → ℕ → Run Writer
unfolding assemble function_text function_to_code
write_kernel stack t type fct ftype lanes local unroll_factor =
    let fct_str = function_text stack type fct ftype lanes in
    in_arrays type fct_str
      (assemble t type fct (function_to_code fct ftype) lanes local unroll_factor fct_str)

-- The text, or -1000 for a vector type that does not exist.
pub data Generated : Type 0 where
  invalid_type : ℤ → Generated
  generated : Run Writer → Generated

unfoldable pub gen_kernel : Bytes → Scalar → Function → FunctionType → ℕ → ℕ → ℕ → Generated
unfolding is_lanes get_type_str write_kernel
gen_kernel stack t fct ftype lanes local unroll_factor =
    if is_lanes fct
    then generated (write_kernel stack t (scalar_name t) fct ftype lanes local unroll_factor)
    else elim (get_type_str t lanes) [
      | none ↦ invalid_type (negsuc 999)
      | some type ↦ generated (write_kernel stack t type fct ftype lanes local unroll_factor)
    ]
