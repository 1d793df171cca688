-- ===== src/ArithSpeed/Kernel/Parts.antt =====
-- The parts of a kernel's source, as texts without positions.
use u_clbench.Base.{ℕ, ◌+◌, ◌-◌, ◌*◌, [], ◌∷◌, ◌++◌, ltb, ◌==◌, if◌then◌else◌}
use u_clbench.Base.Text.{Bytes, codes}
use u_clbench.ArithSpeed.{Function, FunctionType, Code, function_to_code, vec, vliw}
use u_clbench.ArithSpeed.Format.{text, number, sprintf}
use u_clbench.ArithSpeed.Writer.{pieces}
use u_clbench.ArithSpeed.Kernel.{
  Scalar, write_start, is_lanes, is_typed, is_vliw, format_of, operation,
}

-- the rest of one variable's cells
abbrev pub cells : ℕ → ℕ → Bytes
cells from lanes =
    pieces (λ i. sprintf (codes ", input[%d]") (number (i + from) ∷ [])) (lanes - 1) 1

abbrev pub head : Bytes → Bytes → Bytes
head format type = sprintf format (text type ∷ text type ∷ [])

abbrev pub head_at : Bytes → Bytes → ℕ → Bytes
head_at format type from = sprintf format (text type ∷ text type ∷ number from ∷ [])

abbrev pub temporary : Bytes → Bytes → Bytes
temporary format type = sprintf format (text type ∷ [])

abbrev pub variable_a : Bytes → ℕ → Bytes
variable_a type lanes =
    (head (codes "  %s a = (%s)(input[0]") type ++ cells 0 lanes) ++ codes ");\n"

abbrev pub variable_b : Bytes → ℕ → Bytes
variable_b type lanes =
    (head_at (codes "  %s b = (%s)(input[%d]") type lanes ++ cells lanes lanes)
    ++ temporary (codes ");\n  %s tmp;\n") type

abbrev pub variables_c_d : Bytes → ℕ → Bytes
variables_c_d type lanes =
    ((head_at (codes "  %s c = (%s)(input[%d]") type lanes ++ cells lanes lanes)
      ++ (head (codes ");\n  %s d = (%s)(input[0]") type ++ cells 0 lanes))
    ++ temporary (codes ");\n  %s tmp2;\n") type

abbrev pub variables : Bytes → ℕ → Code → Bytes
variables type lanes c =
    if c.binary_op
    then (if ltb 1 c.ntemps
        then (variable_a type lanes ++ variable_b type lanes) ++ variables_c_d type lanes
        else variable_a type lanes ++ variable_b type lanes)
    else variable_a type lanes

abbrev pub scalars : Bytes → ℕ → Bytes
scalars type lanes =
    pieces
      (λ i.
        sprintf (codes "  %s a%d = input[%d], b%d = input[%d];\n")
          (text type ∷ number i ∷ number i ∷ number i ∷ number (i + lanes) ∷ []))
      lanes 0

-- one operation of every lane of `vliw`: lane `j` of round `i` takes the operation of its place
-- `i * lanes + j` among all operations
abbrev pub vliw_line : Bytes → ℕ → ℕ → Bytes
vliw_line fct_str lanes i =
    (codes "    "
      ++ pieces
          (λ j. sprintf fct_str (number j ∷ number (operation (i * lanes + j)) ∷ number j ∷ []))
          lanes 0)
    ++ codes "\n"

-- one operation
abbrev pub one_operation : Function → FunctionType → Bytes → ℕ → Bytes
one_operation vec ftype type lanes =
    pieces (λ i. sprintf (format_of (function_to_code vec ftype)) (number i ∷ number i ∷ [])) lanes
      0
one_operation vliw ftype type lanes = format_of (function_to_code vliw ftype)
one_operation fct ftype type lanes =
    if is_typed fct
    then sprintf (format_of (function_to_code fct ftype)) (text type ∷ [])
    else sprintf (format_of (function_to_code fct ftype)) []

abbrev pub body : Function → Bytes → ℕ → ℕ → Bytes
body fct fct_str lanes unroll_factor =
    pieces
      (λ i.
        if is_vliw fct then vliw_line fct_str lanes i else codes "    " ++ fct_str ++ codes "\n")
      unroll_factor 0

abbrev pub copied : Function → Code → ℕ → Bytes
copied fct c lanes =
    if is_lanes fct
    then pieces
        (λ i.
          sprintf (codes "  output[%d*gid+%d] = a%d;\n") (number lanes ∷ number i ∷ number i ∷ []))
        lanes 0
    else if lanes == 1
    then (if ltb c.ntemps 2 then codes "  output[gid] = a;\n" else codes "  output[gid] = a + c;\n")
    else pieces
        (λ i.
          if ltb c.ntemps 2
          then sprintf (codes "  output[%d*gid+%d] = a.s%x;\n")
              (number lanes ∷ number i ∷ number i ∷ [])
          else sprintf (codes "  output[%d*gid+%d] = a.s%x + c.s%x;\n")
              (number lanes ∷ number i ∷ number i ∷ number i ∷ []))
        lanes 0

-- behind the head: the variables, the loop, and what is copied back
abbrev pub rest_text : Bytes → Function → Code → ℕ → ℕ → Bytes → Bytes
rest_text type fct c lanes unroll_factor fct_str =
    ((((if is_lanes fct then scalars type lanes else variables type lanes c)
          ++ (codes "  for(i = 0; i < iterations; ++i) {\n"
              ++ body fct fct_str lanes unroll_factor))
        ++ codes "  }\n")
      ++ copied fct c lanes)
    ++ codes "}\n"

-- the text without positions
abbrev pub kernel_text : Scalar → Bytes → Function → FunctionType → ℕ → ℕ → ℕ → Bytes
kernel_text t type fct ftype lanes local unroll_factor =
    write_start t local
    ++ rest_text type fct (function_to_code fct ftype) lanes unroll_factor
        (one_operation fct ftype type lanes)
