-- ===== src/ArithSpeed/Kernel/Text.antt =====
-- The source of a kernel as one text, and the positions that `genKernel` keeps by hand.
use mathlib.Core.Path.{subst}
use u_clbench.Base.{
  ℕ, zero, suc, ◌+◌, ◌-◌, ◌*◌, ◌<◌, ◌≡◌, refl, ap, ◌∙◌, arith, true, Bool-cases, inl, inr, [], ◌∷◌,
  ◌++◌, ltb, leb, ◌==◌, length, length-append,
}
use u_clbench.Base.Text.{Bytes, codes}
use u_clbench.ArithSpeed.{Function, FunctionType, Code, function_to_code, vec, vliw}
use u_clbench.ArithSpeed.Format.{number, sprintf}
use u_clbench.ArithSpeed.Writer.{Writer, put, rounds, at_end, pieces}
use u_clbench.ArithSpeed.Kernel.{
  in_arrays, Scalar, write_start, is_lanes, is_vliw, function_text, declare_lanes, declare_scalars,
  declare_first, declare_second, declare_more, declare_vectors, operation, vliw_lanes, vliw_rounds,
  operations, copy_back, assemble, write_kernel,
}
use u_clbench.ArithSpeed.Kernel.Parts.{
  cells, head, head_at, temporary, variable_a, variable_b, variables_c_d, variables, scalars,
  vliw_line, one_operation, body, copied, rest_text, kernel_text,
}
use u_clbench.ArithSpeed.Writer.{
  Appends, Appends-then, Appends-if, Appends-choice, Appends-nothing, put-Appends, put_by-Appends,
  rounds-Appends,
}

declare_lanes-Appends : (from lanes : ℕ) → Appends (declare_lanes from lanes) (cells from lanes)
unfolding declare_lanes
declare_lanes-Appends from lanes = rounds-Appends _ _ (lanes - 1) 1 (λ j. put-Appends _)

declare_scalars-Appends :
    (type : Bytes) (lanes : ℕ) → Appends (declare_scalars type lanes) (scalars type lanes)
unfolding declare_scalars
declare_scalars-Appends type lanes = rounds-Appends _ _ lanes 0 (λ j. put-Appends _)

-- a piece, and the cells of a variable
variable-Appends :
    (piece : Bytes) (from lanes : ℕ)
    → Appends (λ w. declare_lanes from lanes (put piece w)) (piece ++ cells from lanes)
variable-Appends piece from lanes =
    Appends-then (put-Appends piece) (declare_lanes-Appends from lanes)

declare_first-Appends :
    (type : Bytes) (lanes : ℕ) → Appends (declare_first type lanes) (variable_a type lanes)
unfolding declare_first
declare_first-Appends type lanes =
    Appends-then (variable-Appends (head (codes "  %s a = (%s)(input[0]") type) 0 lanes)
      (put_by-Appends 3 (codes ");\n") refl)

declare_second-Appends :
    (type : Bytes) (lanes : ℕ) → Appends (declare_second type lanes) (variable_b type lanes)
unfolding declare_second
declare_second-Appends type lanes =
    Appends-then
      (variable-Appends (head_at (codes "  %s b = (%s)(input[%d]") type lanes) lanes lanes)
      (put-Appends (temporary (codes ");\n  %s tmp;\n") type))

declare_more-Appends :
    (type : Bytes) (lanes : ℕ) → Appends (declare_more type lanes) (variables_c_d type lanes)
unfolding declare_more
declare_more-Appends type lanes =
    Appends-then
      (Appends-then
        (variable-Appends (head_at (codes "  %s c = (%s)(input[%d]") type lanes) lanes lanes)
        (variable-Appends (head (codes ");\n  %s d = (%s)(input[0]") type) 0 lanes))
      (put-Appends (temporary (codes ");\n  %s tmp2;\n") type))

declare_vectors-Appends :
    (type : Bytes) (lanes : ℕ) (c : Code)
    → Appends (declare_vectors type lanes c) (variables type lanes c)
unfolding declare_vectors
declare_vectors-Appends type lanes c =
    let a = declare_first-Appends type lanes in
    let b = Appends-then a (declare_second-Appends type lanes) in
    Appends-if c.binary_op
      (Appends-if (ltb 1 c.ntemps) (Appends-then b (declare_more-Appends type lanes)) b) a

-- one lane of one round
lane : Bytes → ℕ → ℕ → Bytes
lane fct_str j cnt = sprintf fct_str (number j ∷ number (operation cnt) ∷ number j ∷ [])

vliw_lanes-Appends :
    (fct_str : Bytes) (n j base : ℕ)
    → Appends (vliw_lanes fct_str n j (base + j)) (pieces (λ k. lane fct_str k (base + k)) n j)
unfolding vliw_lanes lane
vliw_lanes-Appends fct_str zero j base = Appends-nothing
vliw_lanes-Appends fct_str (suc n) j base = Appends-then (put-Appends (lane fct_str j (base + j))) (
    let e : base + (j + 1) ≡ base + j + 1 = omega arith in
    subst
      (λ k.
        Appends (vliw_lanes fct_str n (j + 1) k)
          (pieces (λ k. lane fct_str k (base + k)) n (j + 1)))
      e (vliw_lanes-Appends fct_str n (j + 1) base))

zero_round : (lanes : ℕ) → 0 * lanes ≡ 0
zero_round lanes = ground arith

next_round : (i lanes : ℕ) → (i + 1) * lanes ≡ i * lanes + lanes
next_round i lanes = ground arith

vliw_rounds-Appends :
    (fct_str : Bytes) (lanes n i : ℕ)
    → Appends (vliw_rounds fct_str lanes n (i * lanes)) (pieces (vliw_line fct_str lanes) n i)
unfolding vliw_rounds lane
vliw_rounds-Appends fct_str lanes zero i = Appends-nothing
vliw_rounds-Appends fct_str lanes (suc n) i =
    Appends-then
      (Appends-then
        (Appends-then (put_by-Appends 4 (codes "    ") refl) (
          subst
            (λ k.
              Appends (vliw_lanes fct_str lanes 0 k)
                (pieces (λ k. lane fct_str k (i * lanes + k)) lanes 0))
            (omega arith) (vliw_lanes-Appends fct_str lanes 0 (i * lanes))))
        (put_by-Appends 1 (codes "\n") refl))
      (subst
        (λ k. Appends (vliw_rounds fct_str lanes n k) (pieces (vliw_line fct_str lanes) n (i + 1)))
        (next_round i lanes) (vliw_rounds-Appends fct_str lanes n (i + 1)))

operations-Appends :
    (fct : Function) (fct_str : Bytes) (lanes unroll_factor : ℕ)
    → Appends
        (operations fct fct_str (length fct_str) lanes unroll_factor)
        (body fct fct_str lanes unroll_factor)
unfolding operations
operations-Appends fct fct_str lanes unroll_factor = elim (Bool-cases (is_vliw fct)) [
  | inl v ↦ rw v (
      subst
        (λ k.
          Appends (vliw_rounds fct_str lanes unroll_factor k)
            (pieces (vliw_line fct_str lanes) unroll_factor 0))
        (zero_round lanes) (vliw_rounds-Appends fct_str lanes unroll_factor 0))
  | inr v ↦ rw v (
      rounds-Appends _ (λ j. codes "    " ++ fct_str ++ codes "\n") unroll_factor 0
        (λ j.
          put_by-Appends (length fct_str + 5) (codes "    " ++ fct_str ++ codes "\n")
            (omega (arith, length-append fct_str (codes "\n")))))
]

copy_back-Appends :
    (fct : Function) (c : Code) (lanes : ℕ) → Appends (copy_back fct c lanes) (copied fct c lanes)
unfolding copy_back
copy_back-Appends fct c lanes =
    Appends-choice (is_lanes fct) (rounds-Appends _ _ lanes 0 (λ i. put-Appends _)) (
      Appends-choice (lanes == 1) (put-Appends _) (rounds-Appends _ _ lanes 0 (λ i. put-Appends _)))

put-start : (stack piece : Bytes) → put piece (record { code = stack; pos = 0 }) ≡ at_end piece
unfolding put
put-start stack piece = let e : leb 0 (length stack) ≡ true = ground arith in rw e

vec_text :
    (stack : Bytes) (piece : ℕ → Bytes) (n : ℕ)
    → 0 < n
    → (rounds (λ i. put (piece i)) n 0 (record { code = stack; pos = 0 })).code ≡ pieces piece n 0
unfolding rounds
vec_text stack piece zero h = absurd (omega arith)
vec_text stack piece (suc n) h =
    let onwards = rounds-Appends (λ i. put (piece i)) piece n 1 (λ j. put-Appends (piece j)) in
    ap (λ (w : Writer). (rounds (λ i. put (piece i)) n 1 w).code) (put-start stack (piece 0))
    ∙ ap (λ (w : Writer). w.code) (onwards.on_text (piece 0))

function_text_lem :
    (stack type : Bytes) (fct : Function) (ftype : FunctionType) (lanes : ℕ)
    → 0 < lanes
    → function_text stack type fct ftype lanes ≡ one_operation fct ftype type lanes
unfolding function_text
function_text_lem stack type vec ftype lanes h = vec_text stack _ lanes h
function_text_lem stack type vliw ftype lanes h = refl
function_text_lem stack type fct ftype lanes h = refl

assemble-at_end :
    (t : Scalar) (type : Bytes) (fct : Function) (c : Code) (lanes local unroll_factor : ℕ)
    (fct_str : Bytes)
    → assemble t type fct c lanes local unroll_factor fct_str
      ≡ at_end (write_start t local ++ rest_text type fct c lanes unroll_factor fct_str)
unfolding assemble
assemble-at_end t type fct c lanes local unroll_factor fct_str =
    let declared =
      Appends-if (is_lanes fct) (declare_scalars-Appends type lanes)
        (declare_vectors-Appends type lanes c) in
    let loop =
      Appends-then (put_by-Appends 36 (codes "  for(i = 0; i < iterations; ++i) {\n") refl)
        (operations-Appends fct fct_str lanes unroll_factor) in
    let closed = put_by-Appends 4 (codes "  }\n") refl in
    let ended = put_by-Appends 2 (codes "}\n") refl in
    (Appends-then
        (Appends-then (Appends-then (Appends-then declared loop) closed)
          (copy_back-Appends fct c lanes))
        ended).on_text
      (write_start t local)

-- Whatever the stack held before, for at least one lane, where the name of the type has less than 8
-- characters and the text of one operation less than 512, and the parts are less than 131072 long
-- together, the text that `genKernel` builds is its parts one behind the other, and the position
-- kept by hand is its length at the end: no part overwrites another, though the position is advanced
-- by 36, 3, 4, 1, 2 and `fctLen + 5` without a look at the text; lane `j` of round `i` of `vliw`
-- takes the operation of place `i * vec + j`. Where one of the texts is longer, an array overflows.
pub write_kernel-kernel_text :
    (stack : Bytes) (t : Scalar) (type : Bytes) (fct : Function) (ftype : FunctionType)
    (lanes local unroll_factor : ℕ)
    → 0 < lanes
    → write_kernel stack t type fct ftype lanes local unroll_factor
      ≡ in_arrays type
          (one_operation fct ftype type lanes)
          (at_end (kernel_text t type fct ftype lanes local unroll_factor))
unfolding write_kernel
write_kernel-kernel_text stack t type fct ftype lanes local unroll_factor h =
    ap
      (λ fct_str.
        in_arrays type fct_str
          (assemble t type fct (function_to_code fct ftype) lanes local unroll_factor fct_str))
      (function_text_lem stack type fct ftype lanes h)
    ∙ ap (in_arrays type (one_operation fct ftype type lanes)) (
        assemble-at_end t type fct (function_to_code fct ftype) lanes local unroll_factor
          (one_operation fct ftype type lanes))
