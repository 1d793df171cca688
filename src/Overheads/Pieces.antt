-- ===== src/Overheads/Pieces.antt =====
-- The pieces of the text, their lengths, and what they name.
use mathlib.Core.List.{append-nil, append_assoc}
use u_clbench.Base.{
  All, ℕ, zero, suc, ◌+◌, ◌-◌, ◌*◌, ◌≤◌, ◌<◌, ◌≡◌, refl, sym, ap, ◌∙◌, arith, List, [], ◌∷◌, ◌++◌,
  length, length-append, take, le→ltb,
}
use u_clbench.Base.Run.{done}
use u_clbench.Base.Text.{Bytes, codes, decimal, decimal-length}
use u_clbench.Overheads.{
  max_kernel_size, Source, print_piece, parameter, last_parameter, Line, scale, load, guard,
  line_text,
}

-- the position is the end of the text
abbrev pub at_end : Bytes → Source
at_end text = record { text = text; pos = length text }

pub take_all : (n : ℕ) (xs : Bytes) → length xs ≤ n → take n xs ≡ xs
take_all zero [] h = refl
take_all zero (x ∷ xs) h = absurd (omega arith)
take_all (suc n) [] h = refl
take_all (suc n) (x ∷ xs) h = ap (◌∷◌ x) (take_all n xs (omega arith))

pub print_piece-at_end :
    (piece text : Bytes)
    → length text + length piece < max_kernel_size
    → print_piece piece (at_end text) ≡ done (at_end (text ++ piece))
unfolding print_piece
print_piece-at_end piece text h =
    let l = le→ltb max_kernel_size (length text) (omega arith) in
    let t = take_all (max_kernel_size - length text - 1) piece (omega arith) in
    let m = length-append text piece in rw (l, t, m) refl

-- The parameters are `arg_0` to `arg_(n_args - 1)`, the variables `tmp_0` to `tmp_2`.
abbrev pub Scoped : ℕ → Line → Type 0
Scoped n_args (scale a b c) = (a < n_args) × ((b < n_args) × (c < 100000))
Scoped n_args (load t a c) = (t < 3) × ((a < n_args) × (c < 100000))
Scoped n_args (guard t a) = (t < 3) × (a < n_args)

abbrev pub lines_text : List Line → Bytes
lines_text [] = []
lines_text (l ∷ ls) = line_text l ++ lines_text ls

pub length_three : (a x b : Bytes) → length (a ++ x ++ b) ≡ length a + length x + length b
length_three a x b = length-append (a ++ x) b ∙ ap (λ n. n + length b) (length-append a x)

pub length_five :
    (a x b y c : Bytes)
    → length (a ++ x ++ b ++ y ++ c) ≡ length a + length x + length b + length y + length c
length_five a x b y c =
    length_three (a ++ x ++ b) y c ∙ ap (λ n. n + length y + length c) (length_three a x b)

pub length_seven :
    (a x b y c z d : Bytes)
    → length (a ++ x ++ b ++ y ++ c ++ z ++ d)
      ≡ length a + length x + length b + length y + length c + length z + length d
length_seven a x b y c z d =
    length_three (a ++ x ++ b ++ y ++ c) z d
    ∙ ap (λ n. n + length z + length d) (length_five a x b y c)

pub scale_length :
    (x y z : Bytes)
    → length x ≤ 3
    → length y ≤ 3
    → length z ≤ 5
    → length (codes "\targ_" ++ x ++ codes "[0] = arg_" ++ y ++ codes "[0] * " ++ z ++ codes ";\n")
      ≤ 40
scale_length x y z p q r =
    let l =
      length_seven (codes "\targ_") x (codes "[0] = arg_") y (codes "[0] * ") z (codes ";\n") in
    omega arith

pub load_length :
    (x y z : Bytes)
    → length x ≤ 3
    → length y ≤ 3
    → length z ≤ 5
    → length (codes "\ttmp_" ++ x ++ codes " = arg_" ++ y ++ codes "[0] * " ++ z ++ codes ";\n")
      ≤ 40
load_length x y z p q r =
    let l = length_seven (codes "\ttmp_") x (codes " = arg_") y (codes "[0] * ") z (codes ";\n") in
    omega arith

pub guard_length :
    (x y : Bytes)
    → length x ≤ 3
    → length y ≤ 3
    → length (codes "\tif(tmp_" ++ x ++ codes " > arg_" ++ y ++ codes "[0])\n\t") ≤ 40
guard_length x y p q =
    let l = length_five (codes "\tif(tmp_") x (codes " > arg_") y (codes "[0])\n\t") in omega arith

pub line_text-length :
    (n_args : ℕ) (l : Line) → n_args ≤ 1000 → Scoped n_args l → length (line_text l) ≤ 40
unfolding line_text
line_text-length n_args (scale a b c) h (p, (q, r)) =
    scale_length (decimal a) (decimal b) (decimal c) (decimal-length 2 a (omega arith))
      (decimal-length 2 b (omega arith)) (decimal-length 4 c (omega arith))
line_text-length n_args (load t a c) h (p, (q, r)) =
    load_length (decimal t) (decimal a) (decimal c) (decimal-length 2 t (omega arith))
      (decimal-length 2 a (omega arith)) (decimal-length 4 c (omega arith))
line_text-length n_args (guard t a) h (p, q) =
    guard_length (decimal t) (decimal a) (decimal-length 2 t (omega arith))
      (decimal-length 2 a (omega arith))

pub join_two : (t x y : Bytes) → t ++ x ++ y ≡ t ++ (x ++ (y ++ []))
join_two t x y = append_assoc t x y ∙ ap (λ l. t ++ (x ++ l)) (sym (append-nil y))

pub join_three : (t x y z : Bytes) → t ++ x ++ y ++ z ≡ t ++ (x ++ (y ++ (z ++ [])))
join_three t x y z =
    ap (λ l. l ++ z) (append_assoc t x y)
    ∙ append_assoc t (x ++ y) z
    ∙ ap (λ l. t ++ l) (append_assoc x y z ∙ ap (λ l. x ++ (y ++ l)) (sym (append-nil z)))

pub length_two_lines : (x y : Bytes) → length x ≤ 40 → length y ≤ 40 → length (x ++ (y ++ [])) ≤ 120
length_two_lines x y p q = omega (arith, length-append x (y ++ []), length-append y [])

pub length_three_lines :
    (x y z : Bytes)
    → length x ≤ 40
    → length y ≤ 40
    → length z ≤ 40
    → length (x ++ (y ++ (z ++ []))) ≤ 120
length_three_lines x y z p q r =
    omega (arith, length-append x (y ++ (z ++ [])), length-append y (z ++ []), length-append z [])

-- the parameters but the last, from `n` on
abbrev pub parameters : ℕ → ℕ → Bytes
parameters zero n = []
parameters (suc rounds) n = parameter n ++ parameters rounds (n + 1)

pub parameter_length :
    (x : Bytes) → length x ≤ 3 → length (codes "__global float* arg_" ++ x ++ codes ", ") ≤ 30
parameter_length x p =
    let l = length_three (codes "__global float* arg_") x (codes ", ") in omega arith

pub last_parameter_length :
    (x : Bytes) → length x ≤ 3 → length (codes "__global float* arg_" ++ x ++ codes "\n)\n") ≤ 30
last_parameter_length x p =
    let l = length_three (codes "__global float* arg_") x (codes "\n)\n") in omega arith

pub length-parameter : (n : ℕ) → n < 1000 → length (parameter n) ≤ 30
unfolding parameter
length-parameter n h = parameter_length (decimal n) (decimal-length 2 n (omega arith))

pub length-last_parameter : (n : ℕ) → n < 1000 → length (last_parameter n) ≤ 30
unfolding last_parameter
length-last_parameter n h = last_parameter_length (decimal n) (decimal-length 2 n (omega arith))

pub length-parameters :
    (rounds n : ℕ) → n + rounds ≤ 1000 → length (parameters rounds n) ≤ 30 * rounds
length-parameters zero n h = omega arith
length-parameters (suc rounds) n h =
    let p = length-parameter n (omega arith) in
    let ih = length-parameters rounds (n + 1) (omega arith) in
    omega (arith, length-append (parameter n) (parameters rounds (n + 1)))

pub lines_text-append : (ls ms : List Line) → lines_text (ls ++ ms) ≡ lines_text ls ++ lines_text ms
lines_text-append [] ms = refl
lines_text-append (l ∷ ls) ms =
    ap (λ t. line_text l ++ t) (lines_text-append ls ms)
    ∙ sym (append_assoc (line_text l) (lines_text ls) (lines_text ms))

pub All-append : (P : Line → Type 0) (ls ms : List Line) → All P ls → All P ms → All P (ls ++ ms)
All-append P [] ms h k = k
All-append P (l ∷ ls) ms (h, hs) k = (h, All-append P ls ms hs k)

-- what stands before the lines
abbrev pub head : ℕ → Bytes
head n_args =
    codes "__kernel void main_func(\n\t"
    ++ parameters (n_args - 1) 0
    ++ last_parameter (n_args - 1)
    ++ codes "{\n"
    ++ codes "\tfloat tmp_0, tmp_1, tmp_2;\n\n"
