-- ===== src/Overheads.antt =====
-- The kernel overheads benchmark, kernel_overheads/kernel_overheads.cpp: the text of a kernel of a
-- given number of arguments and of lines, by the numbers that `rand` gives.
pub mod Settings
pub mod Bench
pub mod Devices
pub mod Leaks
pub mod Pieces
pub mod Text
use u_clbench.Base.{
  ℕ, zero, suc, ◌+◌, ◌-◌, ◌*◌, ◌/◌, ◌%◌, Bool, true, false, ◌&&◌, ◌||◌, Option, none, some, List,
  [], ◌∷◌, ◌++◌, length, take, ltb, ◌==◌, if◌then◌else◌,
}
use u_clbench.Base.Run.{Run, done, fault, no_fuel, ◌>>=◌}
use u_clbench.Base.Text.{Bytes, codes, decimal}

-- MAX_KERNEL_SIZE
abbrev pub max_kernel_size : ℕ
max_kernel_size = 16 * 1024 * 1024

-- the text in `kernel_src`, and `pos`
pub record Source : Type 0 where
  pub text : Bytes
  pub pos : ℕ

-- `pos += snprintf(kernel_src + pos, MAX_KERNEL_SIZE - pos, ..)`, with what the format makes; a size
-- below 0 is a huge `size_t`
unfoldable pub print_piece : Bytes → Source → Run Source
print_piece piece w =
    if ltb max_kernel_size w.pos
    then fault
    else done (record {
      text = w.text ++ take (max_kernel_size - w.pos - 1) piece;
      pos = w.pos + length piece;
    })

-- the formats of the parameters
unfoldable pub parameter : ℕ → Bytes
unfolding decimal
parameter n = codes "__global float* arg_" ++ decimal n ++ codes ", "

unfoldable pub last_parameter : ℕ → Bytes
unfolding decimal
last_parameter n = codes "__global float* arg_" ++ decimal n ++ codes "\n)\n"

-- the formats of the lines, with the numbers put into them
pub data Line : Type 0 where
  scale : ℕ → ℕ → ℕ → Line
  load : ℕ → ℕ → ℕ → Line
  guard : ℕ → ℕ → Line

unfoldable pub line_text : Line → Bytes
unfolding decimal
line_text (scale a b c) =
    codes "\targ_"
    ++ decimal a
    ++ codes "[0] = arg_"
    ++ decimal b
    ++ codes "[0] * "
    ++ decimal c
    ++ codes ";\n"
line_text (load t a c) =
    codes "\ttmp_"
    ++ decimal t
    ++ codes " = arg_"
    ++ decimal a
    ++ codes "[0] * "
    ++ decimal c
    ++ codes ";\n"
line_text (guard t a) =
    codes "\tif(tmp_" ++ decimal t ++ codes " > arg_" ++ decimal a ++ codes "[0])\n\t"

-- `rand k` is what the call number `k` of `rand` returns, `rand_max` is RAND_MAX.
module _ (rand : ℕ → ℕ) (rand_max : ℕ) where
  -- `(int) (n * (rand()/(RAND_MAX + 1.0)))`
  unfoldable pub draw : ℕ → ℕ → ℕ
  draw n k = n * rand k / (rand_max + 1)

  -- the first two lines of a round, from the call number `k` of `rand` on
  unfoldable pub scale_line : ℕ → ℕ → Line
  unfolding draw
  scale_line n_args k = scale (draw n_args k) (draw n_args (k + 1)) (draw 100000 (k + 2))

  unfoldable pub load_line : ℕ → ℕ → Line
  unfolding draw
  load_line n_args k = load (draw 2 k) (draw n_args (k + 1)) (draw 100000 (k + 2))

  unfoldable pub guard_line : ℕ → ℕ → Line
  unfolding draw
  guard_line n_args k = guard (draw 2 k) (draw n_args (k + 1))

  -- whether a round writes the third line
  abbrev pub has_guard : ℕ → ℕ → Bool
  has_guard n n_lines = n % 3 == 0 && ltb (n + 2) n_lines

  -- the body of the loop over the lines, with the number of the next call of `rand`
  unfoldable pub line_round : ℕ → ℕ → ℕ → ℕ → Source → Run (Source × ℕ)
  unfolding print_piece line_text scale_line load_line guard_line
  line_round n_args n_lines n k w = print_piece (line_text (scale_line n_args k)) w >>= λ w1.
      print_piece (line_text (load_line n_args (k + 3))) w1 >>= λ w2.
      if has_guard n n_lines
      then (print_piece (line_text (guard_line n_args (k + 6))) w2 >>= λ w3. done (w3, k + 8))
      else done (w2, k + 6)

  -- the loop over the lines, on fuel
  unfoldable pub line_loop : ℕ → ℕ → ℕ → ℕ → ℕ → Source → Run Source
  unfolding line_round
  line_loop zero n_args n_lines n k w = if ltb n n_lines then no_fuel else done w
  line_loop (suc fuel) n_args n_lines n k w =
      let onwards = line_loop fuel n_args n_lines (n + 2) in
      if ltb n n_lines then line_round n_args n_lines n k w >>= (λ r. onwards r.1 r.0) else done w

  -- the loop over the parameters but the last, with the rounds left
  unfoldable pub parameter_loop : ℕ → ℕ → Source → Run Source
  unfolding print_piece parameter
  parameter_loop zero n w = done w
  parameter_loop (suc rounds) n w = print_piece (parameter n) w >>= parameter_loop rounds (n + 1)

  -- the text that OpenCL is given; `none` is the early return of NULL
  unfoldable pub gen_kernel : ℕ → ℕ → Run (Option Bytes)
  unfolding parameter_loop line_loop last_parameter print_piece
  gen_kernel n_args n_lines =
      if ltb n_args 1 || ltb n_lines 1
      then done none
      else print_piece (codes "__kernel void main_func(\n\t") (record { text = []; pos = 0 })
        >>= λ w. parameter_loop (n_args - 1) 0 w >>= λ w.
            print_piece (last_parameter (n_args - 1)) w >>= λ w.
            print_piece (codes "{\n") w >>= λ w.
            print_piece (codes "\tfloat tmp_0, tmp_1, tmp_2;\n\n") w >>= λ w.
            line_loop (n_lines + 1) n_args n_lines 0 0 w >>= λ w.
            print_piece (codes "}\n") w >>= λ w. done (some w.text)
