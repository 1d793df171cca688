-- ===== src/Overheads/Text.antt =====
-- The text of the kernel that is generated, as a head and lines, each of which names parameters and
-- variables that the head declares.
use mathlib.Core.List.{append-nil, append_assoc}
use native.Mathlib.Nat.{div-lt_iff_lt-mul, mul-lt-mul_of_pos_left}
use u_clbench.Base.{
  All, ℕ, zero, suc, ◌+◌, ◌-◌, ◌*◌, ◌≤◌, ◌<◌, ◌≡◌, refl, sym, ap, ◌∙◌, arith, false, Bool-cases,
  inl, inr, some, List, [], ◌∷◌, ◌++◌, length, length-append, dec_lt, ltb, lt→ltb, le→ltb, ◌||◌,
}
use u_clbench.Base.Run.{Run, done, ◌>>=◌}
use u_clbench.Base.Text.{Bytes, codes}
use u_clbench.Overheads.{
  max_kernel_size, Source, print_piece, parameter, last_parameter, Line, line_text, draw,
  scale_line, load_line, guard_line, has_guard, line_round, line_loop, parameter_loop, gen_kernel,
}
use u_clbench.Overheads.Pieces.{
  at_end, print_piece-at_end, Scoped, lines_text, line_text-length, join_two, join_three,
  length_two_lines, length_three_lines, parameters, length-parameter, length-last_parameter,
  length-parameters, lines_text-append, All-append, head,
}

-- seven steps that do not fail
chain :
    {A : Type 0} {a0 a1 a2 a3 a4 a5 a6 : Source} {r0 : Run Source}
    (f1 f2 f3 f4 f5 f6 : Source → Run Source) (out : Source → A)
    → r0 ≡ done a0
    → f1 a0 ≡ done a1
    → f2 a1 ≡ done a2
    → f3 a2 ≡ done a3
    → f4 a3 ≡ done a4
    → f5 a4 ≡ done a5
    → f6 a5 ≡ done a6
    → (r0 >>= λ w. f1 w >>= λ w.
        f2 w >>= λ w. f3 w >>= λ w. f4 w >>= λ w. f5 w >>= λ w. f6 w >>= λ w. done (out w))
      ≡ done (out a6)
chain f1 f2 f3 f4 f5 f6 out e0 e1 e2 e3 e4 e5 e6 = rw (e0, e1, e2, e3, e4, e5, e6) refl

module _ (rand : ℕ → ℕ) (rand_max : ℕ) (in_range : (k : ℕ) → rand k ≤ rand_max) where
  draw_lt : (n k : ℕ) → 0 < n → draw rand rand_max n k < n
  unfolding draw
  draw_lt n k h =
      let pos_max : 0 < rand_max + 1 = omega arith in
      let r = in_range k in
      let l : rand k < rand_max + 1 = omega arith in
      (div-lt_iff_lt-mul pos_max).1 (mul-lt-mul_of_pos_left l h)

  scale_line-Scoped : (n k : ℕ) → 0 < n → Scoped n (scale_line rand rand_max n k)
  unfolding scale_line
  scale_line-Scoped n k h =
      (draw_lt n k h, (draw_lt n (k + 1) h, draw_lt 100000 (k + 2) (omega arith)))

  load_line-Scoped : (n k : ℕ) → 0 < n → Scoped n (load_line rand rand_max n k)
  unfolding load_line
  load_line-Scoped n k h =
      let t = draw_lt 2 k (omega arith) in
      (omega arith, (draw_lt n (k + 1) h, draw_lt 100000 (k + 2) (omega arith)))

  guard_line-Scoped : (n k : ℕ) → 0 < n → Scoped n (guard_line rand rand_max n k)
  unfolding guard_line
  guard_line-Scoped n k h = let t = draw_lt 2 k (omega arith) in (omega arith, draw_lt n (k + 1) h)

  -- what a round writes behind a text: two lines or three
  Round : ℕ → ℕ → ℕ → ℕ → Bytes → Type 0
  Round n_args n_lines n k text =
      (ls : List Line) × ((k' : ℕ) × ((line_round rand rand_max n_args n_lines n k (at_end text)
            ≡ done (at_end (text ++ lines_text ls), k'))
          × (All (Scoped n_args) ls × ((2 ≤ length ls) × (length (lines_text ls) ≤ 120)))))

  line_round_lem :
      (n_args n_lines n k : ℕ) (text : Bytes)
      → 0 < n_args
      → n_args ≤ 1000
      → length text + 120 < max_kernel_size
      → Round n_args n_lines n k text
  unfolding line_round Round
  line_round_lem n_args n_lines n k text h u f =
      let a = scale_line rand rand_max n_args k in
      let b = load_line rand rand_max n_args (k + 3) in
      let c = guard_line rand rand_max n_args (k + 6) in
      let sa = scale_line-Scoped n_args k h in
      let sb = load_line-Scoped n_args (k + 3) h in
      let sc = guard_line-Scoped n_args (k + 6) h in
      let la = line_text-length n_args a u sa in
      let lb = line_text-length n_args b u sb in
      let lc = line_text-length n_args c u sc in
      let m1 = length-append text (line_text a) in
      let m2 = length-append (text ++ line_text a) (line_text b) in
      let p1 = print_piece-at_end (line_text a) text (omega arith) in
      let p2 = print_piece-at_end (line_text b) (text ++ line_text a) (omega arith) in
      let p3 =
        print_piece-at_end (line_text c) (text ++ line_text a ++ line_text b) (omega arith) in
      let two = join_two text (line_text a) (line_text b) in
      let three = join_three text (line_text a) (line_text b) (line_text c) in
      elim (Bool-cases (has_guard rand rand_max n n_lines)) [
        | inl g ↦ (
          a ∷ b ∷ c ∷ [],
          (
            k + 8,
            (
              rw (p1, p2, g, p3, three) refl,
              (
                (sa, (sb, (sc, tt))),
                (
                  omega arith,
                  length_three_lines (line_text a) (line_text b) (line_text c) la lb lc,
                ),
              ),
            ),
          ),
        )
        | inr g ↦ (
          a ∷ b ∷ [],
          (
            k + 6,
            (
              rw (p1, p2, g, two) refl,
              ((sa, (sb, tt)), (omega arith, length_two_lines (line_text a) (line_text b) la lb)),
            ),
          ),
        )
      ]

  -- what the loop writes behind a text
  Loop : ℕ → ℕ → ℕ → ℕ → ℕ → Bytes → Type 0
  Loop fuel n_args n_lines n k text =
      (ls : List Line) × ((line_loop rand rand_max fuel n_args n_lines n k (at_end text)
          ≡ done (at_end (text ++ lines_text ls)))
        × (All (Scoped n_args) ls
            × ((n_lines ≤ n + length ls) × (length (lines_text ls) ≤ 60 * (n_lines + 1 - n)))))

  line_loop_lem :
      (fuel n_args n_lines n k : ℕ) (text : Bytes)
      → 0 < n_args
      → n_args ≤ 1000
      → n_lines ≤ n + fuel
      → length text + 60 * (n_lines + 1 - n) < max_kernel_size
      → Loop fuel n_args n_lines n k text
  unfolding line_loop Loop Round
  line_loop_lem zero n_args n_lines n k text h u f b =
      let l = le→ltb n n_lines (omega arith) in
      ([], (rw (l, append-nil text) refl, (tt, (omega arith, omega arith))))
  line_loop_lem (suc fuel) n_args n_lines n k text h u f b = elim (dec_lt n n_lines) [
    | no g ↦
        let l = le→ltb n n_lines (omega arith) in
        ([], (rw (l, append-nil text) refl, (tt, (omega arith, omega arith))))
    | yes g ↦
        let (ls, (k', (e, (s, (c, d))))) =
          line_round_lem n_args n_lines n k text h u (omega arith) in
        let m = length-append text (lines_text ls) in
        let (ms, (e', (s', (c', d')))) =
          line_loop_lem fuel n_args n_lines (n + 2) k' (text ++ lines_text ls) h u (omega arith)
            (omega arith) in
        let j =
          append_assoc text (lines_text ls) (lines_text ms)
          ∙ ap (λ t. text ++ t) (sym (lines_text-append ls ms)) in
        let lm = length-append ls ms in
        let lt = length-append (lines_text ls) (lines_text ms) in
        let lw = ap length (lines_text-append ls ms) in
        (
          ls ++ ms,
          (
            rw (lt→ltb n n_lines g, e, e', j) refl,
            (All-append (Scoped n_args) ls ms s s', (omega arith, omega arith)),
          ),
        )
  ]

  parameter_loop-parameters :
      (rounds n : ℕ) (text : Bytes)
      → n + rounds ≤ 1000
      → length text + 30 * rounds < max_kernel_size
      → parameter_loop rand rand_max rounds n (at_end text)
        ≡ done (at_end (text ++ parameters rounds n))
  unfolding parameter_loop
  parameter_loop-parameters zero n text h b = rw (append-nil text) refl
  parameter_loop-parameters (suc rounds) n text h b =
      let p = length-parameter n (omega arith) in
      let m = length-append text (parameter n) in
      let e = print_piece-at_end (parameter n) text (omega arith) in
      let ih =
        parameter_loop-parameters rounds (n + 1) (text ++ parameter n) (omega arith)
          (omega arith) in
      rw (e, ih, append_assoc text (parameter n) (parameters rounds (n + 1))) refl

  -- The text of a kernel with between 1 and 1000 arguments and between 1 and 100000 lines is put
  -- into its 16 MiB without a write behind them, whatever `rand` gives between 0 and RAND_MAX. It
  -- is a head that declares the arguments `arg_0` to `arg_(n_args - 1)`, at least as many lines
  -- as are asked for, and the closing brace; each line names arguments that the head declares,
  -- the variables `tmp_0` to `tmp_2`, and numbers below 100000.
  pub gen_kernel-lines :
      (n_args n_lines : ℕ)
      → 0 < n_args
      → n_args ≤ 1000
      → 0 < n_lines
      → n_lines ≤ 100000
      → (ls : List Line) × ((gen_kernel rand rand_max n_args n_lines
            ≡ done (some (head n_args ++ lines_text ls ++ codes "}\n")))
          × (All (Scoped n_args) ls × (n_lines ≤ length ls)))
  unfolding gen_kernel Loop
  gen_kernel-lines n_args n_lines h u g v =
      let c0 = codes "__kernel void main_func(\n\t" in
      let ps = parameters (n_args - 1) 0 in
      let lp = last_parameter (n_args - 1) in
      let c1 = codes "{\n" in
      let c2 = codes "\tfloat tmp_0, tmp_1, tmp_2;\n\n" in
      let lps = length-parameters (n_args - 1) 0 (omega arith) in
      let llp = length-last_parameter (n_args - 1) (omega arith) in
      let m1 = length-append c0 ps in
      let m2 = length-append (c0 ++ ps) lp in
      let m3 = length-append (c0 ++ ps ++ lp) c1 in
      let m4 = length-append (c0 ++ ps ++ lp ++ c1) c2 in
      let e0 : print_piece c0 (record { text = []; pos = 0 }) ≡ done (at_end c0) =
        print_piece-at_end c0 [] (omega arith) in
      let e1 = parameter_loop-parameters (n_args - 1) 0 c0 (omega arith) (omega arith) in
      let e2 = print_piece-at_end lp (c0 ++ ps) (omega arith) in
      let e3 = print_piece-at_end c1 (c0 ++ ps ++ lp) (omega arith) in
      let e4 = print_piece-at_end c2 (c0 ++ ps ++ lp ++ c1) (omega arith) in
      let (ls, (e5, (s, (n, b)))) =
        line_loop_lem (n_lines + 1) n_args n_lines 0 0 (head n_args) h u (omega arith)
          (omega arith) in
      let m5 = length-append (head n_args) (lines_text ls) in
      let e6 = print_piece-at_end (codes "}\n") (head n_args ++ lines_text ls) (omega arith) in
      let g0 : (ltb n_args 1 || ltb n_lines 1) ≡ false =
        rw (le→ltb n_args 1 h, le→ltb n_lines 1 g) refl in
      (
        ls,
        (
          rw g0 (
              chain (parameter_loop rand rand_max (n_args - 1) 0) (print_piece lp) (print_piece c1)
                (print_piece c2) (line_loop rand rand_max (n_lines + 1) n_args n_lines 0 0)
                (print_piece (codes "}\n")) (λ w. some w.text) e0 e1 e2 e3 e4 e5 e6),
          (s, omega arith),
        ),
      )
