-- ===== src/Cllib/Kernels/Agree.antt =====
-- Both forms of `load_kernel` build the same source.
use native.Mathlib.Nat.{zero-mod}
use u_clbench.Base.{
  ℕ, ◌%◌, ◌≡◌, ◌≢◌, refl, sym, ◌∙◌, true, false, Option, none, some, [], ◌∷◌, ◌++◌, length, All,
  ==_ne,
}
use u_clbench.Base.Int.{ℤ, ◌==ℤ◌}
use u_clbench.Base.Run.{done}
use u_clbench.Base.Text.{Bytes}
use u_clbench.Cllib.Kernels.{
  c_string, Loaded, load_kernel_stdio, load_kernel_mmap, mapped_text, checked, loaded_with,
}

c_string-append :
    (text rest : Bytes)
    → All (λ (c : ℕ). c ≢ 0) text
    → c_string (text ++ rest) ≡ text ++ c_string rest
unfolding c_string
c_string-append [] rest h = refl
c_string-append (c ∷ text) rest (n, h) = rw (==_ne c 0 n, c_string-append text rest h)

module _ {P : Type 0} (success : ℤ) (files : Bytes → Option Bytes) (create : Bytes → Option P × ℤ)
    (page : ℕ) where
  -- `clCreateProgramWithSource` reports success exactly with a program.
  abbrev pub Reports : Type 0
  Reports = (text : Bytes) (p : P) → (create text).0 ≡ some p → ((create text).1 ==ℤ success) ≡ true

  checked_program :
      (text : Bytes) (o : Option P)
      → Reports
      → (create text).0 ≡ o
      → checked success files create page (create text) ≡ o
  checked_program text none r e = rw e refl
  checked_program text (some p) r e = rw (e, r text p e) refl

  loaded_with-program :
      (o : Option P)
      → ((loaded_with success files create page o).program ≡ o)
        × (o ≡ none → (loaded_with success files create page o).left_open ≡ true)
  loaded_with-program none = (refl, λ e. refl)
  loaded_with-program (some p) = (refl, λ e. absurd (cc))

  mapped_text-c_string :
      (source : Bytes)
      → length source % page ≢ 0
      → mapped_text success files create page source ≡ done (c_string source)
  unfolding mapped_text
  mapped_text-c_string source p = rw (==_ne _ 0 p) refl

  mod_ne_zero : (n : ℕ) → n % page ≢ 0 → n ≢ 0
  mod_ne_zero n p e = p (rw e (zero-mod page))

  -- For a file that does not end where a page ends, and a preamble without a NUL, both forms give
  -- what OpenCL makes of one source: the preamble and the file up to its first NUL. The form
  -- with `stdio` always closes the file, the other one leaves it open when there is no program.
  pub load_kernel_mmap-load_kernel_stdio :
      (path preamble source : Bytes)
      → Reports
      → files path ≡ some source
      → length source % page ≢ 0
      → All (λ (c : ℕ). c ≢ 0) preamble
      → (l : Loaded P) × (load_kernel_mmap success files create page path preamble ≡ done l)
        × (l.program ≡ (create (preamble ++ c_string source)).0)
        × (l.program ≡ (load_kernel_stdio success files create page path preamble).program)
        × ((load_kernel_stdio success files create page path preamble).left_open ≡ false)
        × (l.program ≡ none → l.left_open ≡ true)
  unfolding load_kernel_mmap load_kernel_stdio
  load_kernel_mmap-load_kernel_stdio path preamble source r f p h =
      let text = preamble ++ c_string source in
      let o = (create text).0 in
      let (same, leaves) = loaded_with-program o in
      let e = ==_ne (length source) 0 (mod_ne_zero (length source) p) in
      (
        loaded_with success files create page o,
        rw (load_kernel_mmap, f, mapped_text-c_string source p) refl,
        same,
        rw (load_kernel_stdio, f, e, c_string-append preamble source h)
            (same ∙ sym (checked_program text o r refl)),
        rw (load_kernel_stdio, f, e) refl,
        λ n. leaves (sym same ∙ n),
      )
