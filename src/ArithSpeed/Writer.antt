-- ===== src/ArithSpeed/Writer.antt =====
-- Text that is written piece by piece into one array at a position kept by hand, the way
-- arith_speed/arith_speed.cpp writes the source of a kernel.
use mathlib.Core.List.{append-nil, append_assoc}
use u_clbench.Base.{
  ℕ, zero, suc, ◌+◌, ◌≡◌, refl, ap, ◌∙◌, arith, Bool, true, false, [], ◌∷◌, ◌++◌, leb,
  if◌then◌else◌, length, length-append, take,
}
use u_clbench.Base.Text.{Bytes}

-- `code` is the text up to the first NUL.
pub record Writer : Type 0 where
  pub code : Bytes
  pub pos : ℕ

-- `sprintf(code + pos, ...)`; behind the first NUL nothing is seen of it
pub write_at : Bytes → ℕ → Bytes → Bytes
write_at code pos piece = if leb pos (length code) then take pos code ++ piece else code

-- a piece, and `pos = strlen(code)` behind it
unfoldable pub put : Bytes → Writer → Writer
unfolding write_at
put piece w = let code = write_at w.code w.pos piece in record { code = code; pos = length code }

-- a piece, and `pos += by` behind it
unfoldable pub put_by : ℕ → Bytes → Writer → Writer
unfolding write_at
put_by by piece w = record { code = write_at w.code w.pos piece; pos = w.pos + by }

-- `for(int i = from; i < from + n; ++i)`
unfoldable pub rounds : (ℕ → Writer → Writer) → ℕ → ℕ → Writer → Writer
rounds body zero i w = w
rounds body (suc n) i w = rounds body n (i + 1) (body i w)

-- the position is the end of the text
abbrev pub at_end : Bytes → Writer
at_end code = record { code = code; pos = length code }

-- the pieces of the rounds from `i` on
abbrev pub pieces : (ℕ → Bytes) → ℕ → ℕ → Bytes
pieces piece zero i = []
pieces piece (suc n) i = piece i ++ pieces piece n (i + 1)

take-length : (xs ys : Bytes) → take (length xs) xs ++ ys ≡ xs ++ ys
take-length [] ys = refl
take-length (x ∷ xs) ys = ap (◌∷◌ x) (take-length xs ys)

write_at_end : (code piece : Bytes) → write_at code (length code) piece ≡ code ++ piece
unfolding write_at
write_at_end code piece =
    let w : leb (length code) (length code) ≡ true = ground arith in rw w (take-length code piece)

put-at_end : (piece code : Bytes) → put piece (at_end code) ≡ at_end (code ++ piece)
unfolding put
put-at_end piece code = rw (write_at_end code piece)

put_by-at_end :
    (by : ℕ) (piece code : Bytes)
    → length piece ≡ by
    → put_by by piece (at_end code) ≡ at_end (code ++ piece)
unfolding put_by
put_by-at_end by piece code h = rw (write_at_end code piece, length-append code piece, h)

rounds-at_end :
    (body : ℕ → Writer → Writer) (piece : ℕ → Bytes) (n i : ℕ) (code : Bytes)
    → ((j : ℕ) (c : Bytes) → body j (at_end c) ≡ at_end (c ++ piece j))
    → rounds body n i (at_end code) ≡ at_end (code ++ pieces piece n i)
unfolding rounds
rounds-at_end body piece zero i code h = rw (append-nil code)
rounds-at_end body piece (suc n) i code h = rw (
  h i code,
  rounds-at_end body piece n (i + 1) (code ++ piece i) h,
  append_assoc code (piece i) (pieces piece n (i + 1)),
)

-- `f` goes from the end of a text to the end of that text with `piece` behind it.
pub record Appends (f : Writer → Writer) (piece : Bytes) : Type 0 where
  pub on_text : (code : Bytes) → f (at_end code) ≡ at_end (code ++ piece)

pub Appends-then :
    {f g : Writer → Writer} {p q : Bytes}
    → Appends f p
    → Appends g q
    → Appends (λ w. g (f w)) (p ++ q)
Appends-then {f} {g} {p} {q} a b = record {
  on_text =
      λ code. ap g (a.on_text code) ∙ b.on_text (code ++ p) ∙ ap at_end (append_assoc code p q);
}

pub Appends-if :
    {f g : Writer → Writer} {p q : Bytes} (c : Bool)
    → Appends f p
    → Appends g q
    → Appends (λ w. if c then f w else g w) (if c then p else q)
Appends-if true a b = a
Appends-if false a b = b

pub Appends-choice :
    {f g : Writer → Writer} {p q : Bytes} (c : Bool)
    → Appends f p
    → Appends g q
    → Appends (if c then f else g) (if c then p else q)
Appends-choice true a b = a
Appends-choice false a b = b

pub Appends-nothing : Appends (λ w. w) []
Appends-nothing = record { on_text = λ code. rw (append-nil code) }

pub put-Appends : (piece : Bytes) → Appends (put piece) piece
put-Appends piece = record { on_text = put-at_end piece }

pub put_by-Appends : (by : ℕ) (piece : Bytes) → length piece ≡ by → Appends (put_by by piece) piece
put_by-Appends by piece h = record { on_text = λ code. put_by-at_end by piece code h }

pub rounds-Appends :
    (body : ℕ → Writer → Writer) (piece : ℕ → Bytes) (n i : ℕ)
    → ((j : ℕ) → Appends (body j) (piece j))
    → Appends (rounds body n i) (pieces piece n i)
rounds-Appends body piece n i h = record {
  on_text = λ code. rounds-at_end body piece n i code (λ j c. (h j).on_text c);
}
