-- ===== src/Loader/Lines.antt =====
-- rd/file_loader.c: the lines that `fgets` reads.
use p.Prelude.{
  ℕ, ◌-◌, ◌<◌, ◌≡◌, ◌≢◌, refl, ap, ◌∙◌, false, ◌||◌, List, [], ◌∷◌, ◌++◌, arith, ◌==◌, length,
  Bool-cases, inl, inr,
}
use p.Loader.{max_line, attach, read_lines, file_lines}

abbrev pub NoNewline : List ℕ → Type 0
NoNewline [] = Unit
NoNewline (c ∷ cs) = (c ≢ b'\n') × NoNewline cs

-- A line that the buffer holds is read whole.
pub read_lines-line :
    (room : ℕ) (line rest : List ℕ)
    → NoNewline line
    → length line < room
    → read_lines room (line ++ b'\n' ∷ rest) ≡ (line ++ b'\n' ∷ []) ∷ file_lines rest
unfolding read_lines
read_lines-line room [] rest h fits = refl
read_lines-line room (c ∷ line) rest h fits =
    let more : c == b'\n' || room == 1 ≡ false = ground arith in
    rw (more, read_lines-line (room - 1) line rest h.1 (omega arith)) refl

-- The text is empty, or its last byte is a newline.
abbrev pub EndsLine : List ℕ → Type 0
EndsLine [] = Unit
EndsLine (c ∷ []) = c ≡ b'\n'
EndsLine (c ∷ d ∷ cs) = EndsLine (d ∷ cs)

attach-append : (c : ℕ) (a b : List (List ℕ)) → 0 < length a → attach c (a ++ b) ≡ attach c a ++ b
attach-append c [] b h = absurd (omega arith)
attach-append c (l ∷ a) b h = refl

length-read_lines : (room c : ℕ) (cs : List ℕ) → 0 < length (read_lines room (c ∷ cs))
unfolding read_lines
length-read_lines room c cs = elim (Bool-cases (c == b'\n' || room == 1)) [
  | inl e ↦ rw e (omega arith)
  | inr e ↦ rw e (length-attach c (read_lines (room - 1) cs))
]
  where
    length-attach : (c : ℕ) (a : List (List ℕ)) → 0 < length (attach c a)
    length-attach c [] = omega arith
    length-attach c (l ∷ a) = omega arith

-- Behind a whole line a new one begins.
pub read_lines-append :
    (room c : ℕ) (cs rest : List ℕ)
    → EndsLine (c ∷ cs)
    → read_lines room ((c ∷ cs) ++ rest) ≡ read_lines room (c ∷ cs) ++ file_lines rest
unfolding read_lines
read_lines-append room c [] rest h = rw h refl
read_lines-append room c (d ∷ cs) rest h = elim (Bool-cases (c == b'\n' || room == 1)) [
  | inl e ↦ rw e (ap (λ ls. (c ∷ []) ∷ ls) (read_lines-append (max_line - 1) d cs rest h))
  | inr e ↦ rw e (
      ap (attach c) (read_lines-append (room - 1) d cs rest h)
      ∙ attach-append c (read_lines (room - 1) (d ∷ cs)) (file_lines rest)
          (length-read_lines (room - 1) d cs))
]

pub file_lines-append :
    (text rest : List ℕ)
    → EndsLine text
    → file_lines (text ++ rest) ≡ file_lines text ++ file_lines rest
file_lines-append [] rest h = unfold read_lines in refl
file_lines-append (c ∷ cs) rest h = read_lines-append (max_line - 1) c cs rest h
