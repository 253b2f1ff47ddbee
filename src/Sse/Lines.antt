-- ===== src/Sse/Lines.antt =====
-- The splitting of a text into lines that src/sse.ts writes as `split(/\r\n|\r|\n/)`.
pub use kinetex.Base.{Text, codes, same}
use kinetex.Base.{
  ℕ, ◌≡◌, refl, Bool, true, false, ◌||◌, ◌&&◌, List, [], ◌∷◌, ◌++◌, ◌==◌, if◌then◌else◌, arith,
}

abbrev pub lf : ℕ
lf = 10

abbrev pub cr : ℕ
cr = 13

abbrev pub nul : ℕ
nul = 0

abbrev pub bom : ℕ
bom = 0xfeff

abbrev pub contains : ℕ → Text → Bool
contains c [] = false
contains c (x ∷ s) = x == c || contains c s

-- The lines that have ended, and what is left after the last line ending.
abbrev pub Split : Type 0
Split = List Text × Text

abbrev pub end_line : Split → Split
end_line (lines, rest) = ([] ∷ lines, rest)

abbrev pub put_char : ℕ → Split → Split
put_char c ([], rest) = ([], c ∷ rest)
put_char c (line ∷ lines, rest) = ((c ∷ line) ∷ lines, rest)

-- LF behind a CR belongs to the same line ending.
abbrev pub read_char : Bool → ℕ → Split → Split
read_char after_cr c r =
    if c == lf
    then (if after_cr then r else end_line r)
    else if c == cr
    then end_line r
    else put_char c r

unfoldable pub split_from : Bool → Text → Split
split_from after_cr [] = ([], [])
split_from after_cr (c ∷ s) = read_char after_cr c (split_from (c == cr) s)

-- All elements of the split but the last, and the last.
abbrev pub split_lines : Text → Split
split_lines = split_from false

-- `split` as one list.
abbrev pub all_lines : Split → List Text
all_lines (lines, rest) = lines ++ rest ∷ []

-- `join("\n")`
abbrev pub join_lines : List Text → Text
join_lines [] = []
join_lines (l ∷ []) = l
join_lines (l ∷ m ∷ ls) = l ++ lf ∷ join_lines (m ∷ ls)

-- Whether a text that comes after a character that is a CR or not ends in a CR.
abbrev pub ends_in_cr : Bool → Text → Bool
ends_in_cr after_cr [] = after_cr
ends_in_cr after_cr (c ∷ s) = ends_in_cr (c == cr) s

abbrev pub NoBreaks : Text → Type 0
NoBreaks [] = Unit {0}
NoBreaks (c ∷ s) = ((c == lf) ≡ false) × ((c == cr) ≡ false) × NoBreaks s

-- A split goes on where an earlier one left off.
abbrev pub continue_with : Split → Text → Split
continue_with (lines, rest) t = (lines ++ (split_lines (rest ++ t)).0, (split_lines (rest ++ t)).1)

continue_with-put_char :
    (c : ℕ) (r : Split) (t : Text)
    → (c == lf) ≡ false
    → (c == cr) ≡ false
    → put_char c (continue_with r t) ≡ continue_with (put_char c r) t
unfolding split_from
continue_with-put_char c ([], rest) t n m = ground arith
continue_with-put_char c (l ∷ ls, rest) t n m = refl

abbrev pub starts_with_lf : Text → Bool
starts_with_lf [] = false
starts_with_lf (c ∷ s) = c == lf

-- Whether a text begins behind a CR makes no difference if it does not begin with LF.
split_from-restart :
    (b : Bool) (t : Text) → (b && starts_with_lf t) ≡ false → split_from b t ≡ split_from false t
unfolding split_from
split_from-restart b [] h = refl
split_from-restart false (c ∷ t) h = refl
split_from-restart true (c ∷ t) h = rw h refl

pub split_from-append :
    (b : Bool) (s t : Text)
    → (ends_in_cr b s && starts_with_lf t) ≡ false
    → split_from b (s ++ t) ≡ continue_with (split_from b s) t
unfolding split_from
split_from-append b [] t h = split_from-restart b t h
split_from-append b (c ∷ s) t h =
    ground (
      arith,
      split_from-append (c == cr) s t h,
      continue_with-put_char c (split_from (c == cr) s) t,
    )

pub split_lines-line :
    (s t : Text)
    → NoBreaks s
    → split_lines (s ++ lf ∷ t) ≡ (s ∷ (split_lines t).0, (split_lines t).1)
unfolding split_from
split_lines-line [] t n = refl
split_lines-line (c ∷ s) t n = ground (arith, split_lines-line s t n.2)
