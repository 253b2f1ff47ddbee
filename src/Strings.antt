-- ===== src/Strings.antt =====
-- Methods of texts that parsers of src/ call: `trim`, `split`, `join`, `indexOf` and `parseInt`.
use kinetex.Base.{
  ℕ, ◌+◌, ◌-◌, ◌*◌, Bool, ◌&&◌, ◌||◌, leb, ◌==◌, if◌then◌else◌, List, [], ◌∷◌, ◌++◌, Option, none,
  some, Text,
}
use kinetex.Numbers.{Number, nan, num, negate}

-- White space and line ends.
abbrev pub is_space : ℕ → Bool
is_space c =
    leb 9 c && leb c 13
    || c == 32
    || c == 0xa0
    || c == 0xfeff
    || c == 0x1680
    || leb 0x2000 c && leb c 0x200a
    || c == 0x2028
    || c == 0x2029
    || c == 0x202f
    || c == 0x205f
    || c == 0x3000

unfoldable pub trim_start : Text → Text
trim_start [] = []
trim_start (c ∷ s) = let rest = trim_start s in if is_space c then rest else c ∷ s

-- The end is trimmed where nothing but white space follows.
abbrev pub cons_trimmed : ℕ → Text → Text
cons_trimmed c [] = if is_space c then [] else c ∷ []
cons_trimmed c (d ∷ s) = c ∷ d ∷ s

unfoldable pub trim_end : Text → Text
trim_end [] = []
trim_end (c ∷ s) = cons_trimmed c (trim_end s)

unfoldable pub trim : Text → Text
unfolding trim_start trim_end
trim s = trim_end (trim_start s)

abbrev cons_first : ℕ → List Text → List Text
cons_first c [] = (c ∷ []) ∷ []
cons_first c (p ∷ ps) = (c ∷ p) ∷ ps

-- `split` at one character
unfoldable pub split : ℕ → Text → List Text
split sep [] = [] ∷ []
split sep (c ∷ s) = let rest = split sep s in if c == sep then [] ∷ rest else cons_first c rest

unfoldable pub join : ℕ → List Text → Text
join sep [] = []
join sep (p ∷ []) = p
join sep (p ∷ q ∷ ps) = p ++ sep ∷ join sep (q ∷ ps)

abbrev prefix_one : ℕ → Option (Text × Text) → Option (Text × Text)
prefix_one c none = none
prefix_one c (some (a, b)) = some (c ∷ a, b)

-- `slice(0, i)` and `slice(i + 1)` where i is `indexOf` of a character; `none` where it is -1.
unfoldable pub cut : ℕ → Text → Option (Text × Text)
cut sep [] = none
cut sep (c ∷ s) = let rest = cut sep s in if c == sep then some ([], s) else prefix_one c rest

abbrev pub is_digit : ℕ → Bool
is_digit c = leb b'0' c && leb c b'9'

-- The digits that a text starts with, behind a number read so far.
abbrev read_digits : ℕ → Text → ℕ
read_digits n [] = n
read_digits n (c ∷ s) =
    let more = read_digits (n * 10 + (c - b'0')) s in if is_digit c then more else n

abbrev read_number : Text → Number
read_number [] = nan
read_number (c ∷ s) = if is_digit c then num (read_digits 0 (c ∷ s)) else nan

abbrev read_signed : Text → Number
read_signed [] = nan
read_signed (c ∷ s) =
    if c == b'-'
    then negate (read_number s)
    else if c == b'+'
    then read_number s
    else read_number (c ∷ s)

-- `parseInt(s, 10)`
unfoldable pub parse_int : Text → Number
unfolding trim_start
parse_int s = read_signed (trim_start s)
