-- ===== src/CookieParser/Addresses.antt =====
-- isIPAddress of src/cookie-parser.ts.
use kinetex.Base.{
  ℕ, ◌+◌, ◌-◌, ◌*◌, Bool, true, false, ◌&&◌, ◌||◌, List, [], ◌∷◌, ◌++◌, Option, none, some, leb,
  ◌==◌, if◌then◌else◌, Text, length,
}
use kinetex.Strings.{is_digit, split}

abbrev pub colon : ℕ
colon = b':'

abbrev all_digits : Text → Bool
all_digits [] = true
all_digits (c ∷ s) = is_digit c && all_digits s

-- One to three digits.
abbrev is_octet_text : Text → Bool
is_octet_text s = leb 1 (length s) && leb (length s) 3 && all_digits s

abbrev digits_value : ℕ → Text → ℕ
digits_value n [] = n
digits_value n (c ∷ s) = digits_value (n * 10 + (c - b'0')) s

abbrev is_octet : Text → Bool
is_octet s = is_octet_text s && leb (digits_value 0 s) 255

abbrev four : (Text → Bool) → List Text → Bool
four p (a ∷ b ∷ c ∷ d ∷ []) = p a && p b && p c && p d
four p parts = false

-- The form of a dotted quad, whatever its numbers.
unfoldable pub has_quad_form : Text → Bool
unfolding split
has_quad_form s = four is_octet_text (split b'.' s)

unfoldable pub is_quad : Text → Bool
unfolding split
is_quad s = four is_octet (split b'.' s)

abbrev is_hex : ℕ → Bool
is_hex c = is_digit c || leb b'a' c && leb c b'f' || leb b'A' c && leb c b'F' || c == colon

abbrev all_hex : Text → Bool
all_hex [] = true
all_hex (c ∷ s) = is_hex c && all_hex s

-- `lastIndexOf(":")`: the text up to and with it, and the text behind.
abbrev after_last_colon : Text → Option (Text × Text)
after_last_colon [] = none
after_last_colon (c ∷ s) = elim (after_last_colon s) [
  | none ↦ if c == colon then some (c ∷ [], s) else none
  | some (a, b) ↦ some (c ∷ a, b)
]

abbrev has_dot : Text → Bool
has_dot [] = false
has_dot (c ∷ s) = c == b'.' || has_dot s

-- Two groups stand for the quad: their digits do not matter below, only that they are two.
abbrev two_groups : Text
two_groups = b'0' ∷ colon ∷ b'0' ∷ []

unfoldable pub without_quad : Option (Text × Text) → Text → Option Text
unfolding is_quad
without_quad none s = some s
without_quad (some (a, b)) s =
    if has_dot b then (if is_quad b then some (a ++ two_groups) else none) else some s

abbrev cons_part : ℕ → List Text → List Text
cons_part c [] = (c ∷ []) ∷ []
cons_part c (p ∷ ps) = (c ∷ p) ∷ ps

-- `split("::")`; the flag says that the character before was the first of a pair.
unfoldable pub split_elisions : Text → List Text
split_elisions [] = [] ∷ []
split_elisions (c ∷ []) = (c ∷ []) ∷ []
split_elisions (c ∷ d ∷ s) =
    let after = split_elisions s in
    let next = split_elisions (d ∷ s) in
    if c == colon && d == colon then [] ∷ after else cons_part c next

abbrev count_filled : List Text → ℕ
count_filled [] = 0
count_filled ([] ∷ ps) = count_filled ps
count_filled ((c ∷ p) ∷ ps) = 1 + count_filled ps

unfoldable pub group_count : Text → ℕ
unfolding split
group_count s = count_filled (split colon s)

unfoldable pub right_groups : List Text → Bool
unfolding group_count
right_groups (s ∷ []) = group_count s == 8
right_groups (head ∷ tail ∷ []) = leb (group_count head + group_count tail) 7
right_groups parts = false

abbrev is_nonempty : Text → Bool
is_nonempty [] = false
is_nonempty (c ∷ s) = true

unfoldable pub right_form : Option Text → Bool
unfolding split_elisions right_groups
right_form none = false
right_form (some s) = is_nonempty s && all_hex s && right_groups (split_elisions s)

unfoldable pub is_ipv6_literal : Text → Bool
unfolding without_quad right_form
is_ipv6_literal h = right_form (without_quad (after_last_colon h) h)

abbrev strip_last : Text → Option Text
strip_last [] = none
strip_last (c ∷ []) = if c == b']' then some [] else none
strip_last (c ∷ d ∷ s) = elim (strip_last (d ∷ s)) [ none ↦ none | some t ↦ some (c ∷ t) ]

abbrev or_text : Option Text → Text → Text
or_text none t = t
or_text (some s) t = s

abbrev strip_brackets : Text → Text
strip_brackets [] = []
strip_brackets (c ∷ s) = if c == b'[' then or_text (strip_last s) (c ∷ s) else c ∷ s

unfoldable pub is_ip_address : Text → Bool
unfolding has_quad_form is_quad is_ipv6_literal
is_ip_address host =
    let h = strip_brackets host in if has_quad_form h then is_quad h else is_ipv6_literal h
