-- ===== src/CookieParser/Dates.antt =====
-- parseCookieDate of src/cookie-parser.ts. Times are milliseconds since 1970, of either sign.
use Prim.Native.Nat.{◌/◌, ◌%◌}
use kinetex.Base.{
  zero, suc, ℕ, ◌+◌, ◌-◌, ◌*◌, Bool, true, false, not, ◌&&◌, ◌||◌, List, [], ◌∷◌, Option, none,
  some, leb, ltb, ◌==◌, if◌then◌else◌, Text, codes, same, is_member, to_lower_text, length, take,
}
use kinetex.Numbers.{ℤ, pos, opposite, ◌+ℤ◌}
use kinetex.Strings.{is_digit}

abbrev pub is_delimiter : ℕ → Bool
is_delimiter c =
    c == 9
    || leb 0x20 c && leb c 0x2f
    || leb 0x3b c && leb c 0x40
    || leb 0x5b c && leb c 0x60
    || leb 0x7b c && leb c 0x7e

abbrev cons_token : ℕ → List Text → List Text
cons_token c [] = (c ∷ []) ∷ []
cons_token c (t ∷ ts) = (c ∷ t) ∷ ts

abbrev end_token : List Text → List Text
end_token [] = []
end_token ([] ∷ ts) = [] ∷ ts
end_token ((c ∷ t) ∷ ts) = [] ∷ (c ∷ t) ∷ ts

-- The first token is open and may be empty; the others are not.
abbrev open_tokens : Text → List Text
open_tokens [] = [] ∷ []
open_tokens (c ∷ s) =
    let rest = open_tokens s in if is_delimiter c then end_token rest else cons_token c rest

abbrev drop_empty : List Text → List Text
drop_empty [] = []
drop_empty ([] ∷ ts) = drop_empty ts
drop_empty ((c ∷ t) ∷ ts) = (c ∷ t) ∷ drop_empty ts

unfoldable pub tokenize_date : Text → List Text
tokenize_date s = drop_empty (open_tokens s)

abbrev pub Time : Type 0
Time = ℕ × ℕ × ℕ

abbrev two_digits : ℕ → ℕ → Option ℕ
two_digits a b = if is_digit a && is_digit b then some ((a - b'0') * 10 + (b - b'0')) else none

abbrev is_sign : ℕ → Bool
is_sign c = c == b'+' || c == b'-'

-- What may stand behind the seconds.
abbrev is_zone : Text → Bool
is_zone [] = true
is_zone (s ∷ a ∷ b ∷ c ∷ d ∷ []) = is_sign s && is_digit a && is_digit b && is_digit c && is_digit d
is_zone (s ∷ a ∷ b ∷ m ∷ c ∷ d ∷ []) =
    is_sign s && is_digit a && is_digit b && m == b':' && is_digit c && is_digit d
is_zone t = is_member (to_lower_text t) (codes "z" ∷ codes "gmt" ∷ codes "utc" ∷ [])

abbrev in_range : ℕ → ℕ → ℕ → Option Time
in_range h min sec = if ltb 23 h || ltb 59 min || ltb 59 sec then none else some (h, min, sec)

abbrev read_time : Option ℕ → Option ℕ → Option ℕ → Option Time
read_time (some h) (some min) (some sec) = in_range h min sec
read_time h min sec = none

-- The text behind the hours: two colons, minutes, seconds, and a zone.
abbrev time_from : Option ℕ → Text → Option Time
time_from h (x ∷ a ∷ b ∷ y ∷ c ∷ d ∷ zone) =
    if x == b':' && y == b':' && is_zone zone
    then read_time h (two_digits a b) (two_digits c d)
    else none
time_from h t = none

abbrev one_digit : ℕ → Option ℕ
one_digit a = if is_digit a then some (a - b'0') else none

unfoldable pub parse_time_token : Text → Option Time
unfolding to_lower_text
parse_time_token (a ∷ b ∷ s) =
    if b == b':' then time_from (one_digit a) (b ∷ s) else time_from (two_digits a b) s
parse_time_token t = none

abbrev month_map : List (Text × ℕ)
month_map =
    (codes "jan", 0)
    ∷ (codes "january", 0)
    ∷ (codes "feb", 1)
    ∷ (codes "february", 1)
    ∷ (codes "mar", 2)
    ∷ (codes "march", 2)
    ∷ (codes "apr", 3)
    ∷ (codes "april", 3)
    ∷ (codes "may", 4)
    ∷ (codes "jun", 5)
    ∷ (codes "june", 5)
    ∷ (codes "jul", 6)
    ∷ (codes "july", 6)
    ∷ (codes "aug", 7)
    ∷ (codes "august", 7)
    ∷ (codes "sep", 8)
    ∷ (codes "september", 8)
    ∷ (codes "oct", 9)
    ∷ (codes "october", 9)
    ∷ (codes "nov", 10)
    ∷ (codes "november", 10)
    ∷ (codes "dec", 11)
    ∷ (codes "december", 11)
    ∷ []

abbrev find_month : Text → List (Text × ℕ) → Option ℕ
find_month k [] = none
find_month k ((name, m) ∷ ms) = let rest = find_month k ms in if same k name then some m else rest

unfoldable pub parse_month_token : Text → Option ℕ
unfolding to_lower_text
parse_month_token token = find_month (to_lower_text (take 9 token)) month_map

abbrev digits_value : ℕ → Text → ℕ
digits_value n [] = n
digits_value n (c ∷ s) = digits_value (n * 10 + (c - b'0')) s

-- Two digits stand for a year from 1970 to 2069.
abbrev map_year : ℕ → ℕ
map_year y = if leb 70 y && leb y 99 then y + 1900 else if leb y 69 then y + 2000 else y

-- A text of digits, as a year.
unfoldable pub parse_year_token : Text → Option ℕ
parse_year_token digits =
    if leb 2 (length digits) && leb (length digits) 4
    then some (map_year (digits_value 0 digits))
    else none

abbrev cons_digit : ℕ → Text × Text → Text × Text
cons_digit c (digits, rest) = (c ∷ digits, rest)

abbrev split_digits : Text → Text × Text
split_digits [] = ([], [])
split_digits (c ∷ s) =
    let rest = split_digits s in if is_digit c then cons_digit c rest else ([], c ∷ s)

abbrev is_ordinal : Text → Bool
is_ordinal [] = true
is_ordinal s = is_member (to_lower_text s) (codes "st" ∷ codes "nd" ∷ codes "rd" ∷ codes "th" ∷ [])

abbrev numeric_of : Text × Text → Option Text
numeric_of (digits, rest) =
    if leb 1 (length digits) && leb (length digits) 4 && is_ordinal rest then some digits else none

-- The digits of a number of one to four digits, which may have an ordinal suffix.
unfoldable pub numeric_token : Text → Option Text
unfolding to_lower_text
numeric_token token = numeric_of (split_digits token)

pub record DateComponents : Type 0 where
  pub time : Option Time
  pub day_of_month : Option ℕ
  pub month : Option ℕ
  pub year : Option ℕ

abbrev is_none {ℓ} : {A : Type ℓ} → Option A → Bool
is_none none = true
is_none (some a) = false

abbrev has_char : ℕ → Text → Bool
has_char c [] = false
has_char c (d ∷ s) = c == d || has_char c s

abbrev has_letter : Text → Bool
has_letter [] = false
has_letter (c ∷ s) = leb b'a' c && leb c b'z' || leb b'A' c && leb c b'Z' || has_letter s

abbrev is_day : ℕ → Bool
is_day n = leb 1 n && leb n 31

abbrev put_year : Option ℕ → ℕ → DateComponents → DateComponents
put_year (some y) n found = record found { year = some y }
put_year none n found =
    if is_none found.day_of_month && is_day n then record found { day_of_month = some n } else found

unfoldable pub year_or_none : Bool → Text → Option ℕ
unfolding parse_year_token
year_or_none free digits = if free then parse_year_token digits else none

abbrev put_number : Option Text → DateComponents → DateComponents
put_number none found = found
put_number (some digits) found =
    let n = digits_value 0 digits in
    if is_none found.day_of_month && leb (length digits) 2 && is_day n
    then record found { day_of_month = some n }
    else put_year (year_or_none (is_none found.year && leb 2 (length digits)) digits) n found

unfoldable pub put_month : Option ℕ → Text → DateComponents → DateComponents
unfolding numeric_token
put_month (some m) token found = record found { month = some m }
put_month none token found = put_number (numeric_token token) found

unfoldable pub try_month : Text → DateComponents → DateComponents
unfolding parse_month_token
try_month token found =
    put_month (if is_none found.month && has_letter token then parse_month_token token else none)
      token found

abbrev put_time : Option Time → Text → DateComponents → DateComponents
put_time (some t) token found = record found { time = some t }
put_time none token found = try_month token found

unfoldable pub put_token : Text → DateComponents → DateComponents
unfolding parse_time_token
put_token token found =
    put_time (if is_none found.time && has_char b':' token then parse_time_token token else none)
      token found

abbrev pub put_tokens : List Text → DateComponents → DateComponents
put_tokens [] found = found
put_tokens (t ∷ ts) found = put_tokens ts (put_token t found)

abbrev is_leap : ℕ → Bool
is_leap y = (y % 4 == 0) && not (y % 100 == 0) || (y % 400 == 0)

-- The days of a common year before each month.
abbrev month_starts : List ℕ
month_starts = 0 ∷ 31 ∷ 59 ∷ 90 ∷ 120 ∷ 151 ∷ 181 ∷ 212 ∷ 243 ∷ 273 ∷ 304 ∷ 334 ∷ []

abbrev element : ℕ → List ℕ → ℕ
element n [] = 0
element zero (x ∷ xs) = x
element (suc n) (x ∷ xs) = element n xs

abbrev days_before : ℕ → ℕ
days_before m = element m month_starts

abbrev leap_day : ℕ → ℕ → ℕ
leap_day year month = if is_leap year && ltb 1 month then 1 else 0

-- The days from the first of January 1601.
abbrev pub day_number : ℕ → ℕ → ℕ → ℕ
day_number year month day =
    let n = year - 1601 in
    n * 365 + n / 4 - n / 100 + n / 400 + days_before month + leap_day year month + (day - 1)

abbrev pub epoch_offset : ℕ
epoch_offset = 11644473600000

-- `Date.UTC` for years from 1601 on.
unfoldable pub date_utc : ℕ → ℕ → ℕ → Time → ℤ
date_utc year month day (h, min, sec) =
    pos (((((day_number year month day) * 24 + h) * 60 + min) * 60 + sec) * 1000)
    +ℤ opposite (pos epoch_offset)

unfoldable pub finish_date : DateComponents → Option ℤ
unfolding date_utc
finish_date found = elim found.time [
  | none ↦ none
  | some time ↦ elim found.day_of_month [
    | none ↦ none
    | some day ↦ elim found.month [
      | none ↦ none
      | some month ↦ elim found.year [
        | none ↦ none
        | some year ↦
            if ltb year 1601 || ltb 9999 year
            then none
            else if ltb day 1 || ltb 31 day
            then none
            else some (date_utc year month day time)
      ]
    ]
  ]
]

abbrev pub no_components : DateComponents
no_components = record { time = none; day_of_month = none; month = none; year = none }

unfoldable pub parse_cookie_date : Text → Option ℤ
unfolding tokenize_date finish_date
parse_cookie_date s = finish_date (put_tokens (tokenize_date s) no_components)
