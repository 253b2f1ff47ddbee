-- ===== src/CookieParser/Punycode.antt =====
-- decodePunycode of src/cookie-parser.ts. The two loops over the extended part go along the text, and
-- the loop of `adapt` runs on fuel: each round divides its number by 35.
use Prim.Native.Nat.{◌/◌, ◌%◌}
use kinetex.Base.{
  ℕ, zero, suc, ◌+◌, ◌-◌, ◌*◌, Bool, true, false, not, ◌&&◌, ◌||◌, List, [], ◌∷◌, ◌++◌, Option,
  none, some, leb, ltb, ◌==◌, if◌then◌else◌, Text, length, take, drop,
}

abbrev digit_val : ℕ → Option ℕ
digit_val c =
    if leb 0x41 c && leb c 0x5a
    then some (c - 0x41)
    else if leb 0x61 c && leb c 0x7a
    then some (c - 0x61)
    else if leb 0x30 c && leb c 0x39
    then some (c - 0x30 + 26)
    else none

-- The number after the divisions, and how often 36 was added.
abbrev pub reduce : ℕ → ℕ → ℕ → ℕ × ℕ
reduce zero delta k = (delta, k)
reduce (suc fuel) delta k =
    let rest = reduce fuel (delta / 35) (k + 36) in if ltb 455 delta then rest else (delta, k)

abbrev bias_of : ℕ × ℕ → ℕ
bias_of (delta, k) = k + 36 * delta / (delta + 38)

unfoldable pub adapt : ℕ → ℕ → Bool → ℕ
adapt delta points first_time =
    let halved = if first_time then delta / 700 else delta / 2 in
    let spread = halved + halved / points in bias_of (reduce spread spread 0)

pub record Decoder : Type 0 where
  pub n : ℕ
  pub i : ℕ
  pub bias : ℕ
  -- The code points so far.
  pub output : List ℕ
  pub old_i : ℕ
  pub w : ℕ
  pub k : ℕ
  -- Whether a number has begun whose last digit is still to come.
  pub inside : Bool

abbrev threshold : ℕ → ℕ → ℕ
threshold k bias = if leb k bias then 1 else if leb (bias + 26) k then 26 else k - bias

abbrev insert_at : ℕ → ℕ → List ℕ → List ℕ
insert_at i c xs = take i xs ++ c ∷ drop i xs

-- The end of a number: a code point is put in.
unfoldable pub put_code_point : Decoder → Decoder
unfolding adapt
put_code_point d =
    let points = length d.output + 1 in
    let n = d.n + d.i / points in
    let i = d.i % points in
    record {
      n = n;
      i = i + 1;
      bias = adapt (d.i - d.old_i) points (d.old_i == 0);
      output = insert_at i n d.output;
      old_i = i + 1;
      w = 1;
      k = 36;
      inside = false;
    }

unfoldable pub put_digit : ℕ → Decoder → Decoder
unfolding put_code_point
put_digit digit d =
    let t = threshold d.k d.bias in
    let next = record d { i = d.i + digit * d.w; inside = true } in
    if ltb digit t then put_code_point next else record next { w = d.w * (36 - t); k = d.k + 36 }

-- `none` where the source gives its input back.
unfoldable pub decode_from : Text → Decoder → Option (List ℕ)
unfolding put_digit
decode_from [] d = if d.inside then none else some d.output
decode_from (c ∷ s) d = elim (digit_val c) [
  | none ↦ none
  | some digit ↦ decode_from s (put_digit digit d)
]

abbrev is_basic : ℕ → Bool
is_basic c = not (leb 0x80 c || ltb c 0x20 || c == 0x7f)

abbrev all_basic : Text → Bool
all_basic [] = true
all_basic (c ∷ s) = is_basic c && all_basic s

-- The text before the last hyphen, and the text behind it.
abbrev split_last : Text → Option (Text × Text)
split_last [] = none
split_last (c ∷ s) = elim (split_last s) [
  | none ↦ if c == b'-' then some ([], s) else none
  | some (a, b) ↦ some (c ∷ a, b)
]

abbrev or_whole : Option (Text × Text) → Text → Text × Text
or_whole none s = ([], s)
or_whole (some parts) s = parts

-- UTF-16 code units of code points: none where one is too large.
abbrev encode_points : List ℕ → Option Text
encode_points [] = some []
encode_points (c ∷ cs) = elim (encode_points cs) [
  | none ↦ none
  | some s ↦
      if leb c 0xffff
      then some (c ∷ s)
      else if leb c 0x10ffff
      then some ((0xd800 + (c - 0x10000) / 0x400) ∷ (0xdc00 + (c - 0x10000) % 0x400) ∷ s)
      else none
]

abbrev or_input : Option Text → Text → Text
or_input none input = input
or_input (some []) input = input
or_input (some (c ∷ s)) input = c ∷ s

abbrev points_text : Option (List ℕ) → Option Text
points_text none = none
points_text (some cs) = encode_points cs

unfoldable pub decode_parts : Text × Text → Option Text
unfolding decode_from
decode_parts (basic, extended) =
    if all_basic basic
    then points_text (
        decode_from extended (record {
          n = 0x80;
          i = 0;
          bias = 72;
          output = basic;
          old_i = 0;
          w = 1;
          k = 36;
          inside = false;
        }))
    else none

unfoldable pub decode_punycode : Text → Text
unfolding decode_parts
decode_punycode input = or_input (decode_parts (or_whole (split_last input) input)) input
