-- ===== src/CookieParser/Characters.antt =====
-- Which characters the names and the values of cookies have that src/cookie-parser.ts calls valid.
use kinetex.Base.{
  ℕ, ◌≤◌, ◌≡◌, ◌≢◌, ◌⊎◌, refl, subst, inl, inr, Bool, true, false, not, ◌&&◌, ◌||◌, [], ◌∷◌, leb,
  both_true, Text, codes, All, arith, Bool-cases,
}
use kinetex.Strings.{is_digit}
use kinetex.CookieParser.SetCookie.{
  is_letter, has_char, is_token_char, is_value_char, all_chars, is_valid_cookie_name,
  is_valid_cookie_value,
}

abbrev pub NoneOf : ℕ → Text → Type 0
NoneOf c [] = Unit
NoneOf c (d ∷ s) = (c ≢ d) × NoneOf c s

-- A visible ASCII character that is not one of the separators of HTTP.
abbrev pub IsTokenChar : ℕ → Type 0
IsTokenChar c = (33 ≤ c) × (c ≤ 126) × NoneOf c (codes "()<>@,;:\\\"/[]?={}")

-- A tab, or a character that is no control character.
abbrev pub IsValueChar : ℕ → Type 0
IsValueChar c = (c ≡ 9) ⊎ ((32 ≤ c) × (c ≢ 127))

no_token_chars : Text → Bool
no_token_chars [] = true
no_token_chars (d ∷ s) = not (is_token_char d) && no_token_chars s

differs : (c d : ℕ) → is_token_char c ≡ true → not (is_token_char d) ≡ true → c ≢ d
differs c d h n p =
    let k : is_token_char d ≡ true = subst (λ x. is_token_char x ≡ true) p h in
    absurd_test (is_token_char d) k n
  where
    absurd_test : (b : Bool) → b ≡ true → not b ≡ true → ⊥
    absurd_test b k n = ground (arith, k, n)

token-NoneOf : (c : ℕ) (s : Text) → is_token_char c ≡ true → no_token_chars s ≡ true → NoneOf c s
unfolding no_token_chars
token-NoneOf c [] h n = tt
token-NoneOf c (d ∷ s) h n =
    let (a, b) = both_true (not (is_token_char d)) (no_token_chars s) n in
    (differs c d h a, token-NoneOf c s h b)

visible : Text → Bool
visible [] = true
visible (d ∷ s) = leb 33 d && leb d 126 && visible s

has_char-visible :
    (c : ℕ) (s : Text) → has_char c s ≡ true → visible s ≡ true → (33 ≤ c) × (c ≤ 126)
unfolding visible
has_char-visible c [] h v = absurd (ground (arith, h))
has_char-visible c (d ∷ s) h v = ground (arith, h, v, has_char-visible c s)

token-visible : (c : ℕ) → is_token_char c ≡ true → (33 ≤ c) × (c ≤ 126)
unfolding visible
token-visible c h =
    let marks = codes "!#$%&'*+-.^_`|~" in
    elim (Bool-cases (has_char c marks)) [
      | inl m ↦ has_char-visible c marks m refl
      | inr n ↦ letter_or_digit (has_char c marks) n h
    ]
  where
    letter_or_digit :
        (b : Bool) → b ≡ false → (is_letter c || is_digit c || b) ≡ true → (33 ≤ c) × (c ≤ 126)
    letter_or_digit b n h = ground (arith, n, h)

is_token_char_lem : (c : ℕ) → is_token_char c ≡ true → IsTokenChar c
unfolding no_token_chars
is_token_char_lem c h =
    let v = token-visible c h in (v.0, v.1, token-NoneOf c (codes "()<>@,;:\\\"/[]?={}") h refl)

is_value_char_lem : (c : ℕ) → is_value_char c ≡ true → IsValueChar c
is_value_char_lem c h = ground (arith, h)

all_chars-All :
    (p : ℕ → Bool) (P : ℕ → Type 0)
    → ((c : ℕ) → p c ≡ true → P c)
    → (s : Text) → all_chars p s ≡ true
    → All P s
all_chars-All p P f [] h = tt
all_chars-All p P f (c ∷ s) h =
    let (a, b) = both_true (p c) (all_chars p s) h in (f c a, all_chars-All p P f s b)

pub name-IsTokenChar : (s : Text) → is_valid_cookie_name s ≡ true → All IsTokenChar s
unfolding is_valid_cookie_name
name-IsTokenChar s h = all_chars-All is_token_char IsTokenChar is_token_char_lem s h

pub value-IsValueChar : (s : Text) → is_valid_cookie_value s ≡ true → All IsValueChar s
unfolding is_valid_cookie_value
value-IsValueChar s h = all_chars-All is_value_char IsValueChar is_value_char_lem s h
