-- ===== src/CookieParser/Accepted.antt =====
-- What parseSetCookieHeader of src/cookie-parser.ts lets through.
use kinetex.CookieParser.Characters.{IsTokenChar, IsValueChar, name-IsTokenChar, value-IsValueChar}
use kinetex.Base.{
  All, ◌≡◌, refl, Bool, true, false, not, [], ◌∷◌, Option, none, some, Text, codes, subst, arith,
  starts_with, if◌then◌else◌,
}
use kinetex.Numbers.{ℤ}
use kinetex.Strings.{trim, split, cut}
use kinetex.CookieParser.SetCookie.{
  ParsedCookie, Attributes, parse_set_cookie_header, parse_pair, parse_filled, with_attributes,
  is_valid_cookie_name, is_valid_cookie_value, unquote, name_value, header_parts, put_attributes,
  path_of, expires_of, max_age_of, attribute,
}

-- A path starts with a slash.
abbrev pub has_rooted_path : Option Text → Bool
has_rooted_path none = true
has_rooted_path (some p) = starts_with p (b'/' ∷ [])

-- A cookie has at most one of a lifetime and a date.
abbrev pub has_one_end : Option ℤ → Option ℤ → Bool
has_one_end (some n) (some t) = false
has_one_end n t = true

-- A cookie that may be stored: its name is a token or empty, its value has no control characters, its
-- path starts with a slash, and it has no date beside a lifetime.
pub record Accepted (c : ParsedCookie) : Type 0 where
  pub name : All IsTokenChar c.name
  pub value : All IsValueChar c.value
  pub path : has_rooted_path c.path ≡ true
  pub end : has_one_end c.max_age c.expires ≡ true

path_of-rooted : (o : Option Text) → has_rooted_path (path_of o) ≡ true
path_of-rooted none = refl
path_of-rooted (some p) = ground arith

expires_of-one : (n : Option ℤ) (o : Option Text) → has_one_end n (expires_of n o) ≡ true
unfolding expires_of
expires_of-one none none = refl
expires_of-one none (some s) = refl
expires_of-one (some n) none = refl
expires_of-one (some n) (some s) = refl

passed :
    (b : Bool) (o : Option ParsedCookie) (c : ParsedCookie)
    → (if not b then none else o) ≡ some c
    → (b ≡ true) × (o ≡ some c)
passed b o c h = ground (arith, h)

some_cookie : (a c : ParsedCookie) → some a ≡ some c → a ≡ c
some_cookie a c h = ground (arith, h)

with_attributes-Accepted :
    (decode_label : Text → Text) (name value : Text) (attrs : Attributes)
    → is_valid_cookie_name name ≡ true
    → is_valid_cookie_value value ≡ true
    → Accepted (with_attributes decode_label name value attrs)
unfolding with_attributes
with_attributes-Accepted decode_label name value attrs n v = record {
  name = name-IsTokenChar name n;
  value = value-IsValueChar value v;
  path = path_of-rooted (attribute (codes "path") attrs);
  end =
      expires_of-one (max_age_of (attribute (codes "max-age") attrs))
        (attribute (codes "expires") attrs);
}

parse_pair-Accepted :
    (decode_label : Text → Text) (pair : Text × Text) (attrs : Text) (c : ParsedCookie)
    → parse_pair decode_label pair attrs ≡ some c
    → Accepted c
unfolding parse_pair
parse_pair-Accepted decode_label (name, value) attrs c h =
    let v = unquote (trim value) in
    let made = with_attributes decode_label name v (put_attributes (split b';' attrs) []) in
    let third = if not (is_valid_cookie_value v) then none else some made in
    let second = if not (is_valid_cookie_value value) then none else third in
    let a = passed (is_valid_cookie_name name) second c h in
    let b = passed (is_valid_cookie_value value) third c a.1 in
    let d = passed (is_valid_cookie_value v) (some made) c b.1 in
    subst Accepted (some_cookie made c d.1)
      (with_attributes-Accepted decode_label name v (put_attributes (split b';' attrs) []) a.0 d.0)

parse_filled-Accepted :
    (decode_label : Text → Text) (trimmed : Text) (parts : Text × Text) (c : ParsedCookie)
    → parse_filled decode_label trimmed parts ≡ some c
    → Accepted c
unfolding parse_filled
parse_filled-Accepted decode_label [] (pair, attrs) c h = absurd (ground (arith, h))
parse_filled-Accepted decode_label (x ∷ s) (pair, attrs) c h =
    parse_pair-Accepted decode_label (name_value (cut b'=' pair) pair) attrs c h

-- Every header that is parsed gives a cookie whose name, which may be empty, has visible ASCII
-- characters only and no separator of HTTP, whose value has no control characters but tabs, whose path
-- starts with a slash if it has one, and which has no date beside a lifetime.
pub parse_set_cookie_header-Accepted :
    (decode_label : Text → Text) (header : Text) (c : ParsedCookie)
    → parse_set_cookie_header decode_label header ≡ some c
    → Accepted c
unfolding parse_set_cookie_header
parse_set_cookie_header-Accepted decode_label header c h =
    parse_filled-Accepted decode_label (trim header) (header_parts (cut b';' header) header) c h
