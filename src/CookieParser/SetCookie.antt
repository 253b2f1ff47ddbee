-- ===== src/CookieParser/SetCookie.antt =====
-- parseSetCookieHeader and formatSetCookieHeader of src/cookie-parser.ts. The decoding of labels and
-- `Date.toUTCString` are arguments.
use kinetex.Base.{
  ℕ, ◌+◌, ◌-◌, ◌*◌, Bool, true, false, not, ◌&&◌, ◌||◌, List, [], ◌∷◌, Option, none, some, leb,
  ◌==◌, if◌then◌else◌, Text, codes, same, to_lower_text, starts_with, text_discrete,
}
use kinetex.JsMap
use kinetex.Numbers.{ℤ, pos, opposite}
use kinetex.Strings.{is_digit, trim, split, cut}
use kinetex.Cookies.Domains.{canonicalize_domain}
use kinetex.CookieParser.Dates.{parse_cookie_date}

pub data SameSite : Type 0 where
  strict : SameSite
  lax : SameSite
  unrestricted : SameSite
  unset : SameSite

pub data Priority : Type 0 where
  low : Priority
  medium : Priority
  high : Priority

pub record ParsedCookie : Type 0 where
  pub name : Text
  pub value : Text
  pub domain : Option Text
  pub path : Option Text
  pub expires : Option ℤ
  pub max_age : Option ℤ
  pub secure : Bool
  pub http_only : Bool
  pub same_site : SameSite
  pub same_party : Bool
  pub priority : Option Priority
  pub partitioned : Bool

abbrev pub is_letter : ℕ → Bool
is_letter c = leb b'a' c && leb c b'z' || leb b'A' c && leb c b'Z'

abbrev pub has_char : ℕ → Text → Bool
has_char c [] = false
has_char c (d ∷ s) = c == d || has_char c s

abbrev pub is_token_char : ℕ → Bool
is_token_char c = is_letter c || is_digit c || has_char c (codes "!#$%&'*+-.^_`|~")

abbrev pub all_chars : (ℕ → Bool) → Text → Bool
all_chars p [] = true
all_chars p (c ∷ s) = p c && all_chars p s

-- The empty name is valid.
unfoldable pub is_valid_cookie_name : Text → Bool
is_valid_cookie_name name = all_chars is_token_char name

abbrev pub is_value_char : ℕ → Bool
is_value_char c = not (leb c 8 || leb 10 c && leb c 31 || c == 127)

unfoldable pub is_valid_cookie_value : Text → Bool
is_valid_cookie_value value = all_chars is_value_char value

-- A name, if there is one, and a value.
unfoldable pub name_value : Option (Text × Text) → Text → Text × Text
unfolding trim
name_value none pair = ([], pair)
name_value (some (name, value)) pair = (trim name, value)

abbrev quote : ℕ
quote = b'"'

-- The text before a closing quote mark at its end.
abbrev before_quote : Text → Option Text
before_quote [] = none
before_quote (c ∷ []) = if c == quote then some [] else none
before_quote (c ∷ d ∷ s) = elim (before_quote (d ∷ s)) [ none ↦ none | some t ↦ some (c ∷ t) ]

abbrev or_text : Option Text → Text → Text
or_text none t = t
or_text (some s) t = s

-- Two quote marks around a value go.
abbrev pub unquote : Text → Text
unquote [] = []
unquote (c ∷ s) = if c == quote then or_text (before_quote s) (c ∷ s) else c ∷ s

abbrev pub Attributes : Type 0
Attributes = List (Text × Text)

-- An attribute with a value does not override; one without a value does.
unfoldable pub put_pair : Option (Text × Text) → Text → Attributes → Attributes
unfolding trim JsMap.has JsMap.set to_lower_text
put_pair none part attrs = JsMap.set text_discrete (to_lower_text part) [] attrs
put_pair (some (n, v)) part attrs =
    let name = to_lower_text (trim n) in
    if JsMap.has text_discrete name attrs
    then attrs
    else JsMap.set text_discrete name (trim v) attrs

unfoldable pub put_attribute : Text → Attributes → Attributes
unfolding cut put_pair
put_attribute [] attrs = attrs
put_attribute (c ∷ s) attrs = put_pair (cut b'=' (c ∷ s)) (c ∷ s) attrs

unfoldable pub put_attributes : List Text → Attributes → Attributes
unfolding put_attribute trim
put_attributes [] attrs = attrs
put_attributes (p ∷ ps) attrs = put_attributes ps (put_attribute (trim p) attrs)

unfoldable pub attribute : Text → Attributes → Option Text
unfolding JsMap.get
attribute name attrs = JsMap.get text_discrete name attrs

unfoldable pub flag : Text → Attributes → Bool
unfolding JsMap.has
flag name attrs = JsMap.has text_discrete name attrs

unfoldable pub same_site_of : Option Text → SameSite
unfolding to_lower_text
same_site_of none = unset
same_site_of (some s) =
    let v = to_lower_text s in
    if same v (codes "strict")
    then strict
    else if same v (codes "lax")
    then lax
    else if same v (codes "none")
    then unrestricted
    else unset

unfoldable pub priority_of : Option Text → Option Priority
unfolding to_lower_text
priority_of none = none
priority_of (some s) =
    let v = to_lower_text s in
    if same v (codes "low")
    then some low
    else if same v (codes "medium")
    then some medium
    else if same v (codes "high")
    then some high
    else none

abbrev digits_value : ℕ → Text → ℕ
digits_value n [] = n
digits_value n (c ∷ s) = digits_value (n * 10 + (c - b'0')) s

abbrev natural : Text → Option ℕ
natural [] = none
natural (c ∷ s) = if all_chars is_digit (c ∷ s) then some (digits_value 0 (c ∷ s)) else none

abbrev negated : Option ℕ → Option ℤ
negated none = none
negated (some n) = some (opposite (pos n))

abbrev plain : Option ℕ → Option ℤ
plain none = none
plain (some n) = some (pos n)

-- An integer with an optional minus sign, and nothing else.
abbrev pub whole_number : Text → Option ℤ
whole_number [] = none
whole_number (c ∷ s) = if c == b'-' then negated (natural s) else plain (natural (c ∷ s))

abbrev pub max_age_of : Option Text → Option ℤ
max_age_of none = none
max_age_of (some s) = whole_number s

-- The date counts where Max-Age gives no number.
unfoldable pub expires_of : Option ℤ → Option Text → Option ℤ
unfolding parse_cookie_date
expires_of none (some s) = parse_cookie_date s
expires_of max_age attr = none

unfoldable pub domain_of : (Text → Text) → Option Text → Option Text
unfolding canonicalize_domain
domain_of decode_label none = none
domain_of decode_label (some []) = none
domain_of decode_label (some (c ∷ s)) = some (canonicalize_domain decode_label (c ∷ s))

abbrev pub path_of : Option Text → Option Text
path_of none = none
path_of (some s) = if starts_with s (b'/' ∷ []) then some s else none

unfoldable pub with_attributes : (Text → Text) → Text → Text → Attributes → ParsedCookie
unfolding attribute flag same_site_of priority_of domain_of expires_of
with_attributes decode_label name value attrs =
    let max_age = max_age_of (attribute (codes "max-age") attrs) in
    record {
      name = name;
      value = value;
      domain = domain_of decode_label (attribute (codes "domain") attrs);
      path = path_of (attribute (codes "path") attrs);
      expires = expires_of max_age (attribute (codes "expires") attrs);
      max_age = max_age;
      secure = flag (codes "secure") attrs;
      http_only = flag (codes "httponly") attrs;
      same_site = same_site_of (attribute (codes "samesite") attrs);
      same_party = flag (codes "sameparty") attrs;
      priority = priority_of (attribute (codes "priority") attrs);
      partitioned = flag (codes "partitioned") attrs;
    }

unfoldable pub parse_pair : (Text → Text) → Text × Text → Text → Option ParsedCookie
unfolding is_valid_cookie_name is_valid_cookie_value trim split put_attributes with_attributes
parse_pair decode_label (name, value) attrs =
    if not (is_valid_cookie_name name)
    then none
    else if not (is_valid_cookie_value value)
    then none
    else if not (is_valid_cookie_value (unquote (trim value)))
    then none
    else some (
        with_attributes decode_label name (unquote (trim value))
          (put_attributes (split b';' attrs) []))

-- The pair before the first semicolon, and the attributes behind it.
abbrev pub header_parts : Option (Text × Text) → Text → Text × Text
header_parts none header = (header, [])
header_parts (some parts) header = parts

-- A header of white space is none.
unfoldable pub parse_filled : (Text → Text) → Text → Text × Text → Option ParsedCookie
unfolding name_value parse_pair
parse_filled decode_label [] (pair, attrs) = none
parse_filled decode_label (c ∷ s) (pair, attrs) =
    parse_pair decode_label (name_value (cut b'=' pair) pair) attrs

unfoldable pub parse_set_cookie_header : (Text → Text) → Text → Option ParsedCookie
unfolding cut trim parse_filled
parse_set_cookie_header decode_label header =
    parse_filled decode_label (trim header) (header_parts (cut b';' header) header)
