-- ===== src/CookieParser/Splitting.antt =====
-- splitSetCookieHeaders of src/cookie-parser.ts: the state of its loop is a record, and the loop goes
-- along the text.
use kinetex.Base.{
  ℕ, Bool, true, false, not, ◌&&◌, ◌||◌, List, [], ◌∷◌, ◌++◌, ◌==◌, if◌then◌else◌, Text,
}
use kinetex.Strings.{trim, is_space}

abbrev pub comma : ℕ
comma = b','

abbrev pub backslash : ℕ
backslash = b'\\'

abbrev pub quote : ℕ
quote = b'"'

abbrev pub is_blank : ℕ → Bool
is_blank c = c == b' ' || c == 9

-- The text behind blanks goes on until a separator, or the equals sign of a new pair.
abbrev no_pair : Text → Bool
no_pair [] = true
no_pair (c ∷ s) =
    let rest = no_pair s in
    if c == b';' || c == comma then true else if c == b'=' then false else rest

unfoldable pub continues_current_cookie : Text → Bool
continues_current_cookie [] = false
continues_current_cookie (c ∷ s) =
    let rest = continues_current_cookie s in if is_blank c then rest else no_pair (c ∷ s)

pub record Splitter : Type 0 where
  -- The last cookie first.
  pub cookies : List Text
  pub buffer : Text
  pub in_quoted_value : Bool
  pub escaped : Bool
  pub name_complete : Bool
  pub value_complete : Bool
  -- White space behind a separator is left out.
  pub skipping : Bool

abbrev pub init : Splitter
init = record {
  cookies = [];
  buffer = [];
  in_quoted_value = false;
  escaped = false;
  name_complete = false;
  value_complete = false;
  skipping = false;
}

abbrev pub push : ℕ → Splitter → Splitter
push c p = record p { buffer = p.buffer ++ c ∷ [] }

-- A cookie whose text is not blank.
abbrev pub add_cookie : Text → List Text → List Text
add_cookie [] cookies = cookies
add_cookie (c ∷ s) cookies = (c ∷ s) ∷ cookies

unfoldable pub commit_cookie : Splitter → Splitter
unfolding trim
commit_cookie p = record p {
  cookies =
      if p.name_complete && p.value_complete
      then add_cookie (trim p.buffer) p.cookies
      else p.cookies;
  buffer = [];
  name_complete = false;
  value_complete = false;
}

abbrev pub next_is : ℕ → Text → Bool
next_is c [] = false
next_is c (d ∷ s) = d == c

abbrev put_quote : Splitter → Splitter
put_quote p = push quote (
    if not p.in_quoted_value && p.name_complete
    then record p { in_quoted_value = true }
    else if p.in_quoted_value
    then record p { in_quoted_value = false; value_complete = true }
    else p)

unfoldable pub put_comma : Text → Splitter → Splitter
unfolding continues_current_cookie commit_cookie
put_comma rest p =
    if continues_current_cookie rest
    then push comma p
    else record (commit_cookie p) { skipping = true }

abbrev pub is_blank_text : Text → Bool
is_blank_text [] = true
is_blank_text (c ∷ s) = false

-- Blanks in front of a cookie are left out.
unfoldable pub put_blank : ℕ → Splitter → Splitter
unfolding trim
put_blank c p = if is_blank_text (trim p.buffer) then p else push c p

-- A character outside quotes that is no separator.
abbrev pub put_plain : ℕ → Splitter → Splitter
put_plain c p =
    let q =
      if p.name_complete && not p.value_complete && not (c == b';') && not (c == comma)
      then record p { value_complete = true }
      else p in
    if is_blank c then put_blank c q else push c q

abbrev pub put_unquoted : ℕ → Text → Splitter → Splitter
put_unquoted c rest p =
    if c == comma && not p.in_quoted_value && p.name_complete
    then put_comma rest p
    else if c == b';'
    then push c (record p { name_complete = true })
    else if c == b'=' && not p.name_complete
    then push c (record p { name_complete = true; value_complete = true })
    else put_plain c p

-- One round of the loop, with the text behind the character.
abbrev pub put_char : ℕ → Text → Splitter → Splitter
put_char c rest p =
    if p.escaped
    then push c (record p { escaped = false })
    else if c == backslash && (p.in_quoted_value || next_is quote rest || next_is backslash rest)
    then push c (record p { escaped = true })
    else if c == quote
    then put_quote p
    else if p.in_quoted_value
    then push c p
    else put_unquoted c rest p

abbrev pub read_char : ℕ → Text → Splitter → Splitter
read_char c rest p =
    if p.skipping && is_space c then p else put_char c rest (record p { skipping = false })

unfoldable pub split_from : Text → Splitter → Splitter
split_from [] p = p
split_from (c ∷ s) p = split_from s (read_char c s p)

abbrev reverse_onto : List Text → List Text → List Text
reverse_onto [] ys = ys
reverse_onto (x ∷ xs) ys = reverse_onto xs (x ∷ ys)

unfoldable pub split_set_cookie_headers : Text → List Text
unfolding split_from commit_cookie
split_set_cookie_headers raw = reverse_onto (commit_cookie (split_from raw init)).cookies []
