-- ===== src/CookieParser/Formatting.antt =====
-- formatSetCookieHeader of src/cookie-parser.ts. `Date.toUTCString` and the decimal form of a number
-- are arguments.
use kinetex.Base.{
  ℕ, Bool, false, ◌||◌, List, [], ◌∷◌, ◌++◌, Option, none, some, ◌==◌, if◌then◌else◌, Text, codes,
}
use kinetex.Numbers.{ℤ}
use kinetex.CookieParser.SetCookie.{
  ParsedCookie, SameSite, strict, lax, unrestricted, unset, Priority, low, medium, high,
}

abbrev is_special : ℕ → Bool
is_special c = c == b';' || c == b',' || c == b' ' || c == b'"' || c == b'\\'

abbrev has_special : Text → Bool
has_special [] = false
has_special (c ∷ s) = is_special c || has_special s

abbrev escape : Text → Text
escape [] = []
escape (c ∷ s) = if c == b'\\' || c == b'"' then b'\\' ∷ c ∷ escape s else c ∷ escape s

abbrev value_part : Text → Text
value_part v = if has_special v then b'"' ∷ escape v ++ b'"' ∷ [] else v

-- A part that a text that is there and not empty gives.
abbrev text_part : Text → Option Text → List Text
text_part label none = []
text_part label (some []) = []
text_part label (some (c ∷ s)) = (label ++ c ∷ s) ∷ []

abbrev number_part : Text → (ℤ → Text) → Option ℤ → List Text
number_part label print none = []
number_part label print (some n) = (label ++ print n) ∷ []

abbrev flag_part : Text → Bool → List Text
flag_part label b = if b then label ∷ [] else []

abbrev same_site_part : SameSite → List Text
same_site_part strict = codes "SameSite=Strict" ∷ []
same_site_part lax = codes "SameSite=Lax" ∷ []
same_site_part unrestricted = codes "SameSite=None" ∷ []
same_site_part unset = []

abbrev priority_part : Option Priority → List Text
priority_part none = []
priority_part (some low) = codes "Priority=Low" ∷ []
priority_part (some medium) = codes "Priority=Medium" ∷ []
priority_part (some high) = codes "Priority=High" ∷ []

abbrev join_parts : List Text → Text
join_parts [] = []
join_parts (p ∷ []) = p
join_parts (p ∷ q ∷ ps) = p ++ b';' ∷ b' ' ∷ join_parts (q ∷ ps)

abbrev pub cookie_parts : (ℤ → Text) → (ℤ → Text) → ParsedCookie → List Text
cookie_parts to_utc_string to_decimal c =
    (c.name ++ b'=' ∷ value_part c.value) ∷ text_part (codes "Path=") c.path
    ++ text_part (codes "Domain=") c.domain
    ++ number_part (codes "Expires=") to_utc_string c.expires
    ++ number_part (codes "Max-Age=") to_decimal c.max_age
    ++ flag_part (codes "Secure") c.secure
    ++ flag_part (codes "HttpOnly") c.http_only
    ++ same_site_part c.same_site
    ++ flag_part (codes "SameParty") c.same_party
    ++ priority_part c.priority
    ++ flag_part (codes "Partitioned") c.partitioned

unfoldable pub format_set_cookie_header : (ℤ → Text) → (ℤ → Text) → ParsedCookie → Text
format_set_cookie_header to_utc_string to_decimal c =
    join_parts (cookie_parts to_utc_string to_decimal c)
