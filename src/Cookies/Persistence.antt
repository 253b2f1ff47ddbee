-- ===== src/Cookies/Persistence.antt =====
-- The operations of src/cookie-store.ts that are made of others: fromJSON, clearForUrl and
-- processResponseHeaders.
use kinetex.Base.{ℕ, List, [], ◌∷◌, Option, none, some, Text, if◌then◌else◌}
use kinetex.Cookies.Rules.{Cookie, Url, normalize_same_site, has_expired}
use kinetex.Cookies.Accounting.{Inv, put_cookie-Inv, create-Inv, if_jar_Inv}
use kinetex.Cookies.{Platform, Jar, create, put_cookie, clear_for_domain, set_cookie}

-- An entry of the serialized jar: a cookie but for its SameSite, which is any text, or no text.
pub record CookieJson : Type 0 where
  pub cookie : Cookie
  pub same_site : Option Text

abbrev pub from_item : (Text → Text) → CookieJson → Cookie
from_item trim i = record i.cookie { same_site = normalize_same_site trim i.same_site }

unfoldable pub put_items : (Text → Text) → ℕ → List CookieJson → Jar → Jar
unfolding put_cookie normalize_same_site
put_items trim now [] j = j
put_items trim now (i ∷ is) j =
    put_items trim now is
      (if has_expired now i.cookie.expires then j else put_cookie (from_item trim i) j)

unfoldable pub from_json : (Text → Text) → ℕ → List CookieJson → Jar
unfolding put_items create
from_json trim now items = put_items trim now items (create none none none)

abbrev clear_for_parsed : Platform → Option Url → Jar → Jar × ℕ
clear_for_parsed e none j = (j, 0)
clear_for_parsed e (some url) j = clear_for_domain e url.hostname j

unfoldable pub clear_for_url : Platform → Text → Jar → Jar × ℕ
clear_for_url e url j = clear_for_parsed e (e.parse_url url) j

-- The Set-Cookie headers of a response, one after another.
unfoldable pub process_response_headers : Platform → ℕ → List Text → Text → Jar → Jar
unfolding set_cookie
process_response_headers e now [] url j = j
process_response_headers e now (h ∷ hs) url j =
    process_response_headers e now hs url (set_cookie e now h url j).0

put_items-Inv :
    (trim : Text → Text) (now : ℕ) (is : List CookieJson) (j : Jar)
    → Inv j
    → Inv (put_items trim now is j)
unfolding put_items
put_items-Inv trim now [] j v = v
put_items-Inv trim now (i ∷ is) j v =
    put_items-Inv trim now is _
      (if_jar_Inv (has_expired now i.cookie.expires) j _ v (put_cookie-Inv (from_item trim i) j v))

-- A jar that is read from any serialized cookies, with the evictions that their number causes,
-- counts the cookies that it holds, and has no key twice.
from_json-Inv :
    (trim : Text → Text) (now : ℕ) (items : List CookieJson) → Inv (from_json trim now items)
unfolding from_json
from_json-Inv trim now items = put_items-Inv trim now items _ (create-Inv none none none)
