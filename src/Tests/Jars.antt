-- ===== src/Tests/Jars.antt =====
-- Runs of the cookie jar, and its theorems at concrete jars.
use mathlib.Core.List.{Perm}
use kinetex.Base.{
  ℕ, ◌≡◌, refl, true, false, List, [], ◌∷◌, none, some, Text, codes, text_discrete, to_lower_text,
  ℕ_discrete, same, ◌+◌, if◌then◌else◌, All, starts_with, map, ◌≤◌, arith, ◌⊎◌,
}
use kinetex.JsMap
use kinetex.Cookies.Domains.{
  split_at, join_with, canonicalize_domain, domain_match, default_path, normalize_path, path_match,
}
use kinetex.Cookies.Rules.{
  unset, unrestricted, cross_site, Cookie, Url, ParsedCookie, enforce_prefix_rules, secure_prefix,
  host_prefix, normalize_same_site, SameSite, lax,
}
use kinetex.Cookies.Store.{lookup, insert, remove, all_cookies}
use kinetex.Cookies.Eviction.{
  is_some, delete_name, evict_paths, evict_domain, evict_for_domain, evict_all, evict_global,
}
use kinetex.Cookies.Retrieval.{Request, is_sent, get_cookies}
use kinetex.Cookies.Accounting.{Inv, Event, puts, step, run}
use kinetex.Cookies.Runs.{jar_run-Inv, put_cookie-lookup, remove_cookie-lookup}
use kinetex.Cookies.Sent.{insecure_request, cross_site_request}
use kinetex.Cookies.Persistence.{CookieJson, put_items, from_json}
use kinetex.Cookies.DomainCap.{domain_count}
use kinetex.Cookies.Capped.{put_cookie_domain_capped, put_cookie_capped}
use kinetex.Cookies.Order.{Ordered, chosen, get_cookies-Ordered}
use kinetex.Cookies.{
  Platform, Jar, create, put_cookie, remove_cookie, set_cookie, clear, clear_expired, clear_session,
  clear_for_domain,
}

program : Unit {0}
unfolding JsMap.get JsMap.set JsMap.delete JsMap.has text_discrete ℕ_discrete to_lower_text split_at
    join_with canonicalize_domain domain_match default_path normalize_path path_match
    enforce_prefix_rules lookup insert remove delete_name evict_paths evict_domain evict_for_domain
    evict_all evict_global is_sent get_cookies step run create put_cookie remove_cookie set_cookie
    clear clear_expired clear_session clear_for_domain
program = tt

abbrev slash : Text
slash = b'/' ∷ []

-- A URL is its host here, over HTTP.
abbrev url_of : Text → Url
url_of host = record { protocol = codes "http:"; hostname = host; pathname = slash }

-- The header `d` deletes the cookie `a`; any other sets it.
abbrev parsed : Text → ParsedCookie
parsed header = record {
  name = b'a' ∷ [];
  value = header;
  domain = none;
  path = none;
  expires = none;
  max_age = if same header (b'd' ∷ []) then some 0 else none;
  secure = false;
  http_only = false;
  same_site = unset;
}

abbrev platform : Platform
platform = record {
  parse_url = λ u. some (url_of u);
  parse_set_cookie = λ h. some (parsed h);
  is_ip = λ h. false;
  is_public_suffix = λ h. false;
  decode_label = λ l. l;
}

abbrev host : Text
host = b'h' ∷ []

abbrev cookie : Text → Text → ℕ → Cookie
cookie name path created = record {
  name = name;
  value = b'1' ∷ [];
  domain = host;
  path = path;
  expires = none;
  max_age = none;
  secure = false;
  http_only = false;
  same_site = unset;
  created_at = created;
  last_accessed = created;
  host_only = true;
}

-- At most two cookies, one of which is replaced and one evicted.
abbrev small : Jar
unfolding program
small = create (some 2) (some 2) none

abbrev filling : List Event
filling =
    puts (cookie (b'a' ∷ []) slash 1)
    ∷ puts (cookie (b'b' ∷ []) slash 2)
    ∷ puts (cookie (b'b' ∷ []) slash 3)
    ∷ puts (cookie (b'c' ∷ []) (b'/' ∷ b'x' ∷ []) 4)
    ∷ []

abbrev filled : Jar
unfolding program
filled = run platform filling small

filled_names :
    (map {B = Text × ℕ} (λ (c : Cookie). (c.name, c.created_at)) (all_cookies filled.dm)
      ≡ (b'b' ∷ [], 2) ∷ (b'c' ∷ [], 4) ∷ [])
    × (filled.total ≡ 2)
unfolding program
filled_names = (refl, refl)

filled-Inv : Inv filled
unfolding program
filled-Inv = jar_run-Inv platform filling (some 2) (some 2) none

jar_run-Inv_example : Inv (run platform filling (create (some 2) (some 2) none))
jar_run-Inv_example = jar_run-Inv platform filling (some 2) (some 2) none

put_cookie-lookup_example :
    lookup host slash (b'b' ∷ []) (put_cookie (cookie (b'b' ∷ []) slash 9) filled).dm
    ≡ some (record (cookie (b'b' ∷ []) slash 9) { created_at = 2 })
unfolding program
put_cookie-lookup_example = put_cookie-lookup (cookie (b'b' ∷ []) slash 9) filled

remove_cookie-lookup_example :
    let r = remove_cookie platform host slash (b'b' ∷ []) filled in
    ((is_some (lookup host slash (b'b' ∷ []) filled.dm) ≡ true)
      × (lookup host slash (b'b' ∷ []) r.0.dm ≡ none)
      × (r.0.total + 1 ≡ 2)
      × (r.1 ≡ true))
    ⊎ ((lookup host slash (b'b' ∷ []) filled.dm ≡ none) × (r ≡ (filled, false)))
unfolding program
remove_cookie-lookup_example =
    remove_cookie-lookup platform host slash (b'b' ∷ []) filled filled-Inv

-- A visit of `/x` on the host.
abbrev deeper : Text
deeper = b'/' ∷ b'x' ∷ []

abbrev visited : Url
visited = record { protocol = codes "http:"; hostname = host; pathname = deeper }

abbrev visiting : Platform
visiting = record platform { parse_url = λ u. some visited }

abbrev asked : Request
asked = record { url = host; is_http = false; context = cross_site }

-- Two cookies of one path, one of a longer path, one that is secure and one that is lax.
abbrev mixed : Jar
unfolding program
mixed =
    run visiting
      (puts (record (cookie (b'a' ∷ []) slash 2) { same_site = unrestricted })
        ∷ puts (record (cookie (b'b' ∷ []) slash 1) { same_site = unrestricted })
        ∷ puts (record (cookie (b'c' ∷ []) deeper 4) { same_site = unrestricted })
        ∷ puts (record (cookie (b's' ∷ []) slash 3) { same_site = unrestricted; secure = true })
        ∷ puts (record (cookie (b'l' ∷ []) slash 3) { same_site = lax })
        ∷ [])
      (create none none none)

abbrev sent : List Cookie
unfolding program
sent = (get_cookies visiting 5 asked mixed).1

sent_names :
    map {B = Text} (λ (c : Cookie). c.name) sent ≡ (b'c' ∷ []) ∷ (b'b' ∷ []) ∷ (b'a' ∷ []) ∷ []
unfolding program
sent_names = refl

insecure_request_example :
    All
      (λ c.
        (c.secure ≡ false)
        × (starts_with c.name secure_prefix ≡ false)
        × (starts_with c.name host_prefix ≡ false))
      sent
unfolding program
insecure_request_example = insecure_request visiting 5 visited asked mixed refl refl

cross_site_request_example : All (λ c. c.same_site ≡ unrestricted) sent
unfolding program
cross_site_request_example = cross_site_request visiting 5 visited asked mixed refl refl

get_cookies-Ordered_example :
    Ordered sent × Perm sent (chosen visiting 5 (some visited) asked mixed)
unfolding program
get_cookies-Ordered_example = get_cookies-Ordered visiting 5 asked mixed

abbrev dotted : Text
dotted = b'h' ∷ b'.' ∷ []

-- A cookie of a host that ends in a dot is not deleted by its own Max-Age=0, though `setCookie`
-- answers true: it is stored under the host, and removed under the canonical form of the host.
dotted_host_keeps_cookie :
    let j = (set_cookie platform 1 (b'v' ∷ []) dotted (create none none none)).0 in
    let r = set_cookie platform 2 (b'd' ∷ []) dotted j in
    (r.1 ≡ true) × (map {B = Text} (λ (c : Cookie). c.name) (all_cookies r.0.dm) ≡ (b'a' ∷ []) ∷ [])
unfolding program
dotted_host_keeps_cookie = (refl, refl)

-- A serialized cookie with the SameSite `lax`, and one that has expired.
abbrev items : List CookieJson
items =
    record { cookie = cookie (b'a' ∷ []) slash 1; same_site = some (codes "Lax") }
    ∷ record { cookie = record (cookie (b'b' ∷ []) slash 1) { expires = some 4 }; same_site = none }
    ∷ []

loaded :
    map {B = SameSite} (λ (c : Cookie). c.same_site) (all_cookies (from_json (λ s. s) 5 items).dm)
    ≡ lax ∷ []
unfolding program normalize_same_site put_items from_json
loaded = refl

put_cookie_capped_example : (put_cookie (cookie (b'd' ∷ []) slash 9) filled).total ≤ 2
unfolding program
put_cookie_capped_example =
    put_cookie_capped (cookie (b'd' ∷ []) slash 9) filled (omega arith) filled-Inv (omega arith)

put_cookie_domain_capped_example :
    domain_count host (put_cookie (cookie (b'd' ∷ []) slash 9) filled).dm ≤ 2
unfolding program
put_cookie_domain_capped_example =
    put_cookie_domain_capped (cookie (b'd' ∷ []) slash 9) filled (omega arith) filled-Inv
      (omega arith)
