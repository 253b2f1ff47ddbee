-- ===== src/Cookies.antt =====
-- The class CookieJar of src/cookie-store.ts. The URL parser, the parser of Set-Cookie headers, the
-- tests for IP addresses and public suffixes and the decoding of labels are an interface.
pub mod Domains
pub mod Rules
pub mod Store
pub mod Eviction
pub mod Counting
pub mod Totals
pub mod Retrieval
pub mod Keyed
pub mod Absence
pub mod Evicted
pub mod Covers
pub mod Filtered
pub mod Stamped
pub mod Accounting
pub mod Runs
pub mod Capped
pub mod Effects
pub mod HeaderRules
pub mod Acceptance
pub mod DomainCap
pub mod Sent
pub mod Order
pub mod Persistence
use kinetex.Base.{
  ℕ, suc, ◌+◌, ◌-◌, ◌*◌, ◌≡◌, min, Bool, true, false, not, ◌&&◌, ◌||◌, List, [], ◌∷◌, ◌++◌, Option,
  none, some, map, leb, ltb, ◌==◌, if◌then◌else◌, Text, codes, same, to_lower_text, starts_with,
  ends_with, text_discrete, length,
}
use kinetex.JsMap
use Domains.{dot, canonicalize_domain, domain_match, default_path, path_match}
use Rules.{
  SameSite, strict, lax, unset, unrestricted, SameSiteContext, no_enforcement, Cookie, Url,
  ParsedCookie, secure_prefix, host_prefix, root_path, is_https, enforce_prefix_rules,
  same_site_allows, has_expired, is_local,
}
use Store.{DomainMap, PathMap, lookup, insert, remove, count_paths, keep_cookies, all_cookies}
use Eviction.{evict_for_domain, evict_global, is_some}

pub record Platform : Type 0 where
  pub parse_url : Text → Option Url
  pub parse_set_cookie : Text → Option ParsedCookie
  pub is_ip : Text → Bool
  pub is_public_suffix : Text → Bool
  pub decode_label : Text → Text

pub record Jar : Type 0 where
  pub dm : DomainMap
  pub total : ℕ
  pub max_total : ℕ
  pub max_per_domain : ℕ
  pub domain_matcher : Option (Text → Text → Bool)

abbrev or_default : Option ℕ → ℕ → ℕ
or_default none n = n
or_default (some m) n = m

unfoldable pub create : Option ℕ → Option ℕ → Option (Text → Text → Bool) → Jar
create max_total max_per_domain matcher = record {
  dm = [];
  total = 0;
  max_total = or_default max_total 3000;
  max_per_domain = or_default max_per_domain 50;
  domain_matcher = matcher;
}

abbrev pub store_new : Cookie → Jar → Jar
store_new c j =
    let (dm, total) = evict_for_domain j.max_per_domain c.domain j.dm j.total in
    let (dm', total') = evict_global j.max_total dm total in
    record j { dm = insert c.domain c.path c.name c dm'; total = total' + 1 }

abbrev pub put_over : Option Cookie → Cookie → Jar → Jar
put_over none c j = store_new c j
put_over (some existing) c j = record j {
  dm = insert c.domain c.path c.name (record c { created_at = existing.created_at }) j.dm;
}

unfoldable pub put_cookie : Cookie → Jar → Jar
unfolding lookup insert evict_for_domain evict_global
put_cookie c j = put_over (lookup c.domain c.path c.name j.dm) c j

unfoldable pub remove_cookie : Platform → Text → Text → Text → Jar → Jar × Bool
unfolding lookup remove canonicalize_domain
remove_cookie e domain path name j =
    let d = canonicalize_domain e.decode_label domain in
    if is_some (lookup d path name j.dm)
    then (record j { dm = remove d path name j.dm; total = j.total - 1 }, true)
    else (j, false)

unfoldable pub clear : Jar → Jar
clear j = record j { dm = []; total = 0 }

-- Deletes the cookies that fail a test, and counts them.
abbrev pub clear_where : (Cookie → Bool) → Jar → Jar × ℕ
clear_where keep j =
    let removed = length (all_cookies j.dm) - length (all_cookies (keep_cookies keep j.dm)) in
    (record j { dm = keep_cookies keep j.dm; total = j.total - removed }, removed)

unfoldable pub clear_expired : ℕ → Jar → Jar × ℕ
clear_expired now j = clear_where (λ (c : Cookie). not (has_expired now c.expires)) j

unfoldable pub clear_session : Jar → Jar × ℕ
clear_session j = clear_where (λ (c : Cookie). is_some c.expires) j

abbrev pub in_domain : Text → Text → Bool
in_domain d stored = same stored d || ends_with stored (dot ∷ d)

-- The domains that stay, and how many cookies go.
abbrev pub without_domain : Text → DomainMap → DomainMap × ℕ
without_domain d [] = ([], 0)
without_domain d ((stored, pm) ∷ dm) =
    let (rest, removed) = without_domain d dm in
    if in_domain d stored then (rest, count_paths pm + removed) else ((stored, pm) ∷ rest, removed)

unfoldable pub clear_for_domain : Platform → Text → Jar → Jar × ℕ
unfolding canonicalize_domain
clear_for_domain e domain j =
    let (dm, removed) = without_domain (canonicalize_domain e.decode_label domain) j.dm in
    (record j { dm = dm; total = j.total - removed }, removed)

abbrev pub max_cookie_size : ℕ
max_cookie_size = 4096

abbrev pub max_cookie_age : ℕ
max_cookie_age = 400 * 24 * 60 * 60 * 1000

-- `url.hostname` of a request, and whether its context is secure.
abbrev pub request_host : Url → Text
request_host url = to_lower_text url.hostname

abbrev pub strip_open : Text → Text
strip_open [] = []
strip_open (c ∷ s) = if c == b'[' then s else c ∷ s

abbrev pub strip_close : Text → Text
strip_close [] = []
strip_close (c ∷ []) = if c == b']' then [] else c ∷ []
strip_close (c ∷ d ∷ s) = c ∷ strip_close (d ∷ s)

abbrev pub is_secure_context : Url → Bool
is_secure_context url = is_https url || is_local (strip_close (strip_open (request_host url)))

abbrev pub matcher_of : Platform → Option (Text → Text → Bool) → Text → Text → Bool
matcher_of e none = domain_match e.is_ip e.is_public_suffix
matcher_of e (some f) = f

-- The domain of a cookie and whether it is host-only; `none` where `setCookie` refuses it.
abbrev pub named_domain : Platform → Jar → Text → Text → Option (Text × Bool)
named_domain e j host cd =
    if not (matcher_of e j.domain_matcher host cd)
    then none
    else if e.is_public_suffix cd
    then none
    else some (cd, false)

abbrev pub cookie_domain : Platform → Jar → Text → Option Text → Option (Text × Bool)
cookie_domain e j host none = some (host, true)
cookie_domain e j host (some []) = some (host, true)
cookie_domain e j host (some (c ∷ s)) = named_domain e j host (to_lower_text (c ∷ s))

abbrev pub path_or_default : Option Text → Url → Text
path_or_default none url = default_path url.pathname
path_or_default (some p) url = p

-- When a cookie expires; it is deleted where that is no later than now.
pub data Expiry : Type 0 where
  deletes : Expiry
  stores : Option ℕ → Expiry

abbrev pub expiry : ℕ → Option ℕ → Option ℕ → Expiry
expiry now (some age) _ =
    if age == 0 then deletes else stores (some (now + min (age * 1000) max_cookie_age))
expiry now none (some t) =
    if leb t now then deletes else stores (some (min t (now + max_cookie_age)))
expiry now none none = stores none

abbrev pub is_unrestricted : SameSite → Bool
is_unrestricted unrestricted = true
is_unrestricted _ = false

abbrev pub finish : Platform → Cookie → Url → Expiry → Jar → Jar × Bool
finish e c url deletes j = ((remove_cookie e c.domain c.path c.name j).0, true)
finish e c url (stores expires) j =
    let cookie = record c { expires = expires } in
    if enforce_prefix_rules cookie url then (put_cookie cookie j, true) else (j, false)

abbrev pub new_cookie : ℕ → Url → ParsedCookie → Text → Bool → Cookie
new_cookie now url p domain host_only = record {
  name = p.name;
  value = p.value;
  domain = domain;
  path = path_or_default p.path url;
  expires = none;
  max_age = p.max_age;
  secure = p.secure;
  http_only = p.http_only;
  same_site = p.same_site;
  created_at = now;
  last_accessed = now;
  host_only = host_only;
}

abbrev pub accept : Platform → ℕ → Url → ParsedCookie → Option (Text × Bool) → Jar → Jar × Bool
accept e now url p none j = (j, false)
accept e now url p (some (domain, host_only)) j =
    if p.secure && not (is_secure_context url)
    then (j, false)
    else if is_unrestricted p.same_site && not p.secure
    then (j, false)
    else finish e (new_cookie now url p domain host_only) url (expiry now p.max_age p.expires) j

abbrev pub set_parsed : Platform → ℕ → Option Url → Option ParsedCookie → Jar → Jar × Bool
set_parsed e now none _ j = (j, false)
set_parsed e now (some url) none j = (j, false)
set_parsed e now (some url) (some p) j =
    if ltb max_cookie_size (length p.name + 1 + length p.value)
    then (j, false)
    else accept e now url p (cookie_domain e j (request_host url) p.domain) j

unfoldable pub set_cookie : Platform → ℕ → Text → Text → Jar → Jar × Bool
unfolding default_path enforce_prefix_rules put_cookie remove_cookie
set_cookie e now header url j = set_parsed e now (e.parse_url url) (e.parse_set_cookie header) j
