-- ===== src/Cookies/Effects.antt =====
-- What setCookie of src/cookie-store.ts may do with a header, said without the tests of the code.
use kinetex.Base.{
  to_lower_text, ◌⊎◌, ◌≢◌, codes, starts_with, ℕ, ◌+◌, ◌≤◌, ◌<◌, ◌≡◌, Bool, true, false, Option,
  none, some, Text, length,
}
use kinetex.Cookies.Rules.{Cookie, Url, ParsedCookie, unrestricted}
use kinetex.Cookies.{
  Platform, Jar, put_cookie, remove_cookie, matcher_of, request_host, strip_open, strip_close,
  path_or_default, max_cookie_age,
}

-- A session cookie, or one that expires later than now and at most 400 days from now.
abbrev pub Lives : ℕ → Option ℕ → Type 0
Lives now none = Unit {0}
Lives now (some t) = (now < t) × (t ≤ now + max_cookie_age)

-- A host-only cookie of the host itself, or one of a domain that matches the host and is no public
-- suffix.
abbrev pub Belongs : Platform → Jar → Text → Text → Bool → Type 0
Belongs e j host domain true = domain ≡ host
Belongs e j host domain false =
    (matcher_of e j.domain_matcher host domain ≡ true) × (e.is_public_suffix domain ≡ false)

-- HTTPS, or one of the three names of the local host.
abbrev pub IsLocalHost : Text → Type 0
IsLocalHost host = (host ≡ codes "localhost") ⊎ ((host ≡ codes "127.0.0.1") ⊎ (host ≡ codes "::1"))

abbrev pub IsSecureContext : Url → Type 0
IsSecureContext url =
    (url.protocol ≡ codes "https:") ⊎ IsLocalHost (strip_close (strip_open (request_host url)))

-- What a name demands that begins with `__Secure-`, and one that begins with `__Host-`.
abbrev pub KeepsSecurePrefix : Url → Cookie → Type 0
KeepsSecurePrefix url c =
    (starts_with c.name (codes "__Secure-") ≡ false)
    ⊎ ((c.secure ≡ true) × (url.protocol ≡ codes "https:"))

abbrev pub KeepsHostPrefix : Url → Cookie → Type 0
KeepsHostPrefix url c =
    (starts_with c.name (codes "__Host-") ≡ false)
    ⊎ ((c.secure ≡ true)
        × (url.protocol ≡ codes "https:")
        × (c.path ≡ codes "/")
        × (c.host_only ≡ true))

-- The cookie is the one that the header describes.
pub record Describes (now : ℕ) (url : Url) (p : ParsedCookie) (c : Cookie) : Type 0 where
  pub name : c.name ≡ p.name
  pub value : c.value ≡ p.value
  pub path : c.path ≡ path_or_default p.path url
  pub max_age : c.max_age ≡ p.max_age
  pub secure : c.secure ≡ p.secure
  pub http_only : c.http_only ≡ p.http_only
  pub same_site : c.same_site ≡ p.same_site
  pub created : c.created_at ≡ now

pub record Accepted (e : Platform) (now : ℕ) (url : Url) (j : Jar) (c : Cookie) : Type 0 where
  pub sized : length c.name + 1 + length c.value ≤ 4096
  pub belongs : Belongs e j (request_host url) c.domain c.host_only
  -- A secure cookie comes over a secure context.
  pub secure : (c.secure ≡ false) ⊎ IsSecureContext url
  -- SameSite=None goes with Secure.
  pub site : (c.same_site ≢ unrestricted) ⊎ (c.secure ≡ true)
  pub lives : Lives now c.expires
  pub secure_prefix : KeepsSecurePrefix url c
  pub host_prefix : KeepsHostPrefix url c

-- The header gives a lifetime of nothing, or no lifetime and a date that is not later than now.
abbrev pub IsOver : ℕ → Option ℕ → Option ℕ → Type 0
IsOver now (some age) t = age ≡ 0
IsOver now none (some t) = t ≤ now
IsOver now none none = ⊥

-- Why a header is refused.
pub data Refusal (e : Platform) (j : Jar) : Option Url → Option ParsedCookie → Type 0 where
  bad_url : (header : Option ParsedCookie) → Refusal e j none header
  bad_header : (u : Url) → Refusal e j (some u) none
  too_large :
      (u : Url) (p : ParsedCookie)
      → 4096 < length p.name + 1 + length p.value
      → Refusal e j (some u) (some p)
  foreign_domain :
      (u : Url) (p : ParsedCookie) (d : Text)
      → p.domain ≡ some d
      → (matcher_of e j.domain_matcher (request_host u) (to_lower_text d) ≡ false)
        ⊎ (e.is_public_suffix (to_lower_text d) ≡ true)
      → Refusal e j (some u) (some p)
  insecure :
      (u : Url) (p : ParsedCookie)
      → p.secure ≡ true
      → (u.protocol ≢ codes "https:")
      → Refusal e j (some u) (some p)
  unpaired :
      (u : Url) (p : ParsedCookie)
      → p.same_site ≡ unrestricted
      → p.secure ≡ false
      → Refusal e j (some u) (some p)
  bad_prefix :
      (u : Url) (p : ParsedCookie)
      → (starts_with p.name (codes "__Secure-") ≡ true)
        ⊎ (starts_with p.name (codes "__Host-") ≡ true)
      → Refusal e j (some u) (some p)

pub data Effect (e : Platform) (now : ℕ) (url : Option Url) (header : Option ParsedCookie) (j : Jar)
    : Jar × Bool → Type 0 where
  refused : Refusal e j url header → Effect e now url header j (j, false)
  removed :
      (u : Url) (p : ParsedCookie) (d : Text) (h : Bool)
      → url ≡ some u
      → header ≡ some p
      → IsOver now p.max_age p.expires
      → Belongs e j (request_host u) d h
      → Effect e now url header j ((remove_cookie e d (path_or_default p.path u) p.name j).0, true)
  stored :
      (u : Url) (p : ParsedCookie) (c : Cookie)
      → url ≡ some u
      → header ≡ some p
      → Describes now u p c
      → Accepted e now u j c
      → Effect e now url header j (put_cookie c j, true)
