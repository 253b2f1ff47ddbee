-- ===== src/Cookies/Rules.antt =====
-- The data of src/cookie-store.ts and its rules on name prefixes and SameSite.
use kinetex.Base.{
  ℕ, Bool, true, false, not, ◌&&◌, ◌||◌, Option, none, some, ltb, if◌then◌else◌, Text, codes, same,
  to_lower_text, starts_with,
}

-- `"Strict" | "Lax" | "Unset" | "None"`.
pub data SameSite : Type 0 where
  strict lax unset unrestricted : SameSite

-- `"strict" | "lax" | "cross-site" | "none"`.
pub data SameSiteContext : Type 0 where
  strict_site lax_navigation cross_site no_enforcement : SameSiteContext

pub record Cookie : Type 0 where
  pub name : Text
  pub value : Text
  pub domain : Text
  pub path : Text
  -- `none` is `Infinity`, a session cookie.
  pub expires : Option ℕ
  pub max_age : Option ℕ
  pub secure : Bool
  pub http_only : Bool
  pub same_site : SameSite
  pub created_at : ℕ
  pub last_accessed : ℕ
  pub host_only : Bool

-- What `new URL` gives.
pub record Url : Type 0 where
  pub protocol : Text
  pub hostname : Text
  pub pathname : Text

-- The fields of ParsedCookie that the jar reads. A Max-Age below 0 is 0.
pub record ParsedCookie : Type 0 where
  pub name : Text
  pub value : Text
  pub domain : Option Text
  pub path : Option Text
  pub expires : Option ℕ
  pub max_age : Option ℕ
  pub secure : Bool
  pub http_only : Bool
  pub same_site : SameSite

abbrev pub secure_prefix : Text
secure_prefix = codes "__Secure-"

abbrev pub host_prefix : Text
host_prefix = codes "__Host-"

abbrev pub root_path : Text
root_path = codes "/"

abbrev pub is_https : Url → Bool
is_https url = same url.protocol (codes "https:")

unfoldable pub enforce_prefix_rules : Cookie → Url → Bool
enforce_prefix_rules c url =
    (not (starts_with c.name secure_prefix) || (c.secure && is_https url))
    && (not (starts_with c.name host_prefix)
        || (c.secure && (is_https url && (same c.path root_path && c.host_only))))

-- A SameSite read from outside, or what is not a text.
unfoldable pub normalize_same_site : (Text → Text) → Option Text → SameSite
unfolding to_lower_text
normalize_same_site trim none = unset
normalize_same_site trim (some v) =
    let s = to_lower_text (trim v) in
    if same s (codes "strict")
    then strict
    else if same s (codes "lax")
    then lax
    else if same s (codes "none")
    then unrestricted
    else unset

abbrev pub same_site_allows : SameSite → SameSiteContext → Bool
same_site_allows strict strict_site = true
same_site_allows strict _ = false
same_site_allows lax strict_site = true
same_site_allows lax lax_navigation = true
same_site_allows lax _ = false
same_site_allows unset cross_site = false
same_site_allows unset _ = true
same_site_allows unrestricted _ = true

abbrev pub has_expired : ℕ → Option ℕ → Bool
has_expired now none = false
has_expired now (some t) = ltb t now

abbrev pub is_local : Text → Bool
is_local host =
    same host (codes "localhost") || (same host (codes "127.0.0.1") || same host (codes "::1"))
