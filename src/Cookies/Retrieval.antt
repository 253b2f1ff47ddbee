-- ===== src/Cookies/Retrieval.antt =====
-- What a request gets from the cookie jar of src/cookie-store.ts: getCookies and its like.
use kinetex.Base.{
  ℕ, Bool, true, false, not, ◌&&◌, ◌||◌, List, [], ◌∷◌, ◌++◌, Option, none, some, map, leb, ltb,
  ◌==◌, if◌then◌else◌, Text, codes, same, to_lower_text, starts_with, ends_with, length,
}
use kinetex.Cookies.Domains.{dot, path_match, canonicalize_domain}
use kinetex.Cookies.Rules.{
  SameSiteContext, Cookie, Url, secure_prefix, host_prefix, root_path, same_site_allows,
  has_expired,
}
use kinetex.Cookies.Store.{NameMap, PathMap, DomainMap, all_cookies}
use kinetex.Cookies.{Platform, Jar, request_host, is_secure_context}

pub record Request : Type 0 where
  pub url : Text
  pub is_http : Bool
  pub context : SameSiteContext

abbrev suffix_matches : (Text → Bool) → Text → Text → Bool
suffix_matches is_ip host domain =
    if same host domain then true else if is_ip host then false else ends_with host (dot ∷ domain)

abbrev pub match_domain : Platform → Option (Text → Text → Bool) → Text → Text → Bool
match_domain e (some f) host domain = f host domain
match_domain e none host domain = suffix_matches e.is_ip (to_lower_text host) (to_lower_text domain)

abbrev path_or_root : Text → Text
path_or_root [] = root_path
path_or_root (c ∷ s) = c ∷ s

-- The tests on a cookie, in the order of the source.
unfoldable pub is_sent : Platform → ℕ → Url → Request → Cookie → Bool
unfolding path_match
is_sent e now url r c =
    let secure = is_secure_context url in
    (not c.host_only || same (request_host url) c.domain)
    && (not (has_expired now c.expires)
        && (path_match (path_or_root url.pathname) c.path
            && ((not c.secure || secure)
                && ((not c.http_only || r.is_http)
                    && (same_site_allows c.same_site r.context
                        && ((not (starts_with c.name secure_prefix) || (c.secure && secure))
                            && ((not (starts_with c.name host_prefix)
                                  || (c.secure
                                      && (secure && (same c.path root_path && c.host_only))))
                                && not (e.is_public_suffix c.domain))))))))

module _ (test : Cookie → Bool) where
  abbrev pub select_names : NameMap → List Cookie
  select_names [] = []
  select_names ((n, c) ∷ nm) = let rest = select_names nm in if test c then c ∷ rest else rest

  abbrev pub select_paths : PathMap → List Cookie
  select_paths [] = []
  select_paths ((p, nm) ∷ pm) = select_names nm ++ select_paths pm

  -- `lastAccessed` of the cookies that pass.
  abbrev pub stamp_names : ℕ → NameMap → NameMap
  stamp_names ts [] = []
  stamp_names ts ((n, c) ∷ nm) =
      (n, if test c then record c { last_accessed = ts } else c) ∷ stamp_names ts nm

  abbrev pub stamp_paths : ℕ → PathMap → PathMap
  stamp_paths ts [] = []
  stamp_paths ts ((p, nm) ∷ pm) = (p, stamp_names ts nm) ∷ stamp_paths ts pm

module _ (in_scope : Text → Bool) (test : Cookie → Bool) where
  abbrev pub select : DomainMap → List Cookie
  select [] = []
  select ((d, pm) ∷ dm) =
      let rest = select dm in if in_scope d then select_paths test pm ++ rest else rest

  abbrev pub stamp : ℕ → DomainMap → DomainMap
  stamp ts [] = []
  stamp ts ((d, pm) ∷ dm) = (d, if in_scope d then stamp_paths test ts pm else pm) ∷ stamp ts dm

-- The longer path first, then the older cookie.
abbrev pub comes_first : Cookie → Cookie → Bool
comes_first a b =
    ltb (length b.path) (length a.path)
    || (length a.path == length b.path && leb a.created_at b.created_at)

abbrev pub insert_sorted : Cookie → List Cookie → List Cookie
insert_sorted c [] = c ∷ []
insert_sorted c (e ∷ es) = if comes_first c e then c ∷ e ∷ es else e ∷ insert_sorted c es

abbrev pub sort_cookies : List Cookie → List Cookie
sort_cookies [] = []
sort_cookies (c ∷ cs) = insert_sorted c (sort_cookies cs)

abbrev pub get_for : Platform → ℕ → Option Url → Request → Jar → Jar × List Cookie
get_for e now none r j = (j, [])
get_for e now (some url) r j =
    let in_scope = match_domain e j.domain_matcher (request_host url) in
    let test = is_sent e now url r in
    (record j { dm = stamp in_scope test now j.dm }, sort_cookies (select in_scope test j.dm))

unfoldable pub get_cookies : Platform → ℕ → Request → Jar → Jar × List Cookie
unfolding is_sent
get_cookies e now r j = get_for e now (e.parse_url r.url) r j

abbrev pair_text : Cookie → Text
pair_text c = if same c.name [] then c.value else c.name ++ codes "=" ++ c.value

abbrev join_pairs : List Text → Text
join_pairs [] = []
join_pairs (s ∷ []) = s
join_pairs (s ∷ t ∷ ss) = s ++ codes "; " ++ join_pairs (t ∷ ss)

unfoldable pub get_cookie_header : Platform → ℕ → Request → Jar → Jar × Text
unfolding get_cookies
get_cookie_header e now r j =
    let (j', cs) = get_cookies e now r j in (j', join_pairs (map pair_text cs))

-- `getCookiesForDomain`, which stamps nothing.
abbrev related : Text → Text → Bool
related d stored = same stored d || (ends_with stored (dot ∷ d) || ends_with d (dot ∷ stored))

unfoldable pub get_cookies_for_domain : Platform → ℕ → Text → Jar → List Cookie
unfolding canonicalize_domain
get_cookies_for_domain e now domain j =
    let d = canonicalize_domain e.decode_label domain in
    select (related d)
      (λ (c : Cookie).
        not (has_expired now c.expires)
        && ((not c.host_only || same c.domain d) && not (e.is_public_suffix c.domain)))
      j.dm

-- `getAll`, `getForDomain` and `toJSON`, whose entries carry the fields of the cookies.
unfoldable pub get_all : Jar → List Cookie
get_all j = all_cookies j.dm

unfoldable pub get_for_domain : Platform → Text → Jar → List Cookie
unfolding canonicalize_domain
get_for_domain e domain j =
    let d = canonicalize_domain e.decode_label domain in
    select (λ (stored : Text). same stored d || ends_with stored (dot ∷ d)) (λ _. true) j.dm

unfoldable pub to_json : ℕ → Jar → List Cookie
to_json now j = select (λ _. true) (λ (c : Cookie). not (has_expired now c.expires)) j.dm
