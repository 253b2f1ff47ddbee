-- ===== src/Cookies/Sent.antt =====
-- Which cookies a request gets from the jar of src/cookie-store.ts, and in which order.
use kinetex.Base.{
  both_true, ℕ, ◌≡◌, refl, ap, sym, ◌∙◌, Bool, true, false, not, ◌&&◌, ◌||◌, List, [], ◌∷◌, ◌++◌,
  some, arith, Text, All, same, starts_with, Bool-cases, inl, inr,
}
use kinetex.Cookies.Rules.{
  SameSite, cross_site, unrestricted, Cookie, Url, secure_prefix, host_prefix, root_path,
  same_site_allows, has_expired,
}
use kinetex.Cookies.Store.{NameMap, PathMap, DomainMap}
use kinetex.Cookies.Retrieval.{
  Request, is_sent, select_names, select_paths, select, comes_first, insert_sorted, sort_cookies,
  get_cookies, match_domain,
}
use kinetex.Cookies.{Platform, Jar, request_host, is_secure_context}

module _ (P : Cookie → Type 0) where
  All-append : (xs ys : List Cookie) → All P xs → All P ys → All P (xs ++ ys)
  All-append [] ys a b = b
  All-append (x ∷ xs) ys (p, a) b = (p, All-append xs ys a b)

  pub All-insert_sorted :
      (c : Cookie) (es : List Cookie) → P c → All P es → All P (insert_sorted c es)
  All-insert_sorted c [] p a = (p, tt)
  All-insert_sorted c (e ∷ es) p (q, a) = elim (Bool-cases (comes_first c e)) [
    | inl h ↦ rw h (p, (q, a))
    | inr h ↦ rw h (q, All-insert_sorted c es p a)
  ]

  All-sort_cookies : (cs : List Cookie) → All P cs → All P (sort_cookies cs)
  All-sort_cookies [] a = tt
  All-sort_cookies (c ∷ cs) (p, a) = All-insert_sorted c (sort_cookies cs) p (All-sort_cookies cs a)

  pub All-map :
      (Q : Cookie → Type 0) → ((c : Cookie) → P c → Q c) → (cs : List Cookie) → All P cs → All Q cs
  All-map Q f [] a = tt
  All-map Q f (c ∷ cs) (p, a) = (f c p, All-map Q f cs a)

module _ (test : Cookie → Bool) where
  abbrev Passes : Cookie → Type 0
  Passes c = test c ≡ true

  select_names-Passes : (nm : NameMap) → All Passes (select_names test nm)
  select_names-Passes [] = tt
  select_names-Passes ((n, c) ∷ nm) = elim (Bool-cases (test c)) [
    | inl h ↦ rw h (h, select_names-Passes nm)
    | inr h ↦ rw h (select_names-Passes nm)
  ]

  select_paths-Passes : (pm : PathMap) → All Passes (select_paths test pm)
  select_paths-Passes [] = tt
  select_paths-Passes ((p, nm) ∷ pm) =
      All-append Passes _ _ (select_names-Passes nm) (select_paths-Passes pm)

  select-Passes : (in_scope : Text → Bool) (dm : DomainMap) → All Passes (select in_scope test dm)
  select-Passes in_scope [] = tt
  select-Passes in_scope ((d, pm) ∷ dm) = elim (Bool-cases (in_scope d)) [
    | inl h ↦ rw h (All-append Passes _ _ (select_paths-Passes pm) (select-Passes in_scope dm))
    | inr h ↦ rw h (select-Passes in_scope dm)
  ]

-- A test that is made only of cookies with a flag fails them all.
unflagged : (flag test : Bool) → (not flag || test) ≡ true → test ≡ false → flag ≡ false
unflagged flag test h f = ground arith

allows_cross_site : (s : SameSite) → same_site_allows s cross_site ≡ true → s ≡ unrestricted
allows_cross_site s h = ground arith

unexpired : (b : Bool) → not b ≡ true → b ≡ false
unexpired b h = ground arith

-- The tests that a cookie has passed.
record Sendable (e : Platform) (now : ℕ) (url : Url) (r : Request) (c : Cookie) : Type 0 where
  fresh : not (has_expired now c.expires) ≡ true
  secure : (not c.secure || is_secure_context url) ≡ true
  http : (not c.http_only || r.is_http) ≡ true
  site : same_site_allows c.same_site r.context ≡ true
  secure_name :
      (not (starts_with c.name secure_prefix) || (c.secure && is_secure_context url)) ≡ true
  host_name :
      (not (starts_with c.name host_prefix)
        || (c.secure && (is_secure_context url && (same c.path root_path && c.host_only))))
      ≡ true
  suffix : not (e.is_public_suffix c.domain) ≡ true

is_sent-Sendable :
    (e : Platform) (now : ℕ) (url : Url) (r : Request) (c : Cookie)
    → is_sent e now url r c ≡ true
    → Sendable e now url r c
unfolding is_sent
is_sent-Sendable e now url r c h =
    let (_, a) = both_true _ _ h in
    let (fresh, b) = both_true _ _ a in
    let (_, d) = both_true _ _ b in
    let (secure, f) = both_true _ _ d in
    let (http, g) = both_true _ _ f in
    let (site, i) = both_true _ _ g in
    let (secure_name, k) = both_true _ _ i in
    let (host_name, suffix) = both_true _ _ k in
    record {
      fresh = fresh;
      secure = secure;
      http = http;
      site = site;
      secure_name = secure_name;
      host_name = host_name;
      suffix = suffix;
    }

module _ (e : Platform) (now : ℕ) (url : Url) (r : Request) (j : Jar)
    (parsed : e.parse_url r.url ≡ some url) where
  sent-Passes : All (Passes (is_sent e now url r)) (get_cookies e now r j).1
  unfolding get_cookies
  sent-Passes = rw parsed (
      All-sort_cookies (Passes (is_sent e now url r)) _ (
        select-Passes (is_sent e now url r) (match_domain e j.domain_matcher (request_host url))
          j.dm))

  sent :
      (Q : Cookie → Type 0)
      → ((c : Cookie) → is_sent e now url r c ≡ true → Q c)
      → All Q (get_cookies e now r j).1
  sent Q f = All-map (Passes (is_sent e now url r)) Q f (get_cookies e now r j).1 sent-Passes

  -- A request that is not in a secure context, that is neither HTTPS nor to the local host, gets no
  -- secure cookie and none whose name claims the Secure or the Host prefix.
  pub insecure_request :
      is_secure_context url ≡ false
      → All
          (λ c.
            (c.secure ≡ false)
            × (starts_with c.name secure_prefix ≡ false)
            × (starts_with c.name host_prefix ≡ false))
          (get_cookies e now r j).1
  insecure_request insecure = sent _ (λ c h.
      let s = is_sent-Sendable e now url r c h in
      let plain = unflagged c.secure _ s.secure insecure in
      (
        plain,
        unflagged _ (c.secure && is_secure_context url) s.secure_name (rw plain refl),
        unflagged _ _ s.host_name (rw plain refl),
      ))

  -- A cross-site request gets only cookies with SameSite=None.
  pub cross_site_request :
      r.context ≡ cross_site → All (λ c. c.same_site ≡ unrestricted) (get_cookies e now r j).1
  cross_site_request cross = sent _ (λ c h.
      allows_cross_site c.same_site
        (ap (same_site_allows c.same_site) (sym cross) ∙ (is_sent-Sendable e now url r c h).site))

  -- A script gets no HttpOnly cookie, no expired one and none whose domain is a public suffix.
  script_request :
      r.is_http ≡ false
      → All
          (λ c.
            (c.http_only ≡ false)
            × (has_expired now c.expires ≡ false)
            × (e.is_public_suffix c.domain ≡ false))
          (get_cookies e now r j).1
  script_request script = sent _ (λ c h.
      let s = is_sent-Sendable e now url r c h in
      (unflagged c.http_only _ s.http script, unexpired _ s.fresh, unexpired _ s.suffix))
