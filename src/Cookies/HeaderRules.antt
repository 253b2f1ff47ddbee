-- ===== src/Cookies/HeaderRules.antt =====
-- What the tests of setCookie in src/cookie-store.ts come to, where they pass and where they fail.
use kinetex.Cookies.Effects.{
  Lives, Belongs, IsLocalHost, IsSecureContext, KeepsSecurePrefix, KeepsHostPrefix, IsOver,
}
use kinetex.Base.{
  ap, if◌then◌else◌, to_lower_text, both_true, ◌⊎◌, ◌≢◌, ◌||◌, codes, same, same_iff, starts_with,
  ℕ, ◌≡◌, refl, inl, inr, Bool, true, false, not, ◌&&◌, [], ◌∷◌, Option, none, some, arith, Text,
  Bool-cases,
}
use kinetex.Cookies.Rules.{
  Cookie, Url, SameSite, unrestricted, is_https, is_local, enforce_prefix_rules,
}
use kinetex.Cookies.{
  Platform, Jar, deletes, stores, expiry, cookie_domain, matcher_of, is_secure_context,
  is_unrestricted,
}

pub insecure_rule :
    (u : Url) (secure : Bool)
    → (secure && not (is_secure_context u)) ≡ true
    → (secure ≡ true) × (u.protocol ≢ codes "https:")
insecure_rule u secure h =
    let (a, b) = both_true _ _ h in
    (a, λ q. ground (arith, b, ap (λ (t : Text). same t (codes "https:")) q))

pub unpaired_rule :
    (s : SameSite) (secure : Bool)
    → (is_unrestricted s && not secure) ≡ true
    → (s ≡ unrestricted) × (secure ≡ false)
unpaired_rule s secure h = ground (arith, h)

-- A rule on names that is broken is one that the name asks for.
broken : (named rule : Bool) → (not named || rule) ≡ false → named ≡ true
broken named rule h = ground (arith, h)

-- Of two rules that fail together the second does, where the first asks for nothing.
second_fails :
    (named rule b : Bool) → ((not named || rule) && b) ≡ false → named ≡ false → b ≡ false
second_fails named rule b h n = ground (arith, h, n)

pub prefix_broken :
    (c : Cookie) (url : Url)
    → enforce_prefix_rules c url ≡ false
    → (starts_with c.name (codes "__Secure-") ≡ true)
      ⊎ (starts_with c.name (codes "__Host-") ≡ true)
unfolding enforce_prefix_rules
prefix_broken c url h = elim (Bool-cases (starts_with c.name (codes "__Secure-"))) [
  | inl y ↦ inl y
  | inr n ↦ inr (broken _ _ (second_fails _ _ _ h n))
]

foreign :
    (matches suffix : Bool) (r : Text × Bool)
    → (if not matches then none else if suffix then none else some r) ≡ none
    → (matches ≡ false) ⊎ (suffix ≡ true)
foreign false suffix r h = inl refl
foreign true true r h = inr refl
foreign true false r h = absurd (ground (arith, h))

pub foreign_rule :
    (e : Platform) (j : Jar) (host : Text) (o : Option Text)
    → cookie_domain e j host o ≡ none
    → (d : Text) × ((o ≡ some d)
        × ((matcher_of e j.domain_matcher host (to_lower_text d) ≡ false)
            ⊎ (e.is_public_suffix (to_lower_text d) ≡ true)))
foreign_rule e j host none h = absurd (ground (arith, h))
foreign_rule e j host (some []) h = absurd (ground (arith, h))
foreign_rule e j host (some (c ∷ s)) h =
    (c ∷ s, (refl, foreign (matcher_of e j.domain_matcher host _) (e.is_public_suffix _) _ h))

pub expiry-IsOver : (now : ℕ) (age t : Option ℕ) → expiry now age t ≡ deletes → IsOver now age t
expiry-IsOver now (some age) t h = ground (arith, h)
expiry-IsOver now none (some t) h = ground (arith, h)
expiry-IsOver now none none h = absurd (ground (arith, h))

https-eq : (url : Url) → is_https url ≡ true → url.protocol ≡ codes "https:"
https-eq url h = same_iff url.protocol (codes "https:") h

local-IsLocalHost : (host : Text) → is_local host ≡ true → IsLocalHost host
local-IsLocalHost host h = elim (Bool-cases (same host (codes "localhost"))) [
  | inl a ↦ inl (same_iff host _ a)
  | inr a ↦ elim (Bool-cases (same host (codes "127.0.0.1"))) [
    | inl b ↦ inr (inl (same_iff host _ b))
    | inr b ↦ inr (inr (same_iff host _ (ground (arith, a, b, h))))
  ]
]

context-IsSecureContext : (url : Url) → is_secure_context url ≡ true → IsSecureContext url
context-IsSecureContext url h = elim (Bool-cases (is_https url)) [
  | inl a ↦ inl (https-eq url a)
  | inr a ↦ inr (local-IsLocalHost _ (ground (arith, a, h)))
]

pub secure_rule :
    (url : Url) (secure : Bool)
    → (secure && not (is_secure_context url)) ≡ false
    → (secure ≡ false) ⊎ IsSecureContext url
secure_rule url false h = inl refl
secure_rule url true h = inr (context-IsSecureContext url (ground (arith, h)))

pub site_rule :
    (s : SameSite) (secure : Bool)
    → (is_unrestricted s && not secure) ≡ false
    → (s ≢ unrestricted) ⊎ (secure ≡ true)
site_rule s true h = inr refl
site_rule s false h = inl (λ p. ground (arith, h, p))

-- A rule that is made only of some names.
demanded : (named rule : Bool) → (not named || rule) ≡ true → named ≡ true → rule ≡ true
demanded named rule h n = ground arith

pub prefix_rules :
    (c : Cookie) (url : Url)
    → enforce_prefix_rules c url ≡ true
    → KeepsSecurePrefix url c × KeepsHostPrefix url c
unfolding enforce_prefix_rules
prefix_rules c url h =
    let (s, t) = both_true _ _ h in
    (
      elim (Bool-cases (starts_with c.name (codes "__Secure-"))) [
        | inr n ↦ inl n
        | inl y ↦ let (a, b) = both_true _ _ (demanded _ _ s y) in inr (a, https-eq url b)
      ],
      elim (Bool-cases (starts_with c.name (codes "__Host-"))) [
        | inr n ↦ inl n
        | inl y ↦
            let (a, r) = both_true _ _ (demanded _ _ t y) in
            let (b, q) = both_true _ _ r in
            let (path, only) = both_true _ _ q in
            inr (a, https-eq url b, same_iff c.path (codes "/") path, only)
      ],
    )

pub expiry-Lives :
    (now : ℕ) (age t : Option ℕ) (x : Option ℕ) → expiry now age t ≡ stores x → Lives now x
expiry-Lives now age t none h = tt
expiry-Lives now (some age) t (some x) h = ground (arith, h)
expiry-Lives now none (some t) (some x) h = ground (arith, h)
expiry-Lives now none none (some x) h = absurd (ground (arith, h))

pub cookie_domain-Belongs :
    (e : Platform) (j : Jar) (host : Text) (o : Option Text) (d : Text) (b : Bool)
    → cookie_domain e j host o ≡ some (d, b)
    → Belongs e j host d b
cookie_domain-Belongs e j host none d true h = ground (arith, h)
cookie_domain-Belongs e j host none d false h = absurd (ground (arith, h))
cookie_domain-Belongs e j host (some []) d true h = ground (arith, h)
cookie_domain-Belongs e j host (some []) d false h = absurd (ground (arith, h))
cookie_domain-Belongs e j host (some (c ∷ s)) d true h = absurd (ground (arith, h))
cookie_domain-Belongs e j host (some (c ∷ s)) d false h = ground (arith, h)
