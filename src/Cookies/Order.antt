-- ===== src/Cookies/Order.antt =====
-- The order in which src/cookie-store.ts sends cookies.
use mathlib.Core.List.{Perm}
use mathlib.Core.List.Perm
use kinetex.Base.{
  length, ◌<◌, ◌≤◌, ◌⊎◌, ℕ, ◌≡◌, true, false, List, [], ◌∷◌, Option, none, some, arith, All,
  Bool-cases, inl, inr,
}
use kinetex.Cookies.Rules.{Cookie, Url}
use kinetex.Cookies.Retrieval.{
  Request, comes_first, insert_sorted, sort_cookies, get_cookies, get_for, select, match_domain,
  is_sent,
}
use kinetex.Cookies.Sent.{All-insert_sorted, All-map}
use kinetex.Cookies.{Platform, Jar, request_host}

-- A longer path, or a path of the same length and no later creation.
abbrev pub Precedes : Cookie → Cookie → Type 0
Precedes c e =
    (length e.path < length c.path)
    ⊎ ((length c.path ≡ length e.path) × (c.created_at ≤ e.created_at))

-- Each cookie comes before all that stand behind it.
abbrev pub Ordered : List Cookie → Type 0
Ordered [] = Unit
Ordered (c ∷ cs) = All (Precedes c) cs × Ordered cs

Precedes-trans : (a b c : Cookie) → Precedes a b → Precedes b c → Precedes a c
Precedes-trans a b c h k = ground (arith, h, k)

comes_first-Precedes : (a b : Cookie) → comes_first a b ≡ true → Precedes a b
comes_first-Precedes a b h = ground (arith, h)

comes_first_total : (a b : Cookie) → comes_first a b ≡ false → Precedes b a
comes_first_total a b h = ground (arith, h)

insert_sorted-Ordered : (c : Cookie) (es : List Cookie) → Ordered es → Ordered (insert_sorted c es)
insert_sorted-Ordered c [] o = (tt, tt)
insert_sorted-Ordered c (e ∷ es) (a, o) = elim (Bool-cases (comes_first c e)) [
  | inl h ↦
      let first = comes_first-Precedes c e h in
      rw h ((first, All-map _ _ (λ x k. Precedes-trans c e x first k) es a), (a, o))
  | inr h ↦
      rw h (All-insert_sorted _ c es (comes_first_total c e h) a, insert_sorted-Ordered c es o)
]

sort_cookies-Ordered : (cs : List Cookie) → Ordered (sort_cookies cs)
sort_cookies-Ordered [] = tt
sort_cookies-Ordered (c ∷ cs) = insert_sorted-Ordered c (sort_cookies cs) (sort_cookies-Ordered cs)

get_for-Ordered :
    (e : Platform) (now : ℕ) (u : Option Url) (r : Request) (j : Jar)
    → Ordered (get_for e now u r j).1
get_for-Ordered e now none r j = tt
get_for-Ordered e now (some url) r j =
    sort_cookies-Ordered
      (select (match_domain e j.domain_matcher (request_host url)) (is_sent e now url r) j.dm)

insert_sorted-perm : (c : Cookie) (es : List Cookie) → Perm (insert_sorted c es) (c ∷ es)
insert_sorted-perm c [] = Perm.refl (c ∷ [])
insert_sorted-perm c (e ∷ es) = elim (Bool-cases (comes_first c e)) [
  | inl h ↦ rw h (Perm.refl (c ∷ e ∷ es))
  | inr h ↦ rw h (Perm.trans (Perm.cons e (insert_sorted-perm c es)) (Perm.swap c e es))
]

sort_cookies-perm : (cs : List Cookie) → Perm (sort_cookies cs) cs
sort_cookies-perm [] = Perm.refl []
sort_cookies-perm (c ∷ cs) =
    Perm.trans (insert_sorted-perm c (sort_cookies cs)) (Perm.cons c (sort_cookies-perm cs))

-- The stored cookies whose domain fits the host and that pass the tests on a cookie.
abbrev pub chosen : Platform → ℕ → Option Url → Request → Jar → List Cookie
chosen e now none r j = []
chosen e now (some url) r j =
    select (match_domain e j.domain_matcher (request_host url)) (is_sent e now url r) j.dm

get_for-perm :
    (e : Platform) (now : ℕ) (u : Option Url) (r : Request) (j : Jar)
    → Perm (get_for e now u r j).1 (chosen e now u r j)
get_for-perm e now none r j = Perm.refl []
get_for-perm e now (some url) r j = sort_cookies-perm (chosen e now (some url) r j)

-- A request gets its cookies with the longer paths first, and among paths of one length the older
-- cookies first: each one before all that stand behind it. They are the stored cookies whose domain
-- fits the host and that pass the tests on a cookie, each as often as it is stored, and none other.
pub get_cookies-Ordered :
    (e : Platform) (now : ℕ) (r : Request) (j : Jar)
    → Ordered (get_cookies e now r j).1
      × Perm (get_cookies e now r j).1 (chosen e now (e.parse_url r.url) r j)
unfolding get_cookies
get_cookies-Ordered e now r j =
    (get_for-Ordered e now (e.parse_url r.url) r j, get_for-perm e now (e.parse_url r.url) r j)
