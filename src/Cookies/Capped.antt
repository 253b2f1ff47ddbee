-- ===== src/Cookies/Capped.antt =====
-- The caps of src/cookie-store.ts, on all cookies and on those of a domain: eviction makes room before a cookie is stored.
use kinetex.Base.{
  ℕ, ◌-◌, ◌≤◌, ◌<◌, ◌≡◌, refl, ap, List, [], ◌∷◌, Option, none, some, arith, leb, ltb, Bool-cases,
  Option-cases, inl, inr, ltb→lt,
}
use kinetex.Cookies.Rules.{Cookie}
use kinetex.Cookies.Store.{DomainMap, lookup, remove, count_all}
use kinetex.Cookies.Eviction.{
  Candidate, candidates, by_last_access, evict_all, evict_global, evict_for_domain,
}
use kinetex.Cookies.Keyed.{KeyedDomains, remove-Keyed}
use kinetex.Cookies.Counting.{one_if, count_all-remove}
use kinetex.Cookies.Totals.{evict_for_domain-total}
use kinetex.Cookies.Evicted.{evict_for_domain-Lacks}
use kinetex.Cookies.Covers.{Covers, Covers-candidates, Covers-absent, Covers-remove, empty_domains}
use kinetex.Cookies.DomainCap.{
  domain_count, evict_for_domain_below, domain_count-evict_global, domain_count-insert,
}
use kinetex.Cookies.Accounting.{Inv}
use kinetex.Cookies.{Jar, put_cookie, put_over}

evict_all_below :
    (limit : ℕ) (cs : List Candidate) (dm : DomainMap) (total : ℕ)
    → 0 < limit
    → KeyedDomains dm
    → Covers cs dm
    → total ≡ count_all dm
    → (evict_all limit cs dm total).1 < limit
unfolding evict_all
evict_all_below limit [] dm total pos u f h =
    omega (arith, pos, h, empty_domains dm u.distinct u.each f)
evict_all_below limit (c ∷ cs) dm total pos u f h = elim (Bool-cases (leb limit total)) [
  | inl e ↦ elim (Option-cases (lookup c.domain c.path c.name dm)) [
    | inl a ↦ rw (e, a) (evict_all_below limit cs dm total pos u (Covers-absent c cs dm a f) h)
    | inr (x, a) ↦
        rw (e, a)
          (evict_all_below limit cs (remove c.domain c.path c.name dm) (total - 1) pos
            (remove-Keyed c.domain c.path c.name dm u) (Covers-remove c cs dm u f)
            (omega (arith, h, ap one_if a, count_all-remove c.domain c.path c.name dm)))
  ]
  | inr e ↦ rw e (ground (arith, e))
]

evict_global_below :
    (limit : ℕ) (dm : DomainMap) (total : ℕ)
    → 0 < limit
    → KeyedDomains dm
    → total ≡ count_all dm
    → (evict_global limit dm total).1 < limit
unfolding evict_global
evict_global_below limit dm total pos u h = elim (Bool-cases (ltb total limit)) [
  | inl e ↦ rw e (ltb→lt total limit e)
  | inr e ↦ rw e (
      evict_all_below limit (by_last_access (candidates dm)) dm total pos u (Covers-candidates dm)
        h)
]

put_over_capped :
    (o : Option Cookie) (c : Cookie) (j : Jar)
    → lookup c.domain c.path c.name j.dm ≡ o
    → 0 < j.max_total
    → Inv j
    → j.total ≤ j.max_total
    → (put_over o c j).total ≤ j.max_total
put_over_capped none c j f pos v le = omega (
  arith,
  evict_global_below j.max_total first.0 first.1 pos lacks.0
      (evict_for_domain-total j.max_per_domain c.domain j.dm j.total v.counted),
)
  where
    first : DomainMap × ℕ
    first = evict_for_domain j.max_per_domain c.domain j.dm j.total

    lacks : KeyedDomains first.0 × (lookup c.domain c.path c.name first.0 ≡ none)
    lacks =
        evict_for_domain-Lacks c.domain c.path c.name j.max_per_domain c.domain j.dm j.total
          (v.keyed, f)
put_over_capped (some old) c j f pos v le = le

-- A jar whose cap on all cookies is positive and which keeps to it keeps to it when a cookie is
-- put: eviction ends, whatever the cookies and their access times, with room for the new one.
pub put_cookie_capped :
    (c : Cookie) (j : Jar)
    → 0 < j.max_total
    → Inv j
    → j.total ≤ j.max_total
    → (put_cookie c j).total ≤ j.max_total
unfolding put_cookie
put_cookie_capped c j pos v le =
    put_over_capped (lookup c.domain c.path c.name j.dm) c j refl pos v le

put_over_domain_capped :
    (o : Option Cookie) (c : Cookie) (j : Jar)
    → lookup c.domain c.path c.name j.dm ≡ o
    → 0 < j.max_per_domain
    → Inv j
    → domain_count c.domain j.dm ≤ j.max_per_domain
    → domain_count c.domain (put_over o c j).dm ≤ j.max_per_domain
put_over_domain_capped none c j f pos v le = omega (
  arith,
  evict_for_domain_below j.max_per_domain c.domain j.dm j.total pos v.keyed,
  domain_count-evict_global c.domain j.max_total first.0 first.1 lacks.0,
  domain_count-insert c.domain c.path c.name c (evict_global j.max_total first.0 first.1).0,
)
  where
    first : DomainMap × ℕ
    first = evict_for_domain j.max_per_domain c.domain j.dm j.total

    lacks : KeyedDomains first.0 × (lookup c.domain c.path c.name first.0 ≡ none)
    lacks =
        evict_for_domain-Lacks c.domain c.path c.name j.max_per_domain c.domain j.dm j.total
          (v.keyed, f)
put_over_domain_capped (some old) c j f pos v le = omega (
  arith,
  ap one_if f,
  le,
  domain_count-insert c.domain c.path c.name (record c { created_at = old.created_at }) j.dm,
)

-- A domain that keeps to a positive cap on its cookies keeps to it when a cookie of the domain is
-- put.
pub put_cookie_domain_capped :
    (c : Cookie) (j : Jar)
    → 0 < j.max_per_domain
    → Inv j
    → domain_count c.domain j.dm ≤ j.max_per_domain
    → domain_count c.domain (put_cookie c j).dm ≤ j.max_per_domain
unfolding put_cookie
put_cookie_domain_capped c j pos v le =
    put_over_domain_capped (lookup c.domain c.path c.name j.dm) c j refl pos v le
