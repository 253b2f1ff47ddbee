-- ===== src/Cookies/DomainCap.antt =====
-- The cap on the cookies of one domain (src/cookie-store.ts): eviction makes room in the domain.
use kinetex.Base.{
  ℕ, ◌+◌, ◌-◌, ◌≤◌, ◌<◌, ◌≡◌, refl, ap, subst, sym, ◌∙◌, ◌⊎◌, Bool, List, [], ◌∷◌, Option, none,
  some, arith, leb, ltb, Text, text_discrete, length, Bool-cases, Option-cases, inl, inr, ltb→lt,
}
use kinetex.JsMap
use kinetex.JsMap.{get-set_self, get-set_ne, get-delete_self}
use kinetex.Cookies.Rules.{Cookie}
use kinetex.Cookies.Store.{
  NameMap, PathMap, DomainMap, lookup, insert, remove, replace_or_drop, or_empty, count_paths,
}
use kinetex.Cookies.Eviction.{
  Candidate, path_candidates, by_last_access, delete_name, less_if, evict_paths, prune,
  evict_domain, evict_for_domain, evict_all, evict_global, candidates,
}
use kinetex.Cookies.Keyed.{
  DistinctNames, KeyedPaths, KeyedDomains, empty-KeyedPaths, Keyed-or_empty, Keyed-path_map,
  replace-get_self, replace-get_ne, remove-Keyed,
}
use kinetex.Cookies.Counting.{
  one_if, sum_values-replace, sum_values-set_list, length-set, length-delete,
}
use kinetex.Cookies.Totals.{one_when, less_if-minus, delete_name-count, prune-count, has-one_if}
use kinetex.Cookies.Absence.{path_lookup, delete_name-LacksIn}
use kinetex.Cookies.Evicted.{delete_name-Keyed}
use kinetex.Cookies.Covers.{Listed, paths-Listed, Listed-by_last_access, empty_paths}

abbrev CoversIn : Text → List Candidate → PathMap → Type 0
CoversIn d cs pm = (p n : Text) → Listed d p n cs ⊎ (path_lookup p n pm ≡ none)

none_if : (o : Option Cookie) → one_if o ≡ 0 → o ≡ none
none_if none h = refl
none_if (some c) h = ground (arith, h)

delete_name-gone :
    (p n : Text) (pm : PathMap) → KeyedPaths pm → path_lookup p n (delete_name p n pm).0 ≡ none
unfolding delete_name
delete_name-gone p n pm u =
    elim (Bool-cases (JsMap.has text_discrete n (or_empty (JsMap.get text_discrete p pm)))) [
      | inl h ↦ rw h (
          ap (λ (o : Option NameMap). JsMap.get text_discrete n (or_empty o))
            (get-set_self text_discrete p _ pm)
          ∙ get-delete_self text_discrete n _ (Keyed-or_empty DistinctNames tt p pm u))
      | inr h ↦
          rw h (none_if _ (has-one_if n (or_empty (JsMap.get text_discrete p pm)) ∙ ap one_when h))
    ]

CoversIn-delete :
    (d : Text) (c : Candidate) (cs : List Candidate) (pm : PathMap)
    → KeyedPaths pm
    → CoversIn d (c ∷ cs) pm
    → CoversIn d cs (delete_name c.path c.name pm).0
CoversIn-delete d c cs pm u f p n = elim (f p n) [
  | inl i ↦ elim i [
    | inl (e1, e2, e3) ↦ inr (rw (sym e2, sym e3) (delete_name-gone c.path c.name pm u))
    | inr l ↦ inl l
  ]
  | inr h ↦ inr (delete_name-LacksIn p n c.path c.name pm (u, h)).1
]

evict_paths_below :
    (d : Text) (limit : ℕ) (cs : List Candidate) (count : ℕ) (pm : PathMap) (total : ℕ)
    → 0 < limit
    → KeyedPaths pm
    → CoversIn d cs pm
    → count ≡ count_paths pm
    → count_paths (evict_paths limit cs count pm total).0 < limit
unfolding evict_paths
evict_paths_below d limit [] count pm total pos u f h =
    omega (arith, pos, empty_paths pm u.distinct (λ p n. absent (f p n)))
  where
    absent : {P : Type 0} → ⊥ ⊎ P → P
    absent (inl x) = elim x [ ]
    absent (inr h) = h
evict_paths_below d limit (c ∷ cs) count pm total pos u f h = elim (Bool-cases (leb limit count)) [
  | inl e ↦ rw e (
      evict_paths_below d limit cs (less_if deleted count) less (less_if deleted total) pos
        (delete_name-Keyed c.path c.name pm u) (CoversIn-delete d c cs pm u f)
        (omega (arith, h, less_if-minus deleted count, delete_name-count c.path c.name pm)))
  | inr e ↦ rw e (ground (arith, e, h))
]
  where
    less : PathMap
    less = (delete_name c.path c.name pm).0

    deleted : Bool
    deleted = (delete_name c.path c.name pm).1

-- The number of cookies of a domain.
abbrev pub domain_count : Text → DomainMap → ℕ
domain_count d dm = count_paths (or_empty (JsMap.get text_discrete d dm))

evict_domain_below :
    (limit : ℕ) (d : Text) (pm : PathMap) (dm : DomainMap) (total : ℕ)
    → 0 < limit
    → KeyedPaths pm
    → domain_count d (evict_domain limit d pm dm total).0 < limit
unfolding evict_domain
evict_domain_below limit d pm dm total pos u = omega (
  arith,
  ap (λ (o : Option PathMap). count_paths (or_empty o))
      (get-set_self text_discrete d (prune left) dm),
  prune-count left,
  evict_paths_below d limit cs (count_paths pm) pm total pos u covers refl,
)
  where
    cs : List Candidate
    cs = by_last_access (path_candidates d pm)

    left : PathMap
    left = (evict_paths limit cs (count_paths pm) pm total).0

    covers : CoversIn d cs pm
    covers p n = elim (paths-Listed d p n pm) [
      | inl h ↦ inl (Listed-by_last_access d p n (path_candidates d pm) h)
      | inr h ↦ inr h
    ]

pub evict_for_domain_below :
    (limit : ℕ) (d : Text) (dm : DomainMap) (total : ℕ)
    → 0 < limit
    → KeyedDomains dm
    → domain_count d (evict_for_domain limit d dm total).0 < limit
unfolding evict_for_domain evict_domain
evict_for_domain_below limit d dm total pos u = elim (Option-cases (JsMap.get text_discrete d dm)) [
  | inl e ↦ rw (e, e) pos
  | inr (pm, e) ↦ elim (Bool-cases (ltb (count_paths pm) limit)) [
    | inl l ↦ rw (e, l, e) (ltb→lt (count_paths pm) limit l)
    | inr l ↦
        rw (e, l)
          (evict_domain_below limit d pm dm total pos
            (subst (λ (o : Option PathMap). KeyedPaths (or_empty o)) e (Keyed-path_map d dm u)))
  ]
]

count_paths-remove :
    (y z : Text) (pm : PathMap)
    → count_paths (
        replace_or_drop y
          (JsMap.delete text_discrete z (or_empty (JsMap.get text_discrete y pm)))
          pm)
      ≤ count_paths pm
count_paths-remove y z pm = omega (
  arith,
  length-delete z (or_empty (JsMap.get text_discrete y pm)),
  sum_values-replace (λ (m : NameMap). length m) refl y
      (JsMap.delete text_discrete z (or_empty (JsMap.get text_discrete y pm))) pm,
)

domain_count-remove :
    (d x y z : Text) (dm : DomainMap)
    → KeyedDomains dm
    → domain_count d (remove x y z dm) ≤ domain_count d dm
unfolding remove
domain_count-remove d x y z dm u = elim (text_discrete d x) [
  | no ne ↦ omega (arith, ap count_paths (replace-get_ne x d _ dm ne))
  | yes e ↦ rw (sym e) (
      omega (
        arith,
        ap count_paths (replace-get_self KeyedPaths empty-KeyedPaths d _ dm u),
        count_paths-remove y z (or_empty (JsMap.get text_discrete d dm)),
      ))
]

domain_count-evict_all :
    (d : Text) (limit : ℕ) (cs : List Candidate) (dm : DomainMap) (total : ℕ)
    → KeyedDomains dm
    → domain_count d (evict_all limit cs dm total).0 ≤ domain_count d dm
unfolding evict_all
domain_count-evict_all d limit [] dm total u = omega arith
domain_count-evict_all d limit (c ∷ cs) dm total u = elim (Bool-cases (leb limit total)) [
  | inl e ↦ elim (Option-cases (lookup c.domain c.path c.name dm)) [
    | inl a ↦ rw (e, a) (domain_count-evict_all d limit cs dm total u)
    | inr (x, a) ↦
        rw (e, a)
          (omega (
            arith,
            domain_count-remove d c.domain c.path c.name dm u,
            domain_count-evict_all d limit cs (remove c.domain c.path c.name dm) (total - 1)
                (remove-Keyed c.domain c.path c.name dm u),
          ))
  ]
  | inr e ↦ rw e (omega arith)
]

pub domain_count-evict_global :
    (d : Text) (limit : ℕ) (dm : DomainMap) (total : ℕ)
    → KeyedDomains dm
    → domain_count d (evict_global limit dm total).0 ≤ domain_count d dm
unfolding evict_global
domain_count-evict_global d limit dm total u = elim (Bool-cases (ltb total limit)) [
  | inl e ↦ rw e (omega arith)
  | inr e ↦ rw e (domain_count-evict_all d limit (by_last_access (candidates dm)) dm total u)
]

pub domain_count-insert :
    (d p n : Text) (c : Cookie) (dm : DomainMap)
    → domain_count d (insert d p n c dm) + one_if (lookup d p n dm) ≡ domain_count d dm + 1
unfolding insert lookup
domain_count-insert d p n c dm = omega (
  arith,
  length-set n c nm,
  sum_values-set_list (λ (m : NameMap). length m) refl p (JsMap.set text_discrete n c nm) pm,
  ap (λ (o : Option PathMap). count_paths (or_empty o))
      (get-set_self text_discrete d (JsMap.set text_discrete p (JsMap.set text_discrete n c nm) pm)
        dm),
)
  where
    pm : PathMap
    pm = or_empty (JsMap.get text_discrete d dm)

    nm : NameMap
    nm = or_empty (JsMap.get text_discrete p pm)
