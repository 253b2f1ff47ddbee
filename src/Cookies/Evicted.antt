-- ===== src/Cookies/Evicted.antt =====
-- Eviction as a whole (src/cookie-store.ts) keeps the maps well-keyed and brings no cookie back.
use kinetex.Base.{
  ℕ, ◌-◌, ◌≡◌, ap, subst, sym, ◌∙◌, List, [], ◌∷◌, Option, none, some, leb, ltb, Text,
  text_discrete, Bool-cases, Option-cases, inl, inr,
}
use kinetex.JsMap
use kinetex.JsMap.{Distinct-delete, get-set_self, get-set_ne}
use kinetex.Cookies.Store.{PathMap, DomainMap, lookup, remove, or_empty, count_paths}
use kinetex.Cookies.Eviction.{
  Candidate, candidates, path_candidates, by_last_access, delete_name, evict_paths, prune,
  evict_domain, evict_for_domain, evict_all, evict_global,
}
use kinetex.Cookies.Keyed.{
  Each, DistinctNames, KeyedPaths, Keyed-set, Keyed-path_map, Keyed-or_empty, remove-Keyed,
}
use kinetex.Cookies.Absence.{
  path_lookup, Lacks, lookup-remove-none, evict_paths-LacksIn, prune-Distinct, prune-lookup,
}

prune-Each : (pm : PathMap) → Each DistinctNames pm → Each DistinctNames (prune pm)
prune-Each [] u = tt
prune-Each ((k, []) ∷ pm) (a, u) = prune-Each pm u
prune-Each ((k, c ∷ nm) ∷ pm) (a, u) = (a, prune-Each pm u)

pub delete_name-Keyed :
    (y z : Text) (pm : PathMap) → KeyedPaths pm → KeyedPaths (delete_name y z pm).0
unfolding delete_name
delete_name-Keyed y z pm u =
    elim (Bool-cases (JsMap.has text_discrete z (or_empty (JsMap.get text_discrete y pm)))) [
      | inl h ↦ rw h (
          Keyed-set DistinctNames y _ pm
            (Distinct-delete text_discrete z _ (Keyed-or_empty DistinctNames tt y pm u)) u)
      | inr h ↦ rw h u
    ]

evict_paths-Keyed :
    (limit : ℕ) (cs : List Candidate) (count : ℕ) (pm : PathMap) (total : ℕ)
    → KeyedPaths pm
    → KeyedPaths (evict_paths limit cs count pm total).0
unfolding evict_paths
evict_paths-Keyed limit [] count pm total u = u
evict_paths-Keyed limit (c ∷ cs) count pm total u = elim (Bool-cases (leb limit count)) [
  | inl h ↦ rw h (evict_paths-Keyed limit cs _ _ _ (delete_name-Keyed c.path c.name pm u))
  | inr h ↦ rw h u
]

prune-Keyed : (pm : PathMap) → KeyedPaths pm → KeyedPaths (prune pm)
prune-Keyed pm u = record { distinct = prune-Distinct pm u.distinct; each = prune-Each pm u.each }

module _ (d p n : Text) where
  -- The path map of a domain changes.
  put_map-Lacks :
      (x : Text) (pm : PathMap) (dm : DomainMap)
      → KeyedPaths pm
      → (d ≡ x → path_lookup p n pm ≡ none)
      → Lacks d p n dm
      → Lacks d p n (JsMap.set text_discrete x pm dm)
  unfolding lookup
  put_map-Lacks x pm dm k absent (u, h) = (
    Keyed-set KeyedPaths x pm dm k u,
    elim (text_discrete d x) [
      | no ne ↦
          ap (λ (o : Option PathMap). path_lookup p n (or_empty o))
            (get-set_ne text_discrete x d pm dm ne)
          ∙ h
      | yes e ↦ rw e (
          ap (λ (o : Option PathMap). path_lookup p n (or_empty o))
            (get-set_self text_discrete x pm dm)
          ∙ absent e)
    ],
  )

  evict_domain-Lacks :
      (limit : ℕ) (x : Text) (pm : PathMap) (dm : DomainMap) (total : ℕ)
      → JsMap.get text_discrete x dm ≡ some pm
      → Lacks d p n dm
      → Lacks d p n (evict_domain limit x pm dm total).0
  unfolding evict_domain lookup
  evict_domain-Lacks limit x pm dm total found (u, h) =
      put_map-Lacks x (prune left) dm (prune-Keyed left left-Keyed)
        (λ e.
          prune-lookup p n left left-Keyed.distinct
          ∙ (evict_paths-LacksIn p n limit cs (count_paths pm) pm total (
            pm-Keyed,
            ap (λ (o : Option PathMap). path_lookup p n (or_empty o)) (sym found)
                ∙ subst
                    (λ (y : Text). path_lookup p n (or_empty (JsMap.get text_discrete y dm)) ≡ none)
                    e h,
          )).1)
        (u, h)
    where
      cs : List Candidate
      cs = by_last_access (path_candidates x pm)

      left : PathMap
      left = (evict_paths limit cs (count_paths pm) pm total).0

      pm-Keyed : KeyedPaths pm
      pm-Keyed =
          subst (λ (o : Option PathMap). KeyedPaths (or_empty o)) found (Keyed-path_map x dm u)

      left-Keyed : KeyedPaths left
      left-Keyed = evict_paths-Keyed limit cs (count_paths pm) pm total pm-Keyed

  pub evict_for_domain-Lacks :
      (limit : ℕ) (x : Text) (dm : DomainMap) (total : ℕ)
      → Lacks d p n dm
      → Lacks d p n (evict_for_domain limit x dm total).0
  unfolding evict_for_domain
  evict_for_domain-Lacks limit x dm total u = elim (Option-cases (JsMap.get text_discrete x dm)) [
    | inl e ↦ rw e u
    | inr (pm, e) ↦ elim (Bool-cases (ltb (count_paths pm) limit)) [
      | inl l ↦ rw (e, l) u
      | inr l ↦ rw (e, l) (evict_domain-Lacks limit x pm dm total e u)
    ]
  ]

  evict_all-Lacks :
      (limit : ℕ) (cs : List Candidate) (dm : DomainMap) (total : ℕ)
      → Lacks d p n dm
      → Lacks d p n (evict_all limit cs dm total).0
  unfolding evict_all
  evict_all-Lacks limit [] dm total u = u
  evict_all-Lacks limit (c ∷ cs) dm total (u, h) = elim (Bool-cases (leb limit total)) [
    | inl e ↦ elim (Option-cases (lookup c.domain c.path c.name dm)) [
      | inl a ↦ rw (e, a) (evict_all-Lacks limit cs dm total (u, h))
      | inr (x, a) ↦
          rw (e, a)
            (evict_all-Lacks limit cs (remove c.domain c.path c.name dm) (total - 1) (
              remove-Keyed c.domain c.path c.name dm u,
              lookup-remove-none d p n c.domain c.path c.name dm u h,
            ))
    ]
    | inr e ↦ rw e (u, h)
  ]

  pub evict_global-Lacks :
      (limit : ℕ) (dm : DomainMap) (total : ℕ)
      → Lacks d p n dm
      → Lacks d p n (evict_global limit dm total).0
  unfolding evict_global
  evict_global-Lacks limit dm total u = elim (Bool-cases (ltb total limit)) [
    | inl e ↦ rw e u
    | inr e ↦ rw e (evict_all-Lacks limit (by_last_access (candidates dm)) dm total u)
  ]
