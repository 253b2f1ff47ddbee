-- ===== src/Cookies/Covers.antt =====
-- The candidates for eviction (src/cookie-store.ts) are all cookies that a map holds.
use kinetex.Base.{
  ◌≡◌, refl, ap, sym, ◌∙◌, ◌⊎◌, inl, inr, List, [], ◌∷◌, ◌++◌, none, some, arith, leb, Text,
  text_discrete, length, Bool-cases, ite,
}
use kinetex.JsMap
use kinetex.JsMap.{Distinct}
use kinetex.Cookies.Store.{
  NameMap, PathMap, DomainMap, lookup, remove, or_empty, count_paths, count_all,
}
use kinetex.Cookies.Eviction.{
  Candidate, name_candidates, path_candidates, candidates, insert_candidate, by_last_access,
}
use kinetex.Cookies.Keyed.{Each, KeyedPaths, KeyedDomains}
use kinetex.Cookies.Absence.{path_lookup, lookup-remove-none, lookup-remove_self}

abbrev pub Is : Text → Text → Text → Candidate → Type 0
Is d p n c = (c.domain ≡ d) × (c.path ≡ p) × (c.name ≡ n)

abbrev pub Listed : Text → Text → Text → List Candidate → Type 0
Listed d p n [] = ⊥
Listed d p n (c ∷ cs) = Is d p n c ⊎ Listed d p n cs

-- Every cookie of the map is among the candidates.
abbrev pub Covers : List Candidate → DomainMap → Type 0
Covers cs dm = (d p n : Text) → Listed d p n cs ⊎ (lookup d p n dm ≡ none)

module _ (d p n : Text) where
  Listed-left : (cs es : List Candidate) → Listed d p n cs → Listed d p n (cs ++ es)
  Listed-left [] es h = elim h [ ]
  Listed-left (c ∷ cs) es (inl h) = inl h
  Listed-left (c ∷ cs) es (inr h) = inr (Listed-left cs es h)

  Listed-right : (cs es : List Candidate) → Listed d p n es → Listed d p n (cs ++ es)
  Listed-right [] es h = h
  Listed-right (c ∷ cs) es h = inr (Listed-right cs es h)

  Listed-insert :
      (c : Candidate) (es : List Candidate)
      → Listed d p n (c ∷ es)
      → Listed d p n (insert_candidate c es)
  Listed-insert c [] h = h
  Listed-insert c (e ∷ es) h = elim (Bool-cases (leb c.last_accessed e.last_accessed)) [
    | inl b ↦ rw b h
    | inr b ↦ rw b (elim h [
      | inl i ↦ inr (Listed-insert c es (inl i))
      | inr k ↦ elim k [ inl i ↦ inl i | inr l ↦ inr (Listed-insert c es (inr l)) ]
    ])
  ]

  pub Listed-by_last_access :
      (cs : List Candidate) → Listed d p n cs → Listed d p n (by_last_access cs)
  Listed-by_last_access [] h = elim h [ ]
  Listed-by_last_access (c ∷ cs) (inl h) = Listed-insert c (by_last_access cs) (inl h)
  Listed-by_last_access (c ∷ cs) (inr h) =
      Listed-insert c (by_last_access cs) (inr (Listed-by_last_access cs h))

  names-Listed :
      (nm : NameMap) → Listed d p n (name_candidates d p nm) ⊎ (JsMap.get text_discrete n nm ≡ none)
  unfolding JsMap.get
  names-Listed [] = inr refl
  names-Listed ((k, c) ∷ nm) =
      elim (text_discrete k n)
        as (λ r.
          Listed d p n (name_candidates d p ((k, c) ∷ nm))
          ⊎ (ite r (some c) (JsMap.get text_discrete n nm) ≡ none)) [
            | yes e ↦ inl (inl (refl, refl, e))
            | no ne ↦ elim (names-Listed nm) [ inl h ↦ inl (inr h) | inr h ↦ inr h ]
          ]

  pub paths-Listed :
      (pm : PathMap) → Listed d p n (path_candidates d pm) ⊎ (path_lookup p n pm ≡ none)
  unfolding JsMap.get
  paths-Listed [] = inr refl
  paths-Listed ((q, nm) ∷ pm) =
      elim (text_discrete q p)
        as (λ r.
          Listed d p n (path_candidates d ((q, nm) ∷ pm))
          ⊎ (JsMap.get text_discrete n (or_empty (ite r (some nm) (JsMap.get text_discrete p pm)))
              ≡ none)) [
                | yes e ↦
                    rw e
                      (elim (names-Listed nm) [ inl h ↦ inl (Listed-left _ _ h) | inr h ↦ inr h ])
                | no ne ↦ elim (paths-Listed pm) [
                  | inl h ↦ inl (Listed-right (name_candidates d q nm) _ h)
                  | inr h ↦ inr h
                ]
              ]

  domains-Listed : (dm : DomainMap) → Listed d p n (candidates dm) ⊎ (lookup d p n dm ≡ none)
  unfolding JsMap.get lookup
  domains-Listed [] = inr refl
  domains-Listed ((q, pm) ∷ dm) =
      elim (text_discrete q d)
        as (λ r.
          Listed d p n (candidates ((q, pm) ∷ dm))
          ⊎ (path_lookup p n (or_empty (ite r (some pm) (JsMap.get text_discrete d dm))) ≡ none)) [
            | yes e ↦
                rw e (elim (paths-Listed pm) [ inl h ↦ inl (Listed-left _ _ h) | inr h ↦ inr h ])
            | no ne ↦ elim (domains-Listed dm) [
              | inl h ↦ inl (Listed-right (path_candidates q pm) _ h)
              | inr h ↦ inr h
            ]
          ]

pub Covers-candidates : (dm : DomainMap) → Covers (by_last_access (candidates dm)) dm
Covers-candidates dm d p n = elim (domains-Listed d p n dm) [
  | inl h ↦ inl (Listed-by_last_access d p n (candidates dm) h)
  | inr h ↦ inr h
]

-- The first candidate is dealt with: it was not there, or it is removed.
pub Covers-absent :
    (c : Candidate) (cs : List Candidate) (dm : DomainMap)
    → lookup c.domain c.path c.name dm ≡ none
    → Covers (c ∷ cs) dm
    → Covers cs dm
Covers-absent c cs dm a f d p n = elim (f d p n) [
  | inl i ↦ elim i [ inl (e1, e2, e3) ↦ inr (rw (sym e1, sym e2, sym e3) a) | inr l ↦ inl l ]
  | inr h ↦ inr h
]

pub Covers-remove :
    (c : Candidate) (cs : List Candidate) (dm : DomainMap)
    → KeyedDomains dm
    → Covers (c ∷ cs) dm
    → Covers cs (remove c.domain c.path c.name dm)
Covers-remove c cs dm u f d p n = elim (f d p n) [
  | inl i ↦ elim i [
    | inl (e1, e2, e3) ↦
        inr (rw (sym e1, sym e2, sym e3) (lookup-remove_self c.domain c.path c.name dm u))
    | inr l ↦ inl l
  ]
  | inr h ↦ inr (lookup-remove-none d p n c.domain c.path c.name dm u h)
]

-- A map in which nothing is found holds nothing.
empty_names : (nm : NameMap) → ((n : Text) → JsMap.get text_discrete n nm ≡ none) → length nm ≡ 0
unfolding JsMap.get
empty_names [] f = refl
empty_names ((k, c) ∷ nm) f = ground (arith, f k)

-- What the head of a map of lists holds, and what its tail holds.
at_head :
    {A : Type 0} (k : Text) (xs : List A) (m : List (Text × List A))
    → or_empty (JsMap.get text_discrete k ((k, xs) ∷ m)) ≡ xs
unfolding JsMap.get
at_head k xs m = ground arith

in_tail :
    {A : Type 0} (B : List A → Type 0) (k q : Text) (xs : List A) (m : List (Text × List A))
    → JsMap.get text_discrete k m ≡ none
    → B []
    → B (or_empty (JsMap.get text_discrete q ((k, xs) ∷ m)))
    → B (or_empty (JsMap.get text_discrete q m))
unfolding JsMap.get
in_tail B k q xs m a b h =
    elim (text_discrete k q)
        as (λ r.
          B (or_empty (ite r (some xs) (JsMap.get text_discrete q m)))
          → B (or_empty (JsMap.get text_discrete q m))) [
            | yes e ↦ λ _. rw (sym e, a) b
            | no ne ↦ λ x. x
          ]
      h

pub empty_paths :
    (pm : PathMap)
    → Distinct text_discrete pm
    → ((p n : Text) → path_lookup p n pm ≡ none)
    → count_paths pm ≡ 0
unfolding JsMap.get
empty_paths [] u f = refl
empty_paths ((q, nm) ∷ pm) (a, u) f = omega (
  arith,
  empty_names nm (λ n. ap (JsMap.get text_discrete n) (sym (at_head q nm pm)) ∙ f q n),
  empty_paths pm u
      (λ p n. in_tail (λ x. JsMap.get text_discrete n x ≡ none) q p nm pm a refl (f p n)),
)

pub empty_domains :
    (dm : DomainMap)
    → Distinct text_discrete dm
    → Each KeyedPaths dm
    → Covers [] dm
    → count_all dm ≡ 0
unfolding lookup JsMap.get
empty_domains [] u v f = refl
empty_domains ((q, pm) ∷ dm) (a, u) (b, v) f = omega (
  arith,
  empty_paths pm b.distinct
      (λ p n. ap (path_lookup p n) (sym (at_head q pm dm)) ∙ absent (f q p n)),
  empty_domains dm u v
      (λ d p n. inr (in_tail (λ x. path_lookup p n x ≡ none) q d pm dm a refl (absent (f d p n)))),
)
  where
    absent : {P : Type 0} → ⊥ ⊎ P → P
    absent (inl x) = elim x [ ]
    absent (inr h) = h
