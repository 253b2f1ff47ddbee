-- ===== src/Cookies/Absence.antt =====
-- Removal and eviction of src/cookie-store.ts bring no cookie back, and keep the maps well-keyed.
use kinetex.Base.{
  ℕ, ◌≡◌, refl, ap, sym, ◌∙◌, List, [], ◌∷◌, Option, none, arith, leb, Text, text_discrete,
  Bool-cases, inl, inr,
}
use kinetex.JsMap
use kinetex.JsMap.{
  Distinct, get-set_self, get-set_ne, get-delete-none, get-delete_self, Distinct-delete,
}
use kinetex.Cookies.Rules.{Cookie}
use kinetex.Cookies.Store.{NameMap, PathMap, DomainMap, lookup, remove, replace_or_drop, or_empty}
use kinetex.Cookies.Eviction.{Candidate, delete_name, evict_paths, prune}
use kinetex.Cookies.Keyed.{
  DistinctNames, KeyedPaths, KeyedDomains, empty-KeyedPaths, Keyed-set, Keyed-or_empty,
  Keyed-path_map, replace-get_self, replace-get_ne,
}

abbrev pub path_lookup : Text → Text → PathMap → Option Cookie
path_lookup p n pm = JsMap.get text_discrete n (or_empty (JsMap.get text_discrete p pm))

abbrev remove_in : Text → Text → PathMap → PathMap
remove_in y z pm =
    replace_or_drop y (JsMap.delete text_discrete z (or_empty (JsMap.get text_discrete y pm))) pm

remove_in-none :
    (p n y z : Text) (pm : PathMap)
    → KeyedPaths pm
    → path_lookup p n pm ≡ none
    → path_lookup p n (remove_in y z pm) ≡ none
remove_in-none p n y z pm u h = elim (text_discrete p y) [
  | no ne ↦ ap (JsMap.get text_discrete n) (replace-get_ne y p _ pm ne) ∙ h
  | yes e ↦ rw (sym e) (
      ap (JsMap.get text_discrete n) (replace-get_self DistinctNames tt p _ pm u)
      ∙ get-delete-none text_discrete n z (or_empty (JsMap.get text_discrete p pm)) h)
]

pub lookup-remove-none :
    (d p n x y z : Text) (dm : DomainMap)
    → KeyedDomains dm
    → lookup d p n dm ≡ none
    → lookup d p n (remove x y z dm) ≡ none
unfolding lookup remove
lookup-remove-none d p n x y z dm u h = elim (text_discrete d x) [
  | no ne ↦ ap (path_lookup p n) (replace-get_ne x d _ dm ne) ∙ h
  | yes e ↦ rw (sym e) (
      ap (path_lookup p n) (replace-get_self KeyedPaths empty-KeyedPaths d _ dm u)
      ∙ remove_in-none p n y z (or_empty (JsMap.get text_discrete d dm)) (Keyed-path_map d dm u) h)
]

-- A cookie that is removed is gone.
pub lookup-remove_self :
    (d p n : Text) (dm : DomainMap) → KeyedDomains dm → lookup d p n (remove d p n dm) ≡ none
unfolding lookup remove
lookup-remove_self d p n dm u =
    ap (path_lookup p n) (replace-get_self KeyedPaths empty-KeyedPaths d _ dm u)
    ∙ (ap (JsMap.get text_discrete n)
          (replace-get_self DistinctNames tt p _ pm (Keyed-path_map d dm u))
        ∙ get-delete_self text_discrete n _
            (Keyed-or_empty DistinctNames tt p pm (Keyed-path_map d dm u)))
  where
    pm : PathMap
    pm = or_empty (JsMap.get text_discrete d dm)

-- Well-keyed, and without one cookie.
abbrev pub LacksIn : Text → Text → PathMap → Type 0
LacksIn p n pm = KeyedPaths pm × (path_lookup p n pm ≡ none)

abbrev pub Lacks : Text → Text → Text → DomainMap → Type 0
Lacks d p n dm = KeyedDomains dm × (lookup d p n dm ≡ none)

prune-absent :
    (q : Text) (pm : PathMap)
    → JsMap.get text_discrete q pm ≡ none
    → JsMap.get text_discrete q (prune pm) ≡ none
unfolding JsMap.get
prune-absent q [] h = refl
prune-absent q ((k, []) ∷ pm) h = ground (arith, h, prune-absent q pm)
prune-absent q ((k, c ∷ nm) ∷ pm) h = ground (arith, h, prune-absent q pm)

pub prune-Distinct : (pm : PathMap) → Distinct text_discrete pm → Distinct text_discrete (prune pm)
prune-Distinct [] u = tt
prune-Distinct ((k, []) ∷ pm) (a, u) = prune-Distinct pm u
prune-Distinct ((k, c ∷ nm) ∷ pm) (a, u) = (prune-absent k pm a, prune-Distinct pm u)

module _ (p n : Text) where
  pub set-LacksIn :
      (y z : Text) (pm : PathMap)
      → LacksIn p n pm
      → LacksIn p n (
          JsMap.set text_discrete y
            (JsMap.delete text_discrete z (or_empty (JsMap.get text_discrete y pm)))
            pm)
  set-LacksIn y z pm (u, h) = (
    Keyed-set DistinctNames y _ pm
        (Distinct-delete text_discrete z _ (Keyed-or_empty DistinctNames tt y pm u)) u,
    elim (text_discrete p y) [
      | no ne ↦
          ap (λ (o : Option NameMap). JsMap.get text_discrete n (or_empty o))
            (get-set_ne text_discrete y p _ pm ne)
          ∙ h
      | yes e ↦ rw (sym e) (
          ap (λ (o : Option NameMap). JsMap.get text_discrete n (or_empty o))
            (get-set_self text_discrete p _ pm)
          ∙ get-delete-none text_discrete n z (or_empty (JsMap.get text_discrete p pm)) h)
    ],
  )

  pub delete_name-LacksIn :
      (y z : Text) (pm : PathMap) → LacksIn p n pm → LacksIn p n (delete_name y z pm).0
  unfolding delete_name
  delete_name-LacksIn y z pm u =
      elim (Bool-cases (JsMap.has text_discrete z (or_empty (JsMap.get text_discrete y pm)))) [
        | inl h ↦ rw h (set-LacksIn y z pm u)
        | inr h ↦ rw h u
      ]

  pub evict_paths-LacksIn :
      (limit : ℕ) (cs : List Candidate) (count : ℕ) (pm : PathMap) (total : ℕ)
      → LacksIn p n pm
      → LacksIn p n (evict_paths limit cs count pm total).0
  unfolding evict_paths
  evict_paths-LacksIn limit [] count pm total u = u
  evict_paths-LacksIn limit (c ∷ cs) count pm total u = elim (Bool-cases (leb limit count)) [
    | inl h ↦ rw h (evict_paths-LacksIn limit cs _ _ _ (delete_name-LacksIn c.path c.name pm u))
    | inr h ↦ rw h u
  ]

  pub prune-lookup :
      (pm : PathMap) → Distinct text_discrete pm → path_lookup p n (prune pm) ≡ path_lookup p n pm
  unfolding JsMap.get
  prune-lookup [] u = refl
  prune-lookup ((k, []) ∷ pm) (a, u) = elim (text_discrete k p) [
    | yes e ↦ ground (arith, e, prune-absent p pm, a)
    | no ne ↦ ground (arith, ne, prune-lookup pm u)
  ]
  prune-lookup ((k, c ∷ nm) ∷ pm) (a, u) = elim (text_discrete k p) [
    | yes e ↦ ground (arith, e)
    | no ne ↦ ground (arith, ne, prune-lookup pm u)
  ]
