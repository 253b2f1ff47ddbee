-- ===== src/Cookies/Filtered.antt =====
-- The loops of src/cookie-store.ts that delete or stamp cookies keep the maps well-keyed.
use kinetex.Base.{
  ◌≡◌, refl, Bool, true, false, List, [], ◌∷◌, none, arith, if◌then◌else◌, Text, text_discrete,
  Bool-cases, inl, inr,
}
use kinetex.JsMap
use kinetex.JsMap.{Distinct}
use kinetex.Cookies.Rules.{Cookie}
use kinetex.Cookies.Store.{
  NameMap, PathMap, DomainMap, cons_filled, keep_names, keep_paths, keep_cookies,
}
use kinetex.Cookies.Keyed.{Each, Keyed, DistinctNames, KeyedPaths, KeyedDomains}
use kinetex.Cookies.{without_domain, in_domain}

-- What a filled list at the head of a map keeps.
cons_filled-absent :
    {A : Type 0} (q k : Text) (ys xs : List A) (m m' : List (Text × List A))
    → (JsMap.get text_discrete q m ≡ none → JsMap.get text_discrete q m' ≡ none)
    → JsMap.get text_discrete q ((k, ys) ∷ m) ≡ none
    → JsMap.get text_discrete q (cons_filled k xs m') ≡ none
unfolding JsMap.get
cons_filled-absent q k ys [] m m' f h = ground (arith, h, f)
cons_filled-absent q k ys (x ∷ xs) m m' f h = ground (arith, h, f)

cons_filled-Keyed :
    {A : Type 0} (P : List A → Type 0) (k : Text) (xs : List A) (m : List (Text × List A))
    → P xs
    → JsMap.get text_discrete k m ≡ none
    → Keyed P m
    → Keyed P (cons_filled k xs m)
cons_filled-Keyed P k [] m p a u = u
cons_filled-Keyed P k (x ∷ xs) m p a u = record { distinct = (a, u.distinct); each = (p, u.each) }

module _ (keep : Cookie → Bool) where
  keep_names-absent :
      (k : Text) (nm : NameMap)
      → JsMap.get text_discrete k nm ≡ none
      → JsMap.get text_discrete k (keep_names keep nm) ≡ none
  unfolding JsMap.get
  keep_names-absent k [] h = refl
  keep_names-absent k ((n, c) ∷ nm) h = ground (arith, h, keep_names-absent k nm)

  keep_names-Distinct : (nm : NameMap) → DistinctNames nm → DistinctNames (keep_names keep nm)
  keep_names-Distinct [] u = tt
  keep_names-Distinct ((n, c) ∷ nm) (a, u) =
      if_Distinct (keep c) (keep_names-absent n nm a, keep_names-Distinct nm u)
    where
      if_Distinct :
          (b : Bool)
          → DistinctNames ((n, c) ∷ keep_names keep nm)
          → DistinctNames (if b then (n, c) ∷ keep_names keep nm else keep_names keep nm)
      if_Distinct true v = v
      if_Distinct false v = v.1

  keep_paths-absent :
      (k : Text) (pm : PathMap)
      → JsMap.get text_discrete k pm ≡ none
      → JsMap.get text_discrete k (keep_paths keep pm) ≡ none
  unfolding JsMap.get
  keep_paths-absent k [] h = refl
  keep_paths-absent k ((p, nm) ∷ pm) h =
      cons_filled-absent k p nm (keep_names keep nm) pm (keep_paths keep pm)
        (keep_paths-absent k pm) h

  keep_paths-Keyed :
      (pm : PathMap)
      → Distinct text_discrete pm
      → Each DistinctNames pm
      → KeyedPaths (keep_paths keep pm)
  keep_paths-Keyed [] u v = record { distinct = tt; each = tt }
  keep_paths-Keyed ((p, nm) ∷ pm) (a, u) (b, v) =
      cons_filled-Keyed DistinctNames p (keep_names keep nm) (keep_paths keep pm)
        (keep_names-Distinct nm b) (keep_paths-absent p pm a) (keep_paths-Keyed pm u v)

  keep_cookies-absent :
      (k : Text) (dm : DomainMap)
      → JsMap.get text_discrete k dm ≡ none
      → JsMap.get text_discrete k (keep_cookies keep dm) ≡ none
  unfolding JsMap.get
  keep_cookies-absent k [] h = refl
  keep_cookies-absent k ((d, pm) ∷ dm) h =
      cons_filled-absent k d pm (keep_paths keep pm) dm (keep_cookies keep dm)
        (keep_cookies-absent k dm) h

  pub keep_cookies-Keyed :
      (dm : DomainMap)
      → Distinct text_discrete dm
      → Each KeyedPaths dm
      → KeyedDomains (keep_cookies keep dm)
  keep_cookies-Keyed [] u v = record { distinct = tt; each = tt }
  keep_cookies-Keyed ((d, pm) ∷ dm) (a, u) (b, v) =
      cons_filled-Keyed KeyedPaths d (keep_paths keep pm) (keep_cookies keep dm)
        (keep_paths-Keyed pm b.distinct b.each) (keep_cookies-absent d dm a)
        (keep_cookies-Keyed dm u v)

without_domain-absent :
    (d k : Text) (dm : DomainMap)
    → JsMap.get text_discrete k dm ≡ none
    → JsMap.get text_discrete k (without_domain d dm).0 ≡ none
unfolding JsMap.get
without_domain-absent d k [] h = refl
without_domain-absent d k ((s, pm) ∷ dm) h = elim (Bool-cases (in_domain d s)) [
  | inl e ↦ rw e (without_domain-absent d k dm (ground (arith, h)))
  | inr e ↦ rw e (ground (arith, h, without_domain-absent d k dm))
]

pub without_domain-Keyed :
    (d : Text) (dm : DomainMap)
    → Distinct text_discrete dm
    → Each KeyedPaths dm
    → KeyedDomains (without_domain d dm).0
without_domain-Keyed d [] u v = record { distinct = tt; each = tt }
without_domain-Keyed d ((s, pm) ∷ dm) (a, u) (b, v) = elim (Bool-cases (in_domain d s)) [
  | inl e ↦ rw e (without_domain-Keyed d dm u v)
  | inr e ↦ rw e (record {
    distinct = (without_domain-absent d s dm a, (without_domain-Keyed d dm u v).distinct);
    each = (b, (without_domain-Keyed d dm u v).each);
  })
]
