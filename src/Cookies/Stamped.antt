-- ===== src/Cookies/Stamped.antt =====
-- The access times that src/cookie-store.ts records change no key and no count.
use kinetex.Base.{
  ℕ, ◌≡◌, refl, Bool, true, false, [], ◌∷◌, none, arith, if◌then◌else◌, Text, text_discrete, length,
}
use kinetex.JsMap
use kinetex.JsMap.{Distinct}
use kinetex.Cookies.Rules.{Cookie}
use kinetex.Cookies.Store.{NameMap, PathMap, DomainMap, count_paths, count_all}
use kinetex.Cookies.Retrieval.{stamp_names, stamp_paths, stamp}
use kinetex.Cookies.Keyed.{Each, DistinctNames, KeyedPaths, KeyedDomains}

module _ (test : Cookie → Bool) (ts : ℕ) where
  length-stamp_names : (nm : NameMap) → length (stamp_names test ts nm) ≡ length nm
  length-stamp_names [] = refl
  length-stamp_names ((n, c) ∷ nm) = omega (arith, length-stamp_names nm)

  count_paths-stamp : (pm : PathMap) → count_paths (stamp_paths test ts pm) ≡ count_paths pm
  count_paths-stamp [] = refl
  count_paths-stamp ((p, nm) ∷ pm) = omega (arith, length-stamp_names nm, count_paths-stamp pm)

  stamp_names-absent :
      (k : Text) (nm : NameMap)
      → JsMap.get text_discrete k nm ≡ none
      → JsMap.get text_discrete k (stamp_names test ts nm) ≡ none
  unfolding JsMap.get
  stamp_names-absent k [] h = refl
  stamp_names-absent k ((n, c) ∷ nm) h = ground (arith, h, stamp_names-absent k nm)

  stamp_names-Distinct : (nm : NameMap) → DistinctNames nm → DistinctNames (stamp_names test ts nm)
  stamp_names-Distinct [] u = tt
  stamp_names-Distinct ((n, c) ∷ nm) (a, u) = (stamp_names-absent n nm a, stamp_names-Distinct nm u)

  stamp_paths-absent :
      (k : Text) (pm : PathMap)
      → JsMap.get text_discrete k pm ≡ none
      → JsMap.get text_discrete k (stamp_paths test ts pm) ≡ none
  unfolding JsMap.get
  stamp_paths-absent k [] h = refl
  stamp_paths-absent k ((n, c) ∷ pm) h = ground (arith, h, stamp_paths-absent k pm)

  stamp_paths-Keyed :
      (pm : PathMap)
      → Distinct text_discrete pm
      → Each DistinctNames pm
      → KeyedPaths (stamp_paths test ts pm)
  stamp_paths-Keyed [] u v = record { distinct = tt; each = tt }
  stamp_paths-Keyed ((p, nm) ∷ pm) (a, u) (b, v) =
      let rest = stamp_paths-Keyed pm u v in
      record {
        distinct = (stamp_paths-absent p pm a, rest.distinct);
        each = (stamp_names-Distinct nm b, rest.each);
      }

module _ (in_scope : Text → Bool) (test : Cookie → Bool) (ts : ℕ) where
  pub count_all-stamp : (dm : DomainMap) → count_all (stamp in_scope test ts dm) ≡ count_all dm
  count_all-stamp [] = refl
  count_all-stamp ((d, pm) ∷ dm) = ground (arith, count_paths-stamp test ts pm, count_all-stamp dm)

  stamp-absent :
      (k : Text) (dm : DomainMap)
      → JsMap.get text_discrete k dm ≡ none
      → JsMap.get text_discrete k (stamp in_scope test ts dm) ≡ none
  unfolding JsMap.get
  stamp-absent k [] h = refl
  stamp-absent k ((d, pm) ∷ dm) h = ground (arith, h, stamp-absent k dm)

  if_Keyed :
      (b : Bool) (x y : PathMap) → KeyedPaths x → KeyedPaths y → KeyedPaths (if b then x else y)
  if_Keyed true x y u v = u
  if_Keyed false x y u v = v

  pub stamp-Keyed :
      (dm : DomainMap)
      → Distinct text_discrete dm
      → Each KeyedPaths dm
      → KeyedDomains (stamp in_scope test ts dm)
  stamp-Keyed [] u v = record { distinct = tt; each = tt }
  stamp-Keyed ((d, pm) ∷ dm) (a, u) (b, v) =
      let rest = stamp-Keyed dm u v in
      record {
        distinct = (stamp-absent d dm a, rest.distinct);
        each = (
          if_Keyed (in_scope d) _ _ (stamp_paths-Keyed test ts pm b.distinct b.each) b,
          rest.each,
        );
      }
