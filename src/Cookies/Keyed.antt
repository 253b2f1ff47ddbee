-- ===== src/Cookies/Keyed.antt =====
-- No key of the maps of src/cookie-store.ts stands twice, on any of the three levels, and what the
-- operations on them leave under a key.
use kinetex.Base.{◌≡◌, ap, ◌≢◌, List, [], ◌∷◌, Option, none, some, arith, Text, text_discrete, ite}
use kinetex.JsMap
use kinetex.JsMap.{
  Distinct, get-set_self, get-set_ne, get-delete_self, get-delete_ne, Distinct-set, Distinct-delete,
}
use kinetex.Cookies.Rules.{Cookie}
use kinetex.Cookies.Store.{
  NameMap, PathMap, DomainMap, lookup, insert, remove, replace_or_drop, or_empty,
}

-- A predicate of all values of a map, no key of which stands twice.
abbrev pub Each : {V : Type 0} → (V → Type 0) → List (Text × V) → Type 0
Each P [] = Unit
Each P ((k, v) ∷ m) = P v × Each P m

pub record Keyed {V : Type 0} (P : V → Type 0) (m : List (Text × V)) : Type 0 where
  pub distinct : Distinct text_discrete m
  pub each : Each P m

abbrev pub DistinctNames : NameMap → Type 0
DistinctNames nm = Distinct text_discrete nm

abbrev pub KeyedPaths : PathMap → Type 0
KeyedPaths pm = Keyed DistinctNames pm

abbrev pub KeyedDomains : DomainMap → Type 0
KeyedDomains dm = Keyed KeyedPaths dm

module _ {V : Type 0} (P : V → Type 0) where
  Each-set :
      (k : Text) (v : V) (m : List (Text × V))
      → P v
      → Each P m
      → Each P (JsMap.set text_discrete k v m)
  unfolding JsMap.set
  Each-set k v [] a u = (a, tt)
  Each-set k v ((j, x) ∷ m) a (b, u) =
      elim (text_discrete j k)
        as (λ r. Each P (ite r ((j, v) ∷ m) ((j, x) ∷ JsMap.set text_discrete k v m))) [
          | yes p ↦ (a, u)
          | no n ↦ (b, Each-set k v m a u)
        ]

  Each-delete :
      (k : Text) (m : List (Text × V)) → Each P m → Each P (JsMap.delete text_discrete k m)
  unfolding JsMap.delete
  Each-delete k [] u = tt
  Each-delete k ((j, x) ∷ m) (b, u) =
      elim (text_discrete j k)
        as (λ r. Each P (ite r m ((j, x) ∷ JsMap.delete text_discrete k m))) [
          | yes p ↦ u
          | no n ↦ (b, Each-delete k m u)
        ]

  abbrev AtKey : Option V → Type 0
  AtKey none = Unit
  AtKey (some v) = P v

  Each-get : (k : Text) (m : List (Text × V)) → Each P m → AtKey (JsMap.get text_discrete k m)
  unfolding JsMap.get
  Each-get k [] u = tt
  Each-get k ((j, x) ∷ m) (b, u) =
      elim (text_discrete j k) as (λ r. AtKey (ite r (some x) (JsMap.get text_discrete k m))) [
        | yes p ↦ b
        | no n ↦ Each-get k m u
      ]

  pub Keyed-set :
      (k : Text) (v : V) (m : List (Text × V))
      → P v
      → Keyed P m
      → Keyed P (JsMap.set text_discrete k v m)
  Keyed-set k v m a u = record {
    distinct = Distinct-set text_discrete k v m u.distinct;
    each = Each-set k v m a u.each;
  }

  pub Keyed-delete :
      (k : Text) (m : List (Text × V)) → Keyed P m → Keyed P (JsMap.delete text_discrete k m)
  Keyed-delete k m u = record {
    distinct = Distinct-delete text_discrete k m u.distinct;
    each = Each-delete k m u.each;
  }

module _ {A : Type 0} (P : List A → Type 0) (P_empty : P []) where
  at_key-or_empty : (o : Option (List A)) → AtKey P o → P (or_empty o)
  at_key-or_empty none u = P_empty
  at_key-or_empty (some v) u = u

  pub Keyed-or_empty :
      (k : Text) (m : List (Text × List A)) → Keyed P m → P (or_empty (JsMap.get text_discrete k m))
  Keyed-or_empty k m u = at_key-or_empty (JsMap.get text_discrete k m) (Each-get P k m u.each)

  pub Keyed-replace :
      (k : Text) (xs : List A) (m : List (Text × List A))
      → P xs
      → Keyed P m
      → Keyed P (replace_or_drop k xs m)
  Keyed-replace k [] m a u = Keyed-delete P k m u
  Keyed-replace k (x ∷ xs) m a u = Keyed-set P k (x ∷ xs) m a u

  pub replace-get_self :
      (k : Text) (xs : List A) (m : List (Text × List A))
      → Keyed P m
      → or_empty (JsMap.get text_discrete k (replace_or_drop k xs m)) ≡ xs
  replace-get_self k [] m u = ap or_empty (get-delete_self text_discrete k m u.distinct)
  replace-get_self k (x ∷ xs) m u = ap or_empty (get-set_self text_discrete k (x ∷ xs) m)

pub replace-get_ne :
    {A : Type 0} (k q : Text) (xs : List A) (m : List (Text × List A))
    → q ≢ k
    → or_empty (JsMap.get text_discrete q (replace_or_drop k xs m))
      ≡ or_empty (JsMap.get text_discrete q m)
replace-get_ne k q [] m ne = ap or_empty (get-delete_ne text_discrete k q m ne)
replace-get_ne k q (x ∷ xs) m ne = ap or_empty (get-set_ne text_discrete k q (x ∷ xs) m ne)

pub empty-KeyedPaths : KeyedPaths []
empty-KeyedPaths = record { distinct = tt; each = tt }

pub Keyed-path_map :
    (d : Text) (dm : DomainMap)
    → KeyedDomains dm
    → KeyedPaths (or_empty (JsMap.get text_discrete d dm))
Keyed-path_map d dm u = Keyed-or_empty KeyedPaths empty-KeyedPaths d dm u

pub insert-Keyed :
    (d p n : Text) (c : Cookie) (dm : DomainMap)
    → KeyedDomains dm
    → KeyedDomains (insert d p n c dm)
unfolding insert
insert-Keyed d p n c dm u =
    Keyed-set KeyedPaths d _ dm
      (Keyed-set DistinctNames p _ _
        (Distinct-set text_discrete n c _
          (Keyed-or_empty DistinctNames tt p _ (Keyed-path_map d dm u)))
        (Keyed-path_map d dm u))
      u

pub remove-Keyed :
    (d p n : Text) (dm : DomainMap) → KeyedDomains dm → KeyedDomains (remove d p n dm)
unfolding remove
remove-Keyed d p n dm u =
    Keyed-replace KeyedPaths empty-KeyedPaths d _ dm
      (Keyed-replace DistinctNames tt p _ _
        (Distinct-delete text_discrete n _
          (Keyed-or_empty DistinctNames tt p _ (Keyed-path_map d dm u)))
        (Keyed-path_map d dm u))
      u

-- What is stored is found.
pub lookup-insert :
    (d p n : Text) (c : Cookie) (dm : DomainMap) → lookup d p n (insert d p n c dm) ≡ some c
unfolding lookup insert
lookup-insert d p n c dm = ground (
  arith,
  get-set_self text_discrete n c nm,
  get-set_self text_discrete p (JsMap.set text_discrete n c nm) pm,
  get-set_self text_discrete d (JsMap.set text_discrete p (JsMap.set text_discrete n c nm) pm) dm,
)
  where
    pm : PathMap
    pm = or_empty (JsMap.get text_discrete d dm)

    nm : NameMap
    nm = or_empty (JsMap.get text_discrete p pm)
