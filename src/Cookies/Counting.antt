-- ===== src/Cookies/Counting.antt =====
-- How the operations on the maps of src/cookie-store.ts change the number of cookies.
use kinetex.Base.{
  ℕ, ◌+◌, ◌≡◌, refl, sym, List, [], ◌∷◌, Option, none, some, arith, Text, text_discrete, length,
}
use kinetex.JsMap
use kinetex.Cookies.Rules.{Cookie}
use kinetex.Cookies.Store.{
  NameMap, PathMap, DomainMap, lookup, insert, remove, replace_or_drop, or_empty, sum_values,
  count_paths, count_all,
}

abbrev value_at : {V : Type 0} → (V → ℕ) → Option V → ℕ
value_at w none = 0
value_at w (some v) = w v

module _ {V : Type 0} (w : V → ℕ) where
  sum_values-set :
      (k : Text) (v : V) (m : List (Text × V))
      → sum_values w (JsMap.set text_discrete k v m) + value_at w (JsMap.get text_discrete k m)
        ≡ sum_values w m + w v
  unfolding JsMap.get JsMap.set
  sum_values-set k v [] = omega arith
  sum_values-set k v ((j, x) ∷ m) = elim (text_discrete j k) [
    | yes p ↦ ground (arith, p)
    | no n ↦ ground (arith, n, sum_values-set k v m)
  ]

  sum_values-delete :
      (k : Text) (m : List (Text × V))
      → sum_values w (JsMap.delete text_discrete k m) + value_at w (JsMap.get text_discrete k m)
        ≡ sum_values w m
  unfolding JsMap.get JsMap.delete
  sum_values-delete k [] = omega arith
  sum_values-delete k ((j, x) ∷ m) = elim (text_discrete j k) [
    | yes p ↦ ground (arith, p)
    | no n ↦ ground (arith, n, sum_values-delete k m)
  ]

length-sum_values : {V : Type 0} (m : List (Text × V)) → length m ≡ sum_values (λ _. 1) m
length-sum_values [] = refl
length-sum_values ((k, v) ∷ m) = omega (arith, length-sum_values m)

-- A map of lists, where a missing list weighs as much as an empty one.
module _ {A : Type 0} (w : List A → ℕ) (none_is_empty : w [] ≡ 0) where
  value_at-or_empty : (o : Option (List A)) → value_at w o ≡ w (or_empty o)
  value_at-or_empty none = sym none_is_empty
  value_at-or_empty (some m) = refl

  pub sum_values-set_list :
      (k : Text) (xs : List A) (m : List (Text × List A))
      → sum_values w (JsMap.set text_discrete k xs m) + w (or_empty (JsMap.get text_discrete k m))
        ≡ sum_values w m + w xs
  sum_values-set_list k xs m =
      omega (arith, sum_values-set w k xs m, value_at-or_empty (JsMap.get text_discrete k m))

  pub sum_values-replace :
      (k : Text) (xs : List A) (m : List (Text × List A))
      → sum_values w (replace_or_drop k xs m) + w (or_empty (JsMap.get text_discrete k m))
        ≡ sum_values w m + w xs
  sum_values-replace k [] m = omega (
    arith,
    sum_values-delete w k m,
    value_at-or_empty (JsMap.get text_discrete k m),
    none_is_empty,
  )
  sum_values-replace k (x ∷ xs) m = sum_values-set_list k (x ∷ xs) m

-- One cookie, if there is one.
abbrev pub one_if : Option Cookie → ℕ
one_if none = 0
one_if (some c) = 1

value_at-one_if : (o : Option Cookie) → value_at (λ _. 1) o ≡ one_if o
value_at-one_if none = refl
value_at-one_if (some c) = refl

pub length-set :
    (n : Text) (c : Cookie) (nm : NameMap)
    → length (JsMap.set text_discrete n c nm) + one_if (JsMap.get text_discrete n nm)
      ≡ length nm + 1
length-set n c nm = omega (
  arith,
  sum_values-set (λ _. 1) n c nm,
  value_at-one_if (JsMap.get text_discrete n nm),
  length-sum_values (JsMap.set text_discrete n c nm),
  length-sum_values nm,
)

pub length-delete :
    (n : Text) (nm : NameMap)
    → length (JsMap.delete text_discrete n nm) + one_if (JsMap.get text_discrete n nm) ≡ length nm
length-delete n nm = omega (
  arith,
  sum_values-delete (λ _. 1) n nm,
  value_at-one_if (JsMap.get text_discrete n nm),
  length-sum_values (JsMap.delete text_discrete n nm),
  length-sum_values nm,
)

pub count_all-insert :
    (d p n : Text) (c : Cookie) (dm : DomainMap)
    → count_all (insert d p n c dm) + one_if (lookup d p n dm) ≡ count_all dm + 1
unfolding insert lookup
count_all-insert d p n c dm = omega (
  arith,
  length-set n c nm,
  sum_values-set_list (λ (m : NameMap). length m) refl p (JsMap.set text_discrete n c nm) pm,
  sum_values-set_list count_paths refl d
      (JsMap.set text_discrete p (JsMap.set text_discrete n c nm) pm) dm,
)
  where
    pm : PathMap
    pm = or_empty (JsMap.get text_discrete d dm)

    nm : NameMap
    nm = or_empty (JsMap.get text_discrete p pm)

pub count_all-remove :
    (d p n : Text) (dm : DomainMap)
    → count_all (remove d p n dm) + one_if (lookup d p n dm) ≡ count_all dm
unfolding remove lookup
count_all-remove d p n dm = omega (
  arith,
  length-delete n nm,
  sum_values-replace (λ (m : NameMap). length m) refl p (JsMap.delete text_discrete n nm) pm,
  sum_values-replace count_paths refl d (replace_or_drop p (JsMap.delete text_discrete n nm) pm) dm,
)
  where
    pm : PathMap
    pm = or_empty (JsMap.get text_discrete d dm)

    nm : NameMap
    nm = or_empty (JsMap.get text_discrete p pm)
