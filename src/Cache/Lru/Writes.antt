-- ===== src/Cache/Lru/Writes.antt =====
-- Writes through a reference to a node of src/cache.ts's LRUTracker, and what lookups see of them.
use mathlib.Core.Option
use kinetex.Base.{
  ◌≡◌, refl, sym, ◌∙◌, ◌≢◌, List, [], ◌∷◌, Option, none, some, arith, Text, text_discrete, length,
  suc, ite,
}
use kinetex.JsMap
use kinetex.Cache.Lru.{Node, write}
use kinetex.Cache.Lru.Links.{first, node_at, without, NotIn, at_key}

pub get-write :
    (o : Option Text) (f : Node → Node) (q : Text) (m : List (Text × Node))
    → JsMap.get text_discrete q (write o f m) ≡ at_key o f q (JsMap.get text_discrete q m)
get-write none f q m = refl
get-write (some k) f q m =
    elim (text_discrete k q)
      as (λ r.
        JsMap.get text_discrete q (JsMap.update text_discrete k f m)
        ≡ ite r (Option.map f (JsMap.get text_discrete q m)) (JsMap.get text_discrete q m)) [
          | yes e ↦ rw (sym e) (JsMap.get-update_self text_discrete k f m)
          | no e ↦ JsMap.get-update_ne text_discrete k q f m (λ c. e (sym c))
        ]

pub length-update :
    (k : Text) (f : Node → Node) (m : List (Text × Node))
    → length (JsMap.update text_discrete k f m) ≡ length m
unfolding JsMap.update
length-update k f [] = refl
length-update k f ((j, v) ∷ m) = ground (arith, length-update k f m)

pub length-write :
    (o : Option Text) (f : Node → Node) (m : List (Text × Node)) → length (write o f m) ≡ length m
length-write none f m = refl
length-write (some k) f m = length-update k f m

pub length-set :
    (k : Text) (n : Node) (m : List (Text × Node))
    → JsMap.get text_discrete k m ≡ none
    → length (JsMap.set text_discrete k n m) ≡ suc (length m)
unfolding JsMap.set JsMap.get
length-set k n [] h = refl
length-set k n ((j, v) ∷ m) h = ground (arith, h, length-set k n m)

pub length-delete :
    (k : Text) (m : List (Text × Node))
    → JsMap.get text_discrete k m ≢ none
    → length m ≡ suc (length (JsMap.delete text_discrete k m))
unfolding JsMap.delete JsMap.get
length-delete k [] h = absurd (h refl)
length-delete k ((j, v) ∷ m) h = ground (arith, h, length-delete k m)

pub length-without :
    (p : Option Text) (xs : List Text) (k : Text)
    → node_at p xs k ≢ none
    → length xs ≡ suc (length (without k xs))
length-without p [] k h = absurd (h refl)
length-without p (x ∷ xs) k h = ground (arith, h, length-without (some x) xs k)

pub Distinct-write :
    (o : Option Text) (f : Node → Node) (m : List (Text × Node))
    → JsMap.Distinct text_discrete m
    → JsMap.Distinct text_discrete (write o f m)
Distinct-write none f m u = u
Distinct-write (some k) f m u = JsMap.Distinct-update text_discrete k f m u

pub some_ne : {A : Type 0} (o : Option A) (a : A) → o ≡ some a → o ≢ none
some_ne o a h = ground (arith, h)

pub at_key_some :
    (o : Option Text) (f : Node → Node) (q : Text) (r : Option Node)
    → r ≢ none
    → at_key o f q r ≢ none
at_key_some none f q r h = h
at_key_some (some a) f q r h = ground (arith, h)

pub map_const : (c : Node) (o : Option Node) → o ≢ none → Option.map (λ _. c) o ≡ some c
map_const c none h = absurd (h refl)
map_const c (some n) h = refl

pub own-update :
    (k : Text) (c : Node) (m : List (Text × Node))
    → JsMap.get text_discrete k m ≢ none
    → JsMap.get text_discrete k (JsMap.update text_discrete k (λ _. c) m) ≡ some c
own-update k c m h =
    JsMap.get-update_self text_discrete k (λ _. c) m ∙ map_const c (JsMap.get text_discrete k m) h

pub own-write :
    (o : Option Text) (f : Node → Node) (k : Text) (m : List (Text × Node))
    → JsMap.get text_discrete k m ≢ none
    → JsMap.get text_discrete k (write o f m) ≢ none
own-write o f k m h = rw (get-write o f k m) (at_key_some o f k (JsMap.get text_discrete k m) h)

pub first_ne : (k : Text) (xs : List Text) → NotIn k xs → first xs ≢ some k
first_ne k [] h = ground arith
first_ne k (x ∷ xs) (e, h) = ground (arith, e)
