-- ===== src/Cache/Lru/Refinement.antt =====
-- LRUTracker of src/cache.ts against the list of its keys, most recently used first.
use kinetex.Base.{
  ◌≡◌, refl, sym, ◌∙◌, List, [], ◌∷◌, Option, none, some, arith, Text, text_discrete, subst,
}
use kinetex.JsMap
use kinetex.Cache.Lru.{
  Node, Lru, init, touch, touch_node, remove, remove_node, evict, evict_tail, clear, unlink,
}
use kinetex.Cache.Lru.Links.{last_from, without}
use kinetex.Cache.Lru.Ends.{without-NotIn, NotIn-of_none}
use kinetex.Cache.Lru.Writes.{length-set}
use kinetex.Cache.Lru.Detached.{
  Represents, Detached, unlink-Detached, drop_node-Represents, prepend-Represents,
}

fresh-Detached :
    (k : Text) (t : Lru) (xs : List Text)
    → Represents t xs
    → JsMap.get text_discrete k t.nodes ≡ none
    → Detached k
        (record t {
          nodes = JsMap.set text_discrete k (record { prev = none; next = none }) t.nodes;
        })
        (without k xs)
fresh-Detached k t xs r h =
    let blank : Node = record { prev = none; next = none } in
    let out = NotIn-of_none none xs k (sym (r.links k) ∙ h) in
    rw (without-NotIn k xs out) (record {
      unique = r.unique;
      outside = out;
      links = λ q d. JsMap.get-set_ne text_discrete k q blank t.nodes d ∙ r.links q;
      own = rw (JsMap.get-set_self text_discrete k blank t.nodes) (λ e. ground (arith, e));
      front = r.front;
      back = r.back;
      distinct = JsMap.Distinct-set text_discrete k blank t.nodes r.distinct;
      count = rw (length-set k blank t.nodes h, r.count);
    })

touch_node-Represents :
    (o : Option Node) (k : Text) (t : Lru) (xs : List Text)
    → Represents t xs
    → JsMap.get text_discrete k t.nodes ≡ o
    → Represents (touch_node o k t) (k ∷ without k xs)
touch_node-Represents none k t xs r h =
    prepend-Represents k
      (record t { nodes = JsMap.set text_discrete k (record { prev = none; next = none }) t.nodes })
      (without k xs) (fresh-Detached k t xs r h)
touch_node-Represents (some n) k t xs r h =
    prepend-Represents k (unlink k n t) (without k xs) (unlink-Detached k n t xs r h)

-- A touch moves the key to the front of the list, or puts it there.
pub touch-Represents :
    (k : Text) (t : Lru) (xs : List Text)
    → Represents t xs
    → Represents (touch k t) (k ∷ without k xs)
unfolding touch
touch-Represents k t xs r = touch_node-Represents (JsMap.get text_discrete k t.nodes) k t xs r refl

remove_node-Represents :
    (o : Option Node) (k : Text) (t : Lru) (xs : List Text)
    → Represents t xs
    → JsMap.get text_discrete k t.nodes ≡ o
    → Represents (remove_node o k t) (without k xs)
remove_node-Represents none k t xs r h =
    rw (without-NotIn k xs (NotIn-of_none none xs k (sym (r.links k) ∙ h))) r
remove_node-Represents (some n) k t xs r h =
    drop_node-Represents k (unlink k n t) (without k xs) (unlink-Detached k n t xs r h)

-- A removal takes the key out of the list and keeps the order of the others.
pub remove-Represents :
    (k : Text) (t : Lru) (xs : List Text) → Represents t xs → Represents (remove k t) (without k xs)
unfolding remove
remove-Represents k t xs r =
    remove_node-Represents (JsMap.get text_discrete k t.nodes) k t xs r refl

abbrev last_key : List Text → Option Text
last_key xs = last_from none xs

abbrev pub without_last : Option Text → List Text → List Text
without_last none xs = xs
without_last (some k) xs = without k xs

evict_tail-Represents :
    (o : Option Text) (t : Lru) (xs : List Text)
    → Represents t xs
    → Represents (evict_tail o t).0 (without_last o xs) × ((evict_tail o t).1 ≡ o)
evict_tail-Represents none t xs r = (r, refl)
evict_tail-Represents (some k) t xs r =
    (remove_node-Represents (JsMap.get text_discrete k t.nodes) k t xs r refl, refl)

-- An eviction gives the list's last key, the least recently used, and takes it out.
pub evict-Represents :
    (t : Lru) (xs : List Text)
    → Represents t xs
    → Represents (evict t).0 (without_last (last_from none xs) xs)
      × ((evict t).1 ≡ last_from none xs)
unfolding evict
evict-Represents t xs r =
    subst
      (λ o.
        Represents (evict_tail o t).0 (without_last (last_from none xs) xs)
        × ((evict_tail o t).1 ≡ last_from none xs))
      (sym r.back) (evict_tail-Represents (last_from none xs) t xs r)

pub clear-Represents : (t : Lru) → Represents (clear t) []
unfolding clear JsMap.get
clear-Represents t = record {
  unique = tt;
  links = λ q. refl;
  front = refl;
  back = refl;
  distinct = tt;
  count = refl;
}

pub init-Represents : Represents init []
unfolding init JsMap.get
init-Represents = record {
  unique = tt;
  links = λ q. refl;
  front = refl;
  back = refl;
  distinct = tt;
  count = refl;
}
