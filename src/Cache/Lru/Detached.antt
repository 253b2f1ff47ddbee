-- ===== src/Cache/Lru/Detached.antt =====
-- A node out of its place in the linked list of src/cache.ts's LRUTracker: what taking it out and
-- putting it in front do to the links.
use kinetex.Base.{
  ◌≡◌, refl, sym, ◌∙◌, ◌≢◌, List, [], ◌∷◌, Option, none, some, arith, Text, text_discrete, length,
  suc,
}
use kinetex.JsMap
use kinetex.Cache.Lru.{Node, Lru, set_next, set_prev, or_next, write, unlink, prepend, drop_node}
use kinetex.Cache.Lru.Links.{
  first, last_from, node_at, node_at-NotIn, without, NotIn, Unique, relink, node_at_head,
  node_at_tail, at_key_ne,
}
use kinetex.Cache.Lru.Ends.{
  first-head, last-without, NotIn-without_self, Unique-without, prepend_links,
}
use kinetex.Cache.Lru.Writes.{
  get-write, length-update, length-write, length-delete, length-without, Distinct-write, some_ne,
  own-update, own-write, first_ne,
}

-- The list of keys, most recent first, that the tracker holds.
pub record Represents (t : Lru) (xs : List Text) : Type 0 where
  pub unique : Unique xs
  pub links : (q : Text) → JsMap.get text_discrete q t.nodes ≡ node_at none xs q
  pub front : t.head ≡ first xs
  pub back : t.tail ≡ last_from none xs
  pub distinct : JsMap.Distinct text_discrete t.nodes
  pub count : length t.nodes ≡ length xs

-- The same, with one node in the map beside them.
pub record Detached (k : Text) (t : Lru) (xs : List Text) : Type 0 where
  pub unique : Unique xs
  pub outside : NotIn k xs
  pub links : (q : Text) → q ≢ k → JsMap.get text_discrete q t.nodes ≡ node_at none xs q
  pub own : JsMap.get text_discrete k t.nodes ≢ none
  pub front : t.head ≡ first xs
  pub back : t.tail ≡ last_from none xs
  pub distinct : JsMap.Distinct text_discrete t.nodes
  pub count : length t.nodes ≡ suc (length xs)

pub unlink-Detached :
    (k : Text) (n : Node) (t : Lru) (xs : List Text)
    → Represents t xs
    → JsMap.get text_discrete k t.nodes ≡ some n
    → Detached k (unlink k n t) (without k xs)
unfolding unlink
unlink-Detached k n t xs r h =
    let at = sym (r.links k) ∙ h in
    let blank : Node = record { prev = none; next = none } in
    let inner = write n.prev (set_next n.next) t.nodes in
    record {
      unique = Unique-without k xs r.unique;
      outside = NotIn-without_self k xs r.unique;
      links = λ q d.
          rw
            (
              JsMap.get-update_ne text_discrete k q (λ _. blank)
                  (write n.next (set_prev n.prev) inner) d,
              get-write n.next (set_prev n.prev) q inner,
              get-write n.prev (set_next n.next) q t.nodes,
              r.links q,
            )
            (sym (relink none xs k q n r.unique tt at d));
      own =
          some_ne
            (JsMap.get text_discrete k
              (JsMap.update text_discrete k (λ _. blank) (write n.next (set_prev n.prev) inner)))
            (blank)
            (own-update k (blank) (write n.next (set_prev n.prev) inner) (
              own-write n.next (set_prev n.prev) k inner (
                own-write n.prev (set_next n.next) k t.nodes
                  (some_ne (JsMap.get text_discrete k t.nodes) n h))));
      front = rw r.front (sym (first-head xs k n at));
      back = rw r.back (sym (last-without none xs k n at));
      distinct =
          JsMap.Distinct-update text_discrete k (λ _. blank) (write n.next (set_prev n.prev) inner)
            (Distinct-write n.next (set_prev n.prev) inner
              (Distinct-write n.prev (set_next n.next) t.nodes r.distinct));
      count =
          rw
            (
              length-update k (λ _. blank) (write n.next (set_prev n.prev) inner),
              length-write n.next (set_prev n.prev) inner,
              length-write n.prev (set_next n.next) t.nodes,
              r.count,
            )
            (length-without none xs k (some_ne (node_at none xs k) n at));
    }

or_next-last :
    (x : Text) (xs : List Text) (b : Option Text)
    → or_next (last_from (some x) xs) b (last_from (some x) xs) ≡ last_from (some x) xs
or_next-last x [] b = refl
or_next-last x (y ∷ ys) b = or_next-last y ys b

tail_of :
    (k : Text) (xs : List Text)
    → or_next (last_from none xs) (some k) (last_from none xs) ≡ last_from (some k) xs
tail_of k [] = refl
tail_of k (x ∷ xs) = or_next-last x xs (some k)

pub drop_node-Represents :
    (k : Text) (t : Lru) (xs : List Text) → Detached k t xs → Represents (drop_node k t) xs
drop_node-Represents k t xs r = record {
  unique = r.unique;
  links = λ q. elim (text_discrete q k) [
    | yes e ↦ rw (
      e,
      JsMap.get-delete_self text_discrete k t.nodes r.distinct,
      node_at-NotIn none xs k r.outside,
    )
    | no e ↦ JsMap.get-delete_ne text_discrete k q t.nodes e ∙ r.links q e
  ];
  front = r.front;
  back = r.back;
  distinct = JsMap.Distinct-delete text_discrete k t.nodes r.distinct;
  count = ground (arith, r.count, length-delete k t.nodes r.own);
}

pub prepend-Represents :
    (k : Text) (t : Lru) (xs : List Text) → Detached k t xs → Represents (prepend k t) (k ∷ xs)
unfolding prepend
prepend-Represents k t xs r =
    let m = JsMap.update text_discrete k (λ _. record { prev = none; next = t.head }) t.nodes in
    record {
      unique = (r.outside, r.unique);
      links = λ q. get-write t.head (set_prev (some k)) q m ∙ (elim (text_discrete q k) [
        | yes e ↦
            rw
              (
                e,
                own-update k (record { prev = none; next = t.head }) t.nodes r.own,
                r.front,
                at_key_ne (first xs) (set_prev (some k)) k
                    (some (record { prev = none; next = first xs })) (first_ne k xs r.outside),
              )
              (sym (node_at_head none k xs k refl))
        | no e ↦
            rw
              (
                JsMap.get-update_ne text_discrete k q (λ _. record { prev = none; next = t.head })
                    t.nodes e,
                r.links q e,
                r.front,
                node_at_tail none k xs q (λ c. e (sym c)),
              )
              (sym (prepend_links k xs q r.unique))
      ]);
      front = refl;
      back = rw r.back (tail_of k xs);
      distinct = Distinct-write t.head (set_prev (some k)) m (
          JsMap.Distinct-update text_discrete k (λ _. record { prev = none; next = t.head }) t.nodes
            r.distinct);
      count =
          rw
            (
              length-write t.head (set_prev (some k)) m,
              length-update k (λ _. record { prev = none; next = t.head }) t.nodes,
            )
            r.count;
    }
