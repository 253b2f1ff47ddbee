-- ===== src/Cache/Capacity.antt =====
-- The eviction loops of src/cache.ts end, keep the gauges and the tags right, and leave room.
use kinetex.Base.{
  ◌≡◌, refl, sym, ◌∙◌, ◌≢◌, subst, List, [], ◌∷◌, Option, none, some, Text, text_discrete, arith,
  ite,
}
use kinetex.JsMap
use kinetex.Cache.Freshness.{Entry}
use kinetex.Cache.Lru.{Lru, remove}
use kinetex.Cache.Lru.Links.{without, NotIn, last_from}
use kinetex.Cache.Lru.Ends.{NotIn-without, NotIn-without_self, without-NotIn}
use kinetex.Cache.Lru.Detached.{Represents}
use kinetex.Cache.Lru.Refinement.{remove-Represents}
use kinetex.Cache.State.{uncount_entry, drop_tags, Cache, Storage, delete_entry, count_eviction}
use kinetex.Cache.Counts.{Counts, Entries, drop-Counts, gauges-Counts}

-- The entries of a storage but the one that is being replaced.
abbrev pub but : Text → Storage → Entries
but k m q = ite (text_discrete q k) none (JsMap.get text_discrete q m)

pub but_self : (k : Text) (m : Storage) → but k m k ≡ none
unfolding JsMap.get
but_self k m = elim (text_discrete k k) as (λ r. ite r none (JsMap.get text_discrete k m) ≡ none) [
  | yes e ↦ refl
  | no e ↦ absurd (e refl)
]

pub but_ne : (k : Text) (m : Storage) (q : Text) → q ≢ k → but k m q ≡ JsMap.get text_discrete q m
unfolding JsMap.get
but_ne k m q h = ground (arith, h)

but-delete :
    (k y : Text) (m : Storage) (q : Text)
    → q ≢ y
    → but k (JsMap.delete text_discrete y m) q ≡ but k m q
unfolding JsMap.get
but-delete k y m q h =
    elim (text_discrete q k)
      as (λ r.
        ite r none (JsMap.get text_discrete q (JsMap.delete text_discrete y m))
        ≡ ite r none (JsMap.get text_discrete q m)) [
          | yes e ↦ refl
          | no e ↦ JsMap.get-delete_ne text_discrete y q m h
        ]

-- A cache in which the entry of one key is being replaced.
pub record Held (k : Text) (p : Option Entry) (c : Cache) (xs : List Text) : Type 0 where
  pub tracked : Represents c.lru xs
  pub counts : Counts (but k c.storage) c.stats c.tag_index xs
  pub distinct : JsMap.Distinct text_discrete c.storage
  pub kept : JsMap.get text_discrete k c.storage ≡ p
  pub nonempty : NotIn [] xs

pub last_there : (x : Text) (xs : List Text) → ¬ (last_from (some x) xs ≡ none)
last_there x [] h = ground arith
last_there x (y ∷ ys) h = last_there y ys h

pub last_in :
    (p : Option Text) (xs : List Text) (y : Text)
    → p ≢ some y
    → last_from p xs ≡ some y
    → ¬ NotIn y xs
last_in p [] y o h n = o h
last_in p (x ∷ xs) y o h n = last_in (some x) xs y (ground (arith, n.0)) h n.1

-- What an eviction does: the last key goes, with its entry.
pub round-Held :
    (k : Text) (p : Option Entry) (c : Cache) (xs : List Text) (y : Text) (e : Entry) (l : Lru)
    → Held k p c xs
    → Represents l (without y xs)
    → y ≢ k
    → JsMap.get text_discrete y c.storage ≡ some e
    → Held k p (count_eviction (delete_entry y (some e) (record c { lru = l }))) (without y xs)
unfolding delete_entry
round-Held k p c xs y e l h r d g = record {
  tracked =
      subst (Represents (remove y l))
        (without-NotIn y (without y xs) (NotIn-without_self y xs h.counts.unique))
        (remove-Represents y l (without y xs) r);
  counts =
      gauges-Counts (but k (JsMap.delete text_discrete y c.storage)) (uncount_entry e.size c.stats)
        (count_eviction (delete_entry y (some e) (record c { lru = l }))).stats
        (drop_tags y e.tags c.tag_index) (without y xs)
        (drop-Counts (but k c.storage) (but k (JsMap.delete text_discrete y c.storage)) c.stats
          c.tag_index xs y e h.counts (but_ne k c.storage y d ∙ g)
          (but_ne k (JsMap.delete text_discrete y c.storage) y d
            ∙ JsMap.get-delete_self text_discrete y c.storage h.distinct)
          (but-delete k y c.storage))
        refl refl;
  distinct = JsMap.Distinct-delete text_discrete y c.storage h.distinct;
  kept = JsMap.get-delete_ne text_discrete y k c.storage (λ z. d (sym z)) ∙ h.kept;
  nonempty = NotIn-without y [] xs h.nonempty;
}
