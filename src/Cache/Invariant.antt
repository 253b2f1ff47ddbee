-- ===== src/Cache/Invariant.antt =====
-- The gauges, the tracker and the tags of src/cache.ts's HTTPCache agree with what is stored, and
-- storing a response keeps them so.
use kinetex.Base.{
  ℕ, ◌+◌, ◌≡◌, ◌≤◌, refl, sym, ◌∙◌, ◌≢◌, subst, Bool, true, false, List, [], ◌∷◌, Option, none,
  some, Text, ite, text_discrete,
}
use kinetex.JsMap
use kinetex.Cache.Freshness.{Entry}
use kinetex.Cache.Lru.{touch, size}
use kinetex.Cache.Lru.Links.{NotIn, without}
use kinetex.Cache.Lru.Ends.{without-NotIn, NotIn-without}
use kinetex.Cache.Lru.Detached.{Represents}
use kinetex.Cache.Lru.Refinement.{touch-Represents, remove-Represents}
use kinetex.Cache.State.{
  evict_while, evict_all, too_many, too_large, Config, Cache, Storage, lookup, ensure_capacity,
}
use kinetex.Cache.Requests.{touch_key}
use kinetex.Cache.Storing.{take_out, put_in, put_back, store_entry}
use kinetex.Cache.Counts.{Counts, Entries, drop-Counts, add-Counts, agree-Counts}
use kinetex.Cache.Capacity.{Held, but, but_self, but_ne}
use kinetex.Cache.Room.{evict_all-Room, evict_all_ends, Fits, ensure_capacity-Fits}

abbrev pub stored : Storage → Entries
stored m q = JsMap.get text_discrete q m

-- The keys of the tracker are those of the storage, none of them empty, the gauges are the number
-- and the sizes of the stored entries, and every tag of a stored entry has its key.
pub record Consistent (c : Cache) : Type 0 where
  pub keys : List Text
  pub tracked : Represents c.lru keys
  pub counts : Counts (stored c.storage) c.stats c.tag_index keys
  pub distinct : JsMap.Distinct text_discrete c.storage
  pub nonempty : NotIn [] keys

but-none :
    (k : Text) (m : Storage)
    → JsMap.get text_discrete k m ≡ none
    → (q : Text) → but k m q ≡ stored m q
unfolding JsMap.get
but-none k m h q =
    elim (text_discrete q k)
      as (λ r. ite r none (JsMap.get text_discrete q m) ≡ JsMap.get text_discrete q m) [
        | yes e ↦ sym (subst (λ v. JsMap.get text_discrete v m ≡ none) (sym e) h)
        | no e ↦ refl
      ]

take_out-Held :
    (k : Text) (o : Option Entry) (c : Cache) (i : Consistent c)
    → JsMap.get text_discrete k c.storage ≡ o
    → Held k o (take_out k o c) (without k i.keys)
unfolding take_out
take_out-Held k none c i h = rw (without-NotIn k i.keys (i.counts.keys_in k h)) (record {
  tracked = i.tracked;
  counts =
      agree-Counts (stored c.storage) (but k c.storage) c.stats c.tag_index i.keys i.counts
        (but-none k c.storage h);
  distinct = i.distinct;
  kept = h;
  nonempty = i.nonempty;
})
take_out-Held k (some p) c i h = record {
  tracked = remove-Represents k c.lru i.keys i.tracked;
  counts =
      drop-Counts (stored c.storage) (but k c.storage) c.stats c.tag_index i.keys k p i.counts h
        (but_self k c.storage) (but_ne k c.storage);
  distinct = i.distinct;
  kept = h;
  nonempty = NotIn-without k [] i.keys i.nonempty;
}

-- What a replacement does to the tracker at its end.
touch-Held :
    (k : Text) (p : Option Entry) (c : Cache) (xs : List Text)
    → Held k p c xs
    → Represents (touch k c.lru) (k ∷ xs)
touch-Held k p c xs h =
    subst (λ ys. Represents (touch k c.lru) (k ∷ ys))
      (without-NotIn k xs (h.counts.keys_in k (but_self k c.storage)))
      (touch-Represents k c.lru xs h.tracked)

put_in-Consistent :
    (k : Text) (p : Option Entry) (e : Entry) (c : Cache) (xs : List Text)
    → k ≢ []
    → Held k p c xs
    → Consistent (put_in k e c)
unfolding put_in touch_key JsMap.get
put_in-Consistent k p e c xs n h = record {
  keys = k ∷ xs;
  tracked = touch-Held k p c xs h;
  counts =
      add-Counts (but k c.storage) (stored (JsMap.set text_discrete k e c.storage)) c.stats
        c.tag_index xs k e h.counts (but_self k c.storage)
        (JsMap.get-set_self text_discrete k e c.storage)
        (λ q d. JsMap.get-set_ne text_discrete k q e c.storage d ∙ sym (but_ne k c.storage q d));
  distinct = JsMap.Distinct-set text_discrete k e c.storage h.distinct;
  nonempty = (n, h.nonempty);
}

put_back-Consistent :
    (k : Text) (p : Option Entry) (c : Cache) (xs : List Text)
    → k ≢ []
    → Held k p c xs
    → Consistent (put_back k p c)
unfolding put_back touch_key
put_back-Consistent k none c xs n h = record {
  keys = xs;
  tracked = h.tracked;
  counts =
      agree-Counts (but k c.storage) (stored c.storage) c.stats c.tag_index xs h.counts
        (λ q. sym (but-none k c.storage h.kept q));
  distinct = h.distinct;
  nonempty = h.nonempty;
}
put_back-Consistent k (some p) c xs n h = record {
  keys = k ∷ xs;
  tracked = touch-Held k (some p) c xs h;
  counts =
      add-Counts (but k c.storage) (stored c.storage) c.stats c.tag_index xs k p h.counts
        (but_self k c.storage) h.kept (λ q d. sym (but_ne k c.storage q d));
  distinct = h.distinct;
  nonempty = (n, h.nonempty);
}

take_out-cfg : (k : Text) (o : Option Entry) (c : Cache) → c.cfg ≡ (take_out k o c).cfg
unfolding take_out
take_out-cfg k none c = refl
take_out-cfg k (some p) c = refl

-- The room that a replacement has before its entry is written.
pub store_room :
    (k : Text) (e : Entry) (c : Cache)
    → Consistent c
    → 1 ≤ c.cfg.max_entries
    → Fits e.size k
        (lookup k c)
        (take_out k (lookup k c) c)
        (ensure_capacity e.size (take_out k (lookup k c) c))
unfolding lookup
store_room k e c i b =
    ensure_capacity-Fits e.size k (lookup k c) (take_out k (lookup k c) c) (without k i.keys)
      (take_out-Held k (lookup k c) c i refl)
      (subst (λ (g : Config). 1 ≤ g.max_entries) (take_out-cfg k (lookup k c) c) b)

pub store_entry-Consistent :
    (accepted : Bool) (k : Text) (e : Entry) (c : Cache)
    → k ≢ []
    → 1 ≤ c.cfg.max_entries
    → Consistent c
    → Consistent (store_entry accepted k e c).0
unfolding store_entry
store_entry-Consistent true k e c n b i =
    let f = store_room k e c i b in
    put_in-Consistent k (lookup k c) e (ensure_capacity e.size (take_out k (lookup k c) c)) f.keys n
      f.held
store_entry-Consistent false k e c n b i =
    let f = store_room k e c i b in
    put_back-Consistent k (lookup k c) (ensure_capacity e.size (take_out k (lookup k c) c)) f.keys n
      f.held

-- While a response is stored in a consistent cache, both eviction loops end by themselves: any number
-- of further rounds leaves their results as they are.
pub ensure_capacity_ends :
    (m n : ℕ) (k : Text) (c : Cache)
    → Consistent c
    → (evict_while too_many
          (m + (size (take_out k (lookup k c) c).lru + 1))
          (take_out k (lookup k c) c)
        ≡ evict_all too_many (take_out k (lookup k c) c))
      × (evict_while
            (too_large n)
            (m + (size (evict_all too_many (take_out k (lookup k c) c)).lru + 1))
            (evict_all too_many (take_out k (lookup k c) c))
          ≡ ensure_capacity n (take_out k (lookup k c) c))
unfolding ensure_capacity lookup
ensure_capacity_ends m n k c i =
    let o = JsMap.get text_discrete k c.storage in
    let t = take_out k o c in
    let h = take_out-Held k o c i refl in
    let r = evict_all-Room too_many k o t (without k i.keys) h in
    (
      evict_all_ends too_many m k o t (without k i.keys) h,
      evict_all_ends (too_large n) m k o (evict_all too_many t) r.keys r.held,
    )
