-- ===== src/Cache/Preserved.antt =====
-- Every operation of src/cache.ts's HTTPCache but deserialize keeps its gauges, its tracker and its
-- tags in agreement with what is stored.
use kinetex.Base.{
  ℕ, ◌≡◌, ◌≤◌, refl, sym, ◌≢◌, subst, Bool, true, false, [], ◌∷◌, Option, none, some, Text, arith,
  text_discrete, if◌then◌else◌,
}
use kinetex.JsMap
use kinetex.Numbers.{Number, num, less}
use kinetex.Cache.Freshness.{Entry, Request, Response}
use kinetex.Cache.Lru.Links.{NotIn, without}
use kinetex.Cache.Lru.Ends.{without-NotIn, NotIn-without}
use kinetex.Cache.Lru.Refinement.{touch-Represents, remove-Represents}
use kinetex.Cache.State.{Cache, Stats, delete_entry, lookup}
use kinetex.Cache.Requests.{
  too_old, is_fresh, count_hit, count_stale_hit, matches_variant, is_cacheable, touch_key, key_of,
  count_miss, get, get_found, answer_entry, expire,
}
use kinetex.Cache.Storing.{Options, set, store_made, make_entry}
use kinetex.Cache.Counts.{drop-Counts, absent-Counts, touch-Counts, gauges-Counts}
use kinetex.Cache.Invariant.{Consistent, stored, store_entry-Consistent}

pub delete_entry-Consistent :
    (k : Text) (o : Option Entry) (c : Cache)
    → Consistent c
    → JsMap.get text_discrete k c.storage ≡ o
    → Consistent (delete_entry k o c)
unfolding delete_entry
delete_entry-Consistent k none c i h = record {
  keys = without k i.keys;
  tracked = remove-Represents k c.lru i.keys i.tracked;
  counts = rw (without-NotIn k i.keys (i.counts.keys_in k h)) (
      absent-Counts (stored c.storage) (stored (JsMap.delete text_discrete k c.storage)) c.stats
        c.tag_index i.keys k i.counts h (JsMap.get-delete_self text_discrete k c.storage i.distinct)
        (λ q. JsMap.get-delete_ne text_discrete k q c.storage));
  distinct = JsMap.Distinct-delete text_discrete k c.storage i.distinct;
  nonempty = NotIn-without k [] i.keys i.nonempty;
}
delete_entry-Consistent k (some e) c i h = record {
  keys = without k i.keys;
  tracked = remove-Represents k c.lru i.keys i.tracked;
  counts =
      drop-Counts (stored c.storage) (stored (JsMap.delete text_discrete k c.storage)) c.stats
        c.tag_index i.keys k e i.counts h
        (JsMap.get-delete_self text_discrete k c.storage i.distinct)
        (λ q. JsMap.get-delete_ne text_discrete k q c.storage);
  distinct = JsMap.Distinct-delete text_discrete k c.storage i.distinct;
  nonempty = NotIn-without k [] i.keys i.nonempty;
}

-- Counters of events do not matter.
pub stats-Consistent :
    (c : Cache) (s : Stats)
    → Consistent c
    → s.total_entries ≡ c.stats.total_entries
    → s.total_size_bytes ≡ c.stats.total_size_bytes
    → Consistent (record c { stats = s })
stats-Consistent c s i a b = record {
  keys = i.keys;
  tracked = i.tracked;
  counts = gauges-Counts (stored c.storage) c.stats s c.tag_index i.keys i.counts a b;
  distinct = i.distinct;
  nonempty = i.nonempty;
}

present_key :
    (k : Text) (c : Cache) (i : Consistent c) → JsMap.get text_discrete k c.storage ≢ none → k ≢ []
present_key k c i h e = h (i.counts.keys_out k (subst (λ v. NotIn v i.keys) (sym e) i.nonempty))

pub touch_key-Consistent :
    (k : Text) (c : Cache)
    → Consistent c
    → JsMap.get text_discrete k c.storage ≢ none
    → Consistent (touch_key k c)
unfolding touch_key
touch_key-Consistent k c i h = record {
  keys = k ∷ without k i.keys;
  tracked = touch-Represents k c.lru i.keys i.tracked;
  counts = touch-Counts (stored c.storage) c.stats c.tag_index i.keys k i.counts h;
  distinct = i.distinct;
  nonempty = (present_key k c i h, NotIn-without k [] i.keys i.nonempty);
}

if-Consistent :
    {A : Type 0} (b : Bool) (x y : A × Cache)
    → Consistent x.1
    → Consistent y.1
    → Consistent (if b then x else y).1
if-Consistent true x y p q = p
if-Consistent false x y p q = q

pub is_some_ne : (o : Option Entry) (e : Entry) → o ≡ some e → o ≢ none
is_some_ne o e h = ground (arith, h)

expire-Consistent :
    (k : Text) (e : Entry) (c : Cache)
    → Consistent c
    → JsMap.get text_discrete k c.storage ≡ some e
    → Consistent (expire k e c)
unfolding expire
expire-Consistent k e c i h =
    let d = delete_entry k (some e) c in
    stats-Consistent d (count_miss d).stats (delete_entry-Consistent k (some e) c i h) refl refl

answer_entry-Consistent :
    (now : ℕ) (k : Text) (e : Entry) (c : Cache)
    → Consistent c
    → JsMap.get text_discrete k c.storage ≡ some e
    → Consistent (answer_entry now k e c).1
unfolding answer_entry
answer_entry-Consistent now k e c i h =
    let there = is_some_ne (JsMap.get text_discrete k c.storage) e h in
    let gone = expire-Consistent k e c i h in
    let stale = stats-Consistent c (count_stale_hit c).stats i refl refl in
    if-Consistent (too_old c.cfg now e) _ _ gone (
      if-Consistent (is_fresh now e) _ _
        (touch_key-Consistent k (count_hit c) (stats-Consistent c (count_hit c).stats i refl refl)
          there)
        (if-Consistent (less (num now) e.stale_until) _ _
          (touch_key-Consistent k (count_stale_hit c) stale there)
          (if-Consistent (less (num now) e.stale_on_error) _ _ stale gone)))

get_found-Consistent :
    (now : ℕ) (req : Request) (k : Text) (o : Option Entry) (c : Cache)
    → Consistent c
    → JsMap.get text_discrete k c.storage ≡ o
    → Consistent (get_found now req k o c).1
unfolding get_found
get_found-Consistent now req k none c i h = stats-Consistent c (count_miss c).stats i refl refl
get_found-Consistent now req k (some e) c i h =
    if-Consistent (matches_variant e req) _ _ (answer_entry-Consistent now k e c i h)
      (stats-Consistent c (count_miss c).stats i refl refl)

-- Looking up a response keeps the cache consistent, on every branch.
pub get-Consistent :
    (now : ℕ) (req : Request) (c : Cache) → Consistent c → Consistent (get now req c).1
unfolding get lookup
get-Consistent now req c i =
    if-Consistent (is_cacheable c.cfg req.method) _ _
      (get_found-Consistent now req (key_of c.cfg req)
        (JsMap.get text_discrete (key_of c.cfg req) c.storage) c i refl)
      i

store_made-Consistent :
    (accepted : Bool) (k : Text) (o : Option Entry) (c : Cache)
    → k ≢ []
    → 1 ≤ c.cfg.max_entries
    → Consistent c
    → Consistent (store_made accepted k o c).0
unfolding store_made
store_made-Consistent accepted k none c n b i = i
store_made-Consistent accepted k (some e) c n b i = store_entry-Consistent accepted k e c n b i

-- Storing a response keeps the cache consistent, whether it is stored, refused by the rules, or
-- refused by the storage.
pub set-Consistent :
    (parse_date : Text → Number) (now : ℕ) (accepted : Bool) (req : Request) (res : Response)
    (opts : Options) (c : Cache)
    → key_of c.cfg req ≢ []
    → 1 ≤ c.cfg.max_entries
    → Consistent c
    → Consistent (set parse_date now accepted req res opts c).0
unfolding set
set-Consistent parse_date now accepted req res opts c n b i =
    store_made-Consistent accepted (key_of c.cfg req) (make_entry parse_date now req res opts c.cfg)
      c n b i
