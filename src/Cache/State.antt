-- ===== src/Cache/State.antt =====
-- The state of HTTPCache in src/cache.ts over MemoryStorageAdapter, its gauges, its tag index and the
-- eviction loops. The loops run on fuel: one more than the keys of the tracker, of which each round
-- takes one.
use kinetex.Base.{
  ℕ, zero, suc, ◌+◌, ◌-◌, Bool, List, [], ◌∷◌, ◌++◌, Option, none, some, leb, ltb, if◌then◌else◌,
  Text, same, is_member, text_discrete,
}
use kinetex.JsMap
use kinetex.Numbers.{Number}
use kinetex.Cache.Lru.{Lru, remove, evict, size}
use kinetex.Cache.Freshness.{Entry, Request}

pub record Config : Type 0 where
  pub max_entries : ℕ
  pub max_size_bytes : ℕ
  pub max_body_size_bytes : ℕ
  pub default_ttl : Number
  pub max_absolute_age : Number
  pub honor_cache_control : Bool
  pub cache_methods : List Text
  pub cache_statuses : List ℕ
  pub cache_key : Request → Text
  pub namespace : Text

pub record Stats : Type 0 where
  pub hits : ℕ
  pub misses : ℕ
  pub stale_hits : ℕ
  pub errors : ℕ
  pub evictions : ℕ
  pub total_entries : ℕ
  pub total_size_bytes : ℕ
  -- A ratio as its two terms.
  pub hit_rate : ℕ × ℕ

abbrev pub Storage : Type 0
Storage = List (Text × Entry)

-- A `Map` of `Set`s.
abbrev pub TagIndex : Type 0
TagIndex = List (Text × List Text)

pub record Cache : Type 0 where
  pub cfg : Config
  pub storage : Storage
  pub lru : Lru
  pub tag_index : TagIndex
  pub swr_in_flight : List Text
  pub stats : Stats

abbrev pub no_stats : Stats
no_stats = record {
  hits = 0;
  misses = 0;
  stale_hits = 0;
  errors = 0;
  evictions = 0;
  total_entries = 0;
  total_size_bytes = 0;
  hit_rate = (0, 1);
}

-- `Set.add` and `Set.delete`
abbrev pub set_add : Text → List Text → List Text
set_add k xs = if is_member k xs then xs else xs ++ k ∷ []

unfoldable pub set_delete : Text → List Text → List Text
set_delete k [] = []
set_delete k (x ∷ xs) = let rest = set_delete k xs in if same k x then xs else x ∷ rest

abbrev pub set_or_new : Option (List Text) → List Text
set_or_new none = []
set_or_new (some s) = s

unfoldable pub add_tag : Text → Text → TagIndex → TagIndex
unfolding JsMap.get JsMap.set
add_tag key tag idx =
    JsMap.set text_discrete tag (set_add key (set_or_new (JsMap.get text_discrete tag idx))) idx

abbrev pub add_tags : Text → List Text → TagIndex → TagIndex
add_tags key [] idx = idx
add_tags key (t ∷ ts) idx = add_tags key ts (add_tag key t idx)

unfoldable pub drop_tag : Text → Text → TagIndex → TagIndex
unfolding JsMap.update set_delete
drop_tag key tag idx = JsMap.update text_discrete tag (set_delete key) idx

abbrev pub drop_tags : Text → List Text → TagIndex → TagIndex
drop_tags key [] idx = idx
drop_tags key (t ∷ ts) idx = drop_tags key ts (drop_tag key t idx)

-- The key leaves the sets of all tags.
unfoldable pub drop_everywhere : Text → TagIndex → TagIndex
unfolding set_delete
drop_everywhere key [] = []
drop_everywhere key ((t, s) ∷ idx) = (t, set_delete key s) ∷ drop_everywhere key idx

abbrev pub count_entry : ℕ → Stats → Stats
count_entry n s = record s {
  total_entries = s.total_entries + 1;
  total_size_bytes = s.total_size_bytes + n;
}

abbrev pub uncount_entry : ℕ → Stats → Stats
uncount_entry n s = record s {
  total_entries = s.total_entries - 1;
  total_size_bytes = s.total_size_bytes - n;
}

abbrev pub drop_accounts : Text → Option Entry → Cache → Cache
drop_accounts key (some e) c = record c {
  stats = uncount_entry e.size c.stats;
  tag_index = drop_tags key e.tags c.tag_index;
}
drop_accounts key none c = record c { tag_index = drop_everywhere key c.tag_index }

unfoldable pub delete_entry : Text → Option Entry → Cache → Cache
unfolding JsMap.delete remove
delete_entry key e c =
    drop_accounts key e
      (record c { storage = JsMap.delete text_discrete key c.storage; lru = remove key c.lru })

abbrev pub count_eviction : Cache → Cache
count_eviction c = record c { stats = record c.stats { evictions = c.stats.evictions + 1 } }

unfoldable pub lookup : Text → Cache → Option Entry
unfolding JsMap.get
lookup key c = JsMap.get text_discrete key c.storage

-- A round of a loop that evicts, on what the tracker gives: `none` where it gives no key, or the
-- empty one.
unfoldable pub evict_key : Option Text → Lru → Cache → Option Cache
unfolding delete_entry lookup
evict_key none l c = none
evict_key (some []) l c = none
evict_key (some (a ∷ s)) l c =
    some (count_eviction (delete_entry (a ∷ s) (lookup (a ∷ s) c) (record c { lru = l })))

unfoldable pub evict_round : Cache → Option Cache
unfolding evict evict_key
evict_round c = evict_key (evict c.lru).1 (evict c.lru).0 c

-- The cache after a round that ends the loop.
unfoldable pub after_break : Cache → Cache
unfolding evict
after_break c = record c { lru = (evict c.lru).0 }

unfoldable pub evict_while : (Cache → Bool) → ℕ → Cache → Cache
unfolding evict_round after_break
evict_while too_full zero c = c
evict_while too_full (suc fuel) c =
    if too_full c
    then (elim (evict_round c) [ none ↦ after_break c | some c' ↦ evict_while too_full fuel c' ])
    else c

abbrev pub too_many : Cache → Bool
too_many c = leb c.cfg.max_entries c.stats.total_entries

abbrev pub too_large : ℕ → Cache → Bool
too_large n c = ltb c.cfg.max_size_bytes (c.stats.total_size_bytes + n)

unfoldable pub evict_all : (Cache → Bool) → Cache → Cache
unfolding size evict_while
evict_all too_full c = evict_while too_full (size c.lru + 1) c

unfoldable pub ensure_capacity : ℕ → Cache → Cache
unfolding evict_all
ensure_capacity n c = evict_all (too_large n) (evict_all too_many c)
