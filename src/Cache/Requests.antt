-- ===== src/Cache/Requests.antt =====
-- HTTPCache.get, set and revalidate of src/cache.ts. Copies of entries and responses are the values
-- themselves. The answer of the storage to a write is an argument: MemoryStorageAdapter never
-- refuses one, WebStorageAdapter does when its quota is used up.
use kinetex.Base.{
  ℕ, ◌+◌, ◌*◌, Bool, true, false, ◌||◌, [], ◌∷◌, ◌++◌, Option, none, some, ltb, if◌then◌else◌, Text,
  codes, same, is_member, to_upper_text,
}
use kinetex.Numbers.{Number, num, sub, less, is_infinity}
use kinetex.Cache.Lru.{touch}
use kinetex.Cache.Directives.{Headers, header, or_empty, build_vary_key}
use kinetex.Cache.Freshness.{Entry, Request, filled}
use kinetex.Cache.State.{Config, Cache, Stats, no_stats, delete_entry, lookup}

abbrev year : Number
year = num (365 * 24 * 60 * 60 * 1000)

-- A default lifetime above a year is a year.
unfoldable pub create : Config → Cache
create cfg = record {
  cfg = record cfg { default_ttl = if less year cfg.default_ttl then year else cfg.default_ttl };
  storage = [];
  lru = record { nodes = []; head = none; tail = none };
  tag_index = [];
  swr_in_flight = [];
  stats = no_stats;
}

abbrev with_namespace : Text → Text → Text
with_namespace [] base = base
with_namespace (c ∷ s) base = (c ∷ s) ++ b':' ∷ base

abbrev pub key_of : Config → Request → Text
key_of cfg req = with_namespace cfg.namespace (cfg.cache_key req)

unfoldable pub is_cacheable : Config → Text → Bool
unfolding to_upper_text
is_cacheable cfg method = is_member (to_upper_text method) cfg.cache_methods

abbrev update_hit_rate : Stats → Stats
update_hit_rate s =
    let total = s.hits + s.misses + s.stale_hits in
    record s { hit_rate = if ltb 0 total then (s.hits + s.stale_hits, total) else (0, 1) }

abbrev pub count_miss : Cache → Cache
count_miss c = record c { stats = update_hit_rate (record c.stats { misses = c.stats.misses + 1 }) }

abbrev pub count_hit : Cache → Cache
count_hit c = record c { stats = update_hit_rate (record c.stats { hits = c.stats.hits + 1 }) }

abbrev pub count_stale_hit : Cache → Cache
count_stale_hit c = record c {
  stats = update_hit_rate (record c.stats { stale_hits = c.stats.stale_hits + 1 });
}

unfoldable pub touch_key : Text → Cache → Cache
unfolding touch
touch_key k c = record c { lru = touch k c.lru }

unfoldable pub vary_header : Headers → Option Text
unfolding header
vary_header h = header (codes "vary") (codes "Vary") h

-- The Vary key of a request with the fields that a stored response names.
unfoldable pub request_vary_key : Headers → Headers → Option Text
unfolding build_vary_key
request_vary_key stored h = build_vary_key (or_empty (vary_header stored)) h

abbrev pub same_key : Option Text → Text → Bool
same_key none v = false
same_key (some w) v = same w v

-- The comparison of Vary keys, which an entry without one passes.
abbrev pub match_key : Option Text → Option Text → Bool
match_key none k = true
match_key (some v) k = same_key k v

-- Whether an entry stands for the variant that a request asks for.
unfoldable pub matches_variant : Entry → Request → Bool
unfolding request_vary_key
matches_variant e req =
    match_key (filled e.vary_key) (request_vary_key e.response.headers req.headers)

abbrev pub too_old : Config → ℕ → Entry → Bool
too_old cfg now e = less cfg.max_absolute_age (sub (num now) e.created_at)

abbrev pub is_fresh : ℕ → Entry → Bool
is_fresh now e = is_infinity e.expires_at || less (num now) e.expires_at

unfoldable pub expire : Text → Entry → Cache → Cache
unfolding delete_entry
expire key e c = count_miss (delete_entry key (some e) c)

abbrev pub answer_entry : ℕ → Text → Entry → Cache → Option (Entry × Bool) × Cache
answer_entry now key e c =
    if too_old c.cfg now e
    then (none, expire key e c)
    else if is_fresh now e
    then (some (e, e.must_revalidate), touch_key key (count_hit c))
    else if less (num now) e.stale_until
    then (some (e, true), touch_key key (count_stale_hit c))
    else if less (num now) e.stale_on_error
    then (some (e, true), count_stale_hit c)
    else (none, expire key e c)

unfoldable pub get_found : ℕ → Request → Text → Option Entry → Cache → Option (Entry × Bool) × Cache
unfolding matches_variant
get_found now req key none c = (none, count_miss c)
get_found now req key (some e) c =
    if matches_variant e req then answer_entry now key e c else (none, count_miss c)

unfoldable pub get : ℕ → Request → Cache → Option (Entry × Bool) × Cache
unfolding lookup matches_variant
get now req c =
    let key = key_of c.cfg req in
    if is_cacheable c.cfg req.method then get_found now req key (lookup key c) c else (none, c)
