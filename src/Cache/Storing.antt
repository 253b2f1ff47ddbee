-- ===== src/Cache/Storing.antt =====
-- HTTPCache.set of src/cache.ts. The answer of the storage to a write is an argument:
-- MemoryStorageAdapter never refuses one, WebStorageAdapter does when its quota is used up. The call is
-- one step, as it is where nothing else runs at its awaits; overlapping writes are not modelled.
use kinetex.Base.{
  ℕ, ◌+◌, Bool, true, false, not, ◌&&◌, ◌||◌, List, [], ◌∷◌, Option, none, some, ◌==◌, ltb,
  if◌then◌else◌, Text, codes, text_discrete,
}
use kinetex.JsMap
use kinetex.Numbers.{Number, infinity, num, add, at_most, minimum, is_infinity}
use kinetex.Cache.Lru.{remove}
use kinetex.Cache.Directives.{Headers, header, build_vary_key}
use kinetex.Cache.Freshness.{
  Entry, Request, Response, Ttl, compute_ttl, compute_must_revalidate, body_bytes, filled,
}
use kinetex.Cache.State.{
  Config, Cache, add_tags, drop_tags, count_entry, uncount_entry, lookup, ensure_capacity,
}
use kinetex.Cache.Requests.{is_cacheable, key_of, touch_key, vary_header}

pub record Options : Type 0 where
  pub tags : List Text
  pub ttl : Option Number
  pub force : Bool

abbrev pub is_status : ℕ → List ℕ → Bool
is_status s [] = false
is_status s (t ∷ ts) = s == t || is_status s ts

unfoldable pub set_ttl : (Text → Number) → ℕ → Response → Options → Config → Ttl
unfolding compute_ttl
set_ttl parse_date now res opts cfg = elim opts.ttl [
  | none ↦ compute_ttl parse_date now res cfg.default_ttl cfg.honor_cache_control
  | some t ↦ record { ttl = t; swr = num 0; stale_on_error = num 0; should_cache = true }
]

abbrev pub capped : Number → Number → Number
capped ttl cap = minimum (if is_infinity ttl then cap else ttl) cap

unfoldable pub etag_of : Headers → Option Text
unfolding header
etag_of h = header (codes "etag") (codes "ETag") h

unfoldable pub last_modified_of : Headers → Option Text
unfolding header
last_modified_of h = header (codes "last-modified") (codes "Last-Modified") h

-- The Vary key that an entry is stored with: `none` for `Vary: *`.
abbrev pub made_key : Option Text → Headers → Option Text
made_key none h = some []
made_key (some v) h = build_vary_key v h

unfoldable pub stored_vary_key : Headers → Request → Option Text
unfolding build_vary_key vary_header
stored_vary_key h req = made_key (filled (vary_header h)) req.headers

unfoldable pub new_entry : ℕ → Response → Options → Ttl → Number → Text → Entry
unfolding compute_must_revalidate body_bytes
new_entry now res opts t life vary = record {
  response = res;
  created_at = num now;
  expires_at = if is_infinity life then infinity else add (num now) life;
  stale_until = add (add (num now) life) t.swr;
  stale_on_error = add (add (num now) life) t.stale_on_error;
  etag = etag_of res.headers;
  last_modified = last_modified_of res.headers;
  vary_key = some vary;
  must_revalidate = compute_must_revalidate res;
  tags = opts.tags;
  size = body_bytes res.body + 256;
}

unfoldable pub variant_entry : Option Text → ℕ → Response → Options → Ttl → Number → Option Entry
unfolding new_entry
variant_entry none now res opts t life = none
variant_entry (some vary) now res opts t life = some (new_entry now res opts t life vary)

-- The entry that a response is stored as, where it is stored.
unfoldable pub admit_entry : ℕ → Request → Response → Options → Ttl → Config → Option Entry
unfolding body_bytes variant_entry
admit_entry now req res opts t cfg =
    let life = capped t.ttl cfg.max_absolute_age in
    if not t.should_cache && not opts.force
    then none
    else if ltb cfg.max_body_size_bytes (body_bytes res.body)
    then none
    else if at_most life (num 0)
        && at_most t.swr (num 0)
        && at_most t.stale_on_error (num 0)
        && not opts.force
    then none
    else variant_entry (stored_vary_key res.headers req) now res opts t life

unfoldable pub make_entry :
    (Text → Number) → ℕ → Request → Response → Options → Config → Option Entry
unfolding compute_ttl compute_must_revalidate body_bytes build_vary_key
make_entry parse_date now req res opts cfg =
    if not (is_cacheable cfg req.method)
    then none
    else if not (is_status res.status cfg.cache_statuses)
    then none
    else admit_entry now req res opts (set_ttl parse_date now res opts cfg) cfg

-- An entry that is replaced leaves the gauges, the tracker and the tags first.
unfoldable pub take_out : Text → Option Entry → Cache → Cache
unfolding remove
take_out key none c = c
take_out key (some p) c = record c {
  lru = remove key c.lru;
  stats = uncount_entry p.size c.stats;
  tag_index = drop_tags key p.tags c.tag_index;
}

-- And comes back when the storage refuses the new one.
abbrev pub put_back : Text → Option Entry → Cache → Cache
put_back key none c = c
put_back key (some p) c = record (touch_key key c) {
  stats = count_entry p.size c.stats;
  tag_index = add_tags key p.tags c.tag_index;
}

unfoldable pub put_in : Text → Entry → Cache → Cache
unfolding JsMap.set
put_in key e c = record (touch_key key c) {
  storage = JsMap.set text_discrete key e c.storage;
  stats = count_entry e.size c.stats;
  tag_index = add_tags key e.tags c.tag_index;
}

abbrev pub finish_set : Bool → Text → Option Entry → Entry → Cache → Cache × Bool
finish_set accepted key previous e c =
    if accepted then (put_in key e c, true) else (put_back key previous c, false)

-- The part of `set` after the entry is made. The previous entry is what the storage holds.
unfoldable pub store_entry : Bool → Text → Entry → Cache → Cache × Bool
unfolding lookup ensure_capacity
store_entry accepted key e c =
    let previous = lookup key c in
    finish_set accepted key previous e (ensure_capacity e.size (take_out key previous c))

unfoldable pub store_made : Bool → Text → Option Entry → Cache → Cache × Bool
unfolding store_entry
store_made accepted key none c = (c, false)
store_made accepted key (some e) c = store_entry accepted key e c

unfoldable pub set :
    (Text → Number) → ℕ → Bool → Request → Response → Options → Cache → Cache × Bool
unfolding make_entry store_entry
set parse_date now accepted req res opts c =
    store_made accepted (key_of c.cfg req) (make_entry parse_date now req res opts c.cfg) c
