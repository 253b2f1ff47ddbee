-- ===== src/Cache/Upkeep.antt =====
-- HTTPCache of src/cache.ts beside reads and writes of one entry: revalidation, invalidation,
-- clearing, warming, and the entries that serialize writes and deserialize reads. The text form that
-- JSON gives them is not part of it: an item stands for an element of the parsed array.
use kinetex.Base.{
  ℕ, Bool, true, false, List, [], ◌∷◌, Option, none, some, if◌then◌else◌, Text, codes, is_member,
  text_discrete,
}
use kinetex.JsMap
use kinetex.Numbers.{Number, num, add, at_most}
use kinetex.Cache.Directives.{Headers}
use kinetex.Cache.Freshness.{Entry, Request, Response, Ttl, compute_ttl}
use kinetex.Cache.State.{Config, Cache, lookup, set_delete, set_add}
use kinetex.Cache.Requests.{key_of, touch_key}
use kinetex.Cache.Storing.{capped, etag_of, last_modified_of, set}

-- A header that is there and not empty.
abbrev filled_header : Text → Option Text → Headers → Headers
filled_header name none h = h
filled_header name (some []) h = h
filled_header name (some (c ∷ s)) h = (name, c ∷ s) ∷ h

unfoldable pub build_conditional_headers : Entry → Headers
build_conditional_headers e =
    filled_header (codes "if-none-match") e.etag
      (filled_header (codes "if-modified-since") e.last_modified [])

-- `{ ...old, ...new }`
unfoldable pub merge_headers : Headers → Headers → Headers
unfolding JsMap.set
merge_headers old [] = old
merge_headers old ((k, v) ∷ h) = merge_headers (JsMap.set text_discrete k v old) h

abbrev or_else : Option Text → Option Text → Option Text
or_else none o = o
or_else (some s) o = some s

unfoldable pub refresh : ℕ → Response → Headers → Ttl → Number → Entry → Entry
unfolding etag_of last_modified_of
refresh now res merged t life e = record e {
  response = res;
  created_at = num now;
  expires_at = if at_most life (num 0) then num now else add (num now) life;
  stale_until = add (add (num now) life) t.swr;
  stale_on_error = add (add (num now) life) t.stale_on_error;
  etag = or_else (etag_of merged) e.etag;
  last_modified = or_else (last_modified_of merged) e.last_modified;
}

-- The entry that a 304 response makes of a stored one.
unfoldable pub refreshed : (Text → Number) → ℕ → Config → Response → Entry → Entry
unfolding merge_headers refresh compute_ttl
refreshed parse_date now cfg res e =
    let merged = merge_headers e.response.headers res.headers in
    let updated = record e.response { headers = merged } in
    let t = compute_ttl parse_date now updated cfg.default_ttl cfg.honor_cache_control in
    refresh now updated merged t (capped t.ttl cfg.max_absolute_age) e

unfoldable pub replace_entry : Text → Entry → Cache → Cache
unfolding JsMap.set touch_key
replace_entry key e c =
    touch_key key (record c { storage = JsMap.set text_discrete key e c.storage })

abbrev pub revalidate_found :
    (Text → Number) → ℕ → Text → Response → Option Entry → Cache → Cache × Option Entry
revalidate_found parse_date now key res none c = (c, none)
revalidate_found parse_date now key res (some e) c =
    let updated = refreshed parse_date now c.cfg res e in
    (replace_entry key updated c, some updated)

unfoldable pub revalidate : (Text → Number) → ℕ → Request → Response → Cache → Cache × Option Entry
unfolding lookup refreshed replace_entry
revalidate parse_date now req res c =
    let key = key_of c.cfg req in revalidate_found parse_date now key res (lookup key c) c

unfoldable pub mark_swr_in_flight : Request → Cache → Cache × Bool
mark_swr_in_flight req c =
    let key = key_of c.cfg req in
    if is_member key c.swr_in_flight
    then (c, false)
    else (record c { swr_in_flight = set_add key c.swr_in_flight }, true)

unfoldable pub clear_swr_in_flight : Request → Cache → Cache
unfolding set_delete
clear_swr_in_flight req c = record c {
  swr_in_flight = set_delete (key_of c.cfg req) c.swr_in_flight;
}

unfoldable pub is_swr_in_flight : Request → Cache → Bool
is_swr_in_flight req c = is_member (key_of c.cfg req) c.swr_in_flight

-- A response to store, with its request, its tags, the time and the answer of the storage.
pub record Warm : Type 0 where
  pub req : Request
  pub res : Response
  pub tags : List Text
  pub now : ℕ
  pub accepted : Bool

unfoldable pub warm : (Text → Number) → List Warm → Cache → Cache
unfolding set
warm parse_date [] c = c
warm parse_date (w ∷ ws) c =
    warm parse_date ws
      (set parse_date w.now w.accepted w.req w.res
        (record { tags = w.tags; ttl = none; force = true }) c).0

unfoldable pub reset_stats : Cache → Cache
reset_stats c = record c {
  stats = record c.stats {
    hits = 0;
    misses = 0;
    stale_hits = 0;
    errors = 0;
    evictions = 0;
    hit_rate = (0, 1);
  };
}
