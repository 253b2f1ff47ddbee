-- ===== src/Tests/Caches.antt =====
-- Runs of the HTTP cache, and its theorems at concrete caches.
use kinetex.Base.{
  ℕ, ◌≡◌, refl, List, [], ◌∷◌, none, some, arith, length, text_discrete, codes, Text, true, false,
  ℕ_discrete, to_lower_text, to_upper_text, min, ltb, if◌then◌else◌, is_member, ◌+◌,
}
use kinetex.JsMap
use kinetex.Numbers.{Number, nan, num}
use kinetex.Strings.{trim_start, trim_end, trim, split, join, cut, parse_int}
use kinetex.Cache.Lru
use kinetex.Cache.Lru.History.{touched, removed, evicted, cleared, run_as_list, list_run}
use kinetex.Cache.Lru.History as Keys
use kinetex.Cache.Directives.{
  no_directives, read_part, put_directive, parse_cache_control, header, field_part, build_vary_key,
}
use kinetex.Cache.Freshness
use kinetex.Cache.Freshness.{Entry, Request, Response, no_body, text_body}
use kinetex.Cache.State
use kinetex.Cache.State.{Config, Cache}
use kinetex.Cache.Requests
use kinetex.Cache.Requests.{create, get}
use kinetex.Cache.Storing.{Options, set, make_entry}
use kinetex.Cache.Storing
use kinetex.Cache.Persistence
use kinetex.Cache.Invalidation
use kinetex.Cache.History.{Sound, Good, Call, run, step, run_keeps, written, looked_up}
use kinetex.Cache.Invariant.{Consistent, ensure_capacity_ends}
use kinetex.Cache.TagInvalidation.{invalidate_by_tag_removes}
use kinetex.Cache.Lifetime.{set_then_get}
use kinetex.Cache.Refusals.{set_forbidden, set_refused, part_names}

program : Unit {0}
unfolding JsMap.get JsMap.set JsMap.delete JsMap.update text_discrete ℕ_discrete to_lower_text
    to_upper_text trim_start trim_end trim split join cut parse_int Lru.init Lru.unlink Lru.prepend
    Lru.touch Lru.remove Lru.evict Lru.clear Lru.size read_part put_directive parse_cache_control
    header field_part build_vary_key Freshness.compute_must_revalidate Freshness.age_of
    Freshness.undirected_ttl Freshness.compute_ttl Freshness.body_bytes State.set_delete
    State.add_tag State.drop_tag State.drop_everywhere State.delete_entry State.lookup
    State.evict_key State.evict_round State.after_break State.evict_while State.evict_all
    State.ensure_capacity create Requests.is_cacheable Requests.touch_key Requests.request_vary_key
    Requests.matches_variant Requests.expire Requests.get_found get Storing.set_ttl Storing.etag_of
    Storing.last_modified_of Storing.stored_vary_key Storing.new_entry Storing.variant_entry
    Storing.admit_entry make_entry Storing.take_out Storing.put_in Storing.store_entry
    Storing.store_made set Invalidation.delete_keys Invalidation.invalidate_by_tag
    Persistence.import_entry Persistence.import_items Persistence.deserialize run step part_names
program = tt

-- The tracker at three keys: `a` is used again, so that `b` is the least recently used.
abbrev calls_of_keys : List Keys.Call
calls_of_keys =
    touched (codes "a")
    ∷ touched (codes "b")
    ∷ touched (codes "c")
    ∷ touched (codes "a")
    ∷ evicted
    ∷ removed (codes "c")
    ∷ evicted
    ∷ evicted
    ∷ []

run_as_list_example : Keys.run calls_of_keys Lru.init ≡ list_run calls_of_keys []
run_as_list_example = run_as_list calls_of_keys

evicted_keys :
    Keys.run calls_of_keys Lru.init
    ≡ (none, 1)
      ∷ (none, 2)
      ∷ (none, 3)
      ∷ (none, 3)
      ∷ (some (codes "b"), 2)
      ∷ (none, 1)
      ∷ (some (codes "a"), 0)
      ∷ (none, 0)
      ∷ []
unfolding program
evicted_keys = refl

abbrev by_url : Request → Text
by_url req = b'K' ∷ req.url

-- Two entries, each of at most 1,256 bytes.
abbrev two_entries : Config
two_entries = record {
  max_entries = 2;
  max_size_bytes = 2600;
  max_body_size_bytes = 1000;
  default_ttl = num 60000;
  max_absolute_age = num 604800000;
  honor_cache_control = true;
  cache_methods = codes "GET" ∷ [];
  cache_statuses = 200 ∷ [];
  cache_key = by_url;
  namespace = [];
}

abbrev no_date : Text → Number
no_date s = nan

abbrev asks : Text → Request
asks url = record { url = url; method = codes "get"; headers = [] }

abbrev says : List (Text × Text) → Response
says headers = record {
  status = 200;
  status_text = codes "OK";
  headers = headers;
  body = text_body (codes "body");
}

abbrev lasting : ℕ → List Text → Options
lasting t tags = record { tags = tags; ttl = some (num t); force = false }

abbrev plain_options : Options
plain_options = record { tags = []; ttl = none; force = false }

two_entries-Sound : Sound (create two_entries).cfg
unfolding program
two_entries-Sound = record {
  some_entries = ground arith;
  large_enough = ground arith;
  keyed = λ req e. ground (arith, e);
}

abbrev writes : Call
writes = written 1000 true (asks (codes "/a")) (says []) (lasting 500 (codes "t" ∷ []))

abbrev some_calls : List Call
some_calls =
    writes
    ∷ written 1001 true (asks (codes "/b")) (says []) (lasting 500 (codes "t" ∷ codes "u" ∷ []))
    ∷ looked_up 1002 (asks (codes "/a"))
    ∷ written 1003 true (asks (codes "/c")) (says []) (lasting 500 (codes "u" ∷ []))
    ∷ []

run_keeps_example : Good (create two_entries).cfg (run no_date some_calls (create two_entries))
run_keeps_example = run_keeps no_date some_calls two_entries two_entries-Sound

abbrev filled_cache : Cache
unfolding program
filled_cache = run no_date some_calls (create two_entries)

-- The entry that was not looked up made room.
filled_cache_gauges :
    (filled_cache.stats.total_entries ≡ 2)
    × (filled_cache.stats.total_size_bytes ≡ 520)
    × (filled_cache.stats.evictions ≡ 1)
    × (filled_cache.stats.hits ≡ 1)
    × (State.lookup (codes "K/b") filled_cache ≡ none)
unfolding program
filled_cache_gauges = (refl, refl, refl, refl, refl)

filled_cache-Consistent : Consistent filled_cache
unfolding program
filled_cache-Consistent = run_keeps_example.consistent

ensure_capacity_ends_example :
    let c = Storing.take_out (codes "K/a") (State.lookup (codes "K/a") filled_cache) filled_cache in
    (State.evict_while State.too_many (3 + (Lru.size c.lru + 1)) c
      ≡ State.evict_all State.too_many c)
    × (State.evict_while
          (State.too_large 260)
          (3 + (Lru.size (State.evict_all State.too_many c).lru + 1))
          (State.evict_all State.too_many c)
        ≡ State.ensure_capacity 260 c)
ensure_capacity_ends_example =
    ensure_capacity_ends 3 260 (codes "K/a") filled_cache filled_cache-Consistent

abbrev entry_at : ℕ → ℕ → List Text → Entry
entry_at now x tags = record {
  response = says [];
  created_at = num now;
  expires_at = num x;
  stale_until = num x;
  stale_on_error = num x;
  etag = none;
  last_modified = none;
  vary_key = some [];
  must_revalidate = false;
  tags = tags;
  size = 260;
}

invalidate_by_tag_removes_example : is_member (codes "t") (codes "u" ∷ []) ≡ false
unfolding program
invalidate_by_tag_removes_example =
    invalidate_by_tag_removes (codes "t") (codes "K/c") (entry_at 1003 1503 (codes "u" ∷ []))
      filled_cache filled_cache-Consistent refl

set_then_get_example :
    (get 1200
      (asks (codes "/d"))
      (set no_date 1010 true (asks (codes "/d")) (says []) (lasting 300 []) filled_cache).0).0
    ≡ (if ltb 1200 (1010 + min 300 604800000) then some (entry_at 1010 1310 [], false) else none)
unfolding program
set_then_get_example =
    set_then_get no_date 1010 1200 300 604800000 (asks (codes "/d")) (says []) (lasting 300 [])
      filled_cache (entry_at 1010 1310 []) filled_cache-Consistent (ground arith) refl refl refl
      (ground arith)

abbrev for_one_user : Response
for_one_user = says ((codes "cache-control", codes "max-age=60, Private") ∷ [])

set_forbidden_example :
    set no_date 1010 true (asks (codes "/d")) for_one_user plain_options filled_cache
    ≡ (filled_cache, false)
unfolding program
set_forbidden_example =
    set_forbidden no_date 1010 true (asks (codes "/d")) for_one_user plain_options filled_cache refl
      refl refl refl

set_refused_example :
    let r = set no_date 1010 false (asks (codes "/a")) (says []) (lasting 300 []) filled_cache in
    (r.1 ≡ false) × (State.lookup (codes "K/a") r.0 ≡ State.lookup (codes "K/a") filled_cache)
unfolding program
set_refused_example =
    set_refused no_date 1010 (asks (codes "/a")) (says []) (lasting 300 []) filled_cache
      filled_cache-Consistent (ground arith)

-- An entry that is read back while its key is stored is counted twice.
abbrev reads_back : Cache
unfolding program
reads_back =
    Persistence.import_items 1100 (some (codes "K/a", entry_at 1000 1500 (codes "t" ∷ [])) ∷ [])
      filled_cache

reads_back_twice : (reads_back.stats.total_entries ≡ 3) × (length reads_back.storage ≡ 2)
unfolding program
reads_back_twice = (refl, refl)

directives :
    parse_cache_control (codes " Max-Age=\"60\" , no-cache,stale-if-error=5")
    ≡ record no_directives {
      max_age = some (num 60);
      no_cache = true;
      stale_if_error = some (num 5);
    }
unfolding program
directives = refl

vary_key :
    build_vary_key
      (codes "Accept, X-B")
      ((codes "x-b", codes "1") ∷ (codes "accept", codes "*/*") ∷ [])
    ≡ some (codes "accept=*/*;x-b=1")
unfolding program
vary_key = refl

url_prefix :
    Invalidation.has_url_prefix
      (codes "ns")
      (codes "http://a/b/")
      (codes "ns:GET:http://a/b/c:auth:00")
    ≡ true
unfolding program Invalidation.has_url_prefix
url_prefix = refl
