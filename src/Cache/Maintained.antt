-- ===== src/Cache/Maintained.antt =====
-- Revalidation, deletion, invalidation by URL and clearing in src/cache.ts keep the gauges, the tracker
-- and the tags in agreement with what is stored.
use kinetex.Base.{ℕ, ◌≡◌, refl, List, [], ◌∷◌, Option, none, some, Text, arith, text_discrete}
use kinetex.JsMap
use kinetex.Numbers.{Number}
use kinetex.Cache.Freshness.{Entry, Request, Response}
use kinetex.Cache.Lru
use kinetex.Cache.Lru.Refinement.{clear-Represents}
use kinetex.Cache.State.{Config, Cache, delete_entry, lookup}
use kinetex.Cache.Requests.{create, key_of}
use kinetex.Cache.Upkeep.{refresh, refreshed, replace_entry, revalidate, revalidate_found}
use kinetex.Cache.Invalidation.{
  filter_keys, has_url_prefix, stored_keys, delete, delete_found, delete_keys, invalidate_by_url,
  clear,
}
use kinetex.Cache.Counts.{replace-Counts}
use kinetex.Cache.Invariant.{Consistent, stored}
use kinetex.Cache.Preserved.{delete_entry-Consistent, is_some_ne, touch_key-Consistent}

replace_entry-Consistent :
    (k : Text) (e d : Entry) (c : Cache)
    → Consistent c
    → JsMap.get text_discrete k c.storage ≡ some e
    → d.size ≡ e.size
    → d.tags ≡ e.tags
    → Consistent (replace_entry k d c)
unfolding replace_entry
replace_entry-Consistent k e d c i h z t =
    let m = JsMap.set text_discrete k d c.storage in
    let written : Consistent (record c { storage = m }) = record {
      keys = i.keys;
      tracked = i.tracked;
      counts =
          replace-Counts (stored c.storage) (stored m) c.stats c.tag_index i.keys k e d i.counts h
            (JsMap.get-set_self text_discrete k d c.storage) z t
            (λ q. JsMap.get-set_ne text_discrete k q d c.storage);
      distinct = JsMap.Distinct-set text_discrete k d c.storage i.distinct;
      nonempty = i.nonempty;
    } in
    touch_key-Consistent k (record c { storage = m }) written
      (is_some_ne (JsMap.get text_discrete k m) d (JsMap.get-set_self text_discrete k d c.storage))

revalidate_found-Consistent :
    (parse_date : Text → Number) (now : ℕ) (k : Text) (res : Response) (o : Option Entry)
    (c : Cache)
    → Consistent c
    → JsMap.get text_discrete k c.storage ≡ o
    → Consistent (revalidate_found parse_date now k res o c).0
unfolding revalidate_found refreshed refresh
revalidate_found-Consistent parse_date now k res none c i h = i
revalidate_found-Consistent parse_date now k res (some e) c i h =
    replace_entry-Consistent k e (refreshed parse_date now c.cfg res e) c i h refl refl

pub revalidate-Consistent :
    (parse_date : Text → Number) (now : ℕ) (req : Request) (res : Response) (c : Cache)
    → Consistent c
    → Consistent (revalidate parse_date now req res c).0
unfolding revalidate lookup
revalidate-Consistent parse_date now req res c i =
    revalidate_found-Consistent parse_date now (key_of c.cfg req) res
      (JsMap.get text_discrete (key_of c.cfg req) c.storage) c i refl

delete_found-Consistent :
    (k : Text) (o : Option Entry) (c : Cache)
    → Consistent c
    → JsMap.get text_discrete k c.storage ≡ o
    → Consistent (delete_found k o c).0
delete_found-Consistent k none c i h = i
delete_found-Consistent k (some e) c i h = delete_entry-Consistent k (some e) c i h

pub delete-Consistent : (req : Request) (c : Cache) → Consistent c → Consistent (delete req c).0
unfolding delete lookup
delete-Consistent req c i =
    delete_found-Consistent (key_of c.cfg req)
      (JsMap.get text_discrete (key_of c.cfg req) c.storage) c i refl

pub delete_keys-Consistent :
    (ks : List Text) (c : Cache) → Consistent c → Consistent (delete_keys ks c)
unfolding delete_keys lookup
delete_keys-Consistent [] c i = i
delete_keys-Consistent (k ∷ ks) c i =
    delete_keys-Consistent ks (delete_entry k (JsMap.get text_discrete k c.storage) c)
      (delete_entry-Consistent k (JsMap.get text_discrete k c.storage) c i refl)

pub invalidate_by_url-Consistent :
    (prefix : Text) (c : Cache) → Consistent c → Consistent (invalidate_by_url prefix c).0
unfolding invalidate_by_url
invalidate_by_url-Consistent prefix c i =
    delete_keys-Consistent
      (filter_keys (has_url_prefix c.cfg.namespace prefix) (stored_keys c.storage)) c i

pub clear-Consistent : (c : Cache) → Consistent (clear c)
unfolding clear JsMap.get
clear-Consistent c = record {
  keys = [];
  tracked = clear-Represents c.lru;
  counts = record {
    unique = tt;
    keys_in = λ q h. tt;
    keys_out = λ q h. refl;
    entries = refl;
    bytes = refl;
    tagged = λ q t e h m. ground (arith, h);
  };
  distinct = tt;
  nonempty = tt;
}

pub create-Consistent : (cfg : Config) → Consistent (create cfg)
unfolding create clear Lru.clear
create-Consistent cfg = clear-Consistent (create cfg)
