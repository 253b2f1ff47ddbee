-- ===== src/Cache/Shrinking.antt =====
-- The operations of src/cache.ts's HTTPCache that never add to what is stored.
use kinetex.Base.{
  ℕ, ◌≡◌, ◌≤◌, refl, ◌∙◌, Bool, true, false, List, [], ◌∷◌, Option, none, some, Text, arith,
  if◌then◌else◌, text_discrete,
}
use kinetex.JsMap
use kinetex.Numbers.{Number, num, less}
use kinetex.Cache.Freshness.{Entry, Request, Response}
use kinetex.Cache.State.{Cache, delete_entry, lookup}
use kinetex.Cache.Requests.{
  key_of, count_miss, get, get_found, answer_entry, expire, too_old, is_fresh, count_hit,
  count_stale_hit, matches_variant, is_cacheable, touch_key,
}
use kinetex.Cache.Upkeep.{revalidate, revalidate_found, replace_entry}
use kinetex.Cache.Invalidation.{
  delete, delete_found, delete_keys, invalidate_by_tag, invalidate_keys, invalidate_by_url,
  filter_keys, has_url_prefix, stored_keys, clear,
}

pub record Shrinks (c c' : Cache) : Type 0 where
  pub fewer : c'.stats.total_entries ≤ c.stats.total_entries
  pub smaller : c'.stats.total_size_bytes ≤ c.stats.total_size_bytes
  pub settings : c'.cfg ≡ c.cfg

pub Shrinks-self : (c : Cache) → Shrinks c c
Shrinks-self c = record { fewer = omega arith; smaller = omega arith; settings = refl }

Shrinks-trans : (a b c : Cache) → Shrinks a b → Shrinks b c → Shrinks a c
Shrinks-trans a b c r s = record {
  fewer = omega (arith, r.fewer, s.fewer);
  smaller = omega (arith, r.smaller, s.smaller);
  settings = s.settings ∙ r.settings;
}

delete_entry-Shrinks : (k : Text) (o : Option Entry) (c : Cache) → Shrinks c (delete_entry k o c)
unfolding delete_entry
delete_entry-Shrinks k none c = record {
  fewer = omega arith;
  smaller = omega arith;
  settings = refl;
}
delete_entry-Shrinks k (some e) c = record {
  fewer = omega arith;
  smaller = omega arith;
  settings = refl;
}

if-Shrinks :
    {A : Type 0} (c : Cache) (b : Bool) (x y : A × Cache)
    → Shrinks c x.1
    → Shrinks c y.1
    → Shrinks c (if b then x else y).1
if-Shrinks c true x y p q = p
if-Shrinks c false x y p q = q

expire-Shrinks : (k : Text) (e : Entry) (c : Cache) → Shrinks c (expire k e c)
unfolding expire
expire-Shrinks k e c =
    let s = delete_entry-Shrinks k (some e) c in
    record { fewer = s.fewer; smaller = s.smaller; settings = s.settings }

touch_key-Shrinks : (k : Text) (c : Cache) → Shrinks c (touch_key k c)
unfolding touch_key
touch_key-Shrinks k c = record { fewer = omega arith; smaller = omega arith; settings = refl }

hit_touch : (k : Text) (c : Cache) → Shrinks c (touch_key k (count_hit c))
unfolding touch_key
hit_touch k c = record { fewer = omega arith; smaller = omega arith; settings = refl }

stale_touch : (k : Text) (c : Cache) → Shrinks c (touch_key k (count_stale_hit c))
unfolding touch_key
stale_touch k c = record { fewer = omega arith; smaller = omega arith; settings = refl }

miss : (c : Cache) → Shrinks c (count_miss c)
miss c = record { fewer = omega arith; smaller = omega arith; settings = refl }

answer_entry-Shrinks :
    (now : ℕ) (k : Text) (e : Entry) (c : Cache) → Shrinks c (answer_entry now k e c).1
unfolding answer_entry
answer_entry-Shrinks now k e c = if-Shrinks c (too_old c.cfg now e) _ _ (expire-Shrinks k e c) (
    if-Shrinks c (is_fresh now e) _ _ (hit_touch k c) (
      if-Shrinks c (less (num now) e.stale_until) _ _ (stale_touch k c) (
        if-Shrinks c (less (num now) e.stale_on_error) _ _
          (record { fewer = omega arith; smaller = omega arith; settings = refl })
          (expire-Shrinks k e c))))

get_found-Shrinks :
    (now : ℕ) (req : Request) (k : Text) (o : Option Entry) (c : Cache)
    → Shrinks c (get_found now req k o c).1
unfolding get_found
get_found-Shrinks now req k none c = miss c
get_found-Shrinks now req k (some e) c =
    if-Shrinks c (matches_variant e req) _ _ (answer_entry-Shrinks now k e c) (miss c)

pub get-Shrinks : (now : ℕ) (req : Request) (c : Cache) → Shrinks c (get now req c).1
unfolding get
get-Shrinks now req c =
    if-Shrinks c (is_cacheable c.cfg req.method) _ _
      (get_found-Shrinks now req (key_of c.cfg req) (lookup (key_of c.cfg req) c) c)
      (Shrinks-self c)

revalidate_found-Shrinks :
    (parse_date : Text → Number) (now : ℕ) (k : Text) (res : Response) (o : Option Entry)
    (c : Cache)
    → Shrinks c (revalidate_found parse_date now k res o c).0
unfolding replace_entry
revalidate_found-Shrinks parse_date now k res none c = Shrinks-self c
revalidate_found-Shrinks parse_date now k res (some e) c = record {
  fewer = omega arith;
  smaller = omega arith;
  settings = refl;
}

pub revalidate-Shrinks :
    (parse_date : Text → Number) (now : ℕ) (req : Request) (res : Response) (c : Cache)
    → Shrinks c (revalidate parse_date now req res c).0
unfolding revalidate
revalidate-Shrinks parse_date now req res c =
    revalidate_found-Shrinks parse_date now (key_of c.cfg req) res (lookup (key_of c.cfg req) c) c

delete_found-Shrinks : (k : Text) (o : Option Entry) (c : Cache) → Shrinks c (delete_found k o c).0
delete_found-Shrinks k none c = Shrinks-self c
delete_found-Shrinks k (some e) c = delete_entry-Shrinks k (some e) c

pub delete-Shrinks : (req : Request) (c : Cache) → Shrinks c (delete req c).0
unfolding delete
delete-Shrinks req c = delete_found-Shrinks (key_of c.cfg req) (lookup (key_of c.cfg req) c) c

delete_keys-Shrinks : (ks : List Text) (c : Cache) → Shrinks c (delete_keys ks c)
unfolding delete_keys
delete_keys-Shrinks [] c = Shrinks-self c
delete_keys-Shrinks (k ∷ ks) c =
    let d = delete_entry k (lookup k c) c in
    Shrinks-trans c d (delete_keys ks d) (delete_entry-Shrinks k (lookup k c) c)
      (delete_keys-Shrinks ks d)

pub invalidate_by_url-Shrinks :
    (prefix : Text) (c : Cache) → Shrinks c (invalidate_by_url prefix c).0
unfolding invalidate_by_url
invalidate_by_url-Shrinks prefix c =
    delete_keys-Shrinks
      (filter_keys (has_url_prefix c.cfg.namespace prefix) (stored_keys c.storage)) c

invalidate_keys-Shrinks :
    (tag : Text) (o : Option (List Text)) (c : Cache) → Shrinks c (invalidate_keys tag o c).0
invalidate_keys-Shrinks tag none c = Shrinks-self c
invalidate_keys-Shrinks tag (some []) c = Shrinks-self c
invalidate_keys-Shrinks tag (some (k ∷ ks)) c =
    let s = delete_keys-Shrinks (k ∷ ks) c in
    record { fewer = s.fewer; smaller = s.smaller; settings = s.settings }

pub invalidate_by_tag-Shrinks : (tag : Text) (c : Cache) → Shrinks c (invalidate_by_tag tag c).0
unfolding invalidate_by_tag
invalidate_by_tag-Shrinks tag c =
    invalidate_keys-Shrinks tag (JsMap.get text_discrete tag c.tag_index) c

pub clear-Shrinks : (c : Cache) → Shrinks c (clear c)
unfolding clear
clear-Shrinks c = record { fewer = omega arith; smaller = omega arith; settings = refl }
