-- ===== src/Cache/Persistence.antt =====
-- The entries that HTTPCache.serialize of src/cache.ts writes and deserialize reads. The text form that
-- JSON gives them is not part of it: an item stands for an element of the parsed array.
use kinetex.Base.{
  ℕ, ◌+◌, Bool, not, ◌&&◌, List, [], ◌∷◌, Option, none, some, leb, ltb, if◌then◌else◌, Text,
  text_discrete, length, ◌⊎◌, inl, inr,
}
use kinetex.JsMap
use kinetex.Numbers.{num, sub, less, is_infinity}
use kinetex.Cache.Freshness.{Entry}
use kinetex.Cache.State.{Config, Cache, Storage, add_tags, count_entry}
use kinetex.Cache.Requests.{touch_key}

-- The test for entries that `serialize` leaves out and `deserialize` skips.
abbrev has_expired : ℕ → Entry → Bool
has_expired now e = not (is_infinity e.expires_at) && less e.expires_at (num now)

abbrev pub serialize_entries : ℕ → Storage → List (Text × Entry)
serialize_entries now [] = []
serialize_entries now ((k, e) ∷ m) =
    let rest = serialize_entries now m in if has_expired now e then rest else (k, e) ∷ rest

unfoldable pub serialize : ℕ → Cache → List (Text × Entry)
serialize now c = serialize_entries now c.storage

-- An element of the array: a pair of a key and an entry of the right shape, or anything else.
abbrev pub Item : Type 0
Item = Option (Text × Entry)

-- What `deserialize` reads: an object of version 1, some other JSON, or no JSON.
pub data Parsed : Type 0 where
  invalid : Parsed
  unexpected : Parsed
  version_1 : List Item → Parsed

pub data DeserializeError : Type 0 where
  invalid_json : DeserializeError
  unexpected_format : DeserializeError

abbrev good_key : Text → Bool
good_key k = ltb 0 (length k) && leb (length k) 2048

abbrev pub is_imported : ℕ → Config → Text → Entry → Bool
is_imported now cfg k e =
    good_key k
    && not (has_expired now e)
    && not (less cfg.max_absolute_age (sub (num now) e.created_at))
    && leb e.size (cfg.max_body_size_bytes + 512)

unfoldable pub import_entry : Text → Entry → Cache → Cache
unfolding JsMap.set touch_key
import_entry k e c = record (touch_key k c) {
  storage = JsMap.set text_discrete k e c.storage;
  stats = count_entry e.size c.stats;
  tag_index = add_tags k e.tags c.tag_index;
}

unfoldable pub import_items : ℕ → List Item → Cache → Cache
unfolding import_entry
import_items now [] c = c
import_items now (none ∷ is) c = import_items now is c
import_items now (some (k, e) ∷ is) c =
    import_items now is (if is_imported now c.cfg k e then import_entry k e c else c)

unfoldable pub deserialize : ℕ → Parsed → Cache → DeserializeError ⊎ Cache
unfolding import_items
deserialize now invalid c = inl invalid_json
deserialize now unexpected c = inl unexpected_format
deserialize now (version_1 items) c = inr (import_items now items c)
