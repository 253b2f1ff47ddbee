-- ===== src/Cache/Invalidation.antt =====
-- Deletion, invalidation by tag and by URL, and clearing in HTTPCache of src/cache.ts.
use kinetex.Base.{
  ℕ, Bool, true, false, ◌||◌, List, [], ◌∷◌, ◌++◌, Option, none, some, ◌==◌, if◌then◌else◌, Text,
  codes, starts_with, text_discrete, length, drop,
}
use kinetex.JsMap
use kinetex.Strings.{cut}
use kinetex.Cache.Lru
use kinetex.Cache.Freshness.{Entry, Request}
use kinetex.Cache.State.{Cache, Storage, delete_entry, lookup}
use kinetex.Cache.Requests.{key_of}

abbrev pub delete_found : Text → Option Entry → Cache → Cache × Bool
delete_found key none c = (c, false)
delete_found key (some e) c = (delete_entry key (some e) c, true)

unfoldable pub delete : Request → Cache → Cache × Bool
unfolding lookup delete_entry
delete req c = let key = key_of c.cfg req in delete_found key (lookup key c) c

-- Deletes keys one after the other, each with the entry that it has by then.
unfoldable pub delete_keys : List Text → Cache → Cache
unfolding lookup delete_entry
delete_keys [] c = c
delete_keys (k ∷ ks) c = delete_keys ks (delete_entry k (lookup k c) c)

-- `slice(0, -1)` where a text ends in a slash
abbrev strip_slash : Text → Text
strip_slash [] = []
strip_slash (c ∷ []) = if c == b'/' then [] else c ∷ []
strip_slash (c ∷ d ∷ s) = c ∷ strip_slash (d ∷ s)

abbrev auth_mark : Text
auth_mark = codes ":auth:"

abbrev has_mark : Text → Bool
has_mark [] = starts_with [] auth_mark
has_mark (c ∷ s) = starts_with (c ∷ s) auth_mark || has_mark s

-- The part before the last mark of a fingerprint.
abbrev before_auth : Text → Text
before_auth [] = []
before_auth (c ∷ s) =
    let rest = before_auth s in
    if has_mark s then c ∷ rest else if starts_with (c ∷ s) auth_mark then [] else c ∷ rest

abbrev bare_key : Text → Text → Option Text
bare_key [] key = some key
bare_key (c ∷ s) key =
    let prefix = (c ∷ s) ++ b':' ∷ [] in
    if starts_with key prefix then some (drop (length prefix) key) else none

-- Whether a key stands for a URL with a prefix.
unfoldable pub has_url_prefix : Text → Text → Text → Bool
unfolding cut
has_url_prefix namespace prefix key = elim (bare_key namespace key) [
  | none ↦ false
  | some bare ↦ elim (cut b':' bare) [
    | none ↦ false
    | some (method, url) ↦ starts_with (strip_slash (before_auth url)) (strip_slash prefix)
  ]
]

abbrev pub filter_keys : (Text → Bool) → List Text → List Text
filter_keys p [] = []
filter_keys p (k ∷ ks) = let rest = filter_keys p ks in if p k then k ∷ rest else rest

abbrev pub stored_keys : Storage → List Text
stored_keys [] = []
stored_keys ((k, e) ∷ m) = k ∷ stored_keys m

unfoldable pub invalidate_by_url : Text → Cache → Cache × ℕ
unfolding delete_keys has_url_prefix
invalidate_by_url prefix c =
    let keys = filter_keys (has_url_prefix c.cfg.namespace prefix) (stored_keys c.storage) in
    (delete_keys keys c, length keys)

abbrev pub invalidate_keys : Text → Option (List Text) → Cache → Cache × ℕ
invalidate_keys tag none c = (c, 0)
invalidate_keys tag (some []) c = (c, 0)
invalidate_keys tag (some (k ∷ ks)) c =
    let after = delete_keys (k ∷ ks) c in
    (record after { tag_index = JsMap.delete text_discrete tag after.tag_index }, length (k ∷ ks))

unfoldable pub invalidate_by_tag : Text → Cache → Cache × ℕ
unfolding delete_keys JsMap.get JsMap.delete
invalidate_by_tag tag c = invalidate_keys tag (JsMap.get text_discrete tag c.tag_index) c

unfoldable pub clear : Cache → Cache
unfolding Lru.clear
clear c = record c {
  storage = [];
  lru = Lru.clear c.lru;
  tag_index = [];
  swr_in_flight = [];
  stats = record c.stats { total_entries = 0; total_size_bytes = 0 };
}
