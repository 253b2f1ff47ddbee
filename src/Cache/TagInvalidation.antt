-- ===== src/Cache/TagInvalidation.antt =====
-- Invalidation by tag in src/cache.ts: no entry with the tag is left.
use kinetex.Base.{
  ◌≡◌, refl, sym, ap, ◌∙◌, subst, true, false, List, [], ◌∷◌, Option, none, some, Text, is_member,
  same, same_iff, arith, inl, inr, text_discrete, Bool-cases,
}
use kinetex.JsMap
use kinetex.Cache.Freshness.{Entry}
use kinetex.Cache.State.{Cache, set_or_new, delete_entry, lookup}
use kinetex.Cache.Invalidation.{delete_keys, invalidate_by_tag, invalidate_keys}
use kinetex.Cache.Tags.{members}
use kinetex.Cache.Invariant.{Consistent}
use kinetex.Cache.Preserved.{delete_entry-Consistent}
use kinetex.Cache.Maintained.{delete_keys-Consistent}

delete_entry-storage :
    (k : Text) (o : Option Entry) (c : Cache)
    → (delete_entry k o c).storage ≡ JsMap.delete text_discrete k c.storage
unfolding delete_entry
delete_entry-storage k none c = refl
delete_entry-storage k (some e) c = refl

-- A key that has no entry gets none by deletions.
absent_after :
    (q : Text) (ks : List Text) (c : Cache)
    → JsMap.get text_discrete q c.storage ≡ none
    → JsMap.get text_discrete q (delete_keys ks c).storage ≡ none
unfolding delete_keys lookup
absent_after q [] c h = h
absent_after q (k ∷ ks) c h =
    absent_after q ks (delete_entry k (JsMap.get text_discrete k c.storage) c) (
      rw (delete_entry-storage k (JsMap.get text_discrete k c.storage) c)
        (JsMap.get-delete-none text_discrete q k c.storage h))

gone_after :
    (q : Text) (ks : List Text) (c : Cache)
    → Consistent c
    → is_member q ks ≡ true
    → JsMap.get text_discrete q (delete_keys ks c).storage ≡ none
unfolding delete_keys lookup
gone_after q [] c i h = ground arith
gone_after q (k ∷ ks) c i h =
    let c' = delete_entry k (JsMap.get text_discrete k c.storage) c in
    elim (Bool-cases (same q k)) [
      | inl e ↦ absent_after q ks c' (
          rw (delete_entry-storage k (JsMap.get text_discrete k c.storage) c, same_iff q k e)
            (JsMap.get-delete_self text_discrete k c.storage i.distinct))
      | inr e ↦
          gone_after q ks c'
            (delete_entry-Consistent k (JsMap.get text_discrete k c.storage) c i refl)
            (ground (arith, h, e))
    ]

kept_before :
    (q : Text) (e : Entry) (ks : List Text) (c : Cache)
    → Consistent c
    → JsMap.get text_discrete q (delete_keys ks c).storage ≡ some e
    → JsMap.get text_discrete q c.storage ≡ some e
unfolding delete_keys lookup
kept_before q e [] c i h = h
kept_before q e (k ∷ ks) c i h =
    let c' = delete_entry k (JsMap.get text_discrete k c.storage) c in
    let g =
      subst (λ m. JsMap.get text_discrete q m ≡ some e)
        (delete_entry-storage k (JsMap.get text_discrete k c.storage) c)
        (kept_before q e ks c'
          (delete_entry-Consistent k (JsMap.get text_discrete k c.storage) c i refl) h) in
    elim (text_discrete q k) [
      | yes z ↦ absurd (
          ground (
            arith,
            g,
            subst (λ v. JsMap.get text_discrete v (JsMap.delete text_discrete k c.storage) ≡ none)
                (sym z) (JsMap.get-delete_self text_discrete k c.storage i.distinct),
          ))
      | no z ↦ sym (JsMap.get-delete_ne text_discrete k q c.storage z) ∙ g
    ]

-- After the keys of a tag are deleted, no entry has it.
tag_gone :
    (tag q : Text) (e : Entry) (c : Cache)
    → Consistent c
    → JsMap.get text_discrete q (delete_keys (members c.tag_index tag) c).storage ≡ some e
    → is_member tag e.tags ≡ false
tag_gone tag q e c i h = elim (Bool-cases (is_member tag e.tags)) [
  | inr z ↦ z
  | inl z ↦ absurd (
      ground (
        arith,
        h,
        gone_after q (members c.tag_index tag) c i
            (i.counts.tagged q tag e (kept_before q e (members c.tag_index tag) c i h) z),
      ))
]

invalidate_keys-Consistent :
    (tag : Text) (o : Option (List Text)) (c : Cache)
    → Consistent c
    → JsMap.get text_discrete tag c.tag_index ≡ o
    → Consistent (invalidate_keys tag o c).0
unfolding JsMap.get
invalidate_keys-Consistent tag none c i h = i
invalidate_keys-Consistent tag (some []) c i h = i
invalidate_keys-Consistent tag (some (k ∷ ks)) c i h =
    let after = delete_keys (k ∷ ks) c in
    let j = delete_keys-Consistent (k ∷ ks) c i in
    record {
      keys = j.keys;
      tracked = j.tracked;
      counts = record {
        unique = j.counts.unique;
        keys_in = j.counts.keys_in;
        keys_out = j.counts.keys_out;
        entries = j.counts.entries;
        bytes = j.counts.bytes;
        tagged = λ q t e w m. elim (text_discrete t tag) [
          | yes z ↦ absurd (
              ground (
                arith,
                subst (λ u. is_member u e.tags ≡ true) z m,
                tag_gone tag q e c i (
                    subst (λ xs. JsMap.get text_discrete q (delete_keys xs c).storage ≡ some e)
                      (sym (ap set_or_new h)) w),
              ))
          | no z ↦
              rw (ap set_or_new (JsMap.get-delete_ne text_discrete tag t after.tag_index z))
                (j.counts.tagged q t e w m)
        ];
      };
      distinct = j.distinct;
      nonempty = j.nonempty;
    }

pub invalidate_by_tag-Consistent :
    (tag : Text) (c : Cache) → Consistent c → Consistent (invalidate_by_tag tag c).0
unfolding invalidate_by_tag
invalidate_by_tag-Consistent tag c i =
    invalidate_keys-Consistent tag (JsMap.get text_discrete tag c.tag_index) c i refl

unused_tag :
    (tag q : Text) (e : Entry) (c : Cache)
    → Consistent c
    → members c.tag_index tag ≡ []
    → JsMap.get text_discrete q c.storage ≡ some e
    → is_member tag e.tags ≡ false
unused_tag tag q e c i n h = elim (Bool-cases (is_member tag e.tags)) [
  | inr z ↦ z
  | inl z ↦
      absurd (ground (arith, subst (λ xs. is_member q xs ≡ true) n (i.counts.tagged q tag e h z)))
]

invalidate_keys_removes :
    (tag q : Text) (e : Entry) (o : Option (List Text)) (c : Cache)
    → Consistent c
    → JsMap.get text_discrete tag c.tag_index ≡ o
    → JsMap.get text_discrete q (invalidate_keys tag o c).0.storage ≡ some e
    → is_member tag e.tags ≡ false
unfolding JsMap.get
invalidate_keys_removes tag q e none c i h w = unused_tag tag q e c i (ap set_or_new h) w
invalidate_keys_removes tag q e (some []) c i h w = unused_tag tag q e c i (ap set_or_new h) w
invalidate_keys_removes tag q e (some (k ∷ ks)) c i h w = tag_gone tag q e c i (
    subst (λ xs. JsMap.get text_discrete q (delete_keys xs c).storage ≡ some e)
      (sym (ap set_or_new h)) w)

-- After an invalidation by a tag on a consistent cache, no stored entry has the tag.
pub invalidate_by_tag_removes :
    (tag q : Text) (e : Entry) (c : Cache)
    → Consistent c
    → JsMap.get text_discrete q (invalidate_by_tag tag c).0.storage ≡ some e
    → is_member tag e.tags ≡ false
unfolding invalidate_by_tag
invalidate_by_tag_removes tag q e c i w =
    invalidate_keys_removes tag q e (JsMap.get text_discrete tag c.tag_index) c i refl w
