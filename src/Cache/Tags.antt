-- ===== src/Cache/Tags.antt =====
-- The tag index of src/cache.ts: which keys a tag has after its sets are changed.
use mathlib.Core.Option
use kinetex.Base.{
  ◌≡◌, refl, sym, ◌∙◌, ◌≢◌, subst, true, false, List, [], ◌∷◌, ◌++◌, Option, none, some, Text, same,
  same_iff, same_self, is_member, text_discrete, arith, inl, inr, Bool-cases,
}
use kinetex.JsMap
use kinetex.Cache.State.{
  TagIndex, set_add, set_delete, set_or_new, add_tag, add_tags, drop_tag, drop_tags,
  drop_everywhere,
}

-- The keys of a tag.
abbrev pub members : TagIndex → Text → List Text
unfolding JsMap.get
members idx t = set_or_new (JsMap.get text_discrete t idx)

same_ne : (k q : Text) → k ≢ q → same k q ≡ false
same_ne k q h = elim (Bool-cases (same k q)) [ inl e ↦ absurd (h (same_iff k q e)) | inr e ↦ e ]

member-append :
    (q : Text) (xs ys : List Text) → is_member q xs ≡ true → is_member q (xs ++ ys) ≡ true
member-append q [] ys h = ground arith
member-append q (x ∷ xs) ys h = ground (arith, member-append q xs ys)

member_last : (k : Text) (xs : List Text) → is_member k (xs ++ k ∷ []) ≡ true
member_last k [] = rw (same_self k)
member_last k (x ∷ xs) = ground (arith, member_last k xs)

member-set_add_self : (k : Text) (xs : List Text) → is_member k (set_add k xs) ≡ true
member-set_add_self k xs = ground (arith, member_last k xs)

member-set_add :
    (q k : Text) (xs : List Text) → is_member q xs ≡ true → is_member q (set_add k xs) ≡ true
member-set_add q k xs h = ground (arith, member-append q xs (k ∷ []) h)

member-set_delete :
    (q k : Text) (xs : List Text) → q ≢ k → is_member q (set_delete k xs) ≡ is_member q xs
unfolding set_delete
member-set_delete q k [] h = refl
member-set_delete q k (x ∷ xs) h = elim (Bool-cases (same k x)) [
  | inl e ↦ rw (e, sym (same_iff k x e), same_ne q k h)
  | inr e ↦ rw (e, member-set_delete q k xs h)
]

members-add_tag_self :
    (k t : Text) (idx : TagIndex) → is_member k (members (add_tag k t idx) t) ≡ true
unfolding add_tag
members-add_tag_self k t idx =
    rw (JsMap.get-set_self text_discrete t (set_add k (members idx t)) idx)
      (member-set_add_self k (members idx t))

members-add_tag :
    (q k t u : Text) (idx : TagIndex)
    → is_member q (members idx u) ≡ true
    → is_member q (members (add_tag k t idx) u) ≡ true
unfolding add_tag
members-add_tag q k t u idx h = elim (text_discrete u t) [
  | yes e ↦
      rw (e, JsMap.get-set_self text_discrete t (set_add k (members idx t)) idx)
        (member-set_add q k (members idx t) (subst (λ v. is_member q (members idx v) ≡ true) e h))
  | no e ↦ rw (JsMap.get-set_ne text_discrete t u (set_add k (members idx t)) idx e) h
]

pub members-add_tags :
    (q k u : Text) (ts : List Text) (idx : TagIndex)
    → is_member q (members idx u) ≡ true
    → is_member q (members (add_tags k ts idx) u) ≡ true
members-add_tags q k u [] idx h = h
members-add_tags q k u (t ∷ ts) idx h =
    members-add_tags q k u ts (add_tag k t idx) (members-add_tag q k t u idx h)

pub members-add_tags_self :
    (k u : Text) (ts : List Text) (idx : TagIndex)
    → is_member u ts ≡ true
    → is_member k (members (add_tags k ts idx) u) ≡ true
members-add_tags_self k u [] idx h = ground arith
members-add_tags_self k u (t ∷ ts) idx h = elim (Bool-cases (same u t)) [
  | inl e ↦
      members-add_tags k k u ts (add_tag k t idx)
        (rw (same_iff u t e) (members-add_tag_self k t idx))
  | inr e ↦ members-add_tags_self k u ts (add_tag k t idx) (ground (arith, e, h))
]

map_member :
    (q k : Text) (o : Option (List Text))
    → q ≢ k
    → is_member q (set_or_new (Option.map (set_delete k) o)) ≡ is_member q (set_or_new o)
map_member q k none h = refl
map_member q k (some s) h = member-set_delete q k s h

members-drop_tag :
    (q k t u : Text) (idx : TagIndex)
    → q ≢ k
    → is_member q (members (drop_tag k t idx) u) ≡ is_member q (members idx u)
unfolding drop_tag members
members-drop_tag q k t u idx h = elim (text_discrete u t) [
  | yes e ↦
      rw (e, JsMap.get-update_self text_discrete t (set_delete k) idx)
        (map_member q k (JsMap.get text_discrete t idx) h)
  | no e ↦ rw (JsMap.get-update_ne text_discrete t u (set_delete k) idx e)
]

pub members-drop_tags :
    (q k u : Text) (ts : List Text) (idx : TagIndex)
    → q ≢ k
    → is_member q (members (drop_tags k ts idx) u) ≡ is_member q (members idx u)
members-drop_tags q k u [] idx h = refl
members-drop_tags q k u (t ∷ ts) idx h =
    members-drop_tags q k u ts (drop_tag k t idx) h ∙ members-drop_tag q k t u idx h

pub members-drop_everywhere :
    (q k u : Text) (idx : TagIndex)
    → q ≢ k
    → is_member q (members (drop_everywhere k idx) u) ≡ is_member q (members idx u)
unfolding drop_everywhere JsMap.get
members-drop_everywhere q k u [] h = refl
members-drop_everywhere q k u ((t, s) ∷ idx) h =
    ground (arith, member-set_delete q k s h, members-drop_everywhere q k u idx h)
