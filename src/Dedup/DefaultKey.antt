-- ===== src/Dedup/DefaultKey.antt =====
-- The default key of src/dedup.ts, and that it forgets the order of headers.
use mathlib.Core.List.{Permᴰ}
use kinetex.Base.{
  ◌≡◌, refl, ap, sym, ◌∙◌, Bool, true, false, not, List, [], ◌∷◌, ◌++◌, Option, none, some, arith,
  ltb, ◌==◌, if◌then◌else◌, Text, codes, to_lower_text, is_member, Bool-cases, inl, inr,
}
use kinetex.Dedup.Keys.{Key, Headers}

abbrev non_identity_headers : List Text
non_identity_headers =
    codes "traceparent"
    ∷ codes "tracestate"
    ∷ codes "baggage"
    ∷ codes "x-request-id"
    ∷ codes "x-correlation-id"
    ∷ codes "x-trace-id"
    ∷ []

-- The order of texts in which `sort` puts them: that of their code units.
unfoldable pub text_leq : Text → Text → Bool
text_leq [] t = true
text_leq (a ∷ s) [] = false
text_leq (a ∷ s) (b ∷ t) = let rest = text_leq s t in if a == b then rest else ltb a b

unfoldable pub insert_text : Text → List Text → List Text
insert_text s [] = s ∷ []
insert_text s (t ∷ ts) =
    let rest = insert_text s ts in if text_leq s t then s ∷ t ∷ ts else t ∷ rest

unfoldable pub sort_texts : List Text → List Text
unfolding insert_text
sort_texts [] = []
sort_texts (s ∷ ts) = insert_text s (sort_texts ts)

abbrev pub header_part : Text × Text → Text
header_part h = to_lower_text h.0 ++ codes "=" ++ h.1

abbrev pub is_identity : Text × Text → Bool
is_identity h = not (is_member (to_lower_text h.0) non_identity_headers)

abbrev pub identity_parts : Headers → List Text
identity_parts [] = []
identity_parts (h ∷ hs) =
    let rest = identity_parts hs in if is_identity h then header_part h ∷ rest else rest

abbrev pub join_parts : List Text → Text
join_parts [] = []
join_parts (s ∷ []) = s
join_parts (s ∷ t ∷ ts) = s ++ codes "&" ++ join_parts (t ∷ ts)

abbrev with_identity : Text → List Text → Key
with_identity base [] = base
with_identity base (s ∷ ts) = base ++ codes "::" ++ join_parts (s ∷ ts)

unfoldable pub default_dedup_key : Text → Text → Option Headers → Key
unfolding sort_texts to_lower_text
default_dedup_key method url none = method ++ codes "::" ++ url
default_dedup_key method url (some hs) =
    with_identity (method ++ codes "::" ++ url) (sort_texts (identity_parts hs))

text_leq_total : (s t : Text) → text_leq s t ≡ false → text_leq t s ≡ true
unfolding text_leq
text_leq_total [] t h = ground arith
text_leq_total (a ∷ s) [] h = refl
text_leq_total (a ∷ s) (b ∷ t) h = ground (arith, h, text_leq_total s t)

text_leq_antisym : (s t : Text) → text_leq s t ≡ true → text_leq t s ≡ true → s ≡ t
unfolding text_leq
text_leq_antisym [] [] h k = refl
text_leq_antisym [] (b ∷ t) h k = ground arith
text_leq_antisym (a ∷ s) [] h k = ground arith
text_leq_antisym (a ∷ s) (b ∷ t) h k = ground (arith, text_leq_antisym s t)

text_leq_trans : (s t u : Text) → text_leq s t ≡ true → text_leq t u ≡ true → text_leq s u ≡ true
unfolding text_leq
text_leq_trans [] t u h k = refl
text_leq_trans (a ∷ s) [] u h k = ground arith
text_leq_trans (a ∷ s) (b ∷ t) [] h k = ground arith
text_leq_trans (a ∷ s) (b ∷ t) (c ∷ u) h k = ground (arith, text_leq_trans s t u)

insert_text_comm :
    (s t : Text) (us : List Text)
    → insert_text s (insert_text t us) ≡ insert_text t (insert_text s us)
unfolding insert_text
insert_text_comm s t [] = ground (arith, text_leq_total s t, text_leq_antisym s t)
insert_text_comm s t (u ∷ us) = ground (
  arith,
  insert_text_comm s t us,
  text_leq_total s t,
  text_leq_antisym s t,
  text_leq_trans s t u,
  text_leq_trans t s u,
  text_leq_total s u,
  text_leq_total t u,
  text_leq_trans s u t,
  text_leq_trans t u s,
)

abbrev add_header : Text × Text → List Text → List Text
add_header h ts = if is_identity h then insert_text (header_part h) ts else ts

sort-identity_parts :
    (h : Text × Text) (hs : Headers)
    → sort_texts (identity_parts (h ∷ hs)) ≡ add_header h (sort_texts (identity_parts hs))
unfolding sort_texts
sort-identity_parts h hs = elim (Bool-cases (is_identity h)) [
  | inl e ↦ rw e refl
  | inr e ↦ rw e refl
]

add_header_comm :
    (h k : Text × Text) (ts : List Text)
    → add_header h (add_header k ts) ≡ add_header k (add_header h ts)
add_header_comm h k ts = elim (Bool-cases (is_identity h)) [
  | inl e ↦ elim (Bool-cases (is_identity k)) [
    | inl f ↦ rw (e, f) (insert_text_comm (header_part h) (header_part k) ts)
    | inr f ↦ rw (e, f) refl
  ]
  | inr e ↦ rw e refl
]

swapped :
    (a b : Text × Text) (l : Headers)
    → sort_texts (identity_parts (a ∷ b ∷ l)) ≡ sort_texts (identity_parts (b ∷ a ∷ l))
swapped a b l =
    sort-identity_parts a (b ∷ l)
    ∙ (ap (add_header a) (sort-identity_parts b l)
        ∙ (add_header_comm a b (sort_texts (identity_parts l))
            ∙ (ap (add_header b) (sym (sort-identity_parts a l))
                ∙ sym (sort-identity_parts b (a ∷ l)))))

identity_forgets_order :
    (hs ks : Headers)
    → Permᴰ hs ks
    → sort_texts (identity_parts hs) ≡ sort_texts (identity_parts ks)
identity_forgets_order [] [] Permᴰ.nil = refl
identity_forgets_order (a ∷ hs) (b ∷ ks) (Permᴰ.cons e p) =
    sort-identity_parts a hs
    ∙ (ap (add_header a) (identity_forgets_order hs ks p)
        ∙ (ap (λ h. add_header h (sort_texts (identity_parts ks))) e
            ∙ sym (sort-identity_parts b ks)))
identity_forgets_order _ _ (Permᴰ.swap {a = a} {b = b} {b' = b'} {l = l} e f) =
    swapped a b l
    ∙ (ap (λ (h : Text × Text). sort_texts (identity_parts (b ∷ h ∷ l))) e
        ∙ ap (λ (k : Text × Text). sort_texts (identity_parts (k ∷ b' ∷ l))) f)
identity_forgets_order hs ks (Permᴰ.trans p q) =
    identity_forgets_order hs _ p ∙ identity_forgets_order _ ks q

-- Two requests with one method and one URL whose headers are the same in another order have the
-- same default key.
pub default_key_forgets_order :
    (method url : Text) (hs ks : Headers)
    → Permᴰ hs ks
    → default_dedup_key method url (some hs) ≡ default_dedup_key method url (some ks)
unfolding default_dedup_key
default_key_forgets_order method url hs ks p =
    ap (with_identity (method ++ codes "::" ++ url)) (identity_forgets_order hs ks p)
