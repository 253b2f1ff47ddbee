-- ===== src/Cookies/Totals.antt =====
-- Eviction and the clearing loops of src/cookie-store.ts keep the counter at the number of cookies.
use kinetex.Base.{
  ℕ, ◌+◌, ◌-◌, ◌≤◌, ◌≡◌, refl, ap, Bool, true, false, List, [], ◌∷◌, Option, some, arith, leb, ltb,
  Text, text_discrete, length, length-append, Bool-cases, Option-cases, inl, inr,
}
use kinetex.JsMap
use kinetex.Cookies.Rules.{Cookie}
use kinetex.Cookies.Store.{
  NameMap, PathMap, DomainMap, lookup, remove, or_empty, sum_values, count_paths, count_all,
  cons_filled, keep_names, keep_paths, keep_cookies, names_of, cookies_of, all_cookies,
}
use kinetex.Cookies.Eviction.{
  Candidate, candidates, path_candidates, by_last_access, delete_name, less_if, evict_paths, prune,
  evict_domain, evict_for_domain, evict_all, evict_global,
}
use kinetex.Cookies.Counting.{one_if, length-delete, sum_values-set_list, count_all-remove}

abbrev pub one_when : Bool → ℕ
one_when true = 1
one_when false = 0

pub has-one_if :
    (n : Text) (nm : NameMap)
    → one_if (JsMap.get text_discrete n nm) ≡ one_when (JsMap.has text_discrete n nm)
unfolding JsMap.get JsMap.has
has-one_if n [] = refl
has-one_if n ((k, c) ∷ nm) = elim (text_discrete k n) [
  | yes p ↦ ground (arith, p)
  | no q ↦ ground (arith, q, has-one_if n nm)
]

pub delete_name-count :
    (p n : Text) (pm : PathMap)
    → count_paths (delete_name p n pm).0 + one_when (delete_name p n pm).1 ≡ count_paths pm
unfolding delete_name
delete_name-count p n pm = elim (Bool-cases (JsMap.has text_discrete n nm)) [
  | inl h ↦ rw h (
      omega (
        arith,
        has-one_if n nm,
        ap one_when h,
        length-delete n nm,
        sum_values-set_list (λ (m : NameMap). length m) refl p (JsMap.delete text_discrete n nm) pm,
      ))
  | inr h ↦ rw h (omega arith)
]
  where
    nm : NameMap
    nm = or_empty (JsMap.get text_discrete p pm)

pub less_if-minus : (b : Bool) (n : ℕ) → less_if b n ≡ n - one_when b
less_if-minus true n = refl
less_if-minus false n = omega arith

evict_paths-total :
    (limit : ℕ) (cs : List Candidate) (count : ℕ) (pm : PathMap) (total others : ℕ)
    → total ≡ count_paths pm + others
    → let r = evict_paths limit cs count pm total in r.1 ≡ count_paths r.0 + others
unfolding evict_paths
evict_paths-total limit [] count pm total others h = h
evict_paths-total limit (c ∷ cs) count pm total others h = elim (Bool-cases (leb limit count)) [
  | inl e ↦ rw e (
      evict_paths-total limit cs (less_if deleted count) less (less_if deleted total) others
        (omega (arith, h, less_if-minus deleted total, delete_name-count c.path c.name pm)))
  | inr e ↦ rw e h
]
  where
    less : PathMap
    less = (delete_name c.path c.name pm).0

    deleted : Bool
    deleted = (delete_name c.path c.name pm).1

pub prune-count : (pm : PathMap) → count_paths (prune pm) ≡ count_paths pm
prune-count [] = refl
prune-count ((p, []) ∷ pm) = omega (arith, prune-count pm)
prune-count ((p, c ∷ nm) ∷ pm) = omega (arith, prune-count pm)

evict_domain-total :
    (limit : ℕ) (d : Text) (pm : PathMap) (dm : DomainMap) (total : ℕ)
    → JsMap.get text_discrete d dm ≡ some pm
    → total ≡ count_all dm
    → let r = evict_domain limit d pm dm total in r.1 ≡ count_all r.0
unfolding evict_domain
evict_domain-total limit d pm dm total found h = omega (
  arith,
  h,
  held,
  weighs [],
  weighs (prune left),
  prune-count left,
  evict_paths-total limit (by_last_access (path_candidates d pm)) (count_paths pm) pm total
      (count_all dm - count_paths pm) (omega (arith, h, held, weighs [])),
)
  where
    left : PathMap
    left = (evict_paths limit (by_last_access (path_candidates d pm)) (count_paths pm) pm total).0

    held : count_paths (or_empty (JsMap.get text_discrete d dm)) ≡ count_paths pm
    held = ap (λ (o : Option PathMap). count_paths (or_empty o)) found

    weighs :
        (xs : PathMap)
        → count_all (JsMap.set text_discrete d xs dm)
            + count_paths (or_empty (JsMap.get text_discrete d dm))
          ≡ count_all dm + count_paths xs
    weighs xs = sum_values-set_list count_paths refl d xs dm

pub evict_for_domain-total :
    (limit : ℕ) (d : Text) (dm : DomainMap) (total : ℕ)
    → total ≡ count_all dm
    → let r = evict_for_domain limit d dm total in r.1 ≡ count_all r.0
unfolding evict_for_domain
evict_for_domain-total limit d dm total h = elim (Option-cases (JsMap.get text_discrete d dm)) [
  | inl e ↦ rw e h
  | inr (pm, e) ↦ elim (Bool-cases (ltb (count_paths pm) limit)) [
    | inl l ↦ rw (e, l) h
    | inr l ↦ rw (e, l) (evict_domain-total limit d pm dm total e h)
  ]
]

evict_all-total :
    (limit : ℕ) (cs : List Candidate) (dm : DomainMap) (total : ℕ)
    → total ≡ count_all dm
    → let r = evict_all limit cs dm total in r.1 ≡ count_all r.0
unfolding evict_all
evict_all-total limit [] dm total h = h
evict_all-total limit (c ∷ cs) dm total h = elim (Bool-cases (leb limit total)) [
  | inl e ↦ elim (Option-cases (lookup c.domain c.path c.name dm)) [
    | inl a ↦ rw (e, a) (evict_all-total limit cs dm total h)
    | inr (x, a) ↦
        rw (e, a)
          (evict_all-total limit cs (remove c.domain c.path c.name dm) (total - 1)
            (omega (arith, h, ap one_if a, count_all-remove c.domain c.path c.name dm)))
  ]
  | inr e ↦ rw e h
]

pub evict_global-total :
    (limit : ℕ) (dm : DomainMap) (total : ℕ)
    → total ≡ count_all dm
    → let r = evict_global limit dm total in r.1 ≡ count_all r.0
unfolding evict_global
evict_global-total limit dm total h = elim (Bool-cases (ltb total limit)) [
  | inl e ↦ rw e h
  | inr e ↦ rw e (evict_all-total limit (by_last_access (candidates dm)) dm total h)
]

length-names_of : (nm : NameMap) → length (names_of nm) ≡ length nm
length-names_of [] = refl
length-names_of ((n, c) ∷ nm) = omega (arith, length-names_of nm)

length-cookies_of : (pm : PathMap) → length (cookies_of pm) ≡ count_paths pm
length-cookies_of [] = refl
length-cookies_of ((p, nm) ∷ pm) =
    omega
      (arith, length-append (names_of nm) (cookies_of pm), length-names_of nm, length-cookies_of pm)

pub length-all_cookies : (dm : DomainMap) → length (all_cookies dm) ≡ count_all dm
length-all_cookies [] = refl
length-all_cookies ((d, pm) ∷ dm) = omega (
  arith,
  length-append (cookies_of pm) (all_cookies dm),
  length-cookies_of pm,
  length-all_cookies dm,
)

length-keep_names : (keep : Cookie → Bool) (nm : NameMap) → length (keep_names keep nm) ≤ length nm
length-keep_names keep [] = omega arith
length-keep_names keep ((n, c) ∷ nm) = ground (arith, length-keep_names keep nm)

sum_values-cons_filled :
    {A : Type 0} (w : List A → ℕ) (none_is_empty : w [] ≡ 0) (k : Text) (xs : List A)
    (m : List (Text × List A))
    → sum_values w (cons_filled k xs m) ≡ w xs + sum_values w m
sum_values-cons_filled w e k [] m = omega (arith, e)
sum_values-cons_filled w e k (x ∷ xs) m = refl

count_paths-keep :
    (keep : Cookie → Bool) (pm : PathMap) → count_paths (keep_paths keep pm) ≤ count_paths pm
count_paths-keep keep [] = omega arith
count_paths-keep keep ((p, nm) ∷ pm) = omega (
  arith,
  sum_values-cons_filled (λ (m : NameMap). length m) refl p (keep_names keep nm)
      (keep_paths keep pm),
  length-keep_names keep nm,
  count_paths-keep keep pm,
)

pub count_all-keep :
    (keep : Cookie → Bool) (dm : DomainMap) → count_all (keep_cookies keep dm) ≤ count_all dm
count_all-keep keep [] = omega arith
count_all-keep keep ((d, pm) ∷ dm) = omega (
  arith,
  sum_values-cons_filled count_paths refl d (keep_paths keep pm) (keep_cookies keep dm),
  count_paths-keep keep pm,
  count_all-keep keep dm,
)
