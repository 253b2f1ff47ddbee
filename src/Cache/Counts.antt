-- ===== src/Cache/Counts.antt =====
-- The gauges and the tag index of src/cache.ts against the entries that stand behind a list of keys.
use mathlib.Core.Path.{fun_ext}
use kinetex.Base.{
  ℕ, suc, ◌+◌, ◌≡◌, refl, sym, ap, ◌∙◌, ◌≢◌, subst, true, List, [], ◌∷◌, Option, none, some, Text,
  is_member, text_discrete, arith, length,
}
use kinetex.Cache.Freshness.{Entry}
use kinetex.Cache.Lru.Links.{without, NotIn, Unique, without_head, without_tail}
use kinetex.Cache.Lru.Ends.{NotIn-without, NotIn-without_self, Unique-without}
use kinetex.Cache.State.{
  Stats, TagIndex, count_entry, uncount_entry, add_tags, drop_tags, drop_everywhere,
}
use kinetex.Cache.Tags.{
  members, members-add_tags, members-add_tags_self, members-drop_tags, members-drop_everywhere,
}

-- The entries, by key.
abbrev pub Entries : Type 0
Entries = Text → Option Entry

abbrev pub size_of : Option Entry → ℕ
size_of none = 0
size_of (some e) = e.size

abbrev pub sum_sizes : Entries → List Text → ℕ
sum_sizes f [] = 0
sum_sizes f (x ∷ xs) = size_of (f x) + sum_sizes f xs

pub record Counts (f : Entries) (s : Stats) (idx : TagIndex) (xs : List Text) : Type 0 where
  pub unique : Unique xs
  pub keys_in : (q : Text) → f q ≡ none → NotIn q xs
  pub keys_out : (q : Text) → NotIn q xs → f q ≡ none
  pub entries : s.total_entries ≡ length xs
  pub bytes : s.total_size_bytes ≡ sum_sizes f xs
  pub tagged :
      (q t : Text) (e : Entry)
      → f q ≡ some e
      → is_member t e.tags ≡ true
      → is_member q (members idx t) ≡ true

pub sum_sizes-agree :
    (f g : Entries) (k : Text) (xs : List Text)
    → ((q : Text) → q ≢ k → g q ≡ f q)
    → NotIn k xs
    → sum_sizes g xs ≡ sum_sizes f xs
sum_sizes-agree f g k [] a h = refl
sum_sizes-agree f g k (x ∷ xs) a (e, h) = rw (a x e, sum_sizes-agree f g k xs a h)

pub sum_sizes-without :
    (f : Entries) (k : Text) (xs : List Text)
    → ¬ NotIn k xs
    → sum_sizes f xs ≡ size_of (f k) + sum_sizes f (without k xs)
sum_sizes-without f k [] h = absurd (h tt)
sum_sizes-without f k (x ∷ xs) h = elim (text_discrete x k) [
  | yes e ↦ rw (without_head x xs k e, e)
  | no e ↦ rw (without_tail x xs k e) (ground (arith, sum_sizes-without f k xs (λ a. h (e, a))))
]

pub length-without :
    (k : Text) (xs : List Text) → ¬ NotIn k xs → length xs ≡ suc (length (without k xs))
length-without k [] h = absurd (h tt)
length-without k (x ∷ xs) h = elim (text_discrete x k) [
  | yes e ↦ rw (without_head x xs k e)
  | no e ↦ rw (without_tail x xs k e) (ground (arith, length-without k xs (λ a. h (e, a))))
]

NotIn-without_ne : (k q : Text) (xs : List Text) → q ≢ k → NotIn q (without k xs) → NotIn q xs
NotIn-without_ne k q [] d h = tt
NotIn-without_ne k q (x ∷ xs) d h = elim (text_discrete x k) [
  | yes e ↦ ((λ c. d (sym c ∙ e)), subst (NotIn q) (without_head x xs k e) h)
  | no e ↦ let g = subst (NotIn q) (without_tail x xs k e) h in (g.0, NotIn-without_ne k q xs d g.1)
]

is_there :
    (f : Entries) (s : Stats) (idx : TagIndex) (xs : List Text) (k : Text) (e : Entry)
    → Counts f s idx xs
    → f k ≡ some e
    → ¬ NotIn k xs
is_there f s idx xs k e c h n = ground (arith, h, c.keys_out k n)

pub drop-Counts :
    (f g : Entries) (s : Stats) (idx : TagIndex) (xs : List Text) (k : Text) (e : Entry)
    → Counts f s idx xs
    → f k ≡ some e
    → g k ≡ none
    → ((q : Text) → q ≢ k → g q ≡ f q)
    → Counts g (uncount_entry e.size s) (drop_tags k e.tags idx) (without k xs)
drop-Counts f g s idx xs k e c h n a =
    let there = is_there f s idx xs k e c h in
    record {
      unique = Unique-without k xs c.unique;
      keys_in = λ q. elim (text_discrete q k) [
        | yes d ↦
            λ _. subst (λ x. NotIn x (without k xs)) (sym d) (NotIn-without_self k xs c.unique)
        | no d ↦ λ z. NotIn-without k q xs (c.keys_in q (sym (a q d) ∙ z))
      ];
      keys_out = λ q. elim (text_discrete q k) [
        | yes d ↦ λ _. rw d n
        | no d ↦ λ z. a q d ∙ c.keys_out q (NotIn-without_ne k q xs d z)
      ];
      entries = ground (arith, c.entries, length-without k xs there);
      bytes = ground (
        arith,
        c.bytes,
        ap size_of h,
        sum_sizes-without f k xs there,
        sum_sizes-agree f g k (without k xs) a (NotIn-without_self k xs c.unique),
      );
      tagged = λ q t d. elim (text_discrete q k) [
        | yes z ↦ λ w m. absurd (ground (arith, n, subst (λ x. g x ≡ some d) z w))
        | no z ↦ λ w m. members-drop_tags q k t e.tags idx z ∙ c.tagged q t d (sym (a q z) ∙ w) m
      ];
    }

-- A key that has no entry is dropped.
pub absent-Counts :
    (f g : Entries) (s : Stats) (idx : TagIndex) (xs : List Text) (k : Text)
    → Counts f s idx xs
    → f k ≡ none
    → g k ≡ none
    → ((q : Text) → q ≢ k → g q ≡ f q)
    → Counts g s (drop_everywhere k idx) xs
absent-Counts f g s idx xs k c h n a = record {
  unique = c.unique;
  keys_in = λ q z. elim (text_discrete q k) [
    | yes d ↦ subst (λ x. NotIn x xs) (sym d) (c.keys_in k h)
    | no d ↦ c.keys_in q (sym (a q d) ∙ z)
  ];
  keys_out = λ q z. elim (text_discrete q k) [ yes d ↦ rw d n | no d ↦ a q d ∙ c.keys_out q z ];
  entries = c.entries;
  bytes = c.bytes ∙ sym (sum_sizes-agree f g k xs a (c.keys_in k h));
  tagged = λ q t d. elim (text_discrete q k) [
    | yes z ↦ λ w m. absurd (ground (arith, n, subst (λ x. g x ≡ some d) z w))
    | no z ↦ λ w m. members-drop_everywhere q k t idx z ∙ c.tagged q t d (sym (a q z) ∙ w) m
  ];
}

some_entry : (d e : Entry) (o : Option Entry) → o ≡ some d → o ≡ some e → d ≡ e
some_entry d e o g h = ground (arith, sym g ∙ h)

pub add-Counts :
    (f g : Entries) (s : Stats) (idx : TagIndex) (xs : List Text) (k : Text) (e : Entry)
    → Counts f s idx xs
    → f k ≡ none
    → g k ≡ some e
    → ((q : Text) → q ≢ k → g q ≡ f q)
    → Counts g (count_entry e.size s) (add_tags k e.tags idx) (k ∷ xs)
add-Counts f g s idx xs k e c h n a = record {
  unique = (c.keys_in k h, c.unique);
  keys_in = λ q z. elim (text_discrete q k) [
    | yes d ↦ absurd (ground (arith, n, subst (λ x. g x ≡ none) d z))
    | no d ↦ ((λ w. d (sym w)), c.keys_in q (sym (a q d) ∙ z))
  ];
  keys_out = λ q z. a q (λ d. z.0 (sym d)) ∙ c.keys_out q z.1;
  entries = ground (arith, c.entries);
  bytes = ground (arith, c.bytes, ap size_of n, sum_sizes-agree f g k xs a (c.keys_in k h));
  tagged = λ q t d w m. elim (text_discrete q k) [
    | yes z ↦ rw (z) (
        members-add_tags_self k t e.tags idx (
          subst (λ x. is_member t x.tags ≡ true)
            (some_entry d e (g k) (subst (λ x. g x ≡ some d) z w) n) m))
    | no z ↦ members-add_tags q k t e.tags idx (c.tagged q t d (sym (a q z) ∙ w) m)
  ];
}

pub agree-Counts :
    (f g : Entries) (s : Stats) (idx : TagIndex) (xs : List Text)
    → Counts f s idx xs
    → ((q : Text) → g q ≡ f q)
    → Counts g s idx xs
agree-Counts f g s idx xs c a = subst (λ h. Counts h s idx xs) (sym (fun_ext a)) c

-- The order of the keys does not matter.
pub touch-Counts :
    (f : Entries) (s : Stats) (idx : TagIndex) (xs : List Text) (k : Text)
    → Counts f s idx xs
    → f k ≢ none
    → Counts f s idx (k ∷ without k xs)
touch-Counts f s idx xs k c h =
    let there : ¬ NotIn k xs = λ n. h (c.keys_out k n) in
    record {
      unique = (NotIn-without_self k xs c.unique, Unique-without k xs c.unique);
      keys_in = λ q z. ((λ d. h (rw d z)), NotIn-without k q xs (c.keys_in q z));
      keys_out = λ q z. c.keys_out q (NotIn-without_ne k q xs (λ d. z.0 (sym d)) z.1);
      entries = c.entries ∙ length-without k xs there;
      bytes = c.bytes ∙ sum_sizes-without f k xs there;
      tagged = c.tagged;
    }

-- Only the two gauges matter of the statistics.
pub gauges-Counts :
    (f : Entries) (s t : Stats) (idx : TagIndex) (xs : List Text)
    → Counts f s idx xs
    → t.total_entries ≡ s.total_entries
    → t.total_size_bytes ≡ s.total_size_bytes
    → Counts f t idx xs
gauges-Counts f s t idx xs c a b = record {
  unique = c.unique;
  keys_in = c.keys_in;
  keys_out = c.keys_out;
  entries = a ∙ c.entries;
  bytes = b ∙ c.bytes;
  tagged = c.tagged;
}

sum_sizes-same :
    (f g : Entries) (xs : List Text)
    → ((q : Text) → size_of (g q) ≡ size_of (f q))
    → sum_sizes g xs ≡ sum_sizes f xs
sum_sizes-same f g [] a = refl
sum_sizes-same f g (x ∷ xs) a = rw (a x, sum_sizes-same f g xs a)

-- An entry gives way to one of its size with its tags.
pub replace-Counts :
    (f g : Entries) (s : Stats) (idx : TagIndex) (xs : List Text) (k : Text) (e d : Entry)
    → Counts f s idx xs
    → f k ≡ some e
    → g k ≡ some d
    → d.size ≡ e.size
    → d.tags ≡ e.tags
    → ((q : Text) → q ≢ k → g q ≡ f q)
    → Counts g s idx xs
replace-Counts f g s idx xs k e d c h n z t a = record {
  unique = c.unique;
  keys_in = λ q w. elim (text_discrete q k) [
    | yes y ↦ absurd (ground (arith, n, subst (λ x. g x ≡ none) y w))
    | no y ↦ c.keys_in q (sym (a q y) ∙ w)
  ];
  keys_out = λ q w. elim (text_discrete q k) [
    | yes y ↦ absurd (is_there f s idx xs k e c h (subst (λ x. NotIn x xs) y w))
    | no y ↦ a q y ∙ c.keys_out q w
  ];
  entries = c.entries;
  bytes =
      c.bytes
      ∙ sym (
          sum_sizes-same f g xs (λ q. elim (text_discrete q k) [
            | yes y ↦ rw (y, n, h, z)
            | no y ↦ ap size_of (a q y)
          ]));
  tagged = λ q u b w m. elim (text_discrete q k) [
    | yes y ↦ c.tagged q u e (rw y h) (
        subst (λ x. is_member u x ≡ true)
          (ap (λ (v : Entry). v.tags) (some_entry b d (g k) (subst (λ x. g x ≡ some b) y w) n) ∙ t)
          m)
    | no y ↦ c.tagged q u b (sym (a q y) ∙ w) m
  ];
}
