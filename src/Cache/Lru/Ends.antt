-- ===== src/Cache/Lru/Ends.antt =====
-- The ends of a list of keys, and what a removal does to its keys.
use kinetex.Base.{
  ◌≡◌, refl, sym, ◌∙◌, ◌≢◌, List, [], ◌∷◌, Option, none, some, arith, Text, text_discrete, subst,
}
use kinetex.Cache.Lru.{Node, set_prev, or_next}
use kinetex.Cache.Lru.Links.{
  first, last_from, node_at, without, NotIn, Unique, at_key, here, there, without_head,
  without_tail, node_at_head, node_at_tail,
}

prev_some :
    (x : Text) (xs : List Text) (k : Text) (n : Node)
    → node_at (some x) xs k ≡ some n
    → n.prev ≢ none
prev_some x [] k n h = ground arith
prev_some x (y ∷ ys) k n h = ground (arith, prev_some y ys k n)

or_next_ne : (o a b : Option Text) → o ≢ none → or_next o a b ≡ b
or_next_ne none a b h = absurd (h refl)
or_next_ne (some k) a b h = refl

pub first-head :
    (xs : List Text) (k : Text) (n : Node)
    → node_at none xs k ≡ some n
    → first (without k xs) ≡ or_next n.prev n.next (first xs)
first-head [] k n h = ground arith
first-head (x ∷ xs) k n h = elim (text_discrete x k) [
  | yes e ↦ rw (without_head x xs k e, here none x xs k n e h)
  | no e ↦ rw (
    without_tail x xs k e,
    or_next_ne n.prev n.next (some x) (prev_some x xs k n (there none x xs k n e h)),
  )
]

last_head :
    (p : Option Text) (x : Text) (xs : List Text)
    → last_from p xs ≡ or_next (first xs) p (last_from (some x) xs)
last_head p x [] = refl
last_head p x (y ∷ ys) = refl

pub last-without :
    (p : Option Text) (xs : List Text) (k : Text) (n : Node)
    → node_at p xs k ≡ some n
    → last_from p (without k xs) ≡ or_next n.next n.prev (last_from p xs)
last-without p [] k n h = ground arith
last-without p (x ∷ xs) k n h = elim (text_discrete x k) [
  | yes e ↦ rw (without_head x xs k e, here p x xs k n e h) (last_head p x xs)
  | no e ↦ rw (without_tail x xs k e) (last-without (some x) xs k n (there p x xs k n e h))
]

pub without-NotIn : (k : Text) (xs : List Text) → NotIn k xs → without k xs ≡ xs
without-NotIn k [] h = refl
without-NotIn k (x ∷ xs) (e, h) = rw (without_tail x xs k e, without-NotIn k xs h)

pub NotIn-without : (k q : Text) (xs : List Text) → NotIn q xs → NotIn q (without k xs)
NotIn-without k q [] h = tt
NotIn-without k q (x ∷ xs) (e, h) = elim (text_discrete x k) [
  | yes c ↦ rw (without_head x xs k c) h
  | no c ↦ rw (without_tail x xs k c) (e, NotIn-without k q xs h)
]

pub NotIn-without_self : (k : Text) (xs : List Text) → Unique xs → NotIn k (without k xs)
NotIn-without_self k [] u = tt
NotIn-without_self k (x ∷ xs) (a, u) = elim (text_discrete x k) [
  | yes c ↦ rw (without_head x xs k c) (subst (λ y. NotIn y xs) c a)
  | no c ↦ rw (without_tail x xs k c) (c, NotIn-without_self k xs u)
]

pub Unique-without : (k : Text) (xs : List Text) → Unique xs → Unique (without k xs)
Unique-without k [] u = tt
Unique-without k (x ∷ xs) (a, u) = elim (text_discrete x k) [
  | yes c ↦ rw (without_head x xs k c) u
  | no c ↦ rw (without_tail x xs k c) (NotIn-without k x xs a, Unique-without k xs u)
]

-- A key that has no node is not in the list.
pub NotIn-of_none :
    (p : Option Text) (xs : List Text) (k : Text) → node_at p xs k ≡ none → NotIn k xs
NotIn-of_none p [] k h = tt
NotIn-of_none p (x ∷ xs) k h = elim (text_discrete x k) [
  | yes c ↦ absurd (ground (arith, h, node_at_head p x xs k c))
  | no c ↦ (c, NotIn-of_none (some x) xs k (sym (node_at_tail p x xs k c) ∙ h))
]

-- The node of a list's first key, when a key is put before it.
pub prepend_links :
    (k : Text) (xs : List Text) (q : Text)
    → Unique xs
    → node_at (some k) xs q ≡ at_key (first xs) (set_prev (some k)) q (node_at none xs q)
prepend_links k [] q u = refl
prepend_links k (x ∷ xs) q u = ground arith

-- The last key of a list has a node in it.
pub last_node :
    (p : Option Text) (xs : List Text) (k : Text)
    → p ≢ some k
    → last_from p xs ≡ some k
    → node_at p xs k ≢ none
last_node p [] k o h = absurd (o h)
last_node p (x ∷ xs) k o h = elim (text_discrete x k) [
  | yes c ↦ ground (arith, node_at_head p x xs k c)
  | no c ↦ rw (node_at_tail p x xs k c) (last_node (some x) xs k (ground (arith, c)) h)
]
