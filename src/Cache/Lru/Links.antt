-- ===== src/Cache/Lru/Links.antt =====
-- The links of a list of keys, most recent first, and how they change when a key leaves the list.
use mathlib.Core.Option
use kinetex.Base.{
  ◌≡◌, refl, sym, ◌≢◌, ite, List, [], ◌∷◌, Option, none, some, arith, Text, text_discrete,
}
use kinetex.Cache.Lru.{Node, set_next, set_prev}

abbrev pub first : List Text → Option Text
first [] = none
first (x ∷ xs) = some x

-- The last key of a list, or the one before it.
abbrev pub last_from : Option Text → List Text → Option Text
last_from p [] = p
last_from p (x ∷ xs) = last_from (some x) xs

-- The node that a key has in a list with a key before it.
abbrev pub node_at : Option Text → List Text → Text → Option Node
node_at p [] k = none
node_at p (x ∷ xs) k =
    ite (text_discrete x k) (some (record { prev = p; next = first xs })) (node_at (some x) xs k)

abbrev pub without : Text → List Text → List Text
without k [] = []
without k (x ∷ xs) = ite (text_discrete x k) xs (x ∷ without k xs)

abbrev pub NotIn : Text → List Text → Type 0
NotIn k [] = Unit {0}
NotIn k (x ∷ xs) = (x ≢ k) × NotIn k xs

abbrev pub Unique : List Text → Type 0
Unique [] = Unit {0}
Unique (x ∷ xs) = NotIn x xs × Unique xs

abbrev pub Outside : Option Text → List Text → Type 0
Outside none xs = Unit {0}
Outside (some x) xs = NotIn x xs

-- A write to one node, as a lookup sees it.
abbrev pub at_key : Option Text → (Node → Node) → Text → Option Node → Option Node
at_key none f q o = o
at_key (some k) f q o = ite (text_discrete k q) (Option.map f o) o

pub node_at-NotIn :
    (p : Option Text) (xs : List Text) (k : Text) → NotIn k xs → node_at p xs k ≡ none
node_at-NotIn p [] k h = refl
node_at-NotIn p (x ∷ xs) k (e, h) = ground (arith, e, node_at-NotIn (some x) xs k h)

-- A key outside the list is no neighbour.
no_next :
    (p : Option Text) (xs : List Text) (k x : Text) (n : Node)
    → NotIn x xs
    → node_at p xs k ≡ some n
    → n.next ≢ some x
no_next p [] k x n a h = ground arith
no_next p (y ∷ []) k x n a h = ground arith
no_next p (y ∷ z ∷ zs) k x n (e, a) h = ground (arith, e, a, no_next (some y) (z ∷ zs) k x n a)

no_prev :
    (p : Option Text) (xs : List Text) (k x : Text) (n : Node)
    → NotIn x xs
    → p ≢ some x
    → node_at p xs k ≡ some n
    → n.prev ≢ some x
no_prev p [] k x n a o h = ground arith
no_prev p (y ∷ ys) k x n (e, a) o h = ground (arith, e, o, no_prev (some y) ys k x n a)

abbrev at_prev : Option Text → Text → Option Text → Option Text → Option Text
at_prev none x e d = d
at_prev (some a) x e d = ite (text_discrete a x) e d

at_prev_ne : (o : Option Text) (x : Text) (e d : Option Text) → o ≢ some x → at_prev o x e d ≡ d
at_prev_ne none x e d h = refl
at_prev_ne (some a) x e d h = ground (arith, h)

at_prev_self : (x : Text) (e d : Option Text) → at_prev (some x) x e d ≡ e
at_prev_self x e d = ground (arith)

pub here :
    (p : Option Text) (y : Text) (ys : List Text) (k : Text) (n : Node)
    → y ≡ k
    → node_at p (y ∷ ys) k ≡ some n
    → n ≡ record { prev = p; next = first ys }
here p y ys k n q h =
    elim (text_discrete y k)
        as (λ r.
          ite r (some (record { prev = p; next = first ys })) (node_at (some y) ys k) ≡ some n
          → n ≡ record { prev = p; next = first ys }) [
            | yes e ↦ λ g. ground (arith, g)
            | no e ↦ absurd (e q)
          ]
      h

pub there :
    (p : Option Text) (y : Text) (ys : List Text) (k : Text) (n : Node)
    → y ≢ k
    → node_at p (y ∷ ys) k ≡ some n
    → node_at (some y) ys k ≡ some n
there p y ys k n q h =
    elim (text_discrete y k)
        as (λ r.
          ite r (some (record { prev = p; next = first ys })) (node_at (some y) ys k) ≡ some n
          → node_at (some y) ys k ≡ some n) [ yes e ↦ absurd (q e) | no e ↦ λ g. g ]
      h

pub without_head : (y : Text) (ys : List Text) (k : Text) → y ≡ k → without k (y ∷ ys) ≡ ys
without_head y ys k q = ground (arith, q)

pub without_tail :
    (y : Text) (ys : List Text) (k : Text) → y ≢ k → without k (y ∷ ys) ≡ y ∷ without k ys
without_tail y ys k q = ground (arith, q)

pub node_at_head :
    (p : Option Text) (y : Text) (ys : List Text) (k : Text)
    → y ≡ k
    → node_at p (y ∷ ys) k ≡ some (record { prev = p; next = first ys })
node_at_head p y ys k q = ground (arith, q)

pub node_at_tail :
    (p : Option Text) (y : Text) (ys : List Text) (k : Text)
    → y ≢ k
    → node_at p (y ∷ ys) k ≡ node_at (some y) ys k
node_at_tail p y ys k q = ground (arith, q)

pub first-without :
    (x : Text) (xs : List Text) (k : Text) (n : Node)
    → NotIn x xs
    → Unique xs
    → node_at (some x) xs k ≡ some n
    → first (without k xs) ≡ at_prev n.prev x n.next (first xs)
first-without x [] k n a u h = ground arith
first-without x (y ∷ ys) k n (e, a) (b, u) h = elim (text_discrete y k) [
  | yes q ↦ rw (without_head y ys k q, here (some x) y ys k n q h, at_prev_self)
  | no q ↦ rw (
    without_tail y ys k q,
    at_prev_ne n.prev x n.next (some y)
        (no_prev (some y) ys k x n a (ground (arith, e)) (there (some x) y ys k n q h)),
  )
]

pub at_key-none : (o : Option Text) (f : Node → Node) (q : Text) → at_key o f q none ≡ none
at_key-none none f q = refl
at_key-none (some a) f q = ground arith

pub at_key_ne :
    (o : Option Text) (f : Node → Node) (q : Text) (r : Option Node)
    → o ≢ some q
    → at_key o f q r ≡ r
at_key_ne none f q r h = refl
at_key_ne (some a) f q r h = ground (arith, h)

at_key-at_prev :
    (o e d p : Option Text) (x : Text)
    → at_key o (set_next e) x (some (record { prev = p; next = d }))
      ≡ some (record { prev = p; next = at_prev o x e d })
at_key-at_prev none e d p x = refl
at_key-at_prev (some a) e d p x = ground arith

-- The head of the list leaves it.
relink_head :
    (p : Option Text) (ys : List Text) (k q : Text)
    → NotIn k ys
    → Unique ys
    → Outside p ys
    → q ≢ k
    → node_at p ys q
      ≡ at_key (first ys) (set_prev p) q (at_key p (set_next (first ys)) q (node_at (some k) ys q))
relink_head p [] k q b u o d = rw (at_key-none)
relink_head none (y ∷ ys) k q b u o d = ground (arith)
relink_head (some a) (y ∷ ys) k q b u o d = ground (arith, o, node_at-NotIn (some y) ys a)

relink_self :
    (p : Option Text) (x : Text) (xs : List Text) (k q : Text) (n : Node)
    → x ≡ k
    → NotIn x xs
    → Unique xs
    → Outside p xs
    → node_at p (x ∷ xs) k ≡ some n
    → q ≢ k
    → node_at p (without k (x ∷ xs)) q
      ≡ at_key n.next (set_prev n.prev) q (at_key n.prev (set_next n.next) q (node_at p (x ∷ xs) q))
relink_self p x xs k q n e b u o h d =
    rw (without_head x xs k e, here p x xs k n e h, node_at_tail p x xs q (ground (arith, e)))
      (relink_head p xs x q b u o (ground (arith, e)))

Outside-tail : (p : Option Text) (x : Text) (xs : List Text) → Outside p (x ∷ xs) → Outside p xs
Outside-tail none x xs o = tt
Outside-tail (some a) x xs o = o.1

pub relink :
    (p : Option Text) (xs : List Text) (k q : Text) (n : Node)
    → Unique xs
    → Outside p xs
    → node_at p xs k ≡ some n
    → q ≢ k
    → node_at p (without k xs) q
      ≡ at_key n.next (set_prev n.prev) q (at_key n.prev (set_next n.next) q (node_at p xs q))
relink p [] k q n u o h d = ground arith
relink p (x ∷ xs) k q n (b, u) o h d = elim (text_discrete x k) [
  | yes e ↦ relink_self p x xs k q n e b u (Outside-tail p x xs o) h d
  | no e ↦ elim (text_discrete x q) [
    | yes c ↦ rw (
      without_tail x xs k e,
      node_at_head p x (without k xs) q c,
      node_at_head p x xs q c,
      sym c,
      at_key-at_prev,
      at_key_ne n.next (set_prev n.prev) x
          (some (record { prev = p; next = at_prev n.prev x n.next (first xs) }))
          (no_next (some x) xs k x n b (there p x xs k n e h)),
      first-without x xs k n b u (there p x xs k n e h),
    )
    | no c ↦
        rw (without_tail x xs k e, node_at_tail p x (without k xs) q c, node_at_tail p x xs q c)
          (relink (some x) xs k q n u b (there p x xs k n e h) d)
  ]
]
