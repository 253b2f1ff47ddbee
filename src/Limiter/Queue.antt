-- ===== src/Limiter/Queue.antt =====
-- The waiters of the concurrency limiter (src/interceptors.ts), longest-waiting first, and the
-- abort listeners that they have attached.
use kinetex.Base.{
  ℕ, suc, ◌+◌, ◌≤◌, ◌≡◌, refl, sym, ap, ◌∙◌, Bool, false, List, [], ◌∷◌, ◌++◌, Option, none, some,
  ◌==◌, if◌then◌else◌, arith, length,
}
use mathlib.Core.List.{append_assoc, append-nil}

pub record Waiter : Type 0 where
  pub id : ℕ
  pub signal : Option ℕ

abbrev listener_for : ℕ → Option ℕ → List (ℕ × ℕ)
listener_for id none = []
listener_for id (some s) = (s, id) ∷ []

-- The listener that a waiter attaches, if its caller gave a signal.
abbrev pub listeners : Waiter → List (ℕ × ℕ)
listeners w = listener_for w.id w.signal

unfoldable pub listeners_of : List Waiter → List (ℕ × ℕ)
listeners_of [] = []
listeners_of (w ∷ ws) = listeners w ++ listeners_of ws

-- `indexOf` and `splice`.
unfoldable pub remove_waiter : ℕ → List Waiter → List Waiter
remove_waiter i [] = []
remove_waiter i (w ∷ ws) = if w.id == i then ws else w ∷ remove_waiter i ws

detach : ℕ → ℕ → List (ℕ × ℕ) → List (ℕ × ℕ)
detach s i [] = []
detach s i ((t, j) ∷ ls) =
    if s == t then (if i == j then ls else (t, j) ∷ detach s i ls) else (t, j) ∷ detach s i ls

abbrev detach_from : Option ℕ → ℕ → List (ℕ × ℕ) → List (ℕ × ℕ)
detach_from none i ls = ls
detach_from (some s) i ls = detach s i ls

-- `detachAbortListener`: nothing to do for a waiter without a signal.
unfoldable pub remove_listener : Waiter → List (ℕ × ℕ) → List (ℕ × ℕ)
unfolding detach
remove_listener w ls = detach_from w.signal w.id ls

-- The waiters that listen to a signal, in the order of their listeners.
unfoldable pub ids_of : ℕ → List (ℕ × ℕ) → List ℕ
ids_of s [] = []
ids_of s ((t, i) ∷ ls) = if s == t then i ∷ ids_of s ls else ids_of s ls

pub listeners_of-append :
    (ws vs : List Waiter) → listeners_of (ws ++ vs) ≡ listeners_of ws ++ listeners_of vs
unfolding listeners_of
listeners_of-append [] vs = refl
listeners_of-append (w ∷ ws) vs =
    ap (◌++◌ (listeners w)) (listeners_of-append ws vs)
    ∙ sym (append_assoc (listeners w) (listeners_of ws) (listeners_of vs))

pub remove_listener-head :
    (w : Waiter) (ws : List Waiter) → remove_listener w (listeners_of (w ∷ ws)) ≡ listeners_of ws
unfolding remove_listener listeners_of
remove_listener-head w ws = ground arith

-- The waiters were numbered in the order in which they queue, from `lo` and below `hi`.
abbrev pub Ordered : ℕ → ℕ → List Waiter → Type 0
Ordered lo hi [] = lo ≤ hi
Ordered lo hi (w ∷ ws) = (lo ≤ w.id) × Ordered (suc w.id) hi ws

pub Ordered-suc : (lo hi : ℕ) (ws : List Waiter) → Ordered lo hi ws → Ordered lo (suc hi) ws
Ordered-suc lo hi [] o = omega arith
Ordered-suc lo hi (w ∷ ws) o = (o.0, Ordered-suc (suc w.id) hi ws o.1)

pub Ordered-low :
    {lo lo' : ℕ} (hi : ℕ) (ws : List Waiter) → lo' ≤ lo → Ordered lo hi ws → Ordered lo' hi ws
Ordered-low hi [] h o = omega arith
Ordered-low hi (w ∷ ws) h o = (omega arith, o.1)

pub Ordered-append :
    (lo hi : ℕ) (ws : List Waiter) (s : Option ℕ)
    → Ordered lo hi ws
    → Ordered lo (suc hi) (ws ++ record { id = hi; signal = s } ∷ [])
Ordered-append lo hi [] s o = (o, omega arith)
Ordered-append lo hi (w ∷ ws) s o = (o.0, Ordered-append (suc w.id) hi ws s o.1)

abbrev listens : ℕ → Option ℕ → Bool
listens s none = false
listens s (some t) = s == t

-- The queue without the waiters of a signal.
abbrev pub keep_others : ℕ → List Waiter → List Waiter
keep_others s [] = []
keep_others s (w ∷ ws) = if listens s w.signal then keep_others s ws else w ∷ keep_others s ws

pub Ordered-keep_others :
    (s lo hi : ℕ) (ws : List Waiter) → Ordered lo hi ws → Ordered lo hi (keep_others s ws)
Ordered-keep_others s lo hi [] o = o
Ordered-keep_others s lo hi (w ∷ ws) o = ground (
  arith,
  Ordered-keep_others s (suc w.id) hi ws o.1,
  Ordered-low {lo = suc w.id} {lo' = lo} hi (keep_others s ws),
)

pub length-keep_others :
    (s : ℕ) (ws : List Waiter)
    → length (keep_others s ws) + length (ids_of s (listeners_of ws)) ≡ length ws
unfolding ids_of listeners_of
length-keep_others s [] = refl
length-keep_others s (w ∷ ws) = ground (arith, length-keep_others s ws)

pub listeners_of-one : (w : Waiter) → listeners_of (w ∷ []) ≡ listeners w
unfolding listeners_of
listeners_of-one w = append-nil (listeners w)
