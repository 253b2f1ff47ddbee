-- ===== src/Limiter/Aborts.antt =====
-- What an abort signal does to the queue of the concurrency limiter (src/interceptors.ts): its
-- listeners, one after another, take out exactly the waiters that were given the signal.
use kinetex.Base.{
  ℕ, suc, ◌+◌, ◌<◌, ◌≡◌, refl, ap, ◌∙◌, ◌≢◌, List, [], ◌∷◌, some, ◌==◌, if◌then◌else◌, arith,
  length, map,
}
use kinetex.Limiter.Queue.{
  Waiter, listeners_of, remove_waiter, remove_listener, remove_listener-head, ids_of, Ordered,
  keep_others,
}
use kinetex.Limiter.{
  Limiter, aborted, Outcome, on_abort, run_listeners, abort, drained, drain, drain_all,
}

abbrev remove_all : List ℕ → List Waiter → List Waiter
remove_all [] ws = ws
remove_all (i ∷ is) ws = remove_all is (remove_waiter i ws)

abbrev detach_all : ℕ → List ℕ → List (ℕ × ℕ) → List (ℕ × ℕ)
detach_all s [] ls = ls
detach_all s (i ∷ is) ls = detach_all s is (remove_listener (record { id = i; signal = some s }) ls)

abbrev AllAbove : ℕ → List ℕ → Type 0
AllAbove n [] = Unit {0}
AllAbove n (i ∷ is) = (n < i) × AllAbove n is

remove_all-cons :
    (w : Waiter) (is : List ℕ) (ws : List Waiter)
    → AllAbove w.id is
    → remove_all is (w ∷ ws) ≡ w ∷ remove_all is ws
unfolding remove_waiter
remove_all-cons w [] ws h = refl
remove_all-cons w (i ∷ is) ws h = ground (arith, remove_all-cons w is (remove_waiter i ws) h.1)

AllAbove-ids_of :
    (s n lo hi : ℕ) (ws : List Waiter)
    → n < lo
    → Ordered lo hi ws
    → AllAbove n (ids_of s (listeners_of ws))
unfolding ids_of listeners_of
AllAbove-ids_of s n lo hi [] h o = tt
AllAbove-ids_of s n lo hi (w ∷ ws) h o =
    ground (arith, AllAbove-ids_of s n (suc w.id) hi ws (omega arith) o.1)

remove_all-keep_others :
    (s lo hi : ℕ) (ws : List Waiter)
    → Ordered lo hi ws
    → remove_all (ids_of s (listeners_of ws)) ws ≡ keep_others s ws
unfolding ids_of listeners_of remove_waiter
remove_all-keep_others s lo hi [] o = refl
remove_all-keep_others s lo hi (w ∷ ws) o = ground (
  arith,
  remove_all-keep_others s (suc w.id) hi ws o.1,
  remove_all-cons w (ids_of s (listeners_of ws)) ws,
  AllAbove-ids_of s w.id (suc w.id) hi ws (omega arith) o.1,
)

abbrev drop_signal : ℕ → List (ℕ × ℕ) → List (ℕ × ℕ)
drop_signal s [] = []
drop_signal s ((t, i) ∷ ls) = if s == t then drop_signal s ls else (t, i) ∷ drop_signal s ls

detach_all-cons :
    (s t j : ℕ) (is : List ℕ) (ls : List (ℕ × ℕ))
    → s ≢ t
    → detach_all s is ((t, j) ∷ ls) ≡ (t, j) ∷ detach_all s is ls
unfolding remove_listener
detach_all-cons s t j [] ls h = refl
detach_all-cons s t j (i ∷ is) ls h =
    ground
      (arith, detach_all-cons s t j is (remove_listener (record { id = i; signal = some s }) ls) h)

detach_all-drop_signal :
    (s : ℕ) (ls : List (ℕ × ℕ)) → detach_all s (ids_of s ls) ls ≡ drop_signal s ls
unfolding ids_of remove_listener
detach_all-drop_signal s [] = refl
detach_all-drop_signal s ((t, i) ∷ ls) =
    ground (arith, detach_all-drop_signal s ls, detach_all-cons s t i (ids_of s ls) ls)

drop_signal-listeners_of :
    (s : ℕ) (ws : List Waiter) → drop_signal s (listeners_of ws) ≡ listeners_of (keep_others s ws)
unfolding listeners_of
drop_signal-listeners_of s [] = refl
drop_signal-listeners_of s (w ∷ ws) = ground (arith, drop_signal-listeners_of s ws)

detach_all-keep_others :
    (s : ℕ) (ws : List Waiter)
    → detach_all s (ids_of s (listeners_of ws)) (listeners_of ws) ≡ listeners_of (keep_others s ws)
detach_all-keep_others s ws =
    detach_all-drop_signal s (listeners_of ws) ∙ drop_signal-listeners_of s ws

-- The log entries of waiters that are rejected one after another.
abbrev pub log_all : Outcome → List ℕ → List (ℕ × Outcome) → List (ℕ × Outcome)
log_all o [] log = log
log_all o (i ∷ is) log = log_all o is ((i, o) ∷ log)

run_listeners_lem :
    (s : ℕ) (is : List ℕ) (l : Limiter)
    → run_listeners s is l ≡ record l {
      waiters = remove_all is l.waiters;
      listeners = detach_all s is l.listeners;
      settled = log_all aborted is l.settled;
    }
unfolding run_listeners on_abort
run_listeners_lem s [] l = refl
run_listeners_lem s (i ∷ is) l = run_listeners_lem s is (on_abort (s, i) l)

-- When a signal aborts, exactly the waiters that were given it leave the queue, the others keeping
-- their order; they are rejected in the order of their listeners, no listener of theirs is left
-- attached, and no permit moves. (The queue is in order of arrival, and the listeners attached are
-- those of its waiters: both hold in every reachable state.)
pub abort-keep_others :
    (s : ℕ) (l : Limiter)
    → Ordered 0 l.next_id l.waiters
    → l.listeners ≡ listeners_of l.waiters
    → abort s l ≡ record l {
      waiters = keep_others s l.waiters;
      listeners = listeners_of (keep_others s l.waiters);
      settled = log_all aborted (ids_of s (listeners_of l.waiters)) l.settled;
    }
unfolding abort
abort-keep_others s l o e =
    run_listeners_lem s (ids_of s l.listeners) l
    ∙ ground (
      arith,
      remove_all-keep_others s 0 l.next_id l.waiters o,
      detach_all-keep_others s l.waiters,
    )

drain_all_lem :
    (ws : List Waiter) (l : Limiter)
    → l.listeners ≡ listeners_of ws
    → drain_all ws l
      ≡ record l { listeners = []; settled = log_all drained (map (λ w. w.id) ws) l.settled }
unfolding drain_all
drain_all_lem [] l e = unfold listeners_of in ground arith
drain_all_lem (w ∷ ws) l e =
    drain_all_lem ws
      (record l {
        listeners = remove_listener w l.listeners;
        settled = (w.id, drained) ∷ l.settled;
      })
      (ap (remove_listener w) e ∙ remove_listener-head w ws)

-- A drain rejects every waiter, longest-waiting first, detaches every abort listener, and leaves
-- the permits that are held alone. (The listeners attached are those of the waiters, as in every
-- reachable state.)
pub drain-rejects_all :
    (l : Limiter)
    → l.listeners ≡ listeners_of l.waiters
    → drain l ≡ record l {
      waiters = [];
      listeners = [];
      settled = log_all drained (map (λ w. w.id) l.waiters) l.settled;
    }
unfolding drain
drain-rejects_all l e = drain_all_lem l.waiters (record l { waiters = [] }) e

pub length-log_all :
    (o : Outcome) (is : List ℕ) (log : List (ℕ × Outcome))
    → length (log_all o is log) ≡ length is + length log
length-log_all o [] log = omega arith
length-log_all o (i ∷ is) log = omega (arith, length-log_all o is ((i, o) ∷ log))

pub length-map_id : (ws : List Waiter) → length (map (λ w. w.id) ws) ≡ length ws
length-map_id [] = refl
length-map_id (w ∷ ws) = ap suc (length-map_id ws)
