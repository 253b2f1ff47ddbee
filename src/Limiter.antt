-- ===== src/Limiter.antt =====
-- `ConcurrencyLimiter` of src/interceptors.ts. A call of `acquire` is numbered by the order of the
-- calls, which stands for the identity of its promise and of its waiter; `settled` is the log of
-- the promises that were resolved or rejected, newest first.
pub mod Queue
pub mod Aborts
pub mod Once
pub mod Invariant
pub mod Fairness
use kinetex.Base.{
  ℕ, suc, ◌+◌, ◌-◌, Bool, true, false, not, ◌||◌, List, [], ◌∷◌, ◌++◌, Option, none, some, ltb, leb,
  ◌==◌, if◌then◌else◌, length, max, ◌&&◌,
}
use Queue.{Waiter, listeners_of, listeners, remove_waiter, remove_listener, ids_of}

-- A number of the configuration: a natural number, one between two natural numbers of which this is
-- the lower, or one of the values that are refused everywhere but for an infinite depth.
pub data Number : Type 0 where
  nat : ℕ → Number
  between : ℕ → Number
  infinity negative nan : Number

pub record Config : Type 0 where
  -- Rounded up, which no test of a number of permits against it sees.
  pub max_concurrent : ℕ
  pub queue : Bool
  -- `none` is `Infinity`.
  pub max_queue : Option ℕ

pub data Outcome : Type 0 where
  granted aborted queue_disabled queue_full drained : Outcome

pub record Limiter : Type 0 where
  pub config : Config
  pub active : ℕ
  pub peak : ℕ
  pub waiters : List Waiter
  -- The abort listeners attached to signals: the signal and the waiter's number.
  pub listeners : List (ℕ × ℕ)
  pub next_id : ℕ
  pub settled : List (ℕ × Outcome)

-- `!Number.isFinite(n) || n < 1` refuses.
abbrev finite_positive : Number → Option ℕ
finite_positive (nat n) = if ltb n 1 then none else some n
finite_positive (between n) = if ltb n 1 then none else some (suc n)
finite_positive _ = none

-- `n !== Infinity && (!Number.isInteger(n) || n < 0)` refuses.
abbrev queue_depth : Number → Option (Option ℕ)
queue_depth (nat n) = some (some n)
queue_depth infinity = some none
queue_depth _ = none

abbrev start_with : Option ℕ → Bool → Option (Option ℕ) → Option Limiter
start_with (some m) queue (some q) = some (record {
  config = record { max_concurrent = m; queue = queue; max_queue = q };
  active = 0;
  peak = 0;
  waiters = [];
  listeners = [];
  next_id = 0;
  settled = [];
})
start_with _ queue _ = none

-- The constructor; `none` is its `RangeError`.
unfoldable pub create : Number → Bool → Number → Option Limiter
create max_concurrent queue max_queue =
    start_with (finite_positive max_concurrent) queue (queue_depth max_queue)

-- The caller's signal: its identity, and whether it is aborted already.
pub record Signal : Type 0 where
  pub id : ℕ
  pub is_aborted : Bool

abbrev was_aborted : Option Signal → Bool
was_aborted none = false
was_aborted (some s) = s.is_aborted

abbrev pub signal_id : Option Signal → Option ℕ
signal_id none = none
signal_id (some s) = some s.id

abbrev pub is_full : ℕ → Option ℕ → Bool
is_full n none = false
is_full n (some q) = leb q n

abbrev settle_new : Outcome → Limiter → Limiter
settle_new o l = record l { next_id = suc l.next_id; settled = (l.next_id, o) ∷ l.settled }

unfoldable pub enqueue : Option ℕ → Limiter → Limiter
enqueue signal l = record l {
  next_id = suc l.next_id;
  waiters = l.waiters ++ waiter ∷ [];
  listeners = l.listeners ++ listeners waiter;
}
  where
    waiter : Waiter
    waiter = record { id = l.next_id; signal = signal }

unfoldable pub acquire : Option Signal → Limiter → Limiter
acquire signal l =
    if was_aborted signal
    then settle_new aborted l
    else if ltb l.active l.config.max_concurrent
    then settle_new granted (record l { active = l.active + 1; peak = max l.peak (l.active + 1) })
    else if not l.config.queue
    then settle_new queue_disabled l
    else if is_full (length l.waiters) l.config.max_queue
    then settle_new queue_full l
    else enqueue (signal_id signal) l

abbrev pub release_to : List Waiter → Limiter → Limiter
release_to [] l = record l { active = l.active - 1 }
release_to (w ∷ ws) l = record l {
  waiters = ws;
  listeners = remove_listener w l.listeners;
  settled = (w.id, granted) ∷ l.settled;
}

-- A permit goes to the longest-waiting caller, if there is one.
unfoldable pub release : Limiter → Limiter
release l = if l.active == 0 then l else release_to l.waiters l

-- The abort listener of one waiter: `once`, so that it is gone when it runs.
unfoldable pub on_abort : ℕ × ℕ → Limiter → Limiter
on_abort (signal, id) l = record l {
  waiters = remove_waiter id l.waiters;
  listeners = remove_listener (record { id = id; signal = some signal }) l.listeners;
  settled = (id, aborted) ∷ l.settled;
}

run_listeners : ℕ → List ℕ → Limiter → Limiter
run_listeners signal [] l = l
run_listeners signal (i ∷ ids) l = run_listeners signal ids (on_abort (signal, i) l)

-- A signal aborts: its listeners run in the order in which they were attached.
unfoldable pub abort : ℕ → Limiter → Limiter
unfolding run_listeners on_abort
abort signal l = run_listeners signal (ids_of signal l.listeners) l

drain_all : List Waiter → Limiter → Limiter
drain_all [] l = l
drain_all (w ∷ ws) l =
    drain_all ws (record l {
      listeners = remove_listener w l.listeners;
      settled = (w.id, drained) ∷ l.settled;
    })

unfoldable pub drain : Limiter → Limiter
unfolding drain_all
drain l = drain_all l.waiters (record l { waiters = [] })
