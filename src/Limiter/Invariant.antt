-- ===== src/Limiter/Invariant.antt =====
-- What holds of a concurrency limiter (src/interceptors.ts) after any sequence of calls, releases,
-- aborts and drains; and the order in which permits are handed on.
use kinetex.Base.{
  subst, map, ℕ, suc, ◌+◌, ◌≤◌, ◌<◌, ◌≡◌, refl, ap, ◌∙◌, ◌⊎◌, inl, inr, Bool, true, false, List, [],
  ◌∷◌, ◌++◌, Option, none, some, arith, length, length-append, ◌==◌, if◌then◌else◌,
}
use native.Mathlib.Nat.{zero-add, add_comm, add_assoc, add-zero}
use kinetex.Limiter.Queue.{
  Waiter, listeners, listeners_of, listeners_of-append, listeners_of-one, remove_listener-head,
  ids_of, Ordered, Ordered-suc, Ordered-append, Ordered-low, length-keep_others,
  Ordered-keep_others,
}
use kinetex.Limiter.{
  Number, Config, Outcome, granted, aborted, drained, Limiter, Signal, create, acquire, enqueue,
  release, release_to, abort, drain, is_full, signal_id,
}
use kinetex.Limiter.Once.{Once, acquire-Once, release-Once, abort-Once, drain-Once}
use kinetex.Limiter.Aborts.{
  log_all, length-log_all, length-map_id, abort-keep_others, drain-rejects_all,
}

-- The events that a limiter sees. A release with no permit held is a no-op.
pub data Event : Type 0 where
  acquires : Option Signal → Event
  releases : Event
  aborts : ℕ → Event
  drains : Event

pub step : Event → Limiter → Limiter
step (acquires s) l = acquire s l
step releases l = release l
step (aborts s) l = abort s l
step drains l = drain l

pub run : List Event → Limiter → Limiter
run [] l = l
run (e ∷ es) l = run es (step e l)

abbrev pub count_granted : List (ℕ × Outcome) → ℕ
count_granted [] = 0
count_granted ((i, granted) ∷ log) = suc (count_granted log)
count_granted ((i, _) ∷ log) = count_granted log

-- The releases that return a permit.
abbrev pub returned : Event → Limiter → ℕ
returned releases l = if l.active == 0 then 0 else 1
returned _ l = 0

pub all_returned : List Event → Limiter → ℕ
all_returned [] l = 0
all_returned (e ∷ es) l = returned e l + all_returned es (step e l)

abbrev pub FitsIn : Option ℕ → ℕ → Type 0
FitsIn none n = Unit {0}
FitsIn (some q) n = n ≤ q

abbrev pub EmptyUnless : Bool → ℕ → Type 0
EmptyUnless true n = Unit {0}
EmptyUnless false n = n ≡ 0

-- The invariant after `given_back` permits were returned.
pub record Inv (c : Config) (l : Limiter) (given_back : ℕ) : Type 0 where
  pub config : l.config ≡ c
  -- Never more permits held than the limit, and the high-water mark is between.
  pub peaked : l.active ≤ l.peak
  pub bounded : l.peak ≤ c.max_concurrent
  -- Nobody waits while a permit is free.
  pub busy : (l.waiters ≡ []) ⊎ (l.active ≡ c.max_concurrent)
  pub fits : FitsIn c.max_queue (length l.waiters)
  pub queueing : EmptyUnless c.queue (length l.waiters)
  -- First come, first in the queue.
  pub ordered : Ordered 0 l.next_id l.waiters
  -- No abort listener outlives its wait.
  pub attached : l.listeners ≡ listeners_of l.waiters
  -- Each permit granted is held or was returned.
  pub conserved : count_granted l.settled ≡ l.active + given_back
  -- As many calls wait or were settled as were made.
  pub settled_once : length l.settled + length l.waiters ≡ l.next_id

FitsIn-mono : (q : Option ℕ) {m n : ℕ} → m ≤ n → FitsIn q n → FitsIn q m
FitsIn-mono none h f = tt
FitsIn-mono (some q) h f = omega arith

EmptyUnless-mono : (b : Bool) {m n : ℕ} → m ≤ n → EmptyUnless b n → EmptyUnless b m
EmptyUnless-mono true h f = tt
EmptyUnless-mono false h f = omega arith

count_granted-log_aborted :
    (is : List ℕ) (log : List (ℕ × Outcome))
    → count_granted (log_all aborted is log) ≡ count_granted log
count_granted-log_aborted [] log = refl
count_granted-log_aborted (i ∷ is) log = count_granted-log_aborted is ((i, aborted) ∷ log)

count_granted-log_drained :
    (is : List ℕ) (log : List (ℕ × Outcome))
    → count_granted (log_all drained is log) ≡ count_granted log
count_granted-log_drained [] log = refl
count_granted-log_drained (i ∷ is) log = count_granted-log_drained is ((i, drained) ∷ log)

module _ (c : Config) (g : ℕ) (l : Limiter) (v : Inv c l g) where
  enqueue-Inv :
      (s : Option ℕ)
      → l.active ≡ c.max_concurrent
      → c.queue ≡ true
      → is_full (length l.waiters) c.max_queue ≡ false
      → Inv c (enqueue s l) g
  unfolding enqueue
  enqueue-Inv s full on room =
      let w : Waiter = record { id = l.next_id; signal = s } in
      record {
        config = v.config;
        peaked = v.peaked;
        bounded = v.bounded;
        busy = inr full;
        fits = ground (arith, length-append l.waiters (w ∷ []));
        queueing = ground arith;
        ordered = Ordered-append 0 l.next_id l.waiters s v.ordered;
        attached = attached_behind w;
        conserved = v.conserved;
        settled_once = omega (arith, length-append l.waiters (w ∷ []));
      }
    where
      attached_behind :
          (w : Waiter) → l.listeners ++ listeners w ≡ listeners_of (l.waiters ++ w ∷ [])
      attached_behind w = rw (v.attached, listeners_of-append, listeners_of-one) refl

  acquire-Inv : (s : Option Signal) → Inv c (acquire s l) g
  unfolding acquire
  acquire-Inv s =
      ground (arith, enqueue-Inv (signal_id s), Ordered-suc 0 l.next_id l.waiters v.ordered)

  release_to-Inv :
      (ws : List Waiter) → l.waiters ≡ ws → 0 < l.active → Inv c (release_to ws l) (suc g)
  release_to-Inv [] e held = ground arith
  release_to-Inv (w ∷ ws) e held =
      let attached : l.listeners ≡ listeners_of (w ∷ ws) = v.attached ∙ ap listeners_of e in
      let ordered : Ordered 0 l.next_id (w ∷ ws) = subst (Ordered 0 l.next_id) e v.ordered in
      ground (
        arith,
        attached,
        remove_listener-head w ws,
        Ordered-low {lo = suc w.id} {lo' = 0} l.next_id ws (omega arith) ordered.1,
      )

  release-Inv : Inv c (release l) (returned releases l + g)
  unfolding release
  release-Inv = ground (arith, release_to-Inv l.waiters refl)

  abort-Inv : (s : ℕ) → Inv c (abort s l) g
  abort-Inv s =
      let is : List ℕ = ids_of s (listeners_of l.waiters) in
      rw (abort-keep_others s l v.ordered v.attached) (record {
        config = v.config;
        peaked = v.peaked;
        bounded = v.bounded;
        busy = elim v.busy [ inl e ↦ inl (rw e) | inr e ↦ inr e ];
        fits = FitsIn-mono c.max_queue (omega (arith, length-keep_others s l.waiters)) v.fits;
        queueing =
            EmptyUnless-mono c.queue (omega (arith, length-keep_others s l.waiters)) v.queueing;
        ordered = Ordered-keep_others s 0 l.next_id l.waiters v.ordered;
        attached = refl;
        conserved = count_granted-log_aborted is l.settled ∙ v.conserved;
        settled_once = omega (
          arith,
          length-log_all aborted is l.settled,
          length-keep_others s l.waiters,
          v.settled_once,
        );
      })

  drain-Inv : Inv c (drain l) g
  drain-Inv =
      let is : List ℕ = map (λ w. w.id) l.waiters in
      rw (drain-rejects_all l v.attached) (record {
        config = v.config;
        peaked = v.peaked;
        bounded = v.bounded;
        busy = inl refl;
        fits = FitsIn-mono c.max_queue (omega arith) v.fits;
        queueing = EmptyUnless-mono c.queue (omega arith) v.queueing;
        ordered = omega arith;
        attached = unfold listeners_of in refl;
        conserved = count_granted-log_drained is l.settled ∙ v.conserved;
        settled_once =
            omega
              (arith, length-log_all drained is l.settled, length-map_id l.waiters, v.settled_once);
      })

  step-Inv : (e : Event) → Inv c (step e l) (returned e l + g)
  unfolding step
  step-Inv (acquires s) = rw zero-add (acquire-Inv s)
  step-Inv releases = release-Inv
  step-Inv (aborts s) = rw zero-add (abort-Inv s)
  step-Inv drains = rw zero-add drain-Inv

  step-Once : Once l → (e : Event) → Once (step e l)
  unfolding step
  step-Once o (acquires s) = acquire-Once l o s
  step-Once o releases = release-Once l o
  step-Once o (aborts s) = abort-Once l o s v.ordered v.attached
  step-Once o drains = drain-Once l o v.attached

run-Once :
    (es : List Event) (c : Config) (g : ℕ) (l : Limiter) → Inv c l g → Once l → Once (run es l)
unfolding run
run-Once [] c g l v o = o
run-Once (e ∷ es) c g l v o =
    run-Once es c (returned e l + g) (step e l) (step-Inv c g l v e) (step-Once c g l v o e)

run-Inv :
    (es : List Event) (c : Config) (g : ℕ) (l : Limiter)
    → Inv c l g
    → Inv c (run es l) (all_returned es l + g)
unfolding run all_returned
run-Inv [] c g l v = rw zero-add v
run-Inv (e ∷ es) c g l v =
    rw (add_comm (returned e l), add_assoc)
      (run-Inv es c (returned e l + g) (step e l) (step-Inv c g l v e))

create-Inv :
    (m q : Number) (queue : Bool) {l : Limiter}
    → create m queue q ≡ some l
    → Inv l.config l 0 × (0 < l.config.max_concurrent)
unfolding create listeners_of
create-Inv m q queue e = ground arith

create-Once : (m q : Number) (queue : Bool) {l : Limiter} → create m queue q ≡ some l → Once l
unfolding create
create-Once m q queue {l} e i =
    let made : l.settled ≡ [] = ground arith in
    let empty : l.waiters ≡ [] = ground arith in
    let first : l.next_id ≡ 0 = ground arith in rw (made, empty, first) (ground arith)

-- What the constructor accepts: a finite limit of at least 1, whole or not, and a depth that is a
-- natural number or `Infinity`. Then, after any sequence of calls, releases, aborts and drains, the
-- limiter keeps its configuration; it holds no more permits than `maxConcurrent`, rounded up if it is
-- not whole, and nobody waits while one of these is free; the queue is within `maxQueue`, in order of
-- arrival, and empty if queueing is off; the abort listeners attached are exactly those of the callers
-- that wait; the permits granted are those held and those returned; and each call that was made either
-- waits or was settled, once and under its own number.
pub run-create-Inv :
    (m q : Number) (queue : Bool) (es : List Event) {l : Limiter}
    → create m queue q ≡ some l
    → Inv l.config (run es l) (all_returned es l) × (0 < l.config.max_concurrent) × Once (run es l)
run-create-Inv m q queue es {l} e =
    let (v, positive) = create-Inv m q queue e in
    (
      rw (← add-zero (all_returned es l)) (run-Inv es l.config 0 l v),
      positive,
      run-Once es l.config 0 l v (create-Once m q queue e),
    )
