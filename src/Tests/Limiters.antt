-- ===== src/Tests/Limiters.antt =====
-- Runs of the concurrency limiter, and its theorems at concrete limiters.
use mathlib.Core.Option
use kinetex.Base.{ℕ, ◌<◌, ◌≡◌, refl, true, false, [], ◌∷◌, Option, none, some, arith}
use kinetex.Limiter.Queue.{listeners_of, remove_listener, remove_waiter, ids_of}
use kinetex.Limiter.{
  Number, granted, Limiter, Signal, create, acquire, enqueue, release, abort, drain,
}
use kinetex.Limiter.Invariant.{Event, run, all_returned, Inv, run-create-Inv}
use kinetex.Limiter.Once.{Once}
use kinetex.Limiter.Fairness.{release_times, releases_serve_in_order}

program : Unit {0}
unfolding listeners_of remove_listener remove_waiter ids_of create acquire enqueue release abort
    drain
program = tt

abbrev signal : ℕ → Option Signal
signal i = some (record { id = i; is_aborted = false })

-- One permit, held by call 0; calls 1 and 2 wait, call 1 with the signal 7.
abbrev one_permit : Limiter
one_permit = record {
  config = record { max_concurrent = 1; queue = true; max_queue = some 2 };
  active = 0;
  peak = 0;
  waiters = [];
  listeners = [];
  next_id = 0;
  settled = [];
}

abbrev crowded : Limiter
crowded = record one_permit {
  active = 1;
  peak = 1;
  waiters = record { id = 1; signal = some 7 } ∷ record { id = 2; signal = none } ∷ [];
  listeners = (7, 1) ∷ [];
  next_id = 3;
  settled = (0, granted) ∷ [];
}

crowded_is_reached : acquire none (acquire (signal 7) (acquire none one_permit)) ≡ crowded
unfolding program
crowded_is_reached = refl

created : create (Number.nat 1) true (Number.nat 2) ≡ some one_permit
unfolding program
created = refl

run-create-Inv_example :
    Inv one_permit.config
      (run (Event.acquires none ∷ Event.acquires (signal 7) ∷ Event.releases ∷ []) one_permit)
      (all_returned
        (Event.acquires none ∷ Event.acquires (signal 7) ∷ Event.releases ∷ [])
        one_permit)
    × (0 < 1)
    × Once (run (Event.acquires none ∷ Event.acquires (signal 7) ∷ Event.releases ∷ []) one_permit)
run-create-Inv_example =
    run-create-Inv (Number.nat 1) (Number.nat 2) true
      (Event.acquires none ∷ Event.acquires (signal 7) ∷ Event.releases ∷ []) {l = one_permit}
      created

-- A limit of 1.5 is accepted, and lets two permits be held at once.
half_permit_rounds_up :
    Option.map
      (λ (l : Limiter). (acquire none (acquire none l)).active)
      (create (Number.between 1) true Number.infinity)
    ≡ some 2
unfolding program
half_permit_rounds_up = refl

releases_serve_in_order_example :
    let m = release_times 2 crowded in
    (m.waiters ≡ [])
    × (m.active ≡ 1)
    × (m.settled ≡ (2, granted) ∷ (1, granted) ∷ (0, granted) ∷ [])
releases_serve_in_order_example = releases_serve_in_order 2 crowded (omega arith) (omega arith)
