-- ===== src/Breaker/Invariant.antt =====
-- What holds of a circuit breaker of src/circuit-breaker.ts after any interleaving of its
-- operations and of the calls in flight.
use kinetex.Base.{
  ℕ, suc, ◌+◌, ◌≤◌, ◌<◌, ◌≡◌, refl, sym, ap, ◌∙◌, Bool, true, false, List, [], ◌∷◌, ◌++◌, Option,
  none, String, arith, length, length-append, length-drop,
}
use kinetex.Breaker.Settings.{Config, Failure}
use kinetex.Breaker.State.{CircuitState, closed, opened, Breaker, init}
use kinetex.Breaker.{
  Admission, rejected, admitted, execute, settle_success, settle_failure, reset, trip, push_result,
  failures_seen,
}
use kinetex.Breaker.Window.{push_success-le}

-- A breaker with the calls in flight, each with the flag that says whether it holds a probe.
pub record System : Type 0 where
  pub breaker : Breaker
  pub calls : List Bool

abbrev pub count_held : List Bool → ℕ
count_held [] = 0
count_held (true ∷ cs) = suc (count_held cs)
count_held (false ∷ cs) = count_held cs

abbrev pub started : List Bool → Breaker × Admission → System
started calls (b, admitted held) = record { breaker = b; calls = held ∷ calls }
started calls (b, rejected key snap) = record { breaker = b; calls = calls }

-- One event: a call starts, one of the calls in flight settles, or an operator trips or resets.
pub data Step (s t : System) : Type 0 where
  start : (now : ℕ) → t ≡ started s.calls (execute now s.breaker) → Step s t
  succeed :
      (now : ℕ) (held : Bool) (newer older : List Bool)
      → s.calls ≡ newer ++ held ∷ older
      → t ≡ record { breaker = settle_success now held s.breaker; calls = newer ++ older }
      → Step s t
  fail :
      (now : ℕ) (held : Bool) (e : Failure) (newer older : List Bool)
      → s.calls ≡ newer ++ held ∷ older
      → t ≡ record { breaker = settle_failure now held e s.breaker; calls = newer ++ older }
      → Step s t
  trips : (now : ℕ) → t ≡ record s { breaker = trip now s.breaker } → Step s t
  resets : (now : ℕ) → t ≡ record s { breaker = reset now s.breaker } → Step s t

pub data Reach (s : System) : System → Type 0 where
  here : Reach s s
  next : {t u : System} → Reach s t → Step t u → Reach s u

abbrev pub HasOpening : CircuitState → Option ℕ → Type 0
HasOpening opened none = ⊥
HasOpening _ _ = Unit {0}

abbrev pub BelowThreshold : CircuitState → ℕ → ℕ → Type 0
BelowThreshold closed n threshold = n < threshold
BelowThreshold _ n threshold = Unit {0}

-- The invariant of a breaker with `calls` calls in flight, `held` of which hold a probe.
pub record Inv (c : Config) (b : Breaker) (calls held : ℕ) : Type 0 where
  -- The configuration never changes.
  pub config : b.config ≡ c
  -- No more probes are counted than are allowed, or than are in flight.
  pub capped : b.in_flight_probes ≤ c.half_open_concurrency
  pub in_flight : b.in_flight_probes ≤ held
  pub sized : length b.window ≤ c.window_size
  -- An open circuit knows since when, so that its timeout can elapse.
  pub timed : HasOpening b.state b.opened_at
  -- A closed circuit has seen fewer failures than the threshold.
  pub below : BelowThreshold b.state (failures_seen b) c.failure_threshold
  -- Each request is counted once, and settled or in flight (or failed without counting).
  pub accounted : b.total_successes + b.total_failures + calls ≤ b.total_requests

length-middle : (r : Bool) (xs ys : List Bool) → length (xs ++ r ∷ ys) ≡ suc (length (xs ++ ys))
length-middle r [] ys = refl
length-middle r (x ∷ xs) ys = ap suc (length-middle r xs ys)

count_held-middle :
    (r : Bool) (xs ys : List Bool)
    → count_held (xs ++ r ∷ ys) ≡ count_held (r ∷ []) + count_held (xs ++ ys)
count_held-middle true [] ys = omega arith
count_held-middle false [] ys = omega arith
count_held-middle r (true ∷ xs) ys = omega (arith, count_held-middle r xs ys)
count_held-middle r (false ∷ xs) ys = count_held-middle r xs ys

module _ (c : Config) (positive : 0 < c.failure_threshold) where
  init-Inv : (key : String) → Inv c (init key c) 0 0
  unfolding init
  init-Inv key = ground arith

  execute-Inv :
      (now : ℕ) (b : Breaker) (calls : List Bool)
      → Inv c b (length calls) (count_held calls)
      → let t = started calls (execute now b) in
        Inv c t.breaker (length t.calls) (count_held t.calls)
  unfolding execute
  execute-Inv now b calls v = ground arith

  trip-Inv : (now : ℕ) (b : Breaker) (n h : ℕ) → Inv c b n h → Inv c (trip now b) n h
  unfolding trip
  trip-Inv now b n h v = ground arith

  reset-Inv : (now : ℕ) (b : Breaker) (n h : ℕ) → Inv c b n h → Inv c (reset now b) n h
  unfolding reset
  reset-Inv now b n h v = ground arith

  push_fits : (n : ℕ) (r : Bool) (w : List Bool) → length w ≤ n → length (push_result n r w) ≤ n
  unfolding push_result
  push_fits n r w h = ground (arith, length-append w (r ∷ []), length-drop 1 (w ++ r ∷ []))

  success-Inv :
      (now : ℕ) (held : Bool) (b : Breaker) (n h : ℕ)
      → Inv c b (suc n) (count_held (held ∷ []) + h)
      → Inv c (settle_success now held b) n h
  unfolding settle_success
  success-Inv now true b n h v =
      ground (arith, push_fits c.window_size true b.window, push_success-le c.window_size b.window)
  success-Inv now false b n h v =
      ground (arith, push_fits c.window_size true b.window, push_success-le c.window_size b.window)

  failure-Inv :
      (now : ℕ) (held : Bool) (e : Failure) (b : Breaker) (n h : ℕ)
      → Inv c b (suc n) (count_held (held ∷ []) + h)
      → Inv c (settle_failure now held e b) n h
  unfolding settle_failure
  failure-Inv now true e b n h v = ground (arith, push_fits c.window_size false b.window)
  failure-Inv now false e b n h v = ground (arith, push_fits c.window_size false b.window)

  abbrev SystemInv : System → Type 0
  SystemInv s = Inv c s.breaker (length s.calls) (count_held s.calls)

  taken :
      (b : Breaker) (held : Bool) (newer older calls : List Bool)
      → calls ≡ newer ++ held ∷ older
      → Inv c b (length calls) (count_held calls)
      → Inv c b
          (suc (length (newer ++ older)))
          (count_held (held ∷ []) + count_held (newer ++ older))
  taken b held newer older calls split v =
      let e : suc (length (newer ++ older)) ≡ length calls =
        sym (ap length split ∙ length-middle held newer older) in
      let d : count_held (held ∷ []) + count_held (newer ++ older) ≡ count_held calls =
        sym (ap count_held split ∙ count_held-middle held newer older) in
      rw (e, d) v

  Step-Inv : {s t : System} → Step s t → SystemInv s → SystemInv t
  Step-Inv {s} {t} (start now e) v = rw e (execute-Inv now s.breaker s.calls v)
  Step-Inv {s} {t} (succeed now held newer older split e) v =
      rw e (success-Inv now held s.breaker _ _ (taken s.breaker held newer older s.calls split v))
  Step-Inv {s} {t} (fail now held f newer older split e) v =
      rw e (failure-Inv now held f s.breaker _ _ (taken s.breaker held newer older s.calls split v))
  Step-Inv {s} {t} (trips now e) v = rw e (trip-Inv now s.breaker _ _ v)
  Step-Inv {s} {t} (resets now e) v = rw e (reset-Inv now s.breaker _ _ v)

  Reach-Inv : {s t : System} → SystemInv s → Reach s t → SystemInv t
  Reach-Inv v here = v
  Reach-Inv v (next r st) = Step-Inv st (Reach-Inv v r)

-- After any interleaving of starting calls, settling calls, trips and resets, at any times, from
-- a new breaker whose failure threshold is positive: the configuration is unchanged; the probes counted are within
-- `halfOpenConcurrency` and within the calls in flight that hold one; the window is within its
-- size; an open circuit knows since when; a closed one has seen fewer failures than the
-- threshold; and no call is counted as settled twice.
pub reachable-Inv :
    (c : Config) (key : String) (s : System)
    → 0 < c.failure_threshold
    → Reach (record { breaker = init key c; calls = [] }) s
    → Inv c s.breaker (length s.calls) (count_held s.calls)
reachable-Inv c key s positive r = Reach-Inv c positive (init-Inv c positive key) r
