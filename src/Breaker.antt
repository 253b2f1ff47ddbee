-- ===== src/Breaker.antt =====
-- The circuit breaker of src/circuit-breaker.ts. A handler runs at one instant `now`, in
-- milliseconds. The asynchronous call is two steps: `execute` admits or rejects it, and
-- `settle_success` or `settle_failure` runs when its promise settles. A callback of the user is
-- an entry of the log `fired`.
pub mod Settings
pub mod State
pub mod Transitions
pub mod Window
pub mod Opening
pub mod Threshold
pub mod Recovery
pub mod Registry
pub mod Invariant
use kinetex.Base.{
  ℕ, ◌+◌, ◌-◌, Bool, true, false, List, [], ◌∷◌, ◌++◌, Option, none, some, String, ltb, leb,
  if◌then◌else◌, length, drop,
}
use Settings.{Failure, is_countable_failure}
use State.{
  CircuitState, closed, opened, half_open, Snapshot, Fired, on_open, on_close, on_half_open,
  on_rejected, Breaker, count_failures, has_elapsed, snapshot,
}

-- A callback is called with the snapshot of the moment.
abbrev fire : (Snapshot → Fired) → ℕ → Breaker → Breaker
fire callback now b = record b { fired = callback (snapshot now b) ∷ b.fired }

unfoldable pub open_circuit : ℕ → Breaker → Breaker
open_circuit now b = fire on_open now (record b { opened_at = some now; state = opened })

abbrev trip_from : CircuitState → ℕ → Breaker → Breaker
trip_from opened now b = b
trip_from closed now b = open_circuit now b
trip_from half_open now b = open_circuit now b

unfoldable pub trip : ℕ → Breaker → Breaker
unfolding open_circuit
trip now b = trip_from b.state now b

unfoldable pub reset : ℕ → Breaker → Breaker
reset now b = fire on_close now (record b {
  state = closed;
  window = [];
  consecutive_fails = 0;
  consecutive_succ = 0;
  opened_at = none;
  half_open_at = none;
  in_flight_probes = 0;
})

abbrev enter_half_open : ℕ → Breaker → Breaker
enter_half_open now b = fire on_half_open now (record b {
  state = half_open;
  half_open_at = some now;
  consecutive_succ = 0;
  in_flight_probes = 0;
})

abbrev transition_from : CircuitState → Bool → ℕ → Breaker → Breaker
transition_from opened elapsed now b = if elapsed then enter_half_open now b else b
transition_from closed elapsed now b = b
transition_from half_open elapsed now b = b

unfoldable pub check_transition : ℕ → Breaker → Breaker
check_transition now b =
    transition_from b.state (has_elapsed b.opened_at b.config.reset_timeout_ms now) now b

-- `push`, then `shift` if the window has grown past its size.
unfoldable pub push_result : ℕ → Bool → List Bool → List Bool
push_result size r w =
    let grown = w ++ r ∷ [] in if ltb size (length grown) then drop 1 grown else grown

abbrev push_to_window : Bool → Breaker → Breaker
push_to_window r b =
    if ltb 0 b.config.window_size
    then record b { window = push_result b.config.window_size r b.window }
    else b

abbrev success_in : CircuitState → ℕ → Breaker → Breaker
success_in opened now b = b
success_in half_open now b =
    let c = record b { consecutive_succ = b.consecutive_succ + 1 } in
    if leb c.config.success_threshold c.consecutive_succ then reset now c else c
success_in closed now b = push_to_window true b

unfoldable pub record_success : ℕ → Breaker → Breaker
unfolding reset
record_success now b = success_in b.state now (record b {
  last_success_at = some now;
  total_successes = b.total_successes + 1;
  consecutive_fails = 0;
})

-- What the threshold is compared with: failures in the window, or failures in a row.
abbrev pub failures_seen : Breaker → ℕ
failures_seen b =
    if ltb 0 b.config.window_size then count_failures b.window else b.consecutive_fails

abbrev failure_in : CircuitState → ℕ → Breaker → Breaker
failure_in opened now b = b
failure_in half_open now b = open_circuit now b
failure_in closed now b =
    let c = push_to_window false b in
    if leb c.config.failure_threshold (failures_seen c) then open_circuit now c else c

unfoldable pub record_failure : ℕ → Breaker → Breaker
unfolding open_circuit
record_failure now b = failure_in b.state now (record b {
  last_failure_at = some now;
  total_failures = b.total_failures + 1;
  consecutive_succ = 0;
  consecutive_fails = b.consecutive_fails + 1;
})

pub data Admission : Type 0 where
  -- The promise is rejected with a `CircuitOpenError` of this key and snapshot.
  rejected : String → Snapshot → Admission
  -- The call runs; the flag says whether it holds a half-open probe.
  admitted : Bool → Admission

abbrev reject : ℕ → Breaker → Breaker × Admission
reject now b =
    let c = record b { total_rejected = b.total_rejected + 1 } in
    (fire on_rejected now c, rejected c.key (snapshot now c))

abbrev admit_in : CircuitState → ℕ → Breaker → Breaker × Admission
admit_in opened now b = reject now b
admit_in closed now b = (record b { total_requests = b.total_requests + 1 }, admitted false)
admit_in half_open now b =
    if leb b.config.half_open_concurrency b.in_flight_probes then reject now b else (
      record b { in_flight_probes = b.in_flight_probes + 1; total_requests = b.total_requests + 1 },
      admitted true,
    )

-- The synchronous part of `execute`.
unfoldable pub execute : ℕ → Breaker → Breaker × Admission
unfolding check_transition
execute now b = let c = check_transition now b in admit_in c.state now c

-- `Math.max(0, n - 1)` is the subtraction that stops at 0.
abbrev release_probe : Bool → Breaker → Breaker
release_probe true b = record b { in_flight_probes = b.in_flight_probes - 1 }
release_probe false b = b

unfoldable pub settle_success : ℕ → Bool → Breaker → Breaker
unfolding record_success
settle_success now held b = record_success now (release_probe held b)

unfoldable pub settle_failure : ℕ → Bool → Failure → Breaker → Breaker
unfolding record_failure
settle_failure now held e b =
    let c = release_probe held b in
    if is_countable_failure c.config.failure_filter e then record_failure now c else c
