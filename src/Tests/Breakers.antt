-- ===== src/Tests/Breakers.antt =====
-- Runs of the circuit breaker, and its theorems at concrete breakers.
use kinetex.Base.{◌≡◌, refl, true, false, [], ◌∷◌, none, some, arith, string_discrete, ◌≢◌, String}
use text.Mathlib.TextEquality.{eq_iff}
use kinetex.JsMap
use kinetex.Breaker.{admitted, execute, settle_success, settle_failure, trip, reset, push_result}
use kinetex.Breaker.Settings.{Options, Failure, resolve, is_countable_failure}
use kinetex.Breaker.State.{closed, opened, half_open, Breaker, init, snapshot, effective_state}
use kinetex.Breaker.Transitions.{
  calls_follow_diagram, opening_announced_once, execute-effective_state, is_edge, is_admitted,
  may_run, AnnouncesOpening,
}
use kinetex.Breaker.Opening.{record_results, opens_on_recent_failures}
use kinetex.Breaker.Threshold.{record_failures, threshold_is_reached}
use kinetex.Breaker.Recovery.{
  execute_all, NoneAdmitted, open_rejects, timeout_admits_probe, settle_successes, probes_close,
}
use kinetex.Breaker.Invariant.{System, Step, Reach, Inv, reachable-Inv}
use kinetex.Breaker.Registry
use kinetex.Breaker.Registry.{Registry, breaker_of, operations_isolated}

abbrev options : Options
options = record {
  failure_threshold = some 2;
  window_size = some 1;
  reset_timeout_ms = some 100;
  success_threshold = some 2;
  half_open_concurrency = some 2;
  failures = none;
}

abbrev fresh : Breaker
unfolding init resolve
fresh = init "https://a" (resolve options)

abbrev network_error : Failure
network_error = record { is_error = true; code = some "ENETWORK"; status = none }

program : Unit {0}
unfolding execute settle_success settle_failure trip reset push_result init resolve snapshot
    string_discrete is_countable_failure
program = tt

-- A window of 1 is widened to the threshold 2, and two failures open the circuit.
window_is_widened :
    (fresh.config.window_size ≡ 2)
    × ((settle_failure 6 false network_error (settle_failure 5 false network_error fresh)).state
        ≡ opened)
unfolding program
window_is_widened = (refl, refl)

-- One call in flight that fails, from a new breaker.
abbrev one_failure : System
unfolding init resolve
one_failure = record {
  breaker = settle_failure 6 false network_error (execute 5 fresh).0;
  calls = [];
}

one_failure_reached : Reach (record { breaker = fresh; calls = [] }) one_failure
unfolding program
one_failure_reached =
    Reach.next (Reach.next Reach.here (Step.start 5 refl))
      (Step.fail 6 false network_error [] [] refl refl)

reachable-Inv_example : Inv (resolve options) one_failure.breaker 0 0
unfolding init resolve
reachable-Inv_example =
    reachable-Inv (resolve options) "https://a" one_failure (omega arith) one_failure_reached

opens_on_recent_failures_example :
    (record_results ((1, false) ∷ (2, true) ∷ (3, false) ∷ (4, false) ∷ []) fresh).state ≡ opened
unfolding init resolve
opens_on_recent_failures_example =
    opens_on_recent_failures ((1, false) ∷ (2, true) ∷ (3, false) ∷ (4, false) ∷ []) fresh refl refl
      (omega arith) (omega arith)

threshold_is_reached_example : (record_failures (5 ∷ 6 ∷ []) fresh).state ≡ opened
unfolding init resolve
threshold_is_reached_example =
    threshold_is_reached options (5 ∷ 6 ∷ []) fresh refl refl (omega arith) (omega arith)

abbrev tripped : Breaker
unfolding init resolve
tripped = trip 10 fresh

open_rejects_example :
    let r = execute_all (50 ∷ 20 ∷ 109 ∷ []) tripped in
    (NoneAdmitted "https://a" r.1)
    × (r.0 ≡ record tripped { total_rejected = 3; fired = r.0.fired })
unfolding program
open_rejects_example =
    open_rejects (50 ∷ 20 ∷ 109 ∷ []) 10 tripped refl refl
      (omega arith, (omega arith, (omega arith, tt)))

timeout_admits_probe_example :
    let c = (execute 110 tripped).0 in
    ((execute 110 tripped).1 ≡ admitted true)
    × (c.state ≡ half_open)
    × (c.half_open_at ≡ some 110)
    × (c.in_flight_probes ≡ 1)
    × (c.consecutive_succ ≡ 0)
    × (c.total_requests ≡ 1)
unfolding program
timeout_admits_probe_example =
    timeout_admits_probe 110 10 tripped refl refl (omega arith) (omega arith)

abbrev probing : Breaker
unfolding program
probing = (execute 110 tripped).0

probes_close_example : (settle_successes ((111, true) ∷ (112, true) ∷ []) probing).state ≡ closed
unfolding program
probes_close_example = probes_close ((111, true) ∷ (112, true) ∷ []) probing refl (omega arith)

calls_follow_diagram_example :
    (is_edge opened (execute 110 tripped).0.state ≡ true)
    × (is_edge opened (settle_success 110 true tripped).state ≡ true)
    × (is_edge opened (settle_failure 110 true network_error tripped).state ≡ true)
unfolding program
calls_follow_diagram_example = calls_follow_diagram 110 true network_error tripped

opening_announced_once_example :
    AnnouncesOpening probing (execute 111 probing).0
    × AnnouncesOpening probing (settle_success 111 true probing)
    × AnnouncesOpening probing (settle_failure 111 true network_error probing)
    × AnnouncesOpening probing (trip 111 probing)
    × AnnouncesOpening probing (reset 111 probing)
opening_announced_once_example = opening_announced_once 111 true network_error probing

execute-effective_state_example :
    ((execute 50 tripped).0.state ≡ effective_state 50 tripped)
    × (is_admitted (execute 50 tripped).1 ≡ may_run 50 tripped)
execute-effective_state_example = execute-effective_state 50 tripped

-- One origin has an open circuit, and another one has a fresh one.
abbrev registry : Registry
unfolding program
registry = record {
  breakers = ("https://a", tripped) ∷ ("https://b", init "https://b" (resolve options)) ∷ [];
  default_config = options;
}

other_key : ◌≢◌ {A = String} "https://a" "https://b"
other_key = ground (arith, eq_iff "https://a" "https://b")

no_key_twice : JsMap.Distinct string_discrete registry.breakers
unfolding program JsMap.get string_discrete
no_key_twice = (refl, (refl, tt))

operations_isolated_example :
    let lookup = λ (k : String) (t : Registry). JsMap.get string_discrete k t.breakers in
    let b = breaker_of registry "https://b" none in
    let after = Registry.execute 50 registry "https://b" none in
    (lookup "https://b" after.0 ≡ some (execute 50 b).0)
    × (after.1 ≡ (execute 50 b).1)
    × (lookup "https://b" (Registry.trip 50 registry "https://b") ≡ some (trip 50 b))
    × (lookup "https://b" (Registry.reset 50 registry "https://b") ≡ some (reset 50 b))
    × (lookup "https://b" (Registry.delete registry "https://b") ≡ none)
    × (lookup "https://a" after.0 ≡ lookup "https://a" registry)
    × (lookup "https://a" (Registry.trip 50 registry "https://b") ≡ lookup "https://a" registry)
    × (lookup "https://a" (Registry.reset 50 registry "https://b") ≡ lookup "https://a" registry)
    × (lookup "https://a" (Registry.delete registry "https://b") ≡ lookup "https://a" registry)
operations_isolated_example =
    operations_isolated 50 registry "https://b" "https://a" none other_key no_key_twice

-- Two probes are allowed. One fails while the other is in flight; after the timeout two more
-- start, and when the late one settles it frees a slot that it does not hold: three probes of the
-- new half-open phase are in flight.
abbrev late_probe : Breaker
unfolding program
late_probe =
    let first = (execute 110 (execute 110 tripped).0).0 in
    let again = settle_failure 111 true network_error first in
    settle_success 212 true (execute 211 (execute 211 again).0).0

late_probe_frees_slot :
    ((execute 213 late_probe).1 ≡ admitted true) × (late_probe.in_flight_probes ≡ 1)
unfolding program
late_probe_frees_slot = (refl, refl)
