-- ===== src/Breaker/Transitions.antt =====
-- The moves of the state machine of src/circuit-breaker.ts, and what its callbacks see of them.
use kinetex.Base.{ℕ, ◌+◌, ◌≡◌, Bool, true, false, List, [], ◌∷◌, arith, leb, if◌then◌else◌}
use kinetex.Breaker.Settings.{Failure}
use kinetex.Breaker.State.{
  CircuitState, closed, opened, half_open, Fired, on_open, Breaker, effective_state,
}
use kinetex.Breaker.{
  Admission, admitted, rejected, execute, settle_success, settle_failure, trip, reset,
}

-- The arrows of the diagram in the source's header, and staying put.
abbrev pub is_edge : CircuitState → CircuitState → Bool
is_edge closed half_open = false
is_edge opened closed = false
is_edge _ _ = true

execute_edge : (now : ℕ) (b : Breaker) → is_edge b.state (execute now b).0.state ≡ true
unfolding execute
execute_edge now b = ground arith

settle_success_edge :
    (now : ℕ) (held : Bool) (b : Breaker) → is_edge b.state (settle_success now held b).state ≡ true
unfolding settle_success
settle_success_edge now true b = ground arith
settle_success_edge now false b = ground arith

settle_failure_edge :
    (now : ℕ) (held : Bool) (e : Failure) (b : Breaker)
    → is_edge b.state (settle_failure now held e b).state ≡ true
unfolding settle_failure
settle_failure_edge now true e b = ground arith
settle_failure_edge now false e b = ground arith

-- A call, whenever it starts or settles and whatever it holds, moves the circuit along an arrow
-- of the diagram only: closed to open, open to half-open, half-open to closed or open.
pub calls_follow_diagram :
    (now : ℕ) (held : Bool) (e : Failure) (b : Breaker)
    → (is_edge b.state (execute now b).0.state ≡ true)
      × (is_edge b.state (settle_success now held b).state ≡ true)
      × (is_edge b.state (settle_failure now held e b).state ≡ true)
calls_follow_diagram now held e b =
    (execute_edge now b, settle_success_edge now held b, settle_failure_edge now held e b)

-- How often a circuit was announced open.
abbrev pub count_opens : List Fired → ℕ
count_opens [] = 0
count_opens (on_open s ∷ fs) = count_opens fs + 1
count_opens (_ ∷ fs) = count_opens fs

-- 1 for a move into OPEN from another state.
abbrev pub opening : CircuitState → CircuitState → ℕ
opening closed opened = 1
opening half_open opened = 1
opening _ _ = 0

abbrev pub AnnouncesOpening : Breaker → Breaker → Type 0
AnnouncesOpening b c = count_opens c.fired ≡ count_opens b.fired + opening b.state c.state

execute_announces : (now : ℕ) (b : Breaker) → AnnouncesOpening b (execute now b).0
unfolding execute
execute_announces now b = ground arith

success_announces :
    (now : ℕ) (held : Bool) (b : Breaker) → AnnouncesOpening b (settle_success now held b)
unfolding settle_success
success_announces now true b = ground arith
success_announces now false b = ground arith

failure_announces :
    (now : ℕ) (held : Bool) (e : Failure) (b : Breaker)
    → AnnouncesOpening b (settle_failure now held e b)
unfolding settle_failure
failure_announces now true e b = ground arith
failure_announces now false e b = ground arith

trip_announces : (now : ℕ) (b : Breaker) → AnnouncesOpening b (trip now b)
unfolding trip
trip_announces now b = ground arith

reset_announces : (now : ℕ) (b : Breaker) → AnnouncesOpening b (reset now b)
unfolding reset
reset_announces now b = ground arith

-- `onOpen` is called once for each move into OPEN, and never without one, by every operation:
-- two failing probes, or a trip of an open circuit, announce nothing twice.
pub opening_announced_once :
    (now : ℕ) (held : Bool) (e : Failure) (b : Breaker)
    → AnnouncesOpening b (execute now b).0
      × AnnouncesOpening b (settle_success now held b)
      × AnnouncesOpening b (settle_failure now held e b)
      × AnnouncesOpening b (trip now b)
      × AnnouncesOpening b (reset now b)
opening_announced_once now held e b = (
  execute_announces now b,
  success_announces now held b,
  failure_announces now held e b,
  trip_announces now b,
  reset_announces now b,
)

-- What a caller can tell from the public getters: closed, or half-open with a probe slot left.
-- (Once the reset timeout has elapsed every slot is free.)
unfoldable pub may_run : ℕ → Breaker → Bool
may_run now b = runs b.state (effective_state now b) b
  where
    runs : CircuitState → CircuitState → Breaker → Bool
    runs closed _ c = true
    runs opened half_open c = if leb c.config.half_open_concurrency 0 then false else true
    runs opened _ c = false
    runs half_open _ c =
        if leb c.config.half_open_concurrency c.in_flight_probes then false else true

abbrev pub is_admitted : Admission → Bool
is_admitted (admitted held) = true
is_admitted (rejected key s) = false

-- `execute` leaves the circuit in the state that the `state` getter showed, and admits the call
-- exactly when the getter shows CLOSED, or HALF_OPEN with a free probe.
pub execute-effective_state :
    (now : ℕ) (b : Breaker)
    → ((execute now b).0.state ≡ effective_state now b)
      × (is_admitted (execute now b).1 ≡ may_run now b)
unfolding execute effective_state may_run
execute-effective_state now b = ground arith
