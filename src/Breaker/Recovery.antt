-- ===== src/Breaker/Recovery.antt =====
-- How a circuit of src/circuit-breaker.ts gets out of OPEN and HALF_OPEN.
use kinetex.Base.{
  suc, ap, ◌∙◌, sym, subst, ℕ, ◌+◌, ◌-◌, ◌≤◌, ◌<◌, ◌≡◌, ◌⊎◌, inl, inr, Bool, true, false, List, [],
  ◌∷◌, some, arith, leb, if◌then◌else◌, length, String,
}
use kinetex.Breaker.Settings.{Failure, is_countable_failure}
use kinetex.Breaker.State.{closed, opened, half_open, Breaker, snapshot}
use kinetex.Breaker.{Admission, rejected, admitted, execute, settle_success, settle_failure}

-- Calls that start one after another, whatever their times.
unfoldable pub execute_all : List ℕ → Breaker → Breaker × List Admission
unfolding execute
execute_all [] b = (b, [])
execute_all (now ∷ times) b =
    let (c, admission) = execute now b in
    let (d, admissions) = execute_all times c in (d, admission ∷ admissions)

abbrev pub AllBefore : ℕ → List ℕ → Type 0
AllBefore t [] = Unit
AllBefore t (now ∷ times) = (now < t) × AllBefore t times

-- Each call is rejected with the key of the breaker, and a snapshot of an open circuit.
abbrev pub IsRejected : String → Admission → Type 0
IsRejected key (rejected k s) = (k ≡ key) × (s.state ≡ opened)
IsRejected key (admitted probe) = ⊥

abbrev pub NoneAdmitted : String → List Admission → Type 0
NoneAdmitted key [] = Unit
NoneAdmitted key (a ∷ rest) = IsRejected key a × NoneAdmitted key rest

open_rejects_one :
    (now t : ℕ) (b : Breaker)
    → b.state ≡ opened
    → b.opened_at ≡ some t
    → now < t + b.config.reset_timeout_ms
    → let c = (execute now b).0 in
      (c ≡ record b { total_rejected = b.total_rejected + 1; fired = c.fired })
      × IsRejected b.key (execute now b).1
unfolding execute snapshot
open_rejects_one now t b e o early = ground arith

rejections_add :
    (b c d : Breaker) (n : ℕ)
    → c ≡ record b { total_rejected = b.total_rejected + 1; fired = c.fired }
    → d ≡ record c { total_rejected = c.total_rejected + n; fired = d.fired }
    → d ≡ record b { total_rejected = b.total_rejected + suc n; fired = d.fired }
rejections_add b c d n p q =
    q
    ∙ ap (λ (x : Breaker). record x { total_rejected = x.total_rejected + n; fired = d.fired }) p
    ∙ ap (λ m. record b { total_rejected = m; fired = d.fired }) (omega arith)

-- However many calls come before the reset timeout, an open circuit admits none of them, rejecting
-- each with its key and a snapshot of an open circuit; it counts exactly these rejections, and but
-- for the log of callbacks it is what it was: it stays open, and no call puts the timeout off.
pub open_rejects :
    (times : List ℕ) (t : ℕ) (b : Breaker)
    → b.state ≡ opened
    → b.opened_at ≡ some t
    → AllBefore (t + b.config.reset_timeout_ms) times
    → let r = execute_all times b in
      NoneAdmitted b.key r.1
      × (r.0 ≡ record b { total_rejected = b.total_rejected + length times; fired = r.0.fired })
unfolding execute_all
open_rejects [] t b e o early = (tt, ap (λ n. record b { total_rejected = n }) (omega arith))
open_rejects (now ∷ times) t b e o early =
    let one = open_rejects_one now t b e o early.0 in
    let c = (execute now b).0 in
    let rest =
      open_rejects times t c (ap (λ (x : Breaker). x.state) one.0 ∙ e)
        (ap (λ (x : Breaker). x.opened_at) one.0 ∙ o)
        (subst (λ (x : Breaker). AllBefore (t + x.config.reset_timeout_ms) times) (sym one.0)
          early.1) in
    (
      (one.1, subst (λ (x : Breaker). NoneAdmitted x.key (execute_all times c).1) one.0 rest.0),
      rejections_add b c (execute_all times c).0 (length times) one.0 rest.1,
    )

-- From the reset timeout on, the first call runs as the only counted probe of a half-open circuit
-- with no successes yet, if the configuration allows any probe.
pub timeout_admits_probe :
    (now t : ℕ) (b : Breaker)
    → b.state ≡ opened
    → b.opened_at ≡ some t
    → t + b.config.reset_timeout_ms ≤ now
    → 0 < b.config.half_open_concurrency
    → let c = (execute now b).0 in
      ((execute now b).1 ≡ admitted true)
      × (c.state ≡ half_open)
      × (c.half_open_at ≡ some now)
      × (c.in_flight_probes ≡ 1)
      × (c.consecutive_succ ≡ 0)
      × (c.total_requests ≡ b.total_requests + 1)
unfolding execute
timeout_admits_probe now t b e o late positive = ground arith

-- Calls that succeed one after another, each with its time and whether it holds a probe.
pub settle_successes : List (ℕ × Bool) → Breaker → Breaker
settle_successes [] b = b
settle_successes ((now, held) ∷ cs) b = settle_successes cs (settle_success now held b)

stays_closed :
    (cs : List (ℕ × Bool)) (b : Breaker) → b.state ≡ closed → (settle_successes cs b).state ≡ closed
unfolding settle_successes settle_success
stays_closed [] b e = e
stays_closed ((now, true) ∷ cs) b e = stays_closed cs (settle_success now true b) (ground arith)
stays_closed ((now, false) ∷ cs) b e = stays_closed cs (settle_success now false b) (ground arith)

half_open_success :
    (now : ℕ) (held : Bool) (b : Breaker)
    → b.state ≡ half_open
    → let c = settle_success now held b in
      (c.config ≡ b.config)
      × (((b.consecutive_succ + 1 < b.config.success_threshold)
            × (c.state ≡ half_open)
            × (c.consecutive_succ ≡ b.consecutive_succ + 1))
          ⊎ ((b.config.success_threshold ≤ b.consecutive_succ + 1) × (c.state ≡ closed)))
unfolding settle_success
half_open_success now true b e = ground arith
half_open_success now false b e = ground arith

-- In a half-open circuit `successThreshold` successes in a row close the circuit, and fewer leave
-- it half-open.
pub probes_close :
    (cs : List (ℕ × Bool)) (b : Breaker)
    → b.state ≡ half_open
    → b.consecutive_succ < b.config.success_threshold
    → (settle_successes cs b).state ≡ (
        if leb b.config.success_threshold (b.consecutive_succ + length cs)
        then closed
        else half_open)
unfolding settle_successes
probes_close [] b e below = ground arith
probes_close ((now, held) ∷ cs) b e below =
    let c = settle_success now held b in
    let (same, r) = half_open_success now held b e in
    elim r [
      | inl (under, h, counted) ↦ ground (arith, probes_close cs c h (rw (same, counted) under))
      | inr (reached, h) ↦ ground (arith, stays_closed cs c h)
    ]

-- In a half-open circuit one countable failure opens it again from that moment, and one that the
-- filter does not count leaves it half-open with its successes, giving back the probe only.
probe_failure :
    (now : ℕ) (held : Bool) (e : Failure) (b : Breaker)
    → b.state ≡ half_open
    → let c = settle_failure now held e b in
      (c.state ≡ (if is_countable_failure b.config.failure_filter e then opened else half_open))
      × (c.opened_at
          ≡ (if is_countable_failure b.config.failure_filter e then some now else b.opened_at))
      × (c.consecutive_succ
          ≡ (if is_countable_failure b.config.failure_filter e then 0 else b.consecutive_succ))
      × (c.in_flight_probes ≡ (if held then b.in_flight_probes - 1 else b.in_flight_probes))
unfolding settle_failure
probe_failure now true e b h = ground arith
probe_failure now false e b h = ground arith
