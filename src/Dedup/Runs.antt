-- ===== src/Dedup/Runs.antt =====
-- Every run of the map of src/dedup.ts, by induction on its events.
use kinetex.Base.{
  ℕ, ◌≡◌, sym, ◌∙◌, ◌≢◌, false, List, [], ◌∷◌, Option, none, some, arith, ◌==◌, if◌then◌else◌,
  Bool-cases, Option-cases, inl, inr,
}
use kinetex.JsMap
use kinetex.JsMap.{
  get-set_self, get-set_ne, get-delete_ne, get-delete_self, Distinct, Distinct-set, Distinct-delete,
}
use kinetex.Dedup.Keys.{Key, key_discrete, Headers}
use kinetex.Dedup.{
  Entry, Dedup, Leader, init, execute, settle_success, settle_failure, timer_fires, abort,
  run_aborts, clear, invalidate, reset_metrics, without_leader, owns, same_signal,
}
use kinetex.Dedup.Invariant.{
  find_leader, InvOf, Inv, find_leader-without, find_leader-id, Below-without, drop-Inv,
  on_lookup-Inv, if_Inv,
}

-- What happens to a map. A settling names the run; a run that is not there does not settle.
pub data Event : Type 0 where
  executes : ℕ → List ℕ → List ℕ → Headers → Option ℕ → Option ℕ → Event
  succeeds : ℕ → ℕ → Event
  fails : ℕ → Event
  fires invalidates : Key → Event
  aborts : ℕ → Event
  clears resets : Event

abbrev settle : (Leader → Dedup → Dedup) → Option Leader → Dedup → Dedup
settle f none d = d
settle f (some l) d = f l d

unfoldable pub step : Event → Dedup → Dedup
step (executes now method url headers window signal) d =
    (execute now method url headers window signal d).0
step (succeeds now i) d = settle (settle_success now) (find_leader i d.leaders) d
step (fails i) d = settle settle_failure (find_leader i d.leaders) d
step (fires k) d = if JsMap.has key_discrete k d.timeouts then timer_fires k d else d
step (invalidates k) d = (invalidate k d).0
step (aborts s) d = abort s d
step clears d = clear d
step resets d = reset_metrics d

unfoldable pub run : List Event → Dedup → Dedup
run [] d = d
run (e ∷ es) d = run es (step e d)

module _ (l : Leader) (d : Dedup) (runs : find_leader l.id d.leaders ≡ some l) (v : Inv d) where
  -- An entry of the run stands under the key of the run.
  key_of_run :
      (k : Key) (e : Entry)
      → JsMap.get key_discrete k d.inflight ≡ some e
      → e.resolved_at ≡ none
      → e.id ≡ l.id
      → k ≡ l.key
  key_of_run k e h r i = let (m, f, p) = v.led k e h r in ground (arith, f, p, i, runs)

  -- The run is over, and left no entry unresolved.
  over-Inv :
      (m : List (Key × Entry))
      → Distinct key_discrete m
      → ((k : Key) (e : Entry)
          → JsMap.get key_discrete k m ≡ some e
          → e.resolved_at ≡ none
          → (JsMap.get key_discrete k d.inflight ≡ some e) × (e.id ≢ l.id))
      → InvOf m d.next_id (without_leader l.id d.leaders)
  over-Inv m u keeps = record {
    distinct = u;
    below = Below-without l.id d.next_id d.leaders v.below;
    led = λ k e h r.
        let (was, ne) = keeps k e h r in
        let (n, f, p) = v.led k e was r in (n, find_leader-without l.id e.id d.leaders ne ∙ f, p);
  }

  dropped-Inv :
      InvOf (JsMap.delete key_discrete l.key d.inflight) d.next_id (without_leader l.id d.leaders)
  dropped-Inv = over-Inv _ (Distinct-delete key_discrete l.key d.inflight v.distinct) (λ k e h r.
      elim (key_discrete k l.key)
        as (λ _. (JsMap.get key_discrete k d.inflight ≡ some e) × (e.id ≢ l.id)) [
          | yes p ↦ ground (arith, h, p, get-delete_self key_discrete l.key d.inflight v.distinct)
          | no n ↦
              let was = sym (get-delete_ne key_discrete l.key k d.inflight n) ∙ h in
              (was, λ i. n (key_of_run k e was r i))
        ])

  resolved-Inv :
      (now : ℕ)
      → InvOf
          (JsMap.set key_discrete l.key (record { id = l.id; resolved_at = some now }) d.inflight)
          d.next_id
          (without_leader l.id d.leaders)
  resolved-Inv now =
      over-Inv _ (Distinct-set key_discrete l.key done d.inflight v.distinct) (λ k e h r.
        elim (key_discrete k l.key)
          as (λ _. (JsMap.get key_discrete k d.inflight ≡ some e) × (e.id ≢ l.id)) [
            | yes p ↦ ground (arith, h, r, p, get-set_self key_discrete l.key done d.inflight)
            | no n ↦
                let was = sym (get-set_ne key_discrete l.key k done d.inflight n) ∙ h in
                (was, λ i. n (key_of_run k e was r i))
          ])
    where
      done : Entry
      done = record { id = l.id; resolved_at = some now }

  lost-Inv :
      owns l.id (JsMap.get key_discrete l.key d.inflight) ≡ false
      → InvOf d.inflight d.next_id (without_leader l.id d.leaders)
  lost-Inv o =
      over-Inv d.inflight v.distinct
        (λ k e h r. (h, λ i. ground (arith, h, i, o, key_of_run k e h r i)))

  success-Inv : (now : ℕ) → Inv (settle_success now l d)
  unfolding settle_success
  success-Inv now = elim (Bool-cases (owns l.id (JsMap.get key_discrete l.key d.inflight))) [
    | inl o ↦ elim (Bool-cases (l.window_ms == 0)) [
      | inl z ↦ rw (o, z) (dropped-Inv)
      | inr z ↦ rw (o, z) (resolved-Inv now)
    ]
    | inr o ↦ rw o (lost-Inv o)
  ]

  failure-Inv : Inv (settle_failure l d)
  unfolding settle_failure
  failure-Inv = elim (Bool-cases (owns l.id (JsMap.get key_discrete l.key d.inflight))) [
    | inl o ↦ rw o dropped-Inv
    | inr o ↦ rw o (lost-Inv o)
  ]

run_aborts-Inv : (s : ℕ) (ls : List Leader) (d : Dedup) → Inv d → Inv (run_aborts s ls d)
unfolding run_aborts
run_aborts-Inv s [] d v = v
run_aborts-Inv s (l ∷ ls) d v = run_aborts-Inv s ls _ (elim (Bool-cases (same_signal s l.signal)) [
  | inl h ↦ rw h (drop-Inv l.key d v)
  | inr h ↦ rw h v
])

settle-Inv :
    (f : Leader → Dedup → Dedup) (i : ℕ) (d : Dedup)
    → ((l : Leader) → find_leader l.id d.leaders ≡ some l → Inv (f l d))
    → Inv d
    → Inv (settle f (find_leader i d.leaders) d)
settle-Inv f i d keeps v = elim (Option-cases (find_leader i d.leaders)) [
  | inl h ↦ rw h v
  | inr (l, h) ↦ rw h (keeps l (ground (arith, find_leader-id i l d.leaders h, h)))
]

execute-Inv :
    (now : ℕ) (method url : List ℕ) (headers : Headers) (window signal : Option ℕ) (d : Dedup)
    → Inv d
    → Inv (execute now method url headers window signal d).0
unfolding execute
execute-Inv now method url headers window signal d v =
    if_Inv _ _ _ v (on_lookup-Inv (JsMap.get key_discrete _ d.inflight) _ _ _ now d v)

step-Inv : (e : Event) (d : Dedup) → Inv d → Inv (step e d)
unfolding JsMap.get step timer_fires clear invalidate reset_metrics abort
step-Inv (executes now method url headers window signal) d v =
    execute-Inv now method url headers window signal d v
step-Inv (succeeds now i) d v =
    settle-Inv (settle_success now) i d (λ l f. success-Inv l d f v now) v
step-Inv (fails i) d v = settle-Inv settle_failure i d (λ l f. failure-Inv l d f v) v
step-Inv (fires k) d v = elim (Bool-cases (JsMap.has key_discrete k d.timeouts)) [
  | inl h ↦ rw h (drop-Inv k d v)
  | inr h ↦ rw h v
]
step-Inv (invalidates k) d v = drop-Inv k d v
step-Inv (aborts s) d v = run_aborts-Inv s d.leaders _ v
step-Inv clears d v = record {
  distinct = tt;
  below = v.below;
  led = λ k e h r. absurd (ground (arith, h));
}
step-Inv resets d v = v

run-Inv : (es : List Event) (d : Dedup) → Inv d → Inv (run es d)
unfolding run
run-Inv [] d v = v
run-Inv (e ∷ es) d v = run-Inv es (step e d) (step-Inv e d v)

-- After any sequence of calls, settlings, timers, invalidations, aborts, clears and resets of a new
-- map, no key stands twice, and each entry that is not resolved belongs to a run of the factory
-- for the same key that has not settled: no caller shares a promise that nothing will settle.
pub run-init-Inv :
    (es : List Event) (window : ℕ) (methods : List (List ℕ))
    (key_fn : List ℕ → List ℕ → Headers → Key) (signal : Option ℕ)
    → Inv (run es (init window methods key_fn signal))
unfolding init JsMap.get
run-init-Inv es window methods key_fn signal =
    run-Inv es _ (record { distinct = tt; below = tt; led = λ k e h r. absurd (ground (arith, h)) })
