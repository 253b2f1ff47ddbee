-- ===== src/Tests/Dedups.antt =====
-- Runs of the deduplication map, and its theorems at concrete maps.
use kinetex.Base.{
  ℕ, ◌≡◌, refl, List, [], ◌∷◌, Option, none, some, arith, length, map, ℕ_discrete, to_upper_text,
  text_discrete, codes, to_lower_text,
}
use kinetex.JsMap
use kinetex.Dedup.Keys.{Key, key_discrete, Headers}
use kinetex.Dedup.{
  Dedup, Leader, shares, leads, init, execute, settle_success, settle_failure, timer_fires, abort,
  clear, invalidate, reset_metrics,
}
use mathlib.Core.List.{Permᴰ}
use kinetex.Dedup.DefaultKey.{
  text_leq, insert_text, sort_texts, default_dedup_key, default_key_forgets_order,
}
use kinetex.Dedup.Coalescing.{
  Call, call, burst, burst_runs_once, settle-keep_others, Accounted, call-Accounted,
}
use kinetex.Dedup.Invariant.{Inv}
use kinetex.Dedup.Runs.{
  Event, step, run, run-init-Inv, executes, succeeds, fails, fires, aborts, clears,
}

program : Unit {0}
unfolding JsMap.get JsMap.set JsMap.delete JsMap.has to_upper_text text_discrete init execute
    settle_success settle_failure timer_fires abort clear invalidate reset_metrics burst step run
    ℕ_discrete
program = tt

abbrev get_upper : List ℕ
get_upper = b'G' ∷ b'E' ∷ b'T' ∷ []

abbrev get_method : List ℕ
get_method = b'g' ∷ b'e' ∷ b't' ∷ []

-- Keys are URLs here.
abbrev by_url : List ℕ → List ℕ → Headers → Key
by_url method url headers = url

abbrev fresh : Dedup
unfolding program
fresh = init 100 (get_upper ∷ []) by_url none

abbrev asks : ℕ → Option ℕ → Option ℕ → Event
asks now window signal = executes now get_method (b'u' ∷ []) [] window signal

abbrev plain : ℕ → Call
plain now = record {
  at = now;
  method = get_method;
  url = b'u' ∷ [];
  headers = [];
  window_ms = none;
  signal = none;
}

burst_runs_once_example :
    let r = burst (plain 0 ∷ plain 1 ∷ plain 2 ∷ []) fresh in
    (r.1 ≡ leads 0 ∷ shares 0 ∷ shares 0 ∷ [])
    × (r.0.misses ≡ 1)
    × (r.0.hits ≡ 2)
    × (length r.0.leaders ≡ 1)
    × (JsMap.get key_discrete (b'u' ∷ []) r.0.inflight
        ≡ some (record { id = 0; resolved_at = none }))
unfolding program
burst_runs_once_example =
    burst_runs_once (b'u' ∷ []) (plain 0) (plain 1 ∷ plain 2 ∷ []) fresh
      ((refl, refl), ((refl, refl), ((refl, refl), tt))) refl

-- Run 0 lost its key to run 1 by a `clear`.
abbrev cleared : Dedup
unfolding program
cleared = run (asks 0 none (some 7) ∷ clears ∷ asks 1 none none ∷ []) fresh

abbrev lost : Leader
lost = record { id = 0; key = b'u' ∷ []; window_ms = 100; signal = some 7 }

settle-keep_others_example :
    (JsMap.get key_discrete (b'u' ∷ []) (settle_success 5 lost cleared).inflight
      ≡ some (record { id = 1; resolved_at = none }))
    × (JsMap.get key_discrete (b'u' ∷ []) (settle_failure lost cleared).inflight
        ≡ some (record { id = 1; resolved_at = none }))
unfolding program
settle-keep_others_example =
    settle-keep_others 5 lost cleared (b'u' ∷ []) (record { id = 1; resolved_at = none }) refl
      (ground arith)

call-Accounted_example : Accounted (b'u' ∷ []) (shares 1) cleared (call (plain 2) cleared).0
unfolding program
call-Accounted_example = call-Accounted (plain 2) cleared

run-init-Inv_example : Inv cleared
unfolding program
run-init-Inv_example =
    run-init-Inv (asks 0 none (some 7) ∷ clears ∷ asks 1 none none ∷ []) 100 (get_upper ∷ []) by_url
      none

-- A call whose own window has lapsed leads, but the timer of the entry that it drops is not
-- cleared: when it fires it drops the new entry, whose run is in flight, and a third run starts.
stale_timer_drops_entry :
    let d =
      run
        (asks 0 none none ∷ succeeds 0 0 ∷ asks 50 (some 10) none ∷ fires (b'u' ∷ []) ∷ [])
        fresh in
    (d.inflight ≡ [])
    × (map (λ (l : Leader). l.id) d.leaders ≡ 1 ∷ [])
    × ((call (plain 101) d).1 ≡ leads 2)
unfolding program
stale_timer_drops_entry = (refl, refl, refl)

-- The abort listener of a run that has lost its key drops the entry that a later run put there.
stale_abort_drops_entry :
    let d = run (aborts 7 ∷ []) cleared in (d.inflight ≡ []) × ((call (plain 2) d).1 ≡ leads 2)
unfolding program
stale_abort_drops_entry = (refl, refl)

-- The failure of a run that has lost its key clears the window timer of a later run's entry, which
-- then stays in the map.
stale_failure_clears_timer :
    let d = run (succeeds 5 1 ∷ fails 0 ∷ []) cleared in
    (d.inflight ≡ (b'u' ∷ [], record { id = 1; resolved_at = some 5 }) ∷ [])
    × (d.timeouts ≡ [])
    × (d.leaders ≡ [])
unfolding program
stale_failure_clears_timer = (refl, refl, refl)

default_key_forgets_order_example :
    default_dedup_key get_upper
      (b'u' ∷ [])
      (some ((codes "A", codes "1") ∷ (codes "B", codes "2") ∷ []))
    ≡ default_dedup_key get_upper
        (b'u' ∷ [])
        (some ((codes "B", codes "2") ∷ (codes "A", codes "1") ∷ []))
default_key_forgets_order_example =
    default_key_forgets_order get_upper (b'u' ∷ [])
      ((codes "A", codes "1") ∷ (codes "B", codes "2") ∷ [])
      ((codes "B", codes "2") ∷ (codes "A", codes "1") ∷ []) (Permᴰ.swap refl refl)

default_keys :
    (default_dedup_key
        (codes "GET")
        (codes "u")
        (some ((codes "B", codes "2") ∷ (codes "A", codes "1") ∷ []))
      ≡ codes "GET::u::a=1&b=2")
    × (default_dedup_key (codes "GET") (codes "u") (some ((codes "TraceParent", codes "2") ∷ []))
        ≡ codes "GET::u")
unfolding program text_leq insert_text sort_texts default_dedup_key to_lower_text
default_keys = (refl, refl)
