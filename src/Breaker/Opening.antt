-- ===== src/Breaker/Opening.antt =====
-- When a closed circuit opens (src/circuit-breaker.ts), against the description in its
-- documentation: the sliding window is the last `windowSize` results.
use kinetex.Base.{
  ℕ, ◌≤◌, ◌<◌, ◌≡◌, refl, sym, ap, ◌∙◌, Bool, true, false, ◌||◌, List, [], ◌∷◌, ◌++◌, arith, leb,
  if◌then◌else◌, dec_lt,
}
use kinetex.Breaker.State.{closed, opened, Breaker, count_failures}
use kinetex.Breaker.{record_success, record_failure}
use kinetex.Breaker.Window.{take_last, take_last-nil, push_result-take_last, push_success-le}

-- A result of the call, as the breaker records it.
abbrev pub record_result : ℕ → Bool → Breaker → Breaker
record_result now true b = record_success now b
record_result now false b = record_failure now b

pub record_results : List (ℕ × Bool) → Breaker → Breaker
record_results [] b = b
record_results ((now, r) ∷ rs) b = record_results rs (record_result now r b)

-- The description: the circuit opens at the first point where at least `threshold` of the last
-- `n` results are failures.
abbrev pub trips_at : ℕ → ℕ → List Bool → List (ℕ × Bool) → Bool
trips_at n threshold hist [] = false
trips_at n threshold hist ((now, r) ∷ rs) =
    leb threshold (count_failures (take_last n (hist ++ r ∷ [])))
    || trips_at n threshold (hist ++ r ∷ []) rs

stays_open :
    (rs : List (ℕ × Bool)) (b : Breaker) → b.state ≡ opened → (record_results rs b).state ≡ opened
unfolding record_results
stays_open [] b e = e
stays_open ((now, true) ∷ rs) b e =
    stays_open rs (record_success now b) (unfold record_success in ground arith)
stays_open ((now, false) ∷ rs) b e =
    stays_open rs (record_failure now b) (unfold record_failure in ground arith)

record Follows (n threshold : ℕ) (hist : List Bool) (b : Breaker) : Type 0 where
  is_closed : b.state ≡ closed
  size : b.config.window_size ≡ n
  limit : b.config.failure_threshold ≡ threshold
  window : b.window ≡ take_last n hist
  below : count_failures (take_last n hist) < threshold

module _ (n threshold : ℕ) (sized : 0 < n) (hist : List Bool) (now : ℕ) (b : Breaker)
    (f : Follows n threshold hist b) where
  success_below : count_failures (take_last n (hist ++ true ∷ [])) < threshold
  success_below = omega (
    arith,
    ap count_failures (push_result-take_last n true hist),
    push_success-le n (take_last n hist),
    f.below,
  )

  success-Follows : Follows n threshold (hist ++ true ∷ []) (record_success now b)
  unfolding record_success
  success-Follows = record {
    is_closed = ground arith;
    size = ground arith;
    limit = ground arith;
    window = ground (arith, push_result-take_last n true hist);
    below = success_below;
  }

  failure-Follows :
      count_failures (take_last n (hist ++ false ∷ [])) < threshold
      → Follows n threshold (hist ++ false ∷ []) (record_failure now b)
  unfolding record_failure
  failure-Follows h = record {
    is_closed = ground (arith, push_result-take_last n false hist);
    size = ground arith;
    limit = ground arith;
    window = ground (arith, push_result-take_last n false hist);
    below = h;
  }

  failure_opens :
      threshold ≤ count_failures (take_last n (hist ++ false ∷ []))
      → (record_failure now b).state ≡ opened
  unfolding record_failure
  failure_opens h = ground (arith, push_result-take_last n false hist)

record_results-trips_at :
    (n threshold : ℕ)
    → 0 < n
    → (rs : List (ℕ × Bool)) (hist : List Bool) (b : Breaker) → Follows n threshold hist b
    → (record_results rs b).state ≡ (if trips_at n threshold hist rs then opened else closed)
unfolding record_results
record_results-trips_at n threshold sized [] hist b f = f.is_closed
record_results-trips_at n threshold sized ((now, true) ∷ rs) hist b f =
    let below = success_below n threshold sized hist now b f in
    ground (
      arith,
      record_results-trips_at n threshold sized rs (hist ++ true ∷ []) (record_success now b)
          (success-Follows n threshold sized hist now b f),
    )
record_results-trips_at n threshold sized ((now, false) ∷ rs) hist b f =
    elim (dec_lt (count_failures (take_last n (hist ++ false ∷ []))) threshold) [
      | yes below ↦ ground (
        arith,
        record_results-trips_at n threshold sized rs (hist ++ false ∷ []) (record_failure now b)
            (failure-Follows n threshold sized hist now b f below),
      )
      | no reached ↦ ground (
        arith,
        stays_open rs (record_failure now b)
            (failure_opens n threshold sized hist now b f (omega arith)),
      )
    ]

-- A closed circuit with an empty window, whose window size and threshold are both positive (so that
-- it is not in the mode of consecutive failures), fed with any results, is open exactly if at some point
-- at least `failureThreshold` of the last `windowSize` results were failures, and is closed else.
pub opens_on_recent_failures :
    (rs : List (ℕ × Bool)) (b : Breaker)
    → b.state ≡ closed
    → b.window ≡ []
    → 0 < b.config.window_size
    → 0 < b.config.failure_threshold
    → (record_results rs b).state
      ≡ (if trips_at b.config.window_size b.config.failure_threshold [] rs then opened else closed)
opens_on_recent_failures rs b c w sized positive =
    record_results-trips_at b.config.window_size b.config.failure_threshold sized rs [] b (record {
      is_closed = c;
      size = refl;
      limit = refl;
      window = w ∙ sym (take_last-nil b.config.window_size);
      below = rw take_last-nil positive;
    })
