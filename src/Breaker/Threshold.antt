-- ===== src/Breaker/Threshold.antt =====
-- A run of failures on a closed circuit of src/circuit-breaker.ts, in both modes of counting.
use kinetex.Base.{
  ℕ, zero, suc, ◌+◌, ◌≤◌, ◌<◌, ◌≡◌, refl, ap, ◌∙◌, ◌⊎◌, inl, inr, Bool, true, false, List, [], ◌∷◌,
  ◌++◌, arith, leb, ltb, length, replicate, Bool-cases,
}
use mathlib.Core.List.{append_assoc, append-nil}
use kinetex.Breaker.Settings.{Options, Config, resolve}
use kinetex.Breaker.State.{closed, opened, Breaker, count_failures}
use kinetex.Breaker.{push_result, record_failure}

-- A run of failures at the given times.
pub record_failures : List ℕ → Breaker → Breaker
record_failures [] b = b
record_failures (now ∷ times) b = record_failures times (record_failure now b)

failures_stay_open :
    (times : List ℕ) (b : Breaker) → b.state ≡ opened → (record_failures times b).state ≡ opened
unfolding record_failures record_failure
failures_stay_open [] b e = e
failures_stay_open (now ∷ times) b e =
    failures_stay_open times (record_failure now b) (ground arith)

replicate-snoc : (k : ℕ) → replicate k false ++ false ∷ [] ≡ replicate (suc k) false
replicate-snoc zero = refl
replicate-snoc (suc k) = ap (◌∷◌ false) (replicate-snoc k)

length-replicate : (k : ℕ) → length (replicate k false) ≡ k
length-replicate zero = refl
length-replicate (suc k) = ap suc (length-replicate k)

count_failures-trailing : (k : ℕ) (u : List Bool) → k ≤ count_failures (u ++ replicate k false)
count_failures-trailing zero [] = omega arith
count_failures-trailing (suc k) [] = omega (arith, count_failures-trailing k [])
count_failures-trailing k (true ∷ u) = count_failures-trailing k u
count_failures-trailing k (false ∷ u) = omega (arith, count_failures-trailing k u)

trailing-snoc :
    (k : ℕ) (u : List Bool) → (u ++ replicate k false) ++ false ∷ [] ≡ u ++ replicate (suc k) false
trailing-snoc k u = append_assoc u (replicate k false) (false ∷ []) ∙ ap (◌++◌ u) (replicate-snoc k)

-- Results that end with `k` failures end with one more after the next failure, if the window
-- has room for that many.
push_trailing :
    (n k : ℕ) (u : List Bool)
    → suc k ≤ n
    → (v : List Bool) × (push_result n false (u ++ replicate k false)
        ≡ v ++ replicate (suc k) false)
unfolding push_result
push_trailing n k [] h = ([], rw replicate-snoc (ground (arith, length-replicate k)))
push_trailing n k (x ∷ u) h =
    elim (Bool-cases (ltb n (suc (length (u ++ replicate (suc k) false))))) [
      | inl shift ↦ (u, rw (trailing-snoc k u, shift))
      | inr room ↦ (x ∷ u, rw (trailing-snoc k u, room))
    ]

-- The window is off, or holds as many results as the threshold asks for.
abbrev Coherent : Config → Type 0
Coherent c = (c.window_size ≡ 0) ⊎ ((0 < c.window_size) × (c.failure_threshold ≤ c.window_size))

-- A closed circuit that counts failures in a row, and has seen `k` of them.
record InRow (k : ℕ) (b : Breaker) : Type 0 where
  is_closed : b.state ≡ closed
  unwindowed : b.config.window_size ≡ 0
  count : k ≤ b.consecutive_fails

-- A closed circuit with a window, whose last `k` results are failures.
record Trailing (k : ℕ) (b : Breaker) : Type 0 where
  is_closed : b.state ≡ closed
  sized : 0 < b.config.window_size
  room : b.config.failure_threshold ≤ b.config.window_size
  older : List Bool
  trailing : b.window ≡ older ++ replicate k false

-- One more failure opens the circuit, or is one more in a row.
abbrev Advances : (ℕ → Breaker → Type 0) → ℕ → Breaker → Breaker → Type 0
Advances P k b c =
    (c.state ≡ opened)
    ⊎ (P (suc k) c × (c.config ≡ b.config) × (suc k < b.config.failure_threshold))

InRow-record_failure :
    (now k : ℕ) (b : Breaker) → InRow k b → Advances InRow k b (record_failure now b)
unfolding record_failure
InRow-record_failure now k b f =
    elim (Bool-cases (leb b.config.failure_threshold (b.consecutive_fails + 1))) [
      | inl reached ↦ inl (ground arith)
      | inr under ↦ inr (
        record { is_closed = ground arith; unwindowed = ground arith; count = ground arith },
        ground arith,
        ground arith,
      )
    ]

Trailing-record_failure :
    (now k : ℕ) (b : Breaker)
    → k < b.config.failure_threshold
    → Trailing k b
    → Advances Trailing k b (record_failure now b)
unfolding record_failure
Trailing-record_failure now k b below f =
    let (v, pushed) = push_trailing b.config.window_size k f.older (omega arith) in
    let window : push_result b.config.window_size false b.window ≡ v ++ replicate (suc k) false =
      rw f.trailing pushed in
    elim (Bool-cases (
      leb b.config.failure_threshold
        (count_failures (push_result b.config.window_size false b.window)))) [
          | inl reached ↦ inl (ground arith)
          | inr under ↦ inr (
            record {
              is_closed = ground arith;
              sized = ground arith;
              room = ground arith;
              older = v;
              trailing = ground arith;
            },
            ground arith,
            ground (arith, count_failures-trailing (suc k) v),
          )
        ]

module _ (P : ℕ → Breaker → Type 0)
    (advance : (now k : ℕ) (b : Breaker)
      → k < b.config.failure_threshold
      → P k b
      → Advances P k b (record_failure now b)) where
  failures_open :
      (times : List ℕ) (k : ℕ) (b : Breaker)
      → P k b
      → k < b.config.failure_threshold
      → b.config.failure_threshold ≤ k + length times
      → (record_failures times b).state ≡ opened
  unfolding record_failures
  failures_open [] k b p below enough = absurd (omega arith)
  failures_open (now ∷ times) k b p below enough = elim (advance now k b below p) [
    | inl e ↦ failures_stay_open times (record_failure now b) e
    | inr (q, same, under) ↦
        failures_open times (suc k) (record_failure now b) q (rw same under) (rw same (omega arith))
  ]

-- A closed circuit opens after `failureThreshold` failures in a row at the latest, whatever its
-- window held before, in both modes of counting.
failures_reach_threshold :
    (times : List ℕ) (b : Breaker)
    → b.state ≡ closed
    → Coherent b.config
    → 0 < b.config.failure_threshold
    → b.config.failure_threshold ≤ length times
    → (record_failures times b).state ≡ opened
failures_reach_threshold times b c (inl off) positive enough =
    failures_open InRow (λ now k d _. InRow-record_failure now k d) times 0 b
      (record { is_closed = c; unwindowed = off; count = omega arith }) positive (omega arith)
failures_reach_threshold times b c (inr (sized, room)) positive enough =
    failures_open Trailing Trailing-record_failure times 0 b
      (record {
        is_closed = c;
        sized = sized;
        room = room;
        older = b.window;
        trailing = rw append-nil;
      })
      positive (omega arith)

resolve-Coherent : (o : Options) → Coherent (resolve o)
unfolding resolve
resolve-Coherent o = ground arith

-- Whatever options with a positive threshold a breaker was built with, `failureThreshold` failures in a row open its closed
-- circuit, in both modes of counting and whatever its window held before: the constructor leaves
-- no configuration whose threshold is out of reach.
pub threshold_is_reached :
    (o : Options) (times : List ℕ) (b : Breaker)
    → b.config ≡ resolve o
    → b.state ≡ closed
    → 0 < b.config.failure_threshold
    → b.config.failure_threshold ≤ length times
    → (record_failures times b).state ≡ opened
threshold_is_reached o times b e c positive enough =
    failures_reach_threshold times b c (rw e (resolve-Coherent o)) positive enough
