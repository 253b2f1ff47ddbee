-- ===== src/Limiter/Once.antt =====
-- Each call of acquire on the concurrency limiter (src/interceptors.ts) is settled at most once, and
-- waits until then.
use kinetex.Base.{
  map, ℕ, suc, ◌+◌, ◌≡◌, refl, ap, List, [], ◌∷◌, ◌++◌, Option, arith, ltb, ◌==◌, if◌then◌else◌,
}
use kinetex.Limiter.Queue.{Waiter, listeners_of, ids_of, Ordered, keep_others}
use kinetex.Limiter.{
  Outcome, aborted, drained, Limiter, Signal, acquire, enqueue, release, release_to, abort, drain,
  signal_id,
}
use kinetex.Limiter.Aborts.{log_all, abort-keep_others, drain-rejects_all}

-- How often a call stands in the log, in the queue and in a list of numbers.
abbrev pub settlements : ℕ → List (ℕ × Outcome) → ℕ
settlements i [] = 0
settlements i ((j, o) ∷ log) = (if i == j then 1 else 0) + settlements i log

abbrev pub waits : ℕ → List Waiter → ℕ
waits i [] = 0
waits i (w ∷ ws) = (if i == w.id then 1 else 0) + waits i ws

abbrev occurrences : ℕ → List ℕ → ℕ
occurrences i [] = 0
occurrences i (j ∷ js) = (if i == j then 1 else 0) + occurrences i js

-- A call that was made waits, or was settled; never both, and never twice. No other number does.
abbrev pub Once : Limiter → Type 0
Once l = (i : ℕ) → settlements i l.settled + waits i l.waiters ≡ (if ltb i l.next_id then 1 else 0)

settlements-log_all :
    (i : ℕ) (o : Outcome) (is : List ℕ) (log : List (ℕ × Outcome))
    → settlements i (log_all o is log) ≡ occurrences i is + settlements i log
settlements-log_all i o [] log = omega arith
settlements-log_all i o (j ∷ is) log = omega (arith, settlements-log_all i o is ((j, o) ∷ log))

waits-append :
    (i : ℕ) (ws : List Waiter) (w : Waiter)
    → waits i (ws ++ w ∷ []) ≡ waits i ws + (if i == w.id then 1 else 0)
waits-append i [] w = omega arith
waits-append i (v ∷ ws) w = omega (arith, waits-append i ws w)

waits-keep_others :
    (i s : ℕ) (ws : List Waiter)
    → waits i (keep_others s ws) + occurrences i (ids_of s (listeners_of ws)) ≡ waits i ws
unfolding ids_of listeners_of
waits-keep_others i s [] = refl
waits-keep_others i s (w ∷ ws) = ground (arith, waits-keep_others i s ws)

waits-map_id : (i : ℕ) (ws : List Waiter) → occurrences i (map (λ w. w.id) ws) ≡ waits i ws
waits-map_id i [] = refl
waits-map_id i (w ∷ ws) = ap (λ n. (if i == w.id then 1 else 0) + n) (waits-map_id i ws)

next_made :
    (i n : ℕ)
    → (if ltb i (suc n) then 1 else 0) ≡ (if i == n then 1 else 0) + (if ltb i n then 1 else 0)
next_made i n = ground arith

module _ (l : Limiter) (v : Once l) where
  enqueue-Once : (s : Option ℕ) → Once (enqueue s l)
  unfolding enqueue
  enqueue-Once s i = omega (
    arith,
    waits-append i l.waiters (record { id = l.next_id; signal = s }),
    next_made i l.next_id,
    v i,
  )

  pub acquire-Once : (s : Option Signal) → Once (acquire s l)
  unfolding acquire
  acquire-Once s i = ground (arith, enqueue-Once (signal_id s) i, next_made i l.next_id, v i)

  release_to-Once : (ws : List Waiter) → l.waiters ≡ ws → Once (release_to ws l)
  release_to-Once [] e i = omega (arith, ap (waits i) e, v i)
  release_to-Once (w ∷ ws) e i = omega (arith, ap (waits i) e, v i)

  pub release-Once : Once (release l)
  unfolding release
  release-Once i = ground (arith, release_to-Once l.waiters refl i, v i)

  pub abort-Once :
      (s : ℕ)
      → Ordered 0 l.next_id l.waiters
      → l.listeners ≡ listeners_of l.waiters
      → Once (abort s l)
  abort-Once s o a =
      let is : List ℕ = ids_of s (listeners_of l.waiters) in
      rw (abort-keep_others s l o a) (λ i.
        omega
          (arith, settlements-log_all i aborted is l.settled, waits-keep_others i s l.waiters, v i))

  pub drain-Once : l.listeners ≡ listeners_of l.waiters → Once (drain l)
  drain-Once a = rw (drain-rejects_all l a) (λ i. omega (
    arith,
    settlements-log_all i drained (map (λ w. w.id) l.waiters) l.settled,
    waits-map_id i l.waiters,
    v i,
  ))
