-- ===== src/Interceptors/Throughput.antt =====
-- The bound that the token bucket of src/interceptors.ts puts on what passes in a stretch of time.
use native.Mathlib.Nat.{add-mul, zero-mul}
use kinetex.Base.{
  ℕ, ◌+◌, ◌-◌, ◌*◌, ◌≡◌, ◌≤◌, refl, sym, ap, ◌∙◌, subst, List, [], ◌∷◌, arith, inl, inr,
}
use kinetex.Interceptors.RateLimit.{Bucket, RateLimitConfig, refill}
use kinetex.Interceptors.Rate.{
  Event, at, step, run, Ordered, earned-split, Spends, step-Outcome, potential, capacity,
  refill-potential, refill-capacity,
}

Spends-potential :
    (end n : ℕ) (b b' : Bucket)
    → Spends n b b'
    → n * b.cfg.window_ms + potential end b' ≡ potential end b
Spends-potential end n b b' s =
    let time = ap (λ t. (end - t) * b'.cfg.limit) s.same_time in
    let limit = ap (λ (c : RateLimitConfig). (end - b.last_refill) * c.limit) s.same_settings in
    omega (arith, s.spent, time ∙ limit)

-- What an event leaves, within a bound on what was there.
record Paid (now end bound : ℕ) (b : Bucket) (r : Bucket × ℕ) : Type 0 where
  paid : r.1 * b.cfg.window_ms + potential end r.0 ≤ bound
  in_time : r.0.last_refill ≤ now
  same_settings : r.0.cfg ≡ b.cfg

Spends-Paid :
    (now end bound : ℕ) (b : Bucket) (r : Bucket × ℕ)
    → potential end (refill now b) ≤ bound
    → Spends r.1 (refill now b) r.0
    → Paid now end bound b r
unfolding refill
Spends-Paid now end bound b r h s = record {
  paid = omega (arith, Spends-potential end r.1 (refill now b) r.0 s, h);
  in_time = omega (arith, s.same_time);
  same_settings = s.same_settings;
}

step-Paid :
    (e : Event) (end : ℕ) (b : Bucket)
    → b.last_refill ≤ at e
    → at e ≤ end
    → Paid (at e) end (potential end b) b (step e b)
step-Paid e end b h k = elim (step-Outcome e b) [
  | inl s ↦
      Spends-Paid (at e) end (potential end b) b (step e b) (refill-potential (at e) end b h k) s
  | inr q ↦
      subst (Paid (at e) end (potential end b) b) (sym q) (record {
        paid = omega (arith, zero-mul b.cfg.window_ms);
        in_time = h;
        same_settings = refl;
      })
]

Ordered-le : (from end : ℕ) (es : List Event) → Ordered from es end → from ≤ end
Ordered-le from end [] o = o
Ordered-le from end (e ∷ es) o = omega (arith, o.0, Ordered-le (at e) end es o.1)

-- The parts that the requests of a first event and of a rest come to.
sum_paid :
    (m n : ℕ) (b b' : Bucket)
    → b'.cfg ≡ b.cfg
    → m * b.cfg.window_ms + n * b'.cfg.window_ms ≡ (m + n) * b.cfg.window_ms
sum_paid m n b b' h =
    let window = ap (λ (c : RateLimitConfig). n * c.window_ms) h in
    omega (arith, add-mul m n b.cfg.window_ms, window)

run-paid :
    (es : List Event) (from end : ℕ) (b : Bucket)
    → b.last_refill ≤ from
    → Ordered from es end
    → (run es b).1 * b.cfg.window_ms ≤ potential end b
unfolding run
run-paid [] from end b h o = omega (arith, zero-mul b.cfg.window_ms)
run-paid (e ∷ es) from end b h o =
    let s = step e b in
    let p = step-Paid e end b (omega (arith, h, o.0)) (Ordered-le (at e) end es o.1) in
    omega (
      arith,
      run-paid es (at e) end s.0 p.in_time o.1,
      p.paid,
      sum_paid s.1 (run es s.0).1 b s.0 p.same_settings,
    )

-- In a stretch of time, whatever the bucket holds when it begins, the requests that go on are at
-- most one limit and the share of a limit that the stretch is of a window, for events in order.
pub run_within_rate :
    (es : List Event) (start end : ℕ) (b : Bucket)
    → Ordered start es end
    → (run es b).1 * b.cfg.window_ms ≤ b.cfg.limit * b.cfg.window_ms + (end - start) * b.cfg.limit
unfolding run
run_within_rate [] start end b o = omega (arith, zero-mul b.cfg.window_ms)
run_within_rate (e ∷ es) start end b o =
    let s = step e b in
    let late = Ordered-le (at e) end es o.1 in
    let bound = capacity b + (end - start) * b.cfg.limit in
    elim (step-Outcome e b) [
      | inl k ↦
          let p =
            Spends-Paid (at e) end bound b s (refill-capacity (at e) start end b o.0 late) k in
          omega (
            arith,
            run-paid es (at e) end s.0 p.in_time o.1,
            p.paid,
            sum_paid s.1 (run es s.0).1 b s.0 p.same_settings,
          )
      | inr q ↦
          let idle = ap (λ (r : Bucket × ℕ). (r.1 + (run es r.0).1) * b.cfg.window_ms) q in
          omega (
            arith,
            idle,
            run_within_rate es (at e) end b o.1,
            earned-split start (at e) end b.cfg.limit o.0 late,
          )
    ]
