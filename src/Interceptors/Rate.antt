-- ===== src/Interceptors/Rate.antt =====
-- How many requests the rate limit of src/interceptors.ts lets through in a stretch of time.
use native.Mathlib.Nat.{add-mul, suc-mul, zero-mul}
use kinetex.Base.{
  leb→le, not, ◌⊎◌, ℕ, ◌+◌, ◌-◌, ◌*◌, ◌≡◌, ◌≤◌, refl, sym, ap, ◌∙◌, Bool, true, false, List, [],
  ◌∷◌, leb, if◌then◌else◌, length, arith, Bool-cases, inl, inr,
}
use kinetex.Interceptors.RateLimit.{
  Bucket, refill, acquire, acquire_token, drain, timer_fires, Answer, passed, take_token, has_token,
  stop_timer, wait,
}

pub data Event : Type 0 where
  arrives : ℕ → ℕ → Event
  fires : ℕ → Event

abbrev pub at : Event → ℕ
at (arrives now id) = now
at (fires now) = now

abbrev pub count_passed : Answer → ℕ
count_passed passed = 1
count_passed answer = 0

-- The bucket after an event, and the requests that go on at it.
unfoldable pub step : Event → Bucket → Bucket × ℕ
unfolding acquire timer_fires
step (arrives now id) b = ((acquire now id b).0, count_passed (acquire now id b).1)
step (fires now) b = ((timer_fires now b).0, length (timer_fires now b).1)

unfoldable pub run : List Event → Bucket → Bucket × ℕ
unfolding step
run [] b = (b, 0)
run (e ∷ es) b = let rest = run es (step e b).0 in (rest.0, (step e b).1 + rest.1)

-- The events come in order, and none after an end.
abbrev pub Ordered : ℕ → List Event → ℕ → Type 0
Ordered from [] end = from ≤ end
Ordered from (e ∷ es) end = (from ≤ at e) × Ordered (at e) es end

-- The parts that a stretch of time adds.
abbrev pub earned : ℕ → ℕ → Bucket → ℕ
earned from to b = (to - from) * b.cfg.limit

pub earned-split : (a c e l : ℕ) → a ≤ c → c ≤ e → (c - a) * l + (e - c) * l ≡ (e - a) * l
earned-split a c e l h k = sym (add-mul (c - a) (e - c) l) ∙ ap (λ n. n * l) (omega (arith, h, k))

-- The requests that went on took their tokens from a bucket, and nothing else of it changed.
pub record Spends (n : ℕ) (b b' : Bucket) : Type 0 where
  pub spent : n * b.cfg.window_ms + b'.tokens ≡ b.tokens
  pub same_time : b'.last_refill ≡ b.last_refill
  pub same_settings : b'.cfg ≡ b.cfg

nothing_spent : (b : Bucket) → 0 * b.cfg.window_ms + b.tokens ≡ b.tokens
nothing_spent b = omega (arith, zero-mul b.cfg.window_ms)

unspent-Spends :
    (b b' : Bucket)
    → b'.tokens ≡ b.tokens
    → b'.last_refill ≡ b.last_refill
    → b'.cfg ≡ b.cfg
    → Spends 0 b b'
unspent-Spends b b' h t c = record {
  spent = ap (λ n. 0 * b.cfg.window_ms + n) h ∙ nothing_spent b;
  same_time = t;
  same_settings = c;
}

drain-paid :
    (ids : List ℕ) (b : Bucket)
    → length (drain ids b).1 * b.cfg.window_ms + (drain ids b).0.tokens ≡ b.tokens
drain-paid [] b = nothing_spent b
drain-paid (id ∷ ids) b = elim (Bool-cases (leb b.cfg.window_ms b.tokens)) [
  | inl e ↦ rw e (
      omega (
        arith,
        suc-mul (length (drain ids (take_token b)).1) b.cfg.window_ms,
        drain-paid ids (take_token b),
        leb→le b.cfg.window_ms b.tokens e,
      ))
  | inr e ↦ rw e (nothing_spent b)
]

drain-settings :
    (ids : List ℕ) (b : Bucket)
    → ((drain ids b).0.last_refill ≡ b.last_refill) × ((drain ids b).0.cfg ≡ b.cfg)
drain-settings [] b = (refl, refl)
drain-settings (id ∷ ids) b = elim (Bool-cases (leb b.cfg.window_ms b.tokens)) [
  | inl e ↦ rw e (drain-settings ids (take_token b))
  | inr e ↦ rw e (refl, refl)
]

one_spent :
    (b : Bucket)
    → b.cfg.window_ms ≤ b.tokens
    → 1 * b.cfg.window_ms + (b.tokens - b.cfg.window_ms) ≡ b.tokens
one_spent b h = omega (arith, h)

pub either :
    {A : Type 0} (P : A → Type 0) (c : Bool) (x y : A)
    → (c ≡ true → P x)
    → (c ≡ false → P y)
    → P (if c then x else y)
either P true x y f g = f refl
either P false x y f g = g refl

acquire_token-Spends :
    (id : ℕ) (b : Bucket) → Spends (count_passed (acquire_token id b).1) b (acquire_token id b).0
acquire_token-Spends id b =
    let P = λ (r : Bucket × Answer). Spends (count_passed r.1) b r.0 in
    either P (has_token b) _ _
      (λ e. record {
        spent = one_spent b (leb→le b.cfg.window_ms b.tokens e);
        same_time = refl;
        same_settings = refl;
      })
      (λ e.
        either P (not b.cfg.queue) _ _ (λ q. unspent-Spends b b refl refl refl)
          (λ q.
            either P (leb b.cfg.max_queue (length b.pending)) _ _
              (λ f. unspent-Spends b b refl refl refl)
              (λ f. unspent-Spends b (wait id b) refl refl refl)))

drain-Spends :
    (b : Bucket) → Spends (length (drain b.pending b).1) b (stop_timer (drain b.pending b).0)
drain-Spends b = record {
  spent = drain-paid b.pending b;
  same_time = (drain-settings b.pending b).0;
  same_settings = (drain-settings b.pending b).1;
}

-- An event refills the bucket and takes from it, or it is a timer that is not set.
abbrev pub Outcome : ℕ → Bucket → Bucket × ℕ → Type 0
Outcome now b r = Spends r.1 (refill now b) r.0 ⊎ (r ≡ (b, 0))

pub step-Outcome : (e : Event) (b : Bucket) → Outcome (at e) b (step e b)
unfolding step acquire timer_fires
step-Outcome (arrives now id) b = inl (acquire_token-Spends id (refill now b))
step-Outcome (fires now) b =
    either (λ (r : Bucket × List ℕ). Outcome now b (r.0, length r.1)) b.refill_timer _ _
      (λ e. inl (drain-Spends (refill now b))) (λ e. inr refl)

-- The parts there are at an end when nothing more is taken and the bucket has no bound.
abbrev pub potential : ℕ → Bucket → ℕ
potential end b = b.tokens + (end - b.last_refill) * b.cfg.limit

abbrev pub capacity : Bucket → ℕ
capacity b = b.cfg.limit * b.cfg.window_ms

pub refill-potential :
    (now end : ℕ) (b : Bucket)
    → b.last_refill ≤ now
    → now ≤ end
    → potential end (refill now b) ≤ potential end b
unfolding refill
refill-potential now end b h k = omega (arith, earned-split b.last_refill now end b.cfg.limit h k)

pub refill-capacity :
    (now start end : ℕ) (b : Bucket)
    → start ≤ now
    → now ≤ end
    → potential end (refill now b) ≤ capacity b + (end - start) * b.cfg.limit
unfolding refill
refill-capacity now start end b h k = omega (arith, earned-split start now end b.cfg.limit h k)
