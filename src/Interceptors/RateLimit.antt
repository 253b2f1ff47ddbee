-- ===== src/Interceptors/RateLimit.antt =====
-- createRateLimitInterceptor of src/interceptors.ts. Limits and times are whole numbers, so that the
-- test for a negative or infinite maxQueue never fails and has no clause. The tokens are
-- counted in parts: one token is as many parts as the window has milliseconds, so that the share of a
-- window that a refill adds is exact. A caller that waits is a number, and the clock does not go back.
use kinetex.Base.{
  ℕ, ◌+◌, ◌-◌, ◌*◌, min, Bool, true, false, not, List, [], ◌∷◌, ◌++◌, leb, ltb, if◌then◌else◌,
  length, ◌⊎◌, inl, inr,
}

pub record RateLimitConfig : Type 0 where
  pub limit : ℕ
  pub window_ms : ℕ
  pub queue : Bool
  pub max_queue : ℕ

abbrev pub defaults : RateLimitConfig
defaults = record { limit = 60; window_ms = 60000; queue = true; max_queue = 100 }

pub data RangeError : Type 0 where
  bad_limit : RangeError
  bad_window : RangeError

pub record Bucket : Type 0 where
  pub cfg : RateLimitConfig
  pub tokens : ℕ
  pub last_refill : ℕ
  pub pending : List ℕ
  pub refill_timer : Bool

unfoldable pub create : ℕ → RateLimitConfig → RangeError ⊎ Bucket
create now cfg =
    if ltb cfg.limit 1
    then inl bad_limit
    else if ltb cfg.window_ms 1
    then inl bad_window
    else inr (record {
      cfg = cfg;
      tokens = cfg.limit * cfg.window_ms;
      last_refill = now;
      pending = [];
      refill_timer = false;
    })

unfoldable pub refill : ℕ → Bucket → Bucket
refill now b = record b {
  tokens = min (b.cfg.limit * b.cfg.window_ms) (b.tokens + (now - b.last_refill) * b.cfg.limit);
  last_refill = now;
}

abbrev pub has_token : Bucket → Bool
has_token b = leb b.cfg.window_ms b.tokens

abbrev pub take_token : Bucket → Bucket
take_token b = record b { tokens = b.tokens - b.cfg.window_ms }

abbrev pub wait : ℕ → Bucket → Bucket
wait id b = record b { pending = b.pending ++ id ∷ []; refill_timer = true }

-- What an interceptor does to its request.
pub data Answer : Type 0 where
  passed : Answer
  queued : Answer
  limit_exceeded : Answer
  queue_full : Answer

abbrev pub acquire_token : ℕ → Bucket → Bucket × Answer
acquire_token id b =
    if has_token b
    then (take_token b, passed)
    else if not b.cfg.queue
    then (b, limit_exceeded)
    else if leb b.cfg.max_queue (length b.pending)
    then (b, queue_full)
    else (wait id b, queued)

unfoldable pub acquire : ℕ → ℕ → Bucket → Bucket × Answer
unfolding refill
acquire now id b = acquire_token id (refill now b)

-- The loop of the timer: the callers that go on, in order, and the bucket without them.
abbrev pub drain : List ℕ → Bucket → Bucket × List ℕ
drain [] b = (record b { pending = [] }, [])
drain (id ∷ ids) b =
    let rest = drain ids (take_token b) in
    if has_token b then (rest.0, id ∷ rest.1) else (record b { pending = id ∷ ids }, [])

abbrev pub stop_timer : Bucket → Bucket
stop_timer b = record b { refill_timer = ltb 0 (length b.pending) }

unfoldable pub timer_fires : ℕ → Bucket → Bucket × List ℕ
unfolding refill
timer_fires now b =
    let after = refill now b in
    let rest = drain after.pending after in
    if b.refill_timer then (stop_timer rest.0, rest.1) else (b, [])
