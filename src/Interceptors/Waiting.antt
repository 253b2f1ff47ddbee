-- ===== src/Interceptors/Waiting.antt =====
-- The callers that wait for a token of the rate limit of src/interceptors.ts.
use mathlib.Core.List.{append_assoc, append-nil}
use kinetex.Base.{ℕ, ◌≡◌, refl, sym, ap, ◌∙◌, not, List, [], ◌∷◌, ◌++◌, leb, length}
use kinetex.Interceptors.RateLimit.{
  Bucket, refill, acquire, acquire_token, drain, timer_fires, has_token, take_token, wait, Answer,
  queued, limit_exceeded, queue_full,
}
use kinetex.Interceptors.Rate.{Event, arrives, fires, step, run, either}

abbrev pub joined_by : ℕ → Answer → List ℕ
joined_by id queued = id ∷ []
joined_by id answer = []

-- The callers that an event makes wait, and those that waited and go on at it.
unfoldable pub joined : Event → Bucket → List ℕ
unfolding acquire
joined (arrives now id) b = joined_by id (acquire now id b).1
joined (fires now) b = []

unfoldable pub served : Event → Bucket → List ℕ
unfolding timer_fires
served (arrives now id) b = []
served (fires now) b = (timer_fires now b).1

unfoldable pub joined_in : List Event → Bucket → List ℕ
unfolding joined step
joined_in [] b = []
joined_in (e ∷ es) b = joined e b ++ joined_in es (step e b).0

unfoldable pub served_in : List Event → Bucket → List ℕ
unfolding served step
served_in [] b = []
served_in (e ∷ es) b = served e b ++ served_in es (step e b).0

drain-keeps : (ids : List ℕ) (b : Bucket) → (drain ids b).1 ++ (drain ids b).0.pending ≡ ids
drain-keeps [] b = refl
drain-keeps (id ∷ ids) b =
    either (λ (r : Bucket × List ℕ). r.1 ++ r.0.pending ≡ id ∷ ids) (has_token b) _ _
      (λ e. ap (λ l. id ∷ l) (drain-keeps ids (take_token b))) (λ e. refl)

acquire_token-queue :
    (id : ℕ) (b : Bucket)
    → b.pending ++ joined_by id (acquire_token id b).1 ≡ (acquire_token id b).0.pending
acquire_token-queue id b =
    let P = λ (a : Bucket × Answer). b.pending ++ joined_by id a.1 ≡ a.0.pending in
    either P (has_token b) _ _ (λ e. append-nil b.pending)
      (λ e.
        either P (not b.cfg.queue) (b, limit_exceeded) _ (λ q. append-nil b.pending)
          (λ q.
            either P (leb b.cfg.max_queue (length b.pending)) (b, queue_full) (wait id b, queued)
              (λ f. append-nil b.pending) (λ f. refl)))

step-queue : (e : Event) (b : Bucket) → b.pending ++ joined e b ≡ served e b ++ (step e b).0.pending
unfolding joined served step acquire timer_fires refill
step-queue (arrives now id) b = acquire_token-queue id (refill now b)
step-queue (fires now) b =
    append-nil b.pending
    ∙ either (λ (r : Bucket × List ℕ). b.pending ≡ r.1 ++ r.0.pending) b.refill_timer _ _
        (λ e. sym (drain-keeps b.pending (refill now b))) (λ e. refl)

-- Over any events, those that waited at first and those that began to wait are, in that order, those
-- that the timer let go on and those that still wait: it serves them in turn and loses none.
pub waiting_served_in_turn :
    (es : List Event) (b : Bucket)
    → b.pending ++ joined_in es b ≡ served_in es b ++ (run es b).0.pending
unfolding joined_in served_in run
waiting_served_in_turn [] b = append-nil b.pending
waiting_served_in_turn (e ∷ es) b =
    let s = step e b in
    sym (append_assoc b.pending (joined e b) (joined_in es s.0))
    ∙ ap (λ l. l ++ joined_in es s.0) (step-queue e b)
    ∙ append_assoc (served e b) s.0.pending (joined_in es s.0)
    ∙ ap (λ l. served e b ++ l) (waiting_served_in_turn es s.0)
    ∙ sym (append_assoc (served e b) (served_in es s.0) (run es s.0).0.pending)
