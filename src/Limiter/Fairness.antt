-- ===== src/Limiter/Fairness.antt =====
-- The order in which the concurrency limiter (src/interceptors.ts) hands permits on.
use kinetex.Base.{ℕ, zero, suc, ◌≤◌, ◌<◌, ◌≡◌, refl, List, [], ◌∷◌, map, arith, length, take, drop}
use kinetex.Limiter.Queue.{Waiter}
use kinetex.Limiter.{Limiter, granted, release}
use kinetex.Limiter.Aborts.{log_all}

pub release_times : ℕ → Limiter → Limiter
release_times zero l = l
release_times (suc n) l = release_times n (release l)

release_times_lem :
    (n : ℕ) (l : Limiter) (ws : List Waiter)
    → l.waiters ≡ ws
    → 0 < l.active
    → n ≤ length ws
    → let m = release_times n l in
      (m.waiters ≡ drop n ws)
      × (m.active ≡ l.active)
      × (m.settled ≡ log_all granted (map (λ w. w.id) (take n ws)) l.settled)
unfolding release_times release
release_times_lem zero l ws e held fits = (e, refl, refl)
release_times_lem (suc n) l [] e held fits = absurd (omega arith)
release_times_lem (suc n) l (w ∷ ws) e held fits =
    ground (arith, release_times_lem n (release l) ws)

-- As long as callers wait, releasing permits serves them: the next `n` releases grant the `n`
-- callers that have waited longest, in that order, keep the others in theirs, and leave the number
-- of permits held as it is, so that the limit is never overshot.
pub releases_serve_in_order :
    (n : ℕ) (l : Limiter)
    → 0 < l.active
    → n ≤ length l.waiters
    → let m = release_times n l in
      (m.waiters ≡ drop n l.waiters)
      × (m.active ≡ l.active)
      × (m.settled ≡ log_all granted (map (λ w. w.id) (take n l.waiters)) l.settled)
releases_serve_in_order n l held fits = release_times_lem n l l.waiters refl held fits
