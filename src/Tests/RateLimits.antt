-- ===== src/Tests/RateLimits.antt =====
-- Runs of the rate limit of src/interceptors.ts on small sequences of events.
use kinetex.Base.{arith, ◌*◌, ◌+◌, ◌-◌, ◌≤◌, ◌≡◌, refl, List, [], ◌∷◌, ◌++◌, inl, inr, false, true}
use kinetex.Interceptors.RateLimit.{RateLimitConfig, Bucket, bad_limit, create, defaults}
use kinetex.Interceptors.Rate.{Event, arrives, fires, run}
use kinetex.Interceptors.Throughput.{run_within_rate}
use kinetex.Interceptors.Waiting.{joined_in, served_in, waiting_served_in_turn}

abbrev two_a_second : RateLimitConfig
two_a_second = record { limit = 2; window_ms = 1000; queue = true; max_queue = 1 }

abbrev full : Bucket
full = record {
  cfg = two_a_second;
  tokens = 2000;
  last_refill = 0;
  pending = [];
  refill_timer = false;
}

abbrev burst : List Event
burst = arrives 0 1 ∷ arrives 0 2 ∷ arrives 10 3 ∷ arrives 20 4 ∷ fires 500 ∷ []

create-full : create 0 two_a_second ≡ inr full
unfolding create
create-full = refl

create-zero : create 0 (record defaults { limit = 0 }) ≡ inl bad_limit
unfolding create
create-zero = refl

run-burst : (run burst full).1 ≡ 3
unfolding run
run-burst = refl

run_within_rate_example : (run burst full).1 * 1000 ≤ 2 * 1000 + (500 - 0) * 2
run_within_rate_example =
    run_within_rate burst 0 500 full
      (omega arith, (omega arith, (omega arith, (omega arith, (omega arith, omega arith)))))

waiting_served_in_turn_example :
    [] ++ joined_in burst full ≡ served_in burst full ++ (run burst full).0.pending
waiting_served_in_turn_example = waiting_served_in_turn burst full
