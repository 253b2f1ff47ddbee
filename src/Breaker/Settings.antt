-- ===== src/Breaker/Settings.antt =====
-- The configuration of a circuit breaker (src/circuit-breaker.ts): the options with their
-- defaults, and the filter of countable failures. Numbers of the configuration are natural.
use kinetex.Base.{
  ℕ, Bool, true, false, ◌&&◌, ◌||◌, ite, List, [], ◌∷◌, Option, none, some, String, ltb, leb, ◌==◌,
  if◌then◌else◌, string_discrete,
}

pub record FailureFilter : Type 0 where
  pub network_errors : Bool
  pub timeouts : Bool
  pub server_errors : Bool
  pub status_codes : List ℕ

-- The optional fields of `FailureFilter`, before the defaults.
pub record FailureOptions : Type 0 where
  pub network_errors : Option Bool
  pub timeouts : Option Bool
  pub server_errors : Option Bool
  pub status_codes : Option (List ℕ)

pub record Options : Type 0 where
  pub failure_threshold : Option ℕ
  pub window_size : Option ℕ
  pub reset_timeout_ms : Option ℕ
  pub success_threshold : Option ℕ
  pub half_open_concurrency : Option ℕ
  pub failures : Option FailureOptions

pub record Config : Type 0 where
  pub failure_threshold : ℕ
  pub window_size : ℕ
  pub reset_timeout_ms : ℕ
  pub success_threshold : ℕ
  pub half_open_concurrency : ℕ
  pub failure_filter : FailureFilter

-- `o ?? d`
abbrev pub get_or {ℓ} : {A : Type ℓ} → Option A → A → A
get_or none d = d
get_or (some a) d = a

abbrev no_failure_options : FailureOptions
no_failure_options = record {
  network_errors = none;
  timeouts = none;
  server_errors = none;
  status_codes = none;
}

-- A positive window below the threshold is widened to it; 0 is the consecutive-count mode.
unfoldable pub widen : ℕ → ℕ → ℕ
widen window threshold = if ltb 0 window && ltb window threshold then threshold else window

unfoldable pub resolve_filter : FailureOptions → FailureFilter
resolve_filter o = record {
  network_errors = get_or o.network_errors true;
  timeouts = get_or o.timeouts true;
  server_errors = get_or o.server_errors false;
  status_codes = get_or o.status_codes [];
}

-- The constructor's reading of its options.
unfoldable pub resolve : Options → Config
unfolding widen resolve_filter
resolve o = record {
  failure_threshold = get_or o.failure_threshold 5;
  window_size = widen (get_or o.window_size 10) (get_or o.failure_threshold 5);
  reset_timeout_ms = get_or o.reset_timeout_ms 30_000;
  success_threshold = get_or o.success_threshold 2;
  half_open_concurrency = get_or o.half_open_concurrency 1;
  failure_filter = resolve_filter (get_or o.failures no_failure_options);
}

-- What the filter reads of a rejected call's reason; `is_error` is `err instanceof Error`.
pub record Failure : Type 0 where
  pub is_error : Bool
  pub code : Option String
  pub status : Option ℕ

abbrev pub is_text : Option String → String → Bool
is_text none t = false
is_text (some s) t = ite (string_discrete s t) true false

abbrev pub includes : List ℕ → ℕ → Bool
includes [] n = false
includes (x ∷ xs) n = x == n || includes xs n

-- `status && status >= 500`: a status of 0 is falsy.
abbrev pub is_server_error : Option ℕ → Bool
is_server_error none = false
is_server_error (some n) = leb 500 n

abbrev pub is_listed : Option ℕ → List ℕ → Bool
is_listed none codes = false
is_listed (some n) codes = ltb 0 n && includes codes n

unfoldable pub is_countable_failure : FailureFilter → Failure → Bool
is_countable_failure f e =
    e.is_error
    && (f.network_errors && is_text e.code "ENETWORK"
        || f.timeouts && (is_text e.code "ETIMEOUT" || is_text e.code "ETIMEDOUT")
        || f.server_errors && is_server_error e.status
        || is_listed e.status f.status_codes)
