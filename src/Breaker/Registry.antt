-- ===== src/Breaker/Registry.antt =====
-- `CircuitBreakerRegistry` of src/circuit-breaker.ts: one breaker for each key, made on first use.
use kinetex.Base.{
  ℕ, ◌≡◌, ap, ◌∙◌, ◌≢◌, List, [], Option, none, some, String, arith, string_discrete, length, map,
}
use kinetex.JsMap
use mathlib.Core.Option.{map as map_option}
use kinetex.JsMap.{
  get-set_self, get-set_ne, get-delete_ne, get-delete_self, get-update_self, get-update_ne,
  Distinct,
}
use kinetex.Breaker.Settings.{Options, resolve}
use kinetex.Breaker.State.{Breaker, Snapshot, init, snapshot}
use kinetex.Breaker
use kinetex.Breaker.{Admission}

pub record Registry : Type 0 where
  pub breakers : List (String × Breaker)
  pub default_config : Options

abbrev pub or_else {ℓ} : {A : Type ℓ} → Option A → Option A → Option A
or_else (some a) o = some a
or_else none o = o

abbrev pub or_new : Option Breaker → Breaker → Breaker
or_new (some b) c = b
or_new none c = c

-- `{ ...defaults, ...overrides }`; an override that is left out keeps the default.
unfoldable pub merge : Options → Option Options → Options
merge defaults none = defaults
merge defaults (some o) = record {
  failure_threshold = or_else o.failure_threshold defaults.failure_threshold;
  window_size = or_else o.window_size defaults.window_size;
  reset_timeout_ms = or_else o.reset_timeout_ms defaults.reset_timeout_ms;
  success_threshold = or_else o.success_threshold defaults.success_threshold;
  half_open_concurrency = or_else o.half_open_concurrency defaults.half_open_concurrency;
  failures = or_else o.failures defaults.failures;
}

-- The breaker of a key, and the registry in which it stands.
unfoldable pub get : Registry → String → Option Options → Registry × Breaker
get r key overrides = elim (JsMap.get string_discrete key r.breakers) [
  | some b ↦ (r, b)
  | none ↦
      let b = init key (resolve (merge r.default_config overrides)) in
      (record r { breakers = JsMap.set string_discrete key b r.breakers }, b)
]

-- The breaker is an object that the map refers to: what an operation makes of it is seen there, if
-- it stands there.
unfoldable pub update : Registry → String → Breaker → Registry
update r key b = record r { breakers = JsMap.update string_discrete key (λ c. b) r.breakers }

unfoldable pub execute : ℕ → Registry → String → Option Options → Registry × Admission
unfolding get update
execute now r key overrides =
    let (r', b) = get r key overrides in
    let (c, admission) = Breaker.execute now b in (update r' key c, admission)

unfoldable pub trip : ℕ → Registry → String → Registry
unfolding get update
trip now r key = let (r', b) = get r key none in update r' key (Breaker.trip now b)

unfoldable pub reset : ℕ → Registry → String → Registry
unfolding get update
reset now r key = let (r', b) = get r key none in update r' key (Breaker.reset now b)

unfoldable pub delete : Registry → String → Registry
delete r key = record r { breakers = JsMap.delete string_discrete key r.breakers }

unfoldable pub clear : Registry → Registry
clear r = record r { breakers = [] }

unfoldable pub size : Registry → ℕ
size r = length r.breakers

unfoldable pub snapshots : ℕ → Registry → List (String × Snapshot)
snapshots now r = map (λ e. (e.0, snapshot now e.1)) r.breakers

-- The breaker that a key has, or would be given.
abbrev pub breaker_of : Registry → String → Option Options → Breaker
breaker_of r key overrides =
    or_new (JsMap.get string_discrete key r.breakers)
      (init key (resolve (merge r.default_config overrides)))

get-breaker_of :
    (r : Registry) (key : String) (o : Option Options) → (get r key o).1 ≡ breaker_of r key o
unfolding get
get-breaker_of r key o = ground arith

-- After `get` the breaker stands in the map.
get-registered :
    (r : Registry) (key : String) (o : Option Options)
    → JsMap.get string_discrete key (get r key o).0.breakers ≡ some (breaker_of r key o)
unfolding get
get-registered r key o =
    let b = init key (resolve (merge r.default_config o)) in
    ground (arith, get-set_self string_discrete key b r.breakers)

-- The key's own breaker after an update.
placed :
    (r : Registry) (key : String) (o : Option Options) (b : Breaker)
    → JsMap.get string_discrete key (update (get r key o).0 key b).breakers ≡ some b
unfolding update
placed r key o b =
    get-update_self string_discrete key (λ c. b) (get r key o).0.breakers
    ∙ ap (map_option (λ c. b)) (get-registered r key o)

-- Another key's breaker.
other :
    (r : Registry) (key q : String) (o : Option Options) (b : Breaker)
    → q ≢ key
    → JsMap.get string_discrete q (update (get r key o).0 key b).breakers
      ≡ JsMap.get string_discrete q r.breakers
unfolding get update
other r key q o b ne =
    get-update_ne string_discrete key q (λ c. b) (get r key o).0.breakers ne
    ∙ ground (
      arith,
      get-set_ne string_discrete key q (init key (resolve (merge r.default_config o))) r.breakers
          ne,
    )

-- In a registry with no key twice, an operation on a key acts on the breaker that the key has, or on
-- a new one made of the defaults and the overrides if it has none, and the breaker stands under the
-- key afterwards; a deletion leaves none there; and the breakers of all other keys stay as they are.
pub operations_isolated :
    (now : ℕ) (r : Registry) (key q : String) (o : Option Options)
    → q ≢ key
    → Distinct string_discrete r.breakers
    → let lookup = λ (k : String) (t : Registry). JsMap.get string_discrete k t.breakers in
      (lookup key (execute now r key o).0 ≡ some (Breaker.execute now (breaker_of r key o)).0)
      × ((execute now r key o).1 ≡ (Breaker.execute now (breaker_of r key o)).1)
      × (lookup key (trip now r key) ≡ some (Breaker.trip now (breaker_of r key none)))
      × (lookup key (reset now r key) ≡ some (Breaker.reset now (breaker_of r key none)))
      × (lookup key (delete r key) ≡ none)
      × (lookup q (execute now r key o).0 ≡ lookup q r)
      × (lookup q (trip now r key) ≡ lookup q r)
      × (lookup q (reset now r key) ≡ lookup q r)
      × (lookup q (delete r key) ≡ lookup q r)
unfolding execute trip reset delete
operations_isolated now r key q o ne distinct = (
  placed r key o (Breaker.execute now (get r key o).1).0
      ∙ ap (λ (b : Breaker). some (Breaker.execute now b).0) (get-breaker_of r key o),
  ap (λ (b : Breaker). (Breaker.execute now b).1) (get-breaker_of r key o),
  placed r key none (Breaker.trip now (get r key none).1)
      ∙ ap (λ (b : Breaker). some (Breaker.trip now b)) (get-breaker_of r key none),
  placed r key none (Breaker.reset now (get r key none).1)
      ∙ ap (λ (b : Breaker). some (Breaker.reset now b)) (get-breaker_of r key none),
  get-delete_self string_discrete key r.breakers distinct,
  other r key q o _ ne,
  other r key q none _ ne,
  other r key q none _ ne,
  get-delete_ne string_discrete key q r.breakers ne,
)
