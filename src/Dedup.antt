-- ===== src/Dedup.antt =====
-- `DedupMap` of src/dedup.ts. A run of the factory is numbered; the number stands for its promise
-- and for the identity of its entry. A handler runs at one instant `now`. The entry's `resolvedAt`
-- is read only through the map, so it stands there.
pub mod Keys
pub mod DefaultKey
pub mod Coalescing
pub mod Invariant
pub mod Runs
use kinetex.Base.{
  ℕ, suc, ◌+◌, ◌≡◌, ite, Bool, true, false, not, ◌&&◌, ◌||◌, List, [], ◌∷◌, Option, none, some, ltb,
  leb, ◌==◌, if◌then◌else◌, length, to_upper_text, is_member,
}
use kinetex.JsMap
use Keys.{Key, key_discrete, Headers}

pub record Entry : Type 0 where
  pub id : ℕ
  pub resolved_at : Option ℕ

-- A factory that runs for an entry, with what its reactions need.
pub record Leader : Type 0 where
  pub id : ℕ
  pub key : Key
  pub window_ms : ℕ
  pub signal : Option ℕ

pub record Timer : Type 0 where
  pub id : ℕ
  pub due : ℕ

pub record Dedup : Type 0 where
  pub window_ms : ℕ
  pub methods : List (List ℕ)
  pub key_fn : List ℕ → List ℕ → Headers → Key
  pub global_signal : Option ℕ
  pub inflight : List (Key × Entry)
  -- The pending window timer of a key.
  pub timeouts : List (Key × Timer)
  pub leaders : List Leader
  pub aborted_signals : List ℕ
  pub next_id : ℕ
  pub next_timer : ℕ
  pub hits : ℕ
  pub misses : ℕ

-- `options.methods` comes in upper case, as the constructor makes it.
unfoldable pub init : ℕ → List (List ℕ) → (List ℕ → List ℕ → Headers → Key) → Option ℕ → Dedup
init window_ms methods key_fn signal = record {
  window_ms = window_ms;
  methods = methods;
  key_fn = key_fn;
  global_signal = signal;
  inflight = [];
  timeouts = [];
  leaders = [];
  aborted_signals = [];
  next_id = 0;
  next_timer = 0;
  hits = 0;
  misses = 0;
}

-- What a call of `execute` gets: a factory of its own, the promise of an entry, or an entry that
-- it leads.
pub data Answer : Type 0 where
  alone : Answer
  shares leads : ℕ → Answer

abbrev pub or_else {ℓ} : {A : Type ℓ} → Option A → A → A
or_else none a = a
or_else (some b) a = b

abbrev pub or_global : Option ℕ → Option ℕ → Option ℕ
or_global none g = g
or_global (some s) g = some s

abbrev pub is_aborted : Option ℕ → List ℕ → Bool
is_aborted none ss = false
is_aborted (some s) [] = false
is_aborted (some s) (t ∷ ss) = s == t || is_aborted (some s) ss

abbrev count_miss : Dedup → Dedup × Answer
count_miss d = (record d { misses = d.misses + 1 }, alone)

abbrev hit : Entry → Dedup → Dedup × Answer
hit e d = (record d { hits = d.hits + 1 }, shares e.id)

-- The entry stands in the map before the factory starts.
unfoldable pub lead : Key → ℕ → Option ℕ → Dedup → Dedup × Answer
lead key window signal d = (
  record d {
    misses = d.misses + 1;
    inflight =
        JsMap.set key_discrete key (record { id = d.next_id; resolved_at = none }) d.inflight;
    leaders = record { id = d.next_id; key = key; window_ms = window; signal = signal } ∷ d.leaders;
    next_id = suc d.next_id;
  },
  leads d.next_id,
)

-- An entry that is in the map: in flight, or resolved at a time.
unfoldable pub on_existing : Option ℕ → Entry → Key → ℕ → Option ℕ → ℕ → Dedup → Dedup × Answer
unfolding lead
on_existing none e key window signal now d = hit e d
on_existing (some t) e key window signal now d =
    if window == 0
    then count_miss d
    else if leb now (t + window)
    then hit e d
    else lead key window signal (record d { inflight = JsMap.delete key_discrete key d.inflight })

unfoldable pub on_lookup : Option Entry → Key → ℕ → Option ℕ → ℕ → Dedup → Dedup × Answer
unfolding lead on_existing
on_lookup none key window signal now d = lead key window signal d
on_lookup (some e) key window signal now d = on_existing e.resolved_at e key window signal now d

unfoldable pub execute :
    ℕ → List ℕ → List ℕ → Headers → Option ℕ → Option ℕ → Dedup → Dedup × Answer
unfolding on_lookup
execute now method url headers window signal d =
    let effective_window = or_else window d.window_ms in
    let effective_signal = or_global signal d.global_signal in
    let canonical = to_upper_text method in
    let key = d.key_fn canonical url headers in
    if is_aborted effective_signal d.aborted_signals || not (is_member canonical d.methods)
    then count_miss d
    else on_lookup (JsMap.get key_discrete key d.inflight) key effective_window effective_signal now
        d

abbrev pub without_leader : ℕ → List Leader → List Leader
without_leader i [] = []
without_leader i (l ∷ ls) = if l.id == i then ls else l ∷ without_leader i ls

abbrev pub owns : ℕ → Option Entry → Bool
owns i none = false
owns i (some e) = e.id == i

-- `clearTimeout` and `timeouts.delete`.
abbrev clear_timer : Key → Dedup → Dedup
clear_timer key d = record d { timeouts = JsMap.delete key_discrete key d.timeouts }

start_window : ℕ → Leader → Dedup → Dedup
start_window now l d = record d {
  inflight = JsMap.set key_discrete l.key (record { id = l.id; resolved_at = some now }) d.inflight;
  timeouts =
      JsMap.set key_discrete l.key (record { id = d.next_timer; due = now + l.window_ms })
        (JsMap.delete key_discrete l.key d.timeouts);
  next_timer = suc d.next_timer;
}

-- The factory of a leader succeeds.
unfoldable pub settle_success : ℕ → Leader → Dedup → Dedup
unfolding start_window
settle_success now l d =
    let c = record d { leaders = without_leader l.id d.leaders } in
    if owns l.id (JsMap.get key_discrete l.key d.inflight)
    then if l.window_ms == 0
      then record c { inflight = JsMap.delete key_discrete l.key c.inflight }
      else start_window now l c
    else c

-- The factory of a leader fails.
unfoldable pub settle_failure : Leader → Dedup → Dedup
settle_failure l d =
    let c = clear_timer l.key (record d { leaders = without_leader l.id d.leaders }) in
    if owns l.id (JsMap.get key_discrete l.key d.inflight)
    then record c { inflight = JsMap.delete key_discrete l.key c.inflight }
    else c

-- The window timer of a key runs out.
unfoldable pub timer_fires : Key → Dedup → Dedup
timer_fires key d =
    clear_timer key (record d { inflight = JsMap.delete key_discrete key d.inflight })

abbrev pub same_signal : ℕ → Option ℕ → Bool
same_signal s none = false
same_signal s (some t) = s == t

-- The abort listeners of the factories that still run.
unfoldable pub run_aborts : ℕ → List Leader → Dedup → Dedup
run_aborts s [] d = d
run_aborts s (l ∷ ls) d = run_aborts s ls (
    if same_signal s l.signal
    then clear_timer l.key (record d { inflight = JsMap.delete key_discrete l.key d.inflight })
    else d)

unfoldable pub abort : ℕ → Dedup → Dedup
unfolding run_aborts
abort s d = run_aborts s d.leaders (record d { aborted_signals = s ∷ d.aborted_signals })

unfoldable pub clear : Dedup → Dedup
clear d = record d { inflight = []; timeouts = [] }

unfoldable pub invalidate : Key → Dedup → Dedup × Bool
invalidate key d = (
  clear_timer key (record d { inflight = JsMap.delete key_discrete key d.inflight }),
  JsMap.has key_discrete key d.inflight,
)

unfoldable pub reset_metrics : Dedup → Dedup
reset_metrics d = record d { hits = 0; misses = 0 }
