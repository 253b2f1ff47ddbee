-- ===== src/Dedup/Coalescing.antt =====
-- What coalescing promises (src/dedup.ts): a burst of concurrent calls with one key runs the
-- factory once, and a settling touches no entry but its own.
use kinetex.Base.{
  ℕ, suc, leb, ◌+◌, ◌≡◌, refl, ap, ◌≢◌, Bool, true, false, ◌||◌, not, List, [], ◌∷◌, Option, none,
  some, arith, length, replicate, All, ◌==◌, if◌then◌else◌, map, to_upper_text, is_member,
}
use kinetex.JsMap
use kinetex.JsMap.{get-set_self, get-set_ne, get-delete_ne}
use kinetex.Dedup.Keys.{Key, key_discrete, Headers}
use kinetex.Dedup.{
  Entry, Dedup, Leader, Answer, shares, leads, execute, settle_success, settle_failure, or_global,
  is_aborted, on_lookup, on_existing, alone, or_else, lead,
}

-- The arguments of a call.
pub record Call : Type 0 where
  pub at : ℕ
  pub method : List ℕ
  pub url : List ℕ
  pub headers : Headers
  pub window_ms : Option ℕ
  pub signal : Option ℕ

abbrev pub call : Call → Dedup → Dedup × Answer
call c d = execute c.at c.method c.url c.headers c.window_ms c.signal d

abbrev pub call_key : Dedup → Call → Key
call_key d c = d.key_fn (to_upper_text c.method) c.url c.headers

-- Calls with no settling between them.
unfoldable pub burst : List Call → Dedup → Dedup × List Answer
burst [] d = (d, [])
burst (c ∷ cs) d = let (d', a) = call c d in let (d'', rest) = burst cs d' in (d'', a ∷ rest)

-- A call that deduplication takes in, with the given key.
abbrev pub Joins : Dedup → Key → Call → Type 0
Joins d k c =
    (call_key d c ≡ k)
    × ((is_aborted (or_global c.signal d.global_signal) d.aborted_signals
          || not (is_member (to_upper_text c.method) d.methods))
        ≡ false)

abbrev pub entry : Key → Dedup → Option Entry
entry k d = JsMap.get key_discrete k d.inflight

-- What the map holds decides, once the call is taken in.
taken_in :
    (c : Call) (k : Key) (d : Dedup)
    → Joins d k c
    → call c d
      ≡ on_lookup
          (entry k d)
          k
          (or_else c.window_ms d.window_ms)
          (or_global c.signal d.global_signal)
          c.at
          d
unfolding execute on_lookup
taken_in c k d (e, taken) = ground (arith, e, taken)

joiner :
    (c : Call) (k : Key) (i : ℕ) (d : Dedup)
    → Joins d k c
    → entry k d ≡ some (record { id = i; resolved_at = none })
    → call c d ≡ (record d { hits = d.hits + 1 }, shares i)
unfolding on_lookup
joiner c k i d j h = ground (arith, taken_in c k d j, h)

joiners :
    (cs : List Call) (k : Key) (i : ℕ) (d : Dedup)
    → All (Joins d k) cs
    → entry k d ≡ some (record { id = i; resolved_at = none })
    → burst cs d ≡ (record d { hits = d.hits + length cs }, replicate (length cs) (shares i))
unfolding burst
joiners [] k i d j h = ground arith
joiners (c ∷ cs) k i d (j, js) h =
    ground (arith, joiner c k i d j h, joiners cs k i (record d { hits = d.hits + 1 }) js h)

leader :
    (c : Call) (k : Key) (d : Dedup)
    → Joins d k c
    → entry k d ≡ none
    → call c d ≡ lead k (or_else c.window_ms d.window_ms) (or_global c.signal d.global_signal) d
unfolding on_lookup
leader c k d j h = ground (arith, taken_in c k d j, h)

-- When no entry has a key, any number of concurrent calls with that key that deduplication takes
-- in, whose signals are not aborted and whose methods are deduplicated, run the factory once: the
-- first call leads, all others get the promise of its entry, one miss and a hit for each of the
-- others are counted, and the entry of the key stays unresolved.
pub burst_runs_once :
    (k : Key) (c : Call) (cs : List Call) (d : Dedup)
    → All (Joins d k) (c ∷ cs)
    → JsMap.get key_discrete k d.inflight ≡ none
    → let r = burst (c ∷ cs) d in
      (r.1 ≡ leads d.next_id ∷ replicate (length cs) (shares d.next_id))
      × (r.0.misses ≡ d.misses + 1)
      × (r.0.hits ≡ d.hits + length cs)
      × (length r.0.leaders ≡ suc (length d.leaders))
      × (JsMap.get key_discrete k r.0.inflight
          ≡ some (record { id = d.next_id; resolved_at = none }))
unfolding burst lead
burst_runs_once k c cs d (j, js) h = ground (
  arith,
  leader c k d j h,
  get-set_self key_discrete k (record { id = d.next_id; resolved_at = none }) d.inflight,
  joiners cs k d.next_id
      (lead k (or_else c.window_ms d.window_ms) (or_global c.signal d.global_signal) d).0 js,
)

-- A settling, a success or a failure, of a run keeps every entry that belongs to another run: what
-- another key holds, and what a later leader put under the same key after the run lost it.
pub settle-keep_others :
    (now : ℕ) (l : Leader) (d : Dedup) (k : Key) (e : Entry)
    → JsMap.get key_discrete k d.inflight ≡ some e
    → e.id ≢ l.id
    → (JsMap.get key_discrete k (settle_success now l d).inflight ≡ some e)
      × (JsMap.get key_discrete k (settle_failure l d).inflight ≡ some e)
unfolding settle_success settle_failure
settle-keep_others now l d k e h ne = elim (key_discrete k l.key) [
  | yes p ↦ ground (arith, h, ne, p)
  | no n ↦ ground (
    arith,
    h,
    get-delete_ne key_discrete l.key k d.inflight n,
    get-set_ne key_discrete l.key k (record { id = l.id; resolved_at = some now }) d.inflight n,
  )
]

-- What the counters and the map say after a call with an answer.
abbrev pub id_of : Option Entry → Option ℕ
id_of none = none
id_of (some e) = some e.id

abbrev pub Accounted : Key → Answer → Dedup → Dedup → Type 0
Accounted k alone d e = (e.misses ≡ d.misses + 1) × (e.hits ≡ d.hits) × (e.inflight ≡ d.inflight)
Accounted k (shares i) d e =
    (e.hits ≡ d.hits + 1)
    × (e.misses ≡ d.misses)
    × (e.inflight ≡ d.inflight)
    × (e.leaders ≡ d.leaders)
    × (id_of (entry k d) ≡ some i)
Accounted k (leads i) d e =
    (e.misses ≡ d.misses + 1)
    × (e.hits ≡ d.hits)
    × (map (λ (l : Leader). l.id) e.leaders ≡ i ∷ map (λ (l : Leader). l.id) d.leaders)
    × (entry k e ≡ some (record { id = i; resolved_at = none }))

lead-Accounted :
    (k : Key) (window : ℕ) (s : Option ℕ) (d : Dedup)
    → let r = lead k window s d in Accounted k r.1 d r.0
unfolding lead
lead-Accounted k window s d = (
  refl,
  refl,
  refl,
  get-set_self key_discrete k (record { id = d.next_id; resolved_at = none }) d.inflight,
)

if_Accounted :
    (b : Bool) (x y : Dedup × Answer) (k : Key) (d : Dedup)
    → Accounted k x.1 d x.0
    → Accounted k y.1 d y.0
    → let r = if b then x else y in Accounted k r.1 d r.0
if_Accounted true x y k d v w = v
if_Accounted false x y k d v w = w

existing-Accounted :
    (o : Option ℕ) (e : Entry) (k : Key) (window : ℕ) (s : Option ℕ) (now : ℕ) (d : Dedup)
    → entry k d ≡ some e
    → let r = on_existing o e k window s now d in Accounted k r.1 d r.0
unfolding on_existing lead
existing-Accounted none e k window s now d h = (refl, refl, refl, refl, ap id_of h)
existing-Accounted (some t) e k window s now d h =
    if_Accounted (window == 0) _ _ k d (refl, refl, refl)
      (if_Accounted (leb now (t + window)) _ _ k d (refl, refl, refl, refl, ap id_of h)
        (
          refl,
          refl,
          refl,
          get-set_self key_discrete k (record { id = d.next_id; resolved_at = none })
              (JsMap.delete key_discrete k d.inflight),
        ))

lookup-Accounted :
    (o : Option Entry) (k : Key) (window : ℕ) (s : Option ℕ) (now : ℕ) (d : Dedup)
    → entry k d ≡ o
    → let r = on_lookup o k window s now d in Accounted k r.1 d r.0
unfolding on_lookup
lookup-Accounted none k window s now d h = lead-Accounted k window s d
lookup-Accounted (some e) k window s now d h = existing-Accounted e.resolved_at e k window s now d h

-- Every call is counted once. One that gets the promise of an entry counts as a hit, starts no
-- factory and leaves the map alone, and the entry is the one under its key. One that leads counts
-- as a miss, starts the one new run, and its entry, unresolved, is under its key. One that is left
-- alone counts as a miss and leaves the map alone.
pub call-Accounted : (c : Call) (d : Dedup) → Accounted (call_key d c) (call c d).1 d (call c d).0
unfolding execute
call-Accounted c d =
    if_Accounted
      (is_aborted (or_global c.signal d.global_signal) d.aborted_signals
        || not (is_member (to_upper_text c.method) d.methods))
      _ _ (call_key d c) d (refl, refl, refl)
      (lookup-Accounted (entry (call_key d c) d) _ _ _ _ d refl)
