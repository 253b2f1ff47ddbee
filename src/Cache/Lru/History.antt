-- ===== src/Cache/Lru/History.antt =====
-- Any sequence of calls of src/cache.ts's LRUTracker, beside the same calls on a list of keys, most
-- recently used first.
use kinetex.Base.{◌≡◌, refl, List, [], ◌∷◌, Option, none, Text, ℕ, length}
use kinetex.Cache.Lru.{Lru, init, touch, remove, evict, clear, size}
use kinetex.Cache.Lru.Links.{last_from, without}
use kinetex.Cache.Lru.Detached.{Represents}
use kinetex.Cache.Lru.Refinement.{
  touch-Represents, remove-Represents, evict-Represents, clear-Represents, init-Represents,
  without_last,
}

-- The calls of the tracker.
pub data Call : Type 0 where
  touched : Text → Call
  removed : Text → Call
  evicted : Call
  cleared : Call

abbrev pub step : Call → Lru → Lru × Option Text
step (touched k) t = (touch k t, none)
step (removed k) t = (remove k t, none)
step evicted t = evict t
step cleared t = (clear t, none)

-- What each call returns, and the size after it.
abbrev pub run : List Call → Lru → List (Option Text × ℕ)
run [] t = []
run (c ∷ cs) t = ((step c t).1, size (step c t).0) ∷ run cs (step c t).0

-- The reference: a list of keys.
abbrev pub list_step : Call → List Text → List Text × Option Text
list_step (touched k) xs = (k ∷ without k xs, none)
list_step (removed k) xs = (without k xs, none)
list_step evicted xs = (without_last (last_from none xs) xs, last_from none xs)
list_step cleared xs = ([], none)

abbrev pub list_run : List Call → List Text → List (Option Text × ℕ)
list_run [] xs = []
list_run (c ∷ cs) xs =
    ((list_step c xs).1, length (list_step c xs).0) ∷ list_run cs (list_step c xs).0

step-Represents :
    (c : Call) (t : Lru) (xs : List Text)
    → Represents t xs
    → Represents (step c t).0 (list_step c xs).0 × ((step c t).1 ≡ (list_step c xs).1)
step-Represents (touched k) t xs r = (touch-Represents k t xs r, refl)
step-Represents (removed k) t xs r = (remove-Represents k t xs r, refl)
step-Represents evicted t xs r = evict-Represents t xs r
step-Represents cleared t xs r = (clear-Represents t, refl)

run-Represents :
    (cs : List Call) (t : Lru) (xs : List Text) → Represents t xs → run cs t ≡ list_run cs xs
unfolding size
run-Represents [] t xs r = refl
run-Represents (c ∷ cs) t xs r =
    let s = step-Represents c t xs r in
    rw (s.1, s.0.count, run-Represents cs (step c t).0 (list_step c xs).0 s.0)

-- For every sequence of touches, removals, evictions and clears on a new tracker, the keys that the
-- evictions return and the sizes after each call are those of a list of keys in which a touch moves
-- its key to the front and an eviction takes the last key.
pub run_as_list : (cs : List Call) → run cs init ≡ list_run cs []
run_as_list cs = run-Represents cs init [] init-Represents
