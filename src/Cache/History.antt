-- ===== src/Cache/History.antt =====
-- Any sequence of calls of src/cache.ts's HTTPCache on a new cache. A call is atomic here: calls that
-- overlap at their awaits are not part of it. `deserialize` is left out, since it counts an entry
-- again whose key is stored already.
use kinetex.Base.{
  ℕ, ◌+◌, ◌≡◌, ◌≤◌, ◌≢◌, refl, sym, ◌∙◌, subst, Bool, List, [], ◌∷◌, ◌++◌, Option, none, some, Text,
  arith, text_discrete, true, false, inl, inr, Bool-cases, is_member, Option-cases,
}
use kinetex.JsMap
use kinetex.Numbers.{Number}
use kinetex.Cache.Freshness.{Request, Response, Entry}
use kinetex.Cache.State.{lookup, Config, Cache, ensure_capacity}
use kinetex.Cache.Requests.{key_of, create, get, touch_key}
use kinetex.Cache.Storing.{
  Options, set, store_made, store_entry, make_entry, put_in, put_back, take_out,
}
use kinetex.Cache.Upkeep.{
  revalidate, warm, Warm, reset_stats, mark_swr_in_flight, clear_swr_in_flight,
}
use kinetex.Cache.Invalidation.{delete, invalidate_by_url, invalidate_by_tag, clear}
use kinetex.Cache.Invariant.{Consistent, store_room}
use kinetex.Cache.Preserved.{get-Consistent, set-Consistent, stats-Consistent}
use kinetex.Cache.Maintained.{
  revalidate-Consistent, delete-Consistent, invalidate_by_url-Consistent, clear-Consistent,
  create-Consistent,
}
use kinetex.Cache.TagInvalidation.{invalidate_by_tag-Consistent}
use kinetex.Cache.Shrinking.{
  Shrinks, get-Shrinks, revalidate-Shrinks, delete-Shrinks, invalidate_by_url-Shrinks,
  invalidate_by_tag-Shrinks, clear-Shrinks,
}
use kinetex.Cache.Limits.{take_out_settings, Within, Shrinks-Within, set-Within}

pub data Call : Type 0 where
  looked_up : ℕ → Request → Call
  written : ℕ → Bool → Request → Response → Options → Call
  revalidated : ℕ → Request → Response → Call
  deleted : Request → Call
  url_invalidated : Text → Call
  tag_invalidated : Text → Call
  cleared : Call
  warmed : List Warm → Call
  stats_reset : Call
  marked : Request → Call
  unmarked : Request → Call

module _ (parse_date : Text → Number) where
  unfoldable pub step : Call → Cache → Cache
  unfolding get set revalidate delete invalidate_by_url invalidate_by_tag clear warm reset_stats
  step (looked_up now req) c = (get now req c).1
  step (written now accepted req res opts) c = (set parse_date now accepted req res opts c).0
  step (revalidated now req res) c = (revalidate parse_date now req res c).0
  step (deleted req) c = (delete req c).0
  step (url_invalidated prefix) c = (invalidate_by_url prefix c).0
  step (tag_invalidated tag) c = (invalidate_by_tag tag c).0
  step cleared c = clear c
  step (warmed ws) c = warm parse_date ws c
  step stats_reset c = reset_stats c
  step (marked req) c = (mark_swr_in_flight req c).0
  step (unmarked req) c = clear_swr_in_flight req c

  unfoldable pub run : List Call → Cache → Cache
  unfolding step
  run [] c = c
  run (call ∷ calls) c = run calls (step call c)

-- Limits under which the cache can keep its promises, and a key function that gives no empty key.
pub record Sound (cfg : Config) : Type 0 where
  pub some_entries : 1 ≤ cfg.max_entries
  pub large_enough : cfg.max_body_size_bytes + 256 ≤ cfg.max_size_bytes
  pub keyed : (req : Request) → key_of cfg req ≢ []

pub record Good (cfg : Config) (c : Cache) : Type 0 where
  pub settings : c.cfg ≡ cfg
  pub consistent : Consistent c
  pub within : Within c

Shrinks-Good :
    (cfg : Config) (c c' : Cache) → Good cfg c → Consistent c' → Shrinks c c' → Good cfg c'
Shrinks-Good cfg c c' g i s = record {
  settings = s.settings ∙ g.settings;
  consistent = i;
  within = Shrinks-Within c c' s g.within;
}

put_back_settings : (k : Text) (o : Option Entry) (c : Cache) → (put_back k o c).cfg ≡ c.cfg
unfolding put_back touch_key
put_back_settings k none c = refl
put_back_settings k (some p) c = refl

pub store_entry-cfg :
    (accepted : Bool) (k : Text) (e : Entry) (c : Cache)
    → Consistent c
    → 1 ≤ c.cfg.max_entries
    → (store_entry accepted k e c).0.cfg ≡ c.cfg
unfolding store_entry lookup put_in touch_key
store_entry-cfg true k e c i b =
    (store_room k e c i b).settings ∙ take_out_settings k (JsMap.get text_discrete k c.storage) c
store_entry-cfg false k e c i b =
    put_back_settings k (JsMap.get text_discrete k c.storage)
      (ensure_capacity e.size (take_out k (JsMap.get text_discrete k c.storage) c))
    ∙ (store_room k e c i b).settings
    ∙ take_out_settings k (JsMap.get text_discrete k c.storage) c

pub set-cfg :
    (parse_date : Text → Number) (now : ℕ) (accepted : Bool) (req : Request) (res : Response)
    (opts : Options) (c : Cache)
    → Consistent c
    → 1 ≤ c.cfg.max_entries
    → (set parse_date now accepted req res opts c).0.cfg ≡ c.cfg
unfolding set store_made
set-cfg parse_date now accepted req res opts c i b =
    elim (Option-cases (make_entry parse_date now req res opts c.cfg)) [
      | inl n ↦ rw n
      | inr (e, h) ↦ rw h (store_entry-cfg accepted (key_of c.cfg req) e c i b)
    ]

set-Good :
    (parse_date : Text → Number) (now : ℕ) (accepted : Bool) (req : Request) (res : Response)
    (opts : Options) (cfg : Config) (c : Cache)
    → Sound cfg
    → Good cfg c
    → Good cfg (set parse_date now accepted req res opts c).0
set-Good parse_date now accepted req res opts cfg c s g =
    let b : 1 ≤ c.cfg.max_entries =
      subst (λ (x : Config). 1 ≤ x.max_entries) (sym g.settings) s.some_entries in
    let l : c.cfg.max_body_size_bytes + 256 ≤ c.cfg.max_size_bytes =
      subst (λ (x : Config). x.max_body_size_bytes + 256 ≤ x.max_size_bytes) (sym g.settings)
        s.large_enough in
    let k : key_of c.cfg req ≢ [] = subst (λ x. key_of x req ≢ []) (sym g.settings) (s.keyed req) in
    record {
      settings = set-cfg parse_date now accepted req res opts c g.consistent b ∙ g.settings;
      consistent = set-Consistent parse_date now accepted req res opts c k b g.consistent;
      within = set-Within parse_date now accepted req res opts c b l g.consistent g.within;
    }

warm-Good :
    (parse_date : Text → Number) (ws : List Warm) (cfg : Config) (c : Cache)
    → Sound cfg
    → Good cfg c
    → Good cfg (warm parse_date ws c)
unfolding warm
warm-Good parse_date [] cfg c s g = g
warm-Good parse_date (w ∷ ws) cfg c s g =
    let opts : Options = record { tags = w.tags; ttl = none; force = true } in
    warm-Good parse_date ws cfg (set parse_date w.now w.accepted w.req w.res opts c).0 s
      (set-Good parse_date w.now w.accepted w.req w.res opts cfg c s g)

marked_same :
    (cfg : Config) (c : Cache) (xs : List Text)
    → Good cfg c
    → Good cfg (record c { swr_in_flight = xs })
marked_same cfg c xs g =
    Shrinks-Good cfg c (record c { swr_in_flight = xs }) g
      (record {
        keys = g.consistent.keys;
        tracked = g.consistent.tracked;
        counts = g.consistent.counts;
        distinct = g.consistent.distinct;
        nonempty = g.consistent.nonempty;
      })
      (record { fewer = omega arith; smaller = omega arith; settings = refl })

mark_swr_in_flight-Good :
    (req : Request) (cfg : Config) (c : Cache) → Good cfg c → Good cfg (mark_swr_in_flight req c).0
unfolding mark_swr_in_flight
mark_swr_in_flight-Good req cfg c g =
    elim (Bool-cases (is_member (key_of c.cfg req) c.swr_in_flight)) [
      | inl e ↦ rw e g
      | inr e ↦ rw e (marked_same cfg c (c.swr_in_flight ++ key_of c.cfg req ∷ []) g)
    ]

step-Good :
    (parse_date : Text → Number) (call : Call) (cfg : Config) (c : Cache)
    → Sound cfg
    → Good cfg c
    → Good cfg (step parse_date call c)
unfolding step reset_stats mark_swr_in_flight clear_swr_in_flight
step-Good parse_date (looked_up now req) cfg c s g =
    Shrinks-Good cfg c (get now req c).1 g (get-Consistent now req c g.consistent)
      (get-Shrinks now req c)
step-Good parse_date (written now accepted req res opts) cfg c s g =
    set-Good parse_date now accepted req res opts cfg c s g
step-Good parse_date (revalidated now req res) cfg c s g =
    Shrinks-Good cfg c (revalidate parse_date now req res c).0 g
      (revalidate-Consistent parse_date now req res c g.consistent)
      (revalidate-Shrinks parse_date now req res c)
step-Good parse_date (deleted req) cfg c s g =
    Shrinks-Good cfg c (delete req c).0 g (delete-Consistent req c g.consistent)
      (delete-Shrinks req c)
step-Good parse_date (url_invalidated prefix) cfg c s g =
    Shrinks-Good cfg c (invalidate_by_url prefix c).0 g
      (invalidate_by_url-Consistent prefix c g.consistent) (invalidate_by_url-Shrinks prefix c)
step-Good parse_date (tag_invalidated tag) cfg c s g =
    Shrinks-Good cfg c (invalidate_by_tag tag c).0 g
      (invalidate_by_tag-Consistent tag c g.consistent) (invalidate_by_tag-Shrinks tag c)
step-Good parse_date cleared cfg c s g =
    Shrinks-Good cfg c (clear c) g (clear-Consistent c) (clear-Shrinks c)
step-Good parse_date (warmed ws) cfg c s g = warm-Good parse_date ws cfg c s g
step-Good parse_date stats_reset cfg c s g =
    Shrinks-Good cfg c (reset_stats c) g
      (stats-Consistent c (reset_stats c).stats g.consistent refl refl)
      (record { fewer = omega arith; smaller = omega arith; settings = refl })
step-Good parse_date (marked req) cfg c s g = mark_swr_in_flight-Good req cfg c g
step-Good parse_date (unmarked req) cfg c s g =
    marked_same cfg c (clear_swr_in_flight req c).swr_in_flight g

run-Good :
    (parse_date : Text → Number) (calls : List Call) (cfg : Config) (c : Cache)
    → Sound cfg
    → Good cfg c
    → Good cfg (run parse_date calls c)
unfolding run
run-Good parse_date [] cfg c s g = g
run-Good parse_date (call ∷ calls) cfg c s g =
    run-Good parse_date calls cfg (step parse_date call c) s (step-Good parse_date call cfg c s g)

create-Good : (cfg : Config) → Good (create cfg).cfg (create cfg)
unfolding create
create-Good cfg = record {
  settings = refl;
  consistent = create-Consistent cfg;
  within = record { count = omega arith; bytes = omega arith };
}

-- On a new cache whose limits leave room for an entry and whose keys are not empty: after any sequence
-- of lookups, writes, revalidations, deletions, invalidations by URL and by tag, clears, warm-ups,
-- resets of the statistics and marks of revalidations in flight, each of which ends before the next
-- one begins, and without a call of `deserialize`, the settings are unchanged, the linked list of
-- recency has exactly the stored keys, the gauges are the number and
-- the bytes of the stored entries, every tag of a stored entry leads to its key, and both limits
-- hold.
pub run_keeps :
    (parse_date : Text → Number) (calls : List Call) (cfg : Config)
    → Sound (create cfg).cfg
    → Good (create cfg).cfg (run parse_date calls (create cfg))
run_keeps parse_date calls cfg s =
    run-Good parse_date calls (create cfg).cfg (create cfg) s (create-Good cfg)
