-- ===== src/Cache/Room.antt =====
-- What the eviction loops of src/cache.ts leave: their fuel is enough, and a new entry fits.
use kinetex.Base.{
  ℕ, zero, suc, ◌+◌, ◌≡◌, ◌≤◌, ◌<◌, ◌⊎◌, sym, ap, ◌∙◌, subst, Bool, List, [], Option, Text, arith,
  inl, inr, length, Bool-cases,
}
use kinetex.Cache.Freshness.{Entry}
use kinetex.Cache.Lru.{size}
use kinetex.Cache.Lru.Links.{without}
use kinetex.Cache.State.{
  Config, Cache, evict_while, evict_all, too_many, too_large, ensure_capacity,
}
use kinetex.Cache.Capacity.{Held}
use kinetex.Cache.Eviction.{
  Room, evict_while-Room, Round-of, last_cases, evict_while_done, evict_while_break,
  evict_while_more, no_key,
}

more_fuel :
    (full : Cache → Bool) (fuel m : ℕ) (k : Text) (p : Option Entry) (c : Cache) (xs : List Text)
    → Held k p c xs
    → length xs < fuel
    → evict_while full (m + fuel) c ≡ evict_while full fuel c
more_fuel full zero m k p c xs h b = absurd (omega (arith, b))
more_fuel full (suc fuel) m k p c xs h b =
    let z : suc (m + fuel) ≡ m + suc fuel = omega arith in
    subst (λ n. evict_while full n c ≡ evict_while full (suc fuel) c) z
      (elim (Bool-cases (full c)) [
        | inr e ↦ evict_while_done full (m + fuel) c e ∙ sym (evict_while_done full fuel c e)
        | inl e ↦ elim (last_cases xs) [
          | inl n ↦
              evict_while_break full (m + fuel) c e (no_key k p c xs h n)
              ∙ sym (evict_while_break full fuel c e (no_key k p c xs h n))
          | inr (y, z) ↦
              let r = Round-of k p c xs y h z in
              evict_while_more full (m + fuel) c r.result e r.taken
              ∙ more_fuel full fuel m k p r.result (without r.key xs) r.held
                  (omega (arith, b, r.shorter))
              ∙ sym (evict_while_more full fuel c r.result e r.taken)
        ]
      ])

pub evict_all-Room :
    (full : Cache → Bool) (k : Text) (p : Option Entry) (c : Cache) (xs : List Text)
    → Held k p c xs
    → Room full k p c (evict_all full c)
unfolding evict_all size
evict_all-Room full k p c xs h =
    evict_while-Room full (size c.lru + 1) k p c xs h (omega (arith, h.tracked.count))

pub evict_all_ends :
    (full : Cache → Bool) (m : ℕ) (k : Text) (p : Option Entry) (c : Cache) (xs : List Text)
    → Held k p c xs
    → evict_while full (m + (size c.lru + 1)) c ≡ evict_all full c
unfolding evict_all size
evict_all_ends full m k p c xs h =
    more_fuel full (size c.lru + 1) m k p c xs h (omega (arith, h.tracked.count))

-- A cache with room for an entry of a size.
pub record Fits (n : ℕ) (k : Text) (p : Option Entry) (c c' : Cache) : Type 0 where
  pub keys : List Text
  pub held : Held k p c' keys
  pub count_below : c'.stats.total_entries < c'.cfg.max_entries
  pub size_below : (c'.stats.total_size_bytes + n ≤ c'.cfg.max_size_bytes) ⊎ (keys ≡ [])
  pub smaller : c'.stats.total_size_bytes ≤ c.stats.total_size_bytes
  pub settings : c'.cfg ≡ c.cfg

empty_count :
    (k : Text) (p : Option Entry) (c : Cache) (xs : List Text)
    → Held k p c xs
    → xs ≡ []
    → c.stats.total_entries ≡ 0
empty_count k p c xs h e = h.counts.entries ∙ ap length e

count-Room :
    (k : Text) (p : Option Entry) (c c' : Cache)
    → 1 ≤ c.cfg.max_entries
    → Room too_many k p c c'
    → c'.stats.total_entries < c.cfg.max_entries
count-Room k p c c' b r = elim r.ended [
  | inl e ↦ ground (arith, e, ap (λ (g : Config). g.max_entries) r.settings)
  | inr e ↦ ground (arith, b, empty_count k p c' r.keys r.held e)
]

pub ensure_capacity-Fits :
    (n : ℕ) (k : Text) (p : Option Entry) (c : Cache) (xs : List Text)
    → Held k p c xs
    → 1 ≤ c.cfg.max_entries
    → Fits n k p c (ensure_capacity n c)
unfolding ensure_capacity
ensure_capacity-Fits n k p c xs h b =
    let r = evict_all-Room too_many k p c xs h in
    let s = evict_all-Room (too_large n) k p (evict_all too_many c) r.keys r.held in
    record {
      keys = s.keys;
      held = s.held;
      count_below =
          subst (λ (g : Config). (ensure_capacity n c).stats.total_entries < g.max_entries)
            (sym (s.settings ∙ r.settings))
            (omega (arith, s.fewer, count-Room k p c (evict_all too_many c) b r));
      size_below = elim s.ended [ inl e ↦ inl (ground (arith, e)) | inr e ↦ inr e ];
      smaller = omega (arith, s.smaller, r.smaller);
      settings = s.settings ∙ r.settings;
    }
