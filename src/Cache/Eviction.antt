-- ===== src/Cache/Eviction.antt =====
-- The eviction loops of src/cache.ts end and keep the gauges, the links and the tags right.
use kinetex.Base.{
  ℕ, zero, suc, ◌≡◌, ◌≤◌, ◌<◌, ◌⊎◌, refl, sym, ap, ◌∙◌, ◌≢◌, subst, Bool, true, false, List, [],
  ◌∷◌, Option, none, some, Text, text_discrete, arith, inl, inr, length, Bool-cases, Option-cases,
}
use kinetex.JsMap
use kinetex.Cache.Freshness.{Entry}
use kinetex.Cache.Lru.{Lru, evict}
use kinetex.Cache.Lru.Links.{without, NotIn, last_from}
use kinetex.Cache.Lru.Detached.{Represents}
use kinetex.Cache.Lru.Refinement.{evict-Represents, without_last}
use kinetex.Cache.State.{
  Cache, delete_entry, lookup, evict_key, evict_round, count_eviction, after_break, evict_while,
}
use kinetex.Cache.Counts.{length-without}
use kinetex.Cache.Capacity.{Held, but_ne, but_self, last_in, last_there, round-Held}

-- Where an eviction loop leaves a cache.
pub record Room (full : Cache → Bool) (k : Text) (p : Option Entry) (c c' : Cache) : Type 0 where
  pub keys : List Text
  pub held : Held k p c' keys
  pub ended : (full c' ≡ false) ⊎ (keys ≡ [])
  pub fewer : c'.stats.total_entries ≤ c.stats.total_entries
  pub smaller : c'.stats.total_size_bytes ≤ c.stats.total_size_bytes
  pub settings : c'.cfg ≡ c.cfg

-- A round on a cache that tracks a key.
pub record Round (k : Text) (p : Option Entry) (c : Cache) (xs : List Text) : Type 0 where
  pub result : Cache
  pub key : Text
  pub taken : evict_round c ≡ some result
  pub held : Held k p result (without key xs)
  pub shorter : length xs ≡ suc (length (without key xs))
  pub fewer : result.stats.total_entries ≤ c.stats.total_entries
  pub smaller : result.stats.total_size_bytes ≤ c.stats.total_size_bytes
  pub settings : result.cfg ≡ c.cfg

evict_key-some :
    (y : Text) (l : Lru) (c : Cache)
    → y ≢ []
    → evict_key (some y) l c
      ≡ some (count_eviction (delete_entry y (lookup y c) (record c { lru = l })))
unfolding evict_key
evict_key-some [] l c h = absurd (h refl)
evict_key-some (a ∷ s) l c h = refl

taken_with :
    (c : Cache) (y : Text) (e : Entry)
    → (evict c.lru).1 ≡ some y
    → y ≢ []
    → JsMap.get text_discrete y c.storage ≡ some e
    → evict_round c
      ≡ some (count_eviction (delete_entry y (some e) (record c { lru = (evict c.lru).0 })))
unfolding evict_round lookup
taken_with c y e o n g = rw (o, evict_key-some y (evict c.lru).0 c n, g)

-- A round when the key that the tracker gives, and its entry, are known.
Round-with :
    (k : Text) (p : Option Entry) (c : Cache) (xs : List Text) (y : Text) (e : Entry)
    → Held k p c xs
    → (evict c.lru).1 ≡ some y
    → Represents (evict c.lru).0 (without y xs)
    → ¬ NotIn y xs
    → y ≢ k
    → JsMap.get text_discrete y c.storage ≡ some e
    → Round k p c xs
unfolding delete_entry lookup
Round-with k p c xs y e h o r there d g =
    let l = (evict c.lru).0 in
    record {
      result = count_eviction (delete_entry y (some e) (record c { lru = l }));
      key = y;
      taken = taken_with c y e o (λ w. there (subst (λ v. NotIn v xs) (sym w) h.nonempty)) g;
      held = round-Held k p c xs y e l h r d g;
      shorter = length-without y xs there;
      fewer = omega arith;
      smaller = omega arith;
      settings = refl;
    }

pub Round-of :
    (k : Text) (p : Option Entry) (c : Cache) (xs : List Text) (y : Text)
    → Held k p c xs
    → last_from none xs ≡ some y
    → Round k p c xs
Round-of k p c xs y h z =
    let there = last_in none xs y (λ w. ground (arith, w)) z in
    let other : y ≢ k =
      λ w. there (subst (λ v. NotIn v xs) (sym w) (h.counts.keys_in k (but_self k c.storage))) in
    let v = evict-Represents c.lru xs h.tracked in
    elim (Option-cases (JsMap.get text_discrete y c.storage)) [
      | inl n ↦ absurd (there (h.counts.keys_in y (but_ne k c.storage y other ∙ n)))
      | inr (e, g) ↦
          Round-with k p c xs y e h (v.1 ∙ z)
            (subst (λ o. Represents (evict c.lru).0 (without_last o xs)) z v.0) there other g
    ]

done :
    (full : Cache → Bool) (k : Text) (p : Option Entry) (c : Cache) (xs : List Text)
    → Held k p c xs
    → full c ≡ false
    → Room full k p c c
done full k p c xs h e = record {
  keys = xs;
  held = h;
  ended = inl e;
  fewer = omega arith;
  smaller = omega arith;
  settings = refl;
}

-- A tracker without keys ends the loop.
broken :
    (full : Cache → Bool) (k : Text) (p : Option Entry) (c : Cache)
    → Held k p c []
    → Room full k p c (after_break c)
unfolding after_break
broken full k p c h = record {
  keys = [];
  held = record {
    tracked = (evict-Represents c.lru [] h.tracked).0;
    counts = h.counts;
    distinct = h.distinct;
    kept = h.kept;
    nonempty = h.nonempty;
  };
  ended = inr refl;
  fewer = omega arith;
  smaller = omega arith;
  settings = refl;
}

Room-trans :
    (full : Cache → Bool) (k : Text) (p : Option Entry) (a b c : Cache)
    → Room full k p b c
    → b.stats.total_entries ≤ a.stats.total_entries
    → b.stats.total_size_bytes ≤ a.stats.total_size_bytes
    → b.cfg ≡ a.cfg
    → Room full k p a c
Room-trans full k p a b c r e s g = record {
  keys = r.keys;
  held = r.held;
  ended = r.ended;
  fewer = omega (arith, r.fewer, e);
  smaller = omega (arith, r.smaller, s);
  settings = r.settings ∙ g;
}

pub last_cases : (xs : List Text) → (xs ≡ []) ⊎ ((y : Text) × (last_from none xs ≡ some y))
last_cases [] = inl refl
last_cases (x ∷ xs) = elim (Option-cases (last_from (some x) xs)) [
  | inl e ↦ absurd (last_there x xs e)
  | inr q ↦ inr q
]

pub evict_while_done :
    (full : Cache → Bool) (fuel : ℕ) (c : Cache)
    → full c ≡ false
    → evict_while full (suc fuel) c ≡ c
unfolding evict_while
evict_while_done full fuel c e = rw e

pub evict_while_break :
    (full : Cache → Bool) (fuel : ℕ) (c : Cache)
    → full c ≡ true
    → (evict c.lru).1 ≡ none
    → evict_while full (suc fuel) c ≡ after_break c
unfolding evict_while evict_round evict_key
evict_while_break full fuel c e n = rw (e, n)

pub evict_while_more :
    (full : Cache → Bool) (fuel : ℕ) (c c' : Cache)
    → full c ≡ true
    → evict_round c ≡ some c'
    → evict_while full (suc fuel) c ≡ evict_while full fuel c'
unfolding evict_while
evict_while_more full fuel c c' e n = rw (e, n)

pub no_key :
    (k : Text) (p : Option Entry) (c : Cache) (xs : List Text)
    → Held k p c xs
    → xs ≡ []
    → (evict c.lru).1 ≡ none
no_key k p c xs h n = (evict-Represents c.lru xs h.tracked).1 ∙ ap (last_from none) n

break_Room :
    (full : Cache → Bool) (fuel : ℕ) (k : Text) (p : Option Entry) (c : Cache) (xs : List Text)
    → Held k p c xs
    → full c ≡ true
    → xs ≡ []
    → Room full k p c (evict_while full (suc fuel) c)
break_Room full fuel k p c [] h e n =
    rw (evict_while_break full fuel c e (evict-Represents c.lru [] h.tracked).1)
      (broken full k p c h)
break_Room full fuel k p c (x ∷ xs) h e n = absurd (ground (arith, n))

pub evict_while-Room :
    (full : Cache → Bool) (fuel : ℕ) (k : Text) (p : Option Entry) (c : Cache) (xs : List Text)
    → Held k p c xs
    → length xs < fuel
    → Room full k p c (evict_while full fuel c)
evict_while-Room full zero k p c xs h b = absurd (omega (arith, b))
evict_while-Room full (suc fuel) k p c xs h b = elim (Bool-cases (full c)) [
  | inr e ↦ rw (evict_while_done full fuel c e) (done full k p c xs h e)
  | inl e ↦ elim (last_cases xs) [
    | inl n ↦ break_Room full fuel k p c xs h e n
    | inr (y, z) ↦
        let r = Round-of k p c xs y h z in
        rw (evict_while_more full fuel c r.result e r.taken) (
          Room-trans full k p c r.result (evict_while full fuel r.result)
            (evict_while-Room full fuel k p r.result (without r.key xs) r.held
              (omega (arith, b, r.shorter)))
            r.fewer r.smaller r.settings)
  ]
]
