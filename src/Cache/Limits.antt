-- ===== src/Cache/Limits.antt =====
-- The limits of src/cache.ts's HTTPCache on the number and the bytes of its entries.
use kinetex.Base.{
  ℕ, ◌+◌, ◌≡◌, ◌≤◌, refl, sym, ap, ◌∙◌, subst, Bool, true, false, not, ◌&&◌, Option, none, some,
  Text, arith, if◌then◌else◌, text_discrete, inl, inr, Option-cases, ltb,
}
use kinetex.JsMap
use kinetex.Numbers.{Number, num, at_most}
use kinetex.Cache.Freshness.{Entry, Request, Response, Ttl, body_bytes}
use kinetex.Cache.State.{Config, Cache, lookup, ensure_capacity}
use kinetex.Cache.Requests.{key_of, touch_key, is_cacheable}
use kinetex.Cache.Storing.{
  Options, set, store_made, store_entry, make_entry, admit_entry, variant_entry, capped, new_entry,
  take_out, put_in, put_back, stored_vary_key, set_ttl, is_status,
}
use kinetex.Cache.Counts.{sum_sizes, sum_sizes-without, size_of}
use kinetex.Cache.Lru.Links.{NotIn}
use kinetex.Cache.Capacity.{but}
use kinetex.Cache.Room.{Fits}
use kinetex.Cache.Invariant.{Consistent, stored, store_room}
use kinetex.Cache.Shrinking.{Shrinks}

pub record Within (c : Cache) : Type 0 where
  pub count : c.stats.total_entries ≤ c.cfg.max_entries
  pub bytes : c.stats.total_size_bytes ≤ c.cfg.max_size_bytes

pub Shrinks-Within : (c c' : Cache) → Shrinks c c' → Within c → Within c'
Shrinks-Within c c' s w = record {
  count =
      subst (λ (g : Config). c'.stats.total_entries ≤ g.max_entries) (sym s.settings)
        (omega (arith, s.fewer, w.count));
  bytes =
      subst (λ (g : Config). c'.stats.total_size_bytes ≤ g.max_size_bytes) (sym s.settings)
        (omega (arith, s.smaller, w.bytes));
}

-- A check that was passed.
pub passed :
    (b : Bool) (o : Option Entry) (e : Entry)
    → (if b then none else o) ≡ some e
    → (b ≡ false) × (o ≡ some e)
passed b o e h = ground (arith, h)

pub stored_variant :
    (o : Option Text) (now : ℕ) (res : Response) (opts : Options) (t : Ttl) (life : Number)
    (e : Entry)
    → variant_entry o now res opts t life ≡ some e
    → (v : Text) × (o ≡ some v) × (e ≡ new_entry now res opts t life v)
unfolding variant_entry
stored_variant none now res opts t life e h = ground (arith, h)
stored_variant (some v) now res opts t life e h = (v, refl, ground (arith, h))

-- What an entry that is made is, and the checks behind it.
pub admit_entry_made :
    (now : ℕ) (req : Request) (res : Response) (opts : Options) (t : Ttl) (cfg : Config) (e : Entry)
    → admit_entry now req res opts t cfg ≡ some e
    → ((not t.should_cache && not opts.force) ≡ false)
      × (ltb cfg.max_body_size_bytes (body_bytes res.body) ≡ false)
      × ((v : Text) × (stored_vary_key res.headers req ≡ some v)
          × (e ≡ new_entry now res opts t (capped t.ttl cfg.max_absolute_age) v))
unfolding admit_entry
admit_entry_made now req res opts t cfg e h =
    let life = capped t.ttl cfg.max_absolute_age in
    let last = variant_entry (stored_vary_key res.headers req) now res opts t life in
    let idle =
      at_most life (num 0)
      && at_most t.swr (num 0)
      && at_most t.stale_on_error (num 0)
      && not opts.force in
    let third = if idle then none else last in
    let big = ltb cfg.max_body_size_bytes (body_bytes res.body) in
    let second = if big then none else third in
    let a = passed (not t.should_cache && not opts.force) second e h in
    let b = passed big third e a.1 in
    let c = passed idle last e b.1 in
    (a.0, b.0, stored_variant (stored_vary_key res.headers req) now res opts t life e c.1)

pub make_entry_made :
    (parse_date : Text → Number) (now : ℕ) (req : Request) (res : Response) (opts : Options)
    (cfg : Config) (e : Entry)
    → make_entry parse_date now req res opts cfg ≡ some e
    → (is_cacheable cfg req.method ≡ true)
      × (is_status res.status cfg.cache_statuses ≡ true)
      × (admit_entry now req res opts (set_ttl parse_date now res opts cfg) cfg ≡ some e)
unfolding make_entry
make_entry_made parse_date now req res opts cfg e h =
    let last = admit_entry now req res opts (set_ttl parse_date now res opts cfg) cfg in
    let second = if not (is_status res.status cfg.cache_statuses) then none else last in
    let a = passed (not (is_cacheable cfg req.method)) second e h in
    let b = passed (not (is_status res.status cfg.cache_statuses)) last e a.1 in
    (ground (arith, a.0), ground (arith, b.0), b.1)

make_entry_size :
    (parse_date : Text → Number) (now : ℕ) (req : Request) (res : Response) (opts : Options)
    (cfg : Config) (e : Entry)
    → make_entry parse_date now req res opts cfg ≡ some e
    → e.size ≤ cfg.max_body_size_bytes + 256
unfolding new_entry
make_entry_size parse_date now req res opts cfg e h =
    let m =
      admit_entry_made now req res opts (set_ttl parse_date now res opts cfg) cfg e
        (make_entry_made parse_date now req res opts cfg e h).2 in
    ground (arith, m.1, ap (λ (x : Entry). x.size) m.2.2)

-- The room that a replacement made takes its entry, or the one that it replaces.
put_in-Within :
    (k : Text) (p : Option Entry) (e : Entry) (c c' : Cache)
    → Fits e.size k p c c'
    → e.size ≤ c'.cfg.max_size_bytes
    → Within (put_in k e c')
unfolding put_in touch_key
put_in-Within k p e c c' f z = record {
  count = omega (arith, f.count_below);
  bytes = elim f.size_below [
    | inl b ↦ omega (arith, b)
    | inr n ↦ omega (arith, z, f.held.counts.bytes, ap (sum_sizes (but k c'.storage)) n)
  ];
}

put_back-Within :
    (n : ℕ) (k : Text) (p : Option Entry) (c c' : Cache)
    → Fits n k p c c'
    → c.stats.total_size_bytes + size_of p ≤ c'.cfg.max_size_bytes
    → Within (put_back k p c')
unfolding put_back touch_key
put_back-Within n k none c c' f z = record {
  count = omega (arith, f.count_below);
  bytes = omega (arith, f.smaller, z);
}
put_back-Within n k (some p) c c' f z = record {
  count = omega (arith, f.count_below);
  bytes = omega (arith, f.smaller, z);
}

-- An entry that is stored is part of the total.
taken_size :
    (k : Text) (o : Option Entry) (c : Cache)
    → Consistent c
    → JsMap.get text_discrete k c.storage ≡ o
    → (take_out k o c).stats.total_size_bytes + size_of o ≡ c.stats.total_size_bytes
unfolding take_out
taken_size k none c i h = omega arith
taken_size k (some p) c i h =
    let there : ¬ NotIn k i.keys = λ n. ground (arith, h, i.counts.keys_out k n) in
    let z = sum_sizes-without (stored c.storage) k i.keys there in
    omega (arith, i.counts.bytes, z, ap size_of h)

pub take_out_settings : (k : Text) (o : Option Entry) (c : Cache) → (take_out k o c).cfg ≡ c.cfg
unfolding take_out
take_out_settings k none c = refl
take_out_settings k (some p) c = refl

store_entry-Within :
    (accepted : Bool) (k : Text) (e : Entry) (c : Cache)
    → 1 ≤ c.cfg.max_entries
    → e.size ≤ c.cfg.max_size_bytes
    → Consistent c
    → Within c
    → Within (store_entry accepted k e c).0
unfolding store_entry lookup
store_entry-Within true k e c b z i w =
    let o = JsMap.get text_discrete k c.storage in
    let t = take_out k o c in
    let f = store_room k e c i b in
    put_in-Within k o e t (ensure_capacity e.size t) f (
      subst (λ (g : Config). e.size ≤ g.max_size_bytes) (sym (f.settings ∙ take_out_settings k o c))
        z)
store_entry-Within false k e c b z i w =
    let o = JsMap.get text_discrete k c.storage in
    let t = take_out k o c in
    let f = store_room k e c i b in
    put_back-Within e.size k o t (ensure_capacity e.size t) f (
      subst (λ (g : Config). t.stats.total_size_bytes + size_of o ≤ g.max_size_bytes)
        (sym (f.settings ∙ take_out_settings k o c))
        (omega (arith, w.bytes, taken_size k o c i refl)))

-- Storing a response on a consistent cache that is within its limits leaves it within them, where at
-- least one entry is allowed and no body can be too large for the cache.
pub set-Within :
    (parse_date : Text → Number) (now : ℕ) (accepted : Bool) (req : Request) (res : Response)
    (opts : Options) (c : Cache)
    → 1 ≤ c.cfg.max_entries
    → c.cfg.max_body_size_bytes + 256 ≤ c.cfg.max_size_bytes
    → Consistent c
    → Within c
    → Within (set parse_date now accepted req res opts c).0
unfolding set store_made
set-Within parse_date now accepted req res opts c b z i w =
    elim (Option-cases (make_entry parse_date now req res opts c.cfg)) [
      | inl n ↦ rw n w
      | inr (e, h) ↦ rw h (
          store_entry-Within accepted (key_of c.cfg req) e c b
            (omega (arith, z, make_entry_size parse_date now req res opts c.cfg e h)) i w)
    ]
