-- ===== src/Cache/Lifetime.antt =====
-- How long an entry that HTTPCache.set of src/cache.ts stored is found by HTTPCache.get.
use kinetex.Base.{
  ℕ, ◌+◌, ◌-◌, ◌≡◌, ◌≤◌, ◌≢◌, refl, sym, ap, ◌∙◌, subst, min, Bool, true, [], ◌∷◌, Option, none,
  some, Text, same_self, arith, text_discrete, inl, inr, Bool-cases, if◌then◌else◌, ltb,
}
use kinetex.JsMap
use kinetex.Numbers.{Number, num, sub, less}
use kinetex.Cache.Directives.{Headers, build_vary_key, or_empty}
use kinetex.Cache.Freshness.{Entry, Request, Response, Ttl, filled}
use kinetex.Cache.State.{Config, Cache, lookup, ensure_capacity}
use kinetex.Cache.Requests.{
  key_of, get, get_found, answer_entry, touch_key, matches_variant, match_key, same_key, too_old,
  request_vary_key, vary_header, is_cacheable,
}
use kinetex.Cache.Storing.{
  take_out, Options, set, store_made, store_entry, make_entry, put_in, made_key, stored_vary_key,
  new_entry, capped, set_ttl,
}
use kinetex.Cache.Invariant.{Consistent}
use kinetex.Cache.History.{set-cfg}
use kinetex.Cache.Limits.{make_entry_made, admit_entry_made}

same_key_self : (v : Text) → same_key (some v) v ≡ true
same_key_self v = same_self v

match_filled :
    (v : Text) (k : Option Text) → (v ≢ [] → k ≡ some v) → match_key (filled (some v)) k ≡ true
match_filled [] k h = refl
match_filled (c ∷ s) k h = rw (h (λ e. ground (arith, e))) (same_self (c ∷ s))

made_key_of :
    (o : Option Text) (h : Headers) (v : Text)
    → made_key (filled o) h ≡ some v
    → v ≢ []
    → build_vary_key (or_empty o) h ≡ some v
made_key_of none h v g n = absurd (n (ground (arith, g)))
made_key_of (some []) h v g n = absurd (n (ground (arith, g)))
made_key_of (some (c ∷ s)) h v g n = g

-- The variant that an entry was stored for is the one that its request asks for.
variant_of :
    (now : ℕ) (req : Request) (res : Response) (opts : Options) (t : Ttl) (life : Number) (v : Text)
    → stored_vary_key res.headers req ≡ some v
    → matches_variant (new_entry now res opts t life v) req ≡ true
unfolding matches_variant stored_vary_key request_vary_key new_entry
variant_of now req res opts t life v g =
    match_filled v (build_vary_key (or_empty (vary_header res.headers)) req.headers)
      (made_key_of (vary_header res.headers) req.headers v g)

sub-num : (a b : ℕ) → b ≤ a → sub (num a) (num b) ≡ num (a - b)
sub-num a b h = ground (arith, h)

capped_num : (t a : ℕ) → capped (num t) (num a) ≡ num (min t a)
capped_num t a = ground arith

-- An entry that is fresh until a time and has no window behind it.
record Plain (e : Entry) (now x : ℕ) : Type 0 where
  created : e.created_at ≡ num now
  expires : e.expires_at ≡ num x
  stale : e.stale_until ≡ num x
  on_error : e.stale_on_error ≡ num x

too_old-num :
    (now now' a : ℕ) (e : Entry) (cfg : Config)
    → e.created_at ≡ num now
    → cfg.max_absolute_age ≡ num a
    → now ≤ now'
    → too_old cfg now' e ≡ ltb a (now' - now)
too_old-num now now' a e cfg p m h =
    ap (λ y. less y (sub (num now') e.created_at)) m
    ∙ ap (λ y. less (num a) (sub (num now') y)) p
    ∙ ap (less (num a)) (sub-num now' now h)

answer_within :
    (now now' x a : ℕ) (k : Text) (e : Entry) (c : Cache)
    → Plain e now x
    → c.cfg.max_absolute_age ≡ num a
    → now ≤ now'
    → x ≤ now + a
    → (answer_entry now' k e c).0 ≡ (if ltb now' x then some (e, e.must_revalidate) else none)
unfolding answer_entry
answer_within now now' x a k e c p m h b = elim (Bool-cases (ltb a (now' - now))) [
  | inl o ↦
      rw (too_old-num now now' a e c.cfg p.created m h, o, p.expires, p.stale, p.on_error)
        (ground (arith, o, b, h))
  | inr o ↦
      rw (too_old-num now now' a e c.cfg p.created m h, o, p.expires, p.stale, p.on_error)
        (ground (arith))
]

-- The lookup of a key that is stored for the variant asked for.
get_stored :
    (now : ℕ) (req : Request) (e : Entry) (c : Cache)
    → is_cacheable c.cfg req.method ≡ true
    → JsMap.get text_discrete (key_of c.cfg req) c.storage ≡ some e
    → matches_variant e req ≡ true
    → get now req c ≡ answer_entry now (key_of c.cfg req) e c
unfolding get lookup get_found
get_stored now req e c m h v = rw (m, h, v)

new_entry-Plain :
    (now t a : ℕ) (res : Response) (opts : Options) (v : Text) (w : Ttl)
    → w ≡ record { ttl = num t; swr = num 0; stale_on_error = num 0; should_cache = true }
    → Plain (new_entry now res opts w (capped (num t) (num a)) v) now (now + min t a)
unfolding new_entry
new_entry-Plain now t a res opts v w h = record {
  created = refl;
  expires = rw (capped_num t a);
  stale = rw (h, capped_num t a) (ap num (omega arith));
  on_error = rw (h, capped_num t a) (ap num (omega arith));
}

set_ttl_given :
    (parse_date : Text → Number) (now t : ℕ) (res : Response) (opts : Options) (cfg : Config)
    → opts.ttl ≡ some (num t)
    → set_ttl parse_date now res opts cfg
      ≡ record { ttl = num t; swr = num 0; stale_on_error = num 0; should_cache = true }
unfolding set_ttl
set_ttl_given parse_date now t res opts cfg h = rw h

-- What an entry that is made with a lifetime of its own is.
made-Plain :
    (parse_date : Text → Number) (now t a : ℕ) (req : Request) (res : Response) (opts : Options)
    (cfg : Config) (e : Entry)
    → make_entry parse_date now req res opts cfg ≡ some e
    → opts.ttl ≡ some (num t)
    → cfg.max_absolute_age ≡ num a
    → (is_cacheable cfg req.method ≡ true)
      × (matches_variant e req ≡ true)
      × Plain e now (now + min t a)
made-Plain parse_date now t a req res opts cfg e h o m =
    let w = set_ttl parse_date now res opts cfg in
    let s = make_entry_made parse_date now req res opts cfg e h in
    let d = admit_entry_made now req res opts w cfg e s.2 in
    let life = capped w.ttl cfg.max_absolute_age in
    let v = d.2.0 in
    let q = set_ttl_given parse_date now t res opts cfg o in
    let l : life ≡ capped (num t) (num a) =
      ap (λ (x : Ttl). capped x.ttl cfg.max_absolute_age) q ∙ ap (capped (num t)) m in
    let z : e ≡ new_entry now res opts w (capped (num t) (num a)) v =
      d.2.2 ∙ ap (λ x. new_entry now res opts w x v) l in
    (
      s.0,
      rw d.2.2 (variant_of now req res opts w life v d.2.1),
      rw z (new_entry-Plain now t a res opts v w q),
    )

put_in_lookup :
    (k : Text) (e : Entry) (c : Cache) → JsMap.get text_discrete k (put_in k e c).storage ≡ some e
unfolding put_in touch_key
put_in_lookup k e c = JsMap.get-set_self text_discrete k e c.storage

set_stored :
    (parse_date : Text → Number) (now : ℕ) (req : Request) (res : Response) (opts : Options)
    (c : Cache) (e : Entry)
    → make_entry parse_date now req res opts c.cfg ≡ some e
    → JsMap.get text_discrete (key_of c.cfg req) (set parse_date now true req res opts c).0.storage
      ≡ some e
unfolding set store_made store_entry
set_stored parse_date now req res opts c e h = rw h (
    put_in_lookup (key_of c.cfg req) e
      (ensure_capacity e.size (take_out (key_of c.cfg req) (lookup (key_of c.cfg req) c) c)))

-- An entry stored with a lifetime of its own is given back to the same request, unchanged, until the
-- lifetime or the absolute age limit has passed, whichever is shorter, and not from then on.
pub set_then_get :
    (parse_date : Text → Number) (now now' t a : ℕ) (req : Request) (res : Response)
    (opts : Options) (c : Cache) (e : Entry)
    → Consistent c
    → 1 ≤ c.cfg.max_entries
    → make_entry parse_date now req res opts c.cfg ≡ some e
    → opts.ttl ≡ some (num t)
    → c.cfg.max_absolute_age ≡ num a
    → now ≤ now'
    → (get now' req (set parse_date now true req res opts c).0).0
      ≡ (if ltb now' (now + min t a) then some (e, e.must_revalidate) else none)
set_then_get parse_date now now' t a req res opts c e i b h o m n =
    let p = made-Plain parse_date now t a req res opts c.cfg e h o m in
    let c' = (set parse_date now true req res opts c).0 in
    let s : c'.cfg ≡ c.cfg = set-cfg parse_date now true req res opts c i b in
    let g =
      get_stored now' req e c' (subst (λ x. is_cacheable x req.method ≡ true) (sym s) p.0)
        (subst (λ x. JsMap.get text_discrete (key_of x req) c'.storage ≡ some e) (sym s)
          (set_stored parse_date now req res opts c e h))
        p.1 in
    ap (λ (x : Option (Entry × Bool) × Cache). x.0) g
    ∙ answer_within now now' (now + min t a) a (key_of c'.cfg req) e c' p.2
        (ap (λ (x : Config). x.max_absolute_age) s ∙ m) n (omega arith)
