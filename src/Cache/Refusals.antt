-- ===== src/Cache/Refusals.antt =====
-- What HTTPCache.set of src/cache.ts does not store: responses that forbid it, and entries that the
-- storage refuses.
use mathlib.Core.Option
use kinetex.Base.{
  ℕ, ◌≡◌, ◌≤◌, refl, ap, ◌∙◌, subst, Bool, true, false, not, ◌||◌, List, [], ◌∷◌, Option, none,
  some, Text, codes, same, same_iff, is_member, arith, text_discrete, inl, inr, Bool-cases,
  Option-cases, if◌then◌else◌,
}
use kinetex.JsMap
use kinetex.Numbers.{Number}
use kinetex.Strings.{split, parse_int}
use kinetex.Cache.Directives.{
  Directives, put_directive, put_part, put_parts, read_part, no_directives, parse_cache_control,
}
use kinetex.Cache.Freshness.{Entry, Request, Response, Ttl, compute_ttl, cache_control, uncacheable}
use kinetex.Cache.State.{Config, Cache, lookup, ensure_capacity}
use kinetex.Cache.Requests.{is_cacheable, key_of, touch_key}
use kinetex.Cache.Storing.{
  is_status, Options, set, store_made, store_entry, make_entry, admit_entry, set_ttl, put_back,
  take_out,
}
use kinetex.Cache.Invariant.{Consistent, store_room}

-- Whether a response forbids that a shared cache keeps it.
abbrev pub is_forbidden : Directives → Bool
is_forbidden d = d.no_store || d.is_private

forbids_still :
    (k : Text) (n : Option Number) (d : Directives)
    → is_forbidden d ≡ true
    → is_forbidden (put_directive k n d) ≡ true
unfolding put_directive
forbids_still k n d h = ground (arith, h)

no_store_forbids :
    (n : Option Number) (d : Directives)
    → is_forbidden (put_directive (codes "no-store") n d) ≡ true
unfolding put_directive
no_store_forbids n d = refl

private_forbids :
    (n : Option Number) (d : Directives) → is_forbidden (put_directive (codes "private") n d) ≡ true
unfolding put_directive
private_forbids n d = ground arith

-- The names of the directives in the parts of a header.
unfoldable pub part_names : List Text → List Text
unfolding read_part
part_names [] = []
part_names (p ∷ ps) = (read_part p).0 ∷ part_names ps

-- The names of the directives that a header forbids storing by.
abbrev pub forbids : List Text → Bool
forbids names = is_member (codes "no-store") names || is_member (codes "private") names

parts_forbid_still :
    (ps : List Text) (d : Directives) → is_forbidden d ≡ true → is_forbidden (put_parts ps d) ≡ true
parts_forbid_still [] d h = h
parts_forbid_still (p ∷ ps) d h =
    parts_forbid_still ps (put_part (read_part p) d)
      (forbids_still (read_part p).0 (Option.map parse_int (read_part p).1) d h)

part_forbids :
    (k : Text) (n : Option Number) (d : Directives)
    → (same (codes "no-store") k || same (codes "private") k) ≡ true
    → is_forbidden (put_directive k n d) ≡ true
part_forbids k n d h = elim (Bool-cases (same (codes "no-store") k)) [
  | inl e ↦
      subst (λ x. is_forbidden (put_directive x n d) ≡ true) (same_iff (codes "no-store") k e)
        (no_store_forbids n d)
  | inr e ↦
      subst (λ x. is_forbidden (put_directive x n d) ≡ true)
        (same_iff (codes "private") k (ground (arith, e, h))) (private_forbids n d)
]

parts_forbid :
    (ps : List Text) (d : Directives)
    → forbids (part_names ps) ≡ true
    → is_forbidden (put_parts ps d) ≡ true
unfolding part_names
parts_forbid [] d h = ground arith
parts_forbid (p ∷ ps) d h =
    let k = (read_part p).0 in
    let n = Option.map parse_int (read_part p).1 in
    elim (Bool-cases (same (codes "no-store") k || same (codes "private") k)) [
      | inl e ↦ parts_forbid_still ps (put_directive k n d) (part_forbids k n d e)
      | inr e ↦ parts_forbid ps (put_directive k n d) (ground (arith, e, h))
    ]

forbidden_header :
    (res : Response)
    → forbids (part_names (split b',' (cache_control res))) ≡ true
    → is_forbidden (parse_cache_control (cache_control res)) ≡ true
unfolding parse_cache_control
forbidden_header res h = parts_forbid (split b',' (cache_control res)) no_directives h

forbidden_ttl :
    (parse_date : Text → Number) (now : ℕ) (res : Response) (default : Number)
    → is_forbidden (parse_cache_control (cache_control res)) ≡ true
    → compute_ttl parse_date now res default true ≡ uncacheable
unfolding compute_ttl
forbidden_ttl parse_date now res default h = ground (arith, h)

either_none : (b : Bool) (o : Option Entry) → o ≡ none → (if b then none else o) ≡ none
either_none true o h = refl
either_none false o h = h

admit_none :
    (now : ℕ) (req : Request) (res : Response) (opts : Options) (t : Ttl) (cfg : Config)
    → t.should_cache ≡ false
    → opts.force ≡ false
    → admit_entry now req res opts t cfg ≡ none
unfolding admit_entry
admit_none now req res opts t cfg h f = rw (h, f)

forbidden_set_ttl :
    (parse_date : Text → Number) (now : ℕ) (res : Response) (opts : Options) (cfg : Config)
    → cfg.honor_cache_control ≡ true
    → opts.ttl ≡ none
    → forbids (part_names (split b',' (cache_control res))) ≡ true
    → set_ttl parse_date now res opts cfg ≡ uncacheable
unfolding set_ttl
forbidden_set_ttl parse_date now res opts cfg a o h =
    rw (o, a) (forbidden_ttl parse_date now res cfg.default_ttl (forbidden_header res h))

forbidden_entry :
    (parse_date : Text → Number) (now : ℕ) (req : Request) (res : Response) (opts : Options)
    (cfg : Config)
    → cfg.honor_cache_control ≡ true
    → opts.ttl ≡ none
    → opts.force ≡ false
    → forbids (part_names (split b',' (cache_control res))) ≡ true
    → make_entry parse_date now req res opts cfg ≡ none
unfolding make_entry
forbidden_entry parse_date now req res opts cfg a o f h =
    let t = set_ttl parse_date now res opts cfg in
    let z =
      admit_none now req res opts t cfg
        (ap (λ (x : Ttl). x.should_cache) (forbidden_set_ttl parse_date now res opts cfg a o h))
        f in
    either_none (not (is_cacheable cfg req.method)) _ (
      either_none (not (is_status res.status cfg.cache_statuses))
        (admit_entry now req res opts t cfg) z)

-- A response whose Cache-Control header names `no-store` or `private` is not stored, and the cache
-- stays as it is, where directives are honoured and the call neither gives a lifetime nor forces.
pub set_forbidden :
    (parse_date : Text → Number) (now : ℕ) (accepted : Bool) (req : Request) (res : Response)
    (opts : Options) (c : Cache)
    → c.cfg.honor_cache_control ≡ true
    → opts.ttl ≡ none
    → opts.force ≡ false
    → forbids (part_names (split b',' (cache_control res))) ≡ true
    → set parse_date now accepted req res opts c ≡ (c, false)
unfolding set store_made
set_forbidden parse_date now accepted req res opts c a o f h =
    rw (forbidden_entry parse_date now req res opts c.cfg a o f h)

put_back_storage : (k : Text) (o : Option Entry) (c : Cache) → (put_back k o c).storage ≡ c.storage
unfolding put_back touch_key
put_back_storage k none c = refl
put_back_storage k (some p) c = refl

store_refused :
    (k : Text) (e : Entry) (c : Cache)
    → Consistent c
    → 1 ≤ c.cfg.max_entries
    → lookup k (store_entry false k e c).0 ≡ lookup k c
unfolding store_entry lookup
store_refused k e c i b =
    let o = JsMap.get text_discrete k c.storage in
    let r = ensure_capacity e.size (take_out k o c) in
    ap (JsMap.get text_discrete k) (put_back_storage k o r) ∙ (store_room k e c i b).held.kept

-- A write that the storage refuses is reported, and the entry that its key had is still there.
pub set_refused :
    (parse_date : Text → Number) (now : ℕ) (req : Request) (res : Response) (opts : Options)
    (c : Cache)
    → Consistent c
    → 1 ≤ c.cfg.max_entries
    → ((set parse_date now false req res opts c).1 ≡ false)
      × (lookup (key_of c.cfg req) (set parse_date now false req res opts c).0
          ≡ lookup (key_of c.cfg req) c)
unfolding set store_made
set_refused parse_date now req res opts c i b =
    elim (Option-cases (make_entry parse_date now req res opts c.cfg)) [
      | inl n ↦ rw n (refl, refl)
      | inr (e, h) ↦ rw h (refl, store_refused (key_of c.cfg req) e c i b)
    ]
