-- ===== src/Cache/Freshness.antt =====
-- Responses and entries of src/cache.ts, and computeTTL. `Date.parse` is an argument. A tenth of an
-- interval is rounded up to a whole number: times are compared with whole times only, and no such
-- comparison tells the two apart.
use Prim.Native.Nat.{◌/◌}
use kinetex.Base.{
  ℕ, ◌+◌, ◌*◌, Bool, false, ◌&&◌, ◌||◌, List, [], ◌∷◌, Option, none, some, leb, if◌then◌else◌, Text,
  codes, length,
}
use kinetex.Numbers.{
  Number, finite, num, pos, negsuc, opposite, sub, less, minimum, maximum, scale, is_nan,
}
use kinetex.Strings.{parse_int}
use kinetex.Cache.Directives.{Directives, Headers, header, or_empty, parse_cache_control}

pub data Body : Type 0 where
  no_body : Body
  text_body : Text → Body
  bytes_body : List ℕ → Body

pub record Response : Type 0 where
  pub status : ℕ
  pub status_text : Text
  pub headers : Headers
  pub body : Body

pub record Request : Type 0 where
  pub url : Text
  pub method : Text
  pub headers : Headers

pub record Entry : Type 0 where
  pub response : Response
  pub created_at : Number
  pub expires_at : Number
  pub stale_until : Number
  pub stale_on_error : Number
  pub etag : Option Text
  pub last_modified : Option Text
  pub vary_key : Option Text
  pub must_revalidate : Bool
  pub tags : List Text
  pub size : ℕ

pub record Ttl : Type 0 where
  pub ttl : Number
  pub swr : Number
  pub stale_on_error : Number
  pub should_cache : Bool

abbrev pub cache_control : Response → Text
cache_control res = or_empty (header (codes "cache-control") (codes "Cache-Control") res.headers)

unfoldable pub compute_must_revalidate : Response → Bool
unfolding header parse_cache_control
compute_must_revalidate res =
    let d = parse_cache_control (cache_control res) in d.no_cache || d.must_revalidate

abbrev pub uncacheable : Ttl
uncacheable = record { ttl = num 0; swr = num 0; stale_on_error = num 0; should_cache = false }

-- `parseInt(…) || 0`
abbrev pub or_zero : Number → Number
or_zero n = if is_nan n then num 0 else n

abbrev pub max_age_of : Directives → Option Number
max_age_of d = elim d.s_maxage [ none ↦ d.max_age | some n ↦ some n ]

unfoldable pub age_of : Headers → Number
unfolding header parse_int
age_of h = elim (header (codes "age") (codes "Age") h) [
  | none ↦ num 0
  | some s ↦ or_zero (parse_int s)
]

-- A tenth, rounded up.
abbrev pub tenth : Number → Number
tenth (finite (pos n)) = num ((n + 9) / 10)
tenth (finite (negsuc n)) = finite (opposite (pos ((n + 1) / 10)))
tenth n = n

abbrev pub expires_ttl : (Text → Number) → ℕ → Number → Text → Number
expires_ttl parse_date now default s =
    let exp = parse_date s in if is_nan exp then default else maximum (num 0) (sub exp (num now))

abbrev pub heuristic_ttl : (Text → Number) → ℕ → Number → Text → Number
heuristic_ttl parse_date now default s =
    let time = parse_date s in
    if is_nan time then default else minimum (maximum (tenth (sub (num now) time)) (num 0)) default

-- An empty header counts as none.
abbrev pub filled : Option Text → Option Text
filled (some (c ∷ s)) = some (c ∷ s)
filled o = none

unfoldable pub undirected_ttl : (Text → Number) → ℕ → Number → Headers → Number
unfolding header
undirected_ttl parse_date now default h =
    elim (filled (header (codes "expires") (codes "Expires") h)) [
      | some s ↦ expires_ttl parse_date now default s
      | none ↦ elim (filled (header (codes "last-modified") (codes "Last-Modified") h)) [
        | some s ↦ heuristic_ttl parse_date now default s
        | none ↦ default
      ]
    ]

abbrev pub base_ttl : (Text → Number) → ℕ → Number → Option Number → Headers → Number
base_ttl parse_date now default (some secs) h = maximum (num 0) (scale 1000 (sub secs (age_of h)))
base_ttl parse_date now default none h = undirected_ttl parse_date now default h

abbrev pub one_year : Number
one_year = num (365 * 24 * 60 * 60 * 1000)

abbrev pub positive : Number → Bool
positive n = less (num 0) n

abbrev pub window : Option Number → Number
window none = num 0
window (some n) = scale 1000 n

abbrev pub with_windows : Number → Number → Number → Ttl
with_windows ttl swr on_error = record {
  ttl = ttl;
  swr = swr;
  stale_on_error = on_error;
  should_cache = positive ttl || positive swr || positive on_error;
}

abbrev pub ttl_of : (Text → Number) → ℕ → Number → Directives → Headers → Ttl
ttl_of parse_date now default d h =
    let ttl = base_ttl parse_date now default (max_age_of d) h in
    with_windows (if d.immutable && positive ttl then one_year else ttl)
      (window d.stale_while_revalidate) (window d.stale_if_error)

unfoldable pub compute_ttl : (Text → Number) → ℕ → Response → Number → Bool → Ttl
unfolding header parse_cache_control
compute_ttl parse_date now res default honor =
    let d = parse_cache_control (cache_control res) in
    if honor && d.no_store
    then uncacheable
    else if honor && d.is_private
    then uncacheable
    else ttl_of parse_date now default d res.headers

-- The bytes of a text in UTF-8. A surrogate that has no partner is written as U+FFFD.
abbrev pub is_high : ℕ → Bool
is_high c = leb 0xd800 c && leb c 0xdbff

abbrev pub is_low : ℕ → Bool
is_low c = leb 0xdc00 c && leb c 0xdfff

-- A pair is four bytes: three where it starts and one for its second half.
abbrev pub utf8_from : Bool → Text → ℕ
utf8_from after_high [] = 0
utf8_from after_high (c ∷ s) =
    let rest = utf8_from (is_high c) s in
    if leb c 0x7f
    then 1 + rest
    else if leb c 0x7ff
    then 2 + rest
    else if after_high && is_low c
    then 1 + rest
    else 3 + rest

unfoldable pub body_bytes : Body → ℕ
body_bytes no_body = 0
body_bytes (text_body s) = utf8_from false s
body_bytes (bytes_body bs) = length bs
