-- ===== src/Cookies/Domains.antt =====
-- The matching of hosts and paths of src/cookie-parser.ts. The tests for IP addresses and public
-- suffixes and the decoding of a label are parameters of what uses them.
use kinetex.Base.{
  ℕ, Bool, true, false, not, ◌&&◌, ◌||◌, List, [], ◌∷◌, ◌++◌, Option, none, some, map, ◌==◌,
  if◌then◌else◌, Text, same, to_lower_text, starts_with, ends_with, drop, length,
}

abbrev slash : ℕ
slash = b'/'

abbrev pub dot : ℕ
dot = b'.'

abbrev cons_to_first : ℕ → List Text → List Text
cons_to_first c [] = (c ∷ []) ∷ []
cons_to_first c (s ∷ ss) = (c ∷ s) ∷ ss

-- `split` at a code unit.
unfoldable pub split_at : ℕ → Text → List Text
split_at sep [] = [] ∷ []
split_at sep (c ∷ s) =
    let rest = split_at sep s in if c == sep then [] ∷ rest else cons_to_first c rest

unfoldable pub join_with : ℕ → List Text → Text
join_with sep [] = []
join_with sep (s ∷ []) = s
join_with sep (s ∷ t ∷ ss) = s ++ sep ∷ join_with sep (t ∷ ss)

abbrev strip_leading_dot : Text → Text
strip_leading_dot [] = []
strip_leading_dot (c ∷ s) = if c == dot then s else c ∷ s

abbrev strip_trailing_dot : Text → Text
strip_trailing_dot [] = []
strip_trailing_dot (c ∷ []) = if c == dot then [] else c ∷ []
strip_trailing_dot (c ∷ d ∷ s) = c ∷ strip_trailing_dot (d ∷ s)

unfoldable pub canonicalize_domain : (Text → Text) → Text → Text
unfolding split_at join_with to_lower_text
canonicalize_domain decode_label domain = join_with dot (
    map decode_label (split_at dot (to_lower_text (strip_trailing_dot (strip_leading_dot domain)))))

unfoldable pub domain_match : (Text → Bool) → (Text → Bool) → Text → Text → Bool
unfolding to_lower_text
domain_match is_ip is_public_suffix request_host cookie_domain =
    let rh = to_lower_text request_host in
    let cd = strip_leading_dot (to_lower_text cookie_domain) in
    if same rh cd
    then true
    else if is_ip rh
    then false
    else if not (ends_with rh (dot ∷ cd))
    then false
    else if is_ip cd
    then false
    else not (is_public_suffix cd)

-- What stands before the last slash, if there is a slash.
abbrev before_last_slash : Text → Option Text
before_last_slash [] = none
before_last_slash (c ∷ s) = cons_before c (before_last_slash s)
  where
    cons_before : ℕ → Option Text → Option Text
    cons_before c (some t) = some (c ∷ t)
    cons_before c none = if c == slash then some [] else none

abbrev default_of : Option Text → Text
default_of (some (c ∷ s)) = c ∷ s
default_of _ = slash ∷ []

unfoldable pub default_path : Text → Text
default_path request_path =
    if starts_with request_path (slash ∷ [])
    then default_of (before_last_slash request_path)
    else slash ∷ []

abbrev pop : List Text → List Text
pop [] = []
pop (s ∷ []) = []
pop (s ∷ t ∷ ss) = s ∷ pop (t ∷ ss)

abbrev resolve_segments : List Text → List Text → List Text
resolve_segments [] parts = parts
resolve_segments (s ∷ ss) parts = resolve_segments ss (
    if same s [] || same s (dot ∷ [])
    then parts
    else if same s (dot ∷ dot ∷ [])
    then pop parts
    else parts ++ s ∷ [])

unfoldable pub normalize_path : Text → Text
unfolding split_at join_with
normalize_path path =
    if not (starts_with path (slash ∷ []))
    then slash ∷ path
    else slash ∷ join_with slash (resolve_segments (split_at slash path) [])

unfoldable pub path_match : Text → Text → Bool
unfolding normalize_path
path_match request_path cookie_path =
    let request = normalize_path request_path in
    let cookie = normalize_path cookie_path in
    same request cookie
    || (starts_with request cookie
        && (ends_with cookie (slash ∷ [])
            || starts_with (drop (length cookie) request) (slash ∷ [])))
