-- ===== src/CookieParser/PublicSuffix.antt =====
-- The public suffix algorithm of src/cookie-parser.ts. The list of rules, its data, is an argument.
use kinetex.Base.{
  ℕ, ◌+◌, ◌-◌, Bool, false, ◌||◌, List, [], ◌∷◌, Option, none, some, leb, ltb, ◌==◌, if◌then◌else◌,
  Text, is_member, to_lower_text, starts_with, drop, length,
}
use kinetex.Strings.{split, join}

pub record Rules : Type 0 where
  pub exact : List Text
  -- The parents of wildcards.
  pub wildcards : List Text
  pub exceptions : List Text

abbrev no_rules : Rules
no_rules = record { exact = []; wildcards = []; exceptions = [] }

unfoldable pub add_rule : Text → Rules → Rules
unfolding to_lower_text
add_rule rule r =
    if starts_with rule (b'!' ∷ [])
    then record r { exceptions = to_lower_text (drop 1 rule) ∷ r.exceptions }
    else if starts_with rule (b'*' ∷ b'.' ∷ [])
    then record r { wildcards = to_lower_text (drop 2 rule) ∷ r.wildcards }
    else record r { exact = to_lower_text rule ∷ r.exact }

unfoldable pub load_rules : List Text → Rules
unfolding add_rule
load_rules [] = no_rules
load_rules (rule ∷ rules) = add_rule rule (load_rules rules)

abbrev dot : ℕ
dot = b'.'

abbrev strip_trailing_dot : Text → Text
strip_trailing_dot [] = []
strip_trailing_dot (c ∷ []) = if c == dot then [] else c ∷ []
strip_trailing_dot (c ∷ d ∷ s) = c ∷ strip_trailing_dot (d ∷ s)

-- A suffix and the number of its labels.
abbrev pub Match : Type 0
Match = Option (List Text)

abbrev longer : List Text → Match → Match
longer labels none = some labels
longer labels (some best) = if ltb (length best) (length labels) then some labels else some best

-- The suffixes from the longest to the shortest.
unfoldable pub best_exact : Rules → List Text → Match → Match
unfolding join
best_exact r [] best = best
best_exact r (l ∷ ls) best =
    let here = if is_member (join dot (l ∷ ls)) r.exact then longer (l ∷ ls) best else best in
    best_exact r ls here

unfoldable pub best_wildcard : Rules → List Text → Match → Match
unfolding join
best_wildcard r [] best = best
best_wildcard r (l ∷ []) best = best
best_wildcard r (l ∷ m ∷ ls) best =
    let here =
      if is_member (join dot (m ∷ ls)) r.wildcards then longer (l ∷ m ∷ ls) best else best in
    best_wildcard r (m ∷ ls) here

abbrev last_label : Text → List Text → Text
last_label l [] = l
last_label l (m ∷ ls) = last_label m ls

unfoldable pub or_last : Match → List Text → Option Text
unfolding join
or_last (some labels) all = some (join dot labels)
or_last none [] = none
or_last none (l ∷ ls) = some (last_label l ls)

unfoldable pub suffix_of : Rules → Text → List Text → Option Text
unfolding best_exact best_wildcard or_last
suffix_of r h ([] ∷ []) = none
suffix_of r h labels =
    if is_member h r.exceptions
    then some h
    else or_last (best_wildcard r labels (best_exact r labels none)) labels

unfoldable pub get_public_suffix : Rules → Text → Option Text
unfolding split to_lower_text suffix_of
get_public_suffix r hostname =
    let h = to_lower_text (strip_trailing_dot hostname) in suffix_of r h (split dot h)

unfoldable pub parent_is_wildcard : Rules → List Text → Bool
unfolding join
parent_is_wildcard r (l ∷ m ∷ ls) = is_member (join dot (m ∷ ls)) r.wildcards
parent_is_wildcard r labels = false

unfoldable pub is_public_suffix : Rules → Text → Bool
unfolding split to_lower_text parent_is_wildcard
is_public_suffix r hostname =
    let h = to_lower_text hostname in
    is_member h r.exceptions || is_member h r.exact || parent_is_wildcard r (split dot h)

-- The last labels of a host, one more than its suffix has.
unfoldable pub registrable : ℕ → Text → Option Text
unfolding split join
registrable n h =
    let labels = split dot h in
    if leb (length labels) n then none else some (join dot (drop (length labels - (n + 1)) labels))

unfoldable pub behind_suffix : Option Text → Text → Option Text
unfolding split registrable
behind_suffix none h = none
behind_suffix (some []) h = none
behind_suffix (some (c ∷ s)) h = registrable (length (split dot (c ∷ s))) h

unfoldable pub get_registrable_domain : (Text → Bool) → Rules → Text → Option Text
unfolding to_lower_text behind_suffix get_public_suffix
get_registrable_domain is_ip_address r hostname =
    let h = strip_trailing_dot (to_lower_text hostname) in
    if is_ip_address h then some h else behind_suffix (get_public_suffix r h) h
