-- ===== src/Cache/Directives.antt =====
-- The Cache-Control header and the Vary header of src/cache.ts: parseCacheControl and buildVaryKey.
use mathlib.Core.Option
use kinetex.Base.{
  ℕ, Bool, true, false, List, [], ◌∷◌, ◌++◌, map, Option, none, some, ◌==◌, if◌then◌else◌, Text,
  codes, same, to_lower_text, text_discrete, ltb,
}
use kinetex.JsMap
use kinetex.Numbers.{Number}
use kinetex.Strings.{trim, split, join, cut, parse_int}

pub record Directives : Type 0 where
  pub no_store : Bool
  pub no_cache : Bool
  pub must_revalidate : Bool
  pub proxy_revalidate : Bool
  pub is_public : Bool
  pub is_private : Bool
  pub max_age : Option Number
  pub s_maxage : Option Number
  pub stale_while_revalidate : Option Number
  pub stale_if_error : Option Number
  pub immutable : Bool

abbrev pub no_directives : Directives
no_directives = record {
  no_store = false;
  no_cache = false;
  must_revalidate = false;
  proxy_revalidate = false;
  is_public = false;
  is_private = false;
  max_age = none;
  s_maxage = none;
  stale_while_revalidate = none;
  stale_if_error = none;
  immutable = false;
}

abbrev pub quote : ℕ
quote = b'"'

-- `replace(/^"|"$/g, "")`: a single quote mark is the start of the text and goes once.
abbrev strip_end : Text → Text
strip_end [] = []
strip_end (c ∷ []) = if c == quote then [] else c ∷ []
strip_end (c ∷ d ∷ s) = c ∷ strip_end (d ∷ s)

abbrev pub strip_quotes : Text → Text
strip_quotes [] = []
strip_quotes (c ∷ s) = if c == quote then strip_end s else strip_end (c ∷ s)

-- The name of a directive, and its value where it has one.
unfoldable pub read_part : Text → Text × Option Text
unfolding cut trim to_lower_text
read_part part =
    let t = trim part in
    elim (cut b'=' t) [
      | none ↦ (to_lower_text (trim t), none)
      | some (k, v) ↦ (to_lower_text (trim k), some (strip_quotes (trim v)))
    ]

unfoldable pub put_directive : Text → Option Number → Directives → Directives
put_directive k n d =
    if same k (codes "no-store")
    then record d { no_store = true }
    else if same k (codes "no-cache")
    then record d { no_cache = true }
    else if same k (codes "must-revalidate")
    then record d { must_revalidate = true }
    else if same k (codes "proxy-revalidate")
    then record d { proxy_revalidate = true }
    else if same k (codes "public")
    then record d { is_public = true }
    else if same k (codes "private")
    then record d { is_private = true }
    else if same k (codes "immutable")
    then record d { immutable = true }
    else if same k (codes "max-age")
    then record d { max_age = n }
    else if same k (codes "s-maxage")
    then record d { s_maxage = n }
    else if same k (codes "stale-while-revalidate")
    then record d { stale_while_revalidate = n }
    else if same k (codes "stale-if-error")
    then record d { stale_if_error = n }
    else d

abbrev pub put_part : (Text × Option Text) → Directives → Directives
put_part (k, v) d = put_directive k (Option.map parse_int v) d

abbrev pub put_parts : List Text → Directives → Directives
put_parts [] d = d
put_parts (p ∷ ps) d = put_parts ps (put_part (read_part p) d)

unfoldable pub parse_cache_control : Text → Directives
unfolding split read_part put_directive parse_int
parse_cache_control value = put_parts (split b',' value) no_directives

abbrev pub Headers : Type 0
Headers = List (Text × Text)

unfoldable pub header : Text → Text → Headers → Option Text
unfolding JsMap.get
header lower upper h = elim (JsMap.get text_discrete lower h) [
  | none ↦ JsMap.get text_discrete upper h
  | some v ↦ some v
]

abbrev pub or_empty : Option Text → Text
or_empty none = []
or_empty (some s) = s

-- The order of texts by their code units.
abbrev before : Text → Text → Bool
before [] t = true
before (a ∷ s) [] = false
before (a ∷ s) (b ∷ t) = if a == b then before s t else ltb a b

abbrev insert_field : Text → List Text → List Text
insert_field f [] = f ∷ []
insert_field f (g ∷ gs) =
    let rest = insert_field f gs in if before f g then f ∷ g ∷ gs else g ∷ rest

-- `sort()`
abbrev pub sort_fields : List Text → List Text
sort_fields [] = []
sort_fields (f ∷ fs) = insert_field f (sort_fields fs)

-- The names of the fields are in lower case already where the second lookup is made.
unfoldable pub field_part : Headers → Text → Text
unfolding header to_lower_text
field_part h f = f ++ b'=' ∷ or_empty (header f (to_lower_text f) h)

-- `none` where the header asks that nothing be reused.
unfoldable pub build_vary_key : Text → Headers → Option Text
unfolding trim split to_lower_text field_part join
build_vary_key [] h = some []
build_vary_key (c ∷ v) h =
    if same (trim (c ∷ v)) (codes "*")
    then none
    else some (
        join b';' (
          map (field_part h)
            (sort_fields (map (λ f. to_lower_text (trim f)) (split b',' (c ∷ v))))))
