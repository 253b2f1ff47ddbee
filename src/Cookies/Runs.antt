-- ===== src/Cookies/Runs.antt =====
-- Every run of the cookie jar of src/cookie-store.ts, and what a stored or removed cookie leaves.
use kinetex.Cookies.Eviction.{is_some}
use kinetex.Cookies.Counting.{one_if, count_all-remove}
use kinetex.Base.{
  ◌⊎◌, true, false, ℕ, ◌+◌, ap, ◌≡◌, refl, List, [], ◌∷◌, Option, none, some, Text, arith, Bool,
  Option-cases, inl, inr,
}
use kinetex.Cookies.Domains.{canonicalize_domain}
use kinetex.Cookies.Rules.{Cookie}
use kinetex.Cookies.Store.{lookup}
use kinetex.Cookies.Keyed.{lookup-insert}
use kinetex.Cookies.Absence.{lookup-remove_self}
use kinetex.Cookies.Retrieval.{get_cookies}
use kinetex.Cookies.Accounting.{
  Inv, Event, sets, puts, removes, clears, expires_session, expires_at, clears_domain, reads, step,
  run, put_cookie-Inv, create-Inv, remove_cookie-Inv, clear_where-Inv, clear_for_domain-Inv,
  get_for-Inv, set_parsed-Inv,
}
use kinetex.Cookies.{
  Platform, Jar, create, put_cookie, put_over, remove_cookie, clear, clear_expired, clear_session,
  set_cookie,
}

step-Inv : (e : Platform) (v : Event) (j : Jar) → Inv j → Inv (step e v j)
unfolding step set_cookie clear clear_session clear_expired get_cookies
step-Inv e (sets now header url) j v =
    set_parsed-Inv e now (e.parse_url url) (e.parse_set_cookie header) j v
step-Inv e (puts c) j v = put_cookie-Inv c j v
step-Inv e (removes d p n) j v = remove_cookie-Inv e d p n j v
step-Inv e clears j v = record { counted = refl; keyed = record { distinct = tt; each = tt } }
step-Inv e expires_session j v = clear_where-Inv _ j v
step-Inv e (expires_at now) j v = clear_where-Inv _ j v
step-Inv e (clears_domain d) j v = clear_for_domain-Inv e d j v
step-Inv e (reads now r) j v = get_for-Inv e now (e.parse_url r.url) r j v

run-Inv : (e : Platform) (vs : List Event) (j : Jar) → Inv j → Inv (run e vs j)
unfolding run
run-Inv e [] j v = v
run-Inv e (w ∷ vs) j v = run-Inv e vs (step e w j) (step-Inv e w j v)

-- After any sequence of operations on a new jar, Set-Cookie headers, cookies put directly,
-- removals, clearing of everything, of a domain, of expired and of session cookies, and reads,
-- with the evictions that they cause, the counter is the number of cookies that the jar holds, and
-- no key stands twice in any of its maps.
pub jar_run-Inv :
    (e : Platform) (vs : List Event) (max_total max_per_domain : Option ℕ)
    (matcher : Option (Text → Text → Bool))
    → Inv (run e vs (create max_total max_per_domain matcher))
jar_run-Inv e vs m n f = run-Inv e vs (create m n f) (create-Inv m n f)

-- The cookie that is stored for another: its creation time is the old one's, if there is one.
abbrev pub updated : Option Cookie → Cookie → Cookie
updated none c = c
updated (some old) c = record c { created_at = old.created_at }

put_over-lookup :
    (o : Option Cookie) (c : Cookie) (j : Jar)
    → lookup c.domain c.path c.name (put_over o c j).dm ≡ some (updated o c)
put_over-lookup none c j = lookup-insert c.domain c.path c.name c _
put_over-lookup (some old) c j = lookup-insert c.domain c.path c.name (updated (some old) c) j.dm

-- A cookie that is put is found under its domain, path and name, whatever is evicted for it, with
-- the creation time of the cookie that it replaces, if it replaces one.
pub put_cookie-lookup :
    (c : Cookie) (j : Jar)
    → lookup c.domain c.path c.name (put_cookie c j).dm
      ≡ some (updated (lookup c.domain c.path c.name j.dm) c)
unfolding put_cookie
put_cookie-lookup c j = put_over-lookup (lookup c.domain c.path c.name j.dm) c j

-- For a jar whose counter and keys are in order: removing a cookie that it holds under the canonical
-- form of the domain answers true, leaves no such cookie, and lowers the counter by one; removing
-- one that it does not hold answers false, and the jar is exactly what it was.
pub remove_cookie-lookup :
    (e : Platform) (domain p n : Text) (j : Jar)
    → Inv j
    → let r = remove_cookie e domain p n j in
      let d = canonicalize_domain e.decode_label domain in
      ((is_some (lookup d p n j.dm) ≡ true)
        × (lookup d p n r.0.dm ≡ none)
        × (r.0.total + 1 ≡ j.total)
        × (r.1 ≡ true))
      ⊎ ((lookup d p n j.dm ≡ none) × (r ≡ (j, false)))
unfolding remove_cookie
remove_cookie-lookup e domain p n j v = elim (Option-cases (lookup d p n j.dm)) [
  | inl h ↦ inr (h, rw h refl)
  | inr (c, h) ↦ inl (
    ap is_some h,
    rw h (lookup-remove_self d p n j.dm v.keyed),
    rw h (omega (arith, v.counted, ap one_if h, count_all-remove d p n j.dm)),
    rw h refl,
  )
]
  where
    d : Text
    d = canonicalize_domain e.decode_label domain
