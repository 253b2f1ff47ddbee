-- ===== src/Cookies/Eviction.antt =====
-- The eviction of the least recently accessed cookies, evictForDomain and evictGlobal of
-- src/cookie-store.ts, on the maps.
use kinetex.Base.{
  ℕ, ◌-◌, Bool, true, false, List, [], ◌∷◌, ◌++◌, Option, none, some, leb, ltb, if◌then◌else◌, Text,
  text_discrete,
}
use kinetex.JsMap
use kinetex.Cookies.Store.{NameMap, PathMap, DomainMap, lookup, remove, or_empty, count_paths}

pub record Candidate : Type 0 where
  pub domain : Text
  pub path : Text
  pub name : Text
  pub last_accessed : ℕ

abbrev pub name_candidates : Text → Text → NameMap → List Candidate
name_candidates d p [] = []
name_candidates d p ((n, c) ∷ nm) =
    record { domain = d; path = p; name = n; last_accessed = c.last_accessed }
    ∷ name_candidates d p nm

abbrev pub path_candidates : Text → PathMap → List Candidate
path_candidates d [] = []
path_candidates d ((p, nm) ∷ pm) = name_candidates d p nm ++ path_candidates d pm

abbrev pub candidates : DomainMap → List Candidate
candidates [] = []
candidates ((d, pm) ∷ dm) = path_candidates d pm ++ candidates dm

abbrev pub insert_candidate : Candidate → List Candidate → List Candidate
insert_candidate c [] = c ∷ []
insert_candidate c (e ∷ es) =
    if leb c.last_accessed e.last_accessed then c ∷ e ∷ es else e ∷ insert_candidate c es

-- `sort` by last access, which keeps the order of equals.
abbrev pub by_last_access : List Candidate → List Candidate
by_last_access [] = []
by_last_access (c ∷ cs) = insert_candidate c (by_last_access cs)

-- `pm.get(p)?.delete(n)`: what it leaves, and whether there was something to delete.
unfoldable pub delete_name : Text → Text → PathMap → PathMap × Bool
delete_name p n pm =
    let nm = or_empty (JsMap.get text_discrete p pm) in
    if JsMap.has text_discrete n nm
    then (JsMap.set text_discrete p (JsMap.delete text_discrete n nm) pm, true)
    else (pm, false)

abbrev pub less_if : Bool → ℕ → ℕ
less_if true n = n - 1
less_if false n = n

-- The loop of evictForDomain, over its count, its path map and the total.
unfoldable pub evict_paths : ℕ → List Candidate → ℕ → PathMap → ℕ → PathMap × ℕ
unfolding delete_name
evict_paths limit [] count pm total = (pm, total)
evict_paths limit (c ∷ cs) count pm total =
    let (less, deleted) = delete_name c.path c.name pm in
    let rest = evict_paths limit cs (less_if deleted count) less (less_if deleted total) in
    if leb limit count then rest else (pm, total)

abbrev pub cons_if_filled : Text → NameMap → PathMap → PathMap
cons_if_filled p [] pm = pm
cons_if_filled p (x ∷ nm) pm = (p, x ∷ nm) ∷ pm

abbrev pub prune : PathMap → PathMap
prune [] = []
prune ((p, nm) ∷ pm) = cons_if_filled p nm (prune pm)

unfoldable pub evict_domain : ℕ → Text → PathMap → DomainMap → ℕ → DomainMap × ℕ
unfolding evict_paths
evict_domain limit d pm dm total =
    let (left, total_left) =
      evict_paths limit (by_last_access (path_candidates d pm)) (count_paths pm) pm total in
    (JsMap.set text_discrete d (prune left) dm, total_left)

-- Nothing is missing, or there is nothing to do.
abbrev pub evict_at : ℕ → Text → Option PathMap → DomainMap → ℕ → DomainMap × ℕ
evict_at limit d none dm total = (dm, total)
evict_at limit d (some pm) dm total =
    if ltb (count_paths pm) limit then (dm, total) else evict_domain limit d pm dm total

unfoldable pub evict_for_domain : ℕ → Text → DomainMap → ℕ → DomainMap × ℕ
unfolding evict_domain
evict_for_domain limit d dm total = evict_at limit d (JsMap.get text_discrete d dm) dm total

abbrev pub is_some {ℓ} : {A : Type ℓ} → Option A → Bool
is_some none = false
is_some (some a) = true

abbrev pub remove_candidate : Candidate → DomainMap → DomainMap
remove_candidate c dm = remove c.domain c.path c.name dm

-- The loop of evictGlobal.
unfoldable pub evict_all : ℕ → List Candidate → DomainMap → ℕ → DomainMap × ℕ
unfolding lookup remove
evict_all limit [] dm total = (dm, total)
evict_all limit (c ∷ cs) dm total =
    let present = is_some (lookup c.domain c.path c.name dm) in
    let rest =
      evict_all limit cs (if present then remove_candidate c dm else dm) (less_if present total) in
    if leb limit total then rest else (dm, total)

unfoldable pub evict_global : ℕ → DomainMap → ℕ → DomainMap × ℕ
unfolding evict_all
evict_global limit dm total =
    if ltb total limit
    then (dm, total)
    else evict_all limit (by_last_access (candidates dm)) dm total
