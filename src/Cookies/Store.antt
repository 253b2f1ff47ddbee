-- ===== src/Cookies/Store.antt =====
-- The three-level map of src/cookie-store.ts, domain to path to name, and the loops over it.
use kinetex.Base.{
  ℕ, ◌+◌, Bool, List, [], ◌∷◌, ◌++◌, Option, none, some, if◌then◌else◌, Text, text_discrete, length,
}
use kinetex.JsMap
use kinetex.Cookies.Rules.{Cookie}

abbrev pub NameMap : Type 0
NameMap = List (Text × Cookie)

abbrev pub PathMap : Type 0
PathMap = List (Text × NameMap)

abbrev pub DomainMap : Type 0
DomainMap = List (Text × PathMap)

-- A `Map` that is made when it is missing.
abbrev pub or_empty {ℓ} : {A : Type ℓ} → Option (List A) → List A
or_empty none = []
or_empty (some m) = m

-- `get(domain)?.get(path)?.get(name)`.
unfoldable pub lookup : Text → Text → Text → DomainMap → Option Cookie
lookup d p n dm =
    JsMap.get text_discrete n
      (or_empty (JsMap.get text_discrete p (or_empty (JsMap.get text_discrete d dm))))

unfoldable pub insert : Text → Text → Text → Cookie → DomainMap → DomainMap
insert d p n c dm =
    let pm = or_empty (JsMap.get text_discrete d dm) in
    let nm = or_empty (JsMap.get text_discrete p pm) in
    JsMap.set text_discrete d (JsMap.set text_discrete p (JsMap.set text_discrete n c nm) pm) dm

abbrev pub sum_values : {V : Type 0} → (V → ℕ) → List (Text × V) → ℕ
sum_values w [] = 0
sum_values w ((k, v) ∷ m) = w v + sum_values w m

-- `nm.size` summed over the paths, and over the domains.
abbrev pub count_paths : PathMap → ℕ
count_paths pm = sum_values (λ (nm : NameMap). length nm) pm

abbrev pub count_all : DomainMap → ℕ
count_all dm = sum_values count_paths dm

-- Deletes an entry that has become empty.
abbrev pub replace_or_drop :
    {A : Type 0} → Text → List A → List (Text × List A) → List (Text × List A)
replace_or_drop k [] m = JsMap.delete text_discrete k m
replace_or_drop k (x ∷ xs) m = JsMap.set text_discrete k (x ∷ xs) m

abbrev pub remove_name : Text → Text → Text → NameMap → PathMap → DomainMap → DomainMap
remove_name d p n nm pm dm =
    replace_or_drop d (replace_or_drop p (JsMap.delete text_discrete n nm) pm) dm

-- Removes a cookie that is there, and the maps that this leaves empty.
unfoldable pub remove : Text → Text → Text → DomainMap → DomainMap
remove d p n dm =
    let pm = or_empty (JsMap.get text_discrete d dm) in
    remove_name d p n (or_empty (JsMap.get text_discrete p pm)) pm dm

-- The loops that delete the cookies that fail a test, and the maps that are empty after them.
abbrev pub keep_names : (Cookie → Bool) → NameMap → NameMap
keep_names keep [] = []
keep_names keep ((n, c) ∷ nm) =
    let rest = keep_names keep nm in if keep c then (n, c) ∷ rest else rest

abbrev pub cons_filled {ℓ} :
    {A : Type ℓ} → Text → List A → List (Text × List A) → List (Text × List A)
cons_filled k [] m = m
cons_filled k (x ∷ xs) m = (k, x ∷ xs) ∷ m

abbrev pub keep_paths : (Cookie → Bool) → PathMap → PathMap
keep_paths keep [] = []
keep_paths keep ((p, nm) ∷ pm) = cons_filled p (keep_names keep nm) (keep_paths keep pm)

abbrev pub keep_cookies : (Cookie → Bool) → DomainMap → DomainMap
keep_cookies keep [] = []
keep_cookies keep ((d, pm) ∷ dm) = cons_filled d (keep_paths keep pm) (keep_cookies keep dm)

-- The loops over all cookies.
abbrev pub names_of : NameMap → List Cookie
names_of [] = []
names_of ((n, c) ∷ nm) = c ∷ names_of nm

abbrev pub cookies_of : PathMap → List Cookie
cookies_of [] = []
cookies_of ((p, nm) ∷ pm) = names_of nm ++ cookies_of pm

abbrev pub all_cookies : DomainMap → List Cookie
all_cookies [] = []
all_cookies ((d, pm) ∷ dm) = cookies_of pm ++ all_cookies dm
