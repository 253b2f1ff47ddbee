-- ===== src/Cookies/Accounting.antt =====
-- What holds of the cookie jar of src/cookie-store.ts in every run of its operations.
use kinetex.Base.{
  ℕ, ◌+◌, ◌≡◌, refl, ap, Bool, true, false, not, ◌&&◌, List, [], ◌∷◌, Option, none, some, arith,
  if◌then◌else◌, Text, Option-cases, inl, inr,
}
use kinetex.Cookies.Domains.{canonicalize_domain}
use kinetex.Cookies.Rules.{Cookie, Url, ParsedCookie}
use kinetex.Cookies.Store.{DomainMap, lookup, count_all, keep_cookies}
use kinetex.Cookies.Eviction.{evict_for_domain, evict_global}
use kinetex.Cookies.Counting.{one_if, count_all-insert, count_all-remove}
use kinetex.Cookies.Totals.{
  evict_for_domain-total, evict_global-total, length-all_cookies, count_all-keep,
}
use kinetex.Cookies.Keyed.{KeyedDomains, insert-Keyed, remove-Keyed}
use kinetex.Cookies.Evicted.{evict_for_domain-Lacks, evict_global-Lacks}
use kinetex.Cookies.Filtered.{keep_cookies-Keyed, without_domain-Keyed}
use kinetex.Cookies.Stamped.{count_all-stamp, stamp-Keyed}
use kinetex.Cookies.Retrieval.{Request, get_cookies, get_for}
use kinetex.Cookies.{
  Platform, Jar, create, put_cookie, put_over, remove_cookie, clear, clear_where, clear_expired,
  clear_session, without_domain, clear_for_domain, set_cookie, set_parsed, accept, finish, Expiry,
  deletes, stores, cookie_domain, new_cookie, expiry, is_unrestricted, is_secure_context,
}

pub record Inv (j : Jar) : Type 0 where
  pub counted : j.total ≡ count_all j.dm
  pub keyed : KeyedDomains j.dm

pub data Event : Type 0 where
  sets : ℕ → Text → Text → Event
  puts : Cookie → Event
  removes : Text → Text → Text → Event
  clears expires_session : Event
  expires_at : ℕ → Event
  clears_domain : Text → Event
  reads : ℕ → Request → Event

unfoldable pub step : Platform → Event → Jar → Jar
step e (sets now header url) j = (set_cookie e now header url j).0
step e (puts c) j = put_cookie c j
step e (removes d p n) j = (remove_cookie e d p n j).0
step e clears j = clear j
step e expires_session j = (clear_session j).0
step e (expires_at now) j = (clear_expired now j).0
step e (clears_domain d) j = (clear_for_domain e d j).0
step e (reads now r) j = (get_cookies e now r j).0

unfoldable pub run : Platform → List Event → Jar → Jar
run e [] j = j
run e (v ∷ vs) j = run e vs (step e v j)

put_over-Inv :
    (o : Option Cookie) (c : Cookie) (j : Jar)
    → lookup c.domain c.path c.name j.dm ≡ o
    → Inv j
    → Inv (put_over o c j)
put_over-Inv none c j f v = record {
  counted = omega (
    arith,
    evict_global-total j.max_total first.0 first.1
        (evict_for_domain-total j.max_per_domain c.domain j.dm j.total v.counted),
    ap one_if lacks.1,
    count_all-insert c.domain c.path c.name c second.0,
  );
  keyed = insert-Keyed c.domain c.path c.name c second.0 lacks.0;
}
  where
    first : DomainMap × ℕ
    first = evict_for_domain j.max_per_domain c.domain j.dm j.total

    second : DomainMap × ℕ
    second = evict_global j.max_total first.0 first.1

    lacks : KeyedDomains second.0 × (lookup c.domain c.path c.name second.0 ≡ none)
    lacks = evict_global-Lacks c.domain c.path c.name j.max_total first.0 first.1 (
        evict_for_domain-Lacks c.domain c.path c.name j.max_per_domain c.domain j.dm j.total
          (v.keyed, f))
put_over-Inv (some old) c j f v = record {
  counted = omega (arith, v.counted, ap one_if f, count_all-insert c.domain c.path c.name new j.dm);
  keyed = insert-Keyed c.domain c.path c.name new j.dm v.keyed;
}
  where
    new : Cookie
    new = record c { created_at = old.created_at }

pub put_cookie-Inv : (c : Cookie) (j : Jar) → Inv j → Inv (put_cookie c j)
unfolding put_cookie
put_cookie-Inv c j v = put_over-Inv (lookup c.domain c.path c.name j.dm) c j refl v

pub remove_cookie-Inv :
    (e : Platform) (d p n : Text) (j : Jar) → Inv j → Inv (remove_cookie e d p n j).0
unfolding remove_cookie
remove_cookie-Inv e d p n j v = elim (Option-cases (lookup key p n j.dm)) [
  | inl h ↦ rw h v
  | inr (c, h) ↦ rw h (record {
    counted = omega (arith, v.counted, ap one_if h, count_all-remove key p n j.dm);
    keyed = remove-Keyed key p n j.dm v.keyed;
  })
]
  where
    key : Text
    key = canonicalize_domain e.decode_label d

pub clear_where-Inv : (keep : Cookie → Bool) (j : Jar) → Inv j → Inv (clear_where keep j).0
clear_where-Inv keep j v = record {
  counted = omega (
    arith,
    v.counted,
    length-all_cookies j.dm,
    length-all_cookies (keep_cookies keep j.dm),
    count_all-keep keep j.dm,
  );
  keyed = keep_cookies-Keyed keep j.dm v.keyed.distinct v.keyed.each;
}

without_domain-count :
    (d : Text) (dm : DomainMap)
    → count_all (without_domain d dm).0 + (without_domain d dm).1 ≡ count_all dm
without_domain-count d [] = refl
without_domain-count d ((k, pm) ∷ dm) = ground (arith, without_domain-count d dm)

pub clear_for_domain-Inv :
    (e : Platform) (d : Text) (j : Jar) → Inv j → Inv (clear_for_domain e d j).0
unfolding clear_for_domain
clear_for_domain-Inv e d j v = record {
  counted = omega (arith, v.counted, without_domain-count key j.dm);
  keyed = without_domain-Keyed key j.dm v.keyed.distinct v.keyed.each;
}
  where
    key : Text
    key = canonicalize_domain e.decode_label d

pub get_for-Inv :
    (e : Platform) (now : ℕ) (u : Option Url) (r : Request) (j : Jar)
    → Inv j
    → Inv (get_for e now u r j).0
get_for-Inv e now none r j v = v
get_for-Inv e now (some url) r j v = record {
  counted = omega (arith, v.counted, count_all-stamp _ _ now j.dm);
  keyed = stamp-Keyed _ _ now j.dm v.keyed.distinct v.keyed.each;
}

if_Inv : (b : Bool) (x y : Jar × Bool) → Inv x.0 → Inv y.0 → Inv (if b then x else y).0
if_Inv true x y v w = v
if_Inv false x y v w = w

finish-Inv :
    (e : Platform) (c : Cookie) (url : Url) (x : Expiry) (j : Jar)
    → Inv j
    → Inv (finish e c url x j).0
finish-Inv e c url deletes j v = remove_cookie-Inv e c.domain c.path c.name j v
finish-Inv e c url (stores expires) j v = if_Inv _ _ _ (put_cookie-Inv _ j v) v

accept-Inv :
    (e : Platform) (now : ℕ) (url : Url) (p : ParsedCookie) (o : Option (Text × Bool)) (j : Jar)
    → Inv j
    → Inv (accept e now url p o j).0
accept-Inv e now url p none j v = v
accept-Inv e now url p (some (d, h)) j v =
    if_Inv (p.secure && not (is_secure_context url)) (j, false) _ v
      (if_Inv (is_unrestricted p.same_site && not p.secure) (j, false) _ v
        (finish-Inv e (new_cookie now url p d h) url (expiry now p.max_age p.expires) j v))

pub set_parsed-Inv :
    (e : Platform) (now : ℕ) (u : Option Url) (p : Option ParsedCookie) (j : Jar)
    → Inv j
    → Inv (set_parsed e now u p j).0
set_parsed-Inv e now none p j v = v
set_parsed-Inv e now (some url) none j v = v
set_parsed-Inv e now (some url) (some p) j v =
    if_Inv _ _ _ v (accept-Inv e now url p (cookie_domain e j _ p.domain) j v)

pub if_jar_Inv : (b : Bool) (x y : Jar) → Inv x → Inv y → Inv (if b then x else y)
if_jar_Inv true x y v w = v
if_jar_Inv false x y v w = w

pub create-Inv : (m n : Option ℕ) (matcher : Option (Text → Text → Bool)) → Inv (create m n matcher)
unfolding create
create-Inv m n matcher = record { counted = refl; keyed = record { distinct = tt; each = tt } }
