-- ===== src/Dedup/Invariant.antt =====
-- What holds of the map of src/dedup.ts after any sequence of events.
use kinetex.Base.{
  ℕ, suc, ◌+◌, ◌<◌, ◌≡◌, refl, sym, ◌∙◌, ◌≢◌, Bool, true, false, List, [], ◌∷◌, Option, none, some,
  arith, All, ◌==◌, leb, if◌then◌else◌,
}
use kinetex.JsMap
use kinetex.JsMap.{
  get-set_self, get-set_ne, get-delete_ne, get-delete_self, Distinct, Distinct-set, Distinct-delete,
}
use kinetex.Dedup.Keys.{Key, key_discrete}
use kinetex.Dedup.{Entry, Dedup, Leader, Answer, lead, on_lookup, on_existing, without_leader}

abbrev pub find_leader : ℕ → List Leader → Option Leader
find_leader i [] = none
find_leader i (l ∷ ls) = if l.id == i then some l else find_leader i ls

abbrev pub Below : ℕ → List Leader → Type 0
Below n ls = All (λ (l : Leader). l.id < n) ls

-- A run of the factory that has not settled, for this key and this entry.
abbrev pub Led : Key → ℕ → List Leader → Type 0
Led k i ls = (l : Leader) × (find_leader i ls ≡ some l) × (l.key ≡ k)

pub record InvOf (m : List (Key × Entry)) (next_id : ℕ) (ls : List Leader) : Type 0 where
  pub distinct : Distinct key_discrete m
  pub below : Below next_id ls
  -- An entry that is not resolved has a factory that runs.
  pub led :
      (k : Key) (e : Entry)
      → JsMap.get key_discrete k m ≡ some e
      → e.resolved_at ≡ none
      → Led k e.id ls

abbrev pub Inv : Dedup → Type 0
Inv d = InvOf d.inflight d.next_id d.leaders

find_leader-Below :
    (i n : ℕ) (l : Leader) (ls : List Leader) → Below n ls → find_leader i ls ≡ some l → i < n
find_leader-Below i n l [] b h = ground arith
find_leader-Below i n l (m ∷ ls) b h = ground (arith, find_leader-Below i n l ls b.1)

pub find_leader-id : (i : ℕ) (l : Leader) (ls : List Leader) → find_leader i ls ≡ some l → l.id ≡ i
find_leader-id i l [] h = ground arith
find_leader-id i l (m ∷ ls) h = ground (arith, find_leader-id i l ls)

pub find_leader-without :
    (i j : ℕ) (ls : List Leader) → j ≢ i → find_leader j (without_leader i ls) ≡ find_leader j ls
find_leader-without i j [] h = refl
find_leader-without i j (m ∷ ls) h = ground (arith, find_leader-without i j ls h)

pub Below-without : (i n : ℕ) (ls : List Leader) → Below n ls → Below n (without_leader i ls)
Below-without i n [] b = tt
Below-without i n (m ∷ ls) b = ground (arith, Below-without i n ls b.1)

Below-suc : (n : ℕ) (ls : List Leader) → Below n ls → Below (suc n) ls
Below-suc n [] b = tt
Below-suc n (m ∷ ls) b = (omega arith, Below-suc n ls b.1)

-- An entry dropped.
pub drop-Inv :
    (k : Key) (d : Dedup)
    → Inv d
    → Inv (record d { inflight = JsMap.delete key_discrete k d.inflight })
drop-Inv k d v = record {
  distinct = Distinct-delete key_discrete k d.inflight v.distinct;
  below = v.below;
  led = λ q e h r. elim (key_discrete q k) [
    | yes p ↦ ground (arith, h, p, get-delete_self key_discrete k d.inflight v.distinct)
    | no n ↦ v.led q e (sym (get-delete_ne key_discrete k q d.inflight n) ∙ h) r
  ];
}

Led-cons :
    (m : Leader) (k : Key) (i : ℕ) (ls : List Leader)
    → Below m.id ls
    → Led k i ls
    → Led k i (m ∷ ls)
Led-cons m k i ls b (l, f, p) = (l, ground (arith, find_leader-Below i m.id l ls b f, f), p)

lead-Inv : (k : Key) (window : ℕ) (s : Option ℕ) (d : Dedup) → Inv d → Inv (lead k window s d).0
unfolding lead
lead-Inv k window s d v = record {
  distinct = Distinct-set key_discrete k _ d.inflight v.distinct;
  below = (omega arith, Below-suc d.next_id d.leaders v.below);
  led = λ q e h r. elim (key_discrete q k) as (λ _. Led q e.id (lead k window s d).0.leaders) [
    | yes p ↦ (m, ground (arith, h, p, get-set_self key_discrete k new d.inflight), sym p)
    | no n ↦
        Led-cons m q e.id d.leaders v.below
          (v.led q e (sym (get-set_ne key_discrete k q new d.inflight n) ∙ h) r)
  ];
}
  where
    m : Leader
    m = record { id = d.next_id; key = k; window_ms = window; signal = s }

    new : Entry
    new = record { id = d.next_id; resolved_at = none }

pub if_Inv : (b : Bool) (x y : Dedup × Answer) → Inv x.0 → Inv y.0 → Inv (if b then x else y).0
if_Inv true x y v w = v
if_Inv false x y v w = w

on_existing-Inv :
    (o : Option ℕ) (e : Entry) (k : Key) (window : ℕ) (s : Option ℕ) (now : ℕ) (d : Dedup)
    → Inv d
    → Inv (on_existing o e k window s now d).0
unfolding on_existing
on_existing-Inv none e k window s now d v = v
on_existing-Inv (some t) e k window s now d v = if_Inv (window == 0) _ _ v (
    if_Inv (leb now (t + window)) _ _ v (
      lead-Inv k window s (record d { inflight = JsMap.delete key_discrete k d.inflight })
        (drop-Inv k d v)))

pub on_lookup-Inv :
    (o : Option Entry) (k : Key) (window : ℕ) (s : Option ℕ) (now : ℕ) (d : Dedup)
    → Inv d
    → Inv (on_lookup o k window s now d).0
unfolding on_lookup
on_lookup-Inv none k window s now d v = lead-Inv k window s d v
on_lookup-Inv (some e) k window s now d v = on_existing-Inv e.resolved_at e k window s now d v
