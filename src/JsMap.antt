-- ===== src/JsMap.antt =====
-- The `Map` and `Set` of the language: keys in order of insertion. `set` on a key that is there
-- keeps its place, and `delete` forgets it.
use mathlib.Core.Option
use kinetex.Base.{◌≡◌, refl, ◌≢◌, ite, Bool, true, false, List, [], ◌∷◌, Option, none, some, arith}

module _ {ℓ} {K V : Type ℓ} (dec : Discrete K) where
  unfoldable pub get : K → List (K × V) → Option V
  get k [] = none
  get k ((j, v) ∷ m) = ite (dec j k) (some v) (get k m)

  unfoldable pub has : K → List (K × V) → Bool
  has k [] = false
  has k ((j, v) ∷ m) = ite (dec j k) true (has k m)

  unfoldable pub set : K → V → List (K × V) → List (K × V)
  set k v [] = (k, v) ∷ []
  set k v ((j, w) ∷ m) = ite (dec j k) ((j, v) ∷ m) ((j, w) ∷ set k v m)

  unfoldable pub delete : K → List (K × V) → List (K × V)
  delete k [] = []
  delete k ((j, w) ∷ m) = ite (dec j k) m ((j, w) ∷ delete k m)

  pub get-set_self : (k : K) (v : V) (m : List (K × V)) → get k (set k v m) ≡ some v
  unfolding get set
  get-set_self k v [] = ground arith
  get-set_self k v ((j, w) ∷ m) = ground (arith, get-set_self k v m)

  pub get-set_ne : (k q : K) (v : V) (m : List (K × V)) → q ≢ k → get q (set k v m) ≡ get q m
  unfolding get set
  get-set_ne k q v [] h = ground arith
  get-set_ne k q v ((j, w) ∷ m) h = ground (arith, get-set_ne k q v m)

  pub get-delete_ne : (k q : K) (m : List (K × V)) → q ≢ k → get q (delete k m) ≡ get q m
  unfolding get delete
  get-delete_ne k q [] h = refl
  get-delete_ne k q ((j, w) ∷ m) h = ground (arith, get-delete_ne k q m)

  -- No key stands twice.
  abbrev pub Distinct : List (K × V) → Type ℓ
  Distinct [] = Unit
  Distinct ((j, v) ∷ m) = (get j m ≡ none) × Distinct m

  pub get-delete_self : (k : K) (m : List (K × V)) → Distinct m → get k (delete k m) ≡ none
  unfolding get delete
  get-delete_self k [] u = refl
  get-delete_self k ((j, w) ∷ m) (a, u) = elim (dec j k) [
    | yes p ↦ ground (arith, a, p)
    | no n ↦ ground (arith, get-delete_self k m u, n)
  ]

  pub Distinct-set : (k : K) (v : V) (m : List (K × V)) → Distinct m → Distinct (set k v m)
  unfolding get set
  Distinct-set k v [] u = (refl, tt)
  Distinct-set k v ((j, w) ∷ m) (a, u) = elim (dec j k) [
    | yes p ↦ ground (arith, a, u, p)
    | no n ↦ ground (arith, a, get-set_ne k j v m n, Distinct-set k v m u, n)
  ]

  pub Distinct-delete : (k : K) (m : List (K × V)) → Distinct m → Distinct (delete k m)
  unfolding get delete
  Distinct-delete k [] u = tt
  Distinct-delete k ((j, w) ∷ m) (a, u) = elim (dec j k) [
    | yes p ↦ ground (arith, u, p)
    | no n ↦ ground (arith, a, get-delete_ne k j m n, Distinct-delete k m u, n)
  ]

  pub get-delete-none : (k q : K) (m : List (K × V)) → get k m ≡ none → get k (delete q m) ≡ none
  unfolding get delete
  get-delete-none k q [] h = refl
  get-delete-none k q ((j, w) ∷ m) h = ground (arith, h, get-delete-none k q m)

  -- The object that a key stands for is changed in place.
  unfoldable pub update : K → (V → V) → List (K × V) → List (K × V)
  update k f [] = []
  update k f ((j, v) ∷ m) = ite (dec j k) ((j, f v) ∷ m) ((j, v) ∷ update k f m)

  pub get-update_self :
      (k : K) (f : V → V) (m : List (K × V)) → get k (update k f m) ≡ Option.map f (get k m)
  unfolding get update
  get-update_self k f [] = refl
  get-update_self k f ((j, w) ∷ m) = ground (arith, get-update_self k f m)

  pub get-update_ne :
      (k q : K) (f : V → V) (m : List (K × V)) → q ≢ k → get q (update k f m) ≡ get q m
  unfolding get update
  get-update_ne k q f [] h = refl
  get-update_ne k q f ((j, w) ∷ m) h = ground (arith, h, get-update_ne k q f m)

  pub Distinct-update :
      (k : K) (f : V → V) (m : List (K × V)) → Distinct m → Distinct (update k f m)
  unfolding get update
  Distinct-update k f [] u = tt
  Distinct-update k f ((j, w) ∷ m) (a, u) = elim (dec j k) [
    | yes p ↦ ground (arith, a, u, p)
    | no n ↦ ground (arith, a, get-update_ne k j f m n, Distinct-update k f m u, n)
  ]
