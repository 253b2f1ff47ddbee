-- ===== src/Interceptors/Order.antt =====
-- The order that insertByPriority of src/interceptors.ts keeps: by priority, and among equal
-- priorities by the time of registration.
use mathlib.Core.List.{append-nil}
use kinetex.Base.{
  ℕ, ◌≤◌, ◌<◌, ◌≡◌, refl, sym, ap, ◌∙◌, true, Bool-cases, List, [], ◌∷◌, ◌++◌, ltb, ltb→lt, ◌==◌,
  same, if◌then◌else◌, Text, arith, inl, inr,
}
use kinetex.Interceptors.Manager.{Interceptor, insert_by_priority, without}
use kinetex.Interceptors.Rate.{either}

module _ {F : Type 0} where
  abbrev pub of_priority : ℕ → List (Interceptor F) → List (Interceptor F)
  of_priority p [] = []
  of_priority p (i ∷ is) = if i.priority == p then i ∷ of_priority p is else of_priority p is

  abbrev pub From : ℕ → List (Interceptor F) → Type 0
  From n [] = Unit
  From n (i ∷ is) = (n ≤ i.priority) × From n is

  abbrev pub Sorted : List (Interceptor F) → Type 0
  Sorted [] = Unit
  Sorted (i ∷ is) = From i.priority is × Sorted is

  From-mono : (m n : ℕ) (is : List (Interceptor F)) → m ≤ n → From n is → From m is
  From-mono m n [] h f = f
  From-mono m n (i ∷ is) h f = (omega (arith, h, f.0), From-mono m n is h f.1)

  insert-From :
      (n : ℕ) (e : Interceptor F) (is : List (Interceptor F))
      → n ≤ e.priority
      → From n is
      → From n (insert_by_priority e is)
  insert-From n e [] h f = (h, f)
  insert-From n e (i ∷ is) h f =
      either (From n) (ltb e.priority i.priority) _ _ (λ l. (h, f))
        (λ g. (f.0, insert-From n e is h f.1))

  pub insert-Sorted :
      (e : Interceptor F) (is : List (Interceptor F)) → Sorted is → Sorted (insert_by_priority e is)
  insert-Sorted e [] s = (s, s)
  insert-Sorted e (i ∷ is) s =
      either Sorted (ltb e.priority i.priority) _ _
        (λ l.
          let below : e.priority ≤ i.priority = omega (arith, ltb→lt e.priority i.priority l) in
          ((below, From-mono e.priority i.priority is below s.0), s))
        (λ g. (insert-From i.priority e is (ground (arith, g)) s.0, insert-Sorted e is s.1))

  without-From :
      (n : ℕ) (id : Text) (is : List (Interceptor F)) → From n is → From n (without id is)
  without-From n id [] f = f
  without-From n id (i ∷ is) f =
      either (From n) (same i.id id) _ _ (λ s. without-From n id is f.1)
        (λ d. (f.0, without-From n id is f.1))

  pub without-Sorted : (id : Text) (is : List (Interceptor F)) → Sorted is → Sorted (without id is)
  without-Sorted id [] s = s
  without-Sorted id (i ∷ is) s =
      either Sorted (same i.id id) _ _ (λ e. without-Sorted id is s.1)
        (λ d. (without-From i.priority id is s.0, without-Sorted id is s.1))

  of_priority-From :
      (p n : ℕ) (is : List (Interceptor F)) → p < n → From n is → of_priority p is ≡ []
  of_priority-From p n [] h f = refl
  of_priority-From p n (i ∷ is) h f = ground (arith, of_priority-From p n is h f.1, f.0)

  pub of_priority-append :
      (p : ℕ) (is js : List (Interceptor F))
      → of_priority p (is ++ js) ≡ of_priority p is ++ of_priority p js
  of_priority-append p [] js = refl
  of_priority-append p (i ∷ is) js = elim (Bool-cases (i.priority == p)) [
    | inl e ↦ rw e (ap (λ l. i ∷ l) (of_priority-append p is js))
    | inr e ↦ rw e (of_priority-append p is js)
  ]

  of_priority-cons :
      (p : ℕ) (i : Interceptor F) (is js : List (Interceptor F))
      → of_priority p is ≡ of_priority p js
      → of_priority p (i ∷ is) ≡ of_priority p (i ∷ js)
  of_priority-cons p i is js h = ap (λ l. if i.priority == p then i ∷ l else l) h

  to_the_end :
      (p : ℕ) (e : Interceptor F) (is : List (Interceptor F))
      → (e.priority == p ≡ true → of_priority p is ≡ [])
      → of_priority p (e ∷ is) ≡ of_priority p is ++ of_priority p (e ∷ [])
  to_the_end p e is h = elim (Bool-cases (e.priority == p)) [
    | inl q ↦ rw q (ap (λ l. e ∷ l) (h q) ∙ sym (ap (λ l. l ++ e ∷ []) (h q)))
    | inr q ↦ rw q (sym (append-nil (of_priority p is)))
  ]

  before_greater :
      (p : ℕ) (e i : Interceptor F) (is : List (Interceptor F))
      → e.priority < i.priority
      → From i.priority is
      → of_priority p (e ∷ i ∷ is) ≡ of_priority p ((i ∷ is) ++ e ∷ [])
  before_greater p e i is h f =
      to_the_end p e (i ∷ is)
        (λ q. of_priority-From p i.priority (i ∷ is) (ground (arith, h, q)) (omega arith, f))
      ∙ sym (of_priority-append p (i ∷ is) (e ∷ []))

  pub insert-of_priority :
      (p : ℕ) (e : Interceptor F) (is : List (Interceptor F))
      → Sorted is
      → of_priority p (insert_by_priority e is) ≡ of_priority p (is ++ e ∷ [])
  insert-of_priority p e [] s = refl
  insert-of_priority p e (i ∷ is) s =
      either (λ l. of_priority p l ≡ of_priority p ((i ∷ is) ++ e ∷ [])) (ltb e.priority i.priority)
        _ _ (λ l. before_greater p e i is (ltb→lt e.priority i.priority l) s.0)
        (λ g. of_priority-cons p i _ _ (insert-of_priority p e is s.1))

  pub without-of_priority :
      (p : ℕ) (id : Text) (is : List (Interceptor F))
      → of_priority p (without id is) ≡ without id (of_priority p is)
  without-of_priority p id [] = refl
  without-of_priority p id (i ∷ is) = elim (Bool-cases (same i.id id)) [
    | inl s ↦ elim (Bool-cases (i.priority == p)) [
      | inl e ↦ rw (s, e, s) (without-of_priority p id is)
      | inr e ↦ rw (s, e) (without-of_priority p id is)
    ]
    | inr s ↦ elim (Bool-cases (i.priority == p)) [
      | inl e ↦ rw (s, e, s) (ap (λ l. i ∷ l) (without-of_priority p id is))
      | inr e ↦ rw (s, e) (without-of_priority p id is)
    ]
  ]
