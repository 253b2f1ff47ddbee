-- ===== src/Interceptors/Ejection.antt =====
-- The answers of eject and has of the InterceptorManager of src/interceptors.ts.
use kinetex.Base.{
  ℕ, ◌+◌, ◌≤◌, ◌<◌, ◌≡◌, refl, Bool, true, false, Bool-cases, ◌||◌, List, [], ◌∷◌, ltb, same, Text,
  length, arith, inl, inr,
}
use kinetex.Interceptors.Manager.{Interceptor, InterceptorManager, eject, without, has, has_id}

-- A count after a removal and before: it is lower if the test finds something, and the same if not.
record Shorter (found : Bool) (after before : ℕ) : Type 0 where
  at_most : after ≤ before
  had : found ≡ true → after < before
  had_not : found ≡ false → after ≡ before

fewer_in_all :
    (p q r : Bool) (a b c a' b' c' : ℕ)
    → Shorter p a' a
    → Shorter q b' b
    → Shorter r c' c
    → ltb (a' + b' + c') (a + b + c) ≡ (p || q || r)
fewer_in_all true q r a b c a' b' c' s t u = ground (arith, s.had refl, t.at_most, u.at_most)
fewer_in_all false true r a b c a' b' c' s t u = ground (arith, s.at_most, t.had refl, u.at_most)
fewer_in_all false false true a b c a' b' c' s t u =
    ground (arith, s.at_most, t.at_most, u.had refl)
fewer_in_all false false false a b c a' b' c' s t u =
    ground (arith, s.had_not refl, t.had_not refl, u.had_not refl)

module _ {F : Type 0} where
  has_id-without : (id : Text) (is : List (Interceptor F)) → has_id id (without id is) ≡ false
  has_id-without id [] = refl
  has_id-without id (i ∷ is) = elim (Bool-cases (same i.id id)) [
    | inl s ↦ rw s (has_id-without id is)
    | inr s ↦ rw (s, s) (has_id-without id is)
  ]

  without-Shorter :
      (id : Text) (is : List (Interceptor F))
      → Shorter (has_id id is) (length (without id is)) (length is)
  without-Shorter id [] = record {
    at_most = omega arith;
    had = λ h. ground (arith, h);
    had_not = λ h. refl;
  }
  without-Shorter id (i ∷ is) =
      let r = without-Shorter id is in
      elim (Bool-cases (same i.id id)) [
        | inl s ↦ record {
          at_most = rw s (omega (arith, r.at_most));
          had = λ h. rw s (omega (arith, r.at_most));
          had_not = λ h. ground (arith, h, s);
        }
        | inr s ↦ record {
          at_most = rw s (omega (arith, r.at_most));
          had = λ h. rw s (omega (arith, r.had (ground (arith, h, s))));
          had_not = λ h. rw s (omega (arith, r.had_not (ground (arith, h, s))));
        }
      ]

  -- Ejecting answers whether the id was registered in any phase, and then it is registered in none.
  pub eject-has :
      (id : Text) (m : InterceptorManager F)
      → ((eject id m).1 ≡ has id m) × (has id (eject id m).0 ≡ false)
  unfolding eject has
  eject-has id m =
      let q = without-Shorter id m.request_interceptors in
      let r = without-Shorter id m.response_interceptors in
      let e = without-Shorter id m.error_interceptors in
      (
        fewer_in_all _ _ _ _ _ _ _ _ _ q r e,
        rw (has_id-without id m.request_interceptors, has_id-without id m.response_interceptors)
            (has_id-without id m.error_interceptors),
      )
