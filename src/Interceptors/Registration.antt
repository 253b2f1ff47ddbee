-- ===== src/Interceptors/Registration.antt =====
-- Sequences of registrations and ejections on the InterceptorManager of src/interceptors.ts.
use Prim.{tt}
use kinetex.Base.{ℕ, ◌≡◌, refl, sym, ap, subst, ◌∙◌, List, [], ◌∷◌, ◌++◌, Text}
use kinetex.Interceptors.Manager.{
  Interceptor, InterceptorManager, InterceptorOptions, Phase, request, response, error, create,
  new_entry, new_id, change, use_phase, eject, eject_all, without, insert_by_priority,
}
use kinetex.Interceptors.Order.{
  Sorted, insert-Sorted, without-Sorted, of_priority, of_priority-append, insert-of_priority,
  without-of_priority,
}

pub data Op (F : Type 0) : Type 0 where
  register : Phase → F → InterceptorOptions F → Op F
  ejects : Text → Op F
  ejects_all : Op F

module _ {F : Type 0} where
  unfoldable pub step : Op F → InterceptorManager F → InterceptorManager F
  unfolding use_phase eject eject_all
  step (register phase fn opts) m = (use_phase phase fn opts m).0
  step (ejects id) m = (eject id m).0
  step ejects_all m = eject_all m

  -- A manager that keeps the order of registration.
  unfoldable pub plain_step : Op F → InterceptorManager F → InterceptorManager F
  unfolding eject eject_all
  plain_step (register phase fn opts) m =
      let (id, seq) = new_id opts m.id_seq in
      change (λ is. is ++ new_entry id fn opts ∷ []) phase (record m { id_seq = seq })
  plain_step (ejects id) m = (eject id m).0
  plain_step ejects_all m = eject_all m

  unfoldable pub run :
      (Op F → InterceptorManager F → InterceptorManager F)
      → List (Op F)
      → InterceptorManager F
      → InterceptorManager F
  run s [] m = m
  run s (op ∷ ops) m = run s ops (s op m)

  -- The first list is the second one in the order of priorities; equals stay as they are.
  pub record StableSort (is js : List (Interceptor F)) : Type 0 where
    pub sorted : Sorted is
    pub stable : (p : ℕ) → of_priority p is ≡ of_priority p js

  pub record Sorts (m n : InterceptorManager F) : Type 0 where
    pub requests : StableSort m.request_interceptors n.request_interceptors
    pub responses : StableSort m.response_interceptors n.response_interceptors
    pub errors : StableSort m.error_interceptors n.error_interceptors
    pub same_seq : m.id_seq ≡ n.id_seq

  insert-StableSort :
      (e : Interceptor F) (is js : List (Interceptor F))
      → StableSort is js
      → StableSort (insert_by_priority e is) (js ++ e ∷ [])
  insert-StableSort e is js s = record {
    sorted = insert-Sorted e is s.sorted;
    stable = λ p.
        insert-of_priority p e is s.sorted
        ∙ of_priority-append p is (e ∷ [])
        ∙ ap (λ l. l ++ of_priority p (e ∷ [])) (s.stable p)
        ∙ sym (of_priority-append p js (e ∷ []));
  }

  without-StableSort :
      (id : Text) (is js : List (Interceptor F))
      → StableSort is js
      → StableSort (without id is) (without id js)
  without-StableSort id is js s = record {
    sorted = without-Sorted id is s.sorted;
    stable = λ p.
        without-of_priority p id is
        ∙ ap (without id) (s.stable p)
        ∙ sym (without-of_priority p id js);
  }

  nothing_sorted : StableSort [] []
  nothing_sorted = record { sorted = tt; stable = λ p. refl }

  create-Sorts : (a b : ℕ) → a ≡ b → Sorts (create a) (create b)
  create-Sorts a b h = record {
    requests = nothing_sorted;
    responses = nothing_sorted;
    errors = nothing_sorted;
    same_seq = h;
  }

  change-Sorts :
      (phase : Phase) (e : Interceptor F) (seq : ℕ) (m n : InterceptorManager F)
      → Sorts m n
      → Sorts
          (change (insert_by_priority e) phase (record m { id_seq = seq }))
          (change (λ is. is ++ e ∷ []) phase (record n { id_seq = seq }))
  change-Sorts request e seq m n s = record {
    requests = insert-StableSort e m.request_interceptors n.request_interceptors s.requests;
    responses = s.responses;
    errors = s.errors;
    same_seq = refl;
  }
  change-Sorts response e seq m n s = record {
    requests = s.requests;
    responses = insert-StableSort e m.response_interceptors n.response_interceptors s.responses;
    errors = s.errors;
    same_seq = refl;
  }
  change-Sorts error e seq m n s = record {
    requests = s.requests;
    responses = s.responses;
    errors = insert-StableSort e m.error_interceptors n.error_interceptors s.errors;
    same_seq = refl;
  }

  step-Sorts :
      (op : Op F) (m n : InterceptorManager F) → Sorts m n → Sorts (step op m) (plain_step op n)
  unfolding step plain_step use_phase eject eject_all
  step-Sorts (register phase fn opts) m n s =
      let entry = λ (k : ℕ). new_entry (new_id opts k).0 fn opts in
      subst
        (λ k.
          Sorts (use_phase phase fn opts m).0
            (change (λ is. is ++ entry k ∷ []) phase (record n { id_seq = (new_id opts k).1 })))
        s.same_seq (change-Sorts phase (entry m.id_seq) (new_id opts m.id_seq).1 m n s)
  step-Sorts (ejects id) m n s = record {
    requests = without-StableSort id m.request_interceptors n.request_interceptors s.requests;
    responses = without-StableSort id m.response_interceptors n.response_interceptors s.responses;
    errors = without-StableSort id m.error_interceptors n.error_interceptors s.errors;
    same_seq = s.same_seq;
  }
  step-Sorts ejects_all m n s = create-Sorts m.id_seq n.id_seq s.same_seq

  run-Sorts :
      (ops : List (Op F)) (m n : InterceptorManager F)
      → Sorts m n
      → Sorts (run step ops m) (run plain_step ops n)
  unfolding run
  run-Sorts [] m n s = s
  run-Sorts (op ∷ ops) m n s = run-Sorts ops (step op m) (plain_step op n) (step-Sorts op m n s)

  -- After any sequence of registrations and ejections on a new manager, each of the three lists has
  -- the interceptors that a manager without priorities has, sorted by priority, those of one priority
  -- in the order of their registration.
  pub registered_in_order :
      (ops : List (Op F)) (seq : ℕ)
      → Sorts (run step ops (create seq)) (run plain_step ops (create seq))
  registered_in_order ops seq = run-Sorts ops (create seq) (create seq) (create-Sorts seq seq refl)
