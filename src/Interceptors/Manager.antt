-- ===== src/Interceptors/Manager.antt =====
-- The registration of interceptors in InterceptorManager of src/interceptors.ts. A function and a
-- condition are values of a type F, which the registration only stores. Priorities are natural, and
-- the counter of the ids, which all managers share, is a field.
use kinetex.Base.{
  ℕ, suc, ◌+◌, Bool, false, ◌||◌, List, [], ◌∷◌, ◌++◌, Option, none, some, ltb, same, codes,
  if◌then◌else◌, length, Text,
}
use kinetex.Sse.Server.Decimal.{show_number}

pub record Interceptor (F : Type 0) : Type 0 where
  pub id : Text
  pub priority : ℕ
  pub once : Bool
  pub condition : Option F
  pub fn : F

pub record InterceptorOptions (F : Type 0) : Type 0 where
  pub id : Option Text
  pub priority : Option ℕ
  pub once : Option Bool
  pub condition : Option F

pub data Phase : Type 0 where
  request : Phase
  response : Phase
  error : Phase

module _ {ℓ} {A : Type ℓ} where
  abbrev pub or_default : A → Option A → A
  or_default a none = a
  or_default a (some b) = b

abbrev pub next_id : ℕ → Text
next_id seq = codes "interceptor_" ++ show_number (suc seq)

pub record InterceptorManager (F : Type 0) : Type 0 where
  pub request_interceptors : List (Interceptor F)
  pub response_interceptors : List (Interceptor F)
  pub error_interceptors : List (Interceptor F)
  pub id_seq : ℕ

module _ {F : Type 0} where
  abbrev pub create : ℕ → InterceptorManager F
  create seq = record {
    request_interceptors = [];
    response_interceptors = [];
    error_interceptors = [];
    id_seq = seq;
  }

  -- Before the first one whose priority is greater.
  abbrev pub insert_by_priority : Interceptor F → List (Interceptor F) → List (Interceptor F)
  insert_by_priority entry [] = entry ∷ []
  insert_by_priority entry (x ∷ xs) =
      let rest = insert_by_priority entry xs in
      if ltb entry.priority x.priority then entry ∷ x ∷ xs else x ∷ rest

  abbrev pub new_entry : Text → F → InterceptorOptions F → Interceptor F
  new_entry id fn opts = record {
    id = id;
    priority = or_default 0 opts.priority;
    once = or_default false opts.once;
    condition = opts.condition;
    fn = fn;
  }

  abbrev pub new_id : InterceptorOptions F → ℕ → Text × ℕ
  new_id opts seq = elim opts.id [ none ↦ (next_id seq, suc seq) | some id ↦ (id, seq) ]

  -- The list of a phase, changed by a function.
  abbrev pub change :
      (List (Interceptor F) → List (Interceptor F))
      → Phase
      → InterceptorManager F
      → InterceptorManager F
  change f request m = record m { request_interceptors = f m.request_interceptors }
  change f response m = record m { response_interceptors = f m.response_interceptors }
  change f error m = record m { error_interceptors = f m.error_interceptors }

  -- `useRequest`, `useResponse` and `useError`, which differ in the list they insert into.
  unfoldable pub use_phase :
      Phase → F → InterceptorOptions F → InterceptorManager F → InterceptorManager F × Text
  use_phase phase fn opts m =
      let (id, seq) = new_id opts m.id_seq in
      (change (insert_by_priority (new_entry id fn opts)) phase (record m { id_seq = seq }), id)

  unfoldable pub use_optional :
      Phase
      → Option F
      → InterceptorOptions F
      → InterceptorManager F
      → InterceptorManager F × Option Text
  unfolding use_phase
  use_optional phase none opts m = (m, none)
  use_optional phase (some fn) opts m = let r = use_phase phase fn opts m in (r.0, some r.1)

  unfoldable pub use_both :
      Option F
      → Option F
      → InterceptorOptions F
      → InterceptorManager F
      → InterceptorManager F × (Option Text × Option Text)
  unfolding use_optional
  use_both request_fn response_fn opts m =
      let r = use_optional request request_fn opts m in
      let s = use_optional response response_fn opts r.0 in (s.0, (r.1, s.1))

  abbrev pub without : Text → List (Interceptor F) → List (Interceptor F)
  without id [] = []
  without id (i ∷ is) = if same i.id id then without id is else i ∷ without id is

  abbrev pub count : InterceptorManager F → ℕ
  count m =
      length m.request_interceptors + length m.response_interceptors + length m.error_interceptors

  unfoldable pub eject : Text → InterceptorManager F → InterceptorManager F × Bool
  eject id m =
      let after = record m {
        request_interceptors = without id m.request_interceptors;
        response_interceptors = without id m.response_interceptors;
        error_interceptors = without id m.error_interceptors;
      } in
      (after, ltb (count after) (count m))

  unfoldable pub eject_all : InterceptorManager F → InterceptorManager F
  eject_all m = create m.id_seq

  abbrev pub has_id : Text → List (Interceptor F) → Bool
  has_id id [] = false
  has_id id (i ∷ is) = same i.id id || has_id id is

  unfoldable pub has : Text → InterceptorManager F → Bool
  has id m =
      has_id id m.request_interceptors
      || has_id id m.response_interceptors
      || has_id id m.error_interceptors
