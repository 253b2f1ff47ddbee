-- ===== src/Tests/Registrations.antt =====
-- Registrations and ejections of interceptors in src/interceptors.ts; a function is a number here.
use kinetex.Base.{ℕ, ◌≡◌, refl, true, false, List, [], ◌∷◌, map, none, some, codes}
use kinetex.Sse.Server.Decimal.{show_number}
use kinetex.Interceptors.Manager.{
  InterceptorManager, InterceptorOptions, request, response, create, has, eject,
}
use kinetex.Interceptors.Registration.{
  Op, register, ejects, step, plain_step, run, Sorts, registered_in_order,
}
use kinetex.Interceptors.Ejection.{eject-has}

abbrev at_priority : ℕ → InterceptorOptions ℕ
at_priority p = record { id = none; priority = some p; once = none; condition = none }

abbrev named_logger : InterceptorOptions ℕ
named_logger = record {
  id = some (codes "logger");
  priority = none;
  once = some true;
  condition = none;
}

abbrev registrations : List (Op ℕ)
registrations =
    register request 1 (at_priority 5)
    ∷ register request 2 (at_priority 3)
    ∷ register request 3 (at_priority 5)
    ∷ register response 4 (at_priority 3)
    ∷ register request 5 named_logger
    ∷ ejects (codes "interceptor_2")
    ∷ []

abbrev registered : InterceptorManager ℕ
registered = run step registrations (create 0)

registered-requests : map (λ i. i.fn) registered.request_interceptors ≡ 5 ∷ 1 ∷ 3 ∷ []
unfolding run step show_number
registered-requests = refl

registered-has : has (codes "interceptor_4") registered ≡ true
unfolding run step has show_number
registered-has = refl

registered_in_order_example :
    Sorts (run step registrations (create 0)) (run plain_step registrations (create 0))
registered_in_order_example = registered_in_order registrations 0

eject-has_example :
    ((eject (codes "logger") registered).1 ≡ has (codes "logger") registered)
    × (has (codes "logger") (eject (codes "logger") registered).0 ≡ false)
eject-has_example = eject-has (codes "logger") registered
