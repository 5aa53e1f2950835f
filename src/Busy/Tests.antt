-- ===== src/Busy/Tests.antt =====
-- Requests at the guard, and the theorems at concrete inputs.
use barhandler_manager.Prelude.{◌≡◌, ◌⊎◌, refl, true, none, some, List, [], ◌∷◌, string_eq}
use barhandler_manager.Prelude.Int.{pos}
use barhandler_manager.Json.{end, field, num}
use barhandler_manager.Busy.Tracker.{
  Event, begins, ends, idle, run, in_flight, run-in_flight, why_busy,
}
use barhandler_manager.Busy.Routes.{
  critical_label, guard_critical, GoesBy, IsHeld, guard_critical_exact, label_of, worth_reporting,
  has_key,
}
use barhandler_manager.Busy.Refusal.{Device, Offline}

-- A payment and two prints, the first of which has ended.
abbrev shift : List Event
shift = begins "оплата карткою" ∷ begins "друк" ∷ ends 1 ∷ begins "друк" ∷ []

two_prints :
    why_busy (record { active = (0, "друк") ∷ (1, "друк") ∷ []; next_id = 2 }) ≡ some ("друк" ∷ [])
unfolding why_busy
two_prints = refl

run-in_flight_example : (run shift idle).active ≡ in_flight 0 shift
run-in_flight_example = run-in_flight shift

-- The route of a payment in its two shapes.
full_path : critical_label "POST" "/terminal" "/terminal/charge" ≡ some "оплата карткою"
unfolding critical_label label_of
full_path = refl

relative_path : critical_label "POST" "/terminal" "/charge" ≡ some "оплата карткою"
unfolding critical_label label_of
relative_path = refl

guard_critical_exact_example :
    GoesBy "/terminal" "POST" "/charge" idle []
      (guard_critical "/terminal" "POST" "/charge" idle [])
    ⊎ IsHeld "/terminal" "POST" "/charge" idle []
        (guard_critical "/terminal" "POST" "/charge" idle [])
guard_critical_exact_example = guard_critical_exact "/terminal" "POST" "/charge" idle []

new_route_is_reported : (guard_critical "/print" "POST" "/print/new" idle []).warned ≡ true
unfolding guard_critical label_of worth_reporting has_key
new_route_is_reported = refl

abbrev quiet : Offline
quiet = record { extra = some (field "queued" (num (pos 0)) end); active = true; on_disk = none }

abbrev counter : List Device
counter = record { name = "bar"; pending_jobs = 2 } ∷ []
