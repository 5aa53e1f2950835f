-- ===== src/Till/Tests.antt =====
-- Requests of the till, and the theorems at concrete inputs.
use barhandler_manager.Prelude.{◌≡◌, refl, ap, false, none, some, [], ◌∷◌}
use barhandler_manager.Prelude.Dict.{values}
use barhandler_manager.Prelude.Int.{pos}
use barhandler_manager.Json.{Json}
use barhandler_manager.Journal.Rows.{Deed}
use barhandler_manager.Registry.Model.{empty}
use barhandler_manager.Registry.Ids.{Protocol}
use barhandler_manager.Ssi.Wire.{ok}
use barhandler_manager.Privat.Adapter.{send, purchase}
use barhandler_manager.Privat.Approved.{Accepts}
use barhandler_manager.Privat.Tests.{toy, plain, registered, link, coffee, coffee-paid}
use barhandler_manager.Till.Request.{
  given_up, found, operate, attempted, done, unfinished, row_status, detail_of, charge, problem,
}
use barhandler_manager.Till.Rows.{Tells, operate_one_row}
use barhandler_manager.Till.Paid.{rows, rows-accepted, paying, ended_of, judged}

-- A till without a terminal is refused, and leaves no row.
no_terminal :
    charge (empty []) none (pos 8505) (λ protocol reg. given_up)
    ≡ (problem (record { http_status = 503; code = "no_terminal" }), [])
unfolding charge values
no_terminal = refl

operate_one_row_example :
    (deed : Deed) × ((operate "sale"
        (pos 8505)
        (found "t1" Protocol.privatbank registered)
        (λ protocol reg. given_up)).1
      ≡ deed ∷ [])
    × Tells "sale" "t1" (pos 8505) given_up deed
operate_one_row_example =
    operate_one_row "sale" "t1" (pos 8505) Protocol.privatbank registered (λ protocol reg. given_up)

abbrev sold : Deed
sold = record {
  device_kind = "terminal";
  device_id = "t1";
  action = "sale";
  status = "ok";
  amount_kopecks = some (pos 8505);
  detail = none;
  at = none;
}

one_row : rows plain toy registered coffee link "" (λ code. "") "t1" ≡ sold ∷ []
unfolding rows paying operate attempted done unfinished ended_of judged row_status detail_of
one_row =
    ap
      (λ o.
        (operate "sale" (pos 8505) (found "t1" Protocol.privatbank registered)
          (λ protocol reg. ended_of "" (λ code. "") o)).1)
      coffee-paid

rows-accepted_example :
    (response : Json) × ((send plain toy registered false 120_000
        (purchase plain toy registered coffee)
        link).0
      ≡ ok response)
    × Accepts plain response
rows-accepted_example =
    rows-accepted plain toy registered coffee link "" (λ code. "") "t1" sold one_row refl
