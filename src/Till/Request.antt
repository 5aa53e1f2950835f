-- ===== src/Till/Request.antt =====
-- routes/terminal.py: which terminal a request is for, and what a payment or a refund answers and
-- records, whatever its adapter does.
use Prim.Native.String.{◌++◌ as ◌<>◌}
use barhandler_manager.Prelude.{
  ℕ, Bool, true, false, ◌||◌, Option, none, some, List, [], ◌∷◌, ◌++◌, contains, String, string_eq,
  ◌==◌, if◌then◌else◌,
}
use barhandler_manager.Prelude.Int.{ℤ}
use barhandler_manager.Journal.Rows.{Deed}
use barhandler_manager.Registry.Model.{
  Registry, Registration, Descriptor, Answer, ok, is_given, text_of,
}
use barhandler_manager.Registry.Ids.{adapter_for, first, Protocol, all_registrations}
use barhandler_manager.Ssi.Outcome.{Status, approved, declined, cancelled}

-- `HTTPException`: the status and the code of its detail
pub record Problem : Type 0 where
  pub http_status : ℕ
  pub code : String

-- The adapter of a terminal, under the id that the request or the registry named, or a refusal
pub data Resolved : Type 0 where
  found : String → Protocol → Registration → Resolved
  no_way : Problem → Resolved

resolved_by : String → Answer (Protocol × Registration) → Resolved
resolved_by id (ok (protocol, reg)) = found id protocol reg
resolved_by id _ = no_way (record { http_status = 404; code = "unknown_terminal" })

only_one : Registry → Option Registration → Resolved
unfolding resolved_by adapter_for
only_one r none = no_way (record { http_status = 503; code = "no_terminal" })
only_one r (some reg) = resolved_by reg.descriptor.id (adapter_for reg.descriptor.id r)

-- `_resolve`
unfoldable pub resolve : Registry → Option String → Resolved
unfolding resolved_by only_one adapter_for first
resolve r none = only_one r (first r)
resolve r (some id) = resolved_by id (adapter_for id r)

-- What a row of the journal reads of an `AcquirerResult`
pub record Judged : Type 0 where
  pub status : Status
  pub response_code : Option String
  pub raw_transaction_result : Option String
  pub error_message : Option String
  pub error_code : Option String

-- How the call of the adapter ends: with a result, with a `TerminalUnavailable` (its text and its
-- code), with another exception (its type and text), with an `HTTPException`, or by the cancellation of
-- the request.
pub data Ended : Type 0 where
  answered : Judged → Ended
  unavailable : String → String → Ended
  raised : String → Ended
  rejected : Problem → Ended
  given_up : Ended

-- What the request answers; a cancelled one answers nothing.
pub data Response : Type 0 where
  result : Judged → Response
  problem : Problem → Response
  nothing : Response

-- `_Operation`, with the rows that it has written
pub record Operation : Type 0 where
  pub terminal_id : String
  pub action : String
  pub amount_kopecks : ℤ
  pub recorded : Bool
  pub rows : List Deed

-- `work_journal.record_terminal(…)`
abbrev pub record_terminal : String → Option String → Operation → Operation
record_terminal status detail o = record o {
  rows =
      o.rows
      ++ record {
        device_kind = "terminal";
        device_id = o.terminal_id;
        action = o.action;
        status = status;
        amount_kopecks = some o.amount_kopecks;
        detail = detail;
        at = none;
      }
        ∷ [];
}

-- Whether the terminal itself spoke
abbrev pub spoke : Judged → Bool
spoke j = is_given j.response_code || is_given j.raw_transaction_result

unfoldable pub row_status : Status → Bool → String
row_status approved heard = "ok"
row_status cancelled heard = "cancelled"
row_status declined true = "declined"
row_status declined false = "failed"

-- `" · ".join(parts)`
abbrev joined : Option String → Option String → String
joined m c =
    if is_given m
    then (if is_given c then text_of m <> (" · " <> text_of c) else text_of m)
    else if is_given c
    then text_of c
    else ""

abbrev silent : Status → Option String
silent approved = none
silent declined = some "declined"
silent cancelled = some "cancelled"

unfoldable pub detail_of : Judged → Option String
detail_of j =
    let parts = joined j.error_message j.error_code in
    if parts == "" then silent j.status else some parts

-- `_Operation.done`, `_Operation.failed` and `_Operation.unfinished`
unfoldable pub done : Judged → Operation → Operation
unfolding row_status detail_of
done j o = record (record_terminal (row_status j.status (spoke j)) (detail_of j) o) {
  recorded = true;
}

unfoldable pub failed : String → Operation → Operation
failed error o = record (record_terminal "failed" (some error) o) { recorded = true }

unfoldable pub unfinished : Operation → Operation
unfinished o =
    if o.recorded
    then o
    else record_terminal "unknown" (some "the request ended without an answer from the terminal") o

-- The body of the request, before its `finally`
unfoldable pub attempted : Ended → Operation → Response × Operation
unfolding done failed
attempted (answered j) o = (result j, done j o)
attempted (unavailable text code) o = (
  problem (record { http_status = 503; code = code }),
  failed (if text == "" then code else text) o,
)
attempted (raised text) o =
    (problem (record { http_status = 500; code = "internal_error" }), failed text o)
attempted (rejected p) o = (problem p, o)
attempted given_up o = (nothing, o)

abbrev pub begun : String → String → ℤ → Operation
begun id action amount = record {
  terminal_id = id;
  action = action;
  amount_kopecks = amount;
  recorded = false;
  rows = [];
}

-- `charge` and `refund`, of the given action: what is answered, and the rows that are written
unfoldable pub operate :
    String → ℤ → Resolved → (Protocol → Registration → Ended) → Response × List Deed
unfolding attempted unfinished
operate action amount (no_way p) run = (problem p, [])
operate action amount (found id protocol reg) run =
    let (response, o) = attempted (run protocol reg) (begun id action amount) in
    (response, (unfinished o).rows)

unfoldable pub charge :
    Registry → Option String → ℤ → (Protocol → Registration → Ended) → Response × List Deed
unfolding operate resolve
charge r terminal_id amount run = operate "sale" amount (resolve r terminal_id) run

unfoldable pub refund :
    Registry → Option String → ℤ → (Protocol → Registration → Ended) → Response × List Deed
unfolding operate resolve
refund r terminal_id amount run = operate "refund" amount (resolve r terminal_id) run

ids_of : List Descriptor → List String
ids_of [] = []
ids_of (d ∷ ds) = d.id ∷ ids_of ds

manual : List String → List Registration → List Descriptor
manual seen [] = []
manual seen (reg ∷ regs) =
    let rest = manual seen regs in
    if contains seen reg.descriptor.id then rest else reg.descriptor ∷ rest

-- `discover`, the list that it answers: what the sweep found, and what is registered besides
unfoldable pub discovered : List Descriptor → Registry → List Descriptor
unfolding ids_of manual all_registrations
discovered descriptors r = descriptors ++ manual (ids_of descriptors) (all_registrations r)
