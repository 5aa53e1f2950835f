-- ===== src/Till/Paid.antt =====
-- A payment over PrivatBank, from the request of the till to the row of the journal.
use barhandler_manager.Prelude.{
  ℕ, ◌≡◌, false, refl, ap, sym, ◌∙◌, Option, none, some, List, [], ◌∷◌, String,
}
use barhandler_manager.Json.{Json, str}
use barhandler_manager.Json.Codec.{Codec}
use barhandler_manager.Journal.Rows.{Deed}
use barhandler_manager.Registry.Model.{Registration}
use barhandler_manager.Registry.Ids.{Protocol}
use barhandler_manager.Ssi.Wire.{Outcome, ok, unavailable, crashed}
use barhandler_manager.Ssi.Outcome.{approved}
use barhandler_manager.Privat.Outcome.{AcquirerResult, Python}
use barhandler_manager.Privat.Link.{Link}
use barhandler_manager.Privat.Adapter.{ChargeRequest, send, purchase}
use barhandler_manager.Privat.Adapter as Privat
use barhandler_manager.Privat.Approved.{Accepts, charge-approved}
use barhandler_manager.Till.Request.{Judged, Ended, answered, found, operate}
use barhandler_manager.Till.Rows.{IsApproved, operate_one_row}

text_or_none : Json → Option String
text_or_none (str s) = some s
text_or_none v = none

-- The fields of the adapter's result that the row reads
unfoldable pub judged : AcquirerResult → Judged
unfolding text_or_none
judged r = record {
  status = r.status;
  response_code = r.response_code;
  raw_transaction_result = r.raw_transaction_result;
  error_message = text_or_none r.error_message;
  error_code = r.error_code;
}

-- How a call of the adapter ends, for the request; `text` stands for the words of an error and `code`
-- for the text of its code.
unfoldable pub ended_of : (text : String) → (List ℕ → String) → Outcome AcquirerResult → Ended
unfolding judged
ended_of text code_of (ok r) = answered (judged r)
ended_of text code_of (unavailable code) = Ended.unavailable text (code_of code)
ended_of text code_of crashed = Ended.raised text

approved_result :
    (text : String) (code_of : List ℕ → String) (outcome : Outcome AcquirerResult)
    → IsApproved (ended_of text code_of outcome)
    → (r : AcquirerResult) × (outcome ≡ ok r) × (r.status ≡ approved)
unfolding ended_of judged
approved_result text code_of (ok r) h = (r, refl, h)
approved_result text code_of (unavailable code) h = absurd h
approved_result text code_of crashed h = absurd h

module _ (python : Python) (codec : Codec) (reg : Registration) (request : ChargeRequest) (l : Link)
    (text : String) (code_of : List ℕ → String) where
  -- The payment as the request runs it: the adapter of the registration, over the connection `l`
  unfoldable pub paying : Protocol → Registration → Ended
  unfolding ended_of
  paying protocol reg' = ended_of text code_of (Privat.charge python codec reg' request l).0

  unfoldable pub rows : String → List Deed
  unfolding paying
  rows id = (operate "sale" request.amount_kopecks (found id Protocol.privatbank reg) paying).1

  -- If the row that a payment over PrivatBank leaves says ok, then the terminal answered the purchase,
  -- and its answer accepts the payment.
  pub rows-accepted :
      (id : String) (deed : Deed)
      → rows id ≡ deed ∷ []
      → deed.status ≡ "ok"
      → (response : Json) × ((send python codec reg false 120_000
            (purchase python codec reg request)
            l).0
          ≡ ok response)
        × Accepts python response
  unfolding rows paying
  rows-accepted id deed one says_ok =
      let (deed', e, (_, _, _, ok_row, _, _)) =
        operate_one_row "sale" id request.amount_kopecks Protocol.privatbank reg paying in
      let same : deed ≡ deed' = cc (one, e) in
      let (r, came, good) =
        approved_result text code_of (Privat.charge python codec reg request l).0
          (ok_row.0 (ap (λ (y : Deed). y.status) (sym same) ∙ says_ok)) in
      let (response, sent, accepts) = charge-approved python codec reg request l r came in
      (response, sent, accepts.0 good)
