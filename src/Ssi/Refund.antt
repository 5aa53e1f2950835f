-- ===== src/Ssi/Refund.antt =====
-- `refund`, `cancel` and `ping`.
use barhandler_manager.Prelude.{
  ℕ, Bool, true, false, ◌&&◌, Option, none, some, List, [], String, ◌==◌, string_eq, if◌then◌else◌,
}
use barhandler_manager.Prelude.Int.{pos}
use barhandler_manager.Json.{Json, Fields, bool, num, str, obj, end, field, get, truthy}
use barhandler_manager.Json.Codec.{Codec}
use barhandler_manager.Ssi.Wire.{
  Outcome, ok, unavailable, crashed, M, pure, raise, ◌>>=◌, ◌>>◌, Told, emit_event,
}
use barhandler_manager.Ssi.Outcome.{Result, Status, approved, declined, cancelled}
use barhandler_manager.Ssi.Session.{
  Registration, put, with_extras, request, send, wait_idle, get_last_result, interrupt,
}
use barhandler_manager.Ssi.Charge.{put_text, text_json, resolve_merchant_id, acknowledged}

-- `RefundRequest`; an absent text is empty, since the code only asks whether there is one.
pub record RefundRequest : Type 0 where
  pub amount_kopecks : ℕ
  pub currency : String
  pub merchant_id : String
  pub transaction_uid : String
  pub rrn : String
  pub auth_code : String
  pub invoice_num : String
  pub extras : Fields

-- The three operations that give money back.
pub data Operation : Type 0 where
  refunding voiding partly_voiding : Operation

abbrev pub method_of : Operation → String
method_of refunding = "Refund"
method_of voiding = "Void"
method_of partly_voiding = "PartialVoid"

named_operation : String → Option Operation
named_operation s =
    if s == "Refund"
    then some refunding
    else if s == "Void"
    then some voiding
    else if s == "PartialVoid"
    then some partly_voiding
    else none

-- `request.extras.get("operation") or "Refund"`, if it is one of the three
unfoldable pub operation_of : Json → Option Operation
unfolding named_operation
operation_of (str s) = if s == "" then some refunding else named_operation s
operation_of v = if truthy v then none else some refunding

without_operation : Fields → Fields
without_operation end = end
without_operation (field k v fs) =
    let rest = without_operation fs in if k == "operation" then rest else field k v rest

-- What the operation wants to know of the payment, or the code of the refusal.
unfoldable pub referred : Operation → RefundRequest → Fields → M Fields
unfolding put
referred refunding r params =
    if r.rrn == "" && r.auth_code == ""
    then raise "missing_refund_reference"
    else pure (put_text "authCode" r.auth_code (put_text "rrn" r.rrn params))
referred _ r params =
    if r.invoice_num == ""
    then raise "missing_invoice_num"
    else pure (put params "invoiceNum" (str r.invoice_num))

abbrev pub giving_back : Operation → Fields → Json
giving_back operation params =
    obj (field "method" (str (method_of operation)) (field "params" (obj params) end))

unfoldable pub is_parked : Json → Bool
is_parked (str s) = s == "S08"
is_parked _ = false

-- `with _suppress(Exception)`
abbrev pub suppressed : {A : Type 0} → M A → M (Unit {0})
suppressed m w = let (r, w') = m w in (ok tt, w')

abbrev refund_kind : Status → String
refund_kind approved = "refund_approved"
refund_kind declined = "refund_declined"
refund_kind cancelled = "refund_cancelled"

is_alive : Outcome Json → Outcome Bool
is_alive (ok (obj fs)) = elim (get fs "error") [ bool false ↦ ok true | _ ↦ ok false ]
is_alive (ok v) = ok false
is_alive (unavailable code) = ok false
is_alive crashed = crashed

module _ (codec : Codec) (reg : Registration) where
  -- What every event of a refund says, before `rest`.
  abbrev refund_event : String → RefundRequest → Operation → Fields → List ℕ → Told
  refund_event kind r operation rest raw = record {
    kind = kind;
    payload = field "terminal_id" (str reg.id) (
        field "operation" (str (method_of operation))
          (field "transaction_uid" (text_json r.transaction_uid) rest));
    raw = raw;
  }

  unfoldable pub refund_started : RefundRequest → Operation → String → Told
  refund_started r operation merchant =
      refund_event "refund_started" r operation
        (field "amount_kopecks" (num (pos r.amount_kopecks))
          (field "merchant_id" (str merchant) end))
        []

  unfoldable pub refund_rejected : RefundRequest → Operation → Result → Told
  refund_rejected r operation result =
      refund_event "refund_declined" r operation (field "code" result.error_code end) []

  unfoldable pub refund_stuck : RefundRequest → Operation → Told
  refund_stuck r operation = refund_event "refund_stuck" r operation end []

  unfoldable pub refund_ended : RefundRequest → Operation → Result → Told
  refund_ended r operation result =
      refund_event (refund_kind result.status) r operation
        (field "rrn" result.rrn (field "auth_code" result.auth_code end))
        result.raw_transaction_result

  -- From the acknowledgement on. A terminal that waits for a second step is let go.
  unfoldable pub settled : RefundRequest → Operation → M Result
  unfolding wait_idle get_last_result interrupt is_parked refund_stuck refund_ended
  settled r operation = do
    status ← wait_idle codec reg
    if is_parked status
        then (do
          suppressed (interrupt codec reg)
          emit_event (refund_stuck r operation)
          raise "refund_incomplete")
        else do
          result ← get_last_result codec reg r.transaction_uid
          emit_event (refund_ended r operation result)
          pure result

  unfoldable pub given_back : RefundRequest → Operation → Fields → M Result
  unfolding acknowledged settled refund_rejected
  given_back r operation params = do
    rejected ← acknowledged codec reg "refund_rejected" (giving_back operation params)
    elim rejected [
      | some result ↦ do emit_event (refund_rejected r operation result); pure result
      | none ↦ settled r operation
    ]

  -- `ping`
  unfoldable pub ping : M Bool
  unfolding send is_alive
  ping w = let (r, w') = send codec reg (request "PingDevice") w in (is_alive r, w')

-- `show` is Python's `str()`.
module _ (show : Json → String) (codec : Codec) (reg : Registration) where
  unfoldable pub refund_params : RefundRequest → Fields → Fields
  unfolding put with_extras without_operation
  refund_params r params =
      with_extras
        (put_text "terminalId" reg.default_terminal_id
          (put_text "transactionUid" r.transaction_uid params))
        (without_operation r.extras)

  -- `refund`
  unfoldable pub refund : RefundRequest → M Result
  unfolding resolve_merchant_id operation_of referred refund_params given_back refund_started
  refund r = do
    merchant ← resolve_merchant_id show codec reg r.merchant_id
    elim (operation_of (get r.extras "operation")) [
      | none ↦ raise "bad_refund_operation"
      | some operation ↦ do
        params ← referred operation r (
            field "transAmount" (str (show (num (pos r.amount_kopecks))))
              (field "transCurrency" (str r.currency) (field "merchantId" (str merchant) end)))
        emit_event (refund_started codec reg r operation merchant)
        given_back codec reg r operation (refund_params r params)
    ]
