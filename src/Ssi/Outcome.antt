-- ===== src/Ssi/Outcome.antt =====
-- How an answer of the terminal becomes a result or an error: `_business_error_to_result`,
-- `_raise_if_error`, `_result_from_params`.
use barhandler_manager.Prelude.{
  ℕ, Bool, true, false, ◌&&◌, Option, none, some, List, [], ◌∷◌, String, ◌==◌, string_eq, contains,
  if◌then◌else◌,
}
use barhandler_manager.Prelude.Text.{codes, text_eq, upper, lower, underscored}
use barhandler_manager.Json.{Json, Fields, null, str, obj, end, get, truthy}
use barhandler_manager.Ssi.Wire.{Outcome, ok, unavailable, crashed}

-- `AcquirerResult.status`
pub data Status : Type 0 where
  approved declined cancelled : Status

-- `AcquirerResult`, as far as this protocol fills it; `payment_date` is left out.
pub record Result : Type 0 where
  pub status : Status
  pub transaction_uid : Json
  pub rrn : Json
  pub auth_code : Json
  pub cardmask : Json
  pub paysys : Json
  pub bank_name : Json
  pub terminal_id : Json
  pub pos_entry_mode : Json
  pub invoice_num : Json
  pub response_code : Json
  pub raw_transaction_result : List ℕ
  pub error_code : Json
  pub error_message : Json
  pub error_details : Json
  pub terminal_receipt : Json
  pub vendor_data : Fields

abbrev pub or_null : Json → Json
or_null v = if truthy v then v else null

-- What a field of type `Optional[str]` accepts.
unfoldable pub is_text_or_none : Json → Bool
is_text_or_none null = true
is_text_or_none (str s) = true
is_text_or_none _ = false

-- `AcquirerResult(…)`: the class checks its fields, and the error is none that the adapter expects.
unfoldable pub checked : Result → Outcome Result
unfolding is_text_or_none
checked r =
    if is_text_or_none r.transaction_uid
      && is_text_or_none r.rrn
      && is_text_or_none r.auth_code
      && is_text_or_none r.cardmask
      && is_text_or_none r.paysys
      && is_text_or_none r.bank_name
      && is_text_or_none r.terminal_id
      && is_text_or_none r.pos_entry_mode
      && is_text_or_none r.invoice_num
      && is_text_or_none r.response_code
      && is_text_or_none r.error_code
      && is_text_or_none r.error_message
      && is_text_or_none r.error_details
    then ok r
    else crashed

-- `(v or "")` where a text method follows: another value has no such method.
unfoldable pub text_or : Json → String → Outcome (List ℕ)
text_or (str s) default = ok (if s == "" then codes default else codes s)
text_or v default = if truthy v then crashed else ok (codes default)

-- `_BUSINESS_ERROR_CODES`
unfoldable pub business_status : List ℕ → Option Status
business_status code =
    if code == codes "e10"
    then some declined
    else if code == codes "e11"
    then some declined
    else if code == codes "e12"
    then some cancelled
    else if code == codes "e16"
    then some declined
    else if code == codes "e17"
    then some declined
    else none

fields_of : Json → Fields
fields_of (obj fs) = fs
fields_of _ = end

-- the result that stands for a business error
unfoldable pub rejection : Status → Fields → Result
unfolding fields_of
rejection status fs = record {
  status = status;
  transaction_uid = null;
  rrn = null;
  auth_code = null;
  cardmask = null;
  paysys = null;
  bank_name = null;
  terminal_id = null;
  pos_entry_mode = null;
  invoice_num = null;
  response_code = null;
  raw_transaction_result = [];
  error_code = get fs "errorCode";
  error_message = or_null (get fs "errorDescription");
  error_details = or_null (get (fields_of (get fs "params")) "details");
  terminal_receipt = null;
  vendor_data = end;
}

unfoldable pub as_business : Outcome Result → Outcome (Option Result)
as_business (ok r) = ok (some r)
as_business (unavailable code) = unavailable code
as_business crashed = crashed

unfoldable pub business_of : Outcome (List ℕ) → Fields → Outcome (Option Result)
unfolding rejection business_status checked as_business
business_of (ok code) fs = elim (business_status (lower code)) [
  | none ↦ ok none
  | some status ↦ as_business (checked (rejection status fs))
]
business_of (unavailable code) fs = unavailable code
business_of crashed fs = crashed

-- `_business_error_to_result`
unfoldable pub business_error_to_result : Json → Outcome (Option Result)
unfolding business_of text_or
business_error_to_result (obj fs) =
    if truthy (get fs "error") then business_of (text_or (get fs "errorCode") "") fs else ok none
business_error_to_result _ = ok none

unfoldable pub error_code_of : Outcome (List ℕ) → Outcome (Unit {0})
error_code_of (ok code) = unavailable (lower code)
error_code_of (unavailable code) = unavailable code
error_code_of crashed = crashed

-- `_raise_if_error`
unfoldable pub raise_if_error : String → Json → Outcome (Unit {0})
unfolding error_code_of text_or
raise_if_error default (obj fs) =
    if truthy (get fs "error") then error_code_of (text_or (get fs "errorCode") default) else ok tt
raise_if_error default _ = unavailable (codes "protocol_error")

-- `_OK_RESULTS` and `_CANCELLED_RESULTS`
abbrev pub ok_results : List (List ℕ)
ok_results =
    codes "OK"
    ∷ codes "APPROVED"
    ∷ codes "APPROVED_ONLINE"
    ∷ codes "APPROVED_OFFLINE"
    ∷ codes "COMPLETED"
    ∷ []

abbrev pub cancelled_results : List (List ℕ)
cancelled_results = codes "CANCELLED" ∷ codes "CANCELLED_BEFORE_START" ∷ []

unfoldable pub status_of : List ℕ → Status
status_of raw =
    if contains ok_results raw
    then approved
    else if contains cancelled_results raw
    then cancelled
    else declined

unfoldable pub result_of : Outcome (List ℕ) → Fields → Outcome Result
unfolding status_of checked
result_of (ok text) params =
    let raw = underscored (upper text) in
    checked (record {
      status = status_of raw;
      transaction_uid = get params "transactionUid";
      rrn = get params "rrn";
      auth_code = get params "authCode";
      cardmask = get params "pan";
      paysys = get params "binName";
      bank_name = get params "bankName";
      terminal_id = get params "terminalId";
      pos_entry_mode = get params "posEntryMode";
      invoice_num = get params "invoiceNum";
      response_code = get params "responseCode";
      raw_transaction_result = raw;
      error_code = or_null (get params "errorCode");
      error_message = or_null (get params "errorDescription");
      error_details = or_null (get params "errorDetails");
      terminal_receipt = null;
      vendor_data = params;
    })
result_of (unavailable code) params = unavailable code
result_of crashed params = crashed

-- `_result_from_params`
unfoldable pub result_from_params : Fields → Outcome Result
unfolding result_of text_or
result_from_params params = result_of (text_or (get params "transactionResult") "") params
