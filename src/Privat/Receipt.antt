-- ===== src/Privat/Receipt.antt =====
-- services/terminals/privatbank.py: what the answer to a purchase says, `_parse_adv` and
-- `_result_from_purchase`.
use Prim.Native.String.{◌++◌ as ◌<>◌}
use barhandler_manager.Prelude.{
  ℕ, Bool, true, false, not, ◌&&◌, ◌||◌, Option, none, some, List, [], ◌∷◌, String, ◌==◌, string_eq,
  nat_eq, if◌then◌else◌,
}
use barhandler_manager.Prelude.Int.{ℤ, pos}
use barhandler_manager.Prelude.Text.{codes, text}
use barhandler_manager.Prelude.Order.{text_leb}
use barhandler_manager.Json.{Json, Fields, null, bool, num, float, str, arr, obj, end, get, truthy}
use barhandler_manager.Journal.Text.{strip}
use barhandler_manager.Ssi.Wire.{Outcome, ok}
use barhandler_manager.Ssi.Outcome.{Status, approved, declined, cancelled, or_null}
use barhandler_manager.Privat.Outcome.{
  AcquirerResult, text_or_null, checked, fields_or_empty, int_of_text, Python, str_of_value,
  str_or_blank, on_ok,
}

abbrev starts_with_brace : List ℕ → Bool
starts_with_brace [] = false
starts_with_brace (c ∷ s) = c == b'{'

abbrev ends_with_brace : List ℕ → Bool
ends_with_brace [] = false
ends_with_brace (c ∷ []) = c == b'}'
ends_with_brace (c ∷ d ∷ s) = ends_with_brace (d ∷ s)

-- `trnStatus` as a number: none where the text is empty or spells none
unfoldable pub trn_of : String → Option ℤ
unfolding int_of_text
trn_of raw = if raw == "" then none else int_of_text raw

abbrev pub trn_is : ℕ → Option ℤ → Bool
trn_is n (some (pos m)) = m == n
trn_is n _ = false

-- The status behind an answer that is neither a cancellation nor an error
unfoldable pub settled_status : Bool → Option ℤ → Status
settled_status accepted ts =
    if accepted && trn_is 1 ts
    then approved
    else if trn_is 2 ts || trn_is 3 ts
    then declined
    else if trn_is 4 ts
    then cancelled
    else if accepted
    then approved
    else declined

-- The status: whether the answer is an error, its `responseCode` and its `trnStatus`
unfoldable pub status_of : Bool → String → String → Status
unfolding trn_of settled_status
status_of error code trn =
    if code == "1001"
    then cancelled
    else if error && not (code == "0000")
    then declined
    else settled_status (code == "0000") (trn_of trn)

-- `type(response).__name__`
abbrev type_name : Json → String
type_name null = "NoneType"
type_name (bool b) = "bool"
type_name (num z) = "int"
type_name (float s) = "float"
type_name (str s) = "str"
type_name (arr xs) = "list"
type_name (obj fs) = "dict"

given : String → Option String
given s = if s == "" then none else some s

unfoldable pub shapeless : Json → AcquirerResult
shapeless v = record {
  status = declined;
  transaction_uid = null;
  rrn = null;
  auth_code = null;
  cardmask = null;
  paysys = null;
  bank_name = null;
  terminal_id = null;
  pos_entry_mode = null;
  invoice_num = null;
  response_code = none;
  raw_transaction_result = none;
  error_code = none;
  error_message = str ("unexpected response shape: " <> type_name v);
  fiscal_receipt_id = none;
  bank_receipt_id = none;
  fiscal_receipt_text = null;
  terminal_receipt = null;
  vendor_data = end;
}

abbrev pub or_else : Json → Json → Json
or_else v w = if truthy v then v else w

module _ (python : Python) where
  -- `int(rid)`, with the errors that are caught
  unfoldable pub int_of_value : Json → Outcome (Option ℤ)
  unfolding int_of_text
  int_of_value (bool true) = ok (some (pos 1))
  int_of_value (bool false) = ok (some (pos 0))
  int_of_value (num z) = ok (some z)
  int_of_value (float s) = python.int_of_float s
  int_of_value (str s) = ok (int_of_text s)
  int_of_value _ = ok none

  natr_of : Json → Option String
  unfolding str_of_value
  natr_of null = none
  natr_of v = some (str_of_value python v)

  fiscal_ids : Option Json → Outcome (Option String × Option ℤ)
  unfolding natr_of int_of_value
  fiscal_ids (some (obj fs)) =
      on_ok (int_of_value (get fs "rid")) λ rid. ok (natr_of (get fs "natr"), rid)
  fiscal_ids _ = ok (none, none)

  -- `_parse_adv`
  unfoldable pub parse_adv : Json → Outcome (Option String × Option ℤ)
  unfolding fiscal_ids
  parse_adv (str s) =
      let stripped = strip (codes s) in
      if starts_with_brace stripped && ends_with_brace stripped
      then fiscal_ids (python.loads (text stripped))
      else ok (none, none)
  parse_adv _ = ok (none, none)

  unfoldable pub purchase_result :
      Option String → Fields → Fields → Option String × Option ℤ → Outcome AcquirerResult
  unfolding checked status_of str_or_blank given
  purchase_result uid fs params (fiscal_id, bank_id) =
      let response_code = str_or_blank python (get params "responseCode") in
      let trn_status = str_or_blank python (get params "trnStatus") in
      checked (record {
        status = status_of (truthy (get fs "error")) response_code trn_status;
        transaction_uid = text_or_null uid;
        rrn = get params "rrn";
        auth_code = get params "approvalCode";
        cardmask = get params "pan";
        paysys = or_else (get params "paymentSystem") (get params "issuerName");
        bank_name = get params "bankAcquirer";
        terminal_id = get params "terminalId";
        pos_entry_mode = get params "posEntryMode";
        invoice_num = get params "invoiceNumber";
        response_code = given response_code;
        raw_transaction_result = given trn_status;
        error_code = if text_leb "1000" response_code then some response_code else none;
        error_message = or_null (get fs "errorDescription");
        fiscal_receipt_id = fiscal_id;
        bank_receipt_id = bank_id;
        fiscal_receipt_text = or_null (get params "receipt");
        terminal_receipt = null;
        vendor_data = params;
      })

  -- `_result_from_purchase`
  unfoldable pub result_from_purchase : Option String → Json → Outcome AcquirerResult
  unfolding fields_or_empty parse_adv purchase_result shapeless checked
  result_from_purchase uid (obj fs) =
      on_ok (fields_or_empty (get fs "params"))
        λ params. on_ok (parse_adv (get params "adv")) (purchase_result uid fs params)
  result_from_purchase uid v = ok (shapeless v)
