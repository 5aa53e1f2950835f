-- ===== src/Privat/Outcome.antt =====
-- services/terminals/privatbank.py, how an answer becomes a result or an error: `_parse_adv`,
-- `_result_from_purchase`, `_raise_if_error`.
use barhandler_manager.Prelude.{
  ℕ, zero, suc, false, ◌&&◌, Option, none, some, List, [], ◌∷◌, String, ◌==◌, string_eq, nat_eq,
  if◌then◌else◌,
}
use barhandler_manager.Prelude.Int.{ℤ, pos, negsuc}
use barhandler_manager.Prelude.Text.{codes, text_eq, lower}
use barhandler_manager.Prelude.Decimal.{int_digits}
use barhandler_manager.Json.{Json, Fields, null, str, obj, end, get, truthy}
use barhandler_manager.Journal.Text.{strip}
use barhandler_manager.Ssi.Wire.{Outcome, ok, unavailable, crashed}
use barhandler_manager.Ssi.Outcome.{Status, is_text_or_none, text_or}

-- `AcquirerResult`, but for the date of the payment
pub record AcquirerResult : Type 0 where
  pub status : Status
  pub transaction_uid : Json
  pub rrn : Json
  pub auth_code : Json
  pub cardmask : Json
  pub paysys : Json
  pub bank_name : Json
  pub terminal_id : Json
  pub pos_entry_mode : Json
  pub invoice_num : Json
  pub response_code : Option String
  pub raw_transaction_result : Option String
  pub error_code : Option String
  pub error_message : Json
  pub fiscal_receipt_id : Option String
  pub bank_receipt_id : Option ℤ
  pub fiscal_receipt_text : Json
  pub terminal_receipt : Json
  pub vendor_data : Fields

-- The class checks its fields, and the error is none that the adapter expects.
unfoldable pub checked : AcquirerResult → Outcome AcquirerResult
unfolding is_text_or_none
checked r =
    if is_text_or_none r.transaction_uid
      && is_text_or_none r.rrn
      && is_text_or_none r.auth_code
      && is_text_or_none r.cardmask
      && is_text_or_none r.paysys
      && is_text_or_none r.bank_name
      && is_text_or_none r.terminal_id
      && is_text_or_none r.pos_entry_mode
      && is_text_or_none r.invoice_num
      && is_text_or_none r.error_message
      && is_text_or_none r.fiscal_receipt_text
      && is_text_or_none r.terminal_receipt
    then ok r
    else crashed

-- An optional text as a value
abbrev pub text_or_null : Option String → Json
text_or_null none = null
text_or_null (some s) = str s

-- `params.get` or `.items()` after `response.get("params") or {}`
unfoldable pub fields_or_empty : Json → Outcome Fields
fields_or_empty (obj fs) = ok fs
fields_or_empty v = if truthy v then crashed else ok end

-- `int(text)`; of the digits, those of ASCII
signed : List ℕ → Option ℤ
signed [] = none
signed (c ∷ s) =
    if c == b'-'
    then negated (int_digits false 0 s)
    else if c == b'+'
    then lifted (int_digits false 0 s)
    else lifted (int_digits false 0 (c ∷ s))
  where
    lifted : Option ℕ → Option ℤ
    lifted none = none
    lifted (some n) = some (pos n)

    negated : Option ℕ → Option ℤ
    negated none = none
    negated (some zero) = some (pos 0)
    negated (some (suc n)) = some (negsuc n)

unfoldable pub int_of_text : String → Option ℤ
unfolding signed
int_of_text s = signed (strip (codes s))

-- The parts of Python that an answer meets: `str()` of a value that is no text, `json.loads` of a text,
-- and `int()` of a number that is not whole, which overflows (`crashed`) or gives none.
pub record Python : Type 0 where
  pub shown : Json → String
  pub loads : String → Option Json
  pub int_of_float : String → Outcome (Option ℤ)

module _ (python : Python) where
  -- `str(v)`
  unfoldable pub str_of_value : Json → String
  str_of_value (str s) = s
  str_of_value v = python.shown v

  -- `str(v or "")`
  unfoldable pub str_or_blank : Json → String
  unfolding str_of_value
  str_or_blank v = if truthy v then str_of_value v else ""

abbrev pub on_ok : {A B : Type 0} → Outcome A → (A → Outcome B) → Outcome B
on_ok (ok a) f = f a
on_ok (unavailable code) f = unavailable code
on_ok crashed f = crashed

error_of : Fields → Outcome (List ℕ)
unfolding text_or
error_of params = text_or (get params "responseCode") "error"

raised : Outcome (List ℕ) → Outcome (Unit {0})
raised (ok code) = unavailable (lower code)
raised (unavailable code) = unavailable code
raised crashed = crashed

-- `_raise_if_error`
unfoldable pub raise_if_error : Json → Outcome (Unit {0})
unfolding fields_or_empty error_of raised
raise_if_error (obj fs) =
    if truthy (get fs "error")
    then raised (on_ok (fields_or_empty (get fs "params")) error_of)
    else ok tt
raise_if_error _ = unavailable (codes "protocol_error")
