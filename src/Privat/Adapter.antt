-- ===== src/Privat/Adapter.antt =====
-- services/terminals/privatbank.py, `PrivatBankTerminalAdapter`: the calls of the adapter.
use Prim.Native.String.{◌++◌ as ◌<>◌}
use barhandler_manager.Prelude.{
  ℕ, Bool, true, false, not, ◌&&◌, Option, none, some, List, [], ◌∷◌, String, ◌==◌, string_eq,
  if◌then◌else◌,
}
use barhandler_manager.Prelude.Int.{ℤ, pos}
use barhandler_manager.Prelude.Text.{codes, text}
use barhandler_manager.Prelude.Decimal.{is_digit}
use barhandler_manager.Json.{Json, Fields, null, bool, num, str, obj, end, field, get, truthy}
use barhandler_manager.Json.Codec.{Codec}
use barhandler_manager.Registry.Model.{
  Registration, SerialAddress, NetworkAddress, is_given, text_of, or_text,
}
use barhandler_manager.Ssi.Wire.{Outcome, ok, unavailable, crashed}
use barhandler_manager.Ssi.Session.{with_extras}
use barhandler_manager.Ssi.Outcome.{approved, declined}
use barhandler_manager.Privat.Amount.{format_amount}
use barhandler_manager.Privat.Link.{M, pure, raise, lift, ◌>>=◌, ◌>>◌, send_tcp, send_serial}
use barhandler_manager.Privat.Outcome.{
  AcquirerResult, fields_or_empty, Python, str_of_value, str_or_blank, raise_if_error,
}
use barhandler_manager.Privat.Receipt.{result_from_purchase, int_of_value}

-- `ChargeRequest`
pub record ChargeRequest : Type 0 where
  pub amount_kopecks : ℤ
  pub currency : String
  pub merchant_id : Option String
  pub transaction_uid : Option String
  pub discounted_amount_kopecks : Option ℤ
  pub extras : Fields

-- `RefundRequest`, as far as this protocol reads it
pub record RefundRequest : Type 0 where
  pub amount_kopecks : ℤ
  pub merchant_id : Option String
  pub rrn : Option String
  pub extras : Fields

-- `MerchantInfo`
pub record MerchantInfo : Type 0 where
  pub merchant_id : String
  pub merchant_name : Option String

-- A message without parameters, and one with them
abbrev pub bare : String → Json
bare method = obj (field "method" (str method) (field "step" (num (pos 0)) end))

abbrev pub message : String → Fields → Json
message method params =
    obj (field "method" (str method) (field "step" (num (pos 0)) (field "params" (obj params) end)))

abbrev pub service : String → Json
service kind = message "ServiceMessage" (field "msgType" (str kind) end)

abbrev all_digits : List ℕ → Bool
all_digits [] = true
all_digits (c ∷ s) = is_digit c && all_digits s

-- `key.isdigit()`; of the digits, those of ASCII
unfoldable pub is_index : String → Bool
is_index s = not (s == "") && all_digits (codes s)

-- `v is False`
abbrev pub is_false : Json → Bool
is_false (bool false) = true
is_false _ = false

unfoldable pub alive : Outcome Json → Outcome Bool
alive (ok (obj fs)) = ok (is_false (get fs "error"))
alive (ok v) = ok false
alive (unavailable code) = ok false
alive crashed = crashed

forgiven : Outcome Json → Outcome (Unit {0})
forgiven (ok v) = ok tt
forgiven (unavailable code) = ok tt
forgiven crashed = crashed

-- The amount as a JSON text
unfoldable pub amount_text : ℤ → Json
amount_text z = str (text (format_amount z))

unfoldable pub discount_text : Option ℤ → Json
unfolding amount_text
discount_text none = str ""
discount_text (some z) = amount_text z

-- `request.merchant_id or self.registration.default_merchant_id or "0"`
unfoldable pub merchant_of : Option String → Option String → String
merchant_of wanted default = elim (or_text wanted default) [
  | none ↦ "0"
  | some m ↦ if m == "" then "0" else m
]

charge_params : Option String → ChargeRequest → Fields
unfolding amount_text discount_text merchant_of with_extras
charge_params default r =
    with_extras
      (field "amount" (amount_text r.amount_kopecks) (
        field "discount" (discount_text r.discounted_amount_kopecks)
          (field "merchantId" (str (merchant_of r.merchant_id default)) end)))
      r.extras

refund_params : Option String → RefundRequest → String → Json → Fields
unfolding amount_text merchant_of
refund_params default r rrn discount = field "amount" (amount_text r.amount_kopecks) (
    field "discount" discount
      (field "merchantId" (str (merchant_of r.merchant_id default)) (field "rrn" (str rrn) end)))

int_or_crash : Outcome (Option ℤ) → Outcome Json
unfolding amount_text
int_or_crash (ok (some z)) = ok (amount_text z)
int_or_crash (unavailable code) = unavailable code
int_or_crash _ = crashed

abbrev or_empty : Json → Json
or_empty v = if truthy v then v else obj end

module _ (python : Python) (codec : Codec) (reg : Registration) where
  unfoldable pub route : Option SerialAddress → Option NetworkAddress → Bool → ℕ → Json → M Json
  route (some port) net leading timeout v = send_serial codec leading timeout v
  route none (some net) leading timeout v = send_tcp codec leading timeout v
  route none none leading timeout v = raise "not_configured"

  -- `_send`, over the serial port where the terminal has one
  unfoldable pub send : Bool → ℕ → Json → M Json
  unfolding route
  send = route reg.descriptor.serial_address reg.descriptor.address

  -- `ping`
  unfoldable pub ping : M Bool
  unfolding send alive
  ping l = let (r, l') = send true 3000 (bare "PingDevice") l in (alive r, l')

  info_of : Json → M Json
  info_of (obj fs) = pure (or_empty (get fs "params"))
  info_of v = raise "protocol_error"

  -- `get_info`
  unfoldable pub get_info : M Json
  unfolding send raise_if_error info_of
  get_info = do
    response ← send false 5000 (service "identify")
    lift (raise_if_error response)
    info_of response

  name_of : Json → Option String
  unfolding str_of_value
  name_of null = none
  name_of v = some (str_of_value python v)

  -- What `list_merchants` makes of the parameters of the answer
  unfoldable pub merchants_of : Fields → List MerchantInfo
  unfolding is_index name_of
  merchants_of end = []
  merchants_of (field k v fs) =
      let rest = merchants_of fs in
      if not (k == "msgType") && is_index k
      then record { merchant_id = k; merchant_name = name_of v } ∷ rest
      else rest

  -- `response.get("params") or {}`, of a response that `_raise_if_error` let through
  params_of : Json → M Fields
  unfolding fields_or_empty
  params_of (obj fs) = lift (fields_or_empty (get fs "params"))
  params_of v = raise "protocol_error"

  -- `list_merchants`
  unfoldable pub list_merchants : M (List MerchantInfo)
  unfolding send raise_if_error params_of merchants_of
  list_merchants = do
    response ← send false 5000 (service "getMerchantList")
    lift (raise_if_error response)
    params ← params_of response
    pure (merchants_of params)

  unfoldable pub purchase : ChargeRequest → Json
  unfolding charge_params
  purchase r = message "Purchase" (charge_params reg.default_merchant_id r)

  -- `charge`
  unfoldable pub charge : ChargeRequest → M AcquirerResult
  unfolding send purchase result_from_purchase
  charge r = do
    response ← send false 120_000 (purchase r)
    lift (result_from_purchase python r.transaction_uid response)

  -- `cancel`
  unfoldable pub cancel : M (Unit {0})
  unfolding send forgiven
  cancel l = let (r, l') = send false 3000 (service "interrupt") l in (forgiven r, l')

  last_result : Fields → AcquirerResult
  unfolding str_or_blank
  last_result params =
      let last = str_or_blank python (get params "LastResult") in
      record {
        status = if last == "0" then approved else declined;
        transaction_uid = null;
        rrn = null;
        auth_code = null;
        cardmask = null;
        paysys = null;
        bank_name = null;
        terminal_id = null;
        pos_entry_mode = null;
        invoice_num = null;
        response_code = none;
        raw_transaction_result = some ("LastResult=" <> last);
        error_code = none;
        error_message = null;
        fiscal_receipt_id = none;
        bank_receipt_id = none;
        fiscal_receipt_text = null;
        terminal_receipt = null;
        vendor_data = params;
      }

  -- `get_last_result`
  unfoldable pub get_last_result : M AcquirerResult
  unfolding send raise_if_error params_of last_result
  get_last_result = do
    response ← send false 5000 (service "getLastResult")
    lift (raise_if_error response)
    params ← params_of response
    pure (last_result params)

  unfoldable pub refund_discount : Json → Outcome Json
  unfolding int_or_crash int_of_value
  refund_discount null = ok (str "")
  refund_discount v = int_or_crash (int_of_value python v)

  unfoldable pub giving_back : RefundRequest → String → Json → Json
  unfolding refund_params
  giving_back r rrn discount =
      message "Refund" (refund_params reg.default_merchant_id r rrn discount)

  unfoldable pub refund_by : RefundRequest → String → M AcquirerResult
  unfolding send giving_back refund_discount result_from_purchase
  refund_by r rrn = do
    discount ← lift (refund_discount (get r.extras "discounted_amount_kopecks"))
    response ← send false 120_000 (giving_back r rrn discount)
    lift (result_from_purchase python none response)

  -- `refund`
  unfoldable pub refund : RefundRequest → M AcquirerResult
  unfolding refund_by
  refund r =
      if is_given r.rrn then refund_by r (text_of r.rrn) else raise "missing_refund_reference"

  -- `get_receipt_info`
  unfoldable pub get_receipt_info : String → M AcquirerResult
  unfolding send result_from_purchase
  get_receipt_info invoice_number = do
    response ←
        send false 10_000
          (message "GetReceiptInfo" (field "invoiceNumber" (str invoice_number) end))
    lift (result_from_purchase python none response)
