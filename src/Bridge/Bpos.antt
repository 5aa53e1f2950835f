-- ===== src/Bridge/Bpos.antt =====
-- services/terminals/bpos.py, `BposTerminalAdapter`: messages behind their length; an amount is a
-- decimal text, `_amount_str`, which `amount_text` is too.
use barhandler_manager.Prelude.{
  ℕ, Bool, ◌&&◌, Option, none, some, List, String, ◌==◌, string_eq, if◌then◌else◌,
}
use barhandler_manager.Prelude.Int.{ℤ}
use barhandler_manager.Json.{Fields, null, str, end, field, get}
use barhandler_manager.Json.Codec.{Codec}
use barhandler_manager.Registry.Model.{Descriptor, Kind, Registration}
use barhandler_manager.Ssi.Wire.{Outcome}
use barhandler_manager.Ssi.Session.{put, has_field, with_extras}
use barhandler_manager.Ssi.Outcome.{Status, approved, declined, cancelled}
use barhandler_manager.Privat.Link.{M, pure, lift, ◌>>=◌, ◌>>◌}
use barhandler_manager.Privat.Outcome.{AcquirerResult, Python, str_or_blank, text_or_null, checked}
use barhandler_manager.Privat.Receipt.{or_else}
use barhandler_manager.Privat.Adapter.{ChargeRequest, amount_text}
use barhandler_manager.Bridge.Stream.{read_sized, sized}
use barhandler_manager.Bridge.Exchange.{Framing, exchange, send_to}
use barhandler_manager.Bridge.Banks.{
  given, error_code_of, raise_if_other, alive, forgiven, reads, Merchant, merchants_in,
  merchant_text, text_if_given, Identity, probed,
}

-- `encode_frame` and `read_frame`
abbrev pub framing : Framing
framing = record { encode = sized; read_frame = read_sized }

-- A message without parameters
abbrev bare : String → Fields
bare name = field "cmd" (str name) end

-- Who the terminal says it is
unfoldable identity_of : Fields → Identity
identity_of info = record {
  model = get info "model";
  serial = or_else (get info "sn") (get info "serial");
}

module _ (python : Python) where
  -- `_raise_if_error`
  unfoldable pub raise_if_error : Fields → Outcome (Unit {0})
  unfolding str_or_blank raise_if_other
  raise_if_error response = raise_if_other "0" (str_or_blank python (get response "result"))

  merchant : Fields → Merchant
  unfolding str_or_blank text_if_given
  merchant m = record {
    merchant_id = str_or_blank python (or_else (get m "merchantId") (get m "mid"));
    terminal_id = text_if_given python (get m "terminalId");
    merchant_name = get m "name";
  }

  -- How a payment ended, by its code
  unfoldable pub status : String → Status
  status code = if code == "4" then cancelled else if code == "0" then approved else declined

  result : Option String → Fields → Status → String → AcquirerResult
  unfolding given error_code_of str_or_blank
  result uid response status code = record {
    status = status;
    transaction_uid = text_or_null uid;
    rrn = get response "rrn";
    auth_code = or_else (get response "authCode") (get response "auth");
    cardmask = get response "pan";
    paysys = or_else (get response "cardName") (get response "scheme");
    bank_name = get response "bankName";
    terminal_id = get response "terminalId";
    pos_entry_mode = get response "entryMode";
    invoice_num = or_else (get response "invoice") (get response "invoiceNumber");
    response_code = given (str_or_blank python (get response "responseCode"));
    raw_transaction_result = given code;
    error_code = error_code_of status code;
    error_message = or_else (get response "message") (get response "errorText");
    fiscal_receipt_id = none;
    bank_receipt_id = none;
    fiscal_receipt_text = null;
    terminal_receipt = get response "receipt";
    vendor_data = response;
  }

  -- `_result_from_purchase`
  unfoldable pub result_from_purchase : Option String → Fields → Outcome AcquirerResult
  unfolding str_or_blank status result checked
  result_from_purchase uid response =
      let code = str_or_blank python (get response "result") in
      checked (result uid response (status code) code)

-- What `charge` asks for
unfoldable pub purchase : Option String → ChargeRequest → Fields
unfolding merchant_text with_extras put amount_text
purchase default r =
    let params : Fields = field "cmd" (str "1") (
      field "amount" (amount_text r.amount_kopecks) (
        field "currency" (str r.currency)
          (field "merchantId" (str (merchant_text r.merchant_id default)) end))) in
    with_extras (with_discount r.discounted_amount_kopecks params) r.extras
  where
    with_discount : Option ℤ → Fields → Fields
    with_discount none params = params
    with_discount (some z) params = put params "discount" (amount_text z)

module _ (python : Python) (codec : Codec) (reg : Registration) where
  -- `_send`
  unfoldable pub send : ℕ → Fields → M Fields
  unfolding send_to
  send = send_to codec framing reg.descriptor.address

  -- `ping`
  unfoldable pub ping : M Bool
  unfolding send alive has_field
  ping l = let (r, l') = send 3000 (bare "0") l in (alive (λ fs. has_field fs "result") r, l')

  -- `get_info`
  unfoldable pub get_info : M Fields
  unfolding send raise_if_error
  get_info = do
    response ← send 5000 (bare "90")
    lift (raise_if_error python response)
    pure response

  -- `list_merchants`
  unfoldable pub list_merchants : M (List Merchant)
  unfolding send raise_if_error merchant merchants_in
  list_merchants = do
    response ← send 5000 (bare "80")
    lift (raise_if_error python response)
    lift (merchants_in (merchant python) (get response "merchants"))

  -- `charge`
  unfoldable pub charge : ChargeRequest → M AcquirerResult
  unfolding send purchase result_from_purchase
  charge r = do
    response ← send 120_000 (purchase reg.default_merchant_id r)
    lift (result_from_purchase python r.transaction_uid response)

  -- `cancel`
  unfoldable pub cancel : M (Unit {0})
  unfolding send forgiven
  cancel l = let (r, l') = send 3000 (bare "9") l in (forgiven r, l')

  -- `get_last_result`
  unfoldable pub get_last_result : Option String → M AcquirerResult
  unfolding send result_from_purchase
  get_last_result uid = do
    response ← send 5000 (bare "95")
    lift (result_from_purchase python uid response)

module _ (digest : String → String) (show : ℕ → String) (codec : Codec) (host : String)
    (port : ℕ) where
  at : ℕ → Fields → M Fields
  unfolding exchange
  at = exchange codec framing

  -- `probe`
  unfoldable pub probe : M (Option Descriptor)
  unfolding at probed reads has_field identity_of
  probe =
      probed digest show host port Kind.generic_bpos "BPOS terminal" (at 2500 (bare "0"))
        (λ fs. reads fs "cmd" "0" && has_field fs "result") (at 5000 (bare "90")) identity_of
