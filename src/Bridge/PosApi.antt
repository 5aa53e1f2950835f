-- ===== src/Bridge/PosApi.antt =====
-- services/terminals/posapi.py, `PosApiTerminalAdapter`: messages of one line each.
use barhandler_manager.Prelude.{
  ℕ, Bool, ◌&&◌, Option, none, some, List, String, ◌==◌, string_eq, if◌then◌else◌,
}
use barhandler_manager.Prelude.Int.{ℤ}
use barhandler_manager.Json.{Fields, null, num, str, end, field, get, truthy}
use barhandler_manager.Json.Codec.{Codec}
use barhandler_manager.Registry.Model.{Descriptor, Kind, Registration, is_given, text_of}
use barhandler_manager.Ssi.Wire.{Outcome}
use barhandler_manager.Ssi.Session.{put, with_extras}
use barhandler_manager.Ssi.Outcome.{Status, approved, declined, cancelled}
use barhandler_manager.Privat.Link.{M, pure, lift, ◌>>=◌, ◌>>◌}
use barhandler_manager.Privat.Outcome.{AcquirerResult, Python, str_or_blank, text_or_null, checked}
use barhandler_manager.Privat.Receipt.{or_else}
use barhandler_manager.Privat.Adapter.{ChargeRequest}
use barhandler_manager.Bridge.Stream.{read_line, line}
use barhandler_manager.Bridge.Exchange.{Framing, exchange, send_to}
use barhandler_manager.Bridge.Banks.{
  given, error_code_of, raise_if_other, alive, forgiven, reads, Merchant, merchants_in,
  merchant_text, text_if_given, Identity, probed,
}

-- `encode_frame` and `read_frame`
abbrev pub framing : Framing
framing = record { encode = line; read_frame = read_line }

-- A message without parameters
abbrev bare : String → Fields
bare name = field "function" (str name) end

-- Who the terminal says it is
unfoldable identity_of : Fields → Identity
identity_of info = record { model = get info "model"; serial = get info "serial" }

module _ (python : Python) where
  -- `_raise_if_error`
  unfoldable pub raise_if_error : Fields → Outcome (Unit {0})
  unfolding str_or_blank raise_if_other
  raise_if_error response = raise_if_other "00" (str_or_blank python (get response "responseCode"))

  merchant : Fields → Merchant
  unfolding str_or_blank text_if_given
  merchant m = record {
    merchant_id = str_or_blank python (get m "merchantId");
    terminal_id = text_if_given python (get m "terminalId");
    merchant_name = get m "name";
  }

  -- How a payment ended, by its code
  unfoldable pub status : Bool → String → Status
  status accepted code =
      if code == "UC" then cancelled else if accepted && (code == "00") then approved else declined

  result : Option String → Fields → Status → String → AcquirerResult
  unfolding given error_code_of
  result uid response status code = record {
    status = status;
    transaction_uid = if is_given uid then text_or_null uid else get response "reference";
    rrn = get response "rrn";
    auth_code = get response "authCode";
    cardmask = get response "pan";
    paysys = get response "cardScheme";
    bank_name = or_else (get response "bankName") (get response "acquirer");
    terminal_id = get response "terminalId";
    pos_entry_mode = get response "entryMode";
    invoice_num = or_else (get response "invoiceNumber") (get response "transactionId");
    response_code = given code;
    raw_transaction_result = given code;
    error_code = error_code_of status code;
    error_message = or_else (get response "responseText") (get response "message");
    fiscal_receipt_id = none;
    bank_receipt_id = none;
    fiscal_receipt_text = null;
    terminal_receipt = get response "receipt";
    vendor_data = response;
  }

  -- `_result_from_purchase`
  unfoldable pub result_from_purchase : Option String → Fields → Outcome AcquirerResult
  unfolding str_or_blank status result checked
  result_from_purchase uid response =
      let code = str_or_blank python (get response "responseCode") in
      checked (result uid response (status (truthy (get response "approved")) code) code)

-- What `charge` asks for
unfoldable pub purchase : Option String → ChargeRequest → Fields
unfolding merchant_text with_extras put
purchase default r =
    let params : Fields = field "function" (str "PURCHASE") (
      field "amount" (num r.amount_kopecks) (
        field "currency" (str r.currency)
          (field "merchantId" (str (merchant_text r.merchant_id default)) end))) in
    with_extras (with_discount r.discounted_amount_kopecks (with_reference params)) r.extras
  where
    with_discount : Option ℤ → Fields → Fields
    with_discount none params = params
    with_discount (some z) params = put params "discountAmount" (num z)

    with_reference : Fields → Fields
    with_reference params =
        if is_given r.transaction_uid
        then put params "reference" (str (text_of r.transaction_uid))
        else params

module _ (python : Python) (codec : Codec) (reg : Registration) where
  -- `_send`
  unfoldable pub send : ℕ → Fields → M Fields
  unfolding send_to
  send = send_to codec framing reg.descriptor.address

  -- `ping`
  unfoldable pub ping : M Bool
  unfolding send alive reads
  ping l =
      let (r, l') = send 3000 (bare "ECHO") l in (alive (λ fs. reads fs "responseCode" "00") r, l')

  -- `get_info`
  unfoldable pub get_info : M Fields
  unfolding send raise_if_error
  get_info = do
    response ← send 5000 (bare "GET_INFO")
    lift (raise_if_error python response)
    pure response

  -- `list_merchants`
  unfoldable pub list_merchants : M (List Merchant)
  unfolding send raise_if_error merchant merchants_in
  list_merchants = do
    response ← send 5000 (bare "GET_MERCHANTS")
    lift (raise_if_error python response)
    lift (merchants_in (merchant python) (get response "merchants"))

  -- `charge`
  unfoldable pub charge : ChargeRequest → M AcquirerResult
  unfolding send purchase result_from_purchase
  charge r = do
    response ← send 120_000 (purchase reg.default_merchant_id r)
    lift (result_from_purchase python r.transaction_uid response)

  -- `cancel`
  unfoldable pub cancel : M (Unit {0})
  unfolding send forgiven
  cancel l = let (r, l') = send 3000 (bare "ABORT") l in (forgiven r, l')

  -- `get_last_result`
  unfoldable pub get_last_result : Option String → M AcquirerResult
  unfolding send result_from_purchase
  get_last_result uid = do
    response ← send 5000 (
        if is_given uid
        then field "function" (str "GET_LAST") (field "reference" (str (text_of uid)) end)
        else bare "GET_LAST")
    lift (result_from_purchase python uid response)

module _ (digest : String → String) (show : ℕ → String) (codec : Codec) (host : String)
    (port : ℕ) where
  at : ℕ → Fields → M Fields
  unfolding exchange
  at = exchange codec framing

  -- `probe`
  unfoldable pub probe : M (Option Descriptor)
  unfolding at probed reads identity_of
  probe =
      probed digest show host port Kind.generic_posapi "Printec PosAPI" (at 2500 (bare "ECHO"))
        (λ fs. reads fs "function" "ECHO" && reads fs "responseCode" "00")
        (at 5000 (bare "GET_INFO")) identity_of
