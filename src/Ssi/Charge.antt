-- ===== src/Ssi/Charge.antt =====
-- `charge`, and the merchant that it charges for.
use barhandler_manager.Prelude.{
  ℕ, Bool, not, ◌||◌, Option, none, some, List, [], ◌∷◌, String, ◌==◌, string_eq, contains,
  if◌then◌else◌,
}
use barhandler_manager.Prelude.Text.{codes, text_eq}
use barhandler_manager.Prelude.Int.{ℤ, pos}
use barhandler_manager.Json.{
  Json, Items, Fields, null, num, str, arr, obj, nil, cons, end, field, get, truthy,
}
use barhandler_manager.Json.Codec.{Codec}
use barhandler_manager.Ssi.Wire.{
  Outcome, ok, unavailable, crashed, M, pure, raise, crash, ◌>>=◌, ◌>>◌, sleep, Told, emit_event,
}
use barhandler_manager.Ssi.Outcome.{
  Result, Status, approved, declined, cancelled, business_error_to_result, raise_if_error,
}
use barhandler_manager.Ssi.Session.{
  Registration, lift, put, with_extras, dict, dict_or_empty, request, send, wait_idle,
  get_last_result,
}

-- `ChargeRequest`; an absent text is empty, since the code only asks whether there is one.
pub record ChargeRequest : Type 0 where
  pub amount_kopecks : ℕ
  pub currency : String
  pub merchant_id : String
  pub transaction_uid : String
  pub discounted_amount_kopecks : Option ℤ
  pub extras : Fields

-- `params[k] = v`, where the code asks first whether there is a value
abbrev pub put_text : String → String → Fields → Fields
put_text k s params = if s == "" then params else put params k (str s)

-- The list of the merchants with an identifier, each once: `dict.fromkeys(…)`.
unfoldable pub distinct_ids : List String → List String → List String
distinct_ids seen [] = seen
distinct_ids seen (m ∷ ms) =
    let other = contains seen m || m == "" in distinct_ids (if other then seen else m ∷ seen) ms

-- `except Exception`, after `except TerminalUnavailable: raise`
unfoldable pub lookup_failed : Outcome (List String) → Outcome (List String)
lookup_failed crashed = unavailable (codes "merchant_lookup_failed")
lookup_failed r = r

unfoldable pub only_one : List String → M String
unfolding sleep
only_one (m ∷ []) = do sleep 300; pure m
only_one _ = raise "missing_merchant"

abbrev pub purchase : String → Fields → Json
purchase step params =
    obj
      (field "method" (str "Purchase") (field "step" (str step) (field "params" (obj params) end)))

-- `receipt_text`, out of the `params` of the answer: where there is one, the result takes it.
unfoldable pub slip_in : Json → Result → Result
slip_in (obj params) result =
    if truthy (get params "receipt")
    then record result { terminal_receipt = get params "receipt" }
    else result
slip_in _ result = result

-- The slip, with `except Exception`: whatever goes wrong, the result stays as it is.
unfoldable pub slip_of : Outcome Json → Result → Result
unfolding slip_in
slip_of (ok (obj fs)) result = slip_in (get fs "params") result
slip_of _ result = result

-- A text that may be absent, as a keyword of an event.
abbrev pub text_json : String → Json
text_json s = if s == "" then null else str s

abbrev charge_kind : Status → String
charge_kind approved = "charge_approved"
charge_kind declined = "charge_declined"
charge_kind cancelled = "charge_cancelled"

-- Whether the purchase wants its second step.
unfoldable pub needs_step_two : Json → Result → Bool
needs_step_two (str s) first =
    s == "S08" || first.raw_transaction_result == codes "FIRST_STEP_COMPLETED"
needs_step_two _ first = first.raw_transaction_result == codes "FIRST_STEP_COMPLETED"

module _ (codec : Codec) (reg : Registration) where
  -- A step of the purchase: sent, and refused as a result or as an error, or acknowledged.
  unfoldable pub acknowledged : String → Json → M (Option Result)
  unfolding send business_error_to_result raise_if_error
  acknowledged default_code message = do
    ack ← send codec reg message
    business ← lift (business_error_to_result ack)
    elim business [
      | some result ↦ pure (some result)
      | none ↦ do lift (raise_if_error default_code ack); pure none
    ]

  unfoldable pub with_slip : Result → M Result
  unfolding slip_of send
  with_slip result w = elim result.status [
    | approved ↦
        let (r, w') = send codec reg (request "GetLastReceipt") w in (ok (slip_of r result), w')
    | _ ↦ (ok result, w)
  ]

  unfoldable pub charge_ended : ChargeRequest → Result → Told
  charge_ended r result = record {
    kind = charge_kind result.status;
    payload = field "terminal_id" (str reg.id) (
        field "rrn" result.rrn (
          field "auth_code" result.auth_code
            (field "transaction_uid" (text_json r.transaction_uid) end)));
    raw = result.raw_transaction_result;
  }

  unfoldable pub charge_started : ChargeRequest → String → Told
  charge_started r merchant = record {
    kind = "charge_started";
    payload = field "terminal_id" (str reg.id) (
        field "amount_kopecks" (num (pos r.amount_kopecks)) (
          field "currency" (str r.currency) (
            field "merchant_id" (str merchant)
              (field "transaction_uid" (text_json r.transaction_uid) end))));
    raw = [];
  }

  unfoldable pub second_step : ChargeRequest → Fields → M Result
  unfolding acknowledged wait_idle get_last_result with_slip charge_ended
  second_step r params = do
    rejected ← acknowledged "charge_step2_rejected" (purchase "2" params)
    elim rejected [
      | some result ↦ pure result
      | none ↦ do
        wait_idle codec reg
        result ← get_last_result codec reg r.transaction_uid
        emit_event (charge_ended r result)
        with_slip result
    ]

-- `show` is Python's `str()`.
module _ (show : Json → String) (codec : Codec) (reg : Registration) where
  merchant_ids : Items → List String
  merchant_ids nil = []
  merchant_ids (cons (obj fs) xs) =
      (if truthy (get fs "merchantId") then show (get fs "merchantId") else "") ∷ merchant_ids xs
  merchant_ids (cons _ xs) = merchant_ids xs

  -- `for entry in (… or [])`; a text is walked by its characters, none of which is a dictionary.
  unfoldable pub listed : Json → M (List String)
  unfolding merchant_ids
  listed (arr xs) = pure (merchant_ids xs)
  listed (str s) = pure []
  listed (obj fs) = pure []
  listed v = if truthy v then crash else pure []

  -- `list_merchants`
  unfoldable pub list_merchants : M (List String)
  unfolding send raise_if_error dict dict_or_empty listed
  list_merchants = do
    response ← send codec reg (request "GetMerchantListDetailed")
    lift (raise_if_error "error" response)
    fs ← dict response
    params ← dict_or_empty (get fs "params")
    listed (get params "merchantList")

  -- `_resolve_merchant_id`
  unfoldable pub resolve_merchant_id : String → M String
  unfolding list_merchants lookup_failed only_one distinct_ids
  resolve_merchant_id requested =
      if not (requested == "")
      then pure requested
      else if not (reg.default_merchant_id == "")
      then pure reg.default_merchant_id
      else do
        merchants ← λ w. let (r, w') = list_merchants w in (lookup_failed r, w')
        only_one (distinct_ids [] merchants)

  -- `params["discountedAmount"] = str(…)`, where there is one
  put_amount : Option ℤ → Fields → Fields
  unfolding put
  put_amount none params = params
  put_amount (some z) params = put params "discountedAmount" (str (show (num z)))

  unfoldable pub charge_params : ChargeRequest → String → Fields
  unfolding put with_extras put_amount
  charge_params r merchant =
      let base = put_text "transactionUid" r.transaction_uid (
        field "transAmount" (str (show (num (pos r.amount_kopecks))))
          (field "transCurrency" (str r.currency) (field "merchantId" (str merchant) end))) in
      with_extras
        (put_text "terminalId" reg.default_terminal_id
          (put_amount r.discounted_amount_kopecks base))
        r.extras

  -- `charge`
  unfoldable pub charge : ChargeRequest → M Result
  unfolding resolve_merchant_id charge_params second_step needs_step_two charge_started
  charge r = do
    merchant ← resolve_merchant_id r.merchant_id
    let params = charge_params r merchant
    emit_event (charge_started codec reg r merchant)
    rejected ← acknowledged codec reg "charge_rejected" (purchase "1" params)
    elim rejected [
      | some result ↦ pure result
      | none ↦ do
        status ← wait_idle codec reg
        first ← get_last_result codec reg r.transaction_uid
        if needs_step_two status first then second_step codec reg r params else pure first
    ]
