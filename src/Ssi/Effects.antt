-- ===== src/Ssi/Effects.antt =====
-- The parts of `charge` and `refund`: which of them send a message that moves money.
use barhandler_manager.Prelude.{
  ◌≡◌, refl, true, not, ◌&&◌, none, some, List, [], ◌∷◌, String, ◌==◌, string_eq,
}
use barhandler_manager.Json.{
  Json, Fields, null, bool, num, float, str, arr, obj, get, truthy, dict_of,
}
use barhandler_manager.Json.Codec.{Codec}
use barhandler_manager.Ssi.Wire.{M, pure, ◌>>=◌, ◌>>◌, Told, emit_event}
use barhandler_manager.Ssi.Outcome.{
  Result, approved, declined, cancelled, business_error_to_result, raise_if_error,
}
use barhandler_manager.Ssi.Session.{Registration, lift}
use barhandler_manager.Ssi.Calm.{
  moves_money, IsCalm, IsCalm-refl, Quiet, Quiet-pure, Quiet-raise, Quiet-crash, Quiet-lift,
  Quiet-if, Quiet-bind, Quiet-option, Quiet-sleep, Quiet-emit_event,
}
use barhandler_manager.Ssi.Polling.{
  Quiet-dict, Quiet-dict_or_empty, Quiet-request, Quiet-interrupt, Quiet-get_last_result,
  Quiet-wait_idle,
}
use barhandler_manager.Ssi.Charge.{
  ChargeRequest, list_merchants, resolve_merchant_id, purchase, acknowledged, second_step, listed,
  lookup_failed, only_one, distinct_ids, with_slip, charge_ended,
}
use barhandler_manager.Ssi.Refund.{
  RefundRequest, Operation, refunding, voiding, partly_voiding, giving_back, referred, settled,
  given_back, is_parked, suppressed, refund_stuck, refund_rejected, refund_ended,
}
use barhandler_manager.Ssi.Attempts.{Attempt, AtMost, Attempt-bind, Attempt-send, Attempt-AtMost}

pub purchase-moves : (step : String) (params : Fields) → moves_money (purchase step params) ≡ true
unfolding moves_money get dict_of
purchase-moves step params = refl

pub giving_back-moves :
    (operation : Operation) (params : Fields) → moves_money (giving_back operation params) ≡ true
unfolding moves_money get dict_of
giving_back-moves refunding params = refl
giving_back-moves voiding params = refl
giving_back-moves partly_voiding params = refl

Quiet-suppressed : {A : Type 0} (m : M A) → Quiet m → Quiet (suppressed m)
unfolding Quiet
Quiet-suppressed m p w = p w

module _ (codec : Codec) (reg : Registration) where
  pub Quiet-acknowledgement :
      (code : String) (ack : Json)
      → Quiet (do
        business ← lift (business_error_to_result ack)
        elim business [
          | some result ↦ pure (some result)
          | none ↦ do lift (raise_if_error code ack); pure none
        ])
  Quiet-acknowledgement code ack =
      Quiet-bind _ _ (Quiet-lift (business_error_to_result ack)) (λ business.
        Quiet-option business _ _ (λ result. Quiet-pure (some result))
          (Quiet-bind _ _ (Quiet-lift (raise_if_error code ack)) (λ u. Quiet-pure none)))

  pub Attempt-acknowledged :
      (code : String) (v : Json) → moves_money v ≡ true → Attempt v (acknowledged codec reg code v)
  unfolding acknowledged
  Attempt-acknowledged code v e =
      Attempt-bind v _ _ (Attempt-send codec reg v e) (Quiet-acknowledgement code)

  Quiet-told : (told : Told) (result : Result) → Quiet (do emit_event told; pure result)
  Quiet-told told result = Quiet-bind _ _ (Quiet-emit_event told) (λ u. Quiet-pure result)

  Quiet-settled :
      (r : RefundRequest) (operation : Operation) → Quiet (settled codec reg r operation)
  unfolding settled
  Quiet-settled r operation = Quiet-bind _ _ (Quiet-wait_idle codec reg) (λ status.
      Quiet-if (is_parked status) _ _
        (Quiet-bind _ _ (Quiet-suppressed _ (Quiet-interrupt codec reg)) (λ u.
          Quiet-bind _ _ (Quiet-emit_event (refund_stuck codec reg r operation))
            (λ u. Quiet-raise Result "refund_incomplete")))
        (Quiet-bind _ _ (Quiet-get_last_result codec reg r.transaction_uid)
          (λ result. Quiet-told (refund_ended codec reg r operation result) result)))

  pub Attempt-given_back :
      (r : RefundRequest) (operation : Operation) (params : Fields)
      → Attempt (giving_back operation params) (given_back codec reg r operation params)
  unfolding given_back
  Attempt-given_back r operation params =
      Attempt-bind _ _ _
        (Attempt-acknowledged "refund_rejected" (giving_back operation params)
          (giving_back-moves operation params))
        (λ rejected.
          Quiet-option rejected _ _
            (λ result. Quiet-told (refund_rejected codec reg r operation result) result)
            (Quiet-settled r operation))

  pub Quiet-with_slip : (result : Result) → Quiet (with_slip codec reg result)
  unfolding with_slip Quiet moves_money get dict_of
  Quiet-with_slip result w =
      elim result.status
        as (λ s. IsCalm w (with_slip codec reg (record result { status = s }) w).1) [
          | approved ↦ Quiet-request codec reg "GetLastReceipt" refl w
          | declined ↦ IsCalm-refl w
          | cancelled ↦ IsCalm-refl w
        ]

  pub second_step-AtMost :
      (r : ChargeRequest) (params : Fields)
      → AtMost (purchase "2" params) (second_step codec reg r params)
  unfolding second_step
  second_step-AtMost r params = Attempt-AtMost _ _ (
      Attempt-bind _ _ _
        (Attempt-acknowledged "charge_step2_rejected" (purchase "2" params)
          (purchase-moves "2" params))
        (λ rejected. Quiet-option rejected _ _ Quiet-pure (
          Quiet-bind _ _ (Quiet-wait_idle codec reg) (λ status.
            Quiet-bind _ _ (Quiet-get_last_result codec reg r.transaction_uid) (λ result.
              Quiet-bind _ _ (Quiet-emit_event (charge_ended codec reg r result))
                (λ u. Quiet-with_slip result))))))

Quiet-only_one : (ids : List String) → Quiet (only_one ids)
unfolding only_one
Quiet-only_one [] = Quiet-raise String "missing_merchant"
Quiet-only_one (m ∷ []) = Quiet-bind _ _ (Quiet-sleep 300) (λ u. Quiet-pure m)
Quiet-only_one (m ∷ n ∷ ms) = Quiet-raise String "missing_merchant"

pub Quiet-referred :
    (operation : Operation) (r : RefundRequest) (params : Fields)
    → Quiet (referred operation r params)
unfolding referred
Quiet-referred refunding r params =
    Quiet-if (r.rrn == "" && r.auth_code == "") _ _ (Quiet-raise Fields "missing_refund_reference")
      (Quiet-pure _)
Quiet-referred voiding r params =
    Quiet-if (r.invoice_num == "") _ _ (Quiet-raise Fields "missing_invoice_num") (Quiet-pure _)
Quiet-referred partly_voiding r params =
    Quiet-if (r.invoice_num == "") _ _ (Quiet-raise Fields "missing_invoice_num") (Quiet-pure _)

Quiet-looked_up :
    (m : M (List String))
    → Quiet m
    → Quiet {A = List String} (λ w. let (r, w') = m w in (lookup_failed r, w'))
unfolding Quiet
Quiet-looked_up m p w = p w

module _ (show : Json → String) (codec : Codec) (reg : Registration) where
  Quiet-listed : (v : Json) → Quiet (listed show codec reg v)
  unfolding listed
  Quiet-listed (arr xs) = Quiet-pure _
  Quiet-listed (str s) = Quiet-pure []
  Quiet-listed (obj fs) = Quiet-pure []
  Quiet-listed null = Quiet-if (truthy null) _ _ (Quiet-crash (List String)) (Quiet-pure [])
  Quiet-listed (bool b) = Quiet-if (truthy (bool b)) _ _ (Quiet-crash (List String)) (Quiet-pure [])
  Quiet-listed (num z) = Quiet-if (truthy (num z)) _ _ (Quiet-crash (List String)) (Quiet-pure [])
  Quiet-listed (float s) =
      Quiet-if (truthy (float s)) _ _ (Quiet-crash (List String)) (Quiet-pure [])

  Quiet-list_merchants : Quiet (list_merchants show codec reg)
  unfolding list_merchants moves_money get dict_of
  Quiet-list_merchants =
      Quiet-bind _ _ (Quiet-request codec reg "GetMerchantListDetailed" refl) (λ response.
        Quiet-bind _ _ (Quiet-lift (raise_if_error "error" response)) (λ u.
          Quiet-bind _ _ (Quiet-dict response) (λ fs.
            Quiet-bind _ _ (Quiet-dict_or_empty (get fs "params"))
              (λ params. Quiet-listed (get params "merchantList")))))

  pub Quiet-resolve_merchant_id :
      (requested : String) → Quiet (resolve_merchant_id show codec reg requested)
  unfolding resolve_merchant_id
  Quiet-resolve_merchant_id requested =
      Quiet-if (not (requested == "")) _ _ (Quiet-pure requested) (
        Quiet-if (not (reg.default_merchant_id == "")) _ _ (Quiet-pure reg.default_merchant_id) (
          Quiet-bind _ _ (Quiet-looked_up (list_merchants show codec reg) Quiet-list_merchants)
            (λ merchants. Quiet-only_one (distinct_ids [] merchants))))
