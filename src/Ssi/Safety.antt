-- ===== src/Ssi/Safety.antt =====
-- `charge` and `refund`: what they send that moves money, over whatever network.
use barhandler_manager.Prelude.{
  ◌≡◌, refl, subst, ◌∙◌, ap, Option, none, some, List, [], ◌∷◌, ◌++◌, String, string_eq,
  if◌then◌else◌, ◌⊎◌, inl, inr, append_assoc,
}
use barhandler_manager.Prelude.Int.{pos}
use barhandler_manager.Json.{Json, Fields, num, str, end, field, get}
use barhandler_manager.Json.Codec.{Codec}
use barhandler_manager.Ssi.Wire.{
  Outcome, ok, unavailable, crashed, Wire, M, pure, raise, continue, ◌>>=◌, ◌>>◌, emit_event,
}
use barhandler_manager.Ssi.Outcome.{Result}
use barhandler_manager.Ssi.Session.{Registration, wait_idle, get_last_result}
use barhandler_manager.Ssi.Calm.{moves, Quiet, Quiet-pure}
use barhandler_manager.Ssi.Polling.{Quiet-get_last_result, Quiet-wait_idle}
use barhandler_manager.Ssi.Charge.{
  ChargeRequest, resolve_merchant_id, charge_params, purchase, acknowledged, charge_started,
  needs_step_two, second_step, charge,
}
use barhandler_manager.Ssi.Refund.{
  RefundRequest, Operation, giving_back, operation_of, referred, refund_params, given_back, refund,
  refund_started,
}
use barhandler_manager.Ssi.Attempts.{
  AtMost-continue, Fails, Attempt, AtMost, continue-Fails, Quiet-AtMost, AtMost-bind, AtMost-if,
  AtMost-option,
}
use barhandler_manager.Ssi.Effects.{
  purchase-moves, Attempt-acknowledged, Attempt-given_back, second_step-AtMost, Quiet-referred,
  Quiet-resolve_merchant_id,
}

-- What a charge may have sent that moves money, by how it ended.
pub data Charged (charged : String → Fields) (before : List Json) (o : Outcome Result)
    (after : List Json) : Type 0 where
  nothing : Fails o → after ≡ before → Charged charged before o after
  first :
      (merchant : String)
      → after ≡ before ++ purchase "1" (charged merchant) ∷ []
      → Charged charged before o after
  both :
      (merchant : String)
      → after ≡ before ++ purchase "1" (charged merchant) ∷ purchase "2" (charged merchant) ∷ []
      → Charged charged before o after

-- What a refund may have sent that moves money, by how it ended.
pub data Refunded (asked : Json) (before : List Json) (o : Outcome Result) (after : List Json)
    : Type 0 where
  nothing : Fails o → after ≡ before → Refunded asked before o after
  once :
      (operation : Operation) (params : Fields)
      → operation_of asked ≡ some operation
      → after ≡ before ++ giving_back operation params ∷ []
      → Refunded asked before o after

-- The same messages, and then at most one more.
Charged-step :
    (charged : String → Fields) (merchant : String) (before mid after : List Json)
    (o : Outcome Result)
    → mid ≡ before ++ purchase "1" (charged merchant) ∷ []
    → ((after ≡ mid) ⊎ (after ≡ mid ++ purchase "2" (charged merchant) ∷ []))
    → Charged charged before o after
Charged-step charged merchant before mid after o e (inl d) = first merchant (d ∙ e)
Charged-step charged merchant before mid after o e (inr d) = both merchant (
    d
    ∙ ap (λ vs. vs ++ purchase "2" (charged merchant) ∷ []) e
    ∙ append_assoc before (purchase "1" (charged merchant) ∷ [])
        (purchase "2" (charged merchant) ∷ []))

Charged-before :
    (charged : String → Fields) (before before' : List Json) (o : Outcome Result)
    (after : List Json)
    → before ≡ before'
    → Charged charged before o after
    → Charged charged before' o after
Charged-before charged before before' o after e c = subst (λ b. Charged charged b o after) e c

module _ (show : Json → String) (codec : Codec) (reg : Registration) where
  -- The parameters of a charge, by its merchant.
  abbrev pub charged_with : ChargeRequest → String → Fields
  charged_with r merchant = charge_params show codec reg r merchant

  -- After the first acknowledgement.
  after_first : ChargeRequest → Fields → Option Result → M Result
  after_first r params rejected = elim rejected [
    | some result ↦ pure result
    | none ↦ do
      status ← wait_idle codec reg
      result ← get_last_result codec reg r.transaction_uid
      if needs_step_two status result then second_step codec reg r params else pure result
  ]

  after_first-AtMost :
      (r : ChargeRequest) (params : Fields) (rejected : Option Result)
      → AtMost (purchase "2" params) (after_first r params rejected)
  unfolding after_first
  after_first-AtMost r params rejected =
      AtMost-option _ rejected _ _ (λ result. Quiet-AtMost _ _ (Quiet-pure result))
        (AtMost-bind _ _ _ (Quiet-wait_idle codec reg) (λ status.
          AtMost-bind _ _ _ (Quiet-get_last_result codec reg r.transaction_uid) (λ result.
            AtMost-if _ (needs_step_two status result) _ _ (second_step-AtMost codec reg r params)
              (Quiet-AtMost _ _ (Quiet-pure result)))))

  Charged-named :
      (r : ChargeRequest) (merchant : String) (w : Wire)
      → let charging : M Result = (do
        rejected ← acknowledged codec reg "charge_rejected" (purchase "1" (charged_with r merchant))
        after_first r (charged_with r merchant) rejected) in
        Charged (charged_with r) (moves w.sent) (charging w).0 (moves (charging w).1.sent)
  unfolding Attempt AtMost
  Charged-named r merchant w =
      let params = charged_with r merchant in
      let asked = acknowledged codec reg "charge_rejected" (purchase "1" params) w in
      elim (Attempt-acknowledged codec reg "charge_rejected" (purchase "1" params)
        (purchase-moves "1" params) w) [
          | inl (h, e) ↦
              let stopped = continue-Fails asked.0 (after_first r params) asked.1 h in
              nothing stopped.0 (ap (λ w'. moves w'.sent) stopped.1 ∙ e)
          | inr e ↦
              Charged-step (charged_with r) merchant (moves w.sent) (moves asked.1.sent) _ _ e (
                AtMost-continue (purchase "2" params) asked.0 (after_first r params) asked.1
                  (after_first-AtMost r params))
        ]

  Charged-resolved :
      (r : ChargeRequest) (o : Outcome String) (w : Wire) (before : List Json)
      → moves w.sent ≡ before
      → let charging : M Result = continue o λ merchant. (do
        emit_event (charge_started codec reg r merchant)
        rejected ← acknowledged codec reg "charge_rejected" (purchase "1" (charged_with r merchant))
        after_first r (charged_with r merchant) rejected) in
        Charged (charged_with r) before (charging w).0 (moves (charging w).1.sent)
  unfolding emit_event
  Charged-resolved r (ok merchant) w before e =
      Charged-before (charged_with r) (moves w.sent) before _ _ e
        (Charged-named r merchant (emit_event (charge_started codec reg r merchant) w).1)
  Charged-resolved r (unavailable code) w before e = nothing tt e
  Charged-resolved r crashed w before e = nothing tt e

  -- Over any network, a charge either fails and has sent no message that moves money, or has sent
  -- the first step of the purchase once, or each of its two steps once, in this order and with the
  -- same parameters; however it ends, it sends no other message that moves money.
  pub charge-moves :
      (r : ChargeRequest) (w : Wire)
      → let after = charge show codec reg r w in
        Charged (charged_with r) (moves w.sent) after.0 (moves after.1.sent)
  unfolding charge after_first Quiet
  charge-moves r w =
      let resolved = resolve_merchant_id show codec reg r.merchant_id w in
      Charged-resolved r resolved.0 resolved.1 (moves w.sent)
        (Quiet-resolve_merchant_id show codec reg r.merchant_id w).moves_same

  Refunded-referred :
      (r : RefundRequest) (merchant : String) (operation : Operation)
      → operation_of (get r.extras "operation") ≡ some operation
      → (o : Outcome Fields) (w : Wire) (before : List Json) → moves w.sent ≡ before
      → let refunding : M Result = continue o λ params. (do
        emit_event (refund_started codec reg r operation merchant)
        given_back codec reg r operation (refund_params show codec reg r params)) in
        Refunded (get r.extras "operation") before (refunding w).0 (moves (refunding w).1.sent)
  unfolding Attempt emit_event
  Refunded-referred r merchant operation h (ok params) w before e =
      elim (Attempt-given_back codec reg r operation (refund_params show codec reg r params)
        (emit_event (refund_started codec reg r operation merchant) w).1) [
          | inl (f, d) ↦ nothing f (d ∙ e)
          | inr d ↦ once operation (refund_params show codec reg r params) h (
              d
              ∙ ap (λ vs. vs ++ giving_back operation (refund_params show codec reg r params) ∷ [])
                  e)
        ]
  Refunded-referred r merchant operation h (unavailable code) w before e = nothing tt e
  Refunded-referred r merchant operation h crashed w before e = nothing tt e

  -- What a refund does once the merchant is known.
  refunding_with : RefundRequest → String → Option Operation → M Result
  refunding_with r merchant found = elim found [
    | none ↦ raise "bad_refund_operation"
    | some operation ↦ do
      params ← referred operation r (
          field "transAmount" (str (show (num (pos r.amount_kopecks))))
            (field "transCurrency" (str r.currency) (field "merchantId" (str merchant) end)))
      emit_event (refund_started codec reg r operation merchant)
      given_back codec reg r operation (refund_params show codec reg r params)
  ]

  Refunded-found :
      (r : RefundRequest) (merchant : String) (found : Option Operation)
      → operation_of (get r.extras "operation") ≡ found
      → (w : Wire) (before : List Json) → moves w.sent ≡ before
      → let refunding = refunding_with r merchant found w in
        Refunded (get r.extras "operation") before refunding.0 (moves refunding.1.sent)
  unfolding refunding_with Quiet
  Refunded-found r merchant none h w before e = nothing tt e
  Refunded-found r merchant (some operation) h w before e =
      let base : Fields =
        field "transAmount" (str (show (num (pos r.amount_kopecks))))
          (field "transCurrency" (str r.currency) (field "merchantId" (str merchant) end)) in
      let params = referred operation r base w in
      Refunded-referred r merchant operation h params.0 params.1 before
        ((Quiet-referred operation r base w).moves_same ∙ e)

  Refunded-resolved :
      (r : RefundRequest) (o : Outcome String) (w : Wire) (before : List Json)
      → moves w.sent ≡ before
      → let refunding : M Result =
          continue o
            λ merchant. refunding_with r merchant (operation_of (get r.extras "operation")) in
        Refunded (get r.extras "operation") before (refunding w).0 (moves (refunding w).1.sent)
  Refunded-resolved r (ok merchant) w before e =
      Refunded-found r merchant (operation_of (get r.extras "operation")) refl w before e
  Refunded-resolved r (unavailable code) w before e = nothing tt e
  Refunded-resolved r crashed w before e = nothing tt e

  -- Over any network, a refund either fails and has sent no message that moves money, or has sent
  -- one, of the operation that was asked for; however it ends, it sends no other message that moves
  -- money.
  pub refund-moves :
      (r : RefundRequest) (w : Wire)
      → let after = refund show codec reg r w in
        Refunded (get r.extras "operation") (moves w.sent) after.0 (moves after.1.sent)
  unfolding refund refunding_with Quiet
  refund-moves r w =
      let resolved = resolve_merchant_id show codec reg r.merchant_id w in
      Refunded-resolved r resolved.0 resolved.1 (moves w.sent)
        (Quiet-resolve_merchant_id show codec reg r.merchant_id w).moves_same
