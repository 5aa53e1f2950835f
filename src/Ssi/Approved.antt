-- ===== src/Ssi/Approved.antt =====
-- What an approved payment rests on.
use barhandler_manager.Prelude.{
  ◌≡◌, ◌⊎◌, inl, refl, ap, sym, subst, ◌∙◌, ◌++◌, [], ◌∷◌, Bool, true, false, Option, none, some,
  String, if◌then◌else◌,
}
use barhandler_manager.Json.{Json, Fields, null, bool, num, float, str, arr, obj, get, truthy}
use barhandler_manager.Json.Codec.{Codec}
use barhandler_manager.Ssi.Wire.{
  Outcome, ok, unavailable, crashed, Wire, M, pure, ◌>>=◌, ◌>>◌, emit_event,
}
use barhandler_manager.Ssi.Outcome.{Result, approved, declined, cancelled}
use barhandler_manager.Ssi.Session.{Registration, request, send, wait_idle, get_last_result}
use barhandler_manager.Ssi.Calm.{Drawn-refl, Drawn-trans, Quiet-emit_event}
use barhandler_manager.Ssi.Polling.{Quiet-wait_idle, Quiet-get_last_result}
use barhandler_manager.Ssi.Charge.{
  ChargeRequest, slip_in, slip_of, acknowledged, with_slip, second_step, charge, purchase,
  charge_params, charge_started, charge_ended, needs_step_two, resolve_merchant_id,
}
use barhandler_manager.Ssi.Effects.{Quiet-resolve_merchant_id}
use barhandler_manager.Ssi.Runs.{
  bind-ran, ran-Drawn, Quiet-Drawn, sent_then, IsLast, Approved, Approved-Drawn,
}
use barhandler_manager.Ssi.Asked.{get_last_result-approved, acknowledged-never, acknowledged-Drawn}

returned :
    {A : Type 0} (run : Outcome A × Wire) (o : Outcome A) (w' : Wire) → run ≡ (o, w') → run.0 ≡ o
returned {A} run o w' h = ap (λ (p : Outcome A × Wire). p.0) h

slip_in-status : (v : Json) (result : Result) → (slip_in v result).status ≡ result.status
unfolding slip_in
slip_in-status (obj params) result = with_receipt (truthy (get params "receipt"))
  where
    with_receipt :
        (has : Bool)
        → (if has then record result { terminal_receipt = get params "receipt" } else result).status
          ≡ result.status
    with_receipt true = refl
    with_receipt false = refl
slip_in-status null result = refl
slip_in-status (bool b) result = refl
slip_in-status (num z) result = refl
slip_in-status (float s) result = refl
slip_in-status (str s) result = refl
slip_in-status (arr xs) result = refl

slip_of-status : (o : Outcome Json) (result : Result) → (slip_of o result).status ≡ result.status
unfolding slip_of
slip_of-status (ok (obj fs)) result = slip_in-status (get fs "params") result
slip_of-status (ok null) result = refl
slip_of-status (ok (bool b)) result = refl
slip_of-status (ok (num z)) result = refl
slip_of-status (ok (float s)) result = refl
slip_of-status (ok (str s)) result = refl
slip_of-status (ok (arr xs)) result = refl
slip_of-status (unavailable code) result = refl
slip_of-status crashed result = refl

module _ (codec : Codec) (reg : Registration) where
  -- The receipt changes nothing of how the payment ended.
  with_slip-status :
      (result : Result) (w : Wire) (r : Result)
      → (with_slip codec reg result w).0 ≡ ok r
      → result.status ≡ r.status
  unfolding with_slip
  with_slip-status result w r =
      elim result.status
        as (λ s. (with_slip codec reg (record result { status = s }) w).0 ≡ ok r → s ≡ r.status) [
          | approved ↦ λ h.
              let result' : Result = record result { status = approved } in
              let o = (send codec reg (request "GetLastReceipt") w).0 in
              let same : slip_of o result' ≡ r = cc h in
              sym (slip_of-status o result') ∙ ap (λ (x : Result). x.status) same
          | declined ↦ λ h.
              let same : record result { status = declined } ≡ r = cc h in
              ap (λ (x : Result). x.status) same
          | cancelled ↦ λ h.
              let same : record result { status = cancelled } ≡ r = cc h in
              ap (λ (x : Result). x.status) same
        ]

  -- Fetching the receipt is all that follows.
  with_slip-IsLast : (result : Result) (w : Wire) → IsLast w (with_slip codec reg result w).1
  unfolding with_slip
  with_slip-IsLast result w =
      elim result.status
        as (λ s. IsLast w (with_slip codec reg (record result { status = s }) w).1) [
          | approved ↦ sent_then codec reg (request "GetLastReceipt") w
          | declined ↦ inl refl
          | cancelled ↦ inl refl
        ]

  -- The result was read, and then at most the receipt.
  read-approved :
      (uid : String) (w w₁ w' : Wire) (found : Result)
      → get_last_result codec reg uid w ≡ (ok found, w₁)
      → found.status ≡ approved
      → IsLast w₁ w'
      → Approved codec reg uid w w'
  unfolding Approved
  read-approved uid w w₁ w' found read e last =
      let (after, response, asked, good, still) =
        get_last_result-approved codec reg uid w w₁ found read e in
      (
        w,
        after,
        response,
        Drawn-refl w,
        asked,
        good,
        subst (λ xs. (w'.sent ≡ xs) ⊎ (w'.sent ≡ xs ++ request "GetLastReceipt" ∷ [])) still last,
      )

  settled-approved :
      (r : ChargeRequest) (w w' : Wire) (result : Result)
      → (do
        wait_idle codec reg
        found ← get_last_result codec reg r.transaction_uid
        emit_event (charge_ended codec reg r found)
        with_slip codec reg found)
          w
        ≡ (ok result, w')
      → result.status ≡ approved
      → Approved codec reg r.transaction_uid w w'
  unfolding emit_event
  settled-approved r w w' result h e =
      let (idle, w₁, waited, h₁) = bind-ran (wait_idle codec reg) _ w w' result h in
      let (found, w₂, read, h₂) =
        bind-ran (get_last_result codec reg r.transaction_uid) _ w₁ w' result h₁ in
      let ended = emit_event (charge_ended codec reg r found) in
      let (u, w₃, told, h₃) = bind-ran ended (λ x. with_slip codec reg found) w₂ w' result h₂ in
      let same = with_slip-status found w₃ result (returned _ _ _ h₃) in
      let told_only : w₂.sent ≡ w₃.sent = ap (λ (p : Outcome Unit × Wire). p.1.sent) told in
      let ends : (with_slip codec reg found w₃).1 ≡ w' =
        ap (λ (p : Outcome Result × Wire). p.1) h₃ in
      let last : IsLast w₃ w' = subst (λ x. IsLast w₃ x) ends (with_slip-IsLast found w₃) in
      Approved-Drawn codec reg r.transaction_uid w w₁ w'
        (Quiet-Drawn (wait_idle codec reg) w w₁ (ok idle) (Quiet-wait_idle codec reg) waited)
        (read-approved r.transaction_uid w₁ w₂ w' found read (same ∙ e) (
          subst (λ xs. (w'.sent ≡ xs) ⊎ (w'.sent ≡ xs ++ request "GetLastReceipt" ∷ []))
            (sym told_only) last))

  -- A step that was refused ends the payment, and not as approved.
  refused-never :
      (code : String) (message : Json) (w w₁ w' : Wire) (refused result : Result)
      → acknowledged codec reg code message w ≡ (ok (some refused), w₁)
      → pure refused w₁ ≡ (ok result, w')
      → result.status ≡ approved
      → ⊥
  refused-never code message w w₁ w' refused result asked h e =
      let same : refused ≡ result = cc h in
      acknowledged-never codec reg code message w refused (returned _ _ _ asked)
        (ap (λ (x : Result). x.status) same ∙ e)

  second_step-approved :
      (r : ChargeRequest) (params : Fields) (w w' : Wire) (result : Result)
      → second_step codec reg r params w ≡ (ok result, w')
      → result.status ≡ approved
      → Approved codec reg r.transaction_uid w w'
  unfolding second_step
  second_step-approved r params w w' result h e =
      let (rejected, w₁, asked, h₁) =
        bind-ran (acknowledged codec reg "charge_step2_rejected" (purchase "2" params)) _ w w'
          result h in
      by_refusal rejected w₁ asked h₁
    where
      by_refusal :
          (rejected : Option Result) (w₁ : Wire)
          → acknowledged codec reg "charge_step2_rejected" (purchase "2" params) w
            ≡ (ok rejected, w₁)
          → (elim rejected as (λ x. M Result) [
            | some refused ↦ pure refused
            | none ↦ do
              wait_idle codec reg
              found ← get_last_result codec reg r.transaction_uid
              emit_event (charge_ended codec reg r found)
              with_slip codec reg found
          ])
              w₁
            ≡ (ok result, w')
          → Approved codec reg r.transaction_uid w w'
      by_refusal none w₁ asked h' =
          Approved-Drawn codec reg r.transaction_uid w w₁ w'
            (ran-Drawn (acknowledged codec reg "charge_step2_rejected" (purchase "2" params)) w w₁
              (ok none)
              (acknowledged-Drawn codec reg "charge_step2_rejected" (purchase "2" params) w) asked)
            (settled-approved r w₁ w' result h' e)
      by_refusal (some refused) w₁ asked h' = absurd (
          refused-never "charge_step2_rejected" (purchase "2" params) w w₁ w' refused result asked
            h' e)

  -- The result after the first step, or what the second one makes of it
  first-approved :
      (two : Bool) (r : ChargeRequest) (params : Fields) (w w₁ w' : Wire) (first result : Result)
      → get_last_result codec reg r.transaction_uid w ≡ (ok first, w₁)
      → (if two then second_step codec reg r params else pure first) w₁ ≡ (ok result, w')
      → result.status ≡ approved
      → Approved codec reg r.transaction_uid w w'
  first-approved true r params w w₁ w' first result read h e =
      Approved-Drawn codec reg r.transaction_uid w w₁ w'
        (Quiet-Drawn (get_last_result codec reg r.transaction_uid) w w₁ (ok first)
          (Quiet-get_last_result codec reg r.transaction_uid) read)
        (second_step-approved r params w₁ w' result h e)
  first-approved false r params w w₁ w' first result read h e =
      let same : first ≡ result = cc h in
      let stays : w₁ ≡ w' = ap (λ (p : Outcome Result × Wire). p.1) h in
      read-approved r.transaction_uid w w₁ w' first read (ap (λ (x : Result). x.status) same ∙ e)
        (inl (sym (ap (λ (x : Wire). x.sent) stays)))

  purchased-approved :
      (r : ChargeRequest) (params : Fields) (w w' : Wire) (result : Result)
      → (do
        rejected ← acknowledged codec reg "charge_rejected" (purchase "1" params)
        elim rejected [
          | some refused ↦ pure refused
          | none ↦ do
            status ← wait_idle codec reg
            first ← get_last_result codec reg r.transaction_uid
            if needs_step_two status first then second_step codec reg r params else pure first
        ])
          w
        ≡ (ok result, w')
      → result.status ≡ approved
      → Approved codec reg r.transaction_uid w w'
  purchased-approved r params w w' result h e =
      let step = acknowledged codec reg "charge_rejected" (purchase "1" params) in
      let (rejected, w₁, asked, h₁) = bind-ran step _ w w' result h in
      by_refusal rejected w₁ asked h₁
    where
      by_refusal :
          (rejected : Option Result) (w₁ : Wire)
          → acknowledged codec reg "charge_rejected" (purchase "1" params) w ≡ (ok rejected, w₁)
          → (elim rejected as (λ x. M Result) [
            | some refused ↦ pure refused
            | none ↦ do
              status ← wait_idle codec reg
              first ← get_last_result codec reg r.transaction_uid
              if needs_step_two status first then second_step codec reg r params else pure first
          ])
              w₁
            ≡ (ok result, w')
          → Approved codec reg r.transaction_uid w w'
      by_refusal (some refused) w₁ asked h' =
          absurd (
            refused-never "charge_rejected" (purchase "1" params) w w₁ w' refused result asked h' e)
      by_refusal none w₁ asked h' =
          let (status, w₂, waited, h₂) = bind-ran (wait_idle codec reg) _ w₁ w' result h' in
          let (first, w₃, read, h₃) =
            bind-ran (get_last_result codec reg r.transaction_uid) _ w₂ w' result h₂ in
          Approved-Drawn codec reg r.transaction_uid w w₂ w'
            (Drawn-trans w w₁ w₂
              (ran-Drawn (acknowledged codec reg "charge_rejected" (purchase "1" params)) w w₁
                (ok none) (acknowledged-Drawn codec reg "charge_rejected" (purchase "1" params) w)
                asked)
              (Quiet-Drawn (wait_idle codec reg) w₁ w₂ (ok status) (Quiet-wait_idle codec reg)
                waited))
            (first-approved (needs_step_two status first) r params w₂ w₃ w' first result read h₃ e)

module _ (show : Json → String) (codec : Codec) (reg : Registration) where
  -- A charge comes back as approved only if the last message that it sent, or the last before the
  -- request for the receipt, is the question for the result of this payment (of the last one, if it
  -- has no identifier), and the answer that came over the exchange of just this message says no error
  -- and names a result that means approval.
  pub charge-approved_by :
      (r : ChargeRequest) (w w' : Wire) (result : Result)
      → charge show codec reg r w ≡ (ok result, w')
      → result.status ≡ approved
      → Approved codec reg r.transaction_uid w w'
  unfolding charge
  charge-approved_by r w w' result h e =
      let resolve = resolve_merchant_id show codec reg r.merchant_id in
      let (merchant, w₁, resolved, h₁) = bind-ran resolve _ w w' result h in
      let started = emit_event (charge_started codec reg r merchant) in
      let (u, w₂, told, h₂) = bind-ran started _ w₁ w' result h₁ in
      Approved-Drawn codec reg r.transaction_uid w w₂ w'
        (Drawn-trans w w₁ w₂
          (Quiet-Drawn resolve w w₁ (ok merchant)
            (Quiet-resolve_merchant_id show codec reg r.merchant_id) resolved)
          (Quiet-Drawn started w₁ w₂ (ok u) (Quiet-emit_event _) told))
        (purchased-approved codec reg r (charge_params show codec reg r merchant) w₂ w' result h₂ e)
