-- ===== src/Privat/Approved.antt =====
-- What an approved payment rests on.
use barhandler_manager.Prelude.{
  arith, ◌≡◌, refl, ap, sym, ◌∙◌, ◌↔◌, Bool, true, false, Option, none, some, String, ◌==◌,
  string_eq, if◌then◌else◌, not, ◌&&◌,
}
use barhandler_manager.Prelude.Int.{ℤ, pos, negsuc}
use barhandler_manager.Json.{Json, Fields, obj, get, truthy}
use barhandler_manager.Json.Codec.{Codec}
use barhandler_manager.Registry.Model.{Registration}
use barhandler_manager.Ssi.Wire.{Outcome, ok, unavailable, crashed}
use barhandler_manager.Ssi.Outcome.{Status, approved, declined, cancelled}
use barhandler_manager.Privat.Link.{Link, continue, lift}
use barhandler_manager.Privat.Outcome.{
  AcquirerResult, Python, checked, fields_or_empty, str_or_blank, on_ok,
}
use barhandler_manager.Privat.Receipt.{
  trn_is, trn_of, settled_status, status_of, parse_adv, purchase_result, result_from_purchase,
  shapeless,
}
use barhandler_manager.Privat.Adapter.{ChargeRequest, send, charge, purchase}

-- No status of the transaction speaks against it: not declined, reversed or cancelled.
abbrev pub IsUnopposed : Option ℤ → Type 0
IsUnopposed ts = (trn_is 2 ts ≡ false) × (trn_is 3 ts ≡ false) × (trn_is 4 ts ≡ false)

settled_status-approved :
    (accepted : Bool) (ts : Option ℤ)
    → (settled_status accepted ts ≡ approved) ↔ ((accepted ≡ true) × IsUnopposed ts)
unfolding settled_status
settled_status-approved true none = (λ h. (refl, (refl, refl, refl)), λ h. refl)
settled_status-approved false none = (λ h. absurd (cc h), λ (h, k). absurd (cc h))
settled_status-approved true (some (pos m)) = ground arith
settled_status-approved false (some (pos m)) = ground arith
settled_status-approved true (some (negsuc m)) = (λ h. (refl, (refl, refl, refl)), λ h. refl)
settled_status-approved false (some (negsuc m)) = (λ h. absurd (cc h), λ (h, k). absurd (cc h))

not_cancelled : (code : String) → (code == "0000") ≡ true → (code == "1001") ≡ false
not_cancelled code h = let e : code ≡ "0000" = (string_eq.agree_iff code "0000").0 h in rw e refl

choice-approved :
    (user error accepted : Bool) (settled : Status) (rest : Type 0)
    → (accepted ≡ true → user ≡ false)
    → (settled ≡ approved) ↔ ((accepted ≡ true) × rest)
    → ((if user then cancelled else if error && not accepted then declined else settled) ≡ approved)
      ↔ ((accepted ≡ true) × rest)
choice-approved true error true settled rest apart known = absurd (cc (apart refl))
choice-approved true error false settled rest apart known =
    (λ h. absurd (cc h), λ (h, k). absurd (cc h))
choice-approved false true true settled rest apart known = known
choice-approved false true false settled rest apart known =
    (λ h. absurd (cc h), λ (h, k). absurd (cc h))
choice-approved false false accepted settled rest apart known = known

status_of-approved :
    (error : Bool) (code trn : String)
    → (status_of error code trn ≡ approved) ↔ (((code == "0000") ≡ true) × IsUnopposed (trn_of trn))
unfolding status_of
status_of-approved error code trn =
    choice-approved (code == "1001") error (code == "0000")
      (settled_status (code == "0000") (trn_of trn)) (IsUnopposed (trn_of trn)) (not_cancelled code)
      (settled_status-approved (code == "0000") (trn_of trn))

on_ok-ok :
    {A B : Type 0} (r : Outcome A) (f : A → Outcome B) (b : B)
    → on_ok r f ≡ ok b
    → (a : A) × (r ≡ ok a) × (f a ≡ ok b)
on_ok-ok (ok a) f b h = (a, refl, h)
on_ok-ok (unavailable code) f b h = absurd (cc h)
on_ok-ok crashed f b h = absurd (cc h)

pub if-ok : {A : Type 0} (fits : Bool) (a b : A) → (if fits then ok a else crashed) ≡ ok b → a ≡ b
if-ok true a b h = cc h
if-ok false a b h = absurd (cc h)

never : (s r : AcquirerResult) → ok s ≡ ok r → s.status ≡ declined → (r.status ≡ approved) ↔ ⊥
never s r h e =
    let same : s ≡ r = cc h in
    let status : s.status ≡ r.status = ap (λ (x : AcquirerResult). x.status) same in
    (λ good. cc (status, good, e), λ nothing. absurd nothing)

module _ (python : Python) where
  -- An answer that accepts the payment: its `responseCode` reads 0000, and its `trnStatus` is not that
  -- of a payment declined, reversed or cancelled.
  AcceptsParams : Outcome Fields → Type 0
  AcceptsParams (ok params) =
      (str_or_blank python (get params "responseCode") ≡ "0000")
      × IsUnopposed (trn_of (str_or_blank python (get params "trnStatus")))
  AcceptsParams _ = ⊥

  unfoldable pub Accepts : Json → Type 0
  unfolding AcceptsParams
  Accepts (obj fs) = AcceptsParams (fields_or_empty (get fs "params"))
  Accepts _ = ⊥

  params-approved :
      (uid : Option String) (fs : Fields) (o : Outcome Fields) (r : AcquirerResult)
      → on_ok o (λ params.
        on_ok (parse_adv python (get params "adv")) (purchase_result python uid fs params))
        ≡ ok r
      → (r.status ≡ approved) ↔ AcceptsParams o
  unfolding purchase_result checked AcceptsParams
  params-approved uid fs (ok params) r h =
      let (ids, read, built) =
        on_ok-ok (parse_adv python (get params "adv")) (purchase_result python uid fs params) r h in
      let code = str_or_blank python (get params "responseCode") in
      let trn = str_or_blank python (get params "trnStatus") in
      let same : status_of (truthy (get fs "error")) code trn ≡ r.status =
        ap (λ (x : AcquirerResult). x.status) (if-ok _ _ r built) in
      let (there, back) = status_of-approved (truthy (get fs "error")) code trn in
      (
        λ good.
            let (accepted, unopposed) = there (same ∙ good) in
            ((string_eq.agree_iff code "0000").0 accepted, unopposed),
        λ (accepted, unopposed).
            sym same ∙ back ((string_eq.agree_iff code "0000").1 accepted, unopposed),
      )
  params-approved uid fs (unavailable code) r h = absurd (cc h)
  params-approved uid fs crashed r h = absurd (cc h)

  -- A result says that the payment is approved exactly when the answer accepts it.
  pub result_from_purchase-approved :
      (uid : Option String) (response : Json) (r : AcquirerResult)
      → result_from_purchase python uid response ≡ ok r
      → (r.status ≡ approved) ↔ Accepts response
  unfolding result_from_purchase shapeless Accepts
  result_from_purchase-approved uid (obj fs) r h =
      params-approved uid fs (fields_or_empty (get fs "params")) r h
  result_from_purchase-approved uid v r h = never (shapeless v) r h refl

module _ (python : Python) (codec : Codec) (reg : Registration) where
  answered :
      (uid : Option String) (answer : Outcome Json) (l : Link) (r : AcquirerResult)
      → (continue answer (λ response. lift (result_from_purchase python uid response)) l).0 ≡ ok r
      → (response : Json) × (answer ≡ ok response)
        × (result_from_purchase python uid response ≡ ok r)
  answered uid (ok response) l r h = (response, refl, h)
  answered uid (unavailable code) l r h = absurd (cc h)
  answered uid crashed l r h = absurd (cc h)

  -- A charge that returns a result got an answer to its one purchase, and the result says approved
  -- exactly when that answer accepts the payment: there is no approval that the terminal did not send.
  pub charge-approved :
      (request : ChargeRequest) (l : Link) (r : AcquirerResult)
      → (charge python codec reg request l).0 ≡ ok r
      → (response : Json) × ((send python codec reg false 120_000
            (purchase python codec reg request)
            l).0
          ≡ ok response)
        × ((r.status ≡ approved) ↔ Accepts python response)
  unfolding charge send
  charge-approved request l r h =
      let (answer, l') =
        send python codec reg false 120_000 (purchase python codec reg request) l in
      let (response, came, built) = answered request.transaction_uid answer l' r h in
      (
        response,
        came,
        result_from_purchase-approved python request.transaction_uid response r built,
      )
