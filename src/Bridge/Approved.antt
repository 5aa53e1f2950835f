-- ===== src/Bridge/Approved.antt =====
-- What an approved payment over a bridge rests on, for the three adapters.
use barhandler_manager.Prelude.{
  ◌≡◌, refl, ap, sym, ◌∙◌, ◌↔◌, Bool, true, false, Option, String, ◌==◌, string_eq, if◌then◌else◌,
  ◌&&◌,
}
use barhandler_manager.Json.{Fields, get, truthy}
use barhandler_manager.Json.Codec.{Codec}
use barhandler_manager.Registry.Model.{Registration}
use barhandler_manager.Ssi.Wire.{Outcome, ok, unavailable, crashed}
use barhandler_manager.Ssi.Outcome.{approved, declined, cancelled}
use barhandler_manager.Privat.Link.{M, Link, continue, lift}
use barhandler_manager.Privat.Outcome.{AcquirerResult, Python, checked, str_or_blank}
use barhandler_manager.Privat.Adapter.{ChargeRequest}
use barhandler_manager.Privat.Approved.{if-ok}
use barhandler_manager.Bridge.PosApi
use barhandler_manager.Bridge.Bpos
use barhandler_manager.Bridge.Oschad

-- The three adapters that reach their terminal over a bridge
pub data Bank : Type 0 where
  posapi bpos oschad : Bank

module _ (python : Python) where
  unfoldable pub result_of : Bank → Option String → Fields → Outcome AcquirerResult
  result_of posapi = PosApi.result_from_purchase python
  result_of bpos = Bpos.result_from_purchase python
  result_of oschad = Oschad.result_from_purchase python

  -- An answer that accepts the payment, by the code of success of the bank; over PosAPI it says so twice.
  unfoldable pub Accepts : Bank → Fields → Type 0
  Accepts posapi fs =
      (truthy (get fs "approved") ≡ true) × (str_or_blank python (get fs "responseCode") ≡ "00")
  Accepts bpos fs = str_or_blank python (get fs "result") ≡ "0"
  Accepts oschad fs = str_or_blank python (get fs "rc") ≡ "000"

choice-approved :
    (cancels accepts : Bool)
    → (accepts ≡ true → cancels ≡ false)
    → ((if cancels then cancelled else if accepts then approved else declined) ≡ approved)
      ↔ (accepts ≡ true)
choice-approved true true apart = absurd (cc (apart refl))
choice-approved true false apart = (λ h. absurd (cc h), λ h. absurd (cc h))
choice-approved false true apart = (λ h. refl, λ h. refl)
choice-approved false false apart = (λ h. absurd (cc h), λ h. absurd (cc h))

apart :
    (code success other : String)
    → (success == other) ≡ false
    → (code == success) ≡ true
    → (code == other) ≡ false
apart code success other h e =
    let same : code ≡ success = (string_eq.agree_iff code success).0 e in rw same h

both : (a b : Bool) → (a && b ≡ true) ↔ ((a ≡ true) × (b ≡ true))
both true true = (λ h. (refl, refl), λ h. refl)
both true false = (λ h. absurd (cc h), λ (h, k). absurd (cc k))
both false b = (λ h. absurd (cc h), λ (h, k). absurd (cc h))

module _ (python : Python) where
  -- A result says that the payment is approved exactly when the answer accepts it.
  result_of-approved :
      (bank : Bank) (uid : Option String) (fs : Fields) (r : AcquirerResult)
      → result_of python bank uid fs ≡ ok r
      → (r.status ≡ approved) ↔ Accepts python bank fs
  unfolding result_of Accepts PosApi.result_from_purchase PosApi.status Bpos.result_from_purchase
      Bpos.status Oschad.result_from_purchase Oschad.status checked
  result_of-approved posapi uid fs r h =
      let code = str_or_blank python (get fs "responseCode") in
      let accepted = truthy (get fs "approved") in
      let same = ap (λ (x : AcquirerResult). x.status) (if-ok _ _ r h) in
      let (there, back) =
        choice-approved (code == "UC") (accepted && (code == "00"))
          (λ e. apart code "00" "UC" refl (((both accepted (code == "00")).0 e).1)) in
      (
        λ good.
            let (a, c) = (both accepted (code == "00")).0 (there (same ∙ good)) in
            (a, (string_eq.agree_iff code "00").0 c),
        λ (a, c).
            sym same
            ∙ back ((both accepted (code == "00")).1 (a, (string_eq.agree_iff code "00").1 c)),
      )
  result_of-approved bpos uid fs r h =
      let code = str_or_blank python (get fs "result") in
      let same = ap (λ (x : AcquirerResult). x.status) (if-ok _ _ r h) in
      let (there, back) = choice-approved (code == "4") (code == "0") (apart code "0" "4" refl) in
      (
        λ good. (string_eq.agree_iff code "0").0 (there (same ∙ good)),
        λ c. sym same ∙ back ((string_eq.agree_iff code "0").1 c),
      )
  result_of-approved oschad uid fs r h =
      let code = str_or_blank python (get fs "rc") in
      let same = ap (λ (x : AcquirerResult). x.status) (if-ok _ _ r h) in
      let (there, back) =
        choice-approved (code == "100") (code == "000") (apart code "000" "100" refl) in
      (
        λ good. (string_eq.agree_iff code "000").0 (there (same ∙ good)),
        λ c. sym same ∙ back ((string_eq.agree_iff code "000").1 c),
      )

  answered :
      (bank : Bank) (uid : Option String) (answer : Outcome Fields) (l : Link) (r : AcquirerResult)
      → (continue answer (λ fs. lift (result_of python bank uid fs)) l).0 ≡ ok r
      → (fs : Fields) × (answer ≡ ok fs) × ((r.status ≡ approved) ↔ Accepts python bank fs)
  answered bank uid (ok fs) l r h = (fs, refl, result_of-approved bank uid fs r h)
  answered bank uid (unavailable code) l r h = absurd (cc h)
  answered bank uid crashed l r h = absurd (cc h)

module _ (python : Python) (codec : Codec) (reg : Registration) where
  unfoldable pub charge_over : Bank → ChargeRequest → M AcquirerResult
  charge_over posapi = PosApi.charge python codec reg
  charge_over bpos = Bpos.charge python codec reg
  charge_over oschad = Oschad.charge python codec reg

  -- What `charge` sends, and the answer to it
  unfoldable pub answer_over : Bank → ChargeRequest → M Fields
  answer_over posapi r =
      PosApi.send python codec reg 120_000 (PosApi.purchase reg.default_merchant_id r)
  answer_over bpos r = Bpos.send python codec reg 120_000 (Bpos.purchase reg.default_merchant_id r)
  answer_over oschad r =
      Oschad.send python codec reg 120_000 (Oschad.purchase reg.default_merchant_id r)

  -- Over each of the three bridges, a charge that returns a result got an answer to its purchase, and
  -- the result says approved exactly when that answer accepts the payment.
  pub charge_over-approved :
      (bank : Bank) (request : ChargeRequest) (l : Link) (r : AcquirerResult)
      → (charge_over bank request l).0 ≡ ok r
      → (fs : Fields) × ((answer_over bank request l).0 ≡ ok fs)
        × ((r.status ≡ approved) ↔ Accepts python bank fs)
  unfolding charge_over answer_over result_of PosApi.charge Bpos.charge Oschad.charge
  charge_over-approved posapi request l r h =
      let (answer, l') = answer_over posapi request l in
      answered python posapi request.transaction_uid answer l' r h
  charge_over-approved bpos request l r h =
      let (answer, l') = answer_over bpos request l in
      answered python bpos request.transaction_uid answer l' r h
  charge_over-approved oschad request l r h =
      let (answer, l') = answer_over oschad request l in
      answered python oschad request.transaction_uid answer l' r h
