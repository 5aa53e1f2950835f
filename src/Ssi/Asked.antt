-- ===== src/Ssi/Asked.antt =====
-- What the answers to the questions of a payment come to: its result, and the refusal of a step.
use barhandler_manager.Prelude.{
  ◌≡◌, refl, ap, sym, subst, ◌∙◌, Bool, true, false, Option, none, some, String, if◌then◌else◌,
}
use barhandler_manager.Json.{Json, Fields, null, bool, num, float, str, arr, obj, end, get, truthy}
use barhandler_manager.Json.Codec.{Codec}
use barhandler_manager.Ssi.Wire.{
  Outcome, ok, unavailable, crashed, Wire, M, pure, crash, continue, ◌>>=◌, ◌>>◌,
}
use barhandler_manager.Ssi.Outcome.{
  Result, approved, text_or, business_error_to_result, raise_if_error, result_from_params,
}
use barhandler_manager.Ssi.Session.{
  Registration, lift, dict, dict_or_empty, question, send, get_last_result,
}
use barhandler_manager.Ssi.Calm.{Drawn, Quiet}
use barhandler_manager.Ssi.Charge.{acknowledged}
use barhandler_manager.Ssi.Effects.{Quiet-acknowledgement}
use barhandler_manager.Ssi.Verdict.{
  NoApproval, NoApproval-error, dict-ok, no_error, Approves, params_approve, dict_or_empty-ok,
  Accepts,
}
use barhandler_manager.Ssi.Runs.{bind-ok, bind-ran, bind-Drawn, send-Drawn, Still}

raised_none :
    (default : String) (fs : Fields) (u : Unit {0})
    → raise_if_error default (obj fs) ≡ ok u
    → truthy (get fs "error") ≡ false
unfolding raise_if_error
raised_none default fs u h =
    no_error (truthy (get fs "error")) (text_or (get fs "errorCode") default) u h

Still-bind :
    {A B : Type 0} (m : M A) (f : A → M B) → Still m → ((a : A) → Still (f a)) → Still (m >>= f)
Still-bind {A = A} m f p q w = onward (m w).0 ∙ p w
  where
    onward : (o : Outcome A) → (continue o f (m w).1).1.sent ≡ (m w).1.sent
    onward (ok a) = q a (m w).1
    onward (unavailable code) = refl
    onward crashed = refl

Still-dict : (v : Json) → Still (dict v)
unfolding dict
Still-dict (obj fs) w = refl
Still-dict null w = refl
Still-dict (bool b) w = refl
Still-dict (num z) w = refl
Still-dict (float s) w = refl
Still-dict (str s) w = refl
Still-dict (arr xs) w = refl

Still-unless : (b : Bool) → Still (if b then crash else pure {A = Fields} end)
Still-unless true w = refl
Still-unless false w = refl

Still-dict_or_empty : (v : Json) → Still (dict_or_empty v)
unfolding dict_or_empty
Still-dict_or_empty (obj fs) w = refl
Still-dict_or_empty null w = Still-unless (truthy null) w
Still-dict_or_empty (bool b) w = Still-unless (truthy (bool b)) w
Still-dict_or_empty (num z) w = Still-unless (truthy (num z)) w
Still-dict_or_empty (float s) w = Still-unless (truthy (float s)) w
Still-dict_or_empty (str s) w = Still-unless (truthy (str s)) w
Still-dict_or_empty (arr xs) w = Still-unless (truthy (arr xs)) w

Still-option :
    (o : Option Result) (n : M Result)
    → Still n
    → Still (elim o as (λ x. M Result) [ some result ↦ pure result | none ↦ n ])
Still-option none n p w = p w
Still-option (some r) n p w = refl

-- What `get_last_result` makes of the answer sends nothing.
Still-judged :
    (response : Json)
    → Still (do
      business ← lift (business_error_to_result response)
      elim business as (λ x. M Result) [
        | some result ↦ pure result
        | none ↦ do
          lift (raise_if_error "result_fetch_failed" response)
          fs ← dict response
          params ← dict_or_empty (get fs "params")
          lift (result_from_params params)
      ])
Still-judged response =
    Still-bind (lift (business_error_to_result response)) _ (λ w. refl)
      (λ business. Still-option business _ (
        Still-bind (lift (raise_if_error "result_fetch_failed" response)) _ (λ w. refl)
          (λ u. Still-bind (dict response) _ (Still-dict response) (λ fs.
            Still-bind (dict_or_empty (get fs "params")) _ (Still-dict_or_empty (get fs "params"))
              (λ params w. refl)))))

module _ (codec : Codec) (reg : Registration) where
  -- The last steps of `get_last_result`, behind the business errors
  read_result :
      (response : Json) (w : Wire) (r : Result)
      → ((do
        lift (raise_if_error "result_fetch_failed" response)
        fs ← dict response
        params ← dict_or_empty (get fs "params")
        lift (result_from_params params))
          w).0
        ≡ ok r
      → r.status ≡ approved
      → Accepts response
  unfolding Accepts
  read_result response w r h e =
      let (u, fine, h₁) = bind-ok (lift (raise_if_error "result_fetch_failed" response)) _ w r h in
      let (fs, is_dict, h₂) = bind-ok (dict response) _ w r h₁ in
      let (params, given, h₃) =
        bind-ok (dict_or_empty (get fs "params")) _ (dict response w).1 r h₂ in
      let same = dict-ok response w fs is_dict in
      let fine' = subst (λ v. raise_if_error "result_fetch_failed" v ≡ ok u) same fine in
      let in_answer = dict_or_empty-ok (get fs "params") (dict response w).1 params given in
      (
        fs,
        same,
        raised_none "result_fetch_failed" fs u fine',
        subst Approves (sym in_answer) (params_approve params r h₃ e),
      )

  behind_business :
      (response : Json) (business : Option Result) (w : Wire) (r : Result)
      → business_error_to_result response ≡ ok business
      → ((elim business as (λ x. M Result) [
        | some result ↦ pure result
        | none ↦ do
          lift (raise_if_error "result_fetch_failed" response)
          fs ← dict response
          params ← dict_or_empty (get fs "params")
          lift (result_from_params params)
      ])
          w).0
        ≡ ok r
      → r.status ≡ approved
      → Accepts response
  unfolding NoApproval
  behind_business response none w r known h e = read_result response w r h e
  behind_business response (some result) w r known h e =
      let same : result ≡ r = cc h in
      absurd (NoApproval-error response result known (ap (λ (x : Result). x.status) same ∙ e))

  -- A result that is approved was asked for, and the answer approves; nothing is sent since.
  pub get_last_result-approved :
      (uid : String) (w w' : Wire) (r : Result)
      → get_last_result codec reg uid w ≡ (ok r, w')
      → r.status ≡ approved
      → (after : Wire) × (response : Json) × (send codec reg (question uid) w
          ≡ (ok response, after))
        × Accepts response
        × (w'.sent ≡ after.sent)
  unfolding get_last_result
  get_last_result-approved uid w w' r h e =
      let (response, after, asked, h₁) = bind-ran (send codec reg (question uid)) _ w w' r h in
      let (business, known, h₂) =
        bind-ok (lift (business_error_to_result response)) _ after r
          (ap (λ (p : Outcome Result × Wire). p.0) h₁) in
      (
        after,
        response,
        asked,
        behind_business response business after r known h₂ e,
        sym (ap (λ (p : Outcome Result × Wire). p.1.sent) h₁) ∙ Still-judged response after,
      )

  -- What the terminal refused is no approval.
  pub acknowledged-never :
      (code : String) (message : Json) (w : Wire) (r : Result)
      → (acknowledged codec reg code message w).0 ≡ ok (some r)
      → r.status ≡ approved
      → ⊥
  unfolding acknowledged NoApproval
  acknowledged-never code message w r h e =
      let (ack, asked, h₁) = bind-ok (send codec reg message) _ w (some r) h in
      let w₁ = (send codec reg message w).1 in
      let (business, known, h₂) = bind-ok (lift (business_error_to_result ack)) _ w₁ (some r) h₁ in
      by_business ack business w₁ known h₂
    where
      by_business :
          (ack : Json) (business : Option Result) (w₁ : Wire)
          → business_error_to_result ack ≡ ok business
          → ((elim business as (λ x. M (Option Result)) [
            | some result ↦ pure (some result)
            | none ↦ do lift (raise_if_error code ack); pure none
          ])
              w₁).0
            ≡ ok (some r)
          → ⊥
      by_business ack none w₁ known h' =
          let (u, fine, last) = bind-ok (lift (raise_if_error code ack)) _ w₁ (some r) h' in cc last
      by_business ack (some result) w₁ known h' =
          let same : result ≡ r = cc h' in
          NoApproval-error ack result known (ap (λ (x : Result). x.status) same ∙ e)

  pub acknowledged-Drawn :
      (code : String) (message : Json) (w : Wire)
      → Drawn w (acknowledged codec reg code message w).1
  unfolding acknowledged Quiet
  acknowledged-Drawn code message w =
      bind-Drawn (send codec reg message) _ w (send-Drawn codec reg message w)
        (λ ack w'. (Quiet-acknowledgement codec reg code ack w').drawn)
