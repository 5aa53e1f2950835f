-- ===== src/Ssi/Verdict.antt =====
-- What the answers of the terminal say of a payment: which approve, and that a business error does not.
use barhandler_manager.Prelude.{
  ◌≡◌, refl, ap, ◌∙◌, Bool, true, false, Option, none, some, List, ℕ, contains, ◌==◌, string_eq,
  if◌then◌else◌,
}
use barhandler_manager.Prelude.Text.{codes, text_eq, upper, lower, underscored}
use barhandler_manager.Json.{
  Json, Fields, null, bool, num, float, str, arr, obj, end, get, truthy, dict_of,
}
use barhandler_manager.Ssi.Wire.{Outcome, ok, unavailable, crashed, Wire, pure, crash}
use barhandler_manager.Ssi.Outcome.{
  Result, Status, approved, declined, cancelled, checked, text_or, business_status, rejection,
  business_of, as_business, business_error_to_result, error_code_of, ok_results, cancelled_results,
  status_of, result_of, result_from_params,
}
use barhandler_manager.Ssi.Session.{dict, dict_or_empty}

-- A refusal by a business code is no approval.
checked-same : (b : Bool) (a r : Result) → (if b then ok a else crashed) ≡ ok r → a ≡ r
checked-same true a r h = cc h
checked-same false a r h = absurd (cc h)

Never : Option Status → Type 0
Never o = o ≡ some approved → ⊥

Never-if : (b : Bool) (x y : Option Status) → Never x → Never y → Never (if b then x else y)
Never-if true x y p q = p
Never-if false x y p q = q

business_not_approved : (code : List ℕ) → Never (business_status code)
unfolding business_status Never
business_not_approved code =
    let no : Never (some declined) = λ h. cc h in
    Never-if (code == codes "e10") _ _ no (
      Never-if (code == codes "e11") _ _ no (
        Never-if (code == codes "e12") _ _ (λ h. cc h)
          (Never-if (code == codes "e16") _ _ no
            (Never-if (code == codes "e17") _ _ no (λ h. cc h)))))

as_business-ok : (o : Outcome Result) (r : Result) → as_business o ≡ ok (some r) → o ≡ ok r
unfolding as_business
as_business-ok (ok a) r h = cc h
as_business-ok (unavailable code) r h = absurd (cc h)
as_business-ok crashed r h = absurd (cc h)

checked-ok : (a r : Result) → checked a ≡ ok r → a ≡ r
unfolding checked
checked-ok a r h = checked-same _ a r h

unfoldable pub NoApproval : Outcome (Option Result) → Type 0
NoApproval o = (r : Result) → o ≡ ok (some r) → r.status ≡ approved → ⊥

NoApproval-status :
    (o : Option Status) (fs : Fields)
    → Never o
    → NoApproval
        (elim o [ none ↦ ok none | some status ↦ as_business (checked (rejection status fs)) ])
unfolding NoApproval Never rejection
NoApproval-status none fs never r h e = absurd (cc h)
NoApproval-status (some status) fs never r h e =
    let same =
      checked-ok (rejection status fs) r (as_business-ok (checked (rejection status fs)) r h) in
    let status_same : status ≡ r.status = ap (λ (x : Result). x.status) same in
    never (ap some (status_same ∙ e))

NoApproval-business : (o : Outcome (List ℕ)) (fs : Fields) → NoApproval (business_of o fs)
unfolding business_of NoApproval
NoApproval-business (ok code) fs r h e =
    NoApproval-status (business_status (lower code)) fs (business_not_approved (lower code)) r h e
NoApproval-business (unavailable code) fs r h e = absurd (cc h)
NoApproval-business crashed fs r h e = absurd (cc h)

NoApproval-if :
    (b : Bool) (o : Outcome (Option Result)) → NoApproval o → NoApproval (if b then o else ok none)
unfolding NoApproval
NoApproval-if true o p r h e = p r h e
NoApproval-if false o p r h e = absurd (cc h)

-- `_business_error_to_result` gives no approval.
pub NoApproval-error : (response : Json) → NoApproval (business_error_to_result response)
unfolding business_error_to_result NoApproval
NoApproval-error (obj fs) r h e =
    NoApproval-if (truthy (get fs "error")) (business_of (text_or (get fs "errorCode") "") fs)
      (NoApproval-business (text_or (get fs "errorCode") "") fs) r h e
NoApproval-error null r h e = absurd (cc h)
NoApproval-error (bool b) r h e = absurd (cc h)
NoApproval-error (num z) r h e = absurd (cc h)
NoApproval-error (float s) r h e = absurd (cc h)
NoApproval-error (str s) r h e = absurd (cc h)
NoApproval-error (arr xs) r h e = absurd (cc h)

pub dict-ok : (v : Json) (w : Wire) (fs : Fields) → (dict v w).0 ≡ ok fs → v ≡ obj fs
unfolding dict
dict-ok (obj gs) w fs h = cc h
dict-ok null w fs h = absurd (cc h)
dict-ok (bool b) w fs h = absurd (cc h)
dict-ok (num z) w fs h = absurd (cc h)
dict-ok (float s) w fs h = absurd (cc h)
dict-ok (str s) w fs h = absurd (cc h)
dict-ok (arr xs) w fs h = absurd (cc h)

pub no_error :
    (b : Bool) (o : Outcome (List ℕ)) (u : Unit {0})
    → (if b then error_code_of o else ok tt) ≡ ok u
    → b ≡ false
unfolding error_code_of
no_error false o u h = refl
no_error true (ok code) u h = absurd (cc h)
no_error true (unavailable code) u h = absurd (cc h)
no_error true crashed u h = absurd (cc h)

is_approved :
    (ok' cancelled' : Bool)
    → (if ok' then approved else if cancelled' then cancelled else declined) ≡ approved
    → ok' ≡ true
is_approved true c h = refl
is_approved false true h = absurd (cc h)
is_approved false false h = absurd (cc h)

-- The texts of `transactionResult` that mean an approval, in any case and with spaces or dashes
unfoldable pub Approves : Fields → Type 0
Approves params =
    (text : List ℕ) × (text_or (get params "transactionResult") "" ≡ ok text)
    × (contains ok_results (underscored (upper text)) ≡ true)

text_approves :
    (o : Outcome (List ℕ)) (params : Fields) (r : Result)
    → result_of o params ≡ ok r
    → r.status ≡ approved
    → (text : List ℕ) × (o ≡ ok text) × (contains ok_results (underscored (upper text)) ≡ true)
unfolding result_of checked status_of
text_approves (ok text) params r h e =
    let raw = underscored (upper text) in
    let same : status_of raw ≡ r.status = ap (λ (x : Result). x.status) (checked-same _ _ r h) in
    (text, refl, is_approved (contains ok_results raw) (contains cancelled_results raw) (same ∙ e))
text_approves (unavailable code) params r h e = absurd (cc h)
text_approves crashed params r h e = absurd (cc h)

pub params_approve :
    (params : Fields) (r : Result)
    → result_from_params params ≡ ok r
    → r.status ≡ approved
    → Approves params
unfolding result_from_params Approves
params_approve params r h e =
    text_approves (text_or (get params "transactionResult") "") params r h e

empty_unless :
    (b : Bool) (w : Wire) (params : Fields)
    → ((if b then crash else pure {A = Fields} end) w).0 ≡ ok params
    → end ≡ params
empty_unless true w params h = absurd (cc h)
empty_unless false w params h = cc h

pub dict_or_empty-ok :
    (v : Json) (w : Wire) (params : Fields) → (dict_or_empty v w).0 ≡ ok params → dict_of v ≡ params
unfolding dict_or_empty dict_of
dict_or_empty-ok (obj fs) w params h = cc h
dict_or_empty-ok null w params h = empty_unless (truthy null) w params h
dict_or_empty-ok (bool b) w params h = empty_unless (truthy (bool b)) w params h
dict_or_empty-ok (num z) w params h = empty_unless (truthy (num z)) w params h
dict_or_empty-ok (float s) w params h = empty_unless (truthy (float s)) w params h
dict_or_empty-ok (str s) w params h = empty_unless (truthy (str s)) w params h
dict_or_empty-ok (arr xs) w params h = empty_unless (truthy (arr xs)) w params h

-- An answer to the question for the result that approves the payment
unfoldable pub Accepts : Json → Type 0
unfolding Approves dict_of
Accepts response =
    (fs : Fields) × (response ≡ obj fs)
    × (truthy (get fs "error") ≡ false)
    × Approves (dict_of (get fs "params"))
