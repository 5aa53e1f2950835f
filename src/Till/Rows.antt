-- ===== src/Till/Rows.antt =====
-- The rows of the journal that payments and refunds leave.
use barhandler_manager.Prelude.{
  ◌≡◌, ◌≢◌, ◌↔◌, refl, Bool, true, false, some, [], ◌∷◌, String, string_eq, ◌==◌,
}
use barhandler_manager.Prelude.Int.{ℤ}
use barhandler_manager.Journal.Rows.{Deed}
use barhandler_manager.Registry.Model.{Registration}
use barhandler_manager.Registry.Ids.{Protocol}
use barhandler_manager.Ssi.Outcome.{Status, approved, declined, cancelled}
use barhandler_manager.Till.Request.{
  found, Ended, answered, unavailable, raised, rejected, given_up, spoke, row_status, done, failed,
  unfinished, attempted, operate,
}

-- The terminal approved the operation.
abbrev pub IsApproved : Ended → Type 0
IsApproved (answered j) = j.status ≡ approved
IsApproved _ = ⊥

-- The call of the adapter ended with an `HTTPException`, or the request was cancelled.
abbrev pub IsCutShort : Ended → Type 0
IsCutShort (rejected p) = Unit
IsCutShort given_up = Unit
IsCutShort _ = ⊥

-- The adapter raised `TerminalUnavailable` or another exception, or reported a refusal of which the
-- terminal itself said nothing: no response code and no result of its own.
abbrev pub IsFailure : Ended → Type 0
IsFailure (answered j) = (j.status ≡ declined) × (spoke j ≡ false)
IsFailure (unavailable text code) = Unit
IsFailure (raised text) = Unit
IsFailure _ = ⊥

apart : (s t : String) → (s == t) ≡ false → s ≢ t
apart s t e h = let same = (string_eq.agree_iff s t).1 h in cc (same, e)

row_status-ok :
    (status : Status) (heard : Bool) → (row_status status heard ≡ "ok") ↔ (status ≡ approved)
unfolding row_status
row_status-ok approved heard = (λ h. refl, λ h. refl)
row_status-ok cancelled heard = (λ h. absurd (apart "cancelled" "ok" refl h), λ h. absurd (cc h))
row_status-ok declined true = (λ h. absurd (apart "declined" "ok" refl h), λ h. absurd (cc h))
row_status-ok declined false = (λ h. absurd (apart "failed" "ok" refl h), λ h. absurd (cc h))

row_status-unknown : (status : Status) (heard : Bool) → row_status status heard ≢ "unknown"
unfolding row_status
row_status-unknown approved heard = apart "ok" "unknown" refl
row_status-unknown cancelled heard = apart "cancelled" "unknown" refl
row_status-unknown declined true = apart "declined" "unknown" refl
row_status-unknown declined false = apart "failed" "unknown" refl

row_status-failed :
    (status : Status) (heard : Bool)
    → (row_status status heard ≡ "failed") ↔ ((status ≡ declined) × (heard ≡ false))
unfolding row_status
row_status-failed declined false = (λ h. (refl, refl), λ h. refl)
row_status-failed declined true =
    (λ h. absurd (apart "declined" "failed" refl h), λ h. absurd (cc (h.1)))
row_status-failed approved heard =
    (λ h. absurd (apart "ok" "failed" refl h), λ h. absurd (cc (h.0)))
row_status-failed cancelled heard =
    (λ h. absurd (apart "cancelled" "failed" refl h), λ h. absurd (cc (h.0)))

abbrev failed_row : String
failed_row = "failed"

abbrev unknown_row : String
unknown_row = "unknown"

-- What the row says of an attempt that ended so
abbrev pub Tells : String → String → ℤ → Ended → Deed → Type 0
Tells action id amount ended deed =
    (deed.device_id ≡ id)
    × (deed.action ≡ action)
    × (deed.amount_kopecks ≡ some amount)
    × ((deed.status ≡ "ok") ↔ IsApproved ended)
    × ((deed.status ≡ "unknown") ↔ IsCutShort ended)
    × ((deed.status ≡ "failed") ↔ IsFailure ended)

-- A payment or a refund that found its terminal leaves one row, however the call of the adapter ends,
-- its cancellation included. The row says ok exactly when the terminal approved; unknown exactly when
-- the call ended with an HTTPException or the request was cancelled; and failed exactly when the adapter
-- raised (a TerminalUnavailable for a timeout included), or reported a refusal of which the terminal
-- said nothing.
pub operate_one_row :
    (action id : String) (amount : ℤ) (protocol : Protocol) (reg : Registration)
    (run : Protocol → Registration → Ended)
    → (deed : Deed) × ((operate action amount (found id protocol reg) run).1 ≡ deed ∷ [])
      × Tells action id amount (run protocol reg) deed
unfolding operate attempted done failed unfinished
operate_one_row action id amount protocol reg run = by (run protocol reg)
  where
    failing : (ended : Ended) → (IsApproved ended → ⊥) → ((failed_row ≡ "ok") ↔ IsApproved ended)
    failing ended not_so = (λ h. absurd (apart "failed" "ok" refl h), λ h. absurd (not_so h))

    unheard : (failed_row ≡ "unknown") ↔ ⊥
    unheard = (λ h. absurd (apart "failed" "unknown" refl h), λ h. absurd h)

    cut : (unknown_row ≡ "failed") ↔ ⊥
    cut = (λ h. absurd (apart "unknown" "failed" refl h), λ h. absurd h)

    unknown : (unknown_row ≡ "ok") ↔ ⊥
    unknown = (λ h. absurd (apart "unknown" "ok" refl h), λ h. absurd h)

    by :
        (e : Ended)
        → (deed : Deed) × ((operate action amount (found id protocol reg) (λ p r. e)).1 ≡ deed ∷ [])
          × Tells action id amount e deed
    by (answered j) = (
      _,
      refl,
      (
        refl,
        refl,
        refl,
        row_status-ok j.status (spoke j),
        (λ h. absurd (row_status-unknown j.status (spoke j) h), λ h. absurd h),
        row_status-failed j.status (spoke j),
      ),
    )
    by (unavailable text code) = (
      _,
      refl,
      (refl, refl, refl, failing (unavailable text code) (λ h. h), unheard, (λ h. tt, λ h. refl)),
    )
    by (raised text) =
        (_, refl, (refl, refl, refl, failing (raised text) (λ h. h), unheard, (λ h. tt, λ h. refl)))
    by (rejected p) = (_, refl, (refl, refl, refl, unknown, (λ h. tt, λ h. refl), cut))
    by given_up = (_, refl, (refl, refl, refl, unknown, (λ h. tt, λ h. refl), cut))
