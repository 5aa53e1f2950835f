-- ===== src/Busy/Refusal.antt =====
-- `printers_with_pending_jobs` and `busy_refusal`: why the manager must not be stopped now.
use barhandler_manager.Prelude.{
  ℕ, String, ◌≡◌, ◌↔◌, refl, Bool, false, Option, none, some, List, [], ◌∷◌, ◌++◌, arith, ltb,
  if◌then◌else◌,
}
use barhandler_manager.Prelude.Int.{ℤ, pos, ltb_ℤ}
use barhandler_manager.Json.{Fields, get, int_of}
use barhandler_manager.Busy.Tracker.{Tracker, why_busy}

-- A printer's device as the refusal sees it: its name and what `pending_jobs()` answers.
pub record Device : Type 0 where
  pub name : String
  pub pending_jobs : ℕ

-- `printers_with_pending_jobs` over `registry.devices_for_busy()`
unfoldable pub printers_with_pending_jobs : List Device → List String
printers_with_pending_jobs [] = []
printers_with_pending_jobs (d ∷ ds) =
    let rest = printers_with_pending_jobs ds in if ltb 0 d.pending_jobs then d.name ∷ rest else rest

-- What the offline service is known to hold: the `queued` of its last health answer, if there is a
-- service, the active shop's presence, and `queued_on_disk` of that shop.
pub record Offline : Type 0 where
  pub extra : Option Fields
  pub active : Bool
  pub on_disk : Option ℤ

health_queued : Option Fields → Option ℤ
health_queued none = none
health_queued (some fs) = int_of (get fs "queued")

disk_queued : Offline → Option ℤ
disk_queued o = if o.active then o.on_disk else none

or_else : Option ℤ → Option ℤ → Option ℤ
or_else none other = other
or_else (some z) other = some z

-- The count of operations that wait for the server, as `busy_refusal` settles it.
unfoldable pub queued_of : Offline → Option ℤ
unfolding health_queued disk_queued or_else
queued_of o = or_else (health_queued o.extra) (disk_queued o)

-- A reason of the refusal; `sorted` orders the printers for the text.
pub data Reason : Type 0 where
  in_flight : List String → Reason
  printing : List String → Reason
  offline : ℤ → Reason

flight_reasons : Option (List String) → List Reason
flight_reasons none = []
flight_reasons (some labels) = in_flight labels ∷ []

printing_reasons : List String → List Reason
printing_reasons [] = []
printing_reasons (p ∷ ps) = printing (p ∷ ps) ∷ []

offline_reasons : Option ℤ → List Reason
offline_reasons none = []
offline_reasons (some z) = if ltb_ℤ (pos 0) z then offline z ∷ [] else []

-- `busy_refusal`: no reason, no refusal
unfoldable pub reasons : Tracker → List Device → Offline → List Reason
unfolding printers_with_pending_jobs queued_of flight_reasons printing_reasons offline_reasons
reasons t devices o =
    flight_reasons (why_busy t)
    ++ (printing_reasons (printers_with_pending_jobs devices) ++ offline_reasons (queued_of o))

refused : List Reason → Option (List Reason)
refused [] = none
refused (r ∷ rs) = some (r ∷ rs)

unfoldable pub busy_refusal : Tracker → List Device → Offline → Option (List Reason)
unfolding reasons refused
busy_refusal t devices o = refused (reasons t devices o)

-- Every device has printed all its jobs.
abbrev pub AllPrinted : List Device → Type 0
AllPrinted [] = Unit
AllPrinted (d ∷ ds) = (d.pending_jobs ≡ 0) × AllPrinted ds

all_printed : (ds : List Device) → (printers_with_pending_jobs ds ≡ []) ↔ AllPrinted ds
unfolding printers_with_pending_jobs
all_printed [] = (λ h. tt, λ h. refl)
all_printed (d ∷ ds) = ground (arith, all_printed ds)

-- No operation is known to wait for the server: the number counted is not positive, or unknown.
abbrev pub NothingQueued : Option ℤ → Type 0
NothingQueued none = Unit
NothingQueued (some z) = ltb_ℤ (pos 0) z ≡ false

no_reason :
    (w : Option (List String)) (ps : List String) (q : Option ℤ)
    → (refused (flight_reasons w ++ (printing_reasons ps ++ offline_reasons q)) ≡ none)
      ↔ ((w ≡ none) × (ps ≡ []) × NothingQueued q)
unfolding refused flight_reasons printing_reasons offline_reasons
no_reason (some ls) ps q = (λ h. cc, λ h. cc)
no_reason none (p ∷ ps) q = (λ h. cc, λ h. cc (h.1))
no_reason none [] none = (λ h. (refl, refl, tt), λ h. refl)
no_reason none [] (some z) = ground arith

-- The update is let through exactly when no critical request is in flight, every printer has
-- printed its jobs, and no offline operation is known to wait for the server.
pub busy_refusal-none_iff :
    (t : Tracker) (devices : List Device) (o : Offline)
    → (busy_refusal t devices o ≡ none)
      ↔ ((why_busy t ≡ none) × AllPrinted devices × NothingQueued (queued_of o))
unfolding busy_refusal
busy_refusal-none_iff t devices o =
    let (free, refusal) =
      no_reason (why_busy t) (printers_with_pending_jobs devices) (queued_of o) in
    let (idle, printed) = all_printed devices in
    (λ h. ((free h).0, idle (free h).1, (free h).2), λ h. refusal (h.0, printed h.1, h.2))
