-- ===== src/Printer/Update.antt =====
-- The guard of the update (services/busy.py) over the printers of this module.
use barhandler_manager.Prelude.{ℕ, ◌≡◌, refl, sym, ◌∙◌, none, List, [], ◌∷◌, map, length, String}
use barhandler_manager.Busy.Tracker.{Tracker}
use barhandler_manager.Busy.Refusal.{
  Device, Offline, busy_refusal, busy_refusal-none_iff, AllPrinted,
}
use barhandler_manager.Printer.Queue.{pending_jobs, new}
use barhandler_manager.Printer.Life.{Event, run}
use barhandler_manager.Printer.Sound.{open_jobs, pending_jobs_exact}

-- A printer of the station: its name, and what has happened to it
pub record History : Type 0 where
  pub name : String
  pub events : List Event

-- What the guard asks of it
abbrev pub seen : History → Device
seen p = record { name = p.name; pending_jobs = pending_jobs (run p.events new) }

-- No printer has a job that has not ended.
abbrev pub AllDone : List History → Type 0
AllDone [] = Unit
AllDone (p ∷ ps) = (open_jobs (run p.events new) ≡ []) × AllDone ps

length-zero : (ns : List ℕ) → length ns ≡ 0 → ns ≡ []
length-zero [] h = refl
length-zero (n ∷ ns) h = absurd (cc h)

all_done : (ps : List History) → AllPrinted (map seen ps) → AllDone ps
all_done [] h = tt
all_done (p ∷ ps) (printed, rest) = (
  length-zero (open_jobs (run p.events new)) (sym (pending_jobs_exact p.events) ∙ printed),
  all_done ps rest,
)

-- The update is let through only when no printer has a job that has not ended: none in its queue, none
-- in work, and no write that goes on after its worker was cancelled.
pub update_waits :
    (t : Tracker) (ps : List History) (o : Offline)
    → busy_refusal t (map seen ps) o ≡ none
    → AllDone ps
update_waits t ps o h =
    let (_, printed, _) = (busy_refusal-none_iff t (map seen ps) o).0 h in all_done ps printed
