-- ===== src/Printer/Tests.antt =====
-- Lives of a printer, and the theorems at concrete inputs.
use barhandler_manager.Prelude.{
  ◌+◌, ◌≡◌, refl, false, none, map, List, [], ◌∷◌, ◌++◌, length, contains, nat_eq,
}
use barhandler_manager.Printer.Queue.{
  new, wrote, lost, ready, printed, unavailable, pending_jobs, given, fail_jobs,
}
use barhandler_manager.Printer.Life.{
  Event, submits, takes, resumes, connects, disconnects, prepares, writes, run,
}
use barhandler_manager.Busy.Tracker.{idle, why_busy}
use barhandler_manager.Busy.Refusal.{Offline, busy_refusal}
use barhandler_manager.Printer.Update.{History, seen, AllDone, update_waits}
use barhandler_manager.Printer.Account.{times, jobs_of, ok_jobs, answered, out}
use barhandler_manager.Printer.Sound.{open_jobs, pending_jobs_exact}
use barhandler_manager.Printer.Told.{submitted, jobs_accounted, discarding, discarded_answered}

-- Two receipts; the second is being written when the printer is registered anew.
abbrev two_receipts : List Event
two_receipts =
    connects
    ∷ submits 1
    ∷ submits 2
    ∷ submits 3
    ∷ takes
    ∷ prepares ready
    ∷ writes wrote
    ∷ resumes
    ∷ takes
    ∷ prepares ready
    ∷ []

two_pending : pending_jobs (run two_receipts new) ≡ 2
unfolding run pending_jobs given
two_pending = refl

-- The write that outlives its worker is answered by its own end, and the job behind it is cancelled.
late_receipt :
    (run (two_receipts ++ discarding wrote) new).replies
    ≡ (1, printed) ∷ (3, unavailable "cancelled") ∷ (2, printed) ∷ []
unfolding run given fail_jobs
late_receipt = refl

-- A lost connection fails the job and cancels those behind it.
lost_connection :
    (run (two_receipts ++ writes lost ∷ resumes ∷ []) new).replies
    ≡ (1, printed) ∷ (2, unavailable "unreachable") ∷ (3, unavailable "cancelled") ∷ []
unfolding run given fail_jobs
lost_connection = refl

-- The paper of job 2 is out and its row says ok, but its client is told that the print was cancelled.
told_wrongly :
    ((run (two_receipts ++ writes wrote ∷ disconnects ∷ []) new).papers ≡ 1 ∷ 2 ∷ [])
    × ((run (two_receipts ++ writes wrote ∷ disconnects ∷ []) new).replies
        ≡ (1, printed) ∷ (2, unavailable "cancelled") ∷ (3, unavailable "cancelled") ∷ [])
unfolding run given fail_jobs
told_wrongly = (refl, refl)

pending_jobs_exact_example :
    pending_jobs (run two_receipts new) ≡ length (open_jobs (run two_receipts new))
pending_jobs_exact_example = pending_jobs_exact two_receipts

jobs_accounted_example :
    (times 2 (open_jobs (run two_receipts new)) + times 2 (jobs_of (run two_receipts new).rows)
      ≡ submitted 2 two_receipts)
    × (contains (run two_receipts new).left 2 ≡ false
        → times 2 (answered (run two_receipts new).replies)
          ≡ times 2 (jobs_of (run two_receipts new).rows))
    × (times 2 (run two_receipts new).papers
        ≡ times 2 (ok_jobs (run two_receipts new).rows)
          + times 2 (out (run two_receipts new).worker))
jobs_accounted_example = jobs_accounted 2 two_receipts

discarded_answered_example :
    (open_jobs (run (two_receipts ++ discarding wrote) new) ≡ [])
    × (contains (run (two_receipts ++ discarding wrote) new).left 2 ≡ false
        → times 2 (answered (run (two_receipts ++ discarding wrote) new).replies)
          ≡ submitted 2 two_receipts)
discarded_answered_example = discarded_answered 2 two_receipts wrote

abbrev done_receipt : List Event
done_receipt = connects ∷ submits 1 ∷ takes ∷ prepares ready ∷ writes wrote ∷ resumes ∷ []

abbrev bar : History
bar = record { name = "bar"; events = done_receipt }

abbrev offline_unused : Offline
offline_unused = record { extra = none; active = false; on_disk = none }

nothing_in_the_way : busy_refusal idle (map seen (bar ∷ [])) offline_unused ≡ none
unfolding busy_refusal why_busy pending_jobs run
nothing_in_the_way = refl

update_waits_example : AllDone (bar ∷ [])
update_waits_example = update_waits idle (bar ∷ []) offline_unused nothing_in_the_way
