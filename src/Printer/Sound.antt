-- ===== src/Printer/Sound.antt =====
-- The invariant of a printer over its whole life: the end of a worker, the discarded device, and the
-- count of the pending jobs.
use barhandler_manager.Prelude.{
  ℕ, ◌≡◌, refl, ap, sym, ◌∙◌, true, Option, none, some, List, [], ◌∷◌, ◌++◌, length, arith, nat_eq,
  length-append,
}
use barhandler_manager.Printer.Queue.{
  End, Worker, absent, waiting, preparing, flushing, flushed, Device, new, settle, ended,
  fail_queued_jobs, give_up, take_job, prepare, write_ends, resume, cancel_worker, disconnect,
  late_write_ended, late_write_ends, pending_jobs, queued,
}
use barhandler_manager.Printer.Account.{held, late, fail_jobs-all}
use barhandler_manager.Printer.Life.{
  Event, submits, gives_up, takes, resumes, connects, disconnects, prepares, writes, late_writes,
  step, run,
}
use barhandler_manager.Printer.Invariant.{
  flag, IsSound, in_use, ends, enqueue-IsSound, taken-IsSound, flag_of_held, prepared-IsSound,
  write_ended-IsSound, resumed-IsSound, connect-IsSound, late_write_ended-IsSound,
}

cancelled_flag :
    (d : Device) (w : Worker)
    → d.worker ≡ w
    → IsSound d
    → flag (cancel_worker w d).in_flight ≡ length (late (cancel_worker w d).writing)
unfolding cancel_worker ended settle
cancelled_flag d absent e (_, _, _, told) = omega (arith, told, ap (λ w. length (held w)) e)
cancelled_flag d waiting e (_, _, _, told) = omega (arith, told, ap (λ w. length (held w)) e)
cancelled_flag d (preparing job) e sound =
    sym (ap (λ o. length (late o)) (in_use d (preparing job) sound e (λ h. cc h)).1)
cancelled_flag d (flushing job) e sound =
    flag_of_held d (flushing job) e (in_use d (flushing job) sound e (λ h. cc h)).1 sound
cancelled_flag d (flushed job end') e sound =
    sym (ap (λ o. length (late o)) (in_use d (flushed job end') sound e (λ h. cc h)).1)

pub cancel_worker-absent : (d : Device) (w : Worker) → (cancel_worker w d).worker ≡ absent
unfolding cancel_worker ended settle
cancel_worker-absent d absent = refl
cancel_worker-absent d waiting = refl
cancel_worker-absent d (preparing job) = refl
cancel_worker-absent d (flushing job) = refl
cancel_worker-absent d (flushed job end') = refl

cancel_worker-retired : (d : Device) (w : Worker) → (cancel_worker w d).retired ≡ d.retired
unfolding cancel_worker ended settle
cancel_worker-retired d absent = refl
cancel_worker-retired d waiting = refl
cancel_worker-retired d (preparing job) = refl
cancel_worker-retired d (flushing job) = refl
cancel_worker-retired d (flushed job end') = refl

discarding_same :
    (d : Device) (w : Worker)
    → (flag (cancel_worker w (record d { retired = true })).in_flight
        ≡ flag (cancel_worker w d).in_flight)
      × ((cancel_worker w (record d { retired = true })).writing ≡ (cancel_worker w d).writing)
unfolding cancel_worker ended settle
discarding_same d absent = (refl, refl)
discarding_same d waiting = (refl, refl)
discarding_same d (preparing job) = (refl, refl)
discarding_same d (flushing job) = (refl, refl)
discarding_same d (flushed job end') = (refl, refl)

disconnect-IsSound : (d : Device) → IsSound d → IsSound (disconnect d)
unfolding disconnect fail_queued_jobs
disconnect-IsSound d sound =
    let stopped = cancel_worker d.worker (record d { retired = true }) in
    let e = fail_jobs-all stopped.queue (record stopped { queue = [] }) in
    let retired =
      ap (λ (y : Device). y.retired) e
      ∙ cancel_worker-retired (record d { retired = true }) d.worker in
    let gone =
      ap (λ (y : Device). y.worker) e
      ∙ cancel_worker-absent (record d { retired = true }) d.worker in
    let (flags, writes_on) = discarding_same d d.worker in
    let one = cancelled_flag d d.worker refl sound in
    let late_one : length (late stopped.writing)
        ≡ length (late (cancel_worker d.worker d).writing) =
      ap (λ o. length (late o)) writes_on in
    ends (disconnect d) (λ h. absurd (cc (retired, h))) gone (ap (λ (y : Device). y.queue) e) refl
      (ap (λ (y : Device). flag y.in_flight) e
        ∙ flags
        ∙ one
        ∙ sym late_one
        ∙ sym (ap (λ (y : Device). length (late y.writing)) e))

pub disconnect-empty : (d : Device) → ((disconnect d).worker ≡ absent) × ((disconnect d).queue ≡ [])
unfolding disconnect fail_queued_jobs
disconnect-empty d =
    let stopped = cancel_worker d.worker (record d { retired = true }) in
    let e = fail_jobs-all stopped.queue (record stopped { queue = [] }) in
    (
      ap (λ (y : Device). y.worker) e ∙ cancel_worker-absent (record d { retired = true }) d.worker,
      ap (λ (y : Device). y.queue) e,
    )

late_write_ended-empty :
    (d : Device) (writing : Option ℕ) (end' : End)
    → d.writing ≡ writing
    → ((late_write_ended writing end' d).worker ≡ d.worker)
      × ((late_write_ended writing end' d).queue ≡ d.queue)
      × ((late_write_ended writing end' d).writing ≡ none)
unfolding late_write_ended ended settle
late_write_ended-empty d none end' e = (refl, refl, e)
late_write_ended-empty d (some job) end' e = (refl, refl, refl)

pub late_write_ends-empty :
    (d : Device) (end' : End)
    → ((late_write_ends end' d).worker ≡ d.worker)
      × ((late_write_ends end' d).queue ≡ d.queue)
      × ((late_write_ends end' d).writing ≡ none)
unfolding late_write_ends
late_write_ends-empty d end' = late_write_ended-empty d d.writing end' refl

pub step-IsSound : (e : Event) (d : Device) → IsSound d → IsSound (step e d)
unfolding step take_job prepare write_ends resume late_write_ends give_up
step-IsSound (submits job) d = enqueue-IsSound job d
step-IsSound (gives_up job) d = λ sound. sound
step-IsSound takes d = taken-IsSound d d.worker d.queue refl
step-IsSound (prepares outcome) d = prepared-IsSound d d.worker outcome refl
step-IsSound (writes end') d = write_ended-IsSound d d.worker end' refl
step-IsSound resumes d = resumed-IsSound d d.worker refl
step-IsSound disconnects d = disconnect-IsSound d
step-IsSound (late_writes end') d = late_write_ended-IsSound d d.writing end' refl
step-IsSound connects d = connect-IsSound d

pub run-IsSound : (es : List Event) (d : Device) → IsSound d → IsSound (run es d)
unfolding run
run-IsSound [] d sound = sound
run-IsSound (e ∷ es) d sound = run-IsSound es (step e d) (step-IsSound e d sound)

pub new-IsSound : IsSound new
new-IsSound = (λ h. absurd (cc h), λ h. refl, λ h. (refl, refl), refl)

-- The jobs that have not ended: in the queue, with the worker, or in a write that outlived its worker.
unfoldable pub open_jobs : Device → List ℕ
open_jobs d = held d.worker ++ (late d.writing ++ d.queue)

queued-all : (w : Worker) (jobs : List ℕ) → (w ≡ absent → jobs ≡ []) → queued w jobs ≡ length jobs
queued-all absent jobs idle = sym (ap length (idle refl))
queued-all waiting jobs idle = refl
queued-all (preparing job) jobs idle = refl
queued-all (flushing job) jobs idle = refl
queued-all (flushed job end') jobs idle = refl

-- Over any life of a printer, the number of pending jobs that the update asks for is the number of the
-- jobs that have not ended: those in the queue, the one that the worker has, and one whose write goes on
-- after its worker was cancelled.
pub pending_jobs_exact :
    (es : List Event) → pending_jobs (run es new) ≡ length (open_jobs (run es new))
unfolding pending_jobs open_jobs
pending_jobs_exact es =
    let d = run es new in
    let (_, _, idle, told) = run-IsSound es new new-IsSound in
    omega (
      arith,
      told,
      queued-all d.worker d.queue (λ h. (idle h).0),
      length-append (held d.worker) (late d.writing ++ d.queue),
      length-append (late d.writing) d.queue,
    )
