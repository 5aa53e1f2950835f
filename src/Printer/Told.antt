-- ===== src/Printer/Told.antt =====
-- Every job ends once: it has one row, one answer if its client waits for it, and the rows that say ok
-- are those of the papers that came out.
use barhandler_manager.Prelude.{
  ℕ, ◌+◌, ◌≡◌, refl, ap, ◌∙◌, ◌⊎◌, inl, inr, true, false, none, List, [], ◌∷◌, ◌++◌, arith, ◌==◌,
  if◌then◌else◌, Bool-cases, contains, nat_eq,
}
use barhandler_manager.Printer.Queue.{
  row_failed, unavailable, End, Worker, absent, waiting, preparing, flushing, flushed, Device, new,
  settle, ended, enqueue, give_up, take_job, prepare, write_ends, resume, cancel_worker, disconnect,
  late_write_ends, connect, started,
}
use barhandler_manager.Printer.Account.{
  times, held, late, jobs_of, ok_jobs, answered, out, Accounted, times-append,
}
use barhandler_manager.Printer.Ends.{
  closes, fail_queued_jobs-Accounted, taken-Accounted, prepared-Accounted, write_ended-Accounted,
  resumed-Accounted, cancel_worker-Accounted, late_write_ended-Accounted,
}
use barhandler_manager.Printer.Invariant.{IsSound, by_test}
use barhandler_manager.Printer.Sound.{
  step-IsSound, new-IsSound, open_jobs, disconnect-empty, late_write_ends-empty,
}
use barhandler_manager.Printer.Life.{
  Event, submits, gives_up, takes, resumes, connects, disconnects, prepares, writes, late_writes,
  step, run,
}

-- How often a job was submitted
abbrev pub submitted : ℕ → List Event → ℕ
submitted x [] = 0
submitted x (submits job ∷ es) = (if job == x then 1 else 0) + submitted x es
submitted x (_ ∷ es) = submitted x es

started-same : (w : Worker) → (held (started w) ≡ held w) × (out (started w) ≡ out w)
started-same absent = (refl, refl)
started-same waiting = (refl, refl)
started-same (preparing job) = (refl, refl)
started-same (flushing job) = (refl, refl)
started-same (flushed job end') = (refl, refl)

module _ (x n : ℕ) where
  enqueue-Accounted :
      (job : ℕ) (d : Device)
      → Accounted x n d
      → Accounted x (n + times x (job ∷ [])) (enqueue job d)
  unfolding enqueue ended settle
  enqueue-Accounted job d (all, told, paid) =
      by_test (Accounted x (n + times x (job ∷ []))) d.connected
        (record d { queue = d.queue ++ job ∷ [] })
        (ended job row_failed (unavailable "unavailable") d)
        (λ e. (omega (arith, all, times-append x d.queue (job ∷ [])), told, paid))
        λ e.
          closes x (n + times x (job ∷ [])) (record d { queue = job ∷ d.queue })
            (ended job row_failed (unavailable "unavailable") d) job row_failed
            (unavailable "unavailable") refl refl refl (omega arith) (omega arith)
            (omega (arith, all), told, paid)

  give_up-Accounted : (job : ℕ) (d : Device) → Accounted x n d → Accounted x n (give_up job d)
  unfolding give_up
  give_up-Accounted job d (all, told, paid) = (all, λ waits. told (ground (arith, waits)), paid)

  connect-Accounted : (d : Device) → Accounted x n d → Accounted x n (connect d)
  unfolding connect
  connect-Accounted d accounted =
      let on : Device = record d { connected = true; worker = started d.worker } in
      by_test (Accounted x n) d.retired d (if d.connected then d else on) (λ e. accounted)
        λ e.
          by_test (Accounted x n) d.connected d on (λ f. accounted)
            λ f.
              let (held_same, out_same) = started-same d.worker in
              let (all, told, paid) = accounted in
              (
                omega (arith, all, ap (times x) held_same),
                told,
                omega (arith, paid, ap (times x) out_same),
              )

  disconnect-Accounted : (d : Device) → IsSound d → Accounted x n d → Accounted x n (disconnect d)
  unfolding disconnect
  disconnect-Accounted d sound accounted =
      fail_queued_jobs-Accounted x n (cancel_worker d.worker (record d { retired = true }))
        (cancel_worker-Accounted x n (record d { retired = true }) d.worker refl one accounted)
    where
      one : (d.writing ≡ none) ⊎ (d.worker ≡ absent)
      one = elim (Bool-cases d.retired) [ inl h ↦ inr (sound.0 h) | inr h ↦ inl (sound.1 h) ]

step-Accounted :
    (x n : ℕ) (e : Event) (d : Device)
    → IsSound d
    → Accounted x n d
    → Accounted x (n + submitted x (e ∷ [])) (step e d)
unfolding step take_job prepare write_ends resume late_write_ends
step-Accounted x n e d sound accounted = by e
  where
    same : n + 0 ≡ n
    same = omega arith

    unmoved : (d' : Device) → Accounted x n d' → Accounted x (n + 0) d'
    unmoved d' h = rw same h

    by : (e : Event) → Accounted x (n + submitted x (e ∷ [])) (step e d)
    by (submits job) = enqueue-Accounted x n job d accounted
    by (gives_up job) = unmoved (give_up job d) (give_up-Accounted x n job d accounted)
    by takes = unmoved (take_job d) (taken-Accounted x n d d.worker d.queue refl refl accounted)
    by (prepares outcome) =
        unmoved (prepare outcome d) (prepared-Accounted x n d d.worker outcome refl accounted)
    by (writes end') =
        unmoved (write_ends end' d) (write_ended-Accounted x n d d.worker end' refl accounted)
    by resumes = unmoved (resume d) (resumed-Accounted x n d d.worker refl accounted)
    by disconnects = unmoved (disconnect d) (disconnect-Accounted x n d sound accounted)
    by (late_writes end') =
        unmoved (late_write_ends end' d)
          (late_write_ended-Accounted x n d d.writing end' refl accounted)
    by connects = unmoved (connect d) (connect-Accounted x n d accounted)

submitted-cons :
    (x : ℕ) (e : Event) (es : List Event)
    → submitted x (e ∷ es) ≡ submitted x (e ∷ []) + submitted x es
submitted-cons x (submits job) es = omega arith
submitted-cons x (gives_up job) es = omega arith
submitted-cons x takes es = omega arith
submitted-cons x (prepares outcome) es = omega arith
submitted-cons x (writes end') es = omega arith
submitted-cons x resumes es = omega arith
submitted-cons x disconnects es = omega arith
submitted-cons x (late_writes end') es = omega arith
submitted-cons x connects es = omega arith

run-Accounted :
    (x n : ℕ) (es : List Event) (d : Device)
    → IsSound d
    → Accounted x n d
    → Accounted x (n + submitted x es) (run es d)
unfolding run
run-Accounted x n [] d sound accounted = let same : n + 0 ≡ n = omega arith in rw same accounted
run-Accounted x n (e ∷ es) d sound accounted =
    let sum : n + submitted x (e ∷ es) ≡ n + submitted x (e ∷ []) + submitted x es =
      omega (arith, submitted-cons x e es) in
    rw sum (
      run-Accounted x (n + submitted x (e ∷ [])) es (step e d) (step-IsSound e d sound)
        (step-Accounted x n e d sound accounted))

-- Over any life of a printer (jobs, clients that go away, writes that fail, a lost connection, a worker
-- that is cancelled in the middle of a write), a job is open or has its row in the journal, once for each
-- time that it was submitted. As long as its client waits it has one answer for each row. The rows that
-- say ok are those of the papers that came out, one more paper being out while the worker has not gone
-- on after the write.
pub jobs_accounted :
    (x : ℕ) (es : List Event)
    → (times x (open_jobs (run es new)) + times x (jobs_of (run es new).rows) ≡ submitted x es)
      × (contains (run es new).left x ≡ false
          → times x (answered (run es new).replies) ≡ times x (jobs_of (run es new).rows))
      × (times x (run es new).papers
          ≡ times x (ok_jobs (run es new).rows) + times x (out (run es new).worker))
unfolding open_jobs
jobs_accounted x es =
    let (all, told, paid) = run-Accounted x 0 es new new-IsSound (refl, λ waits. refl, refl) in
    let d = run es new in
    (
      omega (
        arith,
        all,
        times-append x (held d.worker) (late d.writing ++ d.queue),
        times-append x (late d.writing) d.queue,
      ),
      told,
      paid,
    )

run-append : (es fs : List Event) (d : Device) → run (es ++ fs) d ≡ run fs (run es d)
unfolding run
run-append [] fs d = refl
run-append (e ∷ es) fs d = run-append es fs (step e d)

submitted-append :
    (x : ℕ) (es fs : List Event) → submitted x (es ++ fs) ≡ submitted x es + submitted x fs
submitted-append x [] fs = omega arith
submitted-append x (e ∷ es) fs =
    omega (arith, submitted-cons x e es, submitted-cons x e (es ++ fs), submitted-append x es fs)

open-none :
    (d : Device) → held d.worker ≡ [] → late d.writing ≡ [] → d.queue ≡ [] → open_jobs d ≡ []
unfolding open_jobs
open-none d h l q = ap (λ a. a ++ (late d.writing ++ d.queue)) h ∙ ap (λ a. a ++ d.queue) l ∙ q

-- The device is discarded, and a write that goes on ends.
abbrev pub discarding : End → List Event
discarding end' = disconnects ∷ late_writes end' ∷ []

discarded-open : (es : List Event) (end' : End) → open_jobs (run (es ++ discarding end') new) ≡ []
unfolding run step
discarded-open es end' =
    let d = disconnect (run es new) in
    let (gone, drained) = disconnect-empty (run es new) in
    let (worker, queue, writing) = late_write_ends-empty d end' in
    let e = run-append es (discarding end') new in
    let held_none : held (late_write_ends end' d).worker ≡ [] = ap held (worker ∙ gone) in
    let late_none : late (late_write_ends end' d).writing ≡ [] = ap late writing in
    let queue_none : (late_write_ends end' d).queue ≡ [] = queue ∙ drained in
    ap open_jobs e ∙ open-none (late_write_ends end' d) held_none late_none queue_none

-- After a device was discarded, and the write that outlived its worker has ended, nothing is open, and
-- every client that waits has been answered, once for each time that its job was submitted.
pub discarded_answered :
    (x : ℕ) (es : List Event) (end' : End)
    → (open_jobs (run (es ++ discarding end') new) ≡ [])
      × (contains (run (es ++ discarding end') new).left x ≡ false
          → times x (answered (run (es ++ discarding end') new).replies) ≡ submitted x es)
discarded_answered x es end' =
    let (all, told, _) = jobs_accounted x (es ++ discarding end') in
    let none_open = discarded-open es end' in
    (
      none_open,
      λ waits.
          omega (
            arith,
            all,
            told waits,
            ap (times x) none_open,
            submitted-append x es (discarding end'),
          ),
    )
