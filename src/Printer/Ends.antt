-- ===== src/Printer/Ends.antt =====
-- Each handler keeps the account of the jobs.
use barhandler_manager.Prelude.{
  ℕ, ◌+◌, ◌≡◌, refl, ap, ◌∙◌, ◌⊎◌, inl, inr, false, Option, none, some, List, [], ◌∷◌, ◌++◌, arith,
  nat_eq, contains, sym,
}
use barhandler_manager.Printer.Queue.{
  Row, RowStatus, row_ok, row_failed, row_cancelled, Reply, End, wrote, lost, broke, Worker, absent,
  waiting, preparing, flushing, flushed, Device, given, unavailable, settle, ended, fail_jobs,
  fail_queued_jobs, taken, Prepared, ready, lost_before, refused, job_failed, connection_lost,
  prepared, write_ended, resumed, cancel_worker, late_write_ended, row_of, reply_of, paper_of,
  printed, raised,
}
use barhandler_manager.Printer.Account.{
  times, held, late, jobs_of, ok_of, ok_jobs, answered, out, times-append, times-jobs_of,
  times-ok_jobs, times-given, cancelled_rows, given_all, fail_jobs-all, times-given_all,
  times-cancelled_rows, Accounted,
}

module _ (x n : ℕ) where
  -- A job that was open ends: its row and its answer come together, and another worker takes over.
  pub closes :
      (d d' : Device) (job : ℕ) (status : RowStatus) (reply : Reply)
      → d'.rows ≡ d.rows ++ record { job = job; status = status } ∷ []
      → d'.replies ≡ given d.left job reply d.replies
      → d'.left ≡ d.left
      → times x (held d'.worker) + times x (late d'.writing) + times x d'.queue + times x (job ∷ [])
        ≡ times x (held d.worker) + times x (late d.writing) + times x d.queue
      → times x d'.papers + times x (out d.worker)
        ≡ times x d.papers + times x (ok_of status job) + times x (out d'.worker)
      → Accounted x n d
      → Accounted x n d'
  closes d d' job status reply rows replies left opened papers (all, told, paid) =
      let row : List Row = record { job = job; status = status } ∷ [] in
      let rowed : times x (jobs_of d'.rows) ≡ times x (jobs_of d.rows) + times x (job ∷ []) =
        ap (λ rs. times x (jobs_of rs)) rows ∙ times-jobs_of x d.rows row in
      let ok_rowed : times x (ok_jobs d'.rows) ≡ times x (ok_jobs d.rows) + times x (ok_jobs row) =
        ap (λ rs. times x (ok_jobs rs)) rows ∙ times-ok_jobs x d.rows row in
      let alone = times-append x (ok_of status job) [] in
      (
        omega (arith, rowed, opened, all),
        λ waits.
            let waited : contains d.left x ≡ false = ap (λ l. contains l x) (sym left) ∙ waits in
            ap (λ rs. times x (answered rs)) replies
            ∙ times-given x job d.left reply d.replies waited
            ∙ omega (arith, rowed, told waited),
        omega (arith, ok_rowed, alone, papers, paid),
      )

  -- The jobs of the queue end, all of them.
  drains :
      (d d' : Device)
      → d'.rows ≡ d.rows ++ cancelled_rows d.queue
      → d'.replies ≡ given_all d.left d.queue d.replies
      → d'.left ≡ d.left
      → d'.queue ≡ []
      → times x (held d'.worker) + times x (late d'.writing)
        ≡ times x (held d.worker) + times x (late d.writing)
      → d'.papers ≡ d.papers
      → times x (out d'.worker) ≡ times x (out d.worker)
      → Accounted x n d
      → Accounted x n d'
  drains d d' rows replies left queue opened papers outs (all, told, paid) =
      let (cancelled, none_ok) = times-cancelled_rows x d.queue in
      let rowed : times x (jobs_of d'.rows) ≡ times x (jobs_of d.rows) + times x d.queue =
        ap (λ rs. times x (jobs_of rs)) rows
        ∙ omega (arith, times-jobs_of x d.rows (cancelled_rows d.queue), cancelled) in
      let ok_rowed : times x (ok_jobs d'.rows) ≡ times x (ok_jobs d.rows) =
        ap (λ rs. times x (ok_jobs rs)) rows
        ∙ omega (arith, times-ok_jobs x d.rows (cancelled_rows d.queue), none_ok) in
      let emptied : times x d'.queue ≡ 0 = ap (times x) queue in
      (
        omega (arith, rowed, opened, emptied, all),
        λ waits.
            let waited : contains d.left x ≡ false = ap (λ l. contains l x) (sym left) ∙ waits in
            ap (λ rs. times x (answered rs)) replies
            ∙ times-given_all x d.left d.queue d.replies waited
            ∙ omega (arith, rowed, told waited),
        omega (arith, ok_rowed, ap (times x) papers, outs, paid),
      )

  pub fail_queued_jobs-Accounted :
      (d : Device) → Accounted x n d → Accounted x n (fail_queued_jobs d)
  unfolding fail_queued_jobs
  fail_queued_jobs-Accounted d =
      let e = fail_jobs-all d.queue (record d { queue = [] }) in
      drains d (fail_jobs d.queue (record d { queue = [] })) (ap (λ (y : Device). y.rows) e)
        (ap (λ (y : Device). y.replies) e) (ap (λ (y : Device). y.left) e)
        (ap (λ (y : Device). y.queue) e)
        (ap (λ (y : Device). times x (held y.worker) + times x (late y.writing)) e)
        (ap (λ (y : Device). y.papers) e) (ap (λ (y : Device). times x (out y.worker)) e)

  job_failed-Accounted :
      (d : Device) (job : ℕ) (reply : Reply)
      → held d.worker ≡ job ∷ []
      → out d.worker ≡ []
      → Accounted x n d
      → Accounted x n (job_failed job reply d)
  unfolding job_failed ended settle
  job_failed-Accounted d job reply has no_paper =
      closes d (job_failed job reply d) job row_failed reply refl refl refl
        (omega (arith, ap (times x) has)) (omega (arith, ap (times x) no_paper))

  connection_lost-Accounted :
      (d : Device) (job : ℕ)
      → held d.worker ≡ job ∷ []
      → out d.worker ≡ []
      → Accounted x n d
      → Accounted x n (connection_lost job d)
  unfolding connection_lost ended settle
  connection_lost-Accounted d job has no_paper given_d =
      let failed = ended job row_failed (unavailable "unreachable") d in
      let gone = record failed { connected = false; worker = absent; in_flight = false } in
      fail_queued_jobs-Accounted gone (
        closes d gone job row_failed (unavailable "unreachable") refl refl refl
          (omega (arith, ap (times x) has)) (omega (arith, ap (times x) no_paper)) given_d)

  pub taken-Accounted :
      (d : Device) (w : Worker) (jobs : List ℕ)
      → d.worker ≡ w
      → d.queue ≡ jobs
      → Accounted x n d
      → Accounted x n (taken w jobs d)
  unfolding taken
  taken-Accounted d waiting [] e f held_d = held_d
  taken-Accounted d waiting (job ∷ rest) e f (all, told, paid) = (
    omega (arith, all, ap (λ w. times x (held w)) e, ap (times x) f),
    told,
    omega (arith, paid, ap (λ w. times x (out w)) e),
  )
  taken-Accounted d absent jobs e f held_d = held_d
  taken-Accounted d (preparing job) jobs e f held_d = held_d
  taken-Accounted d (flushing job) jobs e f held_d = held_d
  taken-Accounted d (flushed job end') jobs e f held_d = held_d

  pub prepared-Accounted :
      (d : Device) (w : Worker) (outcome : Prepared)
      → d.worker ≡ w
      → Accounted x n d
      → Accounted x n (prepared w outcome d)
  unfolding prepared
  prepared-Accounted d (preparing job) ready e (all, told, paid) = (
    omega (arith, all, ap (λ w. times x (held w)) e),
    told,
    omega (arith, paid, ap (λ w. times x (out w)) e),
  )
  prepared-Accounted d (preparing job) lost_before e held_d =
      connection_lost-Accounted d job (ap held e) (ap out e) held_d
  prepared-Accounted d (preparing job) (refused reply) e held_d =
      job_failed-Accounted d job reply (ap held e) (ap out e) held_d
  prepared-Accounted d absent outcome e held_d = held_d
  prepared-Accounted d waiting outcome e held_d = held_d
  prepared-Accounted d (flushing job) outcome e held_d = held_d
  prepared-Accounted d (flushed job end') outcome e held_d = held_d

  row_of-out : (job : ℕ) (end' : End) → ok_of (row_of end') job ≡ out (flushed job end')
  row_of-out job wrote = refl
  row_of-out job lost = refl
  row_of-out job broke = refl

  paper_of-out : (job : ℕ) (end' : End) → paper_of job end' ≡ out (flushed job end')
  paper_of-out job wrote = refl
  paper_of-out job lost = refl
  paper_of-out job broke = refl

  pub write_ended-Accounted :
      (d : Device) (w : Worker) (end' : End)
      → d.worker ≡ w
      → Accounted x n d
      → Accounted x n (write_ended w end' d)
  unfolding write_ended
  write_ended-Accounted d (flushing job) end' e (all, told, paid) = (
    omega (arith, all, ap (λ w. times x (held w)) e),
    told,
    omega (
      arith,
      paid,
      ap (λ w. times x (out w)) e,
      times-append x d.papers (paper_of job end'),
      ap (times x) (paper_of-out job end'),
    ),
  )
  write_ended-Accounted d absent end' e held_d = held_d
  write_ended-Accounted d waiting end' e held_d = held_d
  write_ended-Accounted d (preparing job) end' e held_d = held_d
  write_ended-Accounted d (flushed job end'') end' e held_d = held_d

  pub resumed-Accounted :
      (d : Device) (w : Worker) → d.worker ≡ w → Accounted x n d → Accounted x n (resumed w d)
  unfolding resumed ended settle
  resumed-Accounted d (flushed job wrote) e held_d =
      closes d (resumed (flushed job wrote) d) job row_ok printed refl refl refl
        (omega (arith, ap (λ w. times x (held w)) e)) (omega (arith, ap (λ w. times x (out w)) e))
        held_d
  resumed-Accounted d (flushed job lost) e held_d =
      connection_lost-Accounted d job (ap held e) (ap out e) held_d
  resumed-Accounted d (flushed job broke) e held_d =
      job_failed-Accounted d job raised (ap held e) (ap out e) held_d
  resumed-Accounted d absent e held_d = held_d
  resumed-Accounted d waiting e held_d = held_d
  resumed-Accounted d (preparing job) e held_d = held_d
  resumed-Accounted d (flushing job) e held_d = held_d

  pub cancel_worker-Accounted :
      (d : Device) (w : Worker)
      → d.worker ≡ w
      → (d.writing ≡ none) ⊎ (w ≡ absent)
      → Accounted x n d
      → Accounted x n (cancel_worker w d)
  unfolding cancel_worker ended settle
  cancel_worker-Accounted d absent e one (all, told, paid) = (
    omega (arith, all, ap (λ w. times x (held w)) e),
    told,
    omega (arith, paid, ap (λ w. times x (out w)) e),
  )
  cancel_worker-Accounted d waiting e one (all, told, paid) = (
    omega (arith, all, ap (λ w. times x (held w)) e),
    told,
    omega (arith, paid, ap (λ w. times x (out w)) e),
  )
  cancel_worker-Accounted d (preparing job) e one held_d =
      closes d (cancel_worker (preparing job) d) job row_cancelled (unavailable "cancelled") refl
        refl refl (omega (arith, ap (λ w. times x (held w)) e))
        (omega (arith, ap (λ w. times x (out w)) e)) held_d
  cancel_worker-Accounted d (flushing job) e (inl alone) (all, told, paid) = (
    omega (arith, all, ap (λ w. times x (held w)) e, ap (λ o. times x (late o)) alone),
    told,
    omega (arith, paid, ap (λ w. times x (out w)) e),
  )
  cancel_worker-Accounted d (flushing job) e (inr none_left) held_d = absurd (cc none_left)
  cancel_worker-Accounted d (flushed job end') e one held_d =
      closes d (cancel_worker (flushed job end') d) job (row_of end') (unavailable "cancelled") refl
        refl refl (omega (arith, ap (λ w. times x (held w)) e))
        (omega (arith, ap (λ w. times x (out w)) e, ap (times x) (row_of-out job end'))) held_d

  pub late_write_ended-Accounted :
      (d : Device) (writing : Option ℕ) (end' : End)
      → d.writing ≡ writing
      → Accounted x n d
      → Accounted x n (late_write_ended writing end' d)
  unfolding late_write_ended ended settle
  late_write_ended-Accounted d none end' e held_d = held_d
  late_write_ended-Accounted d (some job) end' e held_d =
      closes d (late_write_ended (some job) end' d) job (row_of end') (reply_of end') refl refl refl
        (omega (arith, ap (λ o. times x (late o)) e))
        (omega (
          arith,
          times-append x d.papers (paper_of job end'),
          ap (times x) (row_of-out job end'),
          ap (times x) (paper_of-out job end'),
        ))
        held_d
