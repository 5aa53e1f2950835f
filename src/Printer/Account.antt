-- ===== src/Printer/Account.antt =====
-- What becomes of every job: it is open, or it has its row.
use barhandler_manager.Prelude.{
  ℕ, ◌+◌, ◌≡◌, refl, ap, ◌∙◌, inl, inr, true, false, Option, none, some, List, [], ◌∷◌, ◌++◌, arith,
  ◌==◌, nat_eq, if◌then◌else◌, Bool-cases, contains, append_assoc, append-nil, sym, nat_beq_iff,
}
use barhandler_manager.Printer.Queue.{
  Row, RowStatus, row_ok, row_cancelled, Reply, wrote, Worker, preparing, flushing, flushed, Device,
  given, unavailable, settle, ended, fail_jobs,
}

-- How often a job stands in a list
abbrev pub times : ℕ → List ℕ → ℕ
times x [] = 0
times x (n ∷ ns) = (if n == x then 1 else 0) + times x ns

-- The job that the worker has, if any
abbrev pub held : Worker → List ℕ
held (preparing job) = job ∷ []
held (flushing job) = job ∷ []
held (flushed job end') = job ∷ []
held _ = []

abbrev pub late : Option ℕ → List ℕ
late none = []
late (some job) = job ∷ []

abbrev pub jobs_of : List Row → List ℕ
jobs_of [] = []
jobs_of (r ∷ rs) = r.job ∷ jobs_of rs

-- The jobs of the rows that say ok
abbrev pub ok_of : RowStatus → ℕ → List ℕ
ok_of row_ok job = job ∷ []
ok_of _ job = []

abbrev pub ok_jobs : List Row → List ℕ
ok_jobs [] = []
ok_jobs (r ∷ rs) = ok_of r.status r.job ++ ok_jobs rs

abbrev pub answered : List (ℕ × Reply) → List ℕ
answered [] = []
answered ((job, reply) ∷ rs) = job ∷ answered rs

-- The job whose paper is out and whose row is not written yet
abbrev pub out : Worker → List ℕ
out (flushed job wrote) = job ∷ []
out _ = []

pub times-append : (x : ℕ) (ms ns : List ℕ) → times x (ms ++ ns) ≡ times x ms + times x ns
times-append x [] ns = omega arith
times-append x (m ∷ ms) ns = omega (arith, times-append x ms ns)

pub times-jobs_of :
    (x : ℕ) (rs ss : List Row)
    → times x (jobs_of (rs ++ ss)) ≡ times x (jobs_of rs) + times x (jobs_of ss)
times-jobs_of x [] ss = omega arith
times-jobs_of x (r ∷ rs) ss = omega (arith, times-jobs_of x rs ss)

pub times-ok_jobs :
    (x : ℕ) (rs ss : List Row)
    → times x (ok_jobs (rs ++ ss)) ≡ times x (ok_jobs rs) + times x (ok_jobs ss)
times-ok_jobs x [] ss = omega arith
times-ok_jobs x (r ∷ rs) ss = omega (
  arith,
  times-ok_jobs x rs ss,
  times-append x (ok_of r.status r.job) (ok_jobs rs),
  times-append x (ok_of r.status r.job) (ok_jobs (rs ++ ss)),
)

times-answered :
    (x : ℕ) (rs ss : List (ℕ × Reply))
    → times x (answered (rs ++ ss)) ≡ times x (answered rs) + times x (answered ss)
times-answered x [] ss = omega arith
times-answered x ((job, reply) ∷ rs) ss = omega (arith, times-answered x rs ss)

apart :
    (job x : ℕ) (left : List ℕ)
    → contains left job ≡ true
    → contains left x ≡ false
    → (job == x) ≡ false
apart job x left gone waits = elim (Bool-cases (job == x)) [
  | inl e ↦
      let same : job ≡ x = (nat_beq_iff job x).0 e in
      let moved : contains left job ≡ contains left x = ap (contains left) same in
      absurd (cc (gone, waits, moved))
  | inr e ↦ e
]

-- A job whose client waits is given its answer.
pub times-given :
    (x job : ℕ) (left : List ℕ) (reply : Reply) (replies : List (ℕ × Reply))
    → contains left x ≡ false
    → times x (answered (given left job reply replies))
      ≡ times x (answered replies) + times x (job ∷ [])
unfolding given
times-given x job left reply replies waits = elim (Bool-cases (contains left job)) [
  | inl e ↦
      let other : (job == x) ≡ false = apart job x left e waits in rw e (rw other (omega arith))
  | inr e ↦ rw e (times-answered x replies ((job, reply) ∷ []))
]

abbrev pub cancelled_rows : List ℕ → List Row
cancelled_rows [] = []
cancelled_rows (job ∷ jobs) = record { job = job; status = row_cancelled } ∷ cancelled_rows jobs

abbrev pub given_all : List ℕ → List ℕ → List (ℕ × Reply) → List (ℕ × Reply)
given_all left [] replies = replies
given_all left (job ∷ jobs) replies =
    given_all left jobs (given left job (unavailable "cancelled") replies)

-- What the loop over the queue leaves
pub fail_jobs-all :
    (jobs : List ℕ) (d : Device)
    → fail_jobs jobs d
      ≡ record d { rows = d.rows ++ cancelled_rows jobs; replies = given_all d.left jobs d.replies }
unfolding fail_jobs ended settle
fail_jobs-all [] d = ap (λ rows. record d { rows = rows }) (sym (append-nil d.rows))
fail_jobs-all (job ∷ jobs) d =
    let row : List Row = record { job = job; status = row_cancelled } ∷ [] in
    let replies = given_all d.left (job ∷ jobs) d.replies in
    fail_jobs-all jobs (ended job row_cancelled (unavailable "cancelled") d)
    ∙ ap (λ rows. record d { rows = rows; replies = replies })
        (append_assoc d.rows row (cancelled_rows jobs))

pub times-given_all :
    (x : ℕ) (left jobs : List ℕ) (replies : List (ℕ × Reply))
    → contains left x ≡ false
    → times x (answered (given_all left jobs replies)) ≡ times x (answered replies) + times x jobs
times-given_all x left [] replies waits = omega arith
times-given_all x left (job ∷ jobs) replies waits = omega (
  arith,
  times-given_all x left jobs (given left job (unavailable "cancelled") replies) waits,
  times-given x job left (unavailable "cancelled") replies waits,
)

pub times-cancelled_rows :
    (x : ℕ) (jobs : List ℕ)
    → (times x (jobs_of (cancelled_rows jobs)) ≡ times x jobs)
      × (times x (ok_jobs (cancelled_rows jobs)) ≡ 0)
times-cancelled_rows x [] = (refl, refl)
times-cancelled_rows x (job ∷ jobs) =
    let (all, none_ok) = times-cancelled_rows x jobs in (omega (arith, all), none_ok)

-- How often a job is accounted for: open, or in a row of the journal
abbrev pub account : ℕ → Device → ℕ
account x d =
    times x (held d.worker) + times x (late d.writing) + times x d.queue + times x (jobs_of d.rows)

-- A job that was submitted `n` times is open or has its row, as many times in all. As long as its client
-- waits, it has as many answers as rows. Its papers are those of the rows that say ok, and the one that
-- is out while the worker has not gone on.
abbrev pub Accounted : ℕ → ℕ → Device → Type 0
Accounted x n d =
    (account x d ≡ n)
    × (contains d.left x ≡ false → times x (answered d.replies) ≡ times x (jobs_of d.rows))
    × (times x d.papers ≡ times x (ok_jobs d.rows) + times x (out d.worker))
