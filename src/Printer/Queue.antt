-- ===== src/Printer/Queue.antt =====
-- devices/printer.py, `PrinterDevice`: the queue, the worker and what they answer. The handlers run in
-- one event loop, so each of them is one step; the write itself runs in the device's own thread and
-- ends when it ends. A job is told by a number.
use barhandler_manager.Prelude.{
  ℕ, ◌+◌, Bool, true, false, Option, none, some, List, [], ◌∷◌, ◌++◌, length, contains, String,
  nat_eq, if◌then◌else◌,
}

-- `work_journal.STATUS_OK`, `STATUS_FAILED` and `STATUS_CANCELLED`
pub data RowStatus : Type 0 where
  row_ok row_failed row_cancelled : RowStatus

-- A row of the journal: which job, and how it ended
pub record Row : Type 0 where
  pub job : ℕ
  pub status : RowStatus

-- What the future of a job is given: nothing (`set_result(None)`), a `PrinterUnavailable` with its
-- code, or another exception of the job.
pub data Reply : Type 0 where
  printed : Reply
  unavailable : String → Reply
  raised : Reply

-- How a write ends: the paper is out, an `OSError`, or another exception.
pub data End : Type 0 where
  wrote lost broke : End

-- Where the worker stands: there is none, or it has ended; it waits for a job; it prepares one, before
-- a byte is sent; its write is in the device's thread; the write has ended and the worker has not gone
-- on yet.
pub data Worker : Type 0 where
  absent waiting : Worker
  preparing flushing : ℕ → Worker
  flushed : ℕ → End → Worker

-- `left` are the jobs whose clients have gone, so that their futures are done; `papers` what the
-- printer has put out; `writing` the write of a worker that was cancelled.
pub record Device : Type 0 where
  pub connected : Bool
  pub retired : Bool
  pub worker : Worker
  pub queue : List ℕ
  pub in_flight : Bool
  pub writing : Option ℕ
  pub rows : List Row
  pub replies : List (ℕ × Reply)
  pub left : List ℕ
  pub papers : List ℕ

-- `PrinterDevice(name, config)`
abbrev pub new : Device
new = record {
  connected = false;
  retired = false;
  worker = absent;
  queue = [];
  in_flight = false;
  writing = none;
  rows = [];
  replies = [];
  left = [];
  papers = [];
}

-- `work_journal.record_printer(…)`
abbrev pub record_row : ℕ → RowStatus → Device → Device
record_row job status d = record d { rows = d.rows ++ record { job = job; status = status } ∷ [] }

unfoldable pub given : List ℕ → ℕ → Reply → List (ℕ × Reply) → List (ℕ × Reply)
given left job reply replies = if contains left job then replies else replies ++ (job, reply) ∷ []

-- `if not done.done(): done.set_…(…)`
unfoldable pub settle : ℕ → Reply → Device → Device
unfolding given
settle job reply d = record d { replies = given d.left job reply d.replies }

-- A job that has ended: its row, and the answer to who waits for it
unfoldable pub ended : ℕ → RowStatus → Reply → Device → Device
unfolding settle
ended job status reply d = settle job reply (record_row job status d)

unfoldable pub fail_jobs : List ℕ → Device → Device
unfolding ended
fail_jobs [] d = d
fail_jobs (job ∷ jobs) d = fail_jobs jobs (ended job row_cancelled (unavailable "cancelled") d)

-- `_fail_queued_jobs`
unfoldable pub fail_queued_jobs : Device → Device
unfolding fail_jobs
fail_queued_jobs d = fail_jobs d.queue (record d { queue = [] })

-- `enqueue`, up to the wait for the answer
unfoldable pub enqueue : ℕ → Device → Device
unfolding ended
enqueue job d =
    if d.connected
    then record d { queue = d.queue ++ job ∷ [] }
    else ended job row_failed (unavailable "unavailable") d

-- The client of a job goes away: the wait is cancelled, and the future with it.
unfoldable pub give_up : ℕ → Device → Device
give_up job d = record d { left = job ∷ d.left }

unfoldable pub taken : Worker → List ℕ → Device → Device
taken waiting (job ∷ rest) d = record d { worker = preparing job; queue = rest; in_flight = true }
taken _ _ d = d

-- `self._queue.get()` of the worker
unfoldable pub take_job : Device → Device
unfolding taken
take_job d = taken d.worker d.queue d

abbrev pub free : Device → Device
free d = record d { worker = waiting; in_flight = false }

-- `except Exception`: an error before or while writing that is no loss of the connection
unfoldable pub job_failed : ℕ → Reply → Device → Device
unfolding ended
job_failed job reply d = free (ended job row_failed reply d)

-- `except OSError`: the connection is gone, and the worker with it
unfoldable pub connection_lost : ℕ → Device → Device
unfolding ended fail_queued_jobs
connection_lost job d =
    let failed = ended job row_failed (unavailable "unreachable") d in
    fail_queued_jobs (record failed { connected = false; worker = absent; in_flight = false })

-- How the preparation of a job ends: the write begins, an error is raised (no handle, no paper, an open
-- cover, a failed rendering, an exception of the job), or an `OSError` outside of the rendering.
pub data Prepared : Type 0 where
  ready lost_before : Prepared
  refused : Reply → Prepared

unfoldable pub prepared : Worker → Prepared → Device → Device
unfolding job_failed connection_lost
prepared (preparing job) ready d = record d { worker = flushing job }
prepared (preparing job) lost_before d = connection_lost job d
prepared (preparing job) (refused reply) d = job_failed job reply d
prepared _ _ d = d

unfoldable pub prepare : Prepared → Device → Device
unfolding prepared
prepare outcome d = prepared d.worker outcome d

abbrev pub paper_of : ℕ → End → List ℕ
paper_of job wrote = job ∷ []
paper_of job _ = []

unfoldable pub write_ended : Worker → End → Device → Device
write_ended (flushing job) end' d = record d {
  worker = flushed job end';
  papers = d.papers ++ paper_of job end';
}
write_ended _ _ d = d

-- The write ends in the device's thread, and the worker has yet to go on.
unfoldable pub write_ends : End → Device → Device
unfolding write_ended
write_ends end' d = write_ended d.worker end' d

-- The worker goes on after `await asyncio.shield(flush)`
unfoldable pub resumed : Worker → Device → Device
unfolding ended job_failed connection_lost
resumed (flushed job wrote) d = free (ended job row_ok printed d)
resumed (flushed job lost) d = connection_lost job d
resumed (flushed job broke) d = job_failed job raised d
resumed _ d = d

unfoldable pub resume : Device → Device
unfolding resumed
resume d = resumed d.worker d

abbrev pub row_of : End → RowStatus
row_of wrote = row_ok
row_of _ = row_failed

abbrev pub reply_of : End → Reply
reply_of wrote = printed
reply_of _ = unavailable "unreachable"

-- `except asyncio.CancelledError` and the `finally` behind it
unfoldable pub cancel_worker : Worker → Device → Device
unfolding ended
cancel_worker (preparing job) d = record (ended job row_cancelled (unavailable "cancelled") d) {
  worker = absent;
  in_flight = false;
}
cancel_worker (flushing job) d = record d { worker = absent; writing = some job }
cancel_worker (flushed job end') d = record (ended job (row_of end') (unavailable "cancelled") d) {
  worker = absent;
  in_flight = false;
}
cancel_worker _ d = record d { worker = absent }

-- `disconnect`
unfoldable pub disconnect : Device → Device
unfolding cancel_worker fail_queued_jobs
disconnect d =
    let stopped = fail_queued_jobs (cancel_worker d.worker (record d { retired = true })) in
    record stopped { connected = false }

unfoldable pub late_write_ended : Option ℕ → End → Device → Device
unfolding ended
late_write_ended none end' d = d
late_write_ended (some job) end' d =
    let told = ended job (row_of end') (reply_of end') d in
    record told { writing = none; in_flight = false; papers = told.papers ++ paper_of job end' }

-- The write of a cancelled worker ends: `_record_when_flushed`, `_settle_from` and `_job_finished`.
unfoldable pub late_write_ends : End → Device → Device
unfolding late_write_ended
late_write_ends end' d = late_write_ended d.writing end' d

abbrev pub started : Worker → Worker
started absent = waiting
started w = w

-- `connect`, where the handle can be opened
unfoldable pub connect : Device → Device
connect d =
    if d.retired
    then d
    else if d.connected
    then d
    else record d { connected = true; worker = started d.worker }

-- The queue counts while there is a worker.
abbrev pub queued : Worker → List ℕ → ℕ
queued absent jobs = 0
queued _ jobs = length jobs

-- `pending_jobs`
unfoldable pub pending_jobs : Device → ℕ
pending_jobs d = queued d.worker d.queue + (if d.in_flight then 1 else 0)
