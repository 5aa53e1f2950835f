-- ===== src/Printer/Life.antt =====
-- A life of a printer: the requests, the worker, the writes and the administrator, in any order.
use barhandler_manager.Prelude.{ℕ, List, [], ◌∷◌}
use barhandler_manager.Printer.Queue.{
  Device, End, Prepared, enqueue, give_up, take_job, prepare, write_ends, resume, disconnect,
  late_write_ends, connect,
}

pub data Event : Type 0 where
  submits gives_up : ℕ → Event
  takes resumes connects disconnects : Event
  prepares : Prepared → Event
  writes late_writes : End → Event

unfoldable pub step : Event → Device → Device
unfolding enqueue give_up take_job prepare write_ends resume disconnect late_write_ends connect
step (submits job) d = enqueue job d
step (gives_up job) d = give_up job d
step takes d = take_job d
step (prepares outcome) d = prepare outcome d
step (writes end') d = write_ends end' d
step resumes d = resume d
step disconnects d = disconnect d
step (late_writes end') d = late_write_ends end' d
step connects d = connect d

unfoldable pub run : List Event → Device → Device
unfolding step
run [] d = d
run (e ∷ es) d = run es (step e d)
