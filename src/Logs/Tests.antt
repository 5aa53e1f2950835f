-- ===== src/Logs/Tests.antt =====
-- Runs of the buffer, and the theorems at concrete inputs.
use barhandler_manager.Prelude.{◌+◌, ◌≡◌, refl, true, false, List, [], ◌∷◌}
use barhandler_manager.Logs.Buffer.{
  Shot, taken, no_loop, fresh, append, emit, emitting, requeue, flush_buffer, drain, say_deferred,
}
use barhandler_manager.Logs.Account.{
  Op, logs, comes_back, flushes, step, run, came, times, times_in, run_accounted,
}

abbrev offline : Shot
offline = record { connected = false; answer = taken }

abbrev online : Shot
online = record { connected = true; answer = taken }

abbrev no_room : Shot
no_room = record { connected = true; answer = no_loop }

-- Two lines without a connection, one from a thread without a loop, one that came back, and a flush.
abbrev shift : List Op
shift =
    logs offline 1
    ∷ logs offline 2
    ∷ logs no_room 3
    ∷ comes_back 4
    ∷ flushes (λ n. online) online
    ∷ []

all_handed : (run shift (fresh 10)).handed ≡ 4 ∷ 3 ∷ 2 ∷ 1 ∷ []
unfolding run step emit emitting append requeue flush_buffer drain say_deferred
all_handed = refl

told_of_one : (run shift (fresh 10)).notices ≡ 1 ∷ []
unfolding run step emit emitting append requeue flush_buffer drain say_deferred
told_of_one = refl

oldest_dropped : (run shift (fresh 3)).dropped ≡ 1 ∷ []
unfolding run step emit emitting append requeue flush_buffer drain say_deferred
oldest_dropped = refl

run_accounted_example :
    times 1 (run shift (fresh 3)).handed
      + times_in 1 (run shift (fresh 3)).buffer
      + times 1 (run shift (fresh 3)).dropped
      + times 1 (run shift (fresh 3)).lost
    ≡ times 1 (came shift)
run_accounted_example = run_accounted 1 3 shift
