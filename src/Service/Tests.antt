-- ===== src/Service/Tests.antt =====
-- Runs of the supervisor and of the copy of the output, and their theorems at concrete inputs.
use barhandler_manager.Prelude.{
  ℕ, zero, suc, ◌≡◌, refl, true, false, none, some, List, [], ◌∷◌, map, arith,
}
use barhandler_manager.Json.{Fields, str, end, field, get}
use barhandler_manager.Privat.Tests.{plain}
use barhandler_manager.Service.State.{Setup, created, stops}
use barhandler_manager.Service.Loop.{config, done, watching, Turn, Event, wakes, run, begun}
use barhandler_manager.Service.Sound.{Supervised}
use barhandler_manager.Service.Lives.{run-Supervised}
use barhandler_manager.Service.Ends.{stop_ends}
use barhandler_manager.Service.Output.{
  opened, moved, whole, partly, line, too_long, Capped, copy_output, copy_output-Capped,
}

abbrev shop : Fields
shop = field "appid" (str "a1") end

abbrev setup : Setup
setup = record {
  python = plain;
  sorted_dumps = λ cfg. "one key";
  expected = some "1.4.0";
  port = 9898;
  own_pid = 77;
}

abbrev quiet : Turn setup
quiet = record {
  called = [];
  now = 1000;
  loaded = config (some shop);
  missing = [];
  health = none;
  orphaned = false;
  killed = false;
  spawned = some 500;
  passed = true;
  why = "";
  exited = none;
}

abbrev well : Turn setup
well = record quiet {
  health = some (field "name" (str "petshandler-offline") (field "version" (str "1.4.0") end));
}

-- Started: the port is free, the process comes up and answers as the shipped version.
abbrev start : List (Event setup)
start = wakes quiet ∷ wakes quiet ∷ wakes quiet ∷ wakes quiet ∷ wakes well ∷ []

abbrev stopped : List (Event setup)
stopped =
    wakes quiet
    ∷ wakes quiet
    ∷ wakes quiet
    ∷ wakes quiet
    ∷ wakes well
    ∷ wakes (record quiet { called = stops ∷ [] })
    ∷ []

watches : (run setup start (begun setup created)).0 ≡ watching 0
unfolding run get
watches = refl

run-Supervised_example : Supervised setup (run setup start (begun setup created))
run-Supervised_example = run-Supervised setup start

abbrev times : ℕ → List (Turn setup)
times zero = []
times (suc n) = quiet ∷ times n

told : (run setup stopped (begun setup created)).1.stopping ≡ true
unfolding run get
told = refl

stop_ends_example :
    ((run setup (map wakes (times 22)) (run setup stopped (begun setup created))).0 ≡ done)
    × ((run setup (map wakes (times 22)) (run setup stopped (begun setup created))).1.proc ≡ none)
stop_ends_example = stop_ends setup stopped (times 22) told (omega arith)

-- A line too long for the reader ends the copy, and what comes behind it is lost.
copied :
    (copy_output opened
      (line 100 opened whole ∷ too_long ∷ line 50 opened whole ∷ [])
      (record { current = 0; previous = 0; is_open = false; written = 0 })).current
    ≡ 100
unfolding copy_output
copied = refl

copy_output-Capped_example : Capped (
    copy_output opened
      (line 100 opened whole ∷ line 5242800 moved (partly 9) ∷ [])
      (record { current = 0; previous = 0; is_open = false; written = 0 }))
copy_output-Capped_example =
    copy_output-Capped opened (line 100 opened whole ∷ line 5242800 moved (partly 9) ∷ [])
      (record { current = 0; previous = 0; is_open = false; written = 0 })
      (omega arith, (omega arith, tt)) (omega arith) (omega arith)
