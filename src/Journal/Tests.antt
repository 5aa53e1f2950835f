-- ===== src/Journal/Tests.antt =====
-- Runs of the journal, and its theorems at concrete inputs.
use Prim.Native.Char.{code}
use barhandler_manager.Prelude.{
  ℕ, zero, suc, String, ◌≡◌, refl, if◌then◌else◌, true, false, none, some, List, [], ◌∷◌, arith,
}
use barhandler_manager.Prelude.Int.{pos}
use barhandler_manager.Prelude.Text.{text_beq}
use barhandler_manager.Json.{Json, obj, num, field, Fields}
use barhandler_manager.Json.Codec.{Codec}
use barhandler_manager.Journal.Text.{splitlines, strip, is_break, is_space}
use barhandler_manager.Journal.Rows.{
  Row, Journal, Deed, done, is_blank, failed, entry_of, record_row, rows_after, lines_of,
}
use barhandler_manager.Journal.Order.{IsOrdered, Climbs}
use barhandler_manager.Journal.Paging.{drain, drain_all}
use barhandler_manager.Journal.Numbers.{Op, recorded, restarted, run, step, ClocksAhead, run-Climbs}
use barhandler_manager.Journal.Reload.{Holds, IsOneLine}
use barhandler_manager.Journal.Durable.{rows_after_append, record_row-Holds}

abbrev codes : String → List ℕ
codes String.[] = []
codes (String.◌∷◌ c s) = code c ∷ codes s

abbrev print_job : Deed
print_job = record {
  device_kind = "printer";
  device_id = "bar";
  action = "receipt";
  status = "ok";
  amount_kopecks = none;
  detail = none;
  at = none;
}

abbrev job_entry : ℕ → Fields
job_entry n = entry_of print_job n "12:00"

-- A codec that is right about the first row of an empty journal.
abbrev one_row : Codec
one_row = record { dumps = λ v. codes "{...}"; loads = λ t. some (obj (job_entry 1)) }

abbrev empty : Journal
empty = record { file = none; limit = 3000; entries = []; seq = 0; lines = 0 }

abbrev two_rows : Journal
two_rows = record empty {
  entries =
      record { seq = pos 4; dict = job_entry 4 } ∷ record { seq = pos 7; dict = job_entry 7 } ∷ [];
  seq = 9;
}

two_rows-IsOrdered : IsOrdered two_rows
two_rows-IsOrdered = record { ordered = omega arith; short = omega arith }

splitlines_run : splitlines (codes "ab\n\ncd") ≡ codes "ab" ∷ [] ∷ codes "cd" ∷ []
unfolding splitlines is_break
splitlines_run = refl

drain_all_example : drain 3 (pos 4) (pos 1) two_rows ≡ rows_after (pos 4) two_rows.entries
drain_all_example =
    drain_all 3 (pos 4) (pos 1) two_rows two_rows-IsOrdered (unfold rows_after in omega arith)

abbrev day : List Op
day =
    recorded done true "12:00" print_job
    ∷ restarted (record { readable = false; closable = true }) 5000
    ∷ recorded failed false "12:01" print_job
    ∷ []

day_clocks : ClocksAhead one_row day empty
unfolding step record_row
day_clocks = (omega arith, tt)

run-Climbs_example : Climbs (pos 0) (run one_row day empty).1 (pos (run one_row day empty).0.seq)
run-Climbs_example = run-Climbs one_row day empty day_clocks

abbrev new_file : Journal
new_file = record empty { file = some [] }

new_file-Holds : Holds one_row [] new_file
new_file-Holds = record { file = unfold lines_of in refl; read = tt; ordered = tt; kept = refl }

-- A codec that is right about the first two rows.
abbrev marked : Json → List ℕ
marked (obj (field k (num (pos (suc zero))) fs)) = codes "{1}"
marked v = codes "{2}"

abbrev two_lines : Codec
two_lines = record {
  dumps = marked;
  loads = λ t. some (obj (job_entry (if text_beq t (codes "{1}") then 1 else 2)));
}

abbrev row : ℕ → Row
row n = record { seq = pos n; dict = job_entry n }

-- A journal of one row in memory, whose file holds two.
abbrev filled : Journal
filled = record {
  file = some (codes "{1}\n{2}\n");
  limit = 1;
  entries = row 2 ∷ [];
  seq = 2;
  lines = 2;
}

job_entry-IsOneLine : IsOneLine one_row (job_entry 1)
unfolding strip is_break is_space
job_entry-IsOneLine = record {
  plain = (refl, (refl, (refl, (refl, (refl, tt)))));
  trimmed = refl;
  filled = λ e. cc e;
}

record_row-Holds_example :
    Holds one_row
      (rows_after_append one_row true (record { seq = pos 1; dict = job_entry 1 }) [] new_file)
      (record_row one_row done true "12:00" print_job new_file).0
record_row-Holds_example =
    record_row-Holds one_row true "12:00" print_job [] new_file (omega arith)
      (unfold is_blank in refl) job_entry-IsOneLine refl new_file-Holds
