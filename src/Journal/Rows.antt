-- ===== src/Journal/Rows.antt =====
-- `WorkJournal`: its state, `load`, `record` and `page`. The file is part of the state; what the
-- disk and the clock answer is an argument of the operation that asks.
use barhandler_manager.Prelude.{
  ℕ, ◌+◌, ◌-◌, ◌*◌, ◌^◌, max, min, String, Bool, ◌&&◌, ◌||◌, Option, none, some, List, [], ◌∷◌,
  ◌++◌, length, take, drop, ltb, leb, ◌==◌, string_eq, not, if◌then◌else◌,
}
use barhandler_manager.Prelude.Int.{ℤ, pos, pos_part, ltb_ℤ, leb_ℤ}
use barhandler_manager.Json.{Json, Fields, null, num, str, obj, end, field, get, truthy, int_of}
use barhandler_manager.Json.Codec.{Codec, Text}
use barhandler_manager.Journal.Text.{splitlines, strip, ends_line}

-- `MAX_SEQ`
abbrev pub max_seq : ℕ
max_seq = 10 ^ 15

-- A row: the dictionary, and its `seq` as a number.
pub record Row : Type 0 where
  pub seq : ℤ
  pub dict : Fields

-- `lines` counts the rows on disk; `file` is the text of the journal's file, if there is one.
pub record Journal : Type 0 where
  pub file : Option Text
  pub limit : ℕ
  pub entries : List Row
  pub seq : ℕ
  pub lines : ℕ

-- `WorkJournal(path, limit)` over what the path holds
unfoldable pub new : Option Text → ℤ → Journal
new file limit = record {
  file = file;
  limit = max 1 (pos_part limit);
  entries = [];
  seq = 0;
  lines = 0;
}

-- `_is_row`, with the row that it finds
as_fields : Fields → Option ℤ → Option Row
as_fields fs none = none
as_fields fs (some n) =
    if truthy (get fs "deviceId") && truthy (get fs "action") && truthy (get fs "status")
    then some (record { seq = n; dict = fs })
    else none

unfoldable pub as_row : Json → Option Row
unfolding as_fields
as_row (obj fs) = as_fields fs (int_of (get fs "seq"))
as_row _ = none

-- `rows.sort(key=…)`, which keeps the order of equal keys
unfoldable pub insert_row : Row → List Row → List Row
insert_row r [] = r ∷ []
insert_row r (x ∷ xs) =
    let rest = insert_row r xs in if leb_ℤ r.seq x.seq then r ∷ x ∷ xs else x ∷ rest

unfoldable pub sort_rows : List Row → List Row
unfolding insert_row
sort_rows [] = []
sort_rows (x ∷ xs) = insert_row x (sort_rows xs)

-- `rows[-1]["seq"] if rows else 0`
unfoldable pub last_seq_or : ℤ → List Row → ℤ
last_seq_or z [] = z
last_seq_or z (r ∷ rs) = last_seq_or r.seq rs

-- `rows[-limit:]`, for a limit of at least one
abbrev pub last_rows : ℕ → List Row → List Row
last_rows limit rows = drop (length rows - limit) rows

abbrev contents : Option Text → Text
contents none = []
contents (some t) = t

-- What the disk answered to `load`.
pub record Disk : Type 0 where
  pub readable : Bool
  pub closable : Bool

-- The number that the sequence continues from: a number past the server's ceiling is ignored.
unfoldable pub credible : ℤ → ℤ
credible highest = if ltb_ℤ (pos max_seq) highest then pos 0 else highest

-- A decoded line joins the rows, if it is one.
unfoldable pub keep_row : Option Json → List Row → List Row
keep_row none rows = rows
keep_row (some v) rows = elim (as_row v) [ none ↦ rows | some r ↦ r ∷ rows ]

module _ (codec : Codec) where
  unfoldable pub keep_line : Text → List Row → List Row
  unfolding keep_row
  keep_line [] rows = rows
  keep_line (c ∷ t) rows = keep_row (codec.loads (c ∷ t)) rows

  -- The rows of the lines that read as one; other lines are skipped.
  unfoldable pub read_rows : List Text → List Row
  unfolding keep_line as_row strip
  read_rows [] = []
  read_rows (l ∷ ls) = keep_line (strip l) (read_rows ls)

  -- `load`; `floor` is `_seq_floor()`.
  unfoldable pub load : Disk → ℕ → Journal → Journal
  unfolding read_rows sort_rows last_seq_or credible splitlines ends_line
  load disk floor j =
      let raw = if disk.readable then contents j.file else [] in
      let rows = sort_rows (read_rows (splitlines raw)) in
      let torn = not (ends_line raw) && ltb 0 (length raw) in
      record j {
        file = if torn && disk.closable then some (contents j.file ++ 0x0a ∷ []) else j.file;
        entries = last_rows j.limit rows;
        seq = max (pos_part (credible (last_seq_or (pos 0) rows))) floor;
        lines = length rows;
      }

-- What `record` is told of a deed.
pub record Deed : Type 0 where
  pub device_kind : String
  pub device_id : String
  pub action : String
  pub status : String
  pub amount_kopecks : Option ℤ
  pub detail : Option String
  pub at : Option String

-- What the disk did with an append: all of it, none of it, or its first characters only.
pub data Append : Type 0 where
  done failed : Append
  torn : ℕ → Append

-- `not device_id or not action or not status`
unfoldable pub is_blank : Deed → Bool
is_blank d = d.device_id == "" || d.action == "" || d.status == ""

abbrev num_or_null : Option ℤ → Json
num_or_null none = null
num_or_null (some z) = num z

-- `x or None`
abbrev text_or_null : Option String → Json
text_or_null none = null
text_or_null (some s) = if s == "" then null else str s

-- `at or _now_iso()`
abbrev text_or : Option String → String → String
text_or none now = now
text_or (some s) now = if s == "" then now else s

unfoldable pub entry_of : Deed → ℕ → String → Fields
entry_of d n now = field "seq" (num (pos n)) (
    field "at" (str (text_or d.at now)) (
      field "deviceKind" (str d.device_kind) (
        field "deviceId" (str d.device_id) (
          field "action" (str d.action) (
            field "status" (str d.status) (
              field "amount" (num_or_null d.amount_kopecks)
                (field "detail" (text_or_null d.detail) end)))))))

-- `{"entries": …, "pageLastSeq": …, "lastSeq": …}`
pub record Page : Type 0 where
  pub rows : List Row
  pub page_last_seq : ℤ
  pub last_seq : ℕ

-- `e["seq"] > after`
unfoldable pub rows_after : ℤ → List Row → List Row
rows_after after [] = []
rows_after after (r ∷ rs) =
    let rest = rows_after after rs in if ltb_ℤ after r.seq then r ∷ rest else rest

-- `page`
unfoldable pub page : ℤ → ℤ → Journal → Journal × Page
unfolding rows_after last_seq_or
page after_seq limit j =
    let after = pos_part after_seq in
    let seq = if ltb j.seq after && leb after max_seq then after else j.seq in
    let rows = take (max 1 (min (pos_part limit) 2000)) (rows_after (pos after) j.entries) in
    (
      record j { seq = seq },
      record { rows = rows; page_last_seq = last_seq_or (pos after) rows; last_seq = seq },
    )

module _ (codec : Codec) where
  -- A row as a line of the file.
  unfoldable pub line_of : Row → Text
  line_of r = codec.dumps (obj r.dict) ++ 0x0a ∷ []

  unfoldable pub lines_of : List Row → Text
  unfolding line_of
  lines_of [] = []
  lines_of (r ∷ rs) = line_of r ++ lines_of rs

  -- `_append_locked`
  unfoldable pub append_row : Append → Row → Journal → Option Journal
  unfolding line_of
  append_row done r j =
      some (record j { file = some (contents j.file ++ line_of r); lines = j.lines + 1 })
  append_row failed r j = none
  append_row (torn k) r j = none

  -- What a failed append leaves in the file.
  unfoldable pub after_failure : Append → Row → Option Text → Option Text
  unfolding line_of
  after_failure (torn k) r file = some (contents file ++ take k (line_of r))
  after_failure _ r file = file

  -- `_compact_locked`; `replaced` is whether the new file was written and moved into place.
  unfoldable pub compact : Bool → Journal → Journal
  unfolding lines_of
  compact replaced j =
      if leb j.lines (j.limit * 2)
      then j
      else if replaced
      then record j { file = some (lines_of j.entries); lines = length j.entries }
      else j

  unfoldable pub keep_entry : Bool → Row → Journal → Journal
  unfolding compact
  keep_entry replaced r j =
      compact replaced (record j { entries = last_rows j.limit (j.entries ++ r ∷ []) })

  unfoldable pub written : Append → Bool → Row → Journal → Option Journal → Journal × Option Row
  unfolding keep_entry after_failure
  written io replaced r j none = (record j { file = after_failure io r j.file }, none)
  written io replaced r j (some j') = (keep_entry replaced r j', some r)

  -- The part of `record` under the lock.
  unfoldable pub number_row : Append → Bool → String → Deed → Journal → Journal × Option Row
  unfolding written append_row entry_of
  number_row io replaced now d j =
      let n = j.seq + 1 in
      let r : Row = record { seq = pos n; dict = entry_of d n now } in
      let started = record j { seq = n } in written io replaced r started (append_row io r started)

  -- `record`
  unfoldable pub record_row : Append → Bool → String → Deed → Journal → Journal × Option Row
  unfolding number_row is_blank
  record_row io replaced now d j =
      let numbered = number_row io replaced now d j in if is_blank d then (j, none) else numbered
