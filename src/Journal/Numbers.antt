-- ===== src/Journal/Numbers.antt =====
-- The numbers that the journal hands out over its life: rows recorded, pages read, restarts.
use barhandler_manager.Prelude.{
  ℕ, ◌+◌, ◌≤◌, String, ◌≡◌, refl, Bool, Option, none, some, List, [], ◌∷◌, arith, inl, inr,
  Bool-cases,
}
use barhandler_manager.Prelude.Int.{ℤ, pos, pos_part, ◌<ℤ◌}
use barhandler_manager.Json.Codec.{Codec}
use barhandler_manager.Journal.Rows.{
  Row, Journal, Disk, Deed, Append, done, record_row, page, load, written, keep_entry, is_blank,
  append_row, max_seq,
}
use barhandler_manager.Journal.Order.{Climbs, Climbs-weaken, seq-compact}

-- What happens to a journal. A restart reads the file anew.
pub data Op : Type 0 where
  recorded : Append → Bool → String → Deed → Op
  paged : ℤ → ℤ → Op
  restarted : Disk → ℕ → Op

module _ (codec : Codec) where
  unfoldable pub step : Op → Journal → Journal × Option Row
  step (recorded io replaced now d) j = record_row codec io replaced now d j
  step (paged after limit) j = ((page after limit j).0, none)
  step (restarted disk floor) j = (load codec disk floor j, none)

  abbrev cons_some : Option Row → List Row → List Row
  cons_some none rs = rs
  cons_some (some r) rs = r ∷ rs

  -- The rows that `record` answered with, in their order, and the journal at the end.
  pub run : List Op → Journal → Journal × List Row
  unfolding step
  run [] j = (j, [])
  run (op ∷ ops) j = let (j', r) = step op j in let (j'', rs) = run ops j' in (j'', cons_some r rs)

  -- At each restart the clock stands at or above the number reached before it.
  abbrev pub ClocksAhead : List Op → Journal → Type 0
  ClocksAhead [] j = Unit
  ClocksAhead (restarted disk floor ∷ ops) j =
      (j.seq ≤ floor) × ClocksAhead ops (load codec disk floor j)
  ClocksAhead (op ∷ ops) j = ClocksAhead ops (step op j).0

  -- What one operation does to the sequence, and the number of the row that it answers with.
  abbrev Advances : Journal → Journal × Option Row → Type 0
  Advances j (j', none) = j.seq ≤ j'.seq
  Advances j (j', some r) = (r.seq ≡ pos (j.seq + 1)) × (j'.seq ≡ j.seq + 1)

  seq-keep_entry : (b : Bool) (r : Row) (j : Journal) → (keep_entry codec b r j).seq ≡ j.seq
  unfolding keep_entry
  seq-keep_entry b r j = seq-compact codec b _

  written-Advances :
      (io : Append) (b : Bool) (r : Row) (j' j : Journal)
      → j'.seq ≡ j.seq + 1
      → r.seq ≡ pos (j.seq + 1)
      → Advances j (written codec io b r j' (append_row codec io r j'))
  unfolding written append_row
  written-Advances done b r j' j e f = (f, rw (seq-keep_entry b r) e)
  written-Advances _ b r j' j e f = omega arith

  record_row-Advances :
      (io : Append) (b : Bool) (now : String) (d : Deed) (j : Journal)
      → Advances j (record_row codec io b now d j)
  unfolding record_row
  record_row-Advances io b now d j = elim (Bool-cases (is_blank d)) [
    | inl e ↦ rw e (omega arith)
    | inr e ↦ rw e (written-Advances io b _ _ j refl refl)
  ]

  Climbs-cons_some :
      (j : Journal) (out : Journal × Option Row) (rs : List Row) (hi : ℤ)
      → Advances j out
      → Climbs (pos out.0.seq) rs hi
      → Climbs (pos j.seq) (cons_some out.1 rs) hi
  Climbs-cons_some j (j', none) rs hi a c = Climbs-weaken _ _ rs hi (omega arith) c
  Climbs-cons_some j (j', some r) rs hi (e, f) c =
      (rw e (omega arith), Climbs-weaken _ _ rs hi (rw (e, f) (omega arith)) c)

  page_lifts : (after limit : ℤ) (j : Journal) → j.seq ≤ (page after limit j).0.seq
  unfolding page
  page_lifts after limit j = ground arith

  load_floor : (disk : Disk) (floor : ℕ) (j : Journal) → floor ≤ (load codec disk floor j).seq
  unfolding load
  load_floor disk floor j = omega arith

  -- Whatever is recorded, read and restarted, and whatever the disk answers, the numbers handed out
  -- grow from above the sequence, and none is above the sequence that is reached: no number comes
  -- twice. At each restart the clock must stand at or above the number reached before it.
  pub run-Climbs :
      (ops : List Op) (j : Journal)
      → ClocksAhead ops j
      → Climbs (pos j.seq) (run ops j).1 (pos (run ops j).0.seq)
  unfolding run step
  run-Climbs [] j h = omega arith
  run-Climbs (recorded io b now d ∷ ops) j h =
      Climbs-cons_some j (record_row codec io b now d j) _ _ (record_row-Advances io b now d j)
        (run-Climbs ops (record_row codec io b now d j).0 h)
  run-Climbs (paged after limit ∷ ops) j h =
      Climbs-weaken _ _ (run ops (page after limit j).0).1 _
        (omega (arith, page_lifts after limit j)) (run-Climbs ops _ h)
  run-Climbs (restarted disk floor ∷ ops) j h =
      Climbs-weaken _ _ (run ops (load codec disk floor j)).1 _
        (omega (arith, load_floor disk floor j)) (run-Climbs ops _ h.1)

  number_of :
      (j : Journal) (out : Journal × Option Row) (r : Row)
      → Advances j out
      → out.1 ≡ some r
      → r.seq ≡ pos (j.seq + 1)
  number_of j (j', none) r a e = cc
  number_of j (j', some x) r a e = ground (arith, a.0, e)

  page_reaches :
      (after limit : ℤ) (j : Journal)
      → pos_part after ≤ max_seq
      → pos_part after ≤ (page after limit j).0.seq
  unfolding page
  page_reaches after limit j h = ground arith

  -- A row recorded after the server told its number is above it, though the station was below.
  pub record_row_above_cursor :
      (after limit : ℤ) (io : Append) (b : Bool) (now : String) (d : Deed) (j : Journal) (r : Row)
      → pos_part after ≤ max_seq
      → (record_row codec io b now d (page after limit j).0).1 ≡ some r
      → after <ℤ r.seq
  record_row_above_cursor after limit io b now d j r h e =
      let j' = (page after limit j).0 in
      rw (number_of j' (record_row codec io b now d j') r (record_row-Advances io b now d j') e)
        (omega (arith, page_reaches after limit j h))
