-- ===== src/Journal/Durable.antt =====
-- `record` keeps the file and the memory in step, through the rewriting of the file too.
use barhandler_manager.Prelude.{
  ℕ, zero, suc, ◌+◌, ◌-◌, ◌*◌, ◌≤◌, ◌<◌, String, ◌≡◌, refl, sym, ap, Bool, true, false, some, List,
  [], ◌∷◌, ◌++◌, arith, length, drop, leb, length-append, length-drop, inl, inr, Bool-cases,
  if◌then◌else◌, ◌∙◌,
}
use barhandler_manager.Prelude.Int.{pos}
use barhandler_manager.Json.{obj, get, int_of, truthy}
use barhandler_manager.Json.Codec.{Codec}
use barhandler_manager.Journal.Rows.{
  Row, Journal, Deed, done, record_row, number_row, written, keep_entry, append_row, entry_of,
  compact, lines_of, line_of, last_rows, as_row, is_blank,
}
use barhandler_manager.Journal.Order.{Ordered, Ordered-append, Ordered-drop, length-last_rows}
use barhandler_manager.Journal.Reload.{Reads, IsOneLine, AllRead, Holds, lines_of-append}

drop-append_le {ℓ} :
    {A : Type ℓ} (n : ℕ) (xs ys : List A) → n ≤ length xs → drop n (xs ++ ys) ≡ drop n xs ++ ys
drop-append_le zero xs ys h = refl
drop-append_le (suc n) [] ys h = absurd (omega arith)
drop-append_le (suc n) (x ∷ xs) ys h = drop-append_le n xs ys (omega arith)

drop-drop-suc {ℓ} : {A : Type ℓ} (n : ℕ) (xs : List A) → drop 1 (drop n xs) ≡ drop (suc n) xs
drop-drop-suc zero xs = refl
drop-drop-suc (suc n) [] = refl
drop-drop-suc (suc n) (x ∷ xs) = drop-drop-suc n xs

last_rows_short : (limit : ℕ) (rs : List Row) → length rs ≤ limit → last_rows limit rs ≡ rs
last_rows_short limit rs h = let e : length rs - limit ≡ 0 = omega arith in rw e

cut_long :
    (limit : ℕ) (rs : List Row) (r : Row)
    → 1 ≤ limit
    → limit < length rs
    → last_rows limit (last_rows limit rs ++ r ∷ []) ≡ last_rows limit (rs ++ r ∷ [])
cut_long limit rs r h lt =
    let n = length rs - limit in
    let cut : length (drop n rs ++ r ∷ []) - limit ≡ 1 =
      omega (arith, length-append (drop n rs) (r ∷ []), length-drop n rs) in
    let whole : length (rs ++ r ∷ []) - limit ≡ suc n = omega (arith, length-append rs (r ∷ [])) in
    rw (cut, whole)
      (drop-append_le 1 (drop n rs) (r ∷ []) (omega (arith, length-drop n rs))
        ∙ ap (λ xs. xs ++ r ∷ []) (drop-drop-suc n rs)
        ∙ sym (drop-append_le (suc n) rs (r ∷ []) (omega arith)))

-- Cutting before an append and after it keeps the same rows.
last_rows-append :
    (limit : ℕ) (rs : List Row) (r : Row)
    → 1 ≤ limit
    → last_rows limit (last_rows limit rs ++ r ∷ []) ≡ last_rows limit (rs ++ r ∷ [])
last_rows-append limit rs r h = elim (Bool-cases (leb (length rs) limit)) [
  | inl p ↦ rw (last_rows_short limit rs (ground arith))
  | inr p ↦ cut_long limit rs r h (ground arith)
]

module _ (codec : Codec) where
  AllRead-drop : (n : ℕ) (rs : List Row) → AllRead codec rs → AllRead codec (drop n rs)
  AllRead-drop zero rs h = h
  AllRead-drop (suc n) [] h = h
  AllRead-drop (suc n) (r ∷ rs) h = AllRead-drop n rs h.1

  AllRead-append :
      (rs : List Row) (r : Row) → AllRead codec rs → Reads codec r → AllRead codec (rs ++ r ∷ [])
  AllRead-append [] r h k = (k, tt)
  AllRead-append (x ∷ rs) r h k = (h.0, AllRead-append rs r h.1 k)

  -- What the file holds after an append and a possible rewriting.
  pub rows_after_append : Bool → Row → List Row → Journal → List Row
  rows_after_append replaced r rows j =
      if leb (j.lines + 1) (j.limit * 2)
      then rows ++ r ∷ []
      else if replaced
      then last_rows j.limit (j.entries ++ r ∷ [])
      else rows ++ r ∷ []

  module _ (replaced : Bool) (r : Row) (rows : List Row) (j : Journal) (n : ℕ) (lim : 1 ≤ j.limit)
      (file : j.file ≡ some (lines_of codec rows)) (read : AllRead codec rows)
      (ord : Ordered rows (pos n)) (kept : j.entries ≡ last_rows j.limit rows)
      (e : r.seq ≡ pos (n + 1)) (f : j.seq ≡ n + 1) (reads : Reads codec r) where
    Ordered-then : Ordered (rows ++ r ∷ []) (pos j.seq)
    Ordered-then =
        rw f (
          Ordered-append rows (pos n) (pos (n + 1)) r ord (rw e (omega arith)) (rw e (omega arith)))

    abbrev appended : Journal
    appended = record j {
      file = some (lines_of codec rows ++ line_of codec r);
      lines = j.lines + 1;
      entries = last_rows j.limit (j.entries ++ r ∷ []);
    }

    appended-Holds : Holds codec (rows ++ r ∷ []) appended
    appended-Holds = record {
      file = ap some (sym (lines_of-append codec rows r));
      read = AllRead-append rows r read reads;
      ordered = Ordered-then;
      kept = rw kept (last_rows-append j.limit rows r lim);
    }

    rewritten-Holds : Holds codec appended.entries (record appended {
      file = some (lines_of codec appended.entries);
      lines = length appended.entries;
    })
    rewritten-Holds = record {
      file = refl;
      read = rw (appended-Holds.kept) (AllRead-drop _ (rows ++ r ∷ []) appended-Holds.read);
      ordered = rw (appended-Holds.kept) (Ordered-drop _ (rows ++ r ∷ []) _ Ordered-then);
      kept = sym (
          last_rows_short j.limit appended.entries
            (length-last_rows j.limit (j.entries ++ r ∷ [])));
    }

    chosen-Holds :
        (fits moved : Bool)
        → Holds codec
            (if fits then rows ++ r ∷ [] else if moved then appended.entries else rows ++ r ∷ [])
            (if fits
              then appended
              else if moved
              then record appended {
                file = some (lines_of codec appended.entries);
                lines = length appended.entries;
              }
              else appended)
    chosen-Holds true moved = appended-Holds
    chosen-Holds false true = rewritten-Holds
    chosen-Holds false false = appended-Holds

    written-Holds :
        Holds codec
          (rows_after_append replaced r rows j)
          (written codec done replaced r j (append_row codec done r j)).0
    unfolding written append_row keep_entry rows_after_append compact
    written-Holds = rw file (chosen-Holds (leb (j.lines + 1) (j.limit * 2)) replaced)

  entry_of-as_row :
      (d : Deed) (n : ℕ) (now : String)
      → is_blank d ≡ false
      → as_row (obj (entry_of d n now)) ≡ some (record { seq = pos n; dict = entry_of d n now })
  unfolding as_row is_blank entry_of get int_of truthy
  entry_of-as_row d n now h = ground arith

  -- `record`, of a deed with a device, an action and a status, when its append succeeds and the text of
  -- the new row is one line that reads back as that row, turns a journal whose file holds its rows so
  -- into another such: with the row at the end of the file, or, past twice the limit, in a file
  -- rewritten with the last rows only. The text of a row is not one line where its detail holds
  -- U+0085, U+2028 or U+2029, which `splitlines` takes for breaks.
  pub record_row-Holds :
      (replaced : Bool) (now : String) (d : Deed) (rows : List Row) (j : Journal)
      → 1 ≤ j.limit
      → is_blank d ≡ false
      → IsOneLine codec (entry_of d (j.seq + 1) now)
      → codec.loads (codec.dumps (obj (entry_of d (j.seq + 1) now)))
        ≡ some (obj (entry_of d (j.seq + 1) now))
      → Holds codec rows j
      → let r : Row = record { seq = pos (j.seq + 1); dict = entry_of d (j.seq + 1) now } in
        Holds codec (rows_after_append replaced r rows j) (record_row codec done replaced now d j).0
  unfolding record_row number_row rows_after_append
  record_row-Holds replaced now d rows j lim h line loaded holds = rw h (
      written-Holds replaced _ rows (record j { seq = j.seq + 1 }) j.seq lim holds.file holds.read
        holds.ordered holds.kept refl refl
        (record { one_line = line; loaded = loaded; is_row = entry_of-as_row d (j.seq + 1) now h }))
