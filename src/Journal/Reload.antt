-- ===== src/Journal/Reload.antt =====
-- What a restart finds: the file that `record` writes, read back by `load`.
use barhandler_manager.Prelude.{
  ◌≡◌, ◌≢◌, false, some, List, [], ◌∷◌, ◌++◌, append_assoc, append-nil,
}
use barhandler_manager.Prelude.Int.{pos}
use barhandler_manager.Json.{obj, Fields}
use barhandler_manager.Json.Codec.{Codec, Text}
use barhandler_manager.Journal.Text.{is_break, strip}
use barhandler_manager.Journal.Rows.{Row, Journal, lines_of, line_of, last_rows, as_row}
use barhandler_manager.Journal.Order.{Ordered}

abbrev pub NoBreak : Text → Type 0
NoBreak [] = Unit
NoBreak (c ∷ t) = (is_break c ≡ false) × NoBreak t

-- The text of a dictionary stays one line of the file: it has no line break and no space at its
-- ends, and is not empty.
pub record IsOneLine (codec : Codec) (fs : Fields) : Type 0 where
  pub plain : NoBreak (codec.dumps (obj fs))
  pub trimmed : strip (codec.dumps (obj fs)) ≡ codec.dumps (obj fs)
  pub filled : codec.dumps (obj fs) ≢ []

-- A row that its line reads back as.
pub record Reads (codec : Codec) (r : Row) : Type 0 where
  pub one_line : IsOneLine codec r.dict
  pub loaded : codec.loads (codec.dumps (obj r.dict)) ≡ some (obj r.dict)
  pub is_row : as_row (obj r.dict) ≡ some r

module _ (codec : Codec) where
  abbrev pub AllRead : List Row → Type 0
  AllRead [] = Unit
  AllRead (r ∷ rs) = Reads codec r × AllRead rs

  pub lines_of-append :
      (rs : List Row) (r : Row)
      → lines_of codec (rs ++ r ∷ []) ≡ lines_of codec rs ++ line_of codec r
  unfolding lines_of
  lines_of-append [] r = append-nil (line_of codec r)
  lines_of-append (x ∷ rs) r = rw (lines_of-append rs r, append_assoc (line_of codec x))

  -- The file holds `rows`, each on a line that reads back, and the rows in memory are the last of
  -- them.
  pub record Holds (rows : List Row) (j : Journal) : Type 0 where
    pub file : j.file ≡ some (lines_of codec rows)
    pub read : AllRead rows
    pub ordered : Ordered rows (pos j.seq)
    pub kept : j.entries ≡ last_rows j.limit rows
