-- ===== src/Service/Output.antt =====
-- services/offline_service.py, `_copy_output` and `_open_log`: the output of the process into service.log,
-- by the sizes of the files. Whether the disk works is an argument of each use of it.
use barhandler_manager.Prelude.{
  ℕ, ◌+◌, ◌*◌, ◌≤◌, ◌≡◌, refl, ap, ◌⊎◌, inl, inr, Bool, true, false, ◌||◌, List, [], ◌∷◌, arith,
  ltb, if◌then◌else◌,
}

-- `LOG_MAX_BYTES`
abbrev pub log_max_bytes : ℕ
log_max_bytes = 5 * 1024 * 1024

-- The sizes of service.log and service.log.1, whether the copy has the file open, and what it counts
pub record Output : Type 0 where
  pub current : ℕ
  pub previous : ℕ
  pub is_open : Bool
  pub written : ℕ

-- How far `_open_log` comes: the folder cannot be made or the file not moved, the file cannot be opened
-- after that, or all goes well.
pub data Luck : Type 0 where
  stuck moved opened : Luck

abbrev pub shut : Output → Output
shut o = record o { is_open = false }

moved_away : Bool → Output → Output
moved_away true o = record o { current = 0; previous = o.current }
moved_away false o = o

-- `_open_log`, with `out.tell()` of the file that is appended to
unfoldable pub open_log : Bool → Luck → Output → Output
unfolding moved_away
open_log rotate stuck o = shut o
open_log rotate moved o = shut (moved_away (rotate || ltb log_max_bytes o.current) o)
open_log rotate opened o =
    let o' = moved_away (rotate || ltb log_max_bytes o.current) o in
    record o' { is_open = true; written = o'.current }

-- A write goes through, or fails with so many bytes of it in the file.
pub data Write : Type 0 where
  whole : Write
  partly : ℕ → Write

-- What the pipe brings: a line of so many bytes, with what the disk does, or one that is longer than the
-- reader takes, whose `ValueError` ends the copy.
pub data Piece : Type 0 where
  line : ℕ → Luck → Write → Piece
  too_long : Piece

unfoldable pub put : ℕ → Write → Output → Output
put size whole o = record o { current = o.current + size; written = o.written + size }
put size (partly n) o = record o {
  current = o.current + (if ltb size n then size else n);
  is_open = false;
}

unfoldable pub put_if : Bool → ℕ → Write → Output → Output
unfolding put
put_if true size write o = put size write o
put_if false size write o = o

unfoldable pub copy_line : Bool → ℕ → Luck → Write → Output → Output
unfolding open_log put_if
copy_line false size luck write o = o
copy_line true size luck write o =
    let rotated = open_log true luck (shut o) in
    if ltb log_max_bytes (o.written + size)
    then put_if rotated.is_open size write (record rotated { written = 0 })
    else put_if true size write o

unfoldable pub copy : List Piece → Output → Output
unfolding copy_line
copy [] o = shut o
copy (too_long ∷ more) o = shut o
copy (line size luck write ∷ more) o = copy more (copy_line o.is_open size luck write o)

-- `_copy_output`
unfoldable pub copy_output : Luck → List Piece → Output → Output
unfolding open_log copy
copy_output luck pieces o = copy pieces (open_log false luck o)

-- No line is longer than the file may become.
abbrev pub Fit : List Piece → Type 0
Fit [] = Unit
Fit (too_long ∷ more) = Fit more
Fit (line size luck write ∷ more) = (size ≤ log_max_bytes) × Fit more

-- Both files within the cap, and the count true where the file is open
unfoldable pub Capped : Output → Type 0
Capped o =
    (o.current ≤ log_max_bytes)
    × (o.previous ≤ log_max_bytes)
    × ((o.is_open ≡ false) ⊎ (o.written ≡ o.current))

moved_away-Capped :
    (moves : Bool) (o : Output)
    → o.current ≤ log_max_bytes
    → o.previous ≤ log_max_bytes
    → ((moved_away moves o).current ≤ log_max_bytes)
      × ((moved_away moves o).previous ≤ log_max_bytes)
unfolding moved_away
moved_away-Capped true o now before = (omega arith, now)
moved_away-Capped false o now before = (now, before)

open_log-Capped :
    (rotate : Bool) (luck : Luck) (o : Output)
    → o.current ≤ log_max_bytes
    → o.previous ≤ log_max_bytes
    → Capped (open_log rotate luck o)
unfolding open_log Capped
open_log-Capped rotate stuck o now before = (now, before, inl refl)
open_log-Capped rotate moved o now before =
    let (now', before') = moved_away-Capped (rotate || ltb log_max_bytes o.current) o now before in
    (now', before', inl refl)
open_log-Capped rotate opened o now before =
    let (now', before') = moved_away-Capped (rotate || ltb log_max_bytes o.current) o now before in
    (now', before', inr refl)

put-Capped :
    (size : ℕ) (write : Write) (o : Output)
    → o.current + size ≤ log_max_bytes
    → o.previous ≤ log_max_bytes
    → o.written ≡ o.current
    → Capped (put size write o)
unfolding put Capped
put-Capped size whole o fits before same = (fits, before, inr (ap (λ n. n + size) same))
put-Capped size (partly n) o fits before same = (ground arith, before, inl refl)

-- A line that would pass the cap goes into a new file, or nowhere.
rotated-Capped :
    (size : ℕ) (luck : Luck) (write : Write) (o : Output)
    → size ≤ log_max_bytes
    → o.current ≤ log_max_bytes
    → o.previous ≤ log_max_bytes
    → let rotated = open_log true luck (shut o) in
      Capped (put_if rotated.is_open size write (record rotated { written = 0 }))
unfolding open_log moved_away put_if Capped
rotated-Capped size stuck write o fits now before = (now, before, inl refl)
rotated-Capped size moved write o fits now before = (omega arith, now, inl refl)
rotated-Capped size opened write o fits now before =
    put-Capped size write
      (record o { current = 0; previous = o.current; is_open = true; written = 0 }) (omega arith)
      now refl

if-Capped :
    (b : Bool) (x y : Output)
    → (b ≡ true → Capped x)
    → (b ≡ false → Capped y)
    → Capped (if b then x else y)
if-Capped true x y left right = left refl
if-Capped false x y left right = right refl

copy_line-Capped :
    (opens : Bool) (size : ℕ) (luck : Luck) (write : Write) (o : Output)
    → o.is_open ≡ opens
    → size ≤ log_max_bytes
    → Capped o
    → Capped (copy_line opens size luck write o)
unfolding copy_line put_if Capped
copy_line-Capped false size luck write o e fits h = h
copy_line-Capped true size luck write o e fits (now, before, inl shut') = absurd (cc (e, shut'))
copy_line-Capped true size luck write o e fits (now, before, inr same) =
    if-Capped (ltb log_max_bytes (o.written + size)) _ _
      (λ past. rotated-Capped size luck write o fits now before)
      (λ room. put-Capped size write o (ground (arith, room)) before same)

copy-Capped : (pieces : List Piece) (o : Output) → Fit pieces → Capped o → Capped (copy pieces o)
unfolding copy Capped
copy-Capped [] o fit (now, before, count) = (now, before, inl refl)
copy-Capped (too_long ∷ more) o fit (now, before, count) = (now, before, inl refl)
copy-Capped (line size luck write ∷ more) o (fits, fit) h =
    copy-Capped more (copy_line o.is_open size luck write o) fit
      (copy_line-Capped o.is_open size luck write o refl fits h)

-- Whatever the service prints in lines that fit, and whatever the disk does, service.log and
-- service.log.1 stay within five megabytes each, if they were.
pub copy_output-Capped :
    (luck : Luck) (pieces : List Piece) (o : Output)
    → Fit pieces
    → o.current ≤ log_max_bytes
    → o.previous ≤ log_max_bytes
    → Capped (copy_output luck pieces o)
unfolding copy_output
copy_output-Capped luck pieces o fit now before =
    copy-Capped pieces (open_log false luck o) fit (open_log-Capped false luck o now before)
