-- ===== src/Privat/Reading.antt =====
-- How a stream is cut into chunks does not matter to the reading of a frame.
use barhandler_manager.Prelude.{
  ℕ, ◌+◌, ◌-◌, ◌<◌, ◌≡◌, refl, ap, ◌∙◌, inl, inr, Bool-cases, Bool, true, false, not, ◌||◌, Option,
  none, some, List, [], ◌∷◌, ◌++◌, map, arith, leb, ◌==◌, nat_eq, if◌then◌else◌, append_assoc,
  append-nil,
}
use barhandler_manager.Privat.Frame.{
  Bytes, Arrival, Read, frame, timed_out, through_null, skips, read_on, or_frame, behind,
  read_until_null, without_leading, is_empty,
}

-- A chunk of a stream: the wait for it and its bytes, one at least.
pub record Piece : Type 0 where
  pub after : ℕ
  pub first : ℕ
  pub others : Bytes

abbrev pub bytes_of : Piece → Bytes
bytes_of p = p.first ∷ p.others

abbrev pub arrival : Piece → Arrival
arrival p = record { after = p.after; got = some (bytes_of p) }

-- The stream, and the time that it takes
abbrev pub written : List Piece → Bytes
written [] = []
written (p ∷ ps) = bytes_of p ++ written ps

abbrev pub total : List Piece → ℕ
total [] = 0
total (p ∷ ps) = p.after + total ps

-- The first frame of a stream: what stands up to the zero byte, one at the front left out.
unfoldable pub first_frame : Bytes → Option Bytes
unfolding through_null without_leading
first_frame stream = through_null (without_leading stream)

abbrev pub read_of : Option Bytes → Read
read_of none = timed_out
read_of (some found) = frame found

behind-append :
    (b : ℕ) (closes : Bool) (r r' : Option Bytes) (found : Bytes)
    → ((rest : Bytes) → r ≡ some rest → r' ≡ some rest)
    → (if closes then some (b ∷ []) else behind b r) ≡ some found
    → (if closes then some (b ∷ []) else behind b r') ≡ some found
behind-append b true r r' found longer h = h
behind-append b false none r' found longer h = absurd (cc h)
behind-append b false (some rest) r' found longer h = rw (longer rest refl) h

pub through_null-append :
    (xs ys found : Bytes) → through_null xs ≡ some found → through_null (xs ++ ys) ≡ some found
unfolding through_null
through_null-append [] ys found h = absurd (cc h)
through_null-append (x ∷ xs) ys found h =
    behind-append x (x == 0) (through_null xs) (through_null (xs ++ ys)) found
      (λ rest. through_null-append xs ys rest) h

-- Whether a leading zero byte is not to be skipped any more
abbrev pub is_past : Bool → Bytes → Bool
is_past skipped buf = skipped || not (is_empty buf)

skips-past :
    (skipped : Bool) (buf : Bytes) (b : ℕ) (bs : Bytes)
    → is_past skipped buf ≡ true
    → skips skipped buf (b ∷ bs) ≡ false
skips-past skipped buf b bs h = ground arith

pub past_again :
    (skipped : Bool) (buf more : Bytes)
    → is_past skipped buf ≡ true
    → is_past skipped (buf ++ more) ≡ true
past_again true buf more h = refl
past_again false [] more h = absurd (cc h)
past_again false (b ∷ buf) more h = refl

-- A frame that was found stays; where none was, what follows decides.
or_frame-rest :
    (buf more : Bytes) (rest : Read) (r : Option Bytes)
    → through_null buf ≡ r
    → (through_null buf ≡ none → rest ≡ read_of (through_null (buf ++ more)))
    → or_frame r rest ≡ read_of (through_null (buf ++ more))
or_frame-rest buf more rest none h k = k h
or_frame-rest buf more rest (some found) h k = rw (through_null-append buf more found h) refl

read_on-past :
    (ps : List Piece) (left : ℕ) (skipped : Bool) (buf : Bytes)
    → is_past skipped buf ≡ true
    → through_null buf ≡ none
    → total ps < left
    → read_on left skipped buf (map arrival ps) ≡ read_of (through_null (buf ++ written ps))
unfolding read_on
read_on-past [] left skipped buf past clear h = rw (append-nil buf, clear) refl
read_on-past (p ∷ ps) left skipped buf past clear h =
    let in_time : leb left p.after ≡ false = ground arith in
    let buf' = buf ++ bytes_of p in
    let rest = read_on (left - p.after) skipped buf' (map arrival ps) in
    rw (in_time, skips-past skipped buf p.first p.others past)
      (or_frame-rest buf' (written ps) rest (through_null buf') refl (λ clear'.
          read_on-past ps (left - p.after) skipped buf' (past_again skipped buf (bytes_of p) past)
            clear' (omega arith))
        ∙ ap (λ z. read_of (through_null z)) (append_assoc buf (bytes_of p) (written ps)))

-- However a stream is cut into chunks, what is read is its first frame, or nothing in time where it
-- has none, if the chunks arrive within the timeout.
pub read_until_null-first_frame :
    (timeout : ℕ) (ps : List Piece)
    → total ps < timeout
    → read_until_null timeout (map arrival ps) ≡ read_of (first_frame (written ps))
unfolding read_until_null read_on first_frame through_null without_leading
read_until_null-first_frame timeout [] h = refl
read_until_null-first_frame timeout (p ∷ ps) h =
    let in_time : leb timeout p.after ≡ false = ground arith in
    let left = timeout - p.after in
    elim (Bool-cases (p.first == 0)) [
      | inl e ↦
          rw (in_time, e)
            (or_frame-rest p.others (written ps) (read_on left true p.others (map arrival ps))
              (through_null p.others) refl
              λ clear. read_on-past ps left true p.others refl clear (omega arith))
      | inr e ↦
          rw (in_time, e)
            (or_frame-rest (bytes_of p) (written ps)
              (read_on left false (bytes_of p) (map arrival ps)) (through_null (bytes_of p)) refl
              λ clear. read_on-past ps left false (bytes_of p) refl clear (omega arith))
    ]
