-- ===== src/Privat/Serial.antt =====
-- A serial port reads the same frame byte by byte.
use barhandler_manager.Prelude.{
  ℕ, ◌+◌, ◌-◌, ◌<◌, ◌≡◌, refl, ap, ◌∙◌, inl, inr, Bool-cases, Bool, true, false, not, ◌&&◌, Option,
  none, some, List, [], ◌∷◌, ◌++◌, map, arith, leb, ◌==◌, nat_eq, if◌then◌else◌, append_assoc,
  append-nil,
}
use barhandler_manager.Privat.Frame.{
  Bytes, Arrival, Beat, whole, through_null, beats, serial_on, read_serial, without_leading,
  is_empty, behind,
}
use barhandler_manager.Privat.Reading.{
  Piece, arrival, written, total, first_frame, is_past, past_again,
}

abbrev prefixed : Bytes → Option Bytes → Option Bytes
prefixed buf none = none
prefixed buf (some found) = some (buf ++ found)

behind-prefixed :
    (b : ℕ) (buf : Bytes) (r : Option Bytes) → behind b (prefixed buf r) ≡ prefixed (b ∷ buf) r
behind-prefixed b buf none = refl
behind-prefixed b buf (some found) = refl

prefixed-nil : (r : Option Bytes) → r ≡ prefixed [] r
prefixed-nil none = refl
prefixed-nil (some found) = refl

behind-none : (b : ℕ) (r : Option Bytes) → behind b r ≡ none → r ≡ none
behind-none b none h = refl
behind-none b (some found) h = absurd (cc h)

not_closed :
    (closes : Bool) (b : ℕ) (r : Option Bytes)
    → (if closes then some (b ∷ []) else behind b r) ≡ none
    → (closes ≡ false) × (r ≡ none)
not_closed true b r h = absurd (cc h)
not_closed false b r h = (refl, behind-none b r h)

-- Where no frame ends in `buf`, it ends in what follows.
through_null-clear :
    (buf more : Bytes)
    → through_null buf ≡ none
    → through_null (buf ++ more) ≡ prefixed buf (through_null more)
unfolding through_null
through_null-clear [] more h = prefixed-nil (through_null more)
through_null-clear (b ∷ buf) more h =
    let (open_yet, clear) = not_closed (b == 0) b (through_null buf) h in
    rw (open_yet, through_null-clear buf more clear) (behind-prefixed b buf (through_null more))

ends_here :
    (buf : Bytes) (b : ℕ) (more found : Bytes)
    → through_null buf ≡ none
    → (b == 0) ≡ true
    → through_null (buf ++ b ∷ more) ≡ some found
    → whole (buf ++ b ∷ []) ≡ whole found
unfolding through_null
ends_here buf b more found clear e h =
    let split = through_null-clear buf (b ∷ more) clear in
    let closed : prefixed buf (through_null (b ∷ more)) ≡ some (buf ++ b ∷ []) = rw e refl in
    cc (split, closed, h)

goes_on :
    (buf : Bytes) (b : ℕ)
    → through_null buf ≡ none
    → (b == 0) ≡ false
    → through_null (buf ++ b ∷ []) ≡ none
unfolding through_null
goes_on buf b clear e =
    let open_yet : prefixed buf (through_null (b ∷ [])) ≡ none = rw e refl in
    through_null-clear buf (b ∷ []) clear ∙ open_yet

one_byte :
    (timeout left wait : ℕ) (skipped : Bool) (buf : Bytes) (b : ℕ) (xs : List Beat)
    (more found : Bytes)
    → is_past skipped buf ≡ true
    → through_null buf ≡ none
    → wait < timeout
    → wait < left
    → through_null (buf ++ b ∷ more) ≡ some found
    → (through_null (buf ++ b ∷ []) ≡ none
        → through_null ((buf ++ b ∷ []) ++ more) ≡ some found
        → serial_on timeout (left - wait) skipped (buf ++ b ∷ []) xs ≡ whole found)
    → serial_on timeout left skipped buf (record { wait = wait; byte = some b } ∷ xs) ≡ whole found
unfolding serial_on
one_byte timeout left wait skipped buf b xs more found past clear soon in_time h rest =
    let quick : leb timeout wait ≡ false = ground arith in
    let still : leb left wait ≡ false = ground arith in
    let stays : (not skipped && b == 0 && is_empty buf) ≡ false = ground arith in
    rw (quick, still, stays)
      (elim (Bool-cases (b == 0)) [
        | inl e ↦ rw e (ends_here buf b more found clear e h)
        | inr e ↦
            rw e
              (rest (goes_on buf b clear e) (ap through_null (append_assoc buf (b ∷ []) more) ∙ h))
      ])

abbrev at_once : ℕ → Beat
at_once b = record { wait = 0; byte = some b }

-- The bytes of a chunk, one after the other, in front of what is still to come
many_bytes :
    (timeout left : ℕ) (skipped : Bool) (bs buf : Bytes) (xs : List Beat) (more found : Bytes)
    → is_past skipped buf ≡ true
    → through_null buf ≡ none
    → 0 < timeout
    → 0 < left
    → through_null (buf ++ (bs ++ more)) ≡ some found
    → ((seen : Bytes)
        → is_past skipped seen ≡ true
        → through_null seen ≡ none
        → through_null (seen ++ more) ≡ some found
        → serial_on timeout left skipped seen xs ≡ whole found)
    → serial_on timeout left skipped buf (map at_once bs ++ xs) ≡ whole found
many_bytes timeout left skipped [] buf xs more found past clear soon in_time h rest =
    rest buf past clear h
many_bytes timeout left skipped (b ∷ bs) buf xs more found past clear soon in_time h rest =
    one_byte timeout left 0 skipped buf b (map at_once bs ++ xs) (bs ++ more) found past clear soon
      in_time h
      λ clear' h'.
        let unhurried : left - 0 ≡ left = omega arith in
        rw unhurried (
          many_bytes timeout left skipped bs (buf ++ b ∷ []) xs more found
            (past_again skipped buf (b ∷ []) past) clear' soon in_time h' rest)

beats-piece :
    (p : Piece) (more : List Arrival)
    → beats 0 (arrival p ∷ more)
      ≡ record { wait = p.after; byte = some p.first } ∷ (map at_once p.others ++ beats 0 more)
unfolding beats
beats-piece p more = let same : 0 + p.after ≡ p.after = omega arith in rw same refl

serial_on-past :
    (ps : List Piece) (timeout left : ℕ) (skipped : Bool) (buf found : Bytes)
    → is_past skipped buf ≡ true
    → through_null buf ≡ none
    → total ps < timeout
    → total ps < left
    → through_null (buf ++ written ps) ≡ some found
    → serial_on timeout left skipped buf (beats 0 (map arrival ps)) ≡ whole found
serial_on-past [] timeout left skipped buf found past clear soon in_time h =
    let none_yet : through_null (buf ++ []) ≡ none = rw (append-nil buf) clear in
    absurd (cc (h, none_yet))
serial_on-past (p ∷ ps) timeout left skipped buf found past clear soon in_time h =
    let wait = p.after in
    let later = beats 0 (map arrival ps) in
    rw (beats-piece p (map arrival ps)) (
      one_byte timeout left wait skipped buf p.first (map at_once p.others ++ later)
        (p.others ++ written ps) found past clear (omega arith) (omega arith) h
        λ clear' h'.
          many_bytes timeout (left - wait) skipped p.others (buf ++ p.first ∷ []) later (written ps)
            found (past_again skipped buf (p.first ∷ []) past) clear' (omega arith) (omega arith) h'
            λ seen past'' clear'' h''.
              serial_on-past ps timeout (left - wait) skipped seen found past'' clear''
                (omega arith) (omega arith) h'')

chunk_on :
    (ps : List Piece) (timeout left : ℕ) (skipped : Bool) (bs buf found : Bytes)
    → is_past skipped buf ≡ true
    → through_null buf ≡ none
    → total ps < timeout
    → total ps < left
    → through_null (buf ++ (bs ++ written ps)) ≡ some found
    → serial_on timeout left skipped buf (map at_once bs ++ beats 0 (map arrival ps)) ≡ whole found
chunk_on ps timeout left skipped bs buf found past clear soon in_time h =
    many_bytes timeout left skipped bs buf (beats 0 (map arrival ps)) (written ps) found past clear
      (omega arith) (omega arith) h
      λ seen past' clear' h'.
        serial_on-past ps timeout left skipped seen found past' clear' soon in_time h'

nothing_first : first_frame [] ≡ none
unfolding first_frame through_null without_leading
nothing_first = refl

zero_first : (bs : Bytes) (b : ℕ) → (b == 0) ≡ true → first_frame (b ∷ bs) ≡ through_null bs
unfolding first_frame without_leading
zero_first bs b e = rw e refl

other_first : (bs : Bytes) (b : ℕ) → (b == 0) ≡ false → first_frame (b ∷ bs) ≡ through_null (b ∷ bs)
unfolding first_frame without_leading
other_first bs b e =
    let same : (if b == 0 then bs else b ∷ bs) ≡ b ∷ bs = rw e refl in ap through_null same

from_start :
    (timeout : ℕ) (p : Piece) (ps : List Piece) (found : Bytes)
    → total (p ∷ ps) < timeout
    → first_frame (written (p ∷ ps)) ≡ some found
    → serial_on timeout (timeout + 3000) false [] (
        record { wait = p.after; byte = some p.first }
        ∷ (map at_once p.others ++ beats 0 (map arrival ps)))
      ≡ whole found
unfolding serial_on through_null
from_start timeout p ps found soon h =
    let left = timeout + 3000 - p.after in
    let quick : leb timeout p.after ≡ false = ground arith in
    let still : leb (timeout + 3000) p.after ≡ false = ground arith in
    rw (quick, still)
      (elim (Bool-cases (p.first == 0)) [
        | inl e ↦
            let skipped_over : through_null (p.others ++ written ps) ≡ some found =
              cc (zero_first (p.others ++ written ps) p.first e, h) in
            rw e (
              chunk_on ps timeout left true p.others [] found refl refl (omega arith) (omega arith)
                skipped_over)
        | inr e ↦
            let kept : through_null (p.first ∷ (p.others ++ written ps)) ≡ some found =
              cc (other_first (p.others ++ written ps) p.first e, h) in
            rw e (
              chunk_on ps timeout left false p.others (p.first ∷ []) found refl
                (goes_on [] p.first refl e) (omega arith) (omega arith) kept)
      ])

-- A serial port reads the same first frame, byte by byte, if the stream brings one within the timeout.
pub read_serial-first_frame :
    (timeout : ℕ) (ps : List Piece) (found : Bytes)
    → total ps < timeout
    → first_frame (written ps) ≡ some found
    → read_serial timeout (map arrival ps) ≡ whole found
unfolding read_serial
read_serial-first_frame timeout [] found soon h =
    absurd (let empty : first_frame [] ≡ none = nothing_first in cc (h, empty))
read_serial-first_frame timeout (p ∷ ps) found soon h =
    ap (serial_on timeout (timeout + 3000) false []) (beats-piece p (map arrival ps))
    ∙ from_start timeout p ps found soon h
