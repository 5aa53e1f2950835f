-- ===== src/Privat/Delivery.antt =====
-- An answer arrives as it was meant, over either transport and however it is cut.
use barhandler_manager.Prelude.{
  ℕ, ◌<◌, ◌≡◌, refl, ap, ◌∙◌, Bool, true, false, some, List, [], ◌∷◌, ◌++◌, map, ◌==◌, nat_eq,
  append_assoc,
}
use barhandler_manager.Json.{Json}
use barhandler_manager.Json.Codec.{Codec}
use barhandler_manager.Ssi.Wire.{ok}
use barhandler_manager.Privat.Frame.{
  Bytes, enclosed, decode_frame, through_null, without_leading, without_terminator, behind,
  decode_body,
}
use barhandler_manager.Privat.Reading.{
  Piece, arrival, written, total, first_frame, read_until_null-first_frame,
}
use barhandler_manager.Privat.Serial.{read_serial-first_frame}
use barhandler_manager.Privat.Link.{talks, over_tcp, over_serial, tcp_outcome, serial_outcome}

-- No zero byte, as in the text of any JSON value
abbrev pub IsNullFree : Bytes → Type 0
IsNullFree [] = Unit
IsNullFree (b ∷ bs) = ((b == 0) ≡ false) × IsNullFree bs

through_null-body :
    (body rest : Bytes) → IsNullFree body → through_null (body ++ 0 ∷ rest) ≡ some (body ++ 0 ∷ [])
unfolding through_null
through_null-body [] rest free = refl
through_null-body (b ∷ bs) rest (other, free) = rw (other, through_null-body bs rest free) refl

without_terminator-body : (body : Bytes) → without_terminator (body ++ 0 ∷ []) ≡ some body
unfolding without_terminator
without_terminator-body [] = refl
without_terminator-body (b ∷ []) = refl
without_terminator-body (b ∷ c ∷ bs) = ap (behind b) (without_terminator-body (c ∷ bs))

kept_leading : (b : ℕ) (bs : Bytes) → (b == 0) ≡ false → without_leading (b ∷ bs) ≡ b ∷ bs
unfolding without_leading
kept_leading b bs other = rw other refl

first_frame-enclosed :
    (leading : Bool) (b : ℕ) (bs rest : Bytes)
    → IsNullFree (b ∷ bs)
    → first_frame (enclosed leading (b ∷ bs) ++ rest) ≡ some (b ∷ (bs ++ 0 ∷ []))
unfolding first_frame enclosed without_leading
first_frame-enclosed true b bs rest free =
    ap through_null (append_assoc (b ∷ bs) (0 ∷ []) rest) ∙ through_null-body (b ∷ bs) rest free
first_frame-enclosed false b bs rest (other, free) =
    ap through_null (kept_leading b ((bs ++ 0 ∷ []) ++ rest) other)
    ∙ ap through_null (append_assoc (b ∷ bs) (0 ∷ []) rest)
    ∙ through_null-body (b ∷ bs) rest (other, free)

module _ (codec : Codec) where
  decode_frame-body :
      (b : ℕ) (bs : Bytes)
      → (b == 0) ≡ false
      → decode_frame codec (b ∷ (bs ++ 0 ∷ [])) ≡ codec.loads (b ∷ bs)
  unfolding decode_frame decode_body
  decode_frame-body b bs other =
      rw (kept_leading b (bs ++ 0 ∷ []) other, without_terminator-body (b ∷ bs)) refl

  -- A peer that answers with the frame of a message within the timeout is understood, over the network
  -- and over a serial port alike: whatever the chunks in which the bytes come, whether a zero byte
  -- stands in front, and whatever follows the frame, if the text in the frame is not empty, has no zero
  -- byte and reads back as the message.
  pub delivered :
      (timeout : ℕ) (request : Bytes) (v : Json) (leading : Bool) (ps : List Piece) (b : ℕ)
      (bs rest : Bytes)
      → total ps < timeout
      → written ps ≡ enclosed leading (b ∷ bs) ++ rest
      → IsNullFree (b ∷ bs)
      → codec.loads (b ∷ bs) ≡ some v
      → (over_tcp codec timeout (some request) (talks (map arrival ps)) ≡ ok v)
        × (over_serial codec timeout (some request) (talks (map arrival ps)) ≡ ok v)
  unfolding over_tcp over_serial tcp_outcome serial_outcome
  delivered timeout request v leading ps b bs rest soon stream (other, free) reads_back =
      let first = ap first_frame stream ∙ first_frame-enclosed leading b bs rest (other, free) in
      let decoded = decode_frame-body b bs other ∙ reads_back in
      (
        rw (read_until_null-first_frame timeout ps soon, first, decoded) refl,
        rw (read_serial-first_frame timeout ps (b ∷ (bs ++ 0 ∷ [])) soon first, decoded) refl,
      )
