-- ===== src/Bridge/Delivery.antt =====
-- An answer of a bank's bridge is understood, over each of the three.
use barhandler_manager.Prelude.{
  ℕ, ◌<◌, ◌≤◌, ◌≡◌, refl, false, some, List, [], ◌∷◌, ◌++◌, map, length, arith, ltb,
}
use barhandler_manager.Json.{Json, Fields, obj}
use barhandler_manager.Json.Codec.{Codec}
use barhandler_manager.Ssi.Wire.{ok}
use barhandler_manager.Privat.Frame.{Bytes}
use barhandler_manager.Privat.Reading.{Piece, arrival, written, total}
use barhandler_manager.Privat.Link.{Peer, talks, met}
use barhandler_manager.Bridge.Stream.{payload, max_frame_size, reader_limit}
use barhandler_manager.Bridge.Exchange.{
  Framing, json_bytes, parse_json, read_outcome, over_bridge, exchange,
}
use barhandler_manager.Bridge.PosApi
use barhandler_manager.Bridge.Bpos
use barhandler_manager.Bridge.Oschad
use barhandler_manager.Bridge.Approved.{Bank, posapi, bpos, oschad}
use barhandler_manager.Bridge.RoundTrip.{
  IsFree, read_line-line, read_sized-sized, read_marked-marked,
}

-- `encode_frame` and `read_frame` of a bank
unfoldable pub framing_of : Bank → Framing
framing_of posapi = PosApi.framing
framing_of bpos = Bpos.framing
framing_of oschad = Oschad.framing

-- What a frame of the bank can carry: no newline over PosAPI, no ETX over Oschad, and no more than 64K,
-- which for Oschad include the STX.
unfoldable pub CanCarry : Bank → Bytes → Type 0
CanCarry posapi body = IsFree b'\n' body × (length body ≤ reader_limit)
CanCarry bpos body = (0 < length body) × (length body ≤ max_frame_size)
CanCarry oschad body = IsFree 0x03 body × (length body < reader_limit)

-- Over each of the three bridges, a frame that arrives within the timeout gives back the bytes that were
-- put into it, whatever the chunks in which it comes and whatever follows it, if the frame can carry them.
read_frame-encode :
    (bank : Bank) (timeout : ℕ) (ps : List Piece) (body rest : Bytes)
    → total ps < timeout
    → written ps ≡ (framing_of bank).encode body ++ rest
    → CanCarry bank body
    → (framing_of bank).read_frame timeout (map arrival ps) ≡ payload body
unfolding framing_of CanCarry
read_frame-encode posapi timeout ps body rest soon stream (free, fits) =
    read_line-line timeout ps body rest soon stream free fits
read_frame-encode bpos timeout ps body rest soon stream (some_byte, fits) =
    read_sized-sized timeout ps body rest soon stream some_byte fits
read_frame-encode oschad timeout ps body rest soon stream (free, fits) =
    read_marked-marked timeout ps body rest soon stream free fits

module _ (codec : Codec) where
  json_bytes-fits :
      (request : Fields)
      → length (codec.dumps (obj request)) ≤ max_frame_size
      → json_bytes codec request ≡ some (codec.dumps (obj request))
  unfolding json_bytes
  json_bytes-fits request fits =
      let short : ltb max_frame_size (length (codec.dumps (obj request))) ≡ false = ground arith in
      rw short refl

  read_outcome-payload :
      (b : ℕ) (bs : Bytes) (fs : Fields)
      → codec.loads (b ∷ bs) ≡ some (obj fs)
      → read_outcome codec (payload (b ∷ bs)) ≡ ok fs
  unfolding read_outcome parse_json
  read_outcome-payload b bs fs reads_back = rw reads_back refl

  -- Over each of the three bridges, an answer that comes within the timeout is what `exchange` returns,
  -- whatever the chunks in which it comes and whatever follows it, if the request has at most 64K, and
  -- the text of the answer is not empty, fits the frame and reads back as a dictionary.
  pub exchange_answered :
      (bank : Bank) (timeout : ℕ) (request fs : Fields) (sent : List Json) (ps : List Piece)
      (others : List Peer) (b : ℕ) (bs rest : Bytes)
      → length (codec.dumps (obj request)) ≤ max_frame_size
      → total ps < timeout
      → written ps ≡ (framing_of bank).encode (b ∷ bs) ++ rest
      → CanCarry bank (b ∷ bs)
      → codec.loads (b ∷ bs) ≡ some (obj fs)
      → exchange codec
          (framing_of bank)
          timeout
          request
          (record { coming = talks (map arrival ps) ∷ others; sent = sent })
        ≡ (ok fs, record { coming = others; sent = sent ++ obj request ∷ [] })
  unfolding exchange met over_bridge
  exchange_answered bank timeout request fs sent ps others b bs rest fits soon stream can
        reads_back =
      rw
        (
          json_bytes-fits request fits,
          read_frame-encode bank timeout ps (b ∷ bs) rest soon stream can,
          read_outcome-payload b bs fs reads_back,
        )
        refl
