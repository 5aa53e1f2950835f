-- ===== src/Privat/Frame.antt =====
-- services/terminals/privatbank.py, the frames: the bytes of a JSON text, closed by a zero byte, with
-- one more in front where the connection is greeted. `dumps` of the codec stands for the compact
-- `json.dumps(…).encode("utf-8")`, `loads` for `json.loads(… .decode("utf-8"))`. Reading: a network
-- brings bytes in chunks, a serial port one at a time.
use barhandler_manager.Prelude.{
  ℕ, ◌+◌, ◌-◌, ◌*◌, Bool, true, false, not, ◌&&◌, ◌||◌, Option, none, some, List, [], ◌∷◌, ◌++◌,
  map, length, ltb, leb, ◌==◌, nat_eq, if◌then◌else◌,
}
use barhandler_manager.Json.{Json}
use barhandler_manager.Json.Codec.{Codec}

abbrev pub Bytes : Type 0
Bytes = List ℕ

-- `MAX_FRAME_SIZE`
abbrev pub max_frame_size : ℕ
max_frame_size = 64 * 1024

abbrev pub is_empty : Bytes → Bool
is_empty [] = true
is_empty (b ∷ bs) = false

-- `body[1:]` where `body[:1] == DELIMITER_BYTE`
unfoldable pub without_leading : Bytes → Bytes
without_leading [] = []
without_leading (b ∷ bs) = if b == 0 then bs else b ∷ bs

abbrev pub behind : ℕ → Option Bytes → Option Bytes
behind b none = none
behind b (some found) = some (b ∷ found)

-- The body in front of the closing zero byte; `none` where the last byte is another.
unfoldable pub without_terminator : Bytes → Option Bytes
without_terminator [] = none
without_terminator (b ∷ []) = if b == 0 then some [] else none
without_terminator (b ∷ c ∷ bs) = behind b (without_terminator (c ∷ bs))

unfoldable pub enclosed : Bool → Bytes → Bytes
enclosed leading body = if leading then 0 ∷ (body ++ 0 ∷ []) else body ++ 0 ∷ []

module _ (codec : Codec) where
  -- `encode_frame`; `none` is the `ValueError` of a message past 64K
  unfoldable pub encode_frame : Bool → Json → Option Bytes
  unfolding enclosed
  encode_frame leading v =
      let body = codec.dumps v in
      if ltb max_frame_size (length body) then none else some (enclosed leading body)

  unfoldable pub decode_body : Option Bytes → Option Json
  decode_body none = none
  decode_body (some []) = none
  decode_body (some (b ∷ bs)) = codec.loads (b ∷ bs)

  -- `decode_frame`; `none` is a `FrameError`
  unfoldable pub decode_frame : Bytes → Option Json
  unfolding without_leading without_terminator decode_body
  decode_frame buffer = decode_body (without_terminator (without_leading buffer))

-- What a read of a network connection brings, and after how many milliseconds: a chunk, the empty
-- one at the end of the stream, or a broken connection. Where nothing is left the peer stays silent.
pub record Arrival : Type 0 where
  pub after : ℕ
  pub got : Option Bytes

pub data Read : Type 0 where
  frame : Bytes → Read
  timed_out broken : Read

-- `buf[: buf.find(DELIMITER) + 1]`
unfoldable pub through_null : Bytes → Option Bytes
through_null [] = none
through_null (b ∷ bs) =
    let rest = through_null bs in if b == 0 then some (b ∷ []) else behind b rest

-- Whether the leading zero byte is skipped here
abbrev pub skips : Bool → Bytes → Bytes → Bool
skips skipped buf [] = false
skips skipped buf (b ∷ bs) = not skipped && b == 0 && is_empty buf

abbrev pub or_frame : Option Bytes → Read → Read
or_frame none rest = rest
or_frame (some found) rest = frame found

-- `_read_until_null`, with the time that is left, the flag and the bytes so far
unfoldable pub read_on : ℕ → Bool → Bytes → List Arrival → Read
unfolding through_null without_leading
read_on left skipped buf [] = timed_out
read_on left skipped buf (a ∷ more) = if leb left a.after then timed_out else elim a.got [
  | none ↦ broken
  | some [] ↦ broken
  | some (b ∷ bs) ↦
      let skip = skips skipped buf (b ∷ bs) in
      let buf' = buf ++ (if skip then bs else b ∷ bs) in
      let rest = read_on (left - a.after) (skip || skipped) buf' more in
      or_frame (through_null buf') rest
]

unfoldable pub read_until_null : ℕ → List Arrival → Read
unfolding read_on
read_until_null timeout more = read_on timeout false [] more

-- One byte at a serial port and the wait for it, or the error of a port that is gone.
pub record Beat : Type 0 where
  pub wait : ℕ
  pub byte : Option ℕ

-- The bytes of the arrivals one by one: those of a chunk come together.
unfoldable pub beats : ℕ → List Arrival → List Beat
beats carried [] = []
beats carried (a ∷ more) = elim a.got [
  | none ↦ record { wait = carried + a.after; byte = none } ∷ []
  | some [] ↦ beats (carried + a.after) more
  | some (b ∷ bs) ↦
      record { wait = carried + a.after; byte = some b }
      ∷ (map (λ c. record { wait = 0; byte = some c }) bs ++ beats 0 more)
]

-- How the reading of a serial port ends; `escaped` is an error that the adapter does not expect: the
-- port's own, or the `TimeoutError` of `wait_for` around the whole exchange.
pub data SerialRead : Type 0 where
  whole : Bytes → SerialRead
  quiet escaped : SerialRead

-- The loop of `_io`, with the time of one read, the time that is left for all, and the bytes so far
unfoldable pub serial_on : ℕ → ℕ → Bool → Bytes → List Beat → SerialRead
serial_on timeout left skipped buf [] = if ltb timeout left then quiet else escaped
serial_on timeout left skipped buf (x ∷ xs) =
    if leb timeout x.wait && ltb timeout left
    then quiet
    else if leb left x.wait
    then escaped
    else elim x.byte [
      | none ↦ escaped
      | some b ↦
          let skip = not skipped && b == 0 && is_empty buf in
          let rest =
            serial_on timeout (left - x.wait) (skip || skipped)
              (if skip then buf else buf ++ b ∷ []) xs in
          if skip then rest else if b == 0 then whole (buf ++ b ∷ []) else rest
    ]

unfoldable pub read_serial : ℕ → List Arrival → SerialRead
unfolding serial_on beats
read_serial timeout more = serial_on timeout (timeout + 3000) false [] (beats 0 more)
