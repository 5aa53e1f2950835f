-- ===== src/Bridge/Stream.antt =====
-- `StreamReader.readuntil` and `readexactly` over what a connection brings, and the frames of the
-- three bridges that are read with them.
use barhandler_manager.Prelude.{
  ℕ, ◌+◌, ◌-◌, ◌*◌, ◌/◌, ◌%◌, ◌^◌, ◌||◌, Option, none, some, List, [], ◌∷◌, ◌++◌, length, take,
  drop, ltb, leb, ◌==◌, nat_eq, if◌then◌else◌,
}
use barhandler_manager.Privat.Frame.{Bytes, Arrival}

-- `MAX_FRAME_SIZE`
abbrev pub max_frame_size : ℕ
max_frame_size = 64 * 1024

-- The limit of asyncio's readers
abbrev pub reader_limit : ℕ
reader_limit = 2 ^ 16

-- How the reading of a frame ends: with its payload, a `BridgeFrameError`, a timeout, a connection that
-- broke or was closed, or a `LimitOverrunError`.
pub data Read : Type 0 where
  payload : Bytes → Read
  bad_frame timed_out broken overrun : Read

abbrev pub behind : ℕ → Option Bytes → Option Bytes
behind b none = none
behind b (some found) = some (b ∷ found)

-- What stands before the first byte `sep`
unfoldable pub before : ℕ → Bytes → Option Bytes
before sep [] = none
before sep (b ∷ bs) = let rest = before sep bs in if b == sep then some [] else behind b rest

-- What `readuntil` makes of the bytes so far: a line, an overrun, or nothing yet.
unfoldable pub line_or : Option Bytes → Bytes → Read → Read
line_or (some line) buf rest = if ltb reader_limit (length line) then overrun else payload line
line_or none buf rest = if ltb reader_limit (length buf) then overrun else rest

-- `wait_for(reader.readuntil(sep), timeout)`, with the time that is left and the bytes so far; the
-- separator itself is cut off.
unfoldable pub read_until : ℕ → ℕ → Bytes → List Arrival → Read
unfolding before line_or
read_until sep left buf [] = line_or (before sep buf) buf timed_out
read_until sep left buf (a ∷ more) =
    let next = if leb left a.after then timed_out else elim a.got [
      | none ↦ broken
      | some [] ↦ broken
      | some (b ∷ bs) ↦ read_until sep (left - a.after) (buf ++ b ∷ bs) more
    ] in
    line_or (before sep buf) buf next

-- How `readexactly` ends: with the bytes, what is left in the buffer, and what is still to come.
pub data Exact : Type 0 where
  got : Bytes → Bytes → List Arrival → Exact
  late snapped : Exact

-- `wait_for(reader.readexactly(n), timeout)`
unfoldable pub read_exactly : ℕ → ℕ → Bytes → List Arrival → Exact
read_exactly n left buf [] = if leb n (length buf) then got (take n buf) (drop n buf) [] else late
read_exactly n left buf (a ∷ more) =
    let next = if leb left a.after then late else elim a.got [
      | none ↦ snapped
      | some [] ↦ snapped
      | some (b ∷ bs) ↦ read_exactly n (left - a.after) (buf ++ b ∷ bs) more
    ] in
    if leb n (length buf) then got (take n buf) (drop n buf) (a ∷ more) else next

abbrev pub line_of : Read → Read
line_of overrun = bad_frame
line_of r = r

-- posapi.py: a line; an overrun becomes a frame error.
unfoldable pub read_line : ℕ → List Arrival → Read
unfolding read_until
read_line timeout more = line_of (read_until b'\n' timeout [] more)

-- bpos.py: four bytes with the length, then the body, each with the whole timeout
abbrev pub number : Bytes → ℕ
number (a ∷ b ∷ c ∷ d ∷ []) = ((a * 256 + b) * 256 + c) * 256 + d
number _ = 0

abbrev pub body_of : Exact → Read
body_of (got body buf more) = payload body
body_of late = timed_out
body_of snapped = broken

unfoldable pub read_body : ℕ → Exact → Read
unfolding read_exactly
read_body timeout (got header buf more) =
    let size = number header in
    let body = body_of (read_exactly size timeout buf more) in
    if size == 0 || ltb max_frame_size size then bad_frame else body
read_body timeout late = timed_out
read_body timeout snapped = broken

unfoldable pub read_sized : ℕ → List Arrival → Read
unfolding read_exactly read_body
read_sized timeout more = read_body timeout (read_exactly 4 timeout [] more)

unfoldable pub without_stx : Bytes → Bytes
without_stx [] = []
without_stx (b ∷ bs) = if b == 0x02 then bs else b ∷ bs

unfoldable pub marked_of : Read → Read
unfolding without_stx
marked_of (payload raw) =
    let body = without_stx raw in
    if ltb max_frame_size (length body) then bad_frame else payload body
marked_of r = r

-- oschad.py: up to ETX, without a leading STX; an overrun stays one.
unfoldable pub read_marked : ℕ → List Arrival → Read
unfolding read_until marked_of
read_marked timeout more = marked_of (read_until 0x03 timeout [] more)

-- The frames around the bytes of a message: `encode_frame` of each
unfoldable pub line : Bytes → Bytes
line body = body ++ b'\n' ∷ []

unfoldable pub sized : Bytes → Bytes
sized body =
    let n = length body in (n / 2 ^ 24) ∷ (n / 2 ^ 16 % 256) ∷ (n / 256 % 256) ∷ (n % 256) ∷ body

unfoldable pub marked : Bytes → Bytes
marked body = 0x02 ∷ (body ++ 0x03 ∷ [])
