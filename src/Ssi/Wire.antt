-- ===== src/Ssi/Wire.antt =====
-- `send_tcp` and what stands around it: one request, one answer, over a network that answers as it
-- likes. A run of the adapter meets a list of exchanges, each with the time that it takes; the
-- messages are kept in their order.
use barhandler_manager.Prelude.{
  ℕ, ◌+◌, ◌*◌, Option, none, some, List, [], ◌∷◌, ◌++◌, length, take, ltb, String, if◌then◌else◌,
}
use barhandler_manager.Prelude.Text.{codes}
use barhandler_manager.Json.{Json, Fields}
use barhandler_manager.Json.Codec.{Codec}
use barhandler_manager.Ssi.Frame.{
  Bytes, Decoded, message, frame_error, not_json, encode_frame, decode_frame, is_stx, byte_at,
}

-- How a call ends: with a value, with a `TerminalUnavailable` of the given code, or with another
-- exception, which the adapter does not expect.
pub data Outcome (A : Type 0) : Type 0 where
  ok : A → Outcome A
  unavailable : List ℕ → Outcome A
  crashed : Outcome A

-- What the network does with a request: no connection, a timeout, a broken connection, or bytes.
pub data Net : Type 0 where
  refused timed_out broken : Net
  answered : Bytes → Net

-- An exchange to come, and how many milliseconds it takes.
pub record Exchange : Type 0 where
  pub net : Net
  pub takes : ℕ

-- A business event: its type, its keywords but for `raw`, and the text of `raw`, empty for none.
pub record Told : Type 0 where
  pub kind : String
  pub payload : Fields
  pub raw : List ℕ

-- The clock, the exchanges to come, the messages that the adapter asked to send, those that found
-- no connection included, and the events that it handed to `emit_event` of the log uplink.
pub record Wire : Type 0 where
  pub now : ℕ
  pub coming : List Exchange
  pub sent : List Json
  pub events : List Told

abbrev pub M : Type 0 → Type 0
M A = Wire → Outcome A × Wire

abbrev pub pure : {A : Type 0} → A → M A
pure a w = (ok a, w)

abbrev pub raise : {A : Type 0} → String → M A
raise code w = (unavailable (codes code), w)

abbrev pub crash : {A : Type 0} → M A
crash w = (crashed, w)

abbrev pub continue : {A B : Type 0} → Outcome A → (A → M B) → M B
continue (ok a) f w = f a w
continue (unavailable code) f w = (unavailable code, w)
continue crashed f w = (crashed, w)

infixl 5 ◌>>=◌ ◌>>◌
abbrev pub ◌>>=◌ : {A B : Type 0} → M A → (A → M B) → M B
◌>>=◌ m f w = let (r, w') = m w in continue r f w'

abbrev pub ◌>>◌ : {A B : Type 0} → M A → M B → M B
m >> n = m >>= λ _. n

-- `asyncio.sleep`, in milliseconds
unfoldable pub sleep : ℕ → M (Unit {0})
sleep ms w = (ok tt, record w { now = w.now + ms })

-- `emit_event(kind, **payload)`, which never raises
unfoldable pub emit_event : Told → M (Unit {0})
emit_event told w = (ok tt, record w { events = w.events ++ told ∷ [] })

module _ (codec : Codec) where
  unfoldable pub decoded_outcome : Decoded → Outcome Json
  decoded_outcome (message v) = ok v
  decoded_outcome frame_error = unavailable (codes "protocol_error")
  decoded_outcome not_json = crashed

  -- The five bytes of the header, then as many as they announce and one more.
  unfoldable pub read_answer : Bytes → Outcome Json
  unfolding decoded_outcome
  read_answer bytes =
      let size = byte_at bytes 3 * 256 + byte_at bytes 4 in
      if ltb (length bytes) 5
      then unavailable (codes "unreachable")
      else if is_stx (take 3 bytes)
      then (if ltb (length bytes) (5 + size + 1)
          then unavailable (codes "unreachable")
          else decoded_outcome (decode_frame codec (take (5 + size + 1) bytes)))
      else unavailable (codes "protocol_error")

  -- What comes back over a connection that was made, for a message that fits a frame or does not.
  unfoldable pub after_connect : Option Bytes → Net → Outcome Json
  unfolding read_answer
  after_connect frame refused = unavailable (codes "unreachable")
  after_connect none _ = crashed
  after_connect (some frame) timed_out = unavailable (codes "timeout")
  after_connect (some frame) broken = unavailable (codes "unreachable")
  after_connect (some frame) (answered bytes) = read_answer bytes

  -- `send_tcp`. Where no exchange is to come the terminal is gone.
  unfoldable pub send_tcp : Json → M Json
  unfolding after_connect
  send_tcp v w = elim w.coming [
    | [] ↦ (unavailable (codes "unreachable"), record w { sent = w.sent ++ v ∷ [] })
    | x ∷ rest ↦ (
      after_connect (encode_frame codec v) x.net,
      record w { now = w.now + x.takes; coming = rest; sent = w.sent ++ v ∷ [] },
    )
  ]
