-- ===== src/Privat/Link.antt =====
-- services/terminals/privatbank.py, the transports: `send_tcp` and `send_serial`, one message and one
-- answer over a connection of its own. A run of the adapter meets a list of peers; the messages are
-- kept in their order. Times are in milliseconds.
use barhandler_manager.Prelude.{ℕ, Bool, Option, none, some, List, [], ◌∷◌, ◌++◌, String}
use barhandler_manager.Prelude.Text.{codes}
use barhandler_manager.Json.{Json}
use barhandler_manager.Json.Codec.{Codec}
use barhandler_manager.Ssi.Wire.{Outcome, ok, unavailable, crashed}
use barhandler_manager.Privat.Frame.{
  Bytes, Arrival, Read, frame, timed_out, broken, SerialRead, whole, quiet, escaped, encode_frame,
  decode_frame, read_until_null, read_serial,
}

-- What a connection meets: none is made, or it takes no bytes in time, or breaks as they are sent, or
-- the peer answers.
pub data Peer : Type 0 where
  refused stalled snapped : Peer
  talks : List Arrival → Peer

-- The peers to come, and the messages that the adapter asked to send, those that found no connection
-- included.
pub record Link : Type 0 where
  pub coming : List Peer
  pub sent : List Json

abbrev pub M : Type 0 → Type 0
M A = Link → Outcome A × Link

abbrev pub pure : {A : Type 0} → A → M A
pure a l = (ok a, l)

abbrev pub raise : {A : Type 0} → String → M A
raise code l = (unavailable (codes code), l)

abbrev pub lift : {A : Type 0} → Outcome A → M A
lift r l = (r, l)

abbrev pub continue : {A B : Type 0} → Outcome A → (A → M B) → M B
continue (ok a) f l = f a l
continue (unavailable code) f l = (unavailable code, l)
continue crashed f l = (crashed, l)

infixl 5 ◌>>=◌ ◌>>◌
abbrev pub ◌>>=◌ : {A B : Type 0} → M A → (A → M B) → M B
◌>>=◌ m f l = let (r, l') = m l in continue r f l'

abbrev pub ◌>>◌ : {A B : Type 0} → M A → M B → M B
m >> n = m >>= λ _. n

abbrev pub framed : Option Json → Outcome Json
framed none = unavailable (codes "protocol_error")
framed (some v) = ok v

-- Where no peer is to come the terminal is gone.
unfoldable pub met : {A : Type 0} → (Peer → Outcome A) → Json → List Peer → M A
met transport v [] l = (transport refused, record l { sent = l.sent ++ v ∷ [] })
met transport v (peer ∷ rest) l =
    (transport peer, record l { coming = rest; sent = l.sent ++ v ∷ [] })

module _ (codec : Codec) where
  unfoldable pub tcp_outcome : Read → Outcome Json
  tcp_outcome (frame raw) = framed (decode_frame codec raw)
  tcp_outcome timed_out = unavailable (codes "timeout")
  tcp_outcome broken = unavailable (codes "unreachable")

  -- What comes of a message that fits a frame, or does not, over a network.
  unfoldable pub over_tcp : ℕ → Option Bytes → Peer → Outcome Json
  unfolding tcp_outcome
  over_tcp timeout bytes refused = unavailable (codes "unreachable")
  over_tcp timeout none _ = crashed
  over_tcp timeout (some bytes) stalled = unavailable (codes "timeout")
  over_tcp timeout (some bytes) snapped = unavailable (codes "unreachable")
  over_tcp timeout (some bytes) (talks more) = tcp_outcome (read_until_null timeout more)

  unfoldable pub serial_outcome : SerialRead → Outcome Json
  serial_outcome (whole raw) = framed (decode_frame codec raw)
  serial_outcome quiet = unavailable (codes "timeout")
  serial_outcome escaped = crashed

  -- The same over a serial port, whose errors on writing are not caught.
  unfoldable pub over_serial : ℕ → Option Bytes → Peer → Outcome Json
  unfolding serial_outcome
  over_serial timeout bytes refused = unavailable (codes "unreachable")
  over_serial timeout none _ = crashed
  over_serial timeout (some bytes) stalled = crashed
  over_serial timeout (some bytes) snapped = crashed
  over_serial timeout (some bytes) (talks more) = serial_outcome (read_serial timeout more)

  -- `send_tcp`
  unfoldable pub send_tcp : Bool → ℕ → Json → M Json
  unfolding met over_tcp
  send_tcp leading timeout v l = met (over_tcp timeout (encode_frame codec leading v)) v l.coming l

  -- `send_serial`
  unfoldable pub send_serial : Bool → ℕ → Json → M Json
  unfolding met over_serial
  send_serial leading timeout v l =
      met (over_serial timeout (encode_frame codec leading v)) v l.coming l
