-- ===== src/Bridge/Exchange.antt =====
-- services/terminals/bridge.py: `exchange`, one request and one answer over a connection of its own.
-- `dumps` of the codec stands for the compact `json.dumps(…).encode("utf-8")`, `loads` for
-- `json.loads(… .decode("utf-8"))`. The connection, its peers and the messages sent are those of Privat.
use barhandler_manager.Prelude.{ℕ, Option, none, some, List, [], ◌∷◌, length, ltb, if◌then◌else◌}
use barhandler_manager.Prelude.Text.{codes}
use barhandler_manager.Json.{Json, Fields, obj}
use barhandler_manager.Json.Codec.{Codec}
use barhandler_manager.Registry.Model.{NetworkAddress}
use barhandler_manager.Ssi.Wire.{Outcome, ok, unavailable, crashed}
use barhandler_manager.Privat.Frame.{Bytes, Arrival}
use barhandler_manager.Privat.Link.{Peer, refused, stalled, snapped, talks, M, raise, met}
use barhandler_manager.Bridge.Stream.{
  max_frame_size, Read, payload, bad_frame, timed_out, broken, overrun,
}

-- The two callables of an adapter: `encode` around the bytes of a message, and `read_frame`
pub record Framing : Type 0 where
  pub encode : Bytes → Bytes
  pub read_frame : ℕ → List Arrival → Read

module _ (codec : Codec) where
  -- `json_bytes`; `none` is the `ValueError` of a message past 64K
  unfoldable pub json_bytes : Fields → Option Bytes
  json_bytes message =
      let data' = codec.dumps (obj message) in
      if ltb max_frame_size (length data') then none else some data'

  object_of : Option Json → Option Fields
  object_of (some (obj fs)) = some fs
  object_of _ = none

  -- `parse_json`; `none` is a `BridgeFrameError`
  unfoldable pub parse_json : Bytes → Option Fields
  unfolding object_of
  parse_json [] = none
  parse_json (b ∷ bs) = object_of (codec.loads (b ∷ bs))

  parsed : Option Fields → Outcome Fields
  parsed none = unavailable (codes "protocol_error")
  parsed (some fs) = ok fs

  unfoldable pub read_outcome : Read → Outcome Fields
  unfolding parsed parse_json
  read_outcome (payload bytes) = parsed (parse_json bytes)
  read_outcome bad_frame = unavailable (codes "protocol_error")
  read_outcome timed_out = unavailable (codes "timeout")
  read_outcome broken = unavailable (codes "unreachable")
  read_outcome overrun = crashed

  unfoldable pub over_bridge : Framing → ℕ → Option Bytes → Peer → Outcome Fields
  unfolding read_outcome
  over_bridge framing timeout bytes refused = unavailable (codes "unreachable")
  over_bridge framing timeout none _ = crashed
  over_bridge framing timeout (some bytes) stalled = unavailable (codes "timeout")
  over_bridge framing timeout (some bytes) snapped = unavailable (codes "unreachable")
  over_bridge framing timeout (some bytes) (talks more) =
      read_outcome (framing.read_frame timeout more)

  -- `exchange`
  unfoldable pub exchange : Framing → ℕ → Fields → M Fields
  unfolding met over_bridge json_bytes
  exchange framing timeout request l =
      met (over_bridge framing timeout (json_bytes request)) (obj request) l.coming l

  -- `_addr` and `_send` of the three adapters
  unfoldable pub send_to : Framing → Option NetworkAddress → ℕ → Fields → M Fields
  unfolding exchange
  send_to framing none timeout request = raise "not_configured"
  send_to framing (some net) timeout request = exchange framing timeout request
