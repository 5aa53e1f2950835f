-- ===== src/Registry/Ids.antt =====
-- How the id of a terminal is made (`make_terminal_id` and its callers), and how the registry finds
-- a terminal by its id or by an id that it had before (`_resolve`).
use Prim.Native.String.{◌++◌ as ◌<>◌}
use barhandler_manager.Prelude.{
  ℕ, String, Option, none, some, List, [], ◌∷◌, string_eq, if◌then◌else◌,
}
use barhandler_manager.Prelude.Dict.{Dict, find, has, values}
use barhandler_manager.Registry.Model.{
  Registry, Registration, Kind, Transport, network, usb, serial, Answer, ok, unknown_terminal,
  not_written, text_of, is_given,
}

-- the value of a `TerminalTransport`
abbrev pub transport_value : Transport → String
transport_value network = "network"
transport_value usb = "usb"
transport_value serial = "serial"

-- `":".join([first, *parts])`
joined : String → List String → String
joined first [] = first
joined first (part ∷ parts) = joined (first <> (":" <> part)) parts

-- `digest` stands for the first twelve hex digits of `sha1`, `show` for `str()` of a number.
module _ (digest : String → String) (show : ℕ → String) where
  -- `make_terminal_id`
  unfoldable pub make_terminal_id : Transport → List String → String
  unfolding joined
  make_terminal_id transport parts = digest (joined (transport_value transport) parts)

  -- `make_network_terminal_id`
  unfoldable pub make_network_terminal_id : String → ℕ → Option String → String
  unfolding make_terminal_id
  make_network_terminal_id host port serial_number =
      if is_given serial_number
      then make_terminal_id network ("" ∷ show port ∷ text_of serial_number ∷ [])
      else make_terminal_id network (host ∷ show port ∷ "" ∷ [])

  -- `legacy_network_terminal_id`
  unfoldable pub legacy_network_terminal_id : String → ℕ → Option String → String
  unfolding make_terminal_id
  legacy_network_terminal_id host port serial_number =
      make_terminal_id network (host ∷ show port ∷ text_of serial_number ∷ [])

resolve_old : Dict Registration → Option String → Option String
resolve_old regs none = none
resolve_old regs (some current) = if has regs current then some current else none

-- `_resolve`
unfoldable pub resolve : String → Registry → Option String
unfolding resolve_old
resolve id r =
    if has r.registrations id then some id else resolve_old r.registrations (find r.legacy_ids id)

answer_of : Dict Registration → Option String → Answer Registration
answer_of regs none = unknown_terminal
answer_of regs (some id) = elim (find regs id) [ none ↦ unknown_terminal | some reg ↦ ok reg ]

-- `get_registration`
unfoldable pub get_registration : String → Registry → Answer Registration
unfolding resolve answer_of
get_registration id r = answer_of r.registrations (resolve id r)

-- `all_registrations` and `first`
unfoldable pub all_registrations : Registry → List Registration
all_registrations r = values r.registrations

first_of : List Registration → Option Registration
first_of [] = none
first_of (reg ∷ regs) = some reg

unfoldable pub first : Registry → Option Registration
unfolding first_of
first r = first_of (values r.registrations)

-- the classes of adapters
pub data Protocol : Type 0 where
  ssi privatbank posapi bpos oschad : Protocol

-- `_ADAPTER_FOR_KIND`
abbrev pub adapter_for_kind : Kind → Protocol
adapter_for_kind Kind.mono_pos = ssi
adapter_for_kind Kind.generic_ssi = ssi
adapter_for_kind Kind.privat_pos = privatbank
adapter_for_kind Kind.raif_pos = posapi
adapter_for_kind Kind.pumb_pos = posapi
adapter_for_kind Kind.generic_posapi = posapi
adapter_for_kind Kind.pivdenny_pos = bpos
adapter_for_kind Kind.sense_pos = bpos
adapter_for_kind Kind.generic_bpos = bpos
adapter_for_kind Kind.oschad_pos = oschad

-- `adapter_for`: the adapter's class, and the registration that it is made of
unfoldable pub adapter_for : String → Registry → Answer (Protocol × Registration)
unfolding get_registration
adapter_for id r = elim (get_registration id r) [
  | ok reg ↦ ok (adapter_for_kind reg.kind, reg)
  | unknown_terminal ↦ unknown_terminal
  | not_written ↦ not_written
]
