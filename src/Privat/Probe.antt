-- ===== src/Privat/Probe.antt =====
-- services/terminals/privatbank.py, `probe`: whether a terminal of this protocol answers at an
-- address, and what it says of itself.
use Prim.Native.String.{◌++◌ as ◌<>◌}
use barhandler_manager.Prelude.{
  ℕ, Bool, true, false, Option, none, some, String, ◌==◌, string_eq, if◌then◌else◌,
}
use barhandler_manager.Json.{Json, Fields, null, bool, str, obj, end, field, get, truthy}
use barhandler_manager.Json.Codec.{Codec}
use barhandler_manager.Registry.Model.{Descriptor, Kind, Transport, is_given, text_of}
use barhandler_manager.Registry.Ids.{make_network_terminal_id}
use barhandler_manager.Ssi.Wire.{Outcome, ok, unavailable, crashed}
use barhandler_manager.Privat.Link.{M, send_tcp}
use barhandler_manager.Privat.Outcome.{on_ok}
use barhandler_manager.Privat.Receipt.{or_else}
use barhandler_manager.Privat.Adapter.{bare, service}

-- Whether the greeting was answered
unfoldable pub is_pong : Json → Bool
is_pong (obj fs) = elim (get fs "method") [
  | str m ↦ elim (get fs "error") [ bool true ↦ false | _ ↦ m == "PingDevice" ]
  | _ ↦ false
]
is_pong _ = false

-- What the terminal says of itself: vendor, model and serial number
pub record Identity : Type 0 where
  pub vendor : Json
  pub model : Json
  pub serial_number : Json

abbrev pub nameless : Identity
nameless = record { vendor = null; model = null; serial_number = null }

-- `ident.get("params", {})`; another value than a dictionary has no `get`.
params_or_empty : Fields → Outcome Fields
params_or_empty end = ok end
params_or_empty (field k v fs) =
    let rest = params_or_empty fs in if k == "params" then dict v else rest
  where
    dict : Json → Outcome Fields
    dict (obj params) = ok params
    dict v = crashed

identity_of : Fields → Identity
identity_of params = record {
  vendor = or_else (get params "vendor") (get params "manufacturer");
  model = or_else (get params "model") (get params "terminalModel");
  serial_number = or_else (get params "serialNumber") (get params "terminalSerialNumber");
}

identified : Outcome Json → Outcome Identity
unfolding params_or_empty identity_of
identified (ok (obj fs)) = on_ok (params_or_empty fs) λ params. ok (identity_of params)
identified (ok v) = ok (identity_of end)
identified (unavailable code) = ok nameless
identified crashed = crashed

-- What a field of type `Optional[str]` takes
unfoldable pub text_field : Json → Outcome (Option String)
text_field null = ok none
text_field (str s) = ok (some s)
text_field v = crashed

-- The same where the value is used in a text if it counts as true, and not at all otherwise
text_if_true : Json → Outcome (Option String)
text_if_true (str s) = ok (some s)
text_if_true v = if truthy v then crashed else ok none

-- The label: what is known of the maker, the address and the serial number
label : String → Option String → Option String → Option String → String
label host vendor model serial_number =
    maker vendor model <> (" @ " <> host) <> number serial_number
  where
    maker : Option String → Option String → String
    maker v m =
        if is_given v
        then (if is_given m then text_of v <> (" " <> text_of m) else text_of v)
        else if is_given m
        then text_of m
        else "PrivatBank POS"

    number : Option String → String
    number s = if is_given s then " (s/n " <> (text_of s <> ")") else ""

module _ (digest : String → String) (show : ℕ → String) (codec : Codec) (host : String)
    (port : ℕ) where
  described : Option String → Option String → Option String → Descriptor
  unfolding label make_network_terminal_id
  described vendor model serial_number = record {
    id = make_network_terminal_id digest show host port serial_number;
    transport = Transport.network;
    label = label host vendor model serial_number;
    kind = some Kind.privat_pos;
    model = model;
    serial_number = serial_number;
    address = some (record { host = host; port = port; use_http = false });
    serial_address = none;
  }

  -- The `TerminalDescriptor`, whose class checks its fields
  descriptor_of : Identity → Outcome Descriptor
  unfolding text_field text_if_true described
  descriptor_of i = on_ok (text_if_true i.vendor) λ vendor. on_ok (text_field i.model) λ model.
      on_ok (text_field i.serial_number) λ serial_number. ok (described vendor model serial_number)

  introduced : M (Option Descriptor)
  unfolding send_tcp identified descriptor_of
  introduced l =
      let (r, l') = send_tcp codec false 5000 (service "identify") l in
      (on_ok (on_ok (identified r) descriptor_of) λ d. ok (some d), l')

  -- `probe`
  unfoldable pub probe : M (Option Descriptor)
  unfolding send_tcp is_pong introduced
  probe l = let (r, l') = send_tcp codec true 2500 (bare "PingDevice") l in after r l'
    where
      after : Outcome Json → M (Option Descriptor)
      after (ok pong) l' = let met = introduced l' in if is_pong pong then met else (ok none, l')
      after (unavailable code) l' = (ok none, l')
      after crashed l' = (crashed, l')
