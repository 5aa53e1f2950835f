-- ===== src/Registry/Model.antt =====
-- The data of models/terminal.py, and the state of `TerminalRegistry`.
use barhandler_manager.Prelude.{
  ℕ, String, Bool, true, false, not, Option, none, some, List, [], ◌∷◌, ◌==◌, string_eq,
}
use barhandler_manager.Prelude.Dict.{Dict}

-- `TerminalKind`
pub data Kind : Type 0 where
  mono_pos generic_ssi privat_pos raif_pos pumb_pos : Kind
  generic_posapi pivdenny_pos sense_pos generic_bpos oschad_pos : Kind

-- `TerminalTransport`
pub data Transport : Type 0 where
  network usb serial : Transport

-- `TerminalNetworkAddress`
pub record NetworkAddress : Type 0 where
  pub host : String
  pub port : ℕ
  pub use_http : Bool

-- `TerminalSerialAddress`
pub record SerialAddress : Type 0 where
  pub port : String
  pub baudrate : ℕ
  pub bytesize : ℕ
  pub parity : String
  pub stopbits : ℕ

-- `TerminalDescriptor`
pub record Descriptor : Type 0 where
  pub id : String
  pub transport : Transport
  pub label : String
  pub kind : Option Kind
  pub model : Option String
  pub serial_number : Option String
  pub address : Option NetworkAddress
  pub serial_address : Option SerialAddress

-- `MerchantBinding`
pub record Merchant : Type 0 where
  pub merchant_id : String
  pub terminal_id : Option String
  pub nickname : Option String
  pub merchant_name : Option String

-- `TerminalRegistration`
pub record Registration : Type 0 where
  pub descriptor : Descriptor
  pub kind : Kind
  pub nickname : Option String
  pub default_merchant_id : Option String
  pub default_terminal_id : Option String
  pub known_ids : List String
  pub merchants : List Merchant

-- `TerminalRegistrationRequest`
pub record Request : Type 0 where
  pub id : String
  pub kind : Kind
  pub nickname : Option String
  pub default_merchant_id : Option String
  pub default_terminal_id : Option String
  pub merchants : Option (List Merchant)

-- `TerminalRegistry`: what is registered under which id, what the last discovery found, the old ids
-- and the ids that they stand for now, and the registrations that terminals.json holds.
pub record Registry : Type 0 where
  pub registrations : Dict Registration
  pub last_discovery : Dict Descriptor
  pub legacy_ids : Dict String
  pub stored : List Registration

-- `TerminalRegistry(path)` over what the file holds
abbrev pub empty : List Registration → Registry
empty stored = record { registrations = []; last_discovery = []; legacy_ids = []; stored = stored }

-- How a call ends: with a value, with `UnknownTerminal`, or with the error of a failed write.
pub data Answer (A : Type 0) : Type 0 where
  ok : A → Answer A
  unknown_terminal not_written : Answer A

-- `bool(text)`
abbrev pub is_given : Option String → Bool
is_given none = false
is_given (some s) = not (s == "")

-- `text or ""`
abbrev pub text_of : Option String → String
text_of none = ""
text_of (some s) = s

-- `a or b`, for texts
abbrev pub or_text : Option String → Option String → Option String
or_text none other = other
or_text (some s) other =
    let kept : Option String = some s in elim (s == "") [ true ↦ other | false ↦ kept ]

-- `[i for i in ids if i != k]`
unfoldable pub without : String → List String → List String
without k [] = []
without k (x ∷ xs) = let rest = without k xs in elim (x == k) [ true ↦ rest | false ↦ x ∷ rest ]
