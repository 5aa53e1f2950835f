-- ===== src/Registry/Changes.antt =====
-- The operations of `TerminalRegistry` that change it: what a discovery leaves behind, `register`
-- and `unregister`. `written` is whether `save` could write the file; if it could not, what changed
-- in memory stays changed.
use Prim.Native.String.{◌++◌ as ◌<>◌}
use barhandler_manager.Prelude.{
  ℕ, String, Bool, false, not, Option, none, some, List, [], ◌∷◌, ◌++◌, ◌==◌, string_eq,
  if◌then◌else◌, contains,
}
use barhandler_manager.Prelude.Dict.{Dict, find, assign, pop, map_values, keep_values, values}
use barhandler_manager.Registry.Model.{
  Registry, Registration, Descriptor, Request, Merchant, Kind, network, serial, Answer, ok,
  unknown_terminal, not_written, without,
}
use barhandler_manager.Registry.Ids.{make_terminal_id, make_network_terminal_id, resolve}

-- `save`
unfoldable pub save : Bool → Registry → Registry
save written r = if written then record r { stored = values r.registrations } else r

abbrev pub saved : {A : Type 0} → Bool → A → Registry → Answer A × Registry
saved written a r = (if written then ok a else not_written, save written r)

-- `remember_descriptors`
unfoldable pub by_id : Dict Descriptor → List Descriptor → Dict Descriptor
by_id found [] = found
by_id found (d ∷ ds) = by_id (assign found d.id d) ds

unfoldable pub remember_descriptors : List Descriptor → Registry → Registry
unfolding by_id
remember_descriptors ds r = record r { last_discovery = by_id [] ds }

unfoldable pub stage : Descriptor → Registry → Descriptor × Registry
stage d r = (d, record r { last_discovery = assign r.last_discovery d.id d })

-- `resolved`, as an id that is registered: `self._registrations[resolved] if resolved`
unfoldable pub existing_of : Dict Registration → Option String → Option Registration
existing_of regs none = none
existing_of regs (some id) = if id == "" then none else find regs id

-- `_last_discovery.get(req.id)`, and under the id that the terminal has now
unfoldable pub discovered : Dict Descriptor → String → Option String → Option Descriptor
discovered found id resolved = elim (find found id) [
  | some d ↦ some d
  | none ↦ elim resolved [ none ↦ none | some now ↦ if now == id then none else find found now ]
]

-- The descriptor to register: what was discovered, or the one that is stored.
unfoldable pub descriptor_for : String → Option String → Registry → Option Descriptor
unfolding existing_of discovered
descriptor_for id resolved r = elim (discovered r.last_discovery id resolved) [
  | some d ↦ some d
  | none ↦ elim (existing_of r.registrations resolved) [
    | none ↦ none
    | some reg ↦ some reg.descriptor
  ]
]

-- The id that the terminal leaves, if it moves to another.
unfoldable pub left_id : Option String → String → Option String
left_id none id = none
left_id (some old) id = if old == id then none else some old

merchants_of : Option (List Merchant) → Option Registration → List Merchant
merchants_of (some fresh) existing = fresh
merchants_of none none = []
merchants_of none (some reg) = reg.merchants

known_of : Option Registration → List String
known_of none = []
known_of (some reg) = reg.known_ids

with_left : Option String → List String → List String
with_left none known = known
with_left (some old) known = if contains known old then known else known ++ old ∷ []

unfoldable pub registration_for :
    Request → Option Registration → Option String → Descriptor → Registration
unfolding merchants_of known_of with_left without
registration_for req existing left d = record {
  descriptor = d;
  kind = req.kind;
  nickname = req.nickname;
  default_merchant_id = req.default_merchant_id;
  default_terminal_id = req.default_terminal_id;
  known_ids = without d.id (with_left left (known_of existing));
  merchants = merchants_of req.merchants existing;
}

-- Old ids that stood for the id that was left stand for the new one, and so does the one left.
unfoldable pub moved_ids : Option String → String → Dict String → Dict String
moved_ids none id legacy = legacy
moved_ids (some old) id legacy =
    assign (map_values (λ now. if now == old then id else now) legacy) old id

unfoldable pub without_left : {V : Type 0} → Option String → Dict V → Dict V
without_left none d = d
without_left (some old) d = pop d old

-- `register`, from the descriptor on
unfoldable pub registered : Registration → Option String → Registry → Registry
unfolding moved_ids without_left
registered reg left r = record r {
  registrations = assign (without_left left r.registrations) reg.descriptor.id reg;
  legacy_ids = moved_ids left reg.descriptor.id r.legacy_ids;
}

-- `register`, once the descriptor is looked for
unfoldable pub registering :
    Bool → Request → Registry → Option Descriptor → Answer Registration × Registry
unfolding registered registration_for existing_of left_id save
registering written req r none = (unknown_terminal, r)
registering written req r (some d) =
    let resolved = resolve req.id r in
    let left = left_id resolved d.id in
    let reg = registration_for req (existing_of r.registrations resolved) left d in
    saved written reg (registered reg left r)

-- `register`
unfoldable pub register : Bool → Request → Registry → Answer Registration × Registry
unfolding registering
register written req r = registering written req r (descriptor_for req.id (resolve req.id r) r)

unfoldable pub removing : Bool → Registry → Option String → Answer (Unit {0}) × Registry
unfolding save
removing written r none = (unknown_terminal, r)
removing written r (some now) = saved written tt (record r {
  registrations = pop r.registrations now;
  legacy_ids = keep_values (λ stands_for. not (stands_for == now)) r.legacy_ids;
})

-- `unregister`
unfoldable pub unregister : Bool → String → Registry → Answer (Unit {0}) × Registry
unfolding removing
unregister written id r = removing written r (resolve id r)

-- the value of a `TerminalKind`
abbrev pub kind_value : Kind → String
kind_value Kind.mono_pos = "mono_pos"
kind_value Kind.generic_ssi = "generic_ssi"
kind_value Kind.privat_pos = "privat_pos"
kind_value Kind.raif_pos = "raif_pos"
kind_value Kind.pumb_pos = "pumb_pos"
kind_value Kind.generic_posapi = "generic_posapi"
kind_value Kind.pivdenny_pos = "pivdenny_pos"
kind_value Kind.sense_pos = "sense_pos"
kind_value Kind.generic_bpos = "generic_bpos"
kind_value Kind.oschad_pos = "oschad_pos"

-- `label or f"{kind.value} @ {where}"`
label_or : Option String → Kind → String → String
label_or none kind place = kind_value kind <> (" @ " <> place)
label_or (some label) kind place =
    if label == "" then kind_value kind <> (" @ " <> place) else label

module _ (digest : String → String) (show : ℕ → String) where
  -- `add_manual_descriptor`
  unfoldable pub add_manual_descriptor :
      String → ℕ → Kind → Option String → Registry → Descriptor × Registry
  unfolding stage label_or make_network_terminal_id
  add_manual_descriptor host port kind label = stage (record {
    id = make_network_terminal_id digest show host port none;
    transport = network;
    label = label_or label kind host;
    kind = some kind;
    model = none;
    serial_number = none;
    address = some (record { host = host; port = port; use_http = false });
    serial_address = none;
  })

  -- `add_manual_descriptor_serial`
  unfoldable pub add_manual_descriptor_serial :
      String → ℕ → Kind → Option String → Registry → Descriptor × Registry
  unfolding stage label_or make_terminal_id
  add_manual_descriptor_serial port baudrate kind label = stage (record {
    id = make_terminal_id digest show serial (port ∷ "" ∷ []);
    transport = serial;
    label = label_or label kind port;
    kind = some kind;
    model = none;
    serial_number = none;
    address = none;
    serial_address =
        some
          (record { port = port; baudrate = baudrate; bytesize = 8; parity = "N"; stopbits = 1 });
  })
