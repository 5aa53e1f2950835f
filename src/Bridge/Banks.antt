-- ===== src/Bridge/Banks.antt =====
-- What the three adapters share: the results, the merchants and the errors of services that answer in
-- their own words.
use Prim.Native.String.{◌++◌ as ◌<>◌}
use barhandler_manager.Prelude.{
  ℕ, Bool, false, not, ◌&&◌, Option, none, some, List, [], ◌∷◌, String, ◌==◌, string_eq,
  if◌then◌else◌,
}
use barhandler_manager.Prelude.Text.{codes}
use barhandler_manager.Json.{Json, Items, Fields, null, str, arr, obj, nil, cons, get, truthy}
use barhandler_manager.Registry.Model.{Descriptor, Kind, Transport, is_given, text_of, or_text}
use barhandler_manager.Registry.Ids.{make_network_terminal_id}
use barhandler_manager.Ssi.Wire.{Outcome, ok, unavailable, crashed}
use barhandler_manager.Ssi.Outcome.{Status, declined}
use barhandler_manager.Privat.Link.{M}
use barhandler_manager.Privat.Outcome.{Python, str_of_value, on_ok}
use barhandler_manager.Privat.Probe.{text_field}

-- A text, or nothing where it is empty
unfoldable pub given : String → Option String
given s = if s == "" then none else some s

-- `(code if status == "declined" and code else None)`
unfoldable pub error_code_of : Status → String → Option String
unfolding given
error_code_of declined code = given code
error_code_of _ code = none

-- `_raise_if_error`: a code that is not the one of success
unfoldable pub raise_if_other : String → String → Outcome (Unit {0})
raise_if_other success code =
    if not (code == "") && not (code == success) then unavailable (codes code) else ok tt

-- `ping`: whatever `TerminalUnavailable` there is means no
unfoldable pub alive : (Fields → Bool) → Outcome Fields → Outcome Bool
alive good (ok fs) = ok (good fs)
alive good (unavailable code) = ok false
alive good crashed = crashed

-- `cancel`: the same is forgiven
unfoldable pub forgiven : Outcome Fields → Outcome (Unit {0})
forgiven crashed = crashed
forgiven _ = ok tt

-- `fs.get(k) == text`
unfoldable pub reads : Fields → String → String → Bool
reads fs k text = elim (get fs k) [ str s ↦ s == text | _ ↦ false ]

-- `MerchantInfo`, as these adapters fill it; the name is what the answer holds.
pub record Merchant : Type 0 where
  pub merchant_id : String
  pub terminal_id : Option String
  pub merchant_name : Json

module _ (merchant_of : Fields → Merchant) where
  each : Items → List Merchant
  each nil = []
  each (cons (obj m) items) = merchant_of m ∷ each items
  each (cons v items) = each items

  -- `for m in response.get("merchants") or []`; the keys of a dictionary and the characters of a text are
  -- no merchants, and another value cannot be walked.
  unfoldable pub merchants_in : Json → Outcome (List Merchant)
  unfolding each
  merchants_in (arr items) = ok (each items)
  merchants_in (obj fs) = ok []
  merchants_in (str s) = ok []
  merchants_in v = if truthy v then crashed else ok []

-- `request.merchant_id or self.registration.default_merchant_id or ""`
unfoldable pub merchant_text : Option String → Option String → String
merchant_text wanted default = elim (or_text wanted default) [ none ↦ "" | some m ↦ m ]

-- `(str(m[k]) if m.get(k) else None)`
unfoldable pub text_if_given : Python → Json → Option String
unfolding str_of_value
text_if_given python v = if truthy v then some (str_of_value python v) else none

-- The model and the serial number that a terminal says it has
pub record Identity : Type 0 where
  pub model : Json
  pub serial : Json

abbrev pub nameless : Identity
nameless = record { model = null; serial = null }

-- An answer that does not come leaves the descriptor without them.
unfoldable pub identified : (Fields → Identity) → Outcome Fields → Outcome Identity
identified identity_of (ok info) = ok (identity_of info)
identified identity_of (unavailable code) = ok nameless
identified identity_of crashed = crashed

module _ (digest : String → String) (show : ℕ → String) (host : String) (port : ℕ) where
  described : Kind → String → Option String → Option String → Descriptor
  unfolding make_network_terminal_id
  described kind unknown model serial = record {
    id = make_network_terminal_id digest show host port serial;
    transport = Transport.network;
    label =
        (if is_given model then text_of model else unknown)
        <> (" @ " <> host)
        <> (if is_given serial then " (s/n " <> (text_of serial <> ")") else "");
    kind = some kind;
    model = model;
    serial_number = serial;
    address = some (record { host = host; port = port; use_http = false });
    serial_address = none;
  }

  -- The `TerminalDescriptor`, whose class checks its fields
  unfoldable pub descriptor_of : Kind → String → Identity → Outcome (Option Descriptor)
  unfolding text_field described
  descriptor_of kind unknown i =
      on_ok (text_field i.model) λ model.
        on_ok (text_field i.serial) λ serial. ok (some (described kind unknown model serial))

  -- `probe`: the greeting, and where it is answered well, the question who the terminal is
  unfoldable pub probed :
      Kind
      → String
      → M Fields
      → (Fields → Bool)
      → M Fields
      → (Fields → Identity)
      → M (Option Descriptor)
  unfolding identified descriptor_of
  probed kind unknown greet good ask identity_of l = let (r, l') = greet l in after r l'
    where
      introduced : M (Option Descriptor)
      introduced l' =
          let (r, l'') = ask l' in
          (on_ok (identified identity_of r) (descriptor_of kind unknown), l'')

      after : Outcome Fields → M (Option Descriptor)
      after (ok fs) l' = let met = introduced l' in if good fs then met else (ok none, l')
      after (unavailable code) l' = (ok none, l')
      after crashed l' = (crashed, l')
