-- ===== src/Settings/Station.antt =====
-- services/station_settings.py, `StationSettings`. The file holds the JSON value of its text, or no such
-- text, or there is none. The identifier and the time of a save, and whether its file can be written,
-- are arguments.
use barhandler_manager.Prelude.{
  ℕ, zero, suc, ◌-◌, ◌*◌, Bool, Option, none, some, [], ◌∷◌, String, take, length, ltb, ◌==◌,
  string_eq, if◌then◌else◌,
}
use barhandler_manager.Prelude.Int.{ℤ, pos, negsuc, leb_ℤ}
use barhandler_manager.Prelude.Text.{codes, text}
use barhandler_manager.Prelude.Dict.{Dict, find, assign, pop}
use barhandler_manager.Json.{Json, Fields, num, str, obj, end, field, get, int_of}
use barhandler_manager.Journal.Text.{strip}
use barhandler_manager.Ssi.Session.{put}

abbrev pub max_keys : ℕ
max_keys = 200

abbrev pub max_key_len : ℕ
max_key_len = 200

abbrev pub max_value_len : ℕ
max_value_len = 64 * 1024

abbrev pub max_appid_len : ℕ
max_appid_len = 100

abbrev pub max_shops : ℕ
max_shops = 10

-- The file, as far as `load` can tell
pub data File : Type 0 where
  missing unreadable : File
  holds : Json → File

pub record Station : Type 0 where
  pub shops : Dict Fields
  pub saves : ℤ
  pub file : File

-- `blob.get("order") or 0`
unfoldable pub order_of : Fields → ℤ
order_of blob = elim (int_of (get blob "order")) [ none ↦ pos 0 | some z ↦ z ]

-- The blobs that `load` believes: dictionaries with a dictionary of items
with_items : String → Fields → Json → Dict Fields → Dict Fields
with_items k blob (obj items) rest = (k, blob) ∷ rest
with_items k blob v rest = rest

believed : String → Json → Dict Fields → Dict Fields
unfolding with_items
believed k (obj blob) rest = with_items k blob (get blob "items") rest
believed k v rest = rest

credible : Fields → Dict Fields
unfolding believed
credible end = []
credible (field k v fs) = believed k v (credible fs)

-- `if not isinstance(stored, int): blob["order"] = order`
ordered : ℕ → Fields → Fields
unfolding put
ordered n blob = elim (int_of (get blob "order")) [
  | some z ↦ blob
  | none ↦ put blob "order" (num (pos n))
]

numbered : ℕ → Dict Fields → Dict Fields
unfolding ordered
numbered n [] = []
numbered n (entry ∷ rest) = (entry.0, ordered n entry.1) ∷ numbered (suc n) rest

highest : ℤ → Dict Fields → ℤ
unfolding order_of
highest best [] = best
highest best (entry ∷ rest) =
    highest (if leb_ℤ (order_of entry.1) best then best else order_of entry.1) rest

last_order : Dict Fields → ℤ
unfolding highest order_of
last_order [] = pos 0
last_order (entry ∷ rest) = highest (order_of entry.1) rest

remembered : Json → Station → Station
unfolding credible numbered last_order
remembered (obj fs) s =
    let shops = numbered 1 (credible fs) in record s { shops = shops; saves = last_order shops }
remembered v s = s

-- `load`
unfoldable pub load : Station → Station
unfolding remembered
load s = from s.file
  where
    from : File → Station
    from (holds (obj raw)) = remembered (get raw "shops") s
    from file = s

-- What `save` refuses, and what it keeps of the settings
with_setting : String → Json → Option Fields → Option Fields
with_setting k v none = none
with_setting k v (some rest) = some (field k v rest)

clean_setting : String → Json → Option Fields → Option Fields
unfolding with_setting
clean_setting k (str value) rest =
    if ltb max_key_len (length (codes k))
    then none
    else if ltb max_value_len (length (codes value))
    then none
    else with_setting k (str value) rest
clean_setting k v rest = none

unfoldable pub clean : Fields → Option Fields
unfolding clean_setting
clean end = some end
clean (field k v fs) = clean_setting k v (clean fs)

abbrev pub size : Fields → ℕ
size end = 0
size (field k v fs) = suc (size fs)

unfoldable pub cleaned : Json → Option Fields
unfolding clean
cleaned (obj end) = none
cleaned (obj items) = if ltb max_keys (size items) then none else clean items
cleaned v = none

-- `(appid or "").strip()`
unfoldable pub stripped : String → String
stripped appid = text (strip (codes appid))

-- The shop that a body names, `None` being none; a name that is no text is refused, like one that is
-- empty or too long.
unfoldable pub shop_of : Json → Option String
unfolding stripped
shop_of (str appid) =
    let name = stripped appid in
    if name == "" then none else if ltb max_appid_len (length (codes name)) then none else some name
shop_of v = none

-- `sorted(…, key=…)`, which keeps the order of equal keys
unfoldable pub insert : String × Fields → Dict Fields → Dict Fields
unfolding order_of
insert entry [] = entry ∷ []
insert entry (other ∷ rest) =
    let later = insert entry rest in
    if leb_ℤ (order_of entry.1) (order_of other.1) then entry ∷ other ∷ rest else other ∷ later

unfoldable pub sorted : Dict Fields → Dict Fields
unfolding insert
sorted [] = []
sorted (entry ∷ rest) = insert entry (sorted rest)

-- `(kv for kv in next_shops.items() if kv[0] != appid)`
unfoldable pub others : String → Dict Fields → Dict Fields
others appid [] = []
others appid (entry ∷ rest) =
    let later = others appid rest in if entry.0 == appid then later else entry ∷ later

unfoldable pub pop_all : Dict Fields → Dict Fields → Dict Fields
pop_all [] d = d
pop_all (entry ∷ out) d = pop_all out (pop d entry.0)

-- The shops that stay when one was saved; where there are at most ten, none is taken out.
unfoldable pub evicted : String → Dict Fields → Dict Fields
unfolding sorted others pop_all
evicted appid next = pop_all (take (length next - max_shops) (sorted (others appid next))) next

unfoldable pub fields_of : Dict Fields → Fields
fields_of [] = end
fields_of (entry ∷ rest) = field entry.0 (obj entry.1) (fields_of rest)

-- `_save_locked`, where it succeeds
unfoldable pub written : Dict Fields → File
unfolding fields_of
written shops = holds (obj (field "shops" (obj (fields_of shops)) end))

-- How a save ends: with a `SettingsRefused`, the error of the disk, or an answer.
pub data Answer : Type 0 where
  refused broken : Answer
  saved : String → String → ℕ → Answer

abbrev pub plus_one : ℤ → ℤ
plus_one (pos n) = pos (suc n)
plus_one (negsuc zero) = pos 0
plus_one (negsuc (suc n)) = negsuc n

unfoldable pub blob_of : String → String → ℤ → Fields → Fields
blob_of fresh now order items =
    field "id" (str fresh)
      (field "savedAt" (str now) (field "order" (num order) (field "items" (obj items) end)))

-- The shops after a save that is written
unfoldable pub next_shops : String → Fields → Dict Fields → Dict Fields
unfolding evicted
next_shops appid blob shops = evicted appid (assign shops appid blob)

unfoldable pub keep : Bool → String → String → String → Fields → Station → Answer × Station
unfolding next_shops blob_of written
keep writable fresh now appid items s =
    let order = plus_one s.saves in
    let shops = next_shops appid (blob_of fresh now order items) s.shops in
    if writable
    then (
      saved fresh now (size items),
      record { shops = shops; saves = order; file = written shops },
    )
    else (broken, record s { saves = order })

unfoldable pub keep_or_refuse :
    Bool → String → String → Option String → Option Fields → Station → Answer × Station
unfolding keep
keep_or_refuse writable fresh now (some shop) (some settings) s =
    keep writable fresh now shop settings s
keep_or_refuse writable fresh now shop settings s = (refused, s)

-- `save`
unfoldable pub save : Bool → String → String → Json → Json → Station → Answer × Station
unfolding shop_of cleaned keep_or_refuse
save writable fresh now appid items s =
    keep_or_refuse writable fresh now (shop_of appid) (cleaned items) s

-- `load_shop`; a blob without fields counts as none.
unfoldable pub load_shop : Station → String → Option Fields
unfolding stripped
load_shop s appid =
    let shop = stripped appid in if shop == "" then none else full (find s.shops shop)
  where
    full : Option Fields → Option Fields
    full (some end) = none
    full found = found
