-- ===== src/Offline/Disk.antt =====
-- The files of offline mode: active.json, and each shop's folder with its secrets, its config and
-- the local copy that the offline service keeps.
use barhandler_manager.Prelude.{
  String, Bool, true, false, Option, none, some, List, [], if◌then◌else◌,
}
use barhandler_manager.Prelude.Dict.{Dict, find, assign}
use barhandler_manager.Json.{Json, Fields, null, obj, get, str_of}
use barhandler_manager.Offline.Words.{is_safe_id}

-- A file of JSON: what its text stands for, or that its text is none.
pub data File (A : Type 0) : Type 0 where
  missing damaged : File A
  holds : A → File A

-- What reading a file gives: `failed` is an `OSError` other than a missing file.
pub data Reading (A : Type 0) : Type 0 where
  failed nothing garbled : Reading A
  got : A → Reading A

abbrev pub read : {A : Type 0} → Bool → File A → Reading A
read false file = failed
read true missing = nothing
read true damaged = garbled
read true (holds a) = got a

-- A shop's folder. A local copy is told by the key that it is sealed with; `aside` are the copies
-- that were renamed to data.unreadable-….
pub record Folder : Type 0 where
  pub secrets : File Fields
  pub config : File Json
  pub data_sealed_with : Option Json
  pub aside : List Json

abbrev pub no_folder : Folder
no_folder = record { secrets = missing; config = missing; data_sealed_with = none; aside = [] }

pub record Disk : Type 0 where
  pub active : File Json
  pub folders : Dict Folder

abbrev pub found_or : Option Folder → Folder
found_or none = no_folder
found_or (some folder) = folder

-- `shop_folder`
unfoldable pub shop_folder : Disk → String → Folder
shop_folder disk appid = found_or (find disk.folders appid)

unfoldable pub set_folder : String → Folder → Disk → Disk
set_folder appid folder disk = record disk { folders = assign disk.folders appid folder }

-- Which of the accesses of a call go through, and for the removal of a folder, which of its files
-- the removal leaves.
pub record Luck : Type 0 where
  pub active_read : Bool
  pub secrets_read : Bool
  pub config_read : Bool
  pub renamed : Bool
  pub secrets_written : Bool
  pub config_written : Bool
  pub active_written : Bool
  pub secrets_deleted : Bool
  pub active_deleted : Bool
  pub secrets_left : Bool
  pub config_left : Bool
  pub data_left : Bool
  pub aside_left : Bool

-- The appid that active.json names, if it names one.
unfoldable pub named_appid : Option String → Option String
named_appid none = none
named_appid (some appid) = if is_safe_id appid then some appid else none

unfoldable pub appid_of : Json → Option String
unfolding named_appid
appid_of (obj fs) = named_appid (str_of (get fs "appid"))
appid_of _ = none

unfoldable pub appid_read : Reading Json → Option String
appid_read (got raw) = appid_of raw
appid_read _ = none

-- `active_appid`
unfoldable pub active_appid : Luck → Disk → Option String
unfolding appid_of appid_read
active_appid luck disk = appid_read (read luck.active_read disk.active)

-- How `offline_secrets.load` ends: `SecretsUnreadable`, or with the secrets if there are any.
pub data Secrets : Type 0 where
  secrets_unreadable : Secrets
  loaded : Option Fields → Secrets

unfoldable pub secrets_of : Reading Fields → Secrets
secrets_of failed = secrets_unreadable
secrets_of nothing = loaded none
secrets_of garbled = loaded none
secrets_of (got fs) = loaded (some fs)

-- `offline_secrets.load`
unfoldable pub load_secrets : Luck → Folder → Secrets
unfolding secrets_of
load_secrets luck folder = secrets_of (read luck.secrets_read folder.secrets)

-- `(old or {}).get(k)`, which is `None` for a missing key.
abbrev pub get_of : Option Fields → String → Json
get_of none k = null
get_of (some fs) k = get fs k
