-- ===== src/Offline/Config.antt =====
-- `current_config`: what the offline service is started with, and its start.
use barhandler_manager.Prelude.{String, ◌&&◌, Option, none, some, if◌then◌else◌}
use barhandler_manager.Json.{Json, Fields, str, obj, get, truthy}
use barhandler_manager.Offline.Disk.{
  Disk, Folder, Reading, got, read, Luck, active_appid, shop_folder, set_folder, load_secrets,
  Secrets, secrets_unreadable, loaded, get_of,
}
use barhandler_manager.Offline.Activation.{default_product}

-- What the service is started with; the folders of its data and of its app go by `appid` and
-- `product`.
pub record Config : Type 0 where
  pub appid : String
  pub product : Json
  pub api_base : Json
  pub device_id : Json
  pub device_token : Json
  pub data_key : Json

-- How `current_config` ends: with a config, with `None`, or with `SecretsUnreadable`.
pub data Current : Type 0 where
  configured_as : Config → Current
  not_activated keys_unreadable : Current

unfoldable pub json_or : Json → Json → Json
json_or a b = if truthy a then a else b

unfoldable pub config_with : String → Fields → Secrets → Current
unfolding json_or
config_with appid stored secrets_unreadable = keys_unreadable
config_with appid stored (loaded kept) =
    if truthy (get_of kept "deviceToken") && truthy (get_of kept "dataKey")
    then configured_as (record {
      appid = appid;
      product = json_or (get stored "product") (str default_product);
      api_base = get stored "apiBase";
      device_id = get stored "deviceId";
      device_token = get_of kept "deviceToken";
      data_key = get_of kept "dataKey";
    })
    else not_activated

unfoldable pub config_stored : String → Luck → Folder → Reading Json → Current
unfolding config_with load_secrets
config_stored appid luck folder (got (obj stored)) =
    if truthy (get stored "apiBase") && truthy (get stored "deviceId")
    then config_with appid stored (load_secrets luck folder)
    else not_activated
config_stored appid luck folder _ = not_activated

unfoldable pub config_for : Luck → Disk → Option String → Current
unfolding config_stored
config_for luck disk none = not_activated
config_for luck disk (some appid) =
    config_stored appid luck (shop_folder disk appid)
      (read luck.config_read (shop_folder disk appid).config)

-- `current_config`, without the developer's BHM_OFFLINE_CONFIG_FILE
unfoldable pub current_config : Luck → Disk → Current
unfolding config_for
current_config luck disk = config_for luck disk (active_appid luck disk)

-- The service starts under a config: without a local copy it makes one, sealed with the data key;
-- a copy that is there it opens. (The service is a program of its own.)
unfoldable pub opened : Json → Option Json → Option Json
opened key none = some key
opened key (some old) = some old

unfoldable pub started : Current → Disk → Disk
unfolding set_folder opened
started (configured_as config) disk =
    let folder = shop_folder disk config.appid in
    set_folder config.appid
      (record folder { data_sealed_with = opened config.data_key folder.data_sealed_with }) disk
started _ disk = disk

unfoldable pub serve : Luck → Disk → Disk
unfolding current_config started
serve luck disk = started (current_config luck disk) disk
