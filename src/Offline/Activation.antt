-- ===== src/Offline/Activation.antt =====
-- `activate`. The disk's answers are a `Luck`; `show` stands for Python's `str`
-- of a decoded value that is not a text, `fresh` for the random key, `now` for the clock.
use text.Mathlib.Text.{starts_with}
use barhandler_manager.Prelude.{
  String, Bool, false, not, ◌&&◌, Option, none, some, List, [], ◌∷◌, if◌then◌else◌, ◌==◌, string_eq,
  ℕ,
}
use barhandler_manager.Prelude.Text.{codes, text_eq}
use barhandler_manager.Json.{Json, Fields, str, obj, end, field, get, truthy}
use barhandler_manager.Offline.Words.{is_safe_id, api_host, is_known_host, rstrip_slash, cut}
use barhandler_manager.Offline.Disk.{
  Disk, Folder, holds, Luck, active_appid, shop_folder, set_folder, load_secrets, Secrets,
  secrets_unreadable, loaded, get_of,
}

-- How `activate` ends: with the public part, refused with `ActivationError`, with
-- `SecretsUnreadable`, or with the error of a file that could not be moved or written.
pub data Activated : Type 0 where
  activated : Fields → Activated
  activation_refused unreadable not_stored : Activated

-- `PRODUCTS`, by what is used of it here
pub record Product : Type 0 where
  pub name : String
  pub api_hosts : List (List ℕ)

abbrev pub products : List Product
products =
    record {
      name = "petshandler";
      api_hosts = codes "api.petshandler.com" ∷ codes "api-dev.petshandler.com" ∷ [];
    }
    ∷ []

abbrev pub default_product : String
default_product = "petshandler"

unfoldable pub product_of : String → List Product → Option Product
product_of name [] = none
product_of name (p ∷ ps) = let rest = product_of name ps in if p.name == name then some p else rest

-- What `activate` reads from the payload, once it is checked.
pub record Order : Type 0 where
  pub product : String
  pub appid : String
  pub device_id : String
  pub token : String
  pub api_base : String
  pub shop_name : String
  pub expires_at : Json

module _ (show : Json → String) where
  shown : Json → String
  shown (str s) = s
  shown v = show v

  -- `str(payload.get(k) or default)`
  unfoldable pub text_or : Fields → String → String → String
  unfolding shown
  text_or fs k default = if truthy (get fs k) then shown (get fs k) else default

  -- The texts of the payload.
  unfoldable pub read_order : Fields → Order
  unfolding text_or
  read_order payload = record {
    product = text_or payload "product" default_product;
    appid = text_or payload "appid" "";
    device_id = text_or payload "deviceId" "";
    token = text_or payload "deviceToken" "";
    api_base = text_or payload "apiBase" "";
    shop_name = cut 200 (text_or payload "shopName" "");
    expires_at = get payload "expiresAt";
  }

unfoldable pub known_product : Order → Option Product → Bool
known_product order none = false
known_product order (some product) =
    is_safe_id order.appid
    && is_safe_id order.device_id
    && starts_with order.token "pho_"
    && is_known_host product.api_hosts (api_host order.api_base)

-- The checks of the payload.
unfoldable pub is_valid : Order → Bool
unfolding known_product
is_valid order = known_product order (product_of order.product products)

unfoldable pub is_other : Option String → String → Bool
is_other none appid = false
is_other (some previous) appid = not (previous == "") && not (previous == appid)

unfoldable pub secrets_with : String → Json → Fields
secrets_with token key = field "deviceToken" (str token) (field "dataKey" key end)

-- config.json
unfoldable pub config_of : Order → String → Fields
config_of order now = field "product" (str order.product) (
    field "appid" (str order.appid) (
      field "apiBase" (str (rstrip_slash order.api_base)) (
        field "deviceId" (str order.device_id) (
          field "shopName" (str order.shop_name)
            (field "tokenExpiresAt" order.expires_at (field "activatedAt" (str now) end))))))

-- The public part: config.json without the server's address.
unfoldable pub public_of : Order → String → Fields
public_of order now = field "product" (str order.product) (
    field "appid" (str order.appid) (
      field "deviceId" (str order.device_id) (
        field "shopName" (str order.shop_name)
          (field "tokenExpiresAt" order.expires_at (field "activatedAt" (str now) end)))))

-- The last two writes: config.json and active.json.
unfoldable pub configured : Luck → Order → String → Folder → Disk → Activated × Disk
unfolding config_of public_of set_folder
configured luck order now folder disk =
    if not luck.config_written
    then (not_stored, set_folder order.appid folder disk)
    else let disk' =
        set_folder order.appid (record folder { config = holds (obj (config_of order now)) })
          disk in
      if luck.active_written
      then (
        activated (public_of order now),
        record disk' { active = holds (obj (field "appid" (str order.appid) end)) },
      )
      else (not_stored, disk')

-- From the writing of the secrets on.
unfoldable pub keeping : Luck → Order → String → Json → Folder → Disk → Activated × Disk
unfolding configured secrets_with set_folder
keeping luck order now key folder disk =
    if luck.secrets_written
    then configured luck order now
        (record folder { secrets = holds (secrets_with order.token key) }) disk
    else (not_stored, set_folder order.appid folder disk)

-- A local copy that is sealed with a key that is gone is moved aside.
unfoldable pub moved_aside : Option Json → Folder → Folder
moved_aside none folder = folder
moved_aside (some key) folder = record folder {
  data_sealed_with = none;
  aside = key ∷ folder.aside;
}

unfoldable pub rename_fails : Luck → Option Json → Bool
rename_fails luck none = false
rename_fails luck (some key) = not luck.renamed

-- With a fresh key, unless the copy of the old one could not be moved.
unfoldable pub rekeyed : Luck → Order → String → String → Folder → Disk → Activated × Disk
unfolding rename_fails moved_aside keeping
rekeyed luck order now fresh folder disk =
    if rename_fails luck folder.data_sealed_with
    then (not_stored, disk)
    else keeping luck order now (str fresh) (moved_aside folder.data_sealed_with folder) disk

unfoldable pub with_secrets :
    Luck → Order → String → String → Folder → Disk → Secrets → Activated × Disk
unfolding rekeyed keeping
with_secrets luck order now fresh folder disk secrets_unreadable = (unreadable, disk)
with_secrets luck order now fresh folder disk (loaded old) =
    if truthy (get_of old "dataKey")
    then keeping luck order now (get_of old "dataKey") folder disk
    else rekeyed luck order now fresh folder disk

-- `activate`, from the checked texts on
unfoldable pub activate_order : Luck → Order → String → String → Disk → Activated × Disk
unfolding is_valid is_other with_secrets
activate_order luck order now fresh disk =
    if is_valid order && not (is_other (active_appid luck disk) order.appid)
    then with_secrets luck order now fresh (shop_folder disk order.appid) disk
        (load_secrets luck (shop_folder disk order.appid))
    else (activation_refused, disk)

-- `activate`
unfoldable pub activate :
    (Json → String) → Luck → Fields → String → String → Disk → Activated × Disk
unfolding activate_order
activate show luck payload now fresh disk =
    activate_order luck (read_order show payload) now fresh disk
