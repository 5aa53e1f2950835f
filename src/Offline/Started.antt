-- ===== src/Offline/Started.antt =====
-- What the offline service is started with once a shop is activated.
use text.Mathlib.TextPositions.{eq_refl}
use barhandler_manager.Prelude.{
  String, ◌≡◌, refl, inl, inr, Bool, true, false, not, ◌&&◌, some, string_eq, if◌then◌else◌,
  Bool-cases, ap, ◌∙◌, nat_eq,
}
use barhandler_manager.Prelude.Dict.{assign, find-assign}
use barhandler_manager.Json.{Json, Fields, str, obj, get, truthy, str_of, field, end}
use barhandler_manager.Offline.Words.{is_safe_id, rstrip_slash}
use barhandler_manager.Offline.Disk.{
  Disk, Folder, File, missing, damaged, holds, got, read, Luck, active_appid, appid_of, appid_read,
  named_appid, shop_folder, set_folder, load_secrets, secrets_of, loaded,
}
use barhandler_manager.Offline.Activation.{
  Order, Activated, activated, activate_order, activate, is_valid, not_stored, activation_refused,
  secrets_with, config_of, configured, keeping, rekeyed, with_secrets, moved_aside, rename_fails,
  is_other, read_order,
}
use barhandler_manager.Offline.Valid.{valid_order}
use barhandler_manager.Offline.Config.{
  Config, configured_as, current_config, config_for, config_stored, config_with, json_or,
}

-- What an activation leaves on the disk.
Stored : Order → String → Json → Disk → Type 0
Stored order now key disk =
    (disk.active ≡ holds (obj (field "appid" (str order.appid) end)))
    × ((shop_folder disk order.appid).secrets ≡ holds (secrets_with order.token key))
    × ((shop_folder disk order.appid).config ≡ holds (obj (config_of order now)))

-- The key of the local copy from now on: the one that the secrets hold, if they hold one.
abbrev pub key_for : File Fields → String → Json
key_for (holds fs) fresh = if truthy (get fs "dataKey") then get fs "dataKey" else str fresh
key_for _ fresh = str fresh

found-assigned :
    (appid : String) (folder : Folder) (disk : Disk) (active : File Json)
    → shop_folder (record { active = active; folders = assign disk.folders appid folder }) appid
      ≡ folder
unfolding shop_folder
found-assigned appid folder disk active =
    rw (find-assign disk.folders appid appid folder, eq_refl appid) refl

module _ (order : Order) (now : String) (luck : Luck) (p : Fields) where
  -- A branch that ends otherwise is out of question.
  branch :
      (P : Disk → Type 0) (b : Bool) (x y : Activated × Disk)
      → (x.0 ≡ activated p → P x.1)
      → (y.0 ≡ activated p → P y.1)
      → (if b then x else y).0 ≡ activated p
      → P (if b then x else y).1
  branch P true x y f g = f
  branch P false x y f g = g

  configured-Stored :
      (key : Json) (folder : Folder) (disk : Disk)
      → folder.secrets ≡ holds (secrets_with order.token key)
      → (configured luck order now folder disk).0 ≡ activated p
      → Stored order now key (configured luck order now folder disk).1
  unfolding configured Stored set_folder
  configured-Stored key folder disk e =
      let found =
        found-assigned order.appid (record folder { config = holds (obj (config_of order now)) })
          disk in
      branch (Stored order now key) (not luck.config_written) _ _ (λ h. cc h)
        (branch (Stored order now key) luck.active_written _ _
          (λ h. (refl, ap (λ f. f.secrets) (found _) ∙ e, ap (λ f. f.config) (found _)))
          (λ h. cc h))

  keeping-Stored :
      (key : Json) (folder : Folder) (disk : Disk)
      → (keeping luck order now key folder disk).0 ≡ activated p
      → Stored order now key (keeping luck order now key folder disk).1
  unfolding keeping
  keeping-Stored key folder disk =
      branch (Stored order now key) luck.secrets_written _ _ (configured-Stored key _ disk refl)
        (λ h. cc h)

  rekeyed-Stored :
      (fresh : String) (folder : Folder) (disk : Disk)
      → (rekeyed luck order now fresh folder disk).0 ≡ activated p
      → Stored order now (str fresh) (rekeyed luck order now fresh folder disk).1
  unfolding rekeyed
  rekeyed-Stored fresh folder disk =
      branch (Stored order now (str fresh)) (rename_fails luck folder.data_sealed_with)
        (not_stored, disk) _ (λ h. cc h)
        (keeping-Stored (str fresh) (moved_aside folder.data_sealed_with folder) disk)

  branch_by_key :
      (b : Bool) (x y : Activated × Disk) (k k' : Json)
      → (x.0 ≡ activated p → Stored order now k x.1)
      → (y.0 ≡ activated p → Stored order now k' y.1)
      → (if b then x else y).0 ≡ activated p
      → Stored order now (if b then k else k') (if b then x else y).1
  branch_by_key true x y k k' f g = f
  branch_by_key false x y k k' f g = g

  with_secrets-Stored :
      (fresh : String) (folder : Folder) (disk : Disk) (readable : Bool) (secrets : File Fields)
      → (with_secrets luck order now fresh folder disk (secrets_of (read readable secrets))).0
        ≡ activated p
      → Stored order now
          (key_for secrets fresh)
          (with_secrets luck order now fresh folder disk (secrets_of (read readable secrets))).1
  unfolding with_secrets secrets_of truthy
  with_secrets-Stored fresh folder disk false secrets = λ h. cc h
  with_secrets-Stored fresh folder disk true missing = rekeyed-Stored fresh folder disk
  with_secrets-Stored fresh folder disk true damaged = rekeyed-Stored fresh folder disk
  with_secrets-Stored fresh folder disk true (holds fs) =
      branch_by_key (truthy (get fs "dataKey")) _ _ _ _
        (keeping-Stored (get fs "dataKey") folder disk) (rekeyed-Stored fresh folder disk)

  accepted :
      (b : Bool) (x : Activated × Disk) (disk : Disk)
      → (if b then x else (activation_refused, disk)).0 ≡ activated p
      → (b ≡ true) × ((if b then x else (activation_refused, disk)).1 ≡ x.1) × (x.0 ≡ activated p)
  accepted true x disk h = (refl, refl, h)
  accepted false x disk h = cc h

both : (a b : Bool) → a && b ≡ true → a ≡ true
both true b h = refl
both false b h = h

-- What the service is started with, on a disk that an activation left.
abbrev pub expected : Order → Json → Config
expected order key = record {
  appid = order.appid;
  product = str order.product;
  api_base = str (rstrip_slash order.api_base);
  device_id = str order.device_id;
  device_token = str order.token;
  data_key = key;
}

marked_appid :
    (order : Order) (luck : Luck) (disk : Disk)
    → is_safe_id order.appid ≡ true
    → luck.active_read ≡ true
    → disk.active ≡ holds (obj (field "appid" (str order.appid) end))
    → active_appid luck disk ≡ some order.appid
unfolding active_appid appid_of appid_read named_appid get str_of
marked_appid order luck disk safe a marked = rw (a, marked, safe) refl

loaded_secrets :
    (fs : Fields) (luck : Luck) (folder : Folder)
    → luck.secrets_read ≡ true
    → folder.secrets ≡ holds fs
    → load_secrets luck folder ≡ loaded (some fs)
unfolding load_secrets secrets_of
loaded_secrets fs luck folder s e = rw (s, e) refl

read_config :
    (order : Order) (now : String) (luck : Luck) (folder : Folder)
    → luck.config_read ≡ true
    → folder.config ≡ holds (obj (config_of order now))
    → read luck.config_read folder.config ≡ got (obj (config_of order now))
read_config order now luck folder c e = rw (c, e) refl

config_of_Stored :
    (order : Order) (now : String) (key : Json) (luck : Luck) (disk : Disk)
    → is_valid order ≡ true
    → truthy key ≡ true
    → luck.active_read ≡ true
    → luck.config_read ≡ true
    → luck.secrets_read ≡ true
    → Stored order now key disk
    → current_config luck disk ≡ configured_as (expected order key)
unfolding current_config config_for config_stored config_with Stored config_of secrets_with get
    json_or
config_of_Stored order now key luck disk valid t a c s (marked, secrets, config) =
    let (product, safe, device, token, base) = valid_order order valid in
    let folder = shop_folder disk order.appid in
    rw
      (
        marked_appid order luck disk safe a marked,
        read_config order now luck folder c config,
        base,
        device,
        loaded_secrets (secrets_with order.token key) luck folder s secrets,
        token,
        t,
        product,
      )
      (unfold truthy in refl)

key_is_truthy :
    (secrets : File Fields) (fresh : String)
    → truthy (str fresh) ≡ true
    → truthy (key_for secrets fresh) ≡ true
key_is_truthy missing fresh t = t
key_is_truthy damaged fresh t = t
key_is_truthy (holds fs) fresh t = elim (Bool-cases (truthy (get fs "dataKey"))) [
  | inl e ↦ rw e e
  | inr e ↦ rw e t
]

-- After an activation that succeeds, the service is started for that shop, at the server, with the
-- device and the token of the request, and with the data key that the shop's secrets held before,
-- if they held one, and the fresh one otherwise. This holds whenever active.json, config.json and
-- the secrets can be read again, and for a fresh key that is not empty.
pub activate_starts :
    (show : Json → String) (luck luck' : Luck) (payload p : Fields) (now fresh : String)
    (disk : Disk)
    → truthy (str fresh) ≡ true
    → luck'.active_read ≡ true
    → luck'.config_read ≡ true
    → luck'.secrets_read ≡ true
    → (activate show luck payload now fresh disk).0 ≡ activated p
    → current_config luck' (activate show luck payload now fresh disk).1
      ≡ configured_as (
          expected
            (read_order show payload)
            (key_for (shop_folder disk (read_order show payload).appid).secrets fresh))
unfolding activate activate_order load_secrets
activate_starts show luck luck' payload p now fresh disk t a c s h =
    let order = read_order show payload in
    let folder = shop_folder disk order.appid in
    let unclaimed = not (is_other (active_appid luck disk) order.appid) in
    let x = with_secrets luck order now fresh folder disk (load_secrets luck folder) in
    let (passed, same, ended) = accepted order now luck p (is_valid order && unclaimed) x disk h in
    rw same (
      config_of_Stored order now (key_for folder.secrets fresh) luck' x.1
        (both (is_valid order) unclaimed passed) (key_is_truthy folder.secrets fresh t) a c s
        (with_secrets-Stored order now luck p fresh folder disk luck.secrets_read folder.secrets
          ended))
