-- ===== src/Offline/Lives.antt =====
-- Any life of offline mode: activations, starts of the service, and switching off.
use barhandler_manager.Prelude.{
  ℕ, String, ◌≡◌, refl, Bool, true, false, Option, none, some, List, [], ◌∷◌, if◌then◌else◌, sym,
  ap, subst,
}
use barhandler_manager.Json.{Json, Fields, null, obj, get, truthy}
use barhandler_manager.Offline.Disk.{
  Disk, Folder, File, missing, damaged, holds, Reading, got, read, Luck, active_appid, shop_folder,
  load_secrets, secrets_of,
}
use barhandler_manager.Offline.Activation.{activate}
use barhandler_manager.Offline.Config.{
  Config, Current, configured_as, not_activated, current_config, config_with, config_stored,
  config_for, serve, started,
}
use barhandler_manager.Offline.Leaving.{
  Query, Fiscal, Forgotten, Refusal, deactivate, deactivating, forget, forgetting, remove_data,
  left, checked_leaving, leaving, after_forget, unmarked, forgotten, not_forgotten,
}
use barhandler_manager.Offline.Sealed.{
  IsSealed, FolderSealed, set_folder-IsSealed, marked-IsSealed, either-IsSealed, opened-IsSealed,
  activate-IsSealed,
}
use barhandler_manager.Prelude.Int.{ℤ}

-- The data key of a config stands in the secrets of the shop.
IsKept : Folder → Config → Type 0
IsKept folder c = (fs : Fields) × (folder.secrets ≡ holds fs) × (c.data_key ≡ get fs "dataKey")

abbrev key_of : Current → Json
key_of (configured_as c) = c.data_key
key_of _ = null

chosen :
    (b : Bool) (x c : Config)
    → (if b then configured_as x else not_activated) ≡ configured_as c
    → c ≡ x
chosen true x c h = cc h
chosen false x c h = cc h

config_with-IsKept :
    (appid : String) (stored : Fields) (c : Config) (folder : Folder) (readable : Bool)
    (secrets : File Fields)
    → folder.secrets ≡ secrets
    → config_with appid stored (secrets_of (read readable secrets)) ≡ configured_as c
    → IsKept folder c × (c.appid ≡ appid)
unfolding IsKept config_with secrets_of truthy
config_with-IsKept appid stored c folder false secrets e h = cc h
config_with-IsKept appid stored c folder true missing e h = cc h
config_with-IsKept appid stored c folder true damaged e h = cc h
config_with-IsKept appid stored c folder true (holds fs) e h =
    let same = chosen _ _ c h in ((fs, e, ap (λ c. c.data_key) same), ap (λ c. c.appid) same)

either_is :
    (b : Bool) (x : Current) (c : Config)
    → (if b then x else not_activated) ≡ configured_as c
    → x ≡ configured_as c
either_is true x c h = h
either_is false x c h = cc h

config_stored-IsKept :
    (appid : String) (c : Config) (luck : Luck) (folder : Folder) (stored : Reading Json)
    → config_stored appid luck folder stored ≡ configured_as c
    → IsKept folder c × (c.appid ≡ appid)
unfolding config_stored load_secrets
config_stored-IsKept appid c luck folder (got (obj stored)) h =
    config_with-IsKept appid stored c folder luck.secrets_read folder.secrets refl
      (either_is _ _ c h)
config_stored-IsKept appid c luck folder _ h = cc h

config_for-IsKept :
    (luck : Luck) (disk : Disk) (c : Config) (appid : Option String)
    → config_for luck disk appid ≡ configured_as c
    → IsKept (shop_folder disk c.appid) c
unfolding config_for
config_for-IsKept luck disk c none h = cc h
config_for-IsKept luck disk c (some appid) h =
    let (kept, same) = config_stored-IsKept appid c luck (shop_folder disk appid) _ h in
    subst (λ a. IsKept (shop_folder disk a) c) (sym same) kept

started-IsSealed :
    (disk : Disk) (current : Current)
    → IsSealed disk
    → ((c : Config) → current ≡ configured_as c → IsKept (shop_folder disk c.appid) c)
    → IsSealed (started current disk)
unfolding started IsKept IsSealed
started-IsSealed disk (configured_as c) h kept =
    let (fs, e, k) = kept c refl in
    set_folder-IsSealed c.appid _ disk h
      (opened-IsSealed c.data_key (shop_folder disk c.appid) fs (h c.appid) e k)
started-IsSealed disk _ h kept = h

serve-IsSealed : (luck : Luck) (disk : Disk) → IsSealed disk → IsSealed (serve luck disk)
unfolding serve current_config
serve-IsSealed luck disk h = started-IsSealed disk _ h (λ c e. config_for-IsKept luck disk c _ e)

without_secrets : (folder : Folder) → FolderSealed (record folder { secrets = missing })
unfolding FolderSealed
without_secrets folder fs key e t d = cc e

forgetting-IsSealed :
    (luck : Luck) (disk : Disk) (appid : Option String)
    → IsSealed disk
    → IsSealed (forgetting luck disk appid).1
unfolding forgetting unmarked
forgetting-IsSealed luck disk none h = h
forgetting-IsSealed luck disk (some appid) h =
    let forgot = set_folder-IsSealed appid _ disk h (without_secrets (shop_folder disk appid)) in
    either-IsSealed luck.secrets_deleted _ (not_forgotten, disk)
      (either-IsSealed luck.active_deleted _ _ (marked-IsSealed missing _ forgot) forgot) h

remaining :
    (folder : Folder) (config : File Json) (aside : List Json) (secrets_left data_left : Bool)
    → FolderSealed folder
    → FolderSealed (record {
      secrets = left secrets_left folder.secrets missing;
      config = config;
      data_sealed_with = left data_left folder.data_sealed_with none;
      aside = aside;
    })
unfolding FolderSealed
remaining folder config aside true true h fs key e t d = h fs key e t d
remaining folder config aside true false h fs key e t d = cc d
remaining folder config aside false data_left h fs key e t d = cc e

remove_data-IsSealed :
    (luck : Luck) (appid : String) (disk : Disk)
    → IsSealed disk
    → IsSealed (remove_data luck appid disk)
unfolding remove_data IsSealed
remove_data-IsSealed luck appid disk h =
    set_folder-IsSealed appid _ disk h
      (remaining (shop_folder disk appid) _ _ luck.secrets_left luck.data_left (h appid))

after_forget-IsSealed :
    (luck : Luck) (done : Forgotten) (disk : Disk)
    → IsSealed disk
    → IsSealed (after_forget luck (done, disk)).1
unfolding after_forget
after_forget-IsSealed luck not_forgotten disk h = h
after_forget-IsSealed luck (forgotten none) disk h = h
after_forget-IsSealed luck (forgotten (some appid)) disk h = remove_data-IsSealed luck appid disk h

leaving-IsSealed :
    (luck : Luck) (disk : Disk) (why : Option Refusal)
    → IsSealed disk
    → IsSealed (leaving luck disk why).1
unfolding leaving forget
leaving-IsSealed luck disk (some why) h = h
leaving-IsSealed luck disk none h =
    after_forget-IsSealed luck _ _ (forgetting-IsSealed luck disk _ h)

checked_leaving-IsSealed :
    (luck : Luck) (disk : Disk) (queued : Option ℤ) (fiscal : Option (Option ℤ × ℕ))
    → IsSealed disk
    → IsSealed (checked_leaving luck disk queued fiscal).1
unfolding checked_leaving
checked_leaving-IsSealed luck disk queued none h = h
checked_leaving-IsSealed luck disk queued (some (pending, sessions)) h =
    leaving-IsSealed luck disk _ h

deactivating-IsSealed :
    (luck : Luck) (health : Option Fields) (queue : Query ℕ) (copy : Query Fiscal) (disk : Disk)
    (appid : Option String)
    → IsSealed disk
    → IsSealed (deactivating luck health queue copy disk appid).1
unfolding deactivating
deactivating-IsSealed luck health queue copy disk none h = h
deactivating-IsSealed luck health queue copy disk (some appid) h =
    checked_leaving-IsSealed luck disk _ _ h

-- What happens to the files, in any order: a request to activate, the start of the service, a
-- request to deactivate, and a removal of the data of a shop (`remove_data` may also run late).
pub data Op : Type 0 where
  activates : Luck → Fields → String → String → Op
  serves : Luck → Op
  deactivates : Luck → Luck → Option Fields → Query ℕ → Query Fiscal → Op
  removes : Luck → String → Op

module _ (show : Json → String) where
  unfoldable pub step : Op → Disk → Disk
  step (activates luck payload now fresh) disk = (activate show luck payload now fresh disk).1
  step (serves luck) disk = serve luck disk
  step (deactivates luck luck' health queue copy) disk =
      (deactivate luck luck' health queue copy disk).1
  step (removes luck appid) disk = remove_data luck appid disk

  unfoldable pub run : List Op → Disk → Disk
  unfolding step
  run [] disk = disk
  run (op ∷ ops) disk = run ops (step op disk)

  step-IsSealed : (op : Op) (disk : Disk) → IsSealed disk → IsSealed (step op disk)
  unfolding step deactivate
  step-IsSealed (activates luck payload now fresh) disk h =
      activate-IsSealed show luck payload now fresh disk h
  step-IsSealed (serves luck) disk h = serve-IsSealed luck disk h
  step-IsSealed (deactivates luck luck' health queue copy) disk h =
      deactivating-IsSealed luck' health queue copy disk (active_appid luck disk) h
  step-IsSealed (removes luck appid) disk h = remove_data-IsSealed luck appid disk h

  -- Over any order of activations, starts of the service and switching off, whichever files can be
  -- read, moved, written or deleted meanwhile: where the copy of every shop is sealed with the key
  -- in its secrets, if it has both, it is so ever after.
  pub run-IsSealed : (ops : List Op) (disk : Disk) → IsSealed disk → IsSealed (run ops disk)
  unfolding run
  run-IsSealed [] disk h = h
  run-IsSealed (op ∷ ops) disk h = run-IsSealed ops (step op disk) (step-IsSealed op disk h)
