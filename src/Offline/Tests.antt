-- ===== src/Offline/Tests.antt =====
-- Runs of offline mode, and its theorems at concrete inputs.
use barhandler_manager.Prelude.{String, ◌≡◌, ◌⊎◌, refl, true, false, none, some, [], ◌∷◌}
use barhandler_manager.Prelude.Int.{pos}
use barhandler_manager.Prelude.Dict.{find}
use barhandler_manager.Json.{Json, Fields, str, num, obj, field, end, get, truthy, str_of, int_of}
use barhandler_manager.Offline.Words.{is_safe_id, api_host, is_known_host, rstrip_slash, cut}
use barhandler_manager.Offline.Disk.{
  Disk, missing, holds, Luck, shop_folder, active_appid, appid_of, appid_read, named_appid,
  no_folder, load_secrets, secrets_of,
}
use barhandler_manager.Offline.Activation.{
  activate, activate_order, activated, read_order, text_or, is_valid, known_product, product_of,
  is_other, with_secrets, rekeyed, keeping, configured, rename_fails, moved_aside, public_of,
}
use barhandler_manager.Offline.Config.{configured_as, current_config}
use barhandler_manager.Offline.Leaving.{
  Query, Fiscal, answer, deactivate, known_queue, known_fiscal, switched_off, queued_on_disk,
  fiscal_owed_on_disk,
}
use barhandler_manager.Offline.Sealed.{IsSealed, FolderSealed}
use barhandler_manager.Offline.Lives.{activates, serves, run, run-IsSealed}
use barhandler_manager.Offline.Started.{activate_starts}
use barhandler_manager.Offline.Copies.{activate_keeps_copies, copies}
use barhandler_manager.Offline.Owed.{deactivate_keeps_owed, deactivate_switches_off}

abbrev show : Json → String
show v = "?"

-- Everything goes through, and a removal removes everything.
abbrev fine : Luck
fine = record {
  active_read = true;
  secrets_read = true;
  config_read = true;
  renamed = true;
  secrets_written = true;
  config_written = true;
  active_written = true;
  secrets_deleted = true;
  active_deleted = true;
  secrets_left = false;
  config_left = false;
  data_left = false;
  aside_left = false;
}

abbrev blank : Disk
blank = record { active = missing; folders = [] }

abbrev payload : Fields
payload = field "appid" (str "shop") (
    field "deviceId" (str "till-1") (
      field "deviceToken" (str "pho_1")
        (field "apiBase" (str "https://API.petshandler.com/api/") end)))

-- The folder of a shop's parent passes for the id of a shop.
parent_is_safe : is_safe_id ".." ≡ true
unfolding is_safe_id
parent_is_safe = refl

blank-IsSealed : IsSealed blank
unfolding IsSealed FolderSealed shop_folder find
blank-IsSealed appid fs key e t d = cc e

run-IsSealed_example : IsSealed (
    run show
      (activates fine payload "12:00" "k" ∷ serves fine ∷ activates fine payload "12:05" "l" ∷ [])
      blank)
run-IsSealed_example =
    run-IsSealed show
      (activates fine payload "12:00" "k" ∷ serves fine ∷ activates fine payload "12:05" "l" ∷ [])
      blank blank-IsSealed

fresh_is_truthy : truthy (str "k") ≡ true
unfolding truthy
fresh_is_truthy = refl

first_time :
    (activate show fine payload "12:00" "k" blank).0
    ≡ activated (public_of (read_order show payload) "12:00")
unfolding activate activate_order read_order text_or get truthy is_valid known_product product_of
    is_safe_id is_known_host api_host active_appid appid_read is_other with_secrets load_secrets
    secrets_of shop_folder find rekeyed keeping configured rename_fails moved_aside cut
first_time = refl

activate_starts_example :
    current_config fine (activate show fine payload "12:00" "k" blank).1
    ≡ configured_as (record {
      appid = "shop";
      product = str "petshandler";
      api_base = str "https://API.petshandler.com/api";
      device_id = str "till-1";
      device_token = str "pho_1";
      data_key = str "k";
    })
unfolding read_order text_or get truthy rstrip_slash shop_folder find
activate_starts_example =
    activate_starts show fine fine payload (public_of (read_order show payload) "12:00") "12:00" "k"
      blank fresh_is_truthy refl refl refl first_time

activate_keeps_copies_example :
    copies (shop_folder (activate show fine payload "12:00" "k" blank).1 "shop")
    ≡ copies (shop_folder blank "shop")
activate_keeps_copies_example = activate_keeps_copies show fine payload "12:00" "k" blank "shop"

-- A local copy without fiscal documents.
abbrev clean : Query Fiscal
clean = answer (record { pending_row = none; sessions = 0; documents = 0 })

abbrev owing : Fields
owing = field "queued" (num (pos 2)) end

deactivate_keeps_owed_example :
    ((deactivate fine fine (some owing) (answer 0) clean blank).1 ≡ blank)
    ⊎ ((known_queue (some owing) (answer 0) ≡ some (pos 0))
        × (known_fiscal (some owing) clean ≡ some (some (pos 0), 0)))
deactivate_keeps_owed_example = deactivate_keeps_owed fine fine (some owing) (answer 0) clean blank

abbrev switched_on : Disk
switched_on = record {
  active = holds (obj (field "appid" (str "shop") end));
  folders = ("shop", record no_folder { data_sealed_with = some (str "k") }) ∷ [];
}

shop_is_active : active_appid fine switched_on ≡ some "shop"
unfolding active_appid appid_read appid_of named_appid get str_of is_safe_id
shop_is_active = refl

none_queued : known_queue none (answer 0) ≡ some (pos 0)
unfolding known_queue queued_on_disk int_of
none_queued = refl

none_owed : known_fiscal none clean ≡ some (some (pos 0), 0)
unfolding known_fiscal fiscal_owed_on_disk
none_owed = refl

deactivate_switches_off_example :
    ((deactivate fine fine none (answer 0) clean switched_on).0 ≡ switched_off)
    × ((deactivate fine fine none (answer 0) clean switched_on).1.active ≡ missing)
    × (shop_folder (deactivate fine fine none (answer 0) clean switched_on).1 "shop" ≡ no_folder)
deactivate_switches_off_example =
    deactivate_switches_off fine fine none (answer 0) clean switched_on "shop" shop_is_active
      shop_is_active
      (record {
        secrets_go = refl;
        active_goes = refl;
        secrets_gone = refl;
        config_gone = refl;
        data_gone = refl;
        aside_gone = refl;
      })
      none_queued none_owed
