-- ===== src/Offline/Sealed.antt =====
-- The data key of a shop's local copy, over any life of offline mode.
use barhandler_manager.Prelude.{
  String, ◌≡◌, refl, inl, inr, Bool, true, false, not, ◌&&◌, Option, none, some, arith, ◌==◌,
  string_eq, if◌then◌else◌, Bool-cases, sym, ap, ◌∙◌, subst,
}
use barhandler_manager.Prelude.Dict.{find-assign}
use barhandler_manager.Json.{Json, Fields, null, str, get, truthy}
use barhandler_manager.Offline.Disk.{
  Disk, Folder, File, missing, damaged, holds, read, Luck, active_appid, shop_folder, set_folder,
  loaded, load_secrets, secrets_of, get_of,
}
use barhandler_manager.Offline.Activation.{
  Order, activate, activate_order, with_secrets, rekeyed, keeping, configured, moved_aside,
  rename_fails, secrets_with, read_order, not_stored, is_valid, is_other,
}
use barhandler_manager.Offline.Config.{opened}

-- The copy of a folder is sealed with the key that its secrets hold, where there are both.
unfoldable pub FolderSealed : Folder → Type 0
FolderSealed folder =
    (fs : Fields) (key : Json)
    → folder.secrets ≡ holds fs
    → truthy (get fs "dataKey") ≡ true
    → folder.data_sealed_with ≡ some key
    → key ≡ get fs "dataKey"

unfoldable pub IsSealed : Disk → Type 0
IsSealed disk = (appid : String) → FolderSealed (shop_folder disk appid)

pub shop_folder-set_folder :
    (a b : String) (folder : Folder) (disk : Disk)
    → shop_folder (set_folder a folder disk) b ≡ (if a == b then folder else shop_folder disk b)
unfolding shop_folder set_folder
shop_folder-set_folder a b folder disk = ground (arith, find-assign disk.folders a b folder)

pub set_folder-IsSealed :
    (a : String) (folder : Folder) (disk : Disk)
    → IsSealed disk
    → FolderSealed folder
    → IsSealed (set_folder a folder disk)
unfolding IsSealed
set_folder-IsSealed a folder disk h f b =
    subst FolderSealed (sym (shop_folder-set_folder a b folder disk))
      (elim (Bool-cases (a == b)) [ inl e ↦ rw e f | inr e ↦ rw e (h b) ])

pub either-IsSealed :
    {A : Type 0} (b : Bool) (x y : A × Disk)
    → IsSealed x.1
    → IsSealed y.1
    → IsSealed (if b then x else y).1
either-IsSealed true x y h k = h
either-IsSealed false x y h k = k

pub marked-IsSealed :
    (active : File Json) (disk : Disk) → IsSealed disk → IsSealed (record disk { active = active })
unfolding IsSealed shop_folder
marked-IsSealed active disk h = h

configured-IsSealed :
    (luck : Luck) (order : Order) (now : String) (folder : Folder) (disk : Disk)
    → IsSealed disk
    → FolderSealed folder
    → IsSealed (configured luck order now folder disk).1
unfolding configured FolderSealed
configured-IsSealed luck order now folder disk h f =
    either-IsSealed (not luck.config_written) _ _ (set_folder-IsSealed order.appid folder disk h f)
      (either-IsSealed luck.active_written _ _
        (marked-IsSealed _ _ (set_folder-IsSealed order.appid _ disk h f))
        (set_folder-IsSealed order.appid _ disk h f))

abbrev key_in : File Fields → Json
key_in (holds fs) = get fs "dataKey"
key_in _ = null

new_sealed :
    (token : String) (key : Json) (folder : Folder)
    → ((old : Json) → folder.data_sealed_with ≡ some old → old ≡ key)
    → FolderSealed (record folder { secrets = holds (secrets_with token key) })
unfolding FolderSealed secrets_with get
new_sealed token key folder same fs old e t d = same old d ∙ ap key_in e

keeping-IsSealed :
    (luck : Luck) (order : Order) (now : String) (key : Json) (folder : Folder) (disk : Disk)
    → IsSealed disk
    → FolderSealed folder
    → ((old : Json) → folder.data_sealed_with ≡ some old → old ≡ key)
    → IsSealed (keeping luck order now key folder disk).1
unfolding keeping
keeping-IsSealed luck order now key folder disk h f same =
    either-IsSealed luck.secrets_written _ _
      (configured-IsSealed luck order now _ disk h (new_sealed order.token key folder same))
      (set_folder-IsSealed order.appid folder disk h f)

moved-IsSealed :
    (luck : Luck) (order : Order) (now fresh : String) (folder : Folder) (disk : Disk)
    (sealed : Option Json)
    → IsSealed disk
    → FolderSealed folder
    → folder.data_sealed_with ≡ sealed
    → IsSealed
        (if rename_fails luck sealed
          then (not_stored, disk)
          else keeping luck order now (str fresh) (moved_aside sealed folder) disk).1
unfolding rename_fails moved_aside FolderSealed
moved-IsSealed luck order now fresh folder disk none h f e =
    keeping-IsSealed luck order now (str fresh) folder disk h f (λ old d. cc (e, d))
moved-IsSealed luck order now fresh folder disk (some key) h f e =
    either-IsSealed (not luck.renamed) (not_stored, disk) _ h
      (keeping-IsSealed luck order now (str fresh) (moved_aside (some key) folder) disk h
        (λ fs old p t d. cc d) (λ old d. cc d))

rekeyed-IsSealed :
    (luck : Luck) (order : Order) (now fresh : String) (folder : Folder) (disk : Disk)
    → IsSealed disk
    → FolderSealed folder
    → IsSealed (rekeyed luck order now fresh folder disk).1
unfolding rekeyed
rekeyed-IsSealed luck order now fresh folder disk h f =
    moved-IsSealed luck order now fresh folder disk folder.data_sealed_with h f refl

loaded-IsSealed :
    (luck : Luck) (order : Order) (now fresh : String) (folder : Folder) (disk : Disk)
    (old : Option Fields)
    → IsSealed disk
    → FolderSealed folder
    → ((key : Json)
        → truthy (get_of old "dataKey") ≡ true
        → folder.data_sealed_with ≡ some key
        → key ≡ get_of old "dataKey")
    → IsSealed (with_secrets luck order now fresh folder disk (loaded old)).1
unfolding with_secrets
loaded-IsSealed luck order now fresh folder disk old h f same =
    elim (Bool-cases (truthy (get_of old "dataKey"))) [
      | inl e ↦ rw e (keeping-IsSealed luck order now _ folder disk h f (λ key d. same key e d))
      | inr e ↦ rw e (rekeyed-IsSealed luck order now fresh folder disk h f)
    ]

with_secrets-IsSealed :
    (luck : Luck) (order : Order) (now fresh : String) (folder : Folder) (disk : Disk)
    (readable : Bool) (secrets : File Fields)
    → IsSealed disk
    → FolderSealed folder
    → folder.secrets ≡ secrets
    → IsSealed
        (with_secrets luck order now fresh folder disk (secrets_of (read readable secrets))).1
unfolding with_secrets secrets_of FolderSealed
with_secrets-IsSealed luck order now fresh folder disk false secrets h f e = h
with_secrets-IsSealed luck order now fresh folder disk true missing h f e =
    loaded-IsSealed luck order now fresh folder disk none h f (λ key t d. unfold truthy in cc t)
with_secrets-IsSealed luck order now fresh folder disk true damaged h f e =
    loaded-IsSealed luck order now fresh folder disk none h f (λ key t d. unfold truthy in cc t)
with_secrets-IsSealed luck order now fresh folder disk true (holds fs) h f e =
    loaded-IsSealed luck order now fresh folder disk (some fs) h f (λ key t d. f fs key e t d)

pub activate-IsSealed :
    (show : Json → String) (luck : Luck) (payload : Fields) (now fresh : String) (disk : Disk)
    → IsSealed disk
    → IsSealed (activate show luck payload now fresh disk).1
unfolding activate activate_order IsSealed load_secrets
activate-IsSealed show luck payload now fresh disk h =
    let order = read_order show payload in
    elim (Bool-cases (is_valid order && not (is_other (active_appid luck disk) order.appid))) [
      | inl e ↦ rw e (
          with_secrets-IsSealed luck order now fresh (shop_folder disk order.appid) disk
            luck.secrets_read _ h (h order.appid) refl)
      | inr e ↦ rw e h
    ]

opened_key :
    (key v old : Json) (sealed : Option Json)
    → key ≡ v
    → ((k : Json) → sealed ≡ some k → k ≡ v)
    → opened key sealed ≡ some old
    → old ≡ v
unfolding opened
opened_key key v old none e f g = cc (e, g)
opened_key key v old (some k) e f g = f old g

pub opened-IsSealed :
    (key : Json) (folder : Folder) (fs : Fields)
    → FolderSealed folder
    → folder.secrets ≡ holds fs
    → key ≡ get fs "dataKey"
    → FolderSealed (record folder { data_sealed_with = opened key folder.data_sealed_with })
unfolding FolderSealed
opened-IsSealed key folder fs f e k fs' key' e' t' d =
    opened_key key (get fs' "dataKey") key' folder.data_sealed_with (k ∙ ap key_in (sym e ∙ e'))
      (λ old p. f fs' old e' t' p) d
