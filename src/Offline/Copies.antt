-- ===== src/Offline/Copies.antt =====
-- What becomes of the local copies when a shop is activated.
use text.Mathlib.TextEquality.{eq_iff}
use barhandler_manager.Prelude.{
  String, ◌≡◌, refl, Bool, true, false, not, Option, none, some, List, [], ◌∷◌, ◌++◌, inl, inr,
  ◌==◌, string_eq, if◌then◌else◌, Bool-cases, ◌∙◌, ap,
}
use barhandler_manager.Json.{Json, Fields, str, truthy}
use barhandler_manager.Offline.Disk.{
  Disk, Folder, File, Luck, shop_folder, set_folder, Secrets, loaded, secrets_unreadable,
  load_secrets, get_of,
}
use barhandler_manager.Offline.Activation.{
  Order, Activated, activate, activate_order, with_secrets, rekeyed, keeping, configured,
  moved_aside, rename_fails, read_order, not_stored, activation_refused,
}
use barhandler_manager.Offline.Sealed.{shop_folder-set_folder}

sealed_copy : Option Json → List Json
sealed_copy none = []
sealed_copy (some key) = key ∷ []

-- The local copies in a folder, by the keys that they are sealed with: the one in use, and those
-- that were moved aside.
pub copies : Folder → List Json
unfolding sealed_copy
copies folder = sealed_copy folder.data_sealed_with ++ folder.aside

abbrev Keeps : Disk → Disk → Type 0
Keeps disk disk' = (b : String) → copies (shop_folder disk' b) ≡ copies (shop_folder disk b)

set_folder-Keeps :
    (a : String) (folder : Folder) (disk : Disk)
    → copies folder ≡ copies (shop_folder disk a)
    → Keeps disk (set_folder a folder disk)
set_folder-Keeps a folder disk e b =
    ap copies (shop_folder-set_folder a b folder disk) ∙ elim (Bool-cases (a == b)) [
      | inl f ↦ rw f (e ∙ ap (λ x. copies (shop_folder disk x)) ((eq_iff a b).0 f))
      | inr f ↦ rw f refl
    ]

marked-Keeps :
    (active : File Json) (disk disk' : Disk)
    → Keeps disk disk'
    → Keeps disk (record disk' { active = active })
unfolding shop_folder
marked-Keeps active disk disk' h = h

either-Keeps :
    (b : Bool) (disk : Disk) (x y : Activated × Disk)
    → Keeps disk x.1
    → Keeps disk y.1
    → Keeps disk (if b then x else y).1
either-Keeps true disk x y h k = h
either-Keeps false disk x y h k = k

module _ (luck : Luck) (order : Order) (now : String) (disk : Disk) where
  configured-Keeps :
      (folder : Folder)
      → copies folder ≡ copies (shop_folder disk order.appid)
      → Keeps disk (configured luck order now folder disk).1
  unfolding configured copies
  configured-Keeps folder e =
      let written = set_folder-Keeps order.appid _ disk e in
      either-Keeps (not luck.config_written) disk _ _ (set_folder-Keeps order.appid folder disk e)
        (either-Keeps luck.active_written disk _ _ (marked-Keeps _ disk _ written) written)

  keeping-Keeps :
      (key : Json) (folder : Folder)
      → copies folder ≡ copies (shop_folder disk order.appid)
      → Keeps disk (keeping luck order now key folder disk).1
  unfolding keeping copies
  keeping-Keeps key folder e =
      either-Keeps luck.secrets_written disk _ _ (configured-Keeps _ e)
        (set_folder-Keeps order.appid folder disk e)

  moved-copies :
      (folder : Folder) (sealed : Option Json)
      → folder.data_sealed_with ≡ sealed
      → copies (moved_aside sealed folder) ≡ copies folder
  unfolding copies moved_aside sealed_copy
  moved-copies folder none e = refl
  moved-copies folder (some key) e = rw e refl

  with_secrets-Keeps :
      (fresh : String) (secrets : Secrets)
      → Keeps disk (with_secrets luck order now fresh (shop_folder disk order.appid) disk secrets).1
  unfolding with_secrets rekeyed
  with_secrets-Keeps fresh secrets_unreadable = λ b. refl
  with_secrets-Keeps fresh (loaded old) =
      let folder = shop_folder disk order.appid in
      either-Keeps (truthy (get_of old "dataKey")) disk _ _ (keeping-Keeps _ folder refl) (
        either-Keeps (rename_fails luck folder.data_sealed_with) disk (not_stored, disk) _
          (λ b. refl)
          (keeping-Keeps (str fresh) (moved_aside folder.data_sealed_with folder)
            (moved-copies folder folder.data_sealed_with refl)))

-- An activation, however it ends, loses no local copy of any shop: a copy stays in use or is moved
-- aside.
pub activate_keeps_copies :
    (show : Json → String) (luck : Luck) (payload : Fields) (now fresh : String) (disk : Disk)
    (shop : String)
    → copies (shop_folder (activate show luck payload now fresh disk).1 shop)
      ≡ copies (shop_folder disk shop)
unfolding activate activate_order
activate_keeps_copies show luck payload now fresh disk shop =
    let order = read_order show payload in
    either-Keeps _ disk _ (activation_refused, disk)
      (with_secrets-Keeps luck order now disk fresh
        (load_secrets luck (shop_folder disk order.appid)))
      (λ b. refl) shop
