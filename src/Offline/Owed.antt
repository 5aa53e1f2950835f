-- ===== src/Offline/Owed.antt =====
-- What a request to switch offline mode off is refused for, and what it does otherwise.
use text.Mathlib.TextPositions.{eq_refl}
use barhandler_manager.Prelude.{
  ℕ, zero, suc, String, ◌≡◌, refl, ◌⊎◌, inl, inr, true, false, Option, none, some, ap, ◌∙◌,
  string_eq,
}
use barhandler_manager.Prelude.Int.{ℤ, pos, negsuc}
use barhandler_manager.Json.{Fields}
use barhandler_manager.Offline.Disk.{
  Disk, missing, Luck, active_appid, shop_folder, set_folder, no_folder,
}
use barhandler_manager.Offline.Leaving.{
  Query, Fiscal, switched_off, deactivate, deactivating, checked_leaving, leaving, after_forget,
  forget, forgetting, unmarked, remove_data, known_queue, known_fiscal, check_can_deactivate,
  documents_refusal, session_refusal, Refusal, forgotten,
}
use barhandler_manager.Offline.Sealed.{shop_folder-set_folder}

-- Nothing that was made without the internet waits, and this is known.
abbrev NothingOwed : Option ℤ → Option (Option ℤ × ℕ) → Type 0
NothingOwed queued fiscal = (queued ≡ some (pos 0)) × (fiscal ≡ some (some (pos 0), 0))

passes_documents : (pending : Option ℤ) → documents_refusal pending ≡ none → pending ≡ some (pos 0)
unfolding documents_refusal
passes_documents (some (pos zero)) h = refl
passes_documents (some (pos (suc n))) h = cc h
passes_documents (some (negsuc n)) h = cc h
passes_documents none h = cc h

passes :
    (queued pending : Option ℤ) (sessions : ℕ)
    → check_can_deactivate queued pending sessions ≡ none
    → NothingOwed queued (some (pending, sessions))
unfolding check_can_deactivate session_refusal
passes (some (pos zero)) pending zero h = (refl, ap (λ p. some (p, 0)) (passes_documents pending h))
passes (some (pos zero)) pending (suc n) h = cc h
passes (some (pos (suc n))) pending sessions h = cc h
passes (some (negsuc n)) pending sessions h = cc h
passes none pending sessions h = cc h

module _ (luck : Luck) (disk : Disk) where
  leaving-exact : (why : Option Refusal) → ((leaving luck disk why).1 ≡ disk) ⊎ (why ≡ none)
  unfolding leaving
  leaving-exact none = inr refl
  leaving-exact (some why) = inl refl

  checked_leaving-exact :
      (queued : Option ℤ) (fiscal : Option (Option ℤ × ℕ))
      → ((checked_leaving luck disk queued fiscal).1 ≡ disk) ⊎ NothingOwed queued fiscal
  unfolding checked_leaving
  checked_leaving-exact queued none = inl refl
  checked_leaving-exact queued (some (pending, sessions)) =
      elim (leaving-exact (check_can_deactivate queued pending sessions)) [
        | inl same ↦ inl same
        | inr none_found ↦ inr (passes queued pending sessions none_found)
      ]

  deactivating-exact :
      (health : Option Fields) (queue : Query ℕ) (copy : Query Fiscal) (appid : Option String)
      → ((deactivating luck health queue copy disk appid).1 ≡ disk)
        ⊎ NothingOwed (known_queue health queue) (known_fiscal health copy)
  unfolding deactivating
  deactivating-exact health queue copy none = inl refl
  deactivating-exact health queue copy (some appid) =
      checked_leaving-exact (known_queue health queue) (known_fiscal health copy)

-- A request to switch off leaves the disk as it is, unless it is known that no operation waits for
-- the server, that no fiscal document waits for the tax service and that no fiscal session is open.
pub deactivate_keeps_owed :
    (luck luck' : Luck) (health : Option Fields) (queue : Query ℕ) (copy : Query Fiscal)
    (disk : Disk)
    → ((deactivate luck luck' health queue copy disk).1 ≡ disk)
      ⊎ ((known_queue health queue ≡ some (pos 0))
          × (known_fiscal health copy ≡ some (some (pos 0), 0)))
unfolding deactivate
deactivate_keeps_owed luck luck' health queue copy disk =
    deactivating-exact luck' disk health queue copy (active_appid luck disk)

-- Every file of a shop can be removed.
pub record Removes (luck : Luck) : Type 0 where
  pub secrets_go : luck.secrets_deleted ≡ true
  pub active_goes : luck.active_deleted ≡ true
  pub secrets_gone : luck.secrets_left ≡ false
  pub config_gone : luck.config_left ≡ false
  pub data_gone : luck.data_left ≡ false
  pub aside_gone : luck.aside_left ≡ false

removed :
    (luck : Luck) (appid : String) (disk : Disk)
    → Removes luck
    → shop_folder (remove_data luck appid disk) appid ≡ no_folder
unfolding remove_data
removed luck appid disk r =
    shop_folder-set_folder appid appid _ disk
    ∙ rw (eq_refl appid, r.secrets_gone, r.config_gone, r.data_gone, r.aside_gone) refl

marked_as :
    (luck : Luck) (appid : String) (disk : Disk)
    → (remove_data luck appid disk).active ≡ disk.active
unfolding remove_data set_folder
marked_as luck appid disk = refl

-- The disk once the secrets and the mark are gone.
abbrev forgotten_disk : String → Disk → Disk
forgotten_disk appid disk =
    record (set_folder appid (record (shop_folder disk appid) { secrets = missing }) disk) {
      active = missing;
    }

forgot :
    (luck : Luck) (appid : String) (disk : Disk)
    → active_appid luck disk ≡ some appid
    → Removes luck
    → forget luck disk ≡ (forgotten (some appid), forgotten_disk appid disk)
unfolding forget forgetting unmarked
forgot luck appid disk e r = rw (e, r.secrets_go, r.active_goes) refl

-- Where nothing is owed, a request to switch off does so: the shop is no longer active and nothing
-- of its folder is left. This holds when active.json is read both times and every file goes.
pub deactivate_switches_off :
    (luck luck' : Luck) (health : Option Fields) (queue : Query ℕ) (copy : Query Fiscal)
    (disk : Disk) (appid : String)
    → active_appid luck disk ≡ some appid
    → active_appid luck' disk ≡ some appid
    → Removes luck'
    → known_queue health queue ≡ some (pos 0)
    → known_fiscal health copy ≡ some (some (pos 0), 0)
    → ((deactivate luck luck' health queue copy disk).0 ≡ switched_off)
      × ((deactivate luck luck' health queue copy disk).1.active ≡ missing)
      × (shop_folder (deactivate luck luck' health queue copy disk).1 appid ≡ no_folder)
unfolding deactivate deactivating checked_leaving leaving check_can_deactivate session_refusal
    documents_refusal after_forget
deactivate_switches_off luck luck' health queue copy disk appid e e' r q f =
    rw (e, q, f, forgot luck' appid disk e' r)
      (
        refl,
        marked_as luck' appid (forgotten_disk appid disk),
        removed luck' appid (forgotten_disk appid disk) r,
      )
