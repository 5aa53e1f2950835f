-- ===== src/Offline/Leaving.antt =====
-- The switching off: `queued_on_disk`, `fiscal_owed_on_disk`, `check_can_deactivate`, `forget`,
-- `remove_data`, and the route `deactivate` of routes/offline.py.
use barhandler_manager.Prelude.{
  ℕ, zero, suc, String, Bool, Option, none, some, [], length, if◌then◌else◌,
}
use barhandler_manager.Prelude.Int.{ℤ, pos}
use barhandler_manager.Prelude.Text.{codes}
use barhandler_manager.Json.{
  Json, Items, nil, cons, Fields, end, field, null, num, str, arr, obj, get, truthy, int_of,
}
use barhandler_manager.Offline.Disk.{Disk, missing, Luck, active_appid, shop_folder, set_folder}

-- What a query of the local copy gives: there is no copy or no such table, it cannot be read, or
-- the answer.
pub data Query (A : Type 0) : Type 0 where
  no_copy no_table unread : Query A
  answer : A → Query A

-- `queued_on_disk`
unfoldable pub queued_on_disk : Query ℕ → Option ℤ
queued_on_disk no_copy = some (pos 0)
queued_on_disk no_table = some (pos 0)
queued_on_disk unread = none
queued_on_disk (answer n) = some (pos n)

-- The meta rows and the fiscal documents of a copy: the count of unsent documents, where there is
-- such a row (`none` inside: its value is not a number), the open sessions, and the documents.
pub record Fiscal : Type 0 where
  pub pending_row : Option (Option ℤ)
  pub sessions : ℕ
  pub documents : ℕ

owed_by : Fiscal → Option (Option ℤ) → Option (ℤ × ℕ)
owed_by copy (some none) = none
owed_by copy (some (some pending)) = some (pending, copy.sessions)
owed_by copy none = elim copy.documents [ zero ↦ some (pos 0, copy.sessions) | suc n ↦ none ]

-- `fiscal_owed_on_disk`
unfoldable pub fiscal_owed_on_disk : Query Fiscal → Option (ℤ × ℕ)
unfolding owed_by
fiscal_owed_on_disk no_copy = some (pos 0, 0)
fiscal_owed_on_disk no_table = some (pos 0, 0)
fiscal_owed_on_disk unread = none
fiscal_owed_on_disk (answer copy) = owed_by copy copy.pending_row

-- The reasons of `check_can_deactivate`.
pub data Refusal : Type 0 where
  queue_waits queue_unknown session_open documents_owed documents_unknown : Refusal

unfoldable pub documents_refusal : Option ℤ → Option Refusal
documents_refusal (some (pos zero)) = none
documents_refusal (some z) = some documents_owed
documents_refusal none = some documents_unknown

unfoldable pub session_refusal : Option ℤ → ℕ → Option Refusal
unfolding documents_refusal
session_refusal pending zero = documents_refusal pending
session_refusal pending (suc n) = some session_open

-- `check_can_deactivate`: the reason to refuse, if there is one.
unfoldable pub check_can_deactivate : Option ℤ → Option ℤ → ℕ → Option Refusal
unfolding session_refusal
check_can_deactivate (some (pos zero)) pending sessions = session_refusal pending sessions
check_can_deactivate (some z) pending sessions = some queue_waits
check_can_deactivate none pending sessions = some queue_unknown

-- How `forget` ends: with the shop, if one was active, or with the error of a file.
pub data Forgotten : Type 0 where
  forgotten : Option String → Forgotten
  not_forgotten : Forgotten

unfoldable pub unmarked : Luck → String → Disk → Forgotten × Disk
unmarked luck appid disk =
    if luck.active_deleted
    then (forgotten (some appid), record disk { active = missing })
    else (not_forgotten, disk)

unfoldable pub forgetting : Luck → Disk → Option String → Forgotten × Disk
unfolding set_folder unmarked
forgetting luck disk none = (forgotten none, disk)
forgetting luck disk (some appid) =
    if luck.secrets_deleted
    then unmarked luck appid
        (set_folder appid (record (shop_folder disk appid) { secrets = missing }) disk)
    else (not_forgotten, disk)

-- `forget`
unfoldable pub forget : Luck → Disk → Forgotten × Disk
unfolding forgetting
forget luck disk = forgetting luck disk (active_appid luck disk)

abbrev pub left : {A : Type 0} → Bool → A → A → A
left kept a gone = if kept then a else gone

-- `remove_data`: the removal ignores errors, so any file may be left.
unfoldable pub remove_data : Luck → String → Disk → Disk
unfolding set_folder
remove_data luck appid disk =
    let folder = shop_folder disk appid in
    set_folder appid
      (record {
        secrets = left luck.secrets_left folder.secrets missing;
        config = left luck.config_left folder.config missing;
        data_sealed_with = left luck.data_left folder.data_sealed_with none;
        aside = left luck.aside_left folder.aside [];
      })
      disk

-- `health.get(k) if health else None`
abbrev pub told : Option Fields → String → Json
told none k = null
told (some fs) k = get fs k

int_or : Option ℤ → Option ℤ → Option ℤ
int_or none other = other
int_or (some z) other = some z

abbrev pub count : Items → ℕ
count nil = 0
count (cons v vs) = suc (count vs)

abbrev pub count_fields : Fields → ℕ
count_fields end = 0
count_fields (field k v fs) = suc (count_fields fs)

-- `len(v or [])`, which fails for a value without a length.
unfoldable pub len_or_empty : Json → Option ℕ
len_or_empty (arr items) = some (count items)
len_or_empty (obj fs) = some (count_fields fs)
len_or_empty (str s) = some (length (codes s))
len_or_empty v = if truthy v then none else some 0

-- What is known of the fiscal documents: what the service says, and what the local copy does. The
-- outer `none` is a failure of `len`.
fiscal_told : Json → Json → Query Fiscal → Option (Option ℤ × ℕ)
fiscal_told (num pending) sessions copy = elim (len_or_empty sessions) [
  | none ↦ none
  | some n ↦ some (some pending, n)
]
fiscal_told _ sessions copy = elim (fiscal_owed_on_disk copy) [
  | none ↦ some (none, 0)
  | some (pending, n) ↦ some (some pending, n)
]

-- How the route ends.
pub data Left : Type 0 where
  switched_off : Left
  left_refused : Refusal → Left
  left_failed left_crashed : Left

unfoldable pub after_forget : Luck → Forgotten × Disk → Left × Disk
after_forget luck (not_forgotten, disk) = (left_failed, disk)
after_forget luck (forgotten none, disk) = (switched_off, disk)
after_forget luck (forgotten (some appid), disk) = (switched_off, remove_data luck appid disk)

unfoldable pub leaving : Luck → Disk → Option Refusal → Left × Disk
leaving luck disk (some why) = (left_refused why, disk)
leaving luck disk none = after_forget luck (forget luck disk)

-- What is known of the queue and of the fiscal documents, as the checks are given it.
unfoldable pub known_queue : Option Fields → Query ℕ → Option ℤ
unfolding int_or
known_queue health queue = int_or (int_of (told health "queued")) (queued_on_disk queue)

unfoldable pub known_fiscal : Option Fields → Query Fiscal → Option (Option ℤ × ℕ)
unfolding fiscal_told
known_fiscal health copy =
    fiscal_told (told health "fiscalPending") (told health "fiscalSessions") copy

unfoldable pub checked_leaving : Luck → Disk → Option ℤ → Option (Option ℤ × ℕ) → Left × Disk
unfolding leaving after_forget
checked_leaving luck disk queued none = (left_crashed, disk)
checked_leaving luck disk queued (some (pending, sessions)) =
    leaving luck disk (check_can_deactivate queued pending sessions)

unfoldable pub deactivating :
    Luck → Option Fields → Query ℕ → Query Fiscal → Disk → Option String → Left × Disk
unfolding checked_leaving
deactivating luck health queue copy disk none = (switched_off, disk)
deactivating luck health queue copy disk (some appid) =
    checked_leaving luck disk (known_queue health queue) (known_fiscal health copy)

-- The route `deactivate`, on what the service answers (`health`, if it does) and what the local copy
-- gives. `luck` is of the first reading of active.json, `luck'` of the rest.
unfoldable pub deactivate :
    Luck → Luck → Option Fields → Query ℕ → Query Fiscal → Disk → Left × Disk
unfolding deactivating
deactivate luck luck' health queue copy disk =
    deactivating luck' health queue copy disk (active_appid luck disk)
