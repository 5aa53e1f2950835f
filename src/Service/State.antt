-- ===== src/Service/State.antt =====
-- services/offline_service.py, what `OfflineService` holds, and the methods that the supervision loop and
-- the others call. Times are in milliseconds.
use Prim.Native.String.{◌++◌ as ◌<>◌}
use barhandler_manager.Prelude.{
  ℕ, zero, suc, Bool, true, false, ◌&&◌, Option, none, some, List, [], ◌∷◌, String, ◌==◌, string_eq,
  nat_eq, if◌then◌else◌,
}
use barhandler_manager.Prelude.Int.{pos}
use barhandler_manager.Prelude.Text.{text}
use barhandler_manager.Prelude.Decimal.{str_int}
use barhandler_manager.Json.{Json, Fields, null, bool, num, str, obj, end, field, get, truthy}
use barhandler_manager.Privat.Outcome.{Python, str_of_value}

-- `PRODUCTS["petshandler"].service_name`
abbrev pub service_name : String
service_name = "petshandler-offline"

abbrev pub health_misses : ℕ
health_misses = 3

abbrev pub start_timeout : ℕ
start_timeout = 30_000

abbrev pub stable_after : ℕ
stable_after = 300_000

-- What the object is made with, and the parts of Python that its texts need: `json.dumps(…,
-- sort_keys=True)` and the texts of values.
pub record Setup : Type 0 where
  pub python : Python
  pub sorted_dumps : Fields → String
  pub expected : Option String
  pub port : ℕ
  pub own_pid : ℕ

-- A process that was started: its number among all that ever were, its pid, and the config that its
-- line on stdin holds.
pub record Child : Type 0 where
  pub number : ℕ
  pub pid : ℕ
  pub config : Fields

-- What the dashboard is shown of the answers of /health
pub record Extra : Type 0 where
  pub queued : Json
  pub data_as_of : Json
  pub needs_pairing : Bool
  pub shift_open : Bool
  pub fiscal_pending : Json
  pub appid : Json

-- `OfflineServiceState`
pub record OfflineServiceState : Type 0 where
  pub running : Bool
  pub pid : Option ℕ
  pub version : Json
  pub restarts : ℕ
  pub last_error : Option String
  pub started_at : Option ℕ
  pub extra : Option Extra

-- `OfflineService`; `spawned` counts the processes ever started, and `let_go` holds the numbers of those
-- that `_stop_process` took, which the code does not keep.
pub record Service : Type 0 where
  pub proc : Option Child
  pub cfg_key : Option String
  pub stopped_on_purpose : Bool
  pub stopping : Bool
  pub failures : ℕ
  pub shown : OfflineServiceState
  pub spawned : ℕ
  pub let_go : List ℕ

abbrev pub created : Service
created = record {
  proc = none;
  cfg_key = none;
  stopped_on_purpose = false;
  stopping = false;
  failures = 0;
  shown = record {
    running = false;
    pid = none;
    version = null;
    restarts = 0;
    last_error = none;
    started_at = none;
    extra = none;
  };
  spawned = 0;
  let_go = [];
}

abbrev pub said : Option String → String → Bool
said none why = false
said (some last) why = last == why

-- `_fail`
unfoldable pub fail : Bool → Bool → String → Service → Service
fail once started why s = if once && said s.shown.last_error why then s else record s {
  failures = suc s.failures;
  shown = record s.shown {
    restarts = if started then suc s.shown.restarts else s.shown.restarts;
    last_error = some why;
  };
}

abbrev pub with_child : Option Child → List ℕ → List ℕ
with_child none ns = ns
with_child (some c) ns = c.number ∷ ns

-- `_stop_process`, up to its first wait; `End` is the rest.
unfoldable pub stop_process : Service → Service
stop_process s = record s {
  proc = none;
  let_go = with_child s.proc s.let_go;
  shown = record s.shown { running = false; pid = none };
}

-- How a wait for the end of the process ends; `broken` is a `ConnectionError`.
pub data Wait : Type 0 where
  over late broken cancelled : Wait

-- What becomes of it: it went by itself, was made to go, could not be killed, or was killed as the one
-- who stopped it was cancelled.
pub data Fate : Type 0 where
  left terminated survives killed : Fate

terminating : Wait → Bool → Fate
terminating over dies = terminated
terminating late true = terminated
terminating late false = survives
terminating broken true = terminated
terminating broken false = survives
terminating cancelled dies = survives

-- `_end`: stdin is closed, then the process terminated (`broken` where that is refused), then killed. A
-- cancellation after the first wait leaves it.
unfoldable pub end_process : Wait → Wait → Bool → Fate
unfolding terminating
end_process over term dies = left
end_process cancelled term dies = killed
end_process polite term dies = terminating term dies

-- A value that is an `int` and no `bool`, or `None`
abbrev whole : Json → Json
whole (num z) = num z
whole v = null

abbrev is_true : Json → Bool
is_true (bool true) = true
is_true v = false

-- `_remember`
unfoldable pub remember : Fields → Service → Service
remember health s = record s {
  shown = record s.shown {
    extra = some (record {
      queued = get health "queued";
      data_as_of = get health "dataAsOf";
      needs_pairing = truthy (get health "needsPairing");
      shift_open = is_true (get health "shiftOpen");
      fiscal_pending = whole (get health "fiscalPending");
      appid = get health "appid";
    });
  };
}

abbrev pub backoff : ℕ → ℕ
backoff zero = 2000
backoff (suc zero) = 2000
backoff (suc (suc zero)) = 5000
backoff (suc (suc (suc zero))) = 15_000
backoff (suc (suc (suc (suc zero)))) = 30_000
backoff _ = 60_000

-- `_next_wait`: the wait of the failures so far, of which there are at most five different ones
unfoldable pub next_wait : Service → ℕ
next_wait s = backoff s.failures

module _ (setup : Setup) where
  -- `_config_key`
  unfoldable pub config_key : Option Fields → Option String
  config_key none = none
  config_key (some end) = none
  config_key (some (field k v fs)) = some (setup.sorted_dumps (field k v fs))

  -- `v == expected`, the expected version being a text or `None`
  abbrev pub is_version : Option String → Json → Bool
  is_version (some wanted) (str v) = v == wanted
  is_version none null = true
  is_version wanted v = false

  abbrev pub is_name : Json → Bool
  is_name (str v) = v == service_name
  is_name v = false

  -- `_ours`
  unfoldable pub ours : Fields → Bool
  ours health = is_name (get health "name") && is_version setup.expected (get health "version")

  -- What others call while the loop waits: `stop`, `stop_service`, `refresh` with what it is answered.
  pub data Call : Type 0 where
    stops switches_off : Call
    refreshes : Option Fields → Call

  unfoldable pub refresh : Option Fields → Service → Service
  unfolding ours remember
  refresh none s = s
  refresh (some health) s = if ours health then remember health s else s

  -- What a question over HTTP ends with: a JSON body, no time left, or another failure
  pub data Reply : Type 0 where
    body : Json → Reply
    timed_out failed : Reply

  -- `_fetch_health`
  unfoldable pub fetch_health : Reply → Option Fields
  fetch_health (body (obj fs)) = some fs
  fetch_health reply = none

  -- `_post_sync`
  unfoldable pub post_sync : Reply → Option Fields
  post_sync (body (obj fs)) = some fs
  post_sync timed_out = some (field "ran" (str "running") (field "failed" (bool false) end))
  post_sync reply = none

  refreshed : Option Fields → Option Fields → Service → Option Fields × Service
  unfolding refresh
  refreshed none health s = (none, s)
  refreshed (some ran) health s = (some ran, refresh health s)

  -- `sync_now`, with what was answered to the sync and to the question of /health behind it
  unfoldable pub sync_now : Reply → Option Fields → Service → Option Fields × Service
  unfolding refreshed post_sync
  sync_now reply health s =
      if s.shown.running then refreshed (post_sync reply) health s else (none, s)

  unfoldable pub call : Call → Service → Service
  unfolding stop_process refresh
  call stops s = stop_process (record s { stopping = true })
  call switches_off s = stop_process (record s { stopped_on_purpose = true })
  call (refreshes health) s = refresh health s

  unfoldable pub calls : List Call → Service → Service
  unfolding call
  calls [] s = s
  calls (c ∷ cs) s = calls cs (call c s)

  -- The texts of `_fail`
  abbrev pub value : Fields → String → String
  value fs k = str_of_value setup.python (get fs k)

  abbrev pub number_text : ℕ → String
  number_text n = text (str_int (pos n))

  abbrev wanted_version : String
  wanted_version = elim setup.expected [ none ↦ "None" | some v ↦ v ]

  unfoldable pub taken_text : Fields → String
  taken_text other =
      "port "
      <> (number_text setup.port
          <> (" is taken by "
              <> (value other "name"
                  <> (" "
                      <> (value other "version"
                          <> (" (want " <> (service_name <> (" " <> (wanted_version <> ")")))))))))

  unfoldable pub wrong_text : Fields → String
  wrong_text health =
      "answers as "
      <> (value health "name"
          <> (" "
              <> (value health "version"
                  <> (", want " <> (service_name <> (" " <> wanted_version))))))
