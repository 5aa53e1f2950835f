-- ===== src/Service/Loop.antt =====
-- services/offline_service.py, the supervision loop: `_loop`, `_start`, `_stop_stray`, `_watch`. A phase is
-- a place where the loop waits; a turn wakes it, with what the others called meanwhile and the
-- answers that the code asks for until its next wait. The copying of the output is left out.
use Prim.Native.String.{◌++◌ as ◌<>◌}
use barhandler_manager.Prelude.{
  ℕ, zero, suc, ◌+◌, ◌-◌, Bool, true, false, not, ◌&&◌, ◌||◌, Option, none, some, List, [], ◌∷◌,
  String, ltb, leb, ◌==◌, string_eq, nat_eq, if◌then◌else◌,
}
use barhandler_manager.Prelude.Int.{ℤ, pos}
use barhandler_manager.Prelude.Text.{text}
use barhandler_manager.Prelude.Decimal.{str_int}
use barhandler_manager.Json.{Fields, field, get, int_of}
use barhandler_manager.Service.State.{
  health_misses, start_timeout, stable_after, Setup, Child, Service, fail, stop_process, remember,
  next_wait, config_key, is_name, ours, Call, calls, taken_text, wrong_text,
}

-- What `load_config` gives: a config or none, or it raises `SecretsUnreadable`.
pub data Loaded : Type 0 where
  unreadable : Loaded
  config : Option Fields → Loaded

-- Where the loop waits. `straying` and `polling` keep what their loops hold: the first answer and the
-- rounds that are left, the process and the deadline.
pub data Phase : Type 0 where
  idling unwinding ending done : Phase
  asking spawning : Fields → Phase
  straying : Fields → Fields → ℕ → Phase
  passing : Child → Phase
  polling pausing : Child → ℕ → Phase
  watching checking : ℕ → Phase
  waiting : ℕ → Phase

-- What the loop finds when it wakes: `why` is the text of an exception, `exited` the `returncode` of the
-- process it holds.
pub record Turn (setup : Setup) : Type 0 where
  pub called : List (Call setup)
  pub now : ℕ
  pub loaded : Loaded
  pub missing : List String
  pub health : Option Fields
  pub orphaned : Bool
  pub killed : Bool
  pub spawned : Option ℕ
  pub passed : Bool
  pub why : String
  pub exited : Option ℤ

abbrev pub joined : List String → String
joined [] = ""
joined (p ∷ []) = p
joined (p ∷ ps) = p <> (", " <> joined ps)

-- Where `_start` or `_watch` is over: the loop ends, or stops the process and waits.
unfoldable pub leave : Service → Phase × Service
unfolding stop_process
leave s = if s.stopping then (done, s) else (ending, stop_process s)

-- The numbers of `[]` and the like: whether there is a text
abbrev pub is_set : Option String → Bool
is_set none = false
is_set (some v) = not (v == "")

-- `self._proc is proc`
abbrev pub holds : Option Child → Child → Bool
holds none c = false
holds (some held) c = held.number == c.number

abbrev text_of_code : ℤ → String
text_of_code z = text (str_int z)

-- The process that `_watch` finds gone, and the code in its message
unfoldable pub gone : Option Child → Option ℤ → Option String
gone none code = some "?"
gone (some c) none = none
gone (some c) (some code) = some (text_of_code code)

abbrev pub same_key : Option String → Option String → Bool
same_key none none = true
same_key (some a) (some b) = a == b
same_key a b = false

-- `self.state.started_at or time.monotonic()`
abbrev pub since : Option ℕ → ℕ → ℕ
since none now = now
since (some zero) now = now
since (some moment) now = moment

module _ (setup : Setup) where
  -- `_runtime_ready`, with the paths that do not exist, and the start of what is ready
  unfoldable pub ready : Fields → List String → Service → Phase × Service
  unfolding fail config_key
  ready cfg (p ∷ ps) s = (idling, fail true false ("runtime missing: " <> joined (p ∷ ps)) s)
  ready cfg [] s =
      if is_set setup.expected
      then (
        asking cfg,
        record s { cfg_key = config_key setup (some cfg); stopped_on_purpose = false },
      )
      else (idling, fail true false "the shipped service has no version.txt" s)

  unfoldable pub configured : Loaded → List String → Service → Phase × Service
  unfolding ready
  configured (config (some (field k v fs))) missing s = ready (field k v fs) missing s
  configured _ missing s = (idling, s)

  -- The top of `_loop`
  unfoldable pub top : Turn setup → Service → Phase × Service
  unfolding configured
  top t s = if s.stopping then (done, s) else configured t.loaded t.missing s

  unfoldable pub taken : Fields → Service → Phase × Service
  unfolding fail taken_text leave
  taken other s = leave (fail false false (taken_text setup other) s)

  -- Whether `_stop_stray` goes as far as to wait for the port
  unfoldable pub is_stray : Fields → Turn setup → Bool
  is_stray other t = is_name setup (get other "name") && kills (int_of (get other "pid"))
    where
      kills : Option ℤ → Bool
      kills (some (pos (suc pid))) = not (suc pid == setup.own_pid) && (t.orphaned && t.killed)
      kills pid = false

  unfoldable pub asked_port : Fields → Option Fields → Turn setup → Service → Phase × Service
  unfolding is_stray taken
  asked_port cfg none t s = (spawning cfg, s)
  asked_port cfg (some other) t s =
      if is_stray other t then (straying cfg other 19, s) else taken other s

  unfoldable pub asked : Fields → Turn setup → Service → Phase × Service
  unfolding asked_port leave
  asked cfg t s = if s.stopping then leave s else asked_port cfg t.health t s

  -- A round of `_stop_stray`: the quarter of a second and the question
  unfoldable pub strayed : Fields → Fields → ℕ → Option Fields → Service → Phase × Service
  unfolding taken
  strayed cfg other left none s = (spawning cfg, s)
  strayed cfg other zero (some health) s = taken other s
  strayed cfg other (suc left) (some health) s = (straying cfg other left, s)

  unfoldable pub holding : Fields → ℕ → Service → Service
  holding cfg pid s = record s {
    proc = some (record { number = s.spawned; pid = pid; config = cfg });
    spawned = suc s.spawned;
  }

  unfoldable pub born : Fields → Option ℕ → String → Service → Phase × Service
  unfolding fail leave holding stop_process
  born cfg none why s = leave (fail false true ("could not start: " <> why) s)
  born cfg (some pid) why s =
      let s' = holding cfg pid s in
      if s.stopping
      then (unwinding, stop_process s')
      else (passing (record { number = s.spawned; pid = pid; config = cfg }), s')

  -- The top of the loop that waits for the right version, with the process and its `returncode`
  unfoldable pub poll_alive : Child → ℕ → Option ℤ → Service → Phase × Service
  unfolding leave fail
  poll_alive c deadline none s = (polling c deadline, s)
  poll_alive c deadline (some code) s =
      leave (fail false true ("exited on start with code " <> text_of_code code) s)

  unfoldable pub poll : Child → ℕ → Turn setup → Service → Phase × Service
  unfolding poll_alive
  poll c deadline t s =
      if not (ltb t.now deadline)
      then leave (fail false true "no answer on /health within 30s" s)
      else if s.stopping || (s.stopped_on_purpose || not (holds s.proc c))
      then leave s
      else poll_alive c deadline t.exited s

  unfoldable pub passed_config : Child → Turn setup → Service → Phase × Service
  unfolding poll
  passed_config c t s =
      if t.passed
      then poll c (t.now + start_timeout) t s
      else leave (fail false true ("could not pass the config: " <> t.why) s)

  -- The service is ours and up.
  unfoldable pub up : Child → Fields → ℕ → Service → Service
  unfolding remember
  up c health now s = remember health (record s {
    shown = record s.shown {
      running = true;
      pid = some c.pid;
      version = get health "version";
      started_at = some now;
      extra = none;
    };
  })

  unfoldable pub answered : Child → ℕ → Option Fields → Turn setup → Service → Phase × Service
  unfolding up ours fail wrong_text leave
  answered c deadline none t s = (pausing c deadline, s)
  answered c deadline (some health) t s =
      if ours setup health
      then (watching 0, up c health t.now s)
      else leave (fail false true (wrong_text setup health) s)

  unfoldable pub polled : Child → ℕ → Turn setup → Service → Phase × Service
  unfolding leave answered
  polled c deadline t s =
      if s.stopping || not (holds s.proc c) then leave s else answered c deadline t.health t s

  unfoldable pub key_now : Loaded → Service → Option String
  unfolding config_key
  key_now unreadable s = s.cfg_key
  key_now (config cfg) s = config_key setup cfg

  unfoldable pub watch_key : ℕ → Turn setup → Service → Phase × Service
  unfolding key_now leave
  watch_key misses t s =
      if same_key (key_now t.loaded s) s.cfg_key
      then (checking misses, s)
      else leave (record s { failures = 0 })

  unfoldable pub watch_gone : ℕ → Option String → Turn setup → Service → Phase × Service
  unfolding watch_key fail
  watch_gone misses (some code) t s = leave (fail false true ("exited with code " <> code) s)
  watch_gone misses none t s = watch_key misses t s

  -- `_watch`, from its sleep to its question
  unfoldable pub watched : ℕ → Turn setup → Service → Phase × Service
  unfolding watch_gone gone leave
  watched misses t s =
      if s.stopping
      then leave s
      else if s.stopped_on_purpose
      then leave (record s { stopped_on_purpose = false })
      else watch_gone misses (gone s.proc t.exited) t s

  unfoldable pub still : ℕ → Service → Phase × Service
  still misses s = if s.stopping then (done, s) else (watching misses, s)

  unfoldable pub settled_down : ℕ → Service → Service
  settled_down now s =
      if not (s.failures == 0) && leb stable_after (now - since s.shown.started_at now)
      then record s { failures = 0 }
      else s

  unfoldable pub missed : ℕ → Service → Phase × Service
  unfolding fail leave still
  missed misses s =
      if leb health_misses misses
      then leave (
          fail false true
            ("did not answer /health " <> (text (str_int (pos misses)) <> " times in a row")) s)
      else still misses s

  unfoldable pub checked : ℕ → Option Fields → ℕ → Service → Phase × Service
  unfolding ours still settled_down remember missed
  checked misses none now s = missed (suc misses) s
  checked misses (some health) now s =
      if ours setup health
      then still 0 (settled_down now (remember health s))
      else missed (suc misses) s

  unfoldable pub wake : Phase → Turn setup → Service → Phase × Service
  unfolding top asked strayed born leave passed_config polled poll watched checked next_wait
  wake idling t s = top t s
  wake (asking cfg) t s = asked cfg t s
  wake (straying cfg other left) t s = strayed cfg other left t.health s
  wake (spawning cfg) t s = born cfg t.spawned t.why s
  wake unwinding t s = leave s
  wake (passing c) t s = passed_config c t s
  wake (polling c deadline) t s = polled c deadline t s
  wake (pausing c deadline) t s = poll c deadline t s
  wake (watching misses) t s = watched misses t s
  wake (checking misses) t s = checked misses t.health t.now s
  wake ending t s = (waiting (next_wait s), s)
  wake (waiting time) t s = top t s
  wake done t s = (done, s)

  -- What happens to the loop: it wakes, or its task is cancelled, when `run_forever` stops the process.
  pub data Event : Type 0 where
    wakes : Turn setup → Event
    cancelled : List (Call setup) → Event

  unfoldable pub step : Event → Phase × Service → Phase × Service
  unfolding wake calls stop_process
  step (wakes t) (p, s) = wake p t (calls setup t.called s)
  step (cancelled called) (p, s) = (done, stop_process (calls setup called s))

  unfoldable pub run : List Event → Phase × Service → Phase × Service
  unfolding step
  run [] now = now
  run (e ∷ es) now = run es (step e now)

  -- `run_forever` begins at the top of the loop, as after a sleep.
  abbrev pub begun : Service → Phase × Service
  begun s = (idling, s)
