-- ===== src/Service/Lives.antt =====
-- Every turn of the supervision loop keeps what `Supervised` says, and so does any life.
use barhandler_manager.Prelude.{
  ℕ, suc, ◌+◌, ◌-◌, ◌≡◌, refl, inl, inr, Bool, true, false, not, ◌&&◌, ◌||◌, Option, none, some,
  List, [], ◌∷◌, String, ltb, leb, ◌==◌, nat_eq,
}
use barhandler_manager.Prelude.Int.{ℤ}
use barhandler_manager.Json.{Json, Fields, get}
use barhandler_manager.Service.State.{
  start_timeout, stable_after, health_misses, Setup, Child, Service, created, stop_process,
  remember, config_key, ours, is_version, is_name, calls,
}
use barhandler_manager.Service.Loop.{
  Phase, idling, unwinding, ending, done, asking, spawning, straying, passing, polling, pausing,
  watching, checking, waiting, Turn, holds, gone, since, same_key, asked, holding, born, poll_alive,
  poll, passed_config, up, answered, polled, key_now, watch_key, watch_gone, watched, still,
  settled_down, missed, checked, wake, Event, wakes, cancelled, step, run, begun,
}
use barhandler_manager.Service.Sound.{
  if-keeps, Owned, Honest, Sound, Held, Supervised, stop_process-owned, stop_process-Sound,
  free_when, leave-Supervised, failed-Supervised, calls-Supervised, top-Supervised,
  asked-Supervised, strayed-Supervised,
}

module _ (setup : Setup) where
  held-Owned :
      (child : Option Child) (spawned pid : ℕ) (cfg : Fields) (let_go : List ℕ)
      (key : Option String)
      → child ≡ none
      → key ≡ config_key setup (some cfg)
      → Owned setup child spawned let_go key
      → Owned setup
          (some (record { number = spawned; pid = pid; config = cfg }))
          (suc spawned)
          let_go
          key
  unfolding Owned
  held-Owned none spawned pid cfg let_go key free same h = (refl, h, same)
  held-Owned (some c) spawned pid cfg let_go key free same h = absurd (cc free)

  not_running :
      (child other : Option Child) (running : Bool) (version : Json)
      → child ≡ none
      → Honest setup child running version
      → Honest setup other running version
  unfolding Honest
  not_running child other false version free h = tt
  not_running none other true version free h = absurd h
  not_running (some c) other true version free h = absurd (cc free)

  born-Supervised :
      (cfg : Fields) (pid : Option ℕ) (why : String) (s : Service)
      → Supervised setup (spawning cfg, s)
      → Supervised setup (born setup cfg pid why s)
  unfolding born Supervised holding
  born-Supervised cfg none why s (sound, held) = failed-Supervised setup false true _ s sound
  born-Supervised cfg (some pid) why s ((owned, honest, quiet), (free, same)) =
      let owned' = held-Owned s.proc s.spawned pid cfg s.let_go s.cfg_key free same owned in
      let c : Child = record { number = s.spawned; pid = pid; config = cfg } in
      if-keeps (Supervised setup) s.stopping _ _
        (λ e. (
          (
            stop_process-owned setup (some c) (suc s.spawned) s.let_go s.cfg_key owned',
            tt,
            inr refl,
          ),
          refl,
        ))
        (λ e. (
          (owned', not_running s.proc (some c) s.shown.running s.shown.version free honest, inl e),
          inr refl,
        ))

  pub poll_alive-Supervised :
      (c : Child) (deadline : ℕ) (exited : Option ℤ) (s : Service)
      → Supervised setup (polling c deadline, s)
      → Supervised setup (poll_alive setup c deadline exited s)
  unfolding poll_alive Supervised
  poll_alive-Supervised c deadline none s h = h
  poll_alive-Supervised c deadline (some code) s h = failed-Supervised setup false true _ s h.0

  poll-Supervised :
      (c : Child) (deadline : ℕ) (t : Turn setup) (s : Service)
      → Supervised setup (polling c deadline, s)
      → Supervised setup (poll setup c deadline t s)
  unfolding poll Supervised
  poll-Supervised c deadline t s h =
      if-keeps (Supervised setup) (not (ltb t.now deadline)) _ _
        (λ e. failed-Supervised setup false true _ s h.0)
        (λ e.
          if-keeps (Supervised setup) (s.stopping || (s.stopped_on_purpose || not (holds s.proc c)))
            _ _ (λ e'. leave-Supervised setup s h.0)
            (λ e'. poll_alive-Supervised c deadline t.exited s h))

  passed-Supervised :
      (c : Child) (t : Turn setup) (s : Service)
      → Supervised setup (passing c, s)
      → Supervised setup (passed_config setup c t s)
  unfolding passed_config Supervised
  passed-Supervised c t s h =
      if-keeps (Supervised setup) t.passed _ _
        (λ e. poll-Supervised c (t.now + start_timeout) t s h)
        (λ e. failed-Supervised setup false true _ s h.0)

  up-Honest :
      (child : Option Child) (c : Child) (version : Json)
      → holds child c ≡ true
      → is_version setup setup.expected version ≡ true
      → Honest setup child true version
  unfolding Honest
  up-Honest none c version held h = absurd (cc held)
  up-Honest (some held) c version e h = h

  second : (a b : Bool) → (a && b) ≡ true → b ≡ true
  second true b h = h
  second false b h = absurd (cc h)

  answered-Supervised :
      (c : Child) (deadline : ℕ) (health : Option Fields) (t : Turn setup) (s : Service)
      → holds s.proc c ≡ true
      → Supervised setup (polling c deadline, s)
      → Supervised setup (answered setup c deadline health t s)
  unfolding answered Supervised up remember ours
  answered-Supervised c deadline none t s held h = h
  answered-Supervised c deadline (some health) t s held ((owned, honest, quiet), place) =
      if-keeps (Supervised setup) (ours setup health) _ _
        (λ e. (
          (
            owned,
            up-Honest s.proc c (get health "version") held (
                second (is_name setup (get health "name"))
                  (is_version setup setup.expected (get health "version")) e),
            quiet,
          ),
          tt,
        ))
        (λ e. failed-Supervised setup false true _ s (owned, honest, quiet))

  neither : (a b : Bool) → (a || not b) ≡ false → b ≡ true
  neither a true h = refl
  neither true false h = absurd (cc h)
  neither false false h = absurd (cc h)

  polled-Supervised :
      (c : Child) (deadline : ℕ) (t : Turn setup) (s : Service)
      → Supervised setup (polling c deadline, s)
      → Supervised setup (polled setup c deadline t s)
  unfolding polled Supervised
  polled-Supervised c deadline t s h =
      if-keeps (Supervised setup) (s.stopping || not (holds s.proc c)) _ _
        (λ e. leave-Supervised setup s h.0)
        (λ e. answered-Supervised c deadline t.health t s (neither s.stopping (holds s.proc c) e) h)

  watch_gone-Supervised :
      (misses : ℕ) (code : Option String) (t : Turn setup) (s : Service)
      → Sound setup s
      → Supervised setup (watch_gone setup misses code t s)
  unfolding watch_gone watch_key Supervised
  watch_gone-Supervised misses (some code) t s sound = failed-Supervised setup false true _ s sound
  watch_gone-Supervised misses none t s sound =
      if-keeps (Supervised setup) (same_key (key_now setup t.loaded s) s.cfg_key) _ _
        (λ e. (sound, tt)) (λ e. leave-Supervised setup (record s { failures = 0 }) sound)

  watched-Supervised :
      (misses : ℕ) (t : Turn setup) (s : Service)
      → Sound setup s
      → Supervised setup (watched setup misses t s)
  unfolding watched Sound
  watched-Supervised misses t s sound =
      if-keeps (Supervised setup) s.stopping _ _ (λ e. leave-Supervised setup s sound)
        (λ e.
          if-keeps (Supervised setup) s.stopped_on_purpose _ _
            (λ e'. leave-Supervised setup (record s { stopped_on_purpose = false }) sound)
            (λ e'. watch_gone-Supervised misses (gone s.proc t.exited) t s sound))

  still-Supervised :
      (misses : ℕ) (s : Service) → Sound setup s → Supervised setup (still setup misses s)
  unfolding still Supervised
  still-Supervised misses s (owned, honest, quiet) =
      if-keeps (Supervised setup) s.stopping _ _
        (λ e. ((owned, honest, quiet), free_when setup s.stopping s.proc quiet e))
        (λ e. ((owned, honest, quiet), tt))

  missed-Supervised :
      (misses : ℕ) (s : Service) → Sound setup s → Supervised setup (missed setup misses s)
  unfolding missed
  missed-Supervised misses s sound =
      if-keeps (Supervised setup) (leb health_misses misses) _ _
        (λ e. failed-Supervised setup false true _ s sound) (λ e. still-Supervised misses s sound)

  settled-Sound : (now : ℕ) (s : Service) → Sound setup s → Sound setup (settled_down setup now s)
  unfolding settled_down Sound
  settled-Sound now s sound =
      if-keeps (Sound setup)
        (not (s.failures == 0) && leb stable_after (now - since s.shown.started_at now)) _ _
        (λ e. sound) (λ e. sound)

  checked-Supervised :
      (misses : ℕ) (health : Option Fields) (now : ℕ) (s : Service)
      → Sound setup s
      → Supervised setup (checked setup misses health now s)
  unfolding checked remember Sound
  checked-Supervised misses none now s sound = missed-Supervised (suc misses) s sound
  checked-Supervised misses (some health) now s sound =
      if-keeps (Supervised setup) (ours setup health) _ _
        (λ e.
          still-Supervised 0 (settled_down setup now (remember health s))
            (settled-Sound now (remember health s) sound))
        (λ e. missed-Supervised (suc misses) s sound)

  wake-Supervised :
      (p : Phase) (t : Turn setup) (s : Service)
      → Supervised setup (p, s)
      → Supervised setup (wake setup p t s)
  unfolding wake Supervised asked
  wake-Supervised idling t s (sound, free) = top-Supervised setup t s free sound
  wake-Supervised (asking cfg) t s h =
      if-keeps (Supervised setup) s.stopping _ _ (λ e. leave-Supervised setup s h.0)
        (λ e. asked-Supervised setup cfg t.health t s h)
  wake-Supervised (straying cfg other left) t s h =
      strayed-Supervised setup cfg other left t.health s h
  wake-Supervised (spawning cfg) t s h = born-Supervised cfg t.spawned t.why s h
  wake-Supervised unwinding t s (sound, free) = leave-Supervised setup s sound
  wake-Supervised (passing c) t s h = passed-Supervised c t s h
  wake-Supervised (polling c deadline) t s h = polled-Supervised c deadline t s h
  wake-Supervised (pausing c deadline) t s h = poll-Supervised c deadline t s h
  wake-Supervised (watching misses) t s (sound, place) = watched-Supervised misses t s sound
  wake-Supervised (checking misses) t s (sound, place) =
      checked-Supervised misses t.health t.now s sound
  wake-Supervised ending t s h = h
  wake-Supervised (waiting time) t s (sound, free) = top-Supervised setup t s free sound
  wake-Supervised done t s h = h

  step-Supervised :
      (e : Event setup) (now : Phase × Service)
      → Supervised setup now
      → Supervised setup (step setup e now)
  unfolding step Supervised
  step-Supervised (wakes t) (p, s) h =
      wake-Supervised p t (calls setup t.called s) (calls-Supervised setup p t.called s h)
  step-Supervised (cancelled called) (p, s) h = cancelled_at (calls-Supervised setup p called s h)
    where
      cancelled_at :
          Supervised setup (p, calls setup called s)
          → Supervised setup (done, stop_process (calls setup called s))
      cancelled_at (sound, place) = (stop_process-Sound setup (calls setup called s) sound, refl)

  pub run-kept :
      (es : List (Event setup)) (now : Phase × Service)
      → Supervised setup now
      → Supervised setup (run setup es now)
  unfolding run
  run-kept [] now h = h
  run-kept (e ∷ es) now h = run-kept es (step setup e now) (step-Supervised e now h)

  -- Over any life of the supervisor (turns of its loop with any answers, calls of the others, a
  -- cancellation, in any order): of the processes that were ever started only the last may be held, with
  -- the config of the present key, and each other one was let go, in the order of their start; none is
  -- held where the loop starts one, or waits to, or is over, nor once it was told to stop; and the
  -- state says that the service runs only of a held process that answered as the shipped version.
  pub run-Supervised :
      (es : List (Event setup)) → Supervised setup (run setup es (begun setup created))
  unfolding Supervised Sound Owned Honest Held
  run-Supervised es = run-kept es (begun setup created) ((refl, tt, inl refl), refl)
