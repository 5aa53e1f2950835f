-- ===== src/Service/Ends.antt =====
-- Once it was told to stop, the supervision loop is soon over.
use barhandler_manager.Prelude.{
  ℕ, zero, suc, ◌+◌, ◌-◌, ◌≤◌, ◌≡◌, refl, subst, Bool, true, false, not, ◌&&◌, ◌||◌, Option, none,
  some, List, [], ◌∷◌, String, map, length, ltb, leb, ◌==◌, nat_eq, arith,
}
use barhandler_manager.Json.{Fields}
use barhandler_manager.Service.State.{
  start_timeout, stable_after, health_misses, Setup, Child, Service, created, said, fail, remember,
  ours, Call, stops, switches_off, refreshes, refresh, call, calls, taken_text,
}
use barhandler_manager.Service.Loop.{
  Phase, idling, unwinding, ending, done, asking, spawning, straying, passing, polling, pausing,
  watching, checking, waiting, Turn, leave, holds, since, top, asked, taken, strayed, born, poll,
  passed_config, polled, watched, still, settled_down, missed, checked, wake, Event, wakes, step,
  run, begun,
}
use barhandler_manager.Service.Sound.{if-keeps, Supervised, Held}
use barhandler_manager.Service.Lives.{run-Supervised, run-kept}

-- The turns that the loop needs at most, once it is to stop
unfoldable pub rank : Phase → ℕ
rank done = 0
rank ending = 2
rank (spawning cfg) = 2
rank (straying cfg other left) = left + 3
rank _ = 1

module _ (setup : Setup) where
  Ended : Phase × Service → Type 0
  Ended now = (now.0 ≡ done) × (now.1.stopping ≡ true)

  Nearer : ℕ → Phase × Service → Type 0
  Nearer n now = (rank now.0 ≤ n) × (now.1.stopping ≡ true)

  ended : (n : ℕ) (now : Phase × Service) → Ended now → Nearer n now
  unfolding Ended Nearer rank
  ended n now (over, stops') = ground (arith, over, stops')

  leave-Ended : (s : Service) → s.stopping ≡ true → Ended (leave s)
  unfolding leave Ended
  leave-Ended s h = if-keeps Ended s.stopping _ _ (λ e. (refl, h)) (λ e. absurd (cc (h, e)))

  failed-Ended :
      (once started : Bool) (why : String) (s : Service)
      → s.stopping ≡ true
      → Ended (leave (fail once started why s))
  unfolding fail
  failed-Ended once started why s h =
      if-keeps (λ x. Ended (leave x)) (once && said s.shown.last_error why) s _
        (λ e. leave-Ended s h) (λ e. leave-Ended _ h)

  call_stopping :
      (c : Call setup) (s : Service) → s.stopping ≡ true → (call setup c s).stopping ≡ true
  unfolding call refresh remember
  call_stopping stops s h = refl
  call_stopping switches_off s h = h
  call_stopping (refreshes none) s h = h
  call_stopping (refreshes (some health)) s h =
      if-keeps (λ (x : Service). x.stopping ≡ true) (ours setup health) _ _ (λ e. h) (λ e. h)

  calls_stopping :
      (cs : List (Call setup)) (s : Service)
      → s.stopping ≡ true
      → (calls setup cs s).stopping ≡ true
  unfolding calls
  calls_stopping [] s h = h
  calls_stopping (c ∷ cs) s h = calls_stopping cs (call setup c s) (call_stopping c s h)

  top-Ended : (t : Turn setup) (s : Service) → s.stopping ≡ true → Ended (top setup t s)
  unfolding top Ended
  top-Ended t s h = if-keeps Ended s.stopping _ _ (λ e. (refl, h)) (λ e. absurd (cc (h, e)))

  strayed-Nearer :
      (cfg other : Fields) (left : ℕ) (health : Option Fields) (s : Service)
      → s.stopping ≡ true
      → Nearer (left + 2) (strayed setup cfg other left health s)
  unfolding strayed taken Nearer rank
  strayed-Nearer cfg other left none s h = (omega arith, h)
  strayed-Nearer cfg other zero (some health) s h =
      ended 2 _ (failed-Ended false false (taken_text setup other) s h)
  strayed-Nearer cfg other (suc left) (some health) s h = (omega arith, h)

  born-Nearer :
      (cfg : Fields) (pid : Option ℕ) (why : String) (s : Service)
      → s.stopping ≡ true
      → Nearer 1 (born setup cfg pid why s)
  unfolding born Nearer rank
  born-Nearer cfg none why s h = ended 1 _ (failed-Ended false true _ s h)
  born-Nearer cfg (some pid) why s h =
      if-keeps (Nearer 1) s.stopping _ _ (λ e. (omega arith, h)) (λ e. absurd (cc (h, e)))

  not_either : (a b : Bool) → a ≡ true → (a || b) ≡ false → ⊥
  not_either true b h e = cc e
  not_either false b h e = cc h

  poll-Ended :
      (c : Child) (deadline : ℕ) (t : Turn setup) (s : Service)
      → s.stopping ≡ true
      → Ended (poll setup c deadline t s)
  unfolding poll
  poll-Ended c deadline t s h =
      if-keeps Ended (not (ltb t.now deadline)) _ _ (λ e. failed-Ended false true _ s h)
        (λ e.
          if-keeps Ended (s.stopping || (s.stopped_on_purpose || not (holds s.proc c))) _ _
            (λ e'. leave-Ended s h)
            (λ e'.
              absurd (not_either s.stopping (s.stopped_on_purpose || not (holds s.proc c)) h e')))

  still-Ended : (misses : ℕ) (s : Service) → s.stopping ≡ true → Ended (still setup misses s)
  unfolding still Ended
  still-Ended misses s h = if-keeps Ended s.stopping _ _ (λ e. (refl, h)) (λ e. absurd (cc (h, e)))

  missed-Ended : (misses : ℕ) (s : Service) → s.stopping ≡ true → Ended (missed setup misses s)
  unfolding missed
  missed-Ended misses s h =
      if-keeps Ended (leb health_misses misses) _ _ (λ e. failed-Ended false true _ s h)
        (λ e. still-Ended misses s h)

  settled_stopping :
      (now : ℕ) (s : Service) → s.stopping ≡ true → (settled_down setup now s).stopping ≡ true
  unfolding settled_down
  settled_stopping now s h =
      if-keeps (λ (x : Service). x.stopping ≡ true)
        (not (s.failures == 0) && leb stable_after (now - since s.shown.started_at now)) _ _
        (λ e. h) (λ e. h)

  checked-Ended :
      (misses : ℕ) (health : Option Fields) (now : ℕ) (s : Service)
      → s.stopping ≡ true
      → Ended (checked setup misses health now s)
  unfolding checked remember
  checked-Ended misses none now s h = missed-Ended (suc misses) s h
  checked-Ended misses (some health) now s h =
      if-keeps Ended (ours setup health) _ _
        (λ e.
          still-Ended 0 (settled_down setup now (remember health s))
            (settled_stopping now (remember health s) h))
        (λ e. missed-Ended (suc misses) s h)

  wake-Nearer :
      (p : Phase) (t : Turn setup) (s : Service)
      → s.stopping ≡ true
      → Nearer (rank p - 1) (wake setup p t s)
  unfolding wake rank Nearer asked passed_config polled watched
  wake-Nearer idling t s h = ended 0 _ (top-Ended t s h)
  wake-Nearer (waiting time) t s h = ended 0 _ (top-Ended t s h)
  wake-Nearer (asking cfg) t s h =
      ended 0 _ (if-keeps Ended s.stopping _ _ (λ e. leave-Ended s h) (λ e. absurd (cc (h, e))))
  wake-Nearer (straying cfg other left) t s h =
      let (near, stops') = strayed-Nearer cfg other left t.health s h in (omega arith, stops')
  wake-Nearer (spawning cfg) t s h = born-Nearer cfg t.spawned t.why s h
  wake-Nearer unwinding t s h = ended 0 _ (leave-Ended s h)
  wake-Nearer (passing c) t s h = ended 0 _ (
      if-keeps Ended t.passed _ _ (λ e. poll-Ended c (t.now + start_timeout) t s h)
        (λ e. failed-Ended false true _ s h))
  wake-Nearer (polling c deadline) t s h = ended 0 _ (
      if-keeps Ended (s.stopping || not (holds s.proc c)) _ _ (λ e. leave-Ended s h)
        (λ e. absurd (not_either s.stopping (not (holds s.proc c)) h e)))
  wake-Nearer (pausing c deadline) t s h = ended 0 _ (poll-Ended c deadline t s h)
  wake-Nearer (watching misses) t s h =
      ended 0 _ (if-keeps Ended s.stopping _ _ (λ e. leave-Ended s h) (λ e. absurd (cc (h, e))))
  wake-Nearer (checking misses) t s h = ended 0 _ (checked-Ended misses t.health t.now s h)
  wake-Nearer ending t s h = (omega arith, h)
  wake-Nearer done t s h = (omega arith, h)

  wakes-Nearer :
      (ts : List (Turn setup)) (now : Phase × Service)
      → now.1.stopping ≡ true
      → Nearer (rank now.0 - length ts) (run setup (map wakes ts) now)
  unfolding run step Nearer
  wakes-Nearer [] (p, s) h = (omega arith, h)
  wakes-Nearer (t ∷ ts) (p, s) h =
      let s' = calls setup t.called s in
      let (near, h') = wake-Nearer p t s' (calls_stopping t.called s h) in
      let (near', h'') = wakes-Nearer ts (wake setup p t s') h' in (omega arith, h'')

  over : (now : Phase × Service) → rank now.0 ≤ 0 → now.0 ≡ done
  unfolding rank
  over (idling, s) h = absurd (omega arith)
  over (unwinding, s) h = absurd (omega arith)
  over (ending, s) h = absurd (omega arith)
  over (done, s) h = refl
  over (asking cfg, s) h = absurd (omega arith)
  over (spawning cfg, s) h = absurd (omega arith)
  over (straying cfg other left, s) h = absurd (omega arith)
  over (passing c, s) h = absurd (omega arith)
  over (polling c deadline, s) h = absurd (omega arith)
  over (pausing c deadline, s) h = absurd (omega arith)
  over (watching misses, s) h = absurd (omega arith)
  over (checking misses, s) h = absurd (omega arith)
  over (waiting time, s) h = absurd (omega arith)

  rank_bound : (now : Phase × Service) → Supervised setup now → rank now.0 ≤ 22
  unfolding rank Supervised Held
  rank_bound (straying cfg other left, s) (sound, (free, same, short)) = omega arith
  rank_bound (idling, s) h = omega arith
  rank_bound (unwinding, s) h = omega arith
  rank_bound (ending, s) h = omega arith
  rank_bound (done, s) h = omega arith
  rank_bound (asking cfg, s) h = omega arith
  rank_bound (spawning cfg, s) h = omega arith
  rank_bound (passing c, s) h = omega arith
  rank_bound (polling c deadline, s) h = omega arith
  rank_bound (pausing c deadline, s) h = omega arith
  rank_bound (watching misses, s) h = omega arith
  rank_bound (checking misses, s) h = omega arith
  rank_bound (waiting time, s) h = omega arith

  done_free : (now : Phase × Service) → now.0 ≡ done → Supervised setup now → now.1.proc ≡ none
  unfolding Supervised Held
  done_free (p, s) e (sound, held) = subst (λ q. Held setup q s.proc s.cfg_key) e held

  -- From the moment that `stop` was called, in any life, 22 turns of the loop are enough: whatever they
  -- bring, the loop is over, and no process is held.
  pub stop_ends :
      (es : List (Event setup)) (ts : List (Turn setup))
      → (run setup es (begun setup created)).1.stopping ≡ true
      → 22 ≤ length ts
      → ((run setup (map wakes ts) (run setup es (begun setup created))).0 ≡ done)
        × ((run setup (map wakes ts) (run setup es (begun setup created))).1.proc ≡ none)
  unfolding Nearer
  stop_ends es ts told enough =
      let now = run setup es (begun setup created) in
      let supervised = run-Supervised setup es in
      let bound = rank_bound now supervised in
      let (near, h) = wakes-Nearer ts now told in
      let later = run setup (map wakes ts) now in
      let finished = over later (omega arith) in
      (finished, done_free later finished (run-kept setup (map wakes ts) now supervised))
