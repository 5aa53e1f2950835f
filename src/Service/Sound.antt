-- ===== src/Service/Sound.antt =====
-- Over any life of the supervisor one process is held at most, and every other one was let go.
use barhandler_manager.Prelude.{
  ℕ, zero, suc, ◌≤◌, ◌≡◌, refl, ◌⊎◌, inl, inr, Bool, true, false, ◌&&◌, Option, none, some, List,
  [], ◌∷◌, String, nat_eq, if◌then◌else◌, arith,
}
use barhandler_manager.Json.{Json, Fields, field, end}
use barhandler_manager.Service.State.{
  Setup, Child, Service, said, fail, stop_process, remember, with_child, config_key, ours,
  is_version, Call, stops, switches_off, refreshes, refresh, call, calls, taken_text,
}
use barhandler_manager.Service.Loop.{
  Loaded, unreadable, config, Phase, idling, unwinding, ending, done, asking, spawning, straying,
  passing, polling, pausing, watching, checking, waiting, Turn, is_set, leave, ready, configured,
  top, taken, is_stray, asked_port, strayed,
}

pub if-keeps :
    {A : Type 0} (P : A → Type 0) (b : Bool) (x y : A)
    → (b ≡ true → P x)
    → (b ≡ false → P y)
    → P (if b then x else y)
if-keeps P true x y left right = left refl
if-keeps P false x y left right = right refl

-- The numbers below `n`, the last first
abbrev pub below : ℕ → List ℕ
below zero = []
below (suc n) = n ∷ below n

module _ (setup : Setup) where
  -- Of the processes that were ever started, the last may be held, with the config of the present key;
  -- every other one was let go, in the order of their start. The state says that the service runs only
  -- of a process that is held and that answered as the version that this manager ships; and once the
  -- loop is to stop, none is held.
  unfoldable pub Owned : Option Child → ℕ → List ℕ → Option String → Type 0
  Owned none spawned let_go key = let_go ≡ below spawned
  Owned (some c) spawned let_go key =
      (spawned ≡ suc c.number)
      × (let_go ≡ below c.number)
      × (key ≡ config_key setup (some c.config))

  unfoldable pub Honest : Option Child → Bool → Json → Type 0
  Honest child false version = Unit
  Honest none true version = ⊥
  Honest (some c) true version = is_version setup setup.expected version ≡ true

  unfoldable pub Sound : Service → Type 0
  unfolding Owned Honest
  Sound s =
      Owned s.proc s.spawned s.let_go s.cfg_key
      × Honest s.proc s.shown.running s.shown.version
      × ((s.stopping ≡ false) ⊎ (s.proc ≡ none))

  -- Where the loop holds no process, with which key it starts one, and where it holds this one or none
  unfoldable pub Held : Phase → Option Child → Option String → Type 0
  Held (asking cfg) child key = (child ≡ none) × (key ≡ config_key setup (some cfg))
  Held (spawning cfg) child key = (child ≡ none) × (key ≡ config_key setup (some cfg))
  Held (straying cfg other left) child key =
      (child ≡ none) × (key ≡ config_key setup (some cfg)) × (left ≤ 19)
  Held (passing c) child key = (child ≡ none) ⊎ (child ≡ some c)
  Held (polling c deadline) child key = (child ≡ none) ⊎ (child ≡ some c)
  Held (pausing c deadline) child key = (child ≡ none) ⊎ (child ≡ some c)
  Held (watching misses) child key = Unit
  Held (checking misses) child key = Unit
  Held _ child key = child ≡ none

  unfoldable pub Supervised : Phase × Service → Type 0
  unfolding Sound Held
  Supervised (p, s) = Sound s × Held p s.proc s.cfg_key

  pub stop_process-owned :
      (child : Option Child) (spawned : ℕ) (let_go : List ℕ) (key : Option String)
      → Owned child spawned let_go key
      → with_child child let_go ≡ below spawned
  unfolding Owned
  stop_process-owned none spawned let_go key h = h
  stop_process-owned (some c) spawned let_go key (last, before, k) = rw (last, before) refl

  pub stop_process-Sound : (s : Service) → Sound s → Sound (stop_process s)
  unfolding Sound stop_process Owned Honest
  stop_process-Sound s (owned, honest, quiet) =
      (stop_process-owned s.proc s.spawned s.let_go s.cfg_key owned, tt, inr refl)

  pub fail-Supervised :
      (p : Phase) (once started : Bool) (why : String) (s : Service)
      → Supervised (p, s)
      → Supervised (p, fail once started why s)
  unfolding Supervised fail
  fail-Supervised p once started why s h =
      if-keeps (λ x. Supervised (p, x)) (once && said s.shown.last_error why) s _ (λ e. h) (λ e. h)

  pub free_when :
      (stopping : Bool) (child : Option Child)
      → (stopping ≡ false) ⊎ (child ≡ none)
      → stopping ≡ true
      → child ≡ none
  free_when stopping child (inl going) e = absurd (cc (going, e))
  free_when stopping child (inr free) e = free

  pub leave-Supervised : (s : Service) → Sound s → Supervised (leave s)
  unfolding leave Supervised
  leave-Supervised s (owned, honest, quiet) =
      if-keeps Supervised s.stopping (done, s) (ending, stop_process s)
        (λ e. ((owned, honest, quiet), free_when s.stopping s.proc quiet e))
        (λ e. (stop_process-Sound s (owned, honest, quiet), refl))

  pub failed-Supervised :
      (once started : Bool) (why : String) (s : Service)
      → Sound s
      → Supervised (leave (fail once started why s))
  unfolding Supervised
  failed-Supervised once started why s h =
      leave-Supervised (fail once started why s)
        ((fail-Supervised (watching 0) once started why s (h, tt)).0)

  -- The others take the process away and leave the key.
  stopped-Held :
      (p : Phase) (child : Option Child) (key : Option String) → Held p child key → Held p none key
  unfolding Held
  stopped-Held idling child key h = refl
  stopped-Held unwinding child key h = refl
  stopped-Held ending child key h = refl
  stopped-Held done child key h = refl
  stopped-Held (asking cfg) child key (free, same) = (refl, same)
  stopped-Held (spawning cfg) child key (free, same) = (refl, same)
  stopped-Held (straying cfg other left) child key (free, same, short) = (refl, same, short)
  stopped-Held (passing c) child key h = inl refl
  stopped-Held (polling c deadline) child key h = inl refl
  stopped-Held (pausing c deadline) child key h = inl refl
  stopped-Held (watching misses) child key h = tt
  stopped-Held (checking misses) child key h = tt
  stopped-Held (waiting time) child key h = refl

  refresh-Supervised :
      (p : Phase) (health : Option Fields) (s : Service)
      → Supervised (p, s)
      → Supervised (p, refresh setup health s)
  unfolding Supervised refresh remember
  refresh-Supervised p none s h = h
  refresh-Supervised p (some health) s h =
      if-keeps (λ x. Supervised (p, x)) (ours setup health) (remember health s) s (λ e. h) (λ e. h)

  call-Supervised :
      (p : Phase) (c : Call setup) (s : Service)
      → Supervised (p, s)
      → Supervised (p, call setup c s)
  unfolding call Supervised stop_process
  call-Supervised p stops s ((owned, honest, quiet), held) = (
    (stop_process-owned s.proc s.spawned s.let_go s.cfg_key owned, tt, inr refl),
    stopped-Held p s.proc s.cfg_key held,
  )
  call-Supervised p switches_off s ((owned, honest, quiet), held) = (
    (stop_process-owned s.proc s.spawned s.let_go s.cfg_key owned, tt, inr refl),
    stopped-Held p s.proc s.cfg_key held,
  )
  call-Supervised p (refreshes health) s h = refresh-Supervised p health s h

  pub calls-Supervised :
      (p : Phase) (cs : List (Call setup)) (s : Service)
      → Supervised (p, s)
      → Supervised (p, calls setup cs s)
  unfolding calls
  calls-Supervised p [] s h = h
  calls-Supervised p (c ∷ cs) s h = calls-Supervised p cs (call setup c s) (call-Supervised p c s h)

  rekeyed :
      (child : Option Child) (spawned : ℕ) (let_go : List ℕ) (key key' : Option String)
      → child ≡ none
      → Owned child spawned let_go key
      → Owned child spawned let_go key'
  unfolding Owned
  rekeyed none spawned let_go key key' free h = h
  rekeyed (some c) spawned let_go key key' free h = absurd (cc free)

  ready-Supervised :
      (cfg : Fields) (missing : List String) (s : Service)
      → s.proc ≡ none
      → Sound s
      → Supervised (ready setup cfg missing s)
  unfolding ready Supervised
  ready-Supervised cfg (p ∷ ps) s free sound = fail-Supervised idling true false _ s (sound, free)
  ready-Supervised cfg [] s free (owned, honest, quiet) =
      if-keeps Supervised (is_set setup.expected) _ _
        (λ e.
          let owned' =
            rekeyed s.proc s.spawned s.let_go s.cfg_key (config_key setup (some cfg)) free owned in
          ((owned', honest, quiet), (free, refl)))
        (λ e. fail-Supervised idling true false _ s ((owned, honest, quiet), free))

  configured-Supervised :
      (l : Loaded) (missing : List String) (s : Service)
      → s.proc ≡ none
      → Sound s
      → Supervised (configured setup l missing s)
  unfolding configured Supervised
  configured-Supervised unreadable missing s free sound = (sound, free)
  configured-Supervised (config none) missing s free sound = (sound, free)
  configured-Supervised (config (some end)) missing s free sound = (sound, free)
  configured-Supervised (config (some (field k v fs))) missing s free sound =
      ready-Supervised (field k v fs) missing s free sound

  pub top-Supervised :
      (t : Turn setup) (s : Service) → s.proc ≡ none → Sound s → Supervised (top setup t s)
  unfolding top Supervised
  top-Supervised t s free sound =
      if-keeps Supervised s.stopping (done, s) (configured setup t.loaded t.missing s)
        (λ e. (sound, free)) (λ e. configured-Supervised t.loaded t.missing s free sound)

  taken-Supervised : (other : Fields) (s : Service) → Sound s → Supervised (taken setup other s)
  unfolding taken
  taken-Supervised other s sound = failed-Supervised false false (taken_text setup other) s sound

  pub asked-Supervised :
      (cfg : Fields) (health : Option Fields) (t : Turn setup) (s : Service)
      → Supervised (asking cfg, s)
      → Supervised (asked_port setup cfg health t s)
  unfolding asked_port Supervised
  asked-Supervised cfg none t s h = h
  asked-Supervised cfg (some other) t s (sound, (free, same)) =
      if-keeps Supervised (is_stray setup other t) (straying cfg other 19, s) (taken setup other s)
        (λ e. (sound, (free, same, omega arith))) (λ e. taken-Supervised other s sound)

  pub strayed-Supervised :
      (cfg other : Fields) (left : ℕ) (health : Option Fields) (s : Service)
      → Supervised (straying cfg other left, s)
      → Supervised (strayed setup cfg other left health s)
  unfolding strayed Supervised
  strayed-Supervised cfg other left none s (sound, (free, same, short)) = (sound, (free, same))
  strayed-Supervised cfg other zero (some health) s h = taken-Supervised other s h.0
  strayed-Supervised cfg other (suc left) (some health) s (sound, (free, same, short)) =
      (sound, (free, same, omega arith))
