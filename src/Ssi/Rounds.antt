-- ===== src/Ssi/Rounds.antt =====
-- The rounds of `_wait_idle`: the fuel is enough.
use barhandler_manager.Prelude.{
  ℕ, zero, suc, ◌+◌, ◌*◌, ◌≤◌, ◌≡◌, refl, sym, ◌∙◌, ap, Bool, true, false, Option, none, some,
  arith, ltb, string_eq, if◌then◌else◌,
}
use barhandler_manager.Json.{Json}
use barhandler_manager.Json.Codec.{Codec}
use barhandler_manager.Ssi.Wire.{
  Outcome, ok, unavailable, crashed, Wire, M, pure, raise, continue, ◌>>◌, sleep,
}
use barhandler_manager.Ssi.Session.{
  Registration, is_idle, poll_status, interrupt, give_up, idle_round, idle_loop, wait_idle,
  poll_max, enough_rounds,
}
use barhandler_manager.Ssi.Calm.{Quiet}
use barhandler_manager.Ssi.Polling.{Quiet-poll_status, Quiet-is_idle}

-- A round that leads to another: how far the clock went, and how far it cannot have gone.
InTime : Outcome (Option Json) → ℕ → ℕ → ℕ → Type 0
InTime (ok none) deadline before after = (before + 500 ≤ after) × (after ≤ deadline + 200)
InTime _ deadline before after = Unit

InTime-continue :
    {A : Type 0} (o : Outcome A) (f : A → M (Option Json)) (deadline before : ℕ) (w : Wire)
    → ((a : A) → InTime (f a w).0 deadline before (f a w).1.now)
    → InTime (continue o f w).0 deadline before (continue o f w).1.now
unfolding InTime
InTime-continue (ok a) f deadline before w p = p a
InTime-continue (unavailable code) f deadline before w p = tt
InTime-continue crashed f deadline before w p = tt

-- `give_up` leads to no round.
given_up :
    (deadline before : ℕ) (o : Outcome (Unit {0})) (w : Wire)
    → let gave : M (Option Json) = (do continue o (λ u. raise {A = Json} "timeout"); pure none) in
      InTime (gave w).0 deadline before (gave w).1.now
unfolding InTime
given_up deadline before (ok u) w = tt
given_up deadline before (unavailable code) w = tt
given_up deadline before crashed w = tt

suc_add : (m k : ℕ) → suc m + k ≡ suc (m + k)
suc_add m k = omega arith

module _ (codec : Codec) (reg : Registration) where
  -- The end of a round, on the clock of when the status is known.
  InTime-waited :
      (deadline before : ℕ) (status : Json) (idle : Bool) (w : Wire)
      → before + 300 ≤ w.now
      → let next : M (Option Json) = if idle then pure (some status) else λ w.
          if ltb deadline w.now
          then (do give_up codec reg; pure none) w
          else (do sleep 200; pure none) w in
        InTime (next w).0 deadline before (next w).1.now
  unfolding InTime sleep give_up
  InTime-waited deadline before status true w h = tt
  InTime-waited deadline before status false w h = go (ltb deadline w.now) refl
    where
      go :
          (late : Bool)
          → late ≡ ltb deadline w.now
          → let next : Outcome (Option Json) × Wire =
              if late then (do give_up codec reg; pure none) w else (do sleep 200; pure none) w in
            InTime next.0 deadline before next.1.now
      go true e = given_up deadline before (interrupt codec reg w).0 (interrupt codec reg w).1
      go false e = (omega (arith, h), ground arith)

  InTime-idle_round :
      (deadline : ℕ) (w : Wire)
      → InTime
          (idle_round codec reg deadline w).0
          deadline
          w.now
          (idle_round codec reg deadline w).1.now
  unfolding idle_round sleep Quiet
  InTime-idle_round deadline w =
      let slept : Wire = (sleep 300 w).1 in
      let polled : Wire = (poll_status codec reg slept).1 in
      InTime-continue (poll_status codec reg slept).0 _ deadline w.now polled (λ status.
        InTime-continue (is_idle status polled).0 _ deadline w.now (is_idle status polled).1
          (λ idle. InTime-waited deadline w.now status idle (is_idle status polled).1 (
            omega (
              arith,
              (Quiet-poll_status codec reg slept).now-grows,
              (Quiet-is_idle status polled).now-grows,
            ))))

  loop_step :
      (fuel k deadline before : ℕ) (o : Outcome (Option Json)) (w : Wire)
      → InTime o deadline before w.now
      → ((v : Wire)
          → v.now ≤ deadline + 200
          → before + 500 ≤ v.now
          → idle_loop codec reg (fuel + k) deadline v ≡ idle_loop codec reg fuel deadline v)
      → continue o
          (λ found. elim found as (λ x. M Json) [
            | none ↦ idle_loop codec reg (fuel + k) deadline
            | some status ↦ pure status
          ])
          w
        ≡ continue o
            (λ found. elim found as (λ x. M Json) [
              | none ↦ idle_loop codec reg fuel deadline
              | some status ↦ pure status
            ])
            w
  unfolding InTime
  loop_step fuel k deadline before (ok none) w h p = p w h.1 h.0
  loop_step fuel k deadline before (ok (some status)) w h p = refl
  loop_step fuel k deadline before (unavailable code) w h p = refl
  loop_step fuel k deadline before crashed w h p = refl

  more_rounds :
      (fuel k deadline : ℕ) (w : Wire)
      → w.now ≤ deadline + 200
      → deadline + 1000 ≤ w.now + 500 * fuel
      → idle_loop codec reg (fuel + k) deadline w ≡ idle_loop codec reg fuel deadline w
  unfolding idle_loop
  more_rounds zero k deadline w h e = ground arith
  more_rounds (suc fuel) k deadline w h e =
      ap (λ n. idle_loop codec reg n deadline w) (suc_add fuel k)
      ∙ (loop_step fuel k deadline w.now (idle_round codec reg deadline w).0
          (idle_round codec reg deadline w).1 (InTime-idle_round deadline w)
          (λ v below above. more_rounds fuel k deadline v below (omega (arith, h, e, above))))

  -- The rounds that `wait_idle` may take are enough: with any number of further ones it ends the
  -- same way, whatever the network answers and however long the exchanges take.
  pub wait_idle-enough :
      (k : ℕ) (w : Wire)
      → wait_idle codec reg w ≡ idle_loop codec reg (enough_rounds + k) (w.now + poll_max) w
  unfolding wait_idle
  wait_idle-enough k w =
      sym (more_rounds enough_rounds k (w.now + poll_max) w (omega arith) (omega arith))
