-- ===== src/Ssi/Polling.antt =====
-- `_wait_idle` and `get_last_result`: they move no money.
use barhandler_manager.Prelude.{
  ℕ, zero, suc, ◌+◌, ◌≡◌, refl, Bool, true, false, ◌||◌, Option, none, some, String, ltb, ◌==◌,
  string_eq, if◌then◌else◌,
}
use barhandler_manager.Json.{
  Json, Fields, null, bool, num, float, str, arr, obj, end, field, get, truthy, dict_of,
}
use barhandler_manager.Json.Codec.{Codec}
use barhandler_manager.Ssi.Wire.{Outcome, Wire, pure, crash, ◌>>=◌, ◌>>◌, sleep}
use barhandler_manager.Ssi.Outcome.{business_error_to_result, raise_if_error, result_from_params}
use barhandler_manager.Ssi.Session.{
  Registration, lift, dict, dict_or_empty, is_idle, request, send, poll_status, interrupt, give_up,
  idle_round, idle_loop, wait_idle, get_last_result, poll_max, enough_rounds,
}
use barhandler_manager.Ssi.Calm.{
  moves_money, IsCalm, Quiet, Quiet-pure, Quiet-raise, Quiet-crash, Quiet-lift, Quiet-if,
  Quiet-bind, Quiet-option, Quiet-sleep, Quiet-send,
}

pub Quiet-dict : (v : Json) → Quiet (dict v)
unfolding dict
Quiet-dict (obj fs) = Quiet-pure fs
Quiet-dict null = Quiet-crash Fields
Quiet-dict (bool b) = Quiet-crash Fields
Quiet-dict (num z) = Quiet-crash Fields
Quiet-dict (float s) = Quiet-crash Fields
Quiet-dict (str s) = Quiet-crash Fields
Quiet-dict (arr xs) = Quiet-crash Fields

Quiet-unless : {A : Type 0} (b : Bool) (a : A) → Quiet (if b then crash else pure a)
Quiet-unless b a = Quiet-if b crash (pure a) (Quiet-crash _) (Quiet-pure a)

pub Quiet-dict_or_empty : (v : Json) → Quiet (dict_or_empty v)
unfolding dict_or_empty
Quiet-dict_or_empty (obj fs) = Quiet-pure fs
Quiet-dict_or_empty null = Quiet-unless (truthy null) end
Quiet-dict_or_empty (bool b) = Quiet-unless (truthy (bool b)) end
Quiet-dict_or_empty (num z) = Quiet-unless (truthy (num z)) end
Quiet-dict_or_empty (float s) = Quiet-unless (truthy (float s)) end
Quiet-dict_or_empty (str s) = Quiet-unless (truthy (str s)) end
Quiet-dict_or_empty (arr xs) = Quiet-unless (truthy (arr xs)) end

pub Quiet-is_idle : (v : Json) → Quiet (is_idle v)
unfolding is_idle
Quiet-is_idle (obj fs) = Quiet-crash Bool
Quiet-is_idle (arr xs) = Quiet-crash Bool
Quiet-is_idle null = Quiet-pure false
Quiet-is_idle (bool b) = Quiet-pure false
Quiet-is_idle (num z) = Quiet-pure false
Quiet-is_idle (float s) = Quiet-pure false
Quiet-is_idle (str s) = Quiet-pure (s == "S00" || s == "S08")

module _ (codec : Codec) (reg : Registration) where
  pub Quiet-request :
      (method : String)
      → moves_money (request method) ≡ false
      → Quiet (send codec reg (request method))
  Quiet-request method e = Quiet-send codec (request method) e reg

  pub Quiet-poll_status : Quiet (poll_status codec reg)
  unfolding poll_status moves_money get dict_of
  Quiet-poll_status = Quiet-bind _ _ (Quiet-request "GetStatus" refl) (λ response.
      Quiet-bind _ _ (Quiet-dict response) (λ fs.
        Quiet-if (truthy (get fs "status")) _ _ (Quiet-pure (get fs "status")) (
          Quiet-bind _ _ (Quiet-dict_or_empty (get fs "params"))
            (λ params. Quiet-pure (get params "status")))))

  pub Quiet-interrupt : Quiet (interrupt codec reg)
  unfolding interrupt moves_money get dict_of Quiet
  Quiet-interrupt w = Quiet-request "Interrupt" refl w

  Quiet-give_up : Quiet (give_up codec reg)
  unfolding give_up
  Quiet-give_up = Quiet-bind _ _ Quiet-interrupt (λ u. Quiet-raise Json "timeout")

  Quiet-asked :
      (uid : String) (b : Bool)
      → Quiet (
          send codec reg (
            if b
            then request "GetLastResult"
            else obj (
                field "method"
                  (str "GetResultByUid")
                  (field "params" (obj (field "transactionUid" (str uid) end)) end))))
  unfolding moves_money get dict_of
  Quiet-asked uid true = Quiet-request "GetLastResult" refl
  Quiet-asked uid false =
      Quiet-send codec
        (obj (
          field "method" (str "GetResultByUid")
            (field "params" (obj (field "transactionUid" (str uid) end)) end)))
        refl reg

  -- What `get_last_result` makes of the answer
  pub Quiet-judged :
      (response : Json)
      → Quiet (do
        business ← lift (business_error_to_result response)
        elim business [
          | some result ↦ pure result
          | none ↦ do
            lift (raise_if_error "result_fetch_failed" response)
            fs ← dict response
            params ← dict_or_empty (get fs "params")
            lift (result_from_params params)
        ])
  Quiet-judged response =
      Quiet-bind _ _ (Quiet-lift (business_error_to_result response)) (λ business.
        Quiet-option business _ _ Quiet-pure (
          Quiet-bind _ _ (Quiet-lift (raise_if_error "result_fetch_failed" response)) (λ u.
            Quiet-bind _ _ (Quiet-dict response) (λ fs.
              Quiet-bind _ _ (Quiet-dict_or_empty (get fs "params"))
                (λ params. Quiet-lift (result_from_params params))))))

  pub Quiet-get_last_result : (uid : String) → Quiet (get_last_result codec reg uid)
  unfolding get_last_result
  Quiet-get_last_result uid = Quiet-bind _ _ (Quiet-asked uid (uid == "")) Quiet-judged

module _ (codec : Codec) (reg : Registration) where
  Quiet-after :
      (deadline : ℕ)
      → Quiet {A = Option Json} (λ w.
        if ltb deadline w.now
        then (do give_up codec reg; pure none) w
        else (do sleep 200; pure none) w)
  unfolding Quiet
  Quiet-after deadline w = go (ltb deadline w.now)
    where
      go :
          (late : Bool)
          → let next : Outcome (Option Json) × Wire =
              if late then (do give_up codec reg; pure none) w else (do sleep 200; pure none) w in
            IsCalm w next.1
      go true =
          Quiet-bind (give_up codec reg) (λ u. pure {A = Option Json} none)
            (Quiet-give_up codec reg) (λ u. Quiet-pure {A = Option Json} none) w
      go false =
          Quiet-bind (sleep 200) (λ u. pure {A = Option Json} none) (Quiet-sleep 200)
            (λ u. Quiet-pure {A = Option Json} none) w

  Quiet-idle_round : (deadline : ℕ) → Quiet (idle_round codec reg deadline)
  unfolding idle_round
  Quiet-idle_round deadline = Quiet-bind _ _ (Quiet-sleep 300) (λ u.
      Quiet-bind _ _ (Quiet-poll_status codec reg) (λ status.
        Quiet-bind _ _ (Quiet-is_idle status)
          (λ idle. Quiet-if idle _ _ (Quiet-pure (some status)) (Quiet-after deadline))))

  Quiet-idle_loop : (fuel deadline : ℕ) → Quiet (idle_loop codec reg fuel deadline)
  unfolding idle_loop
  Quiet-idle_loop zero deadline = Quiet-crash Json
  Quiet-idle_loop (suc fuel) deadline =
      Quiet-bind _ _ (Quiet-idle_round deadline)
        (λ found. Quiet-option found _ _ Quiet-pure (Quiet-idle_loop fuel deadline))

  pub Quiet-wait_idle : Quiet (wait_idle codec reg)
  unfolding wait_idle Quiet
  Quiet-wait_idle w = Quiet-idle_loop enough_rounds (w.now + poll_max) w
