-- ===== src/Ssi/Session.antt =====
-- `SSITerminalAdapter`: the parts that `charge` and `refund` are made of.
use barhandler_manager.Prelude.{
  ℕ, zero, suc, ◌+◌, ◌/◌, Bool, false, ◌||◌, Option, none, some, String, ltb, ◌==◌, string_eq,
  if◌then◌else◌,
}
use barhandler_manager.Json.{Json, Fields, str, arr, obj, end, field, get, truthy}
use barhandler_manager.Json.Codec.{Codec}
use barhandler_manager.Ssi.Wire.{
  Outcome, ok, unavailable, crashed, M, pure, raise, crash, ◌>>=◌, ◌>>◌, sleep, send_tcp,
}
use barhandler_manager.Ssi.Outcome.{
  Result, business_error_to_result, raise_if_error, result_from_params,
}

-- The registration that an adapter works for.
pub record Registration : Type 0 where
  -- `descriptor.id`
  pub id : String
  -- whether the descriptor has a network address
  pub has_address : Bool
  pub default_merchant_id : String
  pub default_terminal_id : String

abbrev pub lift : {A : Type 0} → Outcome A → M A
lift r w = (r, w)

-- `d["k"] = v`
unfoldable pub put : Fields → String → Json → Fields
put end k v = field k v end
put (field j u fs) k v = if j == k then field k v fs else field j u (put fs k v)

unfoldable pub has_field : Fields → String → Bool
has_field end k = false
has_field (field j u fs) k = j == k || has_field fs k

-- `for k, v in extras.items(): params.setdefault(k, v)`
unfoldable pub with_extras : Fields → Fields → Fields
unfolding has_field put
with_extras params end = params
with_extras params (field k v fs) =
    with_extras (if has_field params k then params else put params k v) fs

-- `response.get`, on what is a dictionary only
unfoldable pub dict : Json → M Fields
dict (obj fs) = pure fs
dict _ = crash

-- `(x or {})`, where `.get` follows
unfoldable pub dict_or_empty : Json → M Fields
dict_or_empty (obj fs) = pure fs
dict_or_empty v = if truthy v then crash else pure end

-- `status in _IDLE_STATUSES`; a list or a dictionary cannot be looked up in a set.
unfoldable pub is_idle : Json → M Bool
is_idle (arr xs) = crash
is_idle (obj fs) = crash
is_idle (str s) = pure (s == "S00" || s == "S08")
is_idle _ = pure false

abbrev pub request : String → Json
request method = obj (field "method" (str method) end)

-- The question for the result, of a payment or of the last one
abbrev pub question : String → Json
question uid =
    if uid == ""
    then request "GetLastResult"
    else obj (
        field "method" (str "GetResultByUid")
          (field "params" (obj (field "transactionUid" (str uid) end)) end))

forgiven : Outcome Json → Outcome (Unit {0})
forgiven (ok v) = ok tt
forgiven (unavailable code) = ok tt
forgiven crashed = crashed

-- `STATUS_POLL_MAX_S` in milliseconds
abbrev pub poll_max : ℕ
poll_max = 180_000

abbrev pub enough_rounds : ℕ
enough_rounds = poll_max / 500 + 2

module _ (codec : Codec) (reg : Registration) where
  -- `_send`
  unfoldable pub send : Json → M Json
  send v = if reg.has_address then send_tcp codec v else raise "not_configured"

  -- `response.get("status") or (response.get("params") or {}).get("status")`
  unfoldable pub poll_status : M Json
  unfolding send dict dict_or_empty
  poll_status = do
    response ← send (request "GetStatus")
    fs ← dict response
    if truthy (get fs "status")
        then pure (get fs "status")
        else do params ← dict_or_empty (get fs "params"); pure (get params "status")

  -- `with _suppress(TerminalUnavailable): await self._send({"method": "Interrupt"})`, as `cancel`
  unfoldable pub interrupt : M (Unit {0})
  unfolding send forgiven
  interrupt w = let (r, w') = send (request "Interrupt") w in (forgiven r, w')

  unfoldable pub give_up : M Json
  unfolding interrupt
  give_up = do interrupt; raise "timeout"

  -- One round of `_wait_idle`: the status that ends the loop, or none.
  unfoldable pub idle_round : ℕ → M (Option Json)
  unfolding sleep poll_status is_idle give_up
  idle_round deadline = do
    sleep 300
    status ← poll_status
    idle ← is_idle status
    if idle then pure (some status) else λ w.
        if ltb deadline w.now then (do give_up; pure none) w else (do sleep 200; pure none) w

  -- `while True`, for as many rounds as there is fuel. The round that finds the time over does not
  -- return, so each round that leads to another takes half a second at least.
  unfoldable pub idle_loop : ℕ → ℕ → M Json
  idle_loop zero deadline = crash
  idle_loop (suc fuel) deadline = do
    found ← idle_round deadline
    elim found [ none ↦ idle_loop fuel deadline | some status ↦ pure status ]

  -- `_wait_idle`
  unfoldable pub wait_idle : M Json
  unfolding idle_loop
  wait_idle w = idle_loop enough_rounds (w.now + poll_max) w

  -- `get_last_result`
  unfoldable pub get_last_result : String → M Result
  unfolding send business_error_to_result raise_if_error dict dict_or_empty result_from_params
  get_last_result uid = do
    response ← send (question uid)
    business ← lift (business_error_to_result response)
    elim business [
      | some result ↦ pure result
      | none ↦ do
        lift (raise_if_error "result_fetch_failed" response)
        fs ← dict response
        params ← dict_or_empty (get fs "params")
        lift (result_from_params params)
    ]
