-- ===== src/Ssi/Tests.antt =====
-- Runs of the adapter, and its theorems at concrete inputs.
use barhandler_manager.Prelude.{
  ℕ, ◌+◌, ◌≡◌, refl, true, false, Option, none, some, List, [], ◌∷◌, arith, set, String, ◌==◌,
  nat_eq, if◌then◌else◌,
}
use barhandler_manager.Prelude.Text.{codes}
use barhandler_manager.Json.{Json, null, bool, str, obj, end, field, get, truthy}
use barhandler_manager.Json.Codec.{Codec}
use barhandler_manager.Ssi.Frame.{
  frame_error, encode_frame, decode_frame, decode_body, calc_lrc, lrc_from, frame_of,
}
use barhandler_manager.Ssi.Integrity.{decode_frame-damaged}
use barhandler_manager.Ssi.Wire.{
  ok, Wire, Exchange, answered, sleep, emit_event, send_tcp, after_connect, decoded_outcome,
  read_answer,
}
use barhandler_manager.Ssi.Session.{
  Registration, wait_idle, idle_loop, idle_round, poll_status, send, dict, dict_or_empty, is_idle,
  enough_rounds, poll_max,
}
use barhandler_manager.Ssi.Outcome.{Result, approved}
use barhandler_manager.Ssi.Calm.{moves}
use barhandler_manager.Ssi.Charge.{ChargeRequest, charge}
use barhandler_manager.Ssi.Refund.{RefundRequest, refund}
use barhandler_manager.Ssi.Rounds.{wait_idle-enough}
use barhandler_manager.Ssi.Runs.{Approved}
use barhandler_manager.Ssi.Approved.{charge-approved_by}
use barhandler_manager.Ssi.Safety.{Charged, Refunded, charged_with, charge-moves, refund-moves}

-- A codec of one byte: every message is byte 9, and each of the answers is a number.
abbrev answer : ℕ → Json
answer n =
    if n == 1
    then obj (field "error" (bool false) end)
    else if n == 2
    then obj (field "status" (str "S00") end)
    else if n == 3
    then obj (field "status" (str "S08") end)
    else obj (field "params" (obj (field "transactionResult" (str "APPROVED") end)) end)

abbrev read_byte : List ℕ → Option Json
read_byte (n ∷ []) = some (answer n)
read_byte _ = none

abbrev toy : Codec
toy = record { dumps = λ v. 9 ∷ []; loads = read_byte }

abbrev registered : Registration
registered = record {
  id = "t1";
  has_address = true;
  default_merchant_id = "m1";
  default_terminal_id = "";
}

abbrev exchange : ℕ → Exchange
exchange n = record { net = answered (0x02 ∷ 0x66 ∷ 0x01 ∷ 0 ∷ 1 ∷ n ∷ n ∷ []); takes = 40 }

abbrev wire : List Exchange → Wire
wire xs = record { now = 1000; coming = xs; sent = []; events = [] }

abbrev coffee : ChargeRequest
coffee = record {
  amount_kopecks = 8500;
  currency = "980";
  merchant_id = "";
  transaction_uid = "u1";
  discounted_amount_kopecks = none;
  extras = end;
}

abbrev coffee_back : RefundRequest
coffee_back = record {
  amount_kopecks = 8500;
  currency = "980";
  merchant_id = "";
  transaction_uid = "u1";
  rrn = "123";
  auth_code = "";
  invoice_num = "";
  extras = end;
}

abbrev shown : Json → String
shown v = "8500"

abbrev approving : Wire
approving = wire (exchange 1 ∷ exchange 2 ∷ exchange 4 ∷ [])

abbrev parking : Wire
parking = wire (exchange 3 ∷ [])

abbrev paid : Result
paid = record {
  status = approved;
  transaction_uid = null;
  rrn = null;
  auth_code = null;
  cardmask = null;
  paysys = null;
  bank_name = null;
  terminal_id = null;
  pos_entry_mode = null;
  invoice_num = null;
  response_code = null;
  raw_transaction_result = codes "APPROVED";
  error_code = null;
  error_message = null;
  error_details = null;
  terminal_receipt = null;
  vendor_data = field "transactionResult" (str "APPROVED") end;
}

decode_frame-damaged_example :
    decode_frame toy (set (0x02 ∷ 0x66 ∷ 0x01 ∷ 0 ∷ 1 ∷ 9 ∷ 9 ∷ []) (5 + 0) 8) ≡ frame_error
unfolding encode_frame frame_of calc_lrc lrc_from
decode_frame-damaged_example =
    decode_frame-damaged toy (answer 9) (0x02 ∷ 0x66 ∷ 0x01 ∷ 0 ∷ 1 ∷ 9 ∷ 9 ∷ []) [] 9 8 [] refl
      refl (omega arith, tt) (omega arith) (omega arith)

wait_idle-enough_example :
    wait_idle toy registered approving
    ≡ idle_loop toy registered (enough_rounds + 5) (approving.now + poll_max) approving
wait_idle-enough_example = wait_idle-enough toy registered 5 approving

charge-moves_example :
    Charged
      (charged_with shown toy registered coffee)
      (moves approving.sent)
      (charge shown toy registered coffee approving).0
      (moves (charge shown toy registered coffee approving).1.sent)
charge-moves_example = charge-moves shown toy registered coffee approving

refund-moves_example :
    Refunded
      (get coffee_back.extras "operation")
      (moves approving.sent)
      (refund shown toy registered coffee_back approving).0
      (moves (refund shown toy registered coffee_back approving).1.sent)
refund-moves_example = refund-moves shown toy registered coffee_back approving

-- A poll that finds the terminal waiting for a second step.
parks : (wait_idle toy registered parking).0 ≡ ok (str "S08")
unfolding wait_idle idle_loop idle_round sleep poll_status send send_tcp after_connect
    decoded_outcome read_answer encode_frame decode_frame decode_body calc_lrc lrc_from dict
    dict_or_empty is_idle get truthy
parks = refl

-- A payment that the terminal approves at its first step.
coffee-paid :
    charge shown toy registered coffee approving
    ≡ (ok paid, (charge shown toy registered coffee approving).1)
unfolding charge wait_idle idle_round emit_event send_tcp encode_frame decode_frame truthy get
coffee-paid = refl

charge-approved_by_example :
    Approved toy registered "u1" approving (charge shown toy registered coffee approving).1
charge-approved_by_example =
    charge-approved_by shown toy registered coffee approving
      (charge shown toy registered coffee approving).1 paid coffee-paid refl
