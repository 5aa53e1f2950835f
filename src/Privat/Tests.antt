-- ===== src/Privat/Tests.antt =====
-- Runs of PrivatBank's adapter, and its theorems at concrete inputs.
use barhandler_manager.Prelude.{
  ℕ, ◌==◌, nat_eq, if◌then◌else◌, ◌≡◌, ◌↔◌, refl, true, false, Option, none, some, List, [], ◌∷◌,
  ◌++◌, map, arith,
}
use barhandler_manager.Prelude.Int.{pos, negsuc}
use barhandler_manager.Prelude.Text.{codes}
use barhandler_manager.Prelude.Decimal.{str_int, int_digits}
use barhandler_manager.Prelude.Order.{text_leb}
use barhandler_manager.Journal.Text.{strip, is_space}
use barhandler_manager.Json.{Json, null, str, obj, end, field, get, truthy}
use barhandler_manager.Json.Codec.{Codec}
use barhandler_manager.Registry.Model.{
  Registration, Descriptor, NetworkAddress, SerialAddress, Kind, Transport, is_given,
}
use barhandler_manager.Ssi.Wire.{ok, unavailable}
use barhandler_manager.Ssi.Outcome.{approved}
use barhandler_manager.Privat.Amount.{format_amount, kopecks_of, kopecks_of-format_amount}
use barhandler_manager.Privat.Frame.{
  encode_frame, decode_frame, SerialRead, enclosed, whole, read_until_null, read_serial,
}
use barhandler_manager.Privat.Reading.{Piece, arrival, first_frame}
use barhandler_manager.Privat.Serial.{read_serial-first_frame}
use barhandler_manager.Privat.Link.{Link, talks, send_tcp, over_tcp, over_serial}
use barhandler_manager.Privat.Delivery.{delivered}
use barhandler_manager.Privat.Outcome.{AcquirerResult, Python}
use barhandler_manager.Privat.Adapter.{ChargeRequest, RefundRequest, charge, refund, purchase, send}
use barhandler_manager.Privat.Approved.{Accepts, charge-approved}
use barhandler_manager.Privat.Once.{charge_sends_once, refund_sends_once, is_reachable, Refunded}

abbrev yes : Json
yes =
    obj (
      field "params" (obj (field "responseCode" (str "0000") (field "trnStatus" (str "1") end)))
        end)

abbrev read_byte : List ℕ → Option Json
read_byte (b ∷ []) = if b == 7 then some yes else none
read_byte _ = none

-- A codec of one byte: every message is byte 9, and byte 7 is an answer that accepts.
abbrev pub toy : Codec
toy = record { dumps = λ v. 9 ∷ []; loads = read_byte }

abbrev pub plain : Python
plain = record { shown = λ v. ""; loads = λ s. none; int_of_float = λ s. ok none }

abbrev descriptor : Option NetworkAddress → Option SerialAddress → Descriptor
descriptor net serial = record {
  id = "t1";
  transport = Transport.network;
  label = "PAX A930";
  kind = some Kind.privat_pos;
  model = none;
  serial_number = none;
  address = net;
  serial_address = serial;
}

abbrev pub registered : Registration
registered = record {
  descriptor = descriptor (some (record { host = "10.0.0.7"; port = 2000; use_http = false })) none;
  kind = Kind.privat_pos;
  nickname = none;
  default_merchant_id = some "3";
  default_terminal_id = none;
  known_ids = [];
  merchants = [];
}

-- The frame of the answer in two chunks, a zero byte in front and more behind
abbrev pieces : List Piece
pieces =
    record { after = 40; first = 0; others = 7 ∷ [] }
    ∷ record { after = 5; first = 0; others = 1 ∷ 0 ∷ [] }
    ∷ []

abbrev pub link : Link
link = record { coming = talks (map arrival pieces) ∷ []; sent = [] }

abbrev pub coffee : ChargeRequest
coffee = record {
  amount_kopecks = pos 8505;
  currency = "980";
  merchant_id = none;
  transaction_uid = some "u1";
  discounted_amount_kopecks = none;
  extras = end;
}

abbrev coffee_back : RefundRequest
coffee_back = record {
  amount_kopecks = pos 8505;
  merchant_id = none;
  rrn = some "123";
  extras = end;
}

eighty_five : format_amount (pos 8505) ≡ codes "85.05"
unfolding format_amount str_int
eighty_five = refl

-- What a negative discount becomes: fifty kopecks less read as a hryvnia and a half.
minus_fifty : format_amount (negsuc 49) ≡ codes "-1.50"
unfolding format_amount str_int
minus_fifty = refl

kopecks_of-format_amount_example :
    (kopecks_of (format_amount (pos 8505)) ≡ some 8505)
    × (kopecks_of (format_amount (negsuc 8505)) ≡ none)
kopecks_of-format_amount_example = kopecks_of-format_amount 8505

read_serial-first_frame_example : read_serial 15_000 (map arrival pieces) ≡ whole (7 ∷ 0 ∷ [])
unfolding first_frame
read_serial-first_frame_example =
    read_serial-first_frame 15_000 pieces (7 ∷ 0 ∷ []) (omega arith) refl

-- A terminal on a serial port that says one byte and then nothing: the port's own timeout comes first,
-- but not where the byte took longer than three seconds.
late : read_serial 5000 (record { after = 3500; got = some (1 ∷ []) } ∷ []) ≡ SerialRead.escaped
unfolding read_serial
late = refl

delivered_example :
    (over_tcp toy 15_000 (some (9 ∷ 0 ∷ [])) (talks (map arrival pieces)) ≡ ok yes)
    × (over_serial toy 15_000 (some (9 ∷ 0 ∷ [])) (talks (map arrival pieces)) ≡ ok yes)
unfolding enclosed
delivered_example =
    delivered toy 15_000 (9 ∷ 0 ∷ []) yes true pieces 7 [] (1 ∷ 0 ∷ []) (omega arith) refl
      (refl, tt) refl

abbrev pub paid : AcquirerResult
paid = record {
  status = approved;
  transaction_uid = str "u1";
  rrn = null;
  auth_code = null;
  cardmask = null;
  paysys = null;
  bank_name = null;
  terminal_id = null;
  pos_entry_mode = null;
  invoice_num = null;
  response_code = some "0000";
  raw_transaction_result = some "1";
  error_code = none;
  error_message = null;
  fiscal_receipt_id = none;
  bank_receipt_id = none;
  fiscal_receipt_text = null;
  terminal_receipt = null;
  vendor_data = field "responseCode" (str "0000") (field "trnStatus" (str "1") end);
}

pub coffee-paid : (charge plain toy registered coffee link).0 ≡ ok paid
unfolding charge send_tcp encode_frame read_until_null decode_frame get truthy strip text_leb
    is_space int_digits
coffee-paid = refl

charge-approved_example :
    (response : Json) × ((send plain toy registered false 120_000
        (purchase plain toy registered coffee)
        link).0
      ≡ ok response)
    × ((paid.status ≡ approved) ↔ Accepts plain response)
charge-approved_example = charge-approved plain toy registered coffee link paid coffee-paid

charge_sends_once_example :
    (is_reachable registered ≡ true
      → (charge plain toy registered coffee link).1.sent
        ≡ link.sent ++ purchase plain toy registered coffee ∷ [])
    × (is_reachable registered ≡ false
        → charge plain toy registered coffee link ≡ (unavailable (codes "not_configured"), link))
charge_sends_once_example = charge_sends_once plain toy registered coffee link

refund_sends_once_example :
    (is_given coffee_back.rrn ≡ false
      → refund plain toy registered coffee_back link
        ≡ (unavailable (codes "missing_refund_reference"), link))
    × (is_given coffee_back.rrn ≡ true
        → Refunded plain toy registered coffee_back link
            (refund plain toy registered coffee_back link))
refund_sends_once_example = refund_sends_once plain toy registered coffee_back link
