-- ===== src/Bridge/Tests.antt =====
-- Runs of the adapters behind a bridge, and their theorems at concrete inputs.
use barhandler_manager.Prelude.{
  ℕ, ◌==◌, nat_eq, if◌then◌else◌, ◌≡◌, ◌↔◌, refl, Option, none, some, List, [], ◌∷◌, ◌++◌, map,
  arith,
}
use barhandler_manager.Json.{Json, Fields, null, str, obj, end, field, get, truthy}
use barhandler_manager.Json.Codec.{Codec}
use barhandler_manager.Ssi.Wire.{ok}
use barhandler_manager.Ssi.Outcome.{approved}
use barhandler_manager.Privat.Link.{Link, talks}
use barhandler_manager.Privat.Outcome.{AcquirerResult}
use barhandler_manager.Privat.Tests.{plain, registered, coffee}
use barhandler_manager.Bridge.Stream.{
  read_line, read_sized, read_marked, line, sized, marked, payload,
}
use barhandler_manager.Bridge.Exchange.{exchange}
use barhandler_manager.Bridge.Delivery.{framing_of, CanCarry, exchange_answered}
use barhandler_manager.Privat.Reading.{Piece, arrival, written}
use barhandler_manager.Bridge.Bpos
use barhandler_manager.Bridge.Approved.{
  bpos, charge_over, answer_over, Accepts, charge_over-approved,
}

abbrev yes : Fields
yes = field "result" (str "0") (field "rrn" (str "123") end)

abbrev read_byte : List ℕ → Option Json
read_byte (b ∷ []) = if b == 7 then some (obj yes) else none
read_byte _ = none

-- A codec of one byte: every message is byte 9, and byte 7 is an answer that accepts.
abbrev toy : Codec
toy = record { dumps = λ v. 9 ∷ []; loads = read_byte }

-- The answer of a BPOS host, its length in two chunks
abbrev link : Link
link = record {
  coming =
      talks (
        record { after = 40; got = some (0 ∷ 0 ∷ []) }
        ∷ record { after = 5; got = some (0 ∷ 1 ∷ 7 ∷ []) }
        ∷ [])
      ∷ [];
  sent = [];
}

abbrev paid : AcquirerResult
paid = record {
  status = approved;
  transaction_uid = str "u1";
  rrn = str "123";
  auth_code = null;
  cardmask = null;
  paysys = null;
  bank_name = null;
  terminal_id = null;
  pos_entry_mode = null;
  invoice_num = null;
  response_code = none;
  raw_transaction_result = some "0";
  error_code = none;
  error_message = null;
  fiscal_receipt_id = none;
  bank_receipt_id = none;
  fiscal_receipt_text = null;
  terminal_receipt = null;
  vendor_data = yes;
}

coffee-paid : (charge_over plain toy registered bpos coffee link).0 ≡ ok paid
unfolding charge_over Bpos.charge read_sized get truthy
coffee-paid = refl

-- Three bytes are read back from each of the frames.
line_back :
    read_line 100 (record { after = 1; got = some (line (1 ∷ 2 ∷ 4 ∷ [])) } ∷ [])
    ≡ payload (1 ∷ 2 ∷ 4 ∷ [])
unfolding read_line line
line_back = refl

sized_back :
    read_sized 100 (record { after = 1; got = some (sized (1 ∷ 2 ∷ 4 ∷ [])) } ∷ [])
    ≡ payload (1 ∷ 2 ∷ 4 ∷ [])
unfolding read_sized sized
sized_back = refl

marked_back :
    read_marked 100 (record { after = 1; got = some (marked (1 ∷ 2 ∷ 4 ∷ [])) } ∷ [])
    ≡ payload (1 ∷ 2 ∷ 4 ∷ [])
unfolding read_marked marked
marked_back = refl

charge_over-approved_example :
    (fs : Fields) × ((answer_over plain toy registered bpos coffee link).0 ≡ ok fs)
    × ((paid.status ≡ approved) ↔ Accepts plain bpos fs)
charge_over-approved_example =
    charge_over-approved plain toy registered bpos coffee link paid coffee-paid

-- The answer of a BPOS host, its length in two chunks, and one byte more
abbrev pieces : List Piece
pieces =
    record { after = 40; first = 0; others = 0 ∷ [] }
    ∷ record { after = 5; first = 0; others = 1 ∷ 7 ∷ 3 ∷ [] }
    ∷ []

pieces-written : written pieces ≡ (framing_of bpos).encode (7 ∷ []) ++ 3 ∷ []
unfolding framing_of sized
pieces-written = refl

seven-CanCarry : CanCarry bpos (7 ∷ [])
unfolding CanCarry
seven-CanCarry = (omega arith, omega arith)

exchange_answered_example :
    exchange toy
      (framing_of bpos)
      3000
      yes
      (record { coming = talks (map arrival pieces) ∷ []; sent = [] })
    ≡ (ok yes, record { coming = []; sent = obj yes ∷ [] })
exchange_answered_example =
    exchange_answered toy bpos 3000 yes yes [] pieces [] 7 [] (3 ∷ []) (omega arith) (omega arith)
      pieces-written seven-CanCarry refl
