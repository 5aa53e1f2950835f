-- ===== src/Journal/Device.antt =====
-- The journal that the device layer writes to: the module's `_active`, `set_active`,
-- `record_printer` and `record_terminal`.
use barhandler_manager.Prelude.{String, Bool, Option, none, some}
use barhandler_manager.Prelude.Int.{ℤ}
use barhandler_manager.Json.Codec.{Codec}
use barhandler_manager.Journal.Rows.{Journal, Append, Deed, record_row}

-- `_active`
abbrev pub Active : Type 0
Active = Option Journal

-- `set_active`
unfoldable pub set_active : Option Journal → Active → Active
set_active journal active = journal

module _ (codec : Codec) (io : Append) (replaced : Bool) (now : String) where
  write : Deed → Active → Active
  unfolding record_row
  write d none = none
  write d (some j) = some (record_row codec io replaced now d j).0

  -- `record_printer`
  unfoldable pub record_printer : String → String → String → Option String → Active → Active
  unfolding write
  record_printer device_id action status detail = write (record {
    device_kind = "printer";
    device_id = device_id;
    action = action;
    status = status;
    amount_kopecks = none;
    detail = detail;
    at = none;
  })

  -- `record_terminal`
  unfoldable pub record_terminal :
      String → String → String → Option ℤ → Option String → Active → Active
  unfolding write
  record_terminal device_id action status amount detail = write (record {
    device_kind = "terminal";
    device_id = device_id;
    action = action;
    status = status;
    amount_kopecks = amount;
    detail = detail;
    at = none;
  })
