-- ===== src/Refunds/Tests.antt =====
-- The choice at a concrete payment.
use barhandler_manager.Prelude.{◌≡◌, ◌⊎◌, refl, true, false, none, some}
use barhandler_manager.Refunds.{
  RefundContext, void, refund, choose_refund_operation, IsCancellable,
  choose_refund_operation_exact,
}

abbrev this_morning : RefundContext
this_morning = record {
  paid_at = some (record { date = 20000; seconds = 36000 });
  today = 20000;
  invoice_num = some "17";
  paid_terminal_id = some "T1";
  current_terminal_id = some "T1";
  full_amount = true;
  settled = some false;
}

voided : choose_refund_operation this_morning ≡ void
unfolding choose_refund_operation
voided = refl

unknown_is_refunded : choose_refund_operation (record this_morning { settled = none }) ≡ refund
unfolding choose_refund_operation
unknown_is_refunded = refl

choose_refund_operation_exact_example :
    (IsCancellable this_morning × (choose_refund_operation this_morning ≡ void))
    ⊎ ((¬ IsCancellable this_morning) × (choose_refund_operation this_morning ≡ refund))
choose_refund_operation_exact_example = choose_refund_operation_exact this_morning
