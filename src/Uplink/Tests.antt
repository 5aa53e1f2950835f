-- ===== src/Uplink/Tests.antt =====
-- A session of remote diagnostics, and the theorems at concrete inputs.
use barhandler_manager.Prelude.{ℕ, String, ◌≡◌, refl, true, false, Option, none, some, []}
use barhandler_manager.Uplink.Life.{
  Uplink, dated, enabled_at, is_expired, expires_at, shut_down, stopping, cleared, same_stamp,
  same_client,
}
use barhandler_manager.Uplink.Closing.{Ended, Silenced, is_same_session, shut_down_exact}

abbrev yesterday : Uplink
yesterday = record {
  enabled = true;
  enabled_at = dated 1000;
  client = some 1;
  active = some 1;
  stopped = [];
  stored = (true, dated 1000);
}

-- The operator opens a session of a new client.
abbrev reopens : Uplink → Uplink
reopens u = record u { enabled_at = dated 90000; client = some 2; active = some 2 }

abbrev no_dates : String → Option ℕ
no_dates s = none

over : is_expired no_dates yesterday 87400 ≡ true
unfolding is_expired expires_at enabled_at
over = refl

reopened_is_left : (shut_down false true reopens yesterday).0 ≡ false
unfolding shut_down stopping cleared same_stamp same_client
reopened_is_left = refl

shut_down_exact_example :
    Ended true
      (reopens yesterday)
      (shut_down false true reopens yesterday)
      (is_same_session (reopens yesterday) yesterday)
    × Silenced false (some 1) (reopens yesterday) (shut_down false true reopens yesterday).1
shut_down_exact_example = shut_down_exact false true reopens yesterday refl
