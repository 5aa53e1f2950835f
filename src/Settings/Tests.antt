-- ===== src/Settings/Tests.antt =====
-- Runs of the station's settings, and their theorem at a concrete input.
use barhandler_manager.Prelude.{◌≡◌, refl, true, some, []}
use barhandler_manager.Prelude.Int.{pos}
use barhandler_manager.Json.{Json, str, obj, end, field, get, int_of}
use barhandler_manager.Prelude.Text.{text}
use barhandler_manager.Prelude.Dict.{assign}
use barhandler_manager.Journal.Text.{strip, is_space}
use barhandler_manager.Settings.Station.{Station, missing, load, save, shop_of, cleaned}
use barhandler_manager.Settings.Saved.{Ends, save-Ends}

abbrev empty : Station
empty = record { shops = []; saves = pos 0; file = missing }

abbrev roles : Json
roles = obj (field "receipts" (str "usb-1") end)

abbrev after : Station
after = (save true "a1" "2026-01-01T08:00:00+00:00" (str " shop ") roles empty).1

save-Ends_example :
    Ends "a1" "2026-01-01T08:00:00+00:00"
      (shop_of (str " shop "))
      (cleaned roles)
      empty
      (save true "a1" "2026-01-01T08:00:00+00:00" (str " shop ") roles empty).0
      after
save-Ends_example = save-Ends true "a1" "2026-01-01T08:00:00+00:00" (str " shop ") roles empty

-- A station that starts on the file finds the shops and the counter.
found_again : load (record { shops = []; saves = pos 0; file = after.file }) ≡ after
unfolding save load text strip is_space get assign int_of
found_again = refl

-- The name of a shop keeps its characters, whatever their code points.
pint : shop_of (str " 🍺 ") ≡ some "🍺"
unfolding shop_of text strip is_space
pint = refl
