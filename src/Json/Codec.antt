-- ===== src/Json/Codec.antt =====
-- `json.dumps` and `json.loads` as an interface. A text is the list of its code points.
use barhandler_manager.Prelude.{ℕ, ◌≡◌, Option, some, List}
use barhandler_manager.Json.{Json}

abbrev pub Text : Type 0
Text = List ℕ

pub record Codec : Type 0 where
  pub dumps : Json → Text
  -- `none` for a text that is not JSON.
  pub loads : Text → Option Json

-- What is dumped reads back.
pub record IsLawful (c : Codec) : Type 0 where
  pub loads-dumps : (v : Json) → c.loads (c.dumps v) ≡ some v
