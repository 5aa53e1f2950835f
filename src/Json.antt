-- ===== src/Json.antt =====
-- Python's JSON values, and what the program does with a decoded dictionary: `d.get(k)`, `x or y`,
-- `isinstance(x, …)`. The text form is behind the interface `Codec` (Json/Codec.antt).
pub mod Codec
use barhandler_manager.Prelude.{
  ℕ, zero, suc, String, Bool, true, false, ◌||◌, not, Option, none, some, ◌==◌, string_eq,
  if◌then◌else◌,
}
use barhandler_manager.Prelude.Int.{ℤ, pos, negsuc}

-- `float` holds the literal of a number that is not an `int`.
mutual
  pub data Json : Type 0 where
    null : Json
    bool : Bool → Json
    num : ℤ → Json
    float : String → Json
    str : String → Json
    arr : Items → Json
    obj : Fields → Json

  pub data Items : Type 0 where
    nil : Items
    cons : Json → Items → Items

  pub data Fields : Type 0 where
    end : Fields
    field : String → Json → Fields → Fields

-- `d.get(k)`: `None` for a missing key.
unfoldable pub get : Fields → String → Json
get end k = null
get (field j v fs) k = if j == k then v else get fs k

-- `bool(x)`
unfoldable pub truthy : Json → Bool
truthy null = false
truthy (bool b) = b
truthy (num (pos zero)) = false
truthy (num _) = true
truthy (float s) = not (s == "0.0" || s == "-0.0")
truthy (str s) = not (s == "")
truthy (arr nil) = false
truthy (arr _) = true
truthy (obj end) = false
truthy (obj _) = true

-- The value of an `isinstance(x, int)`; a `bool` is one.
unfoldable pub int_of : Json → Option ℤ
int_of (num z) = some z
int_of (bool true) = some (pos 1)
int_of (bool false) = some (pos 0)
int_of _ = none

unfoldable pub str_of : Json → Option String
str_of (str s) = some s
str_of _ = none

-- `x` of a value that is a dictionary, and the empty one otherwise: `x or {}` and its like.
unfoldable pub dict_of : Json → Fields
dict_of (obj fs) = fs
dict_of _ = end
