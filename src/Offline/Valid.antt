-- ===== src/Offline/Valid.antt =====
-- What the checks of a request to activate say of its texts.
use text.Mathlib.Text.{starts_with}
use text.Mathlib.TextEquality.{eq_iff}
use Prim.Native.Char.{Char}
use barhandler_manager.Prelude.{
  ℕ, String, ◌≡◌, refl, inl, inr, true, false, List, [], ◌∷◌, arith, ◌==◌, string_eq, Bool-cases,
  nat_eq,
}
use barhandler_manager.Prelude.Text.{codes}
use barhandler_manager.Json.{str, truthy}
use barhandler_manager.Offline.Words.{is_safe_id, api_host, is_known_host, rstrip_slash}
use barhandler_manager.Offline.Activation.{Order, is_valid, known_product, product_of}

not_empty : (c : Char) (s : String) → (String.◌∷◌ c s == "") ≡ false
not_empty c s = elim (Bool-cases (String.◌∷◌ c s == "")) [
  | inl e ↦ let same = (eq_iff (String.◌∷◌ c s) "").0 e in cc same
  | inr e ↦ e
]

safe_is_truthy : (s : String) → is_safe_id s ≡ true → truthy (str s) ≡ true
unfolding is_safe_id truthy
safe_is_truthy String.[] h = cc h
safe_is_truthy (String.◌∷◌ c s) h = rw (not_empty c s) refl

token_is_truthy : (s : String) → starts_with s "pho_" ≡ true → truthy (str s) ≡ true
unfolding truthy
token_is_truthy String.[] h = cc h
token_is_truthy (String.◌∷◌ c s) h = rw (not_empty c s) refl

known_is_truthy :
    (hosts : List (List ℕ)) (s : String)
    → is_known_host hosts (api_host s) ≡ true
    → truthy (str (rstrip_slash s)) ≡ true
unfolding truthy rstrip_slash api_host is_known_host
known_is_truthy hosts String.[] h = cc h
known_is_truthy hosts (String.◌∷◌ c s) h = ground (arith, not_empty c (rstrip_slash s))

-- The checks that an order has passed.
pub valid_order :
    (order : Order)
    → is_valid order ≡ true
    → (order.product ≡ "petshandler")
      × (is_safe_id order.appid ≡ true)
      × (truthy (str order.device_id) ≡ true)
      × (truthy (str order.token) ≡ true)
      × (truthy (str (rstrip_slash order.api_base)) ≡ true)
unfolding is_valid known_product product_of
valid_order order h = (
  ground (arith, eq_iff "petshandler" order.product),
  ground arith,
  safe_is_truthy order.device_id (ground arith),
  token_is_truthy order.token (ground arith),
  known_is_truthy (codes "api.petshandler.com" ∷ codes "api-dev.petshandler.com" ∷ [])
      order.api_base (ground arith),
)
