-- ===== src/Busy/Routes.antt =====
-- The tables of busy.py and the guard that the device routers carry: `operation_keys`,
-- `critical_label`, `_worth_reporting` and the dependency of `guard_critical`.
use Prim.Native.String.{◌++◌ as ◌<>◌}
use text.Mathlib.TextPositions.{eq_refl}
use barhandler_manager.Prelude.{
  ℕ, String, ◌≡◌, refl, Bool, true, false, not, ◌&&◌, ◌||◌, Option, none, some, List, [], ◌∷◌, ◌++◌,
  arith, ◌==◌, string_eq, if◌then◌else◌, inl, inr, ◌⊎◌,
}
use barhandler_manager.Busy.Tracker.{Tracker, enter}

-- A method and a path.
abbrev pub Key : Type 0
Key = String × String

abbrev pub same : Key → Key → Bool
same (m, p) (n, q) = m == n && p == q

unfoldable pub has_key : Key → List Key → Bool
has_key k [] = false
has_key k (j ∷ js) = same j k || has_key k js

-- A table from keys to the text for a person.
unfoldable pub label_of : List (Key × String) → Key → Option String
label_of [] k = none
label_of ((j, label) ∷ table) k = if same j k then some label else label_of table k

-- `CRITICAL_OPERATIONS`
abbrev pub critical_operations : List (Key × String)
critical_operations =
    (("POST", "/terminal/charge"), "оплата карткою")
    ∷ (("POST", "/terminal/refund"), "повернення на картку")
    ∷ (("POST", "/terminal/{terminal_id}/cancel"), "скасування оплати на терміналі")
    ∷ (("POST", "/print/receipt"), "друк чека")
    ∷ (("POST", "/print/fiscal"), "друк фіскального чека")
    ∷ (("POST", "/print/text"), "друк")
    ∷ (("POST", "/print/lines"), "друк")
    ∷ (("POST", "/print/label"), "друк етикетки")
    ∷ (("POST", "/print/kitchen"), "друк замовлення на кухню")
    ∷ (("POST", "/drawer/open"), "відкриття грошової скриньки")
    ∷ (("POST", "/fiscal/it/document"), "реєстрація фіскального документа")
    ∷ (("POST", "/fiscal/it/z"), "закриття зміни (Z-звіт)")
    ∷ (("POST", "/fiscal/it/x"), "X-звіт")
    ∷ (("POST", "/fiscal/it/reprint"), "повторний друк фіскального документа")
    ∷ []

-- `SAFE_OPERATIONS`
abbrev pub safe_operations : List Key
safe_operations =
    ("POST", "/terminal/discover")
    ∷ ("GET", "/terminal")
    ∷ ("POST", "/terminal/register")
    ∷ ("POST", "/terminal/register-manual")
    ∷ ("POST", "/terminal/serial-scan")
    ∷ ("POST", "/terminal/register-serial")
    ∷ ("POST", "/terminal/{terminal_id}/ping")
    ∷ ("GET", "/terminal/{terminal_id}/info")
    ∷ ("GET", "/terminal/{terminal_id}/merchants")
    ∷ ("PUT", "/terminal/{terminal_id}/merchants")
    ∷ ("DELETE", "/terminal/{terminal_id}")
    ∷ ("GET", "/terminal/{terminal_id}/last-result")
    ∷ ("GET", "/fiscal/it/status")
    ∷ []

-- `operation_keys`: the path as it is, and behind the router's prefix
unfoldable pub operation_keys : String → String → String → List Key
operation_keys method prefix route_path = (method, route_path) ∷ (method, prefix <> route_path) ∷ []

first_label : List Key → Option String
first_label [] = none
first_label (k ∷ ks) =
    let rest = first_label ks in
    elim (label_of critical_operations k) [ none ↦ rest | some label ↦ some label ]

unfoldable pub critical_label : String → String → String → Option String
unfolding first_label operation_keys
critical_label method prefix route_path = first_label (operation_keys method prefix route_path)

any_safe : List Key → Bool
any_safe [] = false
any_safe (k ∷ ks) = has_key k safe_operations || any_safe ks

-- `_worth_reporting`, over the routes in `_reported`
unfoldable pub worth_reporting : String → String → String → List Key → Bool × List Key
unfolding operation_keys any_safe
worth_reporting method prefix route_path reported =
    if not (route_path == "") && any_safe (operation_keys method prefix route_path)
    then (false, reported)
    else if has_key (method, route_path) reported
    then (false, reported)
    else (true, (method, route_path) ∷ reported)

-- What a request meets at the guard: the number that it holds, if it is critical, whether a
-- warning was written, the tracker and the routes already reported.
pub record Guarded : Type 0 where
  pub held : Option ℕ
  pub warned : Bool
  pub tracker : Tracker
  pub reported : List Key

abbrev held_by : String → Tracker → List Key → Guarded
held_by label t reported = record {
  held = some (enter label t).0;
  warned = false;
  tracker = (enter label t).1;
  reported = reported;
}

abbrev passed_by : Bool × List Key → Tracker → Guarded
passed_by (warned, reported) t = record {
  held = none;
  warned = warned;
  tracker = t;
  reported = reported;
}

-- The dependency of `guard_critical`, up to where the request goes on.
unfoldable pub guard_critical : String → String → String → Tracker → List Key → Guarded
unfolding critical_label worth_reporting enter
guard_critical prefix method route_path t reported =
    elim (critical_label method prefix route_path) [
      | none ↦ passed_by (worth_reporting method prefix route_path reported) t
      | some label ↦ held_by label t reported
    ]

module _ (prefix method route_path : String) (t : Tracker) (reported : List Key) where
  abbrev direct : Option String
  direct = label_of critical_operations (method, route_path)

  abbrev behind : Option String
  behind = label_of critical_operations (method, prefix <> route_path)

  -- The request goes by, and neither of its shapes is in the table.
  abbrev pub GoesBy : Guarded → Type 0
  GoesBy g = (g.held ≡ none) × (direct ≡ none) × (behind ≡ none) × (g.tracker ≡ t)

  -- The request is held under a label that the table gives one of its shapes.
  abbrev pub IsHeld : Guarded → Type 0
  IsHeld g =
      (label : String) × ((direct ≡ some label) ⊎ (behind ≡ some label))
      × (g.held ≡ some t.next_id)
      × (g.tracker.active ≡ t.active ++ (t.next_id, label) ∷ [])
      × (g.warned ≡ false)

  -- A request goes by only if neither its path nor the path behind the router's prefix is in the
  -- table, and then the tracker stays as it is. Otherwise the tracker gains an operation under the
  -- label of the table, and no warning is written.
  pub guard_critical_exact :
      GoesBy (guard_critical prefix method route_path t reported)
      ⊎ IsHeld (guard_critical prefix method route_path t reported)
  unfolding guard_critical
  guard_critical_exact = by_labels direct behind refl refl
    where
      by_labels :
          (d b : Option String)
          → direct ≡ d
          → behind ≡ b
          → GoesBy (guard_critical prefix method route_path t reported)
            ⊎ IsHeld (guard_critical prefix method route_path t reported)
      by_labels (some label) b e f =
          inr (label, inl e, ground (arith, e), ground (arith, e), ground (arith, e))
      by_labels none (some label) e f =
          inr (label, inr f, ground (arith, e, f), ground (arith, e, f), ground (arith, e, f))
      by_labels none none e f = inl (ground (arith, e, f), e, f, ground (arith, e, f))

has_key_cons : (k : Key) (ks : List Key) → has_key k (k ∷ ks) ≡ true
unfolding has_key
has_key_cons (m, p) ks = ground (arith, eq_refl m, eq_refl p)
