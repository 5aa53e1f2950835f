-- ===== src/Registry/Tests.antt =====
-- Runs of the registry, and its theorems at concrete inputs.
use text.Mathlib.TextEquality.{eq_iff}
use barhandler_manager.Prelude.{
  inl, inr, ◌↔◌, String, ◌≡◌, ◌⊎◌, refl, true, false, Option, none, some, List, [], ◌∷◌, string_eq,
  arith,
}
use barhandler_manager.Prelude.Dict.{assign, find, values}
use barhandler_manager.Registry.Model.{
  Registry, Registration, Descriptor, without, Request, Merchant, Kind, network, empty, ok,
  unknown_terminal,
}
use barhandler_manager.Registry.Ids.{resolve, get_registration}
use barhandler_manager.Registry.Changes.{
  register, registering, descriptor_for, left_id, registration_for, existing_of,
  discovered as found_in,
}
use barhandler_manager.Registry.Merchants.{indexed_nickname}
use barhandler_manager.Registry.Kept.{register_keeps_ids}
use barhandler_manager.Registry.Lives.{IsConsistent}
use barhandler_manager.Registry.Steps.{
  Op, discovered, registers, unregisters, refreshed, run, run-IsConsistent,
}
use barhandler_manager.Registry.Answers.{register_answers}
use barhandler_manager.Prelude.Order.{lower, text_leb}
use barhandler_manager.Registry.Load.{index_stored_known_ids, claim_legacy_id, settled_id}
use barhandler_manager.Registry.Claims.{Claimed, ClaimedBy}
use barhandler_manager.Registry.Loaded.{Claims, index_order_free}

abbrev terminal : String → Descriptor
terminal id = record {
  id = id;
  transport = network;
  label = "bar";
  kind = none;
  model = none;
  serial_number = none;
  address = none;
  serial_address = none;
}

abbrev merchant : Option String → Merchant
merchant nickname = record {
  merchant_id = "7";
  terminal_id = none;
  nickname = nickname;
  merchant_name = some "Bar";
}

abbrev request : String → Request
request id = record {
  id = id;
  kind = Kind.privat_pos;
  nickname = none;
  default_merchant_id = none;
  default_terminal_id = none;
  merchants = none;
}

abbrev old_registration : Registration
old_registration = record {
  descriptor = terminal "old";
  kind = Kind.privat_pos;
  nickname = some "bar";
  default_merchant_id = none;
  default_terminal_id = none;
  known_ids = [];
  merchants = merchant (some "the bar") ∷ [];
}

-- A registration that names old ids.
abbrev named : String → List String → Registration
named id known = record old_registration { descriptor = terminal id; known_ids = known }

-- A terminal that was found at a new address: its new id is known to be the old terminal.
abbrev moving : Registry
moving = record {
  registrations = ("old", old_registration) ∷ [];
  last_discovery = ("new", terminal "new") ∷ [];
  legacy_ids = ("new", "old") ∷ ("older", "old") ∷ [];
  stored = [];
}

moving_chosen : descriptor_for "new" (resolve "new" moving) moving ≡ some (terminal "new")
unfolding descriptor_for found_in find resolve
moving_chosen = refl

older_found : resolve "older" moving ≡ some "old"
unfolding resolve find
older_found = refl

register_keeps_ids_example : resolve "older" (register true (request "new") moving).1 ≡ some "new"
unfolding left_id resolve find
register_keeps_ids_example =
    register_keeps_ids true (request "new") moving (terminal "new") moving_chosen "older" "old"
      older_found

moving-IsConsistent : IsConsistent moving
unfolding find
moving-IsConsistent = record {
  keyed = λ k reg e. unfold find in ground (arith, eq_iff "old" k);
  staged = λ k d e. unfold find in ground (arith, eq_iff "new" k);
  live = λ k now e. unfold find in ground (arith, eq_iff "old" now);
  unshadowed =
      λ k now e f. unfold find in ground (arith, eq_iff "old" k, eq_iff "older" k, eq_iff "new" k);
  unique = (refl, (refl, tt));
}

-- What the tills are answered from now on.
abbrev moved : Registration
moved = record {
  descriptor = terminal "new";
  kind = Kind.privat_pos;
  nickname = none;
  default_merchant_id = none;
  default_terminal_id = none;
  known_ids = "old" ∷ [];
  merchants = merchant (some "the bar") ∷ [];
}

register_answers_example :
    (get_registration "new" (register true (request "new") moving).1 ≡ ok moved)
    × ((register true (request "new") moving).0 ≡ ok moved)
    × ((register true (request "new") moving).1.stored
        ≡ values (register true (request "new") moving).1.registrations)
unfolding registration_for existing_of left_id resolve find without
register_answers_example =
    register_answers true (request "new") moving (terminal "new") moving-IsConsistent moving_chosen

abbrev shift : List Op
shift =
    discovered (terminal "old" ∷ [])
    ∷ registers true (request "old")
    ∷ refreshed true "old" (merchant none ∷ [])
    ∷ unregisters false "old"
    ∷ []

run-IsConsistent_example : IsConsistent (run shift moving)
run-IsConsistent_example = run-IsConsistent shift moving moving-IsConsistent

old_found : find moving.registrations "old" ≡ some old_registration
unfolding find
old_found = refl

bar_named : indexed_nickname old_registration.merchants (merchant none) ≡ some "the bar"
unfolding indexed_nickname
bar_named = refl

empty_refuses : register true (request "old") (empty []) ≡ (unknown_terminal, empty [])
unfolding register registering descriptor_for found_in find resolve
empty_refuses = refl

-- Two registrations that name the same old id.
abbrev stored : Registry
stored = record (empty []) {
  registrations = ("b", named "b" ("x" ∷ [])) ∷ ("a", named "a" ("x" ∷ [])) ∷ [];
}

abbrev stored_otherwise : Registry
stored_otherwise = record (empty []) {
  registrations = ("a", named "a" ("x" ∷ [])) ∷ ("b", named "b" ("x" ∷ [])) ∷ [];
}

x_leads_to_a : find (index_stored_known_ids stored).legacy_ids "x" ≡ some "a"
unfolding index_stored_known_ids claim_legacy_id settled_id find assign lower text_leb
x_leads_to_a = refl

same-Claims : (c : String) → Claims stored "x" c ↔ Claims stored_otherwise "x" c
unfolding Claimed ClaimedBy find
same-Claims c = (swapped, swapped)
  where
    swapped : {A B C D : Type 0} → (A ⊎ C) ⊎ (B ⊎ C) ⊎ D → (B ⊎ C) ⊎ (A ⊎ C) ⊎ D
    swapped (inl x) = inr (inl x)
    swapped (inr (inl y)) = inl y
    swapped (inr (inr z)) = inr (inr z)

index_order_free_example :
    find (index_stored_known_ids stored).legacy_ids "x"
    ≡ find (index_stored_known_ids stored_otherwise).legacy_ids "x"
index_order_free_example = index_order_free stored stored_otherwise "x" refl refl same-Claims
