-- ===== src/Registry/Load.antt =====
-- What `load` does with the ids that the registrations carry from their past:
-- `_index_stored_known_ids` and `_claim_legacy_id`.
use barhandler_manager.Prelude.{
  String, ◌||◌, Option, none, some, List, [], ◌∷◌, ◌==◌, string_eq, if◌then◌else◌,
}
use barhandler_manager.Prelude.Dict.{Dict, find, has, assign}
use barhandler_manager.Prelude.Order.{lower}
use barhandler_manager.Registry.Model.{Registry, Registration}

-- The id that an old id stands for, once `current` claims it and `held` stood there.
unfoldable pub settled_id : Dict Registration → Option String → String → String
settled_id regs none current = current
settled_id regs (some held) current =
    if held == current then current else if has regs held then lower held current else current

-- `_claim_legacy_id`
unfoldable pub claim_legacy_id : Dict Registration → String → String → Dict String → Dict String
unfolding settled_id
claim_legacy_id regs old current legacy =
    assign legacy old (settled_id regs (find legacy old) current)

-- The old ids of one registration.
unfoldable pub claim_each : Dict Registration → String → List String → Dict String → Dict String
unfolding claim_legacy_id
claim_each regs stored [] legacy = legacy
claim_each regs stored (old ∷ olds) legacy =
    claim_each regs stored olds
      (if old == stored || has regs old then legacy else claim_legacy_id regs old stored legacy)

unfoldable pub index_each : Dict Registration → Dict Registration → Dict String → Dict String
unfolding claim_each
index_each regs [] legacy = legacy
index_each regs (entry ∷ rest) legacy =
    index_each regs rest (claim_each regs entry.0 entry.1.known_ids legacy)

-- `_index_stored_known_ids`
unfoldable pub index_stored_known_ids : Registry → Registry
unfolding index_each
index_stored_known_ids r = record r {
  legacy_ids = index_each r.registrations r.registrations r.legacy_ids;
}
