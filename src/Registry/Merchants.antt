-- ===== src/Registry/Merchants.antt =====
-- The merchants of a terminal: `update_merchants` and `merge_merchant_list`.
use barhandler_manager.Prelude.{
  String, Bool, ◌&&◌, Option, none, some, List, [], ◌∷◌, ◌==◌, string_eq, if◌then◌else◌,
}
use barhandler_manager.Prelude.Dict.{find, assign}
use barhandler_manager.Registry.Model.{
  Registry, Registration, Merchant, Answer, ok, unknown_terminal, is_given, text_of, or_text,
}
use barhandler_manager.Registry.Ids.{resolve}
use barhandler_manager.Registry.Changes.{save, saved, existing_of}

-- `(m.merchant_id, m.terminal_id or "")`
abbrev pub same_key : Merchant → Merchant → Bool
same_key m n = m.merchant_id == n.merchant_id && text_of m.terminal_id == text_of n.terminal_id

-- `nickname_index.get(key)`: the nickname of the last stored merchant of that key that has one.
unfoldable pub indexed_nickname : List Merchant → Merchant → Option String
indexed_nickname [] m = none
indexed_nickname (s ∷ stored) m =
    let later = indexed_nickname stored m in
    elim later [
      | some nickname ↦ some nickname
      | none ↦ if same_key s m && is_given s.nickname then s.nickname else none
    ]

-- The fresh merchants, under the stored nicknames.
unfoldable pub merged : List Merchant → List Merchant → List Merchant
unfolding indexed_nickname
merged stored [] = []
merged stored (m ∷ fresh) =
    record m { nickname = or_text (indexed_nickname stored m) m.nickname } ∷ merged stored fresh

unfoldable pub with_merchants : String → Registration → List Merchant → Registry → Registry
with_merchants id reg merchants r = record r {
  registrations = assign r.registrations id (record reg { merchants = merchants });
}

unfoldable pub updated :
    Bool → List Merchant → Registry → Option String → Answer Registration × Registry
unfolding with_merchants save
updated written merchants r none = (unknown_terminal, r)
updated written merchants r (some id) = elim (find r.registrations id) [
  | none ↦ (unknown_terminal, r)
  | some reg ↦
      saved written (record reg { merchants = merchants }) (with_merchants id reg merchants r)
]

-- `update_merchants`
unfoldable pub update_merchants :
    Bool → String → List Merchant → Registry → Answer Registration × Registry
unfolding updated resolve
update_merchants written id merchants r = updated written merchants r (resolve id r)

unfoldable pub merging :
    Bool
    → List Merchant
    → Registry
    → Option String
    → Option Registration
    → Answer (List Merchant) × Registry
unfolding with_merchants merged save
merging written fresh r (some id) (some reg) =
    saved written (merged reg.merchants fresh)
      (with_merchants id reg (merged reg.merchants fresh) r)
merging written fresh r _ _ = (ok (merged [] fresh), r)

-- `merge_merchant_list`
unfoldable pub merge_merchant_list :
    Bool → String → List Merchant → Registry → Answer (List Merchant) × Registry
unfolding merging
merge_merchant_list written id fresh r =
    merging written fresh r (resolve id r) (existing_of r.registrations (resolve id r))
