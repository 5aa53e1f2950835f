-- ===== src/Registry/Nicknames.antt =====
-- What a refresh of the merchants of a terminal (`merge_merchant_list`) keeps: the names that the
-- operator gave, and what the bank says of each merchant.
use text.Mathlib.TextEquality.{eq_iff}
use text.Mathlib.TextPositions.{eq_refl}
use barhandler_manager.Prelude.{
  String, ◌≡◌, refl, inl, inr, Bool, true, false, ◌||◌, none, some, List, [], ◌∷◌, map, arith, ◌==◌,
  string_eq, if◌then◌else◌, Option-cases, Bool-cases,
}
use barhandler_manager.Prelude.Dict.{find, find-assign}
use barhandler_manager.Registry.Model.{Registry, Registration, Merchant, text_of}
use barhandler_manager.Registry.Ids.{resolve}
use barhandler_manager.Registry.Changes.{save, existing_of}
use barhandler_manager.Registry.Merchants.{
  same_key, indexed_nickname, merged, merging, merge_merchant_list, with_merchants,
}

-- What the bank says of a merchant: all but the nickname.
abbrev pub from_bank : Merchant → Merchant
from_bank m = record m { nickname = none }

-- Whether a merchant of the same key is among these.
abbrev pub any_same : List Merchant → Merchant → Bool
any_same [] m = false
any_same (x ∷ xs) m = let later = any_same xs m in same_key x m || later

merged-from_bank :
    (stored fresh : List Merchant) → map from_bank (merged stored fresh) ≡ map from_bank fresh
unfolding merged
merged-from_bank stored [] = refl
merged-from_bank stored (m ∷ fresh) = rw (merged-from_bank stored fresh)

indexed_is_given :
    (stored : List Merchant) (m : Merchant) (n : String)
    → indexed_nickname stored m ≡ some n
    → (n == "") ≡ false
unfolding indexed_nickname
indexed_is_given [] m n h = cc h
indexed_is_given (s ∷ stored) m n h = elim (Option-cases (indexed_nickname stored m)) [
  | inr (later, e) ↦ ground (arith, indexed_is_given stored m n)
  | inl e ↦ elim (Option-cases s.nickname) [ inl p ↦ ground arith | inr (x, p) ↦ ground arith ]
]

same_key_trans : (s x m : Merchant) → same_key x m ≡ true → same_key s x ≡ same_key s m
same_key_trans s x m h = ground (
  arith,
  eq_iff x.merchant_id m.merchant_id,
  eq_iff (text_of x.terminal_id) (text_of m.terminal_id),
)

indexed_same :
    (stored : List Merchant) (x m : Merchant)
    → same_key x m ≡ true
    → indexed_nickname stored x ≡ indexed_nickname stored m
unfolding indexed_nickname
indexed_same [] x m h = refl
indexed_same (s ∷ stored) x m h = ground (arith, indexed_same stored x m h, same_key_trans s x m h)

module _ (stored : List Merchant) (m : Merchant) (n : String)
    (named : indexed_nickname stored m ≡ some n) where
  indexed-merged :
      (fresh : List Merchant)
      → indexed_nickname (merged stored fresh) m ≡ (if any_same fresh m then some n else none)
  unfolding merged
  indexed-merged [] = unfold indexed_nickname in refl
  indexed-merged (x ∷ fresh) = elim (Bool-cases (same_key x m)) [
    | inl same ↦
        unfold indexed_nickname in
        ground (
          arith,
          indexed-merged fresh,
          indexed_same stored x m same,
          indexed_is_given stored m n named,
        )
    | inr other ↦ unfold indexed_nickname in ground (arith, indexed-merged fresh)
  ]

existing-found :
    (r : Registry) (now : String) (reg : Registration)
    → find r.registrations now ≡ some reg
    → (now == "") ≡ false
    → existing_of r.registrations (some now) ≡ some reg
unfolding existing_of
existing-found r now reg e h = ground arith

-- The terminal after a refresh, whether or not the file could be written.
refreshed :
    (written : Bool) (id now : String) (fresh : List Merchant) (r : Registry) (reg : Registration)
    → resolve id r ≡ some now
    → find r.registrations now ≡ some reg
    → (now == "") ≡ false
    → find (merge_merchant_list written id fresh r).1.registrations now
      ≡ some (record reg { merchants = merged reg.merchants fresh })
unfolding merge_merchant_list merging with_merchants save
refreshed true id now fresh r reg e f h = rw (
  e,
  existing-found r now reg f h,
  find-assign r.registrations now now (record reg { merchants = merged reg.merchants fresh }),
  eq_refl now,
)
refreshed false id now fresh r reg e f h = rw (
  e,
  existing-found r now reg f h,
  find-assign r.registrations now now (record reg { merchants = merged reg.merchants fresh }),
  eq_refl now,
)

-- A refresh of the merchants of a registered terminal keeps what the bank sent, in its order, and
-- keeps the names of the operator: a merchant that had a name and that the bank still sends is
-- found under the same name afterwards. This holds whether or not the file could be written.
pub refresh_keeps_nicknames :
    (written : Bool) (id now : String) (fresh : List Merchant) (r : Registry) (reg : Registration)
    (m : Merchant) (n : String)
    → resolve id r ≡ some now
    → find r.registrations now ≡ some reg
    → (now == "") ≡ false
    → indexed_nickname reg.merchants m ≡ some n
    → any_same fresh m ≡ true
    → (reg' : Registration) × (find (merge_merchant_list written id fresh r).1.registrations now
        ≡ some reg')
      × (map from_bank reg'.merchants ≡ map from_bank fresh)
      × (indexed_nickname reg'.merchants m ≡ some n)
refresh_keeps_nicknames written id now fresh r reg m n e f h named sent = (
  record reg { merchants = merged reg.merchants fresh },
  refreshed written id now fresh r reg e f h,
  merged-from_bank reg.merchants fresh,
  rw (indexed-merged reg.merchants m n named fresh, sent) refl,
)
