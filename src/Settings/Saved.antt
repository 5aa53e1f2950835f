-- ===== src/Settings/Saved.antt =====
-- What a save leaves behind, however it ends.
use barhandler_manager.Prelude.{
  ℕ, zero, suc, ◌-◌, ◌≡◌, refl, ◌∙◌, ◌⊎◌, inl, inr, Bool-cases, Bool, true, false, Option, none,
  some, [], ◌∷◌, String, take, length, ◌==◌, string_eq,
}
use barhandler_manager.Prelude.Int.{leb_ℤ}
use barhandler_manager.Prelude.Dict.{Dict, find, assign, pop, find-assign, find-pop}
use barhandler_manager.Json.{Json, Fields}
use barhandler_manager.Settings.Evicted.{Keeps, evicted-Keeps}
use barhandler_manager.Settings.Station.{
  Station, Answer, refused, broken, saved, order_of, max_shops, insert, sorted, others, pop_all,
  evicted, written, plus_one, shop_of, cleaned, blob_of, next_shops, keep, keep_or_refuse, save,
  size,
}

-- No entry for this shop
Avoids : String → Dict Fields → Type 0
Avoids k [] = Unit
Avoids k (entry ∷ rest) = ((entry.0 == k) ≡ false) × Avoids k rest

others-Avoids : (k : String) (d : Dict Fields) → Avoids k (others k d)
unfolding others Avoids
others-Avoids k [] = tt
others-Avoids k (entry ∷ rest) = elim (Bool-cases (entry.0 == k)) [
  | inl e ↦ rw e (others-Avoids k rest)
  | inr e ↦ rw e (e, others-Avoids k rest)
]

insert-Avoids :
    (k : String) (entry : String × Fields) (d : Dict Fields)
    → (entry.0 == k) ≡ false
    → Avoids k d
    → Avoids k (insert entry d)
unfolding insert Avoids
insert-Avoids k entry [] other rest = (other, tt)
insert-Avoids k entry (next ∷ d) other (first, rest) =
    elim (Bool-cases (leb_ℤ (order_of entry.1) (order_of next.1))) [
      | inl e ↦ rw e (other, (first, rest))
      | inr e ↦ rw e (first, insert-Avoids k entry d other rest)
    ]

sorted-Avoids : (k : String) (d : Dict Fields) → Avoids k d → Avoids k (sorted d)
unfolding sorted Avoids
sorted-Avoids k [] h = tt
sorted-Avoids k (entry ∷ d) (other, rest) =
    insert-Avoids k entry (sorted d) other (sorted-Avoids k d rest)

take-Avoids : (k : String) (n : ℕ) (d : Dict Fields) → Avoids k d → Avoids k (take n d)
unfolding Avoids
take-Avoids k zero d h = tt
take-Avoids k (suc n) [] h = tt
take-Avoids k (suc n) (entry ∷ d) (other, rest) = (other, take-Avoids k n d rest)

find-pop_all : (out d : Dict Fields) (k : String) → Avoids k out → find (pop_all out d) k ≡ find d k
unfolding pop_all Avoids
find-pop_all [] d k h = refl
find-pop_all (entry ∷ out) d k (other, rest) =
    find-pop_all out (pop d entry.0) k rest ∙ find-pop d entry.0 k ∙ rw other refl

popped :
    (d : Dict Fields) (j k : String) → (find (pop d j) k ≡ find d k) ⊎ (find (pop d j) k ≡ none)
popped d j k = elim (Bool-cases (j == k)) [
  | inl e ↦ inr (find-pop d j k ∙ rw e refl)
  | inr e ↦ inl (find-pop d j k ∙ rw e refl)
]

kept_or_gone :
    (out d : Dict Fields) (k : String)
    → (find (pop_all out d) k ≡ find d k) ⊎ (find (pop_all out d) k ≡ none)
unfolding pop_all
kept_or_gone [] d k = inl refl
kept_or_gone (entry ∷ out) d k = elim (kept_or_gone out (pop d entry.0) k) [
  | inr gone ↦ inr gone
  | inl same ↦ elim (popped d entry.0 k) [
    | inl kept ↦ inl (same ∙ kept)
    | inr gone ↦ inr (same ∙ gone)
  ]
]

string_refl : (k : String) → (k == k) ≡ true
string_refl k = (string_eq.agree_iff k k).1 refl

find-next_shops :
    (k : String) (blob : Fields) (d : Dict Fields) → find (next_shops k blob d) k ≡ some blob
unfolding next_shops evicted
find-next_shops k blob d =
    let next = assign d k blob in
    find-pop_all (take (length next - max_shops) (sorted (others k next))) next k (
      take-Avoids k (length next - max_shops) (sorted (others k next))
        (sorted-Avoids k (others k next) (others-Avoids k next)))
    ∙ find-assign d k k blob
    ∙ rw (string_refl k) refl

others_kept :
    (k : String) (blob : Fields) (d : Dict Fields) (j : String)
    → (k ≡ j) ⊎ (find (next_shops k blob d) j ≡ find d j) ⊎ (find (next_shops k blob d) j ≡ none)
unfolding next_shops evicted
others_kept k blob d j =
    let next = assign d k blob in
    elim (Bool-cases (k == j)) [
      | inl e ↦ inl ((string_eq.agree_iff k j).0 e)
      | inr other ↦
          let same : find next j ≡ find d j = find-assign d k j blob ∙ rw other refl in
          elim (kept_or_gone (take (length next - max_shops) (sorted (others k next))) next j) [
            | inl e ↦ inr (inl (e ∙ same))
            | inr gone ↦ inr (inr gone)
          ]
    ]

-- What holds after a save, by how it ended. One that was refused has changed nothing, and the name of
-- the shop or the settings are not such as are kept. One that the disk refused has left the shops and
-- the file as they were. One that was answered has kept these settings under a new order, written them,
-- and changed nothing of another shop unless it was taken out; and of the others it took out as many
-- as there were more than ten, the oldest ones.
unfoldable pub Ends :
    String → String → Option String → Option Fields → Station → Answer → Station → Type 0
Ends fresh now shop settings s refused s' = (s' ≡ s) × ((shop ≡ none) ⊎ (settings ≡ none))
Ends fresh now shop settings s broken s' = (s'.shops ≡ s.shops) × (s'.file ≡ s.file)
Ends fresh now shop settings s (saved id at' count) s' =
    (k : String) × (items : Fields) × (shop ≡ some k)
    × (settings ≡ some items)
    × (find s'.shops k ≡ some (blob_of fresh now (plus_one s.saves) items))
    × (s'.file ≡ written s'.shops)
    × ((j : String) → (k ≡ j) ⊎ (find s'.shops j ≡ find s.shops j) ⊎ (find s'.shops j ≡ none))
    × Keeps k (assign s.shops k (blob_of fresh now (plus_one s.saves) items)) s'.shops
    × (id ≡ fresh)
    × (at' ≡ now)
    × (count ≡ size items)

kept-Ends :
    (writable : Bool) (fresh now : String) (shop : Option String) (settings : Option Fields)
    (s : Station)
    → let (answer, s') = keep_or_refuse writable fresh now shop settings s in
      Ends fresh now shop settings s answer s'
unfolding keep_or_refuse keep Ends next_shops
kept-Ends true fresh now (some k) (some items) s =
    let blob = blob_of fresh now (plus_one s.saves) items in
    (
      k,
      items,
      refl,
      refl,
      find-next_shops k blob s.shops,
      refl,
      others_kept k blob s.shops,
      evicted-Keeps k (assign s.shops k blob),
      refl,
      refl,
      refl,
    )
kept-Ends false fresh now (some k) (some items) s = (refl, refl)
kept-Ends writable fresh now none settings s = (refl, inl refl)
kept-Ends writable fresh now (some k) none s = (refl, inr refl)

-- A save that is refused changes nothing, and is refused only for the name of the shop or the settings.
-- One that the disk refuses leaves the shops in memory and the file as they were. One that is answered
-- has kept the settings of its shop, never taken out for want of room, has written the file from
-- what is in memory, and leaves another shop as it was or takes it out: it takes out as many as there
-- are more than ten, and none that was saved after another one that stays.
pub save-Ends :
    (writable : Bool) (fresh now : String) (appid items : Json) (s : Station)
    → Ends fresh now
        (shop_of appid)
        (cleaned items)
        s
        (save writable fresh now appid items s).0
        (save writable fresh now appid items s).1
unfolding save
save-Ends writable fresh now appid items s =
    kept-Ends writable fresh now (shop_of appid) (cleaned items) s
