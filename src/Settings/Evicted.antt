-- ===== src/Settings/Evicted.antt =====
-- Which shops a save takes out: as many as exceed the room, and of the others the oldest ones.
use mathlib.Core.List.{Permᴰ}
use mathlib.Core.List.Permᴰ as Perm
use barhandler_manager.Prelude.{
  ℕ, zero, suc, ◌-◌, ◌≡◌, ◌∙◌, refl, sym, subst, ap, inl, inr, Bool-cases, [], ◌∷◌, ◌++◌, String,
  take, drop, length, length-take, take-append-drop, min, arith, string_eq,
}
use barhandler_manager.Prelude.Int.{ℤ, ◌≤ℤ◌, leb_ℤ}
use barhandler_manager.Prelude.Dict.{Dict}
use barhandler_manager.Json.{Fields}
use barhandler_manager.Settings.Station.{
  order_of, max_shops, insert, sorted, others, pop_all, evicted,
}

-- Every shop of the list was saved at this order or later.
abbrev pub Later : ℤ → Dict Fields → Type 0
Later z [] = Unit
Later z (entry ∷ rest) = (z ≤ℤ order_of entry.1) × Later z rest

-- The orders grow along the list.
abbrev Grows : Dict Fields → Type 0
Grows [] = Unit
Grows (entry ∷ rest) = Later (order_of entry.1) rest × Grows rest

-- No shop of the first list was saved after one of the second.
abbrev pub Older : Dict Fields → Dict Fields → Type 0
Older [] rest = Unit
Older (entry ∷ out) rest = Later (order_of entry.1) rest × Older out rest

Later-weaken : (y z : ℤ) (d : Dict Fields) → y ≤ℤ z → Later z d → Later y d
Later-weaken y z [] h l = tt
Later-weaken y z (entry ∷ d) h (first, l) = (omega (arith, h, first), Later-weaken y z d h l)

Later-insert :
    (z : ℤ) (entry : String × Fields) (d : Dict Fields)
    → z ≤ℤ order_of entry.1
    → Later z d
    → Later z (insert entry d)
unfolding insert
Later-insert z entry [] h l = (h, tt)
Later-insert z entry (next ∷ d) h (first, l) =
    elim (Bool-cases (leb_ℤ (order_of entry.1) (order_of next.1))) [
      | inl e ↦ rw e (h, (first, l))
      | inr e ↦ rw e (first, Later-insert z entry d h l)
    ]

Grows-insert : (entry : String × Fields) (d : Dict Fields) → Grows d → Grows (insert entry d)
unfolding insert
Grows-insert entry [] g = (tt, tt)
Grows-insert entry (next ∷ d) (first, g) =
    elim (Bool-cases (leb_ℤ (order_of entry.1) (order_of next.1))) [
      | inl e ↦
          let below : order_of entry.1 ≤ℤ order_of next.1 = ground arith in
          rw e
            ((below, Later-weaken (order_of entry.1) (order_of next.1) d below first), (first, g))
      | inr e ↦
          let above : order_of next.1 ≤ℤ order_of entry.1 = ground arith in
          rw e (Later-insert (order_of next.1) entry d above first, Grows-insert entry d g)
    ]

Grows-sorted : (d : Dict Fields) → Grows (sorted d)
unfolding sorted
Grows-sorted [] = tt
Grows-sorted (entry ∷ d) = Grows-insert entry (sorted d) (Grows-sorted d)

Perm-insert : (entry : String × Fields) (d : Dict Fields) → Permᴰ (insert entry d) (entry ∷ d)
unfolding insert
Perm-insert entry [] = Perm.refl (entry ∷ [])
Perm-insert entry (next ∷ d) = elim (Bool-cases (leb_ℤ (order_of entry.1) (order_of next.1))) [
  | inl e ↦ rw e (Perm.refl (entry ∷ next ∷ d))
  | inr e ↦ rw e (Permᴰ.trans (Permᴰ.cons refl (Perm-insert entry d)) (Permᴰ.swap refl refl))
]

Perm-sorted : (d : Dict Fields) → Permᴰ (sorted d) d
unfolding sorted
Perm-sorted [] = Permᴰ.nil
Perm-sorted (entry ∷ d) =
    Permᴰ.trans (Perm-insert entry (sorted d)) (Permᴰ.cons refl (Perm-sorted d))

length-Perm : {d e : Dict Fields} → Permᴰ d e → length d ≡ length e
length-Perm Permᴰ.nil = refl
length-Perm (Permᴰ.cons same p) = ap suc (length-Perm p)
length-Perm (Permᴰ.swap f g) = refl
length-Perm (Permᴰ.trans p q) = length-Perm p ∙ length-Perm q

Later-drop : (z : ℤ) (n : ℕ) (d : Dict Fields) → Later z d → Later z (drop n d)
Later-drop z zero d l = l
Later-drop z (suc n) [] l = tt
Later-drop z (suc n) (entry ∷ d) (first, l) = Later-drop z n d l

Older-take : (n : ℕ) (d : Dict Fields) → Grows d → Older (take n d) (drop n d)
Older-take zero d g = tt
Older-take (suc n) [] g = tt
Older-take (suc n) (entry ∷ d) (first, g) =
    (Later-drop (order_of entry.1) n d first, Older-take n d g)

-- The shops of `next` that stay, where `k` was saved: those that go are of the others, as many as there
-- are more than ten, and none of them was saved after another one that stays.
unfoldable pub Keeps : String → Dict Fields → Dict Fields → Type 0
Keeps k next kept =
    (out rest : Dict Fields) × Permᴰ (out ++ rest) (others k next)
    × (length out ≡ min (length next - max_shops) (length (others k next)))
    × Older out rest
    × (kept ≡ pop_all out next)

pub evicted-Keeps : (k : String) (next : Dict Fields) → Keeps k next (evicted k next)
unfolding Keeps evicted
evicted-Keeps k next =
    let n = length next - max_shops in
    let all = sorted (others k next) in
    let same = Perm-sorted (others k next) in
    (
      take n all,
      drop n all,
      subst (λ d. Permᴰ d (others k next)) (sym (take-append-drop n all)) same,
      length-take n all ∙ ap (min n) (length-Perm same),
      Older-take n all (Grows-sorted (others k next)),
      refl,
    )
