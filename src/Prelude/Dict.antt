-- ===== src/Prelude/Dict.antt =====
-- Python's `dict` with texts for keys, in the order of insertion, by what a key finds.
use text.Mathlib.TextEquality.{eq_iff}
use barhandler_manager.Prelude.{
  String, ◌≡◌, refl, Bool, true, false, Option, none, some, List, [], ◌∷◌, arith, ◌==◌, string_eq,
  if◌then◌else◌,
}

abbrev pub Dict {ℓ} : Type ℓ → Type ℓ
Dict V = List (String × V)

abbrev pub is_some {ℓ} : {V : Type ℓ} → Option V → Bool
is_some none = false
is_some (some v) = true

module _ {ℓ} {V : Type ℓ} where
  -- `d.get(k)`
  unfoldable pub find : Dict V → String → Option V
  find [] k = none
  find (entry ∷ rest) k = let later = find rest k in if entry.0 == k then some entry.1 else later

  -- `k in d`
  abbrev pub has : Dict V → String → Bool
  has d k = is_some (find d k)

  -- `d[k] = v`: an old key keeps its place, a new one comes last.
  unfoldable pub assign : Dict V → String → V → Dict V
  assign [] k v = (k, v) ∷ []
  assign (entry ∷ rest) k v =
      let later = assign rest k v in if entry.0 == k then (k, v) ∷ rest else entry ∷ later

  -- `d.pop(k, None)`
  unfoldable pub pop : Dict V → String → Dict V
  pop [] k = []
  pop (entry ∷ rest) k = let later = pop rest k in if entry.0 == k then later else entry ∷ later

  -- `{k: v for k, v in d.items() if keep(v)}`
  unfoldable pub keep_values : (V → Bool) → Dict V → Dict V
  keep_values keep [] = []
  keep_values keep (entry ∷ rest) =
      let later = keep_values keep rest in if keep entry.1 then entry ∷ later else later

  -- `{k: f(v) for k, v in d.items()}`
  unfoldable pub map_values : (V → V) → Dict V → Dict V
  map_values f [] = []
  map_values f (entry ∷ rest) = (entry.0, f entry.1) ∷ map_values f rest

  -- `list(d.values())`
  unfoldable pub values : Dict V → List V
  values [] = []
  values (entry ∷ rest) = entry.1 ∷ values rest

  pub find-assign :
      (d : Dict V) (k j : String) (v : V)
      → find (assign d k v) j ≡ (if k == j then some v else find d j)
  unfolding find assign
  find-assign [] k j v = refl
  find-assign (entry ∷ rest) k j v =
      ground (arith, find-assign rest k j v, eq_iff entry.0 k, eq_iff entry.0 j, eq_iff k j)

  pub find-pop :
      (d : Dict V) (k j : String) → find (pop d k) j ≡ (if k == j then none else find d j)
  unfolding find pop
  find-pop [] k j = ground arith
  find-pop (entry ∷ rest) k j =
      ground (arith, find-pop rest k j, eq_iff entry.0 k, eq_iff entry.0 j, eq_iff k j)

  abbrev pub mapped : (V → V) → Option V → Option V
  mapped f none = none
  mapped f (some v) = some (f v)

  pub find-map_values :
      (f : V → V) (d : Dict V) (j : String) → find (map_values f d) j ≡ mapped f (find d j)
  unfolding find map_values
  find-map_values f [] j = refl
  find-map_values f (entry ∷ rest) j = ground (arith, find-map_values f rest j)

  -- No key stands twice.
  abbrev pub Unique : Dict V → Type ℓ
  Unique [] = Unit
  Unique (entry ∷ rest) = (find rest entry.0 ≡ none) × Unique rest

  pub Unique-assign : (d : Dict V) (k : String) (v : V) → Unique d → Unique (assign d k v)
  unfolding find assign
  Unique-assign [] k v u = (refl, tt)
  Unique-assign (entry ∷ rest) k v u = ground (
    arith,
    Unique-assign rest k v u.1,
    find-assign rest k entry.0 v,
    eq_iff entry.0 k,
    eq_iff k entry.0,
  )

  pub Unique-pop : (d : Dict V) (k : String) → Unique d → Unique (pop d k)
  unfolding find pop
  Unique-pop [] k u = tt
  Unique-pop (entry ∷ rest) k u = ground (arith, Unique-pop rest k u.1, find-pop rest k entry.0)

  pub Unique-map_values : (f : V → V) (d : Dict V) → Unique d → Unique (map_values f d)
  unfolding find map_values
  Unique-map_values f [] u = tt
  Unique-map_values f (entry ∷ rest) u =
      (rw (find-map_values f rest entry.0, u.0), Unique-map_values f rest u.1)

  abbrev pub filtered : (V → Bool) → Option V → Option V
  filtered keep none = none
  filtered keep (some v) = if keep v then some v else none

  keep_values_missing :
      (keep : V → Bool) (d : Dict V) (j : String)
      → find d j ≡ none
      → find (keep_values keep d) j ≡ none
  unfolding find keep_values
  keep_values_missing keep [] j h = refl
  keep_values_missing keep (entry ∷ rest) j h = ground (arith, keep_values_missing keep rest j)

  pub find-keep_values :
      (keep : V → Bool) (d : Dict V) (j : String)
      → Unique d
      → find (keep_values keep d) j ≡ filtered keep (find d j)
  unfolding find keep_values
  find-keep_values keep [] j u = refl
  find-keep_values keep (entry ∷ rest) j u = ground (
    arith,
    find-keep_values keep rest j u.1,
    keep_values_missing keep rest entry.0 u.0,
    eq_iff entry.0 j,
  )

  pub Unique-keep_values : (keep : V → Bool) (d : Dict V) → Unique d → Unique (keep_values keep d)
  unfolding find keep_values
  Unique-keep_values keep [] u = tt
  Unique-keep_values keep (entry ∷ rest) u =
      ground (arith, Unique-keep_values keep rest u.1, keep_values_missing keep rest entry.0 u.0)
