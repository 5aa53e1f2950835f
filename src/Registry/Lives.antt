-- ===== src/Registry/Lives.antt =====
-- The invariant of the registry, over whatever is discovered, registered and removed.
use text.Mathlib.TextEquality.{eq_iff}
use text.Mathlib.TextPositions.{eq_refl}
use barhandler_manager.Prelude.{
  String, ◌≡◌, refl, ◌⊎◌, inl, inr, true, false, Option, none, some, arith, ◌==◌, string_eq,
  if◌then◌else◌, Option-cases,
}
use barhandler_manager.Prelude.Dict.{
  find, has, pop, find-assign, find-pop, find-map_values, map_values, Unique, Unique-assign,
  Unique-map_values,
}
use barhandler_manager.Registry.Model.{Registry, Registration, Descriptor}
use barhandler_manager.Registry.Ids.{resolve}
use barhandler_manager.Registry.Changes.{
  registered, existing_of, without_left, moved_ids, descriptor_for, discovered,
}

-- A registration stands under the id of its descriptor, a discovered descriptor under its own; an old
-- id stands for an id that is registered, and is not itself registered, unless it stands for itself.
pub record IsConsistent (r : Registry) : Type 0 where
  pub keyed :
      (k : String) (reg : Registration) → find r.registrations k ≡ some reg → reg.descriptor.id ≡ k
  pub staged : (k : String) (d : Descriptor) → find r.last_discovery k ≡ some d → d.id ≡ k
  pub live : (k now : String) → find r.legacy_ids k ≡ some now → has r.registrations now ≡ true
  pub unshadowed :
      (k now : String) → has r.registrations k ≡ true → find r.legacy_ids k ≡ some now → now ≡ k
  pub unique : Unique r.legacy_ids

module _ (id : String) (r : Registry) (h : IsConsistent r) where
  -- The id that is looked up stands for a registered one, unless there is none at all.
  pub unknown :
      resolve id r ≡ none → (has r.registrations id ≡ false) × (find r.legacy_ids id ≡ none)
  unfolding resolve
  unknown e = elim (Option-cases (find r.legacy_ids id)) [
    | inl f ↦ ground arith
    | inr (now, f) ↦ ground (arith, h.live id now f)
  ]

  pub chosen_id :
      (d : Descriptor)
      → descriptor_for id (resolve id r) r ≡ some d
      → (d.id ≡ id) ⊎ (resolve id r ≡ some d.id)
  unfolding descriptor_for discovered existing_of
  chosen_id d e = elim (Option-cases (find r.last_discovery id)) [
    | inr (d', f) ↦ inl (ground (arith, h.staged id d' f))
    | inl f ↦ by_resolved (resolve id r) refl e f
  ]
    where
      by_resolved :
          (resolved : Option String)
          → resolve id r ≡ resolved
          → descriptor_for id resolved r ≡ some d
          → find r.last_discovery id ≡ none
          → (d.id ≡ id) ⊎ (resolve id r ≡ some d.id)
      by_resolved none e c f = ground arith
      by_resolved (some now) e c f = elim (Option-cases (find r.last_discovery now)) [
        | inr (d', g) ↦ elim (Option-cases (find r.registrations now)) [
          | inl p ↦ ground (arith, h.staged now d' g, e)
          | inr (reg, p) ↦ ground (arith, h.staged now d' g, h.keyed now reg p, e)
        ]
        | inl g ↦ elim (Option-cases (find r.registrations now)) [
          | inl p ↦ ground (arith, e)
          | inr (reg, p) ↦ ground (arith, h.keyed now reg p, e)
        ]
      ]

module _ (reg : Registration) (r : Registry) (h : IsConsistent r) where
  -- A terminal that keeps its id, or is new.
  pub placed-IsConsistent :
      (has r.registrations reg.descriptor.id ≡ true) ⊎ (find r.legacy_ids reg.descriptor.id ≡ none)
      → IsConsistent (registered reg none r)
  unfolding registered without_left moved_ids
  placed-IsConsistent free =
      let d = reg.descriptor.id in
      record {
        keyed =
            λ k x e. ground (arith, find-assign r.registrations d k reg, h.keyed k x, eq_iff d k);
        staged = h.staged;
        live = λ k now e. ground (arith, find-assign r.registrations d now reg, h.live k now e);
        unshadowed = λ k now e f.
            ground
              (arith, find-assign r.registrations d k reg, h.unshadowed k now, eq_iff d k, free);
        unique = h.unique;
      }

  -- A terminal that moves from `old`, an id that the new one stood for.
  pub moved-IsConsistent :
      (old : String)
      → has r.registrations old ≡ true
      → (old == reg.descriptor.id) ≡ false
      → find r.legacy_ids reg.descriptor.id ≡ some old
      → IsConsistent (registered reg (some old) r)
  unfolding registered without_left moved_ids
  moved-IsConsistent old held differ alias =
      let d = reg.descriptor.id in
      let regs = pop r.registrations old in
      let renamed = λ (now : String). if now == old then d else now in
      let ids = map_values renamed r.legacy_ids in
      record {
        keyed = λ k x e. ground (
          arith,
          find-assign regs d k reg,
          find-pop r.registrations old k,
          h.keyed k x,
          eq_iff d k,
        );
        staged = h.staged;
        live = λ k now e. elim (Option-cases (find r.legacy_ids k)) [
          | inl p ↦ ground (
            arith,
            find-assign regs d now reg,
            find-assign ids old k d,
            find-map_values renamed r.legacy_ids k,
            eq_iff d now,
            eq_refl d,
          )
          | inr (x, p) ↦ ground (
            arith,
            find-assign regs d now reg,
            find-pop r.registrations old now,
            find-assign ids old k d,
            find-map_values renamed r.legacy_ids k,
            h.live k x p,
            eq_iff d now,
            eq_iff old now,
            eq_iff x old,
          )
        ];
        unshadowed = λ k now e f. elim (Option-cases (find r.legacy_ids k)) [
          | inl p ↦ ground (
            arith,
            find-assign regs d k reg,
            find-pop r.registrations old k,
            find-assign ids old k d,
            find-map_values renamed r.legacy_ids k,
            eq_iff d k,
            eq_iff old k,
            eq_iff old d,
            alias,
          )
          | inr (x, p) ↦ ground (
            arith,
            find-assign regs d k reg,
            find-pop r.registrations old k,
            find-assign ids old k d,
            find-map_values renamed r.legacy_ids k,
            h.unshadowed k x,
            eq_iff d k,
            eq_iff old k,
            eq_iff x old,
            eq_iff old d,
            alias,
          )
        ];
        unique = Unique-assign ids old d (Unique-map_values renamed r.legacy_ids h.unique);
      }
