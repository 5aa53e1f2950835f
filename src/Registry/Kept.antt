-- ===== src/Registry/Kept.antt =====
-- What becomes of the ids by which the tills ask when a terminal is registered again or removed.
use text.Mathlib.TextEquality.{eq_iff}
use text.Mathlib.TextPositions.{eq_refl}
use barhandler_manager.Prelude.{
  String, ◌≡◌, refl, inl, inr, Bool, true, false, Option, none, some, arith, ◌∙◌, ◌==◌, string_eq,
  if◌then◌else◌, Bool-cases,
}
use barhandler_manager.Prelude.Dict.{has, pop, find-assign, find-pop, find-map_values, map_values}
use barhandler_manager.Registry.Model.{Registry, Registration, Descriptor, Request}
use barhandler_manager.Registry.Ids.{resolve}
use barhandler_manager.Registry.Changes.{
  register, registered, left_id, without_left, moved_ids, save, descriptor_for, registration_for,
  existing_of,
}

-- The id that stands for `now` once the terminal has moved from `left` to `id`.
abbrev pub moved_to : Option String → String → String → String
moved_to none id now = now
moved_to (some old) id now = if now == old then id else now

module _ (reg : Registration) (r : Registry) (i c : String) (found : resolve i r ≡ some c) where
  resolve-registered_in_place :
      resolve i (registered reg none r)
      ≡ some (if i == reg.descriptor.id then reg.descriptor.id else c)
  unfolding resolve registered without_left moved_ids
  resolve-registered_in_place = ground (
    arith,
    find-assign r.registrations reg.descriptor.id i reg,
    find-assign r.registrations reg.descriptor.id c reg,
    eq_iff reg.descriptor.id i,
    eq_iff i reg.descriptor.id,
    eq_iff reg.descriptor.id c,
  )

  resolve-registered_moved :
      (old : String)
      → has r.registrations old ≡ true
      → (old == reg.descriptor.id) ≡ false
      → resolve i (registered reg (some old) r)
        ≡ some (
            if i == reg.descriptor.id
            then reg.descriptor.id
            else moved_to (some old) reg.descriptor.id c)
  unfolding resolve registered without_left moved_ids
  resolve-registered_moved old held differ =
      let d = reg.descriptor.id in
      let regs = pop r.registrations old in
      let ids = map_values (λ now. if now == old then d else now) r.legacy_ids in
      ground (
        arith,
        find-assign regs d i reg,
        find-assign regs d c reg,
        find-assign regs d d reg,
        find-pop r.registrations old i,
        find-pop r.registrations old c,
        find-assign ids old i d,
        find-map_values (λ (now : String). if now == old then d else now) r.legacy_ids i,
        eq_iff d i,
        eq_iff i d,
        eq_iff d c,
        eq_iff old i,
        eq_iff c old,
        eq_iff old c,
        eq_iff old d,
        eq_refl d,
        eq_refl old,
      )

pub resolve-save :
    (written : Bool) (i : String) (r : Registry) → resolve i (save written r) ≡ resolve i r
unfolding resolve save
resolve-save true i r = refl
resolve-save false i r = refl

pub held : (r : Registry) (i c : String) → resolve i r ≡ some c → has r.registrations c ≡ true
unfolding resolve
held r i c h = ground arith

module _ (written : Bool) (req : Request) (r : Registry) (d : Descriptor)
    (chosen : descriptor_for req.id (resolve req.id r) r ≡ some d) where
  resolve-register :
      (i : String)
      → let left = left_id (resolve req.id r) d.id in
        let reg = registration_for req (existing_of r.registrations (resolve req.id r)) left d in
        resolve i (register written req r).1 ≡ resolve i (registered reg left r)
  unfolding register
  resolve-register i = rw chosen (resolve-save written i _)

  -- Registering a terminal loses no id that a till asks by: an id that reached a registration
  -- reaches the same one afterwards, or the new one if that was the registration replaced; the id
  -- of the descriptor reaches the new one. This holds whether or not the file could be written.
  pub register_keeps_ids :
      (i c : String)
      → resolve i r ≡ some c
      → resolve i (register written req r).1
        ≡ some (if i == d.id then d.id else moved_to (left_id (resolve req.id r) d.id) d.id c)
  unfolding left_id registration_for
  register_keeps_ids i c found = resolve-register i ∙ moved (resolve req.id r) refl
    where
      moved :
          (resolved : Option String)
          → resolve req.id r ≡ resolved
          → resolve i (
              registered
                (registration_for req
                  (existing_of r.registrations resolved)
                  (left_id resolved d.id)
                  d)
                (left_id resolved d.id)
                r)
            ≡ some (if i == d.id then d.id else moved_to (left_id resolved d.id) d.id c)
      moved none e = resolve-registered_in_place _ r i c found
      moved (some old) e = elim (Bool-cases (old == d.id)) [
        | inl same ↦ rw same (resolve-registered_in_place _ r i c found)
        | inr other ↦
            rw other (resolve-registered_moved _ r i c found old (held r req.id old e) other)
      ]
