-- ===== src/Registry/Answers.antt =====
-- What a till is answered after a terminal was registered or removed.
use text.Mathlib.TextEquality.{eq_iff}
use text.Mathlib.TextPositions.{eq_refl}
use barhandler_manager.Prelude.{
  String, ◌≡◌, refl, ◌⊎◌, inl, inr, Bool, true, false, not, Option, none, some, arith, ◌==◌,
  string_eq, if◌then◌else◌, Option-cases, Bool-cases, ◌∙◌,
}
use barhandler_manager.Prelude.Dict.{
  find, pop, find-pop, find-keep_values, keep_values, find-assign, values,
}
use barhandler_manager.Registry.Model.{
  Registry, Registration, Descriptor, Request, ok, unknown_terminal, not_written,
}
use barhandler_manager.Registry.Ids.{resolve, get_registration}
use barhandler_manager.Registry.Changes.{
  unregister, removing, save, register, registering, registered, registration_for, existing_of,
  left_id, without_left, descriptor_for,
}
use barhandler_manager.Registry.Kept.{resolve-save, register_keeps_ids}
use barhandler_manager.Registry.Lives.{IsConsistent, chosen_id}

-- The id that is reached, once the terminal `gone` is removed.
abbrev pub unless_gone : String → Option String → Option String
unless_gone gone none = none
unless_gone gone (some now) = if now == gone then none else some now

module _ (r : Registry) (h : IsConsistent r) (now i : String) where
  resolve-removed :
      resolve i (record r {
        registrations = pop r.registrations now;
        legacy_ids = keep_values (λ stands_for. not (stands_for == now)) r.legacy_ids;
      })
      ≡ unless_gone now (resolve i r)
  unfolding resolve
  resolve-removed = elim (Option-cases (find r.legacy_ids i)) [
    | inl e ↦ ground (
      arith,
      find-keep_values (λ (s : String). not (s == now)) r.legacy_ids i h.unique,
      find-pop r.registrations now i,
      eq_iff now i,
      eq_iff i now,
    )
    | inr (x, e) ↦ ground (
      arith,
      find-keep_values (λ (s : String). not (s == now)) r.legacy_ids i h.unique,
      find-pop r.registrations now i,
      find-pop r.registrations now x,
      h.live i x e,
      h.unshadowed i x,
      eq_iff now i,
      eq_iff i now,
      eq_iff x now,
      eq_iff now x,
    )
  ]

-- Removing a terminal makes it unknown under its id and under every old id of it, and changes
-- nothing for the other ids; an id that reaches no terminal is refused and nothing changes. This
-- holds for a consistent registry, whether or not the file could be written.
pub unregister_exact :
    (written : Bool) (id i : String) (r : Registry)
    → IsConsistent r
    → ((resolve id r ≡ none) × (unregister written id r ≡ (unknown_terminal, r)))
      ⊎ ((now : String) × (resolve id r ≡ some now)
          × (resolve i (unregister written id r).1 ≡ unless_gone now (resolve i r)))
unfolding unregister
unregister_exact written id i r h = by_resolved (resolve id r) refl
  where
    by_resolved :
        (found : Option String)
        → resolve id r ≡ found
        → ((found ≡ none) × (removing written r found ≡ (unknown_terminal, r)))
          ⊎ ((now : String) × (found ≡ some now)
              × (resolve i (removing written r found).1 ≡ unless_gone now (resolve i r)))
    by_resolved none e = inl (refl, unfold removing in refl)
    by_resolved (some now) e =
        inr (now, refl, unfold removing in resolve-save written i _ ∙ resolve-removed r h now i)

answered :
    (i c : String) (r : Registry) (reg : Registration)
    → resolve i r ≡ some c
    → find r.registrations c ≡ some reg
    → get_registration i r ≡ ok reg
unfolding get_registration
answered i c r reg e f = ground (arith, e, f)

stored_registered :
    (written : Bool) (req : Request) (r : Registry) (d : Descriptor)
    → descriptor_for req.id (resolve req.id r) r ≡ some d
    → (register written req r).1.stored
      ≡ (if written then values (register written req r).1.registrations else r.stored)
unfolding register registering save registered
stored_registered true req r d chosen = rw chosen refl
stored_registered false req r d chosen = rw chosen refl

module _ (written : Bool) (req : Request) (r : Registry) (d : Descriptor) (h : IsConsistent r)
    (chosen : descriptor_for req.id (resolve req.id r) r ≡ some d) where
  -- The registration that a request makes.
  abbrev pub made : Registration
  made =
      registration_for req (existing_of r.registrations (resolve req.id r))
        (left_id (resolve req.id r) d.id) d

  registered_at : find (register written req r).1.registrations d.id ≡ some made
  unfolding register registering registered registration_for
  registered_at = rw chosen (elim (Bool-cases written) [
    | inl e ↦ rw e (
        unfold save in
        find-assign (without_left (left_id (resolve req.id r) d.id) r.registrations) d.id d.id made
        ∙ rw (eq_refl d.id) refl)
    | inr e ↦ rw e (
        unfold save in
        find-assign (without_left (left_id (resolve req.id r) d.id) r.registrations) d.id d.id made
        ∙ rw (eq_refl d.id) refl)
  ])

  in_place : d.id ≡ req.id → resolve req.id (register written req r).1 ≡ some d.id
  unfolding resolve
  in_place same = ground (arith, registered_at, same)

  resolve-registered : resolve req.id (register written req r).1 ≡ some d.id
  resolve-registered = elim (Option-cases (resolve req.id r)) [
    | inl e ↦ in_place (ground (arith, chosen_id req.id r h d chosen, e))
    | inr (c, e) ↦
        register_keeps_ids written req r d chosen req.id c e
        ∙ unfold left_id in ground (arith, e, eq_iff c d.id, eq_iff req.id d.id, eq_refl c)
  ]

  -- After a terminal is registered, the id of the request is answered with the new registration,
  -- whether or not the file could be written; if it could, the call answers it too and the file
  -- holds what is in memory. This holds for a consistent registry and a descriptor that is found.
  pub register_answers :
      (get_registration req.id (register written req r).1 ≡ ok made)
      × ((register written req r).0 ≡ (if written then ok made else not_written))
      × ((register written req r).1.stored
          ≡ (if written then values (register written req r).1.registrations else r.stored))
  register_answers = (
    answered req.id d.id (register written req r).1 made resolve-registered registered_at,
    unfold register registering in rw chosen refl,
    stored_registered written req r d chosen,
  )
