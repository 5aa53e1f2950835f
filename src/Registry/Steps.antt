-- ===== src/Registry/Steps.antt =====
-- Each operation of the registry keeps it consistent, and so does any life of it.
use text.Mathlib.TextEquality.{eq_iff}
use barhandler_manager.Prelude.{
  String, ◌≡◌, refl, ◌⊎◌, inl, inr, Bool, true, false, not, Option, none, some, List, [], ◌∷◌,
  arith, ◌==◌, string_eq, Option-cases, Bool-cases,
}
use barhandler_manager.Prelude.Dict.{
  Dict, find, assign, pop, find-assign, find-pop, find-keep_values, keep_values, Unique-keep_values,
}
use barhandler_manager.Registry.Model.{Registry, Registration, Descriptor, Request, Merchant}
use barhandler_manager.Registry.Ids.{resolve}
use barhandler_manager.Registry.Changes.{
  register, registered, registering, registration_for, existing_of, left_id, save, descriptor_for,
  unregister, removing, remember_descriptors, stage, by_id,
}
use barhandler_manager.Registry.Merchants.{
  update_merchants, merge_merchant_list, with_merchants, updated, merging,
}
use barhandler_manager.Registry.Kept.{held}
use barhandler_manager.Registry.Lives.{
  IsConsistent, unknown, chosen_id, placed-IsConsistent, moved-IsConsistent,
}

save-IsConsistent : (written : Bool) (r : Registry) → IsConsistent r → IsConsistent (save written r)
unfolding save
save-IsConsistent true r h = record {
  keyed = h.keyed;
  staged = h.staged;
  live = h.live;
  unshadowed = h.unshadowed;
  unique = h.unique;
}
save-IsConsistent false r h = h

-- An id that is found, though not registered itself, is an old id.
old_id :
    (id now : String) (r : Registry)
    → resolve id r ≡ some now
    → (now == id) ≡ false
    → find r.legacy_ids id ≡ some now
unfolding resolve
old_id id now r e f = ground (arith, eq_iff now id)

module _ (written : Bool) (req : Request) (r : Registry) (h : IsConsistent r) where
  registered-IsConsistent :
      (d : Descriptor) (reg : Registration) (resolved : Option String)
      → reg.descriptor ≡ d
      → (d.id ≡ req.id) ⊎ (resolve req.id r ≡ some d.id)
      → resolve req.id r ≡ resolved
      → IsConsistent (registered reg (left_id resolved d.id) r)
  unfolding left_id
  registered-IsConsistent d reg none e c f =
      let (absent, fresh) = unknown req.id r h f in
      placed-IsConsistent reg r h (inr (ground (arith, absent, fresh, c, f, e)))
  registered-IsConsistent d reg (some old) e c f = elim (Bool-cases (old == d.id)) [
    | inl same ↦ rw same (
        placed-IsConsistent reg r h (inl (ground (arith, held r req.id old f, eq_iff old d.id, e))))
    | inr other ↦ rw other (
        moved-IsConsistent reg r h old (held r req.id old f) (rw e other)
          (ground (arith, old_id req.id old r f, c, f, e, eq_iff old d.id, eq_iff old req.id)))
  ]

  registering-IsConsistent :
      (found : Option Descriptor)
      → descriptor_for req.id (resolve req.id r) r ≡ found
      → IsConsistent (registering written req r found).1
  unfolding registering registration_for
  registering-IsConsistent none e = h
  registering-IsConsistent (some d) e =
      save-IsConsistent written _
        (registered-IsConsistent d _ (resolve req.id r) refl (chosen_id req.id r h d e) refl)

  pub register-IsConsistent : IsConsistent (register written req r).1
  unfolding register
  register-IsConsistent = registering-IsConsistent _ refl

not_same : (a b : String) → not (a == b) ≡ true → (a == b) ≡ false
not_same a b h = ground arith

module _ (written : Bool) (r : Registry) (h : IsConsistent r) where
  removed-IsConsistent :
      (now : String)
      → IsConsistent (record r {
        registrations = pop r.registrations now;
        legacy_ids = keep_values (λ stands_for. not (stands_for == now)) r.legacy_ids;
      })
  removed-IsConsistent now =
      let kept = λ (stands_for : String). not (stands_for == now) in
      record {
        keyed = λ k x e. ground (arith, find-pop r.registrations now k, h.keyed k x);
        staged = h.staged;
        live = λ k x e. ground (
          arith,
          find-keep_values kept r.legacy_ids k h.unique,
          find-pop r.registrations now x,
          h.live k x,
          eq_iff now x,
          eq_iff x now,
        );
        unshadowed = λ k x e f. ground (
          arith,
          find-keep_values kept r.legacy_ids k h.unique,
          find-pop r.registrations now k,
          h.unshadowed k x,
        );
        unique = Unique-keep_values kept r.legacy_ids h.unique;
      }

  pub unregister-IsConsistent : (id : String) → IsConsistent (unregister written id r).1
  unfolding unregister
  unregister-IsConsistent id =
      elim (resolve id r) as (λ found. IsConsistent (removing written r found).1) [
        | none ↦ h
        | some now ↦ save-IsConsistent written _ (removed-IsConsistent now)
      ]

  pub with_merchants-IsConsistent :
      (id : String) (reg : Registration) (merchants : List Merchant)
      → find r.registrations id ≡ some reg
      → IsConsistent (with_merchants id reg merchants r)
  unfolding with_merchants
  with_merchants-IsConsistent id reg merchants e =
      let reg' : Registration = record reg { merchants = merchants } in
      record {
        keyed = λ k x f. ground (
          arith,
          find-assign r.registrations id k reg',
          h.keyed id reg e,
          h.keyed k x,
          eq_iff id k,
        );
        staged = h.staged;
        live = λ k x f. ground (arith, find-assign r.registrations id x reg', h.live k x);
        unshadowed = λ k x f g.
            ground (arith, find-assign r.registrations id k reg', h.unshadowed k x, e, eq_iff id k);
        unique = h.unique;
      }

  updated-IsConsistent :
      (merchants : List Merchant) (found : Option String)
      → IsConsistent (updated written merchants r found).1
  unfolding updated
  updated-IsConsistent merchants none = h
  updated-IsConsistent merchants (some id) = elim (Option-cases (find r.registrations id)) [
    | inl e ↦ rw (e, updated) h
    | inr (reg, e) ↦
        rw (e, updated)
          (save-IsConsistent written _ (with_merchants-IsConsistent id reg merchants e))
  ]

  merging-IsConsistent :
      (fresh : List Merchant) (found : Option String) (reg : Option Registration)
      → existing_of r.registrations found ≡ reg
      → IsConsistent (merging written fresh r found reg).1
  unfolding merging existing_of
  merging-IsConsistent fresh (some id) (some reg) e =
      save-IsConsistent written _ (with_merchants-IsConsistent id reg _ (ground arith))
  merging-IsConsistent fresh found reg e = h

  staged-IsConsistent :
      (found : Dict Descriptor)
      → ((k : String) (d : Descriptor) → find found k ≡ some d → d.id ≡ k)
      → IsConsistent (record r { last_discovery = found })
  staged-IsConsistent found p = record {
    keyed = h.keyed;
    staged = p;
    live = h.live;
    unshadowed = h.unshadowed;
    unique = h.unique;
  }

by_id_staged :
    (found : Dict Descriptor) (ds : List Descriptor)
    → ((k : String) (d : Descriptor) → find found k ≡ some d → d.id ≡ k)
    → (k : String) (d : Descriptor) → find (by_id found ds) k ≡ some d
    → d.id ≡ k
unfolding by_id
by_id_staged found [] p = p
by_id_staged found (x ∷ ds) p =
    by_id_staged (assign found x.id x) ds
      (λ k d e. ground (arith, find-assign found x.id k x, p k d, eq_iff x.id k))

-- What the routes do with the registry. `manual` stands for both operations that stage a terminal
-- by hand: each files the descriptor that it makes under its own id.
pub data Op : Type 0 where
  discovered : List Descriptor → Op
  manual : Descriptor → Op
  registers : Bool → Request → Op
  unregisters : Bool → String → Op
  refreshed : Bool → String → List Merchant → Op
  renamed : Bool → String → List Merchant → Op

pub step : Op → Registry → Registry
step (discovered ds) r = remember_descriptors ds r
step (manual d) r = (stage d r).1
step (registers written req) r = (register written req r).1
step (unregisters written id) r = (unregister written id r).1
step (refreshed written id fresh) r = (merge_merchant_list written id fresh r).1
step (renamed written id merchants) r = (update_merchants written id merchants r).1

pub run : List Op → Registry → Registry
run [] r = r
run (op ∷ ops) r = run ops (step op r)

step-IsConsistent : (op : Op) (r : Registry) → IsConsistent r → IsConsistent (step op r)
unfolding step remember_descriptors stage update_merchants merge_merchant_list
step-IsConsistent (discovered ds) r h =
    staged-IsConsistent false r h _ (by_id_staged [] ds (λ k d e. unfold find in cc e))
step-IsConsistent (manual d) r h =
    staged-IsConsistent false r h _
      (λ k x e. ground (arith, find-assign r.last_discovery d.id k d, h.staged k x, eq_iff d.id k))
step-IsConsistent (registers written req) r h = register-IsConsistent written req r h
step-IsConsistent (unregisters written id) r h = unregister-IsConsistent written r h id
step-IsConsistent (refreshed written id fresh) r h =
    merging-IsConsistent written r h fresh (resolve id r) _ refl
step-IsConsistent (renamed written id merchants) r h =
    updated-IsConsistent written r h merchants (resolve id r)

-- Whatever is discovered, registered, removed and refreshed, written or not, a registry that is
-- consistent stays so: a registration stands under the id of its descriptor, every old id stands for a
-- registered terminal, and no registered id stands for another.
pub run-IsConsistent : (ops : List Op) (r : Registry) → IsConsistent r → IsConsistent (run ops r)
unfolding run
run-IsConsistent [] r h = h
run-IsConsistent (op ∷ ops) r h = run-IsConsistent ops (step op r) (step-IsConsistent op r h)
