-- ===== src/Registry/Loaded.antt =====
-- The old ids after the stored registrations were indexed.
use text.Mathlib.TextPositions.{eq_refl}
use barhandler_manager.Prelude.{
  String, ◌≡◌, refl, ◌⊎◌, inl, inr, ◌↔◌, true, none, some, [], ◌∷◌, string_eq, arith, sym, ap, ◌∙◌,
}
use barhandler_manager.Prelude.Dict.{Dict, find, has}
use barhandler_manager.Prelude.Order.{text_leb-antisym}
use barhandler_manager.Registry.Model.{Registry, Registration}
use barhandler_manager.Registry.Load.{claim_each, index_each, index_stored_known_ids}
use barhandler_manager.Registry.Claims.{
  ClaimedBy, Claimed, Lowest, Leads, Leads-iff, claim_each-Leads,
}

module _ (regs : Dict Registration) (k : String) where
  -- Every entry is one of the registrations.
  abbrev AllHeld : Dict Registration → Type 0
  AllHeld [] = Unit
  AllHeld (entry ∷ rest) = (has regs entry.0 ≡ true) × AllHeld rest

  index_each-Leads :
      (P : String → Type 0) (entries : Dict Registration) (legacy : Dict String)
      → AllHeld entries
      → Leads regs k P legacy
      → Leads regs k (λ c. P c ⊎ Claimed regs k c entries) (index_each regs entries legacy)
  unfolding index_each Claimed
  index_each-Leads P [] legacy a l =
      Leads-iff regs k P _ legacy (λ c. (λ p. inl p, λ q. elim q [ inl p ↦ p | inr f ↦ absurd f ]))
        l
  index_each-Leads P (entry ∷ rest) legacy (h, a) l =
      Leads-iff regs k
        (λ c. (P c ⊎ ClaimedBy regs entry.0 k c entry.1.known_ids) ⊎ Claimed regs k c rest) _ _
        (λ c. (
          λ p. elim p [ inl (inl x) ↦ inl x | inl (inr y) ↦ inr (inl y) | inr z ↦ inr (inr z) ],
          λ q. elim q [ inl x ↦ inl (inl x) | inr (inl y) ↦ inl (inr y) | inr (inr z) ↦ inr z ],
        ))
        (index_each-Leads (λ c. P c ⊎ ClaimedBy regs entry.0 k c entry.1.known_ids) rest
          (claim_each regs entry.0 entry.1.known_ids legacy) a
          (claim_each-Leads regs k P entry.0 entry.1.known_ids legacy h l))

AllHeld-cons :
    (regs : Dict Registration) (k : String) (entry : String × Registration)
    (entries : Dict Registration)
    → AllHeld regs k entries
    → AllHeld (entry ∷ regs) k entries
AllHeld-cons regs k entry [] a = tt
AllHeld-cons regs k entry (e ∷ rest) (h, a) =
    (unfold find in ground (arith, h), AllHeld-cons regs k entry rest a)

AllHeld-self : (regs : Dict Registration) (k : String) → AllHeld regs k regs
AllHeld-self [] k = tt
AllHeld-self (entry ∷ rest) k = (
  unfold find in ground (arith, eq_refl entry.0),
  AllHeld-cons rest k entry rest (AllHeld-self rest k),
)

-- Who claims an old id in a registry.
abbrev pub Claims : Registry → String → String → Type 0
Claims r k c = Claimed r.registrations k c r.registrations

-- After the stored ids were indexed into an empty index, an old id leads to the lowest of the
-- registrations that claim it, and nowhere if none does.
pub index_leads-Lowest :
    (r : Registry) (k : String)
    → r.legacy_ids ≡ []
    → ((find (index_stored_known_ids r).legacy_ids k ≡ none) × ((c : String) → ¬ Claims r k c))
      ⊎ ((m : String) × (find (index_stored_known_ids r).legacy_ids k ≡ some m)
          × Lowest (Claims r k) m
          × (has r.registrations m ≡ true))
unfolding index_stored_known_ids
index_leads-Lowest r k e =
    let regs = r.registrations in
    Leads-iff regs k (λ c. ⊥ ⊎ Claims r k c) (Claims r k) _
      (λ c. (λ p. elim p [ inl f ↦ absurd f | inr q ↦ q ], λ q. inr q))
      (index_each-Leads regs k (λ c. ⊥) regs r.legacy_ids (AllHeld-self regs k)
        (inl (rw e (unfold find in refl), λ c f. f)))

-- Where two registries without an index hold registrations with the same claims of an old id, the
-- indexing of the stored ids leads it to the same registration in both, in whatever order they are
-- held.
pub index_order_free :
    (r r' : Registry) (k : String)
    → r.legacy_ids ≡ []
    → r'.legacy_ids ≡ []
    → ((c : String) → Claims r k c ↔ Claims r' k c)
    → find (index_stored_known_ids r).legacy_ids k ≡ find (index_stored_known_ids r').legacy_ids k
index_order_free r r' k e e' same = both (index_leads-Lowest r k e) (index_leads-Lowest r' k e')
  where
    both :
        ((find (index_stored_known_ids r).legacy_ids k ≡ none) × ((c : String) → ¬ Claims r k c))
          ⊎ ((m : String) × (find (index_stored_known_ids r).legacy_ids k ≡ some m)
              × Lowest (Claims r k) m
              × (has r.registrations m ≡ true))
        → ((find (index_stored_known_ids r').legacy_ids k ≡ none)
            × ((c : String) → ¬ Claims r' k c))
          ⊎ ((m : String) × (find (index_stored_known_ids r').legacy_ids k ≡ some m)
              × Lowest (Claims r' k) m
              × (has r'.registrations m ≡ true))
        → find (index_stored_known_ids r).legacy_ids k
          ≡ find (index_stored_known_ids r').legacy_ids k
    both (inl (f, free)) (inl (g, free')) = f ∙ sym g
    both (inl (f, free)) (inr (m, g, low, h)) = absurd (free m ((same m).1 low.claims))
    both (inr (m, f, low, h)) (inl (g, free)) = absurd (free m ((same m).0 low.claims))
    both (inr (m, f, low, h)) (inr (n, g, low', h')) =
        f
        ∙ ap some (
            text_leb-antisym m n (low.least n ((same n).1 low'.claims))
              (low'.least m ((same m).0 low.claims)))
        ∙ sym g
