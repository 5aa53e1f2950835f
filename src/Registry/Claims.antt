-- ===== src/Registry/Claims.antt =====
-- To which registration an old id leads after a start, when more than one claims it.
use text.Mathlib.TextEquality.{eq_iff}
use text.Mathlib.TextPositions.{eq_refl}
use barhandler_manager.Prelude.{
  String, ◌≡◌, refl, ◌⊎◌, inl, inr, ◌↔◌, true, false, ◌||◌, none, some, List, [], ◌∷◌, ◌==◌,
  string_eq, Bool-cases, sym, ap, ◌∙◌, subst,
}
use barhandler_manager.Prelude.Dict.{Dict, find, has, find-assign}
use barhandler_manager.Prelude.Order.{
  lower, text_leb, text_leb_refl, text_leb_trans, text_leb-total,
}
use barhandler_manager.Registry.Model.{Registration}
use barhandler_manager.Registry.Load.{settled_id, claim_legacy_id, claim_each}

-- `c` claims the old id `k`: it is the id of a registration that names `k` among its known ids,
-- where `k` is not itself the id of a registration.
unfoldable pub ClaimedBy : Dict Registration → String → String → String → List String → Type 0
ClaimedBy regs stored k c [] = ⊥
ClaimedBy regs stored k c (old ∷ olds) =
    ((old ≡ k) × (c ≡ stored) × ((old == stored || has regs old) ≡ false))
    ⊎ ClaimedBy regs stored k c olds

unfoldable pub Claimed : Dict Registration → String → String → Dict Registration → Type 0
Claimed regs k c [] = ⊥
Claimed regs k c (entry ∷ rest) =
    ClaimedBy regs entry.0 k c entry.1.known_ids ⊎ Claimed regs k c rest

-- The id is the lowest of those that claim.
pub record Lowest (P : String → Type 0) (m : String) : Type 0 where
  pub claims : P m
  pub least : (c : String) → P c → text_leb m c ≡ true

-- Where `k` leads, when those of `P` claim it.
abbrev pub Leads : Dict Registration → String → (String → Type 0) → Dict String → Type 0
Leads regs k P legacy =
    ((find legacy k ≡ none) × ((c : String) → ¬ P c))
    ⊎ ((m : String) × (find legacy k ≡ some m) × Lowest P m × (has regs m ≡ true))

pub Leads-iff :
    (regs : Dict Registration) (k : String) (P Q : String → Type 0) (legacy : Dict String)
    → ((c : String) → P c ↔ Q c)
    → Leads regs k P legacy
    → Leads regs k Q legacy
Leads-iff regs k P Q legacy same (inl (e, none_claims)) =
    inl (e, λ c q. none_claims c ((same c).1 q))
Leads-iff regs k P Q legacy same (inr (m, e, low, h)) =
    inr (
      m,
      e,
      record { claims = (same m).0 low.claims; least = λ c q. low.least c ((same c).1 q) },
      h,
    )

lower-cases :
    (a b : String)
    → ((lower a b ≡ a) × (text_leb a b ≡ true)) ⊎ ((lower a b ≡ b) × (text_leb b a ≡ true))
unfolding lower
lower-cases a b = elim (Bool-cases (text_leb a b)) [
  | inl e ↦ inl (rw e refl, e)
  | inr e ↦ inr (rw e refl, text_leb-total a b e)
]

-- One more claim.
Or : (String → Type 0) → String → String → Type 0
Or P now c = P c ⊎ (c ≡ now)

Or-first : (P : String → Type 0) (now : String) → ((c : String) → ¬ P c) → Lowest (Or P now) now
unfolding Or
Or-first P now none_claims = record {
  claims = inr refl;
  least = λ c p. elim p [
    | inl q ↦ absurd (none_claims c q)
    | inr q ↦ subst (λ x. text_leb now x ≡ true) (sym q) (text_leb_refl now)
  ];
}

Or-lower :
    (P : String → Type 0) (held now : String) → Lowest P held → Lowest (Or P now) (lower held now)
unfolding Or
Or-lower P held now low = elim (lower-cases held now) [
  | inl (e, below) ↦ rw e (record {
    claims = inl low.claims;
    least = λ c p. elim p [
      | inl q ↦ low.least c q
      | inr q ↦ subst (λ x. text_leb held x ≡ true) (sym q) below
    ];
  })
  | inr (e, below) ↦ rw e (record {
    claims = inr refl;
    least = λ c p. elim p [
      | inl q ↦ text_leb_trans now held c below (low.least c q)
      | inr q ↦ subst (λ x. text_leb now x ≡ true) (sym q) (text_leb_refl now)
    ];
  })
]

lower-same : (a : String) → lower a a ≡ a
lower-same a = elim (lower-cases a a) [ inl (e, h) ↦ e | inr (e, h) ↦ e ]

-- An id that is registered gives way to a lower one only.
settled_id-lower :
    (regs : Dict Registration) (held now : String)
    → has regs held ≡ true
    → settled_id regs (some held) now ≡ lower held now
unfolding settled_id
settled_id-lower regs held now h = elim (Bool-cases (held == now)) [
  | inl e ↦ rw e (sym (ap (λ x. lower x now) ((eq_iff held now).0 e) ∙ lower-same now))
  | inr e ↦ rw (e, h) refl
]

lower-has :
    (regs : Dict Registration) (a b : String)
    → has regs a ≡ true
    → has regs b ≡ true
    → has regs (lower a b) ≡ true
lower-has regs a b h g = elim (lower-cases a b) [ inl (e, x) ↦ rw e h | inr (e, x) ↦ rw e g ]

true_is_not : ¬ (true ≡ false)
true_is_not h = cc h

not_same : (a b : String) → (a == b) ≡ false → ¬ (a ≡ b)
not_same a b differ e = let same = (eq_iff a b).1 e in cc (same, differ)

module _ (regs : Dict Registration) (k : String) where
  claim-Leads :
      (P : String → Type 0) (now : String) (legacy : Dict String)
      → has regs now ≡ true
      → Leads regs k P legacy
      → Leads regs k (Or P now) (claim_legacy_id regs k now legacy)
  unfolding claim_legacy_id
  claim-Leads P now legacy h (inl (e, none_claims)) = inr (
    now,
    find-assign legacy k k _ ∙ rw (eq_refl k, e) (unfold settled_id in refl),
    Or-first P now none_claims,
    h,
  )
  claim-Leads P now legacy h (inr (m, e, low, g)) = inr (
    lower m now,
    find-assign legacy k k _ ∙ rw (eq_refl k, e, settled_id-lower regs m now g) refl,
    Or-lower P m now low,
    lower-has regs m now g h,
  )

  claim-other :
      (P : String → Type 0) (old now : String) (legacy : Dict String)
      → (old == k) ≡ false
      → Leads regs k P legacy
      → Leads regs k P (claim_legacy_id regs old now legacy)
  unfolding claim_legacy_id
  claim-other P old now legacy differ (inl (e, none_claims)) =
      inl (find-assign legacy old k _ ∙ rw (differ, e) refl, none_claims)
  claim-other P old now legacy differ (inr (m, e, low, g)) =
      inr (m, find-assign legacy old k _ ∙ rw (differ, e) refl, low, g)

  pub claim_each-Leads :
      (P : String → Type 0) (stored : String) (olds : List String) (legacy : Dict String)
      → has regs stored ≡ true
      → Leads regs k P legacy
      → Leads regs k
          (λ c. P c ⊎ ClaimedBy regs stored k c olds)
          (claim_each regs stored olds legacy)
  unfolding claim_each ClaimedBy Or
  claim_each-Leads P stored [] legacy h l =
      Leads-iff regs k P _ legacy (λ c. (λ p. inl p, λ q. elim q [ inl p ↦ p | inr f ↦ absurd f ]))
        l
  claim_each-Leads P stored (old ∷ olds) legacy h l =
      elim (Bool-cases (old == stored || has regs old)) [
        | inl skipped ↦ rw skipped (
            Leads-iff regs k (λ c. P c ⊎ ClaimedBy regs stored k c olds) _ _
              (λ c. (
                λ p. elim p [ inl x ↦ inl x | inr y ↦ inr (inr y) ],
                λ q. elim q [
                  | inl x ↦ inl x
                  | inr (inl (a, b, f)) ↦ absurd (true_is_not f)
                  | inr (inr y) ↦ inr y
                ],
              ))
              (claim_each-Leads P stored olds legacy h l))
        | inr free ↦ elim (Bool-cases (old == k)) [
          | inl same ↦ rw free (
              Leads-iff regs k (λ c. (P c ⊎ (c ≡ stored)) ⊎ ClaimedBy regs stored k c olds) _ _
                (λ c. (
                  λ p. elim p [
                    | inl (inl x) ↦ inl x
                    | inl (inr e) ↦ inr (inl ((eq_iff old k).0 same, e, refl))
                    | inr y ↦ inr (inr y)
                  ],
                  λ q. elim q [
                    | inl x ↦ inl (inl x)
                    | inr (inl (a, b, f)) ↦ inl (inr b)
                    | inr (inr y) ↦ inr y
                  ],
                ))
                (claim_each-Leads (λ c. P c ⊎ (c ≡ stored)) stored olds
                  (claim_legacy_id regs old stored legacy) h
                  (subst
                    (λ x.
                      Leads regs k (λ c. P c ⊎ (c ≡ stored)) (claim_legacy_id regs x stored legacy))
                    (sym ((eq_iff old k).0 same)) (claim-Leads P stored legacy h l))))
          | inr differ ↦ rw free (
              Leads-iff regs k (λ c. P c ⊎ ClaimedBy regs stored k c olds) _ _
                (λ c. (
                  λ p. elim p [ inl x ↦ inl x | inr y ↦ inr (inr y) ],
                  λ q. elim q [
                    | inl x ↦ inl x
                    | inr (inl (a, b, f)) ↦ absurd (not_same old k differ a)
                    | inr (inr y) ↦ inr y
                  ],
                ))
                (claim_each-Leads P stored olds (claim_legacy_id regs old stored legacy) h
                  (claim-other P old stored legacy differ l)))
        ]
      ]
