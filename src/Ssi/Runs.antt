-- ===== src/Ssi/Runs.antt =====
-- Runs of the adapter's operations step by step, and the runs that asked for an approved result.
use barhandler_manager.Prelude.{
  ◌⊎◌, inl, inr, ◌++◌, ◌≡◌, refl, ap, subst, Bool, true, false, List, [], ◌∷◌, String,
  if◌then◌else◌,
}
use barhandler_manager.Json.{Json}
use barhandler_manager.Json.Codec.{Codec}
use barhandler_manager.Ssi.Wire.{
  Outcome, ok, unavailable, crashed, Exchange, Wire, M, raise, continue, ◌>>=◌, send_tcp,
}
use barhandler_manager.Ssi.Session.{Registration, request, question, send}
use barhandler_manager.Ssi.Calm.{Drawn, Drawn-refl, Drawn-trans, undrawn, Quiet}
use barhandler_manager.Ssi.Verdict.{Accepts}

module _ {A B : Type 0} where
  -- What a sequence returned, its second part returned, with the value of the first.
  pub bind-ok :
      (m : M A) (f : A → M B) (w : Wire) (b : B)
      → ((m >>= f) w).0 ≡ ok b
      → (a : A) × ((m w).0 ≡ ok a) × ((f a (m w).1).0 ≡ ok b)
  bind-ok m f w b h = of_outcome (m w).0 refl h
    where
      of_outcome :
          (o : Outcome A)
          → (m w).0 ≡ o
          → (continue o f (m w).1).0 ≡ ok b
          → (a : A) × ((m w).0 ≡ ok a) × ((f a (m w).1).0 ≡ ok b)
      of_outcome (ok a) e h = (a, e, h)
      of_outcome (unavailable code) e h = absurd (cc h)
      of_outcome crashed e h = absurd (cc h)

  -- The same of the state that it ends in.
  pub bind-ran :
      (m : M A) (f : A → M B) (w w' : Wire) (b : B)
      → (m >>= f) w ≡ (ok b, w')
      → (a : A) × (middle : Wire) × (m w ≡ (ok a, middle)) × (f a middle ≡ (ok b, w'))
  bind-ran m f w w' b h = of_run (m w) refl h
    where
      of_run :
          (p : Outcome A × Wire)
          → m w ≡ p
          → continue p.0 f p.1 ≡ (ok b, w')
          → (a : A) × (middle : Wire) × (m w ≡ (ok a, middle)) × (f a middle ≡ (ok b, w'))
      of_run (ok a, middle) e h = (a, middle, e, h)
      of_run (unavailable code, middle) e h = absurd (cc h)
      of_run (crashed, middle) e h = absurd (cc h)

  pub bind-Drawn :
      (m : M A) (f : A → M B) (w : Wire)
      → Drawn w (m w).1
      → ((a : A) (w' : Wire) → Drawn w' (f a w').1)
      → Drawn w ((m >>= f) w).1
  bind-Drawn m f w first later =
      Drawn-trans w (m w).1 (continue (m w).0 f (m w).1).1 first (of_outcome (m w).0)
    where
      of_outcome : (o : Outcome A) → Drawn (m w).1 (continue o f (m w).1).1
      of_outcome (ok a) = later a (m w).1
      of_outcome (unavailable code) = Drawn-refl (m w).1
      of_outcome crashed = Drawn-refl (m w).1

module _ {A : Type 0} where
  pub ran-Drawn :
      (m : M A) (w w' : Wire) (o : Outcome A) → Drawn w (m w).1 → m w ≡ (o, w') → Drawn w w'
  ran-Drawn m w w' o drawn h = subst (λ x. Drawn w x) (ap (λ (p : Outcome A × Wire). p.1) h) drawn

  pub Quiet-Drawn : (m : M A) (w w' : Wire) (o : Outcome A) → Quiet m → m w ≡ (o, w') → Drawn w w'
  unfolding Quiet
  Quiet-Drawn m w w' o quiet h = ran-Drawn m w w' o (quiet w).drawn h

-- What was sent since is nothing, or the request for the receipt.
abbrev pub IsLast : Wire → Wire → Type 0
IsLast w w' = (w'.sent ≡ w.sent) ⊎ (w'.sent ≡ w.sent ++ request "GetLastReceipt" ∷ [])

-- An operation that neither sends nor waits
abbrev pub Still : {A : Type 0} → M A → Type 0
Still m = (w : Wire) → (m w).1.sent ≡ w.sent

module _ (codec : Codec) (reg : Registration) where
  pub send-Drawn : (v : Json) (w : Wire) → Drawn w (send codec reg v w).1
  unfolding send send_tcp
  send-Drawn v w = by_address reg.has_address w.coming refl
    where
      by_address :
          (has : Bool) (coming : List Exchange)
          → w.coming ≡ coming
          → Drawn w
              ((if has then send_tcp codec v else raise "not_configured")
                (record w { coming = coming })).1
      by_address false coming e = undrawn w _ e refl
      by_address true [] e = record {
        passed = [];
        since = v ∷ [];
        came = e;
        told = refl;
        paired = inr refl;
      }
      by_address true (x ∷ rest) e = record {
        passed = x ∷ [];
        since = v ∷ [];
        came = e;
        told = refl;
        paired = inl refl;
      }

  -- What a call of `send` adds to the messages
  pub sent_then :
      (v : Json) (w : Wire)
      → ((send codec reg v w).1.sent ≡ w.sent) ⊎ ((send codec reg v w).1.sent ≡ w.sent ++ v ∷ [])
  unfolding send send_tcp
  sent_then v w = by_address reg.has_address w.coming
    where
      by_address :
          (has : Bool) (coming : List Exchange)
          → let w' =
              ((if has then send_tcp codec v else raise "not_configured")
                (record w { coming = coming })).1 in
            (w'.sent ≡ w.sent) ⊎ (w'.sent ≡ w.sent ++ v ∷ [])
      by_address false coming = inl refl
      by_address true [] = inr refl
      by_address true (x ∷ rest) = inr refl

  -- Between the two, the question for the result was sent, in its turn, and the answer that it met
  -- approves; since then nothing was sent, but for the request for the receipt.
  unfoldable pub Approved : String → Wire → Wire → Type 0
  unfolding Accepts
  Approved uid w w' =
      (before after : Wire) × (response : Json) × Drawn w before
      × (send codec reg (question uid) before ≡ (ok response, after))
      × Accepts response
      × IsLast after w'

  pub Approved-Drawn :
      (uid : String) (w w₁ w' : Wire) → Drawn w w₁ → Approved uid w₁ w' → Approved uid w w'
  unfolding Approved
  Approved-Drawn uid w w₁ w' early (before, after, response, drawn, asked, good, last) =
      (before, after, response, Drawn-trans w w₁ before early drawn, asked, good, last)
