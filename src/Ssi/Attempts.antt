-- ===== src/Ssi/Attempts.antt =====
-- Operations that send one message that moves money, or at most one.
use barhandler_manager.Prelude.{
  ◌≡◌, refl, ◌∙◌, ap, Bool, true, false, Option, none, some, List, [], ◌∷◌, ◌++◌, string_eq,
  if◌then◌else◌, ◌⊎◌, inl, inr,
}
use barhandler_manager.Json.{Json}
use barhandler_manager.Json.Codec.{Codec}
use barhandler_manager.Ssi.Wire.{
  Outcome, ok, unavailable, crashed, Wire, M, raise, continue, Exchange, send_tcp, ◌>>=◌,
}
use barhandler_manager.Ssi.Session.{Registration, send}
use barhandler_manager.Ssi.Calm.{moves, moves-append, moves_money, Quiet, Quiet-continue}

-- The call does not return.
abbrev pub Fails : {A : Type 0} → Outcome A → Type 0
Fails (ok a) = ⊥
Fails _ = Unit

-- An operation that sends the one message that moves money, or none and then fails.
unfoldable pub Attempt : {A : Type 0} → Json → M A → Type 0
Attempt v m =
    (w : Wire)
    → (Fails (m w).0 × (moves (m w).1.sent ≡ moves w.sent))
      ⊎ (moves (m w).1.sent ≡ moves w.sent ++ v ∷ [])

-- An operation that sends that message or does not.
unfoldable pub AtMost : {A : Type 0} → Json → M A → Type 0
AtMost v m =
    (w : Wire) → (moves (m w).1.sent ≡ moves w.sent) ⊎ (moves (m w).1.sent ≡ moves w.sent ++ v ∷ [])

pub continue-Fails :
    {A B : Type 0} (o : Outcome A) (f : A → M B) (w : Wire)
    → Fails o
    → Fails (continue o f w).0 × ((continue o f w).1 ≡ w)
continue-Fails (ok a) f w h = elim h [ ]
continue-Fails (unavailable code) f w h = (tt, refl)
continue-Fails crashed f w h = (tt, refl)

pub Attempt-bind :
    {A B : Type 0} (v : Json) (m : M A) (f : A → M B)
    → Attempt v m
    → ((a : A) → Quiet (f a))
    → Attempt v (m >>= f)
unfolding Attempt
Attempt-bind v m f p q w = elim (p w) [
  | inl (h, e) ↦
      let stopped = continue-Fails (m w).0 f (m w).1 h in
      inl (stopped.0, ap (λ w'. moves w'.sent) stopped.1 ∙ e)
  | inr e ↦ inr ((Quiet-continue (m w).0 f (m w).1 q).moves_same ∙ e)
]

module _ (codec : Codec) (reg : Registration) (v : Json) (e : moves_money v ≡ true) where
  moves_sent : (vs : List Json) → moves (vs ++ v ∷ []) ≡ moves vs ++ v ∷ []
  unfolding moves
  moves_sent vs = rw (moves-append vs (v ∷ []), e) refl

  pub Attempt-send : Attempt v (send codec reg v)
  unfolding Attempt send send_tcp
  Attempt-send w = go reg.has_address w.coming
    where
      go :
          (has : Bool) (coming : List Exchange)
          → let sent : M Json = if has then send_tcp codec v else raise "not_configured" in
            let w' = record w { coming = coming } in
            (Fails (sent w').0 × (moves (sent w').1.sent ≡ moves w.sent))
            ⊎ (moves (sent w').1.sent ≡ moves w.sent ++ v ∷ [])
      go false coming = inl (tt, refl)
      go true [] = inr (moves_sent w.sent)
      go true (x ∷ rest) = inr (moves_sent w.sent)

module _ {A : Type 0} (v : Json) where
  pub Quiet-AtMost : (m : M A) → Quiet m → AtMost v m
  unfolding AtMost Quiet
  Quiet-AtMost m p w = inl (p w).moves_same

  pub Attempt-AtMost : (m : M A) → Attempt v m → AtMost v m
  unfolding AtMost Attempt
  Attempt-AtMost m p w = elim (p w) [ inl (h, e) ↦ inl e | inr e ↦ inr e ]

  pub AtMost-continue :
      {B : Type 0} (o : Outcome B) (f : B → M A) (w : Wire)
      → ((b : B) → AtMost v (f b))
      → (moves (continue o f w).1.sent ≡ moves w.sent)
        ⊎ (moves (continue o f w).1.sent ≡ moves w.sent ++ v ∷ [])
  unfolding AtMost
  AtMost-continue (ok b) f w p = p b w
  AtMost-continue (unavailable code) f w p = inl refl
  AtMost-continue crashed f w p = inl refl

  pub AtMost-bind :
      {B : Type 0} (m : M B) (f : B → M A)
      → Quiet m
      → ((b : B) → AtMost v (f b))
      → AtMost v (m >>= f)
  unfolding AtMost Quiet
  AtMost-bind m f p q w = elim (AtMost-continue (m w).0 f (m w).1 q) [
    | inl e ↦ inl (e ∙ (p w).moves_same)
    | inr e ↦ inr (e ∙ ap (λ vs. vs ++ v ∷ []) (p w).moves_same)
  ]

  pub AtMost-if : (b : Bool) (m n : M A) → AtMost v m → AtMost v n → AtMost v (if b then m else n)
  AtMost-if true m n p q = p
  AtMost-if false m n p q = q

  pub AtMost-option :
      {B : Type 0} (o : Option B) (f : B → M A) (n : M A)
      → ((b : B) → AtMost v (f b))
      → AtMost v n
      → AtMost v (elim o as (λ x. M A) [ none ↦ n | some b ↦ f b ])
  AtMost-option none f n p q = q
  AtMost-option (some b) f n p q = p b
