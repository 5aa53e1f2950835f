-- ===== src/Ssi/Calm.antt =====
-- What leaves the money where it is: messages by whether they move money, and the operations of the
-- session that send none of these.
use barhandler_manager.Prelude.{
  ℕ, ◌≤◌, ◌≡◌, refl, ap, sym, ◌∙◌, append_assoc, length, length-append, ◌⊎◌, Bool, true, false,
  ◌||◌, Option, none, some, List, [], ◌∷◌, ◌++◌, arith, String, ◌==◌, string_eq, if◌then◌else◌,
  append-nil, Bool-cases, inl, inr,
}
use barhandler_manager.Json.{Json, str, get, dict_of}
use barhandler_manager.Json.Codec.{Codec}
use barhandler_manager.Ssi.Wire.{
  Outcome, ok, unavailable, crashed, Wire, M, pure, raise, crash, continue, ◌>>=◌, sleep, send_tcp,
  Told, emit_event, Exchange,
}
use barhandler_manager.Ssi.Session.{Registration, lift, send}

is_move : Json → Bool
is_move (str s) = s == "Purchase" || s == "Refund" || s == "Void" || s == "PartialVoid"
is_move _ = false

-- Whether a message asks the terminal to move money.
unfoldable pub moves_money : Json → Bool
unfolding is_move
moves_money v = is_move (get (dict_of v) "method")

-- The messages that do, in their order.
unfoldable pub moves : List Json → List Json
moves [] = []
moves (v ∷ vs) = let rest = moves vs in if moves_money v then v ∷ rest else rest

pub moves-append : (xs ys : List Json) → moves (xs ++ ys) ≡ moves xs ++ moves ys
unfolding moves
moves-append [] ys = refl
moves-append (x ∷ xs) ys = elim (Bool-cases (moves_money x)) [
  | inl e ↦ rw (e, moves-append xs ys) refl
  | inr e ↦ rw (e, moves-append xs ys) refl
]

-- The exchanges that were to come have come in their order, no message that was sent is forgotten,
-- and each of the messages since has met one exchange, as long as there were any to come.
pub record Drawn (w w' : Wire) : Type 0 where
  pub passed : List Exchange
  pub since : List Json
  pub came : w.coming ≡ passed ++ w'.coming
  pub told : w'.sent ≡ w.sent ++ since
  pub paired : (length passed ≡ length since) ⊎ (w'.coming ≡ [])

pub undrawn : (w w' : Wire) → w.coming ≡ w'.coming → w'.sent ≡ w.sent → Drawn w w'
undrawn w w' e f = record {
  passed = [];
  since = [];
  came = e;
  told = f ∙ sym (append-nil w.sent);
  paired = inl refl;
}

pub Drawn-refl : (w : Wire) → Drawn w w
Drawn-refl w = undrawn w w refl refl

nothing_left : (xs ys : List Exchange) → [] ≡ xs ++ ys → ys ≡ []
nothing_left [] ys h = sym h
nothing_left (x ∷ xs) ys h = absurd (cc h)

pub Drawn-trans : (a b c : Wire) → Drawn a b → Drawn b c → Drawn a c
Drawn-trans a b c p q = record {
  passed = p.passed ++ q.passed;
  since = p.since ++ q.since;
  came = p.came ∙ ap (λ xs. p.passed ++ xs) q.came ∙ sym (append_assoc p.passed q.passed c.coming);
  told = q.told ∙ ap (λ xs. xs ++ q.since) p.told ∙ append_assoc a.sent p.since q.since;
  paired = elim p.paired [
    | inr e ↦ inr (nothing_left q.passed c.coming (sym e ∙ q.came))
    | inl e ↦ elim q.paired [
      | inr e' ↦ inr e'
      | inl e' ↦
          inl (omega (arith, length-append p.passed q.passed, length-append p.since q.since, e, e'))
    ]
  ];
}

-- No money has moved since, the clock has not gone back, and the exchanges have come in their order.
pub record IsCalm (w w' : Wire) : Type 0 where
  pub moves_same : moves w'.sent ≡ moves w.sent
  pub now-grows : w.now ≤ w'.now
  pub drawn : Drawn w w'

pub IsCalm-refl : (w : Wire) → IsCalm w w
IsCalm-refl w = record { moves_same = refl; now-grows = omega arith; drawn = Drawn-refl w }

pub IsCalm-trans : (a b c : Wire) → IsCalm a b → IsCalm b c → IsCalm a c
IsCalm-trans a b c p q = record {
  moves_same = q.moves_same ∙ p.moves_same;
  now-grows = omega (arith, p.now-grows, q.now-grows);
  drawn = Drawn-trans a b c p.drawn q.drawn;
}

-- An operation that moves no money, whatever the network does.
unfoldable pub Quiet : {A : Type 0} → M A → Type 0
Quiet m = (w : Wire) → IsCalm w (m w).1

pub Quiet-raise : (A : Type 0) (code : String) → Quiet (raise {A = A} code)
unfolding Quiet
Quiet-raise A code w = IsCalm-refl w

pub Quiet-crash : (A : Type 0) → Quiet (crash {A = A})
unfolding Quiet
Quiet-crash A w = IsCalm-refl w

module _ {A : Type 0} where
  pub Quiet-pure : (a : A) → Quiet (pure a)
  unfolding Quiet
  Quiet-pure a w = IsCalm-refl w

  pub Quiet-lift : (o : Outcome A) → Quiet (lift o)
  unfolding Quiet
  Quiet-lift o w = IsCalm-refl w

  pub Quiet-if : (b : Bool) (m n : M A) → Quiet m → Quiet n → Quiet (if b then m else n)
  Quiet-if true m n p q = p
  Quiet-if false m n p q = q

pub Quiet-option :
    {A B : Type 0} (o : Option A) (f : A → M B) (n : M B)
    → ((a : A) → Quiet (f a))
    → Quiet n
    → Quiet (elim o as (λ x. M B) [ none ↦ n | some a ↦ f a ])
Quiet-option none f n p q = q
Quiet-option (some a) f n p q = p a

pub Quiet-continue :
    {A B : Type 0} (o : Outcome A) (f : A → M B) (w : Wire)
    → ((a : A) → Quiet (f a))
    → IsCalm w (continue o f w).1
unfolding Quiet
Quiet-continue (ok a) f w p = p a w
Quiet-continue (unavailable code) f w p = IsCalm-refl w
Quiet-continue crashed f w p = IsCalm-refl w

pub Quiet-bind :
    {A B : Type 0} (m : M A) (f : A → M B) → Quiet m → ((a : A) → Quiet (f a)) → Quiet (m >>= f)
unfolding Quiet
Quiet-bind m f p q w =
    IsCalm-trans w (m w).1 (continue (m w).0 f (m w).1).1 (p w) (Quiet-continue (m w).0 f (m w).1 q)

pub Quiet-sleep : (ms : ℕ) → Quiet (sleep ms)
unfolding Quiet sleep
Quiet-sleep ms w = record {
  moves_same = refl;
  now-grows = omega arith;
  drawn = undrawn w _ refl refl;
}

pub Quiet-emit_event : (told : Told) → Quiet (emit_event told)
unfolding Quiet emit_event
Quiet-emit_event told w = record {
  moves_same = refl;
  now-grows = omega arith;
  drawn = undrawn w _ refl refl;
}

-- A message that moves no money, at the end of the list.
calm_sent : (vs : List Json) (v : Json) → moves_money v ≡ false → moves (vs ++ v ∷ []) ≡ moves vs
unfolding moves
calm_sent vs v e = rw (moves-append vs (v ∷ []), e) (append-nil (moves vs))

module _ (codec : Codec) (v : Json) (e : moves_money v ≡ false) where
  pub Quiet-send_tcp : Quiet (send_tcp codec v)
  unfolding Quiet send_tcp
  Quiet-send_tcp w =
      elim w.coming
        as (λ xs.
          IsCalm (record w { coming = xs }) (send_tcp codec v (record w { coming = xs })).1) [
            | [] ↦ record {
              moves_same = calm_sent w.sent v e;
              now-grows = omega arith;
              drawn = record {
                passed = [];
                since = v ∷ [];
                came = refl;
                told = refl;
                paired = inr refl;
              };
            }
            | x ∷ rest ↦ record {
              moves_same = calm_sent w.sent v e;
              now-grows = omega arith;
              drawn = record {
                passed = x ∷ [];
                since = v ∷ [];
                came = refl;
                told = refl;
                paired = inl refl;
              };
            }
          ]

  pub Quiet-send : (reg : Registration) → Quiet (send codec reg v)
  unfolding send
  Quiet-send reg =
      Quiet-if reg.has_address (send_tcp codec v) (raise "not_configured") Quiet-send_tcp
        (Quiet-raise Json "not_configured")
