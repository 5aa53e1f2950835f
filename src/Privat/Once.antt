-- ===== src/Privat/Once.antt =====
-- What the calls that move money send: one message at most, and none where the call has no way to it.
use barhandler_manager.Prelude.{
  ℕ, ◌≡◌, ◌≢◌, refl, ◌∙◌, ◌⊎◌, inl, inr, Bool-cases, Bool, true, false, Option, none, some, List,
  [], ◌∷◌, ◌++◌, string_eq,
}
use barhandler_manager.Prelude.Text.{codes}
use barhandler_manager.Json.{Json, get}
use barhandler_manager.Json.Codec.{Codec}
use barhandler_manager.Registry.Model.{
  Registration, SerialAddress, NetworkAddress, is_given, text_of,
}
use barhandler_manager.Ssi.Wire.{Outcome, ok, unavailable, crashed}
use barhandler_manager.Privat.Link.{
  Link, Peer, met, send_tcp, send_serial, over_tcp, over_serial, continue, lift, ◌>>=◌,
}
use barhandler_manager.Privat.Frame.{encode_frame}
use barhandler_manager.Privat.Outcome.{AcquirerResult, Python}
use barhandler_manager.Privat.Receipt.{result_from_purchase}
use barhandler_manager.Privat.Adapter.{
  ChargeRequest, RefundRequest, send, route, charge, refund, refund_by, refund_discount, purchase,
  giving_back,
}

-- Whether there is an address, on the network or of a serial port
abbrev pub has_way : Option SerialAddress → Option NetworkAddress → Bool
has_way (some port) _ = true
has_way none (some net) = true
has_way none none = false

abbrev pub is_reachable : Registration → Bool
is_reachable reg = has_way reg.descriptor.serial_address reg.descriptor.address

abbrev pub Fails : {A : Type 0} → Outcome A → Type 0
Fails {A} r = (a : A) → r ≢ ok a

met-sent :
    (transport : Peer → Outcome Json) (v : Json) (coming : List Peer) (l : Link)
    → (met transport v coming l).1.sent ≡ l.sent ++ v ∷ []
unfolding met
met-sent transport v [] l = refl
met-sent transport v (peer ∷ rest) l = refl

after-sent :
    {A B : Type 0} (r : Outcome A) (f : A → Outcome B) (l : Link)
    → (continue r (λ a. lift (f a)) l).1.sent ≡ l.sent
after-sent (ok a) f l = refl
after-sent (unavailable code) f l = refl
after-sent crashed f l = refl

module _ (python : Python) (codec : Codec) (reg : Registration) where
  route-sent :
      (serial : Option SerialAddress) (net : Option NetworkAddress) (leading : Bool) (timeout : ℕ)
      (v : Json) (l : Link)
      → has_way serial net ≡ true
      → (route python codec reg serial net leading timeout v l).1.sent ≡ l.sent ++ v ∷ []
  unfolding route send_tcp send_serial
  route-sent (some port) net leading timeout v l h =
      met-sent (over_serial codec timeout (encode_frame codec leading v)) v l.coming l
  route-sent none (some net) leading timeout v l h =
      met-sent (over_tcp codec timeout (encode_frame codec leading v)) v l.coming l
  route-sent none none leading timeout v l h = absurd (cc h)

  route-nowhere :
      (serial : Option SerialAddress) (net : Option NetworkAddress) (leading : Bool) (timeout : ℕ)
      (v : Json) (l : Link)
      → has_way serial net ≡ false
      → route python codec reg serial net leading timeout v l
        ≡ (unavailable (codes "not_configured"), l)
  unfolding route
  route-nowhere (some port) net leading timeout v l h = absurd (cc h)
  route-nowhere none (some net) leading timeout v l h = absurd (cc h)
  route-nowhere none none leading timeout v l h = refl

  -- A charge sends one message, the purchase, whatever the terminal answers; without an address it
  -- sends none and says so.
  pub charge_sends_once :
      (r : ChargeRequest) (l : Link)
      → (is_reachable reg ≡ true
          → (charge python codec reg r l).1.sent ≡ l.sent ++ purchase python codec reg r ∷ [])
        × (is_reachable reg ≡ false
            → charge python codec reg r l ≡ (unavailable (codes "not_configured"), l))
  unfolding charge send
  charge_sends_once r l =
      let serial = reg.descriptor.serial_address in
      let net = reg.descriptor.address in
      let v = purchase python codec reg r in
      let (answer, l') = send python codec reg false 120_000 v l in
      (
        λ h.
            after-sent answer (result_from_purchase python r.transaction_uid) l'
            ∙ route-sent serial net false 120_000 v l h,
        λ h. rw (route-nowhere serial net false 120_000 v l h) refl,
      )

  -- A refund that did not go out and failed, or one message, the refund with the `rrn` of the request
  abbrev pub Refunded : RefundRequest → Link → Outcome AcquirerResult × Link → Type 0
  Refunded r l (outcome, l') =
      (Fails outcome × (l'.sent ≡ l.sent))
      ⊎ ((discount : Json) × (l'.sent
            ≡ l.sent ++ giving_back python codec reg r (text_of r.rrn) discount ∷ []))

  sent_back : RefundRequest → Link → Json → Outcome AcquirerResult × Link
  unfolding send
  sent_back r l discount =
      (send python codec reg false 120_000 (giving_back python codec reg r (text_of r.rrn) discount)
          >>= λ response. lift (result_from_purchase python none response))
        l

  sent_back-Refunded :
      (r : RefundRequest) (l : Link) (discount : Json) → Refunded r l (sent_back r l discount)
  unfolding sent_back send
  sent_back-Refunded r l discount = elim (Bool-cases (is_reachable reg)) [
    | inl h ↦
        let v = giving_back python codec reg r (text_of r.rrn) discount in
        let (answer, l') = send python codec reg false 120_000 v l in
        inr (
          discount,
          after-sent answer (result_from_purchase python none) l'
              ∙ route-sent reg.descriptor.serial_address reg.descriptor.address false 120_000 v l h,
        )
    | inr h ↦
        let v = giving_back python codec reg r (text_of r.rrn) discount in
        rw (route-nowhere reg.descriptor.serial_address reg.descriptor.address false 120_000 v l h)
          (inl (λ a e. cc e, refl))
  ]

  discounted-Refunded :
      (r : RefundRequest) (l : Link) (d : Outcome Json)
      → Refunded r l (continue d (λ discount l'. sent_back r l' discount) l)
  discounted-Refunded r l (ok discount) = sent_back-Refunded r l discount
  discounted-Refunded r l (unavailable code) = inl (λ a e. cc e, refl)
  discounted-Refunded r l crashed = inl (λ a e. cc e, refl)

  -- A refund without an `rrn` is refused before anything is sent. Any other sends one refund with that
  -- `rrn`, or none at all, and then it fails.
  pub refund_sends_once :
      (r : RefundRequest) (l : Link)
      → (is_given r.rrn ≡ false
          → refund python codec reg r l ≡ (unavailable (codes "missing_refund_reference"), l))
        × (is_given r.rrn ≡ true → Refunded r l (refund python codec reg r l))
  unfolding refund refund_by sent_back
  refund_sends_once r l = (
    λ h. rw h refl,
    λ h. rw h (
        discounted-Refunded r l
          (refund_discount python codec reg (get r.extras "discounted_amount_kopecks"))),
  )
