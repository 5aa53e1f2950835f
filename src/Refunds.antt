-- ===== src/Refunds.antt =====
-- services/terminals/refund_choice.py: by which operation of the terminal money is given back.
mod Tests
use barhandler_manager.Prelude.{
  ℕ, String, ◌≡◌, ◌⊎◌, refl, inl, inr, Bool, true, false, not, ◌&&◌, ◌||◌, Option, none, some,
  arith, ◌==◌, nat_eq, string_eq, if◌then◌else◌, Bool-cases, nat_beq_iff, sym, ap, ◌∙◌,
}
use text.Mathlib.TextEquality.{eq_iff}
use text.Mathlib.TextPositions.{eq_refl}
use barhandler_manager.Registry.Model.{is_given, text_of}

-- `RefundOperation`
pub data RefundOperation : Type 0 where
  void partial_void refund : RefundOperation

-- A `datetime`: its day, as an ordinal, and the rest of it.
pub record Moment : Type 0 where
  pub date : ℕ
  pub seconds : ℕ

-- `RefundContext`
pub record RefundContext : Type 0 where
  pub paid_at : Option Moment
  pub today : ℕ
  pub invoice_num : Option String
  pub paid_terminal_id : Option String
  pub current_terminal_id : Option String
  pub full_amount : Bool
  pub settled : Option Bool

abbrev pub is_unsettled : Option Bool → Bool
is_unsettled (some false) = true
is_unsettled _ = false

abbrev pub is_today : Option Moment → ℕ → Bool
is_today none today = false
is_today (some paid) today = paid.date == today

-- `choose_refund_operation`
unfoldable pub choose_refund_operation : RefundContext → RefundOperation
choose_refund_operation ctx =
    if not (is_unsettled ctx.settled)
    then refund
    else if not (is_given ctx.invoice_num)
    then refund
    else if not (is_today ctx.paid_at ctx.today)
    then refund
    else if not (is_given ctx.paid_terminal_id) || not (is_given ctx.current_terminal_id)
    then refund
    else if not (text_of ctx.paid_terminal_id == text_of ctx.current_terminal_id)
    then refund
    else if ctx.full_amount
    then void
    else partial_void

-- Everything that a cancellation of the day's operation needs is known to hold.
pub record IsCancellable (ctx : RefundContext) : Type 0 where
  pub unsettled : ctx.settled ≡ some false
  pub numbered : (number : String) × (ctx.invoice_num ≡ some number) × ((number == "") ≡ false)
  pub paid_today : (paid : Moment) × (ctx.paid_at ≡ some paid) × (paid.date ≡ ctx.today)
  pub same_terminal :
      (terminal : String) × (ctx.paid_terminal_id ≡ some terminal)
      × (ctx.current_terminal_id ≡ some terminal)
      × ((terminal == "") ≡ false)

given : (o : Option String) → is_given o ≡ true → (s : String) × (o ≡ some s) × ((s == "") ≡ false)
given none h = cc h
given (some s) h = (s, refl, ground arith)

-- The conditions as tests.
abbrev all_hold : RefundContext → Bool
all_hold ctx =
    is_unsettled ctx.settled
    && is_given ctx.invoice_num
    && is_today ctx.paid_at ctx.today
    && is_given ctx.paid_terminal_id
    && is_given ctx.current_terminal_id
    && text_of ctx.paid_terminal_id == text_of ctx.current_terminal_id

chosen :
    (ctx : RefundContext)
    → choose_refund_operation ctx
      ≡ (if all_hold ctx then if ctx.full_amount then void else partial_void else refund)
unfolding choose_refund_operation
chosen ctx = ground arith

unsettled_lem : (settled : Option Bool) → is_unsettled settled ≡ true → settled ≡ some false
unsettled_lem (some false) h = refl
unsettled_lem (some true) h = cc h
unsettled_lem none h = cc h

today_lem :
    (paid : Option Moment) (today : ℕ)
    → is_today paid today ≡ true
    → (m : Moment) × (paid ≡ some m) × (m.date ≡ today)
today_lem none today h = cc h
today_lem (some m) today h = (m, refl, (nat_beq_iff m.date today).0 h)

same_lem :
    (a b : Option String)
    → is_given a ≡ true
    → is_given b ≡ true
    → (text_of a == text_of b) ≡ true
    → (t : String) × (a ≡ some t) × (b ≡ some t) × ((t == "") ≡ false)
same_lem (some s) (some t) h k e = (s, refl, ap some (sym ((eq_iff s t).0 e)), ground arith)
same_lem none b h k e = cc h
same_lem (some s) none h k e = cc k

cancellable : (ctx : RefundContext) → all_hold ctx ≡ true → IsCancellable ctx
cancellable ctx h = record {
  unsettled = unsettled_lem ctx.settled (ground arith);
  numbered = given ctx.invoice_num (ground arith);
  paid_today = today_lem ctx.paid_at ctx.today (ground arith);
  same_terminal =
      same_lem ctx.paid_terminal_id ctx.current_terminal_id (ground arith) (ground arith)
        (ground arith);
}

holds_all : (ctx : RefundContext) → IsCancellable ctx → all_hold ctx ≡ true
holds_all ctx c =
    let (number, n, given_number) = c.numbered in
    let (paid, p, day) = c.paid_today in
    let (terminal, t, u, given_terminal) = c.same_terminal in
    let this_day = (nat_beq_iff ctx.today ctx.today).1 refl in
    rw (c.unsettled, n, p, t, u, day, given_number, given_terminal, eq_refl terminal, this_day) refl

-- A payment is cancelled exactly if it is known that it was not settled, was paid today, on this
-- very terminal, and under a number: in whole by Void, in part by PartialVoid. Whatever of this is
-- not so, or not known, makes it a Refund.
pub choose_refund_operation_exact :
    (ctx : RefundContext)
    → (IsCancellable ctx
        × (choose_refund_operation ctx ≡ (if ctx.full_amount then void else partial_void)))
      ⊎ ((¬ IsCancellable ctx) × (choose_refund_operation ctx ≡ refund))
choose_refund_operation_exact ctx = elim (Bool-cases (all_hold ctx)) [
  | inl e ↦ inl (cancellable ctx e, chosen ctx ∙ rw e refl)
  | inr e ↦ inr (λ c. let e' = holds_all ctx c in cc (e, e'), chosen ctx ∙ rw e refl)
]
