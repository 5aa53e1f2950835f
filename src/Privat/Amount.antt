-- ===== src/Privat/Amount.antt =====
-- services/terminals/privatbank.py, `_format_amount`: kopecks as a decimal text with two places.
use barhandler_manager.Prelude.{
  ℕ, zero, suc, ◌+◌, ◌-◌, ◌*◌, ◌/◌, ◌%◌, ◌<◌, ◌≡◌, refl, ap, ◌∙◌, inl, inr, Bool-cases, ◌&&◌,
  Option, none, some, List, [], ◌∷◌, ◌++◌, arith, ltb, ◌==◌, nat_eq, if◌then◌else◌,
}
use barhandler_manager.Prelude.Int.{ℤ, pos, negsuc}
use barhandler_manager.Prelude.Decimal.{digits, digits_before, is_digit, str_int}

-- `f"{kop:02d}"`, behind the point
unfoldable pub two_places : ℕ → List ℕ
two_places kop = b'.' ∷ (b'0' + kop / 10) ∷ (b'0' + kop % 10) ∷ []

-- `_format_amount`; `divmod` rounds the quotient down.
unfoldable pub format_amount : ℤ → List ℕ
unfolding two_places
format_amount (pos n) = str_int (pos (n / 100)) ++ two_places (n % 100)
format_amount (negsuc n) = str_int (negsuc (n / 100)) ++ two_places (99 - n % 100)

-- What a reader makes of a decimal text: digits, a point and two digits.
abbrev places : List ℕ → ℕ → Option ℕ
places (a ∷ b ∷ []) n =
    if is_digit a && is_digit b then some (n * 100 + (a - b'0') * 10 + (b - b'0')) else none
places _ n = none

unfoldable pub whole : List ℕ → ℕ → Option ℕ
whole [] n = none
whole (c ∷ s) n =
    let more = whole s (n * 10 + (c - b'0')) in
    if is_digit c then more else if c == b'.' then places s n else none

unfoldable pub kopecks_of : List ℕ → Option ℕ
unfolding whole
kopecks_of [] = none
kopecks_of (c ∷ s) = if is_digit c then whole (c ∷ s) 0 else none

digits_before-append :
    (k n : ℕ) (out rest : List ℕ) → digits_before k n out ++ rest ≡ digits_before k n (out ++ rest)
unfolding digits_before
digits_before-append zero n out rest = refl
digits_before-append (suc k) n out rest = elim (Bool-cases (ltb n 10)) [
  | inl e ↦ rw e refl
  | inr e ↦ rw e (digits_before-append k (n / 10) ((b'0' + n % 10) ∷ out) rest)
]

-- The digits read back as the number, whatever follows them.
whole-digits : (k n : ℕ) (out : List ℕ) → n < k → whole (digits_before k n out) 0 ≡ whole out n
unfolding whole digits_before
whole-digits zero n out h = absurd (omega arith)
whole-digits (suc k) n out h = elim (Bool-cases (ltb n 10)) [
  | inl e ↦ rw e (ground arith)
  | inr e ↦
      let more : whole (digits_before k (n / 10) ((b'0' + n % 10) ∷ out)) 0
          ≡ whole ((b'0' + n % 10) ∷ out) (n / 10) =
        whole-digits k (n / 10) ((b'0' + n % 10) ∷ out) (ground arith) in
      rw e (more ∙ ground arith)
]

kopecks_of-digits :
    (k n : ℕ) (out : List ℕ)
    → n < k
    → kopecks_of (digits_before k n out) ≡ whole (digits_before k n out) 0
unfolding kopecks_of digits_before
kopecks_of-digits zero n out h = absurd (omega arith)
kopecks_of-digits (suc k) n out h = elim (Bool-cases (ltb n 10)) [
  | inl e ↦ rw e (ground arith)
  | inr e ↦ rw e (kopecks_of-digits k (n / 10) ((b'0' + n % 10) ∷ out) (ground arith))
]

places-two_places : (kop n : ℕ) → kop < 100 → whole (two_places kop) n ≡ some (n * 100 + kop)
unfolding whole two_places
places-two_places kop n h = ground arith

-- An amount that is not negative reads back from its text, to the kopeck; a negative one has no text
-- that reads as an amount.
pub kopecks_of-format_amount :
    (n : ℕ)
    → (kopecks_of (format_amount (pos n)) ≡ some n) × (kopecks_of (format_amount (negsuc n)) ≡ none)
unfolding format_amount str_int digits kopecks_of
kopecks_of-format_amount n =
    let grn = n / 100 in
    let kop = n % 100 in
    let joined = digits_before-append (suc grn) grn [] (two_places kop) in
    let read : kopecks_of (digits_before (suc grn) grn (two_places kop)) ≡ some n =
      kopecks_of-digits (suc grn) grn (two_places kop) (omega arith)
      ∙ whole-digits (suc grn) grn (two_places kop) (omega arith)
      ∙ places-two_places kop grn (omega arith)
      ∙ ap some (omega arith) in
    (ap kopecks_of joined ∙ read, refl)
