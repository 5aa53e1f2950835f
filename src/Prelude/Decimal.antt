-- ===== src/Prelude/Decimal.antt =====
-- `str()` and `int()` between integers and decimal texts, and `str.isdigit` on ASCII.
use barhandler_manager.Prelude.{
  ℕ, zero, suc, ◌+◌, ◌-◌, ◌*◌, ◌/◌, ◌%◌, Bool, true, false, ◌&&◌, Option, none, some, List, [], ◌∷◌,
  ltb, leb, ◌==◌, nat_eq, if◌then◌else◌,
}
use barhandler_manager.Prelude.Int.{ℤ, pos, negsuc}

abbrev pub is_digit : ℕ → Bool
is_digit c = leb b'0' c && leb c b'9'

-- The digits of `n` in front of `out`; a fuel above `n` is enough.
unfoldable pub digits_before : ℕ → ℕ → List ℕ → List ℕ
digits_before zero n out = out
digits_before (suc k) n out =
    let more = digits_before k (n / 10) ((b'0' + n % 10) ∷ out) in
    if ltb n 10 then (b'0' + n) ∷ out else more

-- `str(n)` for a number that is not negative
unfoldable pub digits : ℕ → List ℕ
unfolding digits_before
digits n = digits_before (suc n) n []

-- `str(z)`
unfoldable pub str_int : ℤ → List ℕ
unfolding digits
str_int (pos n) = digits n
str_int (negsuc n) = b'-' ∷ digits (suc n)

-- Digits behind `n`, single underscores between them; the flag tells whether a digit came last.
unfoldable pub int_digits : Bool → ℕ → List ℕ → Option ℕ
int_digits true n [] = some n
int_digits false n [] = none
int_digits last n (c ∷ s) =
    let more = int_digits true (n * 10 + (c - b'0')) s in
    let under = int_digits false n s in
    if is_digit c then more else if c == b'_' then (if last then under else none) else none
