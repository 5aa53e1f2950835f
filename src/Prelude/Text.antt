-- ===== src/Prelude/Text.antt =====
-- Texts as lists of code points, for the places where the program changes the case of letters.
use Prim.Native.Char.{Char, char, code, nul}
use Prim.Native.Nat.{Ordering, compare}
use barhandler_manager.Prelude.{
  ℕ, ◌+◌, ◌-◌, ◌≡◌, refl, ◌↔◌, Bool, true, false, ◌&&◌, List, [], ◌∷◌, map, arith, leb, Eq, ◌==◌,
  nat_eq, String, if◌then◌else◌,
}

-- The code points of a text.
abbrev pub codes : String → List ℕ
codes String.[] = []
codes (String.◌∷◌ c s) = code c ∷ codes s

abbrev pub text_beq : List ℕ → List ℕ → Bool
text_beq [] [] = true
text_beq [] (d ∷ t) = false
text_beq (c ∷ s) [] = false
text_beq (c ∷ s) (d ∷ t) = c == d && text_beq s t

pub text_beq_iff : (s t : List ℕ) → (text_beq s t ≡ true) ↔ (s ≡ t)
text_beq_iff [] [] = (λ h. refl, λ h. refl)
text_beq_iff [] (d ∷ t) = (λ h. cc, λ h. cc)
text_beq_iff (c ∷ s) [] = (λ h. cc, λ h. cc)
text_beq_iff (c ∷ s) (d ∷ t) = ground (arith, text_beq_iff s t)

instance abbrev pub text_eq : Eq (List ℕ)
text_eq = record { agree = text_beq; agree_iff = text_beq_iff }

-- `str.upper` and `str.lower` on the letters of ASCII; other characters stay as they are.
abbrev pub upper : List ℕ → List ℕ
upper = map (λ c. if leb b'a' c && leb c b'z' then c - 32 else c)

abbrev pub lower : List ℕ → List ℕ
lower = map (λ c. if leb b'A' c && leb c b'Z' then c + 32 else c)

-- `str.replace("-", "_")`
abbrev pub underscored : List ℕ → List ℕ
underscored = map (λ c. if c == b'-' then b'_' else c)

-- The character of a code point; a surrogate, which no text of the model holds, becomes U+0000.
character :
    (n : ℕ) (o p q : Ordering)
    → compare n 0xd800 ≡ o
    → compare 0xdfff n ≡ p
    → compare n 0x110000 ≡ q
    → Char
character n Ordering.lt p q h h₁ h₂ = char n (rw h tt)
character n Ordering.gt Ordering.lt Ordering.lt h h₁ h₂ = char n (rw (h, h₁, h₂) tt)
character n Ordering.eq p q h h₁ h₂ = nul
character n Ordering.gt Ordering.eq q h h₁ h₂ = nul
character n Ordering.gt Ordering.gt q h h₁ h₂ = nul
character n Ordering.gt Ordering.lt Ordering.eq h h₁ h₂ = nul
character n Ordering.gt Ordering.lt Ordering.gt h h₁ h₂ = nul

character_of : ℕ → Char
unfolding character
character_of n =
    character n (compare n 0xd800) (compare 0xdfff n) (compare n 0x110000) refl refl refl

-- The text of some code points.
unfoldable pub text : List ℕ → String
unfolding character_of
text [] = String.[]
text (c ∷ s) = String.◌∷◌ (character_of c) (text s)
