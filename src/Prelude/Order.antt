-- ===== src/Prelude/Order.antt =====
-- Python's order on texts: by code points, from the left.
use text.Mathlib.TextEquality.{Char-path}
use barhandler_manager.Prelude.{
  ℕ, String, ◌≡◌, refl, Bool, true, false, ◌&&◌, ◌||◌, List, [], ◌∷◌, arith, ltb, ◌==◌, nat_eq,
  if◌then◌else◌,
}
use barhandler_manager.Prelude.Text.{codes}

abbrev pub codes_leb : List ℕ → List ℕ → Bool
codes_leb [] t = true
codes_leb (c ∷ s) [] = false
codes_leb (c ∷ s) (d ∷ t) = ltb c d || c == d && codes_leb s t

-- `a <= b`
unfoldable pub text_leb : String → String → Bool
text_leb a b = codes_leb (codes a) (codes b)

-- `min(a, b)`
unfoldable pub lower : String → String → String
lower a b = if text_leb a b then a else b

codes_leb_refl : (s : List ℕ) → codes_leb s s ≡ true
codes_leb_refl [] = refl
codes_leb_refl (c ∷ s) = ground (arith, codes_leb_refl s)

codes_leb-total : (s t : List ℕ) → codes_leb s t ≡ false → codes_leb t s ≡ true
codes_leb-total [] t h = cc h
codes_leb-total (c ∷ s) [] h = refl
codes_leb-total (c ∷ s) (d ∷ t) h = ground (arith, codes_leb-total s t)

codes_leb_trans :
    (s t u : List ℕ) → codes_leb s t ≡ true → codes_leb t u ≡ true → codes_leb s u ≡ true
codes_leb_trans [] t u h k = refl
codes_leb_trans (c ∷ s) [] u h k = cc h
codes_leb_trans (c ∷ s) (d ∷ t) [] h k = cc k
codes_leb_trans (c ∷ s) (d ∷ t) (e ∷ u) h k = ground (arith, codes_leb_trans s t u)

codes_leb-antisym : (s t : List ℕ) → codes_leb s t ≡ true → codes_leb t s ≡ true → s ≡ t
codes_leb-antisym [] [] h k = refl
codes_leb-antisym [] (d ∷ t) h k = cc k
codes_leb-antisym (c ∷ s) [] h k = cc h
codes_leb-antisym (c ∷ s) (d ∷ t) h k = ground (arith, codes_leb-antisym s t)

codes-injective : (a b : String) → codes a ≡ codes b → a ≡ b
codes-injective String.[] String.[] h = refl
codes-injective String.[] (String.◌∷◌ d t) h = cc h
codes-injective (String.◌∷◌ c s) String.[] h = cc h
codes-injective (String.◌∷◌ c s) (String.◌∷◌ d t) h =
    let same : c ≡ d = Char-path c d (cc h) in
    let rest : s ≡ t = codes-injective s t (cc h) in cc (same, rest)

pub text_leb_refl : (a : String) → text_leb a a ≡ true
unfolding text_leb
text_leb_refl a = codes_leb_refl (codes a)

pub text_leb_trans :
    (a b c : String) → text_leb a b ≡ true → text_leb b c ≡ true → text_leb a c ≡ true
unfolding text_leb
text_leb_trans a b c = codes_leb_trans (codes a) (codes b) (codes c)

pub text_leb-antisym : (a b : String) → text_leb a b ≡ true → text_leb b a ≡ true → a ≡ b
unfolding text_leb
text_leb-antisym a b h k = codes-injective a b (codes_leb-antisym (codes a) (codes b) h k)

pub text_leb-total : (a b : String) → text_leb a b ≡ false → text_leb b a ≡ true
unfolding text_leb
text_leb-total a b = codes_leb-total (codes a) (codes b)
