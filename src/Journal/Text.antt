-- ===== src/Journal/Text.antt =====
-- The text functions of Python that `load` reads the journal's file with: `str.splitlines` and
-- `str.strip`, over code points.
use barhandler_manager.Prelude.{
  ℕ, Bool, ◌&&◌, ◌||◌, true, false, List, [], ◌∷◌, leb, ◌==◌, nat_eq, if◌then◌else◌,
}
use barhandler_manager.Json.Codec.{Text}

-- Where `splitlines` breaks a text.
unfoldable pub is_break : ℕ → Bool
is_break c =
    (leb 0x0a c && leb c 0x0d)
    || (leb 0x1c c && leb c 0x1e)
    || c == 0x85
    || c == 0x2028
    || c == 0x2029

abbrev extend : ℕ → List Text → List Text
extend c [] = (c ∷ []) ∷ []
extend c (l ∷ ls) = (c ∷ l) ∷ ls

unfoldable pub splitlines : Text → List Text
splitlines [] = []
splitlines (c ∷ t) = let rest = splitlines t in if is_break c then [] ∷ rest else extend c rest

-- `str.isspace` of one character.
unfoldable pub is_space : ℕ → Bool
is_space c =
    (leb 0x09 c && leb c 0x0d)
    || (leb 0x1c c && leb c 0x20)
    || c == 0x85
    || c == 0xa0
    || c == 0x1680
    || (leb 0x2000 c && leb c 0x200a)
    || c == 0x2028
    || c == 0x2029
    || c == 0x202f
    || c == 0x205f
    || c == 0x3000

unfoldable pub lstrip : Text → Text
lstrip [] = []
lstrip (c ∷ t) = let rest = lstrip t in if is_space c then rest else c ∷ t

abbrev is_empty : Text → Bool
is_empty [] = true
is_empty (c ∷ t) = false

unfoldable pub rstrip : Text → Text
rstrip [] = []
rstrip (c ∷ t) = let rest = rstrip t in if is_space c && is_empty rest then [] else c ∷ rest

unfoldable pub strip : Text → Text
unfolding lstrip rstrip
strip t = rstrip (lstrip t)

-- `raw.endswith("\n")`
unfoldable pub ends_line : Text → Bool
ends_line [] = false
ends_line (c ∷ []) = c == b'\n'
ends_line (c ∷ d ∷ t) = ends_line (d ∷ t)
