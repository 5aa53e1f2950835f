-- ===== src/Offline/Words.antt =====
-- The regular expressions of offline_state.py, and the slices that it takes of texts.
use Prim.Native.Char.{code}
use barhandler_manager.Prelude.{
  ℕ, zero, suc, String, Bool, true, false, ◌&&◌, ◌||◌, Option, none, some, List, [], ◌∷◌, leb, ◌==◌,
  nat_eq, string_eq, length, if◌then◌else◌, contains,
}
use barhandler_manager.Prelude.Text.{codes, text_eq, lower}

-- `[A-Za-z0-9.-]`
abbrev pub in_host : ℕ → Bool
in_host c =
    leb b'a' c && leb c b'z'
    || leb b'A' c && leb c b'Z'
    || leb b'0' c && leb c b'9'
    || c == b'.'
    || c == b'-'

abbrev pub all : (ℕ → Bool) → List ℕ → Bool
all good [] = true
all good (c ∷ cs) = good c && all good cs

-- `_SAFE_ID.fullmatch(text)`
unfoldable pub is_safe_id : String → Bool
is_safe_id s =
    leb 1 (length (codes s))
    && leb (length (codes s)) 64
    && all (λ c. in_host c || c == b'_') (codes s)

-- The rest of a text after `prefix`, if it begins so.
abbrev pub after : List ℕ → List ℕ → Option (List ℕ)
after [] s = some s
after (c ∷ cs) [] = none
after (c ∷ cs) (d ∷ s) = if c == d then after cs s else none

-- A text up to its first slash, and the rest from the slash on.
abbrev pub to_slash : List ℕ → List ℕ × List ℕ
to_slash [] = ([], [])
to_slash (c ∷ cs) =
    let rest = to_slash cs in if c == b'/' then ([], c ∷ cs) else (c ∷ rest.0, rest.1)

matched_host : List ℕ × List ℕ → Option (List ℕ)
matched_host cut =
    if leb 1 (length cut.0)
      && all in_host cut.0
      && (cut.1 == codes "/api" || cut.1 == codes "/api/")
    then some cut.0
    else none

matched_rest : Option (List ℕ) → Option (List ℕ)
matched_rest none = none
matched_rest (some rest) = matched_host (to_slash rest)

-- group 1 of `_API_BASE.fullmatch(text)`
unfoldable pub api_host : String → Option (List ℕ)
unfolding matched_rest matched_host
api_host s = matched_rest (after (codes "https://") (codes s))

-- `api and api.group(1).lower() in hosts`
unfoldable pub is_known_host : List (List ℕ) → Option (List ℕ) → Bool
is_known_host hosts none = false
is_known_host hosts (some host) = contains hosts (lower host)

-- `text.rstrip("/")`
unfoldable pub rstrip_slash : String → String
rstrip_slash String.[] = String.[]
rstrip_slash (String.◌∷◌ c s) =
    let rest = rstrip_slash s in if rest == "" && code c == b'/' then "" else String.◌∷◌ c rest

-- `text[:n]`
unfoldable pub cut : ℕ → String → String
cut zero s = ""
cut (suc n) String.[] = ""
cut (suc n) (String.◌∷◌ c s) = String.◌∷◌ c (cut n s)
