-- ===== src/Bridge/RoundTrip.antt =====
-- A frame that a bridge sends arrives whole, however the stream is cut into chunks.
use barhandler_manager.Prelude.{
  ℕ, ◌-◌, ◌/◌, ◌%◌, ◌^◌, ◌<◌, ◌≤◌, ◌≡◌, refl, ap, sym, ◌∙◌, ◌⊎◌, inl, inr, Bool-cases, true, false,
  ◌||◌, Option, none, some, List, [], ◌∷◌, ◌++◌, map, length, take, drop, arith, ltb, leb, ◌==◌,
  nat_eq, append_assoc, length-append,
}
use barhandler_manager.Privat.Frame.{Bytes}
use barhandler_manager.Privat.Reading.{Piece, bytes_of, arrival, written, total}
use barhandler_manager.Bridge.Stream.{
  Read, payload, before, line_or, read_until, Exact, got, read_exactly, line_of, read_body,
  marked_of, read_line, read_sized, read_marked, number, body_of, without_stx, line, sized, marked,
  max_frame_size, reader_limit,
}

-- No byte `sep` in it
abbrev pub IsFree : ℕ → Bytes → Type 0
IsFree sep [] = Unit
IsFree sep (b ∷ bs) = ((b == sep) ≡ false) × IsFree sep bs

Cut : ℕ → Bytes → Bytes → Type 0
Cut sep body buf =
    (before sep buf ≡ some body) ⊎ ((before sep buf ≡ none) × (length buf ≤ length body))

cut-behind :
    (sep c : ℕ) (cs bs : Bytes) → (c == sep) ≡ false → Cut sep cs bs → Cut sep (c ∷ cs) (c ∷ bs)
unfolding Cut before
cut-behind sep c cs bs other (inl found) = inl (rw (other, found) refl)
cut-behind sep c cs bs other (inr (clear, short)) = inr (rw (other, clear) refl, omega arith)

-- A part of the stream holds the frame, or has no separator yet and is no longer than the body.
cut :
    (sep : ℕ) (body buf more rest : Bytes)
    → IsFree sep body
    → buf ++ more ≡ body ++ sep ∷ rest
    → Cut sep body buf
unfolding Cut before
cut sep body [] more rest free h = inr (refl, omega arith)
cut sep [] (b ∷ bs) more rest free h =
    let same : b ≡ sep = cc h in
    let e : (b == sep) ≡ true = (nat_eq.agree_iff b sep).1 same in inl (rw e refl)
cut sep (c ∷ cs) (b ∷ bs) more rest (other, free) h =
    let same : b ≡ c = cc h in
    let tails : bs ++ more ≡ cs ++ sep ∷ rest = cc h in
    rw same (cut-behind sep c cs bs other (cut sep cs bs more rest free tails))

line_found :
    (r : Read) (o : Option Bytes) (body buf : Bytes)
    → o ≡ some body
    → length body ≤ reader_limit
    → line_or o buf r ≡ payload body
unfolding line_or
line_found r o body buf e fits =
    let short : ltb reader_limit (length body) ≡ false = ground arith in rw (e, short) refl

line_missing :
    (r : Read) (o : Option Bytes) (buf : Bytes)
    → o ≡ none
    → length buf ≤ reader_limit
    → line_or o buf r ≡ r
unfolding line_or
line_missing r o buf e fits =
    let short : ltb reader_limit (length buf) ≡ false = ground arith in rw (e, short) refl

module _ (sep : ℕ) (body rest : Bytes) (free : IsFree sep body)
    (fits : length body ≤ reader_limit) where
  read_until-body :
      (ps : List Piece) (left : ℕ) (buf : Bytes)
      → buf ++ written ps ≡ body ++ sep ∷ rest
      → total ps < left
      → read_until sep left buf (map arrival ps) ≡ payload body
  unfolding read_until Cut
  read_until-body [] left buf stream soon = elim (cut sep body buf [] rest free stream) [
    | inl e ↦ line_found _ (before sep buf) body buf e fits
    | inr (e, short) ↦
        let lengths =
          sym (length-append buf []) ∙ ap length stream ∙ length-append body (sep ∷ rest) in
        absurd (omega arith)
  ]
  read_until-body (p ∷ ps) left buf stream soon =
      let in_time : leb left p.after ≡ false = ground arith in
      elim (cut sep body buf (written (p ∷ ps)) rest free stream) [
        | inl e ↦ line_found _ (before sep buf) body buf e fits
        | inr (e, short) ↦ rw in_time (
            line_missing _ (before sep buf) buf e (omega arith)
            ∙ read_until-body ps (left - p.after) (buf ++ bytes_of p)
                (append_assoc buf (bytes_of p) (written ps) ∙ stream) (omega arith))
      ]

append_cut :
    (xs buf more ys : Bytes)
    → length xs ≤ length buf
    → buf ++ more ≡ xs ++ ys
    → (take (length xs) buf ≡ xs) × (drop (length xs) buf ++ more ≡ ys)
append_cut [] buf more ys short h = (refl, h)
append_cut (x ∷ xs) [] more ys short h = absurd (omega arith)
append_cut (x ∷ xs) (b ∷ bs) more ys short h =
    let same : b ≡ x = cc h in
    let tails : bs ++ more ≡ xs ++ ys = cc h in
    let (front, back) = append_cut xs bs more ys (omega arith) tails in
    (rw (same, front) refl, back)

-- What `readexactly` returns, and what it leaves for the next one
Exactly : ℕ → Bytes → Bytes → List Piece → Exact → Type 0
Exactly left xs ys ps e =
    (buf : Bytes) × (ps' : List Piece) × (e ≡ got xs buf (map arrival ps'))
    × (buf ++ written ps' ≡ ys)
    × (total ps' < left)

read_exactly-front :
    (xs ys : Bytes) (ps : List Piece) (left limit : ℕ) (buf : Bytes)
    → buf ++ written ps ≡ xs ++ ys
    → total ps < left
    → total ps < limit
    → Exactly limit xs ys ps (read_exactly (length xs) left buf (map arrival ps))
unfolding read_exactly Exactly
read_exactly-front xs ys [] left limit buf stream soon within =
    let lengths = sym (length-append buf []) ∙ ap length stream ∙ length-append xs ys in
    let enough : leb (length xs) (length buf) ≡ true = ground arith in
    let (front, back) = append_cut xs buf [] ys (omega arith) stream in
    (drop (length xs) buf, [], rw (enough, front) refl, back, within)
read_exactly-front xs ys (p ∷ ps) left limit buf stream soon within =
    elim (Bool-cases (leb (length xs) (length buf))) [
      | inl enough ↦
          let (front, back) = append_cut xs buf (written (p ∷ ps)) ys (ground arith) stream in
          (drop (length xs) buf, p ∷ ps, rw (enough, front) refl, back, within)
      | inr short ↦
          let in_time : leb left p.after ≡ false = ground arith in
          let (buf', ps', e, back, within') =
            read_exactly-front xs ys ps (left - p.after) limit (buf ++ bytes_of p)
              (append_assoc buf (bytes_of p) (written ps) ∙ stream) (omega arith) (omega arith) in
          (buf', ps', rw (short, in_time) e, back, within')
    ]

pub read_line-line :
    (timeout : ℕ) (ps : List Piece) (body rest : Bytes)
    → total ps < timeout
    → written ps ≡ line body ++ rest
    → IsFree b'\n' body
    → length body ≤ reader_limit
    → read_line timeout (map arrival ps) ≡ payload body
unfolding read_line line
read_line-line timeout ps body rest soon stream free fits = ap line_of (
    read_until-body b'\n' body rest free fits ps timeout []
      (stream ∙ append_assoc body (b'\n' ∷ []) rest) soon)

pub read_marked-marked :
    (timeout : ℕ) (ps : List Piece) (body rest : Bytes)
    → total ps < timeout
    → written ps ≡ marked body ++ rest
    → IsFree 0x03 body
    → length body < reader_limit
    → read_marked timeout (map arrival ps) ≡ payload body
unfolding read_marked marked_of marked without_stx
read_marked-marked timeout ps body rest soon stream free fits =
    let short : ltb max_frame_size (length body) ≡ false = ground arith in
    ap marked_of (
      read_until-body 0x03 (0x02 ∷ body) rest (refl, free) (omega arith) ps timeout []
        (stream ∙ ap (λ xs. 0x02 ∷ xs) (append_assoc body (0x03 ∷ []) rest)) soon)
    ∙ rw short refl

abbrev header : ℕ → Bytes
header n = (n / 2 ^ 24) ∷ (n / 2 ^ 16 % 256) ∷ (n / 256 % 256) ∷ (n % 256) ∷ []

number-header : (n : ℕ) → n ≤ max_frame_size → number (header n) ≡ n
number-header n h = omega arith

sized_body :
    (body : Bytes) (e : Exact) (rest : Bytes) (left : ℕ)
    → (ps : List Piece) → Exactly left body rest ps e
    → body_of e ≡ payload body
unfolding Exactly
sized_body body e rest left ps (buf, ps', found, back, soon) = rw found refl

pub read_sized-sized :
    (timeout : ℕ) (ps : List Piece) (body rest : Bytes)
    → total ps < timeout
    → written ps ≡ sized body ++ rest
    → 0 < length body
    → length body ≤ max_frame_size
    → read_sized timeout (map arrival ps) ≡ payload body
unfolding read_sized read_body sized Exactly
read_sized-sized timeout ps body rest soon stream some_byte fits =
    let n = length body in
    let (buf, ps', first, back, soon') =
      read_exactly-front (header n) (body ++ rest) ps timeout timeout [] stream soon soon in
    let second = read_exactly-front body rest ps' timeout timeout buf back soon' soon' in
    let plausible : (n == 0 || ltb max_frame_size n) ≡ false = ground arith in
    ap (read_body timeout) first
    ∙ rw (number-header n fits, plausible) (sized_body body _ rest timeout ps' second)
