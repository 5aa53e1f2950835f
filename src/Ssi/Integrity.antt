-- ===== src/Ssi/Integrity.antt =====
-- Frames survive the wire: what is encoded decodes, and a damaged byte is noticed.
use Prim.Native.Nat.{bit_xor}
use barhandler_manager.Prelude.{
  ℕ, suc, ◌+◌, ◌*◌, ◌/◌, ◌%◌, ◌≤◌, ◌<◌, ◌≡◌, ◌≢◌, refl, ap, ◌∙◌, false, some, [], ◌∷◌, ◌++◌, arith,
  length, get_elem?, ltb, ◌==◌, nat_eq, if◌then◌else◌, length-append, take-append, set, set-append,
  append_assoc,
}
use barhandler_manager.Xor.{bit_xor-lt, bit_xor-injective, bit_xor-injective_right}
use barhandler_manager.Json.{Json}
use barhandler_manager.Json.Codec.{Codec}
use barhandler_manager.Ssi.Frame.{
  Bytes, Decoded, message, frame_error, calc_lrc, lrc_from, decoded, frame_of, encode_frame,
  decode_frame, decode_body, byte_at, byte_or_zero,
}

get_elem?-append : (xs : Bytes) (x : ℕ) (ys : Bytes) → get_elem? (xs ++ x ∷ ys) (length xs) ≡ some x
get_elem?-append [] x ys = refl
get_elem?-append (a ∷ xs) x ys = get_elem?-append xs x ys

-- A frame as it comes off the wire: its length bytes, data, checksum and what follows.
abbrev raw : ℕ → ℕ → Bytes → ℕ → Bytes → Bytes
raw hi lo body check rest = 0x02 ∷ 0x66 ∷ 0x01 ∷ hi ∷ lo ∷ (body ++ check ∷ rest)

long_enough :
    (hi lo : ℕ) (body : Bytes) (check : ℕ) (rest : Bytes)
    → ltb (length (raw hi lo body check rest)) (5 + length body + 1) ≡ false
long_enough hi lo body check rest = ground (arith, length-append body (check ∷ rest))

received :
    (hi lo : ℕ) (body : Bytes) (check : ℕ) (rest : Bytes)
    → byte_at (raw hi lo body check rest) (5 + length body) ≡ check
received hi lo body check rest =
    let e : 5 + length body ≡ suc (suc (suc (suc (suc (length body))))) = omega arith in
    rw e (ap byte_or_zero (get_elem?-append body check rest))

module _ (codec : Codec) where
  decode_body-raw :
      (hi lo : ℕ) (body : Bytes) (check : ℕ) (rest : Bytes)
      → decode_body codec (length body) (raw hi lo body check rest)
        ≡ (if check == calc_lrc body then decoded (codec.loads body) else frame_error)
  unfolding decode_body
  decode_body-raw hi lo body check rest =
      rw (long_enough hi lo body check rest, take-append body (check ∷ rest))
        (rw (received hi lo body check rest))

  decode_frame-raw :
      (hi lo : ℕ) (body : Bytes) (check : ℕ) (rest : Bytes)
      → hi * 256 + lo ≡ length body
      → decode_frame codec (raw hi lo body check rest)
        ≡ (if check == calc_lrc body then decoded (codec.loads body) else frame_error)
  unfolding decode_frame
  decode_frame-raw hi lo body check rest h =
      let long : ltb (length (raw hi lo body check rest)) 6 ≡ false =
        ground (arith, length-append body (check ∷ rest)) in
      rw long (rw h (decode_body-raw hi lo body check rest))

  encoded :
      (v : Json) (frame : Bytes)
      → encode_frame codec v ≡ some frame
      → (frame ≡ frame_of (codec.dumps v)) × (length (codec.dumps v) ≤ 0xffff)
  unfolding encode_frame
  encoded v frame e = ground arith

  -- A frame decodes to the message that it was made of, whatever bytes follow it.
  pub decode_frame-encode_frame :
      (v : Json) (frame rest : Bytes)
      → codec.loads (codec.dumps v) ≡ some v
      → encode_frame codec v ≡ some frame
      → decode_frame codec (frame ++ rest) ≡ message v
  unfolding frame_of
  decode_frame-encode_frame v frame rest loaded e =
      let body = codec.dumps v in
      let intact : (if calc_lrc body == calc_lrc body
            then decoded (codec.loads body)
            else frame_error)
          ≡ message v =
        rw loaded (ground (arith)) in
      rw (encoded v frame e).0 (
        rw (append_assoc body) (
          decode_frame-raw (length body / 256) (length body % 256) body (calc_lrc body) rest
            (omega arith)
          ∙ intact))

abbrev pub AllBytes : Bytes → Type 0
AllBytes [] = Unit
AllBytes (b ∷ bs) = (b < 256) × AllBytes bs

lrc_from-lt : (acc : ℕ) (bs : Bytes) → acc < 256 → AllBytes bs → lrc_from acc bs < 256
unfolding lrc_from
lrc_from-lt acc [] ha hb = ha
lrc_from-lt acc (b ∷ bs) ha hb = lrc_from-lt (bit_xor acc b) bs (bit_xor-lt acc b ha hb.0) hb.1

lrc_from-injective :
    (a b : ℕ) (bs : Bytes) → a < 256 → b < 256 → AllBytes bs → lrc_from a bs ≡ lrc_from b bs → a ≡ b
unfolding lrc_from
lrc_from-injective a b [] ha hb h e = e
lrc_from-injective a b (c ∷ bs) ha hb h e = bit_xor-injective a b c ha hb h.0 (
    lrc_from-injective (bit_xor a c) (bit_xor b c) bs (bit_xor-lt a c ha h.0)
      (bit_xor-lt b c hb h.0) h.1 e)

lrc_from-damaged :
    (acc : ℕ) (xs : Bytes) (b c : ℕ) (ys : Bytes)
    → acc < 256
    → b < 256
    → c < 256
    → AllBytes xs
    → AllBytes ys
    → lrc_from acc (xs ++ b ∷ ys) ≡ lrc_from acc (xs ++ c ∷ ys)
    → b ≡ c
unfolding lrc_from
lrc_from-damaged acc [] b c ys ha hb hc hx hy e =
    bit_xor-injective_right acc b c ha hb hc
      (lrc_from-injective _ _ ys (bit_xor-lt acc b ha hb) (bit_xor-lt acc c ha hc) hy e)
lrc_from-damaged acc (x ∷ xs) b c ys ha hb hc hx hy e =
    lrc_from-damaged (bit_xor acc x) xs b c ys (bit_xor-lt acc x ha hx.0) hb hc hx.1 hy e

calc_lrc-damaged :
    (xs : Bytes) (b c : ℕ) (ys : Bytes)
    → AllBytes xs
    → b < 256
    → c < 256
    → AllBytes ys
    → b ≢ c
    → calc_lrc (xs ++ b ∷ ys) ≢ calc_lrc (xs ++ c ∷ ys)
unfolding calc_lrc
calc_lrc-damaged xs b c ys hx hb hc hy ne e =
    ne (lrc_from-damaged 0 xs b c ys (omega arith) hb hc hx hy e)

mismatch : (m n : ℕ) (d : Decoded) → m ≢ n → (if m == n then d else frame_error) ≡ frame_error
mismatch m n d h = ground arith

AllBytes-split :
    (xs : Bytes) (b : ℕ) (ys : Bytes)
    → AllBytes (xs ++ b ∷ ys)
    → AllBytes xs × (b < 256) × AllBytes ys
AllBytes-split [] b ys h = (tt, h.0, h.1)
AllBytes-split (x ∷ xs) b ys h =
    let (hx, hb, hy) = AllBytes-split xs b ys h.1 in ((h.0, hx), hb, hy)

-- The frame with the byte `c` written over the data's byte behind `xs`.
set-frame_of :
    (xs : Bytes) (b c : ℕ) (ys : Bytes)
    → set (frame_of (xs ++ b ∷ ys)) (5 + length xs) c
      ≡ raw
          (length (xs ++ b ∷ ys) / 256)
          (length (xs ++ b ∷ ys) % 256)
          (xs ++ c ∷ ys)
          (calc_lrc (xs ++ b ∷ ys))
          []
unfolding frame_of
set-frame_of xs b c ys =
    let five : 5 + length xs ≡ suc (suc (suc (suc (suc (length xs))))) = omega arith in
    rw (five, append_assoc xs, append_assoc xs, set-append xs b c)

module _ (codec : Codec) where
  -- A frame in which one byte of the data has become another byte is refused as a frame error.
  pub decode_frame-damaged :
      (v : Json) (frame xs : Bytes) (b c : ℕ) (ys : Bytes)
      → encode_frame codec v ≡ some frame
      → codec.dumps v ≡ xs ++ b ∷ ys
      → AllBytes (codec.dumps v)
      → c < 256
      → b ≢ c
      → decode_frame codec (set frame (5 + length xs) c) ≡ frame_error
  decode_frame-damaged v frame xs b c ys e d h hc ne =
      let (is_frame, small) = encoded codec v frame e in
      let (hx, hb, hy) = AllBytes-split xs b ys (rw d at h) in
      let same_length : length (xs ++ b ∷ ys) / 256 * 256 + length (xs ++ b ∷ ys) % 256
          ≡ length (xs ++ c ∷ ys) =
        omega (arith, length-append xs (b ∷ ys), length-append xs (c ∷ ys)) in
      rw (is_frame, d, set-frame_of xs b c ys)
        (decode_frame-raw codec _ _ (xs ++ c ∷ ys) (calc_lrc (xs ++ b ∷ ys)) [] same_length
          ∙ mismatch _ _ _ (calc_lrc-damaged xs b c ys hx hb hc hy ne))
