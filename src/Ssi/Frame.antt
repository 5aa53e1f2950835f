-- ===== src/Ssi/Frame.antt =====
-- services/terminals/ssi.py, the frames: three fixed bytes, the length of the data in two bytes,
-- the data, and the exclusive or of its bytes. The bytes of a message are the codec's: here
-- `dumps` stands for `json.dumps(…).encode("utf-8")` and `loads` for `json.loads(… .decode("utf-8"))`.
use Prim.Native.Nat.{bit_xor}
use barhandler_manager.Prelude.{
  ℕ, ◌+◌, ◌*◌, ◌/◌, ◌%◌, Bool, true, false, Option, none, some, List, [], ◌∷◌, ◌++◌, length, take,
  drop, get_elem?, ltb, ◌==◌, nat_eq, if◌then◌else◌,
}
use barhandler_manager.Json.{Json}
use barhandler_manager.Json.Codec.{Codec}

abbrev pub Bytes : Type 0
Bytes = List ℕ

-- What decoding ends in: the value, a `FrameError`, or the error of `json.loads` or `decode`,
-- which is not one.
pub data Decoded : Type 0 where
  message : Json → Decoded
  frame_error : Decoded
  not_json : Decoded

unfoldable pub lrc_from : ℕ → Bytes → ℕ
lrc_from lrc [] = lrc
lrc_from lrc (b ∷ bs) = lrc_from (bit_xor lrc b) bs

-- `calc_lrc`
unfoldable pub calc_lrc : Bytes → ℕ
unfolding lrc_from
calc_lrc data' = lrc_from 0 data'

-- `STX_PREFIX`
abbrev pub is_stx : Bytes → Bool
is_stx (a ∷ b ∷ c ∷ []) = elim (a == 0x02) [
  | true ↦ elim (b == 0x66) [ true ↦ c == 0x01 | false ↦ false ]
  | false ↦ false
]
is_stx _ = false

-- The frame around the bytes of a message
unfoldable pub frame_of : Bytes → Bytes
unfolding calc_lrc
frame_of body =
    0x02 ∷ 0x66 ∷ 0x01 ∷ (length body / 256) ∷ (length body % 256) ∷ (body ++ calc_lrc body ∷ [])

abbrev pub byte_or_zero : Option ℕ → ℕ
byte_or_zero none = 0
byte_or_zero (some b) = b

-- `buffer[i]`, for an index within the buffer
abbrev pub byte_at : Bytes → ℕ → ℕ
byte_at bs i = byte_or_zero (get_elem? bs i)

abbrev pub decoded : Option Json → Decoded
decoded none = not_json
decoded (some v) = message v

module _ (codec : Codec) where
  -- `encode_frame`; `none` is the `ValueError` of a message past 64K
  unfoldable pub encode_frame : Json → Option Bytes
  unfolding frame_of
  encode_frame v =
      let body = codec.dumps v in if ltb 0xffff (length body) then none else some (frame_of body)

  -- the part of `decode_frame` after the length is known
  unfoldable pub decode_body : ℕ → Bytes → Decoded
  unfolding calc_lrc
  decode_body size buffer =
      let body = take size (drop 5 buffer) in
      if ltb (length buffer) (5 + size + 1)
      then frame_error
      else if byte_at buffer (5 + size) == calc_lrc body
      then decoded (codec.loads body)
      else frame_error

  -- `decode_frame`
  unfoldable pub decode_frame : Bytes → Decoded
  unfolding decode_body
  decode_frame buffer =
      if ltb (length buffer) 6
      then frame_error
      else if is_stx (take 3 buffer)
      then decode_body (byte_at buffer 3 * 256 + byte_at buffer 4) buffer
      else frame_error
