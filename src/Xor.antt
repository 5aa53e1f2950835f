-- ===== src/Xor.antt =====
-- Laws of `^` on bytes, for the checksums of the terminals' frames.
use Prim.Native.Nat.{bit_xor}
use barhandler_manager.Prelude.{ℕ, zero, suc, ◌<◌, ◌≡◌, refl, Bool, true, ◌&&◌, arith, ltb, nat_beq}

-- A test of the numbers below `k`, from the highest down.
passes : (ℕ → Bool) → ℕ → Bool
passes test zero = true
passes test (suc k) = passes test k && test k

passes_at : (test : ℕ → Bool) (k n : ℕ) → passes test k ≡ true → n < k → test n ≡ true
unfolding passes
passes_at test zero n h below = absurd (omega arith)
passes_at test (suc k) n h below = ground (arith, passes_at test k n)

-- Every pair of bytes, checked.
undoes : ℕ → ℕ → Bool
undoes a b =
    nat_beq (bit_xor (bit_xor a b) b) a
    && (nat_beq (bit_xor a (bit_xor a b)) b && ltb (bit_xor a b) 256)

undoes_row : ℕ → Bool
undoes_row a = passes (undoes a) 256

undoes_table : passes undoes_row 256 ≡ true
unfolding passes undoes_row undoes
undoes_table = refl

undoes_bytes : (a b : ℕ) → a < 256 → b < 256 → undoes a b ≡ true
undoes_bytes a b ha hb =
    passes_at (undoes a) 256 b (unfold undoes_row in passes_at undoes_row 256 a undoes_table ha) hb

pub bit_xor_undo : (a b : ℕ) → a < 256 → b < 256 → bit_xor (bit_xor a b) b ≡ a
unfolding undoes
bit_xor_undo a b ha hb = ground (arith, undoes_bytes a b ha hb)

pub bit_xor-lt : (a b : ℕ) → a < 256 → b < 256 → bit_xor a b < 256
unfolding undoes
bit_xor-lt a b ha hb = ground (arith, undoes_bytes a b ha hb)

bit_xor_undo_left : (a b : ℕ) → a < 256 → b < 256 → bit_xor a (bit_xor a b) ≡ b
unfolding undoes
bit_xor_undo_left a b ha hb = ground (arith, undoes_bytes a b ha hb)

-- Two bytes that differ stay different under a third.
pub bit_xor-injective :
    (a b c : ℕ) → a < 256 → b < 256 → c < 256 → bit_xor a c ≡ bit_xor b c → a ≡ b
bit_xor-injective a b c ha hb hc e = cc (bit_xor_undo a c ha hc, bit_xor_undo b c hb hc)

-- A byte that differs gives another result.
pub bit_xor-injective_right :
    (a b c : ℕ) → a < 256 → b < 256 → c < 256 → bit_xor a b ≡ bit_xor a c → b ≡ c
bit_xor-injective_right a b c ha hb hc e =
    cc (bit_xor_undo_left a b ha hb, bit_xor_undo_left a c ha hc)
