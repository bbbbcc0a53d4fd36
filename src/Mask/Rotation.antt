-- ===== src/Mask/Rotation.antt =====
-- Rotating the mask by some bytes is rotating it by one byte so often.
use c_web_socket_pico_w_test.Base.{
  ℕ, zero, suc, ◌+◌, ◌*◌, ◌/◌, ◌%◌, ◌^◌, ◌<◌, ◌≤◌, ◌≡◌, sym, ◌∙◌, ap, ap₂, arith, bit_or, ◌<<◌,
  ◌>>◌, u32, IsU32,
}
use c_web_socket_pico_w_test.Base.Bits.{bit_or-zero}
use c_web_socket_pico_w_test.Base.Fields.{bit_or_low}
use c_web_socket_pico_w_test.Mask.{rotate}

-- The lowest byte becomes the highest.
abbrev pub turn : ℕ → ℕ
turn mask = mask / 2 ^ 8 + mask % 2 ^ 8 * 2 ^ 24

abbrev pub turns : ℕ → ℕ → ℕ
turns zero mask = mask
turns (suc n) mask = turns n (turn mask)

pub turn-IsU32 : (mask : ℕ) → IsU32 mask → IsU32 (turn mask)
turn-IsU32 mask h = omega arith

pub turns-IsU32 : (n mask : ℕ) → IsU32 mask → IsU32 (turns n mask)
turns-IsU32 zero mask h = h
turns-IsU32 (suc n) mask h = turns-IsU32 n (turn mask) (turn-IsU32 mask h)

pub turns_four : (mask : ℕ) → IsU32 mask → turns 4 mask ≡ mask
turns_four mask h = omega arith

-- For 1 to 4 bytes.
pub rotate-turns : (mask k : ℕ) → IsU32 mask → 0 < k → k ≤ 4 → rotate mask k ≡ turns k mask
unfolding rotate
rotate-turns mask zero h pos few = absurd (omega arith)
rotate-turns mask (suc zero) h pos few =
    ap (λ t. bit_or t (mask >> 8)) {x = u32 (mask << 24)} {y = mask % 2 ^ 8 * 2 ^ 24} (omega arith)
    ∙ bit_or_low 24 (mask % 2 ^ 8) (mask / 2 ^ 8) (omega arith)
    ∙ omega arith
rotate-turns mask (suc (suc zero)) h pos few =
    ap (λ t. bit_or t (mask >> 16)) {x = u32 (mask << 16)} {y = mask % 2 ^ 16 * 2 ^ 16}
      (omega arith)
    ∙ bit_or_low 16 (mask % 2 ^ 16) (mask / 2 ^ 16) (omega arith)
    ∙ omega arith
rotate-turns mask (suc (suc (suc zero))) h pos few =
    ap (λ t. bit_or t (mask >> 24)) {x = u32 (mask << 8)} {y = mask % 2 ^ 24 * 2 ^ 8} (omega arith)
    ∙ bit_or_low 8 (mask % 2 ^ 24) (mask / 2 ^ 24) (omega arith)
    ∙ omega arith
rotate-turns mask (suc (suc (suc (suc zero)))) h pos few =
    ap₂ bit_or {x = u32 (mask << 0)} {y = mask} {u = mask >> 32} {v = 0} (omega arith) (omega arith)
    ∙ bit_or-zero mask
    ∙ sym (turns_four mask h)
rotate-turns mask (suc (suc (suc (suc (suc k))))) h pos few = absurd (omega arith)
