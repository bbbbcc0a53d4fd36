-- ===== src/Mask/Loops.antt =====
-- Each of the three loops of `websocket_apply_mask` masks byte by byte.
use c_web_socket_pico_w_test.Base.{
  ℕ, zero, suc, ◌+◌, ◌*◌, ◌/◌, ◌%◌, ◌^◌, ◌<◌, ◌≤◌, ◌≡◌, refl, sym, ◌∙◌, ap, ap₂, arith, List, [],
  ◌∷◌, ◌++◌, append_assoc, length, take, drop, bit_xor, IsU32, IsByte, All, u8, ◌>>◌,
}
use c_web_socket_pico_w_test.Base.Fields.{bit_xor_fields, bit_xor-lt}
use c_web_socket_pico_w_test.Mask.{head_loop, word_loop, load32, store32}
use c_web_socket_pico_w_test.Mask.Rotation.{turn, turns, turns_four}
use c_web_socket_pico_w_test.Mask.Bytewise.{masked, masked-append, turns-add}

-- The cast to `char` leaves a byte with the lowest byte of the shifted mask.
u8-bit_xor : (b w : ℕ) → IsByte b → u8 (bit_xor b w) ≡ bit_xor b (w % 2 ^ 8)
u8-bit_xor b w h =
    ap u8 (
      ap₂ bit_xor {x = b} {y = 0 * 2 ^ 8 + b} {u = w} {v = w / 2 ^ 8 * 2 ^ 8 + w % 2 ^ 8}
        (omega arith) (omega arith)
      ∙ bit_xor_fields 8 0 b (w / 2 ^ 8) (w % 2 ^ 8) h (omega arith))
    ∙ omega (arith, bit_xor-lt 8 b (w % 2 ^ 8) h (omega arith))

-- The lowest byte after `i` turns.
turns-low : (mask i : ℕ) → IsU32 mask → i < 4 → turns i mask % 2 ^ 8 ≡ (mask >> (i * 8)) % 2 ^ 8
turns-low mask zero h few = omega arith
turns-low mask (suc zero) h few = omega arith
turns-low mask (suc (suc zero)) h few = omega arith
turns-low mask (suc (suc (suc zero))) h few = omega arith
turns-low mask (suc (suc (suc (suc i)))) h few = absurd (omega arith)

turns-suc : (i mask : ℕ) → turns (i + 1) mask ≡ turn (turns i mask)
turns-suc i mask = turns-add i 1 mask

pub byte-masked :
    (mask i b : ℕ)
    → IsU32 mask
    → i < 4
    → IsByte b
    → u8 (bit_xor b (mask >> (i * 8))) ≡ bit_xor b (turns i mask % 2 ^ 8)
byte-masked mask i b h few byte =
    u8-bit_xor b (mask >> (i * 8)) byte ∙ ap (bit_xor b) (sym (turns-low mask i h few))

-- The first loop, on the first `left` bytes from byte `i` on.
pub head_loop-masked :
    (mask i left : ℕ) (buf : List ℕ)
    → IsU32 mask
    → i + left ≤ 4
    → All IsByte buf
    → head_loop mask i left buf ≡ masked (turns i mask) (take left buf) ++ drop left buf
unfolding head_loop masked
head_loop-masked mask i zero buf h few bytes = refl
head_loop-masked mask i (suc left) [] h few bytes = refl
head_loop-masked mask i (suc left) (b ∷ buf) h few bytes =
    ap₂ ◌∷◌ (byte-masked mask i b h (omega arith) bytes.0) (
      head_loop-masked mask (i + 1) left buf h (omega arith) bytes.1
      ∙ ap (λ m. masked m (take left buf) ++ drop left buf) (turns-suc i mask))

-- The lowest byte of a word apart.
xor-split :
    (q r w : ℕ)
    → r < 2 ^ 8
    → bit_xor (q * 2 ^ 8 + r) w ≡ bit_xor q (w / 2 ^ 8) * 2 ^ 8 + bit_xor r (w % 2 ^ 8)
xor-split q r w h =
    ap (bit_xor (q * 2 ^ 8 + r)) {x = w} {y = w / 2 ^ 8 * 2 ^ 8 + w % 2 ^ 8} (omega arith)
    ∙ bit_xor_fields 8 q r (w / 2 ^ 8) (w % 2 ^ 8) h (omega arith)

-- A word is masked as its four bytes.
word-masked :
    (mask a b c d : ℕ) (buf : List ℕ)
    → IsU32 mask
    → All IsByte (a ∷ b ∷ c ∷ d ∷ [])
    → store32 (bit_xor (load32 a b c d) mask) buf ≡ masked mask (a ∷ b ∷ c ∷ d ∷ []) ++ buf
unfolding load32 store32 masked
word-masked mask a b c d buf h (ha, (hb, (hc, (hd, _)))) =
    let m : ℕ → ℕ = λ i. mask / 2 ^ (8 * i) % 2 ^ 8 in
    let x : ℕ = bit_xor (load32 a b c d) mask in
    let x_is : x
        ≡ bit_xor (b + c * 2 ^ 8 + d * 2 ^ 16) (mask / 2 ^ 8) * 2 ^ 8 + bit_xor a (mask % 2 ^ 8) =
      ap (λ t. bit_xor t mask) {x = load32 a b c d} {y = (b + c * 2 ^ 8 + d * 2 ^ 16) * 2 ^ 8 + a}
        (omega arith)
      ∙ xor-split (b + c * 2 ^ 8 + d * 2 ^ 16) a mask ha in
    let y_is : bit_xor (b + c * 2 ^ 8 + d * 2 ^ 16) (mask / 2 ^ 8)
        ≡ bit_xor (c + d * 2 ^ 8) (mask / 2 ^ 8 / 2 ^ 8) * 2 ^ 8 + bit_xor b (m 1) =
      ap (λ t. bit_xor t (mask / 2 ^ 8)) {x = b + c * 2 ^ 8 + d * 2 ^ 16}
        {y = (c + d * 2 ^ 8) * 2 ^ 8 + b} (omega arith)
      ∙ xor-split (c + d * 2 ^ 8) b (mask / 2 ^ 8) hb in
    let z_is : bit_xor (c + d * 2 ^ 8) (mask / 2 ^ 8 / 2 ^ 8)
        ≡ bit_xor d (m 3) * 2 ^ 8 + bit_xor c (m 2) =
      ap₂ bit_xor {x = c + d * 2 ^ 8} {y = d * 2 ^ 8 + c} {u = mask / 2 ^ 8 / 2 ^ 8}
        {v = mask / 2 ^ 16} (omega arith) (omega arith)
      ∙ xor-split d c (mask / 2 ^ 16) hc
      ∙ ap (λ t. bit_xor d t * 2 ^ 8 + bit_xor c (m 2)) {x = mask / 2 ^ 16 / 2 ^ 8} {y = m 3}
          (omega arith) in
    let a_lt = bit_xor-lt 8 a (mask % 2 ^ 8) ha (omega arith) in
    let b_lt = bit_xor-lt 8 b (m 1) hb (omega arith) in
    let c_lt = bit_xor-lt 8 c (m 2) hc (omega arith) in
    let d_lt = bit_xor-lt 8 d (m 3) hd (omega arith) in
    ap₂ ◌∷◌ (omega arith) (
      ap₂ ◌∷◌ (byte b 1 (turn mask) (omega arith) (omega arith)) (
        ap₂ ◌∷◌ (byte c 2 (turn (turn mask)) (omega arith) (omega arith))
          (ap₂ ◌∷◌ (byte d 3 (turn (turn (turn mask))) (omega arith) (omega arith)) refl)))
  where
    byte :
        {t : ℕ} (v i w : ℕ)
        → t ≡ bit_xor v (mask / 2 ^ (8 * i) % 2 ^ 8)
        → mask / 2 ^ (8 * i) % 2 ^ 8 ≡ w % 2 ^ 8
        → t ≡ bit_xor v (w % 2 ^ 8)
    byte v i w e same = e ∙ ap (bit_xor v) same

pub word_loop-masked :
    (mask left : ℕ) (buf : List ℕ)
    → IsU32 mask
    → 4 * left ≤ length buf
    → All IsByte buf
    → word_loop mask left buf ≡ masked mask (take (4 * left) buf) ++ drop (4 * left) buf
unfolding word_loop
word_loop-masked mask zero buf h fits bytes = unfold masked in refl
word_loop-masked mask (suc left) [] h fits bytes = absurd (omega arith)
word_loop-masked mask (suc left) (a ∷ []) h fits bytes = absurd (omega arith)
word_loop-masked mask (suc left) (a ∷ b ∷ []) h fits bytes = absurd (omega arith)
word_loop-masked mask (suc left) (a ∷ b ∷ c ∷ []) h fits bytes = absurd (omega arith)
word_loop-masked mask (suc left) (a ∷ b ∷ c ∷ d ∷ buf) h fits bytes =
    let rest = word_loop-masked mask left buf h (omega arith) bytes.1.1.1.1 in
    let four : 4 * suc left ≡ suc (suc (suc (suc (4 * left)))) = omega arith in
    word-masked mask a b c d (word_loop mask left buf) h
      (bytes.0, (bytes.1.0, (bytes.1.1.0, (bytes.1.1.1.0, tt))))
    ∙ ap (λ l. masked mask (a ∷ b ∷ c ∷ d ∷ []) ++ l) rest
    ∙ sym (
        append_assoc (masked mask (a ∷ b ∷ c ∷ d ∷ [])) (masked mask (take (4 * left) buf))
          (drop (4 * left) buf))
    ∙ ap (λ l. l ++ drop (4 * left) buf)
        (ap (λ m. masked mask (a ∷ b ∷ c ∷ d ∷ []) ++ masked m (take (4 * left) buf))
            (sym (turns_four mask h))
          ∙ sym (masked-append mask (a ∷ b ∷ c ∷ d ∷ []) (take (4 * left) buf)))
    ∙ ap (λ k. masked mask (take k (a ∷ b ∷ c ∷ d ∷ buf)) ++ drop k (a ∷ b ∷ c ∷ d ∷ buf))
        (sym four)
