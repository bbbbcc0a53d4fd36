-- ===== src/Mask.antt =====
-- websocket_framinator.h, `websocket_apply_mask`: the mask of a frame is taken off (or put on) the
-- payload in place, some bytes alone, most in words of four.
pub mod Rotation
pub mod Bytewise
pub mod Loops
pub mod Tail
pub mod Payload
mod Examples
use c_web_socket_pico_w_test.Base.{
  ℕ, zero, suc, ◌+◌, ◌-◌, ◌*◌, ◌/◌, ◌%◌, ◌^◌, List, [], ◌∷◌, ◌++◌, ◌==◌, if◌then◌else◌, min, take,
  drop, set, get_or, bit_or, bit_xor, ◌<<◌, ◌>>◌, u8, u32,
}

-- `read_mask << (32 - mod * 8) | read_mask >> (mod * 8)`. At `mod` 4 the right shift is by 32, which
-- C leaves undefined; the Cortex-M0+ shifts all bits out, and so does this.
unfoldable pub rotate : ℕ → ℕ → ℕ
rotate mask part = bit_or (u32 (mask << (32 - part * 8))) (mask >> (part * 8))

-- `for (int i = 0; i < mod; i++) buf[i] = buf[i] ^ (read_mask >> (i * 8))`, with the rounds left.
unfoldable pub head_loop : ℕ → ℕ → ℕ → List ℕ → List ℕ
head_loop mask i zero buf = buf
head_loop mask i (suc left) [] = []
head_loop mask i (suc left) (b ∷ buf) =
    u8 (bit_xor b (mask >> (i * 8))) ∷ head_loop mask (i + 1) left buf

-- A `uint32_t` in memory.
unfoldable pub load32 : ℕ → ℕ → ℕ → ℕ → ℕ
load32 a b c d = a + b * 2 ^ 8 + c * 2 ^ 16 + d * 2 ^ 24

unfoldable pub store32 : ℕ → List ℕ → List ℕ
store32 w buf = w % 2 ^ 8 ∷ (w >> 8) % 2 ^ 8 ∷ (w >> 16) % 2 ^ 8 ∷ (w >> 24) % 2 ^ 8 ∷ buf

-- The loop over the `size / 4` aligned words.
unfoldable pub word_loop : ℕ → ℕ → List ℕ → List ℕ
unfolding load32 store32
word_loop mask (suc left) (a ∷ b ∷ c ∷ d ∷ buf) =
    store32 (bit_xor (load32 a b c d) mask) (word_loop mask left buf)
word_loop mask _ buf = buf

-- `for (int i = 1; i <= mod; i++)`, from the last byte back, with the rounds left.
unfoldable pub tail_loop : ℕ → ℕ → ℕ → ℕ → ℕ → List ℕ → List ℕ
tail_loop mask part size zero i buf = buf
tail_loop mask part size (suc left) i buf =
    tail_loop mask part size left (i + 1)
      (set buf (size - i) (u8 (bit_xor (get_or buf (size - i) 0) (mask >> ((part - i) * 8)))))

-- `websocket_apply_mask`: `addr` is the address `buf`; the result is the new `read_mask` and the
-- buffer.
unfoldable pub apply_mask : ℕ → ℕ → List ℕ → ℕ → ℕ × List ℕ
unfolding rotate head_loop word_loop tail_loop
apply_mask addr mask buf size =
    let part = min (4 - addr % 4) size in
    let head = head_loop mask 0 part buf in
    let mask1 = if part == 0 then mask else rotate mask part in
    let rest = size - part in
    let words = word_loop mask1 (rest / 4) (drop part head) in
    let left = rest % 4 in
    let tail = tail_loop mask1 left rest left 1 words in
    let mask2 = if left == 0 then mask1 else rotate mask1 left in (mask2, take part head ++ tail)
