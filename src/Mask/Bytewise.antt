-- ===== src/Mask/Bytewise.antt =====
-- The mask byte by byte: a byte meets the lowest byte of the mask, and the mask turns. RFC 6455,
-- section 5.3: octet `i` of the payload is combined with octet `i` modulo 4 of the key.
use native.Mathlib.Nat.{suc-add}
use c_web_socket_pico_w_test.Base.{
  ℕ, zero, suc, ◌+◌, ◌*◌, ◌/◌, ◌%◌, ◌^◌, ◌<◌, ◌≡◌, refl, ◌∙◌, ap, ap₂, arith, List, [], ◌∷◌, ◌++◌,
  length, get_or, bit_xor, IsU32, IsByte, All,
}
use c_web_socket_pico_w_test.Base.Bits.{bit_xor-undo}
use c_web_socket_pico_w_test.Base.Fields.{bit_xor-lt}
use c_web_socket_pico_w_test.Mask.Rotation.{turn, turns, turn-IsU32}

-- The payload without its mask, or with it.
unfoldable pub masked : ℕ → List ℕ → List ℕ
masked mask [] = []
masked mask (b ∷ buf) = bit_xor b (mask % 2 ^ 8) ∷ masked (turn mask) buf

pub masked-append :
    (mask : ℕ) (xs ys : List ℕ)
    → masked mask (xs ++ ys) ≡ masked mask xs ++ masked (turns (length xs) mask) ys
unfolding masked
masked-append mask [] ys = refl
masked-append mask (b ∷ xs) ys =
    ap (λ l. bit_xor b (mask % 2 ^ 8) ∷ l) (masked-append (turn mask) xs ys)

pub length-masked : (mask : ℕ) (xs : List ℕ) → length (masked mask xs) ≡ length xs
unfolding masked
length-masked mask [] = refl
length-masked mask (b ∷ xs) = ap suc (length-masked (turn mask) xs)

pub masked-IsByte : (mask : ℕ) (xs : List ℕ) → All IsByte xs → All IsByte (masked mask xs)
unfolding masked
masked-IsByte mask [] h = tt
masked-IsByte mask (b ∷ xs) h =
    (bit_xor-lt 8 b (mask % 2 ^ 8) h.0 (omega arith), masked-IsByte (turn mask) xs h.1)

-- Masking with one key twice gives the payload back.
pub masked_twice : (mask : ℕ) (xs : List ℕ) → masked mask (masked mask xs) ≡ xs
unfolding masked
masked_twice mask [] = refl
masked_twice mask (b ∷ xs) = ap₂ ◌∷◌ (bit_xor-undo b (mask % 2 ^ 8)) (masked_twice (turn mask) xs)

-- The octets of the key in the order of memory, which is that of the frame.
abbrev pub key_octet : ℕ → ℕ → ℕ
key_octet mask i = mask / 2 ^ (8 * (i % 4)) % 2 ^ 8

abbrev octet : ℕ → ℕ → ℕ
octet mask r = mask / 2 ^ (8 * r) % 2 ^ 8

octet-turn : (mask r : ℕ) → IsU32 mask → r < 4 → octet (turn mask) r ≡ octet mask ((r + 1) % 4)
octet-turn mask zero h few = omega arith
octet-turn mask (suc zero) h few = omega arith
octet-turn mask (suc (suc zero)) h few = omega arith
octet-turn mask (suc (suc (suc zero))) h few = omega arith
octet-turn mask (suc (suc (suc (suc r)))) h few = absurd (omega arith)

key_octet-turn : (mask i : ℕ) → IsU32 mask → key_octet (turn mask) i ≡ key_octet mask (i + 1)
key_octet-turn mask i h =
    octet-turn mask (i % 4) h (omega arith)
    ∙ ap (octet mask) {x = (i % 4 + 1) % 4} {y = (i + 1) % 4} (omega arith)

-- The formula of RFC 6455.
pub get_or-masked :
    (mask : ℕ) (xs : List ℕ) (i d : ℕ)
    → IsU32 mask
    → i < length xs
    → get_or (masked mask xs) i d ≡ bit_xor (get_or xs i d) (key_octet mask i)
unfolding masked
get_or-masked mask [] i d h lt = elim lt [ ]
get_or-masked mask (b ∷ xs) zero d h lt = ap (bit_xor b) (omega arith)
get_or-masked mask (b ∷ xs) (suc i) d h lt =
    get_or-masked (turn mask) xs i d (turn-IsU32 mask h) (omega arith)
    ∙ ap (bit_xor (get_or xs i d)) (key_octet-turn mask i h ∙ ap (key_octet mask) (omega arith))

pub turns-add : (n k mask : ℕ) → turns (n + k) mask ≡ turns k (turns n mask)
turns-add zero k mask = ap (λ j. turns j mask) {x = 0 + k} {y = k} (omega arith)
turns-add (suc n) k mask = ap (λ j. turns j mask) (suc-add n k) ∙ turns-add n k (turn mask)
