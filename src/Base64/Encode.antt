-- ===== src/Base64/Encode.antt =====
-- `encode_base64` is the encoding of RFC 4648, and fills 4 characters for each 3 bytes begun.
use c_web_socket_pico_w_test.Base.{
  ℕ, ◌+◌, ◌*◌, ◌/◌, ◌%◌, ◌^◌, ◌<◌, ◌≡◌, refl, ◌∙◌, ap, ap₂, List, [], ◌∷◌, arith, length, All,
  IsByte, get_or, bit_or, bit_and, ◌<<◌, ◌>>◌,
}
use c_web_socket_pico_w_test.Base.Fields.{bit_or_low, bit_and_mask}
use c_web_socket_pico_w_test.Base64.{bits_to_base64, encode_base64}
use c_web_socket_pico_w_test.Base64.Alphabet.{alphabet, bits_to_base64-alphabet}

-- The `k`-th group of 6 bits of a number, from below, as a character.
abbrev pub sextet : ℕ → ℕ → ℕ
sextet n k = get_or alphabet (n / 64 ^ k % 64) 255

-- RFC 4648, section 4: 24 bits as 4 characters; one or two bytes at the end get zero bits and '='.
unfoldable pub base64 : List ℕ → List ℕ
base64 [] = []
base64 (a ∷ []) = let n = a * 2 ^ 16 in sextet n 3 ∷ sextet n 2 ∷ b'=' ∷ b'=' ∷ []
base64 (a ∷ b ∷ []) =
    let n = a * 2 ^ 16 + b * 2 ^ 8 in sextet n 3 ∷ sextet n 2 ∷ sextet n 1 ∷ b'=' ∷ []
base64 (a ∷ b ∷ c ∷ input) =
    let n = a * 2 ^ 16 + b * 2 ^ 8 + c in
    sextet n 3 ∷ sextet n 2 ∷ sextet n 1 ∷ sextet n 0 ∷ base64 input

-- The four values that the code looks up.
pub first_lem : (a : ℕ) → IsByte a → (a >> 2 < 64)
first_lem a h = omega arith

pub second_lem :
    (a b : ℕ) → IsByte b → bit_and (bit_or (a << 4) (b >> 4)) 0x3f ≡ (a * 16 + b / 16) % 64
second_lem a b h =
    ap (λ t. bit_and t 0x3f) (bit_or_low 4 a (b / 16) (omega arith))
    ∙ bit_and_mask 6 (a * 16 + b / 16)

pub third_lem :
    (b c : ℕ) → IsByte c → bit_and (bit_or (b << 2) (c >> 6)) 0x3f ≡ (b * 4 + c / 64) % 64
third_lem b c h =
    ap (λ t. bit_and t 0x3f) (bit_or_low 2 b (c / 64) (omega arith))
    ∙ bit_and_mask 6 (b * 4 + c / 64)

-- A looked up value is the character of the sextet with that value.
at_sextet : (v n k : ℕ) → v ≡ n / 64 ^ k % 64 → bits_to_base64 v ≡ sextet n k
at_sextet v n k e = ap bits_to_base64 e ∙ bits_to_base64-alphabet (n / 64 ^ k % 64) (omega arith)

-- For every list of bytes, `encode_base64` stores the Base64 text of RFC 4648, padding included.
pub encode_base64-eq-base64 :
    (input : List ℕ) → All IsByte input → encode_base64 input ≡ base64 input
unfolding encode_base64 base64
encode_base64-eq-base64 [] h = refl
encode_base64-eq-base64 (a ∷ []) h = ap₂ ◌∷◌ (at_sextet (a >> 2) (a * 2 ^ 16) 3 (omega arith)) (
    ap (λ t. t ∷ b'=' ∷ b'=' ∷ [])
      (at_sextet (bit_and (a << 4) 0x3f) (a * 2 ^ 16) 2 (omega (arith, bit_and_mask 6 (a << 4)))))
encode_base64-eq-base64 (a ∷ b ∷ []) h =
    let n : ℕ = a * 2 ^ 16 + b * 2 ^ 8 in
    ap₂ ◌∷◌ (at_sextet (a >> 2) n 3 (omega arith)) (
      ap₂ ◌∷◌ (at_sextet _ n 2 (omega (arith, second_lem a b h.1.0)))
        (ap (λ t. t ∷ b'=' ∷ []) (at_sextet _ n 1 (omega (arith, bit_and_mask 6 (b << 2))))))
encode_base64-eq-base64 (a ∷ b ∷ c ∷ input) h =
    let n : ℕ = a * 2 ^ 16 + b * 2 ^ 8 + c in
    ap₂ ◌∷◌ (at_sextet (a >> 2) n 3 (omega arith)) (
      ap₂ ◌∷◌ (at_sextet _ n 2 (omega (arith, second_lem a b h.1.0))) (
        ap₂ ◌∷◌ (at_sextet _ n 1 (omega (arith, third_lem b c h.1.1.0))) (
          ap₂ ◌∷◌ (at_sextet _ n 0 (omega (arith, bit_and_mask 6 c)))
            (encode_base64-eq-base64 input h.1.1.1))))

-- The characters stored: 4 for each group of 3 bytes, the last one counted if it is begun.
pub length-encode_base64 :
    (input : List ℕ) → length (encode_base64 input) ≡ 4 * ((length input + 2) / 3)
unfolding encode_base64
length-encode_base64 [] = refl
length-encode_base64 (a ∷ []) = refl
length-encode_base64 (a ∷ b ∷ []) = refl
length-encode_base64 (a ∷ b ∷ c ∷ input) = omega (arith, length-encode_base64 input)
