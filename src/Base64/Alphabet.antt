-- ===== src/Base64/Alphabet.antt =====
-- The two tables of characters, tried at every value.
use native.Mathlib.Decide.{ℕ_discrete}
use c_web_socket_pico_w_test.Base.{
  ap, ◌∙◌, ℕ, ◌<◌, ◌≡◌, ◌≢◌, refl, true, not, List, ◌==◌, ==_iff, arith, get_or, codes,
}
use c_web_socket_pico_w_test.Base.Table.{passes, passes-at}
use c_web_socket_pico_w_test.Base64.{base64bits, bits_to_base64}

-- RFC 4648, table 1.
abbrev pub alphabet : List ℕ
alphabet = codes "ABCDEFGHIJKLMNOPQRSTUVWXYZabcdefghijklmnopqrstuvwxyz0123456789+/"

alphabet_table : passes 64 (λ v. bits_to_base64 v == get_or alphabet v 255) ≡ true
unfolding passes bits_to_base64
alphabet_table = refl

pub bits_to_base64-alphabet : (v : ℕ) → v < 64 → bits_to_base64 v ≡ get_or alphabet v 255
bits_to_base64-alphabet v h = (==_iff _ _).0 (passes-at 64 _ v alphabet_table h)

inverse_table : passes 63 (λ v. base64bits (bits_to_base64 v) == v) ≡ true
unfolding passes bits_to_base64 base64bits
inverse_table = refl

-- `base64bits` undoes `bitsToBase64`, but for the value 63.
pub base64bits-bits_to_base64 : (v : ℕ) → v < 63 → base64bits (bits_to_base64 v) ≡ v
base64bits-bits_to_base64 v h = (==_iff _ _).0 (passes-at 63 _ v inverse_table h)

padding_table : passes 64 (λ v. not (bits_to_base64 v == b'=')) ≡ true
unfolding passes bits_to_base64
padding_table = refl

pub bits_to_base64-ne-padding : (v : ℕ) → v < 64 → bits_to_base64 v ≢ b'='
bits_to_base64-ne-padding v h e = cc (passes-at 64 _ v padding_table h, (==_iff _ _).1 e)

slash : bits_to_base64 63 ≡ b'/'
unfolding bits_to_base64
slash = refl

pub lt_of_ne_slash : (v : ℕ) → v < 64 → bits_to_base64 v ≢ b'/' → v < 63
lt_of_ne_slash v h ne = elim (ℕ_discrete v 63) [
  | yes e ↦ absurd (ne (ap bits_to_base64 e ∙ slash))
  | no below ↦ omega arith
]
