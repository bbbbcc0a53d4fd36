-- ===== src/Base64/Examples.antt =====
-- Texts of RFC 4648, section 10, and the faults of `decode_base64`.
use c_web_socket_pico_w_test.Base.{
  ◌≡◌, ◌<◌, ◌^◌, refl, true, false, [], ◌∷◌, ◌++◌, arith, codes, length,
}
use c_web_socket_pico_w_test.Base64.{encode_base64, decode_base64, bits_to_base64}
use c_web_socket_pico_w_test.Base64.Encode.{base64, encode_base64-eq-base64, length-encode_base64}
use c_web_socket_pico_w_test.Base64.RoundTrip.{decode_base64-encode_base64}
use c_web_socket_pico_w_test.Base64.Chunks.{decode_base64-append}

encode_foob : encode_base64 (codes "foob") ≡ codes "Zm9vYg=="
unfolding encode_base64 bits_to_base64
encode_foob = refl

encode_base64-eq-base64_example : encode_base64 (codes "foobar") ≡ codes "Zm9vYmFy"
unfolding base64
encode_base64-eq-base64_example = encode_base64-eq-base64 (codes "foobar") (omega arith)

-- The SHA-1 hash of the handshake, 20 bytes, fills `baseBuf[28]` exactly.
length-encode_base64_example : length (encode_base64 (codes "01234567890123456789")) ≡ 28
length-encode_base64_example = length-encode_base64 (codes "01234567890123456789")

-- With `byte_index` at -1 by chance the stores begin at `output_buf[0]`, and the pair is reversed.
decode_base64-encode_base64_example :
    let r = decode_base64 0xffff_ffff 0 (encode_base64 (codes "fooba")) true in
    (r.stores ≡ (0, b'f') ∷ (1, b'o') ∷ (2, b'o') ∷ (3, b'a') ∷ (4, b'b') ∷ [])
    × (r.returned ≡ 4)
    × (r.partial < 2 ^ 30)
decode_base64-encode_base64_example =
    decode_base64-encode_base64 0xffff_ffff true (codes "fooba") (omega arith)
      (unfold encode_base64 bits_to_base64 in omega arith)

decode_base64-append_example :
    let first = decode_base64 7 0 (codes "Zm9v") false in
    let second = decode_base64 first.returned first.partial (codes "Yg==") true in
    let whole = decode_base64 7 0 (codes "Zm9vYg==") true in
    (whole.stores ≡ first.stores ++ second.stores) × (whole.returned ≡ second.returned)
decode_base64-append_example =
    decode_base64-append 7 0 (codes "Zm9v") (codes "Yg==") true (omega arith)
