-- ===== src/Base64.antt =====
-- bufferless_str.c, the Base64 half: `base64bits`, `bitsToBase64`, `decode_base64` and
-- `encode_base64`. `char` is unsigned on the target, so the -1 of both tables is 255.
pub mod Alphabet
pub mod Encode
pub mod Decode
pub mod RoundTrip
pub mod Chunks
mod Examples
use c_web_socket_pico_w_test.Base.{
  ℕ, zero, suc, ◌+◌, ◌-◌, ◌*◌, ◌/◌, ◌%◌, ◌^◌, Bool, true, false, ◌&&◌, ◌||◌, List, [], ◌∷◌, ◌++◌,
  map, ◌==◌, leb, ltb, if◌then◌else◌, bit_and, bit_or, ◌<<◌, ◌>>◌, u8, u32,
}

-- `char base64bits(char base64)`; the second test for '+' is the code's own.
unfoldable pub base64bits : ℕ → ℕ
base64bits c =
    if leb b'A' c && leb c b'Z'
    then c - b'A'
    else if leb b'a' c && leb c b'z'
    then c - (b'a' - (b'Z' - b'A' + 1))
    else if leb b'0' c && leb c b'9'
    then c + (b'Z' - b'A' + 1) + (b'z' - b'a' + 1) - b'0'
    else if c == b'+'
    then b'Z' - b'A' + 1 + (b'z' - b'a' + 1) + (b'9' - b'0' + 1)
    else if c == b'+'
    then b'Z' - b'A' + 1 + (b'z' - b'a' + 1) + (b'9' - b'0' + 1) + 1
    else 255

-- `char bitsToBase64(char bits)`.
unfoldable pub bits_to_base64 : ℕ → ℕ
bits_to_base64 bits =
    if ltb bits 26
    then b'A' + bits
    else if ltb bits 52
    then b'a' + bits - 26
    else if ltb bits 62
    then b'0' + bits - 52
    else if bits == 62
    then b'+'
    else if bits == 63
    then b'/'
    else 255

-- `encode_base64`: the list is `input_buf` from `i` on, the result what is stored from `j` on.
unfoldable pub encode_base64 : List ℕ → List ℕ
encode_base64 [] = []
encode_base64 (a ∷ []) =
    bits_to_base64 (a >> 2) ∷ bits_to_base64 (bit_and (a << 4) 0x3f) ∷ b'=' ∷ b'=' ∷ []
encode_base64 (a ∷ b ∷ []) =
    bits_to_base64 (a >> 2)
    ∷ bits_to_base64 (bit_and (bit_or (a << 4) (b >> 4)) 0x3f)
    ∷ bits_to_base64 (bit_and (b << 2) 0x3f)
    ∷ b'='
    ∷ []
encode_base64 (a ∷ b ∷ c ∷ input) =
    bits_to_base64 (a >> 2)
    ∷ bits_to_base64 (bit_and (bit_or (a << 4) (b >> 4)) 0x3f)
    ∷ bits_to_base64 (bit_and (bit_or (b << 2) (c >> 6)) 0x3f)
    ∷ bits_to_base64 (bit_and c 0x3f)
    ∷ encode_base64 input

-- The locals of `decode_base64`. `writes` holds the stores to `output_buf`, each with its index;
-- `byte_index` is an `int` that the code does not initialise.
pub record Decoder : Type 0 where
  pub bytes : ℕ
  pub sub_i : ℕ
  pub byte_index : ℕ
  pub writes : List (ℕ × ℕ)

-- `output_buf[++byte_index] = value & 0xFF`.
unfoldable pub emit : ℕ → Decoder → Decoder
emit value d =
    let i = u32 (d.byte_index + 1) in
    record d { byte_index = i; writes = d.writes ++ (i, bit_and value 0xff) ∷ [] }

-- The `switch (sub_i)` on the bits that are left over, and `sub_i = 0`.
unfoldable pub flush : Decoder → Decoder
unfolding emit
flush d =
    let three = emit (d.bytes >> 2) d in
    let two = if d.sub_i == 3 then record three { bytes = d.bytes >> 6 } else d in
    let done = if d.sub_i == 3 || d.sub_i == 2 then emit (two.bytes >> 4) two else d in
    record done { sub_i = 0 }

-- The body of the loop at a character.
unfoldable pub step : Decoder → ℕ → Decoder
unfolding emit flush
step d c =
    if c == b'='
    then flush d
    else let bytes = bit_or (u32 (d.bytes << 6)) (base64bits c) in
      let sub_i = bit_and (d.sub_i + 1) 0x3 in
      let next = record d { bytes = bytes; sub_i = sub_i } in
      if sub_i == 0 then emit (bytes >> 0) (emit (bytes >> 8) (emit (bytes >> 16) next)) else next

-- The loop over the characters; the round at `i == base64_len` follows in `decode_base64`.
unfoldable pub steps : Decoder → List ℕ → Decoder
steps d [] = d
steps d (c ∷ buf) = steps (step d c) buf

-- `ctx->partial`, the stores and the returned `byte_index`.
pub record Decoded : Type 0 where
  pub partial : ℕ
  pub stores : List (ℕ × ℕ)
  pub returned : ℕ

-- `decode_base64`; `garbage` is the value that the uninitialised `byte_index` happens to have.
unfoldable pub decode_base64 : ℕ → ℕ → List ℕ → Bool → Decoded
unfolding flush steps
decode_base64 garbage partial base64_buf end =
    let start : Decoder = record {
      bytes = partial;
      sub_i = partial >> 30;
      byte_index = garbage;
      writes = [];
    } in
    let read = steps start base64_buf in
    let last = if end then flush read else read in
    record {
      partial = bit_or (u32 (last.sub_i << 30)) (bit_and last.bytes 0x3fffffff);
      stores = last.writes;
      returned = last.byte_index;
    }
