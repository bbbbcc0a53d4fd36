-- ===== src/Base64/Decode.antt =====
-- One character, and one group of characters, through `decode_base64`.
use c_web_socket_pico_w_test.Base.{
  ℕ, ◌+◌, ◌*◌, ◌/◌, ◌%◌, ◌^◌, ◌<◌, ◌≡◌, ◌≢◌, refl, sym, ◌∙◌, ap, List, [], ◌∷◌, ◌++◌, arith, bit_or,
  u32, ◌<<◌, ◌>>◌, append-nil, append_assoc,
}
use c_web_socket_pico_w_test.Base.Fields.{bit_or_low, bit_and_mask}
use c_web_socket_pico_w_test.Base64.{Decoder, base64bits, bits_to_base64, emit, flush, step}
use c_web_socket_pico_w_test.Base64.Alphabet.{base64bits-bits_to_base64, bits_to_base64-ne-padding}

-- The stores of `values` behind index `i`, one after the other.
abbrev pub stores_from : ℕ → List ℕ → List (ℕ × ℕ)
stores_from i [] = []
stores_from i (value ∷ values) = (u32 (i + 1), value) ∷ stores_from (u32 (i + 1)) values

-- One store.
abbrev pub put : Decoder → ℕ → Decoder
put d value = record d {
  byte_index = u32 (d.byte_index + 1);
  writes = d.writes ++ (u32 (d.byte_index + 1), value) ∷ [];
}

-- The decoder behind the stores of `values`.
abbrev pub stored : Decoder → List ℕ → Decoder
stored d [] = d
stored d (value ∷ values) = stored (put d value) values

pub stored-writes :
    (d : Decoder) (values : List ℕ)
    → (stored d values).writes ≡ d.writes ++ stores_from d.byte_index values
stored-writes d [] = sym (append-nil d.writes)
stored-writes d (value ∷ values) =
    stored-writes (put d value) values
    ∙ append_assoc d.writes ((u32 (d.byte_index + 1), value) ∷ [])
        (stores_from (u32 (d.byte_index + 1)) values)

pub emit-eq : (value : ℕ) (d : Decoder) → emit value d ≡ stored d (value % 2 ^ 8 ∷ [])
unfolding emit
emit-eq value d = rw (bit_and_mask 8 value)

-- `bytes` with one more group of 6 bits.
abbrev pub push : ℕ → ℕ → ℕ
push bytes v = bytes % 2 ^ 26 * 64 + v

push-eq : (bytes v : ℕ) → v < 64 → bit_or (u32 (bytes << 6)) v ≡ push bytes v
push-eq bytes v h =
    ap (λ t. bit_or t v) {x = u32 (bytes << 6)} {y = bytes % 2 ^ 26 * 2 ^ 6} (omega arith)
    ∙ bit_or_low 6 (bytes % 2 ^ 26) v h

module _ (d : Decoder) (v : ℕ) (small : v < 63) where
  pushed : bit_or (u32 (d.bytes << 6)) (base64bits (bits_to_base64 v)) ≡ push d.bytes v
  pushed = rw (base64bits-bits_to_base64 v small) (push-eq d.bytes v (omega arith))

  -- A character within a group only joins `bytes`.
  pub step-within :
      d.sub_i < 3
      → step d (bits_to_base64 v) ≡ record d { bytes = push d.bytes v; sub_i = d.sub_i + 1 }
  unfolding step
  step-within h = ground (arith, pushed, bit_and_mask 2 (d.sub_i + 1), bits_to_base64-ne-padding v)

  -- The fourth character completes three bytes.
  pub step-fourth :
      d.sub_i ≡ 3
      → step d (bits_to_base64 v) ≡ (
          let b = push d.bytes v in
          stored
            (record d { bytes = b; sub_i = 0 })
            (b / 2 ^ 16 % 2 ^ 8 ∷ b / 2 ^ 8 % 2 ^ 8 ∷ b % 2 ^ 8 ∷ []))
  unfolding step
  step-fourth h =
      let b : ℕ = push d.bytes v in
      ground (
        arith,
        pushed,
        bit_and_mask 2 (d.sub_i + 1),
        bits_to_base64-ne-padding v,
        bit_and_mask 8 (b >> 16),
        bit_and_mask 8 (b >> 8),
        bit_and_mask 8 (b >> 0),
      )

-- Padding, where one, two or three characters of a group are there.
module _ (d : Decoder) where
  pub step-padding : step d b'=' ≡ flush d
  unfolding step
  step-padding = refl

  pub flush-none : d.sub_i ≡ 0 → flush d ≡ d
  unfolding flush
  flush-none h = ground arith

  pub flush-two : d.sub_i ≡ 2 → flush d ≡ record (put d (d.bytes / 2 ^ 4 % 2 ^ 8)) { sub_i = 0 }
  unfolding flush
  flush-two h = ground (arith, bit_and_mask 8 (d.bytes >> 4))

  pub flush-three :
      d.sub_i ≡ 3
      → flush d ≡ record (put (put d (d.bytes / 2 ^ 2 % 2 ^ 8)) (d.bytes / 2 ^ 10 % 2 ^ 8)) {
        bytes = d.bytes / 2 ^ 6;
        sub_i = 0;
      }
  unfolding flush
  flush-three h = ground (arith, bit_and_mask 8 (d.bytes >> 2), bit_and_mask 8 (d.bytes >> 6 >> 4))

  pub flush-other : d.sub_i ≢ 2 → d.sub_i ≢ 3 → flush d ≡ record d { sub_i = 0 }
  unfolding flush
  flush-other h k = ground arith
