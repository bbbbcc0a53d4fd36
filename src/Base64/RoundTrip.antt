-- ===== src/Base64/RoundTrip.antt =====
-- `decode_base64` after `encode_base64`.
use c_web_socket_pico_w_test.Base.{
  ℕ, ◌+◌, ◌*◌, ◌/◌, ◌%◌, ◌^◌, ◌<◌, ◌≡◌, ◌≢◌, refl, sym, ◌∙◌, ap, ap₂, Bool, List, [], ◌∷◌, ◌++◌,
  arith, append-nil, append_assoc, bit_and, bit_or, u32, ◌<<◌, ◌>>◌, All, IsByte,
}
use c_web_socket_pico_w_test.Base.Bits.{zero-bit_or}
use c_web_socket_pico_w_test.Base.Fields.{bit_and_mask}
use c_web_socket_pico_w_test.Base64.{
  Decoder, bits_to_base64, encode_base64, decode_base64, flush, step, steps,
}
use c_web_socket_pico_w_test.Base64.Alphabet.{lt_of_ne_slash}
use c_web_socket_pico_w_test.Base64.Encode.{second_lem, third_lem}
use c_web_socket_pico_w_test.Base64.Decode.{
  stores_from, put, stored, push, step-within, step-fourth, step-padding, flush-none, flush-two,
  flush-three,
}

abbrev pub push2 : ℕ → ℕ → ℕ → ℕ
push2 bytes v w = push (push bytes v) w

abbrev pub push3 : ℕ → ℕ → ℕ → ℕ → ℕ
push3 bytes v w x = push (push2 bytes v w) x

module _ (d : Decoder) (fresh : d.sub_i ≡ 0) {v w : ℕ} (small : v < 63) (small' : w < 63) where
  pub steps-two :
      (rest : List ℕ)
      → steps d (bits_to_base64 v ∷ bits_to_base64 w ∷ rest)
        ≡ steps (record d { bytes = push2 d.bytes v w; sub_i = 2 }) rest
  unfolding steps
  steps-two rest =
      ap (λ e. steps (step e (bits_to_base64 w)) rest) (step-within d v small (omega arith))
      ∙ ap (λ e. steps e rest)
          (step-within (record d { bytes = push d.bytes v; sub_i = d.sub_i + 1 }) w small'
            (omega arith))
      ∙ ap (λ n. steps (record d { bytes = push2 d.bytes v w; sub_i = n }) rest) (omega arith)

  pub steps-three :
      {x : ℕ} (small'' : x < 63) (rest : List ℕ)
      → steps d (bits_to_base64 v ∷ bits_to_base64 w ∷ bits_to_base64 x ∷ rest)
        ≡ steps (record d { bytes = push3 d.bytes v w x; sub_i = 3 }) rest
  unfolding steps
  steps-three {x} small'' rest =
      steps-two (bits_to_base64 x ∷ rest)
      ∙ ap (λ e. steps e rest)
          (step-within (record d { bytes = push2 d.bytes v w; sub_i = 2 }) x small'' (omega arith))

  pub steps-four :
      {x y : ℕ} (small'' : x < 63) (small''' : y < 63) (rest : List ℕ)
      → steps d (bits_to_base64 v ∷ bits_to_base64 w ∷ bits_to_base64 x ∷ bits_to_base64 y ∷ rest)
        ≡ (let b = push (push3 d.bytes v w x) y in
            steps
              (stored
                (record d { bytes = b; sub_i = 0 })
                (b / 2 ^ 16 % 2 ^ 8 ∷ b / 2 ^ 8 % 2 ^ 8 ∷ b % 2 ^ 8 ∷ []))
              rest)
  unfolding steps
  steps-four {x} {y} small'' small''' rest =
      steps-three small'' (bits_to_base64 y ∷ rest)
      ∙ ap (λ e. steps e rest)
          (step-fourth (record d { bytes = push3 d.bytes v w x; sub_i = 3 }) y small''' refl)

-- The last two bytes change places if they stand in a group without a third.
abbrev pub swap_pair : List ℕ → List ℕ
swap_pair [] = []
swap_pair (a ∷ []) = a ∷ []
swap_pair (a ∷ b ∷ []) = b ∷ a ∷ []
swap_pair (a ∷ b ∷ c ∷ input) = a ∷ b ∷ c ∷ swap_pair input

abbrev pub NoSlash : List ℕ → Type 0
NoSlash = All (λ c. c ≢ b'/')

-- The index of the last of those stores.
abbrev pub index_after : ℕ → List ℕ → ℕ
index_after i [] = i
index_after i (value ∷ values) = index_after (u32 (i + 1)) values

-- `d'` has stored `values` since `d`, and is between two groups.
pub record HasStored (d : Decoder) (values : List ℕ) (d' : Decoder) : Type 0 where
  pub between : d'.sub_i ≡ 0
  pub all_writes : d'.writes ≡ d.writes ++ stores_from d.byte_index values
  pub last_index : d'.byte_index ≡ index_after d.byte_index values

steps-padding : (d : Decoder) (rest : List ℕ) → steps d (b'=' ∷ rest) ≡ steps (flush d) rest
unfolding steps
steps-padding d rest = ap (λ e. steps e rest) (step-padding d)

tail-two :
    (d : Decoder)
    → d.sub_i ≡ 2
    → steps d (b'=' ∷ b'=' ∷ []) ≡ record (put d (d.bytes / 2 ^ 4 % 2 ^ 8)) { sub_i = 0 }
unfolding steps
tail-two d h =
    steps-padding d (b'=' ∷ [])
    ∙ ap (λ e. steps e (b'=' ∷ [])) (flush-two d h)
    ∙ steps-padding (record (put d (d.bytes / 2 ^ 4 % 2 ^ 8)) { sub_i = 0 }) []
    ∙ flush-none (record (put d (d.bytes / 2 ^ 4 % 2 ^ 8)) { sub_i = 0 }) refl

tail-three :
    (d : Decoder)
    → d.sub_i ≡ 3
    → steps d (b'=' ∷ [])
      ≡ record (put (put d (d.bytes / 2 ^ 2 % 2 ^ 8)) (d.bytes / 2 ^ 10 % 2 ^ 8)) {
        bytes = d.bytes / 2 ^ 6;
        sub_i = 0;
      }
unfolding steps
tail-three d h = steps-padding d [] ∙ flush-three d h

-- Decoding what was encoded stores the bytes in order.
steps-encode_base64 :
    (input : List ℕ) (d : Decoder)
    → All IsByte input
    → NoSlash (encode_base64 input)
    → d.sub_i ≡ 0
    → HasStored d (swap_pair input) (steps d (encode_base64 input))
unfolding encode_base64
steps-encode_base64 [] d h ns fresh =
    unfold steps in
    record { between = fresh; all_writes = sym (append-nil d.writes); last_index = refl }
steps-encode_base64 (a ∷ []) d h ns fresh =
    let v : ℕ = a >> 2 in
    let w : ℕ = bit_and (a << 4) 0x3f in
    let w_is : w ≡ a * 16 % 64 = bit_and_mask 6 (a << 4) in
    let e : Decoder = record d { bytes = push2 d.bytes v w; sub_i = 2 } in
    let x : e.bytes / 2 ^ 4 % 2 ^ 8 ≡ a = omega arith in
    rw
      (steps-two d fresh (lt_of_ne_slash v (omega arith) ns.0)
          (lt_of_ne_slash w (omega arith) ns.1.0) (b'=' ∷ b'=' ∷ [])
        ∙ tail-two e refl)
      (record {
        between = refl;
        all_writes = ap (λ t. d.writes ++ (u32 (d.byte_index + 1), t) ∷ []) x;
        last_index = refl;
      })
steps-encode_base64 (a ∷ b ∷ []) d h ns fresh =
    let v : ℕ = a >> 2 in
    let w : ℕ = bit_and (bit_or (a << 4) (b >> 4)) 0x3f in
    let x : ℕ = bit_and (b << 2) 0x3f in
    let w_is : w ≡ (a * 16 + b / 16) % 64 = second_lem a b h.1.0 in
    let x_is : x ≡ b * 4 % 64 = bit_and_mask 6 (b << 2) in
    let e : Decoder = record d { bytes = push3 d.bytes v w x; sub_i = 3 } in
    let first : e.bytes / 2 ^ 2 % 2 ^ 8 ≡ b = omega arith in
    let second : e.bytes / 2 ^ 10 % 2 ^ 8 ≡ a = omega arith in
    rw
      (steps-three d fresh (lt_of_ne_slash v (omega arith) ns.0)
          (lt_of_ne_slash w (omega arith) ns.1.0) (lt_of_ne_slash x (omega arith) ns.1.1.0)
          (b'=' ∷ [])
        ∙ tail-three e refl)
      (record {
        between = refl;
        all_writes =
            append_assoc d.writes _ _
            ∙ ap₂
                (λ s t.
                  d.writes
                  ++ (u32 (d.byte_index + 1), s) ∷ (u32 (u32 (d.byte_index + 1) + 1), t) ∷ [])
                first second;
        last_index = refl;
      })
steps-encode_base64 (a ∷ b ∷ c ∷ input) d h ns fresh =
    let v : ℕ = a >> 2 in
    let w : ℕ = bit_and (bit_or (a << 4) (b >> 4)) 0x3f in
    let x : ℕ = bit_and (bit_or (b << 2) (c >> 6)) 0x3f in
    let y : ℕ = bit_and c 0x3f in
    let w_is : w ≡ (a * 16 + b / 16) % 64 = second_lem a b h.1.0 in
    let x_is : x ≡ (b * 4 + c / 64) % 64 = third_lem b c h.1.1.0 in
    let y_is : y ≡ c % 64 = bit_and_mask 6 c in
    let n : ℕ = push (push3 d.bytes v w x) y in
    let first : n / 2 ^ 16 % 2 ^ 8 ≡ a = omega arith in
    let second : n / 2 ^ 8 % 2 ^ 8 ≡ b = omega arith in
    let third : n % 2 ^ 8 ≡ c = omega arith in
    let e : Decoder = stored (record d { bytes = n; sub_i = 0 }) (a ∷ b ∷ c ∷ []) in
    let rest = steps-encode_base64 input e h.1.1.1 ns.1.1.1.1 refl in
    rw
      (steps-four d fresh (lt_of_ne_slash v (omega arith) ns.0)
          (lt_of_ne_slash w (omega arith) ns.1.0) (lt_of_ne_slash x (omega arith) ns.1.1.0)
          (lt_of_ne_slash y (omega arith) ns.1.1.1.0) (encode_base64 input)
        ∙ ap (λ l. steps (stored (record d { bytes = n; sub_i = 0 }) l) (encode_base64 input))
            (ap₂ ◌∷◌ first (ap₂ ◌∷◌ second (ap (λ t. t ∷ []) third))))
      (record {
        between = rest.between;
        all_writes = rest.all_writes ∙ simp append_assoc;
        last_index = rest.last_index;
      })

-- Decoding the Base64 text of a list of bytes stores the bytes one after the other behind the
-- index that `byte_index` held by chance, and returns the index of the last, which is not the number of
-- bytes; it is ready for a new text then, whatever `end` says. Two conditions and one exception: the text has no '/', and two
-- bytes that stand in the last group without a third come out in the wrong order.
pub decode_base64-encode_base64 :
    (garbage : ℕ) (end : Bool) (input : List ℕ)
    → All IsByte input
    → NoSlash (encode_base64 input)
    → let r = decode_base64 garbage 0 (encode_base64 input) end in
      (r.stores ≡ stores_from garbage (swap_pair input))
      × (r.returned ≡ index_after garbage (swap_pair input))
      × (r.partial < 2 ^ 30)
unfolding decode_base64
decode_base64-encode_base64 garbage end input h ns =
    let start : Decoder = record { bytes = 0; sub_i = 0; byte_index = garbage; writes = [] } in
    let read = steps start (encode_base64 input) in
    let done = steps-encode_base64 input start h ns refl in
    let ended : flush read ≡ read = flush-none read done.between in
    ground (
      arith,
      ended,
      done.between,
      done.all_writes,
      done.last_index,
      zero-bit_or (bit_and read.bytes 0x3fffffff),
      bit_and_mask 30 read.bytes,
    )
