-- ===== src/Frame/Packed.antt =====
-- The fields of a header, as the code takes them out of its two bytes.
use c_web_socket_pico_w_test.Base.{
  ℕ, ◌+◌, ◌*◌, ◌^◌, ◌<◌, ◌≡◌, ap, ◌∙◌, arith, Bool, true, false, not, ◌&&◌, ◌==◌, if◌then◌else◌,
  bit_and, ◌>>◌,
}
use c_web_socket_pico_w_test.Base.Fields.{bit_and_mask, bit_and_flag}
use c_web_socket_pico_w_test.Frame.{has_bits, opcode_of, last_op_of}
use c_web_socket_pico_w_test.Frame.Rfc.{fin_bit, length7}

-- The two bytes as a word: the opcode, the FIN bit, the length and the MASK bit.
abbrev pub packed : ℕ → ℕ → ℕ → ℕ → ℕ
packed op fin len mask = op + fin * 2 ^ 7 + (len + mask * 2 ^ 7) * 2 ^ 8

module _ (op fin len mask : ℕ) (op_small : op < 16) (fin_small : fin < 2) (len_small : len < 128)
    (mask_small : mask < 2) where
  pub packed-length7 : bit_and (packed op fin len mask >> 8) 0x007f ≡ len
  packed-length7 = omega (arith, bit_and_mask 7 (packed op fin len mask >> 8))

  packed-opcode : bit_and (packed op fin len mask) 0x000f ≡ op
  packed-opcode = omega (arith, bit_and_mask 4 (packed op fin len mask))

  packed-fin : has_bits (packed op fin len mask) 0x0080 ≡ (fin == 1)
  packed-fin = ap (λ t. not (t == 0)) (bit_and_flag 7 (packed op fin len mask)) ∙ ground arith

  pub packed-mask : has_bits (packed op fin len mask) 0x8000 ≡ (mask == 1)
  packed-mask = ap (λ t. not (t == 0)) (bit_and_flag 15 (packed op fin len mask)) ∙ ground arith

pub length7-lt : (n : ℕ) → length7 n < 128
length7-lt n = ground arith

pub opcode_of-packed :
    (op fin len mask last_op : ℕ)
    → op < 16
    → fin < 2
    → len < 128
    → mask < 2
    → opcode_of (packed op fin len mask) last_op ≡ (if op == 0 then last_op else op)
unfolding opcode_of
opcode_of-packed op fin len mask last_op ho hf hl hm =
    ap (λ o. if o == 0 && not (last_op == 0) then last_op else o)
      (packed-opcode op fin len mask ho hf hl hm)
    ∙ ground arith

pub last_op_of-packed :
    (op len mask last_op : ℕ) (b : Bool)
    → op < 16
    → len < 128
    → mask < 2
    → last_op_of (packed op (fin_bit b) len mask) (if op == 0 then last_op else op) last_op
      ≡ (if b then 0 else if op == 0 then last_op else op)
unfolding last_op_of
last_op_of-packed op len mask last_op true ho hl hm =
    ap
      (λ t.
        if t
        then 0
        else if not ((if op == 0 then last_op else op) == 0)
        then (if op == 0 then last_op else op)
        else last_op)
      (packed-fin op 1 len mask ho (omega arith) hl hm)
last_op_of-packed op len mask last_op false ho hl hm =
    ap
      (λ t.
        if t
        then 0
        else if not ((if op == 0 then last_op else op) == 0)
        then (if op == 0 then last_op else op)
        else last_op)
      (packed-fin op 0 len mask ho (omega arith) hl hm)
    ∙ ground arith
