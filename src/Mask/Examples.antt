-- ===== src/Mask/Examples.antt =====
-- `websocket_apply_mask` on the masked "Hello" of RFC 6455, section 5.7, at an unaligned address.
use c_web_socket_pico_w_test.Base.{
  ℕ, ◌≡◌, refl, arith, List, [], ◌∷◌, get_or, bit_xor, ltb, if◌then◌else◌, All, IsByte,
}
use c_web_socket_pico_w_test.Mask.{apply_mask}
use c_web_socket_pico_w_test.Mask.Bytewise.{key_octet}
use c_web_socket_pico_w_test.Mask.Payload.{apply_mask-octet}

-- The octets 37 fa 21 3d, read as a little-endian word.
abbrev key : ℕ
key = 1025636919

abbrev hidden : List ℕ
hidden = 127 ∷ 159 ∷ 77 ∷ 81 ∷ 88 ∷ 127 ∷ 159 ∷ []

hidden-IsByte : All IsByte hidden
hidden-IsByte = (
  omega arith,
  (omega arith, (omega arith, (omega arith, (omega arith, (omega arith, (omega arith, tt)))))),
)

unmask_hello : (apply_mask 3 key hidden 5).1 ≡ 72 ∷ 101 ∷ 108 ∷ 108 ∷ 111 ∷ 127 ∷ 159 ∷ []
unfolding apply_mask
unmask_hello = refl

apply_mask-octet_example :
    get_or (apply_mask 3 key hidden 5).1 4 0
    ≡ (if ltb 4 5 then bit_xor (get_or hidden 4 0) (key_octet key 4) else get_or hidden 4 0)
apply_mask-octet_example =
    apply_mask-octet 3 key hidden 5 4 0 (omega arith) (omega arith) hidden-IsByte
