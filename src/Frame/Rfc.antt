-- ===== src/Frame/Rfc.antt =====
-- The frames of RFC 6455, section 5.2, from the sender's side.
use c_web_socket_pico_w_test.Base.{
  ℕ, ◌+◌, ◌*◌, ◌/◌, ◌%◌, ◌^◌, ◌<◌, ◌≡◌, Bool, true, not, ◌&&◌, ◌||◌, ◌==◌, leb, ltb, arith,
  if◌then◌else◌, Option, none, some, List, [], ◌∷◌, ◌++◌, length, All, IsByte, IsU32,
}
use c_web_socket_pico_w_test.Mask.Bytewise.{masked}

pub record Frame : Type 0 where
  pub fin : Bool
  pub opcode : ℕ
  -- The masking key, its first octet lowest.
  pub key : Option ℕ
  pub payload : List ℕ

abbrev pub word : Option ℕ → ℕ
word none = 0
word (some k) = k

abbrev pub octets : Option ℕ → List ℕ
octets none = []
octets (some k) = k % 2 ^ 8 ∷ k / 2 ^ 8 % 2 ^ 8 ∷ k / 2 ^ 16 % 2 ^ 8 ∷ k / 2 ^ 24 ∷ []

abbrev pub mask_bit : Option ℕ → ℕ
mask_bit none = 0
mask_bit (some k) = 1

abbrev pub fin_bit : Bool → ℕ
fin_bit b = if b then 1 else 0

-- The length field of 7 bits, and the extended length, most significant octet first.
abbrev pub length7 : ℕ → ℕ
length7 n = if ltb n 126 then n else if ltb n 0x1_0000 then 126 else 127

abbrev pub extended : ℕ → List ℕ
extended n =
    if ltb n 126
    then []
    else if ltb n 0x1_0000
    then n / 2 ^ 8 ∷ n % 2 ^ 8 ∷ []
    else n / 2 ^ 56
      ∷ n / 2 ^ 48 % 2 ^ 8
      ∷ n / 2 ^ 40 % 2 ^ 8
      ∷ n / 2 ^ 32 % 2 ^ 8
      ∷ n / 2 ^ 24 % 2 ^ 8
      ∷ n / 2 ^ 16 % 2 ^ 8
      ∷ n / 2 ^ 8 % 2 ^ 8
      ∷ n % 2 ^ 8
      ∷ []

abbrev pub head : Frame → List ℕ
head f =
    (f.opcode + fin_bit f.fin * 2 ^ 7) ∷ (length7 (length f.payload) + mask_bit f.key * 2 ^ 7) ∷ []

abbrev pub encode : Frame → List ℕ
encode f =
    head f ++ (extended (length f.payload) ++ (octets f.key ++ masked (word f.key) f.payload))

abbrev pub IsFrame : Frame → Type 0
IsFrame f =
    (f.opcode < 16) × (length f.payload < 2 ^ 64) × All IsByte f.payload × IsU32 (word f.key)

-- The opcode of the message that the frame belongs to, where `last_op` is that of an unfinished
-- message, 0 if there is none.
abbrev pub effective : ℕ → Frame → ℕ
effective last_op f = if f.opcode == 0 then last_op else f.opcode

-- The opcode of the message that is unfinished after the frame.
abbrev pub after : ℕ → Frame → ℕ
after last_op f = if f.fin then 0 else effective last_op f

-- Text or data.
abbrev pub delivers : ℕ → Frame → Bool
delivers last_op f = effective last_op f == 1 || effective last_op f == 2

-- The payloads of the messages, where frames with the control opcodes, from 8 on, may stand between
-- and are left out: section 5.4.
abbrev pub rfc_after : ℕ → Frame → ℕ
rfc_after last_op f = if leb 8 f.opcode then last_op else after last_op f

abbrev pub delivered : ℕ → List Frame → List ℕ
delivered last_op [] = []
delivered last_op (f ∷ fs) =
    (if delivers last_op f then f.payload else []) ++ delivered (rfc_after last_op f) fs

abbrev pub wire : List Frame → List ℕ
wire [] = []
wire (f ∷ fs) = encode f ++ wire fs

-- Control frames are not fragmented, and none stands between the fragments of a message.
abbrev pub orderly : ℕ → Frame → Bool
orderly last_op f = not (leb 8 f.opcode) || (last_op == 0 && f.fin)

abbrev pub IsOrderly : ℕ → List Frame → Type 0
IsOrderly last_op [] = Unit
IsOrderly last_op (f ∷ fs) =
    IsFrame f × (orderly last_op f ≡ true) × IsOrderly (rfc_after last_op f) fs

pub rfc_after-orderly :
    (last_op : ℕ) (f : Frame) → orderly last_op f ≡ true → after last_op f ≡ rfc_after last_op f
rfc_after-orderly last_op f h = ground arith
