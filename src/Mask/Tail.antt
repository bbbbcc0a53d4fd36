-- ===== src/Mask/Tail.antt =====
-- The last loop of `websocket_apply_mask`, which goes from the last byte back.
use c_web_socket_pico_w_test.Base.{
  ℕ, zero, suc, ◌+◌, ◌-◌, ◌*◌, ◌%◌, ◌^◌, ◌<◌, ◌≡◌, refl, sym, ◌∙◌, ap, ap₂, arith, List, [], ◌∷◌,
  ◌++◌, append_assoc, subst, length, length-append, get_or, set, bit_xor, IsU32, IsByte, All, u8,
  ◌>>◌,
}
use c_web_socket_pico_w_test.Mask.{tail_loop}
use c_web_socket_pico_w_test.Mask.Rotation.{turns}
use c_web_socket_pico_w_test.Mask.Bytewise.{masked, masked-append}
use c_web_socket_pico_w_test.Mask.Loops.{byte-masked}

get_or-middle :
    (before : List ℕ) (x : ℕ) (after : List ℕ) (d : ℕ)
    → get_or (before ++ x ∷ after) (length before) d ≡ x
get_or-middle [] x after d = refl
get_or-middle (y ∷ before) x after d = get_or-middle before x after d

set-middle :
    (before : List ℕ) (x : ℕ) (after : List ℕ) (v : ℕ)
    → set (before ++ x ∷ after) (length before) v ≡ before ++ v ∷ after
set-middle [] x after v = refl
set-middle (y ∷ before) x after v = ap (λ l. y ∷ l) (set-middle before x after v)

-- The last element apart.
snoc :
    (n : ℕ) (l : List ℕ)
    → length l ≡ suc n
    → (start : List ℕ) × (x : ℕ) × (l ≡ start ++ x ∷ []) × (length start ≡ n)
snoc n [] h = absurd (omega arith)
snoc zero (x ∷ []) h = ([], x, refl, refl)
snoc zero (x ∷ y ∷ l) h = absurd (omega arith)
snoc (suc n) (x ∷ l) h =
    let (start, last, e, len) = snoc n l (omega arith) in
    (x ∷ start, last, ap (λ t. x ∷ t) e, ap suc len)

All-left : (xs ys : List ℕ) → All IsByte (xs ++ ys) → All IsByte xs
All-left [] ys h = tt
All-left (x ∷ xs) ys h = (h.0, All-left xs ys h.1)

All-right : (xs ys : List ℕ) → All IsByte (xs ++ ys) → All IsByte ys
All-right [] ys h = h
All-right (x ∷ xs) ys h = All-right xs ys h.1

module _ (mask part size : ℕ) (word : IsU32 mask) (few : part < 4) where
  pub tail_loop-masked :
      (left i : ℕ) (before mid after : List ℕ)
      → length mid ≡ left
      → i + left ≡ part + 1
      → size ≡ length before + part
      → All IsByte mid
      → tail_loop mask part size left i (before ++ (mid ++ after))
        ≡ before ++ (masked mask mid ++ after)
  unfolding tail_loop masked
  tail_loop-masked zero i before [] after len at ends bytes = refl
  tail_loop-masked zero i before (x ∷ mid) after len at ends bytes = absurd (omega arith)
  tail_loop-masked (suc left) i before mid after len at ends bytes =
      let (start, x, e, len') = snoc left mid len in
      let index : size - i ≡ length (before ++ start) = omega (arith, length-append before start) in
      let key : part - i ≡ left = omega arith in
      let joined : before ++ (mid ++ after) ≡ (before ++ start) ++ x ∷ after =
        ap (λ m. before ++ (m ++ after)) e
        ∙ ap (λ l. before ++ l) (append_assoc start (x ∷ []) after)
        ∙ sym (append_assoc before start (x ∷ after)) in
      let v : ℕ = bit_xor x (turns left mask % 2 ^ 8) in
      let byte : IsByte x = (All-right start (x ∷ []) (subst (All IsByte) e bytes)).0 in
      let value : u8
            (bit_xor (get_or (before ++ (mid ++ after)) (size - i) 0) (mask >> ((part - i) * 8)))
          ≡ v =
        ap₂ (λ b k. u8 (bit_xor b (mask >> (k * 8))))
          (ap₂ (λ l k. get_or l k 0) joined index ∙ get_or-middle (before ++ start) x after 0) key
        ∙ byte-masked mask left x word (omega arith) byte in
      let w : ℕ =
        u8 (bit_xor (get_or (before ++ (mid ++ after)) (size - i) 0) (mask >> ((part - i) * 8))) in
      let stored : set (before ++ (mid ++ after)) (size - i) w ≡ before ++ (start ++ v ∷ after) =
        ap₂ (λ l k. set l k w) joined index
        ∙ ap (set ((before ++ start) ++ x ∷ after) (length (before ++ start))) value
        ∙ set-middle (before ++ start) x after v
        ∙ append_assoc before start (v ∷ after) in
      ap (tail_loop mask part size left (i + 1)) stored
      ∙ tail_loop-masked left (i + 1) before start (v ∷ after) len' (omega arith) ends
          (All-left start (x ∷ []) (subst (All IsByte) e bytes))
      ∙ ap (λ l. before ++ l)
          (sym (append_assoc (masked mask start) (v ∷ []) after)
            ∙ ap (λ l. l ++ after)
                (sym (
                  ap (masked mask) e
                  ∙ masked-append mask start (x ∷ [])
                  ∙ ap (λ k. masked mask start ++ bit_xor x (turns k mask % 2 ^ 8) ∷ []) len')))
