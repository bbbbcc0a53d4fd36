-- ===== src/Mask/Payload.antt =====
-- `websocket_apply_mask` as a whole: the three loops and the two rotations of the mask.
use c_web_socket_pico_w_test.Base.{
  ℕ, zero, suc, ◌+◌, ◌-◌, ◌*◌, ◌/◌, ◌%◌, ◌<◌, ◌≤◌, ◌≡◌, refl, sym, ◌∙◌, ap, ap₂, arith, List,
  Bool-cases, inl, inr, ltb, ltb→lt, ltb_false→le, suc-==_zero, get_or-take, get_or-append_lt,
  get_or-append_ge, Bool, ◌++◌, append_assoc, ◌==◌, if◌then◌else◌, length, length-append,
  length-take, length-drop, get_or, take, drop, take-add, drop-add, take-append_le, drop-append_le,
  take-append-drop, take_of_length-le, drop_of_length-le, append-nil, bit_xor, IsU32, IsByte, All,
  All-take, All-drop, All-append, min,
}
use c_web_socket_pico_w_test.Mask.{rotate, head_loop, word_loop, tail_loop, apply_mask}
use c_web_socket_pico_w_test.Mask.Rotation.{turns, turns-IsU32, turns_four, rotate-turns}
use c_web_socket_pico_w_test.Mask.Bytewise.{
  masked, masked-append, length-masked, masked-IsByte, masked_twice, key_octet, get_or-masked,
  turns-add,
}
use c_web_socket_pico_w_test.Mask.Loops.{head_loop-masked, word_loop-masked}
use c_web_socket_pico_w_test.Mask.Tail.{tail_loop-masked}

-- The first `n` bytes masked, the others as they were.
abbrev pub over : ℕ → ℕ → List ℕ → List ℕ
over mask n buf = masked mask (take n buf) ++ drop n buf

-- The mask of a whole number of words is back where it was.
turns_words : (q mask : ℕ) → IsU32 mask → turns (4 * q) mask ≡ mask
turns_words zero mask h = ap (λ k. turns k mask) {x = 4 * zero} {y = 0} (omega arith)
turns_words (suc q) mask h =
    ap (λ k. turns k mask) {x = 4 * suc q} {y = 4 + 4 * q} (omega arith)
    ∙ turns-add 4 (4 * q) mask
    ∙ ap (turns (4 * q)) (turns_four mask h)
    ∙ turns_words q mask h

rotation :
    (mask k : ℕ) → IsU32 mask → k ≤ 4 → (if k == 0 then mask else rotate mask k) ≡ turns k mask
rotation mask zero h few = refl
rotation mask (suc k) h few =
    ap (λ b. if b then mask else rotate mask (suc k)) (suc-==_zero k)
    ∙ rotate-turns mask (suc k) h (omega arith) few

take_short : (n : ℕ) (buf : List ℕ) → n ≤ length buf → length (take n buf) ≡ n
take_short n buf h = omega (arith, length-take n buf)

over-add :
    (a b mask : ℕ) (buf : List ℕ)
    → a ≤ length buf
    → over mask (a + b) buf ≡ masked mask (take a buf) ++ over (turns a mask) b (drop a buf)
over-add a b mask buf h =
    ap₂ (λ t d. masked mask t ++ d) (take-add a b buf) (drop-add a b buf)
    ∙ ap (λ l. l ++ drop b (drop a buf))
        (masked-append mask (take a buf) (take b (drop a buf))
          ∙ ap (λ k. masked mask (take a buf) ++ masked (turns k mask) (take b (drop a buf)))
              (take_short a buf h))
    ∙ append_assoc (masked mask (take a buf)) (masked (turns a mask) (take b (drop a buf)))
        (drop b (drop a buf))

-- The masked part and the rest of a buffer apart.
take-over :
    (mask n : ℕ) (buf : List ℕ)
    → n ≤ length buf
    → take n (over mask n buf) ≡ masked mask (take n buf)
take-over mask n buf h =
    take-append_le n (masked mask (take n buf)) (drop n buf)
      (omega (arith, length-masked mask (take n buf), take_short n buf h))
    ∙ take_of_length-le n (masked mask (take n buf))
        (omega (arith, length-masked mask (take n buf), take_short n buf h))

drop-over : (mask n : ℕ) (buf : List ℕ) → n ≤ length buf → drop n (over mask n buf) ≡ drop n buf
drop-over mask n buf h =
    drop-append_le n (masked mask (take n buf)) (drop n buf)
      (omega (arith, length-masked mask (take n buf), take_short n buf h))
    ∙ ap (λ l. l ++ drop n buf)
        (drop_of_length-le n (masked mask (take n buf))
          (omega (arith, length-masked mask (take n buf), take_short n buf h)))

-- The words and the bytes after them.
aligned :
    (mask rest : ℕ) (buf : List ℕ)
    → IsU32 mask
    → rest ≤ length buf
    → All IsByte buf
    → tail_loop mask (rest % 4) rest (rest % 4) 1 (word_loop mask (rest / 4) buf)
      ≡ over mask rest buf
aligned mask rest buf h fits bytes =
    let q4 : ℕ = 4 * (rest / 4) in
    let left : ℕ = rest % 4 in
    let after : List ℕ = drop q4 buf in
    ap (tail_loop mask left rest left 1)
      (word_loop-masked mask (rest / 4) buf h (omega arith) bytes)
    ∙ ap (λ l. tail_loop mask left rest left 1 (masked mask (take q4 buf) ++ l))
        (sym (take-append-drop left after))
    ∙ tail_loop-masked mask left rest h (omega arith) left 1 (masked mask (take q4 buf))
        (take left after) (drop left after)
        (omega (arith, length-take left after, length-drop q4 buf)) (omega arith)
        (omega (arith, length-masked mask (take q4 buf), length-take q4 buf))
        (All-take IsByte left after (All-drop IsByte q4 buf bytes))
    ∙ ap (λ m. masked mask (take q4 buf) ++ over m left after) (sym (turns_words (rest / 4) mask h))
    ∙ sym (over-add q4 left mask buf (omega arith))
    ∙ ap (λ k. over mask k buf) {x = q4 + left} {y = rest} (omega arith)

-- Wherever the buffer starts in memory, `websocket_apply_mask` on its first `size` bytes combines
-- each of them with the key byte it meets when the key is used byte by byte, leaves the bytes after
-- them alone, and turns `read_mask` by `size` bytes; `read_mask` is a 32-bit word, and the buffer holds bytes, at
-- least `size` of them.
pub apply_mask-masked :
    (addr mask : ℕ) (buf : List ℕ) (size : ℕ)
    → IsU32 mask
    → size ≤ length buf
    → All IsByte buf
    → apply_mask addr mask buf size
      ≡ (turns size mask, masked mask (take size buf) ++ drop size buf)
unfolding apply_mask
apply_mask-masked addr mask buf size h fits bytes =
    let part : ℕ = min (4 - addr % 4) size in
    let rest : ℕ = size - part in
    let few : part ≤ 4 = omega arith in
    let head : head_loop mask 0 part buf ≡ over mask part buf =
      head_loop-masked mask 0 part buf h (omega arith) bytes in
    let mask1 : (if part == 0 then mask else rotate mask part) ≡ turns part mask =
      rotation mask part h few in
    let word1 : IsU32 (turns part mask) = turns-IsU32 part mask h in
    let body : take part (over mask part buf)
          ++ tail_loop (turns part mask) (rest % 4) rest (rest % 4) 1
              (word_loop (turns part mask) (rest / 4) (drop part (over mask part buf)))
        ≡ over mask size buf =
      ap₂
        (λ t d.
          t
          ++ tail_loop (turns part mask) (rest % 4) rest (rest % 4) 1
              (word_loop (turns part mask) (rest / 4) d))
        (take-over mask part buf (omega arith)) (drop-over mask part buf (omega arith))
      ∙ ap (λ l. masked mask (take part buf) ++ l)
          (aligned (turns part mask) rest (drop part buf) word1
            (omega (arith, length-drop part buf)) (All-drop IsByte part buf bytes))
      ∙ sym (over-add part rest mask buf (omega arith))
      ∙ ap (λ k. over mask k buf) {x = part + rest} {y = size} (omega arith) in
    let turned : (if rest % 4 == 0 then turns part mask else rotate (turns part mask) (rest % 4))
        ≡ turns size mask =
      rotation (turns part mask) (rest % 4) word1 (omega arith)
      ∙ ap (turns (rest % 4)) (sym (turns_words (rest / 4) (turns part mask) word1))
      ∙ sym (turns-add (4 * (rest / 4)) (rest % 4) (turns part mask))
      ∙ sym (turns-add part (4 * (rest / 4) + rest % 4) mask)
      ∙ ap (λ k. turns k mask) {x = part + (4 * (rest / 4) + rest % 4)} {y = size} (omega arith) in
    ap₂
      (λ m hd. (
        (if rest % 4 == 0 then m else rotate m (rest % 4)),
        take part hd
            ++ tail_loop m (rest % 4) rest (rest % 4) 1 (word_loop m (rest / 4) (drop part hd)),
      ))
      mask1 head
    ∙ ap₂ (λ m l. (m, l)) turned body

-- A call on a whole buffer.
pub apply_mask-whole :
    (addr mask : ℕ) (buf : List ℕ)
    → IsU32 mask
    → All IsByte buf
    → apply_mask addr mask buf (length buf) ≡ (turns (length buf) mask, masked mask buf)
apply_mask-whole addr mask buf h bytes =
    apply_mask-masked addr mask buf (length buf) h (omega arith) bytes
    ∙ ap₂ (λ t d. (turns (length buf) mask, masked mask t ++ d))
        (take_of_length-le (length buf) buf (omega arith))
        (drop_of_length-le (length buf) buf (omega arith))
    ∙ ap (λ l. (turns (length buf) mask, l)) (append-nil (masked mask buf))

-- Masking or unmasking a payload in pieces, each wherever it lies in memory, gives the bytes and the
-- final `read_mask` of one call on the whole payload; `read_mask` is a 32-bit word and the pieces
-- are bytes.
pub apply_mask-pieces :
    (addr addr1 addr2 mask : ℕ) (xs ys : List ℕ)
    → IsU32 mask
    → All IsByte xs
    → All IsByte ys
    → let (mask1, first) = apply_mask addr1 mask xs (length xs) in
      let (mask2, second) = apply_mask addr2 mask1 ys (length ys) in
      apply_mask addr mask (xs ++ ys) (length (xs ++ ys)) ≡ (mask2, first ++ second)
apply_mask-pieces addr addr1 addr2 mask xs ys h hx hy =
    apply_mask-whole addr mask (xs ++ ys) h (All-append IsByte xs ys hx hy)
    ∙ ap₂ (λ m l. (m, l))
        (ap (λ k. turns k mask) (length-append xs ys) ∙ turns-add (length xs) (length ys) mask)
        (masked-append mask xs ys)
    ∙ sym (
        ap
          (λ r.
            (let (mask2, second) = apply_mask addr2 r.0 ys (length ys) in (mask2, r.1 ++ second)))
          (apply_mask-whole addr1 mask xs h hx)
        ∙ ap (λ r. (r.0, masked mask xs ++ r.1))
            (apply_mask-whole addr2 (turns (length xs) mask) ys (turns-IsU32 (length xs) mask h)
              hy))

-- RFC 6455, section 5.3: after a call, octet `i` of the payload is the old octet `i` combined by
-- exclusive or with octet `i` modulo 4 of the key, in the order of memory, if `i` is below `size`,
-- and is the old octet otherwise; `read_mask` is a 32-bit word, and the buffer holds bytes, at least
-- `size` of them.
pub apply_mask-octet :
    (addr mask : ℕ) (buf : List ℕ) (size i d : ℕ)
    → IsU32 mask
    → size ≤ length buf
    → All IsByte buf
    → get_or (apply_mask addr mask buf size).1 i d
      ≡ (if ltb i size then bit_xor (get_or buf i d) (key_octet mask i) else get_or buf i d)
apply_mask-octet addr mask buf size i d h fits bytes =
    ap (λ r. get_or r.1 i d) (apply_mask-masked addr mask buf size h fits bytes)
    ∙ elim (Bool-cases (ltb i size)) [
      | inl below ↦ inside (ltb→lt i size below) ∙ sym (ap choose below)
      | inr above ↦ outside (ltb_false→le i size above) ∙ sym (ap choose above)
    ]
  where
    choose : Bool → ℕ
    choose b = if b then bit_xor (get_or buf i d) (key_octet mask i) else get_or buf i d

    front : length (masked mask (take size buf)) ≡ length (take size buf)
    front = length-masked mask (take size buf)

    inside :
        i < size → get_or (over mask size buf) i d ≡ bit_xor (get_or buf i d) (key_octet mask i)
    inside lt =
        get_or-append_lt (masked mask (take size buf)) (drop size buf) i d
          (omega (arith, front, length-take size buf))
        ∙ get_or-masked mask (take size buf) i d h (omega (arith, length-take size buf))
        ∙ ap (λ b. bit_xor b (key_octet mask i)) (get_or-take size i buf d lt)

    outside : size ≤ i → get_or (over mask size buf) i d ≡ get_or buf i d
    outside le =
        get_or-append_ge (masked mask (take size buf)) (take size buf) (drop size buf) i d front
          (omega (arith, front, length-take size buf))
        ∙ ap (λ l. get_or l i d) (take-append-drop size buf)

-- A second call with the mask of the first gives the payload back, wherever the two buffers lie:
-- the two ends of a connection, one masking and one unmasking, agree; `read_mask` is a 32-bit word
-- and the buffer holds bytes.
pub apply_mask-twice :
    (addr1 addr2 mask : ℕ) (buf : List ℕ)
    → IsU32 mask
    → All IsByte buf
    → (apply_mask addr2 mask (apply_mask addr1 mask buf (length buf)).1 (length buf)).1 ≡ buf
apply_mask-twice addr1 addr2 mask buf h bytes =
    ap (λ r. (apply_mask addr2 mask r.1 (length buf)).1) (apply_mask-whole addr1 mask buf h bytes)
    ∙ ap (λ k. (apply_mask addr2 mask (masked mask buf) k).1) (sym (length-masked mask buf))
    ∙ ap (λ r. r.1) (apply_mask-whole addr2 mask (masked mask buf) h (masked-IsByte mask buf bytes))
    ∙ masked_twice mask buf
