-- ===== src/Writer/Markers.antt =====
-- A marker holds its two lengths, and an acknowledgment of whole frames goes from marker to marker.
use c_web_socket_pico_w_test.Base.{
  ℕ, zero, suc, ◌+◌, ◌-◌, ◌*◌, ◌^◌, ◌<◌, ◌≤◌, ◌≡◌, refl, sym, ap, ap₂, ◌∙◌, arith, true, leb, ◌==◌,
  min, some, List, [], ◌∷◌, ◌++◌, append_assoc, length, length-append, bit_and, bit_or, ◌<<◌, ◌>>◌,
  u32, All,
}
use c_web_socket_pico_w_test.Base.Fields.{bit_or_low, bit_and_mask, bit_and_flag}
use c_web_socket_pico_w_test.Writer.{
  Framinator, acked, flag_wrap, fetch32, bytes32, get_len, get_scratch_len, marker, ack_callback,
  ack,
}
use c_web_socket_pico_w_test.Writer.Memory.{fetch32-at}

module _ (scratch len : ℕ) (few : scratch < 64) (small : len < 2 ^ 24) where
  pub marker-sum : marker scratch len ≡ scratch * 2 ^ 24 + len
  marker-sum =
      ap (λ s. bit_or s len) {x = u32 (scratch << 24)} {y = scratch * 2 ^ 24} (omega arith)
      ∙ bit_or_low 24 scratch len small

  pub get_len-marker : get_len (marker scratch len) ≡ len
  get_len-marker = bit_and_mask 24 (marker scratch len) ∙ omega (arith, marker-sum)

  pub get_scratch_len-marker : get_scratch_len (marker scratch len) ≡ scratch
  get_scratch_len-marker = bit_and_mask 6 (marker scratch len >> 24) ∙ omega (arith, marker-sum)

  pub no_wrap-marker : bit_and (marker scratch len) flag_wrap ≡ 0
  no_wrap-marker = bit_and_flag 30 (marker scratch len) ∙ omega (arith, marker-sum)

  pub marker-lt : marker scratch len < 2 ^ 32
  marker-lt = omega (arith, marker-sum)

-- A marker that is acknowledged whole.
pub ack_callback-marker :
    {Chain : Type 0} (fuel len scratch l : ℕ) (ws : Framinator Chain)
    → fetch32 ws.buf ws.tail ≡ some (marker scratch l)
    → scratch < 64
    → l < 2 ^ 24
    → 0 < len
    → ack_callback (suc fuel) len ws
      ≡ ack_callback fuel
          (len - min len l)
          (record ws { tail = u32 (ws.tail + min len l + scratch) })
unfolding ack_callback
ack_callback-marker fuel zero scratch l ws e few small pos = absurd (omega arith)
ack_callback-marker fuel (suc len) scratch l ws e few small pos =
    let plain : (bit_and (marker scratch l) flag_wrap == 0) ≡ true =
      ap (λ n. n == 0) (no_wrap-marker scratch l few small) in
    let whole : leb (min (suc len) l) (suc len) ≡ true = ground arith in
    rw
      (
        ack_callback,
        e,
        plain,
        get_len-marker scratch l few small,
        get_scratch_len-marker scratch l few small,
        whole,
      )
      refl

-- A frame in the ring: what TCP sends of it, the bytes of it that TCP does not send, and the latter's
-- number beyond the marker.
pub record Sent : Type 0 where
  pub send_len : ℕ
  pub scratch : ℕ
  pub body : List ℕ

abbrev pub IsSent : Sent → Type 0
IsSent f =
    (0 < f.send_len)
    × (f.send_len < 2 ^ 24)
    × (f.scratch < 64)
    × (4 + length f.body ≡ f.send_len + f.scratch)

-- Frames in memory, each behind its marker.
abbrev pub in_memory : List Sent → List ℕ
in_memory [] = []
in_memory (f ∷ fs) = bytes32 (marker f.scratch f.send_len) ++ (f.body ++ in_memory fs)

abbrev pub total : List Sent → ℕ
total [] = 0
total (f ∷ fs) = f.send_len + total fs

ack_callback-zero :
    {Chain : Type 0} (fuel : ℕ) (ws : Framinator Chain) → ack_callback fuel 0 ws ≡ acked ws
unfolding ack_callback
ack_callback-zero zero ws = refl
ack_callback-zero (suc fuel) ws = refl

-- The bytes are acknowledged up to the end of the frames; the buffer is as it was.
ack_callback-frames :
    {Chain : Type 0} (fuel : ℕ) (front back : List ℕ) (fs : List Sent) (ws : Framinator Chain)
    → total fs ≤ fuel
    → All IsSent fs
    → ws.tail ≡ length front
    → ws.buf ≡ front ++ (in_memory fs ++ back)
    → length ws.buf < 2 ^ 32
    → ack_callback fuel (total fs) ws
      ≡ acked (record ws { tail = length front + length (in_memory fs) })
ack_callback-frames fuel front back [] ws le fine at whole small =
    ack_callback-zero fuel ws
    ∙ ap (λ t. acked (record ws { tail = t })) {x = ws.tail} {y = length front + 0} (omega arith)
ack_callback-frames zero front back (f ∷ fs) ws le fine at whole small = absurd (omega arith)
ack_callback-frames (suc fuel) front back (f ∷ fs) ws le ((pos, few, scr, size), fine) at whole
      small =
    let word : List ℕ = bytes32 (marker f.scratch f.send_len) in
    let rest : List ℕ = f.body ++ in_memory fs in
    let front' : List ℕ = front ++ (word ++ f.body) in
    let here : ws.buf ≡ front ++ (word ++ (rest ++ back)) =
      whole ∙ ap (λ l. front ++ l) (append_assoc word rest back) in
    let found : fetch32 ws.buf ws.tail ≡ some (marker f.scratch f.send_len) =
      ap (λ b. fetch32 b ws.tail) here
      ∙ fetch32-at front (rest ++ back) (marker f.scratch f.send_len) ws.tail at
          (marker-lt f.scratch f.send_len scr few) in
    let moved : length front' ≡ length front + 4 + length f.body =
      omega (arith, length-append front (word ++ f.body)) in
    let bound : length ws.buf
        ≡ length front + (4 + (length f.body + (length (in_memory fs) + length back))) =
      ap length here
      ∙ omega (
        arith,
        length-append front (word ++ (rest ++ back)),
        length-append rest back,
        length-append f.body (in_memory fs),
      ) in
    let again : ws.buf ≡ front' ++ (in_memory fs ++ back) =
      here
      ∙ ap (λ l. front ++ (word ++ l)) (append_assoc f.body (in_memory fs) back)
      ∙ sym (append_assoc front (word ++ f.body) (in_memory fs ++ back)) in
    ack_callback-marker fuel (total (f ∷ fs)) f.scratch f.send_len ws found scr few (omega arith)
    ∙ ap₂ (λ n t. ack_callback fuel n (record ws { tail = t }))
        {x = total (f ∷ fs) - min (total (f ∷ fs)) f.send_len} {y = total fs}
        {u = u32 (ws.tail + min (total (f ∷ fs)) f.send_len + f.scratch)} {v = length front'}
        (omega arith) (omega (arith, moved, bound))
    ∙ ack_callback-frames fuel front' back fs (record ws { tail = length front' }) (omega arith)
        fine refl again small
    ∙ ap (λ t. acked (record ws { tail = t })) {x = length front' + length (in_memory fs)}
        {y = length front + length (in_memory (f ∷ fs))}
        (omega (arith, moved, length-append f.body (in_memory fs)))

-- An acknowledgment of frames, any number of them at once, moves the tail behind them and changes
-- nothing else, wherever they begin in the buffer. Each holds bytes to be sent, as many as the
-- marker says, and less than 64 others.
pub ack-frames :
    {Chain : Type 0} (front back : List ℕ) (fs : List Sent) (ws : Framinator Chain)
    → All IsSent fs
    → ws.tail ≡ length front
    → ws.buf ≡ front ++ (in_memory fs ++ back)
    → length ws.buf < 2 ^ 32
    → ack (total fs) ws ≡ acked (record ws { tail = length front + length (in_memory fs) })
unfolding ack
ack-frames front back fs ws fine at whole small =
    ack_callback-frames (2 * total fs + 2) front back fs ws (omega arith) fine at whole small

-- An acknowledgment of a part of a frame moves the tail into the frame, by the bytes that are
-- acknowledged and those that are not sent: what stands there is taken for the next marker.
pub ack-part :
    {Chain : Type 0} (front back : List ℕ) (f : Sent) (n : ℕ) (ws : Framinator Chain)
    → IsSent f
    → 0 < n
    → n < f.send_len
    → ws.tail ≡ length front
    → ws.buf ≡ front ++ (in_memory (f ∷ []) ++ back)
    → length ws.buf < 2 ^ 32
    → (ack n ws ≡ acked (record ws { tail = length front + n + f.scratch }))
      × (length front < length front + n + f.scratch)
      × (length front + n + f.scratch < length front + length (in_memory (f ∷ [])))
unfolding ack
ack-part front back f n ws (pos, few, scr, size) positive less at whole small =
    let word : List ℕ = bytes32 (marker f.scratch f.send_len) in
    let rest : List ℕ = f.body ++ [] in
    let here : ws.buf ≡ front ++ (word ++ (rest ++ back)) =
      whole ∙ ap (λ l. front ++ l) (append_assoc word rest back) in
    let found : fetch32 ws.buf ws.tail ≡ some (marker f.scratch f.send_len) =
      ap (λ b. fetch32 b ws.tail) here
      ∙ fetch32-at front (rest ++ back) (marker f.scratch f.send_len) ws.tail at
          (marker-lt f.scratch f.send_len scr few) in
    let bound : length ws.buf ≡ length front + (4 + (length f.body + length back)) =
      ap length here
      ∙ omega (
        arith,
        length-append front (word ++ (rest ++ back)),
        length-append rest back,
        length-append f.body [],
      ) in
    (
      ap (λ k. ack_callback k n ws) {x = 2 * n + 2} {y = suc (2 * n + 1)} (omega arith)
          ∙ ack_callback-marker (2 * n + 1) n f.scratch f.send_len ws found scr few positive
          ∙ ap₂ (λ m t. ack_callback (2 * n + 1) m (record ws { tail = t }))
              {x = n - min n f.send_len} {y = 0} {u = u32 (ws.tail + min n f.send_len + f.scratch)}
              {v = length front + n + f.scratch} (omega arith) (omega (arith, bound))
          ∙ ack_callback-zero (2 * n + 1) (record ws { tail = length front + n + f.scratch }),
      omega arith,
      omega (arith, length-append f.body []),
    )
