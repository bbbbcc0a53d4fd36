-- ===== src/Writer/Frames.antt =====
-- What `websocket_complete_and_send_frame` gives to TCP.
use c_web_socket_pico_w_test.Base.{
  ℕ, ◌+◌, ◌-◌, ◌*◌, ◌/◌, ◌%◌, ◌^◌, ◌<◌, ◌≤◌, ◌≡◌, refl, sym, ap, ap₂, ◌∙◌, arith, true, false, leb,
  ltb, ◌==◌, none, some, List, [], ◌∷◌, ◌++◌, append_assoc, length, length-append, take, drop,
  bit_or, ◌>>◌, sub32, ℕ_le-cases, Bool-cases, inl, inr,
}
use c_web_socket_pico_w_test.Base.Fields.{bit_or_low}
use c_web_socket_pico_w_test.Base.Bits.{bit_xor-zero}
use c_web_socket_pico_w_test.Mask.Bytewise.{masked}
use c_web_socket_pico_w_test.Lwip.{Lwip, LwipLaws, Pcb}
use c_web_socket_pico_w_test.Con.{Con, Script}
use c_web_socket_pico_w_test.Con.Write.Room.{Has, t_write-fits}
use c_web_socket_pico_w_test.Frame.Rfc.{Frame, encode}
use c_web_socket_pico_w_test.Writer.{
  Framinator, puts, store, bytes16, bytes32, marker, frame_start, swapped16, header_of,
  header_offset, ack_waits,
}
use c_web_socket_pico_w_test.Writer.Memory.{store-at, drop-front, take-front}
use c_web_socket_pico_w_test.Writer.Send.{resume_write, complete_and_send_frame}

-- A text frame that is whole and not masked.
abbrev pub text_frame : List ℕ → Frame
text_frame payload = record { fin = true; opcode = 1; key = none; payload = payload }

-- The two bytes of a word in the other order.
swapped : (n : ℕ) → n < 2 ^ 16 → bytes16 (swapped16 n) ≡ n / 2 ^ 8 ∷ n % 2 ^ 8 ∷ []
swapped n small =
    let word : swapped16 n ≡ n % 2 ^ 8 * 2 ^ 8 + n / 2 ^ 8 =
      omega (arith, bit_or_low 8 n (n >> 8) (omega arith)) in
    ap₂ (λ x y. x ∷ y ∷ []) {x = swapped16 n % 2 ^ 8} {y = n / 2 ^ 8}
      {u = swapped16 n / 2 ^ 8 % 2 ^ 8} {v = n % 2 ^ 8} (omega (arith, word)) (omega (arith, word))

unmasked : (xs : List ℕ) → masked 0 xs ≡ xs
unfolding masked
unmasked [] = refl
unmasked (x ∷ xs) = ap₂ ◌∷◌ (bit_xor-zero x) (unmasked xs)

header-encode :
    (payload : List ℕ)
    → length payload < 2 ^ 16
    → header_of (length payload) ++ payload ≡ encode (text_frame payload)
header-encode payload small = elim (ℕ_le-cases 126 (length payload)) [
  | inl large ↦
      let is : leb 126 (length payload) ≡ true = ground arith in
      let long : ltb (length payload) 126 ≡ false = ground arith in
      let sixteen : ltb (length payload) 0x1_0000 ≡ true = ground arith in
      rw (is, long, sixteen, unmasked payload)
        (ap (λ l. 129 ∷ 126 ∷ (l ++ payload)) (swapped (length payload) small))
  | inr few ↦
      let is : leb 126 (length payload) ≡ false = ground arith in
      let short : ltb (length payload) 126 ≡ true = ground arith in
      let n : ℕ = length payload in
      let word : bit_or 0x8100 n ≡ 0x8100 + n = bit_or_low 8 0x81 n (omega arith) in
      rw (is, short, unmasked payload)
        (ap (λ l. l ++ payload)
          (swapped (bit_or 0x8100 n) (omega (arith, word))
            ∙ ap₂ (λ x y. x ∷ y ∷ []) {x = bit_or 0x8100 n / 2 ^ 8} {y = 129}
                {u = bit_or 0x8100 n % 2 ^ 8} {v = n + 0} (omega (arith, word))
                (omega (arith, word))))
]

pub length-header_of : (n : ℕ) → header_offset n + length (header_of n) ≡ frame_start
length-header_of n = elim (Bool-cases (leb 126 n)) [
  | inl large ↦ rw large refl
  | inr small ↦ rw small refl
]

pub header_offset-le : (n : ℕ) → (4 ≤ header_offset n) × (header_offset n ≤ 6)
header_offset-le n = elim (Bool-cases (leb 126 n)) [
  | inl large ↦ rw large (omega arith, omega arith)
  | inr small ↦ rw small (omega arith, omega arith)
]

-- The two stores into the memory of a frame, and the bytes from its header on.
module _ (front g skip h payload back word header : List ℕ) (i o : ℕ) (at : i ≡ length front)
    (four : length g ≡ length word) (off : length word + length skip ≡ o)
    (same : length h ≡ length header) where
  abbrev memory : List ℕ → List ℕ → List ℕ
  memory w x = front ++ (w ++ (skip ++ (x ++ (payload ++ back))))

  marker_stored : store (memory g h) i word ≡ some (memory word h)
  marker_stored = store-at front g word (skip ++ (h ++ (payload ++ back))) i at four

  reassoc : (x : List ℕ) → memory word x ≡ (front ++ (word ++ skip)) ++ (x ++ (payload ++ back))
  reassoc x =
      ap (λ l. front ++ l) (sym (append_assoc word skip (x ++ (payload ++ back))))
      ∙ sym (append_assoc front (word ++ skip) (x ++ (payload ++ back)))

  header_at : i + o ≡ length (front ++ (word ++ skip))
  header_at = omega (arith, length-append front (word ++ skip), length-append word skip)

  header_stored : store (memory word h) (i + o) header ≡ some (memory word header)
  header_stored =
      ap (λ b. store b (i + o) header) (reassoc h)
      ∙ store-at (front ++ (word ++ skip)) h header (payload ++ back) (i + o) header_at same
      ∙ ap some (sym (reassoc header))

  slice : take (length (header ++ payload)) (drop (i + o) (memory word header)) ≡ header ++ payload
  slice =
      ap₂ (λ k b. take (length (header ++ payload)) (drop k b)) header_at (reassoc header)
      ∙ ap (take (length (header ++ payload))) (
          drop-front (front ++ (word ++ skip)) (header ++ (payload ++ back))
          ∙ sym (append_assoc header payload back))
      ∙ take-front (header ++ payload) back

  inside : ltb (length (memory word header)) (i + o + length (header ++ payload)) ≡ false
  inside =
      let size = ap length (reassoc header) in
      ground (
        arith,
        size,
        header_at,
        length-append (front ++ (word ++ skip)) (header ++ (payload ++ back)),
        length-append header (payload ++ back),
        length-append payload back,
        length-append header payload,
      )

-- A frame that is being built, in its place in the ring.
abbrev pub framed :
    {Chain : Type 0} → Con Chain → ℕ → ℕ → List ℕ → List ℕ → List ℕ → List ℕ → Framinator Chain
framed con head tail front gap payload back = record {
  con = con;
  buf = front ++ (gap ++ (payload ++ back));
  buf_len = 1024;
  head = head;
  tail = tail;
  current_marker = length front;
  current_payload_len = length payload;
}

-- The marker of such a frame: what TCP sends of it, and the rest up to `head`.
abbrev pub send_len_of : ℕ → ℕ
send_len_of n = n + (frame_start - header_offset n)

module _ {Chain : Type 0} (lwip : Lwip Chain) (laws : LwipLaws lwip)
    (accepts : (pcb : Pcb) (bytes : List ℕ)
      → length bytes ≤ pcb.snd_buf
      → (lwip.tcp_write pcb bytes).0 ≡ 0)
    (tcp_output : Pcb → ℕ) (flushes : (pcb : Pcb) → tcp_output pcb ≡ 0) where
  resumed :
      (ws : Framinator Chain) (script : Script Chain) (con : Con Chain) (pcb : Pcb)
      → con.printed_circuit_board ≡ some pcb
      → resume_write lwip tcp_output ws script con script
          (λ c. elim c.printed_circuit_board [ none ↦ false | some pcb' ↦ tcp_output pcb' == 0 ])
        ≡ puts tt (record ws { con = con; current_payload_len = 0 }) script
  unfolding resume_write ack_waits
  resumed ws script con pcb there =
      let nothing : length script - length script ≡ 0 = omega arith in
      let off : (tcp_output pcb == 0) ≡ true = ap (λ n. n == 0) (flushes pcb) in
      rw (nothing, there, off) refl

  -- A frame in its place, with the space before its payload in three parts: that of the marker, the
  -- bytes between marker and header, and that of the header.
  module _ (con : Con Chain) (pcb : Pcb) (head tail : ℕ) (front g skip h payload back : List ℕ)
      (four : length g ≡ 4) (off : 4 + length skip ≡ header_offset (length payload))
      (rest : length h + header_offset (length payload) ≡ frame_start) where
    abbrev n : ℕ
    n = length payload

    abbrev scratch : ℕ
    scratch = sub32 (sub32 head (length front)) (send_len_of n)

    abbrev placed : Framinator Chain
    placed = framed con head tail front (g ++ (skip ++ h)) payload back

    abbrev pub completed : Pcb → Framinator Chain
    completed pcb' = record {
      con = record con { printed_circuit_board = some pcb' };
      buf =
          front
          ++ (bytes32 (marker scratch (send_len_of n))
              ++ (skip ++ (header_of n ++ (payload ++ back))));
      buf_len = 1024;
      head = head;
      tail = tail;
      current_marker = length front;
      current_payload_len = 0;
    }

    same : length h ≡ length (header_of n)
    same = omega (arith, length-header_of n, header_offset-le n)

    sends : length (header_of n ++ payload) ≡ send_len_of n
    sends = omega (
      arith,
      length-append (header_of n) payload,
      length-header_of n,
      (header_offset-le n).0,
      (header_offset-le n).1,
    )

    flattened :
        front ++ ((g ++ (skip ++ h)) ++ (payload ++ back))
        ≡ front ++ (g ++ (skip ++ (h ++ (payload ++ back))))
    flattened =
        ap (λ l. front ++ l)
          (append_assoc g (skip ++ h) (payload ++ back)
            ∙ ap (λ l. g ++ l) (append_assoc skip h (payload ++ back)))

    -- `websocket_complete_and_send_frame` gives TCP a frame of RFC 6455, whole, with the payload that
    -- was gathered, from anywhere in the ring, and leaves a marker in front of it that tells the
    -- bytes sent and the others up to the head. The payload has less than 64 KB, the frame fits in the
    -- send buffer, and `tcp_write` and `tcp_output` succeed.
    pub complete-sends :
        (script : Script Chain)
        → Has con pcb
        → n < 2 ^ 16
        → send_len_of n ≤ pcb.snd_buf
        → (pcb' : Pcb) × (complete_and_send_frame lwip tcp_output placed script
            ≡ puts tt (completed pcb') script)
          × (pcb'.written ≡ pcb.written ++ encode (text_frame payload))
          × (pcb'.snd_buf + send_len_of n ≡ pcb.snd_buf)
    unfolding complete_and_send_frame
    complete-sends script has small room =
        let word : List ℕ = bytes32 (marker scratch (send_len_of n)) in
        let header : List ℕ = header_of n in
        let i : ℕ = length front in
        let o : ℕ = header_offset n in
        let bytes : List ℕ = encode (text_frame payload) in
        let s1 =
          ap (λ b. store b i word) flattened
          ∙ marker_stored front g skip h payload back word header i o refl four off same in
        let s2 = header_stored front g skip h payload back word header i o refl four off same in
        let final : List ℕ = front ++ (word ++ (skip ++ (header ++ (payload ++ back)))) in
        let fits : ltb (length final) (i + o + send_len_of n) ≡ false =
          ap (λ k. ltb (length final) (i + o + k)) (sym sends)
          ∙ inside front g skip h payload back word header i o refl four off same in
        let part : take (send_len_of n) (drop (i + o) final) ≡ bytes =
          ap (λ k. take k (drop (i + o) final)) (sym sends)
          ∙ slice front g skip h payload back word header i o refl four off same
          ∙ header-encode payload small in
        let size : length bytes ≡ send_len_of n =
          ap length (sym (header-encode payload small)) ∙ sends in
        let (e, queued, left) =
          t_write-fits lwip laws accepts bytes con pcb script has
            (omega (arith, (header_offset-le n).1)) (omega (arith, size)) in
        let pcb' : Pcb = (lwip.tcp_write pcb bytes).1 in
        (
          pcb',
          rw (complete_and_send_frame, s1, s2, fits, part, e)
              (resumed
                (record {
                  con = con;
                  buf = final;
                  buf_len = 1024;
                  head = head;
                  tail = tail;
                  current_marker = i;
                  current_payload_len = n;
                })
                script (record con { printed_circuit_board = some pcb' }) pcb' refl),
          queued,
          omega (arith, left, size),
        )
