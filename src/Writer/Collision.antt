-- ===== src/Writer/Collision.antt =====
-- The head meets the tail, and the ring, which is full, passes for empty.
use c_web_socket_pico_w_test.Base.{
  ℕ, ◌+◌, ◌-◌, ◌%◌, ◌≤◌, ◌≡◌, refl, sym, ap, ◌∙◌, arith, Bool, true, false, ltb, leb, ◌&&◌, some,
  List, [], ◌++◌, append_assoc, length, length-append, u32, sub32,
}
use c_web_socket_pico_w_test.Lwip.{Lwip, LwipLaws, Pcb}
use c_web_socket_pico_w_test.Con.{Con, Script}
use c_web_socket_pico_w_test.Con.Write.Room.{Has}
use c_web_socket_pico_w_test.Writer.{
  Framinator, Put, puts, and_put, store, bytes32, frame_start, padded, header_of, header_offset,
  marker,
}
use c_web_socket_pico_w_test.Writer.Memory.{store-at}
use c_web_socket_pico_w_test.Writer.Send.{
  await_ack, begin_frame, complete_and_send_frame, squeeze, advance_head, space_of,
}
use c_web_socket_pico_w_test.Writer.Frames.{length-header_of, framed, send_len_of, complete-sends}
use c_web_socket_pico_w_test.Writer.Flush.{await_ack-over}

module _ {Chain : Type 0} (lwip : Lwip Chain) (tcp_output : Pcb → ℕ) where
  abbrev too_close : Framinator Chain → Bool
  too_close w = ltb w.head w.tail && ltb (sub32 w.tail w.head) frame_start

  squeeze-runs :
      (ws ws1 ws2 : Framinator Chain) (script : Script Chain)
      → padded ws ≡ ws
      → complete_and_send_frame lwip tcp_output ws script ≡ puts tt ws1 script
      → too_close ws1 ≡ false
      → begin_frame lwip tcp_output ws1.head (u32 (ws1.head + frame_start)) ws1 script
        ≡ puts tt ws2 script
      → squeeze lwip tcp_output ws script ≡ puts tt ws2 script
  unfolding squeeze
  squeeze-runs ws ws1 ws2 script even e1 apart e2 =
      let waited : await_ack lwip tcp_output too_close ws1 script ≡ puts tt ws1 script =
        await_ack-over lwip tcp_output too_close ws1 script apart in
      ap
        (λ w. and_put (complete_and_send_frame lwip tcp_output w script) (λ _ ws1 script1.
          and_put (await_ack lwip tcp_output too_close ws1 script1) (λ _ ws2 script2.
            begin_frame lwip tcp_output ws2.head (u32 (ws2.head + frame_start)) ws2 script2)))
        even
      ∙ rw (e1, waited, e2) refl

  advance_head-squeezes :
      (ws : Framinator Chain) (script : Script Chain)
      → ws.buf_len ≡ 1024
      → ws.tail ≡ ws.head + 8
      → ws.head ≤ 1000
      → advance_head lwip tcp_output ws script ≡ squeeze lwip tcp_output ws script
  unfolding advance_head
  advance_head-squeezes ws script size tail_at few =
      let on : ltb (sub32 (sub32 ws.buf_len ws.head) 4) 16 ≡ false = ground arith in
      let behind : leb ws.tail ws.head ≡ false = ground arith in
      let narrow : ltb (sub32 (sub32 ws.tail ws.head) 4) 8 ≡ true = ground arith in
      rw (advance_head, on, behind, narrow) refl

  -- The head is at `tail`, and so is the tail: all that is behind them counts as free.
  abbrev pub Collides : ℕ → Script Chain → Put Chain Unit → Type 0
  Collides tail script t =
      (ws' : Framinator Chain) × (t ≡ puts tt ws' script)
      × (ws'.head ≡ tail)
      × (ws'.tail ≡ tail)
      × (space_of ws' + tail + 4 ≡ 1024)

  begin_frame-Collides :
      (ws : Framinator Chain) (script : Script Chain) (before old back : List ℕ)
      → ws.buf ≡ before ++ (old ++ back)
      → length old ≡ 4
      → ws.head ≡ length before
      → ws.tail ≡ ws.head + 8
      → ws.buf_len ≡ 1024
      → ws.head ≤ 1000
      → Collides ws.tail script
          (begin_frame lwip tcp_output ws.head (u32 (ws.head + frame_start)) ws script)
  unfolding begin_frame space_of
  begin_frame-Collides ws script before old back whole four at tail_at size few =
      let stored : store ws.buf ws.head (bytes32 0) ≡ some (before ++ (bytes32 0 ++ back)) =
        ap (λ b. store b ws.head (bytes32 0)) whole
        ∙ store-at before old (bytes32 0) back ws.head at four in
      let over : ltb (u32 (ws.head + frame_start)) ws.tail ≡ false = ground arith in
      (
        record ws {
          buf = before ++ (bytes32 0 ++ back);
          current_marker = ws.head;
          head = u32 (ws.head + frame_start);
        },
        rw (begin_frame, stored) refl,
        omega arith,
        refl,
        rw over (omega arith),
      )

module _ {Chain : Type 0} (lwip : Lwip Chain) (laws : LwipLaws lwip)
    (accepts : (pcb : Pcb) (bytes : List ℕ)
      → length bytes ≤ pcb.snd_buf
      → (lwip.tcp_write pcb bytes).0 ≡ 0)
    (tcp_output : Pcb → ℕ) (flushes : (pcb : Pcb) → tcp_output pcb ≡ 0) where
  -- When a frame has the 192 bytes at which `websocket_write` goes on to the next one, and ends 8 bytes
  -- before the tail, then it is sent, the next one begins without a wait, and the space for its header
  -- brings the head to the tail. The ring is full of frames that are not acknowledged, and all that is
  -- behind the head, where they are, is now taken for free space. The frame ends at a multiple of 4,
  -- not later than at 1000, it fits in the send buffer, and `tcp_write`, for what fits, and
  -- `tcp_output` succeed.
  pub advance_head-Collides :
      (con : Con Chain) (pcb : Pcb) (front g h payload old back : List ℕ) (script : Script Chain)
      → length g ≡ 4
      → length h ≡ 4
      → length old ≡ 4
      → 192 ≤ length payload
      → (length front + 8 + length payload) % 4 ≡ 0
      → length front + 8 + length payload ≤ 1000
      → Has con pcb
      → send_len_of (length payload) ≤ pcb.snd_buf
      → Collides lwip tcp_output (length front + 8 + length payload + 8) script (
          advance_head lwip tcp_output
            (framed con
              (length front + 8 + length payload)
              (length front + 8 + length payload + 8)
              front
              (g ++ h)
              payload
              (old ++ back))
            script)
  advance_head-Collides con pcb front g h payload old back script lg lh lo large even few has room =
      let head : ℕ = length front + 8 + length payload in
      let offset : header_offset (length payload) ≡ 4 = ground arith in
      let (pcb', e1, queued, left) =
        complete-sends lwip laws accepts tcp_output flushes con pcb head (head + 8) front g [] h
          payload (old ++ back) lg (sym offset) (omega (arith, offset)) script has (omega arith)
          room in
      let n : ℕ = length payload in
      let word : List ℕ =
        bytes32 (marker (sub32 (sub32 head (length front)) (send_len_of n)) (send_len_of n)) in
      let before : List ℕ = front ++ (word ++ (header_of n ++ payload)) in
      let ws : Framinator Chain = framed con head (head + 8) front (g ++ h) payload (old ++ back) in
      let ws1 : Framinator Chain = record {
        con = record con { printed_circuit_board = some pcb' };
        buf = front ++ (word ++ (header_of n ++ (payload ++ (old ++ back))));
        buf_len = 1024;
        head = head;
        tail = head + 8;
        current_marker = length front;
        current_payload_len = 0;
      } in
      let whole : ws1.buf ≡ before ++ (old ++ back) = sym (
        append_assoc front (word ++ (header_of n ++ payload)) (old ++ back)
        ∙ ap (λ l. front ++ l)
            (append_assoc word (header_of n ++ payload) (old ++ back)
              ∙ ap (λ l. word ++ l) (append_assoc (header_of n) payload (old ++ back)))) in
      let size : head ≡ length before = omega (
        arith,
        offset,
        length-header_of n,
        length-append front (word ++ (header_of n ++ payload)),
        length-append (header_of n) payload,
      ) in
      let (ws2, e2, head_at, tail_at, free) =
        begin_frame-Collides lwip tcp_output ws1 script before old back whole lo size refl refl
          few in
      let even_head : padded ws ≡ ws =
        ap (λ k. record ws { head = k }) {x = u32 (head + (4 - head % 4) % 4)} {y = head}
          (omega arith) in
      let apart : too_close lwip tcp_output ws1 ≡ false = ground arith in
      (
        ws2,
        advance_head-squeezes lwip tcp_output ws script refl refl few
            ∙ squeeze-runs lwip tcp_output ws ws1 ws2 script even_head e1 apart e2,
        head_at,
        tail_at,
        free,
      )
