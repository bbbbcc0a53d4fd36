-- ===== src/Writer/Flush.antt =====
-- `websocket_flush`: what the frame holds is sent, and the ring is as new when that is acknowledged.
use c_web_socket_pico_w_test.Base.{
  ℕ, ◌+◌, ◌-◌, ◌<◌, ◌≤◌, ◌≡◌, refl, sym, ap, ◌∙◌, subst, arith, Bool, true, false, not, ltb, ◌==◌,
  some, List, [], ◌∷◌, ◌++◌, append_assoc, append-nil, ==_self, length, length-append, take, drop,
  length-take, length-drop, take-append-drop, u16, sub32, All,
}
use c_web_socket_pico_w_test.Lwip.{Lwip, LwipLaws, Pcb}
use c_web_socket_pico_w_test.Con.{Con, Script, sent, callback, con_sent}
use c_web_socket_pico_w_test.Con.Write.Room.{Has}
use c_web_socket_pico_w_test.Frame.Rfc.{encode}
use c_web_socket_pico_w_test.Writer.{
  Framinator, Put, puts, acked, store, bytes32, marker, frame_start, header_of, header_offset, ack,
  ack_events,
}
use c_web_socket_pico_w_test.Writer.Memory.{store-at}
use c_web_socket_pico_w_test.Writer.Markers.{Sent, IsSent, in_memory, total, ack-frames}
use c_web_socket_pico_w_test.Writer.Frames.{
  framed, text_frame, send_len_of, completed, complete-sends, length-header_of, header_offset-le,
}
use c_web_socket_pico_w_test.Writer.Send.{
  deliver, await_ack, begin_frame, complete_and_send_frame, websocket_flush,
}

framed_back :
    (word skip header payload back : List ℕ)
    → (word ++ ((skip ++ (header ++ payload)) ++ [])) ++ back
      ≡ word ++ (skip ++ (header ++ (payload ++ back)))
framed_back word skip header payload back =
    ap (λ l. (word ++ l) ++ back) (append-nil (skip ++ (header ++ payload)))
    ∙ append_assoc word (skip ++ (header ++ payload)) back
    ∙ ap (λ l. word ++ l)
        (append_assoc skip (header ++ payload) back
          ∙ ap (λ l. skip ++ l) (append_assoc header payload back))

-- The ring as `websocket_initialize_framinator` and `websocket_flush` leave it, on a connection with
-- this control block.
pub record IsNew {Chain : Type 0} (pcb : Pcb) (ws : Framinator Chain) : Type 0 where
  pub gap : List ℕ
  pub back : List ℕ
  pub shape : ws ≡ framed ws.con 8 0 [] gap [] back
  pub gap_len : length gap ≡ 8
  pub back_len : length back ≡ 1016
  pub has : Has ws.con pcb

module _ {Chain : Type 0} (lwip : Lwip Chain) (tcp_output : Pcb → ℕ) where
  pub await_ack-over :
      (test : Framinator Chain → Bool) (ws : Framinator Chain) (script : Script Chain)
      → test ws ≡ false
      → await_ack lwip tcp_output test ws script ≡ puts tt ws script
  unfolding await_ack
  await_ack-over test ws [] e = rw e refl
  await_ack-over test ws (es ∷ script) e = rw e refl

  -- One wait, for one acknowledgment.
  await_ack-sent :
      (test : Framinator Chain → Bool) (ws : Framinator Chain) (script : Script Chain)
      (queuelen room tail : ℕ)
      → test ws ≡ true
      → ws.con.active_err ≡ 0
      → ack (u16 room) ws ≡ acked (record ws { tail = tail })
      → let ws' = record ws {
        con = record (con_sent lwip queuelen room ws.con) { notify_ack = false };
        tail = tail;
      } in
        test ws' ≡ false
        → await_ack lwip tcp_output test ws ((sent queuelen room ∷ []) ∷ script)
          ≡ puts tt ws' script
  unfolding await_ack deliver ack_events callback con_sent
  await_ack-sent test ws script queuelen room tail on quiet e over =
      let awake : (ws.con.active_err == 0) ≡ true = ap (λ n. n == 0) quiet in
      rw (await_ack, on, e, awake) (await_ack-over test _ script over)

  flush-runs :
      (ws ws1 ws2 ws3 : Framinator Chain) (script script1 script2 script3 : Script Chain)
      → 0 < ws.current_payload_len
      → complete_and_send_frame lwip tcp_output ws script ≡ puts tt ws1 script1
      → await_ack lwip tcp_output (λ w. not (w.tail == w.head)) ws1 script1 ≡ puts tt ws2 script2
      → begin_frame lwip tcp_output 0 frame_start (record ws2 { tail = 0 }) script2
        ≡ puts tt ws3 script3
      → websocket_flush lwip tcp_output ws script ≡ puts tt ws3 script3
  unfolding websocket_flush
  flush-runs ws ws1 ws2 ws3 script script1 script2 script3 h e1 e2 e3 =
      let filled : ltb 0 ws.current_payload_len ≡ true = ground arith in
      rw (websocket_flush, filled, e1, e2, e3) refl

  begin_frame-at :
      (old back : List ℕ) (ws : Framinator Chain) (script : Script Chain)
      → ws.buf ≡ old ++ back
      → length old ≡ 4
      → begin_frame lwip tcp_output 0 frame_start ws script
        ≡ puts tt
            (record ws { buf = bytes32 0 ++ back; head = frame_start; current_marker = 0 })
            script
  unfolding begin_frame
  begin_frame-at old back ws script whole four =
      let stored : store ws.buf 0 (bytes32 0) ≡ some (bytes32 0 ++ back) =
        ap (λ b. store b 0 (bytes32 0)) whole ∙ store-at [] old (bytes32 0) back 0 refl four in
      rw (begin_frame, stored) refl

-- The frame is queued, and once it is acknowledged the ring is as new.
abbrev pub Flushed : {Chain : Type 0} → Pcb → List ℕ → Script Chain → Put Chain Unit → Type 0
Flushed {Chain} pcb bytes script t =
    (ws' : Framinator Chain) × (pcb' : Pcb) × (t ≡ puts tt ws' script)
    × IsNew pcb' ws'
    × (pcb'.written ≡ pcb.written ++ bytes)
    × (pcb'.snd_buf ≡ pcb.snd_buf)

module _ {Chain : Type 0} (lwip : Lwip Chain) (laws : LwipLaws lwip)
    (accepts : (pcb : Pcb) (bytes : List ℕ)
      → length bytes ≤ pcb.snd_buf
      → (lwip.tcp_write pcb bytes).0 ≡ 0)
    (tcp_output : Pcb → ℕ) (flushes : (pcb : Pcb) → tcp_output pcb ≡ 0) where
  module _ (con : Con Chain) (pcb : Pcb) (g skip h payload back : List ℕ) (script : Script Chain)
      (queuelen : ℕ) (four : length g ≡ 4) (off : 4 + length skip ≡ header_offset (length payload))
      (rest : length h + header_offset (length payload) ≡ frame_start) (has : Has con pcb)
      (positive : 0 < length payload) (fits : length payload + length back ≡ 1016)
      (room : send_len_of (length payload) ≤ pcb.snd_buf) where
    abbrev n : ℕ
    n = length payload

    abbrev tail_bytes : List ℕ
    tail_bytes = skip ++ (header_of n ++ (payload ++ back))

    abbrev frame : Sent
    frame = record {
      send_len = send_len_of n;
      scratch = sub32 (sub32 (8 + n) 0) (send_len_of n);
      body = skip ++ (header_of n ++ payload);
    }

    body_len : length frame.body + 4 ≡ 8 + n
    body_len = omega (
      arith,
      off,
      length-header_of n,
      (header_offset-le n).1,
      length-append skip (header_of n ++ payload),
      length-append (header_of n) payload,
    )

    scratch-is : frame.scratch ≡ header_offset n
    scratch-is = omega (arith, (header_offset-le n).0, (header_offset-le n).1, fits)

    frame-IsSent : All IsSent (frame ∷ [])
    frame-IsSent = (
      (
        omega (arith, (header_offset-le n).1),
        omega (arith, (header_offset-le n).0, fits),
        omega (arith, scratch-is, (header_offset-le n).1),
        omega (arith, scratch-is, body_len, (header_offset-le n).1),
      ),
      tt,
    )

    in_place :
        in_memory (frame ∷ []) ++ back ≡ bytes32 (marker frame.scratch frame.send_len) ++ tail_bytes
    in_place =
        framed_back (bytes32 (marker frame.scratch frame.send_len)) skip (header_of n) payload back

    abbrev completed_at : Pcb → Framinator Chain
    completed_at =
        completed lwip laws accepts tcp_output flushes con pcb (8 + n) 0 [] g skip h payload back
          four off rest

    acknowledged :
        (pcb1 : Pcb)
        → ack (u16 (send_len_of n)) (completed_at pcb1)
          ≡ acked (record (completed_at pcb1) { tail = 8 + n })
    acknowledged pcb1 =
        let word : List ℕ = bytes32 (marker frame.scratch frame.send_len) in
        let whole : word ++ tail_bytes ≡ in_memory (frame ∷ []) ++ back = sym in_place in
        let end : length (in_memory (frame ∷ [])) ≡ 8 + n =
          omega (arith, body_len, length-append frame.body []) in
        ap (λ k. ack k (completed_at pcb1)) {x = u16 (send_len_of n)} {y = total (frame ∷ [])}
          (omega (arith, fits, (header_offset-le n).1))
        ∙ ack-frames [] back (frame ∷ []) (completed_at pcb1) frame-IsSent refl whole
            (omega (arith, ap length whole, end, fits, length-append (in_memory (frame ∷ [])) back))
        ∙ ap (λ k. acked (record (completed_at pcb1) { tail = k }))
            {x = 0 + length (in_memory (frame ∷ []))} {y = 8 + n} (omega (arith, end))

    parts-Flushed : Flushed pcb (encode (text_frame payload)) script (
        websocket_flush lwip tcp_output
          (framed con (8 + n) 0 [] (g ++ (skip ++ h)) payload back)
          ((sent queuelen (send_len_of n) ∷ []) ∷ script))
    unfolding con_sent
    parts-Flushed =
        let events : Script Chain = (sent queuelen (send_len_of n) ∷ []) ∷ script in
        let (pcb1, e1, queued, left) =
          complete-sends lwip laws accepts tcp_output flushes con pcb (8 + n) 0 [] g skip h payload
            back four off rest events has (omega (arith, fits)) room in
        let ws1 : Framinator Chain = completed_at pcb1 in
        let waits : not (0 == 8 + n) ≡ true = ground arith in
        let over : not (8 + n == 8 + n) ≡ false = ap not (==_self (8 + n)) in
        let e2 =
          await_ack-sent lwip tcp_output (λ w. not (w.tail == w.head)) ws1 script queuelen
            (send_len_of n) (8 + n) waits has.0 (acknowledged pcb1) over in
        let con3 : Con Chain = record (con_sent lwip queuelen (send_len_of n) ws1.con) {
          notify_ack = false;
        } in
        let ws2 : Framinator Chain = record ws1 { con = con3; tail = 8 + n } in
        let ws3 : Framinator Chain = record ws2 {
          buf = bytes32 0 ++ tail_bytes;
          head = 8;
          tail = 0;
          current_marker = 0;
        } in
        let e3 : begin_frame lwip tcp_output 0 frame_start (record ws2 { tail = 0 }) script
            ≡ puts tt ws3 script =
          begin_frame-at lwip tcp_output (bytes32 (marker frame.scratch frame.send_len)) tail_bytes
            (record ws2 { tail = 0 }) script refl refl in
        (
          ws3,
          record pcb1 { snd_buf = pcb1.snd_buf + send_len_of n; snd_queuelen = queuelen },
          flush-runs lwip tcp_output (framed con (8 + n) 0 [] (g ++ (skip ++ h)) payload back) ws1
              ws2 ws3 events events script script positive e1 e2 e3,
          record {
            gap = bytes32 0 ++ (skip ++ header_of n);
            back = payload ++ back;
            shape =
                ap (λ b. record ws3 { buf = b })
                  (ap (λ l. bytes32 0 ++ l)
                    (sym (append_assoc skip (header_of n) (payload ++ back))));
            gap_len = omega (
              arith,
              off,
              length-header_of n,
              (header_offset-le n).1,
              length-append skip (header_of n),
            );
            back_len = omega (arith, fits, length-append payload back);
            has = (has.0, refl);
          },
          queued,
          left,
        )

  -- `websocket_flush` sends what the frame holds, as one frame of RFC 6455, and when that is
  -- acknowledged the ring is as new.
  pub flush-Flushed :
      (con : Con Chain) (pcb : Pcb) (gap payload back : List ℕ) (script : Script Chain)
      (queuelen : ℕ)
      → Has con pcb
      → length gap ≡ 8
      → 0 < length payload
      → length payload + length back ≡ 1016
      → send_len_of (length payload) ≤ pcb.snd_buf
      → Flushed pcb (encode (text_frame payload)) script (
          websocket_flush lwip tcp_output
            (framed con (8 + length payload) 0 [] gap payload back)
            ((sent queuelen (send_len_of (length payload)) ∷ []) ∷ script))
  flush-Flushed con pcb gap payload back script queuelen has eight positive fits room =
      let n : ℕ = length payload in
      let g : List ℕ = take 4 gap in
      let skip : List ℕ = take (header_offset n - 4) (drop 4 gap) in
      let h : List ℕ = drop (header_offset n - 4) (drop 4 gap) in
      let parts : g ++ (skip ++ h) ≡ gap =
        ap (λ l. g ++ l) (take-append-drop (header_offset n - 4) (drop 4 gap))
        ∙ take-append-drop 4 gap in
      let o = header_offset-le n in
      let four : length g ≡ 4 = omega (arith, length-take 4 gap) in
      let off : 4 + length skip ≡ header_offset n =
        omega
          (arith, o.0, o.1, length-drop 4 gap, length-take (header_offset n - 4) (drop 4 gap)) in
      let rest : length h + header_offset n ≡ frame_start =
        omega
          (arith, o.0, o.1, length-drop 4 gap, length-drop (header_offset n - 4) (drop 4 gap)) in
      subst
        (λ l. Flushed pcb (encode (text_frame payload)) script (
          websocket_flush lwip tcp_output (framed con (8 + n) 0 [] l payload back)
            ((sent queuelen (send_len_of n) ∷ []) ∷ script)))
        parts
        (parts-Flushed con pcb g skip h payload back script queuelen four off rest has positive fits
          room)
