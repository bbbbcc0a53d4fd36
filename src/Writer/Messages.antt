-- ===== src/Writer/Messages.antt =====
-- Messages: each is one frame on the wire, and the ring is as new after it.
use c_web_socket_pico_w_test.Base.{
  ℕ, suc, ◌+◌, ◌<◌, ◌≤◌, ◌≡◌, refl, sym, ap, ◌∙◌, subst, arith, true, ◌==◌, Option, some, List, [],
  ◌∷◌, ◌++◌, map, append_assoc, append-nil, length, take, drop, length-take, length-drop,
  take-append-drop, sub32, All,
}
use c_web_socket_pico_w_test.Lwip.{Lwip, LwipLaws, Pcb}
use c_web_socket_pico_w_test.Con.{Con, Script, sent}
use c_web_socket_pico_w_test.Con.Write.Room.{Has}
use c_web_socket_pico_w_test.Frame.Rfc.{encode, wire}
use c_web_socket_pico_w_test.Writer.{buf_starting_len, tcp_snd_buf, Framinator, Put, puts, and_put}
use c_web_socket_pico_w_test.Writer.Frames.{framed, text_frame, send_len_of, header_offset-le}
use c_web_socket_pico_w_test.Writer.Rounds.{websocket_write-gathers}
use c_web_socket_pico_w_test.Writer.Send.{websocket_write, websocket_flush, initialize_framinator}
use c_web_socket_pico_w_test.Writer.Flush.{IsNew, Flushed, flush-Flushed}

module _ {Chain : Type 0} (lwip : Lwip Chain) (tcp_output : Pcb → ℕ) where
  -- A message: `websocket_write` and `websocket_flush` on a ring that is as new.
  abbrev pub send_message : ℕ → List ℕ → Framinator Chain → Script Chain → Put Chain Unit
  send_message fuel bytes ws script =
      and_put (websocket_write lwip tcp_output fuel bytes ws script)
        (λ _ ws' script'. websocket_flush lwip tcp_output ws' script')

  abbrev pub send_messages : ℕ → List (List ℕ) → Framinator Chain → Script Chain → Put Chain Unit
  send_messages fuel [] ws script = puts tt ws script
  send_messages fuel (bytes ∷ messages) ws script =
      and_put (send_message fuel bytes ws script)
        (λ _ ws' script'. send_messages fuel messages ws' script')

-- One wait for each message, which brings its acknowledgment.
abbrev pub acknowledged : {Chain : Type 0} → List (List ℕ) → Script Chain → Script Chain
acknowledged [] script = script
acknowledged (bytes ∷ messages) script =
    (sent 0 (send_len_of (length bytes)) ∷ []) ∷ acknowledged messages script

-- A message that fits in a frame and is not sent before it is complete.
abbrev pub IsSmall : List ℕ → Type 0
IsSmall bytes = (0 < length bytes) × (length bytes < 192)

module _ {Chain : Type 0} (lwip : Lwip Chain) (laws : LwipLaws lwip)
    (accepts : (pcb : Pcb) (bytes : List ℕ)
      → length bytes ≤ pcb.snd_buf
      → (lwip.tcp_write pcb bytes).0 ≡ 0)
    (tcp_output : Pcb → ℕ) (flushes : (pcb : Pcb) → tcp_output pcb ≡ 0) where
  module _ (bytes : List ℕ) (ws : Framinator Chain) (pcb : Pcb) (new : IsNew pcb ws)
      (small : IsSmall bytes) where
    -- The frame with the message, not sent yet.
    abbrev pub filled : Framinator Chain
    filled = framed ws.con (8 + length bytes) 0 [] new.gap bytes (drop (length bytes) new.back)

    pub gathered :
        (fuel : ℕ) (script : Script Chain)
        → websocket_write lwip tcp_output (suc fuel) bytes ws script ≡ puts tt filled script
    gathered fuel script =
        let n : ℕ = length bytes in
        ap (λ w. websocket_write lwip tcp_output (suc fuel) bytes w script)
          (new.shape ∙ ap (framed ws.con 8 0 [] new.gap []) (sym (take-append-drop n new.back)))
        ∙ websocket_write-gathers lwip tcp_output ws.con 8 0 [] new.gap [] bytes (take n new.back)
            (drop n new.back) (omega (arith, new.gap_len)) (omega arith) small.0
            (omega (arith, length-take n new.back, new.back_len)) (omega (arith, small.1))
            (omega (arith, small.1)) fuel script

    pub filled-Flushed :
        (script : Script Chain) (queuelen : ℕ)
        → length bytes + 4 ≤ pcb.snd_buf
        → Flushed pcb (encode (text_frame bytes)) script (
            websocket_flush lwip tcp_output filled
              ((sent queuelen (send_len_of (length bytes)) ∷ []) ∷ script))
    filled-Flushed script queuelen room =
        flush-Flushed lwip laws accepts tcp_output flushes ws.con pcb new.gap bytes
          (drop (length bytes) new.back) script queuelen new.has new.gap_len small.0
          (omega (arith, small.1, length-drop (length bytes) new.back, new.back_len))
          (omega (arith, (header_offset-le (length bytes)).0))

  send_message-Flushed :
      (fuel : ℕ) (bytes : List ℕ) (ws : Framinator Chain) (pcb : Pcb) (script : Script Chain)
      (queuelen : ℕ)
      → IsNew pcb ws
      → IsSmall bytes
      → length bytes + 4 ≤ pcb.snd_buf
      → Flushed pcb (encode (text_frame bytes)) script (
          send_message lwip tcp_output
            (suc fuel)
            bytes
            ws
            ((sent queuelen (send_len_of (length bytes)) ∷ []) ∷ script))
  send_message-Flushed fuel bytes ws pcb script queuelen new small room =
      subst (Flushed pcb (encode (text_frame bytes)) script)
        (sym (
          ap (λ r. and_put r (λ _ ws' script'. websocket_flush lwip tcp_output ws' script'))
            (gathered bytes ws pcb new small fuel
              ((sent queuelen (send_len_of (length bytes)) ∷ []) ∷ script))))
        (filled-Flushed bytes ws pcb new small script queuelen room)

  -- From a ring that is as new.
  send_messages-wire :
      (fuel : ℕ) (messages : List (List ℕ)) (ws : Framinator Chain) (pcb : Pcb)
      (script : Script Chain)
      → IsNew pcb ws
      → All IsSmall messages
      → 196 ≤ pcb.snd_buf
      → Flushed pcb
          (wire (map text_frame messages))
          script
          (send_messages lwip tcp_output (suc fuel) messages ws (acknowledged messages script))
  send_messages-wire fuel [] ws pcb script new small room =
      (ws, pcb, refl, new, sym (append-nil pcb.written), refl)
  send_messages-wire fuel (bytes ∷ messages) ws pcb script new (small, rest) room =
      let (ws1, pcb1, e1, new1, queued1, left1) =
        send_message-Flushed fuel bytes ws pcb (acknowledged messages script) 0 new small
          (omega arith) in
      let (ws2, pcb2, e2, new2, queued2, left2) =
        send_messages-wire fuel messages ws1 pcb1 script new1 rest (omega (arith, left1)) in
      (
        ws2,
        pcb2,
        ap
              (λ r.
                and_put r
                  (λ _ ws' script'. send_messages lwip tcp_output (suc fuel) messages ws' script'))
              e1
            ∙ e2,
        new2,
        queued2
            ∙ ap (λ l. l ++ wire (map text_frame messages)) queued1
            ∙ append_assoc pcb.written (encode (text_frame bytes)) (wire (map text_frame messages)),
        left2 ∙ left1,
      )

  initialize-IsNew :
      (malloc : ℕ → Option (List ℕ)) (buf : List ℕ) (con : Con Chain) (pcb : Pcb)
      (script : Script Chain)
      → malloc buf_starting_len ≡ some buf
      → length buf ≡ buf_starting_len
      → Has con pcb
      → pcb.snd_buf ≡ tcp_snd_buf
      → (ws : Framinator Chain) × (initialize_framinator malloc con script ≡ puts tt ws script)
        × IsNew pcb ws
  unfolding initialize_framinator
  initialize-IsNew malloc buf con pcb script memory size has full =
      let ws : Framinator Chain = record {
        con = con;
        buf = buf;
        buf_len = 1024;
        head = 8;
        tail = 0;
        current_marker = 0;
        current_payload_len = 0;
      } in
      let max_space : (sub32 tcp_snd_buf pcb.snd_buf == 0) ≡ true = ground (arith, full) in
      (
        ws,
        simp (initialize_framinator, has.1, max_space, memory) refl,
        record {
          gap = take 8 buf;
          back = drop 8 buf;
          shape = ap (λ b. record ws { buf = b }) (sym (take-append-drop 8 buf));
          gap_len = omega (arith, size, length-take 8 buf);
          back_len = omega (arith, size, length-drop 8 buf);
          has = has;
        },
      )

  -- From `websocket_initialize_framinator` on, messages that are written and flushed one by one go
  -- over the wire as one frame of RFC 6455 each, in their order, every call returns once its frame is
  -- acknowledged, and the ring is as new then. The send buffer is empty and `malloc` gives the memory
  -- at first, no message is empty and each has less than 192 bytes, each wait brings the acknowledgment of the
  -- frame, and `tcp_write`, for what fits, and `tcp_output` succeed.
  pub messages-wire :
      (fuel : ℕ) (messages : List (List ℕ)) (malloc : ℕ → Option (List ℕ)) (buf : List ℕ)
      (con : Con Chain) (pcb : Pcb) (script : Script Chain)
      → malloc buf_starting_len ≡ some buf
      → length buf ≡ buf_starting_len
      → Has con pcb
      → pcb.snd_buf ≡ tcp_snd_buf
      → All IsSmall messages
      → Flushed pcb (wire (map text_frame messages)) script (
          and_put
            (initialize_framinator malloc con (acknowledged messages script))
            (λ _ ws script'. send_messages lwip tcp_output (suc fuel) messages ws script'))
  messages-wire fuel messages malloc buf con pcb script memory size has full small =
      let (ws, e, new) =
        initialize-IsNew malloc buf con pcb (acknowledged messages script) memory size has full in
      subst (Flushed pcb (wire (map text_frame messages)) script)
        (sym (
          ap
            (λ r.
              and_put r
                (λ _ ws' script'. send_messages lwip tcp_output (suc fuel) messages ws' script'))
            e))
        (send_messages-wire fuel messages ws pcb script new small (omega (arith, full)))
