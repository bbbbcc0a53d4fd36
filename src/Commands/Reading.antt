-- ===== src/Commands/Reading.antt =====
-- The answer to the command `b`.
use c_web_socket_pico_w_test.Base.{
  ℕ, suc, ◌+◌, ◌<◌, ◌≤◌, ◌^◌, ◌≡◌, refl, ap, ◌∙◌, arith, List, All, [], ◌∷◌, ◌++◌, length, get_or,
  drop,
}
use c_web_socket_pico_w_test.Lwip.{Lwip, LwipLaws, Pcb}
use c_web_socket_pico_w_test.Con.{Script, sent}
use c_web_socket_pico_w_test.Frame.Rfc.{encode}
use c_web_socket_pico_w_test.Handshake.Reply.{decimal}
use c_web_socket_pico_w_test.Handshake.Reply.Decimal.{
  IsDigit, decimal-AllDigits, numeral, numeral-decimal, length-decimal,
}
use c_web_socket_pico_w_test.Writer.{Framinator, puts}
use c_web_socket_pico_w_test.Writer.Send.{websocket_write}
use c_web_socket_pico_w_test.Writer.Frames.{text_frame, send_len_of}
use c_web_socket_pico_w_test.Writer.Flush.{IsNew}
use c_web_socket_pico_w_test.Writer.Messages.{IsSmall, filled, gathered, filled-Flushed}
use c_web_socket_pico_w_test.Commands.{Session, Served, serving, send_reading, obey}

-- The reading that comes next.
abbrev pub reading : {Chain : Type 0} → Session Chain → ℕ
reading s = get_or s.board.readings 0 0

module _ {Chain : Type 0} (lwip : Lwip Chain) (laws : LwipLaws lwip)
    (accepts : (pcb : Pcb) (bytes : List ℕ)
      → length bytes ≤ pcb.snd_buf
      → (lwip.tcp_write pcb bytes).0 ≡ 0)
    (tcp_output : Pcb → ℕ) (flushes : (pcb : Pcb) → tcp_output pcb ≡ 0) where
  -- The loop goes on with a ring that is as new, and one frame is queued: decimal digits, for `n`.
  abbrev pub Replied : ℕ → Pcb → Script Chain → Served Chain → Type 0
  Replied n pcb script t =
      (s' : Session Chain) × (pcb' : Pcb) × (digits : List ℕ) × (t ≡ serving s' script)
      × All IsDigit digits
      × (numeral 0 digits ≡ n)
      × (pcb'.written ≡ pcb.written ++ encode (text_frame digits))
      × IsNew pcb' s'.writer
      × (s'.reader.con ≡ s'.writer.con)

  -- The command `b` is answered by one message, the decimal digits of the reading, and the loop goes
  -- on once it is acknowledged. The ring is as new before and after. The frame fits in the send
  -- buffer, the next wait brings its acknowledgment, and `tcp_write` and `tcp_output` succeed; the
  -- digits fit in `number_str`.
  pub obey-Replied :
      (s : Session Chain) (pcb : Pcb) (script : Script Chain)
      → IsNew pcb (record s.writer { con = s.reader.con })
      → reading s < 10 ^ 9
      → 14 ≤ pcb.snd_buf
      → Replied (reading s) pcb script (
          obey lwip tcp_output b'b' s
            ((sent 0 (send_len_of (length (decimal 10 (reading s)))) ∷ []) ∷ script))
  unfolding obey send_reading
  obey-Replied s pcb script new few room =
      let digits : List ℕ = decimal 10 (reading s) in
      let size = length-decimal 10 (reading s) (omega arith) in
      let ws : Framinator Chain = record s.writer { con = s.reader.con } in
      let events : Script Chain = (sent 0 (send_len_of (length digits)) ∷ []) ∷ script in
      let small : IsSmall digits = (size.0, omega (arith, size.1)) in
      let e1 : websocket_write lwip tcp_output (length digits + length events + 1) digits ws events
          ≡ puts tt (filled lwip laws accepts tcp_output flushes digits ws pcb new small) events =
        ap (λ k. websocket_write lwip tcp_output k digits ws events)
          {x = length digits + length events + 1} {y = suc (length digits + length events)}
          (omega arith)
        ∙ gathered lwip laws accepts tcp_output flushes digits ws pcb new small
            (length digits + length events) events in
      let (ws2, pcb2, e2, new2, queued, left) =
        filled-Flushed lwip laws accepts tcp_output flushes digits ws pcb new small script 0
          (omega (arith, size.1)) in
      (
        record s {
          board = record s.board { readings = drop 1 s.board.readings };
          writer = ws2;
          reader = record s.reader { con = ws2.con };
        },
        pcb2,
        digits,
        rw (obey, send_reading, e1, e2) refl,
        decimal-AllDigits 10 (reading s),
        numeral-decimal (reading s) (omega arith),
        queued,
        new2,
        refl,
      )
