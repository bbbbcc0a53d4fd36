-- ===== src/Commands.antt =====
-- testing.c, the loop of `do_ws_header` on the commands that come in websocket frames: a pin is set,
-- cleared or toggled, or a reading of the ADC goes back as a message.
pub mod Pin
pub mod Reading
mod Examples
use c_web_socket_pico_w_test.Base.{
  ℕ, zero, suc, ◌+◌, Bool, true, false, not, ◌==◌, if◌then◌else◌, List, [], ◌∷◌, ◌++◌, length, drop,
  get_or,
}
use c_web_socket_pico_w_test.Lwip.{Lwip, Pcb}
use c_web_socket_pico_w_test.Con.{Con, Script}
use c_web_socket_pico_w_test.Con.Calm.{stream}
use c_web_socket_pico_w_test.Frame.{
  Framer, Run, ok, fails, suspended, unread, starved, websocket_read,
}
use c_web_socket_pico_w_test.Handshake.Reply.{decimal}
use c_web_socket_pico_w_test.Writer.{Framinator, Put, puts, gives_up, stalled, invalid, spinning}
use c_web_socket_pico_w_test.Writer.Send.{websocket_write, websocket_flush}

-- What the loop sees of the board: GPIO 11, the readings of the ADC that are still to come, and the
-- characters that `printf` got.
pub record Board : Type 0 where
  pub gpio11 : Bool
  pub readings : List ℕ
  pub printed : List ℕ

-- The framinator in its two halves; both hold the connection.
pub record Session (Chain : Type 0) : Type 0 where
  pub reader : Framer Chain
  pub writer : Framinator Chain
  pub board : Board

-- How a part of the loop ends: it goes on; with the error that `do_ws_header` returns; while it
-- waits; by an access that is not allowed or in a loop without an end.
pub data Served (Chain : Type 0) : Type 0 where
  serving : Session Chain → Script Chain → Served Chain
  ended : ℕ → Session Chain → Script Chain → Served Chain
  waiting_for : Session Chain → Served Chain
  broken : Served Chain

abbrev pub and_serving :
    {Chain : Type 0} → Served Chain → (Session Chain → Script Chain → Served Chain) → Served Chain
and_serving (serving s script) f = f s script
and_serving (ended code s script) f = ended code s script
and_serving (waiting_for s) f = waiting_for s
and_serving broken f = broken

-- The writer is done, its result dropped; the reader goes on with the connection as it is now.
abbrev pub after_write :
    {Chain : Type 0}
    → Session Chain
    → Put Chain Unit
    → (Session Chain → Script Chain → Served Chain)
    → Served Chain
after_write s (puts _ ws script) f =
    f (record s { writer = ws; reader = record s.reader { con = ws.con } }) script
after_write s (gives_up code ws script) f =
    f (record s { writer = ws; reader = record s.reader { con = ws.con } }) script
after_write s (stalled ws) f = waiting_for (record s { writer = ws })
after_write s invalid f = broken
after_write s spinning f = broken

-- `gpio_put(11, …)`.
abbrev pub put_pin : {Chain : Type 0} → Bool → Session Chain → Session Chain
put_pin b s = record s { board = record s.board { gpio11 = b } }

-- `printf("%c", command)`.
abbrev pub print_char : {Chain : Type 0} → ℕ → Session Chain → Session Chain
print_char c s = record s { board = record s.board { printed = s.board.printed ++ c ∷ [] } }

module _ {Chain : Type 0} (lwip : Lwip Chain) (tcp_output : Pcb → ℕ) where
  -- A reading is sent: `sprintf`, `websocket_write`, `websocket_flush`.
  unfoldable pub send_reading : Session Chain → Script Chain → Served Chain
  send_reading s script =
      let number_str = decimal 10 (get_or s.board.readings 0 0) in
      let s1 = record s { board = record s.board { readings = drop 1 s.board.readings } } in
      after_write s1
        (websocket_write lwip tcp_output (length number_str + length script + 1) number_str
          (record s1.writer { con = s1.reader.con }) script)
        (λ s2 script2.
          after_write s2 (websocket_flush lwip tcp_output s2.writer script2)
            (λ s3 script3. serving s3 script3))

  -- The chain of `if` on a command.
  unfoldable pub obey : ℕ → Session Chain → Script Chain → Served Chain
  obey command s script =
      if command == b'1'
      then serving (put_pin true s) script
      else if command == b'0'
      then serving (put_pin false s) script
      else if command == b'2'
      then serving (put_pin (not s.board.gpio11) s) script
      else if command == b'b'
      then send_reading s script
      else serving s script

  -- `while (true)`, as far as `n` commands. All that is written is flushed before the next read, so
  -- no acknowledgment moves the ring meanwhile; `websocket_read` has more rounds than bytes to come.
  unfoldable pub serve : ℕ → Session Chain → Script Chain → Served Chain
  serve zero s script = serving s script
  serve (suc n) s script =
      elim (websocket_read lwip (length (stream lwip s.reader.con script) + 1) 0 1 s.reader
        script) [
          | ok bytes reader script1 ↦
              let command = get_or bytes 0 0 in
              and_serving (obey command (record s { reader = reader }) script1)
                (λ s2 script2. serve n (print_char command s2) script2)
          | fails code reader script1 ↦ ended code (record s { reader = reader }) script1
          | suspended reader ↦ waiting_for (record s { reader = reader })
          | unread ↦ broken
          | starved ↦ broken
        ]
