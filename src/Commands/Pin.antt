-- ===== src/Commands/Pin.antt =====
-- What the commands of the peer do to the pin.
use c_web_socket_pico_w_test.Base.{
  ℕ, suc, ◌+◌, ◌≡◌, ◌≢◌, refl, sym, subst, ap, ◌∙◌, arith, Bool, true, false, not, ◌==◌,
  if◌then◌else◌, Bool-cases, inl, inr, List, [], ◌∷◌, ◌++◌, append_assoc, append-nil, length, take,
  drop, All,
}
use c_web_socket_pico_w_test.Lwip.{Lwip, LwipLaws, Pcb}
use c_web_socket_pico_w_test.Con.{Script}
use c_web_socket_pico_w_test.Con.Calm.{stream}
use c_web_socket_pico_w_test.Con.Quiet.{queued, Keeps, queued-Keeps, Keeps-queued}
use c_web_socket_pico_w_test.Frame.Quiet.{KeepsRun, websocket_read-Keeps}
use c_web_socket_pico_w_test.Frame.{Framer, ok, websocket_read}
use c_web_socket_pico_w_test.Frame.Rfc.{Frame, delivered}
use c_web_socket_pico_w_test.Frame.Payload.{At}
use c_web_socket_pico_w_test.Frame.Messages.{websocket_read-content}
use c_web_socket_pico_w_test.Commands.{
  Session, Served, serving, and_serving, put_pin, print_char, obey, serve,
}

-- The pin after a command, and after a list of them.
abbrev pub pin_after : ℕ → Bool → Bool
pin_after command pin =
    if command == b'1'
    then true
    else if command == b'0'
    then false
    else if command == b'2'
    then not pin
    else pin

abbrev pub pin_after_all : List ℕ → Bool → Bool
pin_after_all [] pin = pin
pin_after_all (c ∷ commands) pin = pin_after_all commands (pin_after c pin)

module _ {Chain : Type 0} (lwip : Lwip Chain) (tcp_output : Pcb → ℕ) where
  obey-pin :
      (command : ℕ) (s : Session Chain) (script : Script Chain)
      → command ≢ b'b'
      → obey lwip tcp_output command s script
        ≡ serving (put_pin (pin_after command s.board.gpio11) s) script
  unfolding obey
  obey-pin command s script other = elim (Bool-cases (command == b'1')) [
    | inl one ↦ rw one refl
    | inr not_one ↦ elim (Bool-cases (command == b'0')) [
      | inl zero_ ↦ rw (not_one, zero_) refl
      | inr not_zero ↦ elim (Bool-cases (command == b'2')) [
        | inl two ↦ rw (not_one, not_zero, two) refl
        | inr not_two ↦
            let not_b : (command == b'b') ≡ false = ground arith in
            rw (not_one, not_zero, not_two, not_b) refl
      ]
    ]
  ]

  serve-next :
      (n : ℕ) (command : ℕ) (s : Session Chain) (reader : Framer Chain)
      (script script1 : Script Chain)
      → command ≢ b'b'
      → websocket_read lwip (length (stream lwip s.reader.con script) + 1) 0 1 s.reader script
        ≡ ok (command ∷ []) reader script1
      → serve lwip tcp_output (suc n) s script
        ≡ serve lwip tcp_output n
            (print_char command
              (put_pin (pin_after command s.board.gpio11) (record s { reader = reader })))
            script1
  unfolding serve
  serve-next n command s reader script script1 other e =
      rw (serve, e)
        (ap
          (λ r.
            and_serving r (λ s2 script2. serve lwip tcp_output n (print_char command s2) script2))
          (obey-pin command (record s { reader = reader }) script1 other))

module _ {Chain : Type 0} (lwip : Lwip Chain) (laws : LwipLaws lwip) (tcp_output : Pcb → ℕ) where
  -- The commands were obeyed, `more` is still to come, and nothing was sent.
  abbrev pub Obeyed : List ℕ → List ℕ → Session Chain → Served Chain → Type 0
  Obeyed commands more s t =
      (s' : Session Chain) × (script' : Script Chain) × (current : List ℕ) × (fs : List Frame) × (t
        ≡ serving s' script')
      × (s'.board.gpio11 ≡ pin_after_all commands s.board.gpio11)
      × (s'.board.printed ≡ s.board.printed ++ commands)
      × (queued s'.reader.con ≡ queued s.reader.con)
      × (s'.writer ≡ s.writer)
      × (current ++ delivered s'.reader.read_last_op fs ≡ more)
      × At lwip s'.reader script' current fs

  -- The pin goes by the commands that the peer sends in its text and data messages, in their order,
  -- however it cuts them into frames, masks these and mixes them with others, and however TCP cuts
  -- the frames: `1` sets it, `0` clears it, `2` toggles it, and others leave it. Each command is
  -- printed, and TCP is given nothing to send. The commands are other than `b`, the connection stays open, the
  -- bytes will all come, and no control frame stands within a message.
  pub serve-Obeyed :
      (commands more current : List ℕ) (fs : List Frame) (s : Session Chain) (script : Script Chain)
      → All (λ c. c ≢ b'b') commands
      → At lwip s.reader script current fs
      → current ++ delivered s.reader.read_last_op fs ≡ commands ++ more
      → Obeyed commands more s (serve lwip tcp_output (length commands) s script)
  unfolding serve
  serve-Obeyed [] more current fs s script others at content = (
    s,
    script,
    current,
    fs,
    refl,
    refl,
    sym (append-nil s.board.printed),
    refl,
    refl,
    content,
    at,
  )
  serve-Obeyed (c ∷ commands) more current fs s script (other, others) at content =
      let (reader, script1, current1, fs1, e, left, at1) =
        websocket_read-content lwip laws (length (stream lwip s.reader.con script) + 1) 0 1 current
          fs s.reader script (omega arith) (omega arith) at (omega (arith, ap length content)) in
      let got : websocket_read lwip (length (stream lwip s.reader.con script) + 1) 0 1 s.reader
            script
          ≡ ok (c ∷ []) reader script1 =
        e ∙ ap (λ l. ok (take 1 l) reader script1) content in
      let read_only : Keeps (queued s.reader.con) reader.con =
        subst (KeepsRun (queued s.reader.con)) got (
          websocket_read-Keeps lwip (queued s.reader.con)
            (length (stream lwip s.reader.con script) + 1) 0 1 s.reader script
            (queued-Keeps s.reader.con)) in
      let (no_err, (pcb, held)) = at1.on.1 in
      let quiet : queued reader.con ≡ queued s.reader.con =
        Keeps-queued (queued s.reader.con) reader.con pcb held read_only in
      let s1 : Session Chain =
        print_char c (put_pin (pin_after c s.board.gpio11) (record s { reader = reader })) in
      let (s2, script2, current2, fs2, e2, pin, printed, silent, same, content2, at2) =
        serve-Obeyed commands more current1 fs1 s1 script1 others at1
          (left ∙ ap (drop 1) content) in
      (
        s2,
        script2,
        current2,
        fs2,
        serve-next lwip tcp_output (length commands) c s reader script script1 other got ∙ e2,
        pin,
        printed ∙ append_assoc s.board.printed (c ∷ []) commands,
        silent ∙ quiet,
        same,
        content2,
        at2,
      )
