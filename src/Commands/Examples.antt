-- ===== src/Commands/Examples.antt =====
-- Commands in frames, and a reading that is asked for.
use c_web_socket_pico_w_test.Base.{
  ℕ, refl, arith, true, false, none, some, List, [], ◌∷◌, codes, length, replicate,
}
use c_web_socket_pico_w_test.Lwip.{Pcb, content}
use c_web_socket_pico_w_test.Lwip.Pieces.{flat, fours, fours-LwipLaws, fours-accepts}
use c_web_socket_pico_w_test.Con.{Con, Script, recv, sent}
use c_web_socket_pico_w_test.Mask.Bytewise.{masked}
use c_web_socket_pico_w_test.Frame.Rfc.{Frame, wire}
use c_web_socket_pico_w_test.Frame.Payload.{At}
use c_web_socket_pico_w_test.Handshake.Reply.{decimal}
use c_web_socket_pico_w_test.Writer.{tcp_snd_buf}
use c_web_socket_pico_w_test.Writer.Frames.{framed, send_len_of}
use c_web_socket_pico_w_test.Writer.Flush.{IsNew}
use c_web_socket_pico_w_test.Commands.{Session, serve, obey}
use c_web_socket_pico_w_test.Commands.Pin.{Obeyed, serve-Obeyed}
use c_web_socket_pico_w_test.Commands.Reading.{Replied, obey-Replied}

abbrev full_pcb : Pcb
full_pcb = record { snd_buf = tcp_snd_buf; snd_queuelen = 0; written = []; recved = 0 }

abbrev con0 : Con (List ℕ)
con0 = record {
  printed_circuit_board = some full_pcb;
  p_current = none;
  recved_current = 0;
  notify_ack = false;
  active_err = 0;
}

abbrev session : Session (List ℕ)
session = record {
  reader = record { con = con0; read_length = 0; read_mask = 0; read_last_op = 0 };
  writer = framed con0 8 0 [] (replicate 8 0) [] (replicate 1016 0);
  board = record { gpio11 = false; readings = 1023 ∷ []; printed = [] };
}

-- On, toggle, toggle; and the fourth command is still to come.
abbrev frames : List Frame
frames =
    record { fin = true; opcode = 1; key = some 0x0102_0304; payload = codes "12" }
    ∷ record { fin = true; opcode = 2; key = none; payload = codes "20" }
    ∷ []

abbrev script : Script (List ℕ)
script = (recv (some (wire frames)) false ∷ []) ∷ []

frames-At : At fours session.reader script [] frames
unfolding masked content fours flat
frames-At = record {
  measured = refl;
  current_bytes = tt;
  key_word = omega arith;
  frames = ground arith;
  on = (refl, (refl, (_, refl)), ((refl, tt), tt));
}

serve-Obeyed_example :
    Obeyed fours fours-LwipLaws
      (λ _. 0)
      (codes "122")
      (codes "0")
      session
      (serve fours (λ _. 0) 3 session script)
unfolding content fours flat masked
serve-Obeyed_example =
    serve-Obeyed fours fours-LwipLaws (λ _. 0) (codes "122") (codes "0") [] frames session script
      (omega arith) frames-At refl

session-IsNew : IsNew full_pcb session.writer
session-IsNew = record {
  gap = replicate 8 0;
  back = replicate 1016 0;
  shape = refl;
  gap_len = refl;
  back_len = refl;
  has = (refl, refl);
}

obey-Replied_example :
    Replied fours fours-LwipLaws fours-accepts
      (λ _. 0)
      (λ _. refl)
      1023
      full_pcb
      []
      (obey fours
        (λ _. 0)
        b'b'
        session
        ((sent 0 (send_len_of (length (decimal 10 1023))) ∷ []) ∷ []))
obey-Replied_example =
    obey-Replied fours fours-LwipLaws fours-accepts (λ _. 0) (λ _. refl) session full_pcb []
      session-IsNew (omega arith) (omega arith)
