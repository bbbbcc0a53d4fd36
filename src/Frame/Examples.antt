-- ===== src/Frame/Examples.antt =====
-- The frames of RFC 6455, section 5.7: "Hello" masked, and unmasked in two fragments.
use c_web_socket_pico_w_test.Base.{
  ℕ, ◌≡◌, refl, arith, true, false, none, some, List, [], ◌∷◌, ◌++◌, codes, take, drop, replicate,
}
use c_web_socket_pico_w_test.Lwip.{content}
use c_web_socket_pico_w_test.Lwip.Pieces.{Chain, pieces, pieces-LwipLaws}
use c_web_socket_pico_w_test.Con.{
  recv, Con, Script, read, announce, callback, callbacks, con_recv, behind, t_read,
}
use c_web_socket_pico_w_test.Mask.{apply_mask}
use c_web_socket_pico_w_test.Mask.Bytewise.{masked}
use c_web_socket_pico_w_test.Frame.{
  Framer, Run, ok, fails, and_then, t_read8, skip, opcode_of, last_op_of, read_payload_length,
  read_key, next_frame, read_payload, websocket_read,
}
use c_web_socket_pico_w_test.Con.Calm.{stream, On}
use c_web_socket_pico_w_test.Frame.Rfc.{Frame, encode, wire, delivers, rfc_after}
use c_web_socket_pico_w_test.Frame.Payload.{At}
use c_web_socket_pico_w_test.Frame.Messages.{Gives, websocket_read-content}
use c_web_socket_pico_w_test.Frame.Faults.{websocket_read-negative, next_frame-interrupted}

abbrev masked_hello : Frame
masked_hello = record { fin = true; opcode = 1; key = some 1025636919; payload = codes "Hello" }

abbrev first_part : Frame
first_part = record { fin = false; opcode = 1; key = none; payload = codes "Hel" }

abbrev last_part : Frame
last_part = record { fin = true; opcode = 0; key = none; payload = codes "lo" }

abbrev ping : Frame
ping = record { fin = true; opcode = 9; key = none; payload = [] }

abbrev hello_wire :
    encode masked_hello
    ≡ 0x81 ∷ 0x85 ∷ 0x37 ∷ 0xfa ∷ 0x21 ∷ 0x3d ∷ 0x7f ∷ 0x9f ∷ 0x4d ∷ 0x51 ∷ 0x58 ∷ []
unfolding masked
hello_wire = refl

abbrev con : Con Chain
con = record {
  printed_circuit_board = some (record { snd_buf = 4; snd_queuelen = 0; written = []; recved = 0 });
  p_current = none;
  recved_current = 0;
  notify_ack = false;
  active_err = 0;
}

abbrev framer : Framer Chain
framer = record { con = con; read_length = 0; read_mask = 0; read_last_op = 0 }

-- All the bytes in two packets.
abbrev packets : List ℕ → Script Chain
packets bytes =
    (recv (some (take 3 bytes, [])) false ∷ []) ∷ (recv (some (drop 3 bytes, [])) false ∷ []) ∷ []

abbrev text_of : Run Chain (List ℕ) → List ℕ
text_of (ok bytes ws script) = bytes
text_of run = []

abbrev parts : List Frame
parts = masked_hello ∷ ping ∷ first_part ∷ last_part ∷ []

parts-At : At pieces framer (packets (wire parts)) [] parts
unfolding masked content pieces
parts-At = record {
  measured = refl;
  current_bytes = tt;
  key_word = omega arith;
  frames = ground arith;
  on = (refl, (refl, (_, refl)), ((refl, tt), ((refl, tt), tt)));
}

-- Seven bytes across the two messages, the ping between them left out.
websocket_read-content_example :
    Gives pieces pieces-LwipLaws 7
      (codes "HelloHello")
      (websocket_read pieces 40 1 7 framer (packets (wire parts)))
unfolding content pieces masked
websocket_read-content_example =
    websocket_read-content pieces pieces-LwipLaws 40 1 7 [] parts framer (packets (wire parts))
      (omega arith) (omega arith) parts-At (omega arith)

read_hello : text_of (websocket_read pieces 40 1 7 framer (packets (wire parts))) ≡ codes "HelloHe"
unfolding websocket_read read_payload next_frame skip read_payload_length read_key t_read8 opcode_of
    last_op_of t_read read announce callbacks callback con_recv behind apply_mask content pieces
    masked
read_hello = refl

-- 200 bytes of a long frame.
abbrev long : Framer Chain
long = record { con = con; read_length = 300; read_mask = 0; read_last_op = 0 }

websocket_read-negative_example :
    (ws' : Framer Chain) × (script' : Script Chain) × (websocket_read pieces 2 0 200 long
        (packets (replicate 200 7))
      ≡ fails 56 ws' script')
    × (stream pieces ws'.con script' ≡ [])
unfolding content pieces
websocket_read-negative_example =
    websocket_read-negative pieces pieces-LwipLaws 1 0 200 long (packets (replicate 200 7))
      (omega arith) (omega arith) (omega arith) (refl, (_, refl)) ((refl, tt), ((refl, tt), tt))
      (omega arith)

-- In the middle of a text message.
abbrev between : Framer Chain
between = record { con = con; read_length = 0; read_mask = 0; read_last_op = 1 }

next_frame-interrupted_example :
    (ws' : Framer Chain) × (script' : Script Chain) × (and_then
        (next_frame pieces between (packets (encode ping ++ (encode last_part ++ []))))
        (λ _ ws1 script1. next_frame pieces ws1 script1)
      ≡ ok tt ws' script')
    × (ws'.read_length ≡ 0)
    × On pieces ws'.con script' []
    × (delivers (rfc_after 1 ping) last_part ≡ true)
unfolding content pieces masked
next_frame-interrupted_example =
    next_frame-interrupted pieces pieces-LwipLaws ping last_part [] between
      (packets (encode ping ++ (encode last_part ++ []))) (omega arith) (omega arith) (omega arith)
      refl refl refl (refl, (refl, (_, refl)), ((refl, tt), ((refl, tt), tt)))
