-- ===== src/Handshake/Examples.antt =====
-- An upgrade in buffers of four bytes each, an empty value, and a lost connection.
use c_web_socket_pico_w_test.Base.{
  All, ℕ, ◌≡◌, ◌⊎◌, refl, arith, false, none, some, List, [], ◌∷◌, ◌++◌, codes, length-take, take,
  replicate,
}
use c_web_socket_pico_w_test.Lwip.{Pcb, content}
use c_web_socket_pico_w_test.Lwip.Pieces.{flat, fours, fours-LwipLaws, fours-accepts}
use c_web_socket_pico_w_test.Con.{Con, Script, recv}
use c_web_socket_pico_w_test.Con.Calm.{On}
use c_web_socket_pico_w_test.Selecter.{no_match}
use c_web_socket_pico_w_test.Selecter.Reference.{answer}
use c_web_socket_pico_w_test.Handshake.{header_fields, crash, read_header, read_fields, confirm_tag}
use c_web_socket_pico_w_test.Handshake.Scanning.{PeakLaws, Ends}
use c_web_socket_pico_w_test.Handshake.Tag.{confirm_tag-takes}
use c_web_socket_pico_w_test.Handshake.Head.{
  Field, IsField, render, HeaderRead, read_header-HeaderRead,
}
use c_web_socket_pico_w_test.Handshake.Faults.{Endless, empty_value-swallows, read_header-Endless}
use c_web_socket_pico_w_test.Handshake.Reply.{
  task_end, upgraded, send_page, send_upgrade, answer_request,
}
use c_web_socket_pico_w_test.Base64.Encode.{base64}
use c_web_socket_pico_w_test.Handshake.Reply.Decimal.{IsDigit, numeral}
use c_web_socket_pico_w_test.Handshake.Reply.Queue.{
  salted, upgrade_response, page_response, AtBarrier, AnswerOf, send_upgrade-AtBarrier,
  send_page-AtBarrier, answer_request-AnswerOf,
}

fours-PeakLaws : PeakLaws fours
unfolding fours flat
fours-PeakLaws = record {
  full = λ c h. omega (arith, length-take 4 c);
  small = λ c. omega (arith, length-take 4 c);
}

abbrev pcb0 : Pcb
pcb0 = record { snd_buf = 2000; snd_queuelen = 0; written = []; recved = 0 }

abbrev con_with : List ℕ → Con (List ℕ)
con_with bytes = record {
  printed_circuit_board = some pcb0;
  p_current = some bytes;
  recved_current = 0;
  notify_ack = false;
  active_err = 0;
}

abbrev then_comes : List ℕ → Script (List ℕ)
then_comes bytes = (recv (some bytes) false ∷ []) ∷ []

abbrev upgrade_field : Field
upgrade_field = record {
  name = codes "Upgrade";
  blanks = 32 ∷ [];
  first = b'w';
  more = codes "ebsocket";
}

abbrev key_field : Field
key_field = record {
  name = codes "Sec-WebSocket-Key";
  blanks = 32 ∷ [];
  first = b'd';
  more = codes "GhlIHNhbXBsZSBub25jZQ==";
}

upgrade_field-IsField : IsField upgrade_field
upgrade_field-IsField = record {
  name-IsName = omega arith;
  blank = omega arith;
  starts = refl;
  value-IsLine = omega arith;
  long_key = λ h. absurd (ground arith);
}

key_field-IsField : IsField key_field
key_field-IsField = record {
  name-IsName = omega arith;
  blank = omega arith;
  starts = refl;
  value-IsLine = omega arith;
  long_key = λ h. omega arith;
}

abbrev request_end : List ℕ
request_end = render [] (key_field ∷ []) (codes "frames")

abbrev request_start : List ℕ
request_start = codes "GET / HTTP/1.1" ++ 13 ∷ 10 ∷ codes "Upgrade: websocket"

read_header-HeaderRead_example :
    HeaderRead fours
      (upgrade_field ∷ key_field ∷ [])
      false
      []
      (codes "frames")
      (read_header fours 200 [] (con_with request_start) (then_comes request_end))
unfolding content fours flat
read_header-HeaderRead_example =
    read_header-HeaderRead fours fours-LwipLaws fours-PeakLaws 200 (codes "GET / HTTP/1.1")
      (upgrade_field ∷ key_field ∷ []) [] (codes "frames") (con_with request_start)
      (then_comes request_end) (omega arith) (omega arith)
      (upgrade_field-IsField, (key_field-IsField, tt)) (refl, (refl, (_, refl)), ((refl, tt), tt))

answer_request-AnswerOf_example :
    AnswerOf fours
      (λ m. take 20 m)
      (codes "page")
      (upgrade_field ∷ key_field ∷ [])
      []
      (codes "frames")
      (answer_request fours 200
        (λ m. take 20 m)
        (codes "page")
        []
        (con_with request_start)
        (then_comes request_end))
unfolding content fours flat
answer_request-AnswerOf_example =
    answer_request-AnswerOf fours fours-LwipLaws fours-PeakLaws 200 (λ m. take 20 m)
      (codes "GET / HTTP/1.1") (upgrade_field ∷ key_field ∷ []) (codes "page") [] (codes "frames")
      (con_with request_start) (then_comes request_end) (omega arith) (omega arith)
      (upgrade_field-IsField, (key_field-IsField, tt)) (refl, (refl, (_, refl)), ((refl, tt), tt))

confirm_tag-takes_example : Ends fours false (13 ∷ 10 ∷ []) (
    confirm_tag fours 20
      (codes "websocket")
      (con_with (codes "websockets" ++ 13 ∷ []))
      (then_comes (10 ∷ [])))
unfolding content fours flat
confirm_tag-takes_example =
    confirm_tag-takes fours fours-LwipLaws fours-PeakLaws 20 (codes "websocket")
      (con_with (codes "websockets" ++ 13 ∷ [])) (then_comes (10 ∷ [])) (codes "websockets")
      (10 ∷ []) (omega arith) (omega arith) (omega arith)
      (refl, (refl, (_, refl)), ((refl, tt), tt))

-- The upgrade is on the line that is swallowed.
empty_value-swallows_example :
    ((read_fields fours 40 false []
          (con_with (codes "Accept: " ++ 13 ∷ 10 ∷ []))
          (then_comes (codes "Upgrade: websocket" ++ 13 ∷ 10 ∷ 13 ∷ 10 ∷ []))
        ≡ crash)
      × (answer 0 header_fields (codes "Accept") ≡ no_match))
    ⊎ ((con' : Con (List ℕ)) × (script' : Script (List ℕ)) × (read_fields fours 40 false []
            (con_with (codes "Accept: " ++ 13 ∷ 10 ∷ []))
            (then_comes (codes "Upgrade: websocket" ++ 13 ∷ 10 ∷ 13 ∷ 10 ∷ []))
          ≡ read_fields fours 39 false [] con' script')
        × On fours con' script' (13 ∷ 10 ∷ []))
unfolding content fours flat
empty_value-swallows_example =
    empty_value-swallows fours fours-LwipLaws fours-PeakLaws 39 (codes "Accept")
      (codes "Upgrade: websocket") (13 ∷ 10 ∷ []) false []
      (con_with (codes "Accept: " ++ 13 ∷ 10 ∷ []))
      (then_comes (codes "Upgrade: websocket" ++ 13 ∷ 10 ∷ 13 ∷ 10 ∷ [])) (omega arith)
      (omega arith) (omega arith) refl refl (omega arith)
      (refl, (refl, (_, refl)), ((refl, tt), tt))

abbrev reset_con : Con (List ℕ)
reset_con = record {
  printed_circuit_board = none;
  p_current = none;
  recved_current = 0;
  notify_ack = false;
  active_err = 14;
}

read_header-Endless_example : Endless (read_header fours 1000 [] reset_con (replicate 50 []))
read_header-Endless_example =
    read_header-Endless fours reset_con 1000 50 [] refl (λ e. absurd (omega (arith, e)))

send_upgrade-AtBarrier_example :
    AtBarrier fours pcb0
      (upgrade_response (base64 (take 20 (salted (codes "key")))))
      upgraded
      (send_upgrade fours (λ m. take 20 m) (codes "key") (con_with []) ([] ∷ []))
send_upgrade-AtBarrier_example =
    send_upgrade-AtBarrier fours fours-LwipLaws fours-accepts (λ m. take 20 m) (codes "key")
      (con_with []) pcb0 ([] ∷ []) refl (omega arith) (refl, refl) (tt, tt) (omega arith)

send_page-AtBarrier_example :
    (digits : List ℕ) × All IsDigit digits
    × (numeral 0 digits ≡ 4)
    × AtBarrier fours pcb0
        (page_response digits (codes "page"))
        task_end
        (send_page fours (codes "page") (con_with []) ([] ∷ []))
send_page-AtBarrier_example =
    send_page-AtBarrier fours fours-LwipLaws fours-accepts (codes "page") (con_with []) pcb0
      ([] ∷ []) (omega arith) (omega arith) (refl, refl) (tt, tt) (omega arith)
