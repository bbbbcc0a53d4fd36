-- ===== src/Handshake/Reply.antt =====
-- testing.c, `do_ws_header` behind `header_done`: the answer to a request, as far as the frames.
-- SHA-1 is mbedtls's, and the page a file that the build generates: both are parameters.
pub mod Decimal
pub mod Queue
use c_web_socket_pico_w_test.Base.{
  ℕ, zero, suc, ◌+◌, ◌-◌, ◌*◌, ◌/◌, ◌%◌, ◌<◌, ◌≤◌, ◌≡◌, refl, sym, ap, ◌∙◌, subst, arith, Bool,
  true, false, if◌then◌else◌, ◌^◌, IsByte, ltb, ltb→lt, Bool-cases, ℕ_le-cases, inl, inr, List, [],
  ◌∷◌, ◌++◌, append_assoc, append-nil, length, length-append, take, take_of_length-le, All, codes,
}
use c_web_socket_pico_w_test.Lwip.{Lwip, LwipLaws, Pcb}
use c_web_socket_pico_w_test.Con.{Con, Script}
use c_web_socket_pico_w_test.Con.Calm.{IsCalm}
use c_web_socket_pico_w_test.Con.Write.{
  Written, wrote, refused, blocked, null, t_write, t_write_barrier,
}
use c_web_socket_pico_w_test.Con.Write.Room.{Has, script_room, Queued, t_write-Queued}
use c_web_socket_pico_w_test.Base64.{encode_base64}
use c_web_socket_pico_w_test.Base64.Encode.{base64, encode_base64-eq-base64, length-encode_base64}
use c_web_socket_pico_w_test.Handshake.{
  Task, ends, waits, crash, task_then, Header, returned, parsed, read_header,
}

abbrev pub ws_uuid : List ℕ
ws_uuid = codes "258EAFA5-E914-47DA-95CA-C5AB0DC85B11"

-- `"\r\n"`.
abbrev pub crlf : List ℕ
crlf = 13 ∷ 10 ∷ []

abbrev pub ws_responce1 : List ℕ
ws_responce1 =
    codes "HTTP/1.1 101 Switching Protocols"
    ++ crlf
    ++ codes "Upgrade: websocket"
    ++ crlf
    ++ codes "Connection: upgrade"
    ++ crlf
    ++ codes "Sec-WebSocket-Accept: "

abbrev pub ws_responce2 : List ℕ
ws_responce2 = crlf ++ codes "Sec-WebSocket-Protocol: chat" ++ crlf ++ crlf

abbrev pub ws_page_responce1 : List ℕ
ws_page_responce1 =
    codes "HTTP/1.1 200 OK"
    ++ crlf
    ++ codes "Content-Type: text/html; charset=UTF-8"
    ++ crlf
    ++ codes "Connection: "
    ++ crlf
    ++ codes "Content-Length: "

abbrev pub ws_page_responce2 : List ℕ
ws_page_responce2 = crlf ++ crlf

-- `sprintf("%i", n)`; ten digits are enough for an `int`.
unfoldable pub decimal : ℕ → ℕ → List ℕ
decimal zero n = []
decimal (suc digits) n =
    let front = decimal digits (n / 10) in (if ltb n 10 then [] else front) ++ (48 + n % 10) ∷ []

-- How the handshake ends: with the error of the header; with the end of the task; with websocket
-- frames to follow.
pub data Answered : Type 0 where
  header_error : ℕ → Answered
  task_end upgraded : Answered

-- What follows a write whose result the code drops.
abbrev pub and_go_on :
    {Chain A : Type 0} → Written Chain → (Con Chain → Script Chain → Task Chain A) → Task Chain A
and_go_on (wrote con script) f = f con script
and_go_on (refused code con script) f = f con script
and_go_on (blocked con) f = waits con
and_go_on null f = crash

module _ {Chain : Type 0} (lwip : Lwip Chain) where
  -- The writes in a row, their results dropped, and then `ws_t_write_barrier`.
  unfoldable pub write_all :
      List (List ℕ) → Answered → Con Chain → Script Chain → Task Chain Answered
  write_all [] answer con script =
      and_go_on (t_write_barrier lwip con script) (λ con' script'. ends answer con' script')
  write_all (part ∷ parts) answer con script =
      and_go_on (t_write lwip part con script) (λ con' script'. write_all parts answer con' script')

  -- "Normal HTTP request recieved."
  unfoldable pub send_page : List ℕ → Con Chain → Script Chain → Task Chain Answered
  send_page index_html =
      write_all
        (ws_page_responce1 ∷ decimal 10 (length index_html) ∷ ws_page_responce2 ∷ index_html ∷ [])
        task_end

  -- The upgrade, with the `Accept` key. `baseBuf` has 28 bytes.
  unfoldable pub send_upgrade :
      (List ℕ → List ℕ) → List ℕ → Con Chain → Script Chain → Task Chain Answered
  send_upgrade sha1 key =
      write_all (ws_responce1 ∷ take 28 (encode_base64 (sha1 (key ++ ws_uuid))) ∷ ws_responce2 ∷ [])
        upgraded

  -- `do_ws_header` up to the frames.
  unfoldable pub answer_request :
      ℕ → (List ℕ → List ℕ) → List ℕ → List ℕ → Con Chain → Script Chain → Task Chain Answered
  answer_request fuel sha1 index_html junk con script =
      task_then (read_header lwip fuel junk con script) (λ header con' script'. elim header [
        | returned code ↦ ends (header_error code) con' script'
        | parsed upgrade key ↦
            if upgrade
            then send_upgrade sha1 key con' script'
            else send_page index_html con' script'
      ])
