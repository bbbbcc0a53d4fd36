-- ===== src/Handshake/Reply/Queue.antt =====
-- What the answer to a request is, and that it is queued.
use c_web_socket_pico_w_test.Base.{
  ℕ, ◌+◌, ◌<◌, ◌≤◌, ◌≡◌, refl, sym, ap, ◌∙◌, subst, arith, false, if◌then◌else◌, ◌^◌, IsByte, ◌⊎◌,
  inl, inr, List, [], ◌∷◌, ◌++◌, append_assoc, append-nil, length, length-append, take,
  take_of_length-le, All, codes,
}
use c_web_socket_pico_w_test.Lwip.{Lwip, LwipLaws, Pcb}
use c_web_socket_pico_w_test.Con.{Con, Script}
use c_web_socket_pico_w_test.Con.Write.{t_write_barrier}
use c_web_socket_pico_w_test.Con.Write.Room.{Has, script_room, t_write-Queued}
use c_web_socket_pico_w_test.Base64.{encode_base64}
use c_web_socket_pico_w_test.Base64.Encode.{base64, encode_base64-eq-base64, length-encode_base64}
use c_web_socket_pico_w_test.Handshake.{Task, ends, crash}
use c_web_socket_pico_w_test.Handshake.Reply.{
  ws_uuid, ws_responce1, ws_responce2, ws_page_responce1, ws_page_responce2, decimal, Answered,
  task_end, upgraded, and_go_on, write_all, send_page, send_upgrade, answer_request,
}
use c_web_socket_pico_w_test.Handshake.Reply.Decimal.{
  IsDigit, decimal-AllDigits, numeral, numeral-decimal, length-decimal,
}
use c_web_socket_pico_w_test.Con.Calm.{IsCalm, On}
use c_web_socket_pico_w_test.Handshake.Scanning.{PeakLaws}
use c_web_socket_pico_w_test.Handshake.Tag.{NoReturn}
use c_web_socket_pico_w_test.Handshake.Head.{
  Field, IsField, render, wants_upgrade, given_key, HasUnknown, read_header-HeaderRead,
}

abbrev pub joined : List (List ℕ) → List ℕ
joined [] = []
joined (part ∷ parts) = part ++ joined parts

-- Lines, each with its end, an empty one, and what follows.
abbrev pub http_message : List (List ℕ) → List ℕ → List ℕ
http_message [] body = 13 ∷ 10 ∷ body
http_message (line ∷ lines) body = line ++ 13 ∷ 10 ∷ http_message lines body

-- What a client that asks for the upgrade is to get.
abbrev pub upgrade_response : List ℕ → List ℕ
upgrade_response accept =
    http_message
      (codes "HTTP/1.1 101 Switching Protocols"
        ∷ codes "Upgrade: websocket"
        ∷ codes "Connection: upgrade"
        ∷ (codes "Sec-WebSocket-Accept: " ++ accept)
        ∷ codes "Sec-WebSocket-Protocol: chat"
        ∷ [])
      []

-- The key with what RFC 6455, section 1.3, puts behind it.
abbrev pub salted : List ℕ → List ℕ
salted key = key ++ codes "258EAFA5-E914-47DA-95CA-C5AB0DC85B11"

-- What any other client is to get.
abbrev pub page_response : List ℕ → List ℕ → List ℕ
page_response content_length page =
    http_message
      (codes "HTTP/1.1 200 OK"
        ∷ codes "Content-Type: text/html; charset=UTF-8"
        ∷ codes "Connection: "
        ∷ (codes "Content-Length: " ++ content_length)
        ∷ [])
      page

module _ {Chain : Type 0} (lwip : Lwip Chain) where
  -- The task is at its barrier, and behind it comes `answer`; these bytes are queued.
  abbrev pub AtBarrier : Pcb → List ℕ → Answered → Task Chain Answered → Type 0
  AtBarrier pcb bytes answer t =
      (con' : Con Chain) × (script' : Script Chain) × (pcb' : Pcb) × (t
        ≡ and_go_on (t_write_barrier lwip con' script') (λ c s. ends answer c s))
      × Has con' pcb'
      × (pcb'.written ≡ pcb.written ++ bytes)

  -- The request is answered by what its fields ask for, and its body is still to be read; or a name
  -- that is cut made the selecter read too far.
  abbrev pub AnswerOf :
      (List ℕ → List ℕ) → List ℕ → List Field → List ℕ → List ℕ → Task Chain Answered → Type 0
  AnswerOf sha1 index_html fs junk body t =
      ((t ≡ crash) × HasUnknown fs)
      ⊎ ((con' : Con Chain) × (script' : Script Chain) × On lwip con' script' body
          × (t ≡ (
              if wants_upgrade fs false
              then send_upgrade lwip sha1 (given_key fs junk) con' script'
              else send_page lwip index_html con' script')))

module _ {Chain : Type 0} (lwip : Lwip Chain) (laws : LwipLaws lwip)
    (accepts : (pcb : Pcb) (bytes : List ℕ)
      → length bytes ≤ pcb.snd_buf
      → (lwip.tcp_write pcb bytes).0 ≡ 0) where
  write_all-AtBarrier :
      (parts : List (List ℕ)) (answer : Answered) (con : Con Chain) (pcb : Pcb)
      (script : Script Chain)
      → All (λ part. 0 < length part) parts
      → Has con pcb
      → IsCalm script
      → length (joined parts) ≤ pcb.snd_buf + script_room script
      → AtBarrier lwip pcb (joined parts) answer (write_all lwip parts answer con script)
  unfolding write_all
  write_all-AtBarrier [] answer con pcb script some has calm h =
      (con, script, pcb, refl, has, sym (append-nil pcb.written))
  write_all-AtBarrier (part ∷ parts) answer con pcb script some has calm h =
      let size = length-append part (joined parts) in
      let (con1, script1, pcb1, e1, has1, queued1, calm1, room1) =
        t_write-Queued lwip laws accepts part con pcb script has calm some.0
          (omega (arith, size)) in
      let (con2, script2, pcb2, e2, has2, queued2) =
        write_all-AtBarrier parts answer con1 pcb1 script1 some.1 has1 calm1
          (omega (arith, size, room1)) in
      (
        con2,
        script2,
        pcb2,
        ap (λ o. and_go_on o (λ con' script'. write_all lwip parts answer con' script')) e1 ∙ e2,
        has2,
        queued2
            ∙ ap (λ l. l ++ joined parts) queued1
            ∙ append_assoc pcb.written part (joined parts),
      )

  -- The answer to an upgrade: what is queued are the lines of `upgrade_response`, with the Base64 of
  -- the hash of the key and the UUID of RFC 6455, and the task waits until all of it is acknowledged.
  -- The hash has 20 bytes, the connection stays open, the acknowledgments to come make enough room,
  -- and `tcp_write` succeeds for what fits.
  pub send_upgrade-AtBarrier :
      (sha1 : List ℕ → List ℕ) (key : List ℕ) (con : Con Chain) (pcb : Pcb) (script : Script Chain)
      → length (sha1 (salted key)) ≡ 20
      → All IsByte (sha1 (salted key))
      → Has con pcb
      → IsCalm script
      → length ws_responce1 + 28 + length ws_responce2 ≤ pcb.snd_buf + script_room script
      → AtBarrier lwip pcb
          (upgrade_response (base64 (sha1 (salted key))))
          upgraded
          (send_upgrade lwip sha1 key con script)
  unfolding send_upgrade
  send_upgrade-AtBarrier sha1 key con pcb script twenty bytes has calm h =
      let hash : List ℕ = sha1 (key ++ ws_uuid) in
      let size : length (encode_base64 hash) ≡ 28 =
        omega (arith, length-encode_base64 hash, twenty) in
      let whole : take 28 (encode_base64 hash) ≡ base64 hash =
        take_of_length-le 28 (encode_base64 hash) (omega (arith, size))
        ∙ encode_base64-eq-base64 hash bytes in
      let fits : length (base64 hash) ≡ 28 =
        sym (ap length (encode_base64-eq-base64 hash bytes)) ∙ size in
      let parts : List (List ℕ) = ws_responce1 ∷ base64 hash ∷ ws_responce2 ∷ [] in
      subst
        (λ l.
          AtBarrier lwip pcb (joined parts) upgraded
            (write_all lwip (ws_responce1 ∷ l ∷ ws_responce2 ∷ []) upgraded con script))
        (sym whole)
        (write_all-AtBarrier parts upgraded con pcb script
          (omega arith, (omega (arith, fits), (omega arith, tt))) has calm
          (omega (arith, fits, length-append (base64 hash) ws_responce2)))

  -- The answer to any other request: the lines of `page_response` and the page, with the length of
  -- the page in decimal digits. The page is not empty and has less than ten digits to its length, the
  -- connection stays open, the acknowledgments to come make enough room, and `tcp_write` succeeds for
  -- what fits.
  pub send_page-AtBarrier :
      (index_html : List ℕ) (con : Con Chain) (pcb : Pcb) (script : Script Chain)
      → 0 < length index_html
      → length index_html < 10 ^ 9
      → Has con pcb
      → IsCalm script
      → length ws_page_responce1 + 10 + length ws_page_responce2 + length index_html
        ≤ pcb.snd_buf + script_room script
      → (digits : List ℕ) × All IsDigit digits
        × (numeral 0 digits ≡ length index_html)
        × AtBarrier lwip pcb
            (page_response digits index_html)
            task_end
            (send_page lwip index_html con script)
  unfolding send_page
  send_page-AtBarrier index_html con pcb script some few has calm h =
      let n : ℕ = length index_html in
      let digits : List ℕ = decimal 10 n in
      let size = length-decimal 10 n (omega arith) in
      (
        digits,
        decimal-AllDigits 10 n,
        numeral-decimal n (omega arith),
        subst
            (λ l.
              AtBarrier lwip pcb (ws_page_responce1 ++ (digits ++ (ws_page_responce2 ++ l)))
                task_end (send_page lwip index_html con script))
            (append-nil index_html)
            (write_all-AtBarrier (ws_page_responce1 ∷ digits ∷ ws_page_responce2 ∷ index_html ∷ [])
              task_end con pcb script (omega arith, (size.0, (omega arith, (some, tt)))) has calm
              (omega (
                arith,
                size.1,
                ap length (append-nil index_html),
                length-append digits (ws_page_responce2 ++ (index_html ++ [])),
              ))),
      )

module _ {Chain : Type 0} (lwip : Lwip Chain) (laws : LwipLaws lwip) (peaks : PeakLaws lwip) where
  -- A request is answered by what it asks for: with the upgrade, under the key that its fields give,
  -- if some `Upgrade` field says `websocket`, and with the page otherwise, after its head is read
  -- and nothing behind it. The other end is a read outside of an array, and only where some field
  -- has a name that begins neither of the names the server knows. The connection stays open, every
  -- value begins with a byte that is no white space, a key has 24 bytes at least, and the fuel is
  -- larger than the request.
  pub answer_request-AnswerOf :
      (fuel : ℕ) (sha1 : List ℕ → List ℕ) (request : List ℕ) (fs : List Field)
      (index_html junk body : List ℕ) (con : Con Chain) (script : Script Chain)
      → length (render request fs body) < fuel
      → NoReturn request
      → All IsField fs
      → On lwip con script (render request fs body)
      → AnswerOf lwip sha1 index_html fs junk body
          (answer_request lwip fuel sha1 index_html junk con script)
  unfolding answer_request
  answer_request-AnswerOf fuel sha1 request fs index_html junk body con script lt line fine on =
      elim (read_header-HeaderRead lwip laws peaks fuel request fs junk body con script lt line fine
        on) [
          | inl (e, unknown) ↦ inl (rw (answer_request, e) refl, unknown)
          | inr (con1, script1, e, on1) ↦ inr (con1, script1, on1, rw (answer_request, e) refl)
        ]
