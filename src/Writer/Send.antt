-- ===== src/Writer/Send.antt =====
-- `websocket_complete_and_send_frame`, `websocket_write`, `websocket_flush` and
-- `websocket_initialize_framinator`.
use c_web_socket_pico_w_test.Base.{
  ℕ, zero, suc, ◌+◌, ◌-◌, ◌%◌, Bool, false, not, ◌&&◌, ◌||◌, ◌==◌, leb, ltb, min, if◌then◌else◌,
  Option, none, some, List, [], ◌∷◌, length, take, drop, u32, sub32,
}
use c_web_socket_pico_w_test.Lwip.{Lwip, Pcb}
use c_web_socket_pico_w_test.Con.{Con, Event, Script, callback}
use c_web_socket_pico_w_test.Con.Write.{wrote, refused, blocked, null, t_write}
use c_web_socket_pico_w_test.Writer.{
  buf_starting_len, max_payload_len, large_enough, wrap_anyway, flag_wrap, marker_size, frame_start,
  tcp_snd_buf, err_buf, err_mem, Framinator, Put, puts, gives_up, stalled, invalid, spinning,
  and_put, Acked, acked, and_acked, and_next, store, bytes32, marker, ack_events, ack_waits, padded,
  header_of, header_offset,
}

-- `space`, in unsigned arithmetic.
unfoldable pub space_of : {Chain : Type 0} → Framinator Chain → ℕ
space_of ws =
    if ltb ws.head ws.tail
    then sub32 (sub32 (sub32 ws.tail ws.head) marker_size) (ws.tail % marker_size)
    else sub32 (sub32 ws.buf_len ws.head) marker_size

-- `tcp_output` gives its error without the sign.
module _ {Chain : Type 0} (lwip : Lwip Chain) (tcp_output : Pcb → ℕ) where
  -- The waits that `ws_t_write` went through are those that are gone from the script; their
  -- acknowledgments have moved the tail meanwhile.
  unfoldable pub resume_write :
      Framinator Chain
      → Script Chain
      → Con Chain
      → Script Chain
      → (Con Chain → Bool)
      → Put Chain Unit
  resume_write ws script con script' sent_off =
      and_acked (ack_waits (take (length script - length script') script) ws) (λ ws'.
        let ws2 = record ws' { con = con } in
        puts tt (if sent_off con then record ws2 { current_payload_len = 0 } else ws2) script')

  -- `websocket_complete_and_send_frame`. Its callers get no result: after an error of `ws_t_write` or
  -- `tcp_output` only the payload's length stays as it was.
  unfoldable pub complete_and_send_frame : Framinator Chain → Script Chain → Put Chain Unit
  complete_and_send_frame ws script =
      let len = ws.current_payload_len in
      let offset = header_offset len in
      let send_len = len + (frame_start - offset) in
      let scratch = sub32 (sub32 ws.head ws.current_marker) send_len in
      let start = ws.current_marker + offset in
      elim (store ws.buf ws.current_marker (bytes32 (marker scratch send_len))) [
        | none ↦ invalid
        | some buf1 ↦ elim (store buf1 start (header_of len)) [
          | none ↦ invalid
          | some buf2 ↦
              let ws2 = record ws { buf = buf2 } in
              if ltb (length buf2) (start + send_len)
              then invalid
              else elim (t_write lwip (take send_len (drop start buf2)) ws.con script) [
                | wrote con script' ↦ resume_write ws2 script con script' (λ c.
                    elim c.printed_circuit_board [ none ↦ false | some pcb ↦ tcp_output pcb == 0 ])
                | refused code con script' ↦ resume_write ws2 script con script' (λ _. false)
                | blocked con ↦ stalled (record ws2 { con = con })
                | null ↦ invalid
              ]
        ]
      ]

  -- `sub_task_yield(WS_T_YIELD_REASON_WAIT_FOR_ACK, …)`, and `notify_ack = false` after it.
  unfoldable pub deliver : List (Event Chain) → Framinator Chain → Acked Chain
  deliver [] ws = acked ws
  deliver (event ∷ events) ws =
      and_next (ack_events (event ∷ []) ws)
        (λ ws'. deliver events (record ws' { con = callback lwip event ws'.con }))

  -- `while (test) { … sub_task_yield … }`.
  unfoldable pub await_ack :
      (Framinator Chain → Bool) → Framinator Chain → Script Chain → Put Chain Unit
  await_ack test ws [] = if test ws then stalled ws else puts tt ws []
  await_ack test ws (events ∷ script) =
      if test ws
      then and_acked (deliver events ws) (λ ws'.
        let rest =
          await_ack test (record ws' { con = record ws'.con { notify_ack = false } }) script in
        if ws'.con.active_err == 0 then rest else gives_up ws'.con.active_err ws' script)
      else puts tt ws (events ∷ script)

  -- One such wait.
  unfoldable pub yield_ack : Framinator Chain → Script Chain → Put Chain Unit
  yield_ack ws [] = stalled ws
  yield_ack ws (events ∷ script) = and_acked (deliver events ws) (λ ws'.
      if ws'.con.active_err == 0
      then puts tt (record ws' { con = record ws'.con { notify_ack = false } }) script
      else gives_up ws'.con.active_err ws' script)

  -- A new marker at `current_marker`, with nothing in it.
  unfoldable pub begin_frame : ℕ → ℕ → Framinator Chain → Script Chain → Put Chain Unit
  begin_frame current_marker head ws script = elim (store ws.buf current_marker (bytes32 0)) [
    | none ↦ invalid
    | some buf ↦
        puts tt (record ws { buf = buf; current_marker = current_marker; head = head }) script
  ]

  -- "We have enough space for a frame right after this one."
  unfoldable pub frame_behind : Framinator Chain → Script Chain → Put Chain Unit
  frame_behind ws script =
      and_put (complete_and_send_frame (padded ws) script)
        (λ _ ws1 script1. begin_frame ws1.head (u32 (ws1.head + frame_start)) ws1 script1)

  -- "Create a new wrap marker in preparation to loop head back to the start of the buffer."
  unfoldable pub wrap_around : Framinator Chain → Script Chain → Put Chain Unit
  wrap_around ws script = elim (store ws.buf (padded ws).head (bytes32 flag_wrap)) [
    | none ↦ invalid
    | some buf ↦
        and_put (complete_and_send_frame (record (padded ws) { buf = buf }) script)
          (λ _ ws1 script1.
            and_put (await_ack (λ w. ltb w.head w.tail || ltb w.tail frame_start) ws1 script1)
              (λ _ ws2 script2. begin_frame 0 frame_start ws2 script2))
  ]

  -- "Snake about to eat it's own tail", without enough space.
  unfoldable pub squeeze : Framinator Chain → Script Chain → Put Chain Unit
  squeeze ws script = and_put (complete_and_send_frame (padded ws) script) (λ _ ws1 script1.
      and_put
        (await_ack (λ w. ltb w.head w.tail && ltb (sub32 w.tail w.head) frame_start) ws1 script1)
        (λ _ ws2 script2. begin_frame ws2.head (u32 (ws2.head + frame_start)) ws2 script2))

  -- "ADVANCE HEAD": the frame is sent, and the next one begins.
  unfoldable pub advance_head : Framinator Chain → Script Chain → Put Chain Unit
  advance_head ws script =
      if ltb (sub32 (sub32 ws.buf_len ws.head) marker_size) wrap_anyway
      then wrap_around ws script
      else if leb ws.tail ws.head
      then frame_behind ws script
      else if ltb (sub32 (sub32 ws.tail ws.head) marker_size) frame_start
      then squeeze ws script
      else frame_behind ws script

  -- The `memcpy` of `space` bytes and what follows it, with what is left of the bytes.
  unfoldable pub copy_part : ℕ → List ℕ → Framinator Chain → Script Chain → Put Chain (List ℕ)
  copy_part space bytes ws script = elim (store ws.buf ws.head (take space bytes)) [
    | none ↦ invalid
    | some buf ↦
        let ws1 = record ws {
          buf = buf;
          current_payload_len = u32 (ws.current_payload_len + space);
          head = u32 (ws.head + space);
        } in
        if leb (sub32 ws1.buf_len marker_size) ws1.head || leb large_enough ws1.current_payload_len
        then and_put (advance_head ws1 script)
            (λ _ ws2 script2. puts (drop space bytes) ws2 script2)
        else puts (drop space bytes) ws1 script
  ]

  -- The body of the loop.
  unfoldable pub round : List ℕ → Framinator Chain → Script Chain → Put Chain (List ℕ)
  round bytes ws script =
      if ltb ws.head ws.tail && space_of ws == 0
      then and_put (yield_ack ws script) (λ _ ws' script'. puts bytes ws' script')
      else copy_part
          (min (space_of ws) (min (sub32 max_payload_len ws.current_payload_len) (length bytes)))
          bytes ws script

  -- `websocket_write`.
  unfoldable pub websocket_write : ℕ → List ℕ → Framinator Chain → Script Chain → Put Chain Unit
  websocket_write fuel [] ws script = puts tt ws script
  websocket_write zero (b ∷ bytes) ws script = spinning
  websocket_write (suc fuel) (b ∷ bytes) ws script =
      and_put (round (b ∷ bytes) ws script)
        (λ left ws' script'. websocket_write fuel left ws' script')

  -- `websocket_flush`.
  unfoldable pub websocket_flush : Framinator Chain → Script Chain → Put Chain Unit
  websocket_flush ws script =
      and_put
        (if ltb 0 ws.current_payload_len
          then complete_and_send_frame ws script
          else puts tt ws script)
        (λ _ ws1 script1.
          and_put (await_ack (λ w. not (w.tail == w.head)) ws1 script1)
            (λ _ ws2 script2. begin_frame 0 frame_start (record ws2 { tail = 0 }) script2))

-- `websocket_initialize_framinator`; `malloc` gives the memory or nothing, and the callback is set
-- unless `snd_buf` is not full.
unfoldable pub initialize_framinator :
    {Chain : Type 0} → (ℕ → Option (List ℕ)) → Con Chain → Script Chain → Put Chain Unit
initialize_framinator {Chain} malloc con script =
    let junk : Framinator Chain = record {
      con = con;
      buf = [];
      buf_len = buf_starting_len;
      head = 0;
      tail = 0;
      current_marker = 0;
      current_payload_len = 0;
    } in
    elim con.printed_circuit_board [
      | none ↦ invalid
      | some pcb ↦
          if not (sub32 tcp_snd_buf pcb.snd_buf == 0)
          then gives_up err_buf junk script
          else elim (malloc buf_starting_len) [
            | none ↦ gives_up err_mem junk script
            | some buf ↦ puts tt (record junk { buf = buf; head = frame_start }) script
          ]
    ]
