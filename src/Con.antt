-- ===== src/Con.antt =====
-- testing.c, the connection as its task sees it: the bytes that have come in, the functions that
-- read them, and the callbacks that put them there while the task waits.
pub mod Calm
pub mod Stream
pub mod Bounds
pub mod Quiet
pub mod Notify
pub mod Write
pub mod Peak
mod Examples
use c_web_socket_pico_w_test.Base.{
  ℕ, zero, suc, ◌+◌, ◌-◌, ◌≡◌, Bool, true, false, not, ◌&&◌, ◌||◌, ◌==◌, leb, if◌then◌else◌, Option,
  none, some, List, [], ◌∷◌, ◌++◌, length, u16, u32,
}
use c_web_socket_pico_w_test.Lwip.{Lwip, Pcb}

-- The codes of lwIP, without their sign.
abbrev pub err_clsd : ℕ
err_clsd = 15

abbrev pub err_arg : ℕ
err_arg = 16

-- `WS_T_YIELD_REASON_READ` and its like.
abbrev pub reason_read : ℕ
reason_read = 1

abbrev pub reason_flush : ℕ
reason_flush = 2

abbrev pub reason_wait_for_ack : ℕ
reason_wait_for_ack = 3

-- What lwIP may call while the task waits: `tcp_cli_con_recv` with a chain, or without one, and
-- whether the pool of buffers is then two thirds full; `tcp_cli_con_err`; `tcp_cli_con_sent`, which
-- finds `snd_queuelen` changed and more room in `snd_buf`.
pub data Event (Chain : Type 0) : Type 0 where
  recv : Option Chain → Bool → Event Chain
  err : ℕ → Event Chain
  sent : ℕ → ℕ → Event Chain

-- The fields of `ws_cliant_con` that reading goes by; `active_err` is that of its `io_task`.
pub record Con (Chain : Type 0) : Type 0 where
  pub printed_circuit_board : Option Pcb
  pub p_current : Option Chain
  pub recved_current : ℕ
  pub notify_ack : Bool
  pub active_err : ℕ

-- What the task waits through: one list of events for each time that it yields.
abbrev pub Script : Type 0 → Type 0
Script Chain = List (List (Event Chain))

-- An `int` result: bytes stored, or an error without its sign.
pub data Result : Type 0 where
  done : List ℕ → Result
  failed : ℕ → Result

-- How a function of the task ends. `waiting`: the script is over while the task waits.
pub data Outcome (Chain : Type 0) : Type 0 where
  returns : Result → Con Chain → Script Chain → Outcome Chain
  waiting : Con Chain → Outcome Chain

module _ {Chain : Type 0} (lwip : Lwip Chain) where
  -- `if (cli_con->printed_circuit_board != NULL) { tcp_recved(…); … }`; `tcp_recved` takes a `u16_t`.
  unfoldable pub announce : Con Chain → Con Chain
  announce con = elim con.printed_circuit_board [
    | none ↦ con
    | some pcb ↦ record con {
      printed_circuit_board = some (record pcb { recved = pcb.recved + u16 con.recved_current });
      recved_current = 0;
    }
  ]

  -- `ws_read`; `pbuf_copy_partial` takes its length as a `u16_t`.
  unfoldable pub read : Con Chain → ℕ → Result × Con Chain
  unfolding announce
  read con size = elim con.p_current [
    | none ↦ (elim con.printed_circuit_board [ none ↦ failed err_clsd | some _ ↦ done [] ], con)
    | some p ↦
        let got = lwip.copy_partial p (u16 size) in
        (
          done got,
          announce (record con {
            p_current = lwip.free_header p (length got);
            recved_current = u32 (con.recved_current + length got);
          }),
        )
  ]

  -- `ws_peak`: the bytes that `*buf_ptr` is set to.
  unfoldable pub peak : Con Chain → List ℕ
  peak con = elim con.p_current [ none ↦ [] | some p ↦ lwip.payload p ]

  -- `ws_consume`, with the error code; `pbuf_free_header` takes its size as a `u16_t`.
  unfoldable pub consume : Con Chain → ℕ → ℕ × Con Chain
  unfolding announce
  consume con size = elim con.p_current [
    | none ↦ (if size == 0 then 0 else err_arg, con)
    | some p ↦ (
      0,
      announce (record con {
        p_current = lwip.free_header p (u16 size);
        recved_current = u32 (con.recved_current + size);
      }),
    )
  ]

  -- `ws_check_reason`.
  unfoldable pub check_reason : Con Chain → ℕ → ℕ → Bool
  check_reason con reason code =
      if not (reason == 0) && not (code == 0)
      then true
      else if reason == reason_read
      then elim con.p_current [ none ↦ false | some _ ↦ true ]
      else if reason == reason_flush
      then elim con.printed_circuit_board [ none ↦ true | some pcb ↦ pcb.snd_queuelen == 0 ]
      else if reason == reason_wait_for_ack
      then con.notify_ack
      else false

  -- `tcp_cli_con_err`. The task waits for one of the three reasons that it notifies, and a code
  -- other than 0 becomes the active error.
  unfoldable pub con_err : ℕ → Con Chain → Con Chain
  con_err code con = record con {
    printed_circuit_board = none;
    active_err = if code == 0 then con.active_err else code;
  }

  -- `tcp_cli_con_recv`. At the end of the stream `ws_cli_con_close_pcb` leaves no control block; what
  -- it asks of lwIP is in `peer_closes` of Server.
  unfoldable pub con_recv : Option Chain → Bool → Con Chain → Con Chain
  unfolding con_err
  con_recv none crowded con = con_err err_clsd (record con { printed_circuit_board = none })
  con_recv (some p) crowded con = if length (lwip.bytes p) == 0 then con else elim con.p_current [
    | none ↦ record con { p_current = some p }
    | some q ↦
        let stacked = lwip.cat q p in
        record con { p_current = some (if crowded then lwip.coalesce stacked else stacked) }
  ]

  -- `tcp_cli_con_sent`, after lwIP has taken acknowledged buffers off the queue.
  unfoldable pub con_sent : ℕ → ℕ → Con Chain → Con Chain
  con_sent queuelen room con = record con {
    printed_circuit_board = elim con.printed_circuit_board [
      | none ↦ none
      | some pcb ↦ some (record pcb { snd_buf = pcb.snd_buf + room; snd_queuelen = queuelen })
    ];
    notify_ack = true;
  }

  unfoldable pub callback : Event Chain → Con Chain → Con Chain
  unfolding con_recv con_err con_sent
  callback (recv p crowded) con = con_recv p crowded con
  callback (err code) con = con_err code con
  callback (sent queuelen room) con = con_sent queuelen room con

  -- The callbacks of one wait, in their order.
  unfoldable pub callbacks : List (Event Chain) → Con Chain → Con Chain
  callbacks [] con = con
  callbacks (e ∷ es) con = callbacks es (callback e con)

-- The reasons that a callback calls `iol_notify` for, in its order.
unfoldable pub notified : {Chain : Type 0} → Lwip Chain → Event Chain → List ℕ
notified lwip (recv none crowded) = reason_read ∷ reason_wait_for_ack ∷ reason_flush ∷ []
notified lwip (recv (some p) crowded) = if length (lwip.bytes p) == 0 then [] else reason_read ∷ []
notified lwip (err code) = reason_read ∷ reason_wait_for_ack ∷ reason_flush ∷ []
notified lwip (sent queuelen room) = reason_wait_for_ack ∷ reason_flush ∷ []

-- A read that goes on behind the bytes that are stored already.
unfoldable pub behind : {Chain : Type 0} → List ℕ → Outcome Chain → Outcome Chain
behind got (returns (done more) con script) = returns (done (got ++ more)) con script
behind got (returns (failed code) con script) = returns (failed code) con script
behind got (waiting con) = waiting con

module _ {Chain : Type 0} (lwip : Lwip Chain) where
  -- `ws_t_read`: the loop with `size - ret` bytes to come.
  unfoldable pub t_read : ℕ → Con Chain → Script Chain → Outcome Chain
  t_read size con [] = if size == 0 then returns (done []) con [] else elim (read lwip con size).0 [
    | failed code ↦ returns (failed code) (read lwip con size).1 []
    | done got ↦
        if leb size (length got)
        then returns (done got) (read lwip con size).1 []
        else waiting (read lwip con size).1
  ]
  t_read size con (events ∷ script) =
      if size == 0 then returns (done []) con (events ∷ script) else elim (read lwip con size).0 [
        | failed code ↦ returns (failed code) (read lwip con size).1 (events ∷ script)
        | done got ↦
            let woken = callbacks lwip events (read lwip con size).1 in
            let rest = t_read (size - length got) woken script in
            if leb size (length got)
            then returns (done got) (read lwip con size).1 (events ∷ script)
            else if woken.active_err == 0
            then behind got rest
            else returns (failed woken.active_err) woken script
      ]
