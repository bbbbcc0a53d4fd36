-- ===== src/Con/Write.antt =====
-- `ws_t_write`: the send buffer of TCP is filled, and filled again when some of it is acknowledged.
-- `tcp_output` only makes TCP send, and leaves nothing that is modelled here.
pub mod Room
pub mod Barrier
use c_web_socket_pico_w_test.Base.{
  ℕ, zero, suc, ◌+◌, ◌-◌, ◌≡◌, Bool, true, false, ◌==◌, ltb, if◌then◌else◌, Option, none, some,
  List, [], ◌∷◌, ◌++◌, length, take, drop,
}
use c_web_socket_pico_w_test.Lwip.{Lwip, Pcb}
use c_web_socket_pico_w_test.Con.{Con, Event, Script, callbacks, err_clsd}

-- How a writing function ends: it goes on to its end; with an error without its sign; it waits beyond
-- the script; on a null pointer.
pub data Written (Chain : Type 0) : Type 0 where
  wrote : Con Chain → Script Chain → Written Chain
  refused : ℕ → Con Chain → Script Chain → Written Chain
  blocked : Con Chain → Written Chain
  null : Written Chain

module _ {Chain : Type 0} (lwip : Lwip Chain) where
  -- "Wait until we have at least *some* space on the send buffer".
  unfoldable pub await_room : Con Chain → Script Chain → Written Chain
  await_room con [] = elim con.printed_circuit_board [
    | none ↦ null
    | some pcb ↦ if pcb.snd_buf == 0 then blocked con else wrote con []
  ]
  await_room con (events ∷ script) = elim con.printed_circuit_board [
    | none ↦ null
    | some pcb ↦
        let woken = callbacks lwip events con in
        let rest = await_room (record woken { notify_ack = false }) script in
        if pcb.snd_buf == 0
        then (if woken.active_err == 0 then rest else refused woken.active_err woken script)
        else wrote con (events ∷ script)
  ]

  -- The loop `while (tcp_sndbuf(…) < len)` and the last `tcp_write`, whose result the code drops.
  unfoldable pub push : List ℕ → Con Chain → Script Chain → Written Chain
  push bytes con [] = elim con.printed_circuit_board [
    | none ↦ null
    | some pcb ↦
        let part = lwip.tcp_write pcb (take pcb.snd_buf bytes) in
        let filled = record con { printed_circuit_board = some part.1 } in
        if ltb pcb.snd_buf (length bytes)
        then (if part.0 == 0 then blocked filled else refused part.0 filled [])
        else wrote (record con { printed_circuit_board = some (lwip.tcp_write pcb bytes).1 }) []
  ]
  push bytes con (events ∷ script) = elim con.printed_circuit_board [
    | none ↦ null
    | some pcb ↦
        let part = lwip.tcp_write pcb (take pcb.snd_buf bytes) in
        let filled = record con { printed_circuit_board = some part.1 } in
        let woken = callbacks lwip events filled in
        let rest = push (drop pcb.snd_buf bytes) (record woken { notify_ack = false }) script in
        if ltb pcb.snd_buf (length bytes)
        then (if part.0 == 0
            then (if woken.active_err == 0 then rest else refused woken.active_err woken script)
            else refused part.0 filled (events ∷ script))
        else wrote (record con { printed_circuit_board = some (lwip.tcp_write pcb bytes).1 })
            (events ∷ script)
  ]

  -- `ws_t_write`.
  unfoldable pub t_write : List ℕ → Con Chain → Script Chain → Written Chain
  t_write bytes con script = elim con.printed_circuit_board [
    | none ↦ refused err_clsd con script
    | some _ ↦ elim (await_room con script) [
      | wrote con' script' ↦ push bytes con' script'
      | refused code con' script' ↦ refused code con' script'
      | blocked con' ↦ blocked con'
      | null ↦ null
    ]
  ]

module _ {Chain : Type 0} (lwip : Lwip Chain) where
  -- The loop `while (cli_con->printed_circuit_board->snd_queuelen)`.
  unfoldable pub drain : Con Chain → Script Chain → Written Chain
  drain con [] = elim con.printed_circuit_board [
    | none ↦ null
    | some pcb ↦ if pcb.snd_queuelen == 0 then wrote con [] else blocked con
  ]
  drain con (events ∷ script) = elim con.printed_circuit_board [
    | none ↦ null
    | some pcb ↦
        let woken = callbacks lwip events con in
        let rest = drain woken script in
        if pcb.snd_queuelen == 0
        then wrote con (events ∷ script)
        else if woken.active_err == 0
        then rest
        else refused woken.active_err woken script
  ]

  -- `ws_t_write_barrier`; at its end it has no `return`, which `wrote` stands for.
  unfoldable pub t_write_barrier : Con Chain → Script Chain → Written Chain
  t_write_barrier con script = elim con.printed_circuit_board [
    | none ↦ refused err_clsd con script
    | some _ ↦ drain con script
  ]
