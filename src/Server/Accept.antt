-- ===== src/Server/Accept.antt =====
-- A client starts with nothing of the one before, and a connection is closed once.
use c_web_socket_pico_w_test.Base.{
  ℕ, zero, suc, ◌≡◌, ◌≢◌, refl, sym, ap, ◌∙◌, arith, true, false, ◌==◌, Bool-cases, Option-cases,
  ◌⊎◌, inl, inr, Option, none, some, List, [], ◌∷◌, ◌++◌,
}
use c_web_socket_pico_w_test.Lwip.{Lwip, Pcb}
use c_web_socket_pico_w_test.Con.{con_recv, con_err}
use c_web_socket_pico_w_test.Server.{
  peer_closes, Client, Call, registers, clears, closes, aborts, err_inprogress, err_val, err_abrt,
  close_pcb, close, do_cli_con_task, reset_for_new_client, accept, SubTask, sub_task_reset,
  reset_task,
}

-- A client as its task finds it.
abbrev pub fresh : {Chain : Type 0} → Pcb → SubTask → List Call → Client Chain
fresh pcb task log = record {
  con = record {
    printed_circuit_board = some pcb;
    p_current = none;
    recved_current = 0;
    notify_ack = false;
    active_err = 0;
  };
  ack_callback_set = false;
  task_set = true;
  task_ws_header = task;
  log = log ++ registers ∷ [];
}

-- A client after `reset_cli_con_for_new_client`.
abbrev blank : {Chain : Type 0} → SubTask → Client Chain → Client Chain
blank task client = record client {
  con = record client.con {
    printed_circuit_board = none;
    p_current = none;
    recved_current = 0;
    notify_ack = false;
  };
  ack_callback_set = false;
  task_set = false;
  task_ws_header = task;
}

reset_for_new_client-blank :
    {Chain : Type 0} (client : Client Chain)
    → (reset_task client).0 ≡ true
    → reset_for_new_client client ≡ (0, blank (reset_task client).1 client)
unfolding reset_for_new_client
reset_for_new_client-blank client e = rw e refl

reset_for_new_client-refuses :
    {Chain : Type 0} (client : Client Chain)
    → (reset_task client).0 ≡ false
    → reset_for_new_client client ≡ (err_inprogress, client)
unfolding reset_for_new_client
reset_for_new_client-refuses client e = rw e refl

accept-runs :
    {Chain : Type 0} (run : Client Chain → ℕ × Client Chain) (pcb : Pcb) (client : Client Chain)
    → (reset_task client).0 ≡ true
    → accept run 0 (some pcb) client ≡ (0, (run (fresh pcb (reset_task client).1 client.log)).1)
unfolding accept
accept-runs run pcb client e = rw (reset_for_new_client-blank client e) refl

accept-refuses :
    {Chain : Type 0} (run : Client Chain → ℕ × Client Chain) (pcb : Pcb) (client : Client Chain)
    → (reset_task client).0 ≡ false
    → accept run 0 (some pcb) client ≡ (err_val, client)
unfolding accept
accept-refuses run pcb client e = rw (reset_for_new_client-refuses client e) refl

reset_task-taken :
    {Chain : Type 0} (client : Client Chain)
    → (reset_task client).0 ≡ false
    → (client.task_set ≡ true) × ((sub_task_reset client.task_ws_header).0 ≡ false)
unfolding reset_task
reset_task-taken client taken = elim (Bool-cases client.task_set) [
  | inl busy ↦
      let e : reset_task client ≡ sub_task_reset client.task_ws_header =
        rw (reset_task, busy) refl in
      (busy, sym (ap (λ r. r.0) e) ∙ taken)
  | inr idle ↦
      let e : (reset_task client).0 ≡ true = rw (reset_task, idle) refl in absurd (ground arith)
]

reset_task-free :
    {Chain : Type 0} (client : Client Chain)
    → (reset_task client).0 ≡ true
    → (client.task_set ≡ false) ⊎ ((sub_task_reset client.task_ws_header).0 ≡ true)
unfolding reset_task
reset_task-free client free = elim (Bool-cases client.task_set) [
  | inl busy ↦
      let e : reset_task client ≡ sub_task_reset client.task_ws_header =
        rw (reset_task, busy) refl in
      inr (sym (ap (λ r. r.0) e) ∙ free)
  | inr idle ↦ inl idle
]

-- `tcp_server_accept` has two ends. It refuses the client, with `ERR_VAL`, and the connection that
-- is served goes on untouched: on an error, without a control block, or while the task of a client
-- has not ended, as its stack tells. Else, without an error, with a control block, and with no task
-- or one that has ended, the task starts on a connection that holds nothing of the one before, no
-- bytes, no error, no callback, whatever was left, and the client is accepted with `ERR_OK`, whatever
-- the task returns.
pub accept-fresh :
    {Chain : Type 0} (run : Client Chain → ℕ × Client Chain) (code : ℕ) (client_pcb : Option Pcb)
    (client : Client Chain)
    → (((code ≢ 0)
          ⊎ (client_pcb ≡ none)
          ⊎ ((client.task_set ≡ true) × ((sub_task_reset client.task_ws_header).0 ≡ false)))
        × (accept run code client_pcb client ≡ (err_val, client)))
      ⊎ ((pcb : Pcb) × (client_pcb ≡ some pcb)
          × (code ≡ 0)
          × ((client.task_set ≡ false) ⊎ ((sub_task_reset client.task_ws_header).0 ≡ true))
          × (accept run code client_pcb client
              ≡ (0, (run (fresh pcb (reset_task client).1 client.log)).1)))
unfolding accept
accept-fresh run zero none client = inl (inr (inl refl), refl)
accept-fresh run (suc code) client_pcb client =
    let bad : (suc code == 0) ≡ false = ground arith in inl (inl (omega arith), rw bad refl)
accept-fresh run zero (some pcb) client = elim (Bool-cases (reset_task client).0) [
  | inl free ↦ inr (pcb, refl, refl, reset_task-free client free, accept-runs run pcb client free)
  | inr busy ↦ inl (inr (inr (reset_task-taken client busy)), accept-refuses run pcb client busy)
]

-- What a task that has left the connection with the control block `last` adds to the log of lwIP:
-- nothing if it was lost; a close; or a close that failed, and an abort. No control block is left.
pub Ended : {Chain : Type 0} → (Pcb → ℕ) → Option Pcb → List Call → Client Chain → Type 0
Ended tcp_close last log client =
    (client.con.printed_circuit_board ≡ none)
    × (((last ≡ none) × (client.log ≡ log))
        ⊎ ((pcb : Pcb) × (last ≡ some pcb)
            × (((tcp_close pcb ≡ 0) × (client.log ≡ log ++ clears ∷ closes ∷ []))
                ⊎ ((tcp_close pcb ≢ 0) × (client.log ≡ log ++ clears ∷ closes ∷ aborts ∷ [])))))

close_pcb-lost :
    {Chain : Type 0} (tcp_close : Pcb → ℕ) (client : Client Chain)
    → client.con.printed_circuit_board ≡ none
    → close_pcb tcp_close client ≡ (0, client)
unfolding close_pcb
close_pcb-lost tcp_close client lost = rw lost refl

abbrev released : {Chain : Type 0} → Client Chain → List Call → Client Chain
released client calls = record client {
  con = record client.con { printed_circuit_board = none };
  log = client.log ++ calls;
}

close_pcb-held :
    {Chain : Type 0} (tcp_close : Pcb → ℕ) (pcb : Pcb) (client : Client Chain)
    → client.con.printed_circuit_board ≡ some pcb
    → ((tcp_close pcb ≡ 0)
        × (close_pcb tcp_close client ≡ (0, released client (clears ∷ closes ∷ []))))
      ⊎ ((tcp_close pcb ≢ 0)
          × (close_pcb tcp_close client
              ≡ (err_abrt, released client (clears ∷ closes ∷ aborts ∷ []))))
unfolding close_pcb
close_pcb-held tcp_close pcb client held = elim (Bool-cases (tcp_close pcb == 0)) [
  | inl good ↦ inl (ground arith, rw (held, good) refl)
  | inr bad ↦ inr (ground arith, rw (held, bad) refl)
]

close_pcb-Ended :
    {Chain : Type 0} (tcp_close : Pcb → ℕ) (client : Client Chain)
    → Ended tcp_close client.con.printed_circuit_board client.log (close_pcb tcp_close client).1
unfolding Ended
close_pcb-Ended tcp_close client = elim (Option-cases client.con.printed_circuit_board) [
  | inl lost ↦ rw (close_pcb-lost tcp_close client lost) (lost, inl (lost, refl))
  | inr (pcb, held) ↦ elim (close_pcb-held tcp_close pcb client held) [
    | inl (good, e) ↦ rw e (refl, inr (pcb, held, inl (good, refl)))
    | inr (bad, e) ↦ rw e (refl, inr (pcb, held, inr (bad, refl)))
  ]
]

-- What the peer closes is closed as by the task, and the connection is as `tcp_cli_con_recv` leaves
-- it.
peer_closes-con :
    {Chain : Type 0} (lwip : Lwip Chain) (tcp_close : Pcb → ℕ) (client : Client Chain)
    → (peer_closes lwip tcp_close client).con ≡ con_recv lwip none false client.con
unfolding peer_closes con_recv con_err
peer_closes-con lwip tcp_close client = elim (Option-cases client.con.printed_circuit_board) [
  | inl lost ↦ rw (close_pcb-lost tcp_close client lost) refl
  | inr (pcb, held) ↦ elim (close_pcb-held tcp_close pcb client held) [
    | inl (good, e) ↦ rw e refl
    | inr (bad, e) ↦ rw e refl
  ]
]

-- When the task of a client that is accepted is over, the connection that `do_ws_header` has left is
-- closed, with `tcp_abort` behind it just when `tcp_close` fails, and if it was lost before, by an
-- error or since the peer has closed, it is not closed once more; then no control block is left.
-- `tcp_server_accept` returns `ERR_OK`, also when it aborted.
pub accept-Ended :
    {Chain : Type 0} (tcp_close : Pcb → ℕ) (do_ws_header : Client Chain → ℕ × Client Chain)
    (pcb : Pcb) (client : Client Chain)
    → (reset_task client).0 ≡ true
    → let left = (do_ws_header (fresh pcb (reset_task client).1 client.log)).1 in
      let r = accept (do_cli_con_task tcp_close do_ws_header) 0 (some pcb) client in
      (r.0 ≡ 0) × Ended tcp_close left.con.printed_circuit_board left.log r.1
unfolding do_cli_con_task close
accept-Ended tcp_close do_ws_header pcb client free =
    rw (accept-runs (do_cli_con_task tcp_close do_ws_header) pcb client free) (
      refl,
      close_pcb-Ended tcp_close (do_ws_header (fresh pcb (reset_task client).1 client.log)).1,
    )
