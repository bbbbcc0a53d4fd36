-- ===== src/Server.antt =====
-- testing.c, the life of a connection: a client is accepted, its task runs, and the connection is
-- closed. Of the calls of lwIP that the code makes for a client there is a log.
pub mod Accept
mod Examples
use c_web_socket_pico_w_test.Base.{
  ℕ, zero, suc, ◌+◌, Bool, true, false, not, ◌&&◌, ◌||◌, ◌==◌, if◌then◌else◌, Option, none, some,
  List, [], ◌∷◌, ◌++◌, length,
}
use c_web_socket_pico_w_test.Lwip.{Lwip, Pcb}
use c_web_socket_pico_w_test.Con.{Con, err_clsd, con_err}

abbrev pub err_inprogress : ℕ
err_inprogress = 5

abbrev pub err_val : ℕ
err_val = 6

abbrev pub err_abrt : ℕ
err_abrt = 13

-- What the code asks of lwIP: the callbacks are registered, or taken off; `tcp_close`; `tcp_abort`.
pub data Call : Type 0 where
  registers clears closes aborts : Call

-- A word on the stack of a task: the address of `sub_task_trap`, or another.
pub data StackWord : Type 0 where
  sub_task_trap : StackWord
  word : ℕ → StackWord

-- `sub_task`: the stack from `stack_ptr` on.
pub record SubTask : Type 0 where
  pub stack : List StackWord

-- `sub_task_reset`. There is no trap behind the stack.
unfoldable pub sub_task_reset : SubTask → Bool × SubTask
sub_task_reset task = elim task.stack [
  | [] ↦ (false, task)
  | sub_task_trap ∷ rest ↦ (true, record { stack = rest })
  | word address ∷ rest ↦ (false, task)
]

-- `ws_cliant_con`: the fields of `Con`, whether `ack_callback.call` is set, and whether `task` is,
-- which can only be `task_ws_header`.
pub record Client (Chain : Type 0) : Type 0 where
  pub con : Con Chain
  pub ack_callback_set : Bool
  pub task_set : Bool
  pub task_ws_header : SubTask
  pub log : List Call

-- `set_ack_callback`.
unfoldable pub set_ack_callback : {Chain : Type 0} → Client Chain → Client Chain
set_ack_callback client = record client { ack_callback_set = true }

-- `ws_cli_con_close_pcb`, with the error; `tcp_close` gives its error without the sign.
unfoldable pub close_pcb : {Chain : Type 0} → (Pcb → ℕ) → Client Chain → ℕ × Client Chain
close_pcb tcp_close client = elim client.con.printed_circuit_board [
  | none ↦ (0, client)
  | some pcb ↦
      if tcp_close pcb == 0
      then (
        0,
        record client {
          con = record client.con { printed_circuit_board = none };
          log = client.log ++ clears ∷ closes ∷ [];
        },
      )
      else (
        err_abrt,
        record client {
          con = record client.con { printed_circuit_board = none };
          log = client.log ++ clears ∷ closes ∷ aborts ∷ [];
        },
      )
]

-- `tcp_cli_con_recv` when the peer has closed: the result of `ws_cli_con_close_pcb` is dropped.
unfoldable pub peer_closes : {Chain : Type 0} → Lwip Chain → (Pcb → ℕ) → Client Chain → Client Chain
peer_closes lwip tcp_close client =
    let (_, client1) = close_pcb tcp_close client in
    record client1 { con = con_err lwip err_clsd client1.con }

-- `ws_cli_con_close`, which only prints the status, and `do_cli_con_task`, behind `do_ws_header`.
unfoldable pub close : {Chain : Type 0} → (Pcb → ℕ) → ℕ → Client Chain → ℕ × Client Chain
close tcp_close status client = close_pcb tcp_close client

unfoldable pub do_cli_con_task :
    {Chain : Type 0}
    → (Pcb → ℕ)
    → (Client Chain → ℕ × Client Chain)
    → Client Chain
    → ℕ × Client Chain
do_cli_con_task tcp_close do_ws_header client =
    let (status, client') = do_ws_header client in close tcp_close status client'

-- Whether the client has no task or one that could be reset, and the task after that.
unfoldable pub reset_task : {Chain : Type 0} → Client Chain → Bool × SubTask
reset_task client =
    if client.task_set then sub_task_reset client.task_ws_header else (true, client.task_ws_header)

-- `reset_cli_con_for_new_client`.
unfoldable pub reset_for_new_client : {Chain : Type 0} → Client Chain → ℕ × Client Chain
reset_for_new_client client =
    let (done, task) = reset_task client in
    if not done then (err_inprogress, client) else (
      0,
      record client {
        con = record client.con {
          printed_circuit_board = none;
          p_current = none;
          recved_current = 0;
          notify_ack = false;
        };
        ack_callback_set = false;
        task_set = false;
        task_ws_header = task;
      },
    )

-- `tcp_server_accept`. `run` is the task of the client, by `iol_task_run`, which clears the active
-- error first, and returns 0 whatever the task returns.
unfoldable pub accept :
    {Chain : Type 0}
    → (Client Chain → ℕ × Client Chain)
    → ℕ
    → Option Pcb
    → Client Chain
    → ℕ × Client Chain
accept run code client_pcb client = if not (code == 0) then (err_val, client) else elim client_pcb [
  | none ↦ (err_val, client)
  | some pcb ↦
      let (failure, client1) = reset_for_new_client client in
      if not (failure == 0) then (err_val, client1) else (
        0,
        (run (record client1 {
          con = record client1.con { printed_circuit_board = some pcb; active_err = 0 };
          task_set = true;
          log = client1.log ++ registers ∷ [];
        })).1,
      )
]

-- What `tcp_server_open` leaves: a server that listens; nothing; or a control block that no one
-- closes.
pub data Opened : Type 0 where
  listening nothing leaked : Opened

-- `tcp_server_open`: whether there is a new control block, the error of `tcp_bind`, and whether
-- there is one that listens.
unfoldable pub server_open : Bool → ℕ → Bool → Bool × Opened
server_open new_pcb bind_error listens =
    if not new_pcb
    then (false, nothing)
    else if not (bind_error == 0)
    then (false, leaked)
    else if not listens
    then (false, nothing)
    else (true, listening)

-- `run_tcp_server_test`, with the memory of `calloc` or without.
unfoldable pub run_tcp_server_test : Bool → Bool → ℕ → Bool → Opened
run_tcp_server_test memory new_pcb bind_error listens =
    if not memory then nothing else (server_open new_pcb bind_error listens).1
