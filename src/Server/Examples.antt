-- ===== src/Server/Examples.antt =====
-- A second client after the first.
use c_web_socket_pico_w_test.Base.{
  ℕ, ◌≡◌, ◌≢◌, refl, true, false, none, some, List, [], ◌∷◌, ◌⊎◌, codes,
}
use c_web_socket_pico_w_test.Lwip.{Pcb}
use c_web_socket_pico_w_test.Lwip.Pieces.{fours}
use c_web_socket_pico_w_test.Server.{
  Client, SubTask, sub_task_trap, word, sub_task_reset, reset_task, registers, accept,
  do_cli_con_task, err_val,
}
use c_web_socket_pico_w_test.Server.Accept.{fresh, accept-fresh, Ended, accept-Ended}

abbrev new_pcb : Pcb
new_pcb = record { snd_buf = 100; snd_queuelen = 0; written = []; recved = 0 }

abbrev ended_task : SubTask
ended_task = record { stack = sub_task_trap ∷ word 7 ∷ [] }

-- The connection before was lost in the middle of a read.
abbrev left : Client (List ℕ)
left = record {
  con = record {
    printed_circuit_board = none;
    p_current = some (codes "rest");
    recved_current = 3;
    notify_ack = true;
    active_err = 15;
  };
  ack_callback_set = true;
  task_set = true;
  task_ws_header = ended_task;
  log = registers ∷ [];
}

-- A task that answers and returns an error.
abbrev header : Client (List ℕ) → ℕ × Client (List ℕ)
header client = elim client.con.printed_circuit_board [
  | none ↦ (15, client)
  | some pcb ↦ (
    15,
    record client {
      con = record client.con {
        printed_circuit_board = some (fours.tcp_write pcb (codes "HTTP/1.1 200 OK")).1;
      };
    },
  )
]

accept-fresh_example :
    (((◌≢◌ {A = ℕ} 0 0)
        ⊎ (some new_pcb ≡ none)
        ⊎ ((true ≡ true) × ((sub_task_reset ended_task).0 ≡ false)))
      × (accept header 0 (some new_pcb) left ≡ (err_val, left)))
    ⊎ ((pcb : Pcb) × (some new_pcb ≡ some pcb)
        × (◌≡◌ {A = ℕ} 0 0)
        × ((true ≡ false) ⊎ ((sub_task_reset ended_task).0 ≡ true))
        × (accept header 0 (some new_pcb) left
            ≡ (0, (header (fresh pcb (reset_task left).1 (registers ∷ []))).1)))
accept-fresh_example = accept-fresh header 0 (some new_pcb) left

-- `tcp_close` fails.
accept-Ended_example :
    let last = (header (fresh new_pcb (reset_task left).1 (registers ∷ []))).1 in
    let r = accept (do_cli_con_task (λ _. 1) header) 0 (some new_pcb) left in
    (r.0 ≡ 0) × Ended (λ _. 1) last.con.printed_circuit_board last.log r.1
unfolding reset_task sub_task_reset
accept-Ended_example = accept-Ended (λ _. 1) header new_pcb left refl
