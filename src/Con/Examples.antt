-- ===== src/Con/Examples.antt =====
-- A request line in three buffers, on an open connection.
use c_web_socket_pico_w_test.Base.{
  ℕ, ◌^◌, ◌≡◌, ◌⊎◌, refl, arith, true, false, none, some, List, [], ◌∷◌, codes, length, ◌++◌, ◌<◌,
}
use c_web_socket_pico_w_test.Lwip.{content}
use c_web_socket_pico_w_test.Con.{
  consume, peak, recv, err, sent, Con, Script, done, failed, Outcome, returns, waiting, read,
  announce, callback, callbacks, con_recv, con_err, con_sent, behind, t_read, check_reason,
  notified,
}
use c_web_socket_pico_w_test.Lwip.Pieces.{
  Chain, pieces, pieces-LwipLaws, write, pieces-accepts, flat, flat-LwipLaws,
}
use c_web_socket_pico_w_test.Con.Write.{t_write_barrier, Written, wrote, await_room, push, t_write}
use c_web_socket_pico_w_test.Con.Calm.{pending, stream, IsOpen, IsCalm}
use c_web_socket_pico_w_test.Con.Peak.{t_peak, t_peak-stream, consume-peak}
use c_web_socket_pico_w_test.Con.Stream.{Returned, t_read-stream}
use c_web_socket_pico_w_test.Con.Bounds.{Whole, t_read-Whole, t_read-too_large}
use c_web_socket_pico_w_test.Con.Notify.{check_reason-callback}
use c_web_socket_pico_w_test.Lock.Steps.{contains}
use c_web_socket_pico_w_test.Con.Write.Barrier.{Drained, t_write_barrier-Drained}
use c_web_socket_pico_w_test.Con.Write.Room.{Queued, t_write-Queued}

abbrev connected : Con Chain
connected = record {
  printed_circuit_board = some (record { snd_buf = 4; snd_queuelen = 0; written = []; recved = 0 });
  p_current = some (codes "GE", []);
  recved_current = 0;
  notify_ack = false;
  active_err = 0;
}

abbrev arriving : Script Chain
arriving =
    (sent 0 10 ∷ recv (some (codes "T /", codes "HT" ∷ [])) false ∷ [])
    ∷ (recv (some (codes "TP", [])) true ∷ [])
    ∷ []

-- What is read, and what `tcp_recved` was told of it.
abbrev outcome : Outcome Chain → List ℕ × ℕ
outcome (returns (done bytes) con script) =
    (bytes, elim con.printed_circuit_board [ none ↦ 0 | some pcb ↦ pcb.recved ])
outcome (returns (failed code) con script) = ([], code)
outcome (waiting con) = ([], 0)

read_request : outcome (t_read pieces 8 connected arriving) ≡ (codes "GET /HTT", 8)
unfolding t_read read announce callbacks callback con_recv con_sent behind pieces
read_request = refl

reset_by_peer : outcome (t_read pieces 8 connected ((err 14 ∷ []) ∷ [])) ≡ ([], 14)
unfolding t_read read announce callbacks callback con_err behind pieces
reset_by_peer = refl

t_read-stream_example : Returned pieces 8 (codes "GET /HTTP") (t_read pieces 8 connected arriving)
unfolding content pieces
t_read-stream_example =
    t_read-stream pieces pieces-LwipLaws 8 connected arriving (omega arith) (refl, (_, refl))
      ((refl, (refl, tt)), ((refl, tt), tt)) (omega arith)

t_read-Whole_example : Whole 8 (t_read pieces 8 connected arriving)
t_read-Whole_example = t_read-Whole pieces pieces-LwipLaws 8 connected arriving

t_read-too_large_example :
    (con' : Con Chain) × (t_read pieces (2 ^ 16) connected arriving ≡ waiting con')
t_read-too_large_example =
    t_read-too_large pieces pieces-LwipLaws connected arriving (refl, (_, refl))
      ((refl, (refl, tt)), ((refl, tt), tt))

check_reason-callback_example :
    (check_reason pieces connected 3 0 ≡ true) ⊎ (contains (notified pieces (sent 0 10)) 3 ≡ true)
check_reason-callback_example =
    check_reason-callback pieces (sent 0 10) connected 3 0
      (unfold check_reason callback con_sent in refl)

-- Six bytes through a send buffer of four, of which three are acknowledged.
t_write-Queued_example :
    Queued pieces pieces-LwipLaws pieces-accepts
      ((sent 0 3 ∷ []) ∷ [])
      (record { snd_buf = 4; snd_queuelen = 0; written = []; recved = 0 })
      (codes "abcdef")
      (t_write pieces (codes "abcdef") connected ((sent 0 3 ∷ []) ∷ []))
t_write-Queued_example =
    t_write-Queued pieces pieces-LwipLaws pieces-accepts (codes "abcdef") connected _
      ((sent 0 3 ∷ []) ∷ []) (refl, refl) ((refl, tt), tt) (omega arith) (omega arith)

abbrev queue : Written Chain → List ℕ
queue (wrote con script) = elim con.printed_circuit_board [ none ↦ [] | some pcb ↦ pcb.written ]
queue o = []

write_in_two :
    queue (t_write pieces (codes "abcdef") connected ((sent 0 3 ∷ []) ∷ [])) ≡ codes "abcdef"
unfolding t_write await_room push callbacks callback con_sent pieces write
write_in_two = refl

consume-peak_example :
    let (code, con') = consume pieces connected (length (peak pieces connected)) in
    (code ≡ 0)
    × (pending pieces connected ≡ peak pieces connected ++ pending pieces con')
    × IsOpen con'
consume-peak_example =
    consume-peak pieces pieces-LwipLaws connected (refl, (_, refl))
      (unfold peak pieces in omega arith)

-- Nothing there yet.
abbrev silent : Con (List ℕ)
silent = record {
  printed_circuit_board = some (record { snd_buf = 4; snd_queuelen = 0; written = []; recved = 0 });
  p_current = none;
  recved_current = 0;
  notify_ack = false;
  active_err = 0;
}

abbrev answer : Script (List ℕ)
answer = (sent 0 3 ∷ []) ∷ (recv (some (codes "GET")) false ∷ []) ∷ []

t_peak-stream_example :
    (con' : Con (List ℕ)) × (script' : Script (List ℕ)) × (t_peak flat silent answer
      ≡ returns (done (peak flat con')) con' script')
    × (0 < length (peak flat con'))
    × (stream flat con' script' ≡ stream flat silent answer)
    × IsOpen con'
    × IsCalm script'
t_peak-stream_example =
    t_peak-stream flat flat-LwipLaws (unfold flat in λ c h. h) silent answer (refl, (_, refl))
      ((refl, tt), ((refl, tt), tt)) (unfold content flat in omega arith)

t_write_barrier-Drained_example : Drained (t_write_barrier pieces connected ((sent 0 3 ∷ []) ∷ []))
t_write_barrier-Drained_example = t_write_barrier-Drained pieces connected ((sent 0 3 ∷ []) ∷ [])
