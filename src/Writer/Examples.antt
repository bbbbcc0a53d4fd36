-- ===== src/Writer/Examples.antt =====
-- Frames in the ring, with what TCP gets of them.
use c_web_socket_pico_w_test.Base.{
  ℕ, ◌+◌, ◌<◌, ◌≡◌, refl, arith, false, none, some, List, [], ◌∷◌, ◌++◌, map, codes, replicate,
}
use c_web_socket_pico_w_test.Lwip.{Pcb}
use c_web_socket_pico_w_test.Lwip.Pieces.{fours, fours-LwipLaws, fours-accepts}
use c_web_socket_pico_w_test.Con.{Con, recv}
use c_web_socket_pico_w_test.Frame.Rfc.{encode, wire}
use c_web_socket_pico_w_test.Writer.{Framinator, puts, stalled, and_put, acked, ack, tcp_snd_buf}
use c_web_socket_pico_w_test.Writer.Send.{
  complete_and_send_frame, advance_head, websocket_flush, initialize_framinator,
}
use c_web_socket_pico_w_test.Writer.Markers.{Sent, in_memory, ack-frames, ack-part}
use c_web_socket_pico_w_test.Writer.Frames.{framed, text_frame, completed, complete-sends}
use c_web_socket_pico_w_test.Writer.Flush.{IsNew, Flushed}
use c_web_socket_pico_w_test.Writer.Messages.{send_messages, acknowledged, messages-wire}
use c_web_socket_pico_w_test.Writer.Faults.{flush-idle}
use c_web_socket_pico_w_test.Writer.Collision.{Collides, advance_head-Collides}

abbrev full_pcb : Pcb
full_pcb = record { snd_buf = tcp_snd_buf; snd_queuelen = 0; written = []; recved = 0 }

abbrev con0 : Con (List ℕ)
con0 = record {
  printed_circuit_board = some full_pcb;
  p_current = none;
  recved_current = 0;
  notify_ack = false;
  active_err = 0;
}

abbrev new_ring : Framinator (List ℕ)
new_ring = framed con0 8 0 [] (replicate 8 0) [] (replicate 1016 0)

new_ring-IsNew : IsNew full_pcb new_ring
new_ring-IsNew = record {
  gap = replicate 8 0;
  back = replicate 1016 0;
  shape = refl;
  gap_len = refl;
  back_len = refl;
  has = (refl, refl);
}

messages-wire_example :
    Flushed full_pcb (wire (map text_frame (codes "42" ∷ codes "1023" ∷ []))) [] (
      and_put
        (initialize_framinator
          (λ n. some (replicate n 0))
          con0
          (acknowledged (codes "42" ∷ codes "1023" ∷ []) []))
        (λ _ ws script'.
          send_messages fours (λ _. 0) 1 (codes "42" ∷ codes "1023" ∷ []) ws script'))
messages-wire_example =
    messages-wire fours fours-LwipLaws fours-accepts (λ _. 0) (λ _. refl) 0
      (codes "42" ∷ codes "1023" ∷ []) (λ n. some (replicate n 0)) (replicate 1024 0) con0 full_pcb
      [] refl refl (refl, refl) refl (omega arith)

flush-idle_example :
    (con' : Con (List ℕ)) × (websocket_flush fours
        (λ _. 0)
        new_ring
        ((recv (some (codes "b")) false ∷ []) ∷ [])
      ≡ stalled (record new_ring { con = con' }))
flush-idle_example =
    flush-idle fours (λ _. 0) full_pcb new_ring ((recv (some (codes "b")) false ∷ []) ∷ [])
      new_ring-IsNew ((refl, tt), tt)

-- Two frames in a ring that begins elsewhere.
abbrev two_frames : List Sent
two_frames =
    record { send_len = 4; scratch = 8; body = replicate 8 7 }
    ∷ record { send_len = 6; scratch = 6; body = replicate 8 9 }
    ∷ []

abbrev ring_of : List Sent → Framinator (List ℕ)
ring_of fs = record new_ring { tail = 4; buf = replicate 4 0 ++ (in_memory fs ++ replicate 8 0) }

ack-frames_example : ack 10 (ring_of two_frames) ≡ acked (record (ring_of two_frames) { tail = 28 })
ack-frames_example =
    ack-frames (replicate 4 0) (replicate 8 0) two_frames (ring_of two_frames) (omega arith) refl
      refl (omega arith)

ack-part_example :
    (ack 2 (ring_of (record { send_len = 6; scratch = 6; body = replicate 8 9 } ∷ []))
      ≡ acked (record (ring_of (record { send_len = 6; scratch = 6; body = replicate 8 9 } ∷ [])) {
        tail = 12;
      }))
    × (4 < 12)
    × (12 < 16)
ack-part_example =
    ack-part (replicate 4 0) (replicate 8 0)
      (record { send_len = 6; scratch = 6; body = replicate 8 9 }) 2
      (ring_of (record { send_len = 6; scratch = 6; body = replicate 8 9 } ∷ [])) (omega arith)
      (omega arith) (omega arith) refl refl (omega arith)

-- A frame of 300 bytes in the middle of the ring.
complete-sends_example :
    (pcb' : Pcb) × (complete_and_send_frame fours
        (λ _. 0)
        (framed con0 320 0 (replicate 12 0) (replicate 8 0) (replicate 300 65) (replicate 704 0))
        []
      ≡ puts tt
          (completed fours fours-LwipLaws fours-accepts
            (λ _. 0)
            (λ _. refl)
            con0
            full_pcb
            320
            0
            (replicate 12 0)
            (replicate 4 0)
            []
            (replicate 4 0)
            (replicate 300 65)
            (replicate 704 0)
            refl
            refl
            refl
            pcb')
          [])
    × (pcb'.written ≡ encode (text_frame (replicate 300 65)))
    × (pcb'.snd_buf + 304 ≡ tcp_snd_buf)
complete-sends_example =
    complete-sends fours fours-LwipLaws fours-accepts (λ _. 0) (λ _. refl) con0 full_pcb 320 0
      (replicate 12 0) (replicate 4 0) [] (replicate 4 0) (replicate 300 65) (replicate 704 0) refl
      refl refl [] (refl, refl) (omega arith) (omega arith)

-- The ring has wrapped around; its first frame had 200 bytes and is acknowledged, and now there are
-- 192 in its place.
advance_head-Collides_example :
    Collides fours
      (λ _. 0)
      208
      []
      (advance_head fours
        (λ _. 0)
        (framed con0 200 208 [] (replicate 8 0) (replicate 192 65) (replicate 824 0))
        [])
advance_head-Collides_example =
    advance_head-Collides fours fours-LwipLaws fours-accepts (λ _. 0) (λ _. refl) con0 full_pcb []
      (replicate 4 0) (replicate 4 0) (replicate 192 65) (replicate 4 0) (replicate 820 0) [] refl
      refl refl (omega arith) refl (omega arith) (refl, refl) (omega arith)
