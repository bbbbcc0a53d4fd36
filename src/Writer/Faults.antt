-- ===== src/Writer/Faults.antt =====
-- Where the writer waits for what cannot come.
use c_web_socket_pico_w_test.Base.{
  ℕ, ◌≡◌, refl, ap, ◌∙◌, arith, Bool, true, false, not, ltb, ◌==◌, none, some, Option-cases,
  Bool-cases, inl, inr, List, [], ◌∷◌, length, All,
}
use c_web_socket_pico_w_test.Lwip.{Lwip, Pcb}
use c_web_socket_pico_w_test.Con.{Con, Script, Event, sent, recv, err, callback, con_recv}
use c_web_socket_pico_w_test.Writer.{Framinator, stalled, acked, and_next, ack_events}
use c_web_socket_pico_w_test.Writer.Send.{deliver, await_ack, websocket_flush}
use c_web_socket_pico_w_test.Writer.Flush.{IsNew}

-- Only bytes come in: nothing is in flight, so nothing is acknowledged.
abbrev pub only_bytes : {Chain : Type 0} → Event Chain → Bool
only_bytes (recv (some p) crowded) = true
only_bytes (recv none crowded) = false
only_bytes (err code) = false
only_bytes (sent queuelen room) = false

module _ {Chain : Type 0} (lwip : Lwip Chain) (tcp_output : Pcb → ℕ) where
  callback-quiet :
      (e : Event Chain) (con : Con Chain)
      → only_bytes e ≡ true
      → con.active_err ≡ 0
      → (callback lwip e con).active_err ≡ 0
  unfolding callback con_recv
  callback-quiet (recv none crowded) con h quiet = absurd (ground arith)
  callback-quiet (recv (some p) crowded) con h quiet =
      elim (Bool-cases (length (lwip.bytes p) == 0)) [
        | inl empty ↦ rw empty quiet
        | inr full ↦ elim (Option-cases con.p_current) [
          | inl e ↦ rw (full, e) quiet
          | inr (q, e) ↦ rw (full, e) quiet
        ]
      ]
  callback-quiet (err code) con h quiet = absurd (ground arith)
  callback-quiet (sent queuelen room) con h quiet = absurd (ground arith)

  no_ack :
      (e : Event Chain) (ws : Framinator Chain)
      → only_bytes e ≡ true
      → ack_events (e ∷ []) ws ≡ acked ws
  unfolding ack_events
  no_ack (recv p crowded) ws h = refl
  no_ack (err code) ws h = absurd (ground arith)
  no_ack (sent queuelen room) ws h = absurd (ground arith)

  deliver-quiet :
      (es : List (Event Chain)) (ws : Framinator Chain)
      → All (λ e. only_bytes e ≡ true) es
      → ws.con.active_err ≡ 0
      → (con' : Con Chain) × (deliver lwip tcp_output es ws ≡ acked (record ws { con = con' }))
        × (con'.active_err ≡ 0)
  unfolding deliver
  deliver-quiet [] ws h quiet = (ws.con, refl, quiet)
  deliver-quiet (e ∷ es) ws (h, hs) quiet =
      let (con', run, quiet') =
        deliver-quiet es (record ws { con = callback lwip e ws.con }) hs
          (callback-quiet e ws.con h quiet) in
      (
        con',
        ap
              (λ r.
                and_next r (λ ws'.
                  deliver lwip tcp_output es (record ws' { con = callback lwip e ws'.con })))
              (no_ack e ws h)
            ∙ run,
        quiet',
      )

  await_ack-quiet :
      (test : Framinator Chain → Bool) (ws : Framinator Chain) (script : Script Chain)
      → ((con : Con Chain) → test (record ws { con = con }) ≡ true)
      → All (All (λ e. only_bytes e ≡ true)) script
      → ws.con.active_err ≡ 0
      → (con' : Con Chain) × (await_ack lwip tcp_output test ws script
          ≡ stalled (record ws { con = con' }))
  unfolding await_ack
  await_ack-quiet test ws [] on h quiet = (ws.con, rw (on ws.con) refl)
  await_ack-quiet test ws (es ∷ script) on (h, hs) quiet =
      let (con1, run, quiet1) = deliver-quiet es ws h quiet in
      let awake : (con1.active_err == 0) ≡ true = ap (λ n. n == 0) quiet1 in
      let con2 : Con Chain = record con1 { notify_ack = false } in
      let (con', e) = await_ack-quiet test (record ws { con = con2 }) script on hs quiet1 in
      (con', rw (await_ack, on ws.con, run, awake) e)

  -- `websocket_flush` on a ring that is as new does not return while the connection stays open: nothing
  -- was written, nothing is in flight, and it waits until the tail comes to the head, which is behind
  -- the space for a header. Whatever bytes come in meanwhile do not end the wait.
  pub flush-idle :
      (pcb : Pcb) (ws : Framinator Chain) (script : Script Chain)
      → IsNew pcb ws
      → All (All (λ e. only_bytes e ≡ true)) script
      → (con' : Con Chain) × (websocket_flush lwip tcp_output ws script
          ≡ stalled (record ws { con = con' }))
  unfolding websocket_flush
  flush-idle pcb ws script new h =
      let nothing : ws.current_payload_len ≡ 0 = ap (λ w. w.current_payload_len) new.shape in
      let tail_at : ws.tail ≡ 0 = ap (λ w. w.tail) new.shape in
      let head_at : ws.head ≡ 8 = ap (λ w. w.head) new.shape in
      let empty : ltb 0 ws.current_payload_len ≡ false = ground arith in
      let apart : not (ws.tail == ws.head) ≡ true = ground arith in
      let (con', e) =
        await_ack-quiet (λ w. not (w.tail == w.head)) ws script (λ con. apart) h new.has.0 in
      (con', rw (websocket_flush, empty, e) refl)
