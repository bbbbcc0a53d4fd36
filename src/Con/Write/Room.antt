-- ===== src/Con/Write/Room.antt =====
-- `ws_t_write` while the peer acknowledges what it gets.
use c_web_socket_pico_w_test.Base.{
  ℕ, ◌+◌, ◌<◌, ◌≤◌, ◌≡◌, refl, ap, ap₂, ◌∙◌, arith, true, false, ◌==◌, ltb, Bool-cases, ℕ_le-cases,
  inl, inr, if◌then◌else◌, Option, Option-cases, none, some, List, [], ◌∷◌, ◌++◌, append_assoc,
  length, length-take, length-drop, take, drop, take-append-drop, All,
}
use c_web_socket_pico_w_test.Lwip.{Lwip, LwipLaws, Pcb}
use c_web_socket_pico_w_test.Con.{
  Con, Event, recv, err, sent, Script, err_clsd, callback, callbacks, con_recv, con_sent,
}
use c_web_socket_pico_w_test.Con.Calm.{calm, IsCalm}
use c_web_socket_pico_w_test.Con.Write.{
  Written, wrote, refused, blocked, null, await_room, push, t_write,
}

-- The room that the acknowledgments bring.
abbrev pub event_room : {Chain : Type 0} → Event Chain → ℕ
event_room (recv p crowded) = 0
event_room (err code) = 0
event_room (sent queuelen room) = room

abbrev pub wait_room : {Chain : Type 0} → List (Event Chain) → ℕ
wait_room [] = 0
wait_room (e ∷ es) = event_room e + wait_room es

abbrev pub script_room : {Chain : Type 0} → Script Chain → ℕ
script_room [] = 0
script_room (es ∷ script) = wait_room es + script_room script

-- The connection has this control block, and no error waits.
abbrev pub Has : {Chain : Type 0} → Con Chain → Pcb → Type 0
Has con pcb = (con.active_err ≡ 0) × (con.printed_circuit_board ≡ some pcb)

-- Room has come, and what was written has not changed.
abbrev pub Grown : Pcb → ℕ → Pcb → Type 0
Grown pcb room pcb' = (pcb'.written ≡ pcb.written) × (pcb'.snd_buf ≡ pcb.snd_buf + room)

module _ {Chain : Type 0} (lwip : Lwip Chain) where
  callback-room :
      (e : Event Chain) (con : Con Chain) (pcb : Pcb)
      → calm e ≡ true
      → Has con pcb
      → (pcb' : Pcb) × Has (callback lwip e con) pcb' × Grown pcb (event_room e) pcb'
  unfolding callback con_recv con_sent
  callback-room (recv none crowded) con pcb h has = absurd (ground arith)
  callback-room (recv (some p) crowded) con pcb h has = (pcb, kept, (refl, omega arith))
    where
      kept : Has (con_recv lwip (some p) crowded con) pcb
      kept = elim (Bool-cases (length (lwip.bytes p) == 0)) [
        | inl empty ↦ rw empty has
        | inr full ↦ elim (Option-cases con.p_current) [
          | inl e ↦ rw (full, e) has
          | inr (q, e) ↦ rw (full, e) has
        ]
      ]
  callback-room (err code) con pcb h has = absurd (ground arith)
  callback-room (sent queuelen room) con pcb h (quiet, there) = (
    record pcb { snd_buf = pcb.snd_buf + room; snd_queuelen = queuelen },
    (quiet, rw there refl),
    (refl, refl),
  )

  callbacks-room :
      (es : List (Event Chain)) (con : Con Chain) (pcb : Pcb)
      → All (λ e. calm e ≡ true) es
      → Has con pcb
      → (pcb' : Pcb) × Has (callbacks lwip es con) pcb' × Grown pcb (wait_room es) pcb'
  unfolding callbacks
  callbacks-room [] con pcb h has = (pcb, has, (refl, omega arith))
  callbacks-room (e ∷ es) con pcb h has =
      let (pcb1, has1, grown1) = callback-room e con pcb h.0 has in
      let (pcb2, has2, grown2) = callbacks-room es (callback lwip e con) pcb1 h.1 has1 in
      (pcb2, has2, (grown2.0 ∙ grown1.0, omega (arith, grown1.1, grown2.1)))

  module _ (bytes : List ℕ) (con : Con Chain) (pcb : Pcb)
      (there : con.printed_circuit_board ≡ some pcb) where
    pub push-fits :
        (script : Script Chain)
        → length bytes ≤ pcb.snd_buf
        → push lwip bytes con script
          ≡ wrote (record con { printed_circuit_board = some (lwip.tcp_write pcb bytes).1 }) script
    unfolding push
    push-fits [] h =
        let fits : ltb pcb.snd_buf (length bytes) ≡ false = ground arith in rw (there, fits) refl
    push-fits (es ∷ script) h =
        let fits : ltb pcb.snd_buf (length bytes) ≡ false = ground arith in rw (there, fits) refl

    abbrev filled : Con Chain
    filled = record con {
      printed_circuit_board = some (lwip.tcp_write pcb (take pcb.snd_buf bytes)).1;
    }

    push-more :
        (es : List (Event Chain)) (script : Script Chain)
        → pcb.snd_buf < length bytes
        → (lwip.tcp_write pcb (take pcb.snd_buf bytes)).0 ≡ 0
        → (callbacks lwip es filled).active_err ≡ 0
        → push lwip bytes con (es ∷ script)
          ≡ push lwip
              (drop pcb.snd_buf bytes)
              (record (callbacks lwip es filled) { notify_ack = false })
              script
    unfolding push
    push-more es script h taken quiet =
        let over : ltb pcb.snd_buf (length bytes) ≡ true = ground arith in
        let good : ((lwip.tcp_write pcb (take pcb.snd_buf bytes)).0 == 0) ≡ true = ground arith in
        let awake : ((callbacks lwip es filled).active_err == 0) ≡ true = ground arith in
        rw (there, over, good, awake) refl

  module _ (con : Con Chain) (pcb : Pcb) (there : con.printed_circuit_board ≡ some pcb) where
    pub await-some :
        (script : Script Chain) → 0 < pcb.snd_buf → await_room lwip con script ≡ wrote con script
    unfolding await_room
    await-some [] h =
        let some_room : (pcb.snd_buf == 0) ≡ false = ground arith in rw (there, some_room) refl
    await-some (es ∷ script) h =
        let some_room : (pcb.snd_buf == 0) ≡ false = ground arith in rw (there, some_room) refl

    abbrev await_step : List (Event Chain) → Script Chain → Option Pcb → Written Chain
    await_step es script p = elim p [
      | none ↦ null
      | some pcb ↦
          if pcb.snd_buf == 0
          then (if (callbacks lwip es con).active_err == 0
              then await_room lwip (record (callbacks lwip es con) { notify_ack = false }) script
              else refused (callbacks lwip es con).active_err (callbacks lwip es con) script)
          else wrote con (es ∷ script)
    ]

    await-more :
        (es : List (Event Chain)) (script : Script Chain)
        → pcb.snd_buf ≡ 0
        → (callbacks lwip es con).active_err ≡ 0
        → await_room lwip con (es ∷ script)
          ≡ await_room lwip (record (callbacks lwip es con) { notify_ack = false }) script
    unfolding await_room
    await-more es script full quiet =
        let none_free : (pcb.snd_buf == 0) ≡ true = ground arith in
        let awake : ((callbacks lwip es con).active_err == 0) ≡ true = ground arith in
        ap (await_step es script) there ∙ rw (none_free, awake) refl

module _ {Chain : Type 0} (lwip : Lwip Chain) (laws : LwipLaws lwip)
    (accepts : (pcb : Pcb) (bytes : List ℕ)
      → length bytes ≤ pcb.snd_buf
      → (lwip.tcp_write pcb bytes).0 ≡ 0) where
  -- The bytes are queued, once and in order, and take up as much of the room as they are long.
  abbrev pub Queued : Script Chain → Pcb → List ℕ → Written Chain → Type 0
  Queued script pcb bytes o =
      (con' : Con Chain) × (script' : Script Chain) × (pcb' : Pcb) × (o ≡ wrote con' script')
      × Has con' pcb'
      × (pcb'.written ≡ pcb.written ++ bytes)
      × IsCalm script'
      × (pcb'.snd_buf + script_room script' + length bytes ≡ pcb.snd_buf + script_room script)

  at_once :
      (bytes : List ℕ) (con : Con Chain) (pcb : Pcb) (script : Script Chain)
      → Has con pcb
      → IsCalm script
      → length bytes ≤ pcb.snd_buf
      → Queued script pcb bytes (push lwip bytes con script)
  at_once bytes con pcb script has calm_script fits =
      let (queued, left) = laws.tcp_write-ok pcb bytes (accepts pcb bytes fits) in
      (
        _,
        script,
        _,
        push-fits lwip bytes con pcb has.1 script fits,
        (has.0, refl),
        queued,
        calm_script,
        omega (arith, left),
      )

  push-over :
      (bytes : List ℕ) (con : Con Chain) (pcb : Pcb) (script : Script Chain)
      → Has con pcb
      → IsCalm script
      → length bytes ≤ pcb.snd_buf + script_room script
      → pcb.snd_buf < length bytes
      → Queued script pcb bytes (push lwip bytes con script)
  push-over bytes con pcb [] has calm_script h over = absurd (omega arith)
  push-over bytes con pcb (es ∷ script) has calm_script h over =
      let part : List ℕ = take pcb.snd_buf bytes in
      let rest : List ℕ = drop pcb.snd_buf bytes in
      let taken = accepts pcb part (omega (arith, length-take pcb.snd_buf bytes)) in
      let (queued, left) = laws.tcp_write-ok pcb part taken in
      let (pcb1, has1, grown) =
        callbacks-room lwip es (filled lwip bytes con pcb has.1) (lwip.tcp_write pcb part).1
          calm_script.0 (has.0, refl) in
      let woken : Con Chain = record (callbacks lwip es (filled lwip bytes con pcb has.1)) {
        notify_ack = false;
      } in
      let fits : length rest ≤ pcb1.snd_buf + script_room script =
        omega
          (arith, left, grown.1, length-take pcb.snd_buf bytes, length-drop pcb.snd_buf bytes) in
      let next : Queued script pcb1 rest (push lwip rest woken script) =
        elim (ℕ_le-cases (length rest) pcb1.snd_buf) [
          | inl there ↦ at_once rest woken pcb1 script has1 calm_script.1 there
          | inr more ↦ push-over rest woken pcb1 script has1 calm_script.1 fits more
        ] in
      let (con2, script2, pcb2, e, has2, queued2, calm2, room2) = next in
      (
        con2,
        script2,
        pcb2,
        push-more lwip bytes con pcb has.1 es script over taken has1.0 ∙ e,
        has2,
        queued2
            ∙ ap (λ l. l ++ rest) (grown.0 ∙ queued)
            ∙ append_assoc pcb.written part rest
            ∙ ap (λ l. pcb.written ++ l) (take-append-drop pcb.snd_buf bytes),
        calm2,
        omega (
          arith,
          room2,
          left,
          grown.1,
          length-take pcb.snd_buf bytes,
          length-drop pcb.snd_buf bytes,
        ),
      )

  push-Queued :
      (bytes : List ℕ) (con : Con Chain) (pcb : Pcb) (script : Script Chain)
      → Has con pcb
      → IsCalm script
      → length bytes ≤ pcb.snd_buf + script_room script
      → Queued script pcb bytes (push lwip bytes con script)
  push-Queued bytes con pcb script has calm_script h =
      elim (ℕ_le-cases (length bytes) pcb.snd_buf) [
        | inl fits ↦ at_once bytes con pcb script has calm_script fits
        | inr over ↦ push-over bytes con pcb script has calm_script h over
      ]

  pub await-room :
      (con : Con Chain) (pcb : Pcb) (script : Script Chain)
      → Has con pcb
      → IsCalm script
      → 0 < pcb.snd_buf + script_room script
      → (con' : Con Chain) × (script' : Script Chain) × (pcb' : Pcb) × (await_room lwip con script
          ≡ wrote con' script')
        × Has con' pcb'
        × IsCalm script'
        × (pcb'.written ≡ pcb.written)
        × (pcb'.snd_buf + script_room script' ≡ pcb.snd_buf + script_room script)
  await-room con pcb [] has calm_script h =
      (con, [], pcb, await-some lwip con pcb has.1 [] (omega arith), has, tt, refl, refl)
  await-room con pcb (es ∷ script) has calm_script h = elim (ℕ_le-cases pcb.snd_buf 0) [
    | inr some_room ↦ (
      con,
      es ∷ script,
      pcb,
      await-some lwip con pcb has.1 (es ∷ script) some_room,
      has,
      calm_script,
      refl,
      refl,
    )
    | inl full ↦
        let (pcb1, has1, grown) = callbacks-room lwip es con pcb calm_script.0 has in
        let woken : Con Chain = record (callbacks lwip es con) { notify_ack = false } in
        let (con2, script2, pcb2, e, has2, calm2, same, room) =
          await-room woken pcb1 script has1 calm_script.1 (omega (arith, grown.1)) in
        (
          con2,
          script2,
          pcb2,
          await-more lwip con pcb has.1 es script (omega arith) has1.0 ∙ e,
          has2,
          calm2,
          same ∙ grown.0,
          omega (arith, grown.1, room),
        )
  ]

  pub t_write-on :
      (bytes : List ℕ) (con con1 : Con Chain) (pcb : Pcb) (script script1 : Script Chain)
      → con.printed_circuit_board ≡ some pcb
      → await_room lwip con script ≡ wrote con1 script1
      → t_write lwip bytes con script ≡ push lwip bytes con1 script1
  unfolding t_write
  t_write-on bytes con con1 pcb script script1 there e = ap₂ step there e
    where
      step : Option Pcb → Written Chain → Written Chain
      step p o = elim p [
        | none ↦ refused err_clsd con script
        | some _ ↦ elim o [
          | wrote con' script' ↦ push lwip bytes con' script'
          | refused code con' script' ↦ refused code con' script'
          | blocked con' ↦ blocked con'
          | null ↦ null
        ]
      ]

  -- `ws_t_write` returns, and has queued the bytes exactly once and in order behind those queued
  -- before, if the room in the send buffer and that of the acknowledgments to come make up the
  -- length, which is not 0; the rest of the room is left. The connection stays open, and `tcp_write` takes what fits in the
  -- buffer.
  pub t_write-Queued :
      (bytes : List ℕ) (con : Con Chain) (pcb : Pcb) (script : Script Chain)
      → Has con pcb
      → IsCalm script
      → 0 < length bytes
      → length bytes ≤ pcb.snd_buf + script_room script
      → Queued script pcb bytes (t_write lwip bytes con script)
  t_write-Queued bytes con pcb script has calm_script some_bytes h =
      let (con1, script1, pcb1, e, has1, calm1, same, room) =
        await-room con pcb script has calm_script (omega arith) in
      let (con2, script2, pcb2, e2, has2, queued, calm2, room2) =
        push-Queued bytes con1 pcb1 script1 has1 calm1 (omega (arith, room)) in
      (
        con2,
        script2,
        pcb2,
        t_write-on bytes con con1 pcb script script1 has.1 e ∙ e2,
        has2,
        queued ∙ ap (λ l. l ++ bytes) same,
        calm2,
        omega (arith, room, room2),
      )

  -- What fits in the send buffer is queued at once, whatever comes later.
  pub t_write-fits :
      (bytes : List ℕ) (con : Con Chain) (pcb : Pcb) (script : Script Chain)
      → Has con pcb
      → 0 < pcb.snd_buf
      → length bytes ≤ pcb.snd_buf
      → (t_write lwip bytes con script
          ≡ wrote (record con { printed_circuit_board = some (lwip.tcp_write pcb bytes).1 }) script)
        × ((lwip.tcp_write pcb bytes).1.written ≡ pcb.written ++ bytes)
        × ((lwip.tcp_write pcb bytes).1.snd_buf + length bytes ≡ pcb.snd_buf)
  t_write-fits bytes con pcb script has room fits =
      let (queued, left) = laws.tcp_write-ok pcb bytes (accepts pcb bytes fits) in
      (
        t_write-on bytes con con pcb script script has.1 (await-some lwip con pcb has.1 script room)
            ∙ push-fits lwip bytes con pcb has.1 script fits,
        queued,
        left,
      )
