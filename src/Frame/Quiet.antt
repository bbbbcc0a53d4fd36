-- ===== src/Frame/Quiet.antt =====
-- `websocket_read` sends nothing.
use c_web_socket_pico_w_test.Base.{
  ℕ, zero, suc, ◌+◌, ◌-◌, ◌≡◌, refl, subst, bit_and, ◌>>◌, ◌⊎◌, ◌&&◌, not, ltb, leb, ◌==◌, u8, min,
  if◌then◌else◌, Bool, true, false, inl, inr, List, length,
}
use c_web_socket_pico_w_test.Lwip.{Lwip}
use c_web_socket_pico_w_test.Con.{Con, Script, Outcome, returns, waiting, done, failed, t_read}
use c_web_socket_pico_w_test.Con.Quiet.{Keeps, KeepsOutcome, t_read-Keeps}
use c_web_socket_pico_w_test.Frame.{
  Framer, Run, ok, fails, suspended, unread, starved, and_then, has_bits, opcode_of, opcode_data,
  opcode_text, load16, t_read8, skip, read_payload_length, read_key, next_frame, read_payload,
  websocket_read,
}

abbrev pub KeepsRun : {Chain A : Type 0} → List ℕ → Run Chain A → Type 0
KeepsRun bytes (ok a ws script) = Keeps bytes ws.con
KeepsRun bytes (fails code ws script) = Keeps bytes ws.con
KeepsRun bytes (suspended ws) = Keeps bytes ws.con
KeepsRun bytes unread = Unit
KeepsRun bytes starved = Unit

module _ {Chain : Type 0} (bytes : List ℕ) where
  and_then-Keeps :
      {A B : Type 0} (r : Run Chain A) (f : A → Framer Chain → Script Chain → Run Chain B)
      → KeepsRun bytes r
      → ((a : A) (ws : Framer Chain) (script : Script Chain)
          → Keeps bytes ws.con
          → KeepsRun bytes (f a ws script))
      → KeepsRun bytes (and_then r f)
  and_then-Keeps (ok a ws script) f h k = k a ws script h
  and_then-Keeps (fails code ws script) f h k = h
  and_then-Keeps (suspended ws) f h k = h
  and_then-Keeps unread f h k = tt
  and_then-Keeps starved f h k = tt

  if-Keeps :
      {A : Type 0} (b : Bool) (r t : Run Chain A)
      → KeepsRun bytes r
      → KeepsRun bytes t
      → KeepsRun bytes (if b then r else t)
  if-Keeps true r t hr ht = hr
  if-Keeps false r t hr ht = ht

Outcome-cases :
    {Chain : Type 0} (o : Outcome Chain)
    → ((got : List ℕ) × (con : Con Chain) × (script : Script Chain) × (o
          ≡ returns (done got) con script))
      ⊎ ((code : ℕ) × (con : Con Chain) × (script : Script Chain) × (o
            ≡ returns (failed code) con script))
      ⊎ ((con : Con Chain) × (o ≡ waiting con))
Outcome-cases (returns (done got) con script) = inl (got, con, script, refl)
Outcome-cases (returns (failed code) con script) = inr (inl (code, con, script, refl))
Outcome-cases (waiting con) = inr (inr (con, refl))

module _ {Chain : Type 0} (lwip : Lwip Chain) (bytes : List ℕ) where
  t_read8-Keeps :
      (size : ℕ) (ws : Framer Chain) (script : Script Chain)
      → Keeps bytes ws.con
      → KeepsRun bytes (t_read8 lwip size ws script)
  unfolding t_read8
  t_read8-Keeps size ws script h =
      let kept = t_read-Keeps lwip bytes size ws.con script h in
      elim (Outcome-cases (t_read lwip size ws.con script)) [
        | inl (got, con, script', e) ↦
            let on = subst (KeepsOutcome bytes) e kept in
            rw (t_read8, e) (if-Keeps bytes (leb 128 (u8 (length got))) _ _ on on)
        | inr (inl (code, con, script', e)) ↦
            let on = subst (KeepsOutcome bytes) e kept in
            rw (t_read8, e) (if-Keeps bytes (leb 128 (u8 (256 - u8 code))) _ _ on tt)
        | inr (inr (con, e)) ↦ rw (t_read8, e) (subst (KeepsOutcome bytes) e kept)
      ]

  skip-Keeps :
      (left : ℕ) (ws : Framer Chain) (script : Script Chain)
      → Keeps bytes ws.con
      → KeepsRun bytes (skip lwip left ws script)
  unfolding skip
  skip-Keeps zero ws script h = h
  skip-Keeps (suc left) ws script h =
      and_then-Keeps bytes (t_read8 lwip 1 ws script) _ (t_read8-Keeps 1 ws script h)
        (λ _ ws' script' h'. skip-Keeps left (record ws' { read_length = left }) script' h')

  length-Keeps :
      (header : ℕ) (ws : Framer Chain) (script : Script Chain)
      → Keeps bytes ws.con
      → KeepsRun bytes (read_payload_length lwip header ws script)
  unfolding read_payload_length
  length-Keeps header ws script h =
      if-Keeps bytes (bit_and (header >> 8) 0x007f == 126) _ _
        (and_then-Keeps bytes (t_read8 lwip 2 ws script) _ (t_read8-Keeps 2 ws script h)
          (λ _ ws' script' h'. h'))
        (if-Keeps bytes (bit_and (header >> 8) 0x007f == 127) _ _
          (and_then-Keeps bytes (t_read8 lwip 8 ws script) _ (t_read8-Keeps 8 ws script h)
            (λ _ ws' script' h'. h'))
          h)

  key-Keeps :
      (header : ℕ) (ws : Framer Chain) (script : Script Chain)
      → Keeps bytes ws.con
      → KeepsRun bytes (read_key lwip header ws script)
  unfolding read_key
  key-Keeps header ws script h =
      if-Keeps bytes (has_bits header 0x8000) _ _
        (and_then-Keeps bytes (t_read8 lwip 4 ws script) _ (t_read8-Keeps 4 ws script h)
          (λ _ ws' script' h'. h'))
        h

  next_frame-Keeps :
      (ws : Framer Chain) (script : Script Chain)
      → Keeps bytes ws.con
      → KeepsRun bytes (next_frame lwip ws script)
  unfolding next_frame
  next_frame-Keeps ws script h =
      and_then-Keeps bytes (t_read8 lwip 2 ws script) _ (t_read8-Keeps 2 ws script h)
        (λ b ws1 script1 h1.
          and_then-Keeps bytes (read_payload_length lwip (load16 lwip b) ws1 script1) _
            (length-Keeps (load16 lwip b) ws1 script1 h1)
            (λ len ws2 script2 h2.
              and_then-Keeps bytes
                (read_key lwip (load16 lwip b) (record ws2 { read_length = len }) script2) _
                (key-Keeps (load16 lwip b) (record ws2 { read_length = len }) script2 h2)
                (λ _ ws3 script3 h3.
                  if-Keeps bytes
                    (not (opcode_of (load16 lwip b) ws3.read_last_op == opcode_data)
                      && not (opcode_of (load16 lwip b) ws3.read_last_op == opcode_text))
                    _ _ (skip-Keeps ws3.read_length _ script3 h3) h3)))

  read_payload-Keeps :
      (addr size : ℕ) (ws : Framer Chain) (script : Script Chain)
      → Keeps bytes ws.con
      → KeepsRun bytes (read_payload lwip addr size ws script)
  unfolding read_payload
  read_payload-Keeps addr size ws script h =
      if-Keeps bytes (ltb 0 ws.read_length) _ _
        (and_then-Keeps bytes (t_read8 lwip (min ws.read_length size) ws script) _
          (t_read8-Keeps (min ws.read_length size) ws script h) (λ _ ws' script' h'. h'))
        h

  pub websocket_read-Keeps :
      (fuel addr size : ℕ) (ws : Framer Chain) (script : Script Chain)
      → Keeps bytes ws.con
      → KeepsRun bytes (websocket_read lwip fuel addr size ws script)
  unfolding websocket_read
  websocket_read-Keeps zero addr size ws script h = tt
  websocket_read-Keeps (suc fuel) addr size ws script h = if-Keeps bytes (size == 0) _ _ h (
      and_then-Keeps bytes (read_payload lwip addr size ws script) _
        (read_payload-Keeps addr size ws script h)
        (λ got ws1 script1 h1. if-Keeps bytes (size - length got == 0) _ _ h1 (
          and_then-Keeps bytes (next_frame lwip ws1 script1) _ (next_frame-Keeps ws1 script1 h1)
            (λ _ ws2 script2 h2.
              and_then-Keeps bytes
                (websocket_read lwip fuel (addr + length got) (size - length got) ws2 script2) _
                (websocket_read-Keeps fuel (addr + length got) (size - length got) ws2 script2 h2)
                (λ _ ws3 script3 h3. h3)))))
