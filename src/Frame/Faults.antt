-- ===== src/Frame/Faults.antt =====
-- Where `websocket_read` departs from RFC 6455: reads of 128 bytes, and control frames inside of
-- messages.
use c_web_socket_pico_w_test.Base.{
  ℕ, suc, ◌-◌, ◌%◌, ◌^◌, ◌<◌, ◌≤◌, ◌≡◌, refl, ap, ◌∙◌, arith, true, false, ◌==◌, leb, ltb, min,
  if◌then◌else◌, List, ◌++◌, length, length-take, take, drop, u8,
}
use c_web_socket_pico_w_test.Lwip.{Lwip, LwipLaws}
use c_web_socket_pico_w_test.Con.{Script}
use c_web_socket_pico_w_test.Con.Calm.{IsCalm, IsOpen, stream, On}
use c_web_socket_pico_w_test.Con.Stream.{t_read-stream}
use c_web_socket_pico_w_test.Frame.{
  Framer, ok, fails, and_then, t_read8, next_frame, read_payload, websocket_read,
}
use c_web_socket_pico_w_test.Frame.Rfc.{
  Frame, encode, IsFrame, effective, after, delivers, rfc_after,
}
use c_web_socket_pico_w_test.Frame.Header.{begun, next_frame-other}

module _ {Chain : Type 0} (lwip : Lwip Chain) (laws : LwipLaws lwip) where
  -- The count of a complete read, as an `err_t`.
  t_read8-negative :
      (size : ℕ) (ws : Framer Chain) (script : Script Chain)
      → size < 2 ^ 16
      → 128 ≤ size % 2 ^ 8
      → IsOpen ws.con
      → IsCalm script
      → size ≤ length (stream lwip ws.con script)
      → (ws' : Framer Chain) × (script' : Script Chain) × (t_read8 lwip size ws script
          ≡ fails (256 - size % 2 ^ 8) ws' script')
        × (stream lwip ws'.con script' ≡ drop size (stream lwip ws.con script))
  unfolding t_read8
  t_read8-negative size ws script small large on calm h =
      let (con', script', e, left, _, _) =
        t_read-stream lwip laws size ws.con script small on calm h in
      let got : List ℕ = take size (stream lwip ws.con script) in
      let count : length got ≡ size = omega (arith, length-take size (stream lwip ws.con script)) in
      let negative : leb 128 (u8 (length got)) ≡ true = ground arith in
      (
        record ws { con = con' },
        script',
        rw (t_read8, e, negative)
            (ap (λ k. fails (256 - u8 k) (record ws { con = con' }) script') count),
        left,
      )

  -- A read that the frame under way could serve fails, with the code that its own size has as an
  -- `err_t`, when the size modulo 256 is 128 or more: all `size` bytes are taken off the stream, and
  -- the caller gets an error. The size is below 64 KB, the connection stays open, and the bytes will
  -- all come.
  pub websocket_read-negative :
      (fuel addr size : ℕ) (ws : Framer Chain) (script : Script Chain)
      → size < 2 ^ 16
      → 128 ≤ size % 2 ^ 8
      → size ≤ ws.read_length
      → IsOpen ws.con
      → IsCalm script
      → size ≤ length (stream lwip ws.con script)
      → (ws' : Framer Chain) × (script' : Script Chain) × (websocket_read lwip
            (suc fuel)
            addr
            size
            ws
            script
          ≡ fails (256 - size % 2 ^ 8) ws' script')
        × (stream lwip ws'.con script' ≡ drop size (stream lwip ws.con script))
  unfolding websocket_read read_payload
  websocket_read-negative fuel addr size ws script small large fits on calm h =
      let (ws', script', e, gone) = t_read8-negative size ws script small large on calm h in
      let nonzero : (size == 0) ≡ false = ground arith in
      let left : ltb 0 ws.read_length ≡ true = ground arith in
      let can : min ws.read_length size ≡ size = omega arith in
      (ws', script', rw (nonzero, left, can, e) refl, gone)

  -- A control frame between two fragments of a message, which RFC 6455, section 5.4, allows, loses
  -- the message: it clears `read_lastOp`, and the next fragment, which RFC 6455 says is delivered,
  -- is passed over as a whole.
  pub next_frame-interrupted :
      (f g : Frame) (ys : List ℕ) (ws : Framer Chain) (script : Script Chain)
      → IsFrame f
      → IsFrame g
      → 8 ≤ f.opcode
      → f.fin ≡ true
      → g.opcode ≡ 0
      → delivers ws.read_last_op g ≡ true
      → On lwip ws.con script (encode f ++ (encode g ++ ys))
      → (ws' : Framer Chain) × (script' : Script Chain) × (and_then
            (next_frame lwip ws script)
            (λ _ ws1 script1. next_frame lwip ws1 script1)
          ≡ ok tt ws' script')
        × (ws'.read_length ≡ 0)
        × On lwip ws'.con script' ys
        × (delivers (rfc_after ws.read_last_op f) g ≡ true)
  next_frame-interrupted f g ys ws script valid_f valid_g control whole continues told on =
      let untold : delivers ws.read_last_op f ≡ false = ground arith in
      let (con1, script1, e1, on1) =
        next_frame-other lwip laws f (encode g ++ ys) ws script valid_f untold on in
      let ws1 : Framer Chain = record (begun lwip laws con1 ws f) { read_length = 0 } in
      let cleared : after ws.read_last_op f ≡ 0 =
        ap (λ b. if b then 0 else effective ws.read_last_op f) whole in
      let lost : delivers ws1.read_last_op g ≡ false = ground arith in
      let (con2, script2, e2, on2) = next_frame-other lwip laws g ys ws1 script1 valid_g lost on1 in
      (
        record (begun lwip laws con2 ws1 g) { read_length = 0 },
        script2,
        ap (λ r. and_then r (λ _ ws1 script1. next_frame lwip ws1 script1)) e1 ∙ e2,
        refl,
        on2,
        ground (arith, told),
      )
