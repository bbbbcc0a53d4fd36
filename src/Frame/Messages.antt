-- ===== src/Frame/Messages.antt =====
-- `websocket_read` on whole streams of frames: the application reads one stream of bytes.
use c_web_socket_pico_w_test.Base.{
  ℕ, zero, suc, ◌+◌, ◌-◌, ◌<◌, ◌≤◌, ◌≡◌, refl, sym, ap, ap₂, ◌∙◌, subst, arith, true, false, ◌==◌,
  Bool-cases, ℕ_le-cases, inl, inr, if◌then◌else◌, List, [], ◌∷◌, ◌++◌, length, length-append,
  length-take, take, drop, take-append_le, drop-append_le, take-append_ge, drop-append_ge,
  take_of_length-le, drop_of_length-le,
}
use c_web_socket_pico_w_test.Lwip.{Lwip, LwipLaws}
use c_web_socket_pico_w_test.Con.{Script}
use c_web_socket_pico_w_test.Con.Calm.{stream}
use c_web_socket_pico_w_test.Mask.Bytewise.{masked}
use c_web_socket_pico_w_test.Frame.{Framer, Run, ok, next_frame, read_payload, websocket_read}
use c_web_socket_pico_w_test.Frame.Rfc.{
  Frame, encode, after, delivers, rfc_after, delivered, wire, IsOrderly, rfc_after-orderly,
}
use c_web_socket_pico_w_test.Frame.Header.{begun, next_frame-delivers, next_frame-other}
use c_web_socket_pico_w_test.Frame.Payload.{At, read_payload-takes}

module _ {Chain : Type 0} (lwip : Lwip Chain) (laws : LwipLaws lwip) where
  -- The next frame is entered, or passed over with nothing of it to come.
  next_frame-enters :
      (f : Frame) (fs : List Frame) (ws : Framer Chain) (script : Script Chain)
      → At lwip ws script [] (f ∷ fs)
      → (ws' : Framer Chain) × (script' : Script Chain) × (current : List ℕ) × (next_frame lwip ws
            script
          ≡ ok tt ws' script')
        × (delivered ws.read_last_op (f ∷ fs) ≡ current ++ delivered ws'.read_last_op fs)
        × At lwip ws' script' current fs
  unfolding masked
  next_frame-enters f fs ws script at =
      let (valid, in_order, rest) = at.frames in
      let last : ℕ = ws.read_last_op in
      let same : after last f ≡ rfc_after last f = rfc_after-orderly last f in_order in
      let frames' : IsOrderly (after last f) fs = subst (λ l. IsOrderly l fs) (sym same) rest in
      elim (Bool-cases (delivers last f)) [
        | inl told ↦
            let (con', script', e, on') =
              next_frame-delivers lwip laws f (wire fs) ws script valid told at.on in
            (
              begun lwip laws con' ws f,
              script',
              f.payload,
              e,
              ap₂ (λ b l. (if b then f.payload else []) ++ delivered l fs) told (sym same),
              record {
                measured = refl;
                current_bytes = valid.2;
                key_word = valid.3;
                frames = frames';
                on = on';
              },
            )
        | inr untold ↦
            let (con', script', e, on') =
              next_frame-other lwip laws f (wire fs) ws script valid untold at.on in
            (
              record (begun lwip laws con' ws f) { read_length = 0 },
              script',
              [],
              e,
              ap₂ (λ b l. (if b then f.payload else []) ++ delivered l fs) untold (sym same),
              record {
                measured = refl;
                current_bytes = tt;
                key_word = valid.3;
                frames = frames';
                on = on';
              },
            )
      ]

  module _ (fuel addr size : ℕ) (got : List ℕ) (ws ws1 : Framer Chain)
      (script script1 : Script Chain) (pos : 0 < size)
      (e : read_payload lwip addr size ws script ≡ ok got ws1 script1) where
    read-done :
        size ≤ length got → websocket_read lwip (suc fuel) addr size ws script ≡ ok got ws1 script1
    unfolding websocket_read
    read-done h =
        let nonzero : (size == 0) ≡ false = ground arith in
        let all : (size - length got == 0) ≡ true = ground arith in rw (nonzero, e, all) refl

    read-on :
        (more : List ℕ) (ws2 ws3 : Framer Chain) (script2 script3 : Script Chain)
        → length got < size
        → next_frame lwip ws1 script1 ≡ ok tt ws2 script2
        → websocket_read lwip fuel (addr + length got) (size - length got) ws2 script2
          ≡ ok more ws3 script3
        → websocket_read lwip (suc fuel) addr size ws script ≡ ok (got ++ more) ws3 script3
    unfolding websocket_read
    read-on more ws2 ws3 script2 script3 h e2 e3 =
        let nonzero : (size == 0) ≡ false = ground arith in
        let part : (size - length got == 0) ≡ false = ground arith in
        rw (nonzero, e, part, e2, e3) refl

  -- What `websocket_read` gives: the next bytes of the content, and a framer at the others.
  abbrev pub Gives : ℕ → List ℕ → Run Chain (List ℕ) → Type 0
  Gives size content run =
      (ws : Framer Chain) × (script : Script Chain) × (current : List ℕ) × (fs : List Frame) × (run
        ≡ ok (take size content) ws script)
      × (current ++ delivered ws.read_last_op fs ≡ drop size content)
      × At lwip ws script current fs

  -- The frame that is under way has enough left.
  served :
      (fuel addr size : ℕ) (current : List ℕ) (fs : List Frame) (ws : Framer Chain)
      (script : Script Chain)
      → 0 < size
      → size < 128
      → At lwip ws script current fs
      → size ≤ length current
      → Gives size
          (current ++ delivered ws.read_last_op fs)
          (websocket_read lwip (suc fuel) addr size ws script)
  served fuel addr size current fs ws script pos small at there =
      let (ws1, script1, e1, same, at1) =
        read_payload-takes lwip laws addr size current fs ws script small at in
      (
        ws1,
        script1,
        drop size current,
        fs,
        read-done fuel addr size (take size current) ws ws1 script script1 pos e1
              (omega (arith, length-take size current))
            ∙ ap (λ l. ok l ws1 script1)
                (sym (take-append_le size current (delivered ws.read_last_op fs) there)),
        ap (λ l. drop size current ++ delivered l fs) same
            ∙ sym (drop-append_le size current (delivered ws.read_last_op fs) there),
        at1,
      )

  -- With a round of the loop for each frame and one more.
  rounds :
      (fuel addr size : ℕ) (current : List ℕ) (fs : List Frame) (ws : Framer Chain)
      (script : Script Chain)
      → size < 128
      → length fs < fuel
      → At lwip ws script current fs
      → size ≤ length (current ++ delivered ws.read_last_op fs)
      → Gives size
          (current ++ delivered ws.read_last_op fs)
          (websocket_read lwip fuel addr size ws script)
  unfolding websocket_read
  rounds zero addr size current fs ws script small enough at h = absurd (omega arith)
  rounds (suc fuel) addr zero current fs ws script small enough at h =
      (ws, script, current, fs, refl, refl, at)
  rounds (suc fuel) addr (suc n) current [] ws script small enough at h =
      served fuel addr (suc n) current [] ws script (omega arith) small at
        (omega (arith, length-append current []))
  rounds (suc fuel) addr (suc n) current (f ∷ fs) ws script small enough at h =
      let size : ℕ = suc n in
      elim (ℕ_le-cases size (length current)) [
        | inl there ↦ served fuel addr size current (f ∷ fs) ws script (omega arith) small at there
        | inr less ↦
            let (ws1, script1, e1, same, at1) =
              read_payload-takes lwip laws addr size current (f ∷ fs) ws script small at in
            let (ws2, script2, current2, e2, content2, at2) = next_frame-enters f fs ws1 script1 (
              subst (λ l. At lwip ws1 script1 l (f ∷ fs))
                (drop_of_length-le size current (omega arith)) at1) in
            let content : List ℕ = current2 ++ delivered ws2.read_last_op fs in
            let joined : delivered ws.read_last_op (f ∷ fs) ≡ content =
              ap (λ l. delivered l (f ∷ fs)) (sym same) ∙ content2 in
            let (ws3, script3, current3, fs3, e3, content3, at3) =
              rounds fuel (addr + length current) (size - length current) current2 fs ws2 script2
                (omega arith) (omega arith) at2
                (omega (
                  arith,
                  ap length joined,
                  length-append current (delivered ws.read_last_op (f ∷ fs)),
                )) in
            (
              ws3,
              script3,
              current3,
              fs3,
              read-on fuel addr size current ws ws1 script script1 (omega arith)
                    (e1 ∙ ap (λ l. ok l ws1 script1) (take_of_length-le size current (omega arith)))
                    (take (size - length current) content) ws2 ws3 script2 script3 less e2 e3
                  ∙ ap (λ l. ok l ws3 script3)
                      (sym (take-append_ge size current content (omega arith))
                        ∙ ap (λ l. take size (current ++ l)) (sym joined)),
              content3
                  ∙ sym (drop-append_ge size current content (omega arith))
                  ∙ ap (λ l. drop size (current ++ l)) (sym joined),
              at3,
            )
      ]

  length-wire : (fs : List Frame) → length fs ≤ length (wire fs)
  length-wire [] = omega arith
  length-wire (f ∷ fs) = omega (arith, length-wire fs, length-append (encode f) (wire fs))

  -- The application sees one stream of bytes: `websocket_read` returns the next `size` bytes of the
  -- payloads of the text and data messages, however the peer cuts them into frames, masks the
  -- frames and mixes them with others, and however TCP cuts the frames; the payload behind them is
  -- what later calls return. As many rounds as there are bytes to come and one more are enough.
  -- The connection stays open, the bytes will all come, no control frame stands within a message,
  -- and `size` is below 128, since the count of bytes goes through an `err_t` of 8 bits.
  pub websocket_read-content :
      (fuel addr size : ℕ) (current : List ℕ) (fs : List Frame) (ws : Framer Chain)
      (script : Script Chain)
      → size < 128
      → length (stream lwip ws.con script) < fuel
      → At lwip ws script current fs
      → size ≤ length (current ++ delivered ws.read_last_op fs)
      → Gives size
          (current ++ delivered ws.read_last_op fs)
          (websocket_read lwip fuel addr size ws script)
  websocket_read-content fuel addr size current fs ws script small enough at h =
      rounds fuel addr size current fs ws script small
        (omega (
          arith,
          ap length at.on.0,
          length-append (masked ws.read_mask current) (wire fs),
          length-wire fs,
        ))
        at h
