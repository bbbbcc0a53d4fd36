-- ===== src/Frame/Payload.antt =====
-- The piece of a payload that one call of `websocket_read` takes first.
use c_web_socket_pico_w_test.Base.{
  ℕ, ◌-◌, ◌<◌, ◌≤◌, ◌≡◌, refl, sym, ap, ap₂, ◌∙◌, subst, arith, true, false, ltb, min, List, [],
  ◌∷◌, ◌++◌, append_assoc, length, length-take, length-drop, take, drop, take-append-drop, take-nil,
  drop-nil, drop-min, take-min, All, All-take, All-drop, IsByte, IsU32,
}
use c_web_socket_pico_w_test.Lwip.{Lwip, LwipLaws}
use c_web_socket_pico_w_test.Con.{Script}
use c_web_socket_pico_w_test.Mask.{apply_mask}
use c_web_socket_pico_w_test.Mask.Rotation.{turns, turns-IsU32}
use c_web_socket_pico_w_test.Mask.Bytewise.{
  masked, masked-append, length-masked, masked-IsByte, masked_twice,
}
use c_web_socket_pico_w_test.Mask.Payload.{apply_mask-whole}
use c_web_socket_pico_w_test.Frame.{Framer, ok, t_read8, read_payload}
use c_web_socket_pico_w_test.Con.Calm.{On}
use c_web_socket_pico_w_test.Frame.Reads.{t_read8-takes}
use c_web_socket_pico_w_test.Frame.Rfc.{Frame, wire, IsOrderly}

module _ {Chain : Type 0} (lwip : Lwip Chain) where
  -- The framer stands in a payload with `current` to come, and `fs` are the frames behind it.
  pub record At (ws : Framer Chain) (script : Script Chain) (current : List ℕ) (fs : List Frame)
      : Type 0 where
    pub measured : ws.read_length ≡ length current
    pub current_bytes : All IsByte current
    pub key_word : IsU32 ws.read_mask
    pub frames : IsOrderly ws.read_last_op fs
    pub on : On lwip ws.con script (masked ws.read_mask current ++ wire fs)

module _ {Chain : Type 0} (lwip : Lwip Chain) (laws : LwipLaws lwip) where
  read_payload-none :
      (addr size : ℕ) (ws : Framer Chain) (script : Script Chain)
      → ws.read_length ≡ 0
      → read_payload lwip addr size ws script ≡ ok [] ws script
  unfolding read_payload
  read_payload-none addr size ws script none_left =
      let nothing : ltb 0 ws.read_length ≡ false = ground arith in rw nothing refl

  read_payload-some :
      (addr size k m : ℕ) (b plain : List ℕ) (ws ws1 : Framer Chain) (script script1 : Script Chain)
      → 0 < ws.read_length
      → min ws.read_length size ≡ k
      → t_read8 lwip k ws script ≡ ok b ws1 script1
      → apply_mask addr ws1.read_mask b k ≡ (m, plain)
      → read_payload lwip addr size ws script
        ≡ ok plain (record ws1 { read_mask = m; read_length = ws1.read_length - k }) script1
  unfolding read_payload
  read_payload-some addr size k m b plain ws ws1 script script1 left is_k e applied =
      let something : ltb 0 ws.read_length ≡ true = ground arith in
      let m_is : (apply_mask addr ws1.read_mask b k).0 ≡ m = ap (λ p. p.0) applied in
      let plain_is : (apply_mask addr ws1.read_mask b k).1 ≡ plain = ap (λ p. p.1) applied in
      rw (something, is_k, e, m_is, plain_is) refl

  masked-split :
      (m k : ℕ) (xs : List ℕ)
      → k ≤ length xs
      → masked m xs ≡ masked m (take k xs) ++ masked (turns k m) (drop k xs)
  masked-split m k xs h =
      ap (masked m) (sym (take-append-drop k xs))
      ∙ masked-append m (take k xs) (drop k xs)
      ∙ ap (λ j. masked m (take k xs) ++ masked (turns j m) (drop k xs)) {x = length (take k xs)}
          {y = k} (omega (arith, length-take k xs))

  unmasked :
      (addr m k : ℕ) (xs : List ℕ)
      → IsU32 m
      → All IsByte xs
      → k ≡ length xs
      → apply_mask addr m (masked m xs) k ≡ (turns k m, xs)
  unmasked addr m k xs h bytes len =
      ap (apply_mask addr m (masked m xs)) (len ∙ sym (length-masked m xs))
      ∙ apply_mask-whole addr m (masked m xs) h (masked-IsByte m xs bytes)
      ∙ ap₂ (λ j l. (turns j m, l)) (length-masked m xs ∙ sym len) (masked_twice m xs)

  -- The piece of the payload that a call takes first.
  pub read_payload-takes :
      (addr size : ℕ) (current : List ℕ) (fs : List Frame) (ws : Framer Chain)
      (script : Script Chain)
      → size < 128
      → At lwip ws script current fs
      → (ws' : Framer Chain) × (script' : Script Chain) × (read_payload lwip addr size ws script
          ≡ ok (take size current) ws' script')
        × (ws'.read_last_op ≡ ws.read_last_op)
        × At lwip ws' script' (drop size current) fs
  read_payload-takes addr size [] fs ws script small at = (
    ws,
    script,
    read_payload-none addr size ws script at.measured
        ∙ ap (λ l. ok l ws script) (sym (take-nil size)),
    refl,
    subst (λ l. At lwip ws script l fs) (sym (drop-nil size)) at,
  )
  read_payload-takes addr size (x ∷ xs) fs ws script small at =
      let current : List ℕ = x ∷ xs in
      let m : ℕ = ws.read_mask in
      let k : ℕ = min size (length current) in
      let front : List ℕ = take k current in
      let back : List ℕ = drop k current in
      let front_length : k ≡ length front = omega (arith, length-take k current) in
      let (next, open', calm) = at.on in
      let (con', script', e, on') =
        t_read8-takes lwip laws k (masked m front) (masked (turns k m) back ++ wire fs) ws script
          (omega (arith, length-masked m front)) (omega arith)
          (
            next
                ∙ ap (λ l. l ++ wire fs) (masked-split m k current (omega arith))
                ∙ append_assoc (masked m front) (masked (turns k m) back) (wire fs),
            open',
            calm,
          ) in
      let ws' : Framer Chain = record ws {
        con = con';
        read_mask = turns k m;
        read_length = ws.read_length - k;
      } in
      (
        ws',
        script',
        read_payload-some addr size k (turns k m) (masked m front) front ws
              (record ws { con = con' }) script script' (omega (arith, at.measured))
              (omega (arith, at.measured)) e
              (unmasked addr m k front at.key_word (All-take IsByte k current at.current_bytes)
                front_length)
            ∙ ap (λ l. ok l ws' script') (take-min size current),
        refl,
        subst (λ l. At lwip ws' script' l fs) (drop-min size current)
            (record {
              measured = omega (arith, at.measured, length-drop k current);
              current_bytes = All-drop IsByte k current at.current_bytes;
              key_word = turns-IsU32 k m at.key_word;
              frames = at.frames;
              on = on';
            }),
      )
