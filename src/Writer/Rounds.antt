-- ===== src/Writer/Rounds.antt =====
-- Small writes: `websocket_write` gathers them behind the payload of the frame that is being built.
use c_web_socket_pico_w_test.Base.{
  ℕ, zero, suc, ◌+◌, ◌-◌, ◌<◌, ◌≤◌, ◌≡◌, refl, sym, ap, ap₂, ◌∙◌, arith, false, leb, ltb, min, some,
  List, [], ◌∷◌, ◌++◌, append_assoc, length, length-append, take, drop, take_of_length-le,
  drop_of_length-le, u32, sub32,
}
use c_web_socket_pico_w_test.Lwip.{Lwip, Pcb}
use c_web_socket_pico_w_test.Con.{Con, Script}
use c_web_socket_pico_w_test.Writer.{Framinator, puts, and_put, store}
use c_web_socket_pico_w_test.Writer.Memory.{store-at}
use c_web_socket_pico_w_test.Writer.Send.{space_of, copy_part, round, websocket_write}
use c_web_socket_pico_w_test.Writer.Frames.{framed}

module _ {Chain : Type 0} (lwip : Lwip Chain) (tcp_output : Pcb → ℕ) where
  websocket_write-nil :
      (fuel : ℕ) (ws : Framinator Chain) (script : Script Chain)
      → websocket_write lwip tcp_output fuel [] ws script ≡ puts tt ws script
  unfolding websocket_write
  websocket_write-nil zero ws script = refl
  websocket_write-nil (suc fuel) ws script = refl

  websocket_write-round :
      (fuel : ℕ) (bytes left : List ℕ) (ws ws' : Framinator Chain) (script script' : Script Chain)
      → 0 < length bytes
      → round lwip tcp_output bytes ws script ≡ puts left ws' script'
      → websocket_write lwip tcp_output (suc fuel) bytes ws script
        ≡ websocket_write lwip tcp_output fuel left ws' script'
  unfolding websocket_write
  websocket_write-round fuel [] left ws ws' script script' h e = absurd (omega arith)
  websocket_write-round fuel (b ∷ bytes) left ws ws' script script' h e =
      ap (λ r. and_put r (λ l w s. websocket_write lwip tcp_output fuel l w s)) e

module _ {Chain : Type 0} (lwip : Lwip Chain) (tcp_output : Pcb → ℕ) (con : Con Chain)
    (head tail : ℕ) (front gap payload bytes old back : List ℕ)
    (here : head ≡ length front + length gap + length payload) (behind : tail ≤ head)
    (positive : 0 < length bytes) (as_many : length old ≡ length bytes)
    (small : length payload + length bytes < 192) (before_end : head + length bytes < 1020) where
  abbrev was : Framinator Chain
  was = framed con head tail front gap payload (old ++ back)

  abbrev is : Framinator Chain
  is = framed con (head + length bytes) tail front gap (payload ++ bytes) back

  in_order : ltb head tail ≡ false
  in_order = ground arith

  space-was : space_of was ≡ 1020 - head
  unfolding space_of
  space-was = rw in_order (omega arith)

  all_fit : min (space_of was) (min (sub32 256 (length payload)) (length bytes)) ≡ length bytes
  all_fit = omega (arith, space-was)

  copied :
      store (front ++ (gap ++ (payload ++ (old ++ back)))) head bytes
      ≡ some (front ++ (gap ++ ((payload ++ bytes) ++ back)))
  copied =
      ap (λ b. store b head bytes) (reassoc old)
      ∙ store-at (front ++ (gap ++ payload)) old bytes back head
          (omega (arith, length-append front (gap ++ payload), length-append gap payload)) as_many
      ∙ ap some (sym (reassoc bytes))
      ∙ ap (λ l. some (front ++ (gap ++ l))) (sym (append_assoc payload bytes back))
    where
      reassoc :
          (x : List ℕ)
          → front ++ (gap ++ (payload ++ (x ++ back))) ≡ (front ++ (gap ++ payload)) ++ (x ++ back)
      reassoc x =
          ap (λ l. front ++ l) (sym (append_assoc gap payload (x ++ back)))
          ∙ sym (append_assoc front (gap ++ payload) (x ++ back))

  copy_part-was :
      (script : Script Chain)
      → copy_part lwip tcp_output (length bytes) bytes was script ≡ puts [] is script
  unfolding copy_part
  copy_part-was script =
      let all : take (length bytes) bytes ≡ bytes =
        take_of_length-le (length bytes) bytes (omega arith) in
      let none_left : drop (length bytes) bytes ≡ [] =
        drop_of_length-le (length bytes) bytes (omega arith) in
      let far : leb (sub32 1024 4) (u32 (head + length bytes)) ≡ false = ground arith in
      let few : leb 192 (u32 (length payload + length bytes)) ≡ false = ground arith in
      rw (copy_part, all, copied, far, few, none_left)
        (ap₂ (λ l h. puts [] (record is { current_payload_len = l; head = h }) script)
          {x = u32 (length payload + length bytes)} {y = length (payload ++ bytes)}
          {u = u32 (head + length bytes)} {v = head + length bytes}
          (omega (arith, length-append payload bytes)) (omega arith))

  round-copies :
      (script : Script Chain) → round lwip tcp_output bytes was script ≡ puts [] is script
  unfolding round
  round-copies script =
      rw (round, in_order)
        (ap (λ k. copy_part lwip tcp_output k bytes was script) all_fit ∙ copy_part-was script)

  -- Bytes that are few enough stay in the buffer, behind those of the frame.
  pub websocket_write-gathers :
      (fuel : ℕ) (script : Script Chain)
      → websocket_write lwip tcp_output (suc fuel) bytes was script ≡ puts tt is script
  websocket_write-gathers fuel script =
      websocket_write-round lwip tcp_output fuel bytes [] was is script script positive
        (round-copies script)
      ∙ websocket_write-nil lwip tcp_output fuel is script
