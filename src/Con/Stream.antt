-- ===== src/Con/Stream.antt =====
-- `ws_t_read` on a stream of bytes, however lwIP cuts it into buffers and whenever they come.
use c_web_socket_pico_w_test.Base.{
  ℕ, zero, suc, ◌-◌, ◌^◌, ◌<◌, ◌≤◌, ◌≡◌, refl, sym, ap, ◌∙◌, arith, true, false, ◌==◌, leb,
  ℕ_le-cases, inl, inr, List, [], ◌∷◌, ◌++◌, append-nil, length, length-append, length-take, take,
  drop, take-append_le, drop-append_le, take-append_ge, drop-append_ge, take_of_length-le,
  drop_of_length-le,
}
use c_web_socket_pico_w_test.Lwip.{Lwip, LwipLaws}
use c_web_socket_pico_w_test.Con.{
  Event, Con, Script, done, Outcome, returns, waiting, read, callbacks, behind, t_read,
}
use c_web_socket_pico_w_test.Con.Calm.{
  IsCalm, IsOpen, pending, arrivals, arrived, stream, read-pending, callbacks-calm,
}

module _ {Chain : Type 0} (lwip : Lwip Chain) where
  -- The `n` bytes that come next were returned, and the rest is still to be read.
  abbrev pub Returned : ℕ → List ℕ → Outcome Chain → Type 0
  Returned n bytes o =
      (con : Con Chain) × (script : Script Chain) × (o ≡ returns (done (take n bytes)) con script)
      × (stream lwip con script ≡ drop n bytes)
      × IsOpen con
      × IsCalm script

  pub t_read-zero :
      (con : Con Chain) (script : Script Chain)
      → t_read lwip 0 con script ≡ returns (done []) con script
  unfolding t_read
  t_read-zero con [] = refl
  t_read-zero con (es ∷ script) = refl

  module _ (size : ℕ) (con con' : Con Chain) (got : List ℕ) (pos : 0 < size)
      (r0 : (read lwip con size).0 ≡ done got) (r1 : (read lwip con size).1 ≡ con') where
    nonzero : (size == 0) ≡ false
    nonzero = ground arith

    enough : size ≤ length got → leb size (length got) ≡ true
    enough h = ground arith

    short : length got < size → leb size (length got) ≡ false
    short h = ground arith

    pub t_read-enough :
        (script : Script Chain)
        → size ≤ length got
        → t_read lwip size con script ≡ returns (done got) con' script
    unfolding t_read
    t_read-enough [] h = rw (nonzero, r0, r1, enough h) refl
    t_read-enough (es ∷ script) h = rw (nonzero, r0, r1, enough h) refl

    pub t_read-over : length got < size → t_read lwip size con [] ≡ waiting con'
    unfolding t_read
    t_read-over h = rw (nonzero, r0, r1, short h) refl

    pub t_read-more :
        (es : List (Event Chain)) (script : Script Chain)
        → length got < size
        → (callbacks lwip es con').active_err ≡ 0
        → t_read lwip size con (es ∷ script)
          ≡ behind got (t_read lwip (size - length got) (callbacks lwip es con') script)
    unfolding t_read
    t_read-more es script h calm =
        let awake : ((callbacks lwip es con').active_err == 0) ≡ true = ground arith in
        rw (nonzero, r0, r1, short h, awake) refl

module _ {Chain : Type 0} (lwip : Lwip Chain) (laws : LwipLaws lwip) where
  -- A read that the stream can serve returns, when all has come, the next `size` bytes of it,
  -- however the bytes are cut into packet buffers and into waits; the rest is still to be read then,
  -- byte for byte. The connection stays open meanwhile, and `size` fits in the `u16_t` of
  -- `pbuf_copy_partial`.
  pub t_read-stream :
      (size : ℕ) (con : Con Chain) (script : Script Chain)
      → size < 2 ^ 16
      → IsOpen con
      → IsCalm script
      → size ≤ length (stream lwip con script)
      → Returned lwip size (stream lwip con script) (t_read lwip size con script)
  unfolding behind
  t_read-stream zero con script small on calm h =
      (con, script, t_read-zero lwip con script, refl, on, calm)
  t_read-stream (suc n) con [] small on calm h =
      let size : ℕ = suc n in
      let (con', r, left, on') = read-pending lwip laws con size on small in
      let all : stream lwip con [] ≡ pending lwip con = append-nil (pending lwip con) in
      let there : size ≤ length (pending lwip con) = omega (arith, ap length all) in
      (
        con',
        [],
        t_read-enough lwip size con con' (take size (pending lwip con)) (omega arith)
              (ap (λ p. p.0) r) (ap (λ p. p.1) r) []
              (omega (arith, length-take size (pending lwip con)))
            ∙ ap (λ l. returns (done (take size l)) con' []) (sym all),
        append-nil (pending lwip con') ∙ left ∙ ap (drop size) (sym all),
        on',
        tt,
      )
  t_read-stream (suc n) con (es ∷ script) small on calm h =
      let size : ℕ = suc n in
      let (con', r, left, on') = read-pending lwip laws con size on small in
      let here : List ℕ = pending lwip con in
      let later : List ℕ = arrived lwip (es ∷ script) in
      elim (ℕ_le-cases size (length here)) [
        | inl there ↦ (
          con',
          es ∷ script,
          t_read-enough lwip size con con' (take size here) (omega arith) (ap (λ p. p.0) r)
                (ap (λ p. p.1) r) (es ∷ script) (omega (arith, length-take size here))
              ∙ ap (λ l. returns (done l) con' (es ∷ script))
                  (sym (take-append_le size here later there)),
          ap (λ l. l ++ later) left ∙ sym (drop-append_le size here later there),
          on',
          calm,
        )
        | inr less ↦
            let got : take size here ≡ here = take_of_length-le size here (omega arith) in
            let (came, on'') = callbacks-calm lwip laws es con' on' calm.0 in
            let woken : Con Chain = callbacks lwip es con' in
            let next : stream lwip woken script ≡ later =
              ap (λ l. l ++ arrived lwip script)
                (came
                  ∙ ap (λ l. l ++ arrivals lwip es)
                      (left ∙ drop_of_length-le size here (omega arith))) in
            let (con3, script3, e, rest, on3, calm3) =
              t_read-stream (size - length here) woken script (omega arith) on'' calm.1
                (omega (arith, ap length next, length-append here later)) in
            (
              con3,
              script3,
              t_read-more lwip size con con' here (omega arith) (ap (λ p. p.0) r ∙ ap done got)
                    (ap (λ p. p.1) r) es script less on''.0
                  ∙ ap (behind here) e
                  ∙ ap (λ l. returns (done (here ++ take (size - length here) l)) con3 script3) next
                  ∙ ap (λ l. returns (done l) con3 script3)
                      (sym (take-append_ge size here later (omega arith))),
              rest
                  ∙ ap (drop (size - length here)) next
                  ∙ sym (drop-append_ge size here later (omega arith)),
              on3,
              calm3,
            )
      ]
