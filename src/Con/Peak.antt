-- ===== src/Con/Peak.antt =====
-- `ws_t_peak`, and `ws_consume` after it: the header parser reads by these two.
use c_web_socket_pico_w_test.Base.{
  ℕ, ◌+◌, ◌^◌, ◌<◌, ◌≡◌, refl, sym, ap, ap₂, ◌∙◌, subst, arith, true, false, ◌==◌, if◌then◌else◌,
  ℕ_le-cases, Option-cases, inl, inr, List, [], ◌∷◌, ◌++◌, append_assoc, length, length-append,
  drop, drop-append_le, drop_of_length-le, u16, u32,
}
use c_web_socket_pico_w_test.Lwip.{Lwip, LwipLaws, content}
use c_web_socket_pico_w_test.Con.{
  Con, Event, Script, done, failed, Outcome, returns, waiting, announce, peak, consume, callbacks,
}
use c_web_socket_pico_w_test.Con.Calm.{
  IsCalm, IsOpen, pending, arrivals, arrived, stream, callbacks-calm, announce-IsOpen,
  announce-p_current,
}

module _ {Chain : Type 0} (lwip : Lwip Chain) where
  -- `ws_t_peak`: the bytes that `*buf_ptr` is set to.
  unfoldable pub t_peak : Con Chain → Script Chain → Outcome Chain
  t_peak con [] =
      if length (peak lwip con) == 0 then waiting con else returns (done (peak lwip con)) con []
  t_peak con (events ∷ script) =
      let woken = callbacks lwip events con in
      let rest = t_peak woken script in
      if length (peak lwip con) == 0
      then (if woken.active_err == 0 then rest else returns (failed woken.active_err) woken script)
      else returns (done (peak lwip con)) con (events ∷ script)

module _ {Chain : Type 0} (lwip : Lwip Chain) (laws : LwipLaws lwip) where
  -- What `ws_peak` shows and `ws_consume` takes off are the same bytes, and the rest is still to be
  -- read: on an open connection, a buffer of less than 65536 bytes.
  pub consume-peak :
      (con : Con Chain)
      → IsOpen con
      → length (peak lwip con) < 2 ^ 16
      → let (code, con') = consume lwip con (length (peak lwip con)) in
        (code ≡ 0) × (pending lwip con ≡ peak lwip con ++ pending lwip con') × IsOpen con'
  unfolding consume peak content
  consume-peak con on small = elim (Option-cases con.p_current) [
    | inl e ↦ (rw e refl, rw e refl, rw e on)
    | inr (c, e) ↦
        let size : ℕ = length (lwip.payload c) in
        let moved : Con Chain = record con {
          p_current = lwip.free_header c (u16 size);
          recved_current = u32 (con.recved_current + size);
        } in
        let shown : peak lwip con ≡ lwip.payload c = rw e refl in
        let there : pending lwip con ≡ lwip.bytes c = rw e refl in
        let consumed : consume lwip con size ≡ (0, announce lwip moved) = rw e refl in
        let (behind, parts) = laws.bytes-payload c in
        let left : pending lwip (announce lwip moved) ≡ behind =
          ap (content lwip) (announce-p_current lwip laws moved)
          ∙ laws.freed c (u16 size)
          ∙ ap₂ drop {x = u16 size} {y = size} (omega (arith, ap length shown)) parts
          ∙ drop-append_le size (lwip.payload c) behind (omega arith)
          ∙ ap (λ l. l ++ behind) (drop_of_length-le size (lwip.payload c) (omega arith)) in
        subst (λ r. (r.0 ≡ 0) × (pending lwip con ≡ peak lwip con ++ pending lwip r.1) × IsOpen r.1)
          (sym (ap (λ l. consume lwip con (length l)) shown ∙ consumed))
          (
            refl,
            there ∙ parts ∙ ap₂ (λ x y. x ++ y) (sym shown) (sym left),
            announce-IsOpen lwip laws moved on,
          )
  ]

  t_peak-shown :
      (con : Con Chain) (script : Script Chain)
      → 0 < length (peak lwip con)
      → t_peak lwip con script ≡ returns (done (peak lwip con)) con script
  unfolding t_peak
  t_peak-shown con [] h =
      let some_bytes : (length (peak lwip con) == 0) ≡ false = ground arith in rw some_bytes refl
  t_peak-shown con (es ∷ script) h =
      let some_bytes : (length (peak lwip con) == 0) ≡ false = ground arith in rw some_bytes refl

  t_peak-more :
      (con : Con Chain) (es : List (Event Chain)) (script : Script Chain)
      → length (peak lwip con) ≡ 0
      → (callbacks lwip es con).active_err ≡ 0
      → t_peak lwip con (es ∷ script) ≡ t_peak lwip (callbacks lwip es con) script
  unfolding t_peak
  t_peak-more con es script h quiet =
      let no_bytes : (length (peak lwip con) == 0) ≡ true = ground arith in
      let awake : ((callbacks lwip es con).active_err == 0) ≡ true = ground arith in
      rw (no_bytes, awake) refl

  -- Nothing is shown only where nothing is there.
  peak-full :
      (full : (c : Chain) → 0 < length (lwip.bytes c) → 0 < length (lwip.payload c))
      (con : Con Chain)
      → length (peak lwip con) ≡ 0
      → length (pending lwip con) ≡ 0
  unfolding peak content
  peak-full full con h = elim (Option-cases con.p_current) [
    | inl e ↦ rw e refl
    | inr (c, e) ↦
        let shown : peak lwip con ≡ lwip.payload c = rw e refl in
        let there : pending lwip con ≡ lwip.bytes c = rw e refl in
        elim (ℕ_le-cases (length (lwip.bytes c)) 0) [
          | inl none_there ↦ omega (arith, ap length there)
          | inr some_there ↦ absurd (omega (arith, full c some_there, ap length shown))
        ]
  ]

  -- Once the peer has sent something, `ws_t_peak` returns, however long it has to wait: it shows
  -- a piece that is not empty, and takes nothing off the stream. The connection stays open, and no
  -- chain with bytes begins with an empty buffer.
  pub t_peak-stream :
      (full : (c : Chain) → 0 < length (lwip.bytes c) → 0 < length (lwip.payload c))
      (con : Con Chain) (script : Script Chain)
      → IsOpen con
      → IsCalm script
      → 0 < length (stream lwip con script)
      → (con' : Con Chain) × (script' : Script Chain) × (t_peak lwip con script
          ≡ returns (done (peak lwip con')) con' script')
        × (0 < length (peak lwip con'))
        × (stream lwip con' script' ≡ stream lwip con script)
        × IsOpen con'
        × IsCalm script'
  t_peak-stream full con [] on calm h = elim (ℕ_le-cases (length (peak lwip con)) 0) [
    | inl no_bytes ↦ absurd (
        omega (
          arith,
          peak-full full con (omega arith),
          length-append (pending lwip con) (arrived lwip []),
        ))
    | inr some_bytes ↦ (con, [], t_peak-shown con [] some_bytes, some_bytes, refl, on, calm)
  ]
  t_peak-stream full con (es ∷ script) on calm h = elim (ℕ_le-cases (length (peak lwip con)) 0) [
    | inl no_bytes ↦
        let (came, on1) = callbacks-calm lwip laws es con on calm.0 in
        let same : stream lwip (callbacks lwip es con) script ≡ stream lwip con (es ∷ script) =
          ap (λ l. l ++ arrived lwip script) came
          ∙ append_assoc (pending lwip con) (arrivals lwip es) (arrived lwip script) in
        let (con', script', e, some_bytes, left, on', calm') =
          t_peak-stream full (callbacks lwip es con) script on1 calm.1
            (omega (arith, ap length same)) in
        (
          con',
          script',
          t_peak-more con es script (omega arith) on1.0 ∙ e,
          some_bytes,
          left ∙ same,
          on',
          calm',
        )
    | inr some_bytes ↦
        (con, es ∷ script, t_peak-shown con (es ∷ script) some_bytes, some_bytes, refl, on, calm)
  ]
