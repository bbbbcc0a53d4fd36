-- ===== src/Con/Notify.antt =====
-- The callbacks against `ws_check_reason`: which reasons each may make ready.
use c_web_socket_pico_w_test.Base.{
  ℕ, ◌≡◌, refl, sym, ◌∙◌, arith, ◌⊎◌, true, false, ◌==◌, Bool-cases, Option-cases, inl, inr, none,
  some, length,
}
use c_web_socket_pico_w_test.Lwip.{Lwip}
use c_web_socket_pico_w_test.Lock.Steps.{contains}
use c_web_socket_pico_w_test.Con.{
  Event, recv, err, sent, Con, check_reason, con_recv, con_err, con_sent, callback, notified,
}

module _ {Chain : Type 0} (lwip : Lwip Chain) where
  -- A reason that a callback does not notify is as ready as it was.
  unnotified :
      (e : Event Chain) (con : Con Chain) (reason code : ℕ)
      → contains (notified lwip e) reason ≡ false
      → check_reason lwip (callback lwip e con) reason code ≡ check_reason lwip con reason code
  unfolding check_reason callback con_recv con_err con_sent notified
  unnotified (recv none crowded) con reason code h = ground arith
  unnotified (recv (some p) crowded) con reason code h =
      elim (Bool-cases (length (lwip.bytes p) == 0)) [
        | inl empty ↦ rw (empty) refl
        | inr full ↦ elim (Option-cases con.p_current) [
          | inl e ↦ rw (full, e) (ground arith)
          | inr (q, e) ↦ rw (full, e) (ground arith)
        ]
      ]
  unnotified (err e) con reason code h = ground arith
  unnotified (sent queuelen room) con reason code h = ground arith

  -- No callback makes a reason ready that it does not notify: if `ws_check_reason` says go on after
  -- it, then it said so before, or the callback calls `iol_notify` for that very reason.
  pub check_reason-callback :
      (e : Event Chain) (con : Con Chain) (reason code : ℕ)
      → check_reason lwip (callback lwip e con) reason code ≡ true
      → (check_reason lwip con reason code ≡ true) ⊎ (contains (notified lwip e) reason ≡ true)
  check_reason-callback e con reason code h =
      elim (Bool-cases (contains (notified lwip e) reason)) [
        | inl told ↦ inr told
        | inr untold ↦ inl (sym (unnotified e con reason code untold) ∙ h)
      ]

  -- A task that has ended is never continued, whatever the state of its connection and the error.
  pub check_reason-ended : (con : Con Chain) (code : ℕ) → check_reason lwip con 0 code ≡ false
  unfolding check_reason
  check_reason-ended con code = refl
