-- ===== src/Con/Write/Barrier.antt =====
-- `ws_t_write_barrier` on every connection.
use c_web_socket_pico_w_test.Base.{
  ◌≡◌, sym, ap, arith, subst, ◌==◌, if◌then◌else◌, Bool-cases, Option-cases, inl, inr, Option, none,
  some, List, [], ◌∷◌,
}
use c_web_socket_pico_w_test.Lwip.{Lwip, Pcb}
use c_web_socket_pico_w_test.Con.{Con, Event, Script, callbacks, err_clsd}
use c_web_socket_pico_w_test.Con.Write.{
  Written, wrote, refused, blocked, null, drain, t_write_barrier,
}

-- If the function comes to its end, the connection is there and its send queue is empty.
abbrev pub Drained : {Chain : Type 0} → Written Chain → Type 0
Drained (wrote con script) =
    (pcb : Pcb) × (con.printed_circuit_board ≡ some pcb) × (pcb.snd_queuelen ≡ 0)
Drained (refused code con script) = Unit
Drained (blocked con) = Unit
Drained null = Unit

module _ {Chain : Type 0} (lwip : Lwip Chain) where
  abbrev drain_step : Con Chain → List (Event Chain) → Script Chain → Option Pcb → Written Chain
  drain_step con es script p = elim p [
    | none ↦ null
    | some pcb ↦
        if pcb.snd_queuelen == 0
        then wrote con (es ∷ script)
        else if (callbacks lwip es con).active_err == 0
        then drain lwip (callbacks lwip es con) script
        else refused (callbacks lwip es con).active_err (callbacks lwip es con) script
  ]

  abbrev drain_last : Con Chain → Option Pcb → Written Chain
  drain_last con p = elim p [
    | none ↦ null
    | some pcb ↦ if pcb.snd_queuelen == 0 then wrote con [] else blocked con
  ]

  drain-Drained : (con : Con Chain) (script : Script Chain) → Drained (drain lwip con script)
  unfolding drain
  drain-Drained con [] = elim (Option-cases con.printed_circuit_board) [
    | inl e ↦ subst Drained (sym (ap (drain_last con) e)) tt
    | inr (pcb, e) ↦
        subst Drained (sym (ap (drain_last con) e)) (elim (Bool-cases (pcb.snd_queuelen == 0)) [
          | inl empty ↦ rw empty (pcb, e, ground arith)
          | inr waits ↦ rw waits tt
        ])
  ]
  drain-Drained con (es ∷ script) = elim (Option-cases con.printed_circuit_board) [
    | inl e ↦ subst Drained (sym (ap (drain_step con es script) e)) tt
    | inr (pcb, e) ↦
        subst Drained (sym (ap (drain_step con es script) e))
          (elim (Bool-cases (pcb.snd_queuelen == 0)) [
            | inl empty ↦ rw empty (pcb, e, ground arith)
            | inr waits ↦ elim (Bool-cases ((callbacks lwip es con).active_err == 0)) [
              | inl awake ↦ rw (waits, awake) (drain-Drained (callbacks lwip es con) script)
              | inr broken ↦ rw (waits, broken) tt
            ]
          ])
  ]

  -- Whatever happens while it waits, `ws_t_write_barrier` comes to its end only when all that was
  -- queued is acknowledged: the connection is still there, and its queue is empty.
  pub t_write_barrier-Drained :
      (con : Con Chain) (script : Script Chain) → Drained (t_write_barrier lwip con script)
  unfolding t_write_barrier
  t_write_barrier-Drained con script = elim (Option-cases con.printed_circuit_board) [
    | inl e ↦ subst Drained (sym (ap barrier e)) tt
    | inr (pcb, e) ↦ subst Drained (sym (ap barrier e)) (drain-Drained con script)
  ]
    where
      barrier : Option Pcb → Written Chain
      barrier p = elim p [ none ↦ refused err_clsd con script | some _ ↦ drain lwip con script ]
