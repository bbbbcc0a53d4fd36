-- ===== src/Con/Quiet.antt =====
-- Reading sends nothing: what `tcp_write` was given is as before, as long as there is a control block.
use c_web_socket_pico_w_test.Base.{
  ℕ, ◌-◌, ◌≡◌, refl, subst, Bool, true, false, leb, ◌==◌, if◌then◌else◌, length, Bool-cases,
  Option-cases, ◌⊎◌, inl, inr, Option, none, some, List, [], ◌∷◌,
}
use c_web_socket_pico_w_test.Lwip.{Lwip, Pcb}
use c_web_socket_pico_w_test.Con.{
  Con, Script, Event, recv, err, sent, Result, done, failed, Outcome, returns, waiting, announce,
  read, con_recv, con_err, con_sent, callback, callbacks, behind, t_read,
}

-- What a connection has given to TCP.
abbrev pub queued : {Chain : Type 0} → Con Chain → List ℕ
queued con = elim con.printed_circuit_board [ none ↦ [] | some pcb ↦ pcb.written ]

abbrev pub KeepsPcb : List ℕ → Option Pcb → Type 0
KeepsPcb bytes none = Unit
KeepsPcb bytes (some pcb) = pcb.written ≡ bytes

abbrev pub Keeps : {Chain : Type 0} → List ℕ → Con Chain → Type 0
Keeps bytes con = KeepsPcb bytes con.printed_circuit_board

abbrev pub KeepsOutcome : {Chain : Type 0} → List ℕ → Outcome Chain → Type 0
KeepsOutcome bytes (returns r con script) = Keeps bytes con
KeepsOutcome bytes (waiting con) = Keeps bytes con

pub queued-Keeps : {Chain : Type 0} (con : Con Chain) → Keeps (queued con) con
queued-Keeps con = elim (Option-cases con.printed_circuit_board) [
  | inl e ↦ rw e tt
  | inr (pcb, e) ↦ rw e refl
]

pub Keeps-queued :
    {Chain : Type 0} (bytes : List ℕ) (con : Con Chain) (pcb : Pcb)
    → con.printed_circuit_board ≡ some pcb
    → Keeps bytes con
    → queued con ≡ bytes
Keeps-queued bytes con pcb e h = rw e (subst (KeepsPcb bytes) e h)

Result-cases : (r : Result) → ((got : List ℕ) × (r ≡ done got)) ⊎ ((code : ℕ) × (r ≡ failed code))
Result-cases (done got) = inl (got, refl)
Result-cases (failed code) = inr (code, refl)

if-Keeps :
    {Chain : Type 0} (bytes : List ℕ) (b : Bool) (o p : Outcome Chain)
    → KeepsOutcome bytes o
    → KeepsOutcome bytes p
    → KeepsOutcome bytes (if b then o else p)
if-Keeps bytes true o p ho hp = ho
if-Keeps bytes false o p ho hp = hp

module _ {Chain : Type 0} (lwip : Lwip Chain) (bytes : List ℕ) where
  announce-Keeps : (con : Con Chain) → Keeps bytes con → Keeps bytes (announce lwip con)
  unfolding announce
  announce-Keeps con h = elim (Option-cases con.printed_circuit_board) [
    | inl e ↦ rw e tt
    | inr (pcb, e) ↦ rw e (subst (KeepsPcb bytes) e h)
  ]

  read-Keeps : (con : Con Chain) (size : ℕ) → Keeps bytes con → Keeps bytes (read lwip con size).1
  unfolding read
  read-Keeps con size h = elim (Option-cases con.p_current) [
    | inl e ↦ rw e h
    | inr (p, e) ↦ rw e (announce-Keeps _ h)
  ]

  callback-Keeps :
      (e : Event Chain) (con : Con Chain) → Keeps bytes con → Keeps bytes (callback lwip e con)
  unfolding callback con_recv con_err con_sent
  callback-Keeps (recv none crowded) con h = tt
  callback-Keeps (recv (some p) crowded) con h = elim (Bool-cases (length (lwip.bytes p) == 0)) [
    | inl empty ↦ rw (empty) h
    | inr full ↦ elim (Option-cases con.p_current) [
      | inl e ↦ rw (full, e) h
      | inr (q, e) ↦ rw (full, e) h
    ]
  ]
  callback-Keeps (err code) con h = tt
  callback-Keeps (sent queuelen room) con h = elim (Option-cases con.printed_circuit_board) [
    | inl e ↦ rw e tt
    | inr (pcb, e) ↦ rw e (subst (KeepsPcb bytes) e h)
  ]

  callbacks-Keeps :
      (es : List (Event Chain)) (con : Con Chain)
      → Keeps bytes con
      → Keeps bytes (callbacks lwip es con)
  unfolding callbacks
  callbacks-Keeps [] con h = h
  callbacks-Keeps (e ∷ es) con h = callbacks-Keeps es (callback lwip e con) (callback-Keeps e con h)

  behind-Keeps :
      (got : List ℕ) (o : Outcome Chain) → KeepsOutcome bytes o → KeepsOutcome bytes (behind got o)
  unfolding behind
  behind-Keeps got (returns (done more) con script) h = h
  behind-Keeps got (returns (failed code) con script) h = h
  behind-Keeps got (waiting con) h = h

  pub t_read-Keeps :
      (size : ℕ) (con : Con Chain) (script : Script Chain)
      → Keeps bytes con
      → KeepsOutcome bytes (t_read lwip size con script)
  unfolding t_read
  t_read-Keeps size con [] h =
      let kept = read-Keeps con size h in
      if-Keeps bytes (size == 0) _ _ h (elim (Result-cases (read lwip con size).0) [
        | inl (got, e) ↦ rw e (if-Keeps bytes (leb size (length got)) _ _ kept kept)
        | inr (code, e) ↦ rw e kept
      ])
  t_read-Keeps size con (es ∷ script) h =
      let kept = read-Keeps con size h in
      let woken : Con Chain = callbacks lwip es (read lwip con size).1 in
      let on : Keeps bytes woken = callbacks-Keeps es (read lwip con size).1 kept in
      if-Keeps bytes (size == 0) _ _ h (elim (Result-cases (read lwip con size).0) [
        | inl (got, e) ↦ rw e (
            if-Keeps bytes (leb size (length got)) _ _ kept (
              if-Keeps bytes (woken.active_err == 0) _ _
                (behind-Keeps got (t_read lwip (size - length got) woken script)
                  (t_read-Keeps (size - length got) woken script on))
                on))
        | inr (code, e) ↦ rw e kept
      ])
