-- ===== src/Con/Calm.antt =====
-- A connection that stays open: what the functions and callbacks of testing.c do to its stream of
-- bytes.
use c_web_socket_pico_w_test.Base.{
  ℕ, ◌+◌, ◌^◌, ◌<◌, ◌≡◌, refl, sym, ap, ap₂, ◌∙◌, subst, arith, Bool, true, false, ◌==◌,
  if◌then◌else◌, Bool-cases, Option-cases, inl, inr, none, some, List, [], ◌∷◌, ◌++◌, append_assoc,
  append-nil, length, length-take, take, drop, take-nil, drop-nil, drop-min, u32, All, u16,
}
use c_web_socket_pico_w_test.Lwip.{Pcb, Lwip, LwipLaws, content}
use c_web_socket_pico_w_test.Con.{
  Event, recv, err, sent, Con, Script, done, announce, read, con_recv, con_sent, callback,
  callbacks,
}

-- An event that brings no error and no end.
abbrev pub calm : {Chain : Type 0} → Event Chain → Bool
calm (recv none crowded) = false
calm (recv (some p) crowded) = true
calm (err code) = false
calm (sent queuelen room) = true

abbrev pub IsCalm : {Chain : Type 0} → Script Chain → Type 0
IsCalm script = All (All (λ e. calm e ≡ true)) script

-- Connected, and no error is waiting for the task.
abbrev pub IsOpen : {Chain : Type 0} → Con Chain → Type 0
IsOpen con = (con.active_err ≡ 0) × ((pcb : Pcb) × (con.printed_circuit_board ≡ some pcb))

module _ {Chain : Type 0} (lwip : Lwip Chain) where
  -- The bytes that are there to be read.
  abbrev pub pending : Con Chain → List ℕ
  pending con = content lwip con.p_current

  abbrev pub arrival : Event Chain → List ℕ
  arrival (recv p crowded) = content lwip p
  arrival (err code) = []
  arrival (sent queuelen room) = []

  abbrev pub arrivals : List (Event Chain) → List ℕ
  arrivals [] = []
  arrivals (e ∷ es) = arrival e ++ arrivals es

  abbrev pub arrived : Script Chain → List ℕ
  arrived [] = []
  arrived (es ∷ script) = arrivals es ++ arrived script

  -- What the peer sends, as far as it is not read.
  abbrev pub stream : Con Chain → Script Chain → List ℕ
  stream con script = pending con ++ arrived script

  -- The peer's bytes that are not read yet are these.
  abbrev pub On : Con Chain → Script Chain → List ℕ → Type 0
  On con script bytes = (stream con script ≡ bytes) × IsOpen con × IsCalm script

module _ {Chain : Type 0} (lwip : Lwip Chain) (laws : LwipLaws lwip) where
  pub announce-IsOpen : (con : Con Chain) → IsOpen con → IsOpen (announce lwip con)
  unfolding announce
  announce-IsOpen con on = let (e, (pcb, p)) = on in rw p (e, (_, refl))

  pub announce-p_current : (con : Con Chain) → (announce lwip con).p_current ≡ con.p_current
  unfolding announce
  announce-p_current con = elim (Option-cases con.printed_circuit_board) [
    | inl e ↦ rw e refl
    | inr (pcb, e) ↦ rw e refl
  ]

  -- `ws_read` takes as many bytes as it is asked for, modulo 2^16, and are there.
  pub read-u16 :
      (con : Con Chain) (size : ℕ)
      → IsOpen con
      → (con' : Con Chain) × (read lwip con size
          ≡ (done (take (u16 size) (pending lwip con)), con'))
        × (pending lwip con' ≡ drop (u16 size) (pending lwip con))
        × IsOpen con'
  unfolding read content
  read-u16 con size on = elim (Option-cases con.p_current) [
    | inl e ↦
        let (_, (pcb, p)) = on in
        let none_there : pending lwip con ≡ [] = rw e refl in
        let nothing : read lwip con size ≡ (done [], con) = rw (e, p) refl in
        (
          con,
          nothing
              ∙ ap (λ l. (done l, con))
                  (sym (ap (take (u16 size)) none_there ∙ take-nil (u16 size))),
          none_there ∙ sym (ap (drop (u16 size)) none_there ∙ drop-nil (u16 size)),
          on,
        )
    | inr (c, e) ↦
        let got : List ℕ = lwip.copy_partial c (u16 size) in
        let there : pending lwip con ≡ lwip.bytes c = rw e refl in
        let taken : got ≡ take (u16 size) (pending lwip con) =
          laws.copied c (u16 size) ∙ ap (take (u16 size)) (sym there) in
        let moved : Con Chain = record con {
          p_current = lwip.free_header c (length got);
          recved_current = u32 (con.recved_current + length got);
        } in
        let some_there : read lwip con size ≡ (done got, announce lwip moved) = rw e refl in
        (
          announce lwip moved,
          some_there ∙ ap (λ l. (done l, announce lwip moved)) taken,
          ap (content lwip) (announce-p_current moved)
              ∙ laws.freed c (length got)
              ∙ ap₂ drop (ap length taken ∙ length-take (u16 size) (pending lwip con)) (sym there)
              ∙ drop-min (u16 size) (pending lwip con),
          announce-IsOpen moved on,
        )
  ]

  pub read-pending :
      (con : Con Chain) (size : ℕ)
      → IsOpen con
      → size < 2 ^ 16
      → (con' : Con Chain) × (read lwip con size ≡ (done (take size (pending lwip con)), con'))
        × (pending lwip con' ≡ drop size (pending lwip con))
        × IsOpen con'
  read-pending con size on small =
      subst
        (λ k.
          (con' : Con Chain) × (read lwip con size ≡ (done (take k (pending lwip con)), con'))
          × (pending lwip con' ≡ drop k (pending lwip con))
          × IsOpen con')
        {x = u16 size} {y = size} (omega arith) (read-u16 con size on)

  pub callback-calm :
      (e : Event Chain) (con : Con Chain)
      → IsOpen con
      → calm e ≡ true
      → (pending lwip (callback lwip e con) ≡ pending lwip con ++ arrival lwip e)
        × IsOpen (callback lwip e con)
  unfolding callback con_recv con_sent content
  callback-calm (recv none crowded) con on h = absurd (ground arith)
  callback-calm (recv (some p) crowded) con on h = elim (Bool-cases (length (lwip.bytes p) == 0)) [
    | inl empty ↦ (
      rw empty (
          sym (append-nil (pending lwip con))
          ∙ ap (λ l. pending lwip con ++ l) (sym (nil-of-length (lwip.bytes p) (ground arith)))),
      rw empty on,
    )
    | inr full ↦ elim (Option-cases con.p_current) [
      | inl e ↦ (rw (full, e) refl, rw (full, e) on)
      | inr (q, e) ↦ (rw (full, e) (stacked q p crowded), rw (full, e) on)
    ]
  ]
    where
      nil-of-length : (l : List ℕ) → length l ≡ 0 → l ≡ []
      nil-of-length [] h = refl
      nil-of-length (x ∷ l) h = absurd (omega arith)

      stacked :
          (q p : Chain) (crowded : Bool)
          → lwip.bytes (if crowded then lwip.coalesce (lwip.cat q p) else lwip.cat q p)
            ≡ lwip.bytes q ++ lwip.bytes p
      stacked q p true = laws.bytes-coalesce (lwip.cat q p) ∙ laws.bytes-cat q p
      stacked q p false = laws.bytes-cat q p
  callback-calm (err code) con on h = absurd (ground arith)
  callback-calm (sent queuelen room) con on h =
      let (e, (pcb, p)) = on in (sym (append-nil (pending lwip con)), (e, rw p (_, refl)))

  pub callbacks-calm :
      (es : List (Event Chain)) (con : Con Chain)
      → IsOpen con
      → All (λ e. calm e ≡ true) es
      → (pending lwip (callbacks lwip es con) ≡ pending lwip con ++ arrivals lwip es)
        × IsOpen (callbacks lwip es con)
  unfolding callbacks
  callbacks-calm [] con on h = (sym (append-nil (pending lwip con)), on)
  callbacks-calm (e ∷ es) con on h =
      let (came, still) = callback-calm e con on h.0 in
      let (rest, after) = callbacks-calm es (callback lwip e con) still h.1 in
      (
        rest
            ∙ ap (λ l. l ++ arrivals lwip es) came
            ∙ append_assoc (pending lwip con) (arrival lwip e) (arrivals lwip es),
        after,
      )
