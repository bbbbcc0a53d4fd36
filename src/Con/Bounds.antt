-- ===== src/Con/Bounds.antt =====
-- The results of `ws_t_read` on every connection, those that break off included, and its 16-bit
-- limit.
use c_web_socket_pico_w_test.Base.{
  ℕ, zero, suc, ◌-◌, ◌^◌, ◌<◌, ◌≤◌, ◌≡◌, ◌≢◌, refl, sym, ap, ◌∙◌, subst, arith, ◌⊎◌, false, ◌==◌,
  leb, Bool-cases, ℕ_le-cases, Option-cases, inl, inr, List, [], ◌∷◌, length, length-append,
  length-take, u16,
}
use c_web_socket_pico_w_test.Lwip.{Lwip, LwipLaws}
use c_web_socket_pico_w_test.Con.{
  Event, Con, Script, Result, done, failed, Outcome, returns, waiting, read, callbacks, behind,
  t_read,
}
use c_web_socket_pico_w_test.Con.Calm.{IsCalm, IsOpen, callbacks-calm, read-u16}
use c_web_socket_pico_w_test.Con.Stream.{t_read-zero, t_read-enough, t_read-over, t_read-more}

-- The whole of what was asked for, or an error code; never a part.
abbrev pub Whole : {Chain : Type 0} → ℕ → Outcome Chain → Type 0
Whole n (returns (done bytes) con script) = length bytes ≡ n
Whole n (returns (failed code) con script) = code ≢ 0
Whole n (waiting con) = Unit

Result-cases : (r : Result) → ((got : List ℕ) × (r ≡ done got)) ⊎ ((code : ℕ) × (r ≡ failed code))
Result-cases (done got) = inl (got, refl)
Result-cases (failed code) = inr (code, refl)

behind-Whole :
    {Chain : Type 0} (got : List ℕ) (n : ℕ) (o : Outcome Chain)
    → length got ≤ n
    → Whole (n - length got) o
    → Whole n (behind got o)
unfolding behind
behind-Whole got n (returns (done more) con script) h w = omega (arith, length-append got more, w)
behind-Whole got n (returns (failed code) con script) h w = w
behind-Whole got n (waiting con) h w = tt

module _ {Chain : Type 0} (lwip : Lwip Chain) (laws : LwipLaws lwip) where
  abbrev Fits : ℕ → Result → Type 0
  Fits size (done got) = length got ≤ size
  Fits size (failed code) = code ≢ 0

  read-Fits : (con : Con Chain) (size : ℕ) → Fits size (read lwip con size).0
  unfolding read
  read-Fits con size = elim (Option-cases con.p_current) [
    | inl e ↦ elim (Option-cases con.printed_circuit_board) [
      | inl p ↦ rw (e, p) (λ z. absurd (omega (arith, z)))
      | inr (pcb, p) ↦ rw (e, p) (omega arith)
    ]
    | inr (c, e) ↦
        rw e (
          omega
            (arith, ap length (laws.copied c (u16 size)), length-take (u16 size) (lwip.bytes c)))
  ]

  module _ (size : ℕ) (con : Con Chain) (pos : 0 < size) where
    t_read-failed :
        (code : ℕ) (script : Script Chain)
        → (read lwip con size).0 ≡ failed code
        → (t_read lwip size con script) ≡ returns (failed code) (read lwip con size).1 script
    unfolding t_read
    t_read-failed code [] r =
        let nonzero : (size == 0) ≡ false = ground arith in rw (nonzero, r) refl
    t_read-failed code (es ∷ script) r =
        let nonzero : (size == 0) ≡ false = ground arith in rw (nonzero, r) refl

    t_read-broken :
        (got : List ℕ) (es : List (Event Chain)) (script : Script Chain)
        → (read lwip con size).0 ≡ done got
        → length got < size
        → let woken = callbacks lwip es (read lwip con size).1 in
          (woken.active_err == 0) ≡ false
          → t_read lwip size con (es ∷ script) ≡ returns (failed woken.active_err) woken script
    unfolding t_read
    t_read-broken got es script r less broken =
        let nonzero : (size == 0) ≡ false = ground arith in
        let short : leb size (length got) ≡ false = ground arith in
        rw (nonzero, r, short, broken) refl

  -- The cases that end at the first `ws_read`.
  Whole-unless :
      (size : ℕ) (con : Con Chain) (script : Script Chain)
      → 0 < size
      → ((got : List ℕ)
          → (read lwip con size).0 ≡ done got
          → length got < size
          → Whole size (t_read lwip size con script))
      → Whole size (t_read lwip size con script)
  Whole-unless size con script pos rest = elim (Result-cases (read lwip con size).0) [
    | inr (code, r) ↦
        subst (Whole size) (sym (t_read-failed size con pos code script r))
          (subst (Fits size) r (read-Fits con size))
    | inl (got, r) ↦
        let fits : length got ≤ size = subst (Fits size) r (read-Fits con size) in
        elim (ℕ_le-cases size (length got)) [
          | inl enough ↦
              subst (Whole size) (sym (t_read-enough lwip size con _ got pos r refl script enough))
                (omega arith)
          | inr less ↦ rest got r less
        ]
  ]

  -- Whatever comes in and whatever breaks off, `ws_t_read` never returns a part of what it was asked
  -- for: it returns all `size` bytes, or an error code that is not 0, or it still waits.
  pub t_read-Whole :
      (size : ℕ) (con : Con Chain) (script : Script Chain)
      → Whole size (t_read lwip size con script)
  t_read-Whole zero con script = subst (Whole 0) (sym (t_read-zero lwip con script)) refl
  t_read-Whole (suc n) con [] = Whole-unless (suc n) con [] (omega arith) (λ got r less.
      subst (Whole (suc n)) (sym (t_read-over lwip (suc n) con _ got (omega arith) r refl less)) tt)
  t_read-Whole (suc n) con (es ∷ script) =
      let woken : Con Chain = callbacks lwip es (read lwip con (suc n)).1 in
      Whole-unless (suc n) con (es ∷ script) (omega arith) (λ got r less.
        elim (Bool-cases (woken.active_err == 0)) [
          | inl awake ↦
              subst (Whole (suc n))
                (sym (
                  t_read-more lwip (suc n) con _ got (omega arith) r refl es script less
                    (ground arith)))
                (behind-Whole got (suc n) (t_read lwip (suc n - length got) woken script)
                  (omega arith) (t_read-Whole (suc n - length got) woken script))
          | inr broken ↦
              subst (Whole (suc n))
                (sym (t_read-broken (suc n) con (omega arith) got es script r less broken))
                (ground arith)
        ])

  -- A read of 65536 bytes does not return while the connection stays open, however much comes in:
  -- `pbuf_copy_partial` takes its length as a `u16_t`, so that each round asks for 0 bytes.
  pub t_read-too_large :
      (con : Con Chain) (script : Script Chain)
      → IsOpen con
      → IsCalm script
      → (con' : Con Chain) × (t_read lwip (2 ^ 16) con script ≡ waiting con')
  unfolding behind
  t_read-too_large con [] on calm =
      let (con', r, _, on') = read-u16 lwip laws con (2 ^ 16) on in
      (
        con',
        t_read-over lwip (2 ^ 16) con con' [] (omega arith) (ap (λ p. p.0) r) (ap (λ p. p.1) r)
            (omega arith),
      )
  t_read-too_large con (es ∷ script) on calm =
      let (con', r, _, on') = read-u16 lwip laws con (2 ^ 16) on in
      let (_, on'') = callbacks-calm lwip laws es con' on' calm.0 in
      let (con3, e) = t_read-too_large (callbacks lwip es con') script on'' calm.1 in
      (
        con3,
        t_read-more lwip (2 ^ 16) con con' [] (omega arith) (ap (λ p. p.0) r) (ap (λ p. p.1) r) es
              script (omega arith) on''.0
            ∙ ap (behind []) e,
      )
