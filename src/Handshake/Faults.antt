-- ===== src/Handshake/Faults.antt =====
-- Where the header parser departs from HTTP: on an empty value, and on a connection that is lost.
use c_web_socket_pico_w_test.Base.{
  ℕ, zero, suc, ◌+◌, ◌≤◌, ◌≡◌, ◌≢◌, refl, sym, ap, subst, arith, Bool, true, false, ◌==◌, equal,
  none, ◌⊎◌, inl, inr, List, [], ◌∷◌, ◌++◌, length, replicate, codes,
}
use c_web_socket_pico_w_test.Lwip.{Lwip, LwipLaws}
use c_web_socket_pico_w_test.Con.{Con, Script, failed, returns, waiting, peak, consume, callbacks}
use c_web_socket_pico_w_test.Con.Calm.{On}
use c_web_socket_pico_w_test.Con.Peak.{t_peak}
use c_web_socket_pico_w_test.Selecter.{no_match, no_match_yet, select, reset}
use c_web_socket_pico_w_test.Selecter.Reference.{answer}
use c_web_socket_pico_w_test.Selecter.Stream.{select-reset}
use c_web_socket_pico_w_test.Handshake.{
  header_fields, Task, ends, waits, crash, starved, value, error, selected, parsed, eat,
  consume_line, eat_whitespace, read_name, read_value, eat_rest, read_fields, read_header,
}
use c_web_socket_pico_w_test.Handshake.Scanning.{PeakLaws}
use c_web_socket_pico_w_test.Handshake.Tag.{eat_whitespace-sneezes}
use c_web_socket_pico_w_test.Handshake.Names.{IsName, read_name-NameRead}
use c_web_socket_pico_w_test.Handshake.Values.{IsLine, eat_rest-takes}
use c_web_socket_pico_w_test.Handshake.Fields.{upgrade_name, key_name, header_names}
use c_web_socket_pico_w_test.Handshake.Head.{fields-crash, fields-next, fields-IsText}

module _ {Chain : Type 0} (lwip : Lwip Chain) (laws : LwipLaws lwip) (peaks : PeakLaws lwip) where
  -- A field with an empty value swallows the line behind it, whatever field stands there: `\r` is
  -- white space for `ws_eat_whitespace`, so what is meant for the blanks before the value takes the
  -- end of the line as well, and what is meant for the end of the line takes the next one. The name
  -- is none that the server knows; where it begins neither of those, a cut may make the selecter read
  -- too far instead.
  pub empty_value-swallows :
      (fuel : ℕ) (name line ys : List ℕ) (upgrade : Bool) (key : List ℕ) (con : Con Chain)
      (script : Script Chain)
      → length name + 4 ≤ fuel
      → length line + 2 ≤ fuel
      → IsName name
      → equal name upgrade_name ≡ false
      → equal name key_name ≡ false
      → IsLine line
      → On lwip con script (name ++ 58 ∷ 32 ∷ 13 ∷ 10 ∷ (line ++ 13 ∷ 10 ∷ ys))
      → ((read_fields lwip (suc fuel) upgrade key con script ≡ crash)
          × (answer 0 header_fields name ≡ no_match))
        ⊎ ((con' : Con Chain) × (script' : Script Chain) × (read_fields lwip
                (suc fuel)
                upgrade
                key
                con
                script
              ≡ read_fields lwip fuel upgrade key con' script')
            × On lwip con' script' ys)
  unfolding read_value
  empty_value-swallows fuel name line ys upgrade key con script lt lt2 fine u k whole on =
      elim (read_name-NameRead lwip laws peaks (suc fuel) (codes "Upgrade")
        (codes "Sec-WebSocket-Key" ∷ []) con script name (32 ∷ 13 ∷ 10 ∷ (line ++ 13 ∷ 10 ∷ ys))
        (omega arith) fields-IsText fine on) [
          | inl (e, unknown) ↦ inl (fields-crash lwip fuel upgrade key con script e, unknown)
          | inr (con1, script1, e1, on1) ↦
              let (con2, script2, e2, on2) =
                eat_whitespace-sneezes lwip laws peaks (suc fuel) con1 script1 (58 ∷ 32 ∷ 13 ∷ [])
                  (line ++ 13 ∷ 10 ∷ ys) (omega arith) (refl, (refl, (refl, tt))) on1 in
              let (con4, script4, e4, on4) =
                eat_rest-takes lwip laws peaks (suc fuel) con2 script2 line ys (omega arith) whole
                  on2 in
              inr (
                con4,
                script4,
                fields-next lwip fuel upgrade upgrade key key (answer 0 header_fields name)
                    (value 1) con con1 con2 con2 con4 script script1 script2 script2 script4 e1 e2
                    (passed con2 script2) e4,
                on4,
              )
        ]
    where
      passed :
          (c : Con Chain) (s : Script Chain)
          → read_value lwip (suc fuel) (answer 0 header_fields name) upgrade key c s
            ≡ ends (parsed upgrade key) c s
      passed c s = elim (header_names name) [
        | inl (u2, _, _) ↦ absurd (ground arith)
        | inr (inl (_, k2, _)) ↦ absurd (ground arith)
        | inr (inr (_, _, inl a)) ↦ rw a refl
        | inr (inr (_, _, inr a)) ↦ rw a refl
      ]

-- No error code ends the run, nor anything else.
abbrev pub Endless : {Chain A : Type 0} → Task Chain A → Type 0
Endless (ends a con script) = ⊥
Endless (waits con) = Unit
Endless crash = ⊥
Endless starved = Unit

module _ {Chain : Type 0} (lwip : Lwip Chain) (con : Con Chain) (gone : con.p_current ≡ none)
    (lost : con.active_err ≢ 0) where
  nothing_shown : peak lwip con ≡ []
  unfolding peak
  nothing_shown = rw gone refl

  consume-nothing : (consume lwip con 0).1 ≡ con
  unfolding consume
  consume-nothing = rw gone refl

  t_peak-lost :
      (script : Script Chain)
      → t_peak lwip con ([] ∷ script) ≡ returns (failed con.active_err) con script
  unfolding t_peak callbacks
  t_peak-lost script =
      let none_shown : (length (peak lwip con) == 0) ≡ true =
        ap (λ l. length l == 0) nothing_shown in
      let awake : (con.active_err == 0) ≡ false = ground arith in rw (none_shown, awake) refl

  t_peak-over : t_peak lwip con [] ≡ waiting con
  unfolding t_peak
  t_peak-over = rw nothing_shown refl

  eat-lost :
      (stop : ℕ → Bool) (extra : ℕ → ℕ) (fuel n : ℕ)
      → eat lwip stop extra (suc fuel) con ([] ∷ replicate n [])
        ≡ ends (error con.active_err) con (replicate n [])
  unfolding eat
  eat-lost stop extra fuel n = rw (eat, t_peak-lost (replicate n [])) refl

  eat-over :
      (stop : ℕ → Bool) (extra : ℕ → ℕ) (fuel : ℕ)
      → eat lwip stop extra (suc fuel) con [] ≡ waits con
  unfolding eat
  eat-over stop extra fuel = rw (eat, t_peak-over) refl

  read_name-lost :
      (fuel n : ℕ)
      → read_name lwip (suc fuel) (reset header_fields 2) con ([] ∷ replicate n [])
        ≡ ends (selected no_match_yet) con (replicate n [])
  unfolding read_name answer
  read_name-lost fuel n =
      let nothing : (select (reset header_fields 2) []).0 ≡ no_match_yet =
        select-reset (codes "Upgrade") (codes "Sec-WebSocket-Key" ∷ []) [] fields-IsText tt in
      rw (read_name, t_peak-lost (replicate n []), nothing, consume-nothing) refl

  read_name-over : (fuel : ℕ) → read_name lwip (suc fuel) (reset header_fields 2) con [] ≡ waits con
  unfolding read_name
  read_name-over fuel = rw (read_name, t_peak-over) refl

  eat_rest-lost :
      (fuel n : ℕ)
      → eat_rest lwip (suc fuel) con ([] ∷ replicate n []) ≡ ends tt con (replicate n [])
  unfolding eat_rest eat_whitespace
  eat_rest-lost fuel n = rw (eat_rest, eat_whitespace, eat-lost _ _ fuel n) refl

  read_fields-Endless :
      (fuel n : ℕ) (upgrade : Bool) (key : List ℕ)
      → Endless (read_fields lwip fuel upgrade key con (replicate n []))
  unfolding read_fields read_value eat_rest eat_whitespace
  read_fields-Endless zero n upgrade key = tt
  read_fields-Endless (suc fuel) zero upgrade key = rw (read_fields, read_name-over fuel) tt
  read_fields-Endless (suc fuel) (suc zero) upgrade key =
      rw (read_fields, read_name-lost fuel 0, eat-over _ _ fuel) tt
  read_fields-Endless (suc fuel) (suc (suc zero)) upgrade key =
      rw (read_fields, read_name-lost fuel 1, eat-lost _ _ fuel 0, eat-over _ _ fuel) tt
  read_fields-Endless (suc fuel) (suc (suc (suc n))) upgrade key =
      subst Endless
        (sym (
          fields-next lwip fuel upgrade upgrade key key no_match_yet (error con.active_err) con con
            con con con _ _ _ _ _ (read_name-lost fuel (suc (suc n))) (eat-lost _ _ fuel (suc n))
            refl (eat_rest-lost fuel n)))
        (read_fields-Endless fuel n upgrade key)

-- If the connection is lost before `do_ws_header` begins to read the head of the request, and no bytes
-- are there, it does not come to an end in the head: `ws_t_peak` returns the error at once each time,
-- and no loop that it comes to leaves on it. However many rounds `fuel` allows and however often `n`
-- the task is resumed, it neither returns nor fails.
pub read_header-Endless :
    {Chain : Type 0} (lwip : Lwip Chain) (con : Con Chain) (fuel n : ℕ) (junk : List ℕ)
    → con.p_current ≡ none
    → con.active_err ≢ 0
    → Endless (read_header lwip fuel junk con (replicate n []))
unfolding read_header consume_line eat_whitespace eat
read_header-Endless lwip con zero n junk gone lost = tt
read_header-Endless lwip con (suc fuel) zero junk gone lost =
    rw (read_header, eat-over lwip con gone lost _ _ fuel) tt
read_header-Endless lwip con (suc fuel) (suc zero) junk gone lost =
    rw (read_header, eat-lost lwip con gone lost _ _ fuel 0, eat-over lwip con gone lost _ _ fuel)
      tt
read_header-Endless lwip con (suc fuel) (suc (suc n)) junk gone lost =
    rw
      (
        read_header,
        eat-lost lwip con gone lost _ _ fuel (suc n),
        eat-lost lwip con gone lost _ _ fuel n,
      )
      (read_fields-Endless lwip con gone lost (suc fuel) n false junk)
