-- ===== src/Handshake/Values.antt =====
-- The value of a field and the end of its line.
use c_web_socket_pico_w_test.Base.{
  ℕ, zero, suc, ◌+◌, ◌<◌, ◌≡◌, ◌≢◌, refl, sym, ap, ◌∙◌, subst, arith, true, false, Bool-cases, ◌⊎◌,
  inl, inr, List, [], ◌∷◌, ◌++◌, append_assoc, length, length-append, All, All-append,
}
use c_web_socket_pico_w_test.Lwip.{Lwip, LwipLaws}
use c_web_socket_pico_w_test.Con.{Con, Script}
use c_web_socket_pico_w_test.Con.Calm.{On}
use c_web_socket_pico_w_test.Handshake.{
  ends, Status, value, not_white, consume_line, eat_whitespace, eat_rest,
}
use c_web_socket_pico_w_test.Handshake.Scanning.{PeakLaws, Ends, All-back}
use c_web_socket_pico_w_test.Handshake.Tag.{
  NoReturn, consume_line-takes, eat_whitespace-takes, eat_whitespace-sneezes,
}

-- The bytes of a line: no carriage return and no line feed.
abbrev pub IsLine : List ℕ → Type 0
IsLine = All (λ c. (c ≢ 13) × (c ≢ 10))

pub line-NoReturn : (line : List ℕ) → IsLine line → NoReturn line
line-NoReturn [] h = tt
line-NoReturn (c ∷ line) (h, hs) = (h.0, line-NoReturn line hs)

-- White space at the front of a line: it is all of it, or another byte follows.
white-front :
    (line : List ℕ)
    → IsLine line
    → All (λ c. not_white c ≡ false) line
      ⊎ ((xs : List ℕ) × (c : ℕ) × (more : List ℕ) × (line ≡ xs ++ c ∷ more)
          × All (λ x. not_white x ≡ false) xs
          × (not_white c ≡ true)
          × (c ≢ 10)
          × IsLine more)
white-front [] h = inl tt
white-front (c ∷ line) (h, hs) = elim (Bool-cases (not_white c)) [
  | inl other ↦ inr ([], c, line, refl, tt, other, h.1, hs)
  | inr white ↦ elim (white-front line hs) [
    | inl all ↦ inl (white, all)
    | inr (xs, d, more, e, all, other, feed, fine) ↦
        inr (c ∷ xs, d, more, ap (λ l. c ∷ l) e, (white, all), other, feed, fine)
  ]
]

module _ {Chain : Type 0} (lwip : Lwip Chain) where
  eat_rest-over :
      (fuel : ℕ) (con con1 : Con Chain) (script script1 : Script Chain)
      → eat_whitespace lwip (suc fuel) con script ≡ ends (value 1) con1 script1
      → eat_rest lwip (suc fuel) con script ≡ ends tt con1 script1
  unfolding eat_rest
  eat_rest-over fuel con con1 script script1 e = rw (eat_rest, e) refl

  eat_rest-on :
      (fuel : ℕ) (con con1 con2 : Con Chain) (script script1 script2 : Script Chain) (s : Status)
      → eat_whitespace lwip (suc fuel) con script ≡ ends (value 0) con1 script1
      → consume_line lwip (suc fuel) con1 script1 ≡ ends s con2 script2
      → eat_rest lwip (suc fuel) con script ≡ eat_rest lwip fuel con2 script2
  unfolding eat_rest
  eat_rest-on fuel con con1 con2 script script1 script2 s e e2 = rw (eat_rest, e, e2) refl

module _ {Chain : Type 0} (lwip : Lwip Chain) (laws : LwipLaws lwip) (peaks : PeakLaws lwip) where
  -- White space and the end of the line.
  white-ended :
      (fuel : ℕ) (con : Con Chain) (script : Script Chain) (xs ys : List ℕ)
      → length xs + 1 < fuel
      → All (λ c. not_white c ≡ false) xs
      → On lwip con script (xs ++ 13 ∷ 10 ∷ ys)
      → Ends lwip tt ys (eat_rest lwip fuel con script)
  white-ended zero con script xs ys lt white on = absurd (omega arith)
  white-ended (suc fuel) con script xs ys lt white on =
      let (con1, script1, e, on1) =
        eat_whitespace-sneezes lwip laws peaks (suc fuel) con script (xs ++ 13 ∷ []) ys
          (omega (arith, length-append xs (13 ∷ [])))
          (All-append (λ c. not_white c ≡ false) xs (13 ∷ []) white (refl, tt))
          (subst (On lwip con script) (sym (append_assoc xs (13 ∷ []) (10 ∷ ys))) on) in
      (con1, script1, eat_rest-over lwip fuel con con1 script script1 e, on1)

  -- The rest of a line is passed over, with its end, and nothing behind it.
  pub eat_rest-takes :
      (fuel : ℕ) (con : Con Chain) (script : Script Chain) (line ys : List ℕ)
      → length line + 2 < fuel
      → IsLine line
      → On lwip con script (line ++ 13 ∷ 10 ∷ ys)
      → Ends lwip tt ys (eat_rest lwip fuel con script)
  eat_rest-takes zero con script line ys lt fine on = absurd (omega arith)
  eat_rest-takes (suc fuel) con script line ys lt fine on = elim (white-front line fine) [
    | inl white ↦ white-ended (suc fuel) con script line ys (omega arith) white on
    | inr (xs, c, more, p, white, other, feed, rest) ↦
        let (con1, script1, e1, on1) =
          eat_whitespace-takes lwip laws peaks (suc fuel) con script xs c (more ++ 13 ∷ 10 ∷ ys)
            (omega (arith, ap length p, length-append xs (c ∷ more))) white other feed
            (subst (On lwip con script)
              (ap (λ l. l ++ 13 ∷ 10 ∷ ys) p ∙ append_assoc xs (c ∷ more) (13 ∷ 10 ∷ ys)) on) in
        let whole : IsLine (c ∷ more) = All-back _ xs (c ∷ more) (subst IsLine p fine) in
        let (con2, script2, e2, on2) =
          consume_line-takes lwip laws peaks (suc fuel) con1 script1 (c ∷ more) (10 ∷ ys)
            (omega (arith, ap length p, length-append xs (c ∷ more)))
            (line-NoReturn (c ∷ more) whole) on1 in
        let (con3, script3, e3, on3) = white-ended fuel con2 script2 [] ys (omega arith) tt on2 in
        (
          con3,
          script3,
          eat_rest-on lwip fuel con con1 con2 script script1 script2 (value 0) e1 e2 ∙ e3,
          on3,
        )
  ]
