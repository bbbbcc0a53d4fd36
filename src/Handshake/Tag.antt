-- ===== src/Handshake/Tag.antt =====
-- `ws_consume_line`, `ws_eat_whitespace` and `ws_confirm_tag` on a line.
use c_web_socket_pico_w_test.Base.{
  ℕ, zero, suc, ◌+◌, ◌<◌, ◌≤◌, ◌≡◌, ◌≢◌, refl, sym, ap, ap₂, ◌∙◌, subst, arith, Bool, true, false,
  ◌==◌, equal, if◌then◌else◌, List, [], ◌∷◌, ◌++◌, append_assoc, length, length-append, drop,
  length-drop, drop-append_le, All, All-drop, Bool-cases, inl, inr,
}
use c_web_socket_pico_w_test.Lwip.{Lwip, LwipLaws}
use c_web_socket_pico_w_test.Con.{Con, Script, done, returns, consume}
use c_web_socket_pico_w_test.Con.Calm.{On}
use c_web_socket_pico_w_test.Con.Peak.{t_peak}
use c_web_socket_pico_w_test.Handshake.{
  Task, ends, value, task_then, not_white, is_return, Comparison, whole, longer, differs, so_far,
  compare, consume_line, eat_whitespace, confirm_tag,
}
use c_web_socket_pico_w_test.Handshake.Scanning.{
  PeakLaws, Ends, peak-Step, eat-takes, drop-front, head, tail, All-back,
}

-- No carriage return.
abbrev pub NoReturn : List ℕ → Type 0
NoReturn = All (λ c. c ≢ 13)

-- What the loop of `ws_confirm_tag` finds in a buffer that is the front of a line and its end.
abbrev pub Compared : ℕ → List ℕ → List ℕ → List ℕ → Comparison → Type 0
Compared i tag line buf (whole j) =
    (j ≡ i + length line) × (length line < length buf) × (equal line tag ≡ true)
Compared i tag line buf (longer j) =
    (k : ℕ) × (j ≡ i + k) × (k < length line) × (k < length buf) × (equal line tag ≡ false)
Compared i tag line buf (differs j) =
    (k : ℕ) × (j ≡ i + k) × (k ≤ length line) × (k < length buf) × (equal line tag ≡ false)
Compared i tag line buf (so_far tag') =
    (more : List ℕ) × (line ≡ buf ++ more) × (equal line tag ≡ equal more tag') × NoReturn tag'

Compared-next :
    (i t l b : ℕ) (tag line buf : List ℕ) (c : Comparison)
    → (l == t) ≡ true
    → l ≡ b
    → Compared (i + 1) tag line buf c
    → Compared i (t ∷ tag) (l ∷ line) (b ∷ buf) c
Compared-next i t l b tag line buf (whole j) same p (at, lt, e) =
    (omega arith, omega arith, rw same e)
Compared-next i t l b tag line buf (longer j) same p (k, at, lt, le, e) =
    (suc k, omega arith, omega arith, omega arith, rw same e)
Compared-next i t l b tag line buf (differs j) same p (k, at, lt, le, e) =
    (suc k, omega arith, omega arith, omega arith, rw same e)
Compared-next i t l b tag line buf (so_far tag') same p (more, q, e, fine) =
    (more, ap₂ ◌∷◌ p q, rw same e, fine)

compare-Compared :
    (i : ℕ) (tag line ys buf rest : List ℕ)
    → NoReturn tag
    → NoReturn line
    → line ++ 13 ∷ ys ≡ buf ++ rest
    → Compared i tag line buf (compare i tag buf)
unfolding compare
compare-Compared i tag line ys [] rest ht hl e = (line, refl, refl, ht)
compare-Compared i [] [] ys (b ∷ buf) rest ht hl e =
    let end : (b == 13) ≡ true = ap (λ c. c == 13) (sym (head e)) in
    rw end (omega arith, omega arith, refl)
compare-Compared i [] (l ∷ line) ys (b ∷ buf) rest ht hl e =
    let same : l ≡ b = head e in
    let inside : (b == 13) ≡ false = ground (arith, hl.0) in
    rw inside (0, omega arith, omega arith, omega arith, refl)
compare-Compared i (t ∷ tag) [] ys (b ∷ buf) rest ht hl e =
    let same : 13 ≡ b = head e in
    let other : (b == t) ≡ false = ground (arith, ht.0) in
    rw other (0, omega arith, omega arith, omega arith, refl)
compare-Compared i (t ∷ tag) (l ∷ line) ys (b ∷ buf) rest ht hl e =
    let same : l ≡ b = head e in
    elim (Bool-cases (b == t)) [
      | inl eq ↦ rw eq (
          Compared-next i t l b tag line buf (compare (i + 1) tag buf) (ap (λ c. c == t) same ∙ eq)
            same (compare-Compared (i + 1) tag line ys buf rest ht.1 hl.1 (tail e)))
      | inr ne ↦
          let other : (l == t) ≡ false = ap (λ c. c == t) same ∙ ne in
          rw ne (0, omega arith, omega arith, omega arith, rw other refl)
    ]

module _ {Chain : Type 0} (lwip : Lwip Chain) (laws : LwipLaws lwip) (peaks : PeakLaws lwip) where
  pub consume_line-takes :
      (fuel : ℕ) (con : Con Chain) (script : Script Chain) (line ys : List ℕ)
      → length line < fuel
      → NoReturn line
      → On lwip con script (line ++ 13 ∷ ys)
      → Ends lwip (value 0) (13 ∷ ys) (consume_line lwip fuel con script)
  unfolding consume_line
  consume_line-takes fuel con script line ys lt fine on =
      eat-takes lwip laws peaks is_return (λ _. 0) fuel con script line 13 ys lt (inside line fine)
        refl (omega arith) on
    where
      inside : (l : List ℕ) → NoReturn l → All (λ c. is_return c ≡ false) l
      inside [] h = tt
      inside (c ∷ l) (h, hs) = (ground arith, inside l hs)

  pub eat_whitespace-takes :
      (fuel : ℕ) (con : Con Chain) (script : Script Chain) (xs : List ℕ) (c : ℕ) (ys : List ℕ)
      → length xs < fuel
      → All (λ x. not_white x ≡ false) xs
      → not_white c ≡ true
      → c ≢ 10
      → On lwip con script (xs ++ c ∷ ys)
      → Ends lwip (value 0) (c ∷ ys) (eat_whitespace lwip fuel con script)
  unfolding eat_whitespace
  eat_whitespace-takes fuel con script xs c ys lt white stops other on =
      let extra : (if c == 10 then 1 else 0) ≡ 0 = ground arith in
      subst (λ k. Ends lwip (value k) (drop k (c ∷ ys)) (eat_whitespace lwip fuel con script)) extra
        (eat-takes lwip laws peaks not_white (λ x. if x == 10 then 1 else 0) fuel con script xs c ys
          lt white stops (omega (arith, extra)) on)

  pub eat_whitespace-sneezes :
      (fuel : ℕ) (con : Con Chain) (script : Script Chain) (xs ys : List ℕ)
      → length xs < fuel
      → All (λ x. not_white x ≡ false) xs
      → On lwip con script (xs ++ 10 ∷ ys)
      → Ends lwip (value 1) ys (eat_whitespace lwip fuel con script)
  unfolding eat_whitespace
  eat_whitespace-sneezes fuel con script xs ys lt white on =
      eat-takes lwip laws peaks not_white (λ x. if x == 10 then 1 else 0) fuel con script xs 10 ys
        lt white refl (omega arith) on

module _ {Chain : Type 0} (lwip : Lwip Chain) where
  -- `ws_confirm_tag` after its loop on a buffer.
  compared : ℕ → Con Chain → Script Chain → List ℕ → Comparison → Task Chain Bool
  compared fuel con script buf (whole i) = ends true (consume lwip con i).1 script
  compared fuel con script buf (longer i) =
      task_then (consume_line lwip (suc fuel) (consume lwip con (i + 1)).1 script)
        (λ _ con2 script2. ends false con2 script2)
  compared fuel con script buf (differs i) =
      task_then (consume_line lwip (suc fuel) (consume lwip con i).1 script)
        (λ _ con2 script2. ends false con2 script2)
  compared fuel con script buf (so_far tag) =
      confirm_tag lwip fuel tag (consume lwip con (length buf)).1 script

  confirm_tag-compared :
      (fuel : ℕ) (tag buf : List ℕ) (con con' : Con Chain) (script script' : Script Chain)
      → t_peak lwip con script ≡ returns (done buf) con' script'
      → confirm_tag lwip (suc fuel) tag con script
        ≡ compared fuel con' script' buf (compare 0 tag buf)
  unfolding confirm_tag compared
  confirm_tag-compared fuel tag buf con con' script script' e =
      (rw (confirm_tag, e) refl) ∙ cases (compare 0 tag buf)
    where
      cases :
          (c : Comparison)
          → elim c as (λ _. Task Chain Bool) [
            | whole i ↦ ends true (consume lwip con' i).1 script'
            | longer i ↦
                task_then
                  (consume_line lwip (suc fuel) (consume lwip con' (i + 1)).1 script')
                  (λ _ con2 script2. ends false con2 script2)
            | differs i ↦
                task_then
                  (consume_line lwip (suc fuel) (consume lwip con' i).1 script')
                  (λ _ con2 script2. ends false con2 script2)
            | so_far tag' ↦ confirm_tag lwip fuel tag' (consume lwip con' (length buf)).1 script'
          ]
            ≡ compared fuel con' script' buf c
      cases (whole i) = refl
      cases (longer i) = refl
      cases (differs i) = refl
      cases (so_far tag') = refl

module _ {Chain : Type 0} (lwip : Lwip Chain) (laws : LwipLaws lwip) (peaks : PeakLaws lwip) where
  line_dropped :
      (fuel k : ℕ) (con : Con Chain) (script : Script Chain) (line ys : List ℕ)
      → length line < fuel
      → NoReturn line
      → k ≤ length line
      → On lwip con script (drop k (line ++ 13 ∷ ys))
      → Ends lwip false (13 ∷ ys) (
          task_then (consume_line lwip fuel con script) (λ _ con2 script2. ends false con2 script2))
  line_dropped fuel k con script line ys lt fine le on =
      let (con2, script2, e, on2) =
        consume_line-takes lwip laws peaks fuel con script (drop k line) ys
          (omega (arith, length-drop k line)) (All-drop (λ c. c ≢ 13) k line fine)
          (subst (On lwip con script) (drop-append_le k line (13 ∷ ys) le) on) in
      (con2, script2, ap (λ r. task_then r (λ _ con3 script3. ends false con3 script3)) e, on2)

  -- The last round, and the start of the next one.
  compared-takes :
      (fuel : ℕ) (tag line ys : List ℕ) (con : Con Chain) (script : Script Chain) (buf : List ℕ)
      → length line < suc fuel
      → NoReturn line
      → ((k : ℕ)
          → k ≤ length buf
          → On lwip (consume lwip con k).1 script (drop k (line ++ 13 ∷ ys)))
      → ((tag' more : List ℕ) (con' : Con Chain)
          → line ≡ buf ++ more
          → NoReturn tag'
          → On lwip con' script (more ++ 13 ∷ ys)
          → Ends lwip (equal more tag') (13 ∷ ys) (confirm_tag lwip fuel tag' con' script))
      → (c : Comparison) → Compared 0 tag line buf c
      → Ends lwip (equal line tag) (13 ∷ ys) (compared lwip fuel con script buf c)
  unfolding compared
  compared-takes fuel tag line ys con script buf lt hl consumes again (whole j) (at, here, e) =
      let k : j ≡ length line = omega arith in
      (
        (consume lwip con j).1,
        script,
        ap (λ b. ends b (consume lwip con j).1 script) (sym e),
        subst (On lwip (consume lwip con j).1 script)
            (ap (λ n. drop n (line ++ 13 ∷ ys)) k ∙ drop-front line (13 ∷ ys))
            (consumes j (omega arith)),
      )
  compared-takes fuel tag line ys con script buf lt hl consumes again (longer j)
        (k, at, le, here, e) =
      subst (λ b. Ends lwip b (13 ∷ ys) (compared lwip fuel con script buf (longer j))) (sym e)
        (line_dropped (suc fuel) (j + 1) (consume lwip con (j + 1)).1 script line ys lt hl
          (omega arith) (consumes (j + 1) (omega arith)))
  compared-takes fuel tag line ys con script buf lt hl consumes again (differs j)
        (k, at, le, here, e) =
      subst (λ b. Ends lwip b (13 ∷ ys) (compared lwip fuel con script buf (differs j))) (sym e)
        (line_dropped (suc fuel) j (consume lwip con j).1 script line ys lt hl (omega arith)
          (consumes j (omega arith)))
  compared-takes fuel tag line ys con script buf lt hl consumes again (so_far tag')
        (more, p, e, ht) =
      subst (λ b. Ends lwip b (13 ∷ ys) (compared lwip fuel con script buf (so_far tag'))) (sym e)
        (again tag' more (consume lwip con (length buf)).1 p ht (
          subst (On lwip (consume lwip con (length buf)).1 script)
            (ap (λ l. drop (length buf) (l ++ 13 ∷ ys)) p
              ∙ ap (drop (length buf)) (append_assoc buf more (13 ∷ ys))
              ∙ drop-front buf (more ++ 13 ∷ ys))
            (consumes (length buf) (omega arith))))

  -- `ws_confirm_tag` tells whether the line is the tag, and leaves the end of the line, whatever is
  -- on it and however it is cut into buffers. Neither has a carriage return, and the fuel is larger
  -- than the line.
  pub confirm_tag-takes :
      (fuel : ℕ) (tag : List ℕ) (con : Con Chain) (script : Script Chain) (line ys : List ℕ)
      → length line < fuel
      → NoReturn tag
      → NoReturn line
      → On lwip con script (line ++ 13 ∷ ys)
      → Ends lwip (equal line tag) (13 ∷ ys) (confirm_tag lwip fuel tag con script)
  confirm_tag-takes zero tag con script line ys lt ht hl on = absurd (omega arith)
  confirm_tag-takes (suc fuel) tag con script line ys lt ht hl on =
      let s =
        peak-Step lwip laws peaks con script (line ++ 13 ∷ ys)
          (omega (arith, length-append line (13 ∷ ys))) on in
      let run = confirm_tag-compared lwip fuel tag s.buf con s.con' script s.script' s.shows in
      subst (Ends lwip (equal line tag) (13 ∷ ys)) (sym run) (
        compared-takes fuel tag line ys s.con' s.script' s.buf lt hl s.consumes
          (λ tag' more con2 p ht2 on2.
            confirm_tag-takes fuel tag' con2 s.script' more ys
              (omega (arith, ap length p, length-append s.buf more, s.some_bytes)) ht2
              (All-back (λ c. c ≢ 13) s.buf more (subst NoReturn p hl)) on2)
          (compare 0 tag s.buf) (compare-Compared 0 tag line ys s.buf s.rest ht hl s.split))
