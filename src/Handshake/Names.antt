-- ===== src/Handshake/Names.antt =====
-- The loop of `do_ws_header` on the name of a field.
use c_web_socket_pico_w_test.Base.{
  ℕ, zero, suc, ◌+◌, ◌<◌, ◌≡◌, ◌≢◌, refl, sym, ap, ◌∙◌, subst, arith, false, ◌==◌, Option, none,
  some, ◌⊎◌, inl, inr, List, [], ◌∷◌, ◌++◌, append_assoc, length, length-append, take, drop, All,
  All-append, take-append_le, take_of_length-le,
}
use c_web_socket_pico_w_test.Lwip.{Lwip, LwipLaws}
use c_web_socket_pico_w_test.Con.{Con, Script, done, returns, consume}
use c_web_socket_pico_w_test.Con.Calm.{On}
use c_web_socket_pico_w_test.Con.Peak.{t_peak}
use c_web_socket_pico_w_test.Selecter.{
  Selecter, Selection, index, no_match_yet, no_match, fault, stuck, select, reset,
}
use c_web_socket_pico_w_test.Selecter.Reference.{IsText, strip, judge, answer}
use c_web_socket_pico_w_test.Selecter.Scan.{At, Scanned, select-Scanned}
use c_web_socket_pico_w_test.Selecter.Stream.{reset-At, answer-no_match, select-past}
use c_web_socket_pico_w_test.Handshake.{
  Task, ends, crash, and_then_selected, seek, ends_name, Name, header_done, selected, read_name,
}
use c_web_socket_pico_w_test.Handshake.Scanning.{
  PeakLaws, Ends, peak-Step, seek-front, drop-front, All-back,
}

-- An answer about a name, and no failure of the call.
abbrev IsAnswer : Selection → Type 0
IsAnswer fault = ⊥
IsAnswer stuck = ⊥
IsAnswer sel = Unit

answer-IsAnswer : (i : ℕ) (strs : List (List ℕ)) (name : List ℕ) → IsAnswer (answer i strs name)
unfolding answer
answer-IsAnswer i [] name = tt
answer-IsAnswer i (str ∷ strs) name =
    judge-IsAnswer (strip name str) _ (answer-IsAnswer (i + 1) strs name)
  where
    judge-IsAnswer :
        (o : Option (List ℕ)) (later : Selection) → IsAnswer later → IsAnswer (judge i o later)
    judge-IsAnswer none later h = h
    judge-IsAnswer (some []) later h = tt
    judge-IsAnswer (some (c ∷ rest)) later h = tt

and_then_selected-answer :
    {Chain A : Type 0} (sel sel' : Selection) (f : Selection → Task Chain A)
    → sel ≡ sel'
    → IsAnswer sel'
    → and_then_selected sel f ≡ f sel'
and_then_selected-answer sel sel' f e h = ap (λ x. and_then_selected x f) e ∙ cases sel' h
  where
    cases : (x : Selection) → IsAnswer x → and_then_selected x f ≡ f x
    cases fault h = absurd h
    cases stuck h = absurd h
    cases no_match h = refl
    cases no_match_yet h = refl
    cases (index i) h = refl

and_then_selected-fault :
    {Chain A : Type 0} (sel : Selection) (f : Selection → Task Chain A)
    → sel ≡ fault
    → and_then_selected sel f ≡ crash
and_then_selected-fault sel f e = ap (λ x. and_then_selected x f) e

module _ {Chain : Type 0} (lwip : Lwip Chain) (fuel : ℕ) (s : Selecter) (con con' : Con Chain)
    (script script' : Script Chain) (buf : List ℕ)
    (e : t_peak lwip con script ≡ returns (done buf) con' script') where
  -- The end of the name is in the buffer.
  name-ended :
      (c : ℕ)
      → (seek ends_name buf).1 ≡ some c
      → c ≢ 10
      → read_name lwip (suc fuel) s con script
        ≡ and_then_selected
            (select s (take (seek ends_name buf).0 buf)).0
            (λ answer. ends (selected answer) (consume lwip con' (seek ends_name buf).0).1 script')
  unfolding read_name
  name-ended c at other =
      let colon : (c == 10) ≡ false = ground arith in rw (read_name, e, at, colon) refl

  header-ended :
      (seek ends_name buf).1 ≡ some 10
      → read_name lwip (suc fuel) s con script
        ≡ ends header_done (consume lwip con' ((seek ends_name buf).0 + 1)).1 script'
  unfolding read_name
  header-ended at = rw (read_name, e, at) refl

  name-goes_on :
      (seek ends_name buf).1 ≡ none
      → read_name lwip (suc fuel) s con script
        ≡ and_then_selected (select s buf).0 (λ _.
          read_name lwip fuel (select s buf).1 (consume lwip con' (seek ends_name buf).0).1 script')
  unfolding read_name
  name-goes_on at = rw (read_name, e, at) refl

-- A name has no colon, no line feed and no NUL.
abbrev pub IsName : List ℕ → Type 0
IsName = All (λ c. (c ≢ 58) × (c ≢ 10) × (c ≢ 0))

name-inside : (name : List ℕ) → IsName name → All (λ c. ends_name c ≡ false) name
name-inside [] h = tt
name-inside (c ∷ name) ((a, b, z), hs) = (ground arith, name-inside name hs)

pub name-IsText : (name : List ℕ) → IsName name → IsText name
name-IsText [] h = tt
name-IsText (c ∷ name) ((a, b, z), hs) = (z, name-IsText name hs)

take-front : (xs ys : List ℕ) (n : ℕ) → n ≡ length xs → take n (xs ++ ys) ≡ xs
take-front xs ys n e = take-append_le n xs ys (omega arith) ∙ take_of_length-le n xs (omega arith)

-- The bytes of a buffer before the end of the name.
front-taken :
    (name : List ℕ) (c : ℕ) (ys buf rest : List ℕ) (n : ℕ)
    → name ++ c ∷ ys ≡ buf ++ rest
    → n ≡ length name
    → length name < length buf
    → take n buf ≡ name
front-taken name c ys buf rest n split e lt =
    sym (take-append_le n buf rest (omega arith))
    ∙ ap (take n) (sym split)
    ∙ take-front name (c ∷ ys) n e

All-fore : (P : ℕ → Type 0) (xs ys : List ℕ) → All P (xs ++ ys) → All P xs
All-fore P [] ys h = tt
All-fore P (x ∷ xs) ys h = (h.0, All-fore P xs ys h.1)

module _ {Chain : Type 0} (lwip : Lwip Chain) (strs : List (List ℕ)) where
  -- The name is read with the answer for it, or the selecter is called once too often.
  abbrev pub NameRead : List ℕ → List ℕ → Task Chain Name → Type 0
  NameRead name ys t =
      ((t ≡ crash) × (answer 0 strs name ≡ no_match))
      ⊎ Ends lwip (selected (answer 0 strs name)) (58 ∷ ys) t

module _ {Chain : Type 0} (lwip : Lwip Chain) (laws : LwipLaws lwip) (peaks : PeakLaws lwip)
    (strs : List (List ℕ)) where
  -- A spent selecter is called once more.
  spent-crash :
      (fuel : ℕ) (s : Selecter) (con : Con Chain) (script : Script Chain) (name ys : List ℕ)
      → length name < fuel
      → s.list_index ≡ length strs
      → s.strs ≡ strs
      → IsName name
      → On lwip con script (name ++ 58 ∷ ys)
      → read_name lwip fuel s con script ≡ crash
  spent-crash zero s con script name ys lt past whole fine on = absurd (omega arith)
  spent-crash (suc fuel) s con script name ys lt past whole fine on =
      let p =
        peak-Step lwip laws peaks con script (name ++ 58 ∷ ys)
          (omega (arith, length-append name (58 ∷ ys))) on in
      elim (seek-front ends_name name 58 ys p.buf p.rest (name-inside name fine) refl p.split) [
        | inl (i, at, here) ↦
            name-ended lwip fuel s con p.con' script p.script' p.buf p.shows 58 at (omega arith)
            ∙ and_then_selected-fault _ _ (select-past s strs _ past whole)
        | inr (i, at, _) ↦
            name-goes_on lwip fuel s con p.con' script p.script' p.buf p.shows at
            ∙ and_then_selected-fault _ _ (select-past s strs _ past whole)
      ]

  read_name-On :
      (fuel : ℕ) (s : Selecter) (con : Con Chain) (script : Script Chain) (fed name ys : List ℕ)
      → length name < fuel
      → All IsText strs
      → At strs fed fed s
      → IsText fed
      → IsName name
      → On lwip con script (name ++ 58 ∷ ys)
      → NameRead lwip strs (fed ++ name) ys (read_name lwip fuel s con script)
  read_name-On zero s con script fed name ys lt texts at before fine on = absurd (omega arith)
  read_name-On (suc fuel) s con script fed name ys lt texts at before fine on =
      let p =
        peak-Step lwip laws peaks con script (name ++ 58 ∷ ys)
          (omega (arith, length-append name (58 ∷ ys))) on in
      elim (seek-front ends_name name 58 ys p.buf p.rest (name-inside name fine) refl p.split) [
        | inl (i, stop, here) ↦
            let piece : take (seek ends_name p.buf).0 p.buf ≡ name =
              front-taken name 58 ys p.buf p.rest (seek ends_name p.buf).0 p.split i here in
            let scanned : Scanned strs (fed ++ name) (select s name) =
              select-Scanned fed name s texts at before (name-IsText name fine) in
            inr (
              (consume lwip p.con' (seek ends_name p.buf).0).1,
              p.script',
              name-ended lwip fuel s con p.con' script p.script' p.buf p.shows 58 stop (omega arith)
                  ∙ and_then_selected-answer _ (answer 0 strs (fed ++ name)) _
                      (ap (λ l. (select s l).0) piece ∙ scanned.answered)
                      (answer-IsAnswer 0 strs (fed ++ name)),
              subst (On lwip (consume lwip p.con' (seek ends_name p.buf).0).1 p.script')
                  (ap (λ n. drop n (name ++ 58 ∷ ys)) i ∙ drop-front name (58 ∷ ys))
                  (p.consumes (seek ends_name p.buf).0 (omega (arith, i))),
            )
        | inr (i, stop, (more, whole)) ↦
            let texts_name : IsText (p.buf ++ more) = subst IsText whole (name-IsText name fine) in
            let fine_more : IsName more = All-back _ p.buf more (subst IsName whole fine) in
            let piece : IsText p.buf = All-fore (λ c. c ≢ 0) p.buf more texts_name in
            let scanned : Scanned strs (fed ++ p.buf) (select s p.buf) =
              select-Scanned fed p.buf s texts at before piece in
            let joined : (fed ++ p.buf) ++ more ≡ fed ++ name =
              append_assoc fed p.buf more ∙ ap (λ l. fed ++ l) (sym whole) in
            let run =
              name-goes_on lwip fuel s con p.con' script p.script' p.buf p.shows stop
              ∙ and_then_selected-answer _ (answer 0 strs (fed ++ p.buf)) _ scanned.answered
                  (answer-IsAnswer 0 strs (fed ++ p.buf)) in
            let next : On lwip (consume lwip p.con' (seek ends_name p.buf).0).1 p.script'
                (more ++ 58 ∷ ys) =
              subst (On lwip (consume lwip p.con' (seek ends_name p.buf).0).1 p.script')
                (ap (λ n. drop n (name ++ 58 ∷ ys)) i
                  ∙ ap (λ l. drop (length p.buf) (l ++ 58 ∷ ys)) whole
                  ∙ ap (drop (length p.buf)) (append_assoc p.buf more (58 ∷ ys))
                  ∙ drop-front p.buf (more ++ 58 ∷ ys))
                (p.consumes (seek ends_name p.buf).0 (omega (arith, i))) in
            let shorter : length more < fuel =
              omega (arith, ap length whole, length-append p.buf more, p.some_bytes) in
            elim scanned.left [
              | inl (spent, past, listed) ↦ inl (
                run
                    ∙ spent-crash fuel (select s p.buf).1
                        (consume lwip p.con' (seek ends_name p.buf).0).1 p.script' more ys shorter
                        past listed fine_more next,
                ap (answer 0 strs) (sym joined)
                    ∙ answer-no_match 0 strs (fed ++ p.buf) more (sym scanned.answered ∙ spent),
              )
              | inr at' ↦
                  subst (λ l. NameRead lwip strs l ys (read_name lwip (suc fuel) s con script))
                    joined
                    (subst (NameRead lwip strs ((fed ++ p.buf) ++ more) ys) (sym run) (
                      read_name-On fuel (select s p.buf).1
                        (consume lwip p.con' (seek ends_name p.buf).0).1 p.script' (fed ++ p.buf)
                        more ys shorter texts at' (All-append (λ c. c ≢ 0) fed p.buf before piece)
                        fine_more next))
            ]
      ]

module _ {Chain : Type 0} (lwip : Lwip Chain) (laws : LwipLaws lwip) (peaks : PeakLaws lwip) where
  -- The name of a field, up to its colon, by a selecter that was just reset.
  pub read_name-NameRead :
      (fuel : ℕ) (str : List ℕ) (strs : List (List ℕ)) (con : Con Chain) (script : Script Chain)
      (name ys : List ℕ)
      → length name < fuel
      → All IsText (str ∷ strs)
      → IsName name
      → On lwip con script (name ++ 58 ∷ ys)
      → NameRead lwip
          (str ∷ strs)
          name
          ys
          (read_name lwip fuel (reset (str ∷ strs) (length (str ∷ strs))) con script)
  read_name-NameRead fuel str strs con script name ys lt texts fine on =
      read_name-On lwip laws peaks (str ∷ strs) fuel (reset (str ∷ strs) (length (str ∷ strs))) con
        script [] name ys lt texts (reset-At str strs) tt fine on

  -- The line feed alone, with any selecter.
  last_byte :
      (fuel : ℕ) (s : Selecter) (con : Con Chain) (script : Script Chain) (ys : List ℕ)
      → 0 < fuel
      → On lwip con script (10 ∷ ys)
      → Ends lwip header_done ys (read_name lwip fuel s con script)
  last_byte zero s con script ys lt on = absurd (omega arith)
  last_byte (suc fuel) s con script ys lt on =
      let p = peak-Step lwip laws peaks con script (10 ∷ ys) (omega arith) on in
      elim (seek-front ends_name [] 10 ys p.buf p.rest tt refl p.split) [
        | inl (i, stop, here) ↦
            let k : (seek ends_name p.buf).0 + 1 ≡ 1 = omega (arith, i) in
            (
              (consume lwip p.con' ((seek ends_name p.buf).0 + 1)).1,
              p.script',
              header-ended lwip fuel s con p.con' script p.script' p.buf p.shows stop,
              subst (On lwip (consume lwip p.con' ((seek ends_name p.buf).0 + 1)).1 p.script')
                  (ap (λ n. drop n (10 ∷ ys)) k)
                  (p.consumes ((seek ends_name p.buf).0 + 1) (omega (arith, k, here))),
            )
        | inr (i, stop, (more, whole)) ↦
            absurd (omega (arith, ap length whole, length-append p.buf more, p.some_bytes))
      ]

  -- The empty line ends the header. A carriage return begins no name of a field.
  pub read_name-done :
      (fuel : ℕ) (str : List ℕ) (strs : List (List ℕ)) (con : Con Chain) (script : Script Chain)
      (ys : List ℕ)
      → 1 < fuel
      → All IsText (str ∷ strs)
      → On lwip con script (13 ∷ 10 ∷ ys)
      → Ends lwip header_done ys
          (read_name lwip fuel (reset (str ∷ strs) (length (str ∷ strs))) con script)
  read_name-done zero str strs con script ys lt texts on = absurd (omega arith)
  read_name-done (suc fuel) str strs con script ys lt texts on =
      let s = reset (str ∷ strs) (length (str ∷ strs)) in
      let p = peak-Step lwip laws peaks con script (13 ∷ 10 ∷ ys) (omega arith) on in
      elim (seek-front ends_name (13 ∷ []) 10 ys p.buf p.rest (refl, tt) refl p.split) [
        | inl (i, stop, here) ↦
            let k : (seek ends_name p.buf).0 + 1 ≡ 2 = omega (arith, i) in
            (
              (consume lwip p.con' ((seek ends_name p.buf).0 + 1)).1,
              p.script',
              header-ended lwip fuel s con p.con' script p.script' p.buf p.shows stop,
              subst (On lwip (consume lwip p.con' ((seek ends_name p.buf).0 + 1)).1 p.script')
                  (ap (λ n. drop n (13 ∷ 10 ∷ ys)) k)
                  (p.consumes ((seek ends_name p.buf).0 + 1) (omega (arith, k, here))),
            )
        | inr (i, stop, (more, whole)) ↦
            let one : length p.buf ≡ 1 =
              omega (arith, ap length whole, length-append p.buf more, p.some_bytes) in
            let piece : p.buf ≡ 13 ∷ [] =
              sym (take_of_length-le 1 p.buf (omega (arith, one)))
              ∙ sym (take-append_le 1 p.buf p.rest (omega (arith, one)))
              ∙ ap (take 1) (sym p.split) in
            let scanned =
              select-Scanned [] (13 ∷ []) s texts (reset-At str strs) tt (omega arith, tt) in
            let left = (consume lwip p.con' (seek ends_name p.buf).0).1 in
            let next : On lwip left p.script' (10 ∷ ys) =
              subst (On lwip left p.script') (ap (λ n. drop n (13 ∷ 10 ∷ ys)) (i ∙ one))
                (p.consumes (seek ends_name p.buf).0 (omega (arith, i))) in
            let (con2, script2, e, on2) =
              last_byte (fuel) (select s p.buf).1 left p.script' ys (omega arith) next in
            (
              con2,
              script2,
              name-goes_on lwip fuel s con p.con' script p.script' p.buf p.shows stop
                  ∙ and_then_selected-answer _ (answer 0 (str ∷ strs) (13 ∷ [])) _
                      (ap (λ l. (select s l).0) piece ∙ scanned.answered)
                      (answer-IsAnswer 0 (str ∷ strs) (13 ∷ []))
                  ∙ e,
              on2,
            )
      ]
