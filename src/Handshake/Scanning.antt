-- ===== src/Handshake/Scanning.antt =====
-- The loops that peek and consume, on a stream whose next bytes are known: however the bytes are
-- cut into buffers, the loops stop at the same byte.
use c_web_socket_pico_w_test.Base.{
  ℕ, zero, suc, ◌+◌, ◌^◌, ◌<◌, ◌≤◌, ◌≡◌, refl, sym, ap, ap₂, ◌∙◌, subst, arith, Bool, true, false,
  Option-cases, inl, inr, ◌⊎◌, none, some, List, [], ◌∷◌, ◌++◌, append_assoc, length, length-append,
  drop, drop-append_le, drop-add, All, u16, u32,
}
use c_web_socket_pico_w_test.Lwip.{Lwip, LwipLaws, content}
use c_web_socket_pico_w_test.Con.{Con, Script, done, Outcome, returns, announce, peak, consume}
use c_web_socket_pico_w_test.Con.Calm.{
  IsOpen, On, pending, arrived, announce-IsOpen, announce-p_current,
}
use c_web_socket_pico_w_test.Con.Peak.{t_peak, t_peak-stream}
use c_web_socket_pico_w_test.Handshake.{Task, ends, value, seek, eat}

-- A buffer that is shown is not empty, and its length is a `u16_t`.
pub record PeakLaws {Chain : Type 0} (lwip : Lwip Chain) : Type 0 where
  pub full : (c : Chain) → 0 < length (lwip.bytes c) → 0 < length (lwip.payload c)
  pub small : (c : Chain) → length (lwip.payload c) < 2 ^ 16

module _ {Chain : Type 0} (lwip : Lwip Chain) where
  -- The call ended with `a`, and these bytes are still to be read.
  abbrev pub Ends : {A : Type 0} → A → List ℕ → Task Chain A → Type 0
  Ends a bytes t =
      (con : Con Chain) × (script : Script Chain) × (t ≡ ends a con script)
      × On lwip con script bytes

module _ {Chain : Type 0} (lwip : Lwip Chain) (laws : LwipLaws lwip) (peaks : PeakLaws lwip) where
  -- `ws_consume` takes the first bytes of the buffer that `ws_peak` shows.
  consume-takes :
      (con : Con Chain) (k : ℕ)
      → IsOpen con
      → 0 < length (peak lwip con)
      → k ≤ length (peak lwip con)
      → (pending lwip (consume lwip con k).1 ≡ drop k (pending lwip con))
        × IsOpen (consume lwip con k).1
  unfolding consume peak content
  consume-takes con k on some_bytes le = elim (Option-cases con.p_current) [
    | inl e ↦ absurd (omega (arith, ap length (none_shown e)))
    | inr (c, e) ↦
        let moved : Con Chain = record con {
          p_current = lwip.free_header c (u16 k);
          recved_current = u32 (con.recved_current + k);
        } in
        let shown : peak lwip con ≡ lwip.payload c = rw e refl in
        let there : pending lwip con ≡ lwip.bytes c = rw e refl in
        let same : (consume lwip con k).1 ≡ announce lwip moved = rw e refl in
        let in_range : u16 k ≡ k = omega (arith, peaks.small c, ap length shown) in
        (
          ap (pending lwip) same
              ∙ ap (content lwip) (announce-p_current lwip laws moved)
              ∙ laws.freed c (u16 k)
              ∙ ap₂ drop in_range (sym there),
          subst IsOpen (sym same) (announce-IsOpen lwip laws moved on),
        )
  ]
    where
      none_shown : con.p_current ≡ none → peak lwip con ≡ []
      none_shown e = rw e refl

  pending-split :
      (con : Con Chain) → (behind : List ℕ) × (pending lwip con ≡ peak lwip con ++ behind)
  unfolding peak content
  pending-split con = elim (Option-cases con.p_current) [
    | inl e ↦ ([], rw e refl)
    | inr (c, e) ↦ let (behind, parts) = laws.bytes-payload c in (behind, rw e parts)
  ]

  -- A step of such a loop: a buffer that is not empty is the front of the stream, and any part of
  -- it can be consumed.
  pub record Step (bytes : List ℕ) (o : Outcome Chain) : Type 0 where
    pub con' : Con Chain
    pub script' : Script Chain
    pub buf : List ℕ
    pub rest : List ℕ
    pub shows : o ≡ returns (done buf) con' script'
    pub split : bytes ≡ buf ++ rest
    pub some_bytes : 0 < length buf
    pub consumes : (k : ℕ) → k ≤ length buf → On lwip (consume lwip con' k).1 script' (drop k bytes)

  pub peak-Step :
      (con : Con Chain) (script : Script Chain) (bytes : List ℕ)
      → 0 < length bytes
      → On lwip con script bytes
      → Step bytes (t_peak lwip con script)
  peak-Step con script bytes some_bytes (next, on, calm) =
      let (con', script', e, some_shown, left, on', calm') =
        t_peak-stream lwip laws peaks.full con script on calm (omega (arith, ap length next)) in
      let (behind, parts) = pending-split con' in
      record {
        con' = con';
        script' = script';
        buf = peak lwip con';
        rest = behind ++ arrived lwip script';
        shows = e;
        split =
            sym next
            ∙ sym left
            ∙ ap (λ l. l ++ arrived lwip script') parts
            ∙ append_assoc (peak lwip con') behind (arrived lwip script');
        some_bytes = some_shown;
        consumes = λ k le.
            let (taken, on2) = consume-takes con' k on' some_shown le in
            (
              ap (λ l. l ++ arrived lwip script') taken
                  ∙ sym (
                      drop-append_le k (pending lwip con') (arrived lwip script')
                        (omega (arith, ap length parts, length-append (peak lwip con') behind)))
                  ∙ ap (drop k) (left ∙ next),
              on2,
              calm',
            );
      }

pub drop-front : (xs ys : List ℕ) → drop (length xs) (xs ++ ys) ≡ ys
drop-front [] ys = refl
drop-front (x ∷ xs) ys = drop-front xs ys

pub All-back : (P : ℕ → Type 0) (xs ys : List ℕ) → All P (xs ++ ys) → All P ys
All-back P [] ys h = h
All-back P (x ∷ xs) ys h = All-back P xs ys h.1

pub head : {x y : ℕ} {xs ys : List ℕ} → x ∷ xs ≡ y ∷ ys → x ≡ y
head e = cc

pub tail : {x y : ℕ} {xs ys : List ℕ} → x ∷ xs ≡ y ∷ ys → xs ≡ ys
tail e = cc

-- Where a loop stops on a buffer that is the front of bytes of which `c` is the first to stop at.
pub seek-front :
    (stop : ℕ → Bool) (xs : List ℕ) (c : ℕ) (ys buf rest : List ℕ)
    → All (λ x. stop x ≡ false) xs
    → stop c ≡ true
    → xs ++ c ∷ ys ≡ buf ++ rest
    → (((seek stop buf).0 ≡ length xs) × ((seek stop buf).1 ≡ some c) × (length xs < length buf))
      ⊎ (((seek stop buf).0 ≡ length buf)
          × ((seek stop buf).1 ≡ none)
          × ((more : List ℕ) × (xs ≡ buf ++ more)))
unfolding seek
seek-front stop xs c ys [] rest none_stop stops e = inr (refl, refl, (xs, refl))
seek-front stop [] c ys (b ∷ buf) rest none_stop stops e =
    let here : stop b ≡ true = ap stop (sym (head e)) ∙ stops in
    inl (rw here refl, rw here (ap some (sym (head e))), omega arith)
seek-front stop (x ∷ xs) c ys (b ∷ buf) rest (goes_on, none_stop) stops e =
    let here : stop b ≡ false = ap stop (sym (head e)) ∙ goes_on in
    elim (seek-front stop xs c ys buf rest none_stop stops (tail e)) [
      | inl (i, at, lt) ↦ inl (rw here (ap suc i), rw here at, omega arith)
      | inr (i, at, (more, p)) ↦ inr (rw here (ap suc i), rw here at, (more, ap₂ ◌∷◌ (head e) p))
    ]

module _ {Chain : Type 0} (lwip : Lwip Chain) where
  eat-none :
      (stop : ℕ → Bool) (extra : ℕ → ℕ) (fuel : ℕ) (con con' : Con Chain)
      (script script' : Script Chain) (buf : List ℕ)
      → t_peak lwip con script ≡ returns (done buf) con' script'
      → (seek stop buf).1 ≡ none
      → eat lwip stop extra (suc fuel) con script
        ≡ eat lwip stop extra fuel (consume lwip con' (seek stop buf).0).1 script'
  unfolding eat
  eat-none stop extra fuel con con' script script' buf e at = rw (eat, e, at) refl

  eat-some :
      (stop : ℕ → Bool) (extra : ℕ → ℕ) (fuel : ℕ) (con con' : Con Chain)
      (script script' : Script Chain) (buf : List ℕ) (c : ℕ)
      → t_peak lwip con script ≡ returns (done buf) con' script'
      → (seek stop buf).1 ≡ some c
      → eat lwip stop extra (suc fuel) con script
        ≡ ends (value (extra c)) (consume lwip con' ((seek stop buf).0 + extra c)).1 script'
  unfolding eat
  eat-some stop extra fuel con con' script script' buf c e at = rw (eat, e, at) refl

module _ {Chain : Type 0} (lwip : Lwip Chain) (laws : LwipLaws lwip) (peaks : PeakLaws lwip) where
  -- The loop ends at the first byte of the stream where `stop` is true, with the rest still to be
  -- read.
  pub eat-takes :
      (stop : ℕ → Bool) (extra : ℕ → ℕ) (fuel : ℕ) (con : Con Chain) (script : Script Chain)
      (xs : List ℕ) (c : ℕ) (ys : List ℕ)
      → length xs < fuel
      → All (λ x. stop x ≡ false) xs
      → stop c ≡ true
      → extra c ≤ 1
      → On lwip con script (xs ++ c ∷ ys)
      → Ends lwip (value (extra c)) (drop (extra c) (c ∷ ys)) (eat lwip stop extra fuel con script)
  eat-takes stop extra zero con script xs c ys lt none_stop stops one on = absurd (omega arith)
  eat-takes stop extra (suc fuel) con script xs c ys lt none_stop stops one on =
      let s =
        peak-Step lwip laws peaks con script (xs ++ c ∷ ys)
          (omega (arith, length-append xs (c ∷ ys))) on in
      elim (seek-front stop xs c ys s.buf s.rest none_stop stops s.split) [
        | inl (i, at, here) ↦
            let k : (seek stop s.buf).0 + extra c ≡ length xs + extra c = ap (λ n. n + extra c) i in
            (
              (consume lwip s.con' (length xs + extra c)).1,
              s.script',
              eat-some lwip stop extra fuel con s.con' script s.script' s.buf c s.shows at
                  ∙ ap (λ n. ends (value (extra c)) (consume lwip s.con' n).1 s.script') k,
              subst (On lwip (consume lwip s.con' (length xs + extra c)).1 s.script')
                  (drop-add (length xs) (extra c) (xs ++ c ∷ ys)
                    ∙ ap (drop (extra c)) (drop-front xs (c ∷ ys)))
                  (s.consumes (length xs + extra c) (omega arith)),
            )
        | inr (i, at, (more, p)) ↦
            let left : xs ++ c ∷ ys ≡ s.buf ++ (more ++ c ∷ ys) =
              ap (λ l. l ++ c ∷ ys) p ∙ append_assoc s.buf more (c ∷ ys) in
            let (con2, script2, e, on2) =
              eat-takes stop extra fuel (consume lwip s.con' (length s.buf)).1 s.script' more c ys
                (omega (arith, ap length p, length-append s.buf more, s.some_bytes))
                (All-back (λ x. stop x ≡ false) s.buf more
                  (subst (All (λ x. stop x ≡ false)) p none_stop))
                stops one
                (subst (On lwip (consume lwip s.con' (length s.buf)).1 s.script')
                  (ap (drop (length s.buf)) left ∙ drop-front s.buf (more ++ c ∷ ys))
                  (s.consumes (length s.buf) (omega arith))) in
            (
              con2,
              script2,
              eat-none lwip stop extra fuel con s.con' script s.script' s.buf s.shows at
                  ∙ ap (λ n. eat lwip stop extra fuel (consume lwip s.con' n).1 s.script') i
                  ∙ e,
              on2,
            )
      ]
