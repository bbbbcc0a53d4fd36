-- ===== src/Frame/Length.antt =====
-- The length of a payload, in each of its three forms.
use c_web_socket_pico_w_test.Base.{
  ℕ, ◌+◌, ◌*◌, ◌/◌, ◌%◌, ◌^◌, ◌<◌, ◌≡◌, refl, ap, ap₂, ◌∙◌, subst, arith, Bool, false, ◌==◌, ltb,
  ltb→lt, Bool-cases, inl, inr, if◌then◌else◌, List, [], ◌∷◌, ◌++◌, All, IsByte, bit_and, bit_or,
  ◌>>◌, u32,
}
use c_web_socket_pico_w_test.Base.Fields.{bit_or_low}
use c_web_socket_pico_w_test.Lwip.{Lwip, LwipLaws}
use c_web_socket_pico_w_test.Con.{Con, Script}
use c_web_socket_pico_w_test.Mask.{load32}
use c_web_socket_pico_w_test.Frame.{
  Framer, ok, swap64, t_read8, load16, load64, read_payload_length,
}
use c_web_socket_pico_w_test.Con.Calm.{On}
use c_web_socket_pico_w_test.Frame.Reads.{t_read8-takes}
use c_web_socket_pico_w_test.Frame.Rfc.{length7, extended}

abbrev octets64 : ℕ → List ℕ
octets64 n =
    n / 2 ^ 56
    ∷ n / 2 ^ 48 % 2 ^ 8
    ∷ n / 2 ^ 40 % 2 ^ 8
    ∷ n / 2 ^ 32 % 2 ^ 8
    ∷ n / 2 ^ 24 % 2 ^ 8
    ∷ n / 2 ^ 16 % 2 ^ 8
    ∷ n / 2 ^ 8 % 2 ^ 8
    ∷ n % 2 ^ 8
    ∷ []

octets64-IsByte : (n : ℕ) → n < 2 ^ 64 → All IsByte (octets64 n)
octets64-IsByte n h = (
  omega arith,
  (
    omega arith,
    (omega arith, (omega arith, (omega arith, (omega arith, (omega arith, (omega arith, tt)))))),
  ),
)

-- The two forms by their tests.
abbrev long_form_of : ℕ → Bool → List ℕ
long_form_of n middle = if middle then n / 2 ^ 8 ∷ n % 2 ^ 8 ∷ [] else octets64 n

abbrev form_of : ℕ → Bool → Bool → List ℕ
form_of n short middle = if short then [] else long_form_of n middle

abbrev length7_of : ℕ → Bool → Bool → ℕ
length7_of n short middle = if short then n else if middle then 126 else 127

module _ {Chain : Type 0} (lwip : Lwip Chain) (laws : LwipLaws lwip) where
  -- Four octets of the wire as a number.
  abbrev big : ℕ → ℕ → ℕ → ℕ → ℕ
  big a b c d = a * 2 ^ 24 + b * 2 ^ 16 + c * 2 ^ 8 + d

  swap64-load64 :
      (a b c d e f g i : ℕ)
      → All IsByte (a ∷ b ∷ c ∷ d ∷ e ∷ f ∷ g ∷ i ∷ [])
      → swap64 lwip.ntohl (load64 lwip (a ∷ b ∷ c ∷ d ∷ e ∷ f ∷ g ∷ i ∷ []))
        ≡ big a b c d * 2 ^ 32 + big e f g i
  unfolding swap64 load32
  swap64-load64 a b c d e f g i (ha, (hb, (hc, (hd, (he, (hf, (hg, (hi, _)))))))) =
      let low : ℕ = a + b * 2 ^ 8 + c * 2 ^ 16 + d * 2 ^ 24 in
      let high : ℕ = e + f * 2 ^ 8 + g * 2 ^ 16 + i * 2 ^ 24 in
      let first : lwip.ntohl (u32 (low + high * 2 ^ 32)) ≡ big a b c d =
        ap lwip.ntohl {x = u32 (low + high * 2 ^ 32)} {y = low} (omega arith)
        ∙ laws.ntohl-swap a b c d ha hb hc hd in
      let second : lwip.ntohl (u32 ((low + high * 2 ^ 32) >> 32)) ≡ big e f g i =
        ap lwip.ntohl {x = u32 ((low + high * 2 ^ 32) >> 32)} {y = high} (omega arith)
        ∙ laws.ntohl-swap e f g i he hf hg hi in
      ap₂ bit_or {y = big a b c d * 2 ^ 32} (omega (arith, first)) second
      ∙ bit_or_low 32 (big a b c d) (big e f g i) (omega arith)

  module _ (header : ℕ) (b : List ℕ) (ws ws' : Framer Chain) (script script' : Script Chain) where
    length16 :
        bit_and (header >> 8) 0x007f ≡ 126
        → t_read8 lwip 2 ws script ≡ ok b ws' script'
        → read_payload_length lwip header ws script ≡ ok (lwip.ntohs (load16 lwip b)) ws' script'
    unfolding read_payload_length
    length16 len e = rw (len, e) refl

    length64 :
        bit_and (header >> 8) 0x007f ≡ 127
        → t_read8 lwip 8 ws script ≡ ok b ws' script'
        → read_payload_length lwip header ws script
          ≡ ok (swap64 lwip.ntohl (load64 lwip b)) ws' script'
    unfolding read_payload_length
    length64 len e = rw (len, e) refl

  pub read_payload_length-extended :
      (n header : ℕ) (ys : List ℕ) (ws : Framer Chain) (script : Script Chain)
      → bit_and (header >> 8) 0x007f ≡ length7 n
      → n < 2 ^ 64
      → On lwip ws.con script (extended n ++ ys)
      → (con' : Con Chain) × (script' : Script Chain) × (read_payload_length lwip header ws script
          ≡ ok n (record ws { con = con' }) script')
        × On lwip con' script' ys
  unfolding read_payload_length
  read_payload_length-extended n header ys ws script len h on = elim (Bool-cases (ltb n 126)) [
    | inl short ↦
        let (next, open', calm) = on in
        let len' : bit_and (header >> 8) 0x007f ≡ n =
          len ∙ ap (λ t. if t then n else if ltb n 0x1_0000 then 126 else 127) short in
        let no16 : (n == 126) ≡ false = ground arith in
        let no64 : (n == 127) ≡ false = ground arith in
        (
          ws.con,
          script,
          rw (len', no16, no64) refl,
          (next ∙ ap (λ t. form_of n t (ltb n 0x1_0000) ++ ys) short, open', calm),
        )
    | inr long ↦ elim (Bool-cases (ltb n 0x1_0000)) [
      | inl middle ↦
          let bytes : List ℕ = n / 2 ^ 8 ∷ n % 2 ^ 8 ∷ [] in
          let form : extended n ≡ bytes = ap₂ (form_of n) long middle in
          let len' : bit_and (header >> 8) 0x007f ≡ 126 = len ∙ ap₂ (length7_of n) long middle in
          let (con', script', e, on') =
            t_read8-takes lwip laws 2 bytes ys ws script refl (omega arith)
              (subst (λ l. On lwip ws.con script (l ++ ys)) form on) in
          let value : lwip.ntohs (n / 2 ^ 8 + n % 2 ^ 8 * 2 ^ 8) ≡ n =
            laws.ntohs-swap (n / 2 ^ 8) (n % 2 ^ 8) (omega (arith, ltb→lt n 0x1_0000 middle))
              (omega arith)
            ∙ omega arith in
          (
            con',
            script',
            length16 header bytes ws (record ws { con = con' }) script script' len' e
                ∙ ap (λ l. ok l (record ws { con = con' }) script') value,
            on',
          )
      | inr large ↦
          let bytes : List ℕ = octets64 n in
          let form : extended n ≡ bytes = ap₂ (form_of n) long large in
          let len' : bit_and (header >> 8) 0x007f ≡ 127 = len ∙ ap₂ (length7_of n) long large in
          let (con', script', e, on') =
            t_read8-takes lwip laws 8 bytes ys ws script refl (omega arith)
              (subst (λ l. On lwip ws.con script (l ++ ys)) form on) in
          let value : swap64 lwip.ntohl (load64 lwip bytes) ≡ n =
            swap64-load64 (n / 2 ^ 56) (n / 2 ^ 48 % 2 ^ 8) (n / 2 ^ 40 % 2 ^ 8)
              (n / 2 ^ 32 % 2 ^ 8) (n / 2 ^ 24 % 2 ^ 8) (n / 2 ^ 16 % 2 ^ 8) (n / 2 ^ 8 % 2 ^ 8)
              (n % 2 ^ 8) (octets64-IsByte n h)
            ∙ omega arith in
          (
            con',
            script',
            length64 header bytes ws (record ws { con = con' }) script script' len' e
                ∙ ap (λ l. ok l (record ws { con = con' }) script') value,
            on',
          )
    ]
  ]
