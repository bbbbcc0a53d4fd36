-- ===== src/Base64/Chunks.antt =====
-- A text may be decoded in pieces: `ctx->partial` carries all that matters across a call.
use mathlib.Core.Path.{subst₂}
use native.Mathlib.Decide.{ℕ_discrete}
use c_web_socket_pico_w_test.Base.{
  subst, ℕ, zero, suc, ◌+◌, ◌*◌, ◌/◌, ◌%◌, ◌^◌, ◌<◌, ◌≡◌, ◌≢◌, refl, sym, ◌∙◌, ap, ap₂, Bool, true,
  false, List, [], ◌∷◌, ◌++◌, arith, if◌then◌else◌, append-nil, append_assoc, bit_and, bit_or, u32,
  ◌<<◌, ◌>>◌,
}
use c_web_socket_pico_w_test.Base.Bits.{bit_or-zero, zero-bit_or}
use c_web_socket_pico_w_test.Base.Fields.{bit_and_mask, bit_or_low, bit_or_fields}
use c_web_socket_pico_w_test.Base64.{Decoder, base64bits, decode_base64, flush, step, steps}
use c_web_socket_pico_w_test.Base64.Decode.{put, step-padding, flush-two, flush-three, flush-other}

-- The modulus of the bits that `sub_i` characters have left in `bytes`.
abbrev held : ℕ → ℕ
held zero = 1
held (suc zero) = 2 ^ 6
held (suc (suc zero)) = 2 ^ 12
held (suc (suc (suc n))) = 2 ^ 18

-- `e` has gone on from where `d` would be, with the stores in `before` behind it.
record Agree (before : List (ℕ × ℕ)) (d e : Decoder) : Type 0 where
  valid : d.sub_i < 4
  low : d.bytes % held d.sub_i ≡ e.bytes % held d.sub_i
  same_sub_i : d.sub_i ≡ e.sub_i
  same_index : d.byte_index ≡ e.byte_index
  same_writes : d.writes ≡ before ++ e.writes

low_three :
    {before : List (ℕ × ℕ)} {d e : Decoder}
    → Agree before d e
    → d.sub_i ≡ 3
    → d.bytes % 2 ^ 18 ≡ e.bytes % 2 ^ 18
low_three {d} {e} a three = subst (λ n. d.bytes % held n ≡ e.bytes % held n) three a.low

low_two :
    {before : List (ℕ × ℕ)} {d e : Decoder}
    → Agree before d e
    → d.sub_i ≡ 2
    → d.bytes % 2 ^ 12 ≡ e.bytes % 2 ^ 12
low_two {d} {e} a two = subst (λ n. d.bytes % held n ≡ e.bytes % held n) two a.low

put-Agree :
    {before : List (ℕ × ℕ)} {d e : Decoder} {v w : ℕ}
    → v ≡ w
    → Agree before d e
    → Agree before (put d v) (put e w)
put-Agree {before} {d} {e} {v} p a = record {
  valid = a.valid;
  low = a.low;
  same_sub_i = a.same_sub_i;
  same_index = omega (arith, a.same_index);
  same_writes =
      ap₂ (λ s t. s ++ t ∷ []) a.same_writes
        (ap₂ (λ i x. (i, x)) (ap (λ i. u32 (i + 1)) a.same_index) p)
      ∙ append_assoc before e.writes _;
}

-- Leftover bits are flushed alike: they are among the low ones.
flush-Agree :
    (before : List (ℕ × ℕ)) (d e : Decoder) → Agree before d e → Agree before (flush d) (flush e)
flush-Agree before d e a = elim (ℕ_discrete d.sub_i 3) [
  | yes three ↦
      let p =
        put-Agree {v = d.bytes / 2 ^ 10 % 2 ^ 8} {w = e.bytes / 2 ^ 10 % 2 ^ 8}
          (omega (arith, low_three a three))
          (put-Agree {v = d.bytes / 2 ^ 2 % 2 ^ 8} {w = e.bytes / 2 ^ 2 % 2 ^ 8}
            (omega (arith, low_three a three)) a) in
      subst₂ (Agree before) (sym (flush-three d three))
        (sym (flush-three e (sym a.same_sub_i ∙ three)))
        (record {
          valid = omega arith;
          low = omega arith;
          same_sub_i = refl;
          same_index = p.same_index;
          same_writes = p.same_writes;
        })
  | no not_three ↦ elim (ℕ_discrete d.sub_i 2) [
    | yes two ↦
        let p =
          put-Agree {v = d.bytes / 2 ^ 4 % 2 ^ 8} {w = e.bytes / 2 ^ 4 % 2 ^ 8}
            (omega (arith, low_two a two)) a in
        subst₂ (Agree before) (sym (flush-two d two)) (sym (flush-two e (sym a.same_sub_i ∙ two)))
          (record {
            valid = omega arith;
            low = omega arith;
            same_sub_i = refl;
            same_index = p.same_index;
            same_writes = p.same_writes;
          })
    | no not_two ↦
        subst₂ (Agree before) (sym (flush-other d not_two not_three))
          (sym
            (flush-other e (λ z. not_two (a.same_sub_i ∙ z)) (λ z. not_three (a.same_sub_i ∙ z))))
          (record {
            valid = omega arith;
            low = omega arith;
            same_sub_i = refl;
            same_index = a.same_index;
            same_writes = a.same_writes;
          })
  ]
]

-- `bytes` with a character's value below: only the two lowest bits of the old part may mix with it.
abbrev mixed : ℕ → ℕ → ℕ
mixed bytes v = bytes % 2 ^ 26 / 4 * 2 ^ 8 + bit_or (bytes % 4) (v / 2 ^ 6) * 2 ^ 6 + v % 2 ^ 6

mixed-eq : (bytes v : ℕ) → v < 2 ^ 8 → bit_or (u32 (bytes << 6)) v ≡ mixed bytes v
mixed-eq bytes v h =
    let m : ℕ = bytes % 2 ^ 26 in
    ap₂ bit_or {x = u32 (bytes << 6)} {y = m * 2 ^ 6 + 0} {u = v}
      {v = v / 2 ^ 6 * 2 ^ 6 + v % 2 ^ 6} (omega arith) (omega arith)
    ∙ bit_or_fields 6 m 0 (v / 2 ^ 6) (v % 2 ^ 6) (omega arith) (omega arith)
    ∙ ap₂ (λ (s t : ℕ). s * 2 ^ 6 + t)
        (ap₂ bit_or {x = m} {y = m / 4 * 2 ^ 2 + bytes % 4} {u = v / 2 ^ 6}
            {v = 0 * 2 ^ 2 + v / 2 ^ 6} (omega arith) (omega arith)
          ∙ bit_or_fields 2 (m / 4) (bytes % 4) 0 (v / 2 ^ 6) (omega arith) (omega arith)
          ∙ ap (λ (s : ℕ). s * 2 ^ 2 + bit_or (bytes % 4) (v / 2 ^ 6)) (bit_or-zero (m / 4)))
        (zero-bit_or (v % 2 ^ 6))
    ∙ omega arith

base64bits-lt : (c : ℕ) → base64bits c < 2 ^ 8
unfolding base64bits
base64bits-lt c = ground arith

-- A character keeps what matters alike, by the number of characters before it.
mixed-held :
    (n x y v : ℕ)
    → n < 3
    → x % held n ≡ y % held n
    → mixed x v % held (n + 1) ≡ mixed y v % held (n + 1)
mixed-held zero x y v h e = omega arith
mixed-held (suc zero) x y v h e =
    let or_same = ap (λ t. bit_or t (v / 2 ^ 6)) {x = x % 4} {y = y % 4} (omega arith) in
    omega (arith, or_same)
mixed-held (suc (suc zero)) x y v h e =
    let or_same = ap (λ t. bit_or t (v / 2 ^ 6)) {x = x % 4} {y = y % 4} (omega arith) in
    omega (arith, or_same)
mixed-held (suc (suc (suc n))) x y v h e = absurd (omega arith)

mixed-full : (x y v : ℕ) → x % 2 ^ 18 ≡ y % 2 ^ 18 → mixed x v % 2 ^ 24 ≡ mixed y v % 2 ^ 24
mixed-full x y v e =
    let or_same = ap (λ t. bit_or t (v / 2 ^ 6)) {x = x % 4} {y = y % 4} (omega arith) in
    omega (arith, or_same)

module _ (d : Decoder) (c : ℕ) (char : c ≢ b'=') where
  step-joins :
      d.sub_i < 3
      → step d c ≡ record d { bytes = mixed d.bytes (base64bits c); sub_i = d.sub_i + 1 }
  unfolding step
  step-joins h =
      ground (arith, mixed-eq d.bytes (base64bits c), base64bits-lt c, bit_and_mask 2 (d.sub_i + 1))

  step-completes :
      d.sub_i ≡ 3
      → step d c ≡ (
          let b = mixed d.bytes (base64bits c) in
          put
            (put (put (record d { bytes = b; sub_i = 0 }) (b / 2 ^ 16 % 2 ^ 8)) (b / 2 ^ 8 % 2 ^ 8))
            (b % 2 ^ 8))
  unfolding step
  step-completes h =
      let b : ℕ = mixed d.bytes (base64bits c) in
      ground (
        arith,
        mixed-eq d.bytes (base64bits c),
        base64bits-lt c,
        bit_and_mask 2 (d.sub_i + 1),
        bit_and_mask 8 (b >> 16),
        bit_and_mask 8 (b >> 8),
        bit_and_mask 8 (b >> 0),
      )

completes-Agree :
    (before : List (ℕ × ℕ)) (d e : Decoder) (v : ℕ)
    → Agree before d e
    → d.sub_i ≡ 3
    → let b = mixed d.bytes v in
      let b' = mixed e.bytes v in
      Agree before
        (put
          (put (put (record d { bytes = b; sub_i = 0 }) (b / 2 ^ 16 % 2 ^ 8)) (b / 2 ^ 8 % 2 ^ 8))
          (b % 2 ^ 8))
        (put
          (put
            (put (record e { bytes = b'; sub_i = 0 }) (b' / 2 ^ 16 % 2 ^ 8))
            (b' / 2 ^ 8 % 2 ^ 8))
          (b' % 2 ^ 8))
completes-Agree before d e v a three =
    let b : ℕ = mixed d.bytes v in
    let b' : ℕ = mixed e.bytes v in
    let f : b % 2 ^ 24 ≡ b' % 2 ^ 24 = mixed-full d.bytes e.bytes v (low_three a three) in
    let next : Agree before (record d { bytes = b; sub_i = 0 })
        (record e { bytes = b'; sub_i = 0 }) =
      record {
        valid = omega arith;
        low = omega arith;
        same_sub_i = refl;
        same_index = a.same_index;
        same_writes = a.same_writes;
      } in
    put-Agree {v = b % 2 ^ 8} {w = b' % 2 ^ 8} (omega (arith, f)) (
      put-Agree {v = b / 2 ^ 8 % 2 ^ 8} {w = b' / 2 ^ 8 % 2 ^ 8} (omega (arith, f))
        (put-Agree {v = b / 2 ^ 16 % 2 ^ 8} {w = b' / 2 ^ 16 % 2 ^ 8} (omega (arith, f)) next))

step-Agree :
    (before : List (ℕ × ℕ)) (d e : Decoder) (c : ℕ)
    → Agree before d e
    → Agree before (step d c) (step e c)
step-Agree before d e c a = elim (ℕ_discrete c b'=') [
  | yes padding ↦
      subst (λ x. Agree before (step d x) (step e x)) (sym padding)
        (subst₂ (Agree before) (sym (step-padding d)) (sym (step-padding e))
          (flush-Agree before d e a))
  | no char ↦ elim (ℕ_discrete d.sub_i 3) [
    | yes three ↦
        subst₂ (Agree before) (sym (step-completes d c char three))
          (sym (step-completes e c char (sym a.same_sub_i ∙ three)))
          (completes-Agree before d e (base64bits c) a three)
    | no fewer ↦
        let room : d.sub_i < 3 = omega (arith, a.valid) in
        subst₂ (Agree before) (sym (step-joins d c char room))
          (sym (step-joins e c char (omega (arith, a.same_sub_i))))
          (record {
            valid = omega arith;
            low = mixed-held d.sub_i d.bytes e.bytes (base64bits c) room a.low;
            same_sub_i = ap (λ (n : ℕ). n + 1) a.same_sub_i;
            same_index = a.same_index;
            same_writes = a.same_writes;
          })
  ]
]

steps-Agree :
    (before : List (ℕ × ℕ)) (d e : Decoder) (buf : List ℕ)
    → Agree before d e
    → Agree before (steps d buf) (steps e buf)
unfolding steps
steps-Agree before d e [] a = a
steps-Agree before d e (c ∷ buf) a =
    steps-Agree before (step d c) (step e c) buf (step-Agree before d e c a)

steps-append : (d : Decoder) (xs ys : List ℕ) → steps d (xs ++ ys) ≡ steps (steps d xs) ys
unfolding steps
steps-append d [] ys = refl
steps-append d (c ∷ xs) ys = steps-append (step d c) xs ys

step-sub_i : (d : Decoder) (c : ℕ) → (step d c).sub_i < 4
unfolding step
step-sub_i d c = ground (arith, bit_and_mask 2 (d.sub_i + 1))

steps-sub_i : (d : Decoder) (buf : List ℕ) → d.sub_i < 4 → (steps d buf).sub_i < 4
unfolding steps
steps-sub_i d [] h = h
steps-sub_i d (c ∷ buf) h = steps-sub_i (step d c) buf (step-sub_i d c)

packed-eq :
    (d : Decoder)
    → d.sub_i < 4
    → bit_or (u32 (d.sub_i << 30)) (bit_and d.bytes 0x3fffffff)
      ≡ d.sub_i * 2 ^ 30 + d.bytes % 2 ^ 30
packed-eq d h =
    ap₂ bit_or {x = u32 (d.sub_i << 30)} {y = d.sub_i * 2 ^ 30} (omega arith)
      (bit_and_mask 30 d.bytes)
    ∙ bit_or_low 30 d.sub_i (d.bytes % 2 ^ 30) (omega arith)

packed-held :
    (n bytes p : ℕ) → n < 4 → p ≡ n * 2 ^ 30 + bytes % 2 ^ 30 → bytes % held n ≡ p % held n
packed-held zero bytes p h e = omega arith
packed-held (suc zero) bytes p h e = omega arith
packed-held (suc (suc zero)) bytes p h e = omega arith
packed-held (suc (suc (suc zero))) bytes p h e = omega arith
packed-held (suc (suc (suc (suc n)))) bytes p h e = absurd (omega arith)

ended-Agree :
    (end : Bool) (before : List (ℕ × ℕ)) (d e : Decoder)
    → Agree before d e
    → let d' = if end then flush d else d in
      let e' = if end then flush e else e in
      (d'.writes ≡ before ++ e'.writes) × (d'.byte_index ≡ e'.byte_index)
ended-Agree true before d e a = let f = flush-Agree before d e a in (f.same_writes, f.same_index)
ended-Agree false before d e a = (a.same_writes, a.same_index)

-- A text in two pieces, `end` clear for the first and `ctx` kept, is decoded as the whole text:
-- the stores of the two calls are those of the one, and so is the returned index, if
-- `byte_index` of the second call happens to hold what the first returned.
pub decode_base64-append :
    (garbage partial : ℕ) (xs ys : List ℕ) (end : Bool)
    → partial < 2 ^ 32
    → let first = decode_base64 garbage partial xs false in
      let second = decode_base64 first.returned first.partial ys end in
      let whole = decode_base64 garbage partial (xs ++ ys) end in
      (whole.stores ≡ first.stores ++ second.stores) × (whole.returned ≡ second.returned)
unfolding decode_base64
decode_base64-append garbage partial xs ys end h =
    let start : Decoder = record {
      bytes = partial;
      sub_i = partial >> 30;
      byte_index = garbage;
      writes = [];
    } in
    let d : Decoder = steps start xs in
    let p : ℕ = bit_or (u32 (d.sub_i << 30)) (bit_and d.bytes 0x3fffffff) in
    let few : d.sub_i < 4 = steps-sub_i start xs (omega arith) in
    let packed : p ≡ d.sub_i * 2 ^ 30 + d.bytes % 2 ^ 30 = packed-eq d few in
    let e : Decoder = record {
      bytes = p;
      sub_i = p >> 30;
      byte_index = d.byte_index;
      writes = [];
    } in
    let start-Agree : Agree d.writes d e = record {
      valid = few;
      low = packed-held d.sub_i d.bytes p few packed;
      same_sub_i = omega (arith, packed);
      same_index = refl;
      same_writes = sym (append-nil d.writes);
    } in
    let a : Agree d.writes (steps d ys) (steps e ys) = steps-Agree d.writes d e ys start-Agree in
    rw (steps-append start xs ys) (ended-Agree end d.writes (steps d ys) (steps e ys) a)
