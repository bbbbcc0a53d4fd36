-- ===== src/Handshake/Reply/Decimal.antt =====
-- `sprintf("%i", n)` writes the number that is meant.
use c_web_socket_pico_w_test.Base.{
  ℕ, zero, suc, ◌+◌, ◌-◌, ◌*◌, ◌/◌, ◌%◌, ◌<◌, ◌≤◌, ◌≡◌, refl, ap, ◌∙◌, arith, ◌^◌, ltb, ltb→lt,
  Bool-cases, ℕ_le-cases, inl, inr, List, [], ◌∷◌, ◌++◌, length, length-append, All, All-append,
}
use c_web_socket_pico_w_test.Handshake.Reply.{decimal}

-- The number that decimal digits stand for, behind the digits of `front`.
abbrev pub numeral : ℕ → List ℕ → ℕ
numeral front [] = front
numeral front (c ∷ digits) = numeral (front * 10 + (c - 48)) digits

numeral-append :
    (front : ℕ) (xs ys : List ℕ) → numeral front (xs ++ ys) ≡ numeral (numeral front xs) ys
numeral-append front [] ys = refl
numeral-append front (x ∷ xs) ys = numeral-append (front * 10 + (x - 48)) xs ys

power10 : ℕ → ℕ
power10 zero = 1
power10 (suc n) = power10 n * 10

numeral-digits : (digits n : ℕ) → n < power10 digits → numeral 0 (decimal digits n) ≡ n
unfolding decimal power10
numeral-digits zero n h = omega arith
numeral-digits (suc digits) n h = elim (Bool-cases (ltb n 10)) [
  | inl one ↦ rw one (omega (arith, ltb→lt n 10 one))
  | inr more ↦ rw more (
      numeral-append 0 (decimal digits (n / 10)) ((48 + n % 10) ∷ [])
      ∙ ap (λ k. k * 10 + (48 + n % 10 - 48)) (numeral-digits digits (n / 10) (omega arith))
      ∙ omega arith)
]

pub numeral-decimal : (n : ℕ) → n < 10 ^ 10 → numeral 0 (decimal 10 n) ≡ n
unfolding power10
numeral-decimal n h = numeral-digits 10 n h

pub length-decimal :
    (digits n : ℕ)
    → 0 < digits
    → (0 < length (decimal digits n)) × (length (decimal digits n) ≤ digits)
unfolding decimal
length-decimal zero n h = absurd (omega arith)
length-decimal (suc digits) n h = elim (Bool-cases (ltb n 10)) [
  | inl one ↦ rw one (omega arith, omega arith)
  | inr more ↦
      let size = length-append (decimal digits (n / 10)) ((48 + n % 10) ∷ []) in
      rw more (
        omega (arith, size),
        elim (ℕ_le-cases digits 0) [
          | inl none_left ↦ omega (arith, size, length-none digits (n / 10) none_left)
          | inr some_left ↦ omega (arith, size, length-decimal digits (n / 10) some_left)
        ],
      )
]
  where
    length-none : (k m : ℕ) → k ≤ 0 → length (decimal k m) ≡ 0
    length-none zero m h = refl
    length-none (suc k) m h = absurd (omega arith)

abbrev pub IsDigit : ℕ → Type 0
IsDigit c = (b'0' ≤ c) × (c ≤ b'9')

pub decimal-AllDigits : (digits n : ℕ) → All IsDigit (decimal digits n)
unfolding decimal
decimal-AllDigits zero n = tt
decimal-AllDigits (suc digits) n = elim (Bool-cases (ltb n 10)) [
  | inl one ↦ rw one ((omega arith, omega arith), tt)
  | inr more ↦ rw more (
      All-append IsDigit (decimal digits (n / 10)) ((48 + n % 10) ∷ [])
        (decimal-AllDigits digits (n / 10)) ((omega arith, omega arith), tt))
]
