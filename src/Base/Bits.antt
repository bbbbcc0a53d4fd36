-- ===== src/Base/Bits.antt =====
-- The laws of `|`, `&` and `^`, from the recursion on binary digits that they stand for.
use Prim.Native.Nat.{
  ℕ, zero, suc, ◌+◌, ◌*◌, ◌/◌, ◌%◌, ◌≤◌, ◌<◌, min, max, differ, digits, bit_and, bit_or, bit_xor,
  bit_and-bitwise, bit_or-bitwise, bit_xor-bitwise,
}
use mathlib.Core.Path.{◌≡◌, refl, sym, ◌∙◌, ap, ap₂}
use native.Mathlib.Omega.{arith}

-- What the fuel of `digits` is does not matter, as long as there is enough.
module _ (last : ℕ → ℕ) (op : ℕ → ℕ → ℕ) where
  enough : (n m a b : ℕ) → a ≤ n → a ≤ m → digits last op n a b ≡ digits last op m a b
  enough n m zero b h k = ends n ∙ sym (ends m)
    where
      ends : (i : ℕ) → digits last op i 0 b ≡ last b
      ends zero = refl
      ends (suc i) = refl
  enough zero m (suc a) b h k = absurd (omega arith)
  enough (suc n) zero (suc a) b h k = absurd (omega arith)
  enough (suc n) (suc m) (suc a) b h k =
      ap (λ (d : ℕ). d * 2 + op (suc a % 2) (b % 2))
        (enough n m (suc a / 2) (b / 2) (omega arith) (omega arith))

-- One digit of each operation.
pub bit_or_digit : (a b : ℕ) → bit_or a b ≡ bit_or (a / 2) (b / 2) * 2 + max (a % 2) (b % 2)
bit_or_digit zero b = omega (arith, bit_or-bitwise 0 b, bit_or-bitwise 0 (b / 2))
bit_or_digit (suc a) b = omega (
  arith,
  bit_or-bitwise (suc a) b,
  bit_or-bitwise (suc a / 2) (b / 2),
  enough (λ t. t) max a (suc a / 2) (suc a / 2) (b / 2),
)

pub bit_and_digit : (a b : ℕ) → bit_and a b ≡ bit_and (a / 2) (b / 2) * 2 + min (a % 2) (b % 2)
bit_and_digit zero b = omega (arith, bit_and-bitwise 0 b, bit_and-bitwise 0 (b / 2))
bit_and_digit (suc a) b = omega (
  arith,
  bit_and-bitwise (suc a) b,
  bit_and-bitwise (suc a / 2) (b / 2),
  enough (λ _. 0) min a (suc a / 2) (suc a / 2) (b / 2),
)

pub bit_xor_digit : (a b : ℕ) → bit_xor a b ≡ bit_xor (a / 2) (b / 2) * 2 + differ (a % 2) (b % 2)
bit_xor_digit zero b = omega (arith, bit_xor-bitwise 0 b, bit_xor-bitwise 0 (b / 2))
bit_xor_digit (suc a) b = omega (
  arith,
  bit_xor-bitwise (suc a) b,
  bit_xor-bitwise (suc a / 2) (b / 2),
  enough (λ t. t) differ a (suc a / 2) (suc a / 2) (b / 2),
)

pub differ-lt : (a b : ℕ) → a < 2 → b < 2 → differ a b < 2
differ-lt zero b h k = k
differ-lt (suc zero) zero h k = omega arith
differ-lt (suc zero) (suc zero) h k = omega arith
differ-lt (suc zero) (suc (suc b)) h k = absurd (omega arith)
differ-lt (suc (suc a)) b h k = absurd (omega arith)

differ_self : (a : ℕ) → differ a a ≡ 0
differ_self zero = refl
differ_self (suc a) = differ_self a

differ_undo : (a b : ℕ) → a < 2 → b < 2 → differ (differ a b) b ≡ a
differ_undo zero b h k = differ_self b
differ_undo (suc zero) zero h k = refl
differ_undo (suc zero) (suc zero) h k = refl
differ_undo (suc zero) (suc (suc b)) h k = absurd (omega arith)
differ_undo (suc (suc a)) b h k = absurd (omega arith)

-- Induction from `a / 2` to `a`.
halving_fuel {ℓ} :
    (P : ℕ → Type ℓ) → P 0 → ((a : ℕ) → 0 < a → P (a / 2) → P a) → (n a : ℕ) → a ≤ n → P a
halving_fuel P base step n zero h = base
halving_fuel P base step zero (suc a) h = absurd (omega arith)
halving_fuel P base step (suc n) (suc a) h =
    step (suc a) (omega arith) (halving_fuel P base step n (suc a / 2) (omega arith))

pub halving {ℓ} : (P : ℕ → Type ℓ) → P 0 → ((a : ℕ) → 0 < a → P (a / 2) → P a) → (a : ℕ) → P a
halving P base step a = halving_fuel P base step a a (omega arith)

pub bit_or-zero : (a : ℕ) → bit_or a 0 ≡ a
bit_or-zero = halving (λ a. bit_or a 0 ≡ a) refl (λ a h ih. omega (arith, bit_or_digit a 0))

pub bit_and-zero : (a : ℕ) → bit_and a 0 ≡ 0
bit_and-zero = halving (λ a. bit_and a 0 ≡ 0) refl (λ a h ih. omega (arith, bit_and_digit a 0))

differ-zero : (a : ℕ) → differ a 0 ≡ a
differ-zero zero = refl
differ-zero (suc a) = refl

pub zero-bit_xor : (b : ℕ) → bit_xor 0 b ≡ b
zero-bit_xor b = bit_xor-bitwise 0 b

pub zero-bit_or : (b : ℕ) → bit_or 0 b ≡ b
zero-bit_or b = bit_or-bitwise 0 b

pub zero-bit_and : (b : ℕ) → bit_and 0 b ≡ 0
zero-bit_and b = bit_and-bitwise 0 b

pub bit_xor-zero : (a : ℕ) → bit_xor a 0 ≡ a
bit_xor-zero =
    halving (λ a. bit_xor a 0 ≡ a) refl
      (λ a h ih. omega (arith, bit_xor_digit a 0, differ-zero (a % 2)))

pub bit_xor_self : (a : ℕ) → bit_xor a a ≡ 0
bit_xor_self =
    halving (λ a. bit_xor a a ≡ 0) refl
      (λ a h ih. omega (arith, bit_xor_digit a a, differ_self (a % 2)))

bit_xor-undo_step :
    (a : ℕ)
    → 0 < a
    → ((b : ℕ) → bit_xor (bit_xor (a / 2) b) b ≡ a / 2)
    → (b : ℕ) → bit_xor (bit_xor a b) b ≡ a
bit_xor-undo_step a h ih b =
    let x : ℕ = bit_xor a b in
    let p : x ≡ bit_xor (a / 2) (b / 2) * 2 + differ (a % 2) (b % 2) = bit_xor_digit a b in
    let l : differ (a % 2) (b % 2) < 2 = differ-lt (a % 2) (b % 2) (omega arith) (omega arith) in
    let hi : x / 2 ≡ bit_xor (a / 2) (b / 2) = omega arith in
    let lo : x % 2 ≡ differ (a % 2) (b % 2) = omega arith in
    bit_xor_digit x b
    ∙ ap₂ (λ (s t : ℕ). s * 2 + t) (ap (λ s. bit_xor s (b / 2)) hi ∙ ih (b / 2))
        (ap (λ s. differ s (b % 2)) lo ∙ differ_undo (a % 2) (b % 2) (omega arith) (omega arith))
    ∙ omega arith

-- Masking twice gives the number back.
pub bit_xor-undo : (a b : ℕ) → bit_xor (bit_xor a b) b ≡ a
bit_xor-undo =
    halving (λ a. (b : ℕ) → bit_xor (bit_xor a b) b ≡ a)
      (λ b. ap (λ t. bit_xor t b) (zero-bit_xor b) ∙ bit_xor_self b) bit_xor-undo_step
