-- ===== src/Base/Fields.antt =====
-- `|`, `&` and `^` on words that are split into a high and a low field.
use Prim.Native.Nat.{
  ℕ, zero, suc, ◌+◌, ◌-◌, ◌*◌, ◌/◌, ◌%◌, ◌^◌, ◌<◌, min, max, differ, bit_and, bit_or, bit_xor,
}
use mathlib.Core.Path.{◌≡◌, refl, sym, ◌∙◌, ap, ap₂}
use native.Mathlib.Nat.{pow-suc, one-le-pow, div-add-mod', mod-lt}
use native.Mathlib.Omega.{arith}
use c_web_socket_pico_w_test.Base.Bits.{
  bit_and_digit, bit_or_digit, bit_xor_digit, bit_and-zero, bit_or-zero, zero-bit_or, differ-lt,
}

-- An operation that goes by digits goes by fields of `k` digits.
module _ (op : ℕ → ℕ → ℕ) (on_digit : ℕ → ℕ → ℕ)
    (digit : (a b : ℕ) → op a b ≡ op (a / 2) (b / 2) * 2 + on_digit (a % 2) (b % 2))
    (op_zero : op 0 0 ≡ 0) where
  by_fields :
      (k q r q' r' : ℕ)
      → r < 2 ^ k
      → r' < 2 ^ k
      → op (q * 2 ^ k + r) (q' * 2 ^ k + r') ≡ op q q' * 2 ^ k + op r r'
  by_fields zero q r q' r' h h' =
      let none_left : op r r' ≡ 0 =
        ap₂ op {x = r} {y = 0} {u = r'} {v = 0} (omega arith) (omega arith) ∙ op_zero in
      ap₂ op {x = q * 2 ^ 0 + r} {y = q} {u = q' * 2 ^ 0 + r'} {v = q'} (omega arith) (omega arith)
      ∙ omega (arith, none_left)
  by_fields (suc k) q r q' r' h h' =
      let twice : (t : ℕ) → t * 2 ^ suc k ≡ 2 * (t * 2 ^ k) =
        λ t. omega (arith, ap (λ (s : ℕ). t * s) (pow-suc 2 k)) in
      let a : ℕ = q * 2 ^ suc k + r in
      let b : ℕ = q' * 2 ^ suc k + r' in
      let high : op (a / 2) (b / 2) ≡ op q q' * 2 ^ k + op (r / 2) (r' / 2) =
        ap₂ op (omega (arith, twice q)) (omega (arith, twice q'))
        ∙ by_fields k q (r / 2) q' (r' / 2) (omega (arith, pow-suc 2 k))
            (omega (arith, pow-suc 2 k)) in
      let low : on_digit (a % 2) (b % 2) ≡ on_digit (r % 2) (r' % 2) =
        ap₂ on_digit (omega (arith, twice q)) (omega (arith, twice q')) in
      omega (arith, digit a b, digit r r', high, low, twice (op q q'))

pub bit_xor_fields :
    (k q r q' r' : ℕ)
    → r < 2 ^ k
    → r' < 2 ^ k
    → bit_xor (q * 2 ^ k + r) (q' * 2 ^ k + r') ≡ bit_xor q q' * 2 ^ k + bit_xor r r'
bit_xor_fields = by_fields bit_xor differ bit_xor_digit refl

pub bit_or_fields :
    (k q r q' r' : ℕ)
    → r < 2 ^ k
    → r' < 2 ^ k
    → bit_or (q * 2 ^ k + r) (q' * 2 ^ k + r') ≡ bit_or q q' * 2 ^ k + bit_or r r'
bit_or_fields = by_fields bit_or max bit_or_digit refl

-- `(q << k) | r` where `r` fits below is a sum.
pub bit_or_low : (k q r : ℕ) → r < 2 ^ k → bit_or (q * 2 ^ k) r ≡ q * 2 ^ k + r
bit_or_low k q r h =
    ap₂ bit_or {u = r} {v = 0 * 2 ^ k + r} (omega arith) (omega arith)
    ∙ by_fields bit_or max bit_or_digit refl k q 0 0 r (one-le-pow k 2 (omega arith)) h
    ∙ ap₂ (λ (s t : ℕ). s * 2 ^ k + t) (bit_or-zero q) (zero-bit_or r)

-- `& (2 ^ k - 1)` is the remainder by `2 ^ k`.
and_ones : (k r : ℕ) → r < 2 ^ k → bit_and r (2 ^ k - 1) ≡ r
and_ones zero r h = ap (λ t. bit_and t 0) {x = r} {y = 0} (omega arith) ∙ omega arith
and_ones (suc k) r h =
    let ones : ℕ = 2 ^ suc k - 1 in
    let high : bit_and (r / 2) (ones / 2) ≡ r / 2 =
      ap (λ t. bit_and (r / 2) t) (omega (arith, pow-suc 2 k, one-le-pow k 2))
      ∙ and_ones k (r / 2) (omega (arith, pow-suc 2 k)) in
    omega (arith, bit_and_digit r ones, high, pow-suc 2 k, one-le-pow k 2)

pub bit_and_mask : (k a : ℕ) → bit_and a (2 ^ k - 1) ≡ a % 2 ^ k
bit_and_mask k a =
    let pos : 0 < 2 ^ k = one-le-pow k 2 (omega arith) in
    ap₂ bit_and {u = 2 ^ k - 1} {v = 0 * 2 ^ k + (2 ^ k - 1)} (sym (div-add-mod' a (2 ^ k)))
      (omega arith)
    ∙ by_fields bit_and min bit_and_digit refl k (a / 2 ^ k) (a % 2 ^ k) 0 (2 ^ k - 1)
        (mod-lt a pos) (omega arith)
    ∙ ap₂ (λ (s t : ℕ). s * 2 ^ k + t) (bit_and-zero (a / 2 ^ k))
        (and_ones k (a % 2 ^ k) (mod-lt a pos))
    ∙ omega arith

-- `^` of numbers of `k` digits has `k` digits.
pub bit_xor-lt : (k r r' : ℕ) → r < 2 ^ k → r' < 2 ^ k → bit_xor r r' < 2 ^ k
bit_xor-lt zero r r' h h' =
    let e : bit_xor r r' ≡ 0 =
      ap₂ bit_xor {x = r} {y = 0} {u = r'} {v = 0} (omega arith) (omega arith) in
    omega (arith, e)
bit_xor-lt (suc k) r r' h h' = omega (
  arith,
  bit_xor_digit r r',
  differ-lt (r % 2) (r' % 2) (omega arith) (omega arith),
  bit_xor-lt k (r / 2) (r' / 2) (omega (arith, pow-suc 2 k)) (omega (arith, pow-suc 2 k)),
  pow-suc 2 k,
)

-- `& (2 ^ k)` is a digit.
pub bit_and_flag : (k a : ℕ) → bit_and a (2 ^ k) ≡ a / 2 ^ k % 2 * 2 ^ k
bit_and_flag k a =
    let pos : 0 < 2 ^ k = one-le-pow k 2 (omega arith) in
    ap₂ bit_and {u = 2 ^ k} {v = 1 * 2 ^ k + 0} (sym (div-add-mod' a (2 ^ k))) (omega arith)
    ∙ by_fields bit_and min bit_and_digit refl k (a / 2 ^ k) (a % 2 ^ k) 1 0 (mod-lt a pos) pos
    ∙ ap₂ (λ (s t : ℕ). s * 2 ^ k + t) (bit_and_mask 1 (a / 2 ^ k)) (bit_and-zero (a % 2 ^ k))
    ∙ omega arith
