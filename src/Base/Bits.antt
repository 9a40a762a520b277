-- ===== src/Base/Bits.antt =====
-- Masks of ones, and the lowest bit: `x & (2 ^ k - 1)` is `x % 2 ^ k`.
use Prim.Native.Nat.{
  ℕ, zero, suc, ◌+◌, ◌-◌, ◌*◌, ◌/◌, ◌%◌, ◌^◌, ◌≤◌, ◌<◌, min, max, bit_and, bit_or, digits,
  bit_and-bitwise, bit_or-bitwise,
}
use mathlib.Core.Path.{◌≡◌, refl, ap, sym, ◌∙◌}
use native.Mathlib.Omega.{arith}
use native.Mathlib.Nat.{
  pow-suc, one-le-pow, mul-add-mod_self_left, mod-eq_of_lt, div-add-mod, mod-lt,
}

-- The remainder by twice a number, digit by digit.
half-mod : (a p : ℕ) → 0 < p → a % (p * 2) ≡ a / 2 % p * 2 + a % 2
half-mod a p h =
    ap (λ m. m % (p * 2)) split ∙ mul-add-mod_self_left (p * 2) (a / 2 / p) low ∙ mod-eq_of_lt fits
  where
    low : ℕ
    low = a / 2 % p * 2 + a % 2

    split : a ≡ p * 2 * (a / 2 / p) + low
    split = omega (arith, div-add-mod (a / 2) p)

    fits : low < p * 2
    fits = omega (arith, mod-lt (a / 2) h)

-- What the digits of `a` give under the mask `2 ^ k - 1`, for any number of steps that reaches them
-- all.
masked :
    (steps k a m : ℕ) → a ≤ steps → m + 1 ≡ 2 ^ k → digits (λ _. zero) min steps a m ≡ a % 2 ^ k
masked zero k zero m h e = sym (mod-eq_of_lt (one-le-pow k 2 (omega arith)))
masked (suc steps) k zero m h e = sym (mod-eq_of_lt (one-le-pow k 2 (omega arith)))
masked zero k (suc a) m h e = absurd (omega arith)
masked (suc steps) zero (suc a) m h e =
    omega (arith, masked steps zero (suc a / 2) (m / 2) (omega arith) (omega arith))
masked (suc steps) (suc k) (suc a) m h e = omega (
  arith,
  masked steps k (suc a / 2) (m / 2) (omega arith) (omega (arith, pow-suc 2 k)),
  half-mod (suc a) (2 ^ k) (one-le-pow k 2 (omega arith)),
  ap (λ n. suc a % n) (pow-suc 2 k),
  pow-suc 2 k,
)

-- An index masked by a power of two less one is the index modulo that power.
pub bit_and-mask : (k a : ℕ) → bit_and a (2 ^ k - 1) ≡ a % 2 ^ k
bit_and-mask k a =
    bit_and-bitwise a (2 ^ k - 1)
    ∙ masked a k a (2 ^ k - 1) (omega arith) (omega (arith, one-le-pow k 2 (omega arith)))

pub bit_and-one : (a : ℕ) → bit_and a 1 ≡ a % 2
bit_and-one a = bit_and-mask 1 a

-- The lowest bit.
pub bit_and-odd : (a b : ℕ) → bit_and a b % 2 ≡ min (a % 2) (b % 2)
bit_and-odd zero b = omega (arith, bit_and-bitwise 0 b)
bit_and-odd (suc a) b = omega (arith, bit_and-bitwise (suc a) b)

pub bit_or-odd : (a b : ℕ) → bit_or a b % 2 ≡ max (a % 2) (b % 2)
bit_or-odd zero b = omega (arith, bit_or-bitwise 0 b)
bit_or-odd (suc a) b = omega (arith, bit_or-bitwise (suc a) b)

-- A conjunction is at most its first number, and masking twice with the same number changes nothing.
digits-le : (steps a b : ℕ) → a ≤ steps → digits (λ _. zero) min steps a b ≤ a
digits-le zero a b h = omega arith
digits-le (suc steps) zero b h = omega arith
digits-le (suc steps) (suc a) b h = omega (arith, digits-le steps (suc a / 2) (b / 2) (omega arith))

digits_idem :
    (steps a b : ℕ)
    → a ≤ steps
    → digits (λ _. zero) min steps a (digits (λ _. zero) min steps a b)
      ≡ digits (λ _. zero) min steps a b
digits_idem zero a b h = refl
digits_idem (suc steps) zero b h = refl
digits_idem (suc steps) (suc a) b h =
    let q = digits (λ _. zero) min steps (suc a / 2) (b / 2) in
    let r = min (suc a % 2) (b % 2) in
    let half : (q * 2 + r) / 2 ≡ q = omega arith in
    let low : (q * 2 + r) % 2 ≡ r = omega arith in
    omega (
      arith,
      ap (digits (λ _. zero) min steps (suc a / 2)) half,
      ap (min (suc a % 2)) low,
      digits_idem steps (suc a / 2) (b / 2) (omega arith),
    )

pub bit_and-le : (a b : ℕ) → bit_and a b ≤ a
bit_and-le a b = omega (arith, bit_and-bitwise a b, digits-le a a b (omega arith))

pub bit_and_idem : (a b : ℕ) → bit_and a (bit_and a b) ≡ bit_and a b
bit_and_idem a b =
    ap (bit_and a) (bit_and-bitwise a b)
    ∙ bit_and-bitwise a (digits (λ _. zero) min a a b)
    ∙ digits_idem a a b (omega arith)
    ∙ sym (bit_and-bitwise a b)
