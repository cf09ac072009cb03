-- ===== src/Base/Bits.antt =====
-- The binary digits of `&`, `|` and `^`, at every width.
mod Step
use Step.{bit_or_step, bit_and_step, bit_xor_step}
use Prim.Native.Nat.{
  ℕ, zero, suc, ◌+◌, ◌-◌, ◌*◌, ◌/◌, ◌%◌, ◌^◌, ◌<◌, bit_and, bit_or, bit_xor, min, max,
  bit_or-bitwise,
}
use mathlib.Core.Path.{◌≡◌, refl, ap, ◌∙◌}
use mathlib.Core.Bool.{true, false}
use native.Mathlib.Nat.{pow-suc, one-le-pow}
use mathlib.Core.Logic.{inl, inr}
use v6502c.Base.Tests.{masks, u8, ◌==◌, Bool-cases}
use native.Mathlib.Omega.{arith}

-- Digit `k` of `x`, counted from the right.
abbrev pub bit : ℕ → ℕ → ℕ
bit zero x = x % 2
bit (suc k) x = bit k (x / 2)

pub bit-and : (k a b : ℕ) → bit k (bit_and a b) ≡ min (bit k a) (bit k b)
bit-and zero a b = omega (arith, bit_and_step a b)
bit-and (suc k) a b = ap (bit k) (omega (arith, bit_and_step a b)) ∙ bit-and k (a / 2) (b / 2)

pub bit-or : (k a b : ℕ) → bit k (bit_or a b) ≡ max (bit k a) (bit k b)
bit-or zero a b = omega (arith, bit_or_step a b)
bit-or (suc k) a b = ap (bit k) (omega (arith, bit_or_step a b)) ∙ bit-or k (a / 2) (b / 2)

pub bit-xor : (k a b : ℕ) → bit k (bit_xor a b) ≡ (bit k a + bit k b) % 2
bit-xor zero a b = omega (arith, bit_xor_step a b)
bit-xor (suc k) a b = ap (bit k) (omega (arith, bit_xor_step a b)) ∙ bit-xor k (a / 2) (b / 2)

-- By strong recursion on the first operand: it is halved at each digit.
bit_and-zero_below : (bound x : ℕ) → x < bound → bit_and x 0 ≡ 0
bit_and-zero_below zero x h = absurd (omega arith)
bit_and-zero_below (suc bound) x h =
    let rest : bit_and (x / 2) 0 ≡ 0 = elim (Bool-cases (x == 0)) [
      | inl e ↦ ground arith
      | inr e ↦ bit_and-zero_below bound (x / 2) (ground arith)
    ] in
    omega (arith, bit_and_step x 0, rest)

bit_and-zero : (x : ℕ) → bit_and x 0 ≡ 0
bit_and-zero x = bit_and-zero_below (x + 1) x (omega arith)

-- A mask of one bit keeps that digit alone.
pub bit_and-pow : (k x : ℕ) → bit_and x (2 ^ k) ≡ bit k x * 2 ^ k
bit_and-pow zero x = omega (arith, bit_and_step x 1, bit_and-zero (x / 2))
bit_and-pow (suc k) x = omega (
  arith,
  pow-suc 2 k,
  bit_and_step x (2 ^ suc k),
  ap (bit_and (x / 2)) halved,
  bit_and-pow k (x / 2),
  ap (λ (t : ℕ). bit k (x / 2) * t) (pow-suc 2 k),
)
  where
    halved : 2 ^ suc k / 2 ≡ 2 ^ k
    halved = omega (arith, pow-suc 2 k)

bit_or-zero_fuel : (n a : ℕ) → a < n → bit_or a 0 ≡ a
bit_or-zero_fuel zero a h = absurd (omega arith)
bit_or-zero_fuel (suc n) zero h = refl
bit_or-zero_fuel (suc n) (suc a) h =
    omega (arith, bit_or_step (suc a) 0, bit_or-zero_fuel n (suc a / 2) (omega arith))

pub bit_or-zero : (a : ℕ) → bit_or a 0 ≡ a
bit_or-zero a = bit_or-zero_fuel (suc a) a (omega arith)

pub zero-bit_or : (b : ℕ) → bit_or 0 b ≡ b
zero-bit_or b = bit_or-bitwise 0 b

-- `(hi << k) | lo` is a sum where `lo` has at most `k` digits.
pub bit_or_fields : (k hi lo : ℕ) → lo < 2 ^ k → bit_or (hi * 2 ^ k) lo ≡ hi * 2 ^ k + lo
bit_or_fields zero hi lo h = ground (arith, bit_or-zero hi)
bit_or_fields (suc k) hi lo h = ground (
  arith,
  bit_or_step (hi * 2 ^ suc k) lo,
  twice,
  pow-suc 2 k,
  bit_or_fields k hi (lo / 2) (omega (arith, pow-suc 2 k)),
)
  where
    twice : hi * 2 ^ suc k ≡ 2 * (hi * 2 ^ k)
    twice = omega (arith, ap (λ (t : ℕ). hi * t) (pow-suc 2 k))

pub bit-u8 : (j x : ℕ) → j < 8 → bit j (u8 x) ≡ bit j x
bit-u8 zero x h = omega arith
bit-u8 (suc zero) x h = omega arith
bit-u8 (suc (suc zero)) x h = omega arith
bit-u8 (suc (suc (suc zero))) x h = omega arith
bit-u8 (suc (suc (suc (suc zero)))) x h = omega arith
bit-u8 (suc (suc (suc (suc (suc zero))))) x h = omega arith
bit-u8 (suc (suc (suc (suc (suc (suc zero)))))) x h = omega arith
bit-u8 (suc (suc (suc (suc (suc (suc (suc zero))))))) x h = omega arith
bit-u8 (suc (suc (suc (suc (suc (suc (suc (suc j)))))))) x h = absurd (omega arith)

pub bit-lt : (j x : ℕ) → bit j x < 2
bit-lt zero x = omega arith
bit-lt (suc j) x = bit-lt j (x / 2)

pow-pos : (j : ℕ) → 0 < 2 ^ j
pow-pos j = one-le-pow j 2 (omega arith)

-- A test of one bit reads that digit.
pub masks-bit : (j x : ℕ) → masks x (2 ^ j) ≡ (bit j x == 1)
masks-bit j x = ground (arith, bit_and-pow j x, bit-lt j x, pow-pos j)

pub bit_or_fields_swap : (k hi lo : ℕ) → lo < 2 ^ k → bit_or lo (hi * 2 ^ k) ≡ hi * 2 ^ k + lo
bit_or_fields_swap zero hi lo h = ground (arith, zero-bit_or hi)
bit_or_fields_swap (suc k) hi lo h = ground (
  arith,
  bit_or_step lo (hi * 2 ^ suc k),
  twice,
  pow-suc 2 k,
  bit_or_fields_swap k hi (lo / 2) (omega (arith, pow-suc 2 k)),
)
  where
    twice : hi * 2 ^ suc k ≡ 2 * (hi * 2 ^ k)
    twice = omega (arith, ap (λ (t : ℕ). hi * t) (pow-suc 2 k))

-- A mask of `k` low ones.
bit_and_low_fields : (k q r : ℕ) → r < 2 ^ k → bit_and (q * 2 ^ k + r) (2 ^ k - 1) ≡ r
bit_and_low_fields zero q r h = rw bit_and-zero (omega arith)
bit_and_low_fields (suc k) q r h = ground (
  arith,
  bit_and_step (q * 2 ^ suc k + r) (2 ^ suc k - 1),
  ap (λ (t : ℕ). q * t) (pow-suc 2 k),
  pow-suc 2 k,
  pow-pos k,
  bit_and_low_fields k q (r / 2) (omega (arith, pow-suc 2 k)),
)

pub bit_and_low : (k x : ℕ) → bit_and x (2 ^ k - 1) ≡ x % 2 ^ k
bit_and_low k x = ground (arith, pow-pos k, bit_and_low_fields k (x / 2 ^ k) (x % 2 ^ k))

-- A mask of low zeros works on the digits above them.
pub bit_and_high :
    (k q r m : ℕ) → r < 2 ^ k → bit_and (q * 2 ^ k + r) (m * 2 ^ k) ≡ bit_and q m * 2 ^ k
bit_and_high zero q r m h = ground arith
bit_and_high (suc k) q r m h = ground (
  arith,
  bit_and_step (q * 2 ^ suc k + r) (m * 2 ^ suc k),
  ap (λ (t : ℕ). q * t) (pow-suc 2 k),
  ap (λ (t : ℕ). m * t) (pow-suc 2 k),
  ap (λ (t : ℕ). bit_and q m * t) (pow-suc 2 k),
  pow-suc 2 k,
  bit_and_high k q (r / 2) m (omega (arith, pow-suc 2 k)),
)
