-- ===== src/Base/Bits/Step.antt =====
-- One equation for the lowest digit of each bit operation, from the recursion on digits that the
-- native operations stand for.
use Prim.Native.Nat.{
  ℕ, zero, suc, ◌+◌, ◌-◌, ◌*◌, ◌/◌, ◌%◌, ◌≤◌, ◌<◌, bit_and, bit_or, bit_xor, min, max, digits,
  bitwise, differ, bit_and-bitwise, bit_or-bitwise, bit_xor-bitwise,
}
use mathlib.Core.Path.{◌≡◌, refl, ap, sym, ◌∙◌}
use native.Mathlib.Nat.{le_refl}
use native.Mathlib.Omega.{arith}

-- Fuel beyond the first operand changes nothing.
one_more :
    (z : ℕ → ℕ) (f : ℕ → ℕ → ℕ) (n a b : ℕ) → a ≤ n → digits z f (suc n) a b ≡ digits z f n a b
one_more z f zero zero b h = refl
one_more z f zero (suc a) b h = absurd (omega arith)
one_more z f (suc n) zero b h = refl
one_more z f (suc n) (suc a) b h =
    ap (λ t. t * 2 + f (suc a % 2) (b % 2)) (one_more z f n (suc a / 2) (b / 2) (omega arith))

more :
    (z : ℕ → ℕ) (f : ℕ → ℕ → ℕ) (k n m a b : ℕ)
    → a ≤ n
    → m ≡ k + n
    → digits z f m a b ≡ digits z f n a b
more z f zero n m a b h e = ap (λ l. digits z f l a b) (omega arith)
more z f (suc k) n m a b h e =
    more z f k (suc n) m a b (omega arith) (omega arith) ∙ one_more z f n a b h

-- An operation that means a recursion on digits satisfies its equation.
module _ (op : ℕ → ℕ → ℕ) (z : ℕ → ℕ) (f : ℕ → ℕ → ℕ) (means : (a b : ℕ) → op a b ≡ bitwise z f a b)
    (ends : (b : ℕ) → z b ≡ z (b / 2) * 2 + f 0 (b % 2)) where
  op_step : (a b : ℕ) → op a b ≡ op (a / 2) (b / 2) * 2 + f (a % 2) (b % 2)
  op_step zero b = means zero b ∙ ends b ∙ ap (λ t. t * 2 + f 0 (b % 2)) (sym (means 0 (b / 2)))
  op_step (suc a) b =
      let half = suc a / 2 in
      let same = more z f (a - half) half a half (b / 2) (le_refl _) (omega arith) in
      means (suc a) b ∙ ap (λ t. t * 2 + f (suc a % 2) (b % 2)) (same ∙ sym (means half (b / 2)))

pub bit_or_step : (a b : ℕ) → bit_or a b ≡ bit_or (a / 2) (b / 2) * 2 + max (a % 2) (b % 2)
bit_or_step = op_step bit_or (λ y. y) max bit_or-bitwise (λ b. omega arith)

pub bit_and_step : (a b : ℕ) → bit_and a b ≡ bit_and (a / 2) (b / 2) * 2 + min (a % 2) (b % 2)
bit_and_step = op_step bit_and (λ y. 0) min bit_and-bitwise (λ b. omega arith)

differ_digit : (x y : ℕ) → x < 2 → y < 2 → differ x y ≡ (x + y) % 2
differ_digit zero y hx hy = omega arith
differ_digit (suc zero) zero hx hy = omega arith
differ_digit (suc zero) (suc zero) hx hy = omega arith
differ_digit (suc zero) (suc (suc y)) hx hy = absurd (omega arith)
differ_digit (suc (suc x)) y hx hy = absurd (omega arith)

differ_lem : (a b : ℕ) → differ (a % 2) (b % 2) ≡ (a + b) % 2
differ_lem a b = omega (arith, differ_digit (a % 2) (b % 2) (omega arith) (omega arith))

pub bit_xor_step : (a b : ℕ) → bit_xor a b ≡ bit_xor (a / 2) (b / 2) * 2 + (a + b) % 2
bit_xor_step a b =
    let step = op_step bit_xor (λ y. y) differ bit_xor-bitwise in
    step (λ b. omega (arith, differ_lem 0 b)) a b
    ∙ ap (λ t. bit_xor (a / 2) (b / 2) * 2 + t) (differ_lem a b)
