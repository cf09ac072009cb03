-- ===== src/Base/Tests.antt =====
-- The comparisons, the conditional and the casts of the C sources, over the native numbers.
use Prim.Native.Nat.{ℕ, zero, suc, ◌-◌, ◌%◌, ◌<◌, compare, Ordering, bit_and}
use mathlib.Core.Path.{◌≡◌, refl}
use mathlib.Core.Logic.{◌⊎◌, inl, inr}
use mathlib.Core.Bool.{Bool, true, false, not, ◌&&◌}
use native.Mathlib.Omega.{arith}

abbrev pub ltb : ℕ → ℕ → Bool
ltb a b = elim (compare a b) [ Ordering.lt ↦ true | _ ↦ false ]

abbrev pub leb : ℕ → ℕ → Bool
leb a b = elim (compare a b) [ Ordering.gt ↦ false | _ ↦ true ]

infix 50 ◌==◌
abbrev pub ◌==◌ : ℕ → ℕ → Bool
a == b = elim (compare a b) [ Ordering.eq ↦ true | _ ↦ false ]

infix 1 if◌then◌else◌
abbrev pub if◌then◌else◌ {ℓ} : {A : Type ℓ} → Bool → A → A → A
if true then x else y = x
if false then x else y = y

-- A conversion to `byte` (unsigned char) and to `address` (unsigned short int).
abbrev pub u8 : ℕ → ℕ
u8 n = n % 0x100

abbrev pub u16 : ℕ → ℕ
u16 n = n % 0x10000

-- `~x` at a byte.
abbrev pub not8 : ℕ → ℕ
not8 x = 0xFF - x

-- A test of C on `value & mask`.
abbrev pub masks : ℕ → ℕ → Bool
masks value mask = not (bit_and value mask == 0)

-- 1 and 0, the C values of a test.
abbrev pub to_bit : Bool → ℕ
to_bit true = 1
to_bit false = 0

pub ==→eq : (a b : ℕ) → (a == b) ≡ true → a ≡ b
==→eq a b h = ground arith

pub Bool-cases : (b : Bool) → (b ≡ true) ⊎ (b ≡ false)
Bool-cases true = inl refl
Bool-cases false = inr refl

-- A test of every number below a bound, by evaluation.
unfoldable pub all_below : ℕ → (ℕ → Bool) → Bool
all_below zero test = true
all_below (suc bound) test = all_below bound test && test bound

pub all_below_sound :
    (bound : ℕ) (test : ℕ → Bool) (k : ℕ) → all_below bound test ≡ true → k < bound → test k ≡ true
unfolding all_below
all_below_sound zero test k every below = absurd (omega arith)
all_below_sound (suc bound) test k every below = ground (arith, all_below_sound bound test k)

-- What holds of each number below eight.
pub below_eight :
    (P : ℕ → Type 0) → P 0 → P 1 → P 2 → P 3 → P 4 → P 5 → P 6 → P 7 → (k : ℕ) → k < 8 → P k
below_eight P p q r s t u v w zero h = p
below_eight P p q r s t u v w (suc zero) h = q
below_eight P p q r s t u v w (suc (suc zero)) h = r
below_eight P p q r s t u v w (suc (suc (suc zero))) h = s
below_eight P p q r s t u v w (suc (suc (suc (suc zero)))) h = t
below_eight P p q r s t u v w (suc (suc (suc (suc (suc zero))))) h = u
below_eight P p q r s t u v w (suc (suc (suc (suc (suc (suc zero)))))) h = v
below_eight P p q r s t u v w (suc (suc (suc (suc (suc (suc (suc zero))))))) h = w
below_eight P p q r s t u v w (suc (suc (suc (suc (suc (suc (suc (suc k)))))))) h =
    absurd (omega arith)
