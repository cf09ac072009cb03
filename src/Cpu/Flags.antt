-- ===== src/Cpu/Flags.antt =====
-- The status bits: what a test of one bit says after another is put.
use v6502c.Base.{ℕ, ◌^◌, ◌<◌, ◌≡◌, refl, arith}
use v6502c.Base.{Bool, true, false, not}
use v6502c.Base.{bit_or, bit_and, bit, bit-or, bit-and}
use v6502c.Base.{◌==◌, if◌then◌else◌, u8, not8, to_bit, all_below, all_below_sound, ==→eq}
pub use v6502c.Base.{masks-bit, bit-u8}
use v6502c.Base.{bit-lt}
use v6502c.Cpu.State.{
  carry_flag, zero_flag, irq_disable, bcd_flag, break_flag, overflow_flag, negative_flag, set_flag,
  clear_flag, check_flag, put_flag,
}

-- Among the eight digits of a byte.
abbrev digit_table : (ℕ → ℕ → Bool) → Bool
digit_table p = all_below 8 (λ j. all_below 8 (p j))

digit_table_sound :
    (p : ℕ → ℕ → Bool) (j k : ℕ) → digit_table p ≡ true → j < 8 → k < 8 → p j k ≡ true
digit_table_sound p j k t hj hk =
    all_below_sound 8 (p j) k (all_below_sound 8 (λ i. all_below 8 (p i)) j t hj) hk

pow_table : digit_table (λ j k. bit j (2 ^ k) == to_bit (j == k)) ≡ true
unfolding all_below
pow_table = refl

not_table : digit_table (λ j k. bit j (not8 (2 ^ k)) == to_bit (not (j == k))) ≡ true
unfolding all_below
not_table = refl

bit-pow : (j k : ℕ) → j < 8 → k < 8 → bit j (2 ^ k) ≡ to_bit (j == k)
bit-pow j k hj hk = ==→eq _ _ (digit_table_sound _ j k pow_table hj hk)

bit-not8 : (j k : ℕ) → j < 8 → k < 8 → bit j (not8 (2 ^ k)) ≡ to_bit (not (j == k))
bit-not8 j k hj hk = ==→eq _ _ (digit_table_sound _ j k not_table hj hk)

pub check_flag-bit : (x j : ℕ) → check_flag x j ≡ (bit j x == 1)
unfolding check_flag
check_flag-bit x j = masks-bit j x

pub check_flag-put :
    (test : Bool) (sr k j : ℕ)
    → k < 8
    → j < 8
    → check_flag (put_flag test sr k) j ≡ (if j == k then test else check_flag sr j)
unfolding put_flag set_flag clear_flag
check_flag-put true sr k j hk hj = ground (
  arith,
  check_flag-bit (u8 (bit_or sr (2 ^ k))) j,
  check_flag-bit sr j,
  bit-u8 j (bit_or sr (2 ^ k)),
  bit-or j sr (2 ^ k),
  bit-pow j k,
  bit-lt j sr,
)
check_flag-put false sr k j hk hj = ground (
  arith,
  check_flag-bit (u8 (bit_and sr (not8 (2 ^ k)))) j,
  check_flag-bit sr j,
  bit-u8 j (bit_and sr (not8 (2 ^ k))),
  bit-and j sr (not8 (2 ^ k)),
  bit-not8 j k,
  bit-lt j sr,
)

pub put_flag-lt : (test : Bool) (sr k : ℕ) → put_flag test sr k < 0x100
unfolding put_flag set_flag clear_flag
put_flag-lt test sr k = ground arith

-- The four flags of a result, and the four that it leaves.
abbrev pub SameOthers : ℕ → ℕ → Type 0
SameOthers sr sr' =
    (check_flag sr' irq_disable ≡ check_flag sr irq_disable)
    × (check_flag sr' bcd_flag ≡ check_flag sr bcd_flag)
    × (check_flag sr' break_flag ≡ check_flag sr break_flag)
    × (check_flag sr' 5 ≡ check_flag sr 5)

check_flag-put_4 :
    (c v z n : Bool) (sr h i k l j : ℕ)
    → h < 8
    → i < 8
    → k < 8
    → l < 8
    → j < 8
    → check_flag (put_flag n (put_flag z (put_flag v (put_flag c sr h) i) k) l) j ≡ (
        if j == l
        then n
        else if j == k
        then z
        else if j == i
        then v
        else if j == h
        then c
        else check_flag sr j)
check_flag-put_4 c v z n sr h i k l j ph pi pk pl pj = ground (
  arith,
  check_flag-put n (put_flag z (put_flag v (put_flag c sr h) i) k) l j,
  check_flag-put z (put_flag v (put_flag c sr h) i) k j,
  check_flag-put v (put_flag c sr h) i j,
  check_flag-put c sr h j,
)

-- The flags of a binary sum, a decimal sum and a comparison, in the order in which the code puts
-- them: C V Z N, C Z N V and C Z N.
abbrev pub sum_flags : Bool → Bool → Bool → Bool → ℕ → ℕ
sum_flags c v z n sr = put_flag n (put_flag z (put_flag v (put_flag c sr 0) 6) 1) 7

abbrev pub decimal_flags : Bool → Bool → Bool → Bool → ℕ → ℕ
decimal_flags c v z n sr = put_flag v (put_flag n (put_flag z (put_flag c sr 0) 1) 7) 6

abbrev pub HasFlags : Bool → Bool → Bool → Bool → ℕ → ℕ → Type 0
HasFlags c v z n sr sr' =
    (check_flag sr' carry_flag ≡ c)
    × (check_flag sr' overflow_flag ≡ v)
    × (check_flag sr' zero_flag ≡ z)
    × (check_flag sr' negative_flag ≡ n)
    × SameOthers sr sr'

HasFlags-of_digits :
    (c v z n : Bool) (sr sr' : ℕ)
    → ((j : ℕ)
        → j < 8
        → check_flag sr' j ≡ (
            if j == 0
            then c
            else if j == 1
            then z
            else if j == 6
            then v
            else if j == 7
            then n
            else check_flag sr j))
    → HasFlags c v z n sr sr'
HasFlags-of_digits c v z n sr sr' h = (
  h 0 (omega arith),
  h 6 (omega arith),
  h 1 (omega arith),
  h 7 (omega arith),
  (h 2 (omega arith), h 3 (omega arith), h 4 (omega arith), h 5 (omega arith)),
)

pub sum_flags-HasFlags : (c v z n : Bool) (sr : ℕ) → HasFlags c v z n sr (sum_flags c v z n sr)
sum_flags-HasFlags c v z n sr =
    HasFlags-of_digits c v z n sr _ (λ j h. ground (arith, check_flag-put_4 c v z n sr 0 6 1 7 j))

pub decimal_flags-HasFlags :
    (c v z n : Bool) (sr : ℕ) → HasFlags c v z n sr (decimal_flags c v z n sr)
decimal_flags-HasFlags c v z n sr =
    HasFlags-of_digits c v z n sr _ (λ j h. ground (arith, check_flag-put_4 c z n v sr 0 1 7 6 j))

pub compare_flags-HasFlags :
    (c z n : Bool) (sr : ℕ)
    → HasFlags c
        (check_flag sr overflow_flag)
        z
        n
        sr
        (put_flag n (put_flag z (put_flag c sr 0) 1) 7)
compare_flags-HasFlags c z n sr =
    HasFlags-of_digits c (check_flag sr overflow_flag) z n sr _ (λ j h. ground (
      arith,
      check_flag-put n (put_flag z (put_flag c sr 0) 1) 7 j,
      check_flag-put z (put_flag c sr 0) 1 j,
      check_flag-put c sr 0 j,
    ))
