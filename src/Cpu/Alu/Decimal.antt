-- ===== src/Cpu/Alu/Decimal.antt =====
-- Decimal addition and subtraction of numbers in binary-coded decimal.
use v6502c.Base.{ℕ, ◌+◌, ◌-◌, ◌*◌, ◌/◌, ◌%◌, ◌<◌, ◌≡◌, arith, bit_or_fields}
use v6502c.Base.{true, ◌||◌, false, ◌==◌, if◌then◌else◌, ltb, leb, u8, to_bit}
use v6502c.Cpu.State.{Cpu, masks, check_bit, carry_flag, bcd_flag}
use v6502c.Cpu.Flags.{HasFlags, decimal_flags-HasFlags}
use v6502c.Cpu.Alu.{
  is_65c02, add_overflows, sub_overflows, bcd_add, bcd_sub, adc, adc_decimal, sbc, sbc_decimal,
}
use v6502c.Cpu.Alu.Sums.{signed, masks-sign, add_overflows_lem, sub_overflows_lem, SameButA}

-- Two decimal digits, and their number.
abbrev pub IsBcd : ℕ → Type 0
IsBcd x = (x / 16 < 10) × (x % 16 < 10)

abbrev pub decimal : ℕ → ℕ
decimal x = x / 16 * 10 + x % 16

bcd_add_lem :
    (a b carry_in : ℕ)
    → IsBcd a
    → IsBcd b
    → carry_in < 2
    → let (sum, carry) = bcd_add a b carry_in in
      (decimal sum + 100 * to_bit carry ≡ decimal a + decimal b + carry_in)
      × IsBcd sum
      × (sum < 0x100)
unfolding bcd_add
bcd_add_lem a b carry_in ha hb hc =
    let lo = a % 16 + b % 16 + carry_in in
    let lo1 = if ltb 9 lo then lo + 6 else lo in
    let hi1 = if ltb 9 lo then a / 16 + b / 16 + 1 else a / 16 + b / 16 in
    let hi2 = if ltb 9 hi1 then hi1 + 6 else hi1 in
    ground (arith, bit_or_fields 4 (hi2 % 16) (lo1 % 16))

bcd_sub_lem :
    (a b borrow : ℕ)
    → IsBcd a
    → IsBcd b
    → borrow < 2
    → let (difference, carry) = bcd_sub a b borrow in
      (decimal difference + decimal b + borrow ≡ decimal a + 100 * (1 - to_bit carry))
      × IsBcd difference
      × (difference < 0x100)
unfolding bcd_sub
bcd_sub_lem a b borrow ha hb hc =
    let lo = a % 16 + 16 - b % 16 - borrow in
    let hi = a / 16 + 16 - b / 16 in
    let lo1 = if ltb lo 16 then lo + 10 else lo in
    let hi1 = if ltb lo 16 then hi - 1 else hi in
    let hi2 = if ltb hi1 16 then hi1 + 10 else hi1 in
    ground (arith, bit_or_fields 4 (hi2 % 16) (lo1 % 16))

module _ {S : Type 0} where
  -- In decimal mode, ADC of two numbers of two decimal digits: the new accumulator holds the last
  -- two digits of their sum with the carry, and the new carry is its hundreds. Z and N describe
  -- the binary sum. V is that of the binary sum on a 65C02, and clear on a 6502.
  pub adc_decimal_lem :
      (c : Cpu S) (b : ℕ)
      → IsBcd c.a
      → IsBcd b
      → check_bit c bcd_flag ≡ true
      → let c' = adc c b in
        let carry_in = to_bit (check_bit c carry_flag) in
        let sum = signed c.a + signed b + carry_in in
        let binary = u8 (c.a + b + carry_in) in
        (decimal c'.a + 100 * to_bit (check_bit c' carry_flag) ≡ decimal c.a + decimal b + carry_in)
        × IsBcd c'.a
        × HasFlags
            (check_bit c' carry_flag)
            (if is_65c02 c.variant then (ltb sum 0x80 || leb 0x180 sum) else false)
            (binary == 0)
            (leb 0x80 binary)
            c.sr
            c'.sr
        × SameButA c c'
  unfolding adc adc_decimal
  adc_decimal_lem c b ha hb hd =
      let carry_in = to_bit (check_bit c carry_flag) in
      let binary = u8 (c.a + b + carry_in) in
      ground (
        arith,
        bcd_add_lem c.a b carry_in,
        add_overflows_lem c.a b carry_in,
        masks-sign binary,
        decimal_flags-HasFlags (bcd_add c.a b carry_in).1
            (if is_65c02 c.variant then add_overflows c.a b (c.a + b + carry_in) else false)
            (binary == 0) (masks binary 0x80) c.sr,
      )

  -- In decimal mode, SBC of two numbers of two decimal digits: the new accumulator holds their
  -- difference less the borrow, plus 100 if that is negative, and the new carry says that it is
  -- not. Z and N describe the binary difference. V is that of the binary difference on a 65C02,
  -- and clear on a 6502.
  pub sbc_decimal_lem :
      (c : Cpu S) (b : ℕ)
      → IsBcd c.a
      → IsBcd b
      → check_bit c bcd_flag ≡ true
      → let c' = sbc c b in
        let borrow = 1 - to_bit (check_bit c carry_flag) in
        let binary = u8 (c.a + 0x100 - b - borrow) in
        (decimal c'.a + decimal b + borrow
          ≡ decimal c.a + 100 * (1 - to_bit (check_bit c' carry_flag)))
        × IsBcd c'.a
        × HasFlags
            (check_bit c' carry_flag)
            (if is_65c02 c.variant
              then (ltb (signed c.a + 0x80) (signed b + borrow)
                  || ltb (signed b + borrow + 0x7F) (signed c.a))
              else false)
            (binary == 0)
            (leb 0x80 binary)
            c.sr
            c'.sr
        × SameButA c c'
  unfolding sbc sbc_decimal
  sbc_decimal_lem c b ha hb hd =
      let borrow = 1 - to_bit (check_bit c carry_flag) in
      let binary = u8 (c.a + 0x100 - b - borrow) in
      ground (
        arith,
        bcd_sub_lem c.a b borrow,
        sub_overflows_lem c.a b borrow,
        masks-sign binary,
        decimal_flags-HasFlags (bcd_sub c.a b borrow).1
            (if is_65c02 c.variant then sub_overflows c.a b binary else false) (binary == 0)
            (masks binary 0x80) c.sr,
      )
