-- ===== src/Cpu/Alu/Sums.antt =====
-- Binary addition, subtraction and comparison: the result and every flag.
use v6502c.Base.{ℕ, ◌+◌, ◌-◌, ◌*◌, ◌/◌, ◌<◌, ◌≡◌, arith, bit_and, bit_xor}
use v6502c.Base.{false, not, ◌&&◌, ◌||◌, ◌==◌, ltb, leb, u8, to_bit}
use v6502c.Base.{bit-and, bit-xor}
use v6502c.Cpu.State.{Cpu, masks, check_bit, carry_flag, bcd_flag, overflow_flag}
use v6502c.Cpu.Flags.{masks-bit, HasFlags, sum_flags-HasFlags, compare_flags-HasFlags}
use v6502c.Cpu.Alu.{add_overflows, sub_overflows, adc, adc_binary, sbc, sbc_binary, compare_with}

-- The number that a byte stands for in two's complement, 0x80 too high.
abbrev pub signed : ℕ → ℕ
signed x = u8 (x + 0x80)

pub masks-sign : (x : ℕ) → x < 0x100 → masks x 0x80 ≡ leb 0x80 x
masks-sign x h = ground (arith, masks-bit 7 x)

pub add_overflows_lem :
    (a b carry_in : ℕ)
    → a < 0x100
    → b < 0x100
    → carry_in < 2
    → add_overflows a b (a + b + carry_in)
      ≡ (ltb (signed a + signed b + carry_in) 0x80 || leb 0x180 (signed a + signed b + carry_in))
unfolding add_overflows
add_overflows_lem a b carry_in ha hb hc = ground (
  arith,
  masks-bit 7 (bit_and (bit_xor a (a + b + carry_in)) (bit_xor b (a + b + carry_in))),
  bit-and 7 (bit_xor a (a + b + carry_in)) (bit_xor b (a + b + carry_in)),
  bit-xor 7 a (a + b + carry_in),
  bit-xor 7 b (a + b + carry_in),
)

sub_overflows_digits :
    (a b result : ℕ)
    → a < 0x100
    → b < 0x100
    → result < 0x100
    → sub_overflows a b result ≡ (not (a / 0x80 == b / 0x80) && not (a / 0x80 == result / 0x80))
unfolding sub_overflows
sub_overflows_digits a b result ha hb hr = ground (
  arith,
  masks-bit 7 (bit_and (bit_xor a b) (bit_xor a result)),
  bit-and 7 (bit_xor a b) (bit_xor a result),
  bit-xor 7 a b,
  bit-xor 7 a result,
)

-- The difference, 0x100 too high, is kept in its low byte.
pub sub_overflows_lem :
    (a b borrow : ℕ)
    → a < 0x100
    → b < 0x100
    → borrow < 2
    → sub_overflows a b (u8 (a + 0x100 - b - borrow))
      ≡ (ltb (signed a + 0x80) (signed b + borrow) || ltb (signed b + borrow + 0x7F) (signed a))
sub_overflows_lem a b borrow ha hb hc =
    ground (arith, sub_overflows_digits a b (u8 (a + 0x100 - b - borrow)))

module _ {S : Type 0} where
  -- Only the accumulator and the status byte differ.
  abbrev pub SameButA : Cpu S → Cpu S → Type 0
  SameButA c c' = c' ≡ record c { a = c'.a; sr = c'.sr }

  -- Out of decimal mode, ADC adds operand and carry to the accumulator: the ninth bit of the sum
  -- is the new carry, V says that the sum of the signed values does not fit a signed byte, Z and N
  -- describe the result, and nothing else changes.
  pub adc_lem :
      (c : Cpu S) (b : ℕ)
      → c.a < 0x100
      → b < 0x100
      → check_bit c bcd_flag ≡ false
      → let c' = adc c b in
        let carry_in = to_bit (check_bit c carry_flag) in
        let sum = signed c.a + signed b + carry_in in
        (c'.a + 0x100 * to_bit (check_bit c' carry_flag) ≡ c.a + b + carry_in)
        × HasFlags
            (ltb 0xFF (c.a + b + carry_in))
            (ltb sum 0x80 || leb 0x180 sum)
            (c'.a == 0)
            (leb 0x80 c'.a)
            c.sr
            c'.sr
        × SameButA c c'
  unfolding adc adc_binary
  adc_lem c b ha hb hd =
      let carry_in = to_bit (check_bit c carry_flag) in
      let result = c.a + b + carry_in in
      ground (
        arith,
        add_overflows_lem c.a b carry_in,
        masks-sign (u8 result),
        sum_flags-HasFlags (ltb 0xFF result) (add_overflows c.a b result) (u8 result == 0)
            (masks (u8 result) 0x80) c.sr,
      )

  -- Out of decimal mode, SBC subtracts the operand and the inverted carry from the accumulator
  -- modulo 256: the new carry says that no borrow was needed, V that the difference of the signed
  -- values does not fit a signed byte, Z and N describe the result, and nothing else changes.
  pub sbc_lem :
      (c : Cpu S) (b : ℕ)
      → c.a < 0x100
      → b < 0x100
      → check_bit c bcd_flag ≡ false
      → let c' = sbc c b in
        let take = b + (1 - to_bit (check_bit c carry_flag)) in
        let signed_take = signed b + (1 - to_bit (check_bit c carry_flag)) in
        (c'.a + take ≡ c.a + 0x100 * (1 - to_bit (check_bit c' carry_flag)))
        × HasFlags
            (leb take c.a)
            (ltb (signed c.a + 0x80) signed_take || ltb (signed_take + 0x7F) (signed c.a))
            (c'.a == 0)
            (leb 0x80 c'.a)
            c.sr
            c'.sr
        × SameButA c c'
  unfolding sbc sbc_binary
  sbc_lem c b ha hb hd =
      let borrow = 1 - to_bit (check_bit c carry_flag) in
      let result = c.a + 0x100 - b - borrow in
      ground (
        arith,
        sub_overflows_lem c.a b borrow,
        masks-sign (u8 result),
        sum_flags-HasFlags (leb 0x100 result) (sub_overflows c.a b (u8 result)) (u8 result == 0)
            (masks (u8 result) 0x80) c.sr,
      )

  -- CMP, CPX and CPY: C says that the register is not below the operand, Z that they are equal,
  -- N is the sign bit of their difference, V stays, and so does all else.
  pub compare_with_lem :
      (c : Cpu S) (register b : ℕ)
      → register < 0x100
      → b < 0x100
      → let c' = compare_with c register b in
        HasFlags
          (leb b register)
          (check_bit c overflow_flag)
          (register == b)
          (leb 0x80 (u8 (register + 0x100 - b)))
          c.sr
          c'.sr
        × (c' ≡ record c { sr = c'.sr })
  unfolding compare_with
  compare_with_lem c register b hr hb =
      let temp = u8 (register + 0x100 - b) in
      ground (
        arith,
        masks-sign temp,
        compare_flags-HasFlags (leb b register) (temp == 0) (masks temp 0x80) c.sr,
      )
