-- ===== src/Cpu/Alu.antt =====
-- The arithmetic, logic and shift cases of the second `switch` of `cpu_step`.
-- An `int` that may be negative is kept 0x100 (a byte) or 0x10 (a nibble) too high.
pub mod Sums
pub mod Decimal
pub mod Shifts
use v6502c.Base.{ℕ, ◌+◌, ◌-◌, ◌*◌, ◌/◌, ◌%◌, ◌^◌, bit_and, bit_or, bit_xor}
use v6502c.Base.{Bool, true, false, if◌then◌else◌, ltb, leb, u8, to_bit}
use v6502c.Inst.{Addressing, a_acc}
use v6502c.Cpu.State.{
  Variant, cpu_6502, cpu_65c02, Cpu, masks, check_bit, put_bit, set_zero_flag, set_negative_flag,
  set_zn, cpu_write_byte, carry_flag, bcd_flag, overflow_flag,
}

-- `addressing == A_ACC`
unfoldable pub is_acc : Addressing → Bool
is_acc a_acc = true
is_acc _ = false

abbrev pub is_65c02 : Variant → Bool
is_65c02 cpu_6502 = false
is_65c02 cpu_65c02 = true

-- The test `((a ^ result) & (b ^ result) & 0x80) != 0` of the additions, and
-- `((a ^ b) & (a ^ result) & 0x80) != 0` of the subtractions.
unfoldable pub add_overflows : ℕ → ℕ → ℕ → Bool
add_overflows a b result = masks (bit_and (bit_xor a result) (bit_xor b result)) 0x80

unfoldable pub sub_overflows : ℕ → ℕ → ℕ → Bool
sub_overflows a b result = masks (bit_and (bit_xor a b) (bit_xor a result)) 0x80

-- The two nibbles of a decimal sum after their adjustments, and the carry out.
unfoldable pub bcd_add : ℕ → ℕ → ℕ → ℕ × Bool
bcd_add a b carry_in =
    let lo = a % 16 + b % 16 + carry_in in
    let hi = a / 16 + b / 16 in
    let lo1 = if ltb 9 lo then lo + 6 else lo in
    let hi1 = if ltb 9 lo then hi + 1 else hi in
    let hi2 = if ltb 9 hi1 then hi1 + 6 else hi1 in
    (bit_or (hi2 % 16 * 2 ^ 4) (lo1 % 16), ltb 9 hi1)

-- Of a decimal difference; the flag says that no borrow is left. Both nibbles are 0x10 too high.
unfoldable pub bcd_sub : ℕ → ℕ → ℕ → ℕ × Bool
bcd_sub a b borrow =
    let lo = a % 16 + 16 - b % 16 - borrow in
    let hi = a / 16 + 16 - b / 16 in
    let lo1 = if ltb lo 16 then lo + 10 else lo in
    let hi1 = if ltb lo 16 then hi - 1 else hi in
    let hi2 = if ltb hi1 16 then hi1 + 10 else hi1 in
    (bit_or (hi2 % 16 * 2 ^ 4) (lo1 % 16), leb 16 hi1)

module _ {S : Type 0} where
  unfoldable pub adc_decimal : Cpu S → ℕ → Cpu S
  adc_decimal c b =
      let carry_in = to_bit (check_bit c carry_flag) in
      let binary_result = c.a + b + carry_in in
      let sum = bcd_add c.a b carry_in in
      let c1 = record (put_bit sum.1 c carry_flag) { a = u8 sum.0 } in
      let c2 = set_negative_flag (set_zero_flag c1 (u8 binary_result)) binary_result in
      put_bit (if is_65c02 c.variant then add_overflows c.a b binary_result else false) c2
        overflow_flag

  unfoldable pub adc_binary : Cpu S → ℕ → Cpu S
  adc_binary c b =
      let result = c.a + b + to_bit (check_bit c carry_flag) in
      let c1 = put_bit (ltb 0xFF result) c carry_flag in
      let c2 = put_bit (add_overflows c1.a b result) c1 overflow_flag in
      set_zn (record c2 { a = u8 result }) (u8 result)

  unfoldable pub adc : Cpu S → ℕ → Cpu S
  adc c b = if check_bit c bcd_flag then adc_decimal c b else adc_binary c b

  -- `binary_result` and `result` are `a - b - borrow`, 0x100 too high; their low byte and the
  -- digits that the masks keep are the same.
  unfoldable pub sbc_decimal : Cpu S → ℕ → Cpu S
  sbc_decimal c b =
      let borrow = 1 - to_bit (check_bit c carry_flag) in
      let binary_result = u8 (c.a + 0x100 - b - borrow) in
      let difference = bcd_sub c.a b borrow in
      let c1 = record (put_bit difference.1 c carry_flag) { a = u8 difference.0 } in
      let c2 = set_negative_flag (set_zero_flag c1 binary_result) binary_result in
      put_bit (if is_65c02 c.variant then sub_overflows c.a b binary_result else false) c2
        overflow_flag

  unfoldable pub sbc_binary : Cpu S → ℕ → Cpu S
  sbc_binary c b =
      let result = c.a + 0x100 - b - (1 - to_bit (check_bit c carry_flag)) in
      let c1 = put_bit (leb 0x100 result) c carry_flag in
      let c2 = put_bit (sub_overflows c1.a b (u8 result)) c1 overflow_flag in
      set_zn (record c2 { a = u8 result }) (u8 result)

  unfoldable pub sbc : Cpu S → ℕ → Cpu S
  sbc c b = if check_bit c bcd_flag then sbc_decimal c b else sbc_binary c b

  -- CMP, CPX and CPY, which compare a register.
  unfoldable pub compare_with : Cpu S → ℕ → ℕ → Cpu S
  compare_with c register b =
      let temp = u8 (register + 0x100 - b) in set_zn (put_bit (leb b register) c carry_flag) temp

  unfoldable pub bit_test : Cpu S → ℕ → Cpu S
  bit_test c b =
      let c1 = put_bit (masks b 0x80) c 7 in
      let c2 = put_bit (masks b 0x40) c1 6 in set_zero_flag c2 (bit_and c.a b)

  -- The end of a shift: the result goes to the accumulator or to memory, and sets Z and N.
  abbrev pub shift_result : Cpu S → Addressing → ℕ → ℕ → Cpu S
  shift_result c addressing at b =
      let acc = is_acc addressing in
      let written = cpu_write_byte c at b in
      set_zn (record c { a = if acc then b else c.a; bus = if acc then c.bus else written.bus }) b

  unfoldable pub asl : Cpu S → Addressing → ℕ → ℕ → Cpu S
  asl c addressing at b =
      shift_result (put_bit (masks b 0x80) c carry_flag) addressing at (u8 (b * 2))

  unfoldable pub lsr : Cpu S → Addressing → ℕ → ℕ → Cpu S
  lsr c addressing at b = shift_result (put_bit (masks b 1) c carry_flag) addressing at (b / 2)

  -- The old carry comes in at the other end.
  unfoldable pub rol : Cpu S → Addressing → ℕ → ℕ → Cpu S
  rol c addressing at b =
      let shifted = u8 (b * 2) in
      let b' = if check_bit c carry_flag then bit_or shifted 1 else shifted in
      shift_result (put_bit (masks b 0x80) c carry_flag) addressing at (u8 b')

  unfoldable pub ror : Cpu S → Addressing → ℕ → ℕ → Cpu S
  ror c addressing at b =
      let shifted = b / 2 in
      let b' = if check_bit c carry_flag then bit_or shifted 0x80 else shifted in
      shift_result (put_bit (masks b 1) c carry_flag) addressing at (u8 b')
