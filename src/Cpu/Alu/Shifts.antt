-- ===== src/Cpu/Alu/Shifts.antt =====
-- Shifts and rotations, in the accumulator and in memory.
use v6502c.Base.{ℕ, ◌+◌, ◌*◌, ◌/◌, ◌%◌, ◌<◌, ◌≡◌, refl, arith, bit_or, Bool, true}
use v6502c.Base.{◌==◌, if◌then◌else◌, leb, u8, to_bit, all_below, all_below_sound, ==→eq}
use v6502c.Inst.{Addressing}
use v6502c.Cpu.State.{Cpu, masks, check_bit, bus_write, carry_flag, overflow_flag}
use v6502c.Cpu.Flags.{HasFlags, compare_flags-HasFlags, masks-bit}
use v6502c.Cpu.Alu.{is_acc, asl, lsr, rol, ror}
use v6502c.Cpu.Alu.Sums.{masks-sign}

rol_table : all_below 0x100 (λ b. bit_or (u8 (b * 2)) 1 == u8 (b * 2 + 1)) ≡ true
unfolding all_below
rol_table = refl

ror_table : all_below 0x100 (λ b. bit_or (b / 2) 0x80 == b / 2 + 0x80) ≡ true
unfolding all_below
ror_table = refl

rol_in : (b : ℕ) → b < 0x100 → bit_or (u8 (b * 2)) 1 ≡ u8 (b * 2 + 1)
rol_in b h = ==→eq _ _ (all_below_sound 0x100 _ b rol_table h)

ror_in : (b : ℕ) → b < 0x100 → bit_or (b / 2) 0x80 ≡ b / 2 + 0x80
ror_in b h = ==→eq _ _ (all_below_sound 0x100 _ b ror_table h)

module _ {S : Type 0} where
  -- The result `r` goes to the accumulator or to the cell `at`; `carry` is what was shifted out.
  -- Z and N describe the result, and nothing else changes.
  abbrev pub ShiftsTo : ℕ → Bool → Addressing → ℕ → Cpu S → Cpu S → Type 0
  ShiftsTo r carry m at c c' =
      HasFlags carry (check_bit c overflow_flag) (r == 0) (leb 0x80 r) c.sr c'.sr
      × (c' ≡ record c {
        a = if is_acc m then r else c.a;
        sr = c'.sr;
        bus = if is_acc m then c.bus else bus_write c.write at r c.bus;
      })

  -- ASL and ROL double the operand modulo 256, ROL with the old carry as the lowest digit; the
  -- highest digit of the operand is the new carry.
  pub shift_left_lem :
      (c : Cpu S) (m : Addressing) (at b : ℕ)
      → b < 0x100
      → ShiftsTo (u8 (b * 2)) (leb 0x80 b) m at c (asl c m at b)
        × ShiftsTo (u8 (b * 2 + to_bit (check_bit c carry_flag))) (leb 0x80 b) m at c (rol c m at b)
  unfolding asl rol
  shift_left_lem c m at b h =
      let in_bit = to_bit (check_bit c carry_flag) in
      let r = u8 (b * 2) in
      let r' = u8 (b * 2 + in_bit) in
      let e : u8 (if check_bit c carry_flag then bit_or r 1 else r) ≡ r' =
        ground (arith, rol_in b) in
      (
        ground (
          arith,
          masks-sign b,
          masks-sign r,
          compare_flags-HasFlags (masks b 0x80) (r == 0) (masks r 0x80) c.sr,
        ),
        rw e (
            ground (
              arith,
              masks-sign b,
              masks-sign r',
              compare_flags-HasFlags (masks b 0x80) (r' == 0) (masks r' 0x80) c.sr,
            )),
      )

  -- LSR and ROR halve the operand, ROR with the old carry as the highest digit; the lowest digit
  -- of the operand is the new carry.
  pub shift_right_lem :
      (c : Cpu S) (m : Addressing) (at b : ℕ)
      → b < 0x100
      → ShiftsTo (b / 2) (b % 2 == 1) m at c (lsr c m at b)
        × ShiftsTo
            (b / 2 + 0x80 * to_bit (check_bit c carry_flag))
            (b % 2 == 1)
            m
            at
            c
            (ror c m at b)
  unfolding lsr ror
  shift_right_lem c m at b h =
      let in_bit = to_bit (check_bit c carry_flag) in
      let r = b / 2 in
      let r' = b / 2 + 0x80 * in_bit in
      let e : u8 (if check_bit c carry_flag then bit_or r 0x80 else r) ≡ r' =
        ground (arith, ror_in b) in
      (
        ground (
          arith,
          masks-bit 0 b,
          masks-sign r,
          compare_flags-HasFlags (masks b 1) (r == 0) (masks r 0x80) c.sr,
        ),
        rw e (
            ground (
              arith,
              masks-bit 0 b,
              masks-sign r',
              compare_flags-HasFlags (masks b 1) (r' == 0) (masks r' 0x80) c.sr,
            )),
      )
