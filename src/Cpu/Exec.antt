-- ===== src/Cpu/Exec.antt =====
-- The second `switch` of `cpu_step`: what each instruction does, and the interrupt sequence.
use v6502c.Base.{ℕ, ◌+◌, ◌/◌, ◌^◌, bit_and, bit_or, bit_xor}
use v6502c.Base.{Bool, true, not, if◌then◌else◌, u8, u16, not8}
use v6502c.Inst.{
  Instruction, Addressing, i_adc, i_and, i_asl, i_bcc, i_bcs, i_beq, i_bit, i_bmi, i_bne, i_bpl,
  i_brk, i_bvc, i_bvs, i_clc, i_cld, i_cli, i_clv, i_cmp, i_cpx, i_cpy, i_dec, i_dex, i_dey, i_eor,
  i_inc, i_inx, i_iny, i_jmp, i_jsr, i_lda, i_ldx, i_ldy, i_lsr, i_ora, i_pha, i_php, i_pla, i_plp,
  i_rol, i_ror, i_rti, i_rts, i_sbc, i_sec, i_sed, i_sei, i_sta, i_stx, i_sty, i_tax, i_tay, i_tsx,
  i_txa, i_txs, i_tya,
}
use v6502c.Cpu.State.{
  Cpu, masks, join, set_bit, clear_bit, check_bit, put_bit, set_zn, cpu_read_address,
  cpu_write_byte, push, pop, carry_flag, zero_flag, irq_disable, bcd_flag, break_flag,
  overflow_flag, negative_flag, irq_vector,
}
use v6502c.Cpu.Alu.{adc, sbc, compare_with, bit_test, asl, lsr, rol, ror}

-- The status byte that an interrupt pushes: bit 5 set, the break bit only for BRK.
unfoldable pub pushed_status : Bool → ℕ → ℕ
pushed_status is_brk sr =
    let sr1 = bit_or sr (2 ^ 5) in
    u8 (if is_brk then bit_or sr1 (2 ^ break_flag) else bit_and sr1 (not8 (2 ^ break_flag)))

module _ {S : Type 0} where
  unfoldable pub service_interrupt : Cpu S → ℕ → Bool → Cpu S
  service_interrupt c vector is_brk =
      let c1 = push c (u8 (c.pc / 2 ^ 8)) in
      let c2 = push c1 (u8 c.pc) in
      let c3 = push c2 (pushed_status is_brk c2.sr) in
      let c4 = set_bit c3 irq_disable in
      let (target, c5) = cpu_read_address c4 vector in record c5 { pc = target }

  -- The code's `if (test) { c->pc = a; }`.
  abbrev pub branch : Bool → Cpu S → ℕ → Cpu S
  branch test c at = record c { pc = if test then at else c.pc }

  -- A pulled status byte: the break bit and bit 5 stay as they were.
  unfoldable pub pull_status : Cpu S → Cpu S
  pull_status c =
      let b = c.sr in
      let (value, c1) = pop c in
      put_bit (masks b (2 ^ 5))
        (put_bit (masks b (2 ^ break_flag)) (record c1 { sr = value }) break_flag) 5

  unfoldable pub jsr : Cpu S → ℕ → Cpu S
  jsr c at =
      let c1 = record c { pc = u16 (c.pc + 0xFFFF) } in
      let c2 = push c1 (u8 (c1.pc / 2 ^ 8)) in let c3 = push c2 (u8 c1.pc) in record c3 { pc = at }

  unfoldable pub rts : Cpu S → Cpu S
  rts c = let (lo, c1) = pop c in let (hi, c2) = pop c1 in record c2 { pc = u16 (join hi lo + 1) }

  unfoldable pub rti : Cpu S → Cpu S
  rti c =
      let c1 = pull_status c in
      let (lo, c2) = pop c1 in let (hi, c3) = pop c2 in record c3 { pc = u16 (join hi lo) }

  -- Instructions of a few lines each.
  abbrev pub and_with : Cpu S → ℕ → Cpu S
  and_with c b = let v = bit_and c.a b in set_zn (record c { a = u8 v }) (u8 v)

  abbrev pub eor_with : Cpu S → ℕ → Cpu S
  eor_with c b = let v = bit_xor c.a b in set_zn (record c { a = u8 v }) (u8 v)

  abbrev pub ora_with : Cpu S → ℕ → Cpu S
  ora_with c b = let v = bit_or c.a b in set_zn (record c { a = u8 v }) (u8 v)

  abbrev pub dec_cell : Cpu S → ℕ → ℕ → Cpu S
  dec_cell c at b = let b1 = u8 (b + 0xFF) in set_zn (cpu_write_byte c at b1) b1

  abbrev pub inc_cell : Cpu S → ℕ → ℕ → Cpu S
  inc_cell c at b = let b1 = u8 (b + 1) in set_zn (cpu_write_byte c at b1) b1

  abbrev pub dec_x : Cpu S → Cpu S
  dec_x c = let v = u8 (c.x + 0xFF) in set_zn (record c { x = v }) v

  abbrev pub dec_y : Cpu S → Cpu S
  dec_y c = let v = u8 (c.y + 0xFF) in set_zn (record c { y = v }) v

  abbrev pub inc_x : Cpu S → Cpu S
  inc_x c = let v = u8 (c.x + 1) in set_zn (record c { x = v }) v

  abbrev pub inc_y : Cpu S → Cpu S
  inc_y c = let v = u8 (c.y + 1) in set_zn (record c { y = v }) v

  abbrev pub load_a : Cpu S → ℕ → Cpu S
  load_a c b = set_zn (record c { a = b }) b

  abbrev pub load_x : Cpu S → ℕ → Cpu S
  load_x c b = set_zn (record c { x = b }) b

  abbrev pub load_y : Cpu S → ℕ → Cpu S
  load_y c b = set_zn (record c { y = b }) b

  abbrev pub push_status : Cpu S → Cpu S
  push_status c = push c (bit_or (bit_or c.sr (2 ^ break_flag)) (2 ^ 5))

  abbrev pub pull_a : Cpu S → Cpu S
  pull_a c = let (v, c1) = pop c in set_zn (record c1 { a = v }) v

  abbrev pub a_to_x : Cpu S → Cpu S
  a_to_x c = set_zn (record c { x = c.a }) c.a

  abbrev pub a_to_y : Cpu S → Cpu S
  a_to_y c = set_zn (record c { y = c.a }) c.a

  abbrev pub sp_to_x : Cpu S → Cpu S
  sp_to_x c = set_zn (record c { x = c.sp }) c.sp

  abbrev pub x_to_a : Cpu S → Cpu S
  x_to_a c = set_zn (record c { a = c.x }) c.x

  abbrev pub y_to_a : Cpu S → Cpu S
  y_to_a c = set_zn (record c { a = c.y }) c.y

  -- `at` and `b` are the locals `a` and `b`. An instruction with no case of its own does nothing.
  unfoldable pub exec : Instruction → Addressing → ℕ → ℕ → Cpu S → Cpu S
  exec i_adc m at b c = adc c b
  exec i_and m at b c = and_with c b
  exec i_asl m at b c = asl c m at b
  exec i_bcc m at b c = branch (not (check_bit c carry_flag)) c at
  exec i_bcs m at b c = branch (check_bit c carry_flag) c at
  exec i_beq m at b c = branch (check_bit c zero_flag) c at
  exec i_bit m at b c = bit_test c b
  exec i_bmi m at b c = branch (check_bit c negative_flag) c at
  exec i_bne m at b c = branch (not (check_bit c zero_flag)) c at
  exec i_bpl m at b c = branch (not (check_bit c negative_flag)) c at
  exec i_brk m at b c = service_interrupt (record c { pc = u16 (c.pc + 1) }) irq_vector true
  exec i_bvc m at b c = branch (not (check_bit c overflow_flag)) c at
  exec i_bvs m at b c = branch (check_bit c overflow_flag) c at
  exec i_clc m at b c = clear_bit c carry_flag
  exec i_cld m at b c = clear_bit c bcd_flag
  exec i_cli m at b c = clear_bit c irq_disable
  exec i_clv m at b c = clear_bit c overflow_flag
  exec i_cmp m at b c = compare_with c c.a b
  exec i_cpx m at b c = compare_with c c.x b
  exec i_cpy m at b c = compare_with c c.y b
  exec i_dec m at b c = dec_cell c at b
  exec i_dex m at b c = dec_x c
  exec i_dey m at b c = dec_y c
  exec i_eor m at b c = eor_with c b
  exec i_inc m at b c = inc_cell c at b
  exec i_inx m at b c = inc_x c
  exec i_iny m at b c = inc_y c
  exec i_jmp m at b c = record c { pc = at }
  exec i_jsr m at b c = jsr c at
  exec i_lda m at b c = load_a c b
  exec i_ldx m at b c = load_x c b
  exec i_ldy m at b c = load_y c b
  exec i_lsr m at b c = lsr c m at b
  exec i_ora m at b c = ora_with c b
  exec i_pha m at b c = push c c.a
  exec i_php m at b c = push_status c
  exec i_pla m at b c = pull_a c
  exec i_plp m at b c = pull_status c
  exec i_rol m at b c = rol c m at b
  exec i_ror m at b c = ror c m at b
  exec i_rti m at b c = rti c
  exec i_rts m at b c = rts c
  exec i_sbc m at b c = sbc c b
  exec i_sec m at b c = set_bit c carry_flag
  exec i_sed m at b c = set_bit c bcd_flag
  exec i_sei m at b c = set_bit c irq_disable
  exec i_sta m at b c = cpu_write_byte c at c.a
  exec i_stx m at b c = cpu_write_byte c at c.x
  exec i_sty m at b c = cpu_write_byte c at c.y
  exec i_tax m at b c = a_to_x c
  exec i_tay m at b c = a_to_y c
  exec i_tsx m at b c = sp_to_x c
  exec i_txa m at b c = x_to_a c
  exec i_txs m at b c = record c { sp = c.x }
  exec i_tya m at b c = y_to_a c
  exec _ m at b c = c
