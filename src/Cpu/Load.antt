-- ===== src/Cpu/Load.antt =====
-- The first `switch` of `cpu_step`: the operand that each addressing mode fetches.
use v6502c.Base.{ℕ, ◌+◌, if◌then◌else◌, ltb, u8, u16}
use v6502c.Inst.{Instruction, Addressing, is_store}
use v6502c.Inst.{
  a_acc, a_abs, a_abx, a_aby, a_imm, a_imp, a_ind, a_inx, a_iny, a_rel, a_zpg, a_zpx, a_zpy, a_zpi,
  a_abi,
}
use v6502c.Cpu.State.{Cpu, join, cpu_read_byte, cpu_read_address, cpu_next_byte, cpu_next_address}

-- `pc + (signed char) offset`, as an address
unfoldable pub branch_target : ℕ → ℕ → ℕ
branch_target pc offset = if ltb offset 0x80 then u16 (pc + offset) else u16 (pc + offset + 0xFF00)

module _ {S : Type 0} where
  -- The locals `a` and `b` and the processor after the switch. A store does not read its operand,
  -- and keeps in `b` what was there, the opcode.
  abbrev pub operand : Instruction → ℕ → ℕ → Cpu S → ℕ × ℕ × Cpu S
  operand i b at c =
      let r = cpu_read_byte c at in
      (at, if is_store i then b else r.0, if is_store i then c else r.1)

  unfoldable pub load : Addressing → Instruction → ℕ → Cpu S → ℕ × ℕ × Cpu S
  load a_acc i b c = (0, c.a, c)
  load a_abs i b c = let (at, c1) = cpu_next_address c in operand i b at c1
  load a_abx i b c = let (at, c1) = cpu_next_address c in operand i b (u16 (at + c1.x)) c1
  load a_aby i b c = let (at, c1) = cpu_next_address c in operand i b (u16 (at + c1.y)) c1
  load a_imm i b c = let (v, c1) = cpu_next_byte c in (0, v, c1)
  load a_imp i b c = (0, b, c)
  load a_ind i b c =
      let (at, c1) = cpu_next_address c in
      let (target, c2) = cpu_read_address c1 at in (target, b, c2)
  load a_inx i b c =
      let (v, c1) = cpu_next_byte c in
      let at = u8 (v + c1.x) in
      let (lo, c2) = cpu_read_byte c1 at in
      let (hi, c3) = cpu_read_byte c2 (u8 (at + 1)) in operand i b (u16 (join hi lo)) c3
  load a_iny i b c =
      let (at, c1) = cpu_next_byte c in
      let (lo, c2) = cpu_read_byte c1 at in
      let (hi, c3) = cpu_read_byte c2 (u8 (at + 1)) in operand i b (u16 (join hi lo + c3.y)) c3
  load a_rel i b c = let (offset, c1) = cpu_next_byte c in (branch_target c1.pc offset, b, c1)
  load a_zpg i b c = let (at, c1) = cpu_next_byte c in operand i b at c1
  load a_zpx i b c = let (v, c1) = cpu_next_byte c in operand i b (u8 (v + c1.x)) c1
  load a_zpy i b c = let (v, c1) = cpu_next_byte c in operand i b (u8 (v + c1.y)) c1
  load a_zpi i b c =
      let (v, c1) = cpu_next_byte c in let (at, c2) = cpu_read_address c1 v in operand i b at c2
  load a_abi i b c =
      let (at, c1) = cpu_next_address c in
      let (target, c2) = cpu_read_address c1 (u16 (at + c1.x)) in (target, b, c2)
