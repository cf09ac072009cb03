-- ===== src/Cpu/Tests.antt =====
-- Runs of the processor at concrete states, on a bus of plain memory.
use v6502c.Base.{ℕ, ◌+◌, ◌*◌, ◌≡◌, refl, arith, true, false, none, some}
use v6502c.Base.{if◌then◌else◌, ◌==◌, [], ◌∷◌, ◌++◌, to_bit}
use v6502c.Cpu.State.{
  Cpu, cpu_65c02, check_bit, check_flag, set_flag, clear_flag, put_flag, carry_flag, bus_read,
  bus_write,
}
use v6502c.Inst.{i_lda, a_iny}
use v6502c.Cpu.Load.{load}
use v6502c.Cpu.Addresses.{Fetched, load_lem}
use v6502c.Base.{u8, u16}
use v6502c.Cpu.Alu.{adc, adc_binary, adc_decimal, sbc, sbc_binary, add_overflows, bcd_add}
use v6502c.Cpu.Alu.Sums.{adc_lem}
use v6502c.Cpu.Alu.Decimal.{decimal, adc_decimal_lem}
use v6502c.Cpu.Branches.{cpu_step-branch}
use v6502c.Cpu.Step.{halt, nmi, cpu_step, cpu_run, run_instruction}
use v6502c.Cpu.Run.{cpu_run-halted, cpu_run_halts}
use v6502c.Cpu.Quirks.{Memory, memory_read, memory_write, run_instruction-inc_a}

-- BEQ to itself at 0x200, INC A at 0x300.
abbrev program : Memory
program p = if p == 0x200 then 0xF0 else if p == 0x201 then 0xFE else if p == 0x300 then 0x1A else 0

abbrev at_state : ℕ → ℕ → ℕ → Cpu Memory
at_state pc a sr = record {
  pc = pc;
  a = a;
  x = 0;
  y = 0;
  sr = sr;
  sp = 0xFD;
  halted = false;
  reset = false;
  irq = false;
  nmi = false;
  variant = cpu_65c02;
  read = some memory_read;
  write = some memory_write;
  tick = none;
  bus = program;
}

-- 0x50 + 0x50 overflows a signed byte.
adc_test : (adc (at_state 0 0x50 0) 0x50).sr ≡ 0xC0
unfolding adc adc_binary add_overflows check_flag set_flag clear_flag put_flag
adc_test = refl

adc_decimal_test : (adc (at_state 0 0x58 0x09) 0x46).a ≡ 0x05
unfolding adc adc_decimal bcd_add check_flag
adc_decimal_test = refl

sbc_test : (sbc (at_state 0 0x10 0x01) 0x20).a ≡ 0xF0
unfolding sbc sbc_binary check_flag
sbc_test = refl

adc_lem_example :
    let c' = adc (at_state 0 0xF0 0x01) 0x20 in
    c'.a + 0x100 * to_bit (check_bit c' carry_flag)
    ≡ 0xF0 + 0x20 + to_bit (check_bit (at_state 0 0xF0 0x01) carry_flag)
unfolding check_flag
adc_lem_example = (adc_lem (at_state 0 0xF0 0x01) 0x20 (omega arith) (omega arith) refl).0

adc_decimal_lem_example :
    let c' = adc (at_state 0 0x58 0x09) 0x46 in
    decimal c'.a + 100 * to_bit (check_bit c' carry_flag)
    ≡ 58 + 46 + to_bit (check_bit (at_state 0 0x58 0x09) carry_flag)
unfolding check_flag
adc_decimal_lem_example =
    (adc_decimal_lem (at_state 0 0x58 0x09) 0x46 (omega arith, omega arith)
      (omega arith, omega arith) refl).0

-- The branch to itself is taken.
cpu_step-branch_example :
    cpu_step (at_state 0x200 0 0x02) ≡ record (at_state 0x200 0 0x02) { pc = 0x200 }
unfolding check_flag bus_read
cpu_step-branch_example =
    cpu_step-branch 7 0xFE (at_state 0x200 0 0x02) program program (omega arith) (omega arith) refl
      refl refl refl refl

cpu_run-halted_example :
    cpu_run ([] ∷ []) (record (at_state 0x200 0 0) { halted = true })
    ≡ some (record (at_state 0x200 0 0) { halted = true })
cpu_run-halted_example =
    cpu_run-halted ([] ∷ []) (record (at_state 0x200 0 0) { halted = true }) refl

cpu_run_halts_example :
    (c' : Cpu Memory) × (cpu_run (([] ∷ []) ++ (nmi ∷ halt ∷ []) ∷ []) (at_state 0x200 0 0)
      ≡ some c')
    × (c'.halted ≡ true)
cpu_run_halts_example = cpu_run_halts ([] ∷ []) (nmi ∷ halt ∷ []) [] (at_state 0x200 0 0) refl

run_instruction-inc_a_example :
    let c' = run_instruction (at_state 0x300 0x41 0) in
    (c'.a ≡ 0x41) × (c'.bus ≡ bus_write (some memory_write) 0 0x42 program)
unfolding bus_read
run_instruction-inc_a_example = run_instruction-inc_a (at_state 0x300 0x41 0) program false refl

abbrev peek_program : ℕ → ℕ
peek_program p = u8 (program (u16 p))

-- LDA (0xFE), Y with the operand at 0x201; the pointer stands at 0xFE and 0xFF.
load_lem_example :
    Fetched peek_program
      (λ p. omega arith)
      a_iny
      i_lda
      0xB1
      (at_state 0x201 0 0)
      (load a_iny i_lda 0xB1 (at_state 0x201 0 0))
unfolding bus_read
load_lem_example =
    load_lem peek_program (λ p. omega arith) a_iny i_lda 0xB1 (at_state 0x201 0 0) (λ p. refl) refl
      refl
