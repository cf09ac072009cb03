-- ===== src/Cpu/Quirks.antt =====
-- Behaviour that differs from what the comments and the processor's manual say.
use v6502c.Base.{ℕ, ◌+◌, ◌*◌, ◌<◌, ◌≡◌, arith, some, ap}
use v6502c.Base.{bit_or_fields, ◌==◌, if◌then◌else◌, u8, Bool, true, false}
use v6502c.Inst.{instruction_at, addressing_at}
use v6502c.Cpu.State.{
  Cpu, ReadFn, WriteFn, bus_read, bus_write, cpu_read_address, cpu_write_address,
}
use v6502c.Cpu.Load.{load}
use v6502c.Cpu.Exec.{exec}
use v6502c.Cpu.Step.{perform, run_instruction}
use v6502c.Cpu.Branches.{fetch}

-- A bus of plain memory.
abbrev pub Memory : Type 0
Memory = ℕ → ℕ

abbrev pub memory_read : ReadFn Memory
memory_read at mem = (mem at, mem)

abbrev pub memory_write : WriteFn Memory
memory_write at b mem = λ p. if p == at then b else mem p

-- On plain memory, reading back a word that `cpu_write_address` wrote gives the low byte of the
-- value in the high byte, and zero in the low byte: the high byte of the value is lost, since the
-- code casts it away before it shifts, and the bytes are stored in the other order.
pub cpu_read_address-write_address :
    (c : Cpu Memory) (at value : ℕ)
    → at < 0x10000
    → let c' = record c { read = some memory_read; write = some memory_write } in
      (cpu_read_address (cpu_write_address c' at value) at).0 ≡ u8 value * 0x100
unfolding cpu_write_address bus_read bus_write
cpu_read_address-write_address c at value h = ground (arith, bit_or_fields 8 (u8 value) 0)

module _ {S : Type 0} where
  -- The opcodes of INC A and DEC A, 0x1A and 0x3A: the accumulator keeps its value, and the new
  -- value is written to address 0.
  pub run_instruction-inc_a :
      (c : Cpu S) (s : S) (down : Bool)
      → bus_read c.read c.pc c.bus ≡ (if down then 0x3A else 0x1A, s)
      → let c' = run_instruction c in
        (c'.a ≡ c.a)
        × (c'.bus ≡ bus_write c.write 0 (if down then u8 (c.a + 0xFF) else u8 (c.a + 1)) s)
  unfolding perform load exec instruction_at addressing_at
  run_instruction-inc_a c s true op =
      let e = fetch c 0x3A s op in (ap (λ (d : Cpu S). d.a) e, ap (λ (d : Cpu S). d.bus) e)
  run_instruction-inc_a c s false op =
      let e = fetch c 0x1A s op in (ap (λ (d : Cpu S). d.a) e, ap (λ (d : Cpu S). d.bus) e)
