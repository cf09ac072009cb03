-- ===== src/Inst/Tests.antt =====
-- Two opcodes of the matrix: 0xBD, LDA absolute indexed, and 0xBE, LDX absolute indexed.
use v6502c.Base.{arith}
use v6502c.Inst.Matrix.{DecodesMemory, memory_opcodes}

memory_opcodes_example : DecodesMemory 5 3
memory_opcodes_example = memory_opcodes 5 3 (omega arith) (omega arith)
