-- ===== src/Inst/Matrix.antt =====
-- The opcode tables against the layout of the opcode matrix in the processor's manual.
use v6502c.Base.{ℕ, zero, suc, ◌+◌, ◌*◌, ◌<◌, ◌≡◌, refl, arith, Bool, ◌&&◌, ◌||◌, below_eight}
use v6502c.Base.{[], ◌∷◌, get_or, ◌==◌, if◌then◌else◌}
use v6502c.Inst.{
  Instruction, Addressing, instruction_at, addressing_at, i_ora, i_and, i_eor, i_adc, i_sta, i_lda,
  i_cmp, i_sbc, i_bit, i_nop, i_asl, i_rol, i_lsr, i_ror, i_dec, i_inc, i_stx, i_ldx, i_stz, a_inx,
  a_zpg, a_imm, a_abs, a_iny, a_zpx, a_aby, a_abx, a_imp, a_zpy,
}

-- The accumulator instructions by the three highest digits of the opcode, and their addressing
-- modes by the next three. The two lowest digits are 01.
abbrev pub accumulator_row : ℕ → Instruction
accumulator_row a =
    get_or (i_ora ∷ i_and ∷ i_eor ∷ i_adc ∷ i_sta ∷ i_lda ∷ i_cmp ∷ i_sbc ∷ []) a i_nop

abbrev pub accumulator_column : ℕ → Addressing
accumulator_column b =
    get_or (a_inx ∷ a_zpg ∷ a_imm ∷ a_abs ∷ a_iny ∷ a_zpx ∷ a_aby ∷ a_abx ∷ []) b a_imp

-- The decoding of one accumulator opcode. In the place of STA immediate there is BIT immediate.
abbrev pub DecodesAccumulator : ℕ → ℕ → Type 0
DecodesAccumulator a b =
    (instruction_at (a * 0x20 + b * 4 + 1)
      ≡ (if a == 4 && b == 2 then i_bit else accumulator_row a))
    × (addressing_at (a * 0x20 + b * 4 + 1) ≡ accumulator_column b)

-- The 64 opcodes with the lowest digits 01 are the eight accumulator instructions, each in the
-- same eight addressing modes, but for BIT immediate in the place of STA immediate.
pub accumulator_opcodes : (a b : ℕ) → a < 8 → b < 8 → DecodesAccumulator a b
unfolding instruction_at addressing_at
accumulator_opcodes a b ha hb =
    below_eight (λ a. (b : ℕ) → b < 8 → DecodesAccumulator a b)
      (below_eight (DecodesAccumulator 0) (refl, refl) (refl, refl) (refl, refl) (refl, refl)
        (refl, refl) (refl, refl) (refl, refl) (refl, refl))
      (below_eight (DecodesAccumulator 1) (refl, refl) (refl, refl) (refl, refl) (refl, refl)
        (refl, refl) (refl, refl) (refl, refl) (refl, refl))
      (below_eight (DecodesAccumulator 2) (refl, refl) (refl, refl) (refl, refl) (refl, refl)
        (refl, refl) (refl, refl) (refl, refl) (refl, refl))
      (below_eight (DecodesAccumulator 3) (refl, refl) (refl, refl) (refl, refl) (refl, refl)
        (refl, refl) (refl, refl) (refl, refl) (refl, refl))
      (below_eight (DecodesAccumulator 4) (refl, refl) (refl, refl) (refl, refl) (refl, refl)
        (refl, refl) (refl, refl) (refl, refl) (refl, refl))
      (below_eight (DecodesAccumulator 5) (refl, refl) (refl, refl) (refl, refl) (refl, refl)
        (refl, refl) (refl, refl) (refl, refl) (refl, refl))
      (below_eight (DecodesAccumulator 6) (refl, refl) (refl, refl) (refl, refl) (refl, refl)
        (refl, refl) (refl, refl) (refl, refl) (refl, refl))
      (below_eight (DecodesAccumulator 7) (refl, refl) (refl, refl) (refl, refl) (refl, refl)
        (refl, refl) (refl, refl) (refl, refl) (refl, refl))
      a ha b hb

below_four : (P : ℕ → Type 0) → P 0 → P 1 → P 2 → P 3 → (k : ℕ) → k < 4 → P k
below_four P p q r s zero h = p
below_four P p q r s (suc zero) h = q
below_four P p q r s (suc (suc zero)) h = r
below_four P p q r s (suc (suc (suc zero))) h = s
below_four P p q r s (suc (suc (suc (suc k)))) h = absurd (omega arith)

-- The instructions on memory, and their addressing modes by the two highest of the next three
-- digits. The three lowest digits are 110.
abbrev pub memory_row : ℕ → Instruction
memory_row a = get_or (i_asl ∷ i_rol ∷ i_lsr ∷ i_ror ∷ i_stx ∷ i_ldx ∷ i_dec ∷ i_inc ∷ []) a i_nop

abbrev pub memory_column : Bool → ℕ → Addressing
memory_column by_y b =
    if by_y
    then get_or (a_zpg ∷ a_abs ∷ a_zpy ∷ a_abx ∷ []) b a_imp
    else get_or (a_zpg ∷ a_abs ∷ a_zpx ∷ a_abx ∷ []) b a_imp

-- The decoding of one opcode on memory. In the place of STX absolute indexed there is STZ.
abbrev pub DecodesMemory : ℕ → ℕ → Type 0
DecodesMemory a b =
    (instruction_at (a * 0x20 + b * 8 + 6) ≡ (if a == 4 && b == 3 then i_stz else memory_row a))
    × (addressing_at (a * 0x20 + b * 8 + 6) ≡ memory_column (a == 4 || a == 5) b)

-- The 32 opcodes with the lowest digits 110 are the four shifts, STX, LDX, DEC and INC, each in
-- zero page and absolute, plain and indexed, but for STZ in the place of STX absolute indexed. The
-- index is X, but Y for STX and LDX in the zero page; LDX absolute indexed, 0xBE, has X too, where
-- the processor's manual has Y.
pub memory_opcodes : (a b : ℕ) → a < 8 → b < 4 → DecodesMemory a b
unfolding instruction_at addressing_at
memory_opcodes a b ha hb =
    below_eight (λ a. (b : ℕ) → b < 4 → DecodesMemory a b)
      (below_four (DecodesMemory 0) (refl, refl) (refl, refl) (refl, refl) (refl, refl))
      (below_four (DecodesMemory 1) (refl, refl) (refl, refl) (refl, refl) (refl, refl))
      (below_four (DecodesMemory 2) (refl, refl) (refl, refl) (refl, refl) (refl, refl))
      (below_four (DecodesMemory 3) (refl, refl) (refl, refl) (refl, refl) (refl, refl))
      (below_four (DecodesMemory 4) (refl, refl) (refl, refl) (refl, refl) (refl, refl))
      (below_four (DecodesMemory 5) (refl, refl) (refl, refl) (refl, refl) (refl, refl))
      (below_four (DecodesMemory 6) (refl, refl) (refl, refl) (refl, refl) (refl, refl))
      (below_four (DecodesMemory 7) (refl, refl) (refl, refl) (refl, refl) (refl, refl)) a ha b hb
