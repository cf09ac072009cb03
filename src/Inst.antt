-- ===== src/Inst.antt =====
-- src/inst.h: the instructions, the addressing modes, and the two tables of 256 entries that
-- decode an opcode.
pub mod Matrix
mod Tests
use v6502c.Base.{ℕ, Bool, true, false, List, [], ◌∷◌, get_or}

pub data Instruction : Type 0 where
  i_adc i_and i_asl i_bcc i_bcs i_beq i_bit i_bmi i_bne i_bpl i_brk i_bvc i_bvs i_clc i_cld :
      Instruction
  i_cli i_clv i_cmp i_cpx i_cpy i_dec i_dex i_dey i_eor i_inc i_inx i_iny i_jmp i_jsr i_lda :
      Instruction
  i_ldx i_ldy i_lsr i_nop i_ora i_pha i_php i_pla i_plp i_rol i_ror i_rti i_rts i_sbc i_sec :
      Instruction
  i_sed i_sei i_sta i_stx i_sty i_tax i_tay i_tsx i_txa i_txs i_tya i_bbr0 i_bbr1 i_bbr2 i_bbr3 :
      Instruction
  i_bbr4 i_bbr5 i_bbr6 i_bbr7 i_bbs0 i_bbs1 i_bbs2 i_bbs3 i_bbs4 i_bbs5 i_bbs6 i_bbs7 i_bra :
      Instruction
  i_phx i_phy i_plx i_ply i_rmb0 i_rmb1 i_rmb2 i_rmb3 i_rmb4 i_rmb5 i_rmb6 i_rmb7 i_smb0 i_smb1 :
      Instruction
  i_smb2 i_smb3 i_smb4 i_smb5 i_smb6 i_smb7 i_stp i_stz i_trb i_tsb i_wai : Instruction

pub data Addressing : Type 0 where
  a_acc a_abs a_abx a_aby a_imm a_imp a_ind a_inx a_iny a_rel a_zpg a_zpx a_zpy a_zpi a_abi :
      Addressing

unfoldable pub instructions : List Instruction
instructions =
    i_brk ∷ i_ora ∷ i_nop ∷ i_nop ∷ i_tsb ∷ i_ora ∷ i_asl ∷ i_rmb0 ∷ i_php ∷ i_ora ∷ i_asl ∷ i_nop
    ∷ i_tsb ∷ i_ora ∷ i_asl ∷ i_bbr0 ∷ i_bpl ∷ i_ora ∷ i_ora ∷ i_nop ∷ i_trb ∷ i_ora ∷ i_asl
    ∷ i_rmb1 ∷ i_clc ∷ i_ora ∷ i_inc ∷ i_trb ∷ i_trb ∷ i_ora ∷ i_asl ∷ i_bbr1 ∷ i_jsr ∷ i_and
    ∷ i_nop ∷ i_nop ∷ i_bit ∷ i_and ∷ i_rol ∷ i_rmb2 ∷ i_plp ∷ i_and ∷ i_rol ∷ i_nop ∷ i_bit ∷ i_and
    ∷ i_rol ∷ i_bbr2 ∷ i_bmi ∷ i_and ∷ i_and ∷ i_nop ∷ i_bit ∷ i_and ∷ i_rol ∷ i_rmb3 ∷ i_sec
    ∷ i_and ∷ i_dec ∷ i_nop ∷ i_bit ∷ i_and ∷ i_rol ∷ i_bbr3 ∷ i_rti ∷ i_eor ∷ i_nop ∷ i_nop ∷ i_nop
    ∷ i_eor ∷ i_lsr ∷ i_rmb4 ∷ i_pha ∷ i_eor ∷ i_lsr ∷ i_nop ∷ i_jmp ∷ i_eor ∷ i_lsr ∷ i_bbr4
    ∷ i_bvc ∷ i_eor ∷ i_eor ∷ i_nop ∷ i_nop ∷ i_eor ∷ i_lsr ∷ i_rmb5 ∷ i_cli ∷ i_eor ∷ i_phy ∷ i_nop
    ∷ i_nop ∷ i_eor ∷ i_lsr ∷ i_bbr5 ∷ i_rts ∷ i_adc ∷ i_nop ∷ i_nop ∷ i_stz ∷ i_adc ∷ i_ror
    ∷ i_rmb6 ∷ i_pla ∷ i_adc ∷ i_ror ∷ i_nop ∷ i_jmp ∷ i_adc ∷ i_ror ∷ i_bbr6 ∷ i_bvs ∷ i_adc
    ∷ i_adc ∷ i_nop ∷ i_stz ∷ i_adc ∷ i_ror ∷ i_rmb7 ∷ i_sei ∷ i_adc ∷ i_ply ∷ i_nop ∷ i_jmp ∷ i_adc
    ∷ i_ror ∷ i_bbr7 ∷ i_bra ∷ i_sta ∷ i_nop ∷ i_nop ∷ i_sty ∷ i_sta ∷ i_stx ∷ i_smb0 ∷ i_dey
    ∷ i_bit ∷ i_txa ∷ i_nop ∷ i_sty ∷ i_sta ∷ i_stx ∷ i_bbs0 ∷ i_bcc ∷ i_sta ∷ i_sta ∷ i_nop ∷ i_sty
    ∷ i_sta ∷ i_stx ∷ i_smb1 ∷ i_tya ∷ i_sta ∷ i_txs ∷ i_nop ∷ i_stz ∷ i_sta ∷ i_stz ∷ i_bbs1
    ∷ i_ldy ∷ i_lda ∷ i_ldx ∷ i_nop ∷ i_ldy ∷ i_lda ∷ i_ldx ∷ i_smb2 ∷ i_tay ∷ i_lda ∷ i_tax ∷ i_nop
    ∷ i_ldy ∷ i_lda ∷ i_ldx ∷ i_bbs2 ∷ i_bcs ∷ i_lda ∷ i_lda ∷ i_nop ∷ i_ldy ∷ i_lda ∷ i_ldx
    ∷ i_smb3 ∷ i_clv ∷ i_lda ∷ i_tsx ∷ i_nop ∷ i_ldy ∷ i_lda ∷ i_ldx ∷ i_bbs3 ∷ i_cpy ∷ i_cmp
    ∷ i_nop ∷ i_nop ∷ i_cpy ∷ i_cmp ∷ i_dec ∷ i_smb4 ∷ i_iny ∷ i_cmp ∷ i_dex ∷ i_wai ∷ i_cpy ∷ i_cmp
    ∷ i_dec ∷ i_bbs4 ∷ i_bne ∷ i_cmp ∷ i_cmp ∷ i_nop ∷ i_nop ∷ i_cmp ∷ i_dec ∷ i_smb5 ∷ i_cld
    ∷ i_cmp ∷ i_phx ∷ i_stp ∷ i_nop ∷ i_cmp ∷ i_dec ∷ i_bbs5 ∷ i_cpx ∷ i_sbc ∷ i_nop ∷ i_nop ∷ i_cpx
    ∷ i_sbc ∷ i_inc ∷ i_smb6 ∷ i_inx ∷ i_sbc ∷ i_nop ∷ i_nop ∷ i_cpx ∷ i_sbc ∷ i_inc ∷ i_bbs6
    ∷ i_beq ∷ i_sbc ∷ i_sbc ∷ i_nop ∷ i_nop ∷ i_sbc ∷ i_inc ∷ i_smb7 ∷ i_sed ∷ i_sbc ∷ i_plx ∷ i_nop
    ∷ i_nop ∷ i_sbc ∷ i_inc ∷ i_bbs7 ∷ []

unfoldable pub addressings : List Addressing
addressings =
    a_imp ∷ a_inx ∷ a_imp ∷ a_imp ∷ a_zpg ∷ a_zpg ∷ a_zpg ∷ a_zpg ∷ a_imp ∷ a_imm ∷ a_acc ∷ a_imp
    ∷ a_abs ∷ a_abs ∷ a_abs ∷ a_rel ∷ a_rel ∷ a_iny ∷ a_zpi ∷ a_imp ∷ a_zpg ∷ a_zpx ∷ a_zpx ∷ a_zpg
    ∷ a_imp ∷ a_aby ∷ a_acc ∷ a_imp ∷ a_abs ∷ a_abx ∷ a_abx ∷ a_rel ∷ a_abs ∷ a_inx ∷ a_imp ∷ a_imp
    ∷ a_zpg ∷ a_zpg ∷ a_zpg ∷ a_zpg ∷ a_imp ∷ a_imm ∷ a_acc ∷ a_imp ∷ a_abs ∷ a_abs ∷ a_abs ∷ a_rel
    ∷ a_rel ∷ a_iny ∷ a_zpi ∷ a_imp ∷ a_zpx ∷ a_zpx ∷ a_zpx ∷ a_zpg ∷ a_imp ∷ a_aby ∷ a_acc ∷ a_imp
    ∷ a_abx ∷ a_abx ∷ a_abx ∷ a_rel ∷ a_imp ∷ a_inx ∷ a_imp ∷ a_imp ∷ a_imp ∷ a_zpg ∷ a_zpg ∷ a_zpg
    ∷ a_imp ∷ a_imm ∷ a_acc ∷ a_imp ∷ a_abs ∷ a_abs ∷ a_abs ∷ a_rel ∷ a_rel ∷ a_iny ∷ a_zpi ∷ a_imp
    ∷ a_imp ∷ a_zpx ∷ a_zpx ∷ a_zpg ∷ a_imp ∷ a_aby ∷ a_imp ∷ a_imp ∷ a_imp ∷ a_abx ∷ a_abx ∷ a_rel
    ∷ a_imp ∷ a_inx ∷ a_imp ∷ a_imp ∷ a_zpg ∷ a_zpg ∷ a_zpg ∷ a_zpg ∷ a_imp ∷ a_imm ∷ a_acc ∷ a_imp
    ∷ a_ind ∷ a_abs ∷ a_abs ∷ a_rel ∷ a_rel ∷ a_iny ∷ a_zpi ∷ a_imp ∷ a_zpx ∷ a_zpx ∷ a_zpx ∷ a_zpg
    ∷ a_imp ∷ a_aby ∷ a_imp ∷ a_imp ∷ a_abx ∷ a_abx ∷ a_abx ∷ a_rel ∷ a_rel ∷ a_inx ∷ a_imp ∷ a_imp
    ∷ a_zpg ∷ a_zpg ∷ a_zpg ∷ a_zpg ∷ a_imp ∷ a_imm ∷ a_imp ∷ a_imp ∷ a_abs ∷ a_abs ∷ a_abs ∷ a_rel
    ∷ a_rel ∷ a_iny ∷ a_zpi ∷ a_imp ∷ a_zpx ∷ a_zpx ∷ a_zpy ∷ a_zpg ∷ a_imp ∷ a_aby ∷ a_imp ∷ a_imp
    ∷ a_abs ∷ a_abx ∷ a_abx ∷ a_rel ∷ a_imm ∷ a_inx ∷ a_imm ∷ a_imp ∷ a_zpg ∷ a_zpg ∷ a_zpg ∷ a_zpg
    ∷ a_imp ∷ a_imm ∷ a_imp ∷ a_imp ∷ a_abs ∷ a_abs ∷ a_abs ∷ a_rel ∷ a_rel ∷ a_iny ∷ a_zpi ∷ a_imp
    ∷ a_zpx ∷ a_zpx ∷ a_zpy ∷ a_zpg ∷ a_imp ∷ a_aby ∷ a_imp ∷ a_imp ∷ a_abx ∷ a_abx ∷ a_abx ∷ a_rel
    ∷ a_imm ∷ a_inx ∷ a_imp ∷ a_imp ∷ a_zpg ∷ a_zpg ∷ a_zpg ∷ a_zpg ∷ a_imp ∷ a_imm ∷ a_imp ∷ a_imp
    ∷ a_abs ∷ a_abs ∷ a_abs ∷ a_rel ∷ a_rel ∷ a_iny ∷ a_zpi ∷ a_imp ∷ a_imp ∷ a_zpx ∷ a_zpx ∷ a_zpg
    ∷ a_imp ∷ a_aby ∷ a_imp ∷ a_imp ∷ a_imp ∷ a_abx ∷ a_abx ∷ a_rel ∷ a_imm ∷ a_inx ∷ a_imp ∷ a_imp
    ∷ a_zpg ∷ a_zpg ∷ a_zpg ∷ a_zpg ∷ a_imp ∷ a_imm ∷ a_imp ∷ a_imp ∷ a_abs ∷ a_abs ∷ a_abs ∷ a_rel
    ∷ a_rel ∷ a_iny ∷ a_zpi ∷ a_imp ∷ a_imp ∷ a_zpx ∷ a_zpx ∷ a_zpg ∷ a_imp ∷ a_aby ∷ a_imp ∷ a_imp
    ∷ a_imp ∷ a_abx ∷ a_abx ∷ a_rel ∷ []

-- `instructions[b]` and `addressings[b]`; `b` is a byte, so no index is out of range.
unfoldable pub instruction_at : ℕ → Instruction
unfolding instructions
instruction_at b = get_or instructions b i_nop

unfoldable pub addressing_at : ℕ → Addressing
unfolding addressings
addressing_at b = get_or addressings b a_imp

-- `_is_store` of src/v6502.c
unfoldable pub is_store : Instruction → Bool
is_store i_sta = true
is_store i_stx = true
is_store i_sty = true
is_store _ = false
