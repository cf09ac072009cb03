-- ===== src/Cpu/Branches.antt =====
-- The eight conditional branches, through fetch, decode and execution.
use v6502c.Base.{below_eight}
use v6502c.Base.{ℕ, zero, suc, ◌+◌, ◌*◌, ◌/◌, ◌%◌, ◌<◌, ◌≡◌, refl, arith}
use v6502c.Base.{Bool, false, not, ◌==◌, if◌then◌else◌, u16, ap, ◌∙◌}
use v6502c.Inst.{instruction_at, addressing_at}
use v6502c.Cpu.State.{Cpu, check_bit, bus_read}
use v6502c.Cpu.Load.{load, branch_target}
use v6502c.Cpu.Exec.{exec}
use v6502c.Cpu.Alu.Sums.{signed}
use v6502c.Cpu.Step.{do_reset, perform, run_instruction, handle_interrupts, cpu_step}

-- Branch `k` has the opcode `0x10 + 0x20 * k`. It looks at the status bit N, V, C or Z, by `k / 2`,
-- and is taken if that bit is `k % 2`.
abbrev pub branch_bit : ℕ → ℕ
branch_bit zero = 7
branch_bit (suc zero) = 6
branch_bit (suc (suc zero)) = 0
branch_bit (suc (suc (suc n))) = 1

abbrev pub taken : {S : Type 0} → ℕ → Cpu S → Bool
taken k c =
    if k % 2 == 1 then check_bit c (branch_bit (k / 2)) else not (check_bit c (branch_bit (k / 2)))

branch_target_lem :
    (pc offset : ℕ) → offset < 0x100 → branch_target pc offset ≡ u16 (pc + 0xFF80 + signed offset)
unfolding branch_target
branch_target_lem pc offset h = ground arith

module _ {S : Type 0} where
  -- The opcode is known; the operand is still to be fetched.
  branch_exec :
      (k : ℕ)
      → k < 8
      → (c : Cpu S)
      → perform (0x10 + 0x20 * k) c ≡ record c {
        pc =
            if taken k c
            then branch_target (u16 (c.pc + 1)) (bus_read c.read c.pc c.bus).0
            else u16 (c.pc + 1);
        bus = (bus_read c.read c.pc c.bus).1;
      }
  unfolding perform load exec instruction_at addressing_at
  branch_exec =
      below_eight _ (λ c. refl) (λ c. refl) (λ c. refl) (λ c. refl) (λ c. refl) (λ c. refl)
        (λ c. refl) (λ c. refl)

  -- An instruction whose opcode is known.
  pub fetch :
      (c : Cpu S) (b : ℕ) (s : S)
      → bus_read c.read c.pc c.bus ≡ (b, s)
      → run_instruction c ≡ perform b (record c { pc = u16 (c.pc + 1); bus = s })
  unfolding run_instruction
  fetch c b s op = ap (λ (r : ℕ × S). perform r.0 (record c { pc = u16 (c.pc + 1); bus = r.1 })) op

  handle_interrupts_quiet : (d : Cpu S) → d.nmi ≡ false → d.irq ≡ false → handle_interrupts d ≡ d
  unfolding handle_interrupts
  handle_interrupts_quiet d n i = ground arith

  -- Where nothing is pending, a step is its instruction.
  pub cpu_step_quiet :
      (c d : Cpu S)
      → run_instruction c ≡ d
      → c.reset ≡ false
      → d.nmi ≡ false
      → d.irq ≡ false
      → cpu_step c ≡ d
  unfolding cpu_step
  cpu_step_quiet c d e r n i =
      ap
        (λ t.
          if t
          then do_reset (record c { reset = false })
          else handle_interrupts (run_instruction c))
        r
      ∙ ap handle_interrupts e
      ∙ handle_interrupts_quiet d n i

  -- A step at a conditional branch, with nothing pending: the target is the address behind the
  -- branch plus the signed offset (`signed` is 0x80 too high), modulo 2 ^ 16, if the branch is
  -- taken, and the address behind it if not. The two bytes are read, and no register but the
  -- program counter changes.
  pub cpu_step-branch :
      (k offset : ℕ) (c : Cpu S) (s s' : S)
      → k < 8
      → offset < 0x100
      → c.reset ≡ false
      → c.nmi ≡ false
      → c.irq ≡ false
      → bus_read c.read c.pc c.bus ≡ (0x10 + 0x20 * k, s)
      → bus_read c.read (u16 (c.pc + 1)) s ≡ (offset, s')
      → cpu_step c ≡ record c {
        pc = if taken k c then u16 (c.pc + 2 + 0xFF80 + signed offset) else u16 (c.pc + 2);
        bus = s';
      }
  unfolding cpu_step run_instruction handle_interrupts
  cpu_step-branch k offset c s s' hk ho no_reset no_nmi no_irq op arg =
      cpu_step_quiet c _ (fetch c (0x10 + 0x20 * k) s op ∙ branch_exec k hk c1 ∙ read_offset)
        no_reset no_nmi no_irq
    where
      c1 : Cpu S
      c1 = record c { pc = u16 (c.pc + 1); bus = s }

      target : ℕ → ℕ
      target o =
          if taken k c then branch_target (u16 (u16 (c.pc + 1) + 1)) o else u16 (u16 (c.pc + 1) + 1)

      target_lem :
          target offset
          ≡ (if taken k c then u16 (c.pc + 2 + 0xFF80 + signed offset) else u16 (c.pc + 2))
      target_lem = ground (arith, branch_target_lem (u16 (u16 (c.pc + 1) + 1)) offset)

      read_offset :
          record c1 {
            pc = target (bus_read c.read (u16 (c.pc + 1)) s).0;
            bus = (bus_read c.read (u16 (c.pc + 1)) s).1;
          }
          ≡ record c {
            pc = if taken k c then u16 (c.pc + 2 + 0xFF80 + signed offset) else u16 (c.pc + 2);
            bus = s';
          }
      read_offset =
          ap (λ (r : ℕ × S). record c { pc = target r.0; bus = r.1 }) arg
          ∙ ap (λ p. record c { pc = p; bus = s' }) target_lem
