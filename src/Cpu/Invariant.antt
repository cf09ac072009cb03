-- ===== src/Cpu/Invariant.antt =====
-- A property of the bus that every read, write and tick keeps is kept by a whole run.
use v6502c.Base.{ℕ, ◌+◌, ◌≡◌, arith, Bool, false, Option, some, List, [], ◌∷◌, u16, subst, sym}
use v6502c.Inst.{Instruction, Addressing, instruction_at, addressing_at, i_adc, a_acc}
use v6502c.Cpu.State.{Cpu, ReadFn, WriteFn, TickFn, bus_read, bus_write}
use v6502c.Cpu.Load.{load}
use v6502c.Cpu.Alu.{
  adc, adc_binary, adc_decimal, sbc, sbc_binary, sbc_decimal, compare_with, bit_test, asl, lsr, rol,
  ror,
}
use v6502c.Cpu.Exec.{exec, service_interrupt, pull_status, jsr, rts, rti}
use v6502c.Cpu.Step.{
  Request, halt, irq, reset, nmi, do_reset, perform, run_instruction, handle_interrupts, cpu_step,
  call_tick, serve, serve_all, cpu_run, cpu_halt, cpu_irq, cpu_reset, cpu_nmi,
}

-- A predicate on the bus that the callbacks keep.
pub record Kept {S : Type 0} (f : Option (ReadFn S)) (g : Option (WriteFn S))
    (t : Option (TickFn S)) (P : S → Type 0) : Type 0 where
  pub read_keeps : (s : S) (at : ℕ) → P s → P (bus_read f at s).1
  pub write_keeps : (s : S) (at v : ℕ) → P s → P (bus_write g at v s)
  pub tick_keeps : (s : S) → P s → P (call_tick t s)

module _ {S : Type 0} {f : Option (ReadFn S)} {g : Option (WriteFn S)} {t : Option (TickFn S)}
    {P : S → Type 0} (kept : Kept f g t P) where
  open kept use {read_keeps, write_keeps, tick_keeps}

  -- The processor has these callbacks, and its bus satisfies the predicate.
  pub record Wired (c : Cpu S) : Type 0 where
    pub read_is : c.read ≡ f
    pub write_is : c.write ≡ g
    pub tick_is : c.tick ≡ t
    pub holds : P c.bus

  read_wired : (r : Option (ReadFn S)) (s : S) (at : ℕ) → r ≡ f → P s → P (bus_read r at s).1
  read_wired r s at e h = subst (λ r. P (bus_read r at s).1) (sym e) (read_keeps s at h)

  write_wired : (w : Option (WriteFn S)) (s : S) (at v : ℕ) → w ≡ g → P s → P (bus_write w at v s)
  write_wired w s at v e h = subst (λ w. P (bus_write w at v s)) (sym e) (write_keeps s at v h)

  adc-Wired : (c : Cpu S) (b : ℕ) → Wired c → Wired (adc c b)
  unfolding adc adc_binary adc_decimal
  adc-Wired c b v = grind (arith, read_wired, write_wired)

  sbc-Wired : (c : Cpu S) (b : ℕ) → Wired c → Wired (sbc c b)
  unfolding sbc sbc_binary sbc_decimal
  sbc-Wired c b v = grind (arith, read_wired, write_wired)

  compare_with-Wired : (c : Cpu S) (r b : ℕ) → Wired c → Wired (compare_with c r b)
  unfolding compare_with
  compare_with-Wired c r b v = grind (arith, read_wired, write_wired)

  bit_test-Wired : (c : Cpu S) (b : ℕ) → Wired c → Wired (bit_test c b)
  unfolding bit_test
  bit_test-Wired c b v = grind (arith, read_wired, write_wired)

  asl-Wired : (c : Cpu S) (m : Addressing) (at b : ℕ) → Wired c → Wired (asl c m at b)
  unfolding asl
  asl-Wired c m at b v = grind (arith, read_wired, write_wired)

  lsr-Wired : (c : Cpu S) (m : Addressing) (at b : ℕ) → Wired c → Wired (lsr c m at b)
  unfolding lsr
  lsr-Wired c m at b v = grind (arith, read_wired, write_wired)

  rol-Wired : (c : Cpu S) (m : Addressing) (at b : ℕ) → Wired c → Wired (rol c m at b)
  unfolding rol
  rol-Wired c m at b v = grind (arith, read_wired, write_wired)

  ror-Wired : (c : Cpu S) (m : Addressing) (at b : ℕ) → Wired c → Wired (ror c m at b)
  unfolding ror
  ror-Wired c m at b v = grind (arith, read_wired, write_wired)

  service_interrupt-Wired :
      (c : Cpu S) (vector : ℕ) (is_brk : Bool) → Wired c → Wired (service_interrupt c vector is_brk)
  unfolding service_interrupt
  service_interrupt-Wired c vector is_brk v = grind (arith, read_wired, write_wired)

  pull_status-Wired : (c : Cpu S) → Wired c → Wired (pull_status c)
  unfolding pull_status
  pull_status-Wired c v = grind (arith, read_wired, write_wired)

  jsr-Wired : (c : Cpu S) (at : ℕ) → Wired c → Wired (jsr c at)
  unfolding jsr
  jsr-Wired c at v = grind (arith, read_wired, write_wired)

  rts-Wired : (c : Cpu S) → Wired c → Wired (rts c)
  unfolding rts
  rts-Wired c v = grind (arith, read_wired, write_wired)

  rti-Wired : (c : Cpu S) → Wired c → Wired (rti c)
  unfolding rti
  rti-Wired c v = grind (arith, read_wired, write_wired, pull_status-Wired)

  do_reset-Wired : (c : Cpu S) → Wired c → Wired (do_reset c)
  unfolding do_reset
  do_reset-Wired c v = grind (arith, read_wired, write_wired)

  exec-Wired :
      (i : Instruction) (m : Addressing) (at b : ℕ) (c : Cpu S) → Wired c → Wired (exec i m at b c)
  unfolding exec
  exec-Wired i_adc m at b c v = adc-Wired c b v
  exec-Wired _ m at b c v = grind (
    arith, read_wired, write_wired, adc-Wired, sbc-Wired, compare_with-Wired, bit_test-Wired,
    asl-Wired, lsr-Wired, rol-Wired, ror-Wired, service_interrupt-Wired, pull_status-Wired,
    jsr-Wired, rts-Wired, rti-Wired,
  )

  load-Wired :
      (m : Addressing) (i : Instruction) (b : ℕ) (c : Cpu S) → Wired c → Wired (load m i b c).2
  unfolding load
  load-Wired a_acc i b c v = v
  load-Wired _ i b c v = grind (arith, read_wired)

  run_instruction-Wired : (c : Cpu S) → Wired c → Wired (run_instruction c)
  unfolding run_instruction perform
  run_instruction-Wired c v =
      let f = bus_read c.read c.pc c.bus in
      let c1 = record c { pc = u16 (c.pc + 1); bus = f.1 } in
      let l = load (addressing_at f.0) (instruction_at f.0) f.0 c1 in
      let w : Wired c1 = grind (arith, read_wired) in
      exec-Wired (instruction_at f.0) (addressing_at f.0) l.0 l.1 l.2
        (load-Wired (addressing_at f.0) (instruction_at f.0) f.0 c1 w)

  handle_interrupts-Wired : (c : Cpu S) → Wired c → Wired (handle_interrupts c)
  unfolding handle_interrupts
  handle_interrupts-Wired c v = ground (
    arith,
    service_interrupt-Wired (record c { nmi = false }) 0xFFFA false,
    service_interrupt-Wired (record c { irq = false }) 0xFFFE false,
  )

  -- Whatever the opcode, the pending requests and the registers are, one step of a processor keeps
  -- its callbacks, and it keeps every predicate on the bus that single reads and writes keep.
  pub cpu_step-Wired : (c : Cpu S) → Wired c → Wired (cpu_step c)
  unfolding cpu_step
  cpu_step-Wired c v = ground (
    arith,
    do_reset-Wired (record c { reset = false }),
    handle_interrupts-Wired (run_instruction c) (run_instruction-Wired c v),
  )

  serve_all-Wired : (rs : List Request) (c : Cpu S) → Wired c → Wired (serve_all rs c)
  unfolding serve_all serve cpu_halt cpu_irq cpu_reset cpu_nmi
  serve_all-Wired [] c v = v
  serve_all-Wired (halt ∷ rs) c v = serve_all-Wired rs _ (ground arith)
  serve_all-Wired (irq ∷ rs) c v = serve_all-Wired rs _ (ground arith)
  serve_all-Wired (reset ∷ rs) c v = serve_all-Wired rs _ (ground arith)
  serve_all-Wired (nmi ∷ rs) c v = serve_all-Wired rs _ (ground arith)

  tick-Wired : (c : Cpu S) → Wired c → Wired (record c { bus = call_tick c.tick c.bus })
  tick-Wired c v = record {
    read_is = v.read_is;
    write_is = v.write_is;
    tick_is = v.tick_is;
    holds = subst (λ t. P (call_tick t c.bus)) (sym v.tick_is) (tick_keeps c.bus v.holds);
  }

  -- So does the run loop, over any number of rounds and whatever requests come between them.
  pub cpu_run-Wired :
      (rounds : List (List Request)) (c c' : Cpu S)
      → Wired c
      → cpu_run rounds c ≡ some c'
      → Wired c'
  unfolding cpu_run
  cpu_run-Wired [] c c' v e = ground arith
  cpu_run-Wired (rs ∷ rounds) c c' v e =
      let next = serve_all-Wired rs _ (tick-Wired (cpu_step c) (cpu_step-Wired c v)) in
      ground (arith, cpu_run-Wired rounds _ c' next)
