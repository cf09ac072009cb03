-- ===== src/Cpu/Step.antt =====
-- The processor's entry points: reset, one step, the run loop and the requests from outside.
use v6502c.Base.{ℕ, true, false, not, ◌&&◌, Option, none, some, List, [], ◌∷◌}
use v6502c.Base.{if◌then◌else◌}
use v6502c.Inst.{instruction_at, addressing_at}
use v6502c.Cpu.State.{
  Variant, cpu_65c02, Cpu, TickFn, check_bit, cpu_read_address, cpu_next_byte, irq_disable,
  irq_vector, reset_vector, nmi_vector,
}
use v6502c.Cpu.Load.{load}
use v6502c.Cpu.Exec.{exec, service_interrupt}

-- What the outside world may ask of a running processor: `cpu_halt`, `cpu_irq`, `cpu_reset`,
-- `cpu_nmi`.
pub data Request : Type 0 where
  halt irq reset nmi : Request

module _ {S : Type 0} where
  -- `_reset`
  unfoldable pub do_reset : Cpu S → Cpu S
  do_reset c =
      let (target, c1) = cpu_read_address c reset_vector in
      record c1 {
        pc = target;
        a = 0;
        x = 0;
        y = 0;
        sr = 0x36;
        sp = 0xFD;
        halted = false;
        reset = false;
        irq = false;
        nmi = false;
      }

  unfoldable pub cpu_init : Cpu S → Cpu S
  cpu_init c = do_reset (record c { write = none; read = none; tick = none; variant = cpu_65c02 })

  unfoldable pub cpu_set_variant : Cpu S → Variant → Cpu S
  cpu_set_variant c v = record c { variant = v }

  unfoldable pub cpu_halt : Cpu S → Cpu S
  cpu_halt c = record c { halted = true }

  unfoldable pub cpu_irq : Cpu S → Cpu S
  cpu_irq c = record c { irq = true }

  unfoldable pub cpu_reset : Cpu S → Cpu S
  cpu_reset c = record c { reset = true }

  unfoldable pub cpu_nmi : Cpu S → Cpu S
  cpu_nmi c = record c { nmi = true }

  -- The end of `cpu_step`: a pending NMI comes first, and an IRQ only where it is not disabled.
  unfoldable pub handle_interrupts : Cpu S → Cpu S
  handle_interrupts c =
      if c.nmi
      then service_interrupt (record c { nmi = false }) nmi_vector false
      else if c.irq && not (check_bit c irq_disable)
      then service_interrupt (record c { irq = false }) irq_vector false
      else c

  -- Decode the opcode `b`, load the operand and perform the instruction.
  unfoldable pub perform : ℕ → Cpu S → Cpu S
  perform b c =
      let i = instruction_at b in
      let m = addressing_at b in let l = load m i b c in exec i m l.0 l.1 l.2

  -- Fetch an opcode and perform it.
  unfoldable pub run_instruction : Cpu S → Cpu S
  run_instruction c = let (b, c1) = cpu_next_byte c in perform b c1

  unfoldable pub cpu_step : Cpu S → Cpu S
  cpu_step c =
      if c.reset
      then do_reset (record c { reset = false })
      else handle_interrupts (run_instruction c)

  unfoldable pub call_tick : Option (TickFn S) → S → S
  call_tick none s = s
  call_tick (some f) s = f s

  unfoldable pub serve : Request → Cpu S → Cpu S
  serve halt c = cpu_halt c
  serve irq c = cpu_irq c
  serve reset c = cpu_reset c
  serve nmi c = cpu_nmi c

  unfoldable pub serve_all : List Request → Cpu S → Cpu S
  serve_all [] c = c
  serve_all (r ∷ rs) c = serve_all rs (serve r c)

  -- `while (!c->halted)`: each round takes a step and ticks; then the requests arrive that come
  -- before the next test. `none` says that the list of rounds ended with the processor running.
  unfoldable pub cpu_run : List (List Request) → Cpu S → Option (Cpu S)
  cpu_run [] c = if c.halted then some c else none
  cpu_run (rs ∷ rounds) c =
      let c1 = cpu_step c in
      let next = cpu_run rounds (serve_all rs (record c1 { bus = call_tick c1.tick c1.bus })) in
      if c.halted then some c else next
