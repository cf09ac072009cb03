-- ===== src/Cpu/Stack/Tests.antt =====
-- The stack on a bus with page 1 as memory and the low byte of the address everywhere else.
use v6502c.Base.{ℕ, ◌+◌, ◌<◌, ◌≡◌, refl, sym, ap, subst, arith, true, false, none, some, []}
use v6502c.Base.{◌==◌, ltb, ◌&&◌, if◌then◌else◌, u8}
use v6502c.Cpu.State.{
  Cpu, ReadFn, WriteFn, cpu_65c02, bus_read, bus_write, check_flag, nmi_vector, irq_vector,
}
use v6502c.Cpu.Exec.{rti, service_interrupt}
use v6502c.Cpu.Step.{handle_interrupts}
use v6502c.Cpu.Stack.{StackRam, HoldsStack}
use v6502c.Cpu.Stack.Calls.{service_interrupt-HoldsStack}
use v6502c.Cpu.Stack.Interrupts.{HasVectors, Interrupted, handle_interrupts-rti}

abbrev Page : Type 0
Page = ℕ → ℕ

abbrev page_read : ReadFn Page
page_read p s = (if ltb 0xFF p && ltb p 0x200 then s p else p, s)

abbrev page_write : WriteFn Page
page_write p v s = if ltb 0xFF p && ltb p 0x200 then (λ q. if q == p then v else s q) else s

abbrev IsPage : Page → Type 0
IsPage s = (q : ℕ) → s q < 0x100

read_cell :
    (s : Page) (p : ℕ)
    → IsPage s
    → p < 0x100
    → bus_read (some page_read) (0x100 + p) s ≡ (s (0x100 + p), s)
unfolding bus_read
read_cell s p h lt = ground (arith, h (0x100 + p))

write_keeps :
    (s : Page) (p v : ℕ)
    → IsPage s
    → p < 0x100
    → IsPage (bus_write (some page_write) (0x100 + p) v s)
unfolding bus_write
write_keeps s p v h lt q = ground (arith, h q)

write_peek :
    (s : Page) (p q v : ℕ)
    → IsPage s
    → p < 0x100
    → q < 0x100
    → v < 0x100
    → bus_write (some page_write) (0x100 + p) v s (0x100 + q)
      ≡ (if p == q then v else s (0x100 + q))
unfolding bus_write
write_peek s p q v h lp lq lv = ground arith

read_same : (s : Page) (p : ℕ) → (bus_read (some page_read) p s).1 ≡ s
unfolding bus_read
read_same s p = refl

unfoldable page_stack : StackRam (some page_read) (some page_write)
page_stack = record {
  Inv = IsPage;
  peek = λ s q. s (0x100 + q);
  read_cell = read_cell;
  read_keeps = λ s p h. subst IsPage (sym (read_same s p)) h;
  read_peek = λ s p q h. ap (λ (t : Page). t (0x100 + q)) (read_same s p);
  write_keeps = write_keeps;
  write_peek = write_peek;
}

-- The vector of the NMI is 0xFBFA, and that of the IRQ 0xFFFE.
low_byte-HasVectors : HasVectors page_stack (λ p. u8 p)
unfolding bus_read page_stack
low_byte-HasVectors p s h l t = ground arith

abbrev at_0x1234 : Cpu Page
at_0x1234 = record {
  pc = 0x1234;
  a = 0;
  x = 0;
  y = 0;
  sr = 0x30;
  sp = 0xFD;
  halted = false;
  reset = false;
  irq = true;
  nmi = true;
  variant = cpu_65c02;
  read = some page_read;
  write = some page_write;
  tick = none;
  bus = λ p. 0;
}

at_0x1234-HoldsStack : HoldsStack page_stack at_0x1234 []
unfolding page_stack
at_0x1234-HoldsStack = (refl, refl, omega arith, λ q. omega arith)

-- The handler of the NMI comes to its RTI at once.
abbrev in_handler : Cpu Page
in_handler = record (service_interrupt (record at_0x1234 { nmi = false }) nmi_vector false) {
  sr = 0x34;
}

handle_interrupts-rti_example :
    let c' = handle_interrupts at_0x1234 in
    let d' = handle_interrupts (rti in_handler) in
    Interrupted page_stack at_0x1234 nmi_vector (λ p. u8 p) [] c'
    × (c'.irq ≡ true)
    × Interrupted page_stack at_0x1234 irq_vector (λ p. u8 p) [] d'
    × (d'.irq ≡ false)
unfolding check_flag service_interrupt
handle_interrupts-rti_example =
    handle_interrupts-rti page_stack at_0x1234 in_handler (λ p. u8 p) [] (omega arith) (omega arith)
      at_0x1234-HoldsStack (omega arith) low_byte-HasVectors refl refl refl
      (service_interrupt-HoldsStack page_stack (record at_0x1234 { nmi = false }) nmi_vector false
        [] at_0x1234-HoldsStack (omega arith))
      refl refl refl refl refl
