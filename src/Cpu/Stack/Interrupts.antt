-- ===== src/Cpu/Stack/Interrupts.antt =====
-- An NMI and an IRQ that come together, to the end of the handler of the NMI.
use v6502c.Base.{
  ℕ, ◌+◌, ◌/◌, ◌^◌, ◌≤◌, ◌<◌, ◌≡◌, ◌∙◌, refl, sym, ap, ap₂, subst, arith, Option, List, ◌∷◌, true,
  false, u8, u16, length,
}
use v6502c.Cpu.State.{
  Cpu, ReadFn, WriteFn, bus_read, join, push, set_flag, put_flag, check_bit, irq_disable,
  break_flag, nmi_vector, irq_vector,
}
use v6502c.Cpu.Flags.{check_flag-put}
use v6502c.Cpu.Exec.{rti, service_interrupt, pushed_status}
use v6502c.Cpu.Step.{handle_interrupts}
use v6502c.Cpu.Stack.{StackRam, HoldsStack, Holds, Holds-Inv, push-HoldsStack}
use v6502c.Cpu.Stack.Calls.{
  after_interrupt, pushed_status-lt, service_interrupt-HoldsStack, rti-service_interrupt,
}

module _ {S : Type 0} where
  -- What an interrupt leaves of the requests, and that it masks the next IRQ.
  service_interrupt-masks :
      (c : Cpu S) (vector : ℕ)
      → let c' = service_interrupt c vector false in
        (c'.nmi ≡ c.nmi)
        × (c'.irq ≡ c.irq)
        × (check_bit c' irq_disable ≡ true)
        × (c'.sp ≡ u8 (u8 (u8 (c.sp + 0xFF) + 0xFF) + 0xFF))
  unfolding service_interrupt set_flag put_flag
  service_interrupt-masks c vector =
      (refl, refl, check_flag-put true c.sr 2 2 (omega arith) (omega arith), refl)

  -- Nothing is served where an IRQ is masked and no NMI is pending.
  handle_interrupts-masked :
      (c : Cpu S) → c.nmi ≡ false → check_bit c irq_disable ≡ true → handle_interrupts c ≡ c
  unfolding handle_interrupts
  handle_interrupts-masked c n m = ground arith

  handle_interrupts-nmi :
      (c : Cpu S)
      → c.nmi ≡ true
      → handle_interrupts c ≡ service_interrupt (record c { nmi = false }) nmi_vector false
  unfolding handle_interrupts
  handle_interrupts-nmi c n = ground arith

  handle_interrupts-irq :
      (c : Cpu S)
      → c.nmi ≡ false
      → c.irq ≡ true
      → check_bit c irq_disable ≡ false
      → handle_interrupts c ≡ service_interrupt (record c { irq = false }) irq_vector false
  unfolding handle_interrupts
  handle_interrupts-irq c n r m = ground arith

module _ {S : Type 0} {f : Option (ReadFn S)} {g : Option (WriteFn S)} (ram : StackRam f g) where
  open ram use {Inv, read_keeps}

  -- The vectors, from 0xFFFA on, are constant.
  abbrev pub HasVectors : (ℕ → ℕ) → Type 0
  HasVectors rom = (p : ℕ) (s : S) → Inv s → 0xFFFA ≤ p → p < 0x10000 → (bus_read f p s).0 ≡ rom p

  -- The address that two bytes of memory give.
  abbrev pub target : (ℕ → ℕ) → ℕ → ℕ
  target rom vector = u16 (join (rom (u16 (vector + 1))) (rom vector))

  next_in : (v : ℕ) → 0xFFFA ≤ v → v < 0xFFFF → 0xFFFA ≤ u16 (v + 1)
  next_in v l h = omega arith

  service_interrupt-target :
      (c : Cpu S) (vector : ℕ) (rom : ℕ → ℕ) (vs : List ℕ)
      → HoldsStack ram c vs
      → length vs < 0xFE
      → HasVectors rom
      → 0xFFFA ≤ vector
      → vector < 0xFFFF
      → (service_interrupt c vector false).pc ≡ target rom vector
  unfolding service_interrupt
  service_interrupt-target c vector rom vs h fits vectors lo_in hi_in =
      let hi = u8 (c.pc / 2 ^ 8) in
      let status = pushed_status false c.sr in
      let h1 = push-HoldsStack ram c hi vs h (omega arith) (omega arith) in
      let c1 = push c hi in
      let h2 = push-HoldsStack ram c1 (u8 c.pc) (hi ∷ vs) h1 (omega arith) (omega arith) in
      let c2 = push c1 (u8 c.pc) in
      let h3 =
        push-HoldsStack ram c2 status (u8 c.pc ∷ hi ∷ vs) h2 (pushed_status-lt false c.sr)
          (omega arith) in
      let c3 = push c2 status in
      let inv = Holds-Inv ram c3.bus c3.sp (status ∷ u8 c.pc ∷ hi ∷ vs) h3.3 in
      subst
        (λ r.
          u16 (
            join (bus_read r (u16 (vector + 1)) (bus_read r vector c3.bus).1).0
              (bus_read r vector c3.bus).0)
          ≡ target rom vector)
        (sym h.0)
        (ap₂ (λ hi lo. u16 (join hi lo))
          (vectors (u16 (vector + 1)) (bus_read f vector c3.bus).1 (read_keeps c3.bus vector inv)
            (next_in vector lo_in hi_in) (omega arith))
          (vectors vector c3.bus inv lo_in (omega arith)))

  -- The interrupt has come to its handler: the vector gives the address, the stack has what `c` needs
  -- to go on, and nothing else is served.
  abbrev pub Interrupted : Cpu S → ℕ → (ℕ → ℕ) → List ℕ → Cpu S → Type 0
  Interrupted c vector rom vs c' =
      (c'.pc ≡ target rom vector)
      × HoldsStack ram c' (after_interrupt ram c false vs)
      × (c'.sp ≡ u8 (c.sp + 0xFD))
      × (handle_interrupts c' ≡ c')

  sp_down : (sp : ℕ) → sp < 0x100 → u8 (u8 (u8 (sp + 0xFF) + 0xFF) + 0xFF) ≡ u8 (sp + 0xFD)
  sp_down sp h = omega arith

  sp_up : (sp : ℕ) → sp < 0x100 → u8 (u8 (u8 (u8 (sp + 0xFD) + 1) + 1) + 1) ≡ sp
  sp_up sp h = omega arith

  service_interrupt-Interrupted :
      (c : Cpu S) (vector : ℕ) (rom : ℕ → ℕ) (vs : List ℕ)
      → HoldsStack ram c vs
      → length vs < 0xFE
      → HasVectors rom
      → 0xFFFA ≤ vector
      → vector < 0xFFFF
      → c.nmi ≡ false
      → Interrupted c vector rom vs (service_interrupt c vector false)
  service_interrupt-Interrupted c vector rom vs h fits vectors l t n =
      let (nmi, irq, masked, sp) = service_interrupt-masks c vector in
      (
        service_interrupt-target c vector rom vs h fits vectors l t,
        service_interrupt-HoldsStack ram c vector false vs h fits,
        sp ∙ sp_down c.sp h.2,
        handle_interrupts-masked (service_interrupt c vector false) (nmi ∙ n) masked,
      )

  -- The stack below what an interrupt pushed.
  below-HoldsStack :
      (c d : Cpu S) (vs : List ℕ)
      → c.sp < 0x100
      → HoldsStack ram d (after_interrupt ram c false vs)
      → d.sp ≡ u8 (c.sp + 0xFD)
      → HoldsStack ram (record d { pc = c.pc; sr = c.sr; sp = c.sp }) vs
  below-HoldsStack c d vs h h' e =
      let back = ap (λ p. u8 (u8 (u8 (p + 1) + 1) + 1)) e ∙ sp_up c.sp h in
      (h'.0, h'.1, h, subst (λ p. Holds ram d.bus p vs) back h'.3.1.1.1)

  -- Where an instruction ends with an NMI and an IRQ that is enabled both pending, in the state `c`: the
  -- NMI comes to its handler, and the IRQ stays pending and does not come into it. `d` is where the
  -- handler's RTI runs, with the stack as the interrupt left it, the break bit and bit 5 unchanged, the
  -- IRQ still pending and no other NMI: at the end of that instruction the IRQ comes to its own handler,
  -- with the same three bytes on the stack, so that its RTI goes back to where `c` was. The vectors
  -- are constant, page 1 is memory, and the stack of `c` has fewer than 254 bytes.
  pub handle_interrupts-rti :
      (c d : Cpu S) (rom : ℕ → ℕ) (vs : List ℕ)
      → c.pc < 0x10000
      → c.sr < 0x100
      → HoldsStack ram c vs
      → length vs < 0xFE
      → HasVectors rom
      → c.nmi ≡ true
      → c.irq ≡ true
      → check_bit c irq_disable ≡ false
      → HoldsStack ram d (after_interrupt ram c false vs)
      → d.sp ≡ u8 (c.sp + 0xFD)
      → check_bit d break_flag ≡ check_bit c break_flag
      → check_bit d 5 ≡ check_bit c 5
      → d.nmi ≡ false
      → d.irq ≡ true
      → let c' = handle_interrupts c in
        let d' = handle_interrupts (rti d) in
        Interrupted c nmi_vector rom vs c'
        × (c'.irq ≡ true)
        × Interrupted c irq_vector rom vs d'
        × (d'.irq ≡ false)
  handle_interrupts-rti c d rom vs hp hs h fits vectors n r m h' sp b4 b5 dn dr =
      let c0 = record c { nmi = false } in
      let first = handle_interrupts-nmi c n in
      let left = service_interrupt-masks c0 nmi_vector in
      let e = record d { pc = c.pc; sr = c.sr; sp = c.sp } in
      let e0 = record e { irq = false } in
      let back =
        (rti-service_interrupt ram c0 d nmi_vector false vs hp hs h fits h'
          (sp ∙ sym (left.3 ∙ sp_down c.sp h.2)) b4 b5).1 in
      let second = ap handle_interrupts back ∙ handle_interrupts-irq e dn dr m in
      let at_e = below-HoldsStack c d vs h.2 h' sp in
      (
        subst (Interrupted c nmi_vector rom vs) (sym first) (
            service_interrupt-Interrupted c0 nmi_vector rom vs h fits vectors (omega arith)
              (omega arith) refl),
        ap (λ (x : Cpu S). x.irq) first ∙ left.1 ∙ r,
        subst (Interrupted c irq_vector rom vs) (sym second) (
            service_interrupt-Interrupted e0 irq_vector rom vs at_e fits vectors (omega arith)
              (omega arith) dn),
        ap (λ (x : Cpu S). x.irq) second ∙ (service_interrupt-masks e0 irq_vector).1,
      )
