-- ===== src/Cpu/Stack/Calls.antt =====
-- Subroutine calls and interrupts: what is pushed is what comes back.
use v6502c.Base.{
  ℕ, ◌+◌, ◌*◌, ◌/◌, ◌^◌, ◌<◌, ◌≡◌, ◌∙◌, refl, ap, ap₂, arith, Option, List, ◌∷◌, Bool, true, false,
  u8, u16, length, bit_or_fields, all_below, all_below_sound, ==→eq, ◌==◌,
}
use v6502c.Cpu.State.{
  Cpu, ReadFn, WriteFn, join, push, pop, masks, set_flag, clear_flag, check_flag, put_flag,
  check_bit, set_bit, irq_disable, break_flag, cpu_read_byte,
}
use v6502c.Cpu.Exec.{jsr, rts, rti, service_interrupt, pushed_status, pull_status}
use v6502c.Cpu.Stack.{StackRam, HoldsStack, push-HoldsStack, pop-HoldsStack, read-HoldsStack}

pub join-lem : (hi lo : ℕ) → lo < 0x100 → join hi lo ≡ hi * 0x100 + lo
join-lem hi lo h = bit_or_fields 8 hi lo h

pub pushed_status-lt : (is_brk : Bool) (sr : ℕ) → pushed_status is_brk sr < 0x100
unfolding pushed_status
pushed_status-lt is_brk sr = omega arith

-- A status byte that is pushed and pulled again comes back whole where the break bit and bit 5
-- have not changed in between.
status_table :
    (is_brk : Bool)
    → all_below 0x100 (λ sr.
      put_flag
        (masks sr (2 ^ 5))
        (put_flag (masks sr (2 ^ break_flag)) (pushed_status is_brk sr) break_flag)
        5
      == sr)
      ≡ true
unfolding all_below set_flag clear_flag put_flag pushed_status
status_table true = refl
status_table false = refl

status_back :
    (is_brk : Bool) (sr now : ℕ)
    → sr < 0x100
    → masks now (2 ^ 5) ≡ masks sr (2 ^ 5)
    → masks now (2 ^ break_flag) ≡ masks sr (2 ^ break_flag)
    → put_flag
        (masks now (2 ^ 5))
        (put_flag (masks now (2 ^ break_flag)) (pushed_status is_brk sr) break_flag)
        5
      ≡ sr
status_back is_brk sr now h h5 h4 =
    ap₂ (λ p q. put_flag p (put_flag q (pushed_status is_brk sr) break_flag) 5) h5 h4
    ∙ ==→eq _ _ (all_below_sound 0x100 _ sr (status_table is_brk) h)

module _ {S : Type 0} {f : Option (ReadFn S)} {g : Option (WriteFn S)} (ram : StackRam f g) where
  -- JSR leaves the return address less one on the stack, its low byte on top, and goes to its
  -- target.
  pub jsr-HoldsStack :
      (c : Cpu S) (at : ℕ) (vs : List ℕ)
      → HoldsStack ram c vs
      → length vs < 0xFF
      → HoldsStack ram (jsr c at) (u8 (u16 (c.pc + 0xFFFF)) ∷ u8 (u16 (c.pc + 0xFFFF) / 2 ^ 8) ∷ vs)
  unfolding jsr
  jsr-HoldsStack c at vs h fits =
      let c1 = record c { pc = u16 (c.pc + 0xFFFF) } in
      let c2 = push c1 (u8 (c1.pc / 2 ^ 8)) in
      let h2 = push-HoldsStack ram c1 (u8 (c1.pc / 2 ^ 8)) vs h (omega arith) (omega arith) in
      push-HoldsStack ram c2 (u8 c1.pc) (u8 (c1.pc / 2 ^ 8) ∷ vs) h2 (omega arith) (omega arith)

  -- Two pulls, with what they hand on.
  pull_two :
      (c : Cpu S) (lo hi : ℕ) (vs : List ℕ)
      → HoldsStack ram c (lo ∷ hi ∷ vs)
      → let c2 = record c { sp = u8 (u8 (c.sp + 1) + 1) } in
        (pop c ≡ (lo, record c { sp = u8 (c.sp + 1) }))
        × (pop (record c { sp = u8 (c.sp + 1) }) ≡ (hi, c2))
        × HoldsStack ram c2 vs
  pull_two c lo hi vs h =
      let p = pop-HoldsStack ram c lo (hi ∷ vs) h in
      let q = pop-HoldsStack ram (record c { sp = u8 (c.sp + 1) }) hi vs p.1 in (p.0, q.0, q.1)

  -- RTS takes two bytes off and goes to the address after the one that they make.
  rts-HoldsStack :
      (c : Cpu S) (lo hi : ℕ) (vs : List ℕ)
      → HoldsStack ram c (lo ∷ hi ∷ vs)
      → rts c ≡ record c { pc = u16 (join hi lo + 1); sp = u8 (u8 (c.sp + 1) + 1) }
  unfolding rts
  rts-HoldsStack c lo hi vs h =
      let p = pull_two c lo hi vs h in
      ap (λ (r : ℕ × Cpu S). record ((pop r.1).1) { pc = u16 (join (pop r.1).0 r.0 + 1) }) p.0
      ∙ ap (λ (q : ℕ × Cpu S). record (q.1) { pc = u16 (join q.0 lo + 1) }) p.1

  -- The two bytes that JSR pushes, over what the stack held.
  abbrev pub after_jsr : Cpu S → List ℕ → List ℕ
  after_jsr c vs = u8 (u16 (c.pc + 0xFFFF)) ∷ u8 (u16 (c.pc + 0xFFFF) / 2 ^ 8) ∷ vs

  -- JSR pushes two bytes, and a subroutine that comes to its RTS with the stack as JSR left it
  -- returns to the instruction after the JSR and restores the stack pointer; RTS changes nothing
  -- else. `c` is the processor when JSR runs, with fewer than 255 bytes on its stack and its
  -- program counter behind the instruction, and `c'` the processor when RTS runs.
  pub rts-jsr :
      (c c' : Cpu S) (at : ℕ) (vs : List ℕ)
      → c.pc < 0x10000
      → HoldsStack ram c vs
      → length vs < 0xFF
      → HoldsStack ram c' (after_jsr c vs)
      → c'.sp ≡ (jsr c at).sp
      → HoldsStack ram (jsr c at) (after_jsr c vs) × (rts c' ≡ record c' { pc = c.pc; sp = c.sp })
  unfolding jsr
  rts-jsr c c' at vs hp h fits h' same = (
    jsr-HoldsStack c at vs h fits,
    rts-HoldsStack c' _ _ vs h'
        ∙ ap₂ (λ p q. record c' { pc = p; sp = q })
            (omega (
              arith,
              join-lem (u8 (u16 (c.pc + 0xFFFF) / 2 ^ 8)) (u8 (u16 (c.pc + 0xFFFF))) (omega arith),
            ))
            (omega (arith, h.2)),
  )

  -- The three bytes that an interrupt pushes, over what the stack held.
  abbrev pub after_interrupt : Cpu S → Bool → List ℕ → List ℕ
  after_interrupt c is_brk vs = pushed_status is_brk c.sr ∷ u8 c.pc ∷ u8 (c.pc / 2 ^ 8) ∷ vs

  pub service_interrupt-HoldsStack :
      (c : Cpu S) (vector : ℕ) (is_brk : Bool) (vs : List ℕ)
      → HoldsStack ram c vs
      → length vs < 0xFE
      → HoldsStack ram (service_interrupt c vector is_brk) (after_interrupt c is_brk vs)
  unfolding service_interrupt
  service_interrupt-HoldsStack c vector is_brk vs h fits =
      let hi = u8 (c.pc / 2 ^ 8) in
      let status = pushed_status is_brk c.sr in
      let c1 = push c hi in
      let h1 = push-HoldsStack ram c hi vs h (omega arith) (omega arith) in
      let c2 = push c1 (u8 c.pc) in
      let h2 = push-HoldsStack ram c1 (u8 c.pc) (hi ∷ vs) h1 (omega arith) (omega arith) in
      let h3 =
        push-HoldsStack ram c2 status (u8 c.pc ∷ hi ∷ vs) h2 (pushed_status-lt is_brk c.sr)
          (omega arith) in
      let c4 = set_bit (push c2 status) irq_disable in
      let h4 = read-HoldsStack ram c4 vector (status ∷ u8 c.pc ∷ hi ∷ vs) h3 in
      read-HoldsStack ram (cpu_read_byte c4 vector).1 (u16 (vector + 1))
        (status ∷ u8 c.pc ∷ hi ∷ vs) h4

  rti-HoldsStack :
      (c : Cpu S) (status lo hi : ℕ) (vs : List ℕ)
      → HoldsStack ram c (status ∷ lo ∷ hi ∷ vs)
      → rti c ≡ record c {
        pc = u16 (join hi lo);
        sr =
            put_flag
              (masks c.sr (2 ^ 5))
              (put_flag (masks c.sr (2 ^ break_flag)) status break_flag)
              5;
        sp = u8 (u8 (u8 (c.sp + 1) + 1) + 1);
      }
  unfolding rti pull_status
  rti-HoldsStack c status lo hi vs h =
      let p = pop-HoldsStack ram c status (lo ∷ hi ∷ vs) h in
      let status' = λ (v : ℕ).
        put_flag (masks c.sr (2 ^ 5)) (put_flag (masks c.sr (2 ^ break_flag)) v break_flag) 5 in
      let c1 = record c { sp = u8 (c.sp + 1); sr = status' status } in
      let q = pull_two c1 lo hi vs p.1 in
      ap
        (λ (r : ℕ × Cpu S).
          let r1 = pop (record (r.1) { sr = status' r.0 }) in
          let r2 = pop r1.1 in record (r2.1) { pc = u16 (join r2.0 r1.0) })
        p.0
      ∙ ap (λ (r : ℕ × Cpu S). record ((pop r.1).1) { pc = u16 (join (pop r.1).0 r.0) }) q.0
      ∙ ap (λ (r : ℕ × Cpu S). record (r.1) { pc = u16 (join r.0 lo) }) q.1

  -- An interrupt, or BRK, pushes three bytes, and a handler that comes to its RTI with the stack
  -- as the interrupt left it, the break bit and bit 5 unchanged, returns to where `c` was, with
  -- the status byte and the stack pointer of `c`; RTI changes nothing else.
  pub rti-service_interrupt :
      (c c' : Cpu S) (vector : ℕ) (is_brk : Bool) (vs : List ℕ)
      → c.pc < 0x10000
      → c.sr < 0x100
      → HoldsStack ram c vs
      → length vs < 0xFE
      → HoldsStack ram c' (after_interrupt c is_brk vs)
      → c'.sp ≡ (service_interrupt c vector is_brk).sp
      → check_bit c' break_flag ≡ check_bit c break_flag
      → check_bit c' 5 ≡ check_bit c 5
      → HoldsStack ram (service_interrupt c vector is_brk) (after_interrupt c is_brk vs)
        × (rti c' ≡ record c' { pc = c.pc; sr = c.sr; sp = c.sp })
  unfolding service_interrupt check_flag
  rti-service_interrupt c c' vector is_brk vs hp hs h fits h' same b4 b5 = (
    service_interrupt-HoldsStack c vector is_brk vs h fits,
    rti-HoldsStack c' (pushed_status is_brk c.sr) (u8 c.pc) (u8 (c.pc / 2 ^ 8)) vs h' ∙ (λ i.
        record c' {
          pc = pc_back i;
          sr = status_back is_brk c.sr c'.sr hs b5 b4 i;
          sp = sp_back i;
        }),
  )
    where
      pc_back : u16 (join (u8 (c.pc / 2 ^ 8)) (u8 c.pc)) ≡ c.pc
      pc_back = omega (arith, join-lem (u8 (c.pc / 2 ^ 8)) (u8 c.pc) (omega arith))

      sp_back : u8 (u8 (u8 (c'.sp + 1) + 1) + 1) ≡ c.sp
      sp_back = omega (arith, h.2)
