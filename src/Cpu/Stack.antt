-- ===== src/Cpu/Stack.antt =====
-- The hardware stack as a list of bytes, on any bus whose page 1 is memory.
pub mod Calls
pub mod Interrupts
mod Tests
use v6502c.Base.{
  ℕ, ◌+◌, ◌-◌, ◌*◌, ◌%◌, ◌≤◌, ◌<◌, ◌≡◌, refl, arith, Option, List, [], ◌∷◌, if◌then◌else◌, ◌==◌, u8,
  length,
}
use mathlib.Core.Path.{subst, subst₂, sym, ap}
use v6502c.Cpu.State.{Cpu, ReadFn, WriteFn, bus_read, bus_write, cpu_read_byte, push, pop}

-- What the processor relies on: in a state of the bus that satisfies `Inv`, page 1 is memory.
-- `peek` is a cell of it. Reads leave it alone, wherever they go, and a write to it changes the
-- one cell.
pub record StackRam {S : Type 0} (f : Option (ReadFn S)) (g : Option (WriteFn S)) : Type 1 where
  pub Inv : S → Type 0
  pub peek : S → ℕ → ℕ
  pub read_cell : (s : S) (p : ℕ) → Inv s → p < 0x100 → bus_read f (0x100 + p) s ≡ (peek s p, s)
  pub read_keeps : (s : S) (p : ℕ) → Inv s → Inv (bus_read f p s).1
  pub read_peek : (s : S) (p q : ℕ) → Inv s → peek (bus_read f p s).1 q ≡ peek s q
  pub write_keeps : (s : S) (p v : ℕ) → Inv s → p < 0x100 → Inv (bus_write g (0x100 + p) v s)
  pub write_peek :
      (s : S) (p q v : ℕ)
      → Inv s
      → p < 0x100
      → q < 0x100
      → v < 0x100
      → peek (bus_write g (0x100 + p) v s) q ≡ (if p == q then v else peek s q)

module _ {S : Type 0} {f : Option (ReadFn S)} {g : Option (WriteFn S)} (ram : StackRam f g) where
  open ram use {Inv, peek, read_cell, read_keeps, read_peek, write_keeps, write_peek}

  -- The bytes above the stack pointer `sp`, the top first, are those of the list. The pointer
  -- goes round within the page.
  abbrev pub Holds : S → ℕ → List ℕ → Type 0
  Holds s sp [] = Inv s
  Holds s sp (v ∷ vs) = (peek s (u8 (sp + 1)) ≡ v) × Holds s (u8 (sp + 1)) vs

  pub Holds-Inv : (s : S) (sp : ℕ) (vs : List ℕ) → Holds s sp vs → Inv s
  Holds-Inv s sp [] h = h
  Holds-Inv s sp (v ∷ vs) h = Holds-Inv s (u8 (sp + 1)) vs h.1

  -- A write below the bytes held does not touch them.
  Holds-write :
      (s : S) (p v sp : ℕ) (vs : List ℕ)
      → Holds s sp vs
      → p < 0x100
      → v < 0x100
      → sp < 0x100
      → length vs ≤ u8 (p + 0x1FF - sp)
      → Holds (bus_write g (0x100 + p) v s) sp vs
  Holds-write s p v sp [] h hp hv hs fits = write_keeps s p v h hp
  Holds-write s p v sp (w ∷ vs) h hp hv hs fits = (
    ground (arith, write_peek s p (u8 (sp + 1)) v (Holds-Inv s (u8 (sp + 1)) vs h.1) hp),
    Holds-write s p v (u8 (sp + 1)) vs h.1 hp hv (omega arith) (omega arith),
  )

  -- A read keeps them.
  Holds-read : (s : S) (p sp : ℕ) (vs : List ℕ) → Holds s sp vs → Holds (bus_read f p s).1 sp vs
  Holds-read s p sp [] h = read_keeps s p h
  Holds-read s p sp (w ∷ vs) h = (
    ground (arith, read_peek s p (u8 (sp + 1)) (Holds-Inv s (u8 (sp + 1)) vs h.1)),
    Holds-read s p (u8 (sp + 1)) vs h.1,
  )

  -- What a processor with these callbacks holds on its stack.
  abbrev pub HoldsStack : Cpu S → List ℕ → Type 0
  HoldsStack c vs = (c.read ≡ f) × (c.write ≡ g) × (c.sp < 0x100) × Holds c.bus c.sp vs

  -- `_push` puts a byte on top of a stack of fewer than 256.
  pub push-HoldsStack :
      (c : Cpu S) (v : ℕ) (vs : List ℕ)
      → HoldsStack c vs
      → v < 0x100
      → length vs < 0x100
      → HoldsStack (push c v) (v ∷ vs)
  push-HoldsStack c v vs h hv fits =
      let e : u8 (u8 (c.sp + 0xFF) + 1) ≡ c.sp = omega arith in
      let inv = Holds-Inv c.bus c.sp vs h.3 in
      let kept = Holds-write c.bus c.sp v c.sp vs h.3 h.2 hv h.2 (omega arith) in
      (
        h.0,
        h.1,
        omega arith,
        (
          ground (arith, e, write_peek c.bus c.sp c.sp v inv),
          subst₂ (λ w q. Holds (bus_write w (0x100 + c.sp) v c.bus) q vs) (sym h.1) (sym e) kept,
        ),
      )

  -- `_pop` takes the top byte off and changes nothing else.
  pub pop-HoldsStack :
      (c : Cpu S) (v : ℕ) (vs : List ℕ)
      → HoldsStack c (v ∷ vs)
      → (pop c ≡ (v, record c { sp = u8 (c.sp + 1) }))
        × HoldsStack (record c { sp = u8 (c.sp + 1) }) vs
  pop-HoldsStack c v vs h =
      let p = u8 (c.sp + 1) in
      let inv = Holds-Inv c.bus p vs h.3.1 in
      let got : bus_read c.read (0x100 + p) c.bus ≡ (v, c.bus) =
        ground (arith, read_cell c.bus p inv) in
      (ap (λ r. (r.0, record c { sp = p; bus = r.1 })) got, (h.0, h.1, omega arith, h.3.1))

  -- A read through the bus, as of a vector, leaves the stack alone.
  pub read-HoldsStack :
      (c : Cpu S) (at : ℕ) (vs : List ℕ) → HoldsStack c vs → HoldsStack (cpu_read_byte c at).1 vs
  read-HoldsStack c at vs h = (
    h.0,
    h.1,
    h.2,
    subst (λ r. Holds (bus_read r at c.bus).1 c.sp vs) (sym h.0) (Holds-read c.bus at c.sp vs h.3),
  )
