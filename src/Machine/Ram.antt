-- ===== src/Machine/Ram.antt =====
-- The machine's page 1 is memory, so that the theorems on the stack hold of it.
use v6502c.Base.{ℕ, ◌+◌, ◌<◌, ◌≡◌, arith, false, some}
use v6502c.Base.{if◌then◌else◌, ◌==◌, u16, u8}
use v6502c.Devices.Host.{Host}
use v6502c.Cpu.State.{bus_read, bus_write}
use v6502c.Cpu.Stack.{StackRam}
use v6502c.Machine.{Board, is_address_protected, machine_read, machine_write}
use v6502c.Machine.Bus.{machine_read-keeps, machine_write_lem}

module _ {H : Type 0} (os : Host H) where
  -- Memory holds bytes, and page 1 is not protected.
  abbrev pub HasStack : Board H → Type 0
  HasStack m =
      (p : ℕ)
      → p < 0x100
      → (m.mem (0x100 + p) < 0x100) × (is_address_protected m.protected_ranges (0x100 + p) ≡ false)

  pub read_cell :
      (m : Board H) (p : ℕ)
      → HasStack m
      → p < 0x100
      → bus_read (some (machine_read os)) (0x100 + p) m ≡ (m.mem (0x100 + p), m)
  unfolding bus_read machine_read
  read_cell m p h lt = ground (arith, h p)

  pub read_keeps :
      (m : Board H) (p : ℕ) → HasStack m → HasStack (bus_read (some (machine_read os)) p m).1
  unfolding bus_read
  read_keeps m p h q lt = ground (arith, h q, machine_read-keeps os m (u16 p))

  pub read_peek :
      (m : Board H) (p q : ℕ)
      → HasStack m
      → (bus_read (some (machine_read os)) p m).1.mem (0x100 + q) ≡ m.mem (0x100 + q)
  unfolding bus_read
  read_peek m p q h = ground (arith, machine_read-keeps os m (u16 p))

  pub write_keeps :
      (m : Board H) (p v : ℕ)
      → HasStack m
      → p < 0x100
      → HasStack (bus_write (some (machine_write os)) (0x100 + p) v m)
  unfolding bus_write
  write_keeps m p v h lt q lq =
      ground (arith, h q, machine_write_lem os m (u16 (0x100 + p)) (u8 v) (0x100 + q))

  pub write_peek :
      (m : Board H) (p q v : ℕ)
      → HasStack m
      → p < 0x100
      → q < 0x100
      → v < 0x100
      → (bus_write (some (machine_write os)) (0x100 + p) v m).mem (0x100 + q)
        ≡ (if p == q then v else m.mem (0x100 + q))
  unfolding bus_write
  write_peek m p q v h lp lq lv =
      ground (arith, h p, machine_write_lem os m (u16 (0x100 + p)) (u8 v) (0x100 + q))

  -- The machine's bus is one that the stack theorems accept.
  unfoldable pub machine_stack : StackRam (some (machine_read os)) (some (machine_write os))
  machine_stack = record {
    Inv = HasStack;
    peek = λ m p. m.mem (0x100 + p);
    read_cell = read_cell;
    read_keeps = read_keeps;
    read_peek = read_peek;
    write_keeps = write_keeps;
    write_peek = write_peek;
  }
