-- ===== src/Monitor/Command/Guard.antt =====
-- A line that protects a range, and then a line that writes bytes.
use v6502c.Base.{
  ℕ, ◌+◌, ◌≤◌, ◌<◌, ◌≡◌, ◌∙◌, ap, sym, refl, arith, true, false, ◌||◌, Option, some, List, [], ◌∷◌,
  Bool-cases, inl, inr,
}
use v6502c.Base.{◌==◌, u8, u16, Bytes, codes, length}
use v6502c.AddrList.{range, is_address_in_range}
use v6502c.Cpu.State.{Cpu, bus_write, cpu_write_byte}
use v6502c.Machine.{Board, add_protected_range, is_address_protected, machine_write}
use v6502c.Machine.Bus.{machine_write_lem}
use v6502c.Monitor.Session.{Session, Setting}
use v6502c.Monitor.Edit.Writes.{store, AllBytes}
use v6502c.Monitor.Command.{protect_range, parse_command}
use v6502c.Monitor.Command.Line.{write_line, parse_command-write_line}
use v6502c.Monitor.Command.Protecting.{range_line, range_text, run_protect, protect_range-covers}

in_range : (start end p : ℕ) → start ≤ p → p ≤ end → is_address_in_range (range start end) p ≡ true
unfolding is_address_in_range
in_range start end p x y = ground arith

module _ {H : Type 0} (given : Setting H) where
  open given use {os, room, rounds}

  protect_range-keeps :
      (s : Session H) (arg : Bytes) (start end : ℕ)
      → let s' = protect_range given s arg (some (range start end)) in
        (s'.machine.write ≡ s.machine.write) × (s'.machine.bus.mem ≡ s.machine.bus.mem)
  unfolding protect_range add_protected_range
  protect_range-keeps s arg start end = (refl, refl)

  -- A write does not reach what is protected.
  machine_write-guards :
      (m : Board H) (a b p : ℕ)
      → is_address_protected m.protected_ranges p ≡ true
      → let m' = machine_write os a b m in
        (m'.mem p ≡ m.mem p) × (m'.protected_ranges ≡ m.protected_ranges)
  machine_write-guards m a b p e =
      let (mem, ranges) = machine_write_lem os m a b p in
      (
        elim (Bool-cases (p == a)) [
          | inl t ↦
              let same : p ≡ a = ground arith in
              let covered = ap (is_address_protected m.protected_ranges) (sym same) ∙ e in
              mem ∙ rw covered (ground arith)
          | inr t ↦ mem ∙ rw t refl
        ],
        ranges,
      )

  cpu_write_byte-guards :
      (c : Cpu (Board H)) (a b p : ℕ)
      → c.write ≡ some (machine_write os)
      → is_address_protected c.bus.protected_ranges p ≡ true
      → let c' = cpu_write_byte c a b in
        (c'.bus.mem p ≡ c.bus.mem p) × (c'.bus.protected_ranges ≡ c.bus.protected_ranges)
  unfolding bus_write
  cpu_write_byte-guards c a b p w e =
      let (mem, ranges) = machine_write-guards c.bus (u16 a) (u8 b) p e in
      let path = ap (λ f. bus_write f a b c.bus) w in
      (
        ap (λ (m : Board H). m.mem p) path ∙ mem,
        ap (λ (m : Board H). m.protected_ranges) path ∙ ranges,
      )

  -- Nor do the bytes of a line, also where the address wraps.
  store-guards :
      (bs : List ℕ) (c : Cpu (Board H)) (a p : ℕ)
      → c.write ≡ some (machine_write os)
      → is_address_protected c.bus.protected_ranges p ≡ true
      → (store c a bs).bus.mem p ≡ c.bus.mem p
  store-guards [] c a p w e = refl
  store-guards (b ∷ bs) c a p w e =
      let (mem, ranges) = cpu_write_byte-guards c a b p w e in
      let still = ap (λ l. is_address_protected l p) ranges ∙ e in
      store-guards bs (cpu_write_byte c a b) (u16 (a + 1)) p w still ∙ mem

  -- PROTECT with a range as "%04X.%04X" prints it, where `malloc` gives a node, on a machine with
  -- its own write callback; then a line that writes bytes from any address on, also past 0xFFFF to
  -- the first addresses: the monitor goes on after both, the second within two rounds more than
  -- there are bytes, and memory in the range is as it was before.
  pub parse_command-guard :
      (load_file : Bytes → Session H → Option (Session H)) (start end a : ℕ) (bs : List ℕ)
      (s : Session H)
      → s.machine.write ≡ some (machine_write os)
      → room ≡ true
      → start < 0x10000
      → end < 0x10000
      → a < 0x10000
      → AllBytes bs
      → length bs + 1 < rounds
      → (s1 s2 : Session H) × (parse_command given load_file
            (range_line (codes "PROTECT") start end)
            s
          ≡ some (false, s1))
        × (parse_command given load_file (write_line a bs) s1 ≡ some (false, s2))
        × ((p : ℕ) → start ≤ p → p ≤ end → s2.machine.bus.mem p ≡ s.machine.bus.mem p)
  parse_command-guard load_file start end a bs s w r hs he ha hb f =
      let s1 = protect_range given s (range_text start end) (some (range start end)) in
      let (write, mem) = protect_range-keeps s (range_text start end) start end in
      (
        s1,
        record s1 { last = a; machine = store s1.machine a bs },
        run_protect given load_file start end s hs he,
        parse_command-write_line given load_file a bs s1 ha hb f,
        λ p x y.
            let covered =
              protect_range-covers given s (range_text start end) (range start end) r p
              ∙ ap (λ t. t || is_address_protected s.machine.bus.protected_ranges p)
                  (in_range start end p x y) in
            store-guards bs s1.machine a p (write ∙ w) covered ∙ ap (λ m. m p) mem,
      )
