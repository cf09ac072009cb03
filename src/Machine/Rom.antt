-- ===== src/Machine/Rom.antt =====
-- The ROM image survives whatever the program does.
use v6502c.Base.{ℕ, ◌-◌, ◌≤◌, ◌<◌, ◌≡◌, refl, arith, Bool, true, some, List, ap, ◌∙◌, ◌∷◌, []}
use v6502c.Base.{if◌then◌else◌, ltb, u16, u8}
use v6502c.AddrList.{
  is_address_in_range, is_address_in_range_list, add_address_range, init_address_range_list, range,
}
use v6502c.Devices.Host.{Host}
use v6502c.Cpu.State.{Cpu, bus_read, bus_write}
use v6502c.Cpu.Step.{Request, call_tick, cpu_run, cpu_init, do_reset}
use v6502c.Cpu.Invariant.{Kept, cpu_run-Wired}
use v6502c.Machine.{
  Board, Config, is_address_protected, machine_read, machine_write, machine_tick, init_vmachine,
  load_rom, add_protected_range,
}
use v6502c.Machine.Bus.{machine_read-keeps, machine_write_lem}

module _ {H : Type 0} (os : Host H) (image : ℕ → ℕ) where
  -- From 0xD000 on, memory is the image and is protected.
  abbrev pub HasRom : Board H → Type 0
  HasRom m =
      (a : ℕ)
      → 0xD000 ≤ a
      → a < 0x10000
      → (m.mem a ≡ image (a - 0xD000)) × (is_address_protected m.protected_ranges a ≡ true)

  pub rom_kept : Kept (some (machine_read os)) (some (machine_write os)) (some machine_tick) HasRom
  unfolding bus_read bus_write call_tick machine_tick
  rom_kept = record {
    read_keeps = λ m at h a lo hi. ground (arith, h a, machine_read-keeps os m (u16 at));
    write_keeps = λ m at v h a lo hi. ground (arith, h a, machine_write_lem os m (u16 at) (u8 v) a);
    tick_keeps = λ m h. h;
  }

  -- A machine with the machine's callbacks that has the image in ROM has it still when its run
  -- loop returns, whatever program ran and whatever requests came.
  pub cpu_run-HasRom :
      (rounds : List (List Request)) (c c' : Cpu (Board H))
      → c.read ≡ some (machine_read os)
      → c.write ≡ some (machine_write os)
      → c.tick ≡ some machine_tick
      → HasRom c.bus
      → cpu_run rounds c ≡ some c'
      → HasRom c'.bus
  cpu_run-HasRom rounds c c' r w t h e =
      (cpu_run-Wired rom_kept rounds c c'
        (record { read_is = r; write_is = w; tick_is = t; holds = h }) e).holds

-- The image of the configuration, with zeros behind it.
abbrev pub rom_image : Config → ℕ → ℕ
rom_image config i = if ltb i config.rom_size then config.rom_data i else 0

load_rom_lem :
    (config : Config) (a : ℕ)
    → 0xD000 ≤ a
    → a < 0x10000
    → load_rom config a ≡ rom_image config (a - 0xD000)
unfolding load_rom
load_rom_lem config a lo hi = ground arith

module _ {H : Type 0} (os : Host H) where
  -- A machine that is initialised where the node of the protected range can be allocated has the
  -- configured image in ROM: cut to 12 KB if it is longer, with zeros behind it if it is shorter.
  pub init_vmachine-HasRom :
      (room : ℕ → Bool) (config : Config) (c : Cpu (Board H))
      → room 4 ≡ true
      → HasRom os (rom_image config) (init_vmachine room config c).bus
  unfolding init_vmachine cpu_init do_reset add_protected_range is_address_protected
      init_address_range_list add_address_range is_address_in_range_list is_address_in_range
      bus_read
  init_vmachine-HasRom room config c full a lo hi = (
    load_rom_lem config a lo hi,
    ap (λ r. is_address_in_range_list (if r then range 0xD000 0xFFFF ∷ [] else []) a) full
        ∙ ground arith,
  )

  -- An initialised machine with the machine's callbacks.
  abbrev pub powered : (ℕ → Bool) → Config → Cpu (Board H) → Cpu (Board H)
  powered room config c = record (init_vmachine room config c) {
    read = some (machine_read os);
    write = some (machine_write os);
    tick = some machine_tick;
  }

  -- An initialised machine that runs with the machine's callbacks: when the run loop returns,
  -- reading an address from 0xD000 on still gives the configured image, whatever program ran,
  -- whatever the devices did and whatever requests came. The node of the protected range could be
  -- allocated.
  pub machine_read-cpu_run :
      (room : ℕ → Bool) (config : Config) (rounds : List (List Request)) (c c' : Cpu (Board H))
      (a : ℕ)
      → room 4 ≡ true
      → cpu_run rounds (powered room config c) ≡ some c'
      → 0xD000 ≤ a
      → a < 0x10000
      → (machine_read os a c'.bus).0 ≡ rom_image config (a - 0xD000)
  unfolding machine_read
  machine_read-cpu_run room config rounds c c' a full e lo hi =
      let kept =
        cpu_run-HasRom os (rom_image config) rounds _ c' refl refl refl
          (init_vmachine-HasRom room config c full) e in
      ground (arith, kept a)
