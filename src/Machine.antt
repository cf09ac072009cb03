-- ===== src/Machine.antt =====
-- src/vmachine.h and src/vmachine.c: memory, its protected ranges and the devices behind the bus
-- of the processor. `vmachine_t` is a processor whose bus is a `Board`. Tracing and the messages
-- of verbose mode are not in the model.
pub mod Bus
pub mod Rom
pub mod Ram
mod Tests
use v6502c.Base.{ℕ, ◌+◌, ◌-◌, ◌%◌, Bool, true, false, ◌&&◌, Option, none, some, ◌==◌, ltb, leb}
use v6502c.Base.{if◌then◌else◌, u8, u16}
use v6502c.AddrList.{
  AddressRange, RangeList, range, init_address_range_list, add_address_range, remove_address_range,
  is_address_in_range_list, clear_address_range_list,
}
use v6502c.Cpu.State.{Cpu}
use v6502c.Cpu.Step.{cpu_init}
use v6502c.Devices.Host.{Host}
use v6502c.Devices.Acia.{Acia, acia_read, acia_write, acia_create}
use v6502c.Devices.Via.{Via, via_read, via_write, via_tick, via_create}
use v6502c.Devices.FileIo.{FileIo, fileio_read, fileio_write, fileio_create, fileio_destroy}

-- `vmachine_t` without its processor. `host` is the state of the operating system.
pub record Board (H : Type 0) : Type 0 where
  pub mem : ℕ → ℕ
  pub protected_ranges : RangeList
  pub acia1 : Option Acia
  pub acia2 : Option Acia
  pub via : Option Via
  pub fio : Option FileIo
  pub host : H

-- `vmachine_config_t`: the ROM image as a function on its indices, and the streams.
pub record Config : Type 0 where
  pub rom_data : ℕ → ℕ
  pub rom_size : ℕ
  pub acia1_input : Option ℕ
  pub acia1_output : Option ℕ
  pub acia2_input : Option ℕ
  pub acia2_output : Option ℕ

abbrev pub rom_start : ℕ
rom_start = 0xD000

abbrev pub rom_max : ℕ
rom_max = 0x3000

unfoldable pub is_address_protected : RangeList → ℕ → Bool
is_address_protected list a = is_address_in_range_list list a

abbrev pub within : ℕ → ℕ → ℕ → Bool
within lo hi a = leb lo a && leb a hi

-- `memset` and `memcpy`: zeros, and the image from `rom_start` on, cut to the room there is.
-- `rom_size` is unsigned, so that it is never below zero.
unfoldable pub load_rom : Config → ℕ → ℕ
load_rom config a =
    let size = if ltb rom_max config.rom_size then rom_max else config.rom_size in
    if leb rom_start a && ltb a (rom_start + size) then config.rom_data (a - rom_start) else 0

module _ {H : Type 0} where
  unfoldable pub add_protected_range : Bool → Board H → AddressRange → Board H
  add_protected_range room m ar = record m {
    protected_ranges = add_address_range room m.protected_ranges ar;
  }

  unfoldable pub remove_protected_range : Bool → Board H → AddressRange → Board H
  remove_protected_range room m ar = record m {
    protected_ranges = remove_address_range room m.protected_ranges ar;
  }

  unfoldable pub machine_tick : Board H → Board H
  machine_tick m = record m { via = via_tick m.via }

  -- The write to memory at the end of `machine_write`.
  unfoldable pub write_mem : ℕ → ℕ → Board H → Board H
  write_mem a b m =
      if is_address_protected m.protected_ranges a
      then m
      else record m { mem = λ p. if p == a then b else m.mem p }

  module _ (os : Host H) where
    unfoldable pub machine_read : ℕ → Board H → ℕ × Board H
    machine_read a m =
        if within 0xC010 0xC013 a
        then (let r = acia_read os m.acia1 (a % 4) m.host in
            (r.0, record m { acia1 = r.1; host = r.2 }))
        else if within 0xC020 0xC023 a
        then (let r = acia_read os m.acia2 (a % 4) m.host in
            (r.0, record m { acia2 = r.1; host = r.2 }))
        else if within 0xC030 0xC03F a
        then (let r = via_read m.via (a % 16) in (r.0, record m { via = r.1 }))
        else if within 0xC040 0xC04F a
        then (fileio_read m.fio (a % 16), m)
        else (m.mem a, m)

    unfoldable pub machine_write : ℕ → ℕ → Board H → Board H
    machine_write a b m =
        if within 0xC010 0xC013 a
        then (let r = acia_write os m.acia1 (a % 4) b m.host in
            record m { acia1 = r.0; host = r.1 })
        else if within 0xC020 0xC023 a
        then (let r = acia_write os m.acia2 (a % 4) b m.host in
            record m { acia2 = r.0; host = r.1 })
        else if within 0xC030 0xC03F a
        then record m { via = via_write m.via (a % 16) b }
        else if within 0xC040 0xC04F a
        then (let r = fileio_write os m.fio (a % 16) b m.host in record m { fio = r.0; host = r.1 })
        else write_mem a b m

  -- `room n` says whether the n-th `malloc` succeeds: two ACIAs, the VIA, the file device and the
  -- node of the protected range.
  unfoldable pub init_vmachine : (ℕ → Bool) → Config → Cpu (Board H) → Cpu (Board H)
  init_vmachine room config c =
      let c1 = cpu_init (record c {
        bus = record {
          mem = c.bus.mem;
          protected_ranges = init_address_range_list;
          acia1 = acia_create (room 0) config.acia1_input config.acia1_output;
          acia2 = acia_create (room 1) config.acia2_input config.acia2_output;
          via = via_create (room 2);
          fio = fileio_create (room 3);
          host = c.bus.host;
        };
      }) in
      record c1 {
        bus =
            add_protected_range (room 4) (record (c1.bus) { mem = load_rom config })
              (range rom_start 0xFFFF);
      }

  -- The devices are freed, and what is left of the board is the empty list.
  unfoldable pub cleanup_vmachine : Host H → Board H → Board H
  cleanup_vmachine os m =
      let r = fileio_destroy os m.fio m.host in
      record m {
        acia1 = none;
        acia2 = none;
        via = none;
        fio = r.0;
        host = r.1;
        protected_ranges = clear_address_range_list m.protected_ranges;
      }
