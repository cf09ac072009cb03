-- ===== src/Cli/Tests.antt =====
-- The loader of ROM images and the start of the machine at concrete lines.
use v6502c.Base.{
  ℕ, ◌+◌, ◌<◌, ◌≡◌, refl, arith, true, false, none, some, ◌∷◌, [], List, codes, get_or, Bytes,
}
use v6502c.Cpu.State.{Cpu, cpu_65c02}
use v6502c.Devices.Host.{Host}
use v6502c.Monitor.Session.{Setting}
use v6502c.Machine.{Board, rom_start, rom_max}
use v6502c.Bin2woz.{woz_loop}
use v6502c.Cli.Image.{RomImage, Filled, nibble, at_line_end, woz_address, woz_bytes, load_woz_rom}
use v6502c.Cli.Image.Loads.{woz_bytes-stuck}
use v6502c.Cli.Image.Readable.{is_readable, is_blank, is_digit, is_end}
use v6502c.Cli.Image.Ends.{is_loaded, are_loadable, is_loadable, load_woz_rom_ends}
use v6502c.Cli.Image.RoundTrip.{split_lines}
use v6502c.Cli.Boot.{start_machine-bin2woz}
use v6502c.Cli.{start_machine}

abbrev empty : Filled
empty = record { bytes = λ p. 0; max_offset = 0 }

woz_bytes-stuck_example : woz_bytes 0x3000 100 0 empty (codes "; F5 D6") ≡ none
unfolding nibble at_line_end
woz_bytes-stuck_example =
    woz_bytes-stuck 0x3000 100 0 empty b';' (codes " F5 D6") refl refl refl refl

-- The bytes of the first line are loaded, and the comment in the second is not passed over.
abbrev commented : List Bytes
commented = codes "D000: F5 d6 7" ∷ codes "D003: FA ; D5" ∷ []

load_woz_rom_ends_example :
    is_loaded (load_woz_rom 0x3000 100 (λ p. 0) (some commented) 0xD000) ≡ false
unfolding are_loadable is_loadable is_readable is_blank is_digit is_end nibble woz_address
load_woz_rom_ends_example =
    load_woz_rom_ends 0x3000 0xD000 100 (λ p. 0) commented (omega arith, (omega arith, tt))

abbrev no_host : Host Unit
no_host = record {
  select_ready = λ f h. false;
  read_byte = λ f h. (none, h);
  put_char = λ f v h. h;
  open_read = λ name h. (none, h);
  open_write = λ name h. (none, h);
  get_char = λ f h. (none, h);
  close_file = λ f h. h;
}

abbrev setting : Setting Unit
setting = record {
  os = no_host;
  bare_prefix = λ s. none;
  room = true;
  requests = λ c. [];
  rounds = 20;
}

abbrev machine : Cpu (Board Unit)
machine = record {
  pc = 0;
  a = 0;
  x = 0;
  y = 0;
  sr = 0;
  sp = 0;
  halted = false;
  reset = false;
  irq = false;
  nmi = false;
  variant = cpu_65c02;
  read = none;
  write = none;
  tick = none;
  bus = record {
    mem = λ p. 0;
    protected_ranges = [];
    acia1 = none;
    acia2 = none;
    via = none;
    fio = none;
    host = tt;
  };
}

abbrev rom_bytes : List ℕ
rom_bytes = 0xF5 ∷ 0xD6 ∷ 0xFA ∷ []

start_machine-bin2woz_example :
    (image : RomImage) × (load_woz_rom rom_max 20
        (λ p. 0)
        (some (split_lines (woz_loop rom_start 0 rom_bytes)))
        rom_start
      ≡ some image)
    × ((p : ℕ)
        → p < 3
        → (start_machine setting (λ n. true) image 0 1 machine).bus.mem (rom_start + p)
          ≡ get_or rom_bytes p 0)
start_machine-bin2woz_example =
    start_machine-bin2woz setting (λ n. true) 20 0 1 (λ p. 0) rom_bytes machine (ground arith)
      (omega arith) (omega arith)
