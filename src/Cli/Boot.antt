-- ===== src/Cli/Boot.antt =====
-- The machine that the command line starts, with an image that bin2woz printed.
use v6502c.Base.{ℕ, ◌+◌, ◌-◌, ◌<◌, ◌≤◌, ◌≡◌, ◌∙◌, refl, arith, Bool, true, false, some, List}
use v6502c.Base.{ltb, leb, length, get_or}
use v6502c.Cpu.State.{Cpu}
use v6502c.Machine.{Board, rom_start, rom_max, load_rom, add_protected_range, init_vmachine}
use v6502c.Monitor.Session.{Setting}
use v6502c.Monitor.Edit.Writes.{AllBytes}
use v6502c.Bin2woz.{woz_loop}
use v6502c.Cli.Image.{RomImage, load_woz_rom}
use v6502c.Cli.Image.RoundTrip.{split_lines, load_woz_rom-bin2woz}
use v6502c.Cli.{connect, start_machine}

module _ {H : Type 0} (given : Setting H) where
  start_machine-mem :
      (room : ℕ → Bool) (image : RomImage) (n input output p : ℕ) (c : Cpu (Board H))
      → image.size ≡ some n
      → n ≤ rom_max
      → p < n
      → (start_machine given room image input output c).bus.mem (rom_start + p) ≡ image.buffer p
  unfolding start_machine connect init_vmachine add_protected_range load_rom
  start_machine-mem room image n input output p c e h x =
      let fits : ltb rom_max n ≡ false = ground arith in
      let from : leb rom_start (rom_start + p) ≡ true = ground arith in
      let to : ltb (rom_start + p) (rom_start + n) ≡ true = ground arith in
      let index : rom_start + p - rom_start ≡ p = omega arith in rw (e, fits, from, to, index) refl

  -- The command line with a ROM image that bin2woz printed from 0xD000 on, for at most as many
  -- bytes as the ROM has: the image is loaded, and the machine that it starts has the bytes from
  -- 0xD000 on in memory.
  pub start_machine-bin2woz :
      (room : ℕ → Bool) (rounds input output : ℕ) (before : ℕ → ℕ) (bs : List ℕ) (c : Cpu (Board H))
      → AllBytes bs
      → length bs ≤ rom_max
      → 8 < rounds
      → (image : RomImage) × (load_woz_rom rom_max rounds before
            (some (split_lines (woz_loop rom_start 0 bs)))
            rom_start
          ≡ some image)
        × ((p : ℕ)
            → p < length bs
            → (start_machine given room image input output c).bus.mem (rom_start + p)
              ≡ get_or bs p 0)
  start_machine-bin2woz room rounds input output before bs c hb n f =
      let (image, path, size, bytes) =
        load_woz_rom-bin2woz rom_max rom_start rounds before bs hb n (omega arith) f in
      (
        image,
        path,
        λ p x. start_machine-mem room image (length bs) input output p c size n x ∙ bytes p x,
      )
