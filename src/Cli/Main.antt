-- ===== src/Cli/Main.antt =====
-- `main` of utils/cli.c, with and without the terminals of __CREATE_PTYS__.
use v6502c.Base.{ℕ, Bool, Option, none, some, List, [], ◌∷◌, Bytes}
use v6502c.Cpu.State.{Cpu}
use v6502c.Machine.{Board, rom_start, rom_max, init_vmachine}
use v6502c.Monitor.Session.{Session, Setting}
use v6502c.Cli.{to_size, connect, start_machine, run_machine}
use v6502c.Cli.Image.{RomImage, load_rom}
use v6502c.Cli.Pty.{PtyHost, PtyHandle, with_terminals}

-- What `fgets` and `fread` give of the files, and what stands in `rom_data` before.
pub record RomFiles : Type 0 where
  pub lines : Bytes → Option (List Bytes)
  pub bytes : Bytes → Option (List ℕ)
  pub before : ℕ → ℕ

abbrev exit_zero : {R : Type 0} → Option R → Option (ℕ × Option R)
exit_zero none = none
exit_zero (some r) = some (0, some r)

abbrev on_image : {R : Type 0} → (RomImage → Option R) → Option RomImage → Option (ℕ × Option R)
on_image run none = none
on_image run (some image) = exit_zero (run image)

-- The arguments behind the name of the program, the ROM image and the scripts. The test
-- `rom_size < 0` is on a `size_t`, so it never holds.
unfoldable pub with_rom :
    {R : Type 0}
    → ℕ
    → RomFiles
    → (RomImage → List Bytes → Option R)
    → List Bytes
    → Option (ℕ × Option R)
with_rom rounds files run [] = some (1, none)
with_rom rounds files run (rom ∷ scripts) =
    on_image (λ image. run image scripts)
      (load_rom rom_max rounds files.before rom (files.lines rom) (files.bytes rom) rom_start)

abbrev file_of : Option PtyHandle → Option ℕ
file_of none = none
file_of (some pty) = some pty.file

abbrev with_host : {H : Type 0} → Option (Board H) → Option (Board H × H)
with_host none = none
with_host (some m) = some (m, m.host)

module _ {H : Type 0} (given : Setting H) where
  -- Exit code and board, with stdin and stdout as the first serial port.
  unfoldable pub main :
      ℕ → ℕ → ℕ → (ℕ → Bool) → RomFiles → Session H → List Bytes → Option (ℕ × Option (Board H))
  main fuel input output room files s = with_rom given.rounds files (λ image scripts.
      run_machine given fuel input scripts
        (record s { machine = start_machine given room image input output s.machine }))

  -- The machine with its serial ports on the two terminals.
  unfoldable pub start_on_terminals :
      (ℕ → Bool) → RomImage → Option PtyHandle → Option PtyHandle → Cpu (Board H) → Cpu (Board H)
  start_on_terminals room image p q c = connect given (
      init_vmachine room
        (record {
          rom_data = image.buffer;
          rom_size = to_size image.size;
          acia1_input = file_of p;
          acia1_output = file_of p;
          acia2_input = file_of q;
          acia2_output = file_of q;
        })
        c)

  -- The same with a terminal for each serial port, from their allocation to their end.
  unfoldable pub main_on_terminals :
      PtyHost H
      → ℕ
      → ℕ
      → (ℕ → Bool)
      → RomFiles
      → Session H
      → List Bytes
      → Option (ℕ × Option (Board H × H))
  main_on_terminals os fuel input room files s = with_rom given.rounds files (λ image scripts.
      with_terminals os
        (λ p q h.
          let c = s.machine in
          let c' =
            start_on_terminals room image p q (record c { bus = record (c.bus) { host = h } }) in
          with_host (run_machine given fuel input scripts (record s { machine = c' })))
        s.machine.bus.host)
