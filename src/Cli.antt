-- ===== src/Cli.antt =====
-- utils/cli.c: the command line. Cli/Image loads the ROM image, this file
-- has the machine, Cli/Pty the terminals of __CREATE_PTYS__, and Cli/Main puts them together.
pub mod Image
pub mod Boot
pub mod Main
pub mod Pty
mod Tests
use v6502c.Base.{ℕ, zero, suc, ◌-◌, ◌^◌, Bool, true, false, Option, none, some, List, [], ◌∷◌}
use v6502c.Base.{ltb, if◌then◌else◌, Bytes, length, get_or}
use v6502c.Cpu.State.{Cpu}
use v6502c.Cpu.Step.{cpu_reset, cpu_run, cpu_step, cpu_halt}
use v6502c.Devices.Host.{Host}
use v6502c.Machine.{
  Board, Config, machine_read, machine_write, machine_tick, init_vmachine, cleanup_vmachine,
}
use v6502c.Monitor.Session.{Session, Setting}
use v6502c.Monitor.Repl.{read_file, monitor_repl}
use v6502c.Cli.Image.{RomImage}

-- The value of a `size_t` that is set to the `int` that `load_rom` returns; `none` is -1.
abbrev pub to_size : Option ℕ → ℕ
to_size none = 2 ^ 64 - 1
to_size (some n) = n

-- `sig` is SIGINT or not.
unfoldable pub signal_handler : {S : Type 0} → Bool → Cpu S → Cpu S
signal_handler interrupt c = if interrupt then cpu_halt c else c

module _ {H : Type 0} (given : Setting H) where
  open given use {os, requests}

  -- `_read`, `_write` and `_tick` pass on to the machine.
  unfoldable pub connect : Cpu (Board H) → Cpu (Board H)
  connect c = record c {
    read = some (machine_read os);
    write = some (machine_write os);
    tick = some machine_tick;
  }

  -- The machine before the scripts: the ROM image, the configuration and the callbacks.
  unfoldable pub start_machine : (ℕ → Bool) → RomImage → ℕ → ℕ → Cpu (Board H) → Cpu (Board H)
  start_machine room image input output c = connect (
      init_vmachine room
        (record {
          rom_data = image.buffer;
          rom_size = to_size image.size;
          acia1_input = some input;
          acia1_output = some output;
          acia2_input = none;
          acia2_output = none;
        })
        c)

  -- The script files, in their order; `fuel` bounds the lines of each.
  unfoldable pub run_scripts : ℕ → List Bytes → Session H → Option (Session H)
  run_scripts fuel [] s = some s
  run_scripts fuel (name ∷ names) s =
      elim (read_file given (monitor_repl given fuel false) name s) [
        | none ↦ none
        | some s' ↦ run_scripts fuel names s'
      ]

  abbrev pub ran_first : Session H → Option (Cpu (Board H)) → Option (Session H)
  ran_first s none = none
  ran_first s (some c) = some (record s { machine = c })

  -- Without scripts the processor is reset and runs.
  unfoldable pub run_default : Session H → Option (Session H)
  run_default s =
      let c = cpu_step (cpu_reset s.machine) in
      ran_first (record s { trace = false; verbose = true }) (cpu_run (requests c) c)

  abbrev pub then_repl : ℕ → ℕ → Option (Session H) → Option (Session H)
  then_repl fuel input none = none
  then_repl fuel input (some s) = monitor_repl given fuel true input s

  abbrev pub then_cleanup : Option (Session H) → Option (Board H)
  then_cleanup none = none
  then_cleanup (some s) = some (cleanup_vmachine os s.machine.bus)

  -- `main` behind the loading of the ROM image: the scripts or a first run, then the monitor on
  -- stdin, and what is left of the machine.
  unfoldable pub run_machine : ℕ → ℕ → List Bytes → Session H → Option (Board H)
  run_machine fuel input [] s = then_cleanup (then_repl fuel input (run_default s))
  run_machine fuel input (name ∷ names) s =
      then_cleanup (then_repl fuel input (run_scripts fuel (name ∷ names) s))
