-- ===== src/Machine/Tests.antt =====
-- The whole machine at a concrete state: a ROM of the byte 0xEA (NOP), and a host with nothing in
-- it.
use v6502c.Base.{ℕ, ◌+◌, ◌<◌, ◌≡◌, refl, arith, true, false}
use v6502c.Base.{none, some, [], ◌∷◌, ◌++◌}
use v6502c.Devices.Host.{Host}
use v6502c.Devices.Via.{reset_via}
use v6502c.AddrList.{range, is_address_in_range_list, is_address_in_range}
use v6502c.Cpu.State.{Cpu, cpu_65c02, check_flag}
use v6502c.Cpu.Exec.{jsr, rts, rti, service_interrupt}
use v6502c.Cpu.Step.{halt, irq}
use v6502c.Cpu.Run.{cpu_run_halts}
use v6502c.Cpu.Stack.{HoldsStack}
use v6502c.Cpu.Stack.Calls.{
  after_jsr, after_interrupt, rts-jsr, rti-service_interrupt, jsr-HoldsStack,
  service_interrupt-HoldsStack,
}
use v6502c.Cpu.Invariant.{Wired}
use v6502c.Machine.{Board, Config, is_address_protected, machine_read, machine_write, machine_tick}
use v6502c.Machine.Ram.{machine_stack}
use v6502c.Machine.Rom.{HasRom, rom_kept, powered, machine_read-cpu_run}

abbrev no_host : Host Unit
no_host = record {
  select_ready = λ f h. false;
  read_byte = λ f h. (none, h);
  put_char = λ f v h. h;
  open_read = λ name h. (none, h);
  open_write = λ name h. (none, h);
  get_char = λ f h. (none, h);
  close_file = λ f h. h;
}

abbrev board : Board Unit
board = record {
  mem = λ p. 0xEA;
  protected_ranges = range 0xD000 0xFFFF ∷ [];
  acia1 = none;
  acia2 = none;
  via = some reset_via;
  fio = none;
  host = tt;
}

abbrev machine : Cpu (Board Unit)
machine = record {
  pc = 0x1234;
  a = 0;
  x = 0;
  y = 0;
  sr = 0x30;
  sp = 0xFD;
  halted = false;
  reset = false;
  irq = false;
  nmi = false;
  variant = cpu_65c02;
  read = some (machine_read no_host);
  write = some (machine_write no_host);
  tick = some machine_tick;
  bus = board;
}

has_stack :
    (p : ℕ)
    → p < 0x100
    → (board.mem (0x100 + p) < 0x100)
      × (is_address_protected board.protected_ranges (0x100 + p) ≡ false)
unfolding is_address_protected is_address_in_range_list is_address_in_range
has_stack p lt = (omega arith, ground arith)

machine_holds : HoldsStack (machine_stack no_host) machine []
unfolding machine_stack
machine_holds = (refl, refl, omega arith, has_stack)

called-HoldsStack :
    HoldsStack
      (machine_stack no_host)
      (jsr machine 0x2000)
      (after_jsr (machine_stack no_host) machine [])
called-HoldsStack =
    jsr-HoldsStack (machine_stack no_host) machine 0x2000 [] machine_holds (omega arith)

rts-jsr_example :
    HoldsStack
      (machine_stack no_host)
      (jsr machine 0x2000)
      (after_jsr (machine_stack no_host) machine [])
    × (rts (jsr machine 0x2000) ≡ record (jsr machine 0x2000) { pc = 0x1234; sp = 0xFD })
rts-jsr_example =
    rts-jsr (machine_stack no_host) machine (jsr machine 0x2000) 0x2000 [] (omega arith)
      machine_holds (omega arith) called-HoldsStack refl

abbrev interrupted : Cpu (Board Unit)
interrupted = record (service_interrupt machine 0xFFFE false) { sr = 0x34 }

rti-service_interrupt_example :
    HoldsStack
      (machine_stack no_host)
      (service_interrupt machine 0xFFFE false)
      (after_interrupt (machine_stack no_host) machine false [])
    × (rti interrupted ≡ record interrupted { pc = 0x1234; sr = 0x30; sp = 0xFD })
unfolding check_flag
rti-service_interrupt_example =
    rti-service_interrupt (machine_stack no_host) machine interrupted 0xFFFE false [] (omega arith)
      (omega arith) machine_holds (omega arith)
      (service_interrupt-HoldsStack (machine_stack no_host) machine 0xFFFE false [] machine_holds
        (omega arith))
      refl refl refl

board-HasRom : HasRom no_host (λ i. 0xEA) board
unfolding is_address_protected is_address_in_range_list is_address_in_range
board-HasRom a lo hi = (refl, ground arith)

machine-Wired : Wired (rom_kept no_host (λ i. 0xEA)) machine
machine-Wired = record { read_is = refl; write_is = refl; tick_is = refl; holds = board-HasRom }

-- A ROM of four bytes.
abbrev small_rom : Config
small_rom = record {
  rom_data = λ i. 0x40 + i;
  rom_size = 4;
  acia1_input = some 0;
  acia1_output = some 1;
  acia2_input = none;
  acia2_output = none;
}

machine_read-cpu_run_example :
    let c = powered no_host (λ n. true) small_rom machine in
    (machine_read no_host 0xD002 (cpu_run_halts ([] ∷ []) (irq ∷ halt ∷ []) [] c refl).0.bus).0
    ≡ 0x42
machine_read-cpu_run_example =
    machine_read-cpu_run no_host (λ n. true) small_rom (([] ∷ []) ++ (irq ∷ halt ∷ []) ∷ []) machine
      (cpu_run_halts ([] ∷ []) (irq ∷ halt ∷ []) [] (powered no_host (λ n. true) small_rom machine)
        refl).0
      0xD002 refl
      (cpu_run_halts ([] ∷ []) (irq ∷ halt ∷ []) [] (powered no_host (λ n. true) small_rom machine)
        refl).1
      (omega arith) (omega arith)
