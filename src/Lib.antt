-- ===== src/Lib.antt =====
-- v6502c is a 6502 processor in C with a small machine around it. The processor (src/v6502.c and
-- src/inst.h) reaches memory through two callbacks; the machine (src/vmachine.c) answers them from
-- 64 KB of memory, two serial ports, a timer chip and a file device (src/devices.c), and keeps a list
-- of address ranges that are write-protected (src/addrlist.c).
--
-- How the files correspond to the code:
--
-- Base: shared names, tests, the casts `u8` and `u16`, and laws of single bits.
-- AddrList (src/addrlist.h, src/addrlist.c): a list of ranges for the chain of nodes, with
--   init_address_range_list, add_address_range, remove_address_range, is_address_in_range,
--   is_address_in_range_list and clear_address_range_list under their names. AddrList/Contains has
--   what is covered, AddrList/Apart the order and the distance of the ranges. AddrList/Nodes has the
--   same functions on nodes in a heap, linked both ways (add_address_range is `add_nodes`,
--   remove_address_range `remove_nodes`, is_address_in_range_list `covers_nodes`); the modules below it
--   say what nodes stand for which list. A null pointer is `none`, and so is the result of a read or
--   a free of a cell that is not in use.
-- Inst (src/inst.h): the enumerations and the two opcode tables; Inst/Matrix describes them.
-- Cpu/State (src/v6502.h, src/v6502.c): the record `Cpu` for `cpu`, with the state of the bus as a
--   field of any type; the status bits (`_set_bit` is `set_flag` on the byte and `set_bit` on the
--   record), reads, writes, `_push` and `_pop`.
-- Cpu/Load: the first switch of `cpu_step`, as `load`. Cpu/Alu and Cpu/Exec: the second, as `exec`.
-- Cpu/Step: `_reset` is `do_reset`; cpu_step, cpu_run and the requests under their names. `cpu_run`
--   runs over a list of rounds; each has the requests that come before the next test of the loop.
-- Cpu/Addresses, Cpu/Flags, Cpu/Alu/Sums, Cpu/Alu/Decimal, Cpu/Alu/Shifts, Cpu/Branches, Cpu/Stack,
--   Cpu/Stack/Calls, Cpu/Stack/Interrupts, Cpu/Run, Cpu/Invariant, Cpu/Quirks: proofs about these.
-- Devices/Host: the calls of the operating system, which are parameters.
-- Devices/Acia, Devices/Via, Devices/FileIo (src/devices.h, src/devices.c): one file each, with
--   read, write, reset and create; the proofs are in the modules below.
-- Machine (src/vmachine.h, src/vmachine.c): memory map, protection, initialisation and clean-up; the
--   record `Board` is the bus of a `Cpu`. Machine/Bus, Machine/Rom and Machine/Ram have the proofs.
-- Monitor (src/monitor.c): write_file. Monitor/Args, Monitor/Scan and Monitor/Hex: the words of a
--   line, and numbers as `sscanf` and `printf` have them. Monitor/Dump: print_memory. Monitor/Session: what
--   a session holds and prints, and what it is given. Monitor/Edit: the last branch of parse_command,
--   which looks at memory and edits it. Monitor/Table: the words of the commands. Monitor/Command:
--   the other branches, and parse_command.
--   Monitor/Repl: read_line, monitor_repl and read_file. The modules below have the proofs, and
--   Monitor/Reload those about SAVE and LOAD together; `Monitor.Reload.Disk` says what files do.
-- Bin2woz (utils/bin2woz.c): its loop and `main`; Bin2woz/Rows describes the text by rows.
-- Cli (utils/cli.c): the machine and the scripts; Cli/Image: load_woz_rom, load_binary_rom and
--   load_rom. Cli/Pty: pty_alloc and pty_destroy. Cli/Main: `main`, with and without the terminals.
--   Cli/Image/Loads, Cli/Image/Readable, Cli/Image/Ends, Cli/Image/Rows, Cli/Image/RoundTrip, Cli/Boot
--   and Cli/Pty/Returns have the proofs.
-- Hello (src/hello.c): the example that embeds the processor.
-- The modules called Tests have runs at concrete states.
--
-- How the parts interact: `Cpu.Stack.StackRam` says what the processor's stack needs of a bus, and
-- `Machine.Ram.machine_stack` shows that the machine provides it. `Cpu.Invariant.Kept` says what a
-- predicate on the bus must satisfy to survive a run, and `Machine.Rom.rom_kept` shows it of the
-- protected ROM. The text of rows that SAVE and bin2woz write and that the monitor and the loader of
-- ROM images read is described once, in Bin2woz/Rows; `put_rows-rows` takes what is done row by row
-- to what is done byte by byte.
--
-- Conventions: a byte or an address is a native natural number, and each wrap-around of the code is
-- written out. An `int` that can be negative is kept 0x100 (or 0x10) too high. Memory is a function.
-- Fuel is in the loops of write_file and print_memory, where any fuel above the number of bytes (and
-- 15 for print_memory) is enough; in the editor's loop (two more than the bytes of the line, or than
-- the addresses of a range), in monitor_repl (one more than the lines), in load_woz_rom (one more than
-- the bytes of a line), and in the loops of programs that the proofs run on the devices (`drain`,
-- `load_all`; above the number of bytes). Where the code never ends, the theorems say so for every
-- fuel. The loops over the nodes of a heap take one round more than there are nodes. The run loop takes
-- as many rounds as its list has, and returns `none` if the processor still runs after them. Where the
-- code calls malloc, an argument says whether it succeeds, and on a heap it is the cell, which is not in
-- use. What the terminals of utils/cli.c hold is counted by `Cli.Pty.Ledger.IsLedger`, which says what
-- is documented of the calls of the system. `fgetc` is a function on the state of the host; `Monitor.Repl.Loading.Stream` says what a stream with a content
-- does, and the tests have a host with one.
--
-- Not modelled: the texts of the messages, the callback that traces each step from vmachine.c and the
-- verbose messages there, errors of `fgetc` that are not the end of a file, and the tests of NULL for a
-- processor or a list, and the size of the array `argv` in parse_command: its 256 entries are enough for
-- the words of a line of at most 255 characters. No request comes in the middle of a step: a request to
-- halt that comes while a step resets the processor has no place in `cpu_run`. The pieces that
-- write_file prints reach the file after the reads of memory, as they do from the buffer of the stream.
pub mod Base
pub mod Bin2woz
pub mod AddrList
pub mod Inst
pub mod Cpu
pub mod Devices
pub mod Machine
pub mod Monitor
pub mod Cli
pub mod Hello
