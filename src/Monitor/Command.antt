-- ===== src/Monitor/Command.antt =====
-- `parse_command` of src/monitor.c: one line of input.
pub mod Line
pub mod Protecting
pub mod Memory
pub mod Guard
use v6502c.Base.{ℕ, zero, suc, ◌+◌, ◌-◌, Bool, true, false, not, ◌&&◌, ◌||◌, Option, none, some}
use v6502c.Base.{List, [], ◌∷◌, ◌++◌, map, ◌==◌, ltb, leb, if◌then◌else◌, u8}
use v6502c.Base.{Bytes, codes, str_eq, first_of, length, get_or}
use v6502c.AddrList.{AddressRange}
use v6502c.Cpu.State.{Cpu, Variant, cpu_6502, cpu_65c02}
use v6502c.Cpu.Step.{cpu_run, cpu_step, cpu_reset, cpu_set_variant}
use v6502c.Devices.Host.{Host}
use v6502c.Machine.{Board, add_protected_range, remove_protected_range}
use v6502c.Monitor.{Piece, text_of, write_file}
use v6502c.Monitor.Args.{is_whitespace, parseargs}
use v6502c.Monitor.Scan.{parse_byte, parse_address, parse_address_range, skip_whitespace}
use v6502c.Monitor.Session.{
  Message, help, pc_is, register_is, verbose_is, variant_is, variant_set, bad_variant, bad_address,
  bad_value, bad_range, want_filename, want_range, want_range_and_filename, loading, cannot_open,
  writing, protecting, unprotecting, Session, say, say_counter, say_register, Setting,
}
use v6502c.Monitor.Edit.{first_locals, edit_loop}
use v6502c.Monitor.Table.{
  Register, Command, show_help, quit, reset, step, go, go_tracing, toggle_verbose, show_registers,
  counter, register, variant, load, save, protect, unprotect, edit_memory, commands, find_command,
  upper_first, register_name, get_register, put_register,
}

-- What a branch returns: does the monitor end, and the session; `none` for a branch that hangs.
abbrev pub Outcome : Type 0 → Type 0
Outcome H = Option (Bool × Session H)

module _ {H : Type 0} where
  abbrev pub with_machine : Session H → Cpu (Board H) → Session H
  with_machine s c = record s { machine = c }

  abbrev pub stay : Session H → Outcome H
  stay s = some (false, s)

  abbrev pub stay_with : Option (Session H) → Outcome H
  stay_with none = none
  stay_with (some s) = some (false, s)

  abbrev pub run_over : Session H → Option (Cpu (Board H)) → Outcome H
  run_over s none = none
  run_over s (some c) = stay (with_machine s c)

  -- The five calls of "?".
  unfoldable pub print_registers : Session H → Session H
  print_registers s =
      let c = s.machine in
      record s {
        out =
            s.out
            ++ pc_is c.pc
              ∷ register_is (codes " A") c.a
              ∷ register_is (codes " X") c.x
              ∷ register_is (codes " Y") c.y
              ∷ register_is (codes "SR") c.sr
              ∷ register_is (codes "SP") c.sp
              ∷ [];
      }

  unfoldable pub set_counter : Session H → Bytes → Option ℕ → Session H
  set_counter s arg none = say s (bad_address arg)
  set_counter s arg (some a) =
      say_counter (with_machine s (record (s.machine) { pc = a })) s.machine.pc a

  unfoldable pub set_register : Register → Session H → Bytes → Option ℕ → Session H
  set_register r s arg none = say s (bad_value arg)
  set_register r s arg (some v) =
      let old = get_register r s.machine in
      say_register (with_machine s (put_register r s.machine v)) (register_name r) old v

  unfoldable pub set_variant : Session H → Bytes → Session H
  set_variant s arg =
      if str_eq (codes "6502") arg
      then say (with_machine s (cpu_set_variant s.machine cpu_6502)) (variant_set cpu_6502)
      else if str_eq (codes "65C02") arg
      then say (with_machine s (cpu_set_variant s.machine cpu_65c02)) (variant_set cpu_65c02)
      else say s (bad_variant arg)

  module _ (given : Setting H) where
    open given use {os, bare_prefix, room, requests, rounds}
    open os use {open_write, put_char, close_file}

    unfoldable pub go_from : Session H → Bytes → Option ℕ → Outcome H
    go_from s arg none = stay (say s (bad_address arg))
    go_from s arg (some a) =
        let c = record (s.machine) { pc = a } in run_over s (cpu_run (requests c) c)

    -- `argc > 1` or not, and the trace flag.
    unfoldable pub start_run : Bool → List Bytes → Session H → Outcome H
    start_run traced [] s =
        run_over (record s { trace = traced }) (cpu_run (requests s.machine) s.machine)
    start_run traced (arg ∷ more) s =
        go_from (record s { trace = traced }) arg (parse_address bare_prefix arg)

    unfoldable pub put_text : ℕ → Bytes → H → H
    put_text f [] h = h
    put_text f (c ∷ cs) h = put_text f cs (put_char f c h)

    -- What `write_file` leaves: the text goes to the file, which is closed.
    abbrev pub saved : ℕ → Session H → Option (ℕ × List Piece × Board H) → Outcome H
    saved f s none = none
    saved f s (some (count, text, bus)) =
        let h = close_file f (put_text f (text_of text) bus.host) in
        stay (with_machine s (record (s.machine) { bus = record bus { host = h } }))

    abbrev pub save_opened : Session H → AddressRange → Bytes → Option ℕ × H → Outcome H
    save_opened s ar name (none, h) = stay (
        say (with_machine s (record (s.machine) { bus = record (s.machine.bus) { host = h } }))
          (cannot_open name))
    save_opened s ar name (some f, h) =
        saved f s (write_file s.machine.read rounds true ar (record (s.machine.bus) { host = h }))

    unfoldable pub save_range : Session H → Bytes → Bytes → Option AddressRange → Outcome H
    save_range s arg name none = stay (say s (bad_range arg))
    save_range s arg name (some ar) =
        save_opened (say s (writing ar name)) ar name (open_write name s.machine.bus.host)

    unfoldable pub save_file : List Bytes → Session H → Outcome H
    save_file [] s = stay (say s want_range_and_filename)
    save_file (arg ∷ []) s = stay (say s want_filename)
    save_file (arg ∷ name ∷ more) s = save_range s arg name (parse_address_range bare_prefix arg)

    unfoldable pub protect_range : Session H → Bytes → Option AddressRange → Session H
    protect_range s arg none = say s (bad_range arg)
    protect_range s arg (some ar) =
        with_machine (say s (protecting ar))
          (record (s.machine) { bus = add_protected_range room s.machine.bus ar })

    unfoldable pub unprotect_range : Session H → Bytes → Option AddressRange → Session H
    unprotect_range s arg none = say s (bad_range arg)
    unprotect_range s arg (some ar) =
        with_machine (say s (unprotecting ar))
          (record (s.machine) { bus = remove_protected_range room s.machine.bus ar })

    -- A branch: the arguments behind the command, and all of them. `load_file` is `read_file`.
    unfoldable pub run_command :
        (Bytes → Session H → Option (Session H))
        → Command
        → List Bytes
        → List Bytes
        → Session H
        → Outcome H
    run_command load_file show_help args argv s = stay (say s help)
    run_command load_file quit args argv s = some (true, s)
    run_command load_file reset args argv s = stay (with_machine s (cpu_step (cpu_reset s.machine)))
    run_command load_file step args argv s = stay (with_machine s (cpu_step s.machine))
    run_command load_file go args argv s = start_run false args s
    run_command load_file go_tracing args argv s = start_run true args s
    run_command load_file toggle_verbose args argv s =
        stay (say (record s { verbose = not s.verbose }) (verbose_is (not s.verbose)))
    run_command load_file show_registers args argv s = stay (print_registers s)
    run_command load_file counter [] argv s = stay (say s (pc_is s.machine.pc))
    run_command load_file counter (arg ∷ more) argv s =
        stay (set_counter s arg (parse_address bare_prefix arg))
    run_command load_file (register r) [] argv s =
        stay (say s (register_is (register_name r) (get_register r s.machine)))
    run_command load_file (register r) (arg ∷ more) argv s =
        stay (set_register r s arg (parse_byte bare_prefix arg))
    run_command load_file variant [] argv s = stay (say s (variant_is s.machine.variant))
    run_command load_file variant (arg ∷ more) argv s = stay (set_variant s arg)
    run_command load_file load [] argv s = stay (say s want_filename)
    run_command load_file load (name ∷ more) argv s = stay_with (load_file name s)
    run_command load_file save args argv s = save_file args s
    run_command load_file protect [] argv s = stay (say s want_range)
    run_command load_file protect (arg ∷ more) argv s =
        stay (protect_range s arg (parse_address_range bare_prefix arg))
    run_command load_file unprotect [] argv s = stay (say s want_range)
    run_command load_file unprotect (arg ∷ more) argv s =
        stay (unprotect_range s arg (parse_address_range bare_prefix arg))
    run_command load_file edit_memory args argv s =
        stay_with (edit_loop given rounds (first_locals argv) s)

    unfoldable pub run_args :
        (Bytes → Session H → Option (Session H)) → List Bytes → Session H → Outcome H
    run_args load_file [] s = stay s
    run_args load_file (cmd ∷ args) s =
        run_command load_file (find_command commands cmd) args (cmd ∷ args) s

    -- A line without its end: white space in front is skipped, and a comment is passed over.
    unfoldable pub parse_command :
        (Bytes → Session H → Option (Session H)) → Bytes → Session H → Outcome H
    parse_command load_file cmdbuf s =
        let p = skip_whitespace cmdbuf in
        if first_of p == b';' then stay s else run_args load_file (upper_first (parseargs p)) s
