-- ===== src/Monitor/Edit.antt =====
-- The last branch of `parse_command` of src/monitor.c: looking at memory and writing to it.
pub mod Writes
pub mod Fills
use v6502c.Base.{ℕ, zero, suc, ◌+◌, ◌-◌, Bool, true, false, ◌&&◌, ◌||◌, Option, none, some}
use v6502c.Base.{List, [], ◌∷◌, ◌==◌, ltb, leb, if◌then◌else◌, u16}
use v6502c.Base.{Bytes, first_of, last_of, behind, length, get_or, set}
use v6502c.AddrList.{AddressRange, range}
use v6502c.Cpu.State.{Cpu, cpu_write_byte}
use v6502c.Cpu.Step.{cpu_run}
use v6502c.Machine.{Board}
use v6502c.Monitor.Scan.{parse_byte, parse_address, parse_address_range}
use v6502c.Monitor.Dump.{Shown, print_memory}
use v6502c.Monitor.Session.{
  Message, memory, bad_value, bad_command, Session, say, say_counter, Setting,
}

-- `editing`
pub data Editing : Type 0 where
  not_editing editing editing_range : Editing

-- The locals of the loop: `i`, `editing`, `current`, `firstarg`, `ar.end` and `argv`.
pub record Locals : Type 0 where
  pub i : ℕ
  pub mode : Editing
  pub current : ℕ
  pub firstarg : ℕ
  pub end : ℕ
  pub argv : List Bytes

-- After a round: the loop goes on, with the locals after `i++`; it is left; a call does not return.
pub data Round (H : Type 0) : Type 0 where
  next : Locals → Session H → Round H
  leave : Session H → Round H
  hangs : Round H

-- `i++`
abbrev pub advance : Locals → Locals
advance l = record l { i = l.i + 1 }

-- The locals before the loop.
abbrev pub first_locals : List Bytes → Locals
first_locals argv = record {
  i = 0;
  mode = not_editing;
  current = 0;
  firstarg = 0;
  end = 0;
  argv = argv;
}

module _ {H : Type 0} where
  -- A call of `print_memory` and the rest of its round.
  abbrev pub shown : Locals → Session H → Option (List Shown × Board H) → Round H
  shown l s none = hangs
  shown l s (some (out, bus)) =
      next (advance l) (say (record s { machine = record (s.machine) { bus = bus } }) (memory out))

  -- A call of `cpu_run` at the end of a command.
  abbrev pub ran : Session H → Option (Cpu (Board H)) → Round H
  ran s none = hangs
  ran s (some c) = leave (record s { machine = c })

  module _ (given : Setting H) where
    open given use {bare_prefix, requests, rounds}

    abbrev pub show_range : Locals → ℕ → ℕ → Session H → Round H
    show_range l start end s =
        shown l s (print_memory s.machine.read rounds start end s.machine.bus)

    -- `10F0 R`
    unfoldable pub go_at : ℕ → Session H → Round H
    go_at a s =
        let c = record (s.machine) { pc = a } in
        ran (say_counter s s.machine.pc a) (cpu_run (requests c) c)

    -- A range, from its first address on: edited if a colon ends the argument, printed if not.
    unfoldable pub on_range : Locals → Bytes → AddressRange → Session H → Round H
    on_range l arg ar s =
        let s' = record s { last = ar.start } in
        let l' = record l { end = ar.end } in
        if last_of arg == b':'
        then next (record (advance l') { mode = editing_range; current = ar.start; firstarg = l.i })
            s'
        else show_range l' ar.start ar.end s'

    -- An address: edited from, run from, or printed.
    unfoldable pub on_address : Locals → Bytes → ℕ → Session H → Round H
    on_address l arg a s =
        let s' = record s { last = a } in
        let follows = first_of (get_or l.argv (l.i + 1) []) in
        if last_of arg == b':'
        then next (record (advance l) { mode = editing; current = a }) s'
        else if ltb (l.i + 1) (length l.argv) && (follows == b'R' || follows == b'r')
        then go_at a s'
        else show_range l a a s'

    unfoldable pub on_other : Locals → Bytes → Session H → Round H
    on_other l arg s =
        if l.i == 0
        then leave (say s (bad_command arg))
        else next (advance l) (say s (bad_value arg))

    -- `.FFFF`: a range from the last address.
    unfoldable pub on_dot : Locals → Bytes → Session H → Option ℕ → Round H
    on_dot l arg s none = leave (say s (bad_value arg))
    on_dot l arg s (some end) = on_range l (behind arg) (range s.last end) s

    abbrev pub address_or_other : Locals → Bytes → Session H → Option ℕ → Round H
    address_or_other l arg s none = on_other l arg s
    address_or_other l arg s (some a) = on_address l arg a s

    abbrev pub range_or_other : Locals → Bytes → Session H → Option AddressRange → Round H
    range_or_other l arg s none = address_or_other l arg s (parse_address bare_prefix arg)
    range_or_other l arg s (some ar) = on_range l arg ar s

    -- An argument outside of editing. A colon in front writes from the last address on: it is taken
    -- off, and by `i--` the rest of the argument is read next, as a byte.
    unfoldable pub look : Locals → Bytes → Session H → Round H
    look l arg s =
        if first_of arg == b':'
        then next
            (record l { mode = editing; current = s.last; argv = set l.argv l.i (behind arg) }) s
        else if first_of arg == b'.'
        then on_dot l arg s (parse_address bare_prefix (behind arg))
        else range_or_other l arg s (parse_address_range bare_prefix arg)

    -- An argument while editing: a byte is written and the address goes on, wrapping at 16 bits;
    -- anything else is passed over. In a range the arguments are used again from the first.
    unfoldable pub edit : Editing → Locals → Session H → Option ℕ → Round H
    edit mode l s none = next (advance l) s
    edit not_editing l s (some b) = next (advance l) s
    edit editing l s (some b) =
        next (record (advance l) { current = u16 (l.current + 1) })
          (record s { machine = cpu_write_byte s.machine l.current b })
    edit editing_range l s (some b) =
        let c = u16 (l.current + 1) in
        let s' = record s { machine = cpu_write_byte s.machine l.current b } in
        let l' = record (advance l) { current = c } in
        if ltb l.end c
        then leave s'
        else if l.i + 1 == length l.argv
        then next (record l' { i = l.firstarg + 1 }) s'
        else next l' s'

    unfoldable pub edit_or_look : Editing → Locals → Bytes → Session H → Round H
    edit_or_look not_editing l arg s = look l arg s
    edit_or_look editing l arg s = edit editing l s (parse_byte bare_prefix arg)
    edit_or_look editing_range l arg s = edit editing_range l s (parse_byte bare_prefix arg)

    -- The loop over the arguments; `none` if a call hangs or the rounds run out.
    unfoldable pub edit_loop : ℕ → Locals → Session H → Option (Session H)
    edit_loop zero l s = none
    edit_loop (suc fuel) l s =
        let arg = get_or l.argv l.i [] in
        let rest : Option (Session H) = elim (edit_or_look l.mode l arg s) [
          | next l' s' ↦ edit_loop fuel l' s'
          | leave s' ↦ some s'
          | hangs ↦ none
        ] in
        if ltb l.i (length l.argv) then rest else some s
