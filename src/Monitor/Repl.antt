-- ===== src/Monitor/Repl.antt =====
-- `read_line`, `monitor_repl` and `read_file` of src/monitor.c.
pub mod Loading
pub mod Rows
use v6502c.Base.{ℕ, zero, suc, ◌+◌, Bool, true, false, ◌||◌, Option, none, some, List, [], ◌∷◌}
use v6502c.Base.{◌==◌, if◌then◌else◌, Bytes, until_zero}
use v6502c.Devices.Host.{Host}
use v6502c.Machine.{Board}
use v6502c.Monitor.Session.{Message, prompt, loading, cannot_open, Session, say, Setting}
use v6502c.Monitor.Command.{Outcome, with_machine, parse_command}

abbrev pub is_line_end : ℕ → Bool
is_line_end c = c == b'\n' || c == b'\r'

abbrev pub cons_line : {H : Type 0} → ℕ → Option Bytes × H → Option Bytes × H
cons_line c (none, h) = (none, h)
cons_line c (some cs, h) = (some (c ∷ cs), h)

module _ {H : Type 0} (given : Setting H) where
  open given use {os}
  open os use {get_char, open_read, close_file}

  -- The loop of `read_line` with `left` places, the character `c` at hand. `none` is EOF.
  unfoldable pub line_loop : ℕ → ℕ → Option ℕ → H → Option Bytes × H
  line_loop f left none h = (none, h)
  line_loop f zero (some c) h = (some [], h)
  line_loop f (suc zero) (some c) h = if is_line_end c then (some [], h) else (some (c ∷ []), h)
  line_loop f (suc (suc left)) (some c) h =
      let r = get_char f h in
      let rest = cons_line c (line_loop f (suc left) r.0 r.1) in
      if is_line_end c then (some [], h) else rest

  unfoldable pub read_line : ℕ → ℕ → H → Option Bytes × H
  read_line f maxlen h = let r = get_char f h in line_loop f maxlen r.0 r.1

  abbrev pub with_host : Session H → H → Session H
  with_host s h = with_machine s (record (s.machine) { bus = record (s.machine.bus) { host = h } })

  abbrev pub opened_file :
      (ℕ → Session H → Option (Session H)) → Bytes → Session H → Option ℕ × H → Option (Session H)
  opened_file repl name s (none, h) = some (say (with_host s h) (cannot_open name))
  opened_file repl name s (some f, h) = elim (repl f (with_host s h)) [
    | none ↦ none
    | some s' ↦ some (with_host s' (close_file f s'.machine.bus.host))
  ]

  -- `read_file`, with the `monitor_repl` that reads the stream.
  unfoldable pub read_file :
      (ℕ → Session H → Option (Session H)) → Bytes → Session H → Option (Session H)
  read_file repl name s =
      let s' = say s (loading name) in opened_file repl name s' (open_read name s.machine.bus.host)

  -- What `monitor_repl` does with what `parse_command` returns.
  abbrev pub after_command : (Session H → Option (Session H)) → Outcome H → Option (Session H)
  after_command again none = none
  after_command again (some (true, s)) = some s
  after_command again (some (false, s)) = again s

  -- What `monitor_repl` does with a line, or at the end of the stream.
  abbrev pub after_line :
      (ℕ → Session H → Option (Session H))
      → (Session H → Option (Session H))
      → Option Bytes
      → Session H
      → Option (Session H)
  after_line repl again none s = some s
  after_line repl again (some line) s =
      after_command again (parse_command given (read_file repl) (until_zero line) s)

  -- One line for each unit of fuel, those of files that a line loads included. `interactive` says
  -- that the stream is stdin.
  unfoldable pub monitor_repl : ℕ → Bool → ℕ → Session H → Option (Session H)
  monitor_repl zero interactive f s = none
  monitor_repl (suc fuel) interactive f s =
      let s' = if interactive then say s prompt else s in
      let r = read_line f 255 s'.machine.bus.host in
      after_line (monitor_repl fuel false) (monitor_repl fuel interactive f) r.0 (with_host s' r.1)
