-- ===== src/Monitor/Tests.antt =====
-- The monitor at concrete lines, files and ranges.
use v6502c.Base.{
  ℕ, ◌-◌, ◌≡◌, ◌≤◌, refl, arith, true, false, ◌&&◌, ◌||◌, Option, none, some, List, [], ◌∷◌,
}
use v6502c.Base.{if◌then◌else◌, Bytes, codes, get_or}
use v6502c.AddrList.{range, is_address_in_range}
use v6502c.Cpu.State.{cpu_65c02}
use v6502c.Cpu.Quirks.{Memory, memory_read}
use v6502c.Devices.Host.{Host}
use v6502c.Machine.{is_address_protected, machine_read, machine_write}
use v6502c.Monitor.{Piece, text_of, write_file}
use v6502c.Monitor.Args.{parseargs}
use v6502c.Monitor.Args.Words.{words, parseargs-words}
use v6502c.Monitor.Saving.{reads, write_file-last}
use v6502c.Monitor.Saving.Text.{write_file-bin2woz}
use v6502c.Monitor.Dump.{Shown, print_memory}
use v6502c.Monitor.Dump.Shows.{bytes_shown, print_memory_lem}
use v6502c.Monitor.Session.{Session, Setting}
use v6502c.Monitor.Edit.Writes.{store}
use v6502c.Monitor.Edit.Fills.{cycle}
use v6502c.Monitor.Command.{parse_command}
use v6502c.Monitor.Command.Line.{
  write_line, fill_line, parse_command-fill_line, parse_command-fill_last,
}
use v6502c.Monitor.Command.Guard.{parse_command-guard}
use v6502c.Monitor.Command.Memory.{spans, is_plain, parse_command-mem}
use v6502c.Monitor.Command.Protecting.{range_line, parse_command-protect}
use v6502c.Monitor.Repl.{read_line, monitor_repl}
use v6502c.Monitor.Repl.Loading.{Stream, read_line-last}
use v6502c.Monitor.Repl.Rows.{put_byte, monitor_repl-bin2woz}
use v6502c.Bin2woz.{woz_loop}
use v6502c.Bin2woz.Rows.{put_all}

abbrev ramp : Memory
ramp p = p

-- A host with one stream, of which the state is what is left.
abbrev next_char : Bytes → Option ℕ × Bytes
next_char [] = (none, [])
next_char (c ∷ cs) = (some c, cs)

abbrev text_host : Host Bytes
text_host = record {
  select_ready = λ f h. false;
  read_byte = λ f h. (none, h);
  put_char = λ f c h. h;
  open_read = λ name h. (none, h);
  open_write = λ name h. (none, h);
  get_char = λ f h. next_char h;
  close_file = λ f h. h;
}

abbrev setting : Setting Bytes
setting = record {
  os = text_host;
  bare_prefix = λ s. some (0, s);
  room = true;
  requests = λ c. [];
  rounds = 20;
}

abbrev stream_left : Bytes → Bytes
stream_left h = h

next_char-first :
    (h : Bytes) (c : ℕ) (cs : Bytes)
    → h ≡ c ∷ cs
    → ((next_char h).0 ≡ some c) × ((next_char h).1 ≡ cs)
next_char-first [] c cs e = absurd cc
next_char-first (d ∷ ds) c cs e = (cc, cc)

next_char-end : (h : Bytes) → h ≡ [] → (next_char h).0 ≡ none
next_char-end [] e = refl
next_char-end (d ∷ ds) e = absurd cc

text-Stream : Stream setting 0 stream_left
text-Stream = record { takes_first = next_char-first; ends = next_char-end }

abbrev session : Bytes → Session Bytes
session text = record {
  machine = record {
    pc = 0;
    a = 0;
    x = 0;
    y = 0;
    sr = 0x36;
    sp = 0xFD;
    halted = false;
    reset = false;
    irq = false;
    nmi = false;
    variant = cpu_65c02;
    read = some (machine_read text_host);
    write = some (machine_write text_host);
    tick = none;
    bus = record {
      mem = λ p. 0xEA;
      protected_ranges = range 0xD000 0xFFFF ∷ [];
      acia1 = none;
      acia2 = none;
      via = none;
      fio = none;
      host = text;
    };
  };
  last = 0;
  trace = false;
  verbose = false;
  out = [];
}

abbrev no_file : Bytes → Session Bytes → Option (Session Bytes)
no_file name s = some s

abbrev two_bytes : List ℕ
two_bytes = 0x12 ∷ 0xAB ∷ []

parseargs-words_example : parseargs (codes " 10F0:  A9 ") ≡ words (codes " 10F0:  A9 ")
parseargs-words_example = parseargs-words (codes " 10F0:  A9 ") (ground arith)

two_words : words (codes " 10F0:  A9 ") ≡ codes "10F0:" ∷ codes "A9" ∷ []
unfolding v6502c.Monitor.Args.is_whitespace
two_words = refl

write_file-last_example : write_file (some memory_read) 100 true (range 0xFF00 0xFFFF) ramp ≡ none
write_file-last_example = write_file-last (some memory_read) 100 0xFF00 ramp (omega arith)

write_file-bin2woz_example :
    (out : List Piece) × (write_file (some memory_read) 11 true (range 0x10 0x19) ramp
      ≡ some (10, out, (reads (some memory_read) 10 0x10 ramp).1))
    × (text_of out ≡ woz_loop 0x10 0 (reads (some memory_read) 10 0x10 ramp).0)
write_file-bin2woz_example =
    write_file-bin2woz (some memory_read) 11 9 (range 0x10 0x19) ramp (omega arith) (omega arith)
      (omega arith)

print_memory_lem_example :
    (out : List Shown) × (print_memory (some memory_read) 20 0xFFFD 0xFFFF ramp
      ≡ some (out, (reads (some memory_read) 3 0xFFFD ramp).1))
    × (bytes_shown out ≡ (reads (some memory_read) 3 0xFFFD ramp).0)
print_memory_lem_example =
    print_memory_lem (some memory_read) 20 3 0xFFFD 0xFFFF ramp (omega arith) (omega arith)
      (omega arith) (omega arith)

parse_command-mem_example :
    (s' : Session Bytes) × (parse_command setting no_file (write_line 0x0300 two_bytes) (session [])
      ≡ some (false, s'))
    × ((p : ℕ)
        → s'.machine.bus.mem p ≡ (
            if spans 0x0300 2 p && is_plain (session []).machine.bus p
            then get_or two_bytes (p - 0x0300) 0
            else 0xEA))
parse_command-mem_example =
    parse_command-mem setting no_file 0x0300 two_bytes (session []) refl (omega arith) (omega arith)
      (ground arith) (omega arith)

parse_command-fill_line_example :
    parse_command setting no_file (fill_line 0x0300 0x0304 two_bytes) (session [])
    ≡ some (
      false,
      record (session []) {
        last = 0x0300;
        machine = store (session []).machine 0x0300 (cycle 5 two_bytes two_bytes);
      },
    )
parse_command-fill_line_example =
    parse_command-fill_line setting no_file 0x0300 4 two_bytes (session []) (omega arith) (λ p. cc)
      (ground arith) (omega arith)

parse_command-fill_last_example :
    parse_command setting no_file (fill_line 0xFF00 0xFFFF two_bytes) (session []) ≡ none
parse_command-fill_last_example =
    parse_command-fill_last setting no_file 0xFF00 two_bytes (session []) (omega arith) (λ p. cc)
      (ground arith)

parse_command-protect_example :
    (s' : Session Bytes) × (parse_command setting no_file
        (range_line (codes "PROTECT") 0x0200 0x02FF)
        (session [])
      ≡ some (false, s'))
    × ((a : ℕ)
        → is_address_protected s'.machine.bus.protected_ranges a ≡ (
            is_address_in_range (range 0x0200 0x02FF) a
            || is_address_protected (range 0xD000 0xFFFF ∷ []) a))
parse_command-protect_example =
    parse_command-protect setting no_file 0x0200 0x02FF (session []) (omega arith) (omega arith)
      refl

read_line-last_example : (read_line setting 0 255 (codes "300: A9")).0 ≡ none
read_line-last_example =
    read_line-last setting 0 stream_left text-Stream (codes "300: A9") (codes "300: A9") refl
      (ground arith) (omega arith)

monitor_repl-bin2woz_example :
    (s' : Session Bytes) × (monitor_repl setting 3 false 0 (session (woz_loop 0x0300 0 two_bytes))
      ≡ some s')
    × (s'.machine.bus.mem
        ≡ put_all (put_byte (range 0xD000 0xFFFF ∷ [])) (λ p. 0xEA) 0x0300 two_bytes)
    × (s'.machine.bus.protected_ranges ≡ range 0xD000 0xFFFF ∷ [])
    × (s'.out ≡ [])
monitor_repl-bin2woz_example =
    monitor_repl-bin2woz setting 0 stream_left text-Stream 0x0300 two_bytes 3
      (session (woz_loop 0x0300 0 two_bytes)) refl refl (omega arith) (ground arith)
      (λ p x y. ground arith) (omega arith) (omega arith)

parse_command-guard_example :
    (s1 s2 : Session Bytes) × (parse_command setting no_file
        (range_line (codes "PROTECT") 0x0000 0x00FF)
        (session [])
      ≡ some (false, s1))
    × (parse_command setting no_file (write_line 0xFFFF two_bytes) s1 ≡ some (false, s2))
    × ((p : ℕ) → 0x0000 ≤ p → p ≤ 0x00FF → s2.machine.bus.mem p ≡ 0xEA)
parse_command-guard_example =
    parse_command-guard setting no_file 0x0000 0x00FF 0xFFFF two_bytes (session []) refl refl
      (omega arith) (omega arith) (omega arith) (ground arith) (omega arith)
