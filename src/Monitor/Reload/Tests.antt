-- ===== src/Monitor/Reload/Tests.antt =====
-- A range that is saved and loaded, on a disk with one file.
use v6502c.Base.{
  ℕ, ◌+◌, ◌≡◌, refl, sym, ap, arith, true, false, ◌&&◌, not, Option, none, some, [], ◌∷◌, ◌++◌,
}
use v6502c.Base.{leb, ltb, if◌then◌else◌, u8, Bytes, codes}
use v6502c.AddrList.{range}
use v6502c.Cpu.State.{cpu_65c02}
use v6502c.Devices.Host.{Host}
use v6502c.Machine.{is_address_protected, machine_read, machine_write}
use v6502c.Monitor.Session.{Session, Setting}
use v6502c.Monitor.Command.{save_file}
use v6502c.Monitor.Command.Protecting.{range_text}
use v6502c.Monitor.Repl.{read_file, monitor_repl}
use v6502c.Monitor.Reload.{Disk, with_bus, save_file-read_file}

-- The file, and what a reader of it has not read yet.
record OneFile : Type 0 where
  name : Bytes
  text : Bytes
  rest : Bytes

abbrev first_char : Bytes → Option ℕ × Bytes
first_char [] = (none, [])
first_char (c ∷ cs) = (some c, cs)

abbrev disk_host : Host OneFile
disk_host = record {
  select_ready = λ f h. false;
  read_byte = λ f h. (none, h);
  put_char = λ f c h. record h { text = h.text ++ c ∷ [] };
  open_read = λ name h. (some 2, record h { rest = h.text });
  open_write = λ name h. (some 1, record { name = name; text = []; rest = [] });
  get_char = λ f h. let r = first_char h.rest in (r.0, record h { rest = r.1 });
  close_file = λ f h. h;
}

abbrev on_disk : Setting OneFile
on_disk = record {
  os = disk_host;
  bare_prefix = λ s. some (0, s);
  room = true;
  requests = λ c. [];
  rounds = 20;
}

abbrev text_in : Option (Bytes × Bytes) → Bytes
text_in none = []
text_in (some r) = r.1

abbrev add_char : ℕ → Option (Bytes × Bytes) → Option (Bytes × Bytes)
add_char c none = none
add_char c (some r) = some (r.0, r.1 ++ c ∷ [])

first_char-first :
    (h : Bytes) (c : ℕ) (cs : Bytes)
    → h ≡ c ∷ cs
    → ((first_char h).0 ≡ some c) × ((first_char h).1 ≡ cs)
first_char-first [] c cs e = absurd cc
first_char-first (d ∷ ds) c cs e = (cc, cc)

first_char-end : (h : Bytes) → h ≡ [] → (first_char h).0 ≡ none
first_char-end [] e = refl
first_char-end (d ∷ ds) e = absurd cc

one_file-Disk : Disk on_disk
one_file-Disk = record {
  written = λ f h. some (h.name, h.text);
  left = λ g h. h.rest;
  opens = λ name f h h' e. ap (λ (r : Option ℕ × OneFile). some (r.1.name, r.1.text)) (sym e);
  puts = λ name text f c h e. ap (add_char c) e;
  reopens = λ name text f h e. (2, record h { rest = h.text }, refl, ap text_in e);
  stream = λ g. record {
    takes_first = λ h c cs e. first_char-first h.rest c cs e;
    ends = λ h e. first_char-end h.rest e;
  };
}

abbrev before : Session OneFile
before = record {
  machine = record {
    pc = 0;
    a = 0;
    x = 0;
    y = 0;
    sr = 0x36;
    sp = 0xFD;
    halted = false;
    reset = false;
    irq = false;
    nmi = false;
    variant = cpu_65c02;
    read = some (machine_read disk_host);
    write = some (machine_write disk_host);
    tick = none;
    bus = record {
      mem = λ p. 0xEA;
      protected_ranges = range 0xD000 0xFFFF ∷ [];
      acia1 = none;
      acia2 = none;
      via = none;
      fio = none;
      host = record { name = []; text = []; rest = [] };
    };
  };
  last = 0;
  trace = false;
  verbose = false;
  out = [];
}

save_file-read_file_example :
    (s1 s3 : Session OneFile) × (save_file on_disk
        (range_text 0x0300 0x0302 ∷ codes "nops" ∷ [])
        before
      ≡ some (false, s1))
    × (read_file on_disk
          (monitor_repl on_disk 3 false)
          (codes "nops")
          (with_bus on_disk s1 (record (s1.machine.bus) { mem = λ p. 0 }))
        ≡ some s3)
    × ((p : ℕ)
        → s3.machine.bus.mem p ≡ (
            if leb 0x0300 p
              && ltb p (0x0300 + 3)
              && not (is_address_protected (range 0xD000 0xFFFF ∷ []) p)
            then u8 0xEA
            else 0))
save_file-read_file_example =
    save_file-read_file on_disk one_file-Disk (codes "nops") (range 0x0300 0x0302) 2 1 3
      (record { name = codes "nops"; text = []; rest = [] }) before (λ p. 0) refl refl (omega arith)
      refl (omega arith) (omega arith) (λ p x y. ground arith) refl (omega arith)
