-- ===== src/Hello.antt =====
-- src/hello.c: an example of a program that embeds the emulator, with a character device at 0xFF00.
use v6502c.Base.{ℕ, ◌+◌, ◌-◌, ◌&&◌, Option, none, some, List, ◌==◌, leb, ltb, if◌then◌else◌, u8}
use v6502c.Cpu.State.{Cpu}
use v6502c.Cpu.Step.{Request, cpu_init, cpu_reset, cpu_run}
use v6502c.Devices.Host.{Host}

-- The global `mem`, and the state of the operating system.
pub record Hello (H : Type 0) : Type 0 where
  pub mem : ℕ → ℕ
  pub host : H

-- `getchar` returns -1 at the end, which is cut to a byte.
abbrev pub as_byte : Option ℕ → ℕ
as_byte none = 0xFF
as_byte (some c) = u8 c

-- `input` and `output` are stdin and stdout. `mem` has 0xFFFF bytes, and no byte at 0xFFFF: `mem`
-- there is whatever lies behind the array.
module _ {H : Type 0} (os : Host H) (input output : ℕ) where
  open os use {get_char, put_char}

  unfoldable pub hello_read : ℕ → Hello H → ℕ × Hello H
  hello_read a m =
      let r = get_char input m.host in
      if a == 0xFF00 then (as_byte r.0, record m { host = r.1 }) else (m.mem a, m)

  unfoldable pub hello_write : ℕ → ℕ → Hello H → Hello H
  hello_write a b m =
      if a == 0xFF00
      then record m { host = put_char output b m.host }
      else record m { mem = λ p. if p == a then b else m.mem p }

  -- `memcpy` of the program to 0x1000, and the reset vector.
  unfoldable pub hello_memory : (ℕ → ℕ) → ℕ → (ℕ → ℕ) → ℕ → ℕ
  hello_memory program len before p =
      if p == 0xFFFC
      then 0x00
      else if p == 0xFFFD
      then 0x10
      else if leb 0x1000 p && ltb p (0x1000 + len)
      then program (p - 0x1000)
      else before p

  -- `main` up to `cpu_run`. `program` and `len` are `src_hello_bin`, which the build makes.
  unfoldable pub hello_start : (ℕ → ℕ) → ℕ → Cpu (Hello H) → Cpu (Hello H)
  hello_start program len c =
      let c1 = cpu_init c in
      cpu_reset (record c1 {
        read = some hello_read;
        write = some hello_write;
        bus = record (c1.bus) { mem = hello_memory program len c1.bus.mem };
      })

  -- `main`: `none` if the requests end before a halt.
  unfoldable pub hello : (ℕ → ℕ) → ℕ → List (List Request) → Cpu (Hello H) → Option (Cpu (Hello H))
  hello program len requests c = cpu_run requests (hello_start program len c)
