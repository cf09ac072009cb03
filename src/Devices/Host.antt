-- ===== src/Devices/Host.antt =====
-- The calls of the operating system and of the C library that src/devices.c makes. They are not
-- part of the repository: whoever uses the devices gives them, with the state `H` that they share.
-- A stream (`FILE *`) is a number.
use v6502c.Base.{ℕ, Bool, Option, List}

pub record Host (H : Type 0) : Type 0 where
  -- whether `select` reports the stream's descriptor as readable
  pub select_ready : ℕ → H → Bool
  -- `read(fd, &ch, 1)`: the byte, if the call returns 1
  pub read_byte : ℕ → H → Option ℕ × H
  -- `fputc`; the `fflush` behind it in the ACIA changes nothing that a program can see
  pub put_char : ℕ → ℕ → H → H
  -- `fopen` for reading and for writing, of a name without its final zero
  pub open_read : List ℕ → H → Option ℕ × H
  pub open_write : List ℕ → H → Option ℕ × H
  -- `fgetc`, with `none` for EOF
  pub get_char : ℕ → H → Option ℕ × H
  pub close_file : ℕ → H → H
