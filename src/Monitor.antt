-- ===== src/Monitor.antt =====
-- src/monitor.c. This file has the loop of `write_file`, which saves a range of memory as text: a
-- list of pieces, one for each `fprintf`, with the bytes that each stands for.
pub mod Saving
pub mod Args
pub mod Dump
pub mod Session
pub mod Edit
pub mod Table
pub mod Command
pub mod Repl
pub mod Reload
pub mod Hex
pub mod Scan
mod Tests
use v6502c.Base.{ℕ, zero, suc, ◌+◌, ◌%◌, Bool, ◌&&◌, Option, none, some, List, [], ◌∷◌, ◌++◌}
use v6502c.Base.{◌==◌, leb, if◌then◌else◌, u16, Bytes}
use v6502c.Monitor.Hex.{byte_hex, address_hex}
use v6502c.Cpu.State.{ReadFn, bus_read}
use v6502c.AddrList.{AddressRange}

-- What one `fprintf` writes: an address with its colon, a byte, the end of a line.
pub data Piece : Type 0 where
  address_of value_of : ℕ → Piece
  new_line : Piece

unfoldable pub piece_text : Piece → Bytes
piece_text (address_of a) = address_hex a ++ b':' ∷ []
piece_text (value_of v) = b' ' ∷ byte_hex v
piece_text new_line = b'\n' ∷ []

unfoldable pub text_of : List Piece → Bytes
text_of [] = []
text_of (p ∷ ps) = piece_text p ++ text_of ps

module _ {S : Type 0} (read : Option (ReadFn S)) where
  -- What a round of the loop writes at the address `a`, with `count` bytes before it.
  abbrev pub save_byte : ℕ → ℕ → ℕ → ℕ → List Piece
  save_byte value next count end =
      value_of value
      ∷ (if leb next end && count % 8 == 0 then new_line ∷ address_of next ∷ [] else [])

  abbrev pub prepend : List Piece → Option (ℕ × List Piece × S) → Option (ℕ × List Piece × S)
  prepend out none = none
  prepend out (some r) = some (r.0, out ++ r.1, r.2)

  -- `while (a <= ar.end)` and the end of the last line: the count of bytes, the text and the bus
  -- after the loop, or `none` if the rounds run out. `a++` wraps at 16 bits.
  unfoldable pub save_loop : ℕ → ℕ → ℕ → ℕ → S → Option (ℕ × List Piece × S)
  save_loop zero a end i s = none
  save_loop (suc rounds) a end i s =
      let r = bus_read read a s in
      let next = u16 (a + 1) in
      let rest = save_loop rounds next end (i + 1) r.1 in
      if leb a end
      then prepend (save_byte r.0 next (i + 1) end) rest
      else some (i, new_line ∷ [], s)

  -- The body of `write_file`; `opened` says whether `fopen` returned a file.
  unfoldable pub write_file : ℕ → Bool → AddressRange → S → Option (ℕ × List Piece × S)
  write_file rounds opened ar s =
      if opened
      then prepend (address_of ar.start ∷ []) (save_loop rounds ar.start ar.end 0 s)
      else some (0, [], s)
