-- ===== src/Bin2woz.antt =====
-- utils/bin2woz.c: a binary file as lines that the monitor reads.
pub mod Rows
use v6502c.Base.{ℕ, zero, suc, ◌+◌, ◌/◌, ◌%◌, ◌^◌, Option, none, some, List, [], ◌∷◌, ◌++◌}
use v6502c.Base.{◌==◌, ltb, leb, if◌then◌else◌, Bytes, get_or, length}
use v6502c.Monitor.Hex.{hex_char, byte_hex, address_hex}

abbrev pub bytes_per_line : ℕ
bytes_per_line = 8

-- The digits of a number, without zeros in front.
unfoldable pub digits : ℕ → ℕ → Bytes
digits zero v = []
digits (suc fuel) v =
    let rest = digits fuel (v / 16) in if v == 0 then [] else rest ++ hex_char (v % 16) ∷ []

-- "%04X" of an `unsigned int`: four digits at least, and up to eight.
unfoldable pub word_hex : ℕ → Bytes
word_hex v = digits 4 (v / 2 ^ 16) ++ address_hex (v % 2 ^ 16)

-- The loop over the bytes that `fgetc` returns, and the end of the last line.
unfoldable pub woz_loop : ℕ → ℕ → List ℕ → Bytes
woz_loop addr col [] = if ltb 0 col then b'\n' ∷ [] else []
woz_loop addr col (c ∷ cs) =
    let full = leb bytes_per_line (col + 1) in
    let rest = woz_loop ((addr + 1) % 2 ^ 32) (if full then 0 else col + 1) cs in
    (if col == 0 then word_hex addr ++ b':' ∷ [] else [])
    ++ (b' ' ∷ (byte_hex c ++ ((if full then b'\n' ∷ [] else []) ++ rest)))

-- How the program ends: its messages on `stderr`, or what it prints.
pub data Exit : Type 0 where
  usage bad_start cannot_open : Exit
  printed : Bytes → Exit

-- What the program is given: how `sscanf` reads a number at "%x", without a width; and what
-- `fgetc` returns up to the end of a file, if `fopen` opens it.
module _ (scan_number : Bytes → Option ℕ) (contents : Bytes → Option (List ℕ)) where
  abbrev pub convert : ℕ → Option (List ℕ) → Exit
  convert addr none = cannot_open
  convert addr (some bytes) = printed (woz_loop addr 0 bytes)

  abbrev pub convert_from : Bytes → Option ℕ → Exit
  convert_from name none = bad_start
  convert_from name (some addr) = convert addr (contents name)

  -- `main`
  unfoldable pub bin2woz : List Bytes → Exit
  bin2woz argv =
      if length argv == 3
      then convert_from (get_or argv 2 []) (scan_number (get_or argv 1 []))
      else usage
