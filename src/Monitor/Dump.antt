-- ===== src/Monitor/Dump.antt =====
-- `print_memory` of src/monitor.c.
pub mod Shows
use v6502c.Base.{ℕ, zero, suc, ◌+◌, ◌%◌, bit_and, Bool, true, false, not, Option, none, some}
use v6502c.Base.{List, [], ◌∷◌, ◌++◌, ◌==◌, leb, if◌then◌else◌, u16}
use v6502c.Cpu.State.{ReadFn, bus_read}

-- What one call prints: the end of a line, the header of a page, the address of a row, a byte, the
-- blanks before the first byte.
pub data Shown : Type 0 where
  end_row header gap : Shown
  row_at byte_at : ℕ → Shown

-- What is printed before the byte at `current`, at the left edge only.
abbrev pub row_start : ℕ → ℕ → ℕ → ℕ → List Shown
row_start column row current start =
    if column == 0
    then (if current == start then [] else end_row ∷ [])
      ++ ((if row == 0 then header ∷ [] else []) ++ row_at current ∷ [])
    else []

module _ {S : Type 0} (read : Option (ReadFn S)) where
  abbrev pub show_before : List Shown → Option (List Shown × S) → Option (List Shown × S)
  show_before out none = none
  show_before out (some r) = some (out ++ r.0, r.1)

  -- The byte at `current`, or blanks before the start of the range.
  abbrev pub show_byte : ℕ → ℕ → S → Shown × S
  show_byte current start s =
      let r = bus_read read current s in if leb start current then (byte_at r.0, r.1) else (gap, s)

  -- `while (current <= end)`, with the `break` at 0xFFFF; `none` if the rounds run out.
  unfoldable pub dump_loop : ℕ → ℕ → ℕ → ℕ → ℕ → ℕ → S → Option (List Shown × S)
  dump_loop zero current start end column row s = none
  dump_loop (suc rounds) current start end column row s =
      let b = show_byte current start s in
      let out = row_start column row current start ++ b.0 ∷ [] in
      let row' = if column == 0 then (row + 1) % 23 else row in
      let rest = dump_loop rounds (u16 (current + 1)) start end ((column + 1) % 16) row' b.1 in
      if leb current end
      then (if current == 0xFFFF then some (out, b.1) else show_before out rest)
      else some ([], s)

  abbrev pub with_end : Option (List Shown × S) → Option (List Shown × S)
  with_end none = none
  with_end (some r) = some (r.0 ++ end_row ∷ [], r.1)

  unfoldable pub print_memory : ℕ → ℕ → ℕ → S → Option (List Shown × S)
  print_memory rounds start end s =
      with_end (dump_loop rounds (bit_and start 0xFFF0) start end 0 0 s)
