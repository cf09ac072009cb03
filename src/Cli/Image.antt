-- ===== src/Cli/Image.antt =====
-- `load_binary_rom`, `load_woz_rom` and `load_rom` of utils/cli.c.
pub mod Loads
pub mod Readable
pub mod Ends
pub mod Rows
pub mod RoundTrip
use v6502c.Base.{
  ℕ, zero, suc, ◌+◌, ◌-◌, ◌*◌, ◌%◌, ◌^◌, Bool, true, false, ◌&&◌, ◌||◌, Option, none, some,
}
use v6502c.Base.{List, [], ◌∷◌, ◌==◌, ltb, leb, if◌then◌else◌, u8, Bytes, codes, str_eq, length}

-- The buffer of `max_size` bytes, as a function on its indices, and the number of bytes that the
-- loader returns, `none` for -1.
pub record RomImage : Type 0 where
  pub buffer : ℕ → ℕ
  pub size : Option ℕ

-- The value of a hexadecimal digit.
unfoldable pub nibble : ℕ → Option ℕ
nibble c =
    if leb b'0' c && leb c b'9'
    then some (c - b'0')
    else if leb b'A' c && leb c b'F'
    then some (c - b'A' + 10)
    else if leb b'a' c && leb c b'f'
    then some (c - b'a' + 10)
    else none

-- `(v << 4) | d` in `unsigned int`: the four bits that `d` takes are free.
abbrev pub shift_in : ℕ → ℕ → ℕ
shift_in v d = v * 16 % 2 ^ 32 + d

abbrev pub shift_digit : ℕ → Option ℕ → ℕ
shift_digit v none = v
shift_digit v (some d) = shift_in v d

-- The address before the colon, and the text behind it; other characters are passed over. `none`
-- for a line without a colon before its end or a zero.
unfoldable pub woz_address : ℕ → Bytes → Option (ℕ × Bytes)
woz_address v [] = none
woz_address v (c ∷ cs) =
    let rest = woz_address (shift_digit v (nibble c)) cs in
    if c == 0 then none else if c == b':' then some (v, cs) else rest

-- At most `left` digits: how many there were, with `count` before, their value and the rest.
unfoldable pub take_nibbles : ℕ → ℕ → ℕ → Bytes → ℕ × ℕ × Bytes
take_nibbles zero count v s = (count, v, s)
take_nibbles (suc left) count v [] = (count, v, [])
take_nibbles (suc left) count v (c ∷ s) = elim (nibble c) [
  | none ↦ (count, v, c ∷ s)
  | some d ↦ take_nibbles left (count + 1) (shift_in v d) s
]

unfoldable pub skip_blanks : Bytes → Bytes
skip_blanks [] = []
skip_blanks (c ∷ s) = if c == b' ' || c == b'\t' then skip_blanks s else c ∷ s

-- A line ends where its text does, at a zero, and at the characters of a new line.
unfoldable pub at_line_end : Bytes → Bool
at_line_end [] = true
at_line_end (c ∷ s) = c == 0 || c == b'\n' || c == b'\r'

-- `buffer` and `max_offset`
pub record Filled : Type 0 where
  pub bytes : ℕ → ℕ
  pub max_offset : ℕ

module _ (max_size : ℕ) where
  -- `buffer[buf_offset] = byte_val` and the offset that grows, if there was a digit.
  unfoldable pub put_value : ℕ → ℕ → ℕ → Filled → ℕ × Filled
  put_value count v at r =
      if ltb 0 count && ltb at max_size
      then (
        at + 1,
        record {
          bytes = λ p. if p == at then u8 v else r.bytes p;
          max_offset = if ltb r.max_offset (at + 1) then at + 1 else r.max_offset;
        },
      )
      else (at, r)

  -- The bytes of a line, from the offset `at` on; `none` if the rounds run out. The test of the loop,
  -- `*p`, is that of the line's end: a zero is no blank.
  unfoldable pub woz_bytes : ℕ → ℕ → Filled → Bytes → Option Filled
  woz_bytes zero at r s = none
  woz_bytes (suc rounds) at r s =
      let s' = skip_blanks s in
      let t = take_nibbles 2 0 0 s' in
      let p = put_value t.0 t.1 at r in
      let rest = woz_bytes rounds p.0 p.1 t.2 in if at_line_end s' then some r else rest

  abbrev pub woz_from : ℕ → ℕ → Filled → Option (ℕ × Bytes) → Option Filled
  woz_from rounds offset r none = some r
  woz_from rounds offset r (some (addr, s)) =
      if ltb addr offset
      then some r
      else if leb max_size (addr - offset)
      then some r
      else woz_bytes rounds (addr - offset) r s

  abbrev pub then_lines : (Filled → Option Filled) → Option Filled → Option Filled
  then_lines rest none = none
  then_lines rest (some r) = rest r

  -- The lines that `fgets` returns, each with its newline.
  unfoldable pub woz_lines : ℕ → ℕ → List Bytes → Filled → Option Filled
  woz_lines rounds offset [] r = some r
  woz_lines rounds offset (line ∷ lines) r =
      then_lines (woz_lines rounds offset lines) (woz_from rounds offset r (woz_address 0 line))

  abbrev pub woz_image : Option Filled → Option RomImage
  woz_image none = none
  woz_image (some r) = some (record { buffer = r.bytes; size = some r.max_offset })

  -- `load_woz_rom`, on the lines of the file, if `fopen` opens it. The buffer is cleared first.
  unfoldable pub load_woz_rom : ℕ → (ℕ → ℕ) → Option (List Bytes) → ℕ → Option RomImage
  load_woz_rom rounds before none offset = some (record { buffer = before; size = none })
  load_woz_rom rounds before (some lines) offset = woz_image (
      woz_lines rounds offset lines
        (record { bytes = λ p. if ltb p max_size then 0 else before p; max_offset = 0 }))

  unfoldable pub fill : (ℕ → ℕ) → ℕ → List ℕ → ℕ → ℕ
  fill before n [] = before
  fill before n (b ∷ bs) =
      let rest = fill before (n + 1) bs in λ p. if ltb n max_size && p == n then b else rest p

  -- `load_binary_rom`: `fread` puts the bytes of the file into the buffer, as many as fit.
  unfoldable pub load_binary_rom : (ℕ → ℕ) → Option (List ℕ) → RomImage
  load_binary_rom before none = record { buffer = before; size = none }
  load_binary_rom before (some bytes) = record {
    buffer = fill before 0 bytes;
    size = some (if ltb max_size (length bytes) then max_size else length bytes);
  }

-- `strrchr(filename, '.')`: the text from the last dot on.
unfoldable pub last_dot : Bytes → Option Bytes
last_dot [] = none
last_dot (c ∷ cs) = elim (last_dot cs) [
  | some ext ↦ some ext
  | none ↦ if c == b'.' then some (c ∷ cs) else none
]

abbrev pub is_woz : Option Bytes → Bool
is_woz none = false
is_woz (some ext) = str_eq ext (codes ".woz")

-- `load_rom`: by the extension of the name. `lines` and `bytes` are what `fgets` and `fread` give
-- of the file; `none` if the loader does not end.
unfoldable pub load_rom :
    ℕ → ℕ → (ℕ → ℕ) → Bytes → Option (List Bytes) → Option (List ℕ) → ℕ → Option RomImage
load_rom max_size rounds before name lines bytes offset =
    if is_woz (last_dot name)
    then load_woz_rom max_size rounds before lines offset
    else some (load_binary_rom max_size before bytes)
