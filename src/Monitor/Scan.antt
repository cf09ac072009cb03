-- ===== src/Monitor/Scan.antt =====
-- `parse_byte`, `parse_address` and `parse_address_range` of src/monitor.c, and what `sscanf` does
-- for them at "%2x" and "%4x".
pub mod RoundTrip
use v6502c.Base.{ℕ, zero, suc, ◌+◌, ◌-◌, ◌*◌, ◌%◌, ◌^◌, Bool, true, false, ◌&&◌, ◌||◌}
use v6502c.Base.{Option, none, some, List, [], ◌∷◌}
use v6502c.Base.{◌==◌, ltb, leb, if◌then◌else◌, u8, u16, Bytes}
use v6502c.AddrList.{AddressRange, range}
use v6502c.Monitor.Args.{is_whitespace}

unfoldable pub hex_digit : ℕ → Option ℕ
hex_digit c =
    if leb b'0' c && leb c b'9'
    then some (c - b'0')
    else if leb b'a' c && leb c b'f'
    then some (c - b'a' + 10)
    else if leb b'A' c && leb c b'F'
    then some (c - b'A' + 10)
    else none

-- Hexadecimal digits, at most `width`, behind the value `v`; the rest of the text is returned too.
unfoldable pub scan_digits : ℕ → ℕ → Bytes → ℕ × Bytes
scan_digits zero v s = (v, s)
scan_digits (suc width) v [] = (v, [])
scan_digits (suc width) v (c ∷ s) = elim (hex_digit c) [
  | none ↦ (v, c ∷ s)
  | some d ↦ scan_digits width (v * 16 + d) s
]

-- One digit at least.
unfoldable pub scan_number : ℕ → Bytes → Option (ℕ × Bytes)
scan_number zero s = none
scan_number (suc width) [] = none
scan_number (suc width) (c ∷ s) = elim (hex_digit c) [
  | none ↦ none
  | some d ↦ some (scan_digits width d s)
]

unfoldable pub skip_whitespace : Bytes → Bytes
skip_whitespace [] = []
skip_whitespace (c ∷ s) = if is_whitespace c then skip_whitespace s else c ∷ s

abbrev pub is_x : ℕ → Bool
is_x c = c == b'x' || c == b'X'

-- A minus negates in `unsigned int`.
abbrev pub negated : Option (ℕ × Bytes) → Option (ℕ × Bytes)
negated none = none
negated (some (v, s)) = some ((2 ^ 32 - v) % 2 ^ 32, s)

-- The second `sscanf` is tried if the first has too few conversions.
abbrev pub try_twice {ℓ} : {A : Type ℓ} → Option A → Option A → Option A
try_twice none second = second
try_twice (some r) second = some r

abbrev pub map_value : (ℕ → ℕ) → Option (ℕ × Bytes) → Option ℕ
map_value f none = none
map_value f (some (v, s)) = some (f v)

abbrev pub to_range : Option (ℕ × ℕ) → Option AddressRange
to_range none = none
to_range (some (start, end)) = some (range (u16 start) (u16 end))

module _ (bare_prefix : Bytes → Option (ℕ × Bytes)) where
  abbrev pub or_bare : Bytes → Option (ℕ × Bytes) → Option (ℕ × Bytes)
  or_bare s none = bare_prefix s
  or_bare s (some r) = some r

  -- The number behind the sign, which may have the prefix 0x. C libraries differ on a prefix with
  -- no digit behind it: `bare_prefix` says what this one returns, given the text behind it.
  unfoldable pub scan_prefixed : ℕ → Bytes → Option (ℕ × Bytes)
  scan_prefixed (suc (suc width)) (c ∷ d ∷ s) =
      if c == b'0' && is_x d
      then or_bare s (scan_number width s)
      else scan_number (suc (suc width)) (c ∷ d ∷ s)
  scan_prefixed width s = scan_number width s

  unfoldable pub scan_signed : ℕ → Bytes → Option (ℕ × Bytes)
  scan_signed (suc width) (c ∷ s) =
      if c == b'-'
      then negated (scan_prefixed width s)
      else if c == b'+'
      then scan_prefixed width s
      else scan_prefixed (suc width) (c ∷ s)
  scan_signed width s = none

  -- The conversion "%<width>x" of `sscanf`, or "%<width>X", which is the same.
  unfoldable pub scan_hex : ℕ → Bytes → Option (ℕ × Bytes)
  scan_hex width s = scan_signed width (skip_whitespace s)

  abbrev pub with_start : ℕ → Option (ℕ × Bytes) → Option (ℕ × ℕ)
  with_start start none = none
  with_start start (some (end, rest)) = some (start, end)

  abbrev pub scan_dot : Option (ℕ × Bytes) → Option (ℕ × ℕ)
  scan_dot none = none
  scan_dot (some (start, [])) = none
  scan_dot (some (start, c ∷ rest)) = if c == b'.' then with_start start (scan_hex 4 rest) else none

  -- "%4x.%4x"
  unfoldable pub scan_range : Bytes → Option (ℕ × ℕ)
  scan_range s = scan_dot (scan_hex 4 s)

  unfoldable pub parse_byte : Bytes → Option ℕ
  parse_byte s = map_value u8 (try_twice (scan_hex 2 s) (scan_hex 2 s))

  unfoldable pub parse_address : Bytes → Option ℕ
  parse_address s = map_value u16 (try_twice (scan_hex 4 s) (scan_hex 4 s))

  unfoldable pub parse_address_range : Bytes → Option AddressRange
  parse_address_range s = to_range (try_twice (scan_range s) (scan_range s))
