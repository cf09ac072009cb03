-- ===== src/Monitor/Scan/RoundTrip.antt =====
-- What the monitor prints it reads back, with any text behind it.
use v6502c.Base.{
  ℕ, zero, suc, ◌+◌, ◌*◌, ◌/◌, ◌%◌, ◌<◌, ◌≡◌, ◌∙◌, refl, ap, ap₂, arith, false, Option, none, some,
  [], ◌∷◌, ◌++◌,
}
use v6502c.Base.{◌==◌, u8, u16, Bytes}
use v6502c.AddrList.{range}
use v6502c.Monitor.Args.{is_whitespace}
use v6502c.Monitor.Hex.{hex_char, byte_hex, address_hex}
use v6502c.Monitor.Scan.{
  hex_digit, scan_digits, scan_number, skip_whitespace, is_x, scan_prefixed, scan_signed, scan_hex,
  scan_range, scan_dot, with_start, try_twice, map_value, parse_byte, parse_address,
  parse_address_range, to_range,
}

pub hex_digit-hex_char : (d : ℕ) → d < 16 → hex_digit (hex_char d) ≡ some d
unfolding hex_digit hex_char
hex_digit-hex_char d h = ground arith

-- A digit is no white space, no sign and no x.
pub hex_char-plain :
    (d : ℕ)
    → d < 16
    → (is_whitespace (hex_char d) ≡ false)
      × ((hex_char d == b'-') ≡ false)
      × ((hex_char d == b'+') ≡ false)
      × (is_x (hex_char d) ≡ false)
unfolding is_whitespace hex_char
hex_char-plain d h = ground arith

scan_digits-hex_char :
    (width v d : ℕ) (s : Bytes)
    → d < 16
    → scan_digits (suc width) v (hex_char d ∷ s) ≡ scan_digits width (v * 16 + d) s
unfolding scan_digits
scan_digits-hex_char width v d s h = ground (arith, hex_digit-hex_char d)

scan_digits-zero : (v : ℕ) (s : Bytes) → scan_digits zero v s ≡ (v, s)
unfolding scan_digits
scan_digits-zero v s = refl

scan_number-hex_char :
    (width d : ℕ) (s : Bytes)
    → d < 16
    → scan_number (suc width) (hex_char d ∷ s) ≡ some (scan_digits width d s)
unfolding scan_number
scan_number-hex_char width d s h = ground (arith, hex_digit-hex_char d)

module _ (bare_prefix : Bytes → Option (ℕ × Bytes)) where
  -- A number of two digits or more is scanned from its first digit on.
  scan_hex-digits :
      (width d e : ℕ) (s : Bytes)
      → d < 16
      → e < 16
      → scan_hex bare_prefix (suc (suc width)) (hex_char d ∷ hex_char e ∷ s)
        ≡ some (scan_digits width (d * 16 + e) s)
  unfolding scan_hex skip_whitespace scan_signed scan_prefixed
  scan_hex-digits width d e s hd he = ground (
    arith,
    hex_char-plain d,
    hex_char-plain e,
    scan_number-hex_char (suc width) d (hex_char e ∷ s),
    scan_digits-hex_char width d e s,
  )

  pub scan_hex-byte_hex :
      (v : ℕ) (rest : Bytes)
      → v < 0x100
      → scan_hex bare_prefix 2 (byte_hex v ++ rest) ≡ some (v, rest)
  unfolding byte_hex scan_digits
  scan_hex-byte_hex v rest h =
      scan_hex-digits 0 (v / 16) (v % 16) rest (omega arith) (omega arith)
      ∙ ap (λ n. some (n, rest)) (omega arith)

  pub scan_hex-address_hex :
      (a : ℕ) (rest : Bytes)
      → a < 0x10000
      → scan_hex bare_prefix 4 (address_hex a ++ rest) ≡ some (a, rest)
  unfolding address_hex
  scan_hex-address_hex a rest h =
      let v = a / 0x1000 * 16 + a / 0x100 % 16 in
      scan_hex-digits 2 (a / 0x1000) (a / 0x100 % 16) _ (omega arith) (omega arith)
      ∙ ap some (
          scan_digits-hex_char 1 v (a / 16 % 16) _ (omega arith)
          ∙ scan_digits-hex_char 0 (v * 16 + a / 16 % 16) (a % 16) rest (omega arith)
          ∙ scan_digits-zero _ rest
          ∙ ap (λ n. (n, rest)) (omega arith))

  -- A byte that is printed by "%02X" is parsed back, whatever stands behind it.
  pub parse_byte-byte_hex :
      (v : ℕ) (rest : Bytes) → v < 0x100 → parse_byte bare_prefix (byte_hex v ++ rest) ≡ some v
  unfolding parse_byte
  parse_byte-byte_hex v rest h =
      ap (λ r. map_value u8 (try_twice r r)) (scan_hex-byte_hex v rest h) ∙ ap some (omega arith)

  -- An address that is printed by "%04X" is parsed back, whatever stands behind it.
  pub parse_address-address_hex :
      (a : ℕ) (rest : Bytes)
      → a < 0x10000
      → parse_address bare_prefix (address_hex a ++ rest) ≡ some a
  unfolding parse_address
  parse_address-address_hex a rest h =
      ap (λ r. map_value u16 (try_twice r r)) (scan_hex-address_hex a rest h)
      ∙ ap some (omega arith)

  -- A range that is printed as two addresses with a dot is parsed back, whatever stands behind it.
  pub parse_address_range-address_hex :
      (start end : ℕ) (rest : Bytes)
      → start < 0x10000
      → end < 0x10000
      → parse_address_range bare_prefix (address_hex start ++ b'.' ∷ (address_hex end ++ rest))
        ≡ some (range start end)
  unfolding parse_address_range scan_range
  parse_address_range-address_hex start end rest hs he =
      let behind_start = scan_hex-address_hex start (b'.' ∷ (address_hex end ++ rest)) hs in
      ap (λ r. to_range (try_twice (scan_dot bare_prefix r) (scan_dot bare_prefix r))) behind_start
      ∙ ap
          (λ r.
            to_range (try_twice (with_start bare_prefix start r) (with_start bare_prefix start r)))
          (scan_hex-address_hex end rest he)
      ∙ ap₂ (λ a b. some (range a b)) (omega arith) (omega arith)

  -- An address with a colon behind it is no range.
  pub parse_address_range-colon :
      (a : ℕ) → a < 0x10000 → parse_address_range bare_prefix (address_hex a ++ b':' ∷ []) ≡ none
  unfolding parse_address_range scan_range
  parse_address_range-colon a h =
      ap (λ r. to_range (try_twice (scan_dot bare_prefix r) (scan_dot bare_prefix r)))
        (scan_hex-address_hex a (b':' ∷ []) h)
