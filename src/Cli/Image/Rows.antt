-- ===== src/Cli/Image/Rows.antt =====
-- The rows of bin2woz in the loader of ROM images.
use v6502c.Base.{
  ℕ, zero, suc, ◌+◌, ◌-◌, ◌*◌, ◌/◌, ◌%◌, ◌^◌, ◌≤◌, ◌<◌, ◌≡◌, ◌∙◌, refl, ap, arith, true, false,
  some, List, [], ◌∷◌, ◌++◌, map,
}
use v6502c.Base.{◌==◌, ltb, leb, if◌then◌else◌, u8, Bytes, length}
use v6502c.Monitor.Hex.{hex_char, byte_hex, address_hex}
use v6502c.Monitor.Args.Words.{unwords}
use v6502c.Monitor.Edit.Writes.{AllBytes}
use v6502c.Monitor.Command.Line.{write_line}
use v6502c.Bin2woz.Rows.{put_all}
use v6502c.Cli.Image.{
  nibble, shift_in, woz_address, take_nibbles, skip_blanks, at_line_end, Filled, put_value,
  woz_bytes, woz_from,
}

nibble-hex_char : (d : ℕ) → d < 16 → nibble (hex_char d) ≡ some d
unfolding nibble hex_char
nibble-hex_char d h = ground arith

hex_char-marks :
    (d : ℕ)
    → d < 16
    → ((hex_char d == b':') ≡ false)
      × ((hex_char d == 0) ≡ false)
      × ((hex_char d == b' ') ≡ false)
      × ((hex_char d == b'\t') ≡ false)
      × ((hex_char d == b'\n') ≡ false)
      × ((hex_char d == b'\r') ≡ false)
unfolding hex_char
hex_char-marks d h = ground arith

woz_address-digit :
    (v d : ℕ) (s : Bytes)
    → d < 16
    → v < 0x1000
    → woz_address v (hex_char d ∷ s) ≡ woz_address (v * 16 + d) s
unfolding woz_address
woz_address-digit v d s h hv =
    let fits : v * 16 % 2 ^ 32 ≡ v * 16 = omega arith in
    rw ((hex_char-marks d h).0, (hex_char-marks d h).1, nibble-hex_char d h, fits) refl

woz_address-colon : (v : ℕ) (s : Bytes) → woz_address v (b':' ∷ s) ≡ some (v, s)
unfolding woz_address
woz_address-colon v s = refl

woz_address-address_hex :
    (a : ℕ) (s : Bytes) → a < 0x10000 → woz_address 0 (address_hex a ++ b':' ∷ s) ≡ some (a, s)
unfolding address_hex
woz_address-address_hex a s h =
    let d = a / 0x1000 in
    let e = a / 0x100 % 16 in
    let f = a / 16 % 16 in
    woz_address-digit 0 d _ (omega arith) (omega arith)
    ∙ woz_address-digit (0 * 16 + d) e _ (omega arith) (omega arith)
    ∙ woz_address-digit ((0 * 16 + d) * 16 + e) f _ (omega arith) (omega arith)
    ∙ woz_address-digit (((0 * 16 + d) * 16 + e) * 16 + f) (a % 16) _ (omega arith) (omega arith)
    ∙ woz_address-colon _ s
    ∙ ap (λ n. some (n, s)) (omega arith)

-- A byte with its blank is skipped to, and taken whole.
skip_blanks-byte :
    (b : ℕ) (s : Bytes)
    → b < 0x100
    → (skip_blanks (b' ' ∷ (byte_hex b ++ s)) ≡ byte_hex b ++ s)
      × (at_line_end (byte_hex b ++ s) ≡ false)
unfolding skip_blanks byte_hex at_line_end
skip_blanks-byte b s h =
    let (colon, nonzero, blank, tab, newline, return) = hex_char-marks (b / 16) (omega arith) in
    (rw (blank, tab) refl, rw (nonzero, newline, return) refl)

take_nibbles-digit :
    (left count v d : ℕ) (s : Bytes)
    → d < 16
    → take_nibbles (suc left) count v (hex_char d ∷ s)
      ≡ take_nibbles left (count + 1) (shift_in v d) s
unfolding take_nibbles
take_nibbles-digit left count v d s h = ground (arith, nibble-hex_char d)

take_nibbles-zero : (count v : ℕ) (s : Bytes) → take_nibbles zero count v s ≡ (count, v, s)
unfolding take_nibbles
take_nibbles-zero count v s = refl

take_nibbles-byte :
    (b : ℕ) (s : Bytes) → b < 0x100 → take_nibbles 2 0 0 (byte_hex b ++ s) ≡ (2, b, s)
unfolding byte_hex
take_nibbles-byte b s h =
    take_nibbles-digit 1 0 0 (b / 16) _ (omega arith)
    ∙ take_nibbles-digit 0 1 (shift_in 0 (b / 16)) (b % 16) s (omega arith)
    ∙ take_nibbles-zero 2 _ s
    ∙ ap (λ v. (2, v, s)) (omega arith)

-- A byte at an offset of the image.
abbrev pub put_image : ℕ → Filled → ℕ → ℕ → Filled
put_image offset r a b = record {
  bytes = λ p. if p == a - offset then b else r.bytes p;
  max_offset = if ltb r.max_offset (a - offset + 1) then a - offset + 1 else r.max_offset;
}

module _ (max_size offset : ℕ) where
  put_value-byte :
      (b a : ℕ) (r : Filled)
      → b < 0x100
      → a - offset < max_size
      → put_value max_size 2 b (a - offset) r ≡ (a - offset + 1, put_image offset r a b)
  unfolding put_value
  put_value-byte b a r hb h =
      let room : ltb (a - offset) max_size ≡ true = ground arith in
      let v : u8 b ≡ b = omega arith in rw (room, v) refl

  woz_bytes-byte :
      (rounds b a : ℕ) (r : Filled) (s : Bytes)
      → b < 0x100
      → a - offset < max_size
      → woz_bytes max_size (suc rounds) (a - offset) r (b' ' ∷ (byte_hex b ++ s))
        ≡ woz_bytes max_size rounds (a - offset + 1) (put_image offset r a b) s
  unfolding woz_bytes
  woz_bytes-byte rounds b a r s hb h =
      let (skipped, more) = skip_blanks-byte b s hb in
      rw (skipped, more, take_nibbles-byte b s hb, put_value-byte b a r hb h) refl

  woz_bytes-bytes :
      (bs : List ℕ) (rounds a : ℕ) (r : Filled)
      → AllBytes bs
      → offset ≤ a
      → a - offset + length bs ≤ max_size
      → length bs < rounds
      → woz_bytes max_size rounds (a - offset) r (unwords (map byte_hex bs) ++ b'\n' ∷ [])
        ≡ some (put_all (put_image offset) r a bs)
  unfolding woz_bytes skip_blanks at_line_end byte_hex
  woz_bytes-bytes bs zero a r hb o h n = absurd (omega arith)
  woz_bytes-bytes [] (suc rounds) a r hb o h n = refl
  woz_bytes-bytes (b ∷ bs) (suc rounds) a r hb o h n =
      let r' = put_image offset r a b in
      let text = unwords (map byte_hex bs) ++ b'\n' ∷ [] in
      let next : a - offset + 1 ≡ a + 1 - offset = omega arith in
      woz_bytes-byte rounds b a r text hb.0 (omega arith)
      ∙ ap (λ at. woz_bytes max_size rounds at r' text) next
      ∙ woz_bytes-bytes bs rounds (a + 1) r' hb.1 (omega arith) (omega arith) (omega arith)

  -- A row within the image, as `fgets` returns it.
  pub woz_from-row :
      (rounds a : ℕ) (bs : List ℕ) (r : Filled)
      → a < 0x10000
      → AllBytes bs
      → offset ≤ a
      → 0 < length bs
      → a - offset + length bs ≤ max_size
      → length bs < rounds
      → woz_from max_size rounds offset r (woz_address 0 (write_line a bs ++ b'\n' ∷ []))
        ≡ some (put_all (put_image offset) r a bs)
  unfolding address_hex
  woz_from-row rounds a bs r ha hb o n h f =
      let inside : ltb a offset ≡ false = ground arith in
      let room : leb max_size (a - offset) ≡ false = ground arith in
      rw (woz_address-address_hex a (unwords (map byte_hex bs) ++ b'\n' ∷ []) ha, inside, room)
        (woz_bytes-bytes bs rounds a r hb o h f)
