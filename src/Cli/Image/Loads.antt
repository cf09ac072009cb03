-- ===== src/Cli/Image/Loads.antt =====
-- What the loader of ROM images makes of its lines.
use v6502c.Base.{ℕ, zero, suc, ◌≡◌, refl, arith, false, none, ◌∷◌}
use v6502c.Base.{◌==◌, Bytes}
use v6502c.Cli.Image.{nibble, take_nibbles, skip_blanks, at_line_end, Filled, put_value, woz_bytes}

skip_blanks-solid :
    (c : ℕ) (s : Bytes) → (c == b' ') ≡ false → (c == b'\t') ≡ false → skip_blanks (c ∷ s) ≡ c ∷ s
unfolding skip_blanks
skip_blanks-solid c s b t = rw (b, t) refl

pub take_nibbles-stuck :
    (c : ℕ) (s : Bytes) → nibble c ≡ none → take_nibbles 2 0 0 (c ∷ s) ≡ (0, 0, c ∷ s)
unfolding take_nibbles
take_nibbles-stuck c s n = ground arith

-- A line with a character that is neither a digit, nor a blank, nor an end of line or a zero, where a
-- byte should begin: the loader never ends, whatever the rounds, since it does not go past the
-- character.
pub woz_bytes-stuck :
    (max_size rounds at : ℕ) (r : Filled) (c : ℕ) (s : Bytes)
    → nibble c ≡ none
    → (c == b' ') ≡ false
    → (c == b'\t') ≡ false
    → at_line_end (c ∷ s) ≡ false
    → woz_bytes max_size rounds at r (c ∷ s) ≡ none
unfolding woz_bytes put_value
woz_bytes-stuck max_size zero at r c s n b t e = refl
woz_bytes-stuck max_size (suc rounds) at r c s n b t e =
    rw (skip_blanks-solid c s b t, e, take_nibbles-stuck c s n)
      (woz_bytes-stuck max_size rounds at r c s n b t e)
