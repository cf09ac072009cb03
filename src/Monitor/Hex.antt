-- ===== src/Monitor/Hex.antt =====
-- What "%02X" and "%04X" print for a byte and for an address.
use v6502c.Base.{ℕ, ◌+◌, ◌-◌, ◌/◌, ◌%◌, [], ◌∷◌, ltb, if◌then◌else◌, Bytes}

unfoldable pub hex_char : ℕ → ℕ
hex_char d = if ltb d 10 then d + b'0' else d - 10 + b'A'

unfoldable pub byte_hex : ℕ → Bytes
byte_hex v = hex_char (v / 16) ∷ hex_char (v % 16) ∷ []

unfoldable pub address_hex : ℕ → Bytes
address_hex a =
    hex_char (a / 0x1000)
    ∷ hex_char (a / 0x100 % 16)
    ∷ hex_char (a / 16 % 16)
    ∷ hex_char (a % 16)
    ∷ []
