-- ===== src/Devices/Acia/Serial.antt =====
-- The serial port as a program uses it: poll the status register, then read the data register.
use v6502c.Base.{ℕ, zero, suc, ◌<◌, ◌≡◌, refl, ap, arith, true, false, masks}
use v6502c.Base.{some, List, [], ◌∷◌, if◌then◌else◌, length}
use v6502c.Devices.Host.{Host}
use v6502c.Devices.Acia.{
  Acia, data_reg, status_reg, acia_read_reg, receive, received, input_available,
}

module _ {H : Type 0} (os : Host H) (f : ℕ) where
  open os use {select_ready, read_byte}

  -- The stream `f` of the host has exactly these bytes waiting: `select` says so and `read`
  -- returns the first, and then nothing is waiting.
  abbrev pub Feeds : H → List ℕ → Type 0
  Feeds h [] = select_ready f h ≡ false
  Feeds h (x ∷ xs) =
      (select_ready f h ≡ true)
      × (x < 0x100)
      × ((h' : H) × (read_byte f h ≡ (some x, h')) × Feeds h' xs)

  -- A program's loop: while the status register shows RDRF, read the data register.
  unfoldable pub drain : ℕ → Acia → H → List ℕ
  drain zero dev h = []
  drain (suc fuel) dev h =
      let s = acia_read_reg os status_reg dev h in
      let d = acia_read_reg os data_reg s.1 s.2 in
      let rest = drain fuel d.1 d.2 in if masks s.0 0x08 then d.0 ∷ rest else []

  status_lem :
      (dev : Acia) (h : H)
      → dev.input ≡ some f
      → dev.rx_full ≡ false
      → acia_read_reg os status_reg dev h ≡ ((if select_ready f h then 0x18 else 0x10), dev, h)
  unfolding acia_read_reg input_available
  status_lem dev h i e = ground (arith, e, i)

  data_lem :
      (dev : Acia) (h h' : H) (x : ℕ)
      → dev.input ≡ some f
      → dev.rx_full ≡ false
      → select_ready f h ≡ true
      → read_byte f h ≡ (some x, h')
      → x < 0x100
      → acia_read_reg os data_reg dev h ≡ (x, record dev { rx_data = x; rx_full = false }, h')
  unfolding acia_read_reg input_available receive received
  data_lem dev h h' x i e s r lt = ground arith

  -- A loop that polls the status of the ACIA and reads its data register reads the waiting bytes,
  -- all of them and in their order, and ends by itself when there are no more, for any fuel above
  -- their number.
  pub drain_lem :
      (fuel : ℕ) (dev : Acia) (h : H) (xs : List ℕ)
      → dev.input ≡ some f
      → dev.rx_full ≡ false
      → Feeds h xs
      → length xs < fuel
      → drain fuel dev h ≡ xs
  unfolding drain
  drain_lem zero dev h xs i e fed fits = absurd (omega arith)
  drain_lem (suc fuel) dev h [] i e fed fits = rw (status_lem dev h i e, fed)
  drain_lem (suc fuel) dev h (x ∷ xs) i e fed fits =
      rw (status_lem dev h i e, fed.0, data_lem dev h fed.2.0 x i e fed.0 fed.2.1 fed.1)
        (ap (λ t. x ∷ t) (drain_lem fuel _ fed.2.0 xs i refl fed.2.2 (omega arith)))
