-- ===== src/Devices/FileIo/Loading.antt =====
-- A program reads an open file to its end.
use v6502c.Base.{ℕ, zero, suc, ◌<◌, ◌≡◌, ap, arith, true, false, masks}
use v6502c.Base.{Option, some, none, List, [], ◌∷◌, if◌then◌else◌, u8, length, bit_or}
use v6502c.Base.{masks-bit, bit-or, bit-u8}
use v6502c.Devices.Host.{Host}
use v6502c.Devices.FileIo.{FileIo, fileio_write_reg, fileio_read, fileio_command, read_next, got}

module _ {H : Type 0} (os : Host H) (f : ℕ) where
  open os use {get_char}

  -- The stream `f` of the host has exactly these bytes left before its end.
  abbrev pub Leaves : H → List ℕ → Type 0
  Leaves h [] = (get_char f h).0 ≡ none
  Leaves h (x ∷ xs) = (x < 0x100) × ((h' : H) × (get_char f h ≡ (some x, h')) × Leaves h' xs)

  -- A program's loop: give the command to read, stop if the status register shows the end of the
  -- file, and else take the data register.
  unfoldable pub load_all : ℕ → FileIo → H → List ℕ
  load_all zero dev h = []
  load_all (suc fuel) dev h =
      let r = fileio_write_reg os dev 0 3 h in
      let rest = load_all fuel r.0 r.1 in
      if masks (fileio_read (some r.0) 0) 0x02 then [] else fileio_read (some r.0) 1 ∷ rest

  eof-set : (x : ℕ) → masks (u8 (bit_or x 0x02)) 0x02 ≡ true
  eof-set x =
      ground (arith, masks-bit 1 (u8 (bit_or x 0x02)), bit-u8 1 (bit_or x 0x02), bit-or 1 x 0x02)

  read_lem :
      (dev : FileIo) (h : H)
      → dev.file ≡ some f
      → fileio_write_reg os dev 0 3 h ≡ got os dev (get_char f h)
  unfolding fileio_write_reg fileio_command read_next
  read_lem dev h e = ap (λ o. read_next os o dev h) e

  -- A loop that gives the command to read on an open file, whose status does not show the end yet,
  -- returns the bytes that are left, all of them and in their order, and ends by itself at the
  -- status of the end, for any fuel above their number.
  pub load_all_lem :
      (fuel : ℕ) (dev : FileIo) (h : H) (xs : List ℕ)
      → dev.file ≡ some f
      → masks dev.status 0x02 ≡ false
      → Leaves h xs
      → length xs < fuel
      → load_all fuel dev h ≡ xs
  unfolding load_all fileio_read got
  load_all_lem zero dev h xs e s left fits = absurd (omega arith)
  load_all_lem (suc fuel) dev h [] e s left fits =
      rw (read_lem dev h e) (at_end (get_char f h) left)
    where
      at_end :
          (r : Option ℕ × H)
          → r.0 ≡ none
          → (if masks (got os dev r).0.status 0x02
              then []
              else (got os dev r).0.data_byte ∷ load_all fuel (got os dev r).0 (got os dev r).1)
            ≡ []
      at_end (none, h') n =
          let d = got os dev (none, h') in
          ap (λ t. if t then [] else d.0.data_byte ∷ load_all fuel d.0 d.1) (eof-set dev.status)
      at_end (some c, h') n = ground arith
  load_all_lem (suc fuel) dev h (x ∷ xs) e s left fits =
      let same : u8 x ≡ x = omega arith in
      rw (read_lem dev h e, left.1.1, s, same)
        (ap (λ t. x ∷ t) (load_all_lem fuel _ left.1.0 xs e s left.1.2 (omega arith)))
