-- ===== src/Devices/FileIo/Files.antt =====
-- The file device as a program uses it: spell a name, open the file, and read the status.
use v6502c.Base.{ℕ, ◌<◌, ◌≡◌, ◌∙◌, refl, arith, Bool, true, false, masks}
use v6502c.Base.{Option, some, none, List, [], ◌∷◌, if◌then◌else◌, ◌==◌, u8, bit_or}
use v6502c.Base.{masks-bit, bit-or, bit-u8}
use v6502c.Devices.Host.{Host}
use v6502c.Devices.FileIo.{
  FileIo, put_name_char, fileio_write_reg, fileio_command, reset_fileio, open_r, open_w, opened,
  read_next, got, write_next, close,
}

abbrev AllNonzero : List ℕ → Type 0
AllNonzero [] = Unit
AllNonzero (c ∷ cs) = (0 < c) × AllNonzero cs

-- The status byte shows the open bit exactly while a file is held.
abbrev is_some : Option ℕ → Bool
is_some none = false
is_some (some f) = true

abbrev pub IsCoherent : FileIo → Type 0
IsCoherent dev = masks dev.status 0x01 ≡ is_some dev.file

masks-or :
    (x : ℕ)
    → (masks (u8 (bit_or x 0x02)) 0x01 ≡ masks x 0x01)
      × (masks (u8 (bit_or x 0x04)) 0x01 ≡ masks x 0x01)
masks-or x = ground (
  arith,
  masks-bit 0 (u8 (bit_or x 0x02)),
  masks-bit 0 (u8 (bit_or x 0x04)),
  masks-bit 0 x,
  bit-u8 0 (bit_or x 0x02),
  bit-u8 0 (bit_or x 0x04),
  bit-or 0 x 0x02,
  bit-or 0 x 0x04,
)

keeps_if :
    {H : Type 0} (x y : FileIo × H) (b : Bool)
    → IsCoherent x.0
    → IsCoherent y.0
    → IsCoherent (if b then x else y).0
keeps_if x y true p q = p
keeps_if x y false p q = q

module _ {H : Type 0} (os : Host H) where
  opened-IsCoherent : (dev : FileIo) (r : Option ℕ × H) → IsCoherent (opened os dev r).0
  unfolding opened
  opened-IsCoherent dev (none, h) = refl
  opened-IsCoherent dev (some f, h) = refl

  got-IsCoherent : (dev : FileIo) (r : Option ℕ × H) → IsCoherent dev → IsCoherent (got os dev r).0
  unfolding got
  got-IsCoherent dev (none, h) v = (masks-or dev.status).0 ∙ v
  got-IsCoherent dev (some c, h) v = v

  read_next-IsCoherent :
      (f : Option ℕ) (dev : FileIo) (h : H) → IsCoherent dev → IsCoherent (read_next os f dev h).0
  unfolding read_next
  read_next-IsCoherent none dev h v = (masks-or dev.status).1 ∙ v
  read_next-IsCoherent (some f) dev h v = got-IsCoherent dev _ v

  write_next-IsCoherent :
      (f : Option ℕ) (dev : FileIo) (h : H) → IsCoherent dev → IsCoherent (write_next os f dev h).0
  unfolding write_next
  write_next-IsCoherent none dev h v = (masks-or dev.status).1 ∙ v
  write_next-IsCoherent (some f) dev h v = v

  open_r-IsCoherent : (dev : FileIo) (h : H) → IsCoherent (open_r os dev h).0
  unfolding open_r
  open_r-IsCoherent dev h = opened-IsCoherent _ _

  open_w-IsCoherent : (dev : FileIo) (h : H) → IsCoherent (open_w os dev h).0
  unfolding open_w
  open_w-IsCoherent dev h = opened-IsCoherent _ _

  reset_fileio-IsCoherent : (dev : FileIo) (h : H) → IsCoherent (reset_fileio os dev h).0
  unfolding reset_fileio
  reset_fileio-IsCoherent dev h = refl

  close-IsCoherent : (dev : FileIo) (h : H) → IsCoherent (close os dev h).0
  unfolding close
  close-IsCoherent dev h = refl

  fileio_command-IsCoherent :
      (value : ℕ) (dev : FileIo) (h : H)
      → IsCoherent dev
      → IsCoherent (fileio_command os value dev h).0
  unfolding fileio_command
  fileio_command-IsCoherent value dev h v =
      keeps_if _ _ (value == 0) (reset_fileio-IsCoherent dev h) (
        keeps_if _ _ (value == 1) (open_r-IsCoherent dev h) (
          keeps_if _ _ (value == 2) (open_w-IsCoherent dev h) (
            keeps_if _ _ (value == 3) (read_next-IsCoherent dev.file dev h v) (
              keeps_if _ _ (value == 4) (write_next-IsCoherent dev.file dev h v)
                (keeps_if _ _ (value == 5) (close-IsCoherent dev h) v)))))

  -- Every write to a register, each command and each failure of the host included, keeps the open
  -- bit of the status in step with the file that is held.
  pub fileio_write_reg-IsCoherent :
      (dev : FileIo) (reg value : ℕ) (h : H)
      → IsCoherent dev
      → IsCoherent (fileio_write_reg os dev reg value h).0
  unfolding fileio_write_reg put_name_char
  fileio_write_reg-IsCoherent dev reg value h v =
      keeps_if _ _ (reg == 0) (fileio_command-IsCoherent value dev h v)
        (keeps_if _ _ (reg == 1) v (keeps_if _ _ (reg == 2) v (keeps_if _ _ (reg == 3) v v)))
