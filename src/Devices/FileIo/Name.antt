-- ===== src/Devices/FileIo/Name.antt =====
-- A program spells a file name, a character at a time, and opens the file.
use v6502c.Base.{ℕ, zero, suc, ◌+◌, ◌<◌, ◌≡◌, ◌∙◌, refl, ap, subst, arith}
use v6502c.Base.{List, [], ◌∷◌, u8, length}
use v6502c.Devices.Host.{Host}
use v6502c.Devices.FileIo.{
  FileIo, c_string, put_name_char, name_of, terminated, fileio_write_reg, fileio_command, open_r,
  opened, close_any,
}

-- The characters of a C string: bytes that are not zero.
abbrev pub AllChars : List ℕ → Type 0
AllChars [] = Unit
AllChars (c ∷ cs) = (0 < c) × (c < 0x100) × AllChars cs

-- The buffer has the string at the index `i`, with its zero.
abbrev Spells : (ℕ → ℕ) → ℕ → List ℕ → Type 0
Spells f i [] = f i ≡ 0
Spells f i (c ∷ cs) = (f i ≡ c) × Spells f (i + 1) cs

c_string_lem :
    (left : ℕ) (f : ℕ → ℕ) (i : ℕ) (cs : List ℕ)
    → AllChars cs
    → length cs < left
    → Spells f i cs
    → c_string left f i ≡ cs
unfolding c_string
c_string_lem zero f i cs n lt s = absurd (omega arith)
c_string_lem (suc left) f i [] n lt s = ground arith
c_string_lem (suc left) f i (c ∷ cs) n lt s = ground (arith, c_string_lem left f (i + 1) cs n.2)

abbrev spell_pure : List ℕ → FileIo → FileIo
spell_pure [] dev = dev
spell_pure (c ∷ cs) dev = spell_pure cs (put_name_char dev c)

spell_pure-below :
    (cs : List ℕ) (dev : FileIo) (j : ℕ)
    → j < dev.name_index
    → dev.name_index + length cs < 0x100
    → (terminated (spell_pure cs dev)).filename j ≡ dev.filename j
unfolding put_name_char
spell_pure-below [] dev j lt fits = ground arith
spell_pure-below (c ∷ cs) dev j lt fits =
    spell_pure-below cs (put_name_char dev c) j (omega arith) (omega arith) ∙ ground arith

spell_pure-Spells :
    (cs : List ℕ) (dev : FileIo)
    → dev.name_index + length cs < 0x100
    → Spells (terminated (spell_pure cs dev)).filename dev.name_index cs
unfolding put_name_char
spell_pure-Spells [] dev fits = ground arith
spell_pure-Spells (c ∷ cs) dev fits =
    let dev' = put_name_char dev c in
    let next : u8 (dev.name_index + 1) ≡ dev.name_index + 1 = omega arith in
    (
      spell_pure-below cs dev' dev.name_index (omega arith) (omega arith) ∙ ground arith,
      subst (λ i. Spells (terminated (spell_pure cs dev')).filename i cs) next
          (spell_pure-Spells cs dev' (omega arith)),
    )

module _ {H : Type 0} (os : Host H) where
  open os use {open_read}

  -- A program's loop: each character is written to the name register.
  unfoldable pub spell : List ℕ → FileIo × H → FileIo × H
  spell [] s = s
  spell (c ∷ cs) s = spell cs (fileio_write_reg os s.0 3 c s.1)

  spell_lem : (cs : List ℕ) (dev : FileIo) (h : H) → spell cs (dev, h) ≡ (spell_pure cs dev, h)
  unfolding spell fileio_write_reg
  spell_lem [] dev h = refl
  spell_lem (c ∷ cs) dev h = spell_lem cs (put_name_char dev c) h

  -- A program that sets the name index to 0, writes the characters of a name, fewer than 256 of
  -- them and none of them zero, and gives the command to open for reading: the host gets exactly
  -- that name to open, whatever was in the name buffer before, and a file that was open is closed
  -- first.
  pub open_r-spell :
      (cs : List ℕ) (dev : FileIo) (h : H)
      → AllChars cs
      → length cs < 0x100
      → let s = spell cs (fileio_write_reg os dev 2 0 h) in
        fileio_write_reg os s.0 0 1 s.1
        ≡ opened os (terminated s.0) (open_read cs (close_any os s.0.file s.1))
  unfolding fileio_write_reg fileio_command open_r
  open_r-spell cs dev h n fits =
      let dev0 = record dev { name_index = 0 } in
      let s = spell cs (dev0, h) in
      let e = spell_lem cs dev0 h in
      let name : name_of s.0 ≡ cs =
        ap (λ (r : FileIo × H). name_of r.0) e
        ∙ c_string_lem 0x100 (terminated (spell_pure cs dev0)).filename 0 cs n fits
            (spell_pure-Spells cs dev0 (omega arith)) in
      ap (λ name. opened os (terminated s.0) (open_read name (close_any os s.0.file s.1))) name
