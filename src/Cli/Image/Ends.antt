-- ===== src/Cli/Image/Ends.antt =====
-- Which files of ROM images the loader comes to the end of.
use v6502c.Base.{
  ℕ, ◌<◌, ◌≡◌, ◌∙◌, refl, sym, ap, subst, arith, Bool, true, false, Option, none, some, [], ◌∷◌,
  inl, inr, Bool-cases,
}
use v6502c.Base.{List, ltb, leb, ◌-◌, ◌&&◌, ◌==◌, ◌||◌, if◌then◌else◌, Bytes, length}
use v6502c.Cli.Image.{
  nibble, shift_digit, woz_address, RomImage, Filled, woz_from, then_lines, woz_lines, woz_image,
  load_woz_rom,
}
use v6502c.Cli.Image.Readable.{is_readable, has_ended, woz_bytes_ends}

abbrev IsBelow : ℕ → Option (ℕ × Bytes) → Type 0
IsBelow n none = Unit
IsBelow n (some (v, s)) = length s < n

-- Each line is shorter than `n`.
abbrev pub AllBelow : ℕ → List Bytes → Type 0
AllBelow n [] = Unit
AllBelow n (line ∷ lines) = (length line < n) × AllBelow n lines

-- What is behind the colon of a line is shorter than the line.
woz_address-Below : (n v : ℕ) (s : Bytes) → length s < n → IsBelow n (woz_address v s)
unfolding woz_address
woz_address-Below n v [] h = tt
woz_address-Below n v (c ∷ s) h = elim (Bool-cases (c == 0)) [
  | inl z ↦
      subst (λ b. IsBelow n (if b then none else if c == b':' then some (v, s) else rest)) (sym z)
        tt
  | inr z ↦
      subst (λ b. IsBelow n (if b then none else if c == b':' then some (v, s) else rest)) (sym z)
        (elim (Bool-cases (c == b':')) [
          | inl e ↦ subst (λ b. IsBelow n (if b then some (v, s) else rest)) (sym e) (omega arith)
          | inr e ↦
              subst (λ b. IsBelow n (if b then some (v, s) else rest)) (sym e)
                (woz_address-Below n (shift_digit v (nibble c)) s (omega arith))
        ])
]
  where
    rest : Option (ℕ × Bytes)
    rest = woz_address (shift_digit v (nibble c)) s

abbrev pub is_loaded : Option RomImage → Bool
is_loaded none = false
is_loaded (some image) = true

module _ (max_size offset : ℕ) where
  -- What the loader reads of a line, if anything, is readable.
  unfoldable pub is_loadable : Option (ℕ × Bytes) → Bool
  is_loadable none = true
  is_loadable (some (addr, s)) = ltb addr offset || leb max_size (addr - offset) || is_readable s

  unfoldable pub are_loadable : List Bytes → Bool
  are_loadable [] = true
  are_loadable (line ∷ lines) = is_loadable (woz_address 0 line) && are_loadable lines

  has_ended-woz_from :
      (rounds : ℕ) (r : Filled) (a : Option (ℕ × Bytes))
      → IsBelow rounds a
      → has_ended (woz_from max_size rounds offset r a) ≡ is_loadable a
  unfolding is_loadable
  has_ended-woz_from rounds r none h = refl
  has_ended-woz_from rounds r (some (addr, s)) h = elim (Bool-cases (ltb addr offset)) [
    | inl e ↦ rw e refl
    | inr e ↦ elim (Bool-cases (leb max_size (addr - offset))) [
      | inl f ↦ rw (e, f) refl
      | inr f ↦ rw (e, f) (woz_bytes_ends max_size rounds (addr - offset) r s h)
    ]
  ]

  has_ended-then_lines :
      (rest : Filled → Option Filled) (o : Option Filled) (b : Bool)
      → ((r : Filled) → has_ended (rest r) ≡ b)
      → has_ended (then_lines max_size rest o) ≡ (has_ended o && b)
  has_ended-then_lines rest none b h = refl
  has_ended-then_lines rest (some r) b h = h r

  woz_lines_ends :
      (rounds : ℕ) (lines : List Bytes) (r : Filled)
      → AllBelow rounds lines
      → has_ended (woz_lines max_size rounds offset lines r) ≡ are_loadable lines
  unfolding woz_lines are_loadable
  woz_lines_ends rounds [] r h = refl
  woz_lines_ends rounds (line ∷ lines) r (short, rest) =
      has_ended-then_lines (woz_lines max_size rounds offset lines)
        (woz_from max_size rounds offset r (woz_address 0 line)) (are_loadable lines)
        (λ r'. woz_lines_ends rounds lines r' rest)
      ∙ ap (λ b. b && are_loadable lines)
          (has_ended-woz_from rounds r (woz_address 0 line) (woz_address-Below rounds 0 line short))

  is_loaded-woz_image : (o : Option Filled) → is_loaded (woz_image max_size o) ≡ has_ended o
  is_loaded-woz_image none = refl
  is_loaded-woz_image (some r) = refl

  -- With more rounds than any line of the file has characters, the loader of ROM images ends exactly
  -- if each line that it reads bytes from, that is one with a colon and an address within the image,
  -- has only digits, blanks and tabs between the colon and its end: a zero, an end of line, or the
  -- end of the text. It never ends on any other file.
  pub load_woz_rom_ends :
      (rounds : ℕ) (before : ℕ → ℕ) (lines : List Bytes)
      → AllBelow rounds lines
      → is_loaded (load_woz_rom max_size rounds before (some lines) offset) ≡ are_loadable lines
  unfolding load_woz_rom
  load_woz_rom_ends rounds before lines h = is_loaded-woz_image _ ∙ woz_lines_ends rounds lines _ h
