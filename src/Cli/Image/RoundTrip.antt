-- ===== src/Cli/Image/RoundTrip.antt =====
-- An image that bin2woz wrote and the loader reads.
use v6502c.Base.{
  ℕ, suc, ◌+◌, ◌-◌, ◌≤◌, ◌<◌, ◌≡◌, ◌∙◌, refl, sym, ap, arith, false, some, List, [], ◌∷◌, ◌++◌,
  Bool-cases, inl, inr,
}
use v6502c.Base.{◌==◌, ltb, if◌then◌else◌, Bytes, length, get_or}
use v6502c.Monitor.Edit.Writes.{AllBytes}
use v6502c.Monitor.Command.Line.{write_line}
use v6502c.Bin2woz.{woz_loop}
use v6502c.Bin2woz.Rows.{
  Row, rows, rows_text, put_all, put_rows, put_rows-rows, woz_loop-rows, Within, rows-Within,
}
use v6502c.Monitor.Repl.Loading.{OneLine}
use v6502c.Monitor.Repl.Rows.{write_line-Readable}
use v6502c.Cli.Image.{RomImage, Filled, woz_lines, woz_image, load_woz_rom}
use v6502c.Cli.Image.Rows.{put_image, woz_from-row}

-- The lines that `fgets` returns of a text, each with its newline, if none is longer than the
-- buffer.
abbrev pub push_first : ℕ → List Bytes → List Bytes
push_first c [] = (c ∷ []) ∷ []
push_first c (l ∷ ls) = (c ∷ l) ∷ ls

abbrev pub split_lines : Bytes → List Bytes
split_lines [] = []
split_lines (c ∷ cs) =
    let rest = split_lines cs in if c == b'\n' then (c ∷ []) ∷ rest else push_first c rest

abbrev row_lines : List Row → List Bytes
row_lines [] = []
row_lines ((a, bs) ∷ rs) = (write_line a bs ++ b'\n' ∷ []) ∷ row_lines rs

split_lines-line :
    (l t : Bytes) → OneLine l → split_lines (l ++ b'\n' ∷ t) ≡ (l ++ b'\n' ∷ []) ∷ split_lines t
split_lines-line [] t o = refl
split_lines-line (c ∷ l) t o =
    let other : (c == b'\n') ≡ false = ground arith in
    rw other (ap (push_first c) (split_lines-line l t o.1))

split_lines-rows :
    (lo hi : ℕ) (rs : List Row)
    → Within lo hi rs
    → hi ≤ 0x10000
    → split_lines (rows_text rs) ≡ row_lines rs
split_lines-rows lo hi [] w h = refl
split_lines-rows lo hi ((a, bs) ∷ rs) (low, high, hb, more, short, rest) h =
    split_lines-line (write_line a bs) (rows_text rs)
      ((write_line-Readable a bs (omega arith) hb).0)
    ∙ ap (λ ls. (write_line a bs ++ b'\n' ∷ []) ∷ ls) (split_lines-rows lo hi rs rest h)

module _ (max_size offset : ℕ) where
  woz_lines-rows :
      (rounds : ℕ) (rs : List Row) (r : Filled)
      → Within offset (offset + max_size) rs
      → offset + max_size ≤ 0x10000
      → 8 < rounds
      → woz_lines max_size rounds offset (row_lines rs) r ≡ some (put_rows (put_image offset) r rs)
  unfolding woz_lines
  woz_lines-rows rounds [] r w h f = refl
  woz_lines-rows rounds ((a, bs) ∷ rs) r (low, high, hb, more, short, rest) h f =
      let row =
        woz_from-row max_size offset rounds a bs r (omega arith) hb low more (omega arith)
          (omega arith) in
      rw row (woz_lines-rows rounds rs (put_all (put_image offset) r a bs) rest h f)

-- What the image has after bytes that are put one behind the other.
put_image-all :
    (offset : ℕ) (bs : List ℕ) (r : Filled) (a p : ℕ)
    → offset ≤ a
    → r.max_offset ≡ a - offset
    → let r' = put_all (put_image offset) r a bs in
      (r'.max_offset ≡ a - offset + length bs)
      × (p < a - offset → r'.bytes p ≡ r.bytes p)
      × (a - offset ≤ p → p < a - offset + length bs → r'.bytes p ≡ get_or bs (p - (a - offset)) 0)
put_image-all offset [] r a p o m = (omega arith, λ h. refl, λ x y. absurd (omega arith))
put_image-all offset (b ∷ bs) r a p o m =
    let r' = put_image offset r a b in
    let grows : r'.max_offset ≡ a + 1 - offset = ground arith in
    let (size, below, inside) = put_image-all offset bs r' (a + 1) p (omega arith) grows in
    (
      omega arith,
      λ h.
          let other : (p == a - offset) ≡ false = ground arith in
          below (omega arith) ∙ rw other refl,
      λ x y. elim (Bool-cases (p == a - offset)) [
        | inl t ↦
            let here : p ≡ a - offset = ground arith in
            let first : p - (a - offset) ≡ 0 = omega arith in
            below (omega arith) ∙ rw t (ap (λ i. get_or (b ∷ bs) i 0) (sym first))
        | inr t ↦
            let above : a - offset < p = ground arith in
            let next : p - (a - offset) ≡ suc (p - (a + 1 - offset)) = omega arith in
            inside (omega arith) (omega arith) ∙ ap (λ i. get_or (b ∷ bs) i 0) (sym next)
      ],
    )

-- A ROM image that bin2woz printed from the start of the ROM on: the loader ends, with as many
-- bytes as there are, and they stand at the front of the buffer in their order. It has to fit the
-- buffer, and the buffer the 16 bits.
pub load_woz_rom-bin2woz :
    (max_size offset rounds : ℕ) (before : ℕ → ℕ) (bs : List ℕ)
    → AllBytes bs
    → length bs ≤ max_size
    → offset + max_size ≤ 0x10000
    → 8 < rounds
    → (image : RomImage) × (load_woz_rom max_size rounds before
          (some (split_lines (woz_loop offset 0 bs)))
          offset
        ≡ some image)
      × (image.size ≡ some (length bs))
      × ((p : ℕ) → p < length bs → image.buffer p ≡ get_or bs p 0)
unfolding load_woz_rom
load_woz_rom-bin2woz max_size offset rounds before bs hb n h f =
    let empty : Filled = record {
      bytes = λ p. if ltb p max_size then 0 else before p;
      max_offset = 0;
    } in
    let filled = put_all (put_image offset) empty offset bs in
    let w = rows-Within offset (offset + max_size) offset bs (omega arith) (omega arith) hb in
    let lines =
      ap split_lines (woz_loop-rows offset bs (omega arith))
      ∙ split_lines-rows offset (offset + max_size) (rows offset bs) w h in
    let path =
      ap (λ ls. woz_image max_size (woz_lines max_size rounds offset ls empty)) lines
      ∙ ap (woz_image max_size) (woz_lines-rows max_size offset rounds (rows offset bs) empty w h f)
      ∙ ap (λ r. woz_image max_size (some r)) (put_rows-rows (put_image offset) empty offset bs) in
    let start : 0 ≡ offset - offset = omega arith in
    let (size, below, inside) = put_image-all offset bs empty offset 0 (omega arith) start in
    let end : offset - offset + length bs ≡ length bs = omega arith in
    (
      record { buffer = filled.bytes; size = some filled.max_offset },
      path,
      ap some (size ∙ end),
      λ p x.
          let (size, below, inside) = put_image-all offset bs empty offset p (omega arith) start in
          let off : p - (offset - offset) ≡ p = omega arith in
          inside (omega arith) (omega arith) ∙ ap (λ i. get_or bs i 0) off,
    )
