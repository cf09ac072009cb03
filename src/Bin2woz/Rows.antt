-- ===== src/Bin2woz/Rows.antt =====
-- What bin2woz prints, row by row.
use v6502c.Base.{
  ℕ, zero, suc, ◌+◌, ◌/◌, ◌%◌, ◌^◌, ◌≤◌, ◌<◌, ◌≡◌, ◌∙◌, refl, ap, arith, true, false, List, [], ◌∷◌,
  ◌++◌, map, Bool-cases, inl, inr,
}
use v6502c.Base.{◌==◌, ltb, leb, if◌then◌else◌, Bytes, length}
use v6502c.Monitor.Hex.{byte_hex, address_hex}
use v6502c.Monitor.Args.Words.{unwords}
use v6502c.Monitor.Edit.Writes.{AllBytes}
use v6502c.Monitor.Command.Line.{write_line}
use v6502c.Bin2woz.{bytes_per_line, digits, word_hex, woz_loop}

-- A row: its address and its bytes.
abbrev pub Row : Type 0
Row = ℕ × List ℕ

-- A row in front, if it has a byte.
abbrev pub start_row : ℕ → List ℕ × List Row → List Row
start_row a ([], rs) = rs
start_row a (b ∷ bs, rs) = (a, b ∷ bs) ∷ rs

-- The bytes that still go on a row with `col` bytes, and the rows behind it.
abbrev pub split_rows : ℕ → ℕ → List ℕ → List ℕ × List Row
split_rows a col [] = ([], [])
split_rows a col (b ∷ bs) =
    let again = split_rows (a + 1) 0 bs in
    let on = split_rows (a + 1) (col + 1) bs in
    if leb bytes_per_line (col + 1) then (b ∷ [], start_row (a + 1) again) else (b ∷ on.0, on.1)

-- Rows of eight bytes, the last one of what is left.
abbrev pub rows : ℕ → List ℕ → List Row
rows a bs = start_row a (split_rows a 0 bs)

abbrev pub rows_text : List Row → Bytes
rows_text [] = []
rows_text ((a, bs) ∷ rs) = write_line a bs ++ b'\n' ∷ rows_text rs

pub word_hex-address : (a : ℕ) → a < 0x10000 → word_hex a ≡ address_hex a
unfolding word_hex digits
word_hex-address a h =
    let high : a / 2 ^ 16 ≡ 0 = omega arith in
    let low : a % 2 ^ 16 ≡ a = omega arith in rw (high, low) refl

-- The text from a column on: the rest of the row, and the rows behind it.
abbrev Continues : ℕ → ℕ → List ℕ → Type 0
Continues a col bs =
    let r = split_rows a col bs in
    (col ≡ 0 → woz_loop a col bs ≡ rows_text (rows a bs))
    × (0 < col → woz_loop a col bs ≡ unwords (map byte_hex r.0) ++ b'\n' ∷ rows_text r.1)

pub next_addr : (a n : ℕ) → a + suc n ≤ 0x10000 → (a + 1) % 2 ^ 32 ≡ a + 1
next_addr a n h = omega arith

woz_loop-Continues :
    (bs : List ℕ) (a col : ℕ) → a + length bs ≤ 0x10000 → col < 8 → Continues a col bs
unfolding woz_loop byte_hex address_hex
woz_loop-Continues [] a zero h c = (λ e. refl, λ e. absurd (omega arith))
woz_loop-Continues [] a (suc col) h c =
    let some_before : ltb 0 (suc col) ≡ true = ground arith in
    (λ e. absurd (omega arith), λ e. rw some_before refl)
woz_loop-Continues (b ∷ bs) a zero h c =
    let rest = (woz_loop-Continues bs (a + 1) 1 (omega arith) (omega arith)).1 (omega arith) in
    (
      λ e.
          rw (word_hex-address a (omega arith), next_addr a (length bs) h)
            (ap (λ t. address_hex a ++ b':' ∷ b' ' ∷ (byte_hex b ++ t)) rest),
      λ e. absurd (omega arith),
    )
woz_loop-Continues (b ∷ bs) a (suc col) h c =
    let some_before : (suc col == 0) ≡ false = ground arith in
    let next = next_addr a (length bs) h in
    elim (Bool-cases (leb bytes_per_line (suc col + 1))) [
      | inl full ↦
          let rest = (woz_loop-Continues bs (a + 1) 0 (omega arith) (omega arith)).0 refl in
          (
            λ e. absurd (omega arith),
            λ e. rw (some_before, full, next) (ap (λ t. b' ' ∷ (byte_hex b ++ b'\n' ∷ t)) rest),
          )
      | inr room ↦
          let fits : suc col + 1 < 8 = ground arith in
          let rest =
            (woz_loop-Continues bs (a + 1) (suc col + 1) (omega arith) fits).1 (omega arith) in
          (
            λ e. absurd (omega arith),
            λ e. rw (some_before, room, next) (ap (λ t. b' ' ∷ (byte_hex b ++ t)) rest),
          )
    ]

-- A file that fits below 0x10000 from its address on is printed as rows of eight bytes, the last
-- one of what is left, each with its address.
pub woz_loop-rows :
    (a : ℕ) (bs : List ℕ) → a + length bs ≤ 0x10000 → woz_loop a 0 bs ≡ rows_text (rows a bs)
woz_loop-rows a bs h = (woz_loop-Continues bs a 0 h (omega arith)).0 refl

-- What is done row by row is done to the whole, for anything that is done byte by byte.
module _ {ℓ} {X : Type ℓ} (put : X → ℕ → ℕ → X) where
  abbrev pub put_all : X → ℕ → List ℕ → X
  put_all x a [] = x
  put_all x a (b ∷ bs) = put_all (put x a b) (a + 1) bs

  abbrev pub put_rows : X → List Row → X
  put_rows x [] = x
  put_rows x ((a, bs) ∷ rs) = put_rows (put_all x a bs) rs

  put_rows-start :
      (x : X) (a : ℕ) (r : List ℕ × List Row)
      → put_rows x (start_row a r) ≡ put_rows (put_all x a r.0) r.1
  put_rows-start x a ([], rs) = refl
  put_rows-start x a (b ∷ bs, rs) = refl

  put_rows-split :
      (bs : List ℕ) (x : X) (a col : ℕ)
      → (let r = split_rows a col bs in put_rows (put_all x a r.0) r.1) ≡ put_all x a bs
  put_rows-split [] x a col = refl
  put_rows-split (b ∷ bs) x a col = elim (Bool-cases (leb bytes_per_line (col + 1))) [
    | inl full ↦ rw full (
        put_rows-start (put x a b) (a + 1) (split_rows (a + 1) 0 bs)
        ∙ put_rows-split bs (put x a b) (a + 1) 0)
    | inr room ↦ rw room (put_rows-split bs (put x a b) (a + 1) (col + 1))
  ]

  pub put_rows-rows : (x : X) (a : ℕ) (bs : List ℕ) → put_rows x (rows a bs) ≡ put_all x a bs
  put_rows-rows x a bs = put_rows-start x a (split_rows a 0 bs) ∙ put_rows-split bs x a 0

-- Rows with at least one byte each, at most eight, between two addresses.
abbrev pub Within : ℕ → ℕ → List Row → Type 0
Within lo hi [] = Unit
Within lo hi ((a, bs) ∷ rs) =
    (lo ≤ a)
    × (a + length bs ≤ hi)
    × AllBytes bs
    × (0 < length bs)
    × (length bs ≤ 8)
    × Within lo hi rs

abbrev SplitWithin : ℕ → ℕ → ℕ → ℕ → List ℕ × List Row → Type 0
SplitWithin lo hi a col r =
    (a + length r.0 ≤ hi) × AllBytes r.0 × (length r.0 + col ≤ 8) × Within lo hi r.1

start_row-Within :
    (lo hi a : ℕ) (r : List ℕ × List Row)
    → lo ≤ a
    → SplitWithin lo hi a 0 r
    → Within lo hi (start_row a r)
start_row-Within lo hi a ([], rs) l (h, hb, n, rest) = rest
start_row-Within lo hi a (b ∷ bs, rs) l (h, hb, n, rest) =
    (l, h, hb, omega arith, omega arith, rest)

split_rows-Within :
    (lo hi : ℕ) (bs : List ℕ) (a col : ℕ)
    → lo ≤ a
    → a + length bs ≤ hi
    → col < 8
    → AllBytes bs
    → SplitWithin lo hi a col (split_rows a col bs)
split_rows-Within lo hi [] a col l h c hb = (h, tt, omega arith, tt)
split_rows-Within lo hi (b ∷ bs) a col l h c hb = elim (Bool-cases (leb bytes_per_line (col + 1))) [
  | inl full ↦
      let r = split_rows-Within lo hi bs (a + 1) 0 (omega arith) (omega arith) (omega arith) hb.1 in
      let rest = start_row-Within lo hi (a + 1) (split_rows (a + 1) 0 bs) (omega arith) r in
      rw full (omega arith, (hb.0, tt), omega arith, rest)
  | inr room ↦
      let fits : col + 1 < 8 = ground arith in
      let (h', hb', n', rest) =
        split_rows-Within lo hi bs (a + 1) (col + 1) (omega arith) (omega arith) fits hb.1 in
      rw room (omega arith, (hb.0, hb'), omega arith, rest)
]

pub rows-Within :
    (lo hi a : ℕ) (bs : List ℕ)
    → lo ≤ a
    → a + length bs ≤ hi
    → AllBytes bs
    → Within lo hi (rows a bs)
rows-Within lo hi a bs l h hb =
    start_row-Within lo hi a _ l (split_rows-Within lo hi bs a 0 l h (omega arith) hb)
