-- ===== src/Monitor/Edit/Fills.antt =====
-- Filling a range of memory by a line of the monitor: the bytes are used over and over.
use v6502c.Base.{
  ℕ, zero, suc, ◌+◌, ◌≤◌, ◌<◌, ◌≡◌, ◌≢◌, ◌∙◌, refl, ap, arith, true, false, none, some, List, [],
  ◌∷◌, ◌++◌, map,
}
use v6502c.Base.{◌==◌, ltb, u16, Bytes, last_of, length, drop}
use v6502c.Cpu.State.{cpu_write_byte}
use v6502c.Monitor.Hex.{byte_hex, address_hex}
use v6502c.Monitor.Scan.RoundTrip.{parse_address_range-address_hex}
use v6502c.Monitor.Session.{Session, Setting}
use v6502c.Monitor.Edit.{
  editing_range, Locals, next, advance, on_range, first_locals, look, edit, edit_or_look, edit_loop,
}
use v6502c.Monitor.Edit.Writes.{
  store, AllBytes, drop-some, drop-none, editing_round, edit_loop-next, edit_loop-leave,
  first_of-address,
}

-- The bytes left, or all of them again if none is left.
abbrev if_empty : List ℕ → List ℕ → List ℕ
if_empty [] all = all
if_empty (b ∷ left) all = b ∷ left

-- As many bytes as asked for: those left, and then all of them over and over.
abbrev pub cycle : ℕ → List ℕ → List ℕ → List ℕ
cycle zero all left = []
cycle (suc n) all [] = []
cycle (suc n) all (b ∷ left) = b ∷ cycle n all (if_empty left all)

-- The argument of a range that is written to.
abbrev pub range_word : ℕ → ℕ → Bytes
range_word start end = address_hex start ++ b'.' ∷ (address_hex end ++ b':' ∷ [])

pub last_of-range_word : (start end : ℕ) → last_of (range_word start end) ≡ b':'
unfolding address_hex
last_of-range_word start end = refl

-- The arguments of a loop in a range: those left, and all behind the first.
abbrev Args : Locals → List ℕ → List ℕ → Type 0
Args l all left =
    (l.mode ≡ editing_range)
    × (drop l.i l.argv ≡ map byte_hex left)
    × (drop (l.firstarg + 1) l.argv ≡ map byte_hex all)

module _ {H : Type 0} (given : Setting H) where
  open given use {bare_prefix}

  -- What a round leads to that does not leave the loop.
  abbrev onward : Locals → List ℕ → Locals
  onward l [] = record (advance l) { current = u16 (l.current + 1); i = l.firstarg + 1 }
  onward l (c ∷ left) = record (advance l) { current = u16 (l.current + 1) }

  edit-onward :
      (l : Locals) (all left : List ℕ) (b : ℕ) (s : Session H)
      → Args l all (b ∷ left)
      → u16 (l.current + 1) ≤ l.end
      → edit given editing_range l s (some b)
        ≡ next (onward l left) (record s { machine = cpu_write_byte s.machine l.current b })
  unfolding edit
  edit-onward l all [] b s a h =
      let (arg, lt, rest) = drop-some l.i l.argv (byte_hex b) [] [] a.1 in
      let inside : ltb l.end (u16 (l.current + 1)) ≡ false = ground arith in
      let last : (l.i + 1 == length l.argv) ≡ true =
        ground (arith, drop-none (l.i + 1) l.argv rest) in
      rw (inside, last) refl
  edit-onward l all (c ∷ left) b s a h =
      let (arg, lt, rest) = drop-some l.i l.argv (byte_hex b) (map byte_hex (c ∷ left)) [] a.1 in
      let (arg', lt', rest') =
        drop-some (l.i + 1) l.argv (byte_hex c) (map byte_hex left) [] rest in
      let inside : ltb l.end (u16 (l.current + 1)) ≡ false = ground arith in
      let last : (l.i + 1 == length l.argv) ≡ false = ground arith in rw (inside, last) refl

  edit_loop-onward :
      (fuel : ℕ) (l : Locals) (all left : List ℕ) (b : ℕ) (s : Session H)
      → Args l all (b ∷ left)
      → b < 0x100
      → u16 (l.current + 1) ≤ l.end
      → edit_loop given (suc fuel) l s
        ≡ edit_loop given fuel
            (onward l left)
            (record s { machine = cpu_write_byte s.machine l.current b })
  edit_loop-onward fuel l all left b s a hb h =
      let (arg, lt, rest) = drop-some l.i l.argv (byte_hex b) (map byte_hex left) [] a.1 in
      edit_loop-next given fuel l _ s _ lt (
        editing_round given editing_range l b s a.0 arg hb (λ p. cc)
        ∙ edit-onward l all left b s a h)

  onward-Args :
      (l : Locals) (all left : List ℕ) (b : ℕ)
      → Args l all (b ∷ left)
      → Args (onward l left) all (if_empty left all)
  onward-Args l all [] b a = (a.0, a.2, a.2)
  onward-Args l all (c ∷ left) b a =
      let (arg, lt, rest) = drop-some l.i l.argv (byte_hex b) (map byte_hex (c ∷ left)) [] a.1 in
      (a.0, rest, a.2)

  onward-same :
      (l : Locals) (left : List ℕ)
      → ((onward l left).end ≡ l.end) × ((onward l left).current ≡ u16 (l.current + 1))
  onward-same l [] = (refl, refl)
  onward-same l (c ∷ left) = (refl, refl)

  if_empty-Bytes : (left all : List ℕ) → AllBytes left → AllBytes all → AllBytes (if_empty left all)
  if_empty-Bytes [] all hl ha = ha
  if_empty-Bytes (b ∷ left) all hl ha = hl

  if_empty-nonempty : (left all : List ℕ) → all ≢ [] → if_empty left all ≢ []
  if_empty-nonempty [] all n = n
  if_empty-nonempty (b ∷ left) all n = λ p. cc

  -- A range that ends at 0xFFFF is never left.
  edit_loop-endless :
      (fuel : ℕ) (l : Locals) (all left : List ℕ) (s : Session H)
      → Args l all left
      → all ≢ []
      → left ≢ []
      → AllBytes all
      → AllBytes left
      → l.end ≡ 0xFFFF
      → edit_loop given fuel l s ≡ none
  unfolding edit_loop
  edit_loop-endless zero l all left s a na nl ha hl e = refl
  edit_loop-endless (suc fuel) l all [] s a na nl ha hl e = absurd (nl refl)
  edit_loop-endless (suc fuel) l all (b ∷ left) s a na nl ha hl e =
      edit_loop-onward fuel l all left b s a hl.0 (omega arith)
      ∙ edit_loop-endless fuel (onward l left) all (if_empty left all) _
          (onward-Args l all left b a) na (if_empty-nonempty left all na) ha
          (if_empty-Bytes left all hl.1 ha) ((onward-same l left).0 ∙ e)

  -- A range that ends before 0xFFFF is filled.
  edit_loop-fill :
      (fuel n : ℕ) (l : Locals) (all left : List ℕ) (s : Session H)
      → Args l all left
      → all ≢ []
      → left ≢ []
      → AllBytes all
      → AllBytes left
      → l.end < 0xFFFF
      → l.current + n ≡ l.end
      → n < fuel
      → edit_loop given fuel l s
        ≡ some (record s { machine = store s.machine l.current (cycle (suc n) all left) })
  unfolding edit_loop edit
  edit_loop-fill zero n l all left s a na nl ha hl e c f = absurd (omega arith)
  edit_loop-fill (suc fuel) n l all [] s a na nl ha hl e c f = absurd (nl refl)
  edit_loop-fill (suc fuel) zero l all (b ∷ left) s a na nl ha hl e c f =
      let (arg, lt, rest) = drop-some l.i l.argv (byte_hex b) (map byte_hex left) [] a.1 in
      let over : ltb l.end (u16 (l.current + 1)) ≡ true = ground arith in
      edit_loop-leave given fuel l s (record s { machine = cpu_write_byte s.machine l.current b })
        lt (editing_round given editing_range l b s a.0 arg hl.0 (λ p. cc) ∙ rw over refl)
  edit_loop-fill (suc fuel) (suc n) l all (b ∷ left) s a na nl ha hl e c f =
      let (same_end, same_current) = onward-same l left in
      let s' = record s { machine = cpu_write_byte s.machine l.current b } in
      edit_loop-onward fuel l all left b s a hl.0 (omega arith)
      ∙ edit_loop-fill fuel n (onward l left) all (if_empty left all) s'
          (onward-Args l all left b a) na (if_empty-nonempty left all na) ha
          (if_empty-Bytes left all hl.1 ha) (omega arith) (omega arith) (omega arith)
      ∙ ap
          (λ at.
            some
              (record s' { machine = store s'.machine at (cycle (suc n) all (if_empty left all)) }))
          same_current

  abbrev range_locals : Locals → ℕ → ℕ → Locals
  range_locals l start end = record (advance (record l { end = end })) {
    mode = editing_range;
    current = start;
    firstarg = l.i;
  }

  look-range_word :
      (l : Locals) (start end : ℕ) (s : Session H)
      → start < 0x10000
      → end < 0x10000
      → look given l (range_word start end) s
        ≡ next (range_locals l start end) (record s { last = start })
  unfolding look on_range
  look-range_word l start end s hs he =
      let (colon, dot, semicolon) =
        first_of-address start (b'.' ∷ (address_hex end ++ b':' ∷ [])) hs in
      rw
        (
          colon,
          dot,
          parse_address_range-address_hex bare_prefix start end (b':' ∷ []) hs he,
          last_of-range_word start end,
        )
        refl

  pub edit_loop-range :
      (fuel start n : ℕ) (bs : List ℕ) (s : Session H)
      → start + n < 0xFFFF
      → bs ≢ []
      → AllBytes bs
      → n + 1 < fuel
      → edit_loop given fuel (first_locals (range_word start (start + n) ∷ map byte_hex bs)) s
        ≡ some (record s { last = start; machine = store s.machine start (cycle (suc n) bs bs) })
  unfolding edit_or_look
  edit_loop-range zero start n bs s h nb hb f = absurd (omega arith)
  edit_loop-range (suc fuel) start n bs s h nb hb f =
      let l = first_locals (range_word start (start + n) ∷ map byte_hex bs) in
      edit_loop-next given fuel l _ s _ (omega arith)
        (look-range_word l start (start + n) s (omega arith) (omega arith))
      ∙ edit_loop-fill fuel n (range_locals l start (start + n)) bs bs (record s { last = start })
          (refl, refl, refl) nb nb hb hb h refl (omega arith)

  pub edit_loop-range_last :
      (fuel start : ℕ) (bs : List ℕ) (s : Session H)
      → start < 0x10000
      → bs ≢ []
      → AllBytes bs
      → edit_loop given fuel (first_locals (range_word start 0xFFFF ∷ map byte_hex bs)) s ≡ none
  unfolding edit_or_look edit_loop
  edit_loop-range_last zero start bs s h nb hb = refl
  edit_loop-range_last (suc fuel) start bs s h nb hb =
      let l = first_locals (range_word start 0xFFFF ∷ map byte_hex bs) in
      edit_loop-next given fuel l _ s _ (omega arith)
        (look-range_word l start 0xFFFF s h (omega arith))
      ∙ edit_loop-endless fuel (range_locals l start 0xFFFF) bs bs (record s { last = start })
          (refl, refl, refl) nb nb hb hb refl
