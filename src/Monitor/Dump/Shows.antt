-- ===== src/Monitor/Dump/Shows.antt =====
-- What `print_memory` reads and shows, and that it ends.
use v6502c.Base.{
  ℕ, zero, suc, ◌+◌, ◌-◌, ◌/◌, ◌%◌, ◌≤◌, ◌<◌, ◌≡◌, ◌∙◌, refl, ap, sym, arith, true, false, bit_and,
  bit_and_high, bit_and_low, Bool-cases, inl, inr, Option, some, List, [], ◌∷◌, ◌++◌,
}
use mathlib.Core.List.{append-nil}
use v6502c.Base.{subst}
use v6502c.Base.{◌==◌, leb, if◌then◌else◌, u16}
use v6502c.Cpu.State.{ReadFn, bus_read}
use v6502c.Monitor.Saving.{reads}
use v6502c.Monitor.Dump.{
  Shown, end_row, header, gap, row_at, byte_at, row_start, show_before, show_byte, dump_loop,
  with_end, print_memory,
}

-- The bytes that are shown.
abbrev pub bytes_shown : List Shown → List ℕ
bytes_shown [] = []
bytes_shown (end_row ∷ ps) = bytes_shown ps
bytes_shown (header ∷ ps) = bytes_shown ps
bytes_shown (gap ∷ ps) = bytes_shown ps
bytes_shown (row_at a ∷ ps) = bytes_shown ps
bytes_shown (byte_at v ∷ ps) = v ∷ bytes_shown ps

bytes_shown-append :
    (ps qs : List Shown) → bytes_shown (ps ++ qs) ≡ bytes_shown ps ++ bytes_shown qs
bytes_shown-append [] qs = refl
bytes_shown-append (end_row ∷ ps) qs = bytes_shown-append ps qs
bytes_shown-append (header ∷ ps) qs = bytes_shown-append ps qs
bytes_shown-append (gap ∷ ps) qs = bytes_shown-append ps qs
bytes_shown-append (row_at a ∷ ps) qs = bytes_shown-append ps qs
bytes_shown-append (byte_at v ∷ ps) qs = ap (λ t. v ∷ t) (bytes_shown-append ps qs)

bytes_shown-row_start :
    (column row current start : ℕ) → bytes_shown (row_start column row current start) ≡ []
bytes_shown-row_start column row current start = ground arith

bytes_shown-row :
    (column row current start : ℕ) (b : Shown) (ps : List Shown)
    → bytes_shown ((row_start column row current start ++ b ∷ []) ++ ps)
      ≡ bytes_shown (b ∷ []) ++ bytes_shown ps
bytes_shown-row column row current start b ps =
    bytes_shown-append (row_start column row current start ++ b ∷ []) ps
    ∙ ap (λ t. t ++ bytes_shown ps)
        (bytes_shown-append (row_start column row current start) (b ∷ [])
          ∙ ap (λ t. t ++ bytes_shown (b ∷ [])) (bytes_shown-row_start column row current start))

module _ {S : Type 0} (read : Option (ReadFn S)) where
  -- What the loop does from `current` on, with `n` bytes to show: its output has their values.
  abbrev Shows : Option (List Shown × S) → List ℕ × S → Type 0
  Shows r expected =
      (out : List Shown) × (r ≡ some (out, expected.1)) × (bytes_shown out ≡ expected.0)

  dump_loop-shown :
      (rounds n current start end column row : ℕ) (s : S)
      → end < 0x10000
      → start ≤ current
      → current + n ≡ end + 1
      → n < rounds
      → Shows (dump_loop read rounds current start end column row s) (reads read n current s)
  unfolding dump_loop
  dump_loop-shown zero n current start end column row s h le e fits = absurd (omega arith)
  dump_loop-shown (suc rounds) zero current start end column row s h le e fits =
      let over : leb current end ≡ false = ground arith in ([], rw over refl, refl)
  dump_loop-shown (suc rounds) (suc n) current start end column row s h le e fits =
      let r = bus_read read current s in
      let inside : leb current end ≡ true = ground arith in
      let shown : leb start current ≡ true = ground arith in
      let b = show_byte read current start s in
      let same : b ≡ (byte_at r.0, r.1) =
        ap (λ t. if t then (byte_at r.0, r.1) else (gap, s)) shown in
      let row' = if column == 0 then (row + 1) % 23 else row in
      let go = λ (m : ℕ) (c : Shown × S).
        let out = row_start column row current start ++ c.0 ∷ [] in
        if current == 0xFFFF
        then some (out, c.1)
        else show_before read out
            (dump_loop read rounds m start end ((column + 1) % 16) row' c.1) in
      let enter =
        ap (λ t. if t then go (u16 (current + 1)) b else some ([], s)) inside
        ∙ ap (go (u16 (current + 1))) same in
      let here = row_start column row current start ++ byte_at r.0 ∷ [] in
      elim (Bool-cases (current == 0xFFFF)) [
        | inl last ↦
            let none_left : n ≡ 0 = ground arith in
            (
              here,
              enter
                  ∙ ap
                      (λ t.
                        if t
                        then some (here, r.1)
                        else show_before read here (
                            dump_loop read rounds (u16 (current + 1)) start end ((column + 1) % 16)
                              row' r.1))
                      last
                  ∙ ap (λ m. some (here, (reads read m (current + 1) r.1).1)) (sym none_left),
              bytes_shown-append (row_start column row current start) (byte_at r.0 ∷ [])
                  ∙ ap (λ t. t ++ r.0 ∷ []) (bytes_shown-row_start column row current start)
                  ∙ ap (λ m. r.0 ∷ (reads read m (current + 1) r.1).0) (sym none_left),
            )
        | inr more ↦
            let next : u16 (current + 1) ≡ current + 1 = ground arith in
            let (out, path, bytes) =
              dump_loop-shown rounds n (current + 1) start end ((column + 1) % 16) row' r.1 h
                (omega arith) (omega arith) (omega arith) in
            (
              here ++ out,
              enter
                  ∙ ap (λ m. go m (byte_at r.0, r.1)) next
                  ∙ ap
                      (λ t.
                        if t
                        then some (here, r.1)
                        else show_before read here (
                            dump_loop read rounds (current + 1) start end ((column + 1) % 16) row'
                              r.1))
                      more
                  ∙ ap (show_before read here) path,
              bytes_shown-row column row current start (byte_at r.0) out ∙ ap (λ t. r.0 ∷ t) bytes,
            )
      ]

  dump_loop-gaps :
      (m rounds n current start end column row : ℕ) (s : S)
      → end < 0x10000
      → current + m ≡ start
      → start + n ≡ end + 1
      → 0 < n
      → m + n < rounds
      → Shows (dump_loop read rounds current start end column row s) (reads read n start s)
  unfolding dump_loop
  dump_loop-gaps zero rounds n current start end column row s h e f pos fits =
      subst (λ t. Shows (dump_loop read rounds t start end column row s) (reads read n start s))
        (omega arith)
        (dump_loop-shown rounds n start start end column row s h (omega arith) f (omega arith))
  dump_loop-gaps (suc m) zero n current start end column row s h e f pos fits = absurd (omega arith)
  dump_loop-gaps (suc m) (suc rounds) n current start end column row s h e f pos fits =
      let inside : leb current end ≡ true = ground arith in
      let before : leb start current ≡ false = ground arith in
      let below : (current == 0xFFFF) ≡ false = ground arith in
      let next : u16 (current + 1) ≡ current + 1 = omega arith in
      let r = bus_read read current s in
      let row' = if column == 0 then (row + 1) % 23 else row in
      let here = row_start column row current start ++ gap ∷ [] in
      let go = λ (k : ℕ) (c : Shown × S).
        let out = row_start column row current start ++ c.0 ∷ [] in
        if current == 0xFFFF
        then some (out, c.1)
        else show_before read out
            (dump_loop read rounds k start end ((column + 1) % 16) row' c.1) in
      let (out, path, bytes) =
        dump_loop-gaps m rounds n (current + 1) start end ((column + 1) % 16) row' s h (omega arith)
          f pos (omega arith) in
      (
        here ++ out,
        ap
              (λ t.
                if t then go (u16 (current + 1)) (show_byte read current start s) else some ([], s))
              inside
            ∙ ap (λ t. go (u16 (current + 1)) (if t then (byte_at r.0, r.1) else (gap, s))) before
            ∙ ap (λ k. go k (gap, s)) next
            ∙ ap
                (λ t.
                  if t
                  then some (here, s)
                  else show_before read here
                      (dump_loop read rounds (current + 1) start end ((column + 1) % 16) row' s))
                below
            ∙ ap (show_before read here) path,
        bytes_shown-row column row current start gap out ∙ bytes,
      )

  aligned : (start : ℕ) → start < 0x10000 → bit_and start 0xFFF0 ≡ start - start % 16
  aligned start h =
      ground (arith, bit_and_high 4 (start / 16) (start % 16) 0xFFF, bit_and_low 12 (start / 16))

  -- Printing a range that is not empty ends, also at the end of memory, in any number of rounds
  -- above its length and 15: each address of the range is read once, in order, no other is, and
  -- the bytes that are shown are what was read.
  pub print_memory_lem :
      (rounds n start end : ℕ) (s : S)
      → end < 0x10000
      → start + n ≡ end + 1
      → 0 < n
      → n + 15 < rounds
      → (out : List Shown) × (print_memory read rounds start end s
          ≡ some (out, (reads read n start s).1))
        × (bytes_shown out ≡ (reads read n start s).0)
  unfolding print_memory
  print_memory_lem rounds n start end s h e pos fits =
      let from = bit_and start 0xFFF0 in
      let at : from ≡ start - start % 16 = aligned start (omega arith) in
      let (out, path, bytes) =
        dump_loop-gaps (start % 16) rounds n from start end 0 0 s h (omega arith) e pos
          (omega arith) in
      (
        out ++ end_row ∷ [],
        ap (with_end read) path,
        bytes_shown-append out (end_row ∷ []) ∙ append-nil (bytes_shown out) ∙ bytes,
      )
