-- ===== src/Monitor/Saving/Text.antt =====
-- SAVE against bin2woz: the text of a saved range.
use v6502c.Base.{
  ℕ, zero, suc, ◌+◌, ◌%◌, ◌<◌, ◌≡◌, refl, ap, subst, arith, true, false, Option, some, List, [],
  ◌∷◌, ◌++◌, Bool-cases, inl, inr,
}
use v6502c.Base.{◌==◌, leb, ltb, if◌then◌else◌}
use v6502c.Cpu.State.{ReadFn, bus_read}
use v6502c.AddrList.{AddressRange}
use v6502c.Monitor.Hex.{byte_hex, address_hex}
use v6502c.Monitor.{Piece, address_of, piece_text, text_of, write_file}
use v6502c.Monitor.Saving.{reads, save_pieces, write_file-pieces}
use v6502c.Bin2woz.{bytes_per_line, woz_loop}
use v6502c.Bin2woz.Rows.{word_hex-address, next_addr}

-- The text of pieces that go on at a column is that of bin2woz from there on.
abbrev Row : ℕ → List Piece → List ℕ → ℕ → Type 0
Row a more bs col =
    (if col == 0 then address_hex a ++ b':' ∷ [] else []) ++ text_of more ≡ woz_loop a col bs

module _ {S : Type 0} (read : Option (ReadFn S)) where
  -- The text from a byte on, behind its row's address if it is the first of its row.
  save_pieces-text :
      (n a end i : ℕ) (s : S)
      → a + suc n ≡ end + 1
      → end < 0xFFFF
      → (if i % 8 == 0 then address_hex a ++ b':' ∷ [] else [])
          ++ text_of (save_pieces read (suc n) a end i s)
        ≡ woz_loop a (i % 8) (reads read (suc n) a s).0
  unfolding woz_loop text_of piece_text byte_hex
  save_pieces-text zero a end i s e h =
      let at = word_hex-address a (omega arith) in
      let over : leb (a + 1) end ≡ false = ground arith in
      elim (Bool-cases (leb bytes_per_line (i % 8 + 1))) [
        | inl full ↦ rw (at, over, full) refl
        | inr room ↦
            let before : ltb 0 (i % 8 + 1) ≡ true = ground arith in rw (at, over, room, before) refl
      ]
  save_pieces-text (suc n) a end i s e h =
      let at = word_hex-address a (omega arith) in
      let inside : leb (a + 1) end ≡ true = ground arith in
      let next = next_addr a (suc n) (omega arith) in
      let r = bus_read read a s in
      let rest = save_pieces-text n (a + 1) end (i + 1) r.1 (omega arith) h in
      let bs = (reads read (suc n) (a + 1) r.1).0 in
      let more = save_pieces read (suc n) (a + 1) end (i + 1) r.1 in
      let before = if i % 8 == 0 then address_hex a ++ b':' ∷ [] else [] in
      elim (Bool-cases (leb bytes_per_line (i % 8 + 1))) [
        | inl full ↦
            let new : (i + 1) % 8 ≡ 0 = ground arith in
            let rest' : (address_hex (a + 1) ++ b':' ∷ []) ++ text_of more ≡ woz_loop (a + 1) 0 bs =
              subst (Row (a + 1) more bs) new rest in
            rw (at, inside, full, next, new)
              (ap (λ t. before ++ b' ' ∷ (byte_hex r.0 ++ b'\n' ∷ t)) rest')
        | inr room ↦
            let on : (i + 1) % 8 ≡ i % 8 + 1 = ground arith in
            let tail : ((i + 1) % 8 == 0) ≡ false = ground arith in
            let same : (i % 8 + 1 == 0) ≡ false = ground arith in
            let rest' : text_of more ≡ woz_loop (a + 1) (i % 8 + 1) bs =
              subst
                (λ t.
                  (if t then address_hex (a + 1) ++ b':' ∷ [] else []) ++ text_of more
                  ≡ woz_loop (a + 1) (i % 8 + 1) bs)
                same (subst (Row (a + 1) more bs) on rest) in
            rw (at, inside, room, next, tail) (ap (λ t. before ++ b' ' ∷ (byte_hex r.0 ++ t)) rest')
      ]

  -- Saving a range that ends before 0xFFFF ends, in any number of rounds above its length, reads
  -- each of its addresses once, in order, and writes what bin2woz prints for the bytes that are
  -- read, from the range's first address on.
  pub write_file-bin2woz :
      (rounds n : ℕ) (ar : AddressRange) (s : S)
      → ar.end < 0xFFFF
      → ar.start + suc n ≡ ar.end + 1
      → suc n < rounds
      → (out : List Piece) × (write_file read rounds true ar s
          ≡ some (suc n, out, (reads read (suc n) ar.start s).1))
        × (text_of out ≡ woz_loop ar.start 0 (reads read (suc n) ar.start s).0)
  unfolding text_of piece_text
  write_file-bin2woz rounds n ar s h e fits = (
    address_of ar.start ∷ save_pieces read (suc n) ar.start ar.end 0 s,
    write_file-pieces read rounds (suc n) ar s h e fits,
    save_pieces-text n ar.start ar.end 0 s e h,
  )
