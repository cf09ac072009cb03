-- ===== src/Monitor/Saving.antt =====
-- What `write_file` saves, and when it ends.
pub mod Text
use v6502c.Base.{Option}
use v6502c.Base.{ℕ, zero, suc, ◌+◌, ◌%◌, ◌<◌, ◌≡◌, ◌∙◌, refl, ap, arith, Bool, true, false}
use v6502c.Base.{◌&&◌, none, some, List, [], ◌∷◌, ◌++◌, ◌==◌, leb, if◌then◌else◌, u16}
use v6502c.Cpu.State.{ReadFn, bus_read}
use v6502c.AddrList.{AddressRange}
use v6502c.Monitor.{
  Piece, address_of, value_of, new_line, save_byte, prepend, save_loop, write_file,
}

-- The bytes of a text.
abbrev pub values : List Piece → List ℕ
values [] = []
values (value_of v ∷ ps) = v ∷ values ps
values (address_of a ∷ ps) = values ps
values (new_line ∷ ps) = values ps

module _ {S : Type 0} (read : Option (ReadFn S)) where
  -- `n` reads, one after the other: the bytes and the bus after them.
  abbrev pub reads : ℕ → ℕ → S → List ℕ × S
  reads zero a s = ([], s)
  reads (suc n) a s =
      let r = bus_read read a s in let rest = reads n (a + 1) r.1 in (r.0 ∷ rest.0, rest.1)

  values-save_byte :
      (v next count end : ℕ) (ps : List Piece)
      → values (save_byte read v next count end ++ ps) ≡ v ∷ values ps
  values-save_byte v next count end ps = if_values (leb next end && count % 8 == 0)
    where
      if_values :
          (b : Bool)
          → values ((value_of v ∷ (if b then new_line ∷ address_of next ∷ [] else [])) ++ ps)
            ≡ v ∷ values ps
      if_values true = refl
      if_values false = refl

  -- What the loop writes for `n` addresses.
  abbrev pub save_pieces : ℕ → ℕ → ℕ → ℕ → S → List Piece
  save_pieces zero a end i s = new_line ∷ []
  save_pieces (suc n) a end i s =
      let r = bus_read read a s in
      save_byte read r.0 (a + 1) (i + 1) end ++ save_pieces n (a + 1) end (i + 1) r.1

  values-save_pieces : (n a end i : ℕ) (s : S) → values (save_pieces n a end i s) ≡ (reads n a s).0
  values-save_pieces zero a end i s = refl
  values-save_pieces (suc n) a end i s =
      let r = bus_read read a s in
      values-save_byte r.0 (a + 1) (i + 1) end _
      ∙ ap (λ vs. r.0 ∷ vs) (values-save_pieces n (a + 1) end (i + 1) r.1)

  save_loop_lem :
      (rounds n a end i : ℕ) (s : S)
      → end < 0xFFFF
      → a + n ≡ end + 1
      → n < rounds
      → save_loop read rounds a end i s ≡ some (i + n, save_pieces n a end i s, (reads n a s).1)
  unfolding save_loop
  save_loop_lem zero n a end i s h e fits = absurd (omega arith)
  save_loop_lem (suc rounds) zero a end i s h e fits =
      let over : leb a end ≡ false = ground arith in
      let none_left : i ≡ i + 0 = omega arith in
      rw over (ap (λ k. some (k, new_line ∷ [], s)) none_left)
  save_loop_lem (suc rounds) (suc n) a end i s h e fits =
      let r = bus_read read a s in
      let next : u16 (a + 1) ≡ a + 1 = omega arith in
      let inside : leb a end ≡ true = ground arith in
      let path = save_loop_lem rounds n (a + 1) end (i + 1) r.1 h (omega arith) (omega arith) in
      let count : i + 1 + n ≡ i + suc n = omega arith in
      let go = λ (m : ℕ).
        prepend read (save_byte read r.0 m (i + 1) end) (save_loop read rounds m end (i + 1) r.1) in
      let text = save_byte read r.0 (a + 1) (i + 1) end in
      ap (λ t. if t then go (u16 (a + 1)) else some (i, new_line ∷ [], s)) inside
      ∙ ap go next
      ∙ ap (prepend read text) path
      ∙ ap (λ k. some (k, save_pieces (suc n) a end i s, (reads n (a + 1) r.1).1)) count

  -- The same for `write_file`, with what it writes.
  pub write_file-pieces :
      (rounds n : ℕ) (ar : AddressRange) (s : S)
      → ar.end < 0xFFFF
      → ar.start + n ≡ ar.end + 1
      → n < rounds
      → write_file read rounds true ar s
        ≡ some (n, address_of ar.start ∷ save_pieces n ar.start ar.end 0 s, (reads n ar.start s).1)
  unfolding write_file
  write_file-pieces rounds n ar s h e fits =
      let out = address_of ar.start ∷ save_pieces n ar.start ar.end 0 s in
      ap (prepend read (address_of ar.start ∷ []))
        (save_loop_lem rounds n ar.start ar.end 0 s h e fits)
      ∙ ap (λ k. some (k, out, (reads n ar.start s).1)) (omega arith)

  -- Saving a range that ends before 0xFFFF ends, for any number of rounds above its length: it
  -- returns the number of its addresses, and the bytes of the text are what one read of each of
  -- them in order gives.
  pub write_file_lem :
      (rounds n : ℕ) (ar : AddressRange) (s : S)
      → ar.end < 0xFFFF
      → ar.start + n ≡ ar.end + 1
      → n < rounds
      → (out : List Piece) × (write_file read rounds true ar s
          ≡ some (n, out, (reads n ar.start s).1))
        × (values out ≡ (reads n ar.start s).0)
  write_file_lem rounds n ar s h e fits = (
    address_of ar.start ∷ save_pieces n ar.start ar.end 0 s,
    write_file-pieces rounds n ar s h e fits,
    values-save_pieces n ar.start ar.end 0 s,
  )

  save_loop-last :
      (rounds a i : ℕ) (s : S) → a < 0x10000 → save_loop read rounds a 0xFFFF i s ≡ none
  unfolding save_loop
  save_loop-last zero a i s h = refl
  save_loop-last (suc rounds) a i s h =
      let inside : leb a 0xFFFF ≡ true = ground arith in
      let rest = save_loop-last rounds (u16 (a + 1)) (i + 1) (bus_read read a s).1 (omega arith) in
      rw (inside, rest) refl

  -- Saving a range that ends at 0xFFFF never ends: the address wraps to 0 and is never above the
  -- end, whatever the number of rounds.
  pub write_file-last :
      (rounds start : ℕ) (s : S)
      → start < 0x10000
      → write_file read rounds true (record { start = start; end = 0xFFFF }) s ≡ none
  unfolding write_file
  write_file-last rounds start s h =
      ap (prepend read (address_of start ∷ [])) (save_loop-last rounds start 0 s h)
