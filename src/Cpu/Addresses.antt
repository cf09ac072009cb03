-- ===== src/Cpu/Addresses.antt =====
-- The addresses of the addressing modes, against the description of the 65C02: an operand of one
-- byte, whose sums stay in page zero, or of two; an index before and after; and a pointer.
use v6502c.Base.{
  ℕ, ◌+◌, ◌*◌, ◌<◌, ◌≡◌, ◌∙◌, refl, ap, arith, Bool, true, false, ◌||◌, Bool-cases, inl, inr,
}
use v6502c.Base.{◌==◌, if◌then◌else◌, u8, u16}
use v6502c.Inst.{Instruction, Addressing, is_store}
use v6502c.Inst.{
  a_acc, a_abs, a_abx, a_aby, a_imm, a_imp, a_ind, a_inx, a_iny, a_rel, a_zpg, a_zpx, a_zpy, a_zpi,
  a_abi,
}
use v6502c.Cpu.State.{
  Cpu, join, bus_read, cpu_read_byte, cpu_read_address, cpu_next_byte, cpu_next_address,
}
use v6502c.Cpu.Load.{load, operand}
use v6502c.Cpu.Stack.Calls.{join-lem}

pub data Index : Type 0 where
  no_index by_x by_y : Index

pub record Shape : Type 0 where
  pub in_page_zero : Bool
  pub before : Index
  pub indirect : Bool
  pub after : Index

abbrev pub shape_with : Bool → Index → Bool → Index → Shape
shape_with z b i a = record { in_page_zero = z; before = b; indirect = i; after = a }

-- The modes that address memory; the others have no shape.
abbrev pub addresses : Addressing → Bool
addresses a_acc = false
addresses a_imm = false
addresses a_imp = false
addresses a_rel = false
addresses m = true

abbrev pub shape : Addressing → Shape
shape a_abs = shape_with false no_index false no_index
shape a_abx = shape_with false by_x false no_index
shape a_aby = shape_with false by_y false no_index
shape a_ind = shape_with false no_index true no_index
shape a_abi = shape_with false by_x true no_index
shape a_zpx = shape_with true by_x false no_index
shape a_zpy = shape_with true by_y false no_index
shape a_zpi = shape_with true no_index true no_index
shape a_inx = shape_with true by_x true no_index
shape a_iny = shape_with true no_index true by_y
shape m = shape_with true no_index false no_index

-- The modes of a jump, where the address is the result.
abbrev pub jumps : Addressing → Bool
jumps a_ind = true
jumps a_abi = true
jumps m = false

-- A pointer of zero page indirect that lies across the end of page zero.
abbrev pub crosses : Addressing → ℕ → Bool
crosses a_zpi v = v == 0xFF
crosses m v = false

module _ {S : Type 0} (peek : ℕ → ℕ) (c : Cpu S) where
  abbrev pub index : Index → ℕ
  index no_index = 0
  index by_x = c.x
  index by_y = c.y

  abbrev pub wrap : Bool → ℕ → ℕ
  wrap z n = if z then u8 n else u16 n

  abbrev pub word : Bool → ℕ → ℕ
  word z p = peek p + 0x100 * peek (wrap z (p + 1))

  abbrev pub address_of : Shape → ℕ
  address_of s =
      let v = if s.in_page_zero then peek c.pc else word false c.pc in
      let at = wrap s.in_page_zero (v + index s.before) in
      u16 ((if s.indirect then word s.in_page_zero at else at) + index s.after)

  -- The operand is behind the opcode.
  abbrev pub behind : Shape → Cpu S
  behind s = record c { pc = u16 (c.pc + (if s.in_page_zero then 1 else 2)) }

join_word : (hi lo : ℕ) → hi < 0x100 → lo < 0x100 → u16 (join hi lo) ≡ lo + 0x100 * hi
join_word hi lo h l = ground (arith, join-lem hi lo)

plain_word :
    (lo hi : ℕ) → lo < 0x100 → hi < 0x100 → lo + 0x100 * hi ≡ u16 (u16 (lo + 0x100 * hi + 0) + 0)
plain_word lo hi l h = ground arith

byte_same : (v : ℕ) → v < 0x100 → v ≡ u8 (v + 0)
byte_same v h = omega arith

inside_next : (v : ℕ) → v < 0x100 → (v == 0xFF) ≡ false → u16 (v + 1) ≡ u8 (u8 (v + 0) + 1)
inside_next v h x = ground arith

word_again : (n : ℕ) → u16 n ≡ u16 (u16 n + 0)
word_again n = omega arith

byte_again : (n : ℕ) → u8 n ≡ u16 (u8 n + 0)
byte_again n = omega arith

byte_plain : (n : ℕ) → n < 0x100 → n ≡ u16 (u8 (n + 0) + 0)
byte_plain n h = omega arith

same_word : (lo hi : ℕ) → lo < 0x100 → hi < 0x100 → lo + 0x100 * hi ≡ u16 (lo + 0x100 * hi + 0)
same_word lo hi l h = omega arith

join_index :
    (hi lo y : ℕ) → hi < 0x100 → lo < 0x100 → u16 (join hi lo + y) ≡ u16 (lo + 0x100 * hi + y)
join_index hi lo y h l = ground (arith, join-lem hi lo)

pointer_inside :
    (peek : ℕ → ℕ) (byte : (p : ℕ) → peek p < 0x100) (v : ℕ)
    → v < 0x100
    → (v == 0xFF) ≡ false
    → peek v + 0x100 * peek (u16 (v + 1))
      ≡ u16 (peek (u8 (v + 0)) + 0x100 * peek (u8 (u8 (v + 0) + 1)) + 0)
pointer_inside peek byte v h x =
    ap (λ n. peek n + 0x100 * peek (u16 (v + 1))) (byte_same v h)
    ∙ ap (λ n. peek (u8 (v + 0)) + 0x100 * peek n) (inside_next v h x)
    ∙ same_word (peek (u8 (v + 0))) (peek (u8 (u8 (v + 0) + 1))) (byte _) (byte _)

module _ {S : Type 0} (peek : ℕ → ℕ) (byte : (p : ℕ) → peek p < 0x100) where
  -- Reading changes nothing.
  abbrev pub Quiet : Cpu S → Type 0
  Quiet c = (p : ℕ) → bus_read c.read p c.bus ≡ (peek p, c.bus)

  operand_lem :
      (i : Instruction) (b at : ℕ) (c : Cpu S)
      → Quiet c
      → operand i b at c ≡ (at, if is_store i then b else peek at, c)
  operand_lem i b at c q = elim (Bool-cases (is_store i)) [
    | inl t ↦ rw t refl
    | inr t ↦ rw (t, q at) refl
  ]

  -- An operand at an address that is written in another way.
  operand_at :
      (i : Instruction) (b at at' : ℕ) (c : Cpu S)
      → Quiet c
      → at ≡ at'
      → operand i b at c ≡ (at', if is_store i then b else peek at', c)
  operand_at i b at at' c q e = ap (λ p. operand i b p c) e ∙ operand_lem i b at' c q

  next_byte :
      (c : Cpu S) → Quiet c → cpu_next_byte c ≡ (peek c.pc, record c { pc = u16 (c.pc + 1) })
  next_byte c q = rw (q c.pc) refl

  next_address :
      (c : Cpu S)
      → Quiet c
      → cpu_next_address c
        ≡ (peek c.pc + 0x100 * peek (u16 (c.pc + 1)), record c { pc = u16 (c.pc + 2) })
  next_address c q =
      rw (q c.pc, q (u16 (c.pc + 1)))
        (ap (λ n. (n, record c { pc = u16 (c.pc + 2) }))
          (join_word (peek (u16 (c.pc + 1))) (peek c.pc) (byte _) (byte _)))

  -- The address, the byte there (a store and a jump leave `b`), and the processor behind the operand.
  abbrev pub Fetched : Addressing → Instruction → ℕ → Cpu S → ℕ × ℕ × Cpu S → Type 0
  Fetched m i b c r = r ≡ (
    address_of peek c (shape m),
    if jumps m || is_store i then b else peek (address_of peek c (shape m)),
    behind peek c (shape m),
  )

  read_word :
      (c : Cpu S) (at : ℕ)
      → Quiet c
      → cpu_read_address c at ≡ (peek at + 0x100 * peek (u16 (at + 1)), c)
  read_word c at q =
      rw (q at, q (u16 (at + 1)))
        (ap (λ n. (n, c)) (join_word (peek (u16 (at + 1))) (peek at) (byte _) (byte _)))

  -- The two reads of a pointer in page zero.
  abbrev with_pointer : {R : Type 0} → ℕ → Cpu S → (ℕ → ℕ → Cpu S → R) → R
  with_pointer at c k =
      let r = cpu_read_byte c at in let r' = cpu_read_byte r.1 (u8 (at + 1)) in k r.0 r'.0 r'.1

  read_pointer :
      {R : Type 0} (c : Cpu S) (at : ℕ) (k : ℕ → ℕ → Cpu S → R)
      → Quiet c
      → with_pointer at c k ≡ k (peek at) (peek (u8 (at + 1))) c
  read_pointer c at k q = rw (q at, q (u8 (at + 1))) refl

  abbrev jump_to : ℕ → ℕ → Cpu S → ℕ × ℕ × Cpu S
  jump_to b at c = let t = cpu_read_address c at in (t.0, b, t.1)

  jump_at :
      (b at at' : ℕ) (c : Cpu S)
      → Quiet c
      → at ≡ at'
      → jump_to b at c ≡ (u16 (peek at' + 0x100 * peek (u16 (at' + 1)) + 0), b, c)
  jump_at b at at' c q e =
      ap (λ p. jump_to b p c) e
      ∙ ap (λ r. (r.0, b, r.1)) (read_word c at' q)
      ∙ ap (λ n. (n, b, c)) (same_word (peek at') (peek (u16 (at' + 1))) (byte _) (byte _))

  -- On a bus where reads change nothing, each mode that addresses memory takes its address as the
  -- 65C02 does, reads the byte there unless it is for a store or a jump, and moves the program counter
  -- behind the operand; nothing else changes. Not so a pointer at 0xFF for the mode zero page indirect.
  pub load_lem :
      (m : Addressing) (i : Instruction) (b : ℕ) (c : Cpu S)
      → Quiet c
      → addresses m ≡ true
      → crosses m (peek c.pc) ≡ false
      → Fetched m i b c (load m i b c)
  unfolding load
  load_lem a_abs i b c q e x =
      ap (λ r. operand i b r.0 r.1) (next_address c q)
      ∙ operand_at i b _ _ _ q
          (plain_word (peek c.pc) (peek (u16 (c.pc + 1))) (byte c.pc) (byte (u16 (c.pc + 1))))
  load_lem a_abx i b c q e x =
      ap (λ r. operand i b (u16 (r.0 + c.x)) r.1) (next_address c q)
      ∙ operand_at i b _ _ _ q (word_again _)
  load_lem a_aby i b c q e x =
      ap (λ r. operand i b (u16 (r.0 + c.y)) r.1) (next_address c q)
      ∙ operand_at i b _ _ _ q (word_again _)
  load_lem a_ind i b c q e x =
      ap (λ r. jump_to b r.0 r.1) (next_address c q)
      ∙ jump_at b _ _ (record c { pc = u16 (c.pc + 2) }) q
          (same_word (peek c.pc) (peek (u16 (c.pc + 1))) (byte c.pc) (byte (u16 (c.pc + 1))))
  load_lem a_abi i b c q e x =
      ap (λ r. jump_to b (u16 (r.0 + c.x)) r.1) (next_address c q)
      ∙ jump_at b _ _ (record c { pc = u16 (c.pc + 2) }) q refl
  load_lem a_zpg i b c q e x =
      ap (λ r. operand i b r.0 r.1) (next_byte c q)
      ∙ operand_at i b _ _ _ q (byte_plain (peek c.pc) (byte c.pc))
  load_lem a_zpx i b c q e x =
      ap (λ r. operand i b (u8 (r.0 + c.x)) r.1) (next_byte c q)
      ∙ operand_at i b _ _ _ q (byte_again _)
  load_lem a_zpy i b c q e x =
      ap (λ r. operand i b (u8 (r.0 + c.y)) r.1) (next_byte c q)
      ∙ operand_at i b _ _ _ q (byte_again _)
  load_lem a_zpi i b c q e x =
      let c1 = record c { pc = u16 (c.pc + 1) } in
      ap (λ r. let t = cpu_read_address r.1 r.0 in operand i b t.0 t.1) (next_byte c q)
      ∙ ap (λ r. operand i b r.0 r.1) (read_word c1 (peek c.pc) q)
      ∙ operand_at i b _ _ c1 q (pointer_inside peek byte (peek c.pc) (byte c.pc) x)
  load_lem a_inx i b c q e x =
      let c1 = record c { pc = u16 (c.pc + 1) } in
      let at = u8 (peek c.pc + c.x) in
      ap (λ r. with_pointer (u8 (r.0 + c.x)) r.1 (λ lo hi d. operand i b (u16 (join hi lo)) d))
        (next_byte c q)
      ∙ read_pointer c1 at (λ lo hi d. operand i b (u16 (join hi lo)) d) q
      ∙ operand_at i b _ _ c1 q (
          join_word (peek (u8 (at + 1))) (peek at) (byte _) (byte _)
          ∙ same_word (peek at) (peek (u8 (at + 1))) (byte _) (byte _))
  load_lem a_iny i b c q e x =
      let c1 = record c { pc = u16 (c.pc + 1) } in
      let at = peek c.pc in
      ap (λ r. with_pointer r.0 r.1 (λ lo hi d. operand i b (u16 (join hi lo + d.y)) d))
        (next_byte c q)
      ∙ read_pointer c1 at (λ lo hi d. operand i b (u16 (join hi lo + d.y)) d) q
      ∙ operand_at i b _ _ c1 q (
          join_index (peek (u8 (at + 1))) (peek at) c.y (byte _) (byte _)
          ∙ ap (λ n. u16 (peek n + 0x100 * peek (u8 (n + 1)) + c.y)) (byte_same at (byte c.pc)))
  load_lem a_acc i b c q e x = absurd (ground arith)
  load_lem a_imm i b c q e x = absurd (ground arith)
  load_lem a_imp i b c q e x = absurd (ground arith)
  load_lem a_rel i b c q e x = absurd (ground arith)
