-- ===== src/Monitor/Edit/Writes.antt =====
-- Writing bytes by a line of the monitor: from an address on, and over a range.
use v6502c.Base.{
  ℕ, zero, suc, ◌+◌, ◌/◌, ◌≤◌, ◌<◌, ◌≡◌, ◌≢◌, ◌∙◌, refl, ap, arith, true, false, some, List, [],
  ◌∷◌, ◌++◌, map,
}
use v6502c.Base.{◌==◌, ltb, u16, Bytes, first_of, last_of, length, get_or, drop}
use v6502c.Cpu.State.{Cpu, cpu_write_byte}
use v6502c.Monitor.Hex.{hex_char, byte_hex, address_hex}
use v6502c.Monitor.Scan.{parse_byte}
use v6502c.Monitor.Scan.RoundTrip.{
  parse_byte-byte_hex, parse_address-address_hex, parse_address_range-colon,
}
use v6502c.Monitor.Session.{Session, Setting}
use v6502c.Monitor.Edit.{
  Editing, not_editing, editing, editing_range, Locals, next, leave, advance, first_locals,
  on_address, look, edit, edit_or_look, edit_loop,
}

-- Bytes written from an address on, wrapping at 16 bits.
abbrev pub store : {S : Type 0} → Cpu S → ℕ → List ℕ → Cpu S
store c a [] = c
store c a (b ∷ bs) = store (cpu_write_byte c a b) (u16 (a + 1)) bs

abbrev pub AllBytes : List ℕ → Type 0
AllBytes [] = Unit
AllBytes (b ∷ bs) = (b < 0x100) × AllBytes bs

suc_add : (i : ℕ) → suc i + 1 ≡ suc (i + 1)
suc_add i = omega arith

module _ {ℓ} {A : Type ℓ} where
  pub drop-some :
      (i : ℕ) (xs : List A) (x : A) (rest : List A) (d : A)
      → drop i xs ≡ x ∷ rest
      → (get_or xs i d ≡ x) × (i < length xs) × (drop (i + 1) xs ≡ rest)
  drop-some zero [] x rest d h = absurd cc
  drop-some zero (y ∷ xs) x rest d h = (cc, omega arith, cc)
  drop-some (suc i) [] x rest d h = absurd cc
  drop-some (suc i) (y ∷ xs) x rest d h =
      let (e, lt, r) = drop-some i xs x rest d h in
      (e, omega arith, ap (λ n. drop n (y ∷ xs)) (suc_add i) ∙ r)

  pub drop-none : (i : ℕ) (xs : List A) → drop i xs ≡ [] → length xs ≤ i
  drop-none zero [] h = omega arith
  drop-none zero (x ∷ xs) h = absurd cc
  drop-none (suc i) [] h = omega arith
  drop-none (suc i) (x ∷ xs) h = let e = drop-none i xs h in omega arith

module _ {H : Type 0} (given : Setting H) where
  open given use {bare_prefix}

  parse_byte-alone : (b : ℕ) → b < 0x100 → parse_byte bare_prefix (byte_hex b) ≡ some b
  unfolding byte_hex
  parse_byte-alone b h = parse_byte-byte_hex bare_prefix b [] h

  -- A round of editing at an argument that is a byte.
  pub editing_round :
      (mode : Editing) (l : Locals) (b : ℕ) (s : Session H)
      → l.mode ≡ mode
      → get_or l.argv l.i [] ≡ byte_hex b
      → b < 0x100
      → mode ≢ not_editing
      → edit_or_look given l.mode l (get_or l.argv l.i []) s ≡ edit given mode l s (some b)
  unfolding edit_or_look
  editing_round not_editing l b s m e h n = absurd (n refl)
  editing_round editing l b s m e h n = rw (m, e, parse_byte-alone b h) refl
  editing_round editing_range l b s m e h n = rw (m, e, parse_byte-alone b h) refl

  -- A round of the loop that goes on, or leaves it.
  pub edit_loop-next :
      (fuel : ℕ) (l l' : Locals) (s s' : Session H)
      → l.i < length l.argv
      → edit_or_look given l.mode l (get_or l.argv l.i []) s ≡ next l' s'
      → edit_loop given (suc fuel) l s ≡ edit_loop given fuel l' s'
  unfolding edit_loop
  edit_loop-next fuel l l' s s' lt e =
      let inside : ltb l.i (length l.argv) ≡ true = ground arith in rw (inside, e) refl

  pub edit_loop-leave :
      (fuel : ℕ) (l : Locals) (s s' : Session H)
      → l.i < length l.argv
      → edit_or_look given l.mode l (get_or l.argv l.i []) s ≡ leave s'
      → edit_loop given (suc fuel) l s ≡ some s'
  unfolding edit_loop
  edit_loop-leave fuel l s s' lt e =
      let inside : ltb l.i (length l.argv) ≡ true = ground arith in rw (inside, e) refl

  -- Editing from an address on: the bytes that are left of the arguments are written, one after
  -- the other, and the loop ends.
  edit_loop-editing :
      (fuel : ℕ) (l : Locals) (bs : List ℕ) (s : Session H)
      → l.mode ≡ editing
      → drop l.i l.argv ≡ map byte_hex bs
      → AllBytes bs
      → length bs < fuel
      → edit_loop given fuel l s ≡ some (record s { machine = store s.machine l.current bs })
  unfolding edit_loop edit
  edit_loop-editing zero l bs s m e h f = absurd (omega arith)
  edit_loop-editing (suc fuel) l [] s m e h f =
      let over : ltb l.i (length l.argv) ≡ false = ground (arith, drop-none l.i l.argv) in
      rw over refl
  edit_loop-editing (suc fuel) l (b ∷ bs) s m e h f =
      let (arg, lt, rest) = drop-some l.i l.argv (byte_hex b) (map byte_hex bs) [] e in
      edit_loop-next fuel l _ s _ lt (editing_round editing l b s m arg h.0 (λ p. cc))
      ∙ edit_loop-editing fuel (record (advance l) { current = u16 (l.current + 1) }) bs
          (record s { machine = cpu_write_byte s.machine l.current b }) m rest h.1 (omega arith)

-- A digit is neither a colon, nor a dot, nor a semicolon.
hex_char-no_mark :
    (d : ℕ)
    → d < 16
    → ((hex_char d == b':') ≡ false)
      × ((hex_char d == b'.') ≡ false)
      × ((hex_char d == b';') ≡ false)
unfolding hex_char
hex_char-no_mark d h = ground arith

pub first_of-address :
    (a : ℕ) (rest : Bytes)
    → a < 0x10000
    → ((first_of (address_hex a ++ rest) == b':') ≡ false)
      × ((first_of (address_hex a ++ rest) == b'.') ≡ false)
      × ((first_of (address_hex a ++ rest) == b';') ≡ false)
unfolding address_hex
first_of-address a rest h = hex_char-no_mark (a / 0x1000) (omega arith)

pub last_of-address : (a : ℕ) → last_of (address_hex a ++ b':' ∷ []) ≡ b':'
unfolding address_hex
last_of-address a = refl

module _ {H : Type 0} (given : Setting H) where
  open given use {bare_prefix}

  look-address :
      (l : Locals) (a : ℕ) (s : Session H)
      → a < 0x10000
      → look given l (address_hex a ++ b':' ∷ []) s
        ≡ next (record (advance l) { mode = editing; current = a }) (record s { last = a })
  unfolding look on_address
  look-address l a s h =
      let (colon, dot, semicolon) = first_of-address a (b':' ∷ []) h in
      rw
        (
          colon,
          dot,
          parse_address_range-colon bare_prefix a h,
          parse_address-address_hex bare_prefix a (b':' ∷ []) h,
          last_of-address a,
        )
        refl

  pub edit_loop-address :
      (fuel a : ℕ) (bs : List ℕ) (s : Session H)
      → a < 0x10000
      → AllBytes bs
      → length bs + 1 < fuel
      → edit_loop given fuel (first_locals ((address_hex a ++ b':' ∷ []) ∷ map byte_hex bs)) s
        ≡ some (record s { last = a; machine = store s.machine a bs })
  unfolding edit_or_look
  edit_loop-address zero a bs s h hb f = absurd (omega arith)
  edit_loop-address (suc fuel) a bs s h hb f =
      let l = first_locals ((address_hex a ++ b':' ∷ []) ∷ map byte_hex bs) in
      edit_loop-next given fuel l _ s _ (omega arith) (look-address l a s h)
      ∙ edit_loop-editing given fuel (record (advance l) { mode = editing; current = a }) bs
          (record s { last = a }) refl refl hb (omega arith)
