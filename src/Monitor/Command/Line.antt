-- ===== src/Monitor/Command/Line.antt =====
-- What `parse_command` does with a line that writes bytes: an address, a colon, and the bytes.
use v6502c.Base.{
  ℕ, suc, ◌+◌, ◌/◌, ◌%◌, ◌<◌, ◌≡◌, ◌≢◌, ◌∙◌, refl, ap, arith, true, false, Option, some, none, List,
  [], ◌∷◌, ◌++◌, map, Bool-cases, inl, inr,
}
use v6502c.Base.{◌==◌, Bytes, str_eq, first_of, last_of, length}
use v6502c.Monitor.Args.{is_whitespace}
use v6502c.Monitor.Args.Words.{
  AllNonzero, parseargs-words, AllSolid, IsWord, AllWords, unwords, words-unwords,
}
use v6502c.Monitor.Hex.{hex_char, byte_hex, address_hex}
use v6502c.Monitor.Scan.{skip_whitespace}
use v6502c.Monitor.Session.{Session, Setting}
use v6502c.Monitor.Edit.{first_locals, edit_loop}
use v6502c.Monitor.Edit.Writes.{
  store, AllBytes, first_of-address, last_of-address, edit_loop-address,
}
use v6502c.Monitor.Edit.Fills.{
  cycle, range_word, last_of-range_word, edit_loop-range, edit_loop-range_last,
}
use v6502c.Monitor.Table.{Command, edit_memory, commands, find_command, to_upper, upper_first}
use v6502c.Monitor.Command.{stay_with, run_command, run_args, parse_command}

-- A line that writes bytes: an address, its colon, and each byte behind a blank.
abbrev pub write_line : ℕ → List ℕ → Bytes
write_line a bs = (address_hex a ++ b':' ∷ []) ++ unwords (map byte_hex bs)

-- The same for a range.
abbrev pub fill_line : ℕ → ℕ → List ℕ → Bytes
fill_line start end bs = range_word start end ++ unwords (map byte_hex bs)

pub str_eq_sound : (s t : Bytes) → str_eq s t ≡ true → s ≡ t
str_eq_sound [] [] h = refl
str_eq_sound [] (d ∷ t) h = absurd cc
str_eq_sound (c ∷ s) [] h = absurd cc
str_eq_sound (c ∷ s) (d ∷ t) h = ground (arith, str_eq_sound s t)

-- No name of a command ends in a colon.
abbrev NoColon : List (Bytes × Command) → Type 0
NoColon [] = Unit
NoColon ((name, c) ∷ rest) = (last_of name ≢ b':') × NoColon rest

find_command-colon :
    (table : List (Bytes × Command)) (cmd : Bytes)
    → last_of cmd ≡ b':'
    → NoColon table
    → find_command table cmd ≡ edit_memory
unfolding find_command
find_command-colon [] cmd h n = refl
find_command-colon ((name, c) ∷ rest) cmd h n = elim (Bool-cases (str_eq name cmd)) [
  | inl e ↦ absurd (n.0 (ap last_of (str_eq_sound name cmd e) ∙ h))
  | inr e ↦ rw e (find_command-colon rest cmd h n.1)
]

commands-NoColon : NoColon commands
commands-NoColon = ground arith

to_upper-hex_char : (d : ℕ) → d < 16 → to_upper (hex_char d) ≡ hex_char d
unfolding to_upper hex_char
to_upper-hex_char d h = ground arith

hex_char-Solid : (d : ℕ) → d < 16 → (is_whitespace (hex_char d) ≡ false) × (0 < hex_char d)
unfolding hex_char is_whitespace
hex_char-Solid d h = ground arith

-- What a text of marks and of the digits of addresses is.
abbrev pub Plain : Bytes → Type 0
Plain s = AllSolid s × AllNonzero s × (map to_upper s ≡ s)

pub address_hex-Plain :
    (a : ℕ) (rest : Bytes) → a < 0x10000 → Plain rest → Plain (address_hex a ++ rest)
unfolding address_hex
address_hex-Plain a rest h p =
    let (s0, n0) = hex_char-Solid (a / 0x1000) (omega arith) in
    let (s1, n1) = hex_char-Solid (a / 0x100 % 16) (omega arith) in
    let (s2, n2) = hex_char-Solid (a / 16 % 16) (omega arith) in
    let (s3, n3) = hex_char-Solid (a % 16) (omega arith) in
    let same : map to_upper (address_hex a ++ rest) ≡ address_hex a ++ rest =
      rw
        (
          to_upper-hex_char (a / 0x1000) (omega arith),
          to_upper-hex_char (a / 0x100 % 16) (omega arith),
          to_upper-hex_char (a / 16 % 16) (omega arith),
          to_upper-hex_char (a % 16) (omega arith),
        )
        (ap (λ r. address_hex a ++ r) p.2) in
    ((s0, (s1, (s2, (s3, p.0)))), (n0, (n1, (n2, (n3, p.1)))), same)

colon-Plain : Plain (b':' ∷ [])
unfolding is_whitespace to_upper
colon-Plain = ((refl, tt), (omega arith, tt), refl)

pub dot-Plain : (rest : Bytes) → Plain rest → Plain (b'.' ∷ rest)
unfolding is_whitespace to_upper
dot-Plain rest p = ((refl, p.0), (omega arith, p.1), ap (λ r. b'.' ∷ r) p.2)

byte_hex-Plain : (b : ℕ) → b < 0x100 → IsWord (byte_hex b) × AllNonzero (byte_hex b)
unfolding byte_hex
byte_hex-Plain b h =
    let (s0, n0) = hex_char-Solid (b / 16) (omega arith) in
    let (s1, n1) = hex_char-Solid (b % 16) (omega arith) in ((s0, (s1, tt)), (n0, (n1, tt)))

pub AllNonzero-append : (s t : Bytes) → AllNonzero s → AllNonzero t → AllNonzero (s ++ t)
AllNonzero-append [] t hs ht = ht
AllNonzero-append (c ∷ s) t hs ht = (hs.0, AllNonzero-append s t hs.1 ht)

bytes-Plain :
    (bs : List ℕ)
    → AllBytes bs
    → AllWords (map byte_hex bs) × AllNonzero (unwords (map byte_hex bs))
bytes-Plain [] h = (tt, tt)
bytes-Plain (b ∷ bs) h =
    let (w, n) = byte_hex-Plain b h.0 in
    let (ws, ns) = bytes-Plain bs h.1 in
    ((w, ws), (omega arith, AllNonzero-append (byte_hex b) _ n ns))

skip_whitespace-word :
    (word rest : Bytes) → IsWord word → skip_whitespace (word ++ rest) ≡ word ++ rest
unfolding skip_whitespace
skip_whitespace-word [] rest h = absurd h
skip_whitespace-word (c ∷ word) rest h = rw (h.0) refl

first_of-word : (word rest : Bytes) → IsWord word → first_of (word ++ rest) ≡ first_of word
first_of-word [] rest h = absurd h
first_of-word (c ∷ word) rest h = refl

module _ {H : Type 0} (given : Setting H) where
  open given use {rounds}

  -- A line of a word with a colon at its end, and of bytes, goes to the loop over its arguments.
  parse_command-colon :
      (load_file : Bytes → Session H → Option (Session H)) (word : Bytes) (bs : List ℕ)
      (s : Session H)
      → IsWord word
      → Plain word
      → last_of word ≡ b':'
      → (first_of word == b';') ≡ false
      → AllBytes bs
      → parse_command given load_file (word ++ unwords (map byte_hex bs)) s
        ≡ stay_with (edit_loop given rounds (first_locals (word ∷ map byte_hex bs)) s)
  unfolding parse_command run_args run_command upper_first
  parse_command-colon load_file word bs s w p colon semicolon hb =
      let args = unwords (map byte_hex bs) in
      let (ws, ns) = bytes-Plain bs hb in
      let split =
        parseargs-words (word ++ args) (AllNonzero-append word args (p.1) ns)
        ∙ words-unwords word (map byte_hex bs) w ws in
      let semicolon' = ap (λ c. c == b';') (first_of-word word args w) ∙ semicolon in
      let found = find_command-colon commands word colon commands-NoColon in
      rw (skip_whitespace-word word args w, semicolon', split, p.2, found) refl

  address-IsWord :
      (a : ℕ) (rest : Bytes) → AllSolid (address_hex a ++ rest) → IsWord (address_hex a ++ rest)
  unfolding address_hex
  address-IsWord a rest h = h

  parse_command-range :
      (load_file : Bytes → Session H → Option (Session H)) (start end : ℕ) (bs : List ℕ)
      (s : Session H)
      → start < 0x10000
      → end < 0x10000
      → AllBytes bs
      → parse_command given load_file (fill_line start end bs) s
        ≡ stay_with
            (edit_loop given rounds (first_locals (range_word start end ∷ map byte_hex bs)) s)
  parse_command-range load_file start end bs s hs he hb =
      let last = address_hex-Plain end (b':' ∷ []) he colon-Plain in
      let p = address_hex-Plain start _ hs (dot-Plain (address_hex end ++ b':' ∷ []) last) in
      parse_command-colon load_file (range_word start end) bs s (address-IsWord start _ p.0) p
        (last_of-range_word start end) ((first_of-address start _ hs).2) hb

  -- A line of an address, a colon and bytes writes each byte to its address, from the first on,
  -- through the bus of the processor, and makes the address the last one; nothing is printed, and
  -- the monitor goes on. The bound on the rounds of the loop is two more than the bytes.
  pub parse_command-write_line :
      (load_file : Bytes → Session H → Option (Session H)) (a : ℕ) (bs : List ℕ) (s : Session H)
      → a < 0x10000
      → AllBytes bs
      → length bs + 1 < rounds
      → parse_command given load_file (write_line a bs) s
        ≡ some (false, record s { last = a; machine = store s.machine a bs })
  parse_command-write_line load_file a bs s h hb f =
      let p = address_hex-Plain a (b':' ∷ []) h colon-Plain in
      parse_command-colon load_file (address_hex a ++ b':' ∷ []) bs s (address-IsWord a _ p.0) p
        (last_of-address a) ((first_of-address a (b':' ∷ []) h).2) hb
      ∙ ap stay_with (edit_loop-address given rounds a bs s h hb f)

  -- A line of a range that ends before 0xFFFF, a colon and at least one byte fills the range, and
  -- ends: its addresses get the bytes in order, over and over.
  pub parse_command-fill_line :
      (load_file : Bytes → Session H → Option (Session H)) (start n : ℕ) (bs : List ℕ)
      (s : Session H)
      → start + n < 0xFFFF
      → bs ≢ []
      → AllBytes bs
      → n + 1 < rounds
      → parse_command given load_file (fill_line start (start + n) bs) s
        ≡ some (
          false,
          record s { last = start; machine = store s.machine start (cycle (suc n) bs bs) },
        )
  parse_command-fill_line load_file start n bs s h nb hb f =
      parse_command-range load_file start (start + n) bs s (omega arith) (omega arith) hb
      ∙ ap stay_with (edit_loop-range given rounds start n bs s h nb hb f)

  -- A line that fills a range up to 0xFFFF never ends, whatever the rounds: the address wraps to 0
  -- and is never above the end.
  pub parse_command-fill_last :
      (load_file : Bytes → Session H → Option (Session H)) (start : ℕ) (bs : List ℕ) (s : Session H)
      → start < 0x10000
      → bs ≢ []
      → AllBytes bs
      → parse_command given load_file (fill_line start 0xFFFF bs) s ≡ none
  parse_command-fill_last load_file start bs s h nb hb =
      parse_command-range load_file start 0xFFFF bs s h (omega arith) hb
      ∙ ap stay_with (edit_loop-range_last given rounds start bs s h nb hb)
