-- ===== src/Monitor/Reload.antt =====
-- SAVE and LOAD together: what is saved to a file and loaded from it again.
mod Tests
use v6502c.Base.{
  ℕ, zero, suc, ◌+◌, ◌≤◌, ◌<◌, ◌≡◌, ◌∙◌, refl, sym, ap, subst, arith, Bool, true, false, ◌&&◌, not,
  Option, none, some, List, [], ◌∷◌, ◌++◌, Bool-cases, inl, inr,
}
use v6502c.Base.{◌==◌, leb, ltb, if◌then◌else◌, u8, u16, Bytes, length}
use v6502c.AddrList.{AddressRange, RangeList}
use v6502c.Cpu.State.{bus_read}
use v6502c.Devices.Host.{Host}
use v6502c.Machine.{Board, is_address_protected, machine_read, machine_write}
use v6502c.Machine.Bus.{is_io}
use v6502c.Monitor.{write_file, text_of}
use v6502c.Monitor.Saving.{reads}
use v6502c.Monitor.Saving.Text.{write_file-bin2woz}
use v6502c.Monitor.Session.{Session, Setting, Message, writing, loading, say}
use v6502c.Monitor.Scan.{parse_address_range}
use v6502c.Monitor.Scan.RoundTrip.{parse_address_range-address_hex}
use v6502c.Monitor.Command.Protecting.{range_text}
use v6502c.Monitor.Edit.Writes.{AllBytes}
use v6502c.Monitor.Command.{put_text, saved, save_opened, save_range, save_file}
use v6502c.Monitor.Repl.{read_file, opened_file, monitor_repl, with_host}
use v6502c.Monitor.Repl.Loading.{Stream}
use v6502c.Monitor.Repl.Rows.{NoDevice, put_byte, monitor_repl-bin2woz}
use v6502c.Bin2woz.{woz_loop}
use v6502c.Bin2woz.Rows.{rows, put_all}

-- What is documented of files: a stream that is open for writing has a name and what was written to
-- it; once it is closed, the file of that name can be opened and gives that, byte by byte.
pub record Disk {H : Type 0} (given : Setting H) : Type 0 where
  pub written : ℕ → H → Option (Bytes × Bytes)
  pub left : ℕ → H → Bytes
  pub opens :
      (name : Bytes) (f : ℕ) (h h' : H)
      → given.os.open_write name h ≡ (some f, h')
      → written f h' ≡ some (name, [])
  pub puts :
      (name text : Bytes) (f c : ℕ) (h : H)
      → written f h ≡ some (name, text)
      → written f (given.os.put_char f c h) ≡ some (name, text ++ c ∷ [])
  pub reopens :
      (name text : Bytes) (f : ℕ) (h : H)
      → written f h ≡ some (name, text)
      → (g : ℕ) × (h' : H) × (given.os.open_read name (given.os.close_file f h) ≡ (some g, h'))
        × (left g h' ≡ text)
  pub stream : (g : ℕ) → Stream given g (left g)

-- The bytes of memory from an address on.
abbrev pub cells : ℕ → ℕ → (ℕ → ℕ) → List ℕ
cells zero a mem = []
cells (suc n) a mem = u8 (mem a) ∷ cells n (a + 1) mem

cells-AllBytes : (n a : ℕ) (mem : ℕ → ℕ) → AllBytes (cells n a mem)
cells-AllBytes zero a mem = tt
cells-AllBytes (suc n) a mem = (omega arith, cells-AllBytes n (a + 1) mem)

length-cells : (n a : ℕ) (mem : ℕ → ℕ) → length (cells n a mem) ≡ n
length-cells zero a mem = refl
length-cells (suc n) a mem = ap suc (length-cells n (a + 1) mem)

fits_below : (a e n l : ℕ) → a + n ≡ e + 1 → e < 0xFFFF → l ≡ n → a + l ≤ 0x10000
fits_below a e n l h b c = omega arith

append_none : (text : Bytes) → text ++ [] ≡ text
append_none [] = refl
append_none (t ∷ text) = ap (λ l. t ∷ l) (append_none text)

append_one : (cs text : Bytes) (c : ℕ) → (text ++ c ∷ []) ++ cs ≡ text ++ c ∷ cs
append_one cs [] c = refl
append_one cs (t ∷ text) c = ap (λ l. t ∷ l) (append_one cs text c)

-- One cell, and those behind it.
abbrev Put : RangeList → ℕ → ℕ → (ℕ → ℕ) → (ℕ → ℕ) → ℕ → Type 0
Put ranges n a mem mem' p =
    (if leb (a + 1) p && ltb p (a + 1 + n) && not (is_address_protected ranges p)
      then u8 (mem p)
      else put_byte ranges mem' a (u8 (mem a)) p)
    ≡ (if leb a p && ltb p (a + suc n) && not (is_address_protected ranges p)
        then u8 (mem p)
        else mem' p)

cells_here : (ranges : RangeList) (n a : ℕ) (mem mem' : ℕ → ℕ) → Put ranges n a mem mem' a
cells_here ranges n a mem mem' = ground arith

cells_there :
    (ranges : RangeList) (n a : ℕ) (mem mem' : ℕ → ℕ) (p : ℕ)
    → (p == a) ≡ false
    → Put ranges n a mem mem' p
cells_there ranges n a mem mem' p t = ground arith

-- What the cells of a range put back into other memory.
put_all-cells :
    (ranges : RangeList) (n a : ℕ) (mem mem' : ℕ → ℕ) (p : ℕ)
    → put_all (put_byte ranges) mem' a (cells n a mem) p ≡ (
        if leb a p && ltb p (a + n) && not (is_address_protected ranges p)
        then u8 (mem p)
        else mem' p)
put_all-cells ranges zero a mem mem' p = ground arith
put_all-cells ranges (suc n) a mem mem' p =
    put_all-cells ranges n (a + 1) mem (put_byte ranges mem' a (u8 (mem a))) p
    ∙ elim (Bool-cases (p == a)) [
      | inl t ↦
          let e : a ≡ p = ground arith in
          subst (λ q. Put ranges n a mem mem' q) e (cells_here ranges n a mem mem')
      | inr t ↦ cells_there ranges n a mem mem' p t
    ]

module _ {H : Type 0} (given : Setting H) where
  open given use {os, bare_prefix, rounds}
  open os use {open_write, close_file, open_read, put_char}

  read_plain : (a : ℕ) (m : Board H) → is_io a ≡ false → machine_read os a m ≡ (m.mem a, m)
  unfolding machine_read
  read_plain a m d = ground arith

  reads-cells :
      (n a : ℕ) (m : Board H)
      → a + n ≤ 0x10000
      → NoDevice a n
      → reads (some (machine_read os)) n a m ≡ (cells n a m.mem, m)
  unfolding bus_read
  reads-cells zero a m h d = refl
  reads-cells (suc n) a m h d =
      let at : u16 a ≡ a = omega arith in
      let here = read_plain a m (d a (omega arith) (omega arith)) in
      let rest = reads-cells n (a + 1) m (omega arith) (λ p x y. d p (omega arith) (omega arith)) in
      rw (at, here, rest) refl

  put_text-written :
      (disk : Disk given) (f : ℕ) (name text cs : Bytes) (h : H)
      → disk.written f h ≡ some (name, text)
      → disk.written f (put_text given f cs h) ≡ some (name, text ++ cs)
  unfolding put_text
  put_text-written disk f name text [] h e = e ∙ ap (λ t. some (name, t)) (sym (append_none text))
  put_text-written disk f name text (c ∷ cs) h e =
      put_text-written disk f name (text ++ c ∷ []) cs (put_char f c h)
        (disk.puts name text f c h e)
      ∙ ap (λ t. some (name, t)) (append_one cs text c)

  abbrev pub with_bus : Session H → Board H → Session H
  with_bus s m = record s { machine = record (s.machine) { bus = m } }

  -- SAVE of a range of plain memory: the file is written with what bin2woz prints for its bytes, and
  -- closed.
  save_file-written :
      (disk : Disk given) (arg name : Bytes) (ar : AddressRange) (n f : ℕ) (h1 : H) (s : Session H)
      → s.machine.read ≡ some (machine_read os)
      → parse_address_range bare_prefix arg ≡ some ar
      → ar.end < 0xFFFF
      → ar.start + suc n ≡ ar.end + 1
      → suc n < rounds
      → NoDevice ar.start (suc n)
      → open_write name s.machine.bus.host ≡ (some f, h1)
      → let text = woz_loop ar.start 0 (cells (suc n) ar.start s.machine.bus.mem) in
        (h2 : H) × (disk.written f h2 ≡ some (name, text))
        × (save_file given (arg ∷ name ∷ []) s
            ≡ some (
              false,
              with_bus
                  (record s { out = s.out ++ writing ar name ∷ [] })
                  (record (s.machine.bus) { host = close_file f h2 }),
            ))
  unfolding save_file save_range
  save_file-written disk arg name ar n f h1 s r parsed high size fits plain opened =
      let bus1 = record (s.machine.bus) { host = h1 } in
      let s' = say s (writing ar name) in
      let read = some (machine_read os) in
      let (out, path, text) = write_file-bin2woz read rounds n ar bus1 high size fits in
      let bytes = reads-cells (suc n) ar.start bus1 (omega arith) plain in
      let done =
        put_text-written disk f name [] (text_of out) h1
          (disk.opens name f s.machine.bus.host h1 opened) in
      (
        put_text given f (text_of out) h1,
        done ∙ ap (λ t. some (name, t)) (text ∙ ap (λ b. woz_loop ar.start 0 b.0) bytes),
        ap (save_range given s arg name) parsed
            ∙ ap (save_opened given s' ar name) opened
            ∙ ap (λ rd. saved given f s' (write_file rd rounds true ar bus1)) r
            ∙ ap (saved given f s') path
            ∙ ap (λ b. saved given f s' (some (suc n, out, b.1))) bytes,
      )

  -- SAVE of a range of plain memory that ends before 0xFFFF, where the file can be opened; then
  -- memory is overwritten with anything; then LOAD of the file. Both commands end, and memory has its
  -- old bytes again in the range, where it is not protected, and is as it was overwritten elsewhere.
  pub save_file-read_file :
      (disk : Disk given) (name : Bytes) (ar : AddressRange) (n f fuel : ℕ) (h1 : H) (s : Session H)
      (mem' : ℕ → ℕ)
      → s.machine.read ≡ some (machine_read os)
      → s.machine.write ≡ some (machine_write os)
      → ar.end < 0xFFFF
      → ar.start + suc n ≡ ar.end + 1
      → suc n < rounds
      → 9 < rounds
      → NoDevice ar.start (suc n)
      → open_write name s.machine.bus.host ≡ (some f, h1)
      → length (rows ar.start (cells (suc n) ar.start s.machine.bus.mem)) < fuel
      → (s1 s3 : Session H) × (save_file given (range_text ar.start ar.end ∷ name ∷ []) s
          ≡ some (false, s1))
        × (read_file given
              (monitor_repl given fuel false)
              name
              (with_bus s1 (record (s1.machine.bus) { mem = mem' }))
            ≡ some s3)
        × ((p : ℕ)
            → s3.machine.bus.mem p ≡ (
                if leb ar.start p
                  && ltb p (ar.start + suc n)
                  && not (is_address_protected s.machine.bus.protected_ranges p)
                then u8 (s.machine.bus.mem p)
                else mem' p))
  unfolding read_file
  save_file-read_file disk name ar n f fuel h1 s mem' r w high size fits ten plain opened rows_fit =
      let arg = range_text ar.start ar.end in
      let parsed =
        parse_address_range-address_hex bare_prefix ar.start ar.end [] (omega arith)
          (omega arith) in
      let bs = cells (suc n) ar.start s.machine.bus.mem in
      let ranges = s.machine.bus.protected_ranges in
      let (h2, text, saves) =
        save_file-written disk arg name ar n f h1 s r parsed high size fits plain opened in
      let (g, h3, again, content) = disk.reopens name (woz_loop ar.start 0 bs) f h2 text in
      let s1 =
        with_bus (record s { out = s.out ++ writing ar name ∷ [] })
          (record (s.machine.bus) { host = close_file f h2 }) in
      let s2 = say (with_bus s1 (record (s1.machine.bus) { mem = mem' })) (loading name) in
      let repl = monitor_repl given fuel false in
      let count = length-cells (suc n) ar.start s.machine.bus.mem in
      let (s4, path, mem, ranges', out) =
        monitor_repl-bin2woz given g (disk.left g) (disk.stream g) ar.start bs fuel
          (with_host given s2 h3) content w
          (fits_below ar.start ar.end (suc n) (length bs) size high count)
          (cells-AllBytes (suc n) ar.start s.machine.bus.mem)
          (subst (NoDevice ar.start) (sym count) plain) rows_fit ten in
      let finish : Option (Session H) → Option (Session H) = λ o. elim o [
        | none ↦ none
        | some t ↦ some (with_host given t (close_file g t.machine.bus.host))
      ] in
      (
        s1,
        with_host given s4 (close_file g s4.machine.bus.host),
        saves,
        ap (opened_file given repl name s2) again ∙ ap finish path,
        λ p. ap (λ m. m p) mem ∙ put_all-cells ranges (suc n) ar.start s.machine.bus.mem mem' p,
      )
