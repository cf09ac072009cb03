-- ===== src/Monitor/Repl/Rows.antt =====
-- A file of rows of bytes, as bin2woz and SAVE write them, that the monitor reads.
use v6502c.Base.{
  ℕ, zero, suc, ◌+◌, ◌*◌, ◌/◌, ◌%◌, ◌≤◌, ◌<◌, ◌≡◌, ◌∙◌, refl, sym, ap, ap₂, subst, fun_ext, arith,
  false, ◌&&◌, not, some, List, [], ◌∷◌, map,
}
use v6502c.Base.{◌==◌, if◌then◌else◌, u8, u16, Bytes, until_zero, length}
use v6502c.AddrList.{RangeList}
use v6502c.Cpu.State.{Cpu, bus_write, cpu_write_byte}
use v6502c.Machine.{Board, is_address_protected, machine_write, write_mem}
use v6502c.Machine.Bus.{is_io}
use v6502c.Monitor.Hex.{hex_char, byte_hex, address_hex}
use v6502c.Monitor.Session.{Session, Setting}
use v6502c.Monitor.Args.Words.{unwords}
use v6502c.Monitor.Edit.Writes.{store, AllBytes}
use v6502c.Monitor.Command.Line.{write_line, parse_command-write_line}
use v6502c.Bin2woz.{woz_loop}
use v6502c.Bin2woz.Rows.{
  Row, rows, rows_text, put_all, put_rows, put_rows-rows, woz_loop-rows, Within, rows-Within,
}
use v6502c.Monitor.Repl.{is_line_end, read_line, read_file, with_host, monitor_repl}
use v6502c.Monitor.Repl.Loading.{OneLine, Stream, read_line-line, read_line-last}

-- A line as it comes from the stream: no end of line, no zero, and short enough.
abbrev pub Readable : ℕ → Bytes → Type 0
Readable n s = OneLine s × (until_zero s ≡ s) × (length s ≡ n)

digit-Readable : (d n : ℕ) (s : Bytes) → d < 16 → Readable n s → Readable (suc n) (hex_char d ∷ s)
unfolding hex_char
digit-Readable d n s h r =
    let one : is_line_end (hex_char d) ≡ false = ground arith in
    let nonzero : (hex_char d == 0) ≡ false = ground arith in
    ((one, r.0), rw nonzero (ap (λ t. hex_char d ∷ t) r.1), omega arith)

bytes-Readable : (bs : List ℕ) → AllBytes bs → Readable (3 * length bs) (unwords (map byte_hex bs))
unfolding byte_hex
bytes-Readable [] h = (tt, refl, omega arith)
bytes-Readable (b ∷ bs) h =
    let rest = bytes-Readable bs h.1 in
    let r =
      digit-Readable (b / 16) _ _ (omega arith) (digit-Readable (b % 16) _ _ (omega arith) rest) in
    ((refl, r.0), ap (λ t. b' ' ∷ t) r.1, omega arith)

pub write_line-Readable :
    (a : ℕ) (bs : List ℕ)
    → a < 0x10000
    → AllBytes bs
    → Readable (3 * length bs + 5) (write_line a bs)
unfolding address_hex
write_line-Readable a bs h hb =
    let rest = bytes-Readable bs hb in
    let colon : Readable (3 * length bs + 1) (b':' ∷ unwords (map byte_hex bs)) =
      ((refl, rest.0), ap (λ t. b':' ∷ t) rest.1, omega arith) in
    let r = digit-Readable (a / 0x1000) _ _ (omega arith) (
      digit-Readable (a / 0x100 % 16) _ _ (omega arith) (
        digit-Readable (a / 16 % 16) _ _ (omega arith)
          (digit-Readable (a % 16) _ _ (omega arith) colon))) in
    (r.0, r.1, omega arith)

-- No address of the `n` from `a` on reaches a device.
abbrev pub NoDevice : ℕ → ℕ → Type 0
NoDevice a n = (p : ℕ) → a ≤ p → p < a + n → is_io p ≡ false

-- A byte in plain memory.
abbrev pub put_byte : RangeList → (ℕ → ℕ) → ℕ → ℕ → ℕ → ℕ
put_byte ranges mem a b p = if p == a && not (is_address_protected ranges a) then b else mem p

module _ {H : Type 0} (given : Setting H) where
  open given use {os}

  -- What stays as it is while bytes are written to plain memory.
  abbrev Stored : Cpu (Board H) → Cpu (Board H) → (ℕ → ℕ) → Type 0
  Stored c c' mem =
      (c'.write ≡ c.write)
      × (c'.bus.host ≡ c.bus.host)
      × (c'.bus.protected_ranges ≡ c.bus.protected_ranges)
      × (c'.bus.mem ≡ mem)

  machine_write-plain :
      (m : Board H) (a b : ℕ) → is_io a ≡ false → machine_write os a b m ≡ write_mem a b m
  unfolding machine_write
  machine_write-plain m a b d = ground arith

  write_mem-Stored :
      (m : Board H) (a b : ℕ)
      → ((write_mem a b m).host ≡ m.host)
        × ((write_mem a b m).protected_ranges ≡ m.protected_ranges)
        × ((write_mem a b m).mem ≡ put_byte m.protected_ranges m.mem a b)
  unfolding write_mem
  write_mem-Stored m a b = (ground arith, ground arith, fun_ext (λ p. ground arith))

  write_byte-Stored :
      (c : Cpu (Board H)) (a b : ℕ)
      → c.write ≡ some (machine_write os)
      → a < 0x10000
      → b < 0x100
      → is_io a ≡ false
      → Stored c (cpu_write_byte c a b) (put_byte c.bus.protected_ranges c.bus.mem a b)
  unfolding bus_write
  write_byte-Stored c a b w ha hb d =
      let at : u16 a ≡ a = omega arith in
      let v : u8 b ≡ b = omega arith in
      let (host, ranges, mem) = write_mem-Stored c.bus a b in
      rw (w, at, v, machine_write-plain c.bus a b d) (refl, host, ranges, mem)

  store-Stored :
      (bs : List ℕ) (c : Cpu (Board H)) (a : ℕ)
      → c.write ≡ some (machine_write os)
      → a + length bs ≤ 0x10000
      → AllBytes bs
      → NoDevice a (length bs)
      → Stored c (store c a bs) (put_all (put_byte c.bus.protected_ranges) c.bus.mem a bs)
  store-Stored [] c a w h hb d = (refl, refl, refl, refl)
  store-Stored (b ∷ []) c a w h hb d =
      write_byte-Stored c a b w (omega arith) hb.0 (d a (omega arith) (omega arith))
  store-Stored (b ∷ b' ∷ bs) c a w h hb d =
      let here = d a (omega arith) (omega arith) in
      let (write, host, ranges, mem) = write_byte-Stored c a b w (omega arith) hb.0 here in
      let c' = cpu_write_byte c a b in
      let next : u16 (a + 1) ≡ a + 1 = omega arith in
      let (write', host', ranges', mem') =
        store-Stored (b' ∷ bs) c' (a + 1) (write ∙ w) (omega arith) hb.1
          (λ p x y. d p (omega arith) (omega arith)) in
      let same = ap₂ (λ r m. put_all (put_byte r) m (a + 1) (b' ∷ bs)) ranges mem in
      subst
        (λ n.
          Stored c (store c' n (b' ∷ bs))
            (put_all (put_byte c.bus.protected_ranges) c.bus.mem a (b ∷ b' ∷ bs)))
        (sym next) (write' ∙ write, host' ∙ host, ranges' ∙ ranges, mem' ∙ same)

  -- A file of rows is read to its end, and its bytes are in memory.
  repl-rows :
      (f : ℕ) (content : H → Bytes) (stream : Stream given f content) (lo hi : ℕ) (rs : List Row)
      (fuel : ℕ) (s : Session H)
      → content s.machine.bus.host ≡ rows_text rs
      → s.machine.write ≡ some (machine_write os)
      → Within lo hi rs
      → hi ≤ 0x10000
      → ((p : ℕ) → lo ≤ p → p < hi → is_io p ≡ false)
      → length rs < fuel
      → 9 < given.rounds
      → (s' : Session H) × (monitor_repl given fuel false f s ≡ some s')
        × (s'.machine.bus.mem
            ≡ put_rows (put_byte s.machine.bus.protected_ranges) s.machine.bus.mem rs)
        × (s'.machine.bus.protected_ranges ≡ s.machine.bus.protected_ranges)
        × (s'.out ≡ s.out)
  unfolding monitor_repl
  repl-rows f content stream lo hi rs zero s e w fit top d n r = absurd (omega arith)
  repl-rows f content stream lo hi [] (suc fuel) s e w fit top d n r =
      let last = read_line-last given f content stream [] s.machine.bus.host e tt (omega arith) in
      (
        with_host given s (read_line given f 255 s.machine.bus.host).1,
        rw last refl,
        refl,
        refl,
        refl,
      )
  repl-rows f content stream lo hi ((a, bs) ∷ rs) (suc fuel) s e w fit top d n r =
      let (low, high, hb, more, short, rest) = fit in
      let ha : a < 0x10000 = omega arith in
      let h : a + length bs ≤ 0x10000 = omega arith in
      let plain : NoDevice a (length bs) = λ p x y. d p (omega arith) (omega arith) in
      let (one, same, long) = write_line-Readable a bs ha hb in
      let (host, line, after) =
        read_line-line given f content stream (write_line a bs) (rows_text rs) s.machine.bus.host e
          one (omega arith) in
      let s1 = with_host given s host in
      let s2 = record s1 { last = a; machine = store s1.machine a bs } in
      let done =
        parse_command-write_line given (read_file given (monitor_repl given fuel false)) a bs s1 ha
          hb (omega arith) in
      let (write, host', ranges, mem) = store-Stored bs s1.machine a w h hb plain in
      let (s', path, mem', ranges', out') =
        repl-rows f content stream lo hi rs fuel s2 (ap content host' ∙ after) (write ∙ w) rest top
          d (omega arith) r in
      (
        s',
        rw (line, same, done) path,
        mem' ∙ ap₂ (λ r m. put_rows (put_byte r) m rs) ranges mem,
        ranges' ∙ ranges,
        out',
      )

  -- A file with what bin2woz prints for some bytes, from an address on, and so with what SAVE
  -- writes for them, on a machine with its own write callback: reading it with the monitor ends,
  -- prints nothing, and leaves memory as if the bytes were put one after the other from the
  -- address on, where memory is not protected. The range has to end at 0xFFFF or before it and to
  -- reach no device; the fuel is above the number of rows, and ten rounds are enough for a line.
  pub monitor_repl-bin2woz :
      (f : ℕ) (content : H → Bytes) (stream : Stream given f content) (start : ℕ) (bs : List ℕ)
      (fuel : ℕ) (s : Session H)
      → content s.machine.bus.host ≡ woz_loop start 0 bs
      → s.machine.write ≡ some (machine_write os)
      → start + length bs ≤ 0x10000
      → AllBytes bs
      → NoDevice start (length bs)
      → length (rows start bs) < fuel
      → 9 < given.rounds
      → (s' : Session H) × (monitor_repl given fuel false f s ≡ some s')
        × (s'.machine.bus.mem
            ≡ put_all (put_byte s.machine.bus.protected_ranges) s.machine.bus.mem start bs)
        × (s'.machine.bus.protected_ranges ≡ s.machine.bus.protected_ranges)
        × (s'.out ≡ s.out)
  monitor_repl-bin2woz f content stream start bs fuel s e w h hb d n r =
      let (s', path, mem, ranges, out) =
        repl-rows f content stream start (start + length bs) (rows start bs) fuel s
          (e ∙ woz_loop-rows start bs h) w
          (rows-Within start (start + length bs) start bs (omega arith) (omega arith) hb) h d n r in
      (
        s',
        path,
        mem ∙ put_rows-rows (put_byte s.machine.bus.protected_ranges) s.machine.bus.mem start bs,
        ranges,
        out,
      )
