-- ===== src/Monitor/Command/Memory.antt =====
-- What a line of the monitor does to the memory of the machine.
use v6502c.Base.{
  ℕ, suc, ◌+◌, ◌-◌, ◌≤◌, ◌<◌, ◌≡◌, ◌≢◌, ◌∙◌, refl, sym, ap, arith, Bool, true, false, ◌&&◌, not,
  Option, some, List, [], ◌∷◌, Bool-cases, inl, inr,
}
use v6502c.Base.{◌==◌, ltb, leb, if◌then◌else◌, u8, u16, Bytes, length, get_or}
use v6502c.Cpu.State.{Cpu, bus_write, cpu_write_byte}
use v6502c.Machine.{Board, is_address_protected, machine_write}
use v6502c.Machine.Bus.{is_io, machine_write_lem}
use v6502c.Monitor.Session.{Session, Setting}
use v6502c.Monitor.Edit.Writes.{store, AllBytes}
use v6502c.Monitor.Command.{parse_command}
use v6502c.Monitor.Command.Line.{write_line, parse_command-write_line}

-- Is the address one of `n` from `a` on? Is it plain memory that is not protected?
abbrev pub spans : ℕ → ℕ → ℕ → Bool
spans a n p = leb a p && ltb p (a + n)

abbrev pub is_plain : {H : Type 0} → Board H → ℕ → Bool
is_plain m p = not (is_io p) && not (is_address_protected m.protected_ranges p)

spans-first :
    (a n : ℕ) → a + suc n ≤ 0x10000 → (spans a (suc n) a ≡ true) × (spans (u16 (a + 1)) n a ≡ false)
spans-first a n h = ground arith

spans-next : (a n p : ℕ) → a + suc n ≤ 0x10000 → p ≢ a → spans (u16 (a + 1)) n p ≡ spans a (suc n) p
spans-next a n p h d = ground arith

get_or-next :
    (a n p b : ℕ) (bs : List ℕ)
    → a + suc n ≤ 0x10000
    → p ≢ a
    → spans a (suc n) p ≡ true
    → get_or (b ∷ bs) (p - a) 0 ≡ get_or bs (p - u16 (a + 1)) 0
get_or-next a n p b bs h d t =
    let e : p - a ≡ suc (p - u16 (a + 1)) = ground arith in ap (λ i. get_or (b ∷ bs) i 0) e

and_assoc : (x y z : Bool) → (x && y && z) ≡ (x && (y && z))
and_assoc true y z = refl
and_assoc false y z = refl

-- The two cases of a step, of the values that it compares.
at_first :
    (later now plain plain' here : Bool) (z g m b old g' : ℕ)
    → later ≡ false
    → now ≡ true
    → here ≡ true
    → g' ≡ b
    → z ≡ (if later && plain' then g else m)
    → m ≡ (if here && plain then b else old)
    → z ≡ (if now && plain then g' else old)
at_first later now plain plain' here z g m b old g' e1 e2 e3 e4 e5 e6 = ground arith

at_other :
    (later now plain plain' first here : Bool) (z g m b old g' : ℕ)
    → later ≡ now
    → plain' ≡ plain
    → here ≡ false
    → (now ≡ true → g' ≡ g)
    → z ≡ (if later && plain' then g else m)
    → m ≡ (if here && first then b else old)
    → z ≡ (if now && plain then g' else old)
at_other later now plain plain' first here z g m b old g' e1 e2 e3 e4 e5 e6 = ground arith

module _ {H : Type 0} (given : Setting H) where
  open given use {os, rounds}

  write_byte_mem :
      (c : Cpu (Board H)) (a b p : ℕ)
      → c.write ≡ some (machine_write os)
      → a < 0x10000
      → b < 0x100
      → let c' = cpu_write_byte c a b in
        (c'.bus.mem p ≡ (if p == a && is_plain c.bus a then b else c.bus.mem p))
        × (c'.bus.protected_ranges ≡ c.bus.protected_ranges)
  unfolding bus_write
  write_byte_mem c a b p w ha hb =
      let at : u16 a ≡ a = omega arith in
      let v : u8 b ≡ b = omega arith in
      let (mem, same) = machine_write_lem os c.bus a b p in
      let test =
        and_assoc (p == a) (not (is_io a)) (not (is_address_protected c.bus.protected_ranges a)) in
      rw (w, at, v) (mem ∙ ap (λ t. if t then b else c.bus.mem p) test, same)

  store-mem :
      (c : Cpu (Board H)) (a : ℕ) (bs : List ℕ) (p : ℕ)
      → c.write ≡ some (machine_write os)
      → a + length bs ≤ 0x10000
      → AllBytes bs
      → (store c a bs).bus.mem p
        ≡ (if spans a (length bs) p && is_plain c.bus p then get_or bs (p - a) 0 else c.bus.mem p)
  store-mem c a [] p w h hb = ground arith
  store-mem c a (b ∷ bs) p w h hb =
      let c' = cpu_write_byte c a b in
      let n = length bs in
      let (mem, same) = write_byte_mem c a b p w (omega arith) hb.0 in
      let rest = store-mem c' (u16 (a + 1)) bs p w (omega arith) hb.1 in
      let plain : is_plain c'.bus p ≡ is_plain c.bus p =
        ap (λ l. not (is_io p) && not (is_address_protected l p)) same in
      let z = (store c' (u16 (a + 1)) bs).bus.mem p in
      let g' = get_or (b ∷ bs) (p - a) 0 in
      elim (Bool-cases (p == a)) [
        | inl t ↦
            let e : p ≡ a = ground arith in
            let zero_off : p - a ≡ 0 = omega arith in
            let (now, later) = spans-first a n h in
            at_first (spans (u16 (a + 1)) n p) (spans a (suc n) p) (is_plain c.bus p)
              (is_plain c'.bus p) (p == a) z _ (c'.bus.mem p) b (c.bus.mem p) g'
              (ap (spans (u16 (a + 1)) n) e ∙ later) (ap (spans a (suc n)) e ∙ now) t
              (ap (λ i. get_or (b ∷ bs) i 0) zero_off) rest
              (mem ∙ ap (λ q. if p == a && is_plain c.bus q then b else c.bus.mem p) (sym e))
        | inr t ↦
            let d : p ≢ a = ground arith in
            at_other (spans (u16 (a + 1)) n p) (spans a (suc n) p) (is_plain c.bus p)
              (is_plain c'.bus p) (is_plain c.bus a) (p == a) z _ (c'.bus.mem p) b (c.bus.mem p) g'
              (spans-next a n p h d) plain t (get_or-next a n p b bs h d) rest mem
      ]

  -- A line of an address, a colon and bytes that stay within the 16 bits, on a machine with its
  -- own write callback: the monitor goes on, and each of the addresses from the first on that is
  -- plain memory and not protected has its byte; all other memory is as before.
  pub parse_command-mem :
      (load_file : Bytes → Session H → Option (Session H)) (a : ℕ) (bs : List ℕ) (s : Session H)
      → s.machine.write ≡ some (machine_write os)
      → a < 0x10000
      → a + length bs ≤ 0x10000
      → AllBytes bs
      → length bs + 1 < rounds
      → (s' : Session H) × (parse_command given load_file (write_line a bs) s ≡ some (false, s'))
        × ((p : ℕ)
            → s'.machine.bus.mem p ≡ (
                if spans a (length bs) p && is_plain s.machine.bus p
                then get_or bs (p - a) 0
                else s.machine.bus.mem p))
  parse_command-mem load_file a bs s w ha h hb f = (
    record s { last = a; machine = store s.machine a bs },
    parse_command-write_line given load_file a bs s ha hb f,
    λ p. store-mem s.machine a bs p w h hb,
  )
