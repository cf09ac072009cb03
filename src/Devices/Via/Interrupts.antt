-- ===== src/Devices/Via/Interrupts.antt =====
-- The interrupt bits of the VIA, and which registers read back what was written.
use v6502c.Base.{ℕ, ◌-◌, ◌/◌, ◌%◌, ◌^◌, ◌<◌, ◌≡◌, ◌∙◌, refl, ap, arith}
use v6502c.Base.{bit, bit_and, bit_or, bit-or, bit-and, bit-u8, bit_and_low, masks-bit}
use v6502c.Base.{Bool, true, false, not, ◌&&◌, ◌||◌, some}
use v6502c.Base.{◌==◌, if◌then◌else◌, u8, not8, masks}
use v6502c.Base.{bit-lt, all_below, all_below_sound, ==→eq, bit_and_high, bit_or_fields}
use mathlib.Core.Bool.{false≢true}
use v6502c.Devices.Via.Timers.{with_high_lem}
use v6502c.Devices.Via.{
  Via, ViaReg, portb, porta, ddrb, ddra, t1cl, t1ch, t1ll, t1lh, t2cl, t2ch, sr, acr, pcr, ifr, ier,
  portanh, clear_mask, set_mask, read_reg, write_reg, via_irq_pending,
}

masks-set :
    (x m j : ℕ) → j < 8 → masks (set_mask x m) (2 ^ j) ≡ (masks x (2 ^ j) || masks m (2 ^ j))
unfolding set_mask
masks-set x m j h = ground (
  arith,
  masks-bit j (u8 (bit_or x m)),
  masks-bit j x,
  masks-bit j m,
  bit-u8 j (bit_or x m),
  bit-or j x m,
  bit-lt j x,
  bit-lt j m,
)

not_table : all_below 8 (λ j. all_below 0x100 (λ m. bit j (not8 m) == 1 - bit j m)) ≡ true
unfolding all_below
not_table = refl

bit-not : (j m : ℕ) → j < 8 → m < 0x100 → bit j (not8 m) ≡ 1 - bit j m
bit-not j m hj hm = ==→eq _ _ (
    all_below_sound 0x100 (λ m. bit j (not8 m) == 1 - bit j m) m
      (all_below_sound 8 (λ j. all_below 0x100 (λ m. bit j (not8 m) == 1 - bit j m)) j not_table hj)
      hm)

masks-clear :
    (x m j : ℕ)
    → j < 8
    → m < 0x100
    → masks (clear_mask x m) (2 ^ j) ≡ (not (masks m (2 ^ j)) && masks x (2 ^ j))
unfolding clear_mask
masks-clear x m j h hm = ground (
  arith,
  masks-bit j (u8 (bit_and x (not8 m))),
  masks-bit j x,
  masks-bit j m,
  bit-u8 j (bit_and x (not8 m)),
  bit-and j x (not8 m),
  bit-not j m,
  bit-lt j x,
  bit-lt j m,
)

seven_table : all_below 7 (λ j. bit j 0x7F == 1) ≡ true
unfolding all_below
seven_table = refl

masks_seven : (value j : ℕ) → j < 7 → masks (bit_and value 0x7F) (2 ^ j) ≡ masks value (2 ^ j)
masks_seven value j h = ground (
  arith,
  masks-bit j (bit_and value 0x7F),
  masks-bit j value,
  bit-and j value 0x7F,
  ==→eq _ _ (all_below_sound 7 (λ j. bit j 0x7F == 1) j seven_table h),
  bit-lt j value,
)

-- What a program can see of an interrupt bit after a write to the enable register: bit 7 of the
-- value says whether the other bits that it has set are enabled or disabled, and the rest stay. A
-- write to the flag register clears the bits that the value has set. `j` is one of the seven bits.
pub write_reg-interrupts :
    (d : Via) (value j : ℕ)
    → j < 7
    → (masks (write_reg ier d value).ier (2 ^ j)
        ≡ (if masks value (2 ^ j) then masks value 0x80 else masks d.ier (2 ^ j)))
      × (masks (write_reg ifr d value).ifr (2 ^ j)
          ≡ (not (masks value (2 ^ j)) && masks d.ifr (2 ^ j)))
unfolding write_reg set_mask clear_mask
write_reg-interrupts d value j h =
    let low = bit_and value 0x7F in
    ground (
      arith,
      masks_seven value j,
      bit_and_low 7 value,
      masks-set d.ier low j,
      masks-clear d.ier low j,
      masks-clear d.ifr low j,
    )

-- The seven interrupt sources.
abbrev pub any_source : (ℕ → Bool) → Bool
any_source p = p 0x01 || p 0x02 || p 0x04 || p 0x08 || p 0x10 || p 0x20 || p 0x40

any_source-masks : (y : ℕ) → masks y 0x7F ≡ any_source (masks y)
any_source-masks y = ground (
  arith,
  bit_and_low 7 y,
  masks-bit 0 y,
  masks-bit 1 y,
  masks-bit 2 y,
  masks-bit 3 y,
  masks-bit 4 y,
  masks-bit 5 y,
  masks-bit 6 y,
)

masks_both : (a b j : ℕ) → masks (bit_and a b) (2 ^ j) ≡ (masks a (2 ^ j) && masks b (2 ^ j))
masks_both a b j = ground (
  arith,
  masks-bit j (bit_and a b),
  masks-bit j a,
  masks-bit j b,
  bit-and j a b,
  bit-lt j a,
  bit-lt j b,
)

any_source-both :
    (a b : ℕ) → any_source (masks (bit_and a b)) ≡ any_source (λ m. masks a m && masks b m)
any_source-both a b = λ i.
    masks_both a b 0 i
    || masks_both a b 1 i
    || masks_both a b 2 i
    || masks_both a b 3 i
    || masks_both a b 4 i
    || masks_both a b 5 i
    || masks_both a b 6 i

-- An interrupt is pending exactly if some source is both flagged and enabled, and then the flag
-- register reads with its highest bit set; else it reads as it is.
pub via_irq_pending_lem :
    (d : Via)
    → (via_irq_pending (some d) ≡ any_source (λ m. masks d.ifr m && masks d.ier m))
      × ((read_reg ifr d).0 ≡ (if via_irq_pending (some d) then set_mask d.ifr 0x80 else d.ifr))
unfolding via_irq_pending read_reg
via_irq_pending_lem d = (any_source-masks (bit_and d.ifr d.ier) ∙ any_source-both d.ifr d.ier, refl)

-- The registers that hold what was written to them.
abbrev pub is_plain : ViaReg → Bool
is_plain t1cl = false
is_plain t1ch = false
is_plain t2cl = false
is_plain t2ch = false
is_plain ifr = false
is_plain ier = false
is_plain _ = true

-- A byte written to a port, a direction register, a byte of the latch of timer 1, the shift
-- register or a control register reads back, and reading it changes nothing.
pub read_reg-write_reg :
    (r : ViaReg) (d : Via) (value : ℕ)
    → is_plain r ≡ true
    → value < 0x100
    → read_reg r (write_reg r d value) ≡ (value, write_reg r d value)
unfolding read_reg write_reg
read_reg-write_reg portb d value p h = refl
read_reg-write_reg porta d value p h = refl
read_reg-write_reg portanh d value p h = refl
read_reg-write_reg ddrb d value p h = refl
read_reg-write_reg ddra d value p h = refl
read_reg-write_reg sr d value p h = refl
read_reg-write_reg acr d value p h = refl
read_reg-write_reg pcr d value p h = refl
read_reg-write_reg t1ll d value p h =
    ap (λ v. (v, write_reg t1ll d value))
      (ground (
        arith,
        bit_and_high 8 (d.t1_latch / 0x100) (d.t1_latch % 0x100) 0xFF,
        bit_or_fields 8 (bit_and (d.t1_latch / 0x100) 0xFF) value,
      ))
read_reg-write_reg t1lh d value p h =
    ap (λ v. (v, write_reg t1lh d value)) (ground (arith, with_high_lem d.t1_latch value))
read_reg-write_reg _ d value p h = absurd (false≢true p)
