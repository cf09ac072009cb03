-- ===== src/Devices/Via.antt =====
-- `via_t` of src/devices.h and the VIA 6522 of src/devices.c: two timers, ports and interrupt bits.
-- `none` is a NULL device.
pub mod Timers
pub mod Interrupts
use v6502c.Base.{ℕ, ◌+◌, ◌-◌, ◌*◌, ◌/◌, ◌%◌, ◌^◌, bit_and, bit_or}
use v6502c.Base.{Bool, true, false, not, Option, none, some, List, [], ◌∷◌}
use v6502c.Base.{◌==◌, if◌then◌else◌, u8, u16, not8, get_or}

pub record Via : Type 0 where
  pub port_a : ℕ
  pub port_b : ℕ
  pub ddr_a : ℕ
  pub ddr_b : ℕ
  pub t1_counter : ℕ
  pub t1_latch : ℕ
  pub t2_counter : ℕ
  pub t2_latch_low : ℕ
  pub shift_reg : ℕ
  pub acr : ℕ
  pub pcr : ℕ
  pub ifr : ℕ
  pub ier : ℕ
  pub t1_running : Bool
  pub t2_running : Bool

-- The `VIA_REG_` names, in the order of their numbers.
pub data ViaReg : Type 0 where
  portb porta ddrb ddra t1cl t1ch t1ll t1lh t2cl t2ch sr acr pcr ifr ier portanh : ViaReg

via_regs : List ViaReg
via_regs =
    portb ∷ porta ∷ ddrb ∷ ddra ∷ t1cl ∷ t1ch ∷ t1ll ∷ t1lh ∷ t2cl ∷ t2ch ∷ sr ∷ acr ∷ pcr ∷ ifr
    ∷ ier ∷ portanh ∷ []

-- The case that `switch (reg & 0x0F)` takes.
unfoldable pub via_reg : ℕ → ViaReg
unfolding via_regs
via_reg reg = get_or via_regs (reg % 0x10) portb

abbrev pub via_int_t2 : ℕ
via_int_t2 = 0x20

abbrev pub via_int_t1 : ℕ
via_int_t1 = 0x40

abbrev pub via_int_irq : ℕ
via_int_irq = 0x80

abbrev pub via_acr_t1_continuous : ℕ
via_acr_t1_continuous = 0x40

-- `ifr &= ~mask` and `ifr |= mask`, in the byte.
unfoldable pub clear_mask : ℕ → ℕ → ℕ
clear_mask value mask = u8 (bit_and value (not8 mask))

unfoldable pub set_mask : ℕ → ℕ → ℕ
set_mask value mask = u8 (bit_or value mask)

abbrev pub has_mask : ℕ → ℕ → Bool
has_mask value mask = not (bit_and value mask == 0)

-- The fields that `via_reset` sets are all there are, so `via_create` needs no more.
unfoldable pub reset_via : Via
reset_via = record {
  port_a = 0;
  port_b = 0;
  ddr_a = 0;
  ddr_b = 0;
  t1_counter = 0xFFFF;
  t1_latch = 0xFFFF;
  t2_counter = 0xFFFF;
  t2_latch_low = 0xFF;
  shift_reg = 0;
  acr = 0;
  pcr = 0;
  ifr = 0;
  ier = 0;
  t1_running = false;
  t2_running = false;
}

unfoldable pub via_reset : Option Via → Option Via
via_reset none = none
via_reset (some dev) = some reset_via

-- `room` says whether `malloc` returns a device.
unfoldable pub via_create : Bool → Option Via
via_create room = if room then some reset_via else none

unfoldable pub via_irq_pending : Option Via → Bool
via_irq_pending none = false
via_irq_pending (some dev) = has_mask (bit_and dev.ifr dev.ier) 0x7F

-- The value read and what the read does to the device, by register.
unfoldable pub read_reg : ViaReg → Via → ℕ × Via
read_reg portb dev = (dev.port_b, dev)
read_reg porta dev = (dev.port_a, dev)
read_reg portanh dev = (dev.port_a, dev)
read_reg ddrb dev = (dev.ddr_b, dev)
read_reg ddra dev = (dev.ddr_a, dev)
read_reg t1cl dev = (u8 dev.t1_counter, record dev { ifr = clear_mask dev.ifr via_int_t1 })
read_reg t1ch dev = (u8 (dev.t1_counter / 2 ^ 8), dev)
read_reg t1ll dev = (u8 dev.t1_latch, dev)
read_reg t1lh dev = (u8 (dev.t1_latch / 2 ^ 8), dev)
read_reg t2cl dev = (u8 dev.t2_counter, record dev { ifr = clear_mask dev.ifr via_int_t2 })
read_reg t2ch dev = (u8 (dev.t2_counter / 2 ^ 8), dev)
read_reg sr dev = (dev.shift_reg, dev)
read_reg acr dev = (dev.acr, dev)
read_reg pcr dev = (dev.pcr, dev)
read_reg ifr dev =
    (if has_mask (bit_and dev.ifr dev.ier) 0x7F then set_mask dev.ifr via_int_irq else dev.ifr, dev)
read_reg ier dev = (set_mask dev.ier 0x80, dev)

unfoldable pub via_read : Option Via → ℕ → ℕ × Option Via
via_read none reg = (0xFF, none)
via_read (some dev) reg = let (value, dev') = read_reg (via_reg reg) dev in (value, some dev')

-- A 16-bit value with one byte replaced.
abbrev pub with_low : ℕ → ℕ → ℕ
with_low word value = u16 (bit_or (bit_and word 0xFF00) value)

abbrev pub with_high : ℕ → ℕ → ℕ
with_high word value = u16 (bit_or (bit_and word 0x00FF) (value * 2 ^ 8))

unfoldable pub write_reg : ViaReg → Via → ℕ → Via
write_reg portb dev value = record dev { port_b = value }
write_reg porta dev value = record dev { port_a = value }
write_reg portanh dev value = record dev { port_a = value }
write_reg ddrb dev value = record dev { ddr_b = value }
write_reg ddra dev value = record dev { ddr_a = value }
write_reg t1cl dev value = record dev { t1_latch = with_low dev.t1_latch value }
write_reg t1ll dev value = record dev { t1_latch = with_low dev.t1_latch value }
write_reg t1ch dev value =
    let latch = with_high dev.t1_latch value in
    record dev {
      t1_latch = latch;
      t1_counter = latch;
      t1_running = true;
      ifr = clear_mask dev.ifr via_int_t1;
    }
write_reg t1lh dev value = record dev { t1_latch = with_high dev.t1_latch value }
write_reg t2cl dev value = record dev { t2_latch_low = value }
write_reg t2ch dev value = record dev {
  t2_counter = u16 (bit_or (value * 2 ^ 8) dev.t2_latch_low);
  t2_running = true;
  ifr = clear_mask dev.ifr via_int_t2;
}
write_reg sr dev value = record dev { shift_reg = value }
write_reg acr dev value = record dev { acr = value }
write_reg pcr dev value = record dev { pcr = value }
write_reg ifr dev value = record dev { ifr = clear_mask dev.ifr (bit_and value 0x7F) }
write_reg ier dev value =
    let mask = bit_and value 0x7F in
    record dev {
      ier = if has_mask value 0x80 then set_mask dev.ier mask else clear_mask dev.ier mask;
    }

unfoldable pub via_write : Option Via → ℕ → ℕ → Option Via
via_write none reg value = none
via_write (some dev) reg value = some (write_reg (via_reg reg) dev (u8 value))

unfoldable pub tick_t1 : Via → Via
tick_t1 dev =
    if dev.t1_running
    then (if dev.t1_counter == 0
        then (let dev' = record dev { ifr = set_mask dev.ifr via_int_t1 } in
            if has_mask dev'.acr via_acr_t1_continuous
            then record dev' { t1_counter = dev'.t1_latch }
            else record dev' { t1_running = false })
        else record dev { t1_counter = dev.t1_counter - 1 })
    else dev

unfoldable pub tick_t2 : Via → Via
tick_t2 dev =
    if dev.t2_running
    then (if dev.t2_counter == 0
        then record dev { ifr = set_mask dev.ifr via_int_t2; t2_running = false }
        else record dev { t2_counter = dev.t2_counter - 1 })
    else dev

unfoldable pub via_tick : Option Via → Option Via
via_tick none = none
via_tick (some dev) = some (tick_t2 (tick_t1 dev))
