-- ===== src/Devices/Acia.antt =====
-- `acia_t` of src/devices.h and the ACIA 6551 of src/devices.c: a serial port.
-- `none` is a NULL device. The messages of verbose mode are not in the model.
pub mod Serial
use v6502c.Base.{ℕ, ◌%◌, bit_or, Bool, true, false, not, ◌&&◌, ◌||◌, Option, none, some}
use v6502c.Base.{List, [], ◌∷◌, ◌==◌, if◌then◌else◌, u8, get_or}
use v6502c.Devices.Host.{Host}

pub record Acia : Type 0 where
  pub input : Option ℕ
  pub output : Option ℕ
  pub command : ℕ
  pub control : ℕ
  pub rx_data : ℕ
  pub rx_full : Bool

-- The `ACIA_REG_` names, in the order of their numbers.
pub data AciaReg : Type 0 where
  data_reg status_reg command_reg control_reg : AciaReg

acia_regs : List AciaReg
acia_regs = data_reg ∷ status_reg ∷ command_reg ∷ control_reg ∷ []

-- The case that `switch (reg & 0x03)` takes.
unfoldable pub acia_reg : ℕ → AciaReg
unfolding acia_regs
acia_reg reg = get_or acia_regs (reg % 4) data_reg

abbrev pub acia_status_rdrf : ℕ
acia_status_rdrf = 0x08

abbrev pub acia_status_tdre : ℕ
acia_status_tdre = 0x10

unfoldable pub reset_acia : Acia → Acia
reset_acia dev = record dev { command = 0; control = 0; rx_data = 0; rx_full = false }

unfoldable pub acia_reset : Option Acia → Option Acia
acia_reset none = none
acia_reset (some dev) = some (reset_acia dev)

-- `room` says whether `malloc` returns a device.
unfoldable pub acia_create : Bool → Option ℕ → Option ℕ → Option Acia
acia_create room input output =
    if room
    then some (record {
      input = input;
      output = output;
      command = 0;
      control = 0;
      rx_data = 0;
      rx_full = false;
    })
    else none

module _ {H : Type 0} (os : Host H) where
  open os use {select_ready, read_byte, put_char}

  unfoldable pub input_available : Option ℕ → H → Bool
  input_available none h = false
  input_available (some f) h = select_ready f h

  -- The byte that `read` got goes to `rx_data`.
  unfoldable pub received : Acia → Option ℕ × H → Acia × H
  received dev (none, h) = (dev, h)
  received dev (some c, h) = (record dev { rx_data = u8 c }, h)

  unfoldable pub receive : Acia → Option ℕ → H → Acia × H
  receive dev none h = (dev, h)
  receive dev (some f) h = received dev (read_byte f h)

  -- A value, the device and the host after the read, by register.
  unfoldable pub acia_read_reg : AciaReg → Acia → H → ℕ × Acia × H
  acia_read_reg data_reg dev h =
      let r =
        if not dev.rx_full && input_available dev.input h
        then receive dev dev.input h
        else (dev, h) in
      (r.0.rx_data, record (r.0) { rx_full = false }, r.1)
  acia_read_reg status_reg dev h =
      let status =
        if dev.rx_full || input_available dev.input h
        then bit_or acia_status_tdre acia_status_rdrf
        else acia_status_tdre in
      (status, dev, h)
  acia_read_reg command_reg dev h = (dev.command, dev, h)
  acia_read_reg control_reg dev h = (dev.control, dev, h)

  unfoldable pub acia_read : Option Acia → ℕ → H → ℕ × Option Acia × H
  acia_read none reg h = (0xFF, none, h)
  acia_read (some dev) reg h = let r = acia_read_reg (acia_reg reg) dev h in (r.0, some r.1, r.2)

  unfoldable pub transmit : Option ℕ → ℕ → H → H
  transmit none value h = h
  transmit (some f) value h = put_char f value h

  unfoldable pub acia_write_reg : AciaReg → Acia → ℕ → H → Acia × H
  acia_write_reg data_reg dev value h = (dev, transmit dev.output value h)
  acia_write_reg status_reg dev value h = (reset_acia dev, h)
  acia_write_reg command_reg dev value h = (record dev { command = value }, h)
  acia_write_reg control_reg dev value h = (record dev { control = value }, h)

  unfoldable pub acia_write : Option Acia → ℕ → ℕ → H → Option Acia × H
  acia_write none reg value h = (none, h)
  acia_write (some dev) reg value h =
      let r = acia_write_reg (acia_reg reg) dev (u8 value) h in (some r.0, r.1)
