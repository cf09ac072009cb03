-- ===== src/Cpu/State.antt =====
-- `cpu` of src/v6502.h, the status bits, and the bus and stack helpers of src/v6502.c.
-- The callbacks of the C code take no processor and reach memory and devices through a global;
-- here that global is the field `bus`, of a type that the user of the library chooses.
-- Every pointer to a `cpu` is a real one: the tests `c == NULL` are not in the model.
use v6502c.Base.{ℕ, ◌+◌, ◌*◌, ◌/◌, ◌^◌, bit_and, bit_or, bit_xor}
pub use v6502c.Base.{masks}
use v6502c.Base.{Bool, Option, none, some}
use v6502c.Base.{◌==◌, if◌then◌else◌, u8, u16, not8}

-- `enum cpu_variant_t`
pub data Variant : Type 0 where
  cpu_6502 cpu_65c02 : Variant

abbrev pub ReadFn : Type 0 → Type 0
ReadFn S = ℕ → S → ℕ × S

abbrev pub WriteFn : Type 0 → Type 0
WriteFn S = ℕ → ℕ → S → S

abbrev pub TickFn : Type 0 → Type 0
TickFn S = S → S

pub record Cpu (S : Type 0) : Type 0 where
  pub pc : ℕ
  pub a : ℕ
  pub x : ℕ
  pub y : ℕ
  pub sr : ℕ
  pub sp : ℕ
  pub halted : Bool
  pub reset : Bool
  pub irq : Bool
  pub nmi : Bool
  pub variant : Variant
  pub read : Option (ReadFn S)
  pub write : Option (WriteFn S)
  pub tick : Option (TickFn S)
  pub bus : S

abbrev pub irq_vector : ℕ
irq_vector = 0xFFFE

abbrev pub reset_vector : ℕ
reset_vector = 0xFFFC

abbrev pub nmi_vector : ℕ
nmi_vector = 0xFFFA

abbrev pub carry_flag : ℕ
carry_flag = 0

abbrev pub zero_flag : ℕ
zero_flag = 1

abbrev pub irq_disable : ℕ
irq_disable = 2

abbrev pub bcd_flag : ℕ
bcd_flag = 3

abbrev pub break_flag : ℕ
break_flag = 4

abbrev pub overflow_flag : ℕ
overflow_flag = 6

abbrev pub negative_flag : ℕ
negative_flag = 7

-- What `_set_bit`, `_clear_bit`, `_toggle_bit` and `_check_bit` do to the status byte.
unfoldable pub set_flag : ℕ → ℕ → ℕ
set_flag sr bit = u8 (bit_or sr (2 ^ bit))

unfoldable pub clear_flag : ℕ → ℕ → ℕ
clear_flag sr bit = u8 (bit_and sr (not8 (2 ^ bit)))

unfoldable pub toggle_flag : ℕ → ℕ → ℕ
toggle_flag sr bit = u8 (bit_xor sr (2 ^ bit))

unfoldable pub check_flag : ℕ → ℕ → Bool
check_flag sr bit = masks sr (2 ^ bit)

-- The code's `if (test) { _set_bit(c, bit); } else { _clear_bit(c, bit); }`.
unfoldable pub put_flag : Bool → ℕ → ℕ → ℕ
put_flag test sr bit = if test then set_flag sr bit else clear_flag sr bit

-- A call of the read callback, and of the write callback. The prototypes cut the address to 16
-- bits and the value to 8.
unfoldable pub bus_read : {S : Type 0} → Option (ReadFn S) → ℕ → S → ℕ × S
bus_read none a s = (0, s)
bus_read (some f) a s = let (b, s') = f (u16 a) s in (u8 b, s')

unfoldable pub bus_write : {S : Type 0} → Option (WriteFn S) → ℕ → ℕ → S → S
bus_write none a b s = s
bus_write (some f) a b s = f (u16 a) (u8 b) s

-- `(hi << 8) | lo`
abbrev pub join : ℕ → ℕ → ℕ
join hi lo = bit_or (hi * 2 ^ 8) lo

module _ {S : Type 0} where
  abbrev pub set_bit : Cpu S → ℕ → Cpu S
  set_bit c bit = record c { sr = set_flag c.sr bit }

  abbrev pub clear_bit : Cpu S → ℕ → Cpu S
  clear_bit c bit = record c { sr = clear_flag c.sr bit }

  abbrev pub toggle_bit : Cpu S → ℕ → Cpu S
  toggle_bit c bit = record c { sr = toggle_flag c.sr bit }

  abbrev pub check_bit : Cpu S → ℕ → Bool
  check_bit c bit = check_flag c.sr bit

  abbrev pub put_bit : Bool → Cpu S → ℕ → Cpu S
  put_bit test c bit = record c { sr = put_flag test c.sr bit }

  abbrev pub set_zero_flag : Cpu S → ℕ → Cpu S
  set_zero_flag c value = put_bit (u8 value == 0) c zero_flag

  abbrev pub set_negative_flag : Cpu S → ℕ → Cpu S
  set_negative_flag c value = put_bit (masks (u8 value) 0x80) c negative_flag

  -- The two calls that follow most results.
  abbrev pub set_zn : Cpu S → ℕ → Cpu S
  set_zn c value = set_negative_flag (set_zero_flag c value) value

  abbrev pub cpu_read_byte : Cpu S → ℕ → ℕ × Cpu S
  cpu_read_byte c at = let r = bus_read c.read at c.bus in (r.0, record c { bus = r.1 })

  abbrev pub cpu_read_address : Cpu S → ℕ → ℕ × Cpu S
  cpu_read_address c at =
      let (lo, c1) = cpu_read_byte c at in
      let (hi, c2) = cpu_read_byte c1 (u16 (at + 1)) in (u16 (join hi lo), c2)

  abbrev pub cpu_write_byte : Cpu S → ℕ → ℕ → Cpu S
  cpu_write_byte c at b = record c { bus = bus_write c.write at b c.bus }

  -- `hi = (byte) value >> 8` casts first and shifts then; the high byte is written first.
  unfoldable pub cpu_write_address : Cpu S → ℕ → ℕ → Cpu S
  cpu_write_address c at value =
      let lo = u8 value in
      let hi = u8 value / 2 ^ 8 in cpu_write_byte (cpu_write_byte c at hi) (u16 (at + 1)) lo

  abbrev pub cpu_next_byte : Cpu S → ℕ × Cpu S
  cpu_next_byte c = cpu_read_byte (record c { pc = u16 (c.pc + 1) }) c.pc

  abbrev pub cpu_next_address : Cpu S → ℕ × Cpu S
  cpu_next_address c =
      let (at, c1) = cpu_read_address c c.pc in (at, record c1 { pc = u16 (c1.pc + 2) })

  -- `sp--` and `sp++` wrap in the byte.
  abbrev pub push : Cpu S → ℕ → Cpu S
  push c value =
      let c1 = cpu_write_byte c (0x100 + c.sp) value in record c1 { sp = u8 (c1.sp + 0xFF) }

  abbrev pub pop : Cpu S → ℕ × Cpu S
  pop c = let c1 = record c { sp = u8 (c.sp + 1) } in cpu_read_byte c1 (0x100 + c1.sp)
