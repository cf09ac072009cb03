-- ===== src/Machine/Bus.antt =====
-- What reading and writing an address does to memory, and which device an address reaches.
use v6502c.Base.{ℕ, ◌≡◌, arith, Bool, false}
use v6502c.Base.{if◌then◌else◌, ◌==◌, not, ◌&&◌, ◌||◌}
use v6502c.Devices.Host.{Host}
use v6502c.Machine.{Board, within, is_address_protected, machine_read, machine_write, write_mem}

-- The addresses that reach a device.
abbrev pub is_io : ℕ → Bool
is_io a = within 0xC010 0xC013 a || within 0xC020 0xC023 a || within 0xC030 0xC04F a

module _ {H : Type 0} (os : Host H) where
  -- A read changes neither memory nor the protected ranges.
  pub machine_read-keeps :
      (m : Board H) (a : ℕ)
      → let m' = (machine_read os a m).1 in
        (m'.mem ≡ m.mem) × (m'.protected_ranges ≡ m.protected_ranges)
  unfolding machine_read
  machine_read-keeps m a = ground arith

  -- After a write, memory reads as before but at the address written, which has the value exactly
  -- if it reaches no device and is not protected; no write changes the protected ranges.
  pub machine_write_lem :
      (m : Board H) (a b p : ℕ)
      → let m' = machine_write os a b m in
        (m'.mem p ≡ (
          if p == a && not (is_io a) && not (is_address_protected m.protected_ranges a)
          then b
          else m.mem p))
        × (m'.protected_ranges ≡ m.protected_ranges)
  unfolding machine_write write_mem
  machine_write_lem m a b p = ground arith

  -- Reading an address that reaches no device, after a write anywhere, gives the byte written if
  -- it is the same address and not protected, and else what it gave before. A write to a device
  -- changes no such address.
  pub machine_read-write :
      (m : Board H) (a b p : ℕ)
      → is_io p ≡ false
      → (machine_read os p (machine_write os a b m)).0 ≡ (
          if p == a && not (is_address_protected m.protected_ranges a)
          then b
          else (machine_read os p m).0)
  unfolding machine_read
  machine_read-write m a b p h = ground (arith, machine_write_lem m a b p)
