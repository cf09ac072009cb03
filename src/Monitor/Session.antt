-- ===== src/Monitor/Session.antt =====
-- What a monitor session holds, what it prints, and what it relies on.
use v6502c.Base.{ℕ, Bool, Option, List, ◌++◌, [], ◌∷◌, Bytes, codes, ◌==◌, if◌then◌else◌}
use v6502c.AddrList.{AddressRange}
use v6502c.Cpu.State.{Cpu, Variant}
use v6502c.Cpu.Step.{Request}
use v6502c.Devices.Host.{Host}
use v6502c.Machine.{Board}
use v6502c.Monitor.Dump.{Shown}

-- The calls of `printf` and `puts`, by what they say.
pub data Message : Type 0 where
  prompt help : Message
  pc_is : ℕ → Message
  pc_change : ℕ → ℕ → Message
  register_is : Bytes → ℕ → Message
  register_change : Bytes → ℕ → ℕ → Message
  memory : List Shown → Message
  verbose_is : Bool → Message
  variant_is : Variant → Message
  variant_set : Variant → Message
  bad_variant bad_address bad_value bad_range bad_command : Bytes → Message
  want_filename want_range want_range_and_filename : Message
  loading cannot_open : Bytes → Message
  writing : AddressRange → Bytes → Message
  protecting unprotecting : AddressRange → Message

-- `last` is the `static address a` of `parse_command`; `trace` and `verbose` are V6502C_TRACE and
-- V6502C_VERBOSE; `out` is what was printed, the latest at the end.
pub record Session (H : Type 0) : Type 0 where
  pub machine : Cpu (Board H)
  pub last : ℕ
  pub trace : Bool
  pub verbose : Bool
  pub out : List Message

abbrev pub say : {H : Type 0} → Session H → Message → Session H
say s m = record s { out = s.out ++ m ∷ [] }

-- `print_pc_change` and `print_register_change` are silent where nothing changes.
unfoldable pub say_counter : {H : Type 0} → Session H → ℕ → ℕ → Session H
say_counter s old new = if old == new then s else say s (pc_change old new)

unfoldable pub say_register : {H : Type 0} → Session H → Bytes → ℕ → ℕ → Session H
say_register s name old new = if old == new then s else say s (register_change name old new)

-- What the monitor is given: the operating system, how `sscanf` takes a bare prefix 0x, whether
-- `malloc` returns a node, the requests that come while the run loop runs, by its start, and a
-- bound on the rounds of a loop.
pub record Setting (H : Type 0) : Type 0 where
  pub os : Host H
  pub bare_prefix : Bytes → Option (ℕ × Bytes)
  pub room : Bool
  pub requests : Cpu (Board H) → List (List Request)
  pub rounds : ℕ

-- `monitor_trace_fn`: what has changed from one step to the next.
unfoldable pub monitor_trace_fn :
    {H : Type 0} → Cpu (Board H) → Cpu (Board H) → Session H → Session H
monitor_trace_fn prev c s =
    let s1 = say_counter s prev.pc c.pc in
    let s2 = say_register s1 (codes " A") prev.a c.a in
    let s3 = say_register s2 (codes " X") prev.x c.x in
    let s4 = say_register s3 (codes " Y") prev.y c.y in
    let s5 = say_register s4 (codes "SR") prev.sr c.sr in say_register s5 (codes "SP") prev.sp c.sp
