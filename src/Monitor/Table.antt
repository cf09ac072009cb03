-- ===== src/Monitor/Table.antt =====
-- The table of commands of `parse_command` of src/monitor.c, and the registers by name.
use v6502c.Base.{ℕ, ◌-◌, ◌&&◌, List, [], ◌∷◌, map}
use v6502c.Base.{leb, if◌then◌else◌, Bytes, codes, str_eq}
use v6502c.Cpu.State.{Cpu}

pub data Register : Type 0 where
  reg_a reg_x reg_y reg_sr reg_sp : Register

-- The branches of `parse_command`.
pub data Command : Type 0 where
  show_help quit reset step go go_tracing toggle_verbose show_registers counter : Command
  register : Register → Command
  variant load save protect unprotect edit_memory : Command

-- The words of each branch, in the order of the tests.
abbrev pub commands : List (Bytes × Command)
commands =
    (codes "H", show_help)
    ∷ (codes "HELP", show_help)
    ∷ (codes "Q", quit)
    ∷ (codes "QUIT", quit)
    ∷ (codes "R", reset)
    ∷ (codes "RESET", reset)
    ∷ (codes "S", step)
    ∷ (codes "STEP", step)
    ∷ (codes "G", go)
    ∷ (codes "GO", go)
    ∷ (codes "T", go_tracing)
    ∷ (codes "TRACE", go_tracing)
    ∷ (codes "V", toggle_verbose)
    ∷ (codes "VERBOSE", toggle_verbose)
    ∷ (codes "?", show_registers)
    ∷ (codes "PC", counter)
    ∷ (codes "A", register reg_a)
    ∷ (codes "X", register reg_x)
    ∷ (codes "Y", register reg_y)
    ∷ (codes "SR", register reg_sr)
    ∷ (codes "SP", register reg_sp)
    ∷ (codes "CPU", variant)
    ∷ (codes "LOAD", load)
    ∷ (codes "SAVE", save)
    ∷ (codes "PROTECT", protect)
    ∷ (codes "UNPROTECT", unprotect)
    ∷ []

unfoldable pub find_command : List (Bytes × Command) → Bytes → Command
find_command [] cmd = edit_memory
find_command ((name, c) ∷ rest) cmd = if str_eq name cmd then c else find_command rest cmd

-- `toupper`
unfoldable pub to_upper : ℕ → ℕ
to_upper c = if leb b'a' c && leb c b'z' then c - 32 else c

-- `cmd` is upper-cased where it stands, in `argv[0]`.
unfoldable pub upper_first : List Bytes → List Bytes
upper_first [] = []
upper_first (cmd ∷ args) = map to_upper cmd ∷ args

abbrev pub register_name : Register → Bytes
register_name reg_a = codes "A"
register_name reg_x = codes "X"
register_name reg_y = codes "Y"
register_name reg_sr = codes "SR"
register_name reg_sp = codes "SP"

module _ {S : Type 0} where
  unfoldable pub get_register : Register → Cpu S → ℕ
  get_register reg_a c = c.a
  get_register reg_x c = c.x
  get_register reg_y c = c.y
  get_register reg_sr c = c.sr
  get_register reg_sp c = c.sp

  unfoldable pub put_register : Register → Cpu S → ℕ → Cpu S
  put_register reg_a c v = record c { a = v }
  put_register reg_x c v = record c { x = v }
  put_register reg_y c v = record c { y = v }
  put_register reg_sr c v = record c { sr = v }
  put_register reg_sp c v = record c { sp = v }
