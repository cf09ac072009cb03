-- ===== src/Cli/Pty.antt =====
-- utils/cli.h and utils/cli.c: the pseudo terminals of __CREATE_PTYS__. What the operating system and
-- the C library do is a parameter, on a state `W`.
pub mod Ledger
pub mod Alloc
pub mod Returns
mod Tests
use v6502c.Base.{
  ℕ, zero, suc, ◌-◌, ◌^◌, [], ◌∷◌, Bool, true, false, Option, none, some, bit_and, bit_or,
}
use v6502c.Base.{◌==◌, if◌then◌else◌, Bytes}

-- `struct termios`
pub record Termios : Type 0 where
  pub lflag : ℕ
  pub iflag : ℕ
  pub oflag : ℕ
  pub cflag : ℕ
  pub cc : ℕ → ℕ
  pub ispeed : ℕ
  pub ospeed : ℕ

-- The constants of termios.h.
pub record TermConstants : Type 0 where
  pub icanon : ℕ
  pub echo : ℕ
  pub echoe : ℕ
  pub isig : ℕ
  pub ixon : ℕ
  pub ixoff : ℕ
  pub icrnl : ℕ
  pub igncr : ℕ
  pub inlcr : ℕ
  pub opost : ℕ
  pub onlcr : ℕ
  pub ocrnl : ℕ
  pub parenb : ℕ
  pub csize : ℕ
  pub cs8 : ℕ
  pub vmin : ℕ
  pub vtime : ℕ
  pub b115200 : ℕ

-- The calls that the terminals need. A descriptor, a stream and an address are numbers; a result of
-- `none` or `false` is the failure that the code tests for.
pub record PtyHost (W : Type 0) : Type 0 where
  pub posix_openpt : W → Option ℕ × W
  pub grantpt : ℕ → W → Bool × W
  pub unlockpt : ℕ → W → Bool × W
  pub ptsname : ℕ → W → Option Bytes × W
  pub malloc : W → Option ℕ × W
  pub free : ℕ → W → W
  pub fdopen : ℕ → W → Option ℕ × W
  pub close : ℕ → W → W
  pub fclose : ℕ → W → W
  pub tcgetattr : ℕ → W → Option Termios × W
  pub tcsetattr : ℕ → Termios → W → W
  pub cfsetispeed : ℕ → Termios → Termios
  pub cfsetospeed : ℕ → Termios → Termios
  pub constants : TermConstants

-- `pty_handle_t`, and where it stands in memory.
pub record PtyHandle : Type 0 where
  pub block : ℕ
  pub master_fd : ℕ
  pub file : ℕ
  pub slave_name : Bytes

-- `flags &= ~mask` on 32 bits
unfoldable pub clear_flags : ℕ → ℕ → ℕ
clear_flags flags mask = bit_and flags (2 ^ 32 - 1 - mask)

-- `strncpy` of so many bytes; `slave_name` has one place more, for the zero.
unfoldable pub copy_name : ℕ → Bytes → Bytes
copy_name zero name = []
copy_name (suc n) [] = []
copy_name (suc n) (c ∷ name) = c ∷ copy_name n name

module _ {W : Type 0} (os : PtyHost W) where
  open os.constants use {
    icanon, echo, echoe, isig, ixon, ixoff, icrnl, igncr, inlcr, opost, onlcr, ocrnl, parenb, csize,
    cs8, vmin, vtime, b115200,
  }

  -- Raw mode, eight bits, no parity, and a read that waits for one byte.
  unfoldable pub raw_mode : Termios → Termios
  raw_mode tio =
      let local = bit_or (bit_or icanon echo) (bit_or echoe isig) in
      let input = bit_or (bit_or ixon ixoff) (bit_or icrnl igncr) in
      let output = bit_or opost (bit_or onlcr ocrnl) in
      let tio1 = record tio {
        lflag = clear_flags tio.lflag local;
        iflag = bit_or (clear_flags tio.iflag input) inlcr;
        oflag = clear_flags tio.oflag output;
        cflag = bit_or (clear_flags tio.cflag (bit_or parenb csize)) cs8;
      } in
      let tio2 = os.cfsetospeed b115200 (os.cfsetispeed b115200 tio1) in
      record tio2 { cc = λ i. if i == vtime then 0 else if i == vmin then 1 else tio2.cc i }

  unfoldable pub set_attributes : ℕ → Option Termios × W → W
  set_attributes fd (none, w) = w
  set_attributes fd (some tio, w) = os.tcsetattr fd (raw_mode tio) w

  -- The steps of `pty_alloc`, each on what the call before it returned.
  unfoldable pub on_stream : ℕ → Bytes → ℕ → Option ℕ × W → Option PtyHandle × W
  on_stream fd name at (none, w) = (none, os.free at (os.close fd w))
  on_stream fd name at (some file, w) = (
    some (record { block = at; master_fd = fd; file = file; slave_name = copy_name 255 name }),
    set_attributes fd (os.tcgetattr fd w),
  )

  unfoldable pub on_block : ℕ → Bytes → Option ℕ × W → Option PtyHandle × W
  on_block fd name (none, w) = (none, os.close fd w)
  on_block fd name (some at, w) = on_stream fd name at (os.fdopen fd w)

  unfoldable pub on_name : ℕ → Option Bytes × W → Option PtyHandle × W
  on_name fd (none, w) = (none, os.close fd w)
  on_name fd (some name, w) = on_block fd name (os.malloc w)

  unfoldable pub on_unlock : ℕ → Bool × W → Option PtyHandle × W
  on_unlock fd (false, w) = (none, os.close fd w)
  on_unlock fd (true, w) = on_name fd (os.ptsname fd w)

  unfoldable pub on_grant : ℕ → Bool × W → Option PtyHandle × W
  on_grant fd (false, w) = (none, os.close fd w)
  on_grant fd (true, w) = on_unlock fd (os.unlockpt fd w)

  unfoldable pub on_master : Option ℕ × W → Option PtyHandle × W
  on_master (none, w) = (none, w)
  on_master (some fd, w) = on_grant fd (os.grantpt fd w)

  unfoldable pub pty_alloc : W → Option PtyHandle × W
  pty_alloc w = on_master (os.posix_openpt w)

  unfoldable pub pty_destroy : Option PtyHandle → W → W
  pty_destroy none w = w
  pty_destroy (some pty) w = os.free pty.block (os.fclose pty.file w)

  abbrev pub then_destroy :
      {R : Type 0} → Option PtyHandle → Option PtyHandle → Option (R × W) → Option (R × W)
  then_destroy p q none = none
  then_destroy p q (some (r, w)) = some (r, pty_destroy q (pty_destroy p w))

  -- `main` allocates a terminal for each of the two ACIAs, runs the machine, and destroys them.
  unfoldable pub with_terminals :
      {R : Type 0} → (Option PtyHandle → Option PtyHandle → W → Option (R × W)) → W → Option (R × W)
  with_terminals run w =
      let (p, w1) = pty_alloc w in let (q, w2) = pty_alloc w1 in then_destroy p q (run p q w2)
