-- ===== src/Cli/Pty/Ledger.antt =====
-- What is documented of the calls in utils/cli.c: which descriptors, streams and blocks of memory
-- are held after them.
use v6502c.Base.{ℕ, ◌≡◌, Bool, true, false, ◌&&◌, ◌||◌, Option, none, some}
use v6502c.Base.{◌==◌, if◌then◌else◌}
use v6502c.Cli.Pty.{PtyHost, Termios}

-- A stream is held together with its descriptor.
pub data Resource : Type 0 where
  descriptor : ℕ → Resource
  stream : ℕ → ℕ → Resource
  block : ℕ → Resource

abbrev pub is : Resource → Resource → Bool
is (descriptor a) (descriptor b) = a == b
is (descriptor a) (stream b d) = false
is (descriptor a) (block b) = false
is (stream a c) (descriptor b) = false
is (stream a c) (stream b d) = a == b && c == d
is (stream a c) (block b) = false
is (block a) (descriptor b) = false
is (block a) (stream b d) = false
is (block a) (block b) = a == b

abbrev pub Ledger : Type 0
Ledger = Resource → Bool

abbrev pub with_held : Resource → Ledger → Ledger
with_held r l s = is s r || l s

abbrev pub without : Resource → Ledger → Ledger
without r l s = if is s r then false else l s

-- A call that takes a resource has not had it before; one that fails takes none.
abbrev pub Takes : (ℕ → Resource) → Ledger → Option ℕ → Ledger → Type 0
Takes r l none l' = (s : Resource) → l' s ≡ l s
Takes r l (some n) l' = (l (r n) ≡ false) × ((s : Resource) → l' s ≡ with_held (r n) l s)

pub record IsLedger {W : Type 0} (os : PtyHost W) (held : W → Ledger) : Type 0 where
  pub openpt :
      (w : W) → Takes descriptor (held w) (os.posix_openpt w).0 (held (os.posix_openpt w).1)
  pub malloc : (w : W) → Takes block (held w) (os.malloc w).0 (held (os.malloc w).1)
  pub fdopen :
      (fd : ℕ) (w : W)
      → Takes (λ file. stream file fd) (held w) (os.fdopen fd w).0 (held (os.fdopen fd w).1)
  pub grantpt : (fd : ℕ) (w : W) (s : Resource) → held (os.grantpt fd w).1 s ≡ held w s
  pub unlockpt : (fd : ℕ) (w : W) (s : Resource) → held (os.unlockpt fd w).1 s ≡ held w s
  pub ptsname : (fd : ℕ) (w : W) (s : Resource) → held (os.ptsname fd w).1 s ≡ held w s
  pub tcgetattr : (fd : ℕ) (w : W) (s : Resource) → held (os.tcgetattr fd w).1 s ≡ held w s
  pub tcsetattr :
      (fd : ℕ) (t : Termios) (w : W) (s : Resource) → held (os.tcsetattr fd t w) s ≡ held w s
  pub close :
      (fd : ℕ) (w : W) (s : Resource)
      → held w (descriptor fd) ≡ true
      → held (os.close fd w) s ≡ without (descriptor fd) (held w) s
  pub free :
      (at : ℕ) (w : W) (s : Resource)
      → held w (block at) ≡ true
      → held (os.free at w) s ≡ without (block at) (held w) s
  pub fclose :
      (file fd : ℕ) (w : W) (s : Resource)
      → held w (stream file fd) ≡ true
      → held w (descriptor fd) ≡ true
      → held (os.fclose file w) s ≡ without (stream file fd) (without (descriptor fd) (held w)) s
