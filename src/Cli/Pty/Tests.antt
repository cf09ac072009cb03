-- ===== src/Cli/Pty/Tests.antt =====
-- Two terminals on an operating system with two of everything.
use v6502c.Base.{
  ℕ, ◌≡◌, refl, arith, Bool, true, false, ◌&&◌, ◌||◌, Option, none, some, Bool-cases, codes,
}
use v6502c.Base.{◌==◌, if◌then◌else◌}
use v6502c.Cli.Pty.{
  PtyHost, PtyHandle, TermConstants, pty_alloc, with_terminals, copy_name, set_attributes,
  on_stream, on_block, on_name, on_unlock, on_grant, on_master,
}
use v6502c.Cli.Pty.Ledger.{
  Resource, descriptor, stream, block, Ledger, with_held, without, Takes, IsLedger,
}
use v6502c.Cli.Pty.Alloc.{Allocated, pty_alloc-Allocated}
use v6502c.Cli.Pty.Returns.{of_terminal, terminal_holds, with_terminals-held}

-- A stream has the number of its descriptor.
record World : Type 0 where
  fds : ℕ → Bool
  streams : ℕ → Bool
  blocks : ℕ → Bool

abbrev held : World → Ledger
held w (descriptor n) = w.fds n
held w (stream n d) = n == d && w.streams n
held w (block n) = w.blocks n

abbrev mark : ℕ → (ℕ → Bool) → ℕ → Bool
mark n f m = m == n || f m

abbrev unmark : ℕ → (ℕ → Bool) → ℕ → Bool
unmark n f m = if m == n then false else f m

abbrev unused : ℕ → ℕ → (ℕ → Bool) → Option ℕ
unused a b f = if f a then (if f b then none else some b) else some a

abbrev took : Option ℕ → (ℕ → World) → World → Option ℕ × World
took none k w = (none, w)
took (some n) k w = (some n, k n)

abbrev open_fd : World → Option ℕ × World
open_fd w = took (unused 3 4 w.fds) (λ n. record w { fds = mark n w.fds }) w

abbrev get_block : World → Option ℕ × World
get_block w = took (unused 1 2 w.blocks) (λ n. record w { blocks = mark n w.blocks }) w

abbrev open_stream : ℕ → World → Option ℕ × World
open_stream fd w = took (unused fd fd w.streams) (λ n. record w { streams = mark n w.streams }) w

abbrev constants : TermConstants
constants = record {
  icanon = 2;
  echo = 8;
  echoe = 16;
  isig = 1;
  ixon = 0x400;
  ixoff = 0x1000;
  icrnl = 0x100;
  igncr = 0x80;
  inlcr = 0x40;
  opost = 1;
  onlcr = 4;
  ocrnl = 8;
  parenb = 0x100;
  csize = 0x30;
  cs8 = 0x30;
  vmin = 6;
  vtime = 5;
  b115200 = 0x1002;
}

abbrev pty_host : PtyHost World
pty_host = record {
  posix_openpt = open_fd;
  grantpt = λ fd w. (true, w);
  unlockpt = λ fd w. (true, w);
  ptsname = λ fd w. (some (codes "/dev/pts/1"), w);
  malloc = get_block;
  free = λ at w. record w { blocks = unmark at w.blocks };
  fdopen = open_stream;
  close = λ fd w. record w { fds = unmark fd w.fds };
  fclose = λ file w. record w { streams = unmark file w.streams; fds = unmark file w.fds };
  tcgetattr = λ fd w. (none, w);
  tcsetattr = λ fd t w. w;
  cfsetispeed = λ b t. record t { ispeed = b };
  cfsetospeed = λ b t. record t { ospeed = b };
  constants = constants;
}

module _ (r : ℕ → Resource) (k : ℕ → World) (w : World) where
  took-Takes :
      (o : Option ℕ)
      → ((n : ℕ)
          → o ≡ some n
          → (held w (r n) ≡ false) × ((s : Resource) → held (k n) s ≡ with_held (r n) (held w) s))
      → Takes r (held w) (took o k w).0 (held (took o k w).1)
  took-Takes none h = λ s. refl
  took-Takes (some n) h = h n refl

unused-free : (a b n : ℕ) (f : ℕ → Bool) → unused a b f ≡ some n → f n ≡ false
unused-free a b n f e = ground (arith, Bool-cases (f a), Bool-cases (f b))

unused-same : (a n : ℕ) (f : ℕ → Bool) → unused a a f ≡ some n → n ≡ a
unused-same a n f e = ground (arith, Bool-cases (f a))

marked_fd :
    (n : ℕ) (w : World) (s : Resource)
    → held (record w { fds = mark n w.fds }) s ≡ with_held (descriptor n) (held w) s
marked_fd n w (descriptor m) = refl
marked_fd n w (stream m d) = refl
marked_fd n w (block m) = refl

marked_block :
    (n : ℕ) (w : World) (s : Resource)
    → held (record w { blocks = mark n w.blocks }) s ≡ with_held (block n) (held w) s
marked_block n w (descriptor m) = refl
marked_block n w (stream m d) = refl
marked_block n w (block m) = refl

marked_stream :
    (n fd : ℕ) (w : World)
    → n ≡ fd
    → (s : Resource)
    → held (record w { streams = mark n w.streams }) s ≡ with_held (stream n fd) (held w) s
marked_stream n fd w e (descriptor m) = refl
marked_stream n fd w e (stream m d) = ground arith
marked_stream n fd w e (block m) = refl

unmarked_fd :
    (n : ℕ) (w : World) (s : Resource)
    → held (record w { fds = unmark n w.fds }) s ≡ without (descriptor n) (held w) s
unmarked_fd n w (descriptor m) = refl
unmarked_fd n w (stream m d) = refl
unmarked_fd n w (block m) = refl

unmarked_block :
    (n : ℕ) (w : World) (s : Resource)
    → held (record w { blocks = unmark n w.blocks }) s ≡ without (block n) (held w) s
unmarked_block n w (descriptor m) = refl
unmarked_block n w (stream m d) = refl
unmarked_block n w (block m) = refl

unmarked_stream :
    (n fd : ℕ) (w : World)
    → held w (stream n fd) ≡ true
    → (s : Resource)
    → held (record w { streams = unmark n w.streams; fds = unmark n w.fds }) s
      ≡ without (stream n fd) (without (descriptor fd) (held w)) s
unmarked_stream n fd w h (descriptor m) = ground arith
unmarked_stream n fd w h (stream m d) = ground arith
unmarked_stream n fd w h (block m) = refl

laws : IsLedger pty_host held
laws = record {
  openpt = λ w.
      took-Takes descriptor (λ n. record w { fds = mark n w.fds }) w (unused 3 4 w.fds)
        (λ n e. (unused-free 3 4 n w.fds e, marked_fd n w));
  malloc = λ w.
      took-Takes block (λ n. record w { blocks = mark n w.blocks }) w (unused 1 2 w.blocks)
        (λ n e. (unused-free 1 2 n w.blocks e, marked_block n w));
  fdopen = λ fd w.
      took-Takes (λ file. stream file fd) (λ n. record w { streams = mark n w.streams }) w
        (unused fd fd w.streams)
        (λ n e. (
          rw (unused-free fd fd n w.streams e) (ground arith),
          marked_stream n fd w (unused-same fd n w.streams e),
        ));
  grantpt = λ fd w s. refl;
  unlockpt = λ fd w s. refl;
  ptsname = λ fd w s. refl;
  tcgetattr = λ fd w s. refl;
  tcsetattr = λ fd t w s. refl;
  close = λ fd w s h. unmarked_fd fd w s;
  free = λ at w s h. unmarked_block at w s;
  fclose = λ file fd w s h g. unmarked_stream file fd w h s;
}

abbrev nothing : World
nothing = record { fds = λ n. false; streams = λ n. false; blocks = λ n. false }

pty_alloc-Allocated_example :
    Allocated (held nothing) (pty_alloc pty_host nothing).0 (held (pty_alloc pty_host nothing).1)
pty_alloc-Allocated_example = pty_alloc-Allocated pty_host held laws nothing

abbrev w1 : World
w1 = (pty_alloc pty_host nothing).1

abbrev w2 : World
w2 = (pty_alloc pty_host w1).1

abbrev p : Option PtyHandle
p = (pty_alloc pty_host nothing).0

abbrev q : Option PtyHandle
q = (pty_alloc pty_host w1).0

abbrev idle : Option PtyHandle → Option PtyHandle → World → Option (ℕ × World)
idle p q w = some (7, w)

either_held : (a b x y z : Bool) → y ≡ (a || x) → z ≡ (b || y) → (a || b) ≡ true → z ≡ true
either_held a b x y z e f i = ground arith

with_terminals-held_example :
    (w4 : World) × (with_terminals pty_host idle nothing ≡ some (7, w4))
    × ((s : Resource)
        → held w4 s ≡ (if of_terminal p s || of_terminal q s then false else held w2 s))
    × ((s : Resource) → (of_terminal p s || of_terminal q s) ≡ true → held nothing s ≡ false)
with_terminals-held_example = with_terminals-held pty_host held laws idle nothing w2 7 refl (λ s i.
    either_held (of_terminal p s) (of_terminal q s) (held nothing s) (held w1 s) (held w2 s)
      ((terminal_holds (held nothing) (held w1) p
          (pty_alloc-Allocated pty_host held laws nothing)).0
        s)
      ((terminal_holds (held w1) (held w2) q (pty_alloc-Allocated pty_host held laws w1)).0 s) i)

-- The second terminal has a name, a descriptor, a stream and a block of its own.
second_test :
    q ≡ some (record { block = 2; master_fd = 4; file = 4; slave_name = codes "/dev/pts/1" })
unfolding pty_alloc on_master on_grant on_unlock on_name on_block on_stream copy_name set_attributes
second_test = refl
