-- ===== src/Cli/Pty/Alloc.antt =====
-- What pty_alloc and pty_destroy hold and give back, on every path.
use v6502c.Base.{ℕ, ◌≡◌, ◌∙◌, refl, sym, ap, arith, Bool, true, false, ◌||◌, Option, none, some}
use v6502c.Base.{if◌then◌else◌, Bytes}
use v6502c.Cli.Pty.{
  PtyHost, PtyHandle, Termios, set_attributes, on_stream, on_block, on_name, on_unlock, on_grant,
  on_master, pty_alloc, pty_destroy,
}
use v6502c.Cli.Pty.Ledger.{
  Resource, descriptor, stream, block, is, Ledger, with_held, Takes, IsLedger,
}

-- What a terminal holds.
abbrev pub of_handle : PtyHandle → Resource → Bool
of_handle pty s =
    is s (stream pty.file pty.master_fd)
    || (is s (block pty.block) || is s (descriptor pty.master_fd))

-- A terminal that is allocated holds its descriptor, its stream and its block, and none of them was
-- held before; one that is not leaves what is held as it was.
abbrev pub Allocated : Ledger → Option PtyHandle → Ledger → Type 0
Allocated l none l' = (s : Resource) → l' s ≡ l s
Allocated l (some pty) l' =
    ((s : Resource) → l' s ≡ (of_handle pty s || l s))
    × ((s : Resource) → of_handle pty s ≡ true → l s ≡ false)

is_self : (r : Resource) → is r r ≡ true
is_self (descriptor a) = ground arith
is_self (stream a c) = ground arith
is_self (block a) = ground arith

is_sound : (s r : Resource) → is s r ≡ true → s ≡ r
is_sound (descriptor a) (descriptor b) t = let e : a ≡ b = ground arith in ap descriptor e
is_sound (descriptor a) (stream b d) t = absurd (ground arith)
is_sound (descriptor a) (block b) t = absurd (ground arith)
is_sound (stream a c) (descriptor b) t = absurd (ground arith)
is_sound (stream a c) (stream b d) t =
    let e : a ≡ b = ground arith in
    let f : c ≡ d = ground arith in ap (λ x. stream x c) e ∙ ap (stream b) f
is_sound (stream a c) (block b) t = absurd (ground arith)
is_sound (block a) (descriptor b) t = absurd (ground arith)
is_sound (block a) (stream b d) t = absurd (ground arith)
is_sound (block a) (block b) t = let e : a ≡ b = ground arith in ap block e

pub not_held : (l : Ledger) (s r : Resource) → l r ≡ false → is s r ≡ true → l s ≡ false
not_held l s r f t = ap l (is_sound s r t) ∙ f

give_back :
    (a x y z : Bool) → y ≡ (a || x) → z ≡ (if a then false else y) → (a ≡ true → x ≡ false) → z ≡ x
give_back true x y z e f g = f ∙ sym (g refl)
give_back false x y z e f g = f ∙ e

give_back_two :
    (a b x y z u : Bool)
    → y ≡ (a || (b || x))
    → z ≡ (if b then false else y)
    → u ≡ (if a then false else z)
    → (a ≡ true → x ≡ false)
    → (b ≡ true → x ≡ false)
    → u ≡ x
give_back_two true b x y z u e f i g h = i ∙ sym (g refl)
give_back_two false b x y z u e f i g h = i ∙ give_back b x y z e f h

or_all : (a b c x : Bool) → (a || (b || (c || x))) ≡ ((a || (b || c)) || x)
or_all true b c x = refl
or_all false true c x = refl
or_all false false c x = refl

if_any :
    (a b c x : Bool)
    → (if b then false else (if a then false else (if c then false else x)))
      ≡ (if a || (b || c) then false else x)
if_any true true c x = refl
if_any true false c x = refl
if_any false true c x = refl
if_any false false c x = refl

any_of :
    (a b c x : Bool)
    → (a || (b || c)) ≡ true
    → (a ≡ true → x ≡ false)
    → (b ≡ true → x ≡ false)
    → (c ≡ true → x ≡ false)
    → x ≡ false
any_of true b c x i f g h = f refl
any_of false true c x i f g h = g refl
any_of false false c x i f g h = h i

module _ {W : Type 0} (os : PtyHost W) (held : W → Ledger) (laws : IsLedger os held) where
  -- The descriptor `fd` has been taken.
  abbrev Holding : Ledger → ℕ → W → Type 0
  Holding l fd w =
      (l (descriptor fd) ≡ false) × ((s : Resource) → held w s ≡ with_held (descriptor fd) l s)

  holds :
      (l : Ledger) (w : W) (r : Resource)
      → ((s : Resource) → held w s ≡ with_held r l s)
      → held w r ≡ true
  holds l w r same = same r ∙ rw (is_self r) refl

  close_lem :
      (l : Ledger) (fd : ℕ) (w : W) → Holding l fd w → (s : Resource) → held (os.close fd w) s ≡ l s
  close_lem l fd w (fresh, same) s =
      give_back (is s (descriptor fd)) (l s) (held w s) _ (same s)
        (laws.close fd w s (holds l w (descriptor fd) same)) (not_held l s (descriptor fd) fresh)

  -- A call that changes nothing of what is held.
  still :
      (l : Ledger) (fd : ℕ) (w w' : W)
      → Holding l fd w
      → ((s : Resource) → held w' s ≡ held w s)
      → Holding l fd w'
  still l fd w w' (fresh, same) kept = (fresh, λ s. kept s ∙ same s)

  attributes-held :
      (fd : ℕ) (r : Option Termios × W) (s : Resource)
      → held (set_attributes os fd r) s ≡ held r.1 s
  unfolding set_attributes
  attributes-held fd (none, w) s = refl
  attributes-held fd (some tio, w) s = laws.tcsetattr fd _ w s

  -- The block at `at` has been taken as well.
  abbrev HoldingBlock : Ledger → ℕ → ℕ → W → Type 0
  HoldingBlock l fd at w =
      (l (descriptor fd) ≡ false)
      × (l (block at) ≡ false)
      × ((s : Resource) → held w s ≡ with_held (block at) (with_held (descriptor fd) l) s)

  close_free :
      (l : Ledger) (fd at : ℕ) (w : W)
      → HoldingBlock l fd at w
      → (s : Resource) → held (os.free at (os.close fd w)) s ≡ l s
  close_free l fd at w (fresh, fresh', same) s =
      let open_fd : held w (descriptor fd) ≡ true =
        same (descriptor fd) ∙ rw (is_self (descriptor fd)) refl in
      let used : held w (block at) ≡ true = same (block at) ∙ rw (is_self (block at)) refl in
      give_back_two (is s (block at)) (is s (descriptor fd)) (l s) (held w s)
        (held (os.close fd w) s) _ (same s) (laws.close fd w s open_fd)
        (laws.free at (os.close fd w) s (laws.close fd w (block at) open_fd ∙ used))
        (not_held l s (block at) fresh') (not_held l s (descriptor fd) fresh)

  on_stream_lem :
      (l : Ledger) (fd at : ℕ) (name : Bytes) (w : W) (r : Option ℕ × W)
      → HoldingBlock l fd at w
      → Takes (λ file. stream file fd) (held w) r.0 (held r.1)
      → Allocated l (on_stream os fd name at r).0 (held (on_stream os fd name at r).1)
  unfolding on_stream
  on_stream_lem l fd at name w (none, w1) (fresh, fresh', same) takes =
      close_free l fd at w1 (fresh, fresh', λ s. takes s ∙ same s)
  on_stream_lem l fd at name w (some file, w1) (fresh, fresh', same) (new, takes) = (
    λ s.
        attributes-held fd (os.tcgetattr fd w1) s
        ∙ laws.tcgetattr fd w1 s
        ∙ takes s
        ∙ ap (λ b. is s (stream file fd) || b) (same s)
        ∙ or_all (is s (stream file fd)) (is s (block at)) (is s (descriptor fd)) (l s),
    λ s i.
        any_of (is s (stream file fd)) (is s (block at)) (is s (descriptor fd)) (l s) i
          (not_held l s (stream file fd) (sym (same (stream file fd)) ∙ new))
          (not_held l s (block at) fresh') (not_held l s (descriptor fd) fresh),
  )

  on_block_lem :
      (l : Ledger) (fd : ℕ) (name : Bytes) (w : W) (r : Option ℕ × W)
      → Holding l fd w
      → Takes block (held w) r.0 (held r.1)
      → Allocated l (on_block os fd name r).0 (held (on_block os fd name r).1)
  unfolding on_block
  on_block_lem l fd name w (none, w1) h takes = close_lem l fd w1 (still l fd w w1 h takes)
  on_block_lem l fd name w (some at, w1) (fresh, same) (new, takes) =
      on_stream_lem l fd at name w1 (os.fdopen fd w1)
        (fresh, sym (same (block at)) ∙ new, λ s. takes s ∙ ap (λ b. is s (block at) || b) (same s))
        (laws.fdopen fd w1)

  on_name_lem :
      (l : Ledger) (fd : ℕ) (r : Option Bytes × W)
      → Holding l fd r.1
      → Allocated l (on_name os fd r).0 (held (on_name os fd r).1)
  unfolding on_name
  on_name_lem l fd (none, w) h = close_lem l fd w h
  on_name_lem l fd (some name, w) h = on_block_lem l fd name w (os.malloc w) h (laws.malloc w)

  on_unlock_lem :
      (l : Ledger) (fd : ℕ) (r : Bool × W)
      → Holding l fd r.1
      → Allocated l (on_unlock os fd r).0 (held (on_unlock os fd r).1)
  unfolding on_unlock
  on_unlock_lem l fd (false, w) h = close_lem l fd w h
  on_unlock_lem l fd (true, w) h =
      on_name_lem l fd (os.ptsname fd w) (still l fd w (os.ptsname fd w).1 h (laws.ptsname fd w))

  on_grant_lem :
      (l : Ledger) (fd : ℕ) (r : Bool × W)
      → Holding l fd r.1
      → Allocated l (on_grant os fd r).0 (held (on_grant os fd r).1)
  unfolding on_grant
  on_grant_lem l fd (false, w) h = close_lem l fd w h
  on_grant_lem l fd (true, w) h =
      on_unlock_lem l fd (os.unlockpt fd w)
        (still l fd w (os.unlockpt fd w).1 h (laws.unlockpt fd w))

  on_master_lem :
      (l : Ledger) (r : Option ℕ × W)
      → Takes descriptor l r.0 (held r.1)
      → Allocated l (on_master os r).0 (held (on_master os r).1)
  unfolding on_master
  on_master_lem l (none, w) takes = takes
  on_master_lem l (some fd, w) takes =
      on_grant_lem l fd (os.grantpt fd w)
        (still l fd w (os.grantpt fd w).1 takes (laws.grantpt fd w))

  -- Whichever of its calls fails, `pty_alloc` gives back what it has taken; if none fails, the terminal
  -- holds its descriptor, its stream and its block of memory, which were not held before, and nothing
  -- else has changed.
  pub pty_alloc-Allocated :
      (w : W) → Allocated (held w) (pty_alloc os w).0 (held (pty_alloc os w).1)
  unfolding pty_alloc
  pty_alloc-Allocated w = on_master_lem (held w) (os.posix_openpt w) (laws.openpt w)

  -- `pty_destroy` gives back what a terminal holds, and nothing else.
  pub pty_destroy-without :
      (pty : PtyHandle) (w : W)
      → ((s : Resource) → of_handle pty s ≡ true → held w s ≡ true)
      → (s : Resource)
      → held (pty_destroy os (some pty) w) s ≡ (if of_handle pty s then false else held w s)
  unfolding pty_destroy
  pty_destroy-without pty w holding s =
      let file = stream pty.file pty.master_fd in
      let fd = descriptor pty.master_fd in
      let has_file = holding file (rw (is_self file) refl) in
      let has_fd = holding fd (is_self fd) in
      let has_block = holding (block pty.block) (rw (is_self (block pty.block)) refl) in
      laws.free pty.block (os.fclose pty.file w) s
        (laws.fclose pty.file pty.master_fd w (block pty.block) has_file has_fd ∙ has_block)
      ∙ ap (λ b. if is s (block pty.block) then false else b)
          (laws.fclose pty.file pty.master_fd w s has_file has_fd)
      ∙ if_any (is s file) (is s (block pty.block)) (is s fd) (held w s)
