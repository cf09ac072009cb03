-- ===== src/Cli/Pty/Returns.antt =====
-- The two terminals of `main`, from their allocation to their end.
use v6502c.Base.{◌≡◌, ◌∙◌, refl, sym, ap, arith, Bool, true, false, ◌||◌, Option, none, some}
use v6502c.Base.{if◌then◌else◌}
use v6502c.Cli.Pty.{PtyHost, PtyHandle, pty_alloc, pty_destroy, then_destroy, with_terminals}
use v6502c.Cli.Pty.Ledger.{Resource, Ledger, IsLedger}
use v6502c.Cli.Pty.Alloc.{of_handle, Allocated, pty_alloc-Allocated, pty_destroy-without}

abbrev pub of_terminal : Option PtyHandle → Resource → Bool
of_terminal none s = false
of_terminal (some pty) s = of_handle pty s

pub terminal_holds :
    (l l' : Ledger) (p : Option PtyHandle)
    → Allocated l p l'
    → ((s : Resource) → l' s ≡ (of_terminal p s || l s))
      × ((s : Resource) → of_terminal p s ≡ true → l s ≡ false)
terminal_holds l l' none a = (a, λ s i. absurd (ground arith))
terminal_holds l l' (some pty) a = a

-- What a first terminal holds, a second one does not.
apart : (a b x y : Bool) → y ≡ (a || x) → (b ≡ true → y ≡ false) → b ≡ true → a ≡ false
apart a b x y e f i = ground (arith, f i)

or_right : (a b : Bool) → b ≡ true → (a || b) ≡ true
or_right a b i = ground arith

either_new :
    (a b x y : Bool)
    → y ≡ (a || x)
    → (a ≡ true → x ≡ false)
    → (b ≡ true → y ≡ false)
    → (a || b) ≡ true
    → x ≡ false
either_new true b x y e f g i = f refl
either_new false b x y e f g i = sym e ∙ g i

kept_on : (a x y : Bool) → a ≡ false → x ≡ true → y ≡ (if a then false else x) → y ≡ true
kept_on a x y e f g = ground arith

both_gone :
    (a b x : Bool) → (if b then false else (if a then false else x)) ≡ (if a || b then false else x)
both_gone true true x = refl
both_gone true false x = refl
both_gone false b x = refl

module _ {W : Type 0} (os : PtyHost W) (held : W → Ledger) (laws : IsLedger os held) where
  destroyed :
      (p : Option PtyHandle) (w : W)
      → ((s : Resource) → of_terminal p s ≡ true → held w s ≡ true)
      → (s : Resource) → held (pty_destroy os p w) s ≡ (if of_terminal p s then false else held w s)
  unfolding pty_destroy
  destroyed none w holding s = refl
  destroyed (some pty) w holding s = pty_destroy-without os held laws pty w holding s

  -- Whatever runs between the allocation of the two terminals and their end: if it returns, and
  -- what the terminals hold is still held then, `main` gives back exactly that, whether both
  -- terminals were allocated, one or none; and nothing of it was held before.
  pub with_terminals-held :
      {R : Type 0} (run : Option PtyHandle → Option PtyHandle → W → Option (R × W)) (w w3 : W)
      (r : R)
      → let p = (pty_alloc os w).0 in
        let w1 = (pty_alloc os w).1 in
        let q = (pty_alloc os w1).0 in
        let w2 = (pty_alloc os w1).1 in
        run p q w2 ≡ some (r, w3)
        → ((s : Resource) → (of_terminal p s || of_terminal q s) ≡ true → held w3 s ≡ true)
        → (w4 : W) × (with_terminals os run w ≡ some (r, w4))
          × ((s : Resource)
              → held w4 s ≡ (if of_terminal p s || of_terminal q s then false else held w3 s))
          × ((s : Resource) → (of_terminal p s || of_terminal q s) ≡ true → held w s ≡ false)
  unfolding with_terminals
  with_terminals-held run w w3 r path holding =
      let w1 = (pty_alloc os w).1 in
      let p = (pty_alloc os w).0 in
      let q = (pty_alloc os w1).0 in
      let w2 = (pty_alloc os w1).1 in
      let (grown, new) = terminal_holds (held w) (held w1) p (pty_alloc-Allocated os held laws w) in
      let (grown', new') =
        terminal_holds (held w1) (held w2) q (pty_alloc-Allocated os held laws w1) in
      let gone = destroyed p w3 (λ s i. holding s (rw i refl)) in
      let gone' = destroyed q (pty_destroy os p w3) (λ s i.
        kept_on (of_terminal p s) (held w3 s) _
          (apart (of_terminal p s) (of_terminal q s) (held w s) (held w1 s) (grown s) (new' s) i)
          (holding s (or_right (of_terminal p s) (of_terminal q s) i)) (gone s)) in
      (
        pty_destroy os q (pty_destroy os p w3),
        ap (then_destroy os p q) path,
        λ s.
            gone' s
            ∙ ap (λ b. if of_terminal q s then false else b) (gone s)
            ∙ both_gone (of_terminal p s) (of_terminal q s) (held w3 s),
        λ s i.
            either_new (of_terminal p s) (of_terminal q s) (held w s) (held w1 s) (grown s) (new s)
              (new' s) i,
      )
