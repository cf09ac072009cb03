-- ===== src/Cpu/Run.antt =====
-- The run loop: requests that arrive between two rounds, and its end.
use v6502c.Base.{◌≡◌, ◌∙◌, refl, ap, arith, Bool-cases, inl, inr, Bool, true, false, ◌||◌, some}
use v6502c.Base.{List, [], ◌∷◌, ◌++◌, if◌then◌else◌}
use v6502c.Cpu.State.{Cpu}
use v6502c.Cpu.Step.{
  Request, halt, irq, reset, nmi, cpu_step, cpu_run, cpu_halt, cpu_irq, cpu_reset, cpu_nmi, serve,
  serve_all, call_tick,
}

abbrev pub asks_halt : List Request → Bool
asks_halt [] = false
asks_halt (halt ∷ rs) = true
asks_halt (irq ∷ rs) = asks_halt rs
asks_halt (reset ∷ rs) = asks_halt rs
asks_halt (nmi ∷ rs) = asks_halt rs

module _ {S : Type 0} where
  halted-serve_all :
      (rs : List Request) (c : Cpu S) → (serve_all rs c).halted ≡ (asks_halt rs || c.halted)
  unfolding serve_all serve cpu_halt cpu_irq cpu_reset cpu_nmi
  halted-serve_all [] c = refl
  halted-serve_all (halt ∷ rs) c = ground (arith, halted-serve_all rs (record c { halted = true }))
  halted-serve_all (irq ∷ rs) c = halted-serve_all rs (record c { irq = true })
  halted-serve_all (reset ∷ rs) c = halted-serve_all rs (record c { reset = true })
  halted-serve_all (nmi ∷ rs) c = halted-serve_all rs (record c { nmi = true })

  -- One round of the loop: a step, a tick, and the requests that come.
  abbrev round : List Request → Cpu S → Cpu S
  round rs c = let c1 = cpu_step c in serve_all rs (record c1 { bus = call_tick c1.tick c1.bus })

  halted-round : (rs : List Request) (c : Cpu S) → asks_halt rs ≡ true → (round rs c).halted ≡ true
  halted-round rs c h =
      let c1 = cpu_step c in
      let e = halted-serve_all rs (record c1 { bus = call_tick c1.tick c1.bus }) in
      ground (arith, e)

  -- A processor that is halted when the loop starts takes no step and stays as it is.
  pub cpu_run-halted :
      (rounds : List (List Request)) (c : Cpu S) → c.halted ≡ true → cpu_run rounds c ≡ some c
  unfolding cpu_run
  cpu_run-halted [] c h = rw h
  cpu_run-halted (rs ∷ rounds) c h = ap (λ t. if t then some c else cpu_run rounds (round rs c)) h

  -- A run in which some round brings a request to halt returns, with the processor halted,
  -- whatever else is asked in that round or another and whatever comes after.
  pub cpu_run_halts :
      (before : List (List Request)) (rs : List Request) (after : List (List Request)) (c : Cpu S)
      → asks_halt rs ≡ true
      → (c' : Cpu S) × (cpu_run (before ++ rs ∷ after) c ≡ some c') × (c'.halted ≡ true)
  unfolding cpu_run
  cpu_run_halts [] rs after c h =
      let c1 = round rs c in
      let stopped : c1.halted ≡ true = ground (arith, halted-round rs c) in
      elim (Bool-cases c.halted) [
        | inl e ↦ (c, cpu_run-halted (rs ∷ after) c e, e)
        | inr e ↦ (
          c1,
          ap (λ t. if t then some c else cpu_run after c1) e ∙ cpu_run-halted after c1 stopped,
          stopped,
        )
      ]
  cpu_run_halts (first ∷ before) rs after c h =
      let c1 = round first c in
      let (c2, path, stopped) = cpu_run_halts before rs after c1 h in
      elim (Bool-cases c.halted) [
        | inl e ↦ (c, cpu_run-halted (first ∷ before ++ rs ∷ after) c e, e)
        | inr e ↦ (
          c2,
          ap (λ t. if t then some c else cpu_run (before ++ rs ∷ after) c1) e ∙ path,
          stopped,
        )
      ]
