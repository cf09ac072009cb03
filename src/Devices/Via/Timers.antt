-- ===== src/Devices/Via/Timers.antt =====
-- The two timers of the VIA: a count down from a latch, an expiry, and the mode after it.
use v6502c.Base.{
  ℕ, zero, suc, ◌+◌, ◌-◌, ◌*◌, ◌%◌, ◌^◌, ◌≤◌, ◌<◌, ◌≡◌, ◌∙◌, refl, ap, arith, Bool, true, false,
}
use v6502c.Base.{bit_and, bit_or, bit_and_low, bit_or_fields, bit_or_fields_swap}
use v6502c.Base.{◌==◌, if◌then◌else◌, u8, u16, not8, masks, masks-bit, bit-or, bit-and, bit-u8}
use v6502c.Devices.Via.{
  Via, clear_mask, set_mask, tick_t1, tick_t2, write_reg, t1ch, t2ch, with_high,
}

-- What matters of timer 1: its count and latch, whether it runs, its mode and its interrupt bit.
pub record Timer : Type 0 where
  pub count : ℕ
  pub latch : ℕ
  pub running : Bool
  pub continuous : Bool
  pub flag : Bool

-- A timer of the data sheet: it counts down to zero; the tick after that sets the interrupt bit
-- and starts again from the latch or stops.
unfoldable pub count_down : Timer → Timer
count_down t =
    if t.running
    then (if t.count == 0
        then record t {
          count = if t.continuous then t.latch else 0;
          running = t.continuous;
          flag = true;
        }
        else record t { count = t.count - 1 })
    else t

unfoldable pub count_downs : ℕ → Timer → Timer
count_downs zero t = t
count_downs (suc n) t = count_downs n (count_down t)

abbrev pub timer_1 : Via → Timer
timer_1 d = record {
  count = d.t1_counter;
  latch = d.t1_latch;
  running = d.t1_running;
  continuous = masks d.acr 0x40;
  flag = masks d.ifr 0x40;
}

-- Timer 2 has no continuous mode, and what is left of its latch is the low byte.
abbrev pub timer_2 : Via → Timer
timer_2 d = record {
  count = d.t2_counter;
  latch = d.t2_latch_low;
  running = d.t2_running;
  continuous = false;
  flag = masks d.ifr 0x20;
}

masks-set_t1 :
    (x : ℕ) → (masks (set_mask x 0x40) 0x40 ≡ true) × (masks (set_mask x 0x40) 0x20 ≡ masks x 0x20)
unfolding set_mask
masks-set_t1 x = ground (
  arith,
  masks-bit 6 (u8 (bit_or x 0x40)),
  masks-bit 5 (u8 (bit_or x 0x40)),
  masks-bit 5 x,
  bit-u8 6 (bit_or x 0x40),
  bit-u8 5 (bit_or x 0x40),
  bit-or 6 x 0x40,
  bit-or 5 x 0x40,
)

masks-set_t2 :
    (x : ℕ) → (masks (set_mask x 0x20) 0x20 ≡ true) × (masks (set_mask x 0x20) 0x40 ≡ masks x 0x40)
unfolding set_mask
masks-set_t2 x = ground (
  arith,
  masks-bit 6 (u8 (bit_or x 0x20)),
  masks-bit 5 (u8 (bit_or x 0x20)),
  masks-bit 6 x,
  bit-u8 6 (bit_or x 0x20),
  bit-u8 5 (bit_or x 0x20),
  bit-or 6 x 0x20,
  bit-or 5 x 0x20,
)

-- A tick of the VIA is one step of the timer specification for each of its two timers, the
-- interrupt bits included, and neither timer touches the other.
pub tick_refines :
    (d : Via)
    → let d' = tick_t2 (tick_t1 d) in
      (timer_1 d' ≡ count_down (timer_1 d)) × (timer_2 d' ≡ count_down (timer_2 d))
unfolding tick_t1 tick_t2 count_down
tick_refines d =
    ground (arith, masks-set_t1 d.ifr, masks-set_t2 d.ifr, masks-set_t2 (set_mask d.ifr 0x40))

-- Until it is at zero a running timer only counts.
count_downs_count :
    (k : ℕ) (t : Timer)
    → t.running ≡ true
    → k ≤ t.count
    → count_downs k t ≡ record t { count = t.count - k }
unfolding count_downs count_down
count_downs_count zero t r h = ground arith
count_downs_count (suc k) t r h =
    let e : count_down t ≡ record t { count = t.count - 1 } = ground arith in
    ap (count_downs k) e
    ∙ count_downs_count k (record t { count = t.count - 1 }) r (omega arith)
    ∙ ap (λ n. record t { count = n }) (omega arith)

count_downs_snoc : (k : ℕ) (t : Timer) → count_downs (suc k) t ≡ count_down (count_downs k t)
unfolding count_downs
count_downs_snoc zero t = refl
count_downs_snoc (suc k) t = count_downs_snoc k (count_down t)

count_downs_expiry :
    (t : Timer)
    → t.running ≡ true
    → count_downs (suc t.count) t ≡ record t {
      count = if t.continuous then t.latch else 0;
      running = t.continuous;
      flag = true;
    }
unfolding count_down
count_downs_expiry t r =
    count_downs_snoc t.count t
    ∙ ap count_down (count_downs_count t.count t r (omega arith))
    ∙ at_zero (t.count - t.count) (omega arith)
  where
    at_zero :
        (n : ℕ)
        → n ≡ 0
        → count_down (record t { count = n }) ≡ record t {
          count = if t.continuous then t.latch else 0;
          running = t.continuous;
          flag = true;
        }
    at_zero n e = ground arith

abbrev pub via_ticks : ℕ → Via → Via
via_ticks zero d = d
via_ticks (suc n) d = via_ticks n (tick_t2 (tick_t1 d))

via_ticks_refines :
    (n : ℕ) (d : Via)
    → (timer_1 (via_ticks n d) ≡ count_downs n (timer_1 d))
      × (timer_2 (via_ticks n d) ≡ count_downs n (timer_2 d))
unfolding count_downs
via_ticks_refines zero d = (refl, refl)
via_ticks_refines (suc n) d =
    let step = tick_refines d in
    let rest = via_ticks_refines n (tick_t2 (tick_t1 d)) in
    (rest.0 ∙ ap (count_downs n) step.0, rest.1 ∙ ap (count_downs n) step.1)

pub with_high_lem :
    (word value : ℕ) → value < 0x100 → with_high word value ≡ value * 0x100 + word % 0x100
with_high_lem word value h =
    ground (arith, bit_and_low 8 word, bit_or_fields_swap 8 value (word % 0x100))

masks-clear_t1 : (x : ℕ) → masks (clear_mask x 0x40) 0x40 ≡ false
unfolding clear_mask
masks-clear_t1 x = ground (
  arith,
  masks-bit 6 (u8 (bit_and x (not8 0x40))),
  bit-u8 6 (bit_and x (not8 0x40)),
  bit-and 6 x (not8 0x40),
)

masks-clear_t2 : (x : ℕ) → masks (clear_mask x 0x20) 0x20 ≡ false
unfolding clear_mask
masks-clear_t2 x = ground (
  arith,
  masks-bit 5 (u8 (bit_and x (not8 0x20))),
  bit-u8 5 (bit_and x (not8 0x20)),
  bit-and 5 x (not8 0x20),
)

-- Writing the high byte of timer 1 starts it: with `n` the new value of the latch, the written
-- byte over the low byte that the latch had, the count is `n - k` after `k` ticks, for `k` up to
-- `n`, with the interrupt bit clear; tick `n + 1` sets the interrupt bit, and the timer starts
-- again from `n` in continuous mode and stops at zero otherwise.
pub timer_1_runs :
    (d : Via) (value k : ℕ)
    → value < 0x100
    → k ≤ value * 0x100 + d.t1_latch % 0x100
    → let started = write_reg t1ch d value in
      let n = value * 0x100 + d.t1_latch % 0x100 in
      let c = masks d.acr 0x40 in
      (timer_1 (via_ticks k started)
        ≡ record { count = n - k; latch = n; running = true; continuous = c; flag = false })
      × (timer_1 (via_ticks (suc n) started) ≡ record {
        count = if c then n else 0;
        latch = n;
        running = c;
        continuous = c;
        flag = true;
      })
unfolding write_reg
timer_1_runs d value k h fits =
    let n = value * 0x100 + d.t1_latch % 0x100 in
    let started = write_reg t1ch d value in
    let t : Timer = record {
      count = n;
      latch = n;
      running = true;
      continuous = masks d.acr 0x40;
      flag = false;
    } in
    let e : timer_1 started ≡ t = λ i. record {
      count = with_high_lem d.t1_latch value h i;
      latch = with_high_lem d.t1_latch value h i;
      running = true;
      continuous = masks d.acr 0x40;
      flag = masks-clear_t1 d.ifr i;
    } in
    (
      (via_ticks_refines k started).0 ∙ ap (count_downs k) e ∙ count_downs_count k t refl fits,
      (via_ticks_refines (suc n) started).0
          ∙ ap (count_downs (suc n)) e
          ∙ count_downs_expiry t refl,
    )

-- Writing the high byte of timer 2 starts it from that byte over its latch: the count is `n - k`
-- after `k` ticks, with the interrupt bit clear; tick `n + 1` sets the interrupt bit and stops the
-- timer at zero.
pub timer_2_runs :
    (d : Via) (value k : ℕ)
    → value < 0x100
    → d.t2_latch_low < 0x100
    → k ≤ value * 0x100 + d.t2_latch_low
    → let started = write_reg t2ch d value in
      let n = value * 0x100 + d.t2_latch_low in
      (timer_2 (via_ticks k started) ≡ record {
        count = n - k;
        latch = d.t2_latch_low;
        running = true;
        continuous = false;
        flag = false;
      })
      × (timer_2 (via_ticks (suc n) started) ≡ record {
        count = 0;
        latch = d.t2_latch_low;
        running = false;
        continuous = false;
        flag = true;
      })
unfolding write_reg
timer_2_runs d value k h hl fits =
    let n = value * 0x100 + d.t2_latch_low in
    let started = write_reg t2ch d value in
    let t : Timer = record {
      count = n;
      latch = d.t2_latch_low;
      running = true;
      continuous = false;
      flag = false;
    } in
    let word : u16 (bit_or (value * 2 ^ 8) d.t2_latch_low) ≡ n =
      ground (arith, bit_or_fields 8 value d.t2_latch_low) in
    let e : timer_2 started ≡ t = λ i. record {
      count = word i;
      latch = d.t2_latch_low;
      running = true;
      continuous = false;
      flag = masks-clear_t2 d.ifr i;
    } in
    (
      (via_ticks_refines k started).1 ∙ ap (count_downs k) e ∙ count_downs_count k t refl fits,
      (via_ticks_refines (suc n) started).1
          ∙ ap (count_downs (suc n)) e
          ∙ count_downs_expiry t refl,
    )
