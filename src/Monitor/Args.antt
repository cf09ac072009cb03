-- ===== src/Monitor/Args.antt =====
-- `is_whitespace` and `parseargs` of src/monitor.c, on the buffer that `parseargs` cuts up.
pub mod Words
use v6502c.Base.{ℕ, suc, ◌+◌, Bool, true, false, ◌||◌, not, List, [], ◌∷◌, map}
use v6502c.Base.{◌==◌, if◌then◌else◌, Bytes, until_zero, drop, length}

unfoldable pub is_whitespace : ℕ → Bool
is_whitespace c = c == 10 || c == 13 || c == 9 || c == 12 || c == 11 || c == 32

-- What the loop makes of the buffer, and the arguments that it finds, each as its index.
pub record Parsed : Type 0 where
  pub buffer : Bytes
  pub starts : List ℕ

-- One round of the loop, at the character `c` of index `at`: is it `blank`, and is `argv[count]`
-- set (`inside`)? `rest` is what the later rounds make of the rest. A zero ends an argument.
unfoldable pub args_step : Bool → Bool → ℕ → ℕ → Parsed → Parsed
args_step true true c at rest = record { buffer = 0 ∷ rest.buffer; starts = rest.starts }
args_step true false c at rest = record { buffer = c ∷ rest.buffer; starts = rest.starts }
args_step false true c at rest = record { buffer = c ∷ rest.buffer; starts = rest.starts }
args_step false false c at rest = record { buffer = c ∷ rest.buffer; starts = at ∷ rest.starts }

-- The loop, with the rest of the buffer before it.
unfoldable pub args_loop : Bytes → ℕ → Bool → Parsed
args_loop [] at inside = record { buffer = []; starts = [] }
args_loop (c ∷ cs) at inside =
    let blank = is_whitespace c in args_step blank inside c at (args_loop cs (at + 1) (not blank))

-- `argv`, as the strings that the pointers lead to, up to `argc`.
unfoldable pub parseargs : Bytes → List Bytes
parseargs cmdbuf =
    let p = args_loop cmdbuf 0 false in map (λ start. until_zero (drop start p.buffer)) p.starts
