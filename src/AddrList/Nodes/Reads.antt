-- ===== src/AddrList/Nodes/Reads.antt =====
-- Reading the nodes, starting them and clearing them.
use v6502c.Base.{
  ℕ, zero, suc, ◌<◌, ◌≡◌, ◌∙◌, refl, ap, arith, false, Option, none, some, [], ◌∷◌, Bool-cases, inl,
  inr,
}
use v6502c.Base.{length}
use v6502c.AddrList.{
  AddressRange, is_address_in_range, is_address_in_range_list, init_address_range_list,
  clear_address_range_list,
}
use v6502c.AddrList.Nodes.{
  Nodes, put, and_then, read_node, free, init_nodes, covers_loop, covers_nodes, clear_loop,
  clear_nodes,
}
use v6502c.AddrList.Nodes.Seg.{Cells, ranges, owns, Distinct, head_or, Seg, IsList, Seg-put}
use v6502c.AddrList.Nodes.Changes.{SameHeap}

covers_loop-ranges :
    (fuel : ℕ) (h : Nodes) (before : Option ℕ) (xs : Cells) (a : ℕ)
    → Seg h.cell before xs none
    → length xs < fuel
    → covers_loop fuel (head_or xs none) a h ≡ some (is_address_in_range_list (ranges xs) a)
unfolding covers_loop read_node is_address_in_range_list
covers_loop-ranges zero h before xs a s enough = absurd (ground arith)
covers_loop-ranges (suc fuel) h before [] a s enough = refl
covers_loop-ranges (suc fuel) h before ((p, r) ∷ xs) a s enough =
    let rest = covers_loop-ranges fuel h (some p) xs a s.1 (ground arith) in
    elim (Bool-cases (is_address_in_range r a)) [
      | inl t ↦ rw (s.0, t) refl
      | inr t ↦ rw (s.0, t, rest) refl
    ]

-- Asking the nodes that stand for `ranges xs` whether an address is covered gives what the list of
-- ranges gives, within as many rounds as there are nodes and one more.
pub covers_nodes-refines :
    (fuel : ℕ) (h : Nodes) (xs : Cells) (a : ℕ)
    → IsList h xs
    → length xs < fuel
    → covers_nodes fuel a h ≡ some (is_address_in_range_list (ranges xs) a)
unfolding covers_nodes
covers_nodes-refines fuel h xs a s enough =
    ap (λ c. covers_loop fuel c a h) s.first ∙ covers_loop-ranges fuel h none xs a s.left enough

-- An initialised list is a list without nodes, and no cell of the heap has changed.
pub init_nodes-IsList :
    (h : Nodes)
    → IsList (init_nodes h) []
      × (ranges [] ≡ init_address_range_list)
      × SameHeap [] [] h (init_nodes h)
unfolding init_nodes init_address_range_list
init_nodes-IsList h =
    (record { passed = tt; left = tt; first = refl; last = refl; distinct = tt }, refl, λ q. refl)

SameHeap-cons :
    (h h' : Nodes) (p : ℕ) (r : AddressRange) (xs : Cells)
    → owns p xs ≡ false
    → SameHeap xs [] (put p none h) h'
    → SameHeap ((p, r) ∷ xs) [] h h'
SameHeap-cons h h' p r xs o f q = ground (arith, f q)

clear_loop-SameHeap :
    (fuel : ℕ) (h : Nodes) (before : Option ℕ) (xs : Cells)
    → Seg h.cell before xs none
    → Distinct xs
    → length xs < fuel
    → (h' : Nodes) × (clear_loop fuel (head_or xs none) h ≡ some h') × SameHeap xs [] h h'
unfolding clear_loop read_node free
clear_loop-SameHeap zero h before xs s d enough = absurd (ground arith)
clear_loop-SameHeap (suc fuel) h before [] s d enough = (h, refl, λ q. refl)
clear_loop-SameHeap (suc fuel) h before ((p, r) ∷ xs) s d enough =
    let (h', path, frees) =
      clear_loop-SameHeap fuel (put p none h) (some p) xs
        (Seg-put h p none (some p) xs none d.0 s.1) d.1 (ground arith) in
    (h', rw (s.0) path, SameHeap-cons h h' p r xs d.0 frees)

-- Clearing the list frees each of its nodes once and no other, within as many rounds as there are
-- nodes and one more, and leaves a list without nodes.
pub clear_nodes-refines :
    (fuel : ℕ) (h : Nodes) (xs : Cells)
    → IsList h xs
    → length xs < fuel
    → (h' : Nodes) × (clear_nodes fuel h ≡ some h')
      × IsList h' []
      × (ranges [] ≡ clear_address_range_list (ranges xs))
      × SameHeap xs [] h h'
unfolding clear_nodes clear_address_range_list
clear_nodes-refines fuel h xs s enough =
    let (h', path, frees) = clear_loop-SameHeap fuel h none xs s.left s.distinct enough in
    let done : Nodes → Option Nodes = λ m. some (record m { first = none; last = none }) in
    (
      record h' { first = none; last = none },
      ap (λ c. and_then (clear_loop fuel c h) done) s.first ∙ ap (λ o. and_then o done) path,
      record { passed = tt; left = tt; first = refl; last = refl; distinct = tt },
      refl,
      frees,
    )
