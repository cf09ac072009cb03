-- ===== src/AddrList/Tests.antt =====
-- The address range list at concrete ranges.
use v6502c.Base.{
  ℕ, ◌≤◌, ◌≡◌, ◌↔◌, refl, arith, true, not, ◌&&◌, ◌||◌, Option, none, some, List, [], ◌∷◌,
}
use v6502c.Base.{◌==◌, if◌then◌else◌}
use v6502c.AddrList.{
  RangeList, range, IsApart, init_address_range_list, add_address_range, remove_address_range,
  remove_node, is_address_in_range, is_address_in_range_list,
}
use v6502c.AddrList.Nodes.{Node, Nodes, node, init_nodes, remove_nodes, covers_nodes, clear_nodes}
use v6502c.AddrList.Nodes.Seg.{Cells, ranges, IsList}
use v6502c.AddrList.Nodes.Changes.{IsFresh, SameHeap}
use v6502c.AddrList.Nodes.Removes.{remove_nodes-refines}
use v6502c.AddrList.Nodes.Sessions.{
  ListEdit, adding, removing, run_edits, rooms_of, edit_lists, run_edits-clear,
}
use v6502c.AddrList.Contains.{is_address_in_range_list-add, is_address_in_range_list-remove}
use v6502c.AddrList.Apart.{touching, add-IsApart_iff, remove-bridged}

abbrev two_ranges : RangeList
two_ranges = range 0x100 0x1FF ∷ range 0x300 0x3FF ∷ []

two_ranges-IsApart : IsApart two_ranges
two_ranges-IsApart =
    (omega arith, omega arith, omega arith, (omega arith, omega arith, omega arith, tt))

add_test :
    add_address_range true two_ranges (range 0x200 0x2FF)
    ≡ range 0x100 0x2FF ∷ range 0x300 0x3FF ∷ []
unfolding add_address_range
add_test = refl

remove_test :
    remove_address_range true two_ranges (range 0x180 0x37F)
    ≡ range 0x100 0x17F ∷ range 0x380 0x3FF ∷ []
unfolding remove_address_range remove_node
remove_test = refl

is_address_in_range_list-add_example :
    is_address_in_range_list (add_address_range true two_ranges (range 0x200 0x2FF)) 0x280
    ≡ (is_address_in_range (range 0x200 0x2FF) 0x280 || is_address_in_range_list two_ranges 0x280)
is_address_in_range_list-add_example =
    is_address_in_range_list-add two_ranges (range 0x200 0x2FF) 0x280

is_address_in_range_list-remove_example :
    is_address_in_range_list (remove_address_range true two_ranges (range 0x180 0x37F)) 0x17F ≡ (
      is_address_in_range_list two_ranges 0x17F
      && not (is_address_in_range (range 0x180 0x37F) 0x17F))
is_address_in_range_list-remove_example =
    is_address_in_range_list-remove two_ranges (range 0x180 0x37F) 0x17F two_ranges-IsApart

add-IsApart_iff_example :
    IsApart (add_address_range true two_ranges (range 0x1F0 0x310))
    ↔ (touching two_ranges (range 0x1F0 0x310) ≤ 1)
add-IsApart_iff_example =
    add-IsApart_iff two_ranges (range 0x1F0 0x310) two_ranges-IsApart (omega arith) (omega arith)

remove-bridged_example :
    is_address_in_range_list
      (remove_address_range true
        (add_address_range true two_ranges (range 0x1F0 0x310))
        (range 0x308 0x308))
      0x308
    ≡ true
remove-bridged_example =
    remove-bridged (range 0x100 0x1FF) (range 0x300 0x3FF) (range 0x1F0 0x310) 0x308
      two_ranges-IsApart (omega arith) (omega arith) (omega arith) (omega arith) (omega arith)

abbrev two_cells : Cells
two_cells = (1, range 0x100 0x1FF) ∷ (2, range 0x300 0x3FF) ∷ []

abbrev two_nodes : Nodes
two_nodes = record {
  cell = λ q.
      if q == 1
      then some (node (range 0x100 0x1FF) (some 2) none)
      else if q == 2
      then some (node (range 0x300 0x3FF) none (some 1))
      else none;
  first = some 1;
  last = some 2;
}

two_nodes-IsList : IsList two_nodes two_cells
two_nodes-IsList = record {
  passed = tt;
  left = (refl, (refl, tt));
  first = refl;
  last = refl;
  distinct = (refl, (refl, tt));
}

remove_nodes-refines_example :
    (h' : Nodes) × (zs : Cells) × (remove_nodes 3 (some 3) (range 0x80 0x3F0) two_nodes ≡ some h')
    × IsList h' zs
    × (ranges zs ≡ remove_address_range true (ranges two_cells) (range 0x80 0x3F0))
    × SameHeap two_cells zs two_nodes h'
remove_nodes-refines_example =
    remove_nodes-refines 3 two_nodes two_cells (some 3) (range 0x80 0x3F0) two_nodes-IsList refl
      (omega arith)

-- A heap with room for two nodes.
abbrev unused : Option Node → Option Node → Option ℕ
unused none m = some 1
unused (some n) none = some 2
unused (some n) (some m) = none

unused-IsFresh :
    (h : Nodes) (n m : Option Node) → h.cell 1 ≡ n → h.cell 2 ≡ m → IsFresh h (unused n m)
unused-IsFresh h none m e f = e
unused-IsFresh h (some n) none e f = f
unused-IsFresh h (some n) (some m) e f = tt

abbrev malloc_two : Nodes → Option ℕ
malloc_two h = unused (h.cell 1) (h.cell 2)

malloc_two-IsFresh : (h : Nodes) → IsFresh h (malloc_two h)
malloc_two-IsFresh h = unused-IsFresh h (h.cell 1) (h.cell 2) refl refl

abbrev empty_heap : Nodes
empty_heap = record { cell = λ q. none; first = none; last = none }

abbrev three_edits : List ListEdit
three_edits =
    adding (range 0x100 0x1FF) ∷ removing (range 0x140 0x14F) ∷ adding (range 0x10 0x1F) ∷ []

run_edits-clear_example :
    (h1 h2 : Nodes) × (run_edits 4 malloc_two three_edits (init_nodes empty_heap) ≡ some h1)
    × ((a : ℕ)
        → covers_nodes 4 a h1
          ≡ some (
              is_address_in_range_list
                (edit_lists
                  (rooms_of 4 malloc_two three_edits (init_nodes empty_heap))
                  three_edits
                  init_address_range_list)
                a))
    × (clear_nodes 4 h1 ≡ some h2)
    × ((q : ℕ) → h2.cell q ≡ empty_heap.cell q)
run_edits-clear_example =
    run_edits-clear 4 malloc_two malloc_two-IsFresh three_edits empty_heap (omega arith)
