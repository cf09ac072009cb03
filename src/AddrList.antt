-- ===== src/AddrList.antt =====
-- src/addrlist.h and src/addrlist.c: the list of address ranges that the machine write-protects.
-- A list stands for the chain of nodes from `first` along `next`; AddrList/Nodes has the nodes with
-- the links both ways.
pub mod Contains
pub mod Apart
pub mod Nodes
mod Tests
use v6502c.Base.{ℕ, ◌+◌, ◌<◌, ◌≤◌, Bool, true, false, ◌&&◌, ◌||◌, List, [], ◌∷◌}
use v6502c.Base.{ltb, leb, if◌then◌else◌, u16}

-- `address_range`, both ends inclusive
pub record AddressRange : Type 0 where
  pub start : ℕ
  pub end : ℕ

abbrev pub range : ℕ → ℕ → AddressRange
range s e = record { start = s; end = e }

abbrev pub RangeList : Type 0
RangeList = List AddressRange

unfoldable pub init_address_range_list : RangeList
init_address_range_list = []

-- A node that the new range touches takes the smaller start and the larger end.
abbrev pub merge : AddressRange → AddressRange → AddressRange
merge r ar = record {
  start = if ltb ar.start r.start then ar.start else r.start;
  end = if ltb r.end ar.end then ar.end else r.end;
}

-- The ranges are nonempty and in order, with an uncovered address between any two; the first one
-- starts at `lo` or later.
abbrev pub IsChain : ℕ → RangeList → Type 0
IsChain lo [] = Unit
IsChain lo (r ∷ rest) =
    (lo ≤ r.start) × (r.start ≤ r.end) × (r.end < 0x10000) × IsChain (r.end + 2) rest

abbrev pub IsApart : RangeList → Type 0
IsApart l = IsChain 0 l

-- `room` says whether `malloc` returns a node; without one the list stays as it is.
-- `start - 1` and `end + 1` are computed in `int`: `ar.end < start - 1` is `ar.end + 1 < start`.
unfoldable pub add_address_range : Bool → RangeList → AddressRange → RangeList
add_address_range room [] ar = if room then ar ∷ [] else []
add_address_range room (r ∷ rest) ar =
    if ltb (ar.end + 1) r.start
    then (if room then ar ∷ r ∷ rest else r ∷ rest)
    else if ltb (r.end + 1) ar.start
    then r ∷ add_address_range room rest ar
    else merge r ar ∷ rest

-- One round of the loop of `remove_address_range` at the node `r`: `rest` follows it, and `rest'` is
-- what the later rounds make of `rest`. A node that is split wants a second one from `malloc`.
-- The last test of the C code, `ar.end >= range.end`, always holds where it is reached.
unfoldable pub remove_node : Bool → AddressRange → RangeList → RangeList → AddressRange → RangeList
remove_node room r rest rest' ar =
    if ltb ar.end r.start
    then r ∷ rest
    else if ltb r.end ar.start
    then r ∷ rest'
    else if leb ar.start r.start && leb r.end ar.end
    then rest'
    else if ltb r.start ar.start && ltb ar.end r.end
    then (if room
        then range r.start (u16 (ar.start + 0xFFFF)) ∷ range (u16 (ar.end + 1)) r.end ∷ rest
        else r ∷ rest)
    else if leb ar.start r.start
    then range (u16 (ar.end + 1)) r.end ∷ rest'
    else range r.start (u16 (ar.start + 0xFFFF)) ∷ rest'

unfoldable pub remove_address_range : Bool → RangeList → AddressRange → RangeList
remove_address_range room [] ar = []
remove_address_range room (r ∷ rest) ar =
    remove_node room r rest (remove_address_range room rest ar) ar

unfoldable pub is_address_in_range : AddressRange → ℕ → Bool
is_address_in_range ar a = leb ar.start a && leb a ar.end

unfoldable pub is_address_in_range_list : RangeList → ℕ → Bool
is_address_in_range_list [] a = false
is_address_in_range_list (r ∷ rest) a = is_address_in_range r a || is_address_in_range_list rest a

unfoldable pub clear_address_range_list : RangeList → RangeList
clear_address_range_list list = []
