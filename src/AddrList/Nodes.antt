-- ===== src/AddrList/Nodes.antt =====
-- src/addrlist.h and src/addrlist.c again, with the nodes as cells of a heap: the chain along `next`
-- and `prev`, its ends `first` and `last`, and malloc and free. A null pointer is `none`.
pub mod Seg
pub mod Links
pub mod Changes
pub mod Adds
pub mod Deletes
pub mod Splits
pub mod Rounds
pub mod Removes
pub mod Reads
pub mod Sessions
use v6502c.Base.{ℕ, zero, suc, ◌+◌, Bool, true, false, ◌&&◌, Option, none, some}
use v6502c.Base.{◌==◌, ltb, leb, if◌then◌else◌, u16}
use v6502c.AddrList.{AddressRange, range, merge, is_address_in_range}

-- `address_range_node`
pub record Node : Type 0 where
  pub range : AddressRange
  pub next : Option ℕ
  pub prev : Option ℕ

-- `address_range_list`, and the heap that its nodes stand in.
pub record Nodes : Type 0 where
  pub cell : ℕ → Option Node
  pub first : Option ℕ
  pub last : Option ℕ

abbrev pub node : AddressRange → Option ℕ → Option ℕ → Node
node r next prev = record { range = r; next = next; prev = prev }

abbrev pub put : ℕ → Option Node → Nodes → Nodes
put p n h = record h { cell = λ q. if q == p then n else h.cell q }

-- What is done next; `none` stands for a fault, such as a read through a dangling pointer, and for
-- fuel that ran out.
abbrev pub and_then {ℓ κ} : {A : Type ℓ} {B : Type κ} → Option A → (A → Option B) → Option B
and_then none k = none
and_then (some a) k = k a

-- `*p`
unfoldable pub read_node : ℕ → Nodes → Option Node
read_node p h = h.cell p

-- An assignment to a field of `*p`.
unfoldable pub modify : ℕ → (Node → Node) → Nodes → Option Nodes
modify p f h = and_then (h.cell p) (λ n. some (put p (some (f n)) h))

unfoldable pub free : ℕ → Nodes → Option Nodes
free p h = and_then (h.cell p) (λ n. some (put p none h))

-- `if (prev != NULL) prev->next = x; else list->first = x;`, and the same backwards.
unfoldable pub link_forward : Option ℕ → Option ℕ → Nodes → Option Nodes
link_forward none x h = some (record h { first = x })
link_forward (some p) x h = modify p (λ n. record n { next = x }) h

unfoldable pub link_backward : Option ℕ → Option ℕ → Nodes → Option Nodes
link_backward none x h = some (record h { last = x })
link_backward (some p) x h = modify p (λ n. record n { prev = x }) h

-- `init_address_range_list`
unfoldable pub init_nodes : Nodes → Nodes
init_nodes h = record h { first = none; last = none }

-- A new node before `p`; `fresh` is what malloc returns.
unfoldable pub insert_node : Option ℕ → ℕ → Node → AddressRange → Nodes → Option Nodes
insert_node none p n ar h = some h
insert_node (some q) p n ar h =
    and_then (link_forward n.prev (some q) (put q (some (node ar (some p) n.prev)) h))
      (modify p (λ m. record m { prev = some q }))

-- A new node at the end.
unfoldable pub append_node : Option ℕ → AddressRange → Nodes → Option Nodes
append_node none ar h = some h
append_node (some q) ar h =
    and_then (link_forward h.last (some q) (put q (some (node ar none h.last)) h))
      (λ h'. some (record h' { last = some q }))

-- The loop of `add_address_range`.
unfoldable pub add_loop : ℕ → Option ℕ → Option ℕ → AddressRange → Nodes → Option Nodes
add_loop zero fresh current ar h = none
add_loop (suc fuel) fresh none ar h = append_node fresh ar h
add_loop (suc fuel) fresh (some p) ar h = and_then (read_node p h) (λ n.
    let rest = add_loop fuel fresh n.next ar h in
    if ltb (ar.end + 1) n.range.start
    then insert_node fresh p n ar h
    else if ltb (n.range.end + 1) ar.start
    then rest
    else modify p (λ m. record m { range = merge m.range ar }) h)

unfoldable pub add_nodes : ℕ → Option ℕ → AddressRange → Nodes → Option Nodes
add_nodes fuel fresh ar h = add_loop fuel fresh h.first ar h

-- A node is taken out of the chain, and freed.
unfoldable pub delete_node : ℕ → Node → Nodes → Option Nodes
delete_node p n h =
    and_then (link_forward n.prev n.next h)
      (λ h1. and_then (read_node p h1) (λ m. and_then (link_backward m.next m.prev h1) (free p)))

-- A node is split: the new one takes the addresses behind the range that is removed.
unfoldable pub split_node : Option ℕ → ℕ → Node → AddressRange → Nodes → Option Nodes
split_node none p n ar h = some h
split_node (some q) p n ar h =
    let behind = node (range (u16 (ar.end + 1)) n.range.end) n.next (some p) in
    and_then (link_backward n.next (some q) (put q (some behind) h)) (
      modify p
        (λ m. record m { next = some q; range = range m.range.start (u16 (ar.start + 0xFFFF)) }))

-- The loop of `remove_address_range`.
unfoldable pub remove_loop : ℕ → Option ℕ → Option ℕ → AddressRange → Nodes → Option Nodes
remove_loop zero fresh current ar h = none
remove_loop (suc fuel) fresh none ar h = some h
remove_loop (suc fuel) fresh (some p) ar h = and_then (read_node p h) (λ n.
    let next = remove_loop fuel fresh n.next ar in
    let r = n.range in
    if ltb ar.end r.start
    then some h
    else if ltb r.end ar.start
    then next h
    else if leb ar.start r.start && leb r.end ar.end
    then and_then (delete_node p n h) next
    else if ltb r.start ar.start && ltb ar.end r.end
    then split_node fresh p n ar h
    else if leb ar.start r.start
    then and_then (modify p (λ m. record m { range = range (u16 (ar.end + 1)) m.range.end }) h) next
    else and_then
        (modify p (λ m. record m { range = range m.range.start (u16 (ar.start + 0xFFFF)) }) h) next)

unfoldable pub remove_nodes : ℕ → Option ℕ → AddressRange → Nodes → Option Nodes
remove_nodes fuel fresh ar h = remove_loop fuel fresh h.first ar h

-- The loop of `is_address_in_range_list`.
unfoldable pub covers_loop : ℕ → Option ℕ → ℕ → Nodes → Option Bool
covers_loop zero current a h = none
covers_loop (suc fuel) none a h = some false
covers_loop (suc fuel) (some p) a h = and_then (read_node p h) (λ n.
    let rest = covers_loop fuel n.next a h in
    if is_address_in_range n.range a then some true else rest)

unfoldable pub covers_nodes : ℕ → ℕ → Nodes → Option Bool
covers_nodes fuel a h = covers_loop fuel h.first a h

-- The loop of `clear_address_range_list`.
unfoldable pub clear_loop : ℕ → Option ℕ → Nodes → Option Nodes
clear_loop zero current h = none
clear_loop (suc fuel) none h = some h
clear_loop (suc fuel) (some p) h =
    and_then (read_node p h) (λ n. and_then (free p h) (clear_loop fuel n.next))

unfoldable pub clear_nodes : ℕ → Nodes → Option Nodes
clear_nodes fuel h =
    and_then (clear_loop fuel h.first h) (λ h'. some (record h' { first = none; last = none }))
