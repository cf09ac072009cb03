-- ===== src/AddrList/Nodes/Removes.antt =====
-- Removing a range from the nodes, against removing it from the list of ranges.
use v6502c.Base.{
  ℕ, zero, suc, ◌+◌, ◌<◌, ◌≡◌, ◌∙◌, ap, arith, ◌&&◌, Option, none, some, [], ◌∷◌, ◌++◌, Bool-cases,
  inl, inr,
}
use v6502c.Base.{ltb, leb, length, u16}
use v6502c.AddrList.{AddressRange, range, remove_address_range}
use v6502c.AddrList.Nodes.{Nodes, read_node, modify, remove_loop, remove_nodes}
use v6502c.AddrList.Nodes.Seg.{Cells, ranges, head_or, IsSplit, IsList, IsSplit-next}
use v6502c.AddrList.Nodes.Changes.{has_room, IsFresh, SameHeap, SameHeap-same}
use v6502c.AddrList.Nodes.Rounds.{
  Removed, keep-Removed, stop-Removed, split-Removed, change-Removed, delete-Removed, range_none,
  range_before, range_behind, range_covers, range_inside, range_over_start, range_over_end,
}

remove_loop-Removed :
    (fuel : ℕ) (h : Nodes) (ys xs : Cells) (fresh : Option ℕ) (ar : AddressRange)
    → IsSplit h ys xs
    → IsFresh h fresh
    → length xs < fuel
    → Removed h ys xs fresh ar (remove_loop fuel fresh (head_or xs none) ar h)
unfolding remove_loop read_node modify
remove_loop-Removed zero h ys xs fresh ar s f enough = absurd (ground arith)
remove_loop-Removed (suc fuel) h ys [] fresh ar s f enough =
    stop-Removed h ys [] fresh ar s (range_none (has_room fresh) ar)
remove_loop-Removed (suc fuel) h ys ((p, r) ∷ xs) fresh ar s f enough =
    let next = remove_loop fuel fresh (head_or xs none) ar in
    let within : length xs < fuel = ground arith in
    let go : (h1 : Nodes) (ys1 : Cells)
        → IsSplit h1 ys1 xs
        → IsFresh h1 fresh
        → Removed h1 ys1 xs fresh ar (next h1) =
      λ h1 ys1 s1 f1. remove_loop-Removed fuel h1 ys1 xs fresh ar s1 f1 within in
    let here = s.left.0 in
    let room = has_room fresh in
    let rest = ranges xs in
    elim (Bool-cases (ltb ar.end r.start)) [
      | inl a ↦
          rw (here, a) (stop-Removed h ys ((p, r) ∷ xs) fresh ar s (range_before room r rest ar a))
      | inr a ↦ elim (Bool-cases (ltb r.end ar.start)) [
        | inl b ↦
            rw (here, a, b)
              (keep-Removed h h ys p r r xs fresh ar (next h) (range_behind room r rest ar a b)
                (SameHeap-same h (ys ++ (p, r) ∷ xs))
                (go h (ys ++ (p, r) ∷ []) (IsSplit-next h ys p r xs s) f))
        | inr b ↦ elim (Bool-cases (leb ar.start r.start && leb r.end ar.end)) [
          | inl c ↦
              rw (here, a, b, c)
                (delete-Removed h ys p r xs fresh ar next s f (range_covers room r rest ar a b c)
                  go)
          | inr c ↦ elim (Bool-cases (ltb r.start ar.start && ltb ar.end r.end)) [
            | inl d ↦
                rw (here, a, b, c, d)
                  (split-Removed h ys p r xs fresh ar s f (range_inside room r rest ar a b c d))
            | inr d ↦ elim (Bool-cases (leb ar.start r.start)) [
              | inl e ↦
                  rw (here, a, b, c, d, e)
                    (change-Removed h ys p r (range (u16 (ar.end + 1)) r.end) xs fresh ar next s f
                      (range_over_start room r rest ar a b c d e) go)
              | inr e ↦
                  rw (here, a, b, c, d, e)
                    (change-Removed h ys p r (range r.start (u16 (ar.start + 0xFFFF))) xs fresh ar
                      next s f (range_over_end room r rest ar a b c d e) go)
            ]
          ]
        ]
      ]
    ]

-- Removing a range from the nodes that stand for `ranges xs` gives, within as many rounds as there
-- are nodes and one more, nodes that stand for the list without it: linked both ways, with `first`
-- and `last` at their ends. A new node was not in use, every node that is no longer in the list is
-- freed, and only once (a second free gives no result), and no other cell of the heap changes.
pub remove_nodes-refines :
    (fuel : ℕ) (h : Nodes) (xs : Cells) (fresh : Option ℕ) (ar : AddressRange)
    → IsList h xs
    → IsFresh h fresh
    → length xs < fuel
    → (h' : Nodes) × (zs : Cells) × (remove_nodes fuel fresh ar h ≡ some h')
      × IsList h' zs
      × (ranges zs ≡ remove_address_range (has_room fresh) (ranges xs) ar)
      × SameHeap xs zs h h'
unfolding remove_nodes
remove_nodes-refines fuel h xs fresh ar s f enough =
    let (h', zs, path, list, rest, frees) = remove_loop-Removed fuel h [] xs fresh ar s f enough in
    (h', zs, ap (λ c. remove_loop fuel fresh c ar h) s.first ∙ path, list, rest, frees)
