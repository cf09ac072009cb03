-- ===== src/AddrList/Nodes/Adds.antt =====
-- Adding a range to the nodes, against adding it to the list of ranges.
use v6502c.Base.{
  ℕ, zero, suc, ◌+◌, ◌<◌, ◌≡◌, ◌∙◌, refl, ap, subst, arith, true, false, Option, none, some, [],
  ◌∷◌, ◌++◌, Bool-cases, inl, inr,
}
use v6502c.Base.{◌==◌, ltb, length}
use v6502c.AddrList.{AddressRange, merge, add_address_range}
use v6502c.AddrList.Nodes.{
  Nodes, node, put, and_then, read_node, modify, link_forward, link_backward, insert_node,
  append_node, add_loop, add_nodes,
}
use v6502c.AddrList.Nodes.Seg.{
  Cells, ranges, owns, head_or, last_or, IsSplit, IsList, Seg-frame, Seg-put, owns-parts,
  owns-append, owns-insert, unused-owns, put_self, put_other, append_assoc, Distinct-left,
  Distinct-right, Distinct-apart, Distinct-other, Distinct-insert, IsSplit-next, IsSplit-IsList,
}
use v6502c.AddrList.Nodes.Changes.{
  has_room, IsFresh, change-IsSplit, SameHeap, SameOutside-SameHeap, equal_empty, owns-without,
}
use v6502c.AddrList.Nodes.Links.{link_forward-passed, link_backward-left}

owned-new :
    (a : ℕ) (ys : Cells) (q : ℕ) (r : AddressRange) (xs : Cells)
    → owns a (ys ++ (q, r) ∷ xs) ≡ true
    → owns a (ys ++ xs) ≡ false
    → (a == q) ≡ true
owned-new a ys q r xs i o = ground (arith, owns-append a ys xs, owns-append a ys ((q, r) ∷ xs))

-- A node `q` between the nodes that were passed and those that are left.
insert-IsSplit :
    (h : Nodes) (ys xs : Cells) (q : ℕ) (ar : AddressRange)
    → IsSplit h ys xs
    → h.cell q ≡ none
    → let h1 = put q (some (node ar (head_or xs none) (last_or ys none))) h in
      (h' : Nodes) × (and_then
          (link_forward (last_or ys none) (some q) h1)
          (link_backward (head_or xs none) (some q))
        ≡ some h')
      × IsSplit h' ys ((q, ar) ∷ xs)
      × SameHeap (ys ++ xs) (ys ++ (q, ar) ∷ xs) h h'
insert-IsSplit h ys xs q ar s e =
    let n = node ar (head_or xs none) (last_or ys none) in
    let h1 = put q (some n) h in
    let out = unused-owns h ys xs q s e in
    let (out_ys, out_xs) = owns-parts q ys xs out in
    let (h2, path, seg, first, last, same) =
      link_forward-passed h1 ys (head_or xs none) (some q)
        (Seg-put h q (some n) none ys (head_or xs none) out_ys s.passed)
        (Distinct-left ys xs s.distinct) s.first in
    let left2 =
      Seg-frame h1.cell h2.cell (last_or ys none) xs none
        (Seg-put h q (some n) (last_or ys none) xs none out_xs s.left)
        (λ a o. same a (Distinct-apart ys xs a s.distinct o)) in
    let (h3, path', seg', last', first', same') =
      link_backward-left h2 (last_or ys none) (some q) xs left2 (Distinct-right ys xs s.distinct)
        (last ∙ s.last) in
    (
      h3,
      rw path path',
      record {
        passed =
            Seg-frame h2.cell h3.cell none ys (some q) seg
              (λ a o. same' a (Distinct-other ys xs a s.distinct o));
        left = (same' q out_xs ∙ same q out_ys ∙ put_self h q (some n), seg');
        first = first' ∙ first;
        last = last';
        distinct = Distinct-insert ys xs q ar s.distinct out;
      },
      SameOutside-SameHeap (ys ++ xs) (ys ++ (q, ar) ∷ xs) h h3 (λ a o. owns-without a ys q ar xs o)
          (λ a i o. equal_empty h a q e (owned-new a ys q ar xs i o))
          (λ a o.
            let (other_ys, other_q, other_xs) = owns-insert a ys q ar xs o in
            same' a other_xs ∙ same a other_ys ∙ put_other h q (some n) a other_q),
    )

-- What the loop makes of the list: its ranges, and the nodes it has changed.
abbrev Added : Nodes → Cells → Cells → Option ℕ → AddressRange → Option Nodes → Type 0
Added h ys xs fresh ar result =
    (h' : Nodes) × (zs : Cells) × (result ≡ some h')
    × IsList h' (ys ++ zs)
    × (ranges zs ≡ add_address_range (has_room fresh) (ranges xs) ar)
    × SameHeap (ys ++ xs) (ys ++ zs) h h'

append_node-Added :
    (h : Nodes) (ys : Cells) (fresh : Option ℕ) (ar : AddressRange)
    → IsSplit h ys []
    → IsFresh h fresh
    → Added h ys [] fresh ar (append_node fresh ar h)
unfolding append_node add_address_range link_backward
append_node-Added h ys none ar s f = (h, [], refl, IsSplit-IsList h ys [] s, refl, λ q. refl)
append_node-Added h ys (some q) ar s f =
    let (h', path, split, same) = insert-IsSplit h ys [] q ar s f in
    (
      h',
      (q, ar) ∷ [],
      ap
            (λ b.
              and_then (link_forward b (some q) (put q (some (node ar none b)) h))
                (λ m. some (record m { last = some q })))
            s.last
          ∙ path,
      IsSplit-IsList h' ys ((q, ar) ∷ []) split,
      refl,
      same,
    )

insert_node-Added :
    (h : Nodes) (ys : Cells) (p : ℕ) (r : AddressRange) (xs : Cells) (fresh : Option ℕ)
    (ar : AddressRange)
    → IsSplit h ys ((p, r) ∷ xs)
    → IsFresh h fresh
    → ltb (ar.end + 1) r.start ≡ true
    → Added h ys
        ((p, r) ∷ xs)
        fresh
        ar
        (insert_node fresh p (node r (head_or xs none) (last_or ys none)) ar h)
unfolding insert_node add_address_range link_backward
insert_node-Added h ys p r xs none ar s f t =
    (h, (p, r) ∷ xs, refl, IsSplit-IsList h ys ((p, r) ∷ xs) s, rw t refl, λ q. refl)
insert_node-Added h ys p r xs (some q) ar s f t =
    let (h', path, split, same) = insert-IsSplit h ys ((p, r) ∷ xs) q ar s f in
    (
      h',
      (q, ar) ∷ (p, r) ∷ xs,
      path,
      IsSplit-IsList h' ys ((q, ar) ∷ (p, r) ∷ xs) split,
      rw t refl,
      same,
    )

merge_node-Added :
    (h : Nodes) (ys : Cells) (p : ℕ) (r : AddressRange) (xs : Cells) (fresh : Option ℕ)
    (ar : AddressRange)
    → IsSplit h ys ((p, r) ∷ xs)
    → ltb (ar.end + 1) r.start ≡ false
    → ltb (r.end + 1) ar.start ≡ false
    → Added h ys ((p, r) ∷ xs) fresh ar (modify p (λ m. record m { range = merge m.range ar }) h)
unfolding modify add_address_range
merge_node-Added h ys p r xs fresh ar s t u =
    let (split, same) = change-IsSplit h ys p r (merge r ar) xs s in
    (
      put p (some (node (merge r ar) (head_or xs none) (last_or ys none))) h,
      (p, merge r ar) ∷ xs,
      rw (s.left.0) refl,
      IsSplit-IsList _ ys ((p, merge r ar) ∷ xs) split,
      rw t (rw u refl),
      same,
    )

-- A node that the loop passes.
pass_node-Added :
    (h : Nodes) (ys : Cells) (p : ℕ) (r : AddressRange) (xs : Cells) (fresh : Option ℕ)
    (ar : AddressRange) (result : Option Nodes)
    → ltb (ar.end + 1) r.start ≡ false
    → ltb (r.end + 1) ar.start ≡ true
    → Added h (ys ++ (p, r) ∷ []) xs fresh ar result
    → Added h ys ((p, r) ∷ xs) fresh ar result
unfolding add_address_range
pass_node-Added h ys p r xs fresh ar result t u (h', zs, path, list, rest, same) =
    let assoc = append_assoc ys ((p, r) ∷ []) in
    (
      h',
      (p, r) ∷ zs,
      path,
      subst (IsList h') (assoc zs) list,
      rw t (rw u (ap (λ l. r ∷ l) rest)),
      subst (λ l. SameHeap l (ys ++ (p, r) ∷ zs) h h') (assoc xs)
          (subst (λ l. SameHeap ((ys ++ (p, r) ∷ []) ++ xs) l h h') (assoc zs) same),
    )

add_loop-Added :
    (fuel : ℕ) (h : Nodes) (ys xs : Cells) (fresh : Option ℕ) (ar : AddressRange)
    → IsSplit h ys xs
    → IsFresh h fresh
    → length xs < fuel
    → Added h ys xs fresh ar (add_loop fuel fresh (head_or xs none) ar h)
unfolding add_loop read_node
add_loop-Added zero h ys xs fresh ar s f enough = absurd (ground arith)
add_loop-Added (suc fuel) h ys [] fresh ar s f enough = append_node-Added h ys fresh ar s f
add_loop-Added (suc fuel) h ys ((p, r) ∷ xs) fresh ar s f enough =
    let passed =
      add_loop-Added fuel h (ys ++ (p, r) ∷ []) xs fresh ar (IsSplit-next h ys p r xs s) f
        (ground arith) in
    rw (s.left.0) (elim (Bool-cases (ltb (ar.end + 1) r.start)) [
      | inl t ↦ rw t (insert_node-Added h ys p r xs fresh ar s f t)
      | inr t ↦ elim (Bool-cases (ltb (r.end + 1) ar.start)) [
        | inl u ↦ rw t (rw u (pass_node-Added h ys p r xs fresh ar _ t u passed))
        | inr u ↦ rw t (rw u (merge_node-Added h ys p r xs fresh ar s t u))
      ]
    ])

-- Adding a range to the nodes that stand for `ranges xs` gives, within as many rounds as there are
-- nodes and one more, nodes that stand for the list with the range added: linked both ways, with
-- `first` and `last` at their ends, and no node twice. A new node was not in use, and no other cell
-- of the heap changes.
pub add_nodes-refines :
    (fuel : ℕ) (h : Nodes) (xs : Cells) (fresh : Option ℕ) (ar : AddressRange)
    → IsList h xs
    → IsFresh h fresh
    → length xs < fuel
    → (h' : Nodes) × (zs : Cells) × (add_nodes fuel fresh ar h ≡ some h')
      × IsList h' zs
      × (ranges zs ≡ add_address_range (has_room fresh) (ranges xs) ar)
      × SameHeap xs zs h h'
unfolding add_nodes
add_nodes-refines fuel h xs fresh ar s f enough =
    let (h', zs, path, list, rest, same) = add_loop-Added fuel h [] xs fresh ar s f enough in
    (h', zs, ap (λ c. add_loop fuel fresh c ar h) s.first ∙ path, list, rest, same)
