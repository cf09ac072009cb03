-- ===== src/AddrList/Nodes/Deletes.antt =====
-- Taking a node out of the list.
use v6502c.Base.{
  ℕ, ◌≡◌, ◌∙◌, refl, sym, arith, true, false, none, some, [], ◌∷◌, ◌++◌, Bool-cases, inl, inr,
}
use v6502c.Base.{◌==◌}
use v6502c.AddrList.{AddressRange}
use v6502c.AddrList.Nodes.{Nodes, node, put, read_node, free, delete_node}
use v6502c.AddrList.Nodes.Seg.{
  Cells, owns, Distinct, head_or, last_or, IsSplit, Seg-frame, Seg-put, owns-append, owns-parts,
  put_other, Distinct-left, Distinct-right, Distinct-apart, Distinct-other,
}
use v6502c.AddrList.Nodes.Changes.{SameHeap, other_cells, owns-without, Distinct-here}
use v6502c.AddrList.Nodes.Links.{link_forward-passed, link_backward-left}

owns-both :
    (a : ℕ) (ys : Cells) (q : ℕ) (r : AddressRange) (xs : Cells)
    → owns a (ys ++ xs) ≡ false
    → (a == q) ≡ false
    → owns a (ys ++ (q, r) ∷ xs) ≡ false
owns-both a ys q r xs o d = ground (arith, owns-append a ys xs, owns-append a ys ((q, r) ∷ xs))

owned-both :
    (a : ℕ) (ys : Cells) (q : ℕ) (r : AddressRange) (xs : Cells)
    → owns a (ys ++ xs) ≡ true
    → owns a (ys ++ (q, r) ∷ xs) ≡ true
owned-both a ys q r xs i = ground (arith, owns-append a ys xs, owns-append a ys ((q, r) ∷ xs))

freed_cell :
    (h : Nodes) (a p : ℕ) (l : Cells) → (a == p) ≡ true → other_cells l (put p none h) a ≡ none
freed_cell h a p l t = ground arith

owned_here :
    (a : ℕ) (ys : Cells) (p : ℕ) (r : AddressRange) (xs : Cells)
    → (a == p) ≡ true
    → owns a (ys ++ (p, r) ∷ xs) ≡ true
owned_here a ys p r xs t = ground (arith, owns-append a ys ((p, r) ∷ xs))

Distinct-without :
    (ys : Cells) (p : ℕ) (r : AddressRange) (xs : Cells)
    → Distinct (ys ++ (p, r) ∷ xs)
    → Distinct (ys ++ xs)
Distinct-without [] p r xs d = d.1
Distinct-without ((q, t) ∷ ys) p r xs d =
    (owns-without q ys p r xs d.0, Distinct-without ys p r xs d.1)

-- The node at `p` is taken out and freed.
pub delete-IsSplit :
    (h : Nodes) (ys : Cells) (p : ℕ) (r : AddressRange) (xs : Cells)
    → IsSplit h ys ((p, r) ∷ xs)
    → (h' : Nodes) × (delete_node p (node r (head_or xs none) (last_or ys none)) h ≡ some h')
      × IsSplit h' ys xs
      × SameHeap (ys ++ (p, r) ∷ xs) (ys ++ xs) h h'
unfolding delete_node read_node free
delete-IsSplit h ys p r xs s =
    let (out_ys, out_xs) = Distinct-here ys p r xs s.distinct in
    let distinct = Distinct-without ys p r xs s.distinct in
    let (h1, path, seg, first, last, same) =
      link_forward-passed h ys (some p) (head_or xs none) s.passed (Distinct-left ys xs distinct)
        s.first in
    let left1 =
      Seg-frame h.cell h1.cell (some p) xs none s.left.1
        (λ a o. same a (Distinct-apart ys xs a distinct o)) in
    let here1 = same p out_ys ∙ s.left.0 in
    let (h2, path', seg', last', first', same') =
      link_backward-left h1 (some p) (last_or ys none) xs left1 (Distinct-right ys xs distinct)
        (last ∙ s.last) in
    let here2 = same' p out_xs ∙ here1 in
    (
      put p none h2,
      rw (path, here1, path', here2) refl,
      record {
        passed = Seg-put h2 p none none ys (head_or xs none) out_ys (
            Seg-frame h1.cell h2.cell none ys (head_or xs none) seg
              (λ a o. same' a (Distinct-other ys xs a distinct o)));
        left = Seg-put h2 p none (last_or ys none) xs none out_xs seg';
        first = first' ∙ first;
        last = last';
        distinct = distinct;
      },
      λ a. elim (Bool-cases (a == p)) [
        | inl t ↦ rw (owned_here a ys p r xs t) (sym (freed_cell h2 a p (ys ++ xs) t))
        | inr d ↦ elim (Bool-cases (owns a (ys ++ xs))) [
          | inl i ↦ rw (i, owned-both a ys p r xs i) refl
          | inr o ↦
              let (other_ys, other_xs) = owns-parts a ys xs o in
              rw (o, owns-both a ys p r xs o d)
                (sym (put_other h2 p none a d ∙ same' a other_xs ∙ same a other_ys))
        ]
      ],
    )
