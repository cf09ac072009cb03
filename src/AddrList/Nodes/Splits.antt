-- ===== src/AddrList/Nodes/Splits.antt =====
-- Splitting a node of the list in two.
use v6502c.Base.{
  ℕ, ◌≡◌, ◌∙◌, refl, sym, subst, arith, true, false, none, some, [], ◌∷◌, ◌++◌, Bool-cases, inl,
  inr,
}
use v6502c.Base.{◌==◌}
use v6502c.AddrList.{AddressRange, range}
use v6502c.AddrList.Nodes.{Nodes, node, put, and_then, modify, link_backward}
use v6502c.AddrList.Nodes.Seg.{
  Cells, owns, Distinct, head_or, last_or, IsSplit, Seg-frame, Seg-put, owns-append, owns-insert,
  unused-owns, put_self, put_other, append_assoc, Distinct-right, Distinct-other, Distinct-insert,
}
use v6502c.AddrList.Nodes.Changes.{
  Distinct-here, owns-change, Distinct-change, SameHeap, SameOutside-SameHeap, equal_empty,
}
use v6502c.AddrList.Nodes.Links.{link_backward-left}

differ_back : (a b : ℕ) → (a == b) ≡ false → (b == a) ≡ false
differ_back a b d = elim (Bool-cases (b == a)) [
  | inl t ↦ let e : b ≡ a = ground arith in ground arith
  | inr t ↦ t
]

Distinct-behind :
    (ys : Cells) (p : ℕ) (r r' : AddressRange) (q : ℕ) (b : AddressRange) (xs : Cells)
    → Distinct (ys ++ (p, r) ∷ xs)
    → owns q (ys ++ (p, r) ∷ xs) ≡ false
    → Distinct (ys ++ (p, r') ∷ (q, b) ∷ xs)
Distinct-behind ys p r r' q b xs d o =
    let assoc = append_assoc ys ((p, r') ∷ []) in
    subst Distinct (assoc ((q, b) ∷ xs)) (
      Distinct-insert (ys ++ (p, r') ∷ []) xs q b
        (subst Distinct (sym (assoc xs)) (Distinct-change ys p r r' xs d))
        (subst (λ l. owns q l ≡ false) (sym (assoc xs)) (owns-change q ys p r r' xs o)))

owns-head :
    (a q : ℕ) (b : AddressRange) (xs : Cells)
    → owns a ((q, b) ∷ xs) ≡ false
    → ((a == q) ≡ false) × (owns a xs ≡ false)
owns-head a q b xs o = ground arith

Distinct-behind_other :
    (ys : Cells) (p : ℕ) (r : AddressRange) (xs : Cells) (a : ℕ)
    → Distinct (ys ++ (p, r) ∷ xs)
    → owns a ys ≡ true
    → owns a xs ≡ false
Distinct-behind_other ys p r xs a d o =
    (owns-head a p r xs (Distinct-other ys ((p, r) ∷ xs) a d o)).1

owns-split :
    (a : ℕ) (ys : Cells) (p : ℕ) (r r' : AddressRange) (q : ℕ) (b : AddressRange) (xs : Cells)
    → owns a (ys ++ (p, r') ∷ (q, b) ∷ xs) ≡ false
    → owns a (ys ++ (p, r) ∷ xs) ≡ false
owns-split a ys p r r' q b xs o =
    ground (arith, owns-append a ys ((p, r') ∷ (q, b) ∷ xs), owns-append a ys ((p, r) ∷ xs))

owned-split :
    (a : ℕ) (ys : Cells) (p : ℕ) (r r' : AddressRange) (q : ℕ) (b : AddressRange) (xs : Cells)
    → owns a (ys ++ (p, r') ∷ (q, b) ∷ xs) ≡ true
    → owns a (ys ++ (p, r) ∷ xs) ≡ false
    → (a == q) ≡ true
owned-split a ys p r r' q b xs i o =
    ground (arith, owns-append a ys ((p, r') ∷ (q, b) ∷ xs), owns-append a ys ((p, r) ∷ xs))

-- The node at `p` keeps its start, up to `e'`, and the new one at `q` takes `b`.
pub halve-IsSplit :
    (h : Nodes) (ys : Cells) (p : ℕ) (r : AddressRange) (e' q : ℕ) (b : AddressRange) (xs : Cells)
    → IsSplit h ys ((p, r) ∷ xs)
    → h.cell q ≡ none
    → let h1 = put q (some (node b (head_or xs none) (some p))) h in
      (h' : Nodes) × (and_then
          (link_backward (head_or xs none) (some q) h1)
          (modify p (λ m. record m { next = some q; range = range m.range.start e' }))
        ≡ some h')
      × IsSplit h' ys ((p, range r.start e') ∷ (q, b) ∷ xs)
      × SameHeap (ys ++ (p, r) ∷ xs) (ys ++ (p, range r.start e') ∷ (q, b) ∷ xs) h h'
unfolding modify
halve-IsSplit h ys p r e' q b xs s e =
    let r' = range r.start e' in
    let n = node b (head_or xs none) (some p) in
    let n' = node r' (some q) (last_or ys none) in
    let h1 = put q (some n) h in
    let out = unused-owns h ys ((p, r) ∷ xs) q s e in
    let (free_ys, differ, free_xs) = owns-insert q ys p r xs out in
    let (out_ys, out_xs) = Distinct-here ys p r xs s.distinct in
    let (h2, path, seg, last, first, same) =
      link_backward-left h1 (some p) (some q) xs
        (Seg-put h q (some n) (some p) xs none free_xs s.left.1)
        (Distinct-right ys ((p, r) ∷ xs) s.distinct).1 s.last in
    let here = same p out_xs ∙ put_other h q (some n) p (differ_back q p differ) ∙ s.left.0 in
    (
      put p (some n') h2,
      rw (path, here) refl,
      record {
        passed = Seg-put h2 p (some n') none ys (some p) out_ys (
            Seg-frame h1.cell h2.cell none ys (some p)
              (Seg-put h q (some n) none ys (some p) free_ys s.passed)
              (λ a o. same a (Distinct-behind_other ys p r xs a s.distinct o)));
        left = (
          put_self h2 p (some n'),
          (
            put_other h2 p (some n') q differ ∙ same q free_xs ∙ put_self h q (some n),
            Seg-put h2 p (some n') (some q) xs none out_xs seg,
          ),
        );
        first = first ∙ s.first;
        last = last;
        distinct = Distinct-behind ys p r r' q b xs s.distinct out;
      },
      SameOutside-SameHeap (ys ++ (p, r) ∷ xs) (ys ++ (p, r') ∷ (q, b) ∷ xs) h (put p (some n') h2)
          (λ a o. owns-split a ys p r r' q b xs o)
          (λ a i o. equal_empty h a q e (owned-split a ys p r r' q b xs i o))
          (λ a o.
            let (other_ys, other_p, rest) = owns-insert a ys p r' ((q, b) ∷ xs) o in
            let (other_q, other_xs) = owns-head a q b xs rest in
            put_other h2 p (some n') a other_p
            ∙ same a other_xs
            ∙ put_other h q (some n) a other_q),
    )
