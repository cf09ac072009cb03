-- ===== src/AddrList/Nodes/Changes.antt =====
-- What malloc returns; the heap beside the nodes of the list; and a node that gets another range.
use v6502c.Base.{
  ℕ, ◌≡◌, ◌∙◌, refl, sym, ap, arith, Bool, true, false, Bool-cases, inl, inr, Option, none, some,
  [], ◌∷◌, ◌++◌,
}
use v6502c.Base.{◌==◌, if◌then◌else◌}
use v6502c.AddrList.{AddressRange}
use v6502c.AddrList.Nodes.{Node, Nodes, node, put}
use v6502c.AddrList.Nodes.Seg.{
  Cells, owns, Distinct, head_or, last_or, IsSplit, Seg-put, put_self, put_other, owns-append,
  owns-insert, Distinct-right, Distinct-apart,
}
use v6502c.AddrList.Nodes.Links.{SameOutside}

abbrev pub has_room : Option ℕ → Bool
has_room none = false
has_room (some q) = true

-- What malloc returns is no node in use.
abbrev pub IsFresh : Nodes → Option ℕ → Type 0
IsFresh h none = Unit
IsFresh h (some q) = h.cell q ≡ none

-- The heap without the nodes of a list.
abbrev pub other_cells : Cells → Nodes → ℕ → Option Node
other_cells l h q = if owns q l then none else h.cell q

-- Without the nodes of the list, the heap is the same: what the list has got was not in use, and
-- what it has lost is freed.
abbrev pub SameHeap : Cells → Cells → Nodes → Nodes → Type 0
SameHeap l l' h h' = (q : ℕ) → other_cells l h q ≡ other_cells l' h' q

pub SameHeap-same : (h : Nodes) (l : Cells) → SameHeap l l h h
SameHeap-same h l q = refl

pub SameHeap-fresh :
    (l l' : Cells) (h h' : Nodes) (q : ℕ)
    → SameHeap l l' h h'
    → owns q l' ≡ false
    → h.cell q ≡ none
    → h'.cell q ≡ none
SameHeap-fresh l l' h h' q f o e = ground (arith, f q)

-- A list that keeps its nodes and gets some that were not in use.
pub SameOutside-SameHeap :
    (l l' : Cells) (h h' : Nodes)
    → ((a : ℕ) → owns a l' ≡ false → owns a l ≡ false)
    → ((a : ℕ) → owns a l' ≡ true → owns a l ≡ false → h.cell a ≡ none)
    → SameOutside l' h h'
    → SameHeap l l' h h'
SameOutside-SameHeap l l' h h' kept got same q = elim (Bool-cases (owns q l')) [
  | inl i ↦ elim (Bool-cases (owns q l)) [ inl j ↦ rw (i, j) refl | inr j ↦ rw (i, j) (got q i j) ]
  | inr o ↦ rw (o, kept q o) (sym (same q o))
]

pub owns-without :
    (a : ℕ) (ys : Cells) (q : ℕ) (r : AddressRange) (xs : Cells)
    → owns a (ys ++ (q, r) ∷ xs) ≡ false
    → owns a (ys ++ xs) ≡ false
owns-without a ys q r xs o = ground (arith, owns-append a ys xs, owns-append a ys ((q, r) ∷ xs))

pub equal_empty : (h : Nodes) (a q : ℕ) → h.cell q ≡ none → (a == q) ≡ true → h.cell a ≡ none
equal_empty h a q e t = let same : a ≡ q = ground arith in ap h.cell same ∙ e

owns-here : (p : ℕ) (r : AddressRange) (xs : Cells) → owns p ((p, r) ∷ xs) ≡ true
owns-here p r xs = ground arith

pub Distinct-here :
    (ys : Cells) (p : ℕ) (r : AddressRange) (xs : Cells)
    → Distinct (ys ++ (p, r) ∷ xs)
    → (owns p ys ≡ false) × (owns p xs ≡ false)
Distinct-here ys p r xs d =
    (Distinct-apart ys ((p, r) ∷ xs) p d (owns-here p r xs), (Distinct-right ys ((p, r) ∷ xs) d).0)

pub owns-change :
    (q : ℕ) (ys : Cells) (p : ℕ) (r r' : AddressRange) (xs : Cells)
    → owns q (ys ++ (p, r) ∷ xs) ≡ false
    → owns q (ys ++ (p, r') ∷ xs) ≡ false
owns-change q ys p r r' xs o =
    ground (arith, owns-append q ys ((p, r) ∷ xs), owns-append q ys ((p, r') ∷ xs))

pub owned-change :
    (q : ℕ) (ys : Cells) (p : ℕ) (r r' : AddressRange) (xs : Cells)
    → owns q (ys ++ (p, r') ∷ xs) ≡ true
    → owns q (ys ++ (p, r) ∷ xs) ≡ true
owned-change q ys p r r' xs o =
    ground (arith, owns-append q ys ((p, r) ∷ xs), owns-append q ys ((p, r') ∷ xs))

true_false : {A : Type 0} (b : Bool) → b ≡ true → b ≡ false → A
true_false b t f = absurd (ground arith)

pub Distinct-change :
    (ys : Cells) (p : ℕ) (r r' : AddressRange) (xs : Cells)
    → Distinct (ys ++ (p, r) ∷ xs)
    → Distinct (ys ++ (p, r') ∷ xs)
Distinct-change [] p r r' xs d = d
Distinct-change ((q, t) ∷ ys) p r r' xs d =
    (owns-change q ys p r r' xs d.0, Distinct-change ys p r r' xs d.1)

-- The node at `p` gets another range.
pub change-IsSplit :
    (h : Nodes) (ys : Cells) (p : ℕ) (r r' : AddressRange) (xs : Cells)
    → IsSplit h ys ((p, r) ∷ xs)
    → let h' = put p (some (node r' (head_or xs none) (last_or ys none))) h in
      IsSplit h' ys ((p, r') ∷ xs) × SameHeap (ys ++ (p, r) ∷ xs) (ys ++ (p, r') ∷ xs) h h'
change-IsSplit h ys p r r' xs s =
    let n = node r' (head_or xs none) (last_or ys none) in
    let (out_ys, out_xs) = Distinct-here ys p r xs s.distinct in
    (
      record {
        passed = Seg-put h p (some n) none ys (some p) out_ys s.passed;
        left = (put_self h p (some n), Seg-put h p (some n) (some p) xs none out_xs s.left.1);
        first = s.first;
        last = s.last;
        distinct = Distinct-change ys p r r' xs s.distinct;
      },
      SameOutside-SameHeap (ys ++ (p, r) ∷ xs) (ys ++ (p, r') ∷ xs) h (put p (some n) h)
          (λ a o. owns-change a ys p r' r xs o)
          (λ a i o. true_false (owns a (ys ++ (p, r) ∷ xs)) (owned-change a ys p r r' xs i) o)
          (λ a o.
            let (other_ys, other_p, other_xs) = owns-insert a ys p r' xs o in
            put_other h p (some n) a other_p),
    )
