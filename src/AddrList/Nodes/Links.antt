-- ===== src/AddrList/Nodes/Links.antt =====
-- The assignments to `next` and `prev` that join a segment to another neighbour.
use v6502c.Base.{ℕ, ◌≡◌, ◌∙◌, refl, arith, false, Option, none, some, [], ◌∷◌}
use v6502c.AddrList.{AddressRange}
use v6502c.AddrList.Nodes.{Nodes, node, put, modify, link_forward, link_backward}
use v6502c.AddrList.Nodes.Seg.{Cells, owns, Distinct, head_or, last_or, Seg, Seg-put}

-- Nothing but the nodes of `xs` has changed.
abbrev pub SameOutside : Cells → Nodes → Nodes → Type 0
SameOutside xs h h' = (q : ℕ) → owns q xs ≡ false → h'.cell q ≡ h.cell q

-- The last node of a segment gets another successor.
link_forward-last :
    (h : Nodes) (before : Option ℕ) (p : ℕ) (r : AddressRange) (xs : Cells) (after x : Option ℕ)
    → Seg h.cell before ((p, r) ∷ xs) after
    → Distinct ((p, r) ∷ xs)
    → (h' : Nodes) × (link_forward (last_or xs (some p)) x h ≡ some h')
      × Seg h'.cell before ((p, r) ∷ xs) x
      × (h'.first ≡ h.first)
      × (h'.last ≡ h.last)
      × SameOutside ((p, r) ∷ xs) h h'
unfolding link_forward modify
link_forward-last h before p r [] after x s d = (
  put p (some (node r x before)) h,
  rw (s.0) refl,
  (ground arith, tt),
  refl,
  refl,
  λ q o. ground arith,
)
link_forward-last h before p r ((q, t) ∷ xs) after x s d =
    let (h', path, seg, first, last, same) = link_forward-last h (some p) q t xs after x s.1 d.1 in
    (h', path, (same p d.0 ∙ s.0, seg), first, last, λ a o. same a (ground arith))

-- The nodes that were passed get another successor, or the list another first node.
pub link_forward-passed :
    (h : Nodes) (ys : Cells) (after x : Option ℕ)
    → Seg h.cell none ys after
    → Distinct ys
    → h.first ≡ head_or ys after
    → (h' : Nodes) × (link_forward (last_or ys none) x h ≡ some h')
      × Seg h'.cell none ys x
      × (h'.first ≡ head_or ys x)
      × (h'.last ≡ h.last)
      × SameOutside ys h h'
unfolding link_forward
link_forward-passed h [] after x s d f = (record h { first = x }, refl, tt, refl, refl, λ q o. refl)
link_forward-passed h ((p, r) ∷ ys) after x s d f =
    let (h', path, seg, first, last, same) = link_forward-last h none p r ys after x s d in
    (h', path, seg, first ∙ f, last, same)

-- The first of the nodes that are left gets another predecessor, or the list another last node.
pub link_backward-left :
    (h : Nodes) (before x : Option ℕ) (xs : Cells)
    → Seg h.cell before xs none
    → Distinct xs
    → h.last ≡ last_or xs before
    → (h' : Nodes) × (link_backward (head_or xs none) x h ≡ some h')
      × Seg h'.cell x xs none
      × (h'.last ≡ last_or xs x)
      × (h'.first ≡ h.first)
      × SameOutside xs h h'
unfolding link_backward modify
link_backward-left h before x [] s d l = (record h { last = x }, refl, tt, refl, refl, λ q o. refl)
link_backward-left h before x ((p, r) ∷ xs) s d l =
    let h' = put p (some (node r (head_or xs none) x)) h in
    (
      h',
      rw (s.0) refl,
      (ground arith, Seg-put h p _ (some p) xs none d.0 s.1),
      l,
      refl,
      λ q o. ground arith,
    )
