-- ===== src/AddrList/Nodes/Seg.antt =====
-- What a chain of nodes stands for: the addresses of the nodes and their ranges, in order.
use v6502c.Base.{
  ℕ, ◌≡◌, ◌∙◌, refl, sym, ap, subst, arith, Bool, true, false, ◌||◌, Option, none, some, List, [],
  ◌∷◌, ◌++◌, Bool-cases, inl, inr,
}
use v6502c.Base.{◌==◌}
use v6502c.AddrList.{AddressRange, RangeList}
use v6502c.AddrList.Nodes.{Node, Nodes, node, put}

abbrev pub Cells : Type 0
Cells = List (ℕ × AddressRange)

abbrev pub ranges : Cells → RangeList
ranges [] = []
ranges ((p, r) ∷ xs) = r ∷ ranges xs

abbrev pub owns : ℕ → Cells → Bool
owns q [] = false
owns q ((p, r) ∷ xs) = q == p || owns q xs

abbrev pub Distinct : Cells → Type 0
Distinct [] = Unit
Distinct ((p, r) ∷ xs) = (owns p xs ≡ false) × Distinct xs

-- The first node, or what stands behind the nodes; the last one, or what stands before them.
abbrev pub head_or : Cells → Option ℕ → Option ℕ
head_or [] after = after
head_or ((p, r) ∷ xs) after = some p

abbrev pub last_or : Cells → Option ℕ → Option ℕ
last_or [] before = before
last_or ((p, r) ∷ xs) before = last_or xs (some p)

-- The nodes are linked both ways, between `before` and `after`.
abbrev pub Seg : (ℕ → Option Node) → Option ℕ → Cells → Option ℕ → Type 0
Seg cell before [] after = Unit
Seg cell before ((p, r) ∷ xs) after =
    (cell p ≡ some (node r (head_or xs after) before)) × Seg cell (some p) xs after

-- The whole list: the nodes that the loop has passed, and those that are left.
pub record IsSplit (h : Nodes) (ys xs : Cells) : Type 0 where
  pub passed : Seg h.cell none ys (head_or xs none)
  pub left : Seg h.cell (last_or ys none) xs none
  pub first : h.first ≡ head_or ys (head_or xs none)
  pub last : h.last ≡ last_or xs (last_or ys none)
  pub distinct : Distinct (ys ++ xs)

abbrev pub IsList : Nodes → Cells → Type 0
IsList h xs = IsSplit h [] xs

-- A segment survives any change that spares its nodes.
pub Seg-frame :
    (c c' : ℕ → Option Node) (before : Option ℕ) (xs : Cells) (after : Option ℕ)
    → Seg c before xs after
    → ((q : ℕ) → owns q xs ≡ true → c' q ≡ c q)
    → Seg c' before xs after
Seg-frame c c' before [] after s same = tt
Seg-frame c c' before ((p, r) ∷ xs) after s same = (
  same p (ground arith) ∙ s.0,
  Seg-frame c c' (some p) xs after s.1 (λ q o. same q (ground arith)),
)

pub owns-append : (q : ℕ) (ys xs : Cells) → owns q (ys ++ xs) ≡ (owns q ys || owns q xs)
owns-append q [] xs = refl
owns-append q ((p, r) ∷ ys) xs = ground (arith, owns-append q ys xs)

pub Seg-owned :
    (c : ℕ → Option Node) (before : Option ℕ) (xs : Cells) (after : Option ℕ) (q : ℕ)
    → Seg c before xs after
    → c q ≡ none
    → owns q xs ≡ false
Seg-owned c before [] after q s e = refl
Seg-owned c before ((p, r) ∷ xs) after q s e = ground (arith, Seg-owned c (some p) xs after q s.1 e)

pub append_assoc : (ys zs xs : Cells) → (ys ++ zs) ++ xs ≡ ys ++ (zs ++ xs)
append_assoc [] zs xs = refl
append_assoc (y ∷ ys) zs xs = ap (λ l. y ∷ l) (append_assoc ys zs xs)

pub last_or-append :
    (ys : Cells) (p : ℕ) (r : AddressRange) (before : Option ℕ)
    → last_or (ys ++ (p, r) ∷ []) before ≡ some p
last_or-append [] p r before = refl
last_or-append ((q, s) ∷ ys) p r before = last_or-append ys p r (some q)

pub head_or-append :
    (ys xs : Cells) (after : Option ℕ) → head_or (ys ++ xs) after ≡ head_or ys (head_or xs after)
head_or-append [] xs after = refl
head_or-append (y ∷ ys) xs after = refl

pub Seg-append :
    (c : ℕ → Option Node) (before : Option ℕ) (ys xs : Cells) (after : Option ℕ)
    → Seg c before ys (head_or xs after)
    → Seg c (last_or ys before) xs after
    → Seg c before (ys ++ xs) after
Seg-append c before [] xs after s t = t
Seg-append c before ((p, r) ∷ ys) xs after s t =
    let same = head_or-append ys xs after in
    (s.0 ∙ ap (λ n. some (node r n before)) (sym same), Seg-append c (some p) ys xs after s.1 t)

pub ranges-append : (ys xs : Cells) → ranges (ys ++ xs) ≡ ranges ys ++ ranges xs
ranges-append [] xs = refl
ranges-append ((p, r) ∷ ys) xs = ap (λ l. r ∷ l) (ranges-append ys xs)

-- Two nodes of which one is in the segment and the other is not.
pub other_node : (p q : ℕ) (xs : Cells) → owns p xs ≡ false → owns q xs ≡ true → (q == p) ≡ false
other_node p q xs out i = elim (Bool-cases (q == p)) [
  | inl t ↦ let e : q ≡ p = ground arith in cc
  | inr t ↦ t
]

pub Seg-put :
    (h : Nodes) (p : ℕ) (n : Option Node) (before : Option ℕ) (xs : Cells) (after : Option ℕ)
    → owns p xs ≡ false
    → Seg h.cell before xs after
    → Seg (put p n h).cell before xs after
Seg-put h p n before xs after out s =
    Seg-frame h.cell (put p n h).cell before xs after s (λ q o. ground (arith, other_node p q xs))

pub Distinct-left : (ys xs : Cells) → Distinct (ys ++ xs) → Distinct ys
Distinct-left [] xs d = tt
Distinct-left ((p, r) ∷ ys) xs d = (ground (arith, owns-append p ys xs), Distinct-left ys xs d.1)

pub Distinct-right : (ys xs : Cells) → Distinct (ys ++ xs) → Distinct xs
Distinct-right [] xs d = d
Distinct-right (y ∷ ys) xs d = Distinct-right ys xs d.1

pub Distinct-apart :
    (ys xs : Cells) (q : ℕ) → Distinct (ys ++ xs) → owns q xs ≡ true → owns q ys ≡ false
Distinct-apart [] xs q d o = refl
Distinct-apart ((p, r) ∷ ys) xs q d o =
    let out : owns p xs ≡ false = ground (arith, owns-append p ys xs) in
    ground (arith, other_node p q xs, Distinct-apart ys xs q d.1)

pub Distinct-insert :
    (ys xs : Cells) (q : ℕ) (r : AddressRange)
    → Distinct (ys ++ xs)
    → owns q (ys ++ xs) ≡ false
    → Distinct (ys ++ (q, r) ∷ xs)
Distinct-insert [] xs q r d o = (o, d)
Distinct-insert ((p, t) ∷ ys) xs q r d o =
    let differ : (p == q) ≡ false = ground arith in
    (
      ground (arith, owns-append p ys xs, owns-append p ys ((q, r) ∷ xs)),
      Distinct-insert ys xs q r d.1 (ground arith),
    )

pub IsSplit-next :
    (h : Nodes) (ys : Cells) (p : ℕ) (r : AddressRange) (xs : Cells)
    → IsSplit h ys ((p, r) ∷ xs)
    → IsSplit h (ys ++ (p, r) ∷ []) xs
IsSplit-next h ys p r xs s =
    let at = last_or-append ys p r none in
    record {
      passed = Seg-append h.cell none ys ((p, r) ∷ []) (head_or xs none) s.passed (s.left.0, tt);
      left = subst (λ b. Seg h.cell b xs none) (sym at) s.left.1;
      first = s.first ∙ sym (head_or-append ys ((p, r) ∷ []) (head_or xs none));
      last = s.last ∙ ap (last_or xs) (sym at);
      distinct = subst Distinct (sym (append_assoc ys ((p, r) ∷ []) xs)) s.distinct;
    }

last_or-append_all :
    (ys xs : Cells) (before : Option ℕ) → last_or (ys ++ xs) before ≡ last_or xs (last_or ys before)
last_or-append_all [] xs before = refl
last_or-append_all ((p, r) ∷ ys) xs before = last_or-append_all ys xs (some p)

pub IsSplit-IsList : (h : Nodes) (ys xs : Cells) → IsSplit h ys xs → IsList h (ys ++ xs)
IsSplit-IsList h ys xs s = record {
  passed = tt;
  left = Seg-append h.cell none ys xs none s.passed s.left;
  first = s.first ∙ sym (head_or-append ys xs none);
  last = s.last ∙ sym (last_or-append_all ys xs none);
  distinct = s.distinct;
}

pub owns-parts :
    (q : ℕ) (ys xs : Cells) → owns q (ys ++ xs) ≡ false → (owns q ys ≡ false) × (owns q xs ≡ false)
owns-parts q ys xs o = ground (arith, owns-append q ys xs)

pub owns-insert :
    (a : ℕ) (ys : Cells) (q : ℕ) (r : AddressRange) (xs : Cells)
    → owns a (ys ++ (q, r) ∷ xs) ≡ false
    → (owns a ys ≡ false) × ((a == q) ≡ false) × (owns a xs ≡ false)
owns-insert a ys q r xs o = ground (arith, owns-append a ys ((q, r) ∷ xs))

pub Distinct-other :
    (ys xs : Cells) (q : ℕ) → Distinct (ys ++ xs) → owns q ys ≡ true → owns q xs ≡ false
Distinct-other ys xs q d o = ground (arith, Bool-cases (owns q xs), Distinct-apart ys xs q d)

pub put_self : (h : Nodes) (q : ℕ) (n : Option Node) → (put q n h).cell q ≡ n
put_self h q n = ground arith

pub put_other :
    (h : Nodes) (q : ℕ) (n : Option Node) (a : ℕ) → (a == q) ≡ false → (put q n h).cell a ≡ h.cell a
put_other h q n a d = ground arith

or_none :
    (q : ℕ) (ys xs : Cells) → owns q ys ≡ false → owns q xs ≡ false → owns q (ys ++ xs) ≡ false
or_none q ys xs y x = ground (arith, owns-append q ys xs)

-- A node that is not in use is in neither part of the list.
pub unused-owns :
    (h : Nodes) (ys xs : Cells) (q : ℕ)
    → IsSplit h ys xs
    → h.cell q ≡ none
    → owns q (ys ++ xs) ≡ false
unused-owns h ys xs q s e =
    or_none q ys xs (Seg-owned h.cell none ys (head_or xs none) q s.passed e)
      (Seg-owned h.cell (last_or ys none) xs none q s.left e)
