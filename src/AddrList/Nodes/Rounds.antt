-- ===== src/AddrList/Nodes/Rounds.antt =====
-- One round of the loop that removes a range from the nodes, on each of its branches.
use v6502c.Base.{
  ℕ, ◌+◌, ◌≡◌, ◌∙◌, refl, sym, ap, subst, Bool, true, false, ◌&&◌, Option, none, some, [], ◌∷◌,
  ◌++◌,
}
use v6502c.Base.{ltb, leb, if◌then◌else◌, u16}
use v6502c.AddrList.{AddressRange, RangeList, range, remove_node, remove_address_range}
use v6502c.AddrList.Nodes.{Nodes, node, put, and_then, delete_node, split_node}
use v6502c.AddrList.Nodes.Seg.{
  Cells, ranges, owns, head_or, last_or, IsSplit, IsList, unused-owns, append_assoc, IsSplit-next,
  IsSplit-IsList,
}
use v6502c.AddrList.Nodes.Changes.{
  has_room, IsFresh, owns-change, owns-without, change-IsSplit, SameHeap, SameHeap-same,
  SameHeap-fresh,
}
use v6502c.AddrList.Nodes.Deletes.{delete-IsSplit}
use v6502c.AddrList.Nodes.Splits.{halve-IsSplit}

-- What the loop makes of the list: its ranges, and the nodes it has changed and freed.
abbrev pub Removed : Nodes → Cells → Cells → Option ℕ → AddressRange → Option Nodes → Type 0
Removed h ys xs fresh ar result =
    (h' : Nodes) × (zs : Cells) × (result ≡ some h')
    × IsList h' (ys ++ zs)
    × (ranges zs ≡ remove_address_range (has_room fresh) (ranges xs) ar)
    × SameHeap (ys ++ xs) (ys ++ zs) h h'

-- The node at `p` stays, with the range `r'`, and the loop goes on behind it.
pub keep-Removed :
    (h h1 : Nodes) (ys : Cells) (p : ℕ) (r r' : AddressRange) (xs : Cells) (fresh : Option ℕ)
    (ar : AddressRange) (result : Option Nodes)
    → remove_address_range (has_room fresh) (r ∷ ranges xs) ar
      ≡ r' ∷ remove_address_range (has_room fresh) (ranges xs) ar
    → SameHeap (ys ++ (p, r) ∷ xs) (ys ++ (p, r') ∷ xs) h h1
    → Removed h1 (ys ++ (p, r') ∷ []) xs fresh ar result
    → Removed h ys ((p, r) ∷ xs) fresh ar result
keep-Removed h h1 ys p r r' xs fresh ar result e step (h', zs, path, list, rest, frees) =
    let assoc = append_assoc ys ((p, r') ∷ []) in
    (
      h',
      (p, r') ∷ zs,
      path,
      subst (IsList h') (assoc zs) list,
      ap (λ l. r' ∷ l) rest ∙ sym e,
      λ q.
          step q
          ∙ (subst (λ l. SameHeap l (ys ++ (p, r') ∷ zs) h1 h') (assoc xs)
                (subst (λ l. SameHeap ((ys ++ (p, r') ∷ []) ++ xs) l h1 h') (assoc zs) frees))
              q,
    )

-- The node at `p` has gone.
pub drop-Removed :
    (h h1 : Nodes) (ys : Cells) (p : ℕ) (r : AddressRange) (xs : Cells) (fresh : Option ℕ)
    (ar : AddressRange) (result : Option Nodes)
    → remove_address_range (has_room fresh) (r ∷ ranges xs) ar
      ≡ remove_address_range (has_room fresh) (ranges xs) ar
    → SameHeap (ys ++ (p, r) ∷ xs) (ys ++ xs) h h1
    → Removed h1 ys xs fresh ar result
    → Removed h ys ((p, r) ∷ xs) fresh ar result
drop-Removed h h1 ys p r xs fresh ar result e step (h', zs, path, list, rest, frees) =
    (h', zs, path, list, rest ∙ sym e, λ q. step q ∙ frees q)

-- The loop ends here, without a change.
pub stop-Removed :
    (h : Nodes) (ys xs : Cells) (fresh : Option ℕ) (ar : AddressRange)
    → IsSplit h ys xs
    → remove_address_range (has_room fresh) (ranges xs) ar ≡ ranges xs
    → Removed h ys xs fresh ar (some h)
stop-Removed h ys xs fresh ar s e =
    (h, xs, refl, IsSplit-IsList h ys xs s, sym e, SameHeap-same h (ys ++ xs))

-- The node at `p` is split in two, unless malloc has failed.
pub split-Removed :
    (h : Nodes) (ys : Cells) (p : ℕ) (r : AddressRange) (xs : Cells) (fresh : Option ℕ)
    (ar : AddressRange)
    → IsSplit h ys ((p, r) ∷ xs)
    → IsFresh h fresh
    → remove_address_range (has_room fresh) (r ∷ ranges xs) ar ≡ (
        if has_room fresh
        then range r.start (u16 (ar.start + 0xFFFF)) ∷ range (u16 (ar.end + 1)) r.end ∷ ranges xs
        else r ∷ ranges xs)
    → Removed h ys
        ((p, r) ∷ xs)
        fresh
        ar
        (split_node fresh p (node r (head_or xs none) (last_or ys none)) ar h)
unfolding split_node
split-Removed h ys p r xs none ar s f e = stop-Removed h ys ((p, r) ∷ xs) none ar s e
split-Removed h ys p r xs (some q) ar s f e =
    let e' = u16 (ar.start + 0xFFFF) in
    let b = range (u16 (ar.end + 1)) r.end in
    let (h', path, split, same) = halve-IsSplit h ys p r e' q b xs s f in
    let zs = (p, range r.start e') ∷ (q, b) ∷ xs in
    (h', zs, path, IsSplit-IsList h' ys zs split, sym e, same)

-- Where the loop goes on after a change, malloc still returns no node in use.
still-IsFresh :
    (h h1 : Nodes) (ys xs l : Cells) (fresh : Option ℕ)
    → IsSplit h ys xs
    → ((q : ℕ) → owns q (ys ++ xs) ≡ false → owns q l ≡ false)
    → SameHeap (ys ++ xs) l h h1
    → IsFresh h fresh
    → IsFresh h1 fresh
still-IsFresh h h1 ys xs l none s w frees f = tt
still-IsFresh h h1 ys xs l (some q) s w frees f =
    SameHeap-fresh (ys ++ xs) l h h1 q frees (w q (unused-owns h ys xs q s f)) f

-- One change of the node at `p`, and the loop from there.
pub change-Removed :
    (h : Nodes) (ys : Cells) (p : ℕ) (r r' : AddressRange) (xs : Cells) (fresh : Option ℕ)
    (ar : AddressRange) (next : Nodes → Option Nodes)
    → IsSplit h ys ((p, r) ∷ xs)
    → IsFresh h fresh
    → remove_address_range (has_room fresh) (r ∷ ranges xs) ar
      ≡ r' ∷ remove_address_range (has_room fresh) (ranges xs) ar
    → ((h1 : Nodes) (ys1 : Cells)
        → IsSplit h1 ys1 xs
        → IsFresh h1 fresh
        → Removed h1 ys1 xs fresh ar (next h1))
    → Removed h ys
        ((p, r) ∷ xs)
        fresh
        ar
        (next (put p (some (node r' (head_or xs none) (last_or ys none))) h))
change-Removed h ys p r r' xs fresh ar next s f e go =
    let h1 = put p (some (node r' (head_or xs none) (last_or ys none))) h in
    let (split, same) = change-IsSplit h ys p r r' xs s in
    let l' = ys ++ (p, r') ∷ xs in
    let fresh1 =
      still-IsFresh h h1 ys ((p, r) ∷ xs) l' fresh s (λ q o. owns-change q ys p r r' xs o) same f in
    keep-Removed h h1 ys p r r' xs fresh ar (next h1) e same
      (go h1 (ys ++ (p, r') ∷ []) (IsSplit-next h1 ys p r' xs split) fresh1)

-- The node at `p` is taken out, and the loop goes on.
pub delete-Removed :
    (h : Nodes) (ys : Cells) (p : ℕ) (r : AddressRange) (xs : Cells) (fresh : Option ℕ)
    (ar : AddressRange) (next : Nodes → Option Nodes)
    → IsSplit h ys ((p, r) ∷ xs)
    → IsFresh h fresh
    → remove_address_range (has_room fresh) (r ∷ ranges xs) ar
      ≡ remove_address_range (has_room fresh) (ranges xs) ar
    → ((h1 : Nodes) (ys1 : Cells)
        → IsSplit h1 ys1 xs
        → IsFresh h1 fresh
        → Removed h1 ys1 xs fresh ar (next h1))
    → Removed h ys
        ((p, r) ∷ xs)
        fresh
        ar
        (and_then (delete_node p (node r (head_or xs none) (last_or ys none)) h) next)
delete-Removed h ys p r xs fresh ar next s f e go =
    let (h1, path, split, frees) = delete-IsSplit h ys p r xs s in
    let fresh1 =
      still-IsFresh h h1 ys ((p, r) ∷ xs) (ys ++ xs) fresh s (λ q o. owns-without q ys p r xs o)
        frees f in
    rw path (drop-Removed h h1 ys p r xs fresh ar (next h1) e frees (go h1 ys split fresh1))

pub range_none : (room : Bool) (ar : AddressRange) → remove_address_range room [] ar ≡ []
unfolding remove_address_range
range_none room ar = refl

-- The branches of a round, on the list of ranges.
module _ (room : Bool) (r : AddressRange) (rest : RangeList) (ar : AddressRange) where
  pub range_before : ltb ar.end r.start ≡ true → remove_address_range room (r ∷ rest) ar ≡ r ∷ rest
  unfolding remove_address_range remove_node
  range_before a = rw a refl

  pub range_behind :
      ltb ar.end r.start ≡ false
      → ltb r.end ar.start ≡ true
      → remove_address_range room (r ∷ rest) ar ≡ r ∷ remove_address_range room rest ar
  unfolding remove_address_range remove_node
  range_behind a b = rw (a, b) refl

  pub range_covers :
      ltb ar.end r.start ≡ false
      → ltb r.end ar.start ≡ false
      → leb ar.start r.start && leb r.end ar.end ≡ true
      → remove_address_range room (r ∷ rest) ar ≡ remove_address_range room rest ar
  unfolding remove_address_range remove_node
  range_covers a b c = rw (a, b, c) refl

  pub range_inside :
      ltb ar.end r.start ≡ false
      → ltb r.end ar.start ≡ false
      → leb ar.start r.start && leb r.end ar.end ≡ false
      → ltb r.start ar.start && ltb ar.end r.end ≡ true
      → remove_address_range room (r ∷ rest) ar ≡ (
          if room
          then range r.start (u16 (ar.start + 0xFFFF)) ∷ range (u16 (ar.end + 1)) r.end ∷ rest
          else r ∷ rest)
  unfolding remove_address_range remove_node
  range_inside a b c d = rw (a, b, c, d) refl

  pub range_over_start :
      ltb ar.end r.start ≡ false
      → ltb r.end ar.start ≡ false
      → leb ar.start r.start && leb r.end ar.end ≡ false
      → ltb r.start ar.start && ltb ar.end r.end ≡ false
      → leb ar.start r.start ≡ true
      → remove_address_range room (r ∷ rest) ar
        ≡ range (u16 (ar.end + 1)) r.end ∷ remove_address_range room rest ar
  unfolding remove_address_range remove_node
  range_over_start a b c d e = rw (a, b, c, d, e) refl

  pub range_over_end :
      ltb ar.end r.start ≡ false
      → ltb r.end ar.start ≡ false
      → leb ar.start r.start && leb r.end ar.end ≡ false
      → ltb r.start ar.start && ltb ar.end r.end ≡ false
      → leb ar.start r.start ≡ false
      → remove_address_range room (r ∷ rest) ar
        ≡ range r.start (u16 (ar.start + 0xFFFF)) ∷ remove_address_range room rest ar
  unfolding remove_address_range remove_node
  range_over_end a b c d e = rw (a, b, c, d, e) refl
