-- ===== src/AddrList/Apart.antt =====
-- When the list stays a sorted list of ranges that neither overlap nor adjoin.
use v6502c.Base.{
  ℕ, ◌+◌, ◌<◌, ◌≤◌, ◌≡◌, ◌↔◌, refl, ap, sym, ◌∙◌, true, false, [], ◌∷◌, arith, Bool-cases, inl, inr,
}
use v6502c.AddrList.Contains.{is_address_in_range_list-remove}
use v6502c.Base.{leb, ltb, u16, if◌then◌else◌, ◌&&◌}
use v6502c.AddrList.{AddressRange, RangeList, IsChain, IsApart, merge, add_address_range}
use v6502c.AddrList.{
  remove_node, remove_address_range, is_address_in_range, is_address_in_range_list, range,
}

-- How many ranges of the list the new range overlaps or adjoins.
abbrev pub touching : RangeList → AddressRange → ℕ
touching [] ar = 0
touching (r ∷ rest) ar =
    (if leb ar.start (r.end + 1) && leb r.start (ar.end + 1) then 1 else 0) + touching rest ar

touching_below :
    (lo : ℕ) (l : RangeList) (ar : AddressRange)
    → IsChain lo l
    → ar.end + 1 < lo
    → touching l ar ≡ 0
touching_below lo [] ar c h = refl
touching_below lo (r ∷ rest) ar c h = ground (arith, touching_below (r.end + 2) rest ar c.3)

-- A chain is a chain from any earlier start, and from a later one that its first range allows.
IsChain-touching :
    (lo : ℕ) (l : RangeList) (ar : AddressRange)
    → IsChain lo l
    → ar.start < lo
    → ar.start ≤ ar.end
    → IsChain (ar.end + 2) l ↔ (touching l ar ≡ 0)
IsChain-touching lo [] ar c h v = ground arith
IsChain-touching lo (r ∷ rest) ar c h v = ground (arith, touching_below (r.end + 2) rest ar c.3)

add-IsChain :
    (lo : ℕ) (l : RangeList) (ar : AddressRange)
    → IsChain lo l
    → lo ≤ ar.start
    → ar.start ≤ ar.end
    → ar.end < 0x10000
    → IsChain lo (add_address_range true l ar) ↔ (touching l ar ≤ 1)
unfolding add_address_range
add-IsChain lo [] ar c h v w = ground arith
add-IsChain lo (r ∷ rest) ar c h v w = ground (
  arith,
  touching_below (r.end + 2) rest ar c.3,
  IsChain-touching (r.end + 2) rest ar c.3,
  add-IsChain (r.end + 2) rest ar c.3,
)

-- Adding a nonempty range to a list of ranges that are sorted and apart leaves it so exactly if
-- the new range touches at most one of them: the code does not join two ranges that the new one
-- bridges.
pub add-IsApart_iff :
    (l : RangeList) (ar : AddressRange)
    → IsApart l
    → ar.start ≤ ar.end
    → ar.end < 0x10000
    → IsApart (add_address_range true l ar) ↔ (touching l ar ≤ 1)
add-IsApart_iff l ar c v w = add-IsChain 0 l ar c (omega arith) v w

IsChain-weaken : (lo hi : ℕ) (l : RangeList) → lo ≤ hi → IsChain hi l → IsChain lo l
IsChain-weaken lo hi [] h c = tt
IsChain-weaken lo hi (r ∷ rest) h c = (omega arith, c.1, c.2, c.3)

remove_node-IsChain :
    (lo : ℕ) (r : AddressRange) (rest rest' : RangeList) (ar : AddressRange)
    → IsChain lo (r ∷ rest)
    → IsChain (r.end + 2) rest'
    → ar.start ≤ ar.end
    → IsChain lo (remove_node true r rest rest' ar)
unfolding remove_node
remove_node-IsChain lo r rest rest' ar c c' v = ground (
  arith,
  IsChain-weaken lo (r.end + 2) rest',
  IsChain-weaken (u16 (ar.start + 0xFFFF) + 2) (r.end + 2) rest',
)

remove-IsChain :
    (lo : ℕ) (l : RangeList) (ar : AddressRange)
    → IsChain lo l
    → ar.start ≤ ar.end
    → IsChain lo (remove_address_range true l ar)
unfolding remove_address_range
remove-IsChain lo [] ar c v = tt
remove-IsChain lo (r ∷ rest) ar c v =
    remove_node-IsChain lo r rest _ ar c (remove-IsChain (r.end + 2) rest ar c.3 v) v

-- Removing a nonempty range keeps the ranges nonempty, sorted and apart.
pub remove-IsApart :
    (l : RangeList) (ar : AddressRange)
    → IsApart l
    → ar.start ≤ ar.end
    → IsApart (remove_address_range true l ar)
remove-IsApart l ar c v = remove-IsChain 0 l ar c v

add-bridging :
    (r1 r2 ar : AddressRange)
    → IsApart (r1 ∷ r2 ∷ [])
    → ar.start ≤ r1.end + 1
    → r2.start ≤ ar.end
    → add_address_range true (r1 ∷ r2 ∷ []) ar ≡ merge r1 ar ∷ r2 ∷ []
unfolding add_address_range
add-bridging r1 r2 ar c h1 h2 = ground arith

remove_inner :
    (r : AddressRange) (rest : RangeList) (p : ℕ)
    → r.start < p
    → p < r.end
    → is_address_in_range_list rest p ≡ true
    → is_address_in_range_list (remove_address_range true (r ∷ rest) (range p p)) p ≡ true
unfolding remove_address_range remove_node is_address_in_range_list is_address_in_range
remove_inner r rest p h1 h2 h3 = ground arith

remove_outer :
    (r : AddressRange) (rest : RangeList) (p : ℕ)
    → r.start < p
    → p ≡ r.end
    → p < 0x10000
    → is_address_in_range_list (remove_address_range true rest (range p p)) p ≡ false
    → is_address_in_range_list (remove_address_range true (r ∷ rest) (range p p)) p ≡ false
unfolding remove_address_range remove_node is_address_in_range_list is_address_in_range
remove_outer r rest p h1 h2 h3 h4 = ground arith

-- What is removed from one range is not in it.
remove_alone :
    (r : AddressRange) (p : ℕ)
    → r.start ≤ r.end
    → r.end < 0x10000
    → is_address_in_range_list (remove_address_range true (r ∷ []) (range p p)) p ≡ false
unfolding is_address_in_range
remove_alone r p h1 h2 =
    ground (arith, is_address_in_range_list-remove (r ∷ []) (range p p) p (omega arith, h1, h2, tt))

-- Removing is not the inverse of adding: after a new range bridges two others that are apart, an
-- address of the second that the new one covers, up to its end, stays covered when it is removed,
-- unless it is the end of the new range. The nodes that are needed can be allocated.
pub remove-bridged :
    (r1 r2 ar : AddressRange) (p : ℕ)
    → IsApart (r1 ∷ r2 ∷ [])
    → ar.start ≤ r1.end + 1
    → ar.end < 0x10000
    → r2.start ≤ p
    → p ≤ r2.end
    → p ≤ ar.end
    → is_address_in_range_list
        (remove_address_range true (add_address_range true (r1 ∷ r2 ∷ []) ar) (range p p))
        p
      ≡ ltb p ar.end
unfolding is_address_in_range_list is_address_in_range
remove-bridged r1 r2 ar p c h1 h2 h3 h4 h5 =
    ap (λ l. is_address_in_range_list (remove_address_range true l (range p p)) p)
      (add-bridging r1 r2 ar c h1 (omega arith))
    ∙ elim (Bool-cases (ltb p ar.end)) [
      | inl t ↦
          remove_inner (merge r1 ar) (r2 ∷ []) p (ground arith) (ground arith) (ground arith)
          ∙ sym t
      | inr t ↦
          remove_outer (merge r1 ar) (r2 ∷ []) p (ground arith) (ground arith) (omega arith)
            (remove_alone r2 p (omega arith) (omega arith))
          ∙ sym t
    ]
