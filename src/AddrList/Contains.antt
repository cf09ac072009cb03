-- ===== src/AddrList/Contains.antt =====
-- Which addresses a list covers after `add_address_range` and `remove_address_range`.
use v6502c.Base.{ℕ, ◌+◌, ◌<◌, ◌≤◌, ◌≡◌, refl, true, false, not, ◌&&◌, ◌||◌, [], ◌∷◌, arith}
use v6502c.AddrList.{
  AddressRange, RangeList, IsChain, IsApart, add_address_range, remove_node, remove_address_range,
  is_address_in_range, is_address_in_range_list,
}

-- Where a node can be allocated, adding a range makes exactly its addresses covered beside those
-- that were: for every list, sorted or not, and for every range, an empty one (its end before its
-- start) included.
pub is_address_in_range_list-add :
    (l : RangeList) (ar : AddressRange) (a : ℕ)
    → is_address_in_range_list (add_address_range true l ar) a
      ≡ (is_address_in_range ar a || is_address_in_range_list l a)
unfolding add_address_range is_address_in_range is_address_in_range_list
is_address_in_range_list-add [] ar a = ground arith
is_address_in_range_list-add (r ∷ rest) ar a =
    ground (arith, is_address_in_range_list-add rest ar a)

-- A chain covers nothing below its first possible start.
not_in_range_list_below :
    (lo : ℕ) (l : RangeList) (a : ℕ) → IsChain lo l → a < lo → is_address_in_range_list l a ≡ false
unfolding is_address_in_range is_address_in_range_list
not_in_range_list_below lo [] a c h = refl
not_in_range_list_below lo (r ∷ rest) a c h =
    ground (arith, not_in_range_list_below (r.end + 2) rest a c.3)

remove_node_lem :
    (r : AddressRange) (rest rest' : RangeList) (ar : AddressRange) (a : ℕ)
    → r.start ≤ r.end
    → r.end < 0x10000
    → (a < r.end + 2 → is_address_in_range_list rest a ≡ false)
    → is_address_in_range_list rest' a
      ≡ (is_address_in_range_list rest a && not (is_address_in_range ar a))
    → is_address_in_range_list (remove_node true r rest rest' ar) a
      ≡ (is_address_in_range_list (r ∷ rest) a && not (is_address_in_range ar a))
unfolding remove_node is_address_in_range is_address_in_range_list
remove_node_lem r rest rest' ar a v w below same = ground arith

remove_chain :
    (lo : ℕ) (l : RangeList) (ar : AddressRange) (a : ℕ)
    → IsChain lo l
    → is_address_in_range_list (remove_address_range true l ar) a
      ≡ (is_address_in_range_list l a && not (is_address_in_range ar a))
unfolding remove_address_range is_address_in_range_list
remove_chain lo [] ar a c = refl
remove_chain lo (r ∷ rest) ar a c =
    remove_node_lem r rest _ ar a c.1 c.2 (not_in_range_list_below (r.end + 2) rest a c.3)
      (remove_chain (r.end + 2) rest ar a c.3)

-- Of a list whose ranges are nonempty, sorted and apart, removing a range uncovers exactly its
-- addresses, where a node can be allocated.
pub is_address_in_range_list-remove :
    (l : RangeList) (ar : AddressRange) (a : ℕ)
    → IsApart l
    → is_address_in_range_list (remove_address_range true l ar) a
      ≡ (is_address_in_range_list l a && not (is_address_in_range ar a))
is_address_in_range_list-remove l ar a c = remove_chain 0 l ar a c
