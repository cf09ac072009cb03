-- ===== src/AddrList/Nodes/Sessions.antt =====
-- Many calls in a row: the heap from the start of the list to its end.
use v6502c.Base.{
  ℕ, suc, ◌+◌, ◌<◌, ◌≤◌, ◌≡◌, ◌∙◌, refl, sym, ap, subst, arith, Bool, Option, none, some, List, [],
  ◌∷◌,
}
use v6502c.Base.{length}
use v6502c.AddrList.{
  AddressRange, RangeList, init_address_range_list, add_address_range, remove_node,
  remove_address_range, is_address_in_range_list,
}
use v6502c.AddrList.Nodes.{
  Nodes, and_then, init_nodes, add_nodes, remove_nodes, covers_nodes, clear_nodes,
}
use v6502c.AddrList.Nodes.Seg.{Cells, ranges, IsList}
use v6502c.AddrList.Nodes.Changes.{has_room, IsFresh, SameHeap}
use v6502c.AddrList.Nodes.Adds.{add_nodes-refines}
use v6502c.AddrList.Nodes.Removes.{remove_nodes-refines}
use v6502c.AddrList.Nodes.Reads.{covers_nodes-refines, init_nodes-IsList, clear_nodes-refines}

-- A call that changes the list.
pub data ListEdit : Type 0 where
  adding : AddressRange → ListEdit
  removing : AddressRange → ListEdit

unfoldable pub edit_list : Bool → ListEdit → RangeList → RangeList
edit_list room (adding ar) l = add_address_range room l ar
edit_list room (removing ar) l = remove_address_range room l ar

-- The calls on the ranges alone, with the successes and failures of malloc.
unfoldable pub edit_lists : List Bool → List ListEdit → RangeList → RangeList
edit_lists rooms [] l = l
edit_lists [] (e ∷ es) l = l
edit_lists (room ∷ rooms) (e ∷ es) l = edit_lists rooms es (edit_list room e l)

unfoldable pub edit_nodes : ℕ → Option ℕ → ListEdit → Nodes → Option Nodes
edit_nodes fuel fresh (adding ar) h = add_nodes fuel fresh ar h
edit_nodes fuel fresh (removing ar) h = remove_nodes fuel fresh ar h

abbrev rooms_after : Option Nodes → (Nodes → List Bool) → List Bool
rooms_after none k = []
rooms_after (some h) k = k h

-- `malloc` is a function on the heap.
module _ (fuel : ℕ) (malloc : Nodes → Option ℕ) where
  unfoldable pub run_edits : List ListEdit → Nodes → Option Nodes
  run_edits [] h = some h
  run_edits (e ∷ es) h = and_then (edit_nodes fuel (malloc h) e h) (run_edits es)

  -- Where malloc has succeeded.
  unfoldable pub rooms_of : List ListEdit → Nodes → List Bool
  rooms_of [] h = []
  rooms_of (e ∷ es) h =
      has_room (malloc h) ∷ rooms_after (edit_nodes fuel (malloc h) e h) (rooms_of es)

length-ranges : (xs : Cells) → length (ranges xs) ≡ length xs
length-ranges [] = refl
length-ranges ((p, r) ∷ xs) = ap suc (length-ranges xs)

length-add :
    (room : Bool) (l : RangeList) (ar : AddressRange)
    → length (add_address_range room l ar) ≤ suc (length l)
unfolding add_address_range
length-add room [] ar = ground arith
length-add room (r ∷ l) ar = ground (arith, length-add room l ar)

length-remove :
    (room : Bool) (l : RangeList) (ar : AddressRange)
    → length (remove_address_range room l ar) ≤ suc (length l)
unfolding remove_address_range remove_node
length-remove room [] ar = ground arith
length-remove room (r ∷ l) ar = ground (arith, length-remove room l ar)

length-edit :
    (room : Bool) (e : ListEdit) (l : RangeList) → length (edit_list room e l) ≤ suc (length l)
unfolding edit_list
length-edit room (adding ar) l = length-add room l ar
length-edit room (removing ar) l = length-remove room l ar

length-edited :
    (xs ys : Cells) (room : Bool) (e : ListEdit)
    → ranges ys ≡ edit_list room e (ranges xs)
    → length ys ≤ suc (length xs)
length-edited xs ys room e same =
    subst (λ n. n ≤ suc (length xs)) (length-ranges ys)
      (subst (λ l. length l ≤ suc (length xs)) (sym same)
        (subst (λ n. length (edit_list room e (ranges xs)) ≤ suc n) (length-ranges xs)
          (length-edit room e (ranges xs))))

sum_grows : (x y m n : ℕ) → x ≤ suc y → m ≤ x + n → m ≤ y + suc n
sum_grows x y m n a b = omega arith

sum_fits : (x y n fuel : ℕ) → x ≤ suc y → y + suc n < fuel → x + n < fuel
sum_fits x y n fuel a b = omega arith

none_fits : (n fuel : ℕ) → n < fuel → 0 + n < fuel
none_fits n fuel b = omega arith

all_fits : (z n fuel : ℕ) → z ≤ 0 + n → n < fuel → z < fuel
all_fits z n fuel a b = omega arith

part_fits : (y n fuel : ℕ) → y + n < fuel → y < fuel
part_fits y n fuel b = omega arith

edit_nodes-refines :
    (fuel : ℕ) (h : Nodes) (xs : Cells) (fresh : Option ℕ) (e : ListEdit)
    → IsList h xs
    → IsFresh h fresh
    → length xs < fuel
    → (h' : Nodes) × (zs : Cells) × (edit_nodes fuel fresh e h ≡ some h')
      × IsList h' zs
      × (ranges zs ≡ edit_list (has_room fresh) e (ranges xs))
      × SameHeap xs zs h h'
unfolding edit_nodes edit_list
edit_nodes-refines fuel h xs fresh (adding ar) s f enough =
    add_nodes-refines fuel h xs fresh ar s f enough
edit_nodes-refines fuel h xs fresh (removing ar) s f enough =
    remove_nodes-refines fuel h xs fresh ar s f enough

module _ (fuel : ℕ) (malloc : Nodes → Option ℕ) (fresh : (h : Nodes) → IsFresh h (malloc h)) where
  run_edits-refines :
      (es : List ListEdit) (h : Nodes) (xs : Cells)
      → IsList h xs
      → length xs + length es < fuel
      → (h' : Nodes) × (zs : Cells) × (run_edits fuel malloc es h ≡ some h')
        × IsList h' zs
        × (ranges zs ≡ edit_lists (rooms_of fuel malloc es h) es (ranges xs))
        × (length zs ≤ length xs + length es)
        × SameHeap xs zs h h'
  unfolding run_edits edit_lists rooms_of
  run_edits-refines [] h xs s enough = (h, xs, refl, s, refl, omega arith, λ q. refl)
  run_edits-refines (e ∷ es) h xs s enough =
      let (h1, ys, path, list, same, heap) =
        edit_nodes-refines fuel h xs (malloc h) e s (fresh h)
          (part_fits (length xs) (suc (length es)) fuel enough) in
      let longer = length-edited xs ys (has_room (malloc h)) e same in
      let (h', zs, path', list', same', bound, heap') =
        run_edits-refines es h1 ys list
          (sum_fits (length ys) (length xs) (length es) fuel longer enough) in
      (
        h',
        zs,
        rw path path',
        list',
        rw path (same' ∙ ap (edit_lists (rooms_of fuel malloc es h1) es) same),
        sum_grows (length ys) (length xs) (length zs) (length es) longer bound,
        λ q. heap q ∙ heap' q,
      )

  -- A list is started in any heap, and ranges are added and removed. With fuel for one round more
  -- than there are calls, every call returns; the nodes then answer for every address as the list of
  -- ranges does after the same calls; and clearing them leaves every cell of the heap as it was before
  -- the list was started: no node is lost, freed twice or taken from elsewhere.
  pub run_edits-clear :
      (es : List ListEdit) (h : Nodes)
      → length es < fuel
      → (h1 h2 : Nodes) × (run_edits fuel malloc es (init_nodes h) ≡ some h1)
        × ((a : ℕ)
            → covers_nodes fuel a h1
              ≡ some (
                  is_address_in_range_list
                    (edit_lists (rooms_of fuel malloc es (init_nodes h)) es init_address_range_list)
                    a))
        × (clear_nodes fuel h1 ≡ some h2)
        × ((q : ℕ) → h2.cell q ≡ h.cell q)
  run_edits-clear es h enough =
      let (list, none_yet, heap) = init_nodes-IsList h in
      let (h1, zs, path, list1, same, bound, heap1) =
        run_edits-refines es (init_nodes h) [] list (none_fits (length es) fuel enough) in
      let within = all_fits (length zs) (length es) fuel bound enough in
      let (h2, cleared, list2, none_left, heap2) = clear_nodes-refines fuel h1 zs list1 within in
      (
        h1,
        h2,
        path,
        λ a.
            covers_nodes-refines fuel h1 zs a list1 within
            ∙ ap (λ l. some (is_address_in_range_list l a)) (same ∙ ap (edit_lists _ es) none_yet),
        cleared,
        λ q. sym (heap q ∙ heap1 q ∙ heap2 q),
      )
