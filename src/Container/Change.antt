-- ===== src/Container/Change.antt =====
-- Putting items into a container and taking them out: src/container.cpp, and the weight of an item
-- of src/item.cpp. The container comes with the containers around it, from the inside out: each with
-- the items it holds beside the one further in. Weights and counts are uint32_t, the negative of one
-- its two's complement. `none` is an index or address that is not there.
pub mod Weighed
mod Tests
use xynera_ots.Prelude.{
  ℕ, zero, suc, ◌+◌, ◌-◌, ◌*◌, ◌%◌, ◌^◌, Bool, true, false, ◌&&◌, not, Option, none, some, List, [],
  ◌∷◌, ◌++◌, map, ltb, leb, ◌==◌, if◌then◌else◌,
}

-- `contents` is the totalWeight of an item that is a container, and 0 for others.
pub record Item : Type 0 where
  pub address : ℕ
  pub base_weight : ℕ
  pub stackable : Bool
  pub count : ℕ
  pub contents : ℕ

-- A container around another one.
pub record Around : Type 0 where
  pub own_weight : ℕ
  pub beside : List Item
  pub total : ℕ

pub record Container : Type 0 where
  pub max_size : ℕ
  pub this_weight : ℕ
  pub itemlist : List Item
  pub total_weight : ℕ
  pub ammo_count : ℕ
  pub around : List Around

abbrev pub u32 : ℕ → ℕ
u32 n = n % 2 ^ 32

abbrev pub negative : ℕ → ℕ
negative n = u32 (2 ^ 32 - u32 n)

unfoldable pub item_weight : Item → ℕ
item_weight i = u32 (
    i.contents
    + (if i.stackable
        then i.base_weight * (if leb 1 i.count then i.count else 1)
        else i.base_weight))

abbrev pub add_total : ℕ → Around → Around
add_total diff a = record a { total = u32 (a.total + diff) }

-- updateItemWeight of the container and of those around it.
abbrev pub update_item_weight : ℕ → Container → Container
update_item_weight diff c = record c {
  total_weight = u32 (c.total_weight + diff);
  around = map (add_total diff) c.around;
}

unfoldable pub internal_add_thing : Item → Container → Container
unfolding item_weight
internal_add_thing i c =
    let d = update_item_weight (item_weight i) (record c { itemlist = i ∷ c.itemlist }) in
    record d { ammo_count = u32 (d.ammo_count + i.count) }

-- `index` is the bit pattern of an int32_t.
unfoldable pub add_thing : ℕ → Item → Container → Container
unfolding internal_add_thing
add_thing index i c =
    if leb (u32 (c.max_size + 2 ^ 31)) (u32 (index + 2 ^ 31)) then c else internal_add_thing i c

unfoldable pub add_item_back : Item → Container → Container
unfolding item_weight
add_item_back i c =
    let d = update_item_weight (item_weight i) (record c { itemlist = c.itemlist ++ i ∷ [] }) in
    record d { ammo_count = u32 (d.ammo_count + i.count) }

-- The end of the loop of unserializeItemNode.
unfoldable pub load_item : Item → Container → Container
unfolding item_weight
load_item i c = update_item_weight (item_weight i) (record c { itemlist = c.itemlist ++ i ∷ [] })

-- The items before one of them, it, and those behind it.
pub record Split : Type 0 where
  pub before : List Item
  pub found : Item
  pub after : List Item

abbrev pub prepend : Item → Option Split → Option Split
prepend i none = none
prepend i (some s) = some (record s { before = i ∷ s.before })

-- getThingIndex, and the place in the list.
unfoldable pub split_at_address : ℕ → List Item → Option Split
split_at_address a [] = none
split_at_address a (i ∷ is) =
    let rest = prepend i (split_at_address a is) in
    if i.address == a then some (record { before = []; found = i; after = is }) else rest

-- getItemByIndex, and the place in the list.
unfoldable pub split_at_index : ℕ → List Item → Option Split
split_at_index n [] = none
split_at_index zero (i ∷ is) = some (record { before = []; found = i; after = is })
split_at_index (suc n) (i ∷ is) = prepend i (split_at_index n is)

-- Another item in an item's place, as updateThing, replaceThing and removeThing have it. `count` is
-- what is added to the ammunition for it.
unfoldable pub put_at : ℕ → Item → Container → Split → Container
unfolding item_weight
put_at count y c s =
    let d =
      update_item_weight (u32 (negative (item_weight s.found) + item_weight y))
        (record c { itemlist = s.before ++ y ∷ s.after }) in
    record d { ammo_count = u32 (c.ammo_count + count + negative s.found.count) }

unfoldable pub update_found : (Item → Item) → ℕ → Container → Option Split → Container
unfolding put_at
update_found changed count c none = c
update_found changed count c (some s) = put_at count (changed s.found) c s

-- `changed` is what setID and setSubType make of an item.
unfoldable pub update_thing : (Item → Item) → ℕ → ℕ → Container → Container
unfolding update_found split_at_address
update_thing changed a count c = update_found changed count c (split_at_address a c.itemlist)

unfoldable pub replace_found : Item → Container → Option Split → Container
unfolding put_at
replace_found y c none = c
replace_found y c (some s) = put_at y.count y c s

unfoldable pub replace_thing : ℕ → Item → Container → Container
unfolding replace_found split_at_index
replace_thing index y c = replace_found y c (split_at_index index c.itemlist)

-- `newCount` of removeThing.
abbrev pub left_of : ℕ → ℕ → ℕ
left_of n count = let d = u32 (n + 2 ^ 32 - u32 count) in if ltb d (2 ^ 31) then d % 2 ^ 8 else 0

unfoldable pub erase_at : Container → Split → Container
unfolding item_weight
erase_at c s =
    let d =
      update_item_weight (negative (item_weight s.found))
        (record c { itemlist = s.before ++ s.after }) in
    record d { ammo_count = u32 (d.ammo_count + negative s.found.count) }

unfoldable pub remove_found : ℕ → Container → Option Split → Container
unfolding put_at erase_at
remove_found count c none = c
remove_found count c (some s) =
    let n = left_of s.found.count count in
    if s.found.stackable && not (s.found.count == count)
    then put_at n (record s.found { count = n }) c s
    else erase_at c s

unfoldable pub remove_thing : ℕ → ℕ → Container → Container
unfolding remove_found split_at_address
remove_thing a count c = remove_found count c (split_at_address a c.itemlist)

pub data Change : Type 0 where
  adds : ℕ → Item → Change
  internal_adds : Item → Change
  adds_back : Item → Change
  updates : (Item → Item) → ℕ → ℕ → Change
  replaces : ℕ → Item → Change
  removes : ℕ → ℕ → Change

unfoldable pub apply_change : Change → Container → Container
unfolding add_thing internal_add_thing add_item_back update_thing replace_thing remove_thing
apply_change (adds index i) c = add_thing index i c
apply_change (internal_adds i) c = internal_add_thing i c
apply_change (adds_back i) c = add_item_back i c
apply_change (updates changed a count) c = update_thing changed a count c
apply_change (replaces index i) c = replace_thing index i c
apply_change (removes a count) c = remove_thing a count c

unfoldable pub apply_changes : List Change → Container → Container
unfolding apply_change
apply_changes [] c = c
apply_changes (x ∷ xs) c = apply_changes xs (apply_change x c)
