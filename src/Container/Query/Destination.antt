-- ===== src/Container/Query/Destination.antt =====
-- queryRemove and queryDestination of src/container.cpp. `equals` is Item::equals.
pub mod Stacks
pub mod Removal
use xynera_ots.Prelude.{
  ℕ, suc, ◌+◌, ◌%◌, ◌^◌, Bool, true, false, ◌&&◌, ◌||◌, not, Option, none, some, List, [], ◌∷◌, ltb,
  leb, ◌==◌, if◌then◌else◌,
}
use xynera_ots.Container.Query.{
  ReturnValue, no_error, not_possible, not_moveable, player_is_not_invited, Item, creature, of_item,
  Thing, thing_address, Cylinder, Container, wherever, flag_nolimit, flag_ignorenotmoveable,
  flag_ignoreautostack, has_bit_set, get_item_by_index, get_thing_index, get_top_parent, is_barred,
}
use xynera_ots.Container.Query.Count.{takes_more}

-- queryRemove from the item on.
unfoldable pub remove_item : Bool → Container → Item → ℕ → ℕ → Option ℕ → ReturnValue
unfolding has_bit_set get_top_parent is_barred
remove_item only_invited c i count flags actor =
    if count == 0 || (i.stackable && ltb i.count count)
    then not_possible
    else (if not i.moveable && not (has_bit_set flag_ignorenotmoveable flags)
        then not_moveable
        else (if is_barred only_invited actor (get_top_parent c)
            then player_is_not_invited
            else no_error))

-- The item of a thing that is at an index, -1 being `none`.
unfoldable pub remove_found : Bool → Container → Option ℕ → Thing → ℕ → ℕ → Option ℕ → ReturnValue
unfolding remove_item
remove_found only_invited c none thing count flags actor = not_possible
remove_found only_invited c (some n) (creature a) count flags actor = not_possible
remove_found only_invited c (some n) (of_item i) count flags actor =
    remove_item only_invited c i count flags actor

unfoldable pub query_remove : Bool → Container → Thing → ℕ → ℕ → Option ℕ → ReturnValue
unfolding remove_found get_thing_index
query_remove only_invited c thing count flags actor =
    remove_found only_invited c (get_thing_index (thing_address thing) c.itemlist) thing count flags
      actor

-- Where queryDestination sends a thing.
pub data Target : Type 0 where
  this_container : Target
  parent_container : Cylinder → Target
  sub_cylinder : Item → Target

pub record Destination : Type 0 where
  pub target : Target
  pub index : ℕ
  pub dest_item : Option Item

abbrev pub or_else : Option Item → Option Item → Option Item
or_else none o = o
or_else (some x) o = some x

-- `index >= capacity()` of int32_t.
unfoldable pub beyond : ℕ → ℕ → Bool
beyond index max_size = leb ((max_size + 2 ^ 31) % 2 ^ 32) ((index + 2 ^ 31) % 2 ^ 32)

abbrev pub move_up : List Cylinder → Target
move_up [] = this_container
move_up (p ∷ ps) = if p.container then parent_container p else this_container

-- The search for an item to stack with, from index `n` on.
unfoldable pub find_stack : (Item → Item → Bool) → Item → ℕ → List Item → Option (ℕ × Item)
find_stack equals i n [] = none
find_stack equals i n (x ∷ xs) =
    let rest = find_stack equals i (n + 1) xs in if takes_more equals i x then some (n, x) else rest

abbrev pub can_stack : (Item → Item → Bool) → Item → Option Item → Bool
can_stack equals i none = false
can_stack equals i (some x) = equals x i && ltb x.count 100

unfoldable pub stacked : ℕ → Option Item → Option (ℕ × Item) → Destination
stacked index dest none = record { target = this_container; index = index; dest_item = dest }
stacked index dest (some (n, x)) = record { target = this_container; index = n; dest_item = some x }

-- The part of queryDestination from `autoStack` on.
unfoldable pub auto_stack :
    (Item → Item → Bool) → Container → Item → ℕ → ℕ → Option Item → Destination
unfolding has_bit_set stacked find_stack
auto_stack equals c i flags index dest =
    let found = stacked index dest (find_stack equals i 0 c.itemlist) in
    if not (has_bit_set flag_ignoreautostack flags)
      && (i.stackable
          && (not (i.parent == c.self.cylinder_address) && not (can_stack equals i dest)))
    then found
    else record { target = this_container; index = index; dest_item = dest }

-- The part with an index other than INDEX_WHEREEVER, whose item is `dest`.
unfoldable pub at_index :
    (Item → Item → Bool) → Container → Item → ℕ → ℕ → Option Item → Destination
unfolding auto_stack
at_index equals c i flags index none = auto_stack equals c i flags index none
at_index equals c i flags index (some x) =
    if x.cylinder
    then record { target = sub_cylinder x; index = wherever; dest_item = none }
    else auto_stack equals c i flags index (some x)

unfoldable pub destination :
    (Item → Item → Bool) → Container → Thing → ℕ → ℕ → Option Item → Destination
unfolding auto_stack at_index get_item_by_index
destination equals c (creature a) flags index dest = record {
  target = this_container;
  index = index;
  dest_item = dest;
}
destination equals c (of_item i) flags index dest =
    if index == wherever
    then auto_stack equals c i flags index dest
    else at_index equals c i flags index (or_else (get_item_by_index index c.itemlist) dest)

-- The part of queryDestination behind the lock.
unfoldable pub unlocked_destination :
    (Item → Item → Bool) → Container → ℕ → Thing → Option Item → ℕ → Destination
unfolding destination beyond
unlocked_destination equals c index thing dest flags =
    if index == 254
    then record { target = move_up c.parents; index = wherever; dest_item = none }
    else (if index == 255 || beyond index c.max_size
        then destination equals c thing flags wherever none
        else destination equals c thing flags index dest)

unfoldable pub query_destination :
    (Item → Item → Bool) → Container → ℕ → Thing → Option Item → ℕ → Destination
unfolding unlocked_destination has_bit_set
query_destination equals c index thing dest flags =
    if not c.unlocked && not (has_bit_set flag_nolimit flags)
    then record { target = this_container; index = index; dest_item = none }
    else unlocked_destination equals c index thing dest flags
