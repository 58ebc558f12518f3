-- ===== src/Container/Query.antt =====
-- What may be put into a container and taken out: the queries of src/container.cpp, getTopParent and
-- the cylinders of src/item.cpp and src/cylinder.h. Items and cylinders are given by the answers they
-- have to what Container asks: `equals` and the `query_add` of a cylinder are theirs. An index is the
-- bit pattern of an int32_t. The addresses of things are numbers.
pub mod Add
pub mod Guards
pub mod Count
pub mod Destination
mod Tests
use xynera_ots.Prelude.{
  ℕ, zero, suc, ◌+◌, ◌-◌, ◌*◌, ◌/◌, ◌%◌, ◌^◌, Bool, true, false, ◌||◌, ◌&&◌, not, Option, none,
  some, List, [], ◌∷◌, ltb, leb, ◌==◌, if◌then◌else◌,
}

-- The values that Container returns, and the others by their number.
pub data ReturnValue : Type 0 where
  no_error not_possible player_is_not_invited not_moveable container_not_enough_room : ReturnValue
  cannot_pickup this_is_impossible cannot_move_item_is_not_store_item : ReturnValue
  item_cannot_be_moved_there quiver_ammo_only : ReturnValue
  other : ℕ → ReturnValue

abbrev pub is_no_error : ReturnValue → Bool
is_no_error no_error = true
is_no_error not_possible = false
is_no_error player_is_not_invited = false
is_no_error not_moveable = false
is_no_error container_not_enough_room = false
is_no_error cannot_pickup = false
is_no_error this_is_impossible = false
is_no_error cannot_move_item_is_not_store_item = false
is_no_error item_cannot_be_moved_there = false
is_no_error quiver_ammo_only = false
is_no_error (other n) = false

-- `parent` is the address of `getParent()`; `cylinder` tells whether the item is a cylinder.
pub record Item : Type 0 where
  pub address : ℕ
  pub parent : ℕ
  pub pickupable : Bool
  pub moveable : Bool
  pub stackable : Bool
  pub count : ℕ
  pub ammo : Bool
  pub store_item : Bool
  pub holds_store_items : Bool
  pub cylinder : Bool

pub data Thing : Type 0 where
  creature : ℕ → Thing
  of_item : Item → Thing

abbrev pub thing_address : Thing → ℕ
thing_address (creature a) = a
thing_address (of_item i) = i.address

-- `house` is `isInvited` of the house, if the cylinder's tile belongs to one. `query_add` takes the
-- item, the count, the flags and the actor.
pub record Cylinder : Type 0 where
  pub cylinder_address : ℕ
  pub container : Bool
  pub depot_chest : Bool
  pub inbox : Bool
  pub store_inbox : Bool
  pub has_creature : Bool
  pub house : Option (ℕ → Bool)
  pub query_add_there : Item → ℕ → ℕ → Option ℕ → ReturnValue

-- `parents` are `getParent()`, its parent, and so on.
pub record Container : Type 0 where
  pub self : Cylinder
  pub parents : List Cylinder
  pub unlocked : Bool
  pub pagination : Bool
  pub max_size : ℕ
  pub itemlist : List Item
  pub quiver : Bool
  pub container_store_item : Bool
  pub gold_pouch : Bool

abbrev pub wherever : ℕ
wherever = 2 ^ 32 - 1

-- Flags by their number, `1 << n`.
abbrev pub flag_nolimit : ℕ
flag_nolimit = 0

abbrev pub flag_childisowner : ℕ
flag_childisowner = 3

abbrev pub flag_ignorenotmoveable : ℕ
flag_ignorenotmoveable = 6

abbrev pub flag_ignorenotpickupable : ℕ
flag_ignorenotpickupable = 7

abbrev pub flag_ignoreautostack : ℕ
flag_ignoreautostack = 8

unfoldable pub has_bit_set : ℕ → ℕ → Bool
has_bit_set n flags = flags / 2 ^ n % 2 == 1

abbrev pub with_child : ℕ → ℕ
unfolding has_bit_set
with_child flags = if has_bit_set 3 flags then flags else flags + 2 ^ 3

unfoldable pub size : List Item → ℕ
size [] = 0
size (i ∷ is) = suc (size is)

unfoldable pub get_item_by_index : ℕ → List Item → Option Item
get_item_by_index n [] = none
get_item_by_index zero (i ∷ is) = some i
get_item_by_index (suc n) (i ∷ is) = get_item_by_index n is

abbrev pub next_index : Option ℕ → Option ℕ
next_index none = none
next_index (some n) = some (suc n)

-- `none` is -1.
unfoldable pub get_thing_index : ℕ → List Item → Option ℕ
get_thing_index a [] = none
get_thing_index a (i ∷ is) =
    let rest = next_index (get_thing_index a is) in if i.address == a then some 0 else rest

-- The loop of getTopParent, with `prevaux` and the chain from `aux` on.
unfoldable pub before_last : Cylinder → List Cylinder → Cylinder
before_last prev [] = prev
before_last prev (p ∷ []) = prev
before_last prev (p ∷ q ∷ ps) = before_last p (q ∷ ps)

unfoldable pub get_top_parent : Container → Cylinder
unfolding before_last
get_top_parent c = before_last c.self c.parents

-- The test for `ONLY_INVITED_CAN_MOVE_HOUSE_ITEMS`, whose value is the first argument.
unfoldable pub is_barred : Bool → Option ℕ → Cylinder → Bool
is_barred only_invited none top = false
is_barred only_invited (some actor) top = elim (top.house) [
  | none ↦ false
  | some is_invited ↦ only_invited && (not top.has_creature && not (is_invited actor))
]

-- The loops through the parents, which stop at an inbox without FLAG_NOLIMIT only.
unfoldable pub query_parents : Bool → ℕ → List Cylinder → ReturnValue
query_parents nolimit a [] = no_error
query_parents nolimit a (p ∷ ps) =
    let rest = query_parents nolimit a ps in
    if p.cylinder_address == a
    then this_is_impossible
    else (if not nolimit && p.inbox then container_not_enough_room else rest)

abbrev pub in_store_inbox : List Cylinder → Bool
in_store_inbox [] = false
in_store_inbox (p ∷ ps) = p.store_inbox

-- The part of queryAdd behind the loops.
unfoldable pub query_top : Bool → Container → Item → ℕ → ℕ → Option ℕ → ReturnValue
unfolding get_top_parent is_barred
query_top only_invited c i count flags actor =
    let top = get_top_parent c in
    if is_barred only_invited actor top
    then player_is_not_invited
    else (if not (top.cylinder_address == c.self.cylinder_address)
        then top.query_add_there i count (with_child flags) actor
        else no_error)

-- The part of queryAdd for the room, when the loops have found nothing.
unfoldable pub query_room : Bool → Container → ℕ → Item → ℕ → ℕ → Option ℕ → ReturnValue
unfolding size query_top has_bit_set
query_room only_invited c index i count flags actor =
    if not (has_bit_set flag_nolimit flags)
      && (index == wherever && (leb c.max_size (size c.itemlist) && not c.pagination))
    then container_not_enough_room
    else query_top only_invited c i count flags actor

unfoldable pub query_up : Bool → Container → ℕ → Item → ℕ → ℕ → Option ℕ → ReturnValue
unfolding query_room query_parents has_bit_set
query_up only_invited c index i count flags actor =
    let found = query_parents (has_bit_set flag_nolimit flags) i.address c.parents in
    if is_no_error found then query_room only_invited c index i count flags actor else found

-- The part of queryAdd for an item.
unfoldable pub query_item : Bool → Container → ℕ → Item → ℕ → ℕ → Option ℕ → ReturnValue
unfolding query_up has_bit_set get_top_parent
query_item only_invited c index i count flags actor =
    if not i.pickupable && not (has_bit_set flag_ignorenotpickupable flags)
    then cannot_pickup
    else (if i.address == c.self.cylinder_address
        then this_is_impossible
        else (if (i.store_item || i.holds_store_items) && not (get_top_parent c).depot_chest
            then item_cannot_be_moved_there
            else (if c.quiver && not i.ammo
                then quiver_ammo_only
                else (if c.container_store_item && (in_store_inbox c.parents && not c.gold_pouch)
                    then (if i.store_item
                        then item_cannot_be_moved_there
                        else cannot_move_item_is_not_store_item)
                    else query_up only_invited c index i count flags actor))))

unfoldable pub query_thing : Bool → Container → ℕ → Thing → ℕ → ℕ → Option ℕ → ReturnValue
unfolding query_item
query_thing only_invited c index (creature a) count flags actor = not_possible
query_thing only_invited c index (of_item i) count flags actor =
    query_item only_invited c index i count flags actor

unfoldable pub query_add : Bool → Container → ℕ → Thing → ℕ → ℕ → Option ℕ → ReturnValue
unfolding has_bit_set query_thing
query_add only_invited c index thing count flags actor =
    if has_bit_set flag_childisowner flags
    then no_error
    else (if not c.unlocked && not (has_bit_set flag_nolimit flags)
        then not_possible
        else query_thing only_invited c index thing count flags actor)
