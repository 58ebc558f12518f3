-- ===== src/Container/Query/Tests.antt =====
-- A backpack on the ground with two stacks of coins.
use xynera_ots.Prelude.{ℕ, ◌≤◌, ◌≡◌, ◌↔◌, refl, Bool, true, false, none, some, [], ◌∷◌, arith}
use xynera_ots.Container.Query.{
  no_error, container_not_enough_room, this_is_impossible, Item, of_item, Cylinder, Container,
  wherever, query_add, has_bit_set, size,
}
use xynera_ots.Container.Query.Add.{Allowed}
use xynera_ots.Container.Query.Add.Exact.{query_add_iff}
use xynera_ots.Container.Query.Count.{query_max_count, room_for, query_max_count-room}
use xynera_ots.Container.Query.Destination.{query_destination, query_remove}
use xynera_ots.Container.Query.Destination.Stacks.{Stands, query_destination-Stands}
use xynera_ots.Container.Query.Destination.Removal.{Holds, Removable, query_remove_iff}

abbrev coins : ℕ → ℕ → ℕ → Item
coins address parent count = record {
  address = address;
  parent = parent;
  pickupable = true;
  moveable = true;
  stackable = true;
  count = count;
  ammo = false;
  store_item = false;
  holds_store_items = false;
  cylinder = false;
}

abbrev at : ℕ → Bool → Cylinder
at address is_container = record {
  cylinder_address = address;
  container = is_container;
  depot_chest = false;
  inbox = false;
  store_inbox = false;
  has_creature = false;
  house = none;
  query_add_there = λ i count flags actor. no_error;
}

abbrev backpack : Container
backpack = record {
  self = at 1 true;
  parents = at 2 false ∷ [];
  unlocked = true;
  pagination = false;
  max_size = 3;
  itemlist = coins 10 1 100 ∷ coins 11 1 40 ∷ [];
  quiver = false;
  container_store_item = false;
  gold_pouch = false;
}

abbrev always : Item → Item → Bool
always x y = true

-- The backpack cannot be put into itself.
not_inside : query_add true backpack wherever (of_item (coins 1 2 1)) 1 0 none ≡ this_is_impossible
unfolding query_add
not_inside = refl

query_add_iff_example :
    (query_add true backpack wherever (of_item (coins 20 3 50)) 50 0 (some 7) ≡ no_error)
    ↔ Allowed true backpack wherever (coins 20 3 50) 50 0 (some 7)
unfolding has_bit_set
query_add_iff_example = query_add_iff true backpack wherever (coins 20 3 50) 50 0 (some 7) refl

-- The backpack when it is full: at an index it takes an item all the same.
abbrev full_backpack : Container
full_backpack = record backpack { max_size = 2 }

full_wherever :
    query_add true full_backpack wherever (of_item (coins 20 3 50)) 50 0 (some 7)
    ≡ container_not_enough_room
unfolding query_add size
full_wherever = refl

full_at_index : query_add true full_backpack 0 (of_item (coins 20 3 50)) 50 0 (some 7) ≡ no_error
unfolding query_add size
full_at_index = refl

query_max_count-room_example :
    (let answer = query_max_count true always backpack wherever (of_item (coins 20 3 50)) 50 0 in
      (answer.1 ≡ room_for true always backpack (coins 20 3 50) 50 0)
      × ((answer.0 ≡ no_error) ↔ (50 ≤ room_for true always backpack (coins 20 3 50) 50 0)))
unfolding has_bit_set size
query_max_count-room_example =
    query_max_count-room true always backpack (coins 20 3 50) 50 0 refl refl
      (omega arith, omega arith)

query_destination-Stands_example :
    Stands always backpack
      (coins 20 3 50)
      0
      (query_destination always backpack 0 (of_item (coins 20 3 50)) none 0)
unfolding size
query_destination-Stands_example =
    query_destination-Stands always backpack (coins 20 3 50) 0 0 (omega arith) refl
      (λ e. absurd (omega (arith, e)))

query_remove_iff_example :
    (query_remove true backpack (of_item (coins 11 1 40)) 40 0 (some 7) ≡ no_error)
    ↔ (Holds 11 backpack.itemlist × Removable true backpack (coins 11 1 40) 40 0 (some 7))
query_remove_iff_example = query_remove_iff true backpack (coins 11 1 40) 40 0 (some 7)
