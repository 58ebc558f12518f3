-- ===== src/Container/Change/Tests.antt =====
-- A bag in a backpack, with coins that come and go.
use xynera_ots.Prelude.{ℕ, ◌≡◌, refl, true, false, [], ◌∷◌}
use xynera_ots.Container.Change.{
  Item, Container, item_weight, adds, replaces, removes, update_thing, load_item, apply_changes,
}
use xynera_ots.Container.Change.Weighed.{
  Weighed, AroundWeighed, AllCount, Counts, apply_changes-Weighed,
}

abbrev coins : ℕ → ℕ → Item
coins address count = record {
  address = address;
  base_weight = 10;
  stackable = true;
  count = count;
  contents = 0;
}

abbrev vial : Item
vial = record { address = 7; base_weight = 180; stackable = false; count = 1; contents = 0 }

abbrev bag : Container
bag = record {
  max_size = 8;
  this_weight = 800;
  itemlist = coins 1 40 ∷ [];
  total_weight = 400;
  ammo_count = 40;
  around = record { own_weight = 1800; beside = coins 2 5 ∷ []; total = 1250 } ∷ [];
}

bag-Weighed : Weighed bag
unfolding item_weight AroundWeighed
bag-Weighed = record { weight = refl; ammo = refl; outer = (refl, tt) }

apply_changes-Weighed_example :
    Weighed (apply_changes (adds 0 (coins 3 50) ∷ removes 3 20 ∷ replaces 1 vial ∷ []) bag)
unfolding AllCount Counts
apply_changes-Weighed_example =
    apply_changes-Weighed (adds 0 (coins 3 50) ∷ removes 3 20 ∷ replaces 1 vial ∷ []) bag
      (tt, (tt, (tt, tt))) bag-Weighed

-- What is filled into a vial is counted as ammunition: `updateThing` of one with the fluid 5.
filled :
    (update_thing
      (λ i. i)
      7
      5
      (record bag { itemlist = vial ∷ []; total_weight = 180; ammo_count = 1 })).ammo_count
    ≡ 5
unfolding update_thing
filled = refl

-- Items that are loaded with the container are not counted as ammunition.
loaded :
    (load_item
      (coins 3 50)
      (record bag { itemlist = []; total_weight = 0; ammo_count = 0 })).ammo_count
    ≡ 0
unfolding load_item
loaded = refl
