-- ===== src/Wheel/Tests.antt =====
-- The skill wheel's theorem at one link, and one that only one slot lists.
use xynera_ots.Prelude.{◌≡◌, ◌≤◌, refl, true, false, not, ◌||◌, ◌==◌}
use xynera_ots.Wheel.{get_wheel_neighbours, mint_3_top, mint_4_top}
use xynera_ots.Wheel.Links.{member, starts, one_sided, neighbours-linked}

not_listed_back : member mint_3_top (get_wheel_neighbours mint_4_top) ≡ false
unfolding member get_wheel_neighbours
not_listed_back = refl

listed : member mint_4_top (get_wheel_neighbours mint_3_top) ≡ true
unfolding member get_wheel_neighbours
listed = refl

neighbours-linked_example :
    ((1 ≤ 25) × (25 ≤ 36) × (starts 25 ≡ false) × (19 == 25 ≡ false))
    × (member 19 (get_wheel_neighbours 25) ≡ not (starts 19 || one_sided 19 25))
neighbours-linked_example = neighbours-linked 19 25 listed
