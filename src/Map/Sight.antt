-- ===== src/Map/Sight.antt =====
-- The line of sight in src/map.cpp: isTileClear, checkSteepLine, checkSlightLine, checkSightLine,
-- isSightClear and canThrowObjectTo. `row x0 y0 x1 y1 x` is where the line from the first point to the
-- second is at x: the floor of a sum of floating-point numbers in the source.
pub mod Symmetric
mod Tests
use xynera_ots.Prelude.{
  ℕ, zero, suc, ◌+◌, ◌-◌, Bool, true, false, ◌&&◌, ◌||◌, not, Option, none, some, ltb, leb, ◌==◌,
  if◌then◌else◌,
}
use xynera_ots.Net.Message.{Pos}
use xynera_ots.Geometry.{gap, get_distance_x, get_distance_y}

-- What the line of sight asks of a tile.
pub record Tile : Type 0 where
  pub has_ground : Bool
  pub blocks_projectile : Bool

pub record Sight : Type 0 where
  pub get_tile : Pos → Option Tile
  pub row : ℕ → ℕ → ℕ → ℕ → ℕ → ℕ

abbrev pub lets_through : Bool → Option Tile → Bool
lets_through block_floor none = true
lets_through block_floor (some t) = not (block_floor && t.has_ground) && not t.blocks_projectile

unfoldable pub is_tile_clear : Sight → ℕ → ℕ → ℕ → Bool → Bool
is_tile_clear a x y z block_floor =
    lets_through block_floor (a.get_tile (record { x = x; y = y; z = z }))

-- The loop with `left` points to go, from `x` on.
unfoldable pub clear_from : (ℕ → Bool) → ℕ → ℕ → Bool
clear_from clear zero x = true
clear_from clear (suc left) x = clear x && clear_from clear left (x + 1)

unfoldable pub check_steep_line : Sight → ℕ → ℕ → ℕ → ℕ → ℕ → Bool
unfolding clear_from is_tile_clear
check_steep_line a x0 y0 x1 y1 z =
    clear_from (λ x. is_tile_clear a (a.row x0 y0 x1 y1 x) x z false) (x1 - (x0 + 1)) (x0 + 1)

unfoldable pub check_slight_line : Sight → ℕ → ℕ → ℕ → ℕ → ℕ → Bool
unfolding clear_from is_tile_clear
check_slight_line a x0 y0 x1 y1 z =
    clear_from (λ x. is_tile_clear a x (a.row x0 y0 x1 y1 x) z false) (x1 - (x0 + 1)) (x0 + 1)

unfoldable pub check_sight_line : Sight → ℕ → ℕ → ℕ → ℕ → ℕ → Bool
unfolding check_steep_line check_slight_line
check_sight_line a x0 y0 x1 y1 z =
    if x0 == x1 && y0 == y1
    then true
    else (if ltb (gap x1 x0) (gap y1 y0)
        then (if ltb y0 y1
            then check_steep_line a y0 x0 y1 x1 z
            else check_steep_line a y1 x1 y0 x0 z)
        else (if ltb x1 x0
            then check_slight_line a x1 y1 x0 y0 z
            else check_slight_line a x0 y0 x1 y1 z))

-- The target is on the same floor.
unfoldable pub same_floor_clear : Sight → Pos → Pos → Bool → Bool
unfolding check_sight_line is_tile_clear
same_floor_clear a from to same_floor =
    let clear = check_sight_line a from.x from.y to.x to.y from.z in
    let z = from.z - 1 in
    if ltb (get_distance_x from to) 2 && ltb (get_distance_y from to) 2
    then true
    else (if clear || same_floor
        then clear
        else (if from.z == 0
            then true
            else is_tile_clear a from.x from.y z true
              && (is_tile_clear a to.x to.y z true
                  && check_sight_line a from.x from.y to.x to.y z)))

-- The target is above.
unfoldable pub above_clear : Sight → Pos → Pos → Bool
unfolding check_sight_line is_tile_clear
above_clear a from to =
    if ltb 1 (from.z - to.z)
    then false
    else is_tile_clear a from.x from.y (from.z - 1) true
      && check_sight_line a from.x from.y to.x to.y (from.z - 1)

-- The target is below.
unfoldable pub below_clear : Sight → Pos → Pos → Bool
unfolding clear_from check_sight_line is_tile_clear
below_clear a from to =
    clear_from (λ z. is_tile_clear a to.x to.y z true) (to.z - from.z) from.z
    && check_sight_line a from.x from.y to.x to.y from.z

unfoldable pub is_sight_clear : Sight → Pos → Pos → Bool → Bool
unfolding same_floor_clear above_clear below_clear
is_sight_clear a from to same_floor =
    if from.z == to.z
    then same_floor_clear a from to same_floor
    else (if same_floor
        then false
        else (if (ltb from.z 8 && ltb 7 to.z) || (ltb 7 from.z && ltb to.z 8)
            then false
            else (if ltb to.z from.z then above_clear a from to else below_clear a from to)))

unfoldable pub can_throw_object_to : Sight → Pos → Pos → Bool → Bool → ℕ → ℕ → Bool
unfolding is_sight_clear
can_throw_object_to a from to check_line_of_sight same_floor range_x range_y =
    if ltb range_x (get_distance_x from to) || ltb range_y (get_distance_y from to)
    then false
    else not check_line_of_sight || is_sight_clear a from to same_floor
