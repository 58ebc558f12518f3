-- ===== src/Map/Sight/Tests.antt =====
-- Lines of sight past a wall.
use xynera_ots.Prelude.{ℕ, true, false, ◌&&◌, none, some, ◌==◌, ◌≡◌, refl, if◌then◌else◌}
use xynera_ots.Net.Message.{Pos}
use xynera_ots.Map.Sight.{
  Sight, is_tile_clear, clear_from, check_steep_line, check_slight_line, check_sight_line,
  same_floor_clear, above_clear, below_clear, is_sight_clear, can_throw_object_to,
}
use xynera_ots.Map.Sight.Symmetric.{can_throw_object_to-symmetric}

abbrev floor_at : ℕ → ℕ → ℕ → Pos
floor_at x y z = record { x = x; y = y; z = z }

-- A wall at (102, 100, 7) under a roof at (100, 100, 6); lines along one row.
abbrev walled : Sight
walled = record {
  get_tile = λ p.
      if p.x == 102 && (p.y == 100 && p.z == 7)
      then some (record { has_ground = true; blocks_projectile = true })
      else (if p.x == 100 && (p.y == 100 && p.z == 6)
          then some (record { has_ground = true; blocks_projectile = false })
          else none);
  row = λ x0 y0 x1 y1 x. y0;
}

behind_wall :
    can_throw_object_to walled (floor_at 100 100 7) (floor_at 104 100 7) true false 8 6 ≡ false
unfolding can_throw_object_to is_sight_clear same_floor_clear above_clear below_clear
    check_sight_line check_slight_line check_steep_line clear_from is_tile_clear
behind_wall = refl

-- From (101, 100) there is no roof, and the throw goes over the wall.
over_wall :
    can_throw_object_to walled (floor_at 101 100 7) (floor_at 104 100 7) true false 8 6 ≡ true
unfolding can_throw_object_to is_sight_clear same_floor_clear above_clear below_clear
    check_sight_line check_slight_line check_steep_line clear_from is_tile_clear
over_wall = refl

can_throw_object_to-symmetric_example :
    can_throw_object_to walled (floor_at 100 100 7) (floor_at 104 100 7) true false 8 6
    ≡ can_throw_object_to walled (floor_at 104 100 7) (floor_at 100 100 7) true false 8 6
can_throw_object_to-symmetric_example =
    can_throw_object_to-symmetric walled (floor_at 100 100 7) (floor_at 104 100 7) true false 8 6
      refl
