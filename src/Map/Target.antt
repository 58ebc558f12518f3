-- ===== src/Map/Target.antt =====
-- FrozenPathingConditionCall of src/creature.cpp with FindPathParams of src/creature.h. The distances
-- are not negative. `sight` is Map::isSightClear on the same floor.
use xynera_ots.Prelude.{
  ℕ, ◌+◌, Bool, ◌&&◌, ◌||◌, not, Option, none, some, ltb, leb, ◌==◌, if◌then◌else◌,
}
use xynera_ots.Net.Message.{Pos}
use xynera_ots.Geometry.{get_distance_x, get_distance_y}

pub record FindPathParams : Type 0 where
  pub full_path_search : Bool
  pub clear_sight : Bool
  pub allow_diagonal : Bool
  pub keep_distance : Bool
  pub summon_follow_mode : Bool
  pub max_search_dist : ℕ
  pub min_target_dist : ℕ
  pub max_target_dist : ℕ

-- One coordinate: no more than `above` over the target's and no more than `below` under it.
abbrev pub within : ℕ → ℕ → ℕ → ℕ → Bool
within a target below above = not (ltb (target + above) a) && not (ltb (a + below) target)

unfoldable pub is_in_range : FindPathParams → Pos → Pos → Pos → Bool
is_in_range fpp target start test =
    let m = fpp.max_target_dist in
    if fpp.full_path_search
    then within test.x target.x m m && within test.y target.y m m
    else within test.x target.x (if leb start.x target.x then m else 0)
        (if leb target.x start.x then m else 0)
      && within test.y target.y (if leb start.y target.y then m else 0)
          (if leb target.y start.y then m else 0)

abbrev pub larger : ℕ → ℕ → ℕ
larger a b = if ltb a b then b else a

-- The last part of operator(), for the distance: the new `bestMatchDist` if the answer is yes.
unfoldable pub best_distance : FindPathParams → ℕ → ℕ → Option ℕ
best_distance fpp d best =
    if fpp.max_target_dist == 1
    then (if ltb d fpp.min_target_dist || ltb fpp.max_target_dist d then none else some best)
    else (if leb d fpp.max_target_dist
        then (if ltb d fpp.min_target_dist
            then none
            else (if d == fpp.max_target_dist
                then some 0
                else (if ltb best d then some d else none)))
        else none)

unfoldable pub path_condition : (Pos → Pos → Bool) → FindPathParams → Pos → Pos → Pos → ℕ → Option ℕ
unfolding is_in_range best_distance
path_condition sight fpp target start test best =
    let dx = get_distance_x target test in
    let dy = get_distance_y target test in
    if not (is_in_range fpp target start test)
    then none
    else (if fpp.clear_sight && not (sight test target)
        then none
        else (if fpp.summon_follow_mode
            then (if dx + dy == 2 then some best else none)
            else best_distance fpp (larger dx dy) best))
