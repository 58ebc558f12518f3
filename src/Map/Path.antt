-- ===== src/Map/Path.antt =====
-- getPathMatching of src/map.cpp, with canWalkTo and getTileWalkCost. A tile and the creature are
-- given by what the search asks of them; an offset to a neighbour is the direction that makes it. The
-- result has the directions as the code has them, the last step first.
pub mod Linked
pub mod Find
use xynera_ots.Prelude.{
  ℕ, zero, suc, ◌+◌, ◌-◌, ◌*◌, ◌%◌, ◌^◌, Bool, true, false, ◌&&◌, ◌||◌, not, Option, none, some,
  List, [], ◌∷◌, take, ltb, leb, ◌==◌, if◌then◌else◌,
}
use xynera_ots.Net.Message.{Pos}
use xynera_ots.Geometry.{
  Direction, north, east, south, west, southwest, southeast, northwest, northeast, no_direction,
  get_next_position, get_distance_x, get_distance_y,
}
use xynera_ots.Map.Nodes.{
  Node, Nodes, key, start_nodes, create_open_node, get_best_node, close_node, change_node,
  get_map_walk_cost,
}
use xynera_ots.Map.Target.{FindPathParams, is_in_range, path_condition}

-- What the creature's search asks of a tile: the combat type of its field, if it has one, and
-- `admits` is whether queryAdd of the creature with some flags gives no error.
pub record Tile : Type 0 where
  pub creature_seen : Bool
  pub field : Option ℕ
  pub is_own : Bool
  pub admits : ℕ → Bool

-- `has_condition` is for the condition of a combat type's damage; a monster has
-- canWalkOnFieldType.
pub record Creature : Type 0 where
  pub position : Pos
  pub is_player : Bool
  pub walk_cache : Pos → ℕ
  pub is_immune : ℕ → Bool
  pub has_condition : ℕ → Bool
  pub monster : Option (ℕ → Bool)

pub record Search : Type 0 where
  pub creature : Creature
  pub get_tile : Pos → Option Tile
  pub sight : Pos → Pos → Bool
  pub target : Pos
  pub fpp : FindPathParams

-- FLAG_PATHFINDING with FLAG_CHECKMOVEABLE or FLAG_IGNOREFIELDDAMAGE.
abbrev pub search_flags : Creature → ℕ
search_flags c = if c.is_player then 16 + 1024 else 16 + 32

abbrev pub admitted : ℕ → Option Tile → Option Tile
admitted flags none = none
admitted flags (some t) = if t.is_own || t.admits flags then some t else none

unfoldable pub can_walk_to : Search → Pos → Option Tile
can_walk_to s p =
    let cache = s.creature.walk_cache p in
    if cache == 0
    then none
    else (if cache == 1 then s.get_tile p else admitted (search_flags s.creature) (s.get_tile p))

abbrev pub burn_cost : Creature → ℕ → Option (ℕ → Bool) → ℕ
burn_cost c combat none = 0
burn_cost c combat (some can_walk_on) =
    if not (c.is_immune combat) && (not (c.has_condition combat) && not (can_walk_on combat))
    then 180
    else 0

abbrev pub field_cost : Creature → Option ℕ → ℕ
field_cost c none = 0
field_cost c (some combat) = burn_cost c combat c.monster

unfoldable pub get_tile_walk_cost : Creature → Tile → ℕ
get_tile_walk_cost c t = (if t.creature_seen then 30 else 0) + field_cost c t.field

abbrev pub all_neighbors : List Direction
all_neighbors = west ∷ south ∷ east ∷ north ∷ northwest ∷ northeast ∷ southeast ∷ southwest ∷ []

abbrev pub dir_neighbors : Direction → List Direction
dir_neighbors north = west ∷ south ∷ east ∷ southeast ∷ southwest ∷ []
dir_neighbors east = west ∷ south ∷ north ∷ northwest ∷ southwest ∷ []
dir_neighbors south = west ∷ east ∷ north ∷ northwest ∷ northeast ∷ []
dir_neighbors west = south ∷ east ∷ north ∷ northeast ∷ southeast ∷ []
dir_neighbors southwest = east ∷ north ∷ northwest ∷ northeast ∷ southeast ∷ []
dir_neighbors southeast = west ∷ north ∷ northwest ∷ northeast ∷ southwest ∷ []
dir_neighbors northwest = south ∷ east ∷ northeast ∷ southeast ∷ southwest ∷ []
dir_neighbors northeast = west ∷ south ∷ northwest ∷ southeast ∷ southwest ∷ []
dir_neighbors no_direction = []

-- The choice by the offset to the parent.
abbrev pub parent_side : Bool → Node → Node → Direction
parent_side diagonal p n =
    if p.y == n.y
    then (if p.x + 1 == n.x then west else east)
    else (if not diagonal || p.x == n.x
        then (if p.y + 1 == n.y then north else south)
        else (if p.y + 1 == n.y
            then (if p.x + 1 == n.x then northwest else northeast)
            else (if p.x + 1 == n.x then southwest else southeast)))

abbrev pub neighbors_of : FindPathParams → (ℕ → Node) → Node → Option ℕ → List Direction
neighbors_of fpp nodes n none = all_neighbors
neighbors_of fpp nodes n (some j) =
    take (if fpp.allow_diagonal then 5 else 3)
      (dir_neighbors (parent_side fpp.allow_diagonal (nodes j) n))

-- `full`: there are no more nodes. `null_tile`: a node's tile is not there.
pub data Reached : Type 0 where
  go_on full : Nodes → Reached
  null_tile : Reached

abbrev pub created : Nodes → Option Nodes → Reached
created s none = full s
created s (some s') = go_on s'

-- `n` is the node's index, `f` its cost and `p` the neighbour's position.
unfoldable pub offer_node : Search → ℕ → ℕ → Pos → Nodes → Option ℕ → Tile → Reached
unfolding change_node create_open_node get_tile_walk_cost
offer_node a n f p s none t =
    let newf = f + get_map_walk_cost (s.nodes n) p.x p.y + get_tile_walk_cost a.creature t in
    created s (
      create_open_node n p.x p.y newf ((get_distance_x a.target p + get_distance_y a.target p) * 10)
        s)
offer_node a n f p s (some k) t =
    let newf = f + get_map_walk_cost (s.nodes n) p.x p.y + get_tile_walk_cost a.creature t in
    if leb (s.nodes k).f newf then go_on s else go_on (change_node k newf n s)

-- The neighbour's tile, by whether it has a node already.
abbrev pub on_tile : Search → ℕ → ℕ → Pos → Nodes → Option ℕ → Option Tile → Reached
unfolding offer_node
on_tile a n f p s node (some t) = offer_node a n f p s node t
on_tile a n f p s none none = go_on s
on_tile a n f p s (some k) none = null_tile

abbrev pub tile_of : Search → Pos → Option ℕ → Option Tile
unfolding can_walk_to
tile_of a p none = can_walk_to a p
tile_of a p (some k) = a.get_tile p

-- The distances that `fpp` forbids.
unfoldable pub is_skipped : Search → Pos → Bool
unfolding is_in_range
is_skipped a p =
    let start = a.creature.position in
    let far = a.fpp.max_search_dist in
    (not (far == 0) && (ltb far (get_distance_x start p) || ltb far (get_distance_y start p)))
    || (a.fpp.keep_distance && not (is_in_range a.fpp a.target start p))

-- The body of the loop over the neighbours.
unfoldable pub reach : Search → ℕ → ℕ → Pos → Nodes → Reached
unfolding on_tile tile_of is_skipped
reach a n f p s =
    let node = s.node_table (key p.x p.y) in
    if is_skipped a p then go_on s else on_tile a n f p s node (tile_of a p node)

abbrev pub and_then : Reached → (Nodes → Reached) → Reached
and_then (go_on s) h = h s
and_then (full s) h = full s
and_then null_tile h = null_tile

unfoldable pub reach_all : Search → ℕ → ℕ → Pos → List Direction → Nodes → Reached
unfolding reach
reach_all a n f p [] s = go_on s
reach_all a n f p (d ∷ ds) s =
    and_then (reach a n f (get_next_position d p) s) (λ s'. reach_all a n f p ds s')
