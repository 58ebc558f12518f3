-- ===== src/Map/Path/Find/Tests.antt =====
-- A search on a small map.
use xynera_ots.Prelude.{
  ℕ, ◌+◌, ◌-◌, ◌^◌, ◌<◌, ◌≡◌, refl, sym, ap, ◌∙◌, Bool, true, false, ◌&&◌, ◌||◌, not, Bool-cases,
  inl, inr, Option, none, some, [], ◌∷◌, leb, ◌==◌, if◌then◌else◌, arith,
}
use xynera_ots.Net.Message.{Pos}
use xynera_ots.Geometry.{get_next_position, east, north, southeast}
use xynera_ots.Map.Target.{FindPathParams, path_condition, is_in_range, best_distance}
use xynera_ots.Map.Nodes.{
  Nodes, start_nodes, create_open_node, get_best_node, best_from, close_node, open_node,
  change_node,
}
use xynera_ots.Map.Path.{
  Search, Tile, Creature, can_walk_to, get_tile_walk_cost, offer_node, on_tile, tile_of, is_skipped,
  reach, reach_all,
}
use xynera_ots.Map.Nodes.Least.{cost, Best, get_best_node-Best}
use xynera_ots.Map.Path.Linked.{IsThere}
use xynera_ots.Map.Path.Linked.Neighbours.{IsAllowed-IsThere}
use xynera_ots.Map.Path.Find.Trace.{Inner, Sound}
use xynera_ots.Map.Path.Find.Rounds.{RoundSound, round-Sound}
use xynera_ots.Map.Path.Find.Sound.{start_state, start_state-Sane, get_path_matching-Sound}
use xynera_ots.Map.Path.Find.{
  no_path, path, push_direction, trace, finish, round_at, round, round_best, loop,
  get_path_matching,
}

abbrev spot : ℕ → ℕ → Pos
spot x y = record { x = x; y = y; z = 7 }

abbrev inside : ℕ → Bool
inside c = leb 99 c && leb c 103

abbrev grass : Tile
grass = record { creature_seen = false; field = none; is_own = false; admits = λ flags. true }

-- A wall stands at (101, 100).
abbrev tile_at : Pos → Option Tile
tile_at p =
    if inside p.x && (inside p.y && not (p.x == 101 && p.y == 100)) then some grass else none

abbrev rat : Creature
rat = record {
  position = spot 100 100;
  is_player = false;
  walk_cache = λ p. 2;
  is_immune = λ c. false;
  has_condition = λ c. false;
  monster = none;
}

abbrev beside : FindPathParams
beside = record {
  full_path_search = true;
  clear_sight = false;
  allow_diagonal = true;
  keep_distance = false;
  summon_follow_mode = false;
  max_search_dist = 5;
  min_target_dist = 0;
  max_target_dist = 1;
}

abbrev chase : Search
chase = record {
  creature = rat;
  get_tile = tile_at;
  sight = λ p q. true;
  target = spot 103 100;
  fpp = beside;
}

chase_path : get_path_matching 100 chase ≡ path (east ∷ east ∷ north ∷ [])
unfolding get_path_matching loop round round_at round_best reach_all reach on_tile tile_of
    is_skipped can_walk_to offer_node get_tile_walk_cost start_nodes create_open_node get_best_node
    best_from close_node open_node change_node path_condition is_in_range best_distance
    push_direction trace finish get_next_position
chase_path = refl

-- The same without diagonal steps, with a wall on each straight way.
abbrev corner_tile_at : Pos → Option Tile
corner_tile_at p =
    if inside p.x && (inside p.y && not ((p.x == 100 || p.y == 100) && not (p.x == p.y)))
    then some grass
    else none

abbrev straight : Search
straight = record chase {
  get_tile = corner_tile_at;
  target = spot 102 102;
  fpp = record beside { allow_diagonal = false };
}

-- The first step is diagonal all the same.
straight_path : get_path_matching 100 straight ≡ path (southeast ∷ [])
unfolding get_path_matching loop round round_at round_best reach_all reach on_tile tile_of
    is_skipped can_walk_to offer_node get_tile_walk_cost start_nodes create_open_node get_best_node
    best_from close_node open_node change_node path_condition is_in_range best_distance
    push_direction trace finish get_next_position
straight_path = refl

walled_in : Search
walled_in = record chase { get_tile = λ p. if p.x == 100 && p.y == 100 then some grass else none }

walled_in_path : get_path_matching 100 walled_in ≡ no_path
unfolding walled_in get_path_matching loop round round_at round_best reach_all reach on_tile tile_of
    is_skipped can_walk_to offer_node get_tile_walk_cost start_nodes create_open_node get_best_node
    best_from close_node open_node change_node path_condition is_in_range best_distance
    push_direction trace finish get_next_position
walled_in_path = refl

none-tile : (t : Tile) → none ≡ some t → ⊥
none-tile t e = cc

tile_at-inside :
    (p : Pos) (t : Tile)
    → tile_at p ≡ some t
    → (0 < p.x) × (p.x < 65535) × (0 < p.y) × (p.y < 65535)
tile_at-inside p t e =
    elim (Bool-cases (inside p.x && (inside p.y && not (p.x == 101 && p.y == 100)))) [
      | inl y ↦ (ground (arith, y), ground (arith, y), ground (arith, y), ground (arith, y))
      | inr n ↦ absurd (none-tile t (sym (ap (λ b. if b then some grass else none) n) ∙ e))
    ]

chase-Inner : Inner chase
unfolding Inner IsThere
chase-Inner p w = let (t, e) = IsAllowed-IsThere chase p w in tile_at-inside p t e

home : IsThere chase (spot 100 100)
unfolding IsThere
home = (grass, refl)

get_path_matching-Sound_example : Sound chase (get_path_matching 200000000 chase)
get_path_matching-Sound_example =
    get_path_matching-Sound 200000000 chase (omega arith) (omega arith) (omega arith) home
      chase-Inner

round-Sound_example : RoundSound chase (start_state 100 100) (round chase (start_state 100 100))
round-Sound_example =
    round-Sound chase home chase-Inner (start_state 100 100)
      (start_state-Sane chase (omega arith) (omega arith))

two_nodes : Nodes
two_nodes = record (start_nodes 100 100) {
  nodes = λ i. record { parent = none; f = if i == 1 then 5 else 10; g = 0; x = 100 + i; y = 100 };
  open_nodes = λ i. leb i 1;
  cur_node = 2;
}

two_nodes-small : (j : ℕ) → cost two_nodes j < 2 ^ 31 - 1
unfolding two_nodes
two_nodes-small j = ground arith

get_best_node-Best_example : Best two_nodes (get_best_node two_nodes)
get_best_node-Best_example = get_best_node-Best two_nodes two_nodes-small
