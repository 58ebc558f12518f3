-- ===== src/Map/Path/Find/Moves.antt =====
-- Every neighbour of a node in src/map.cpp lies in a direction.
use xynera_ots.Prelude.{
  ℕ, zero, suc, ◌≡◌, ◌≢◌, refl, subst, Bool, true, false, ◌&&◌, take, Option, none, some, List, [],
  ◌∷◌, if◌then◌else◌,
}
use xynera_ots.Geometry.{
  Direction, no_direction, north, east, south, west, southwest, southeast, northwest, northeast,
}
use xynera_ots.Map.Nodes.{Node}
use xynera_ots.Map.Path.{neighbors_of, dir_neighbors, all_neighbors, parent_side}
use xynera_ots.Map.Path.Linked.Neighbours.{AllMove}
use xynera_ots.Map.Target.{FindPathParams}

-- A direction that leads somewhere.
is_move : Direction → Bool
is_move no_direction = false
is_move d = true

no_direction-moves : is_move no_direction ≡ true → ⊥
unfolding is_move
no_direction-moves y = cc

is_move_lem : (d : Direction) → is_move d ≡ true → d ≢ no_direction
is_move_lem d y e = no_direction-moves (subst (λ q. is_move q ≡ true) e y)

all_move : List Direction → Bool
all_move [] = true
all_move (d ∷ ds) = is_move d && all_move ds

and-both : (a b : Bool) → (a && b) ≡ true → (a ≡ true) × (b ≡ true)
and-both true b e = (refl, e)
and-both false b e = absurd cc

take-AllMove : (n : ℕ) (ds : List Direction) → all_move ds ≡ true → AllMove (take n ds)
unfolding AllMove all_move
take-AllMove zero ds e = tt
take-AllMove (suc n) [] e = tt
take-AllMove (suc n) (d ∷ ds) e =
    let (here, rest) = and-both (is_move d) (all_move ds) e in
    (is_move_lem d here, take-AllMove n ds rest)

dir_neighbors-move : (d : Direction) → all_move (dir_neighbors d) ≡ true
unfolding all_move is_move
dir_neighbors-move north = refl
dir_neighbors-move east = refl
dir_neighbors-move south = refl
dir_neighbors-move west = refl
dir_neighbors-move southwest = refl
dir_neighbors-move southeast = refl
dir_neighbors-move northwest = refl
dir_neighbors-move northeast = refl
dir_neighbors-move no_direction = refl

all_neighbors-move : all_move all_neighbors ≡ true
unfolding all_move is_move
all_neighbors-move = refl

pub neighbors_of-AllMove :
    (fpp : FindPathParams) (nodes : ℕ → Node) (n : Node) (o : Option ℕ)
    → AllMove (neighbors_of fpp nodes n o)
neighbors_of-AllMove fpp nodes n none = take-AllMove 8 all_neighbors all_neighbors-move
neighbors_of-AllMove fpp nodes n (some j) =
    let d = parent_side fpp.allow_diagonal (nodes j) n in
    take-AllMove (if fpp.allow_diagonal then 5 else 3) (dir_neighbors d) (dir_neighbors-move d)
