-- ===== src/Map/Path/Find.antt =====
-- The loop of getPathMatching of src/map.cpp and the way back from the node that was found. The fuel
-- of the loop counts its rounds; both have an outcome of their own for the end of the fuel.
pub mod Sound
pub mod Trace
pub mod Moves
pub mod Rounds
mod Tests
use xynera_ots.Prelude.{
  ℕ, zero, suc, ◌+◌, ◌*◌, Bool, true, false, ◌&&◌, ◌||◌, not, Option, none, some, List, [], ◌∷◌,
  ltb, ◌==◌, if◌then◌else◌,
}
use xynera_ots.Net.Message.{Pos}
use xynera_ots.Geometry.{
  Direction, north, east, south, west, southwest, southeast, northwest, northeast, no_direction,
}
use xynera_ots.Map.Nodes.{Node, Nodes, max_nodes, start_nodes, get_best_node, close_node}
use xynera_ots.Map.Target.{path_condition}
use xynera_ots.Map.Path.{Search, Reached, go_on, full, null_tile, neighbors_of, reach_all}

-- `found` with `endPos`, and the nodes.
pub record State : Type 0 where
  pub nodes : Nodes
  pub best_match : ℕ
  pub found : Option (ℕ × Pos)

pub data Outcome : Type 0 where
  no_path out_of_fuel bad_tile : Outcome
  path : List Direction → Outcome

-- Whether `p` is `q` and one more.
abbrev pub one_more : ℕ → ℕ → Bool
one_more p q = p == q + 1

-- The directions for a step from `n` to `prevx`, `prevy`: the push_back of the last loop.
unfoldable pub push_direction : Node → ℕ → ℕ → List Direction → List Direction
push_direction n px py ds =
    if one_more n.x px && one_more n.y py
    then northwest ∷ ds
    else (if one_more px n.x && one_more n.y py
        then northeast ∷ ds
        else (if one_more n.x px && one_more py n.y
            then southwest ∷ ds
            else (if one_more px n.x && one_more py n.y
                then southeast ∷ ds
                else (if one_more n.x px
                    then west ∷ ds
                    else (if one_more px n.x
                        then east ∷ ds
                        else (if one_more n.y py
                            then north ∷ ds
                            else (if one_more py n.y then south ∷ ds else ds)))))))

abbrev pub to_path : Option (List Direction) → Outcome
to_path none = out_of_fuel
to_path (some ds) = path ds

abbrev pub push_to : Node → ℕ → ℕ → Option (List Direction) → Option (List Direction)
unfolding push_direction
push_to n px py none = none
push_to n px py (some ds) = some (push_direction n px py ds)

-- The last loop, from the parent of the last node on.
unfoldable pub trace : ℕ → (ℕ → Node) → ℕ → ℕ → Option ℕ → Option (List Direction)
unfolding push_to
trace fuel nodes px py none = some []
trace zero nodes px py (some k) = none
trace (suc fuel) nodes px py (some k) =
    push_to (nodes k) px py (trace fuel nodes (nodes k).x (nodes k).y (nodes k).parent)

-- Enough for the way back; no f is larger.
abbrev pub trace_fuel : ℕ
trace_fuel = 235 * max_nodes

-- Enough for the main loop, whose nodes weigh less.
abbrev pub search_fuel : ℕ
search_fuel = 240700 * max_nodes + 1

-- What follows the main loop.
unfoldable pub finish : Nodes → Option (ℕ × Pos) → Outcome
unfolding trace
finish s none = no_path
finish s (some (k, p)) = to_path (trace trace_fuel s.nodes p.x p.y (s.nodes k).parent)

-- A node that meets the condition is kept with its position.
abbrev pub found_by : Option ℕ → ℕ → Pos → State → State
found_by none n p s = s
found_by (some best) n p s = record s { best_match = best; found = some (n, p) }

-- Whether the condition is met as well as it can be.
abbrev pub is_final : Option ℕ → Bool
is_final none = false
is_final (some best) = best == 0

abbrev pub has_found : Option (ℕ × Pos) → Bool
has_found none = false
has_found (some e) = true

-- The position of a node, on the creature's floor.
abbrev pub node_pos : Search → Node → Pos
node_pos a n = record { x = n.x; y = n.y; z = a.creature.position.z }

-- After the loop over the neighbours of `n`: another round with these nodes, or the end.
pub data Round : Type 0 where
  again : State → Round
  ended : Outcome → Round

abbrev pub after_all : ℕ → State → Reached → Round
after_all n s (go_on ns) = again (record s { nodes = close_node n ns })
after_all n s (full ns) =
    if has_found s.found then again (record s { nodes = close_node n ns }) else ended no_path
after_all n s null_tile = ended bad_tile

unfoldable pub round_at : Search → State → ℕ → Round
unfolding path_condition finish reach_all
round_at a s n =
    let nd = s.nodes.nodes n in
    let p = node_pos a nd in
    let met = path_condition a.sight a.fpp a.target a.creature.position p s.best_match in
    let s' = found_by met n p s in
    if is_final met
    then ended (finish s'.nodes s'.found)
    else after_all n s'
        (reach_all a n nd.f p (neighbors_of a.fpp s'.nodes.nodes nd nd.parent) s'.nodes)

abbrev pub round_best : Search → State → Option ℕ → Round
unfolding round_at finish
round_best a s none = ended (finish s.nodes s.found)
round_best a s (some n) = round_at a s n

unfoldable pub round : Search → State → Round
unfolding round_best get_best_node finish
round a s =
    if not (a.fpp.max_search_dist == 0) || ltb s.nodes.closed_nodes 100
    then round_best a s (get_best_node s.nodes)
    else ended (finish s.nodes s.found)

unfoldable pub loop : ℕ → Search → State → Outcome
unfolding round
loop zero a s = out_of_fuel
loop (suc fuel) a s = elim (round a s) [ again s' ↦ loop fuel a s' | ended o ↦ o ]

unfoldable pub get_path_matching : ℕ → Search → Outcome
unfolding loop start_nodes
get_path_matching fuel a = loop fuel a (record {
  nodes = start_nodes a.creature.position.x a.creature.position.y;
  best_match = 0;
  found = none;
})
