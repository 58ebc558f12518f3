-- ===== src/Map/Nodes.antt =====
-- AStarNodes of src/map.h and src/map.cpp. A node is known by its index in `nodes`; the entries
-- from `cur_node` on are not in use. f and g are not negative. The key of `nodeTable` is `key`.
pub mod Best
pub mod Least
pub mod Weight
use xynera_ots.Prelude.{
  ℕ, zero, suc, ◌+◌, ◌-◌, ◌*◌, ◌%◌, ◌^◌, Bool, true, false, ◌&&◌, not, Option, none, some, ltb, leb,
  ◌==◌, if◌then◌else◌,
}
use xynera_ots.Geometry.{gap}

pub record Node : Type 0 where
  pub parent : Option ℕ
  pub f : ℕ
  pub g : ℕ
  pub x : ℕ
  pub y : ℕ

pub record Nodes : Type 0 where
  pub nodes : ℕ → Node
  pub open_nodes : ℕ → Bool
  pub node_table : ℕ → Option ℕ
  pub cur_node : ℕ
  pub closed_nodes : ℕ

abbrev pub max_nodes : ℕ
max_nodes = 512

abbrev pub key : ℕ → ℕ → ℕ
key x y = x * 2 ^ 16 + y

abbrev pub put : {A : Type 0} → ℕ → A → (ℕ → A) → ℕ → A
put i v h j = if j == i then v else h j

unfoldable pub start_nodes : ℕ → ℕ → Nodes
start_nodes x y = record {
  nodes = λ i. record { parent = none; f = 0; g = 0; x = x; y = y };
  open_nodes = put 0 true (λ i. false);
  node_table = put (key x y) (some 0) (λ k. none);
  cur_node = 1;
  closed_nodes = 0;
}

unfoldable pub create_open_node : ℕ → ℕ → ℕ → ℕ → ℕ → Nodes → Option Nodes
create_open_node parent x y f g s =
    if leb max_nodes s.cur_node
    then none
    else some (record s {
      nodes = put s.cur_node (record { parent = some parent; f = f; g = g; x = x; y = y }) s.nodes;
      open_nodes = put s.cur_node true s.open_nodes;
      node_table = put (key x y) (some s.cur_node) s.node_table;
      cur_node = s.cur_node + 1;
    })

-- `cost < best_node_f` of int32_t.
abbrev pub is_less : ℕ → ℕ → Bool
is_less a b = ltb ((a + 2 ^ 31) % 2 ^ 32) ((b + 2 ^ 31) % 2 ^ 32)

-- The loop from `i` on, with `best_node_f` and `best_node`.
unfoldable pub best_from : Nodes → ℕ → ℕ → ℕ → Option ℕ → Option ℕ
best_from s zero i best_f best = best
best_from s (suc left) i best_f best =
    let cost = ((s.nodes i).f + (s.nodes i).g) % 2 ^ 32 in
    let better = s.open_nodes i && is_less cost best_f in
    best_from s left (i + 1) (if better then cost else best_f) (if better then some i else best)

unfoldable pub get_best_node : Nodes → Option ℕ
unfolding best_from
get_best_node s = best_from s s.cur_node 0 (2 ^ 31 - 1) none

unfoldable pub close_node : ℕ → Nodes → Nodes
close_node i s = record s {
  open_nodes = put i false s.open_nodes;
  closed_nodes = s.closed_nodes + 1;
}

unfoldable pub open_node : ℕ → Nodes → Nodes
open_node i s =
    if s.open_nodes i
    then s
    else record s { open_nodes = put i true s.open_nodes; closed_nodes = s.closed_nodes - 1 }

-- A node that is there gets another parent.
unfoldable pub change_node : ℕ → ℕ → ℕ → Nodes → Nodes
unfolding open_node
change_node k f n s =
    open_node k (record s { nodes = put k (record (s.nodes k) { f = f; parent = some n }) s.nodes })

abbrev pub get_map_walk_cost : Node → ℕ → ℕ → ℕ
get_map_walk_cost n x y = if gap n.x x == gap n.y y then 25 else 10
