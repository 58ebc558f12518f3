-- ===== src/Map/Tiles.antt =====
-- The tiles of Map in src/map.h and src/map.cpp: getTile and setTile, with the leaves, their floors
-- and the links between leaves. The creatures of a leaf are not modelled. `merge old t` is what the
-- tile `old` becomes when setTile finds it in the place of `t` and gives it the things of `t`.
pub mod Formed
pub mod Ready
pub mod Slots
pub mod Stored
mod Tests
use xynera_ots.Prelude.{
  ℕ, zero, suc, ◌+◌, ◌-◌, ◌*◌, ◌/◌, ◌%◌, ◌^◌, Bool, true, false, ◌&&◌, Option, none, some, List, [],
  ◌∷◌, leb, ◌==◌, if◌then◌else◌,
}
use xynera_ots.Net.Message.{Pos}
use xynera_ots.Map.Nodes.{put}
use xynera_ots.Map.Tree.{QTree, null, node, leaf, get_leaf, get_leaf_static, Made, create_leaf}

pub record Leaf (T : Type 0) : Type 0 where
  pub leaf_s : Option ℕ
  pub leaf_e : Option ℕ
  pub floors : ℕ → Option (ℕ → ℕ → Option T)

pub record Tiles (T : Type 0) : Type 0 where
  pub root : QTree
  pub leaves : ℕ → Leaf T
  pub next_leaf : ℕ

-- The subtraction of FLOOR_SIZE, as an uint32_t.
abbrev pub before : ℕ → ℕ
before c = (c + 2 ^ 32 - 8) % 2 ^ 32

module _ {T : Type 0} where
  abbrev pub blank : Leaf T
  blank = record { leaf_s = none; leaf_e = none; floors = λ z. none }

  abbrev pub empty_tiles : Tiles T
  empty_tiles = record { root = node (λ k. null); leaves = λ i. blank; next_leaf = 0 }

  abbrev pub floor_tile : Option (ℕ → ℕ → Option T) → ℕ → ℕ → Option T
  floor_tile none a b = none
  floor_tile (some floor) a b = floor a b

  abbrev pub leaf_tile : (ℕ → Leaf T) → Option ℕ → ℕ → ℕ → ℕ → Option T
  leaf_tile leaves none z a b = none
  leaf_tile leaves (some i) z a b = floor_tile ((leaves i).floors z) a b

  unfoldable pub get_tile : Pos → Tiles T → Option T
  unfolding get_leaf_static
  get_tile p m =
      if leb 16 p.z
      then none
      else leaf_tile m.leaves (get_leaf_static p.x p.y m.root) p.z (p.x % 8) (p.y % 8)

  abbrev pub set_leaf_s : Option ℕ → Option ℕ → Tiles T → Tiles T
  set_leaf_s none v m = m
  set_leaf_s (some i) v m = record m {
    leaves = put i (record (m.leaves i) { leaf_s = v }) m.leaves;
  }

  abbrev pub set_leaf_e : Option ℕ → Option ℕ → Tiles T → Tiles T
  set_leaf_e none v m = m
  set_leaf_e (some i) v m = record m {
    leaves = put i (record (m.leaves i) { leaf_e = v }) m.leaves;
  }

  -- A leaf that has a neighbour to the south, or to the east, is linked to it.
  abbrev pub link_south : ℕ → Option ℕ → Tiles T → Tiles T
  link_south i none m = m
  link_south i (some j) m = set_leaf_s (some i) (some j) m

  abbrev pub link_east : ℕ → Option ℕ → Tiles T → Tiles T
  link_east i none m = m
  link_east i (some j) m = set_leaf_e (some i) (some j) m

  -- The links of a new leaf: north, west, south, east.
  unfoldable pub link : ℕ → ℕ → ℕ → Tiles T → Tiles T
  unfolding get_leaf
  link x y i m =
      let m1 = set_leaf_s (get_leaf x (before y) m.root) (some i) m in
      let m2 = set_leaf_e (get_leaf (before x) y m.root) (some i) m1 in
      let m3 = link_south i (get_leaf x (y + 8) m.root) m2 in
      link_east i (get_leaf (x + 8) y m.root) m3

  abbrev pub with_leaf : Made → Tiles T → Tiles T
  with_leaf d m = record {
    root = d.tree;
    leaves = put d.at_leaf blank m.leaves;
    next_leaf = m.next_leaf + 1;
  }

  -- The leaf is there.
  unfoldable pub made_leaf : ℕ → ℕ → Made → Tiles T → Tiles T
  unfolding link
  made_leaf x y d m =
      if d.is_new then link x y d.at_leaf (with_leaf d m) else record m { root = d.tree }

  module _ (merge : T → T → T) where
    abbrev pub merged : Option T → T → T
    merged none t = t
    merged (some old) t = merge old t

    -- The floor of the leaf is made if it is not there.
    unfoldable pub put_tile : ℕ → Pos → T → Tiles T → Tiles T
    put_tile i p t m =
        let floor = floor_tile ((m.leaves i).floors p.z) in
        let a = p.x % 8 in
        let b = p.y % 8 in
        let new_floor = put a (put b (some (merged (floor a b) t)) (floor a)) floor in
        record m {
          leaves =
              put i (record (m.leaves i) { floors = put p.z (some new_floor) (m.leaves i).floors })
                m.leaves;
        }

    -- There is no result of createLeaf without a root.
    abbrev pub set_at : Pos → T → Tiles T → Option Made → Tiles T
    unfolding put_tile made_leaf
    set_at p t m none = m
    set_at p t m (some d) = put_tile d.at_leaf p t (made_leaf p.x p.y d m)

    unfoldable pub set_tile : Pos → T → Tiles T → Tiles T
    unfolding set_at create_leaf
    set_tile p t m =
        if leb 16 p.z then m else set_at p t m (create_leaf 15 p.x p.y m.next_leaf m.root)

    unfoldable pub set_tiles : List (Pos × T) → Tiles T → Tiles T
    unfolding set_tile
    set_tiles [] m = m
    set_tiles (e ∷ es) m = set_tiles es (set_tile e.0 e.1 m)
