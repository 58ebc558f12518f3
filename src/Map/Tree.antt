-- ===== src/Map/Tree.antt =====
-- The quadtree of src/map.h and src/map.cpp: getLeaf, getLeafStatic and createLeaf. A leaf is known by a number, and `null` is a null pointer.
pub mod Leaves
pub mod Blocks
use xynera_ots.Prelude.{
  ℕ, zero, suc, ◌+◌, ◌*◌, ◌/◌, ◌%◌, ◌^◌, Bool, true, false, ◌&&◌, ◌||◌, not, Option, none, some,
  leb, ◌==◌, if◌then◌else◌,
}
use xynera_ots.Map.Nodes.{put}

pub data QTree : Type 0 where
  null : QTree
  node : (ℕ → QTree) → QTree
  leaf : ℕ → QTree

-- The child of a position: bit 15 of x and of y.
abbrev pub index : ℕ → ℕ → ℕ
index x y = x / 2 ^ 15 % 2 + y / 2 ^ 15 % 2 * 2

-- The shift by one of uint32_t.
abbrev pub shift : ℕ → ℕ
shift x = x * 2 % 2 ^ 32

unfoldable pub get_leaf : ℕ → ℕ → QTree → Option ℕ
get_leaf x y null = none
get_leaf x y (leaf i) = some i
get_leaf x y (node child) = get_leaf (shift x) (shift y) (child (index x y))

-- A child that is a null pointer or a leaf ends the walk.
abbrev pub on_child : QTree → Option ℕ → Option ℕ
on_child null rest = none
on_child (leaf i) rest = some i
on_child (node child) rest = rest

-- A leaf has no children.
unfoldable pub get_leaf_static : ℕ → ℕ → QTree → Option ℕ
get_leaf_static x y null = none
get_leaf_static x y (leaf i) = none
get_leaf_static x y (node child) =
    on_child (child (index x y)) (get_leaf_static (shift x) (shift y) (child (index x y)))

-- `tree` with the leaf, and whether the leaf is new.
pub record Made : Type 0 where
  pub tree : QTree
  pub at_leaf : ℕ
  pub is_new : Bool

-- A child that is not there is made.
abbrev pub made : ℕ → ℕ → QTree → QTree
made level next null = if level == 3 then leaf next else node (λ k. null)
made level next (node child) = node child
made level next (leaf i) = leaf i

abbrev pub is_null : QTree → Bool
is_null null = true
is_null (node child) = false
is_null (leaf i) = false

-- The node with the result of one of its children.
abbrev pub with_made : (ℕ → QTree) → ℕ → Bool → Option Made → Option Made
with_made child k fresh none = none
with_made child k fresh (some m) =
    some (record m { tree = node (put k m.tree child); is_new = fresh || m.is_new })

-- `next` is the number that a new leaf gets. There is no result for a null pointer, or at the end of
-- the levels.
unfoldable pub create_leaf : ℕ → ℕ → ℕ → ℕ → QTree → Option Made
create_leaf level x y next null = none
create_leaf level x y next (leaf i) = some (record { tree = leaf i; at_leaf = i; is_new = false })
create_leaf zero x y next (node child) = none
create_leaf (suc l) x y next (node child) =
    let k = index x y in
    with_made child k (is_null (child k) && suc l == 3)
      (create_leaf l (shift x) (shift y) next (made (suc l) next (child k)))
