-- ===== src/Map/Tree/Blocks.antt =====
-- Positions in one leaf of the quadtree of src/map.h.
use xynera_ots.Prelude.{
  ℕ, zero, suc, ◌+◌, ◌*◌, ◌%◌, ◌^◌, ◌<◌, ◌≡◌, ◌≢◌, refl, ap, ◌∙◌, Bool, true, false, ◌&&◌, ◌==◌,
  arith,
}
use xynera_ots.Map.Tree.{QTree, null, node, leaf, index, shift, get_leaf, get_leaf_static, on_child}
use xynera_ots.Map.Tree.Leaves.{same_way, Shaped}

both : (a b : Bool) → (a && b) ≡ true → (a ≡ true) × (b ≡ true)
both true b e = (refl, e)
both false b e = absurd cc

-- `w` doubled `d` times.
doubled : ℕ → ℕ → ℕ
doubled zero w = w
doubled (suc d) w = doubled d (2 * w)

-- Positions with the same way down lie closer and closer.
same_way-near :
    (d x y u v w : ℕ)
    → same_way d x y u v ≡ true
    → doubled d w ≡ 2 ^ 16
    → (x % 2 ^ 16 < u % 2 ^ 16 + w)
      × (u % 2 ^ 16 < x % 2 ^ 16 + w)
      × (y % 2 ^ 16 < v % 2 ^ 16 + w)
      × (v % 2 ^ 16 < y % 2 ^ 16 + w)
unfolding same_way doubled
same_way-near zero x y u v w e h = (omega arith, omega arith, omega arith, omega arith)
same_way-near (suc d) x y u v w e h =
    let (i, r) =
      both (index x y == index u v) (same_way d (shift x) (shift y) (shift u) (shift v)) e in
    let (a, b, a', b') = same_way-near d (shift x) (shift y) (shift u) (shift v) (2 * w) r h in
    let same : index x y ≡ index u v = ground (arith, i) in
    (
      omega (arith, a, same),
      omega (arith, b, same),
      omega (arith, a', same),
      omega (arith, b', same),
    )

pub same_way-equal :
    (x y u v : ℕ)
    → x < 2 ^ 16
    → y < 2 ^ 16
    → u < 2 ^ 16
    → v < 2 ^ 16
    → same_way 13 x y u v ≡ true
    → x % 8 ≡ u % 8
    → y % 8 ≡ v % 8
    → (x ≡ u) × (y ≡ v)
unfolding doubled
same_way-equal x y u v hx hy hu hv e ex ey =
    let (a, b, a', b') = same_way-near 13 x y u v 8 e refl in
    (omega (arith, a, b, ex), omega (arith, a', b', ey))

-- Two positions with the way of a third one have the same way.
pub same_way-join :
    (d x y u v u' v' : ℕ)
    → same_way d x y u v ≡ true
    → same_way d x y u' v' ≡ true
    → same_way d u v u' v' ≡ true
unfolding same_way
same_way-join zero x y u v u' v' e e' = refl
same_way-join (suc d) x y u v u' v' e e' =
    let (i, r) =
      both (index x y == index u v) (same_way d (shift x) (shift y) (shift u) (shift v)) e in
    let (i', r') =
      both (index x y == index u' v') (same_way d (shift x) (shift y) (shift u') (shift v')) e' in
    let b : index u v == index u' v' ≡ true = ground (arith, i, i') in
    ap (λ c. c && same_way d (shift u) (shift v) (shift u') (shift v')) b
    ∙ same_way-join d (shift x) (shift y) (shift u) (shift v) (shift u') (shift v') r r'

pub get_leaf-same_way :
    (d x y u v : ℕ) (t : QTree)
    → Shaped d t
    → same_way d x y u v ≡ true
    → get_leaf x y t ≡ get_leaf u v t
unfolding same_way get_leaf Shaped
get_leaf-same_way d x y u v null h e = refl
get_leaf-same_way zero x y u v (leaf i) h e = refl
get_leaf-same_way zero x y u v (node child) h e = absurd h
get_leaf-same_way (suc d) x y u v (leaf i) h e = absurd h
get_leaf-same_way (suc d) x y u v (node child) h e =
    let (i, r) =
      both (index x y == index u v) (same_way d (shift x) (shift y) (shift u) (shift v)) e in
    let same : index x y ≡ index u v = ground (arith, i) in
    get_leaf-same_way d (shift x) (shift y) (shift u) (shift v) (child (index x y)) (h (index x y))
      r
    ∙ ap (λ k. get_leaf (shift u) (shift v) (child k)) same

-- Both walks down find the same leaf from a node.
on_child-get_leaf : (x y : ℕ) (t : QTree) → on_child t (get_leaf_static x y t) ≡ get_leaf x y t
unfolding get_leaf get_leaf_static
on_child-get_leaf x y null = refl
on_child-get_leaf x y (leaf i) = refl
on_child-get_leaf x y (node child) = on_child-get_leaf (shift x) (shift y) (child (index x y))

pub get_leaf_static-get_leaf :
    (x y : ℕ) (t : QTree) → ((i : ℕ) → t ≢ leaf i) → get_leaf_static x y t ≡ get_leaf x y t
unfolding get_leaf get_leaf_static
get_leaf_static-get_leaf x y null h = refl
get_leaf_static-get_leaf x y (leaf i) h = absurd (h i refl)
get_leaf_static-get_leaf x y (node child) h =
    on_child-get_leaf (shift x) (shift y) (child (index x y))
