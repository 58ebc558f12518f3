-- ===== src/Map/Tiles/Slots.antt =====
-- One tile of one floor of a leaf, in getTile and setTile of src/map.cpp.
use xynera_ots.Prelude.{
  ℕ, ◌%◌, ◌<◌, ◌≡◌, ◌≢◌, refl, sym, ap, ap₂, subst, ◌∙◌, inl, inr, Bool, true, false, ◌&&◌,
  Bool-cases, Option, none, some, leb, ◌==◌, if◌then◌else◌, arith,
}
use xynera_ots.Net.Message.{Pos}
use xynera_ots.Map.Nodes.{put}
use xynera_ots.Map.Nodes.Weight.{put_every}
use xynera_ots.Map.Tree.{leaf, get_leaf, get_leaf_static}
use xynera_ots.Map.Tree.Leaves.{Shaped}
use xynera_ots.Map.Tree.Blocks.{get_leaf_static-get_leaf}
use xynera_ots.Map.Tiles.{Tiles, floor_tile, get_tile, merged, put_tile}
use xynera_ots.Map.Tiles.Formed.{Formed, held}

put-yes : {A : Type 0} (i : ℕ) (v : A) (h : ℕ → A) (j : ℕ) → j == i ≡ true → put i v h j ≡ v
put-yes i v h j e = ap (λ b. if b then v else h j) e

put-no : {A : Type 0} (i : ℕ) (v : A) (h : ℕ → A) (j : ℕ) → j == i ≡ false → put i v h j ≡ h j
put-no i v h j e = ap (λ b. if b then v else h j) e

-- One tile of one floor is put.
put-slot :
    {T : Type 0} (floors : ℕ → Option (ℕ → ℕ → Option T)) (z0 a0 b0 : ℕ) (v : Option T) (z a b : ℕ)
    → floor_tile
        (put z0
          (some (put a0 (put b0 v (floor_tile (floors z0) a0)) (floor_tile (floors z0))))
          floors
          z)
        a
        b
      ≡ (if (z == z0) && ((a == a0) && (b == b0)) then v else floor_tile (floors z) a b)
put-slot floors z0 a0 b0 v z a b =
    let fl = floor_tile (floors z0) in
    let f = put a0 (put b0 v (fl a0)) fl in
    let else_tile = floor_tile (floors z) a b in
    elim (Bool-cases (z == z0)) [
      | inr n ↦
          ap (λ g. floor_tile g a b) (put-no z0 (some f) floors z n)
          ∙ sym (ap (λ c. if c && ((a == a0) && (b == b0)) then v else else_tile) n)
      | inl y ↦
          let ez : z0 ≡ z = ground (arith, y) in
          ap (λ g. floor_tile g a b) (put-yes z0 (some f) floors z y)
          ∙ elim (Bool-cases (a == a0)) [
            | inr n ↦
                ap (λ g. g b) (put-no a0 (put b0 v (fl a0)) fl a n)
                ∙ ap (λ q. floor_tile (floors q) a b) ez
                ∙ sym (ap₂ (λ c e. if c && (e && (b == b0)) then v else else_tile) y n)
            | inl ya ↦
                let ea : a0 ≡ a = ground (arith, ya) in
                ap (λ g. g b) (put-yes a0 (put b0 v (fl a0)) fl a ya)
                ∙ elim (Bool-cases (b == b0)) [
                  | inr n ↦
                      put-no b0 v (fl a0) b n
                      ∙ ap₂ (λ q e. floor_tile (floors q) e b) ez ea
                      ∙ sym (
                          ap₂ (λ c e. if c && (e && (b == b0)) then v else else_tile) y ya
                          ∙ ap (λ c. if c then v else else_tile) n)
                  | inl yb ↦
                      put-yes b0 v (fl a0) b yb
                      ∙ sym (
                          ap₂ (λ c e. if c && (e && (b == b0)) then v else else_tile) y ya
                          ∙ ap (λ c. if c then v else else_tile) yb)
                ]
          ]
    ]

no_leaf : (i : ℕ) → Shaped 13 (leaf i) → ⊥
unfolding Shaped
no_leaf i h = h

module _ {T : Type 0} where
  pub get_tile-held :
      (p : Pos) (m : Tiles T)
      → Formed m
      → p.z < 16
      → get_tile p m ≡ held m (get_leaf p.x p.y m.root) p.z (p.x % 8) (p.y % 8)
  unfolding get_tile
  get_tile-held p m h l =
      let low : leb 16 p.z ≡ false = ground (arith, l) in
      let a = p.x % 8 in
      let b = p.y % 8 in
      ap (λ c. if c then none else held m (get_leaf_static p.x p.y m.root) p.z a b) low
      ∙ ap (λ o. held m o p.z a b)
          (get_leaf_static-get_leaf p.x p.y m.root (λ i e. no_leaf i (subst (Shaped 13) e h.shape)))

  -- The tile is put in the place of the leaf.
  module _ (merge : T → T → T) (i : ℕ) (p : Pos) (t : T) (n : Tiles T) where
    pub put_tile-Formed : Formed n → Formed (put_tile merge i p t n)
    unfolding put_tile
    put_tile-Formed h = record {
      shape = h.shape;
      there = h.there;
      below = h.below;
      apart = h.apart;
    }

    pub put_tile-elsewhere :
        (o : Option ℕ) (z a b : ℕ)
        → o ≢ some i
        → held (put_tile merge i p t n) o z a b ≡ held n o z a b
    unfolding put_tile
    put_tile-elsewhere none z a b f = refl
    put_tile-elsewhere (some j) z a b f =
        put_every (λ q. floor_tile (q.floors z) a b ≡ held n (some j) z a b) i _ n.leaves j
          (λ e. absurd (f (ap some e))) (λ e. refl)

    abbrev pub put_there : ℕ → ℕ → ℕ → Bool
    put_there z a b = (z == p.z) && ((a == p.x % 8) && (b == p.y % 8))

    pub put_tile-here :
        (z a b : ℕ)
        → held (put_tile merge i p t n) (some i) z a b ≡ (
            if put_there z a b
            then some (merged merge (held n (some i) p.z (p.x % 8) (p.y % 8)) t)
            else held n (some i) z a b)
    unfolding put_tile
    put_tile-here z a b =
        let l = n.leaves i in
        let fl = floor_tile (l.floors p.z) in
        let v = some (merged merge (fl (p.x % 8) (p.y % 8)) t) in
        let f = put (p.x % 8) (put (p.y % 8) v (fl (p.x % 8))) fl in
        ap (λ q. floor_tile (q.floors z) a b)
          (put-yes i (record l { floors = put p.z (some f) l.floors }) n.leaves i (ground arith))
        ∙ put-slot l.floors p.z (p.x % 8) (p.y % 8) v z a b
