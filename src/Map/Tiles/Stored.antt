-- ===== src/Map/Tiles/Stored.antt =====
-- The tiles of src/map.cpp as a function of the position.
use xynera_ots.Prelude.{
  ℕ, ◌%◌, ◌^◌, ◌<◌, ◌≡◌, ◌≢◌, refl, sym, ap, ap₂, subst, ◌∙◌, inl, inr, Bool, true, false,
  Bool-cases, Option, none, some, List, [], ◌∷◌, leb, if◌then◌else◌, arith,
}
use xynera_ots.Net.Message.{Pos}
use xynera_ots.Geometry.{same_position}
use xynera_ots.Map.Tree.{get_leaf, get_leaf_static, create_leaf}
use xynera_ots.Map.Tree.Leaves.{same_way, same_way_refl, create_leaf-Done}
use xynera_ots.Map.Tree.Blocks.{same_way-equal}
use xynera_ots.Map.Tiles.{
  Tiles, empty_tiles, leaf_tile, get_tile, made_leaf, merged, put_tile, set_at, set_tile, set_tiles,
}
use xynera_ots.Map.Tiles.Formed.{Formed, held, empty_tiles-Formed}
use xynera_ots.Map.Tiles.Ready.{Ready, made_leaf-Ready}
use xynera_ots.Map.Tiles.Slots.{
  get_tile-held, put_tile-Formed, put_tile-elsewhere, put_tile-here, put_there,
}

true-false : true ≡ false → ⊥
true-false e = cc

unfoldable pub InMap : Pos → Type 0
InMap p = (p.x < 2 ^ 16) × (p.y < 2 ^ 16)

module _ {T : Type 0} where
  -- setTile puts the tile in the place of its position.
  module _ (merge : T → T → T) (p : Pos) (t : T) (m : Tiles T) (h : Formed m) (hz : p.z < 16)
      (hx : p.x < 2 ^ 16) (hy : p.y < 2 ^ 16) where
    abbrev Put : Tiles T → Type 0
    Put n =
        Formed n
        × ((q : Pos)
            → q.x < 2 ^ 16
            → q.y < 2 ^ 16
            → get_tile q n
              ≡ (if same_position p q then some (merged merge (get_tile p m) t) else get_tile q m))

    module _ (i : ℕ) (n : Tiles T) (r : Ready p.x p.y m i n) where
      abbrev final : Tiles T
      final = put_tile merge i p t n

      root_of : (q : Pos) → get_leaf q.x q.y final.root ≡ get_leaf q.x q.y n.root
      unfolding put_tile
      root_of q = refl

      own : held n (some i) p.z (p.x % 8) (p.y % 8) ≡ get_tile p m
      own =
          r.here p.x p.y p.z (p.x % 8) (p.y % 8) (same_way_refl 13 p.x p.y)
          ∙ sym (get_tile-held p m h hz)

      agree :
          (q : Pos)
          → q.x < 2 ^ 16
          → q.y < 2 ^ 16
          → same_way 13 p.x p.y q.x q.y ≡ true
          → put_there merge i p t n q.z (q.x % 8) (q.y % 8) ≡ same_position p q
      agree q qx qy w = elim (Bool-cases (put_there merge i p t n q.z (q.x % 8) (q.y % 8))) [
        | inl y ↦
            let (ex, ey) =
              same_way-equal p.x p.y q.x q.y hx hy qx qy w (ground (arith, y))
                (ground (arith, y)) in
            y ∙ sym (ground (arith, y, ex, ey))
        | inr f ↦ f ∙ sym (ground (arith, f))
      ]

      apart_from : (q : Pos) → same_way 13 p.x p.y q.x q.y ≡ false → same_position p q ≡ false
      apart_from q w = elim (Bool-cases (same_position p q)) [
        | inl y ↦
            let ex : p.x ≡ q.x = ground (arith, y) in
            let ey : p.y ≡ q.y = ground (arith, y) in
            absurd (
              true-false
                (sym (same_way_refl 13 p.x p.y) ∙ ap₂ (λ c e. same_way 13 p.x p.y c e) ex ey ∙ w))
        | inr f ↦ f
      ]

      off : (q : Pos) → same_way 13 p.x p.y q.x q.y ≡ false → get_leaf q.x q.y m.root ≢ some i
      off q w e =
          let there =
            r.finds q.x q.y ∙ ap (λ c. if c then some i else get_leaf q.x q.y m.root) w ∙ e in
          let own =
            r.finds p.x p.y
            ∙ ap (λ c. if c then some i else get_leaf p.x p.y m.root) (same_way_refl 13 p.x p.y) in
          true-false (sym (r.formed.apart p.x p.y q.x q.y i own there) ∙ w)

      low :
          (q : Pos) (qx : q.x < 2 ^ 16) (qy : q.y < 2 ^ 16) (qz : q.z < 16)
          → held final (get_leaf q.x q.y final.root) q.z (q.x % 8) (q.y % 8) ≡ (
              if same_position p q
              then some (merged merge (get_tile p m) t)
              else held m (get_leaf q.x q.y m.root) q.z (q.x % 8) (q.y % 8))
      low q qx qy qz =
          let a = q.x % 8 in
          let b = q.y % 8 in
          let o = get_leaf q.x q.y m.root in
          let sp = same_position p q in
          let v = some (merged merge (get_tile p m) t) in
          elim (Bool-cases (same_way 13 p.x p.y q.x q.y)) [
            | inl w ↦
                ap (λ k. held final k q.z a b)
                  (root_of q ∙ r.finds q.x q.y ∙ ap (λ c. if c then some i else o) w)
                ∙ put_tile-here merge i p t n q.z a b
                ∙ ap₂
                    (λ c k. if put_there merge i p t n q.z a b then some (merged merge c t) else k)
                    own (r.here q.x q.y q.z a b w)
                ∙ ap (λ c. if c then v else held m o q.z a b) (agree q qx qy w)
            | inr w ↦
                ap (λ k. held final k q.z a b)
                  (root_of q ∙ r.finds q.x q.y ∙ ap (λ c. if c then some i else o) w)
                ∙ put_tile-elsewhere merge i p t n o q.z a b (off q w)
                ∙ r.elsewhere q.x q.y q.z a b w
                ∙ sym (ap (λ c. if c then v else held m o q.z a b) (apart_from q w))
          ]

      high : (q : Pos) (k : Tiles T) → leb 16 q.z ≡ true → get_tile q k ≡ none
      unfolding get_tile
      high q k y =
          ap
            (λ b.
              if b
              then none
              else leaf_tile k.leaves (get_leaf_static q.x q.y k.root) q.z (q.x % 8) (q.y % 8))
            y

      stored : Put final
      stored = (
        put_tile-Formed merge i p t n r.formed,
        λ q qx qy. elim (Bool-cases (leb 16 q.z)) [
          | inl y ↦
              let off_map : same_position p q ≡ false = ground (arith, y, hz) in
              high q final y
              ∙ sym (high q m y)
              ∙ sym (
                  ap (λ c. if c then some (merged merge (get_tile p m) t) else get_tile q m)
                    off_map)
          | inr f ↦
              let qz : q.z < 16 = ground (arith, f) in
              get_tile-held q final (put_tile-Formed merge i p t n r.formed) qz
              ∙ low q qx qy qz
              ∙ ap (λ g. if same_position p q then some (merged merge (get_tile p m) t) else g)
                  (sym (get_tile-held q m h qz))
        ],
      )

    -- Under the conditions of the section setTile keeps the tree in order, and afterwards getTile gives
    -- the new tile at its position, merged with the one that was there, and at every other position
    -- what it gave before.
    set_tile-Put : Put (set_tile merge p t m)
    unfolding set_tile
    set_tile-Put =
        let (d, e, done) = create_leaf-Done 13 p.x p.y m.next_leaf m.root h.shape h.there in
        let floor : leb 16 p.z ≡ false = ground (arith, hz) in
        let made = create_leaf 15 p.x p.y m.next_leaf m.root in
        subst (λ b. Put (if b then m else set_at merge p t m made)) (sym floor)
          (subst (λ o. Put (set_at merge p t m o)) (sym e)
            (stored d.at_leaf (made_leaf p.x p.y d m) (made_leaf-Ready p.x p.y m h d done)))

  -- The map as a function of the position, when tiles have been put in it.
  abbrev pub replace : (T → T → T) → Pos → T → (Pos → Option T) → Pos → Option T
  replace merge p t f q = if same_position p q then some (merged merge (f p) t) else f q

  unfoldable pub painted : (T → T → T) → List (Pos × T) → (Pos → Option T) → Pos → Option T
  painted merge [] f = f
  painted merge (e ∷ es) f = painted merge es (replace merge e.0 e.1 f)

  unfoldable pub AllInMap : List (Pos × T) → Type 0
  AllInMap [] = Unit
  AllInMap (e ∷ es) = InMap e.0 × (e.0.z < 16) × AllInMap es

  no_tile : (b : Bool) (o : Option T) → o ≡ none → (if b then none else o) ≡ none
  no_tile true o e = refl
  no_tile false o e = e

  empty_tile : (q : Pos) → InMap q → get_tile q (empty_tiles {T = T}) ≡ none
  unfolding get_tile get_leaf_static
  empty_tile q l = no_tile (leb 16 q.z) none refl

  set_tiles-painted_lem :
      (merge : T → T → T) (es : List (Pos × T)) (m : Tiles T) (f : Pos → Option T)
      → Formed m
      → AllInMap es
      → ((q : Pos) → InMap q → get_tile q m ≡ f q)
      → (q : Pos) → InMap q
      → get_tile q (set_tiles merge es m) ≡ painted merge es f q
  unfolding set_tiles painted AllInMap InMap
  set_tiles-painted_lem merge [] m f h a g q l = g q l
  set_tiles-painted_lem merge (e ∷ es) m f h ((ex, ey), ez, a) g q l =
      let (h', put_all) = set_tile-Put merge e.0 e.1 m h ez ex ey in
      set_tiles-painted_lem merge es (set_tile merge e.0 e.1 m) (replace merge e.0 e.1 f) h' a
        (λ k (kx, ky).
          put_all k kx ky
          ∙ ap₂ (λ c d. if same_position e.0 k then some (merged merge c e.1) else d)
              (g e.0 (ex, ey)) (g k (kx, ky)))
        q l

  -- When tiles are put one after the other in an empty map, all at positions of its 65536 columns and
  -- rows and its 16 floors, getTile gives at each position of a column and a row what a function of
  -- the position gives that has the tiles put in it one after the other, each merged with the one that
  -- was there.
  pub set_tiles-painted :
      (merge : T → T → T) (es : List (Pos × T)) (q : Pos)
      → AllInMap es
      → InMap q
      → get_tile q (set_tiles merge es empty_tiles) ≡ painted merge es (λ p. none) q
  set_tiles-painted merge es q a l =
      set_tiles-painted_lem merge es empty_tiles (λ p. none) empty_tiles-Formed a empty_tile q l
