-- ===== src/Map/Tiles/Tests.antt =====
-- Tiles put in an empty map. A tile is the list of its things.
use xynera_ots.Prelude.{ℕ, ◌≡◌, refl, none, some, List, [], ◌∷◌, ◌++◌, arith}
use xynera_ots.Net.Message.{Pos}
use xynera_ots.Map.Tree.{get_leaf, get_leaf_static, create_leaf}
use xynera_ots.Map.Tiles.{
  Tiles, empty_tiles, get_tile, link, made_leaf, put_tile, set_tile, set_tiles,
}
use xynera_ots.Map.Tiles.Stored.{set_tiles-painted, painted, InMap, AllInMap}

abbrev at_spot : ℕ → ℕ → ℕ → Pos
at_spot x y z = record { x = x; y = y; z = z }

abbrev both_things : List ℕ → List ℕ → List ℕ
both_things old new = old ++ new

abbrev three : List (Pos × List ℕ)
three =
    (at_spot 1000 2000 7, 1 ∷ [])
    ∷ (at_spot 1003 2001 7, 2 ∷ [])
    ∷ (at_spot 1000 2000 7, 3 ∷ [])
    ∷ []

three_there :
    get_tile (at_spot 1000 2000 7) (set_tiles both_things three empty_tiles) ≡ some (1 ∷ 3 ∷ [])
unfolding get_tile get_leaf_static get_leaf create_leaf link made_leaf put_tile set_tile set_tiles
three_there = refl

beside_there : get_tile (at_spot 1001 2000 7) (set_tiles both_things three empty_tiles) ≡ none
unfolding get_tile get_leaf_static get_leaf create_leaf link made_leaf put_tile set_tile set_tiles
beside_there = refl

-- A leaf to the east is linked, and the one around the edge of the coordinates too.
around : Tiles (List ℕ)
around =
    set_tiles both_things
      ((at_spot 0 8 7, 1 ∷ []) ∷ (at_spot 8 8 7, 2 ∷ []) ∷ (at_spot 65535 8 7, 3 ∷ []) ∷ [])
      empty_tiles

around_links : ((around.leaves 0).leaf_e ≡ some 1) × ((around.leaves 2).leaf_e ≡ some 0)
unfolding around get_leaf create_leaf link made_leaf put_tile set_tile set_tiles
around_links = (refl, refl)

three-AllInMap : AllInMap three
unfolding AllInMap InMap
three-AllInMap = (
  (omega arith, omega arith),
  omega arith,
  ((omega arith, omega arith), omega arith, ((omega arith, omega arith), omega arith, tt)),
)

in_map : InMap (at_spot 1000 2000 7)
unfolding InMap
in_map = (omega arith, omega arith)

set_tiles-painted_example :
    get_tile (at_spot 1000 2000 7) (set_tiles both_things three empty_tiles)
    ≡ painted both_things three (λ p. none) (at_spot 1000 2000 7)
set_tiles-painted_example =
    set_tiles-painted both_things three (at_spot 1000 2000 7) three-AllInMap in_map
