-- ===== src/Storage/Otb/Format/Tests.antt =====
-- A small file, loaded.
use xynera_ots.Prelude.{ℕ, ◌≡◌, refl, ◌++◌, some, none, List, [], ◌∷◌, arith}
use xynera_ots.Storage.Otb.{Node, load}
use xynera_ots.Storage.Otb.Format.{Tree, tree, leaf, branch, escape, print, Shows}
use xynera_ots.Storage.Otb.Format.RoundTrip.{load-print}

abbrev otbm : List ℕ
otbm = 79 ∷ 84 ∷ 66 ∷ 77 ∷ []

abbrev some_tree : Tree
some_tree = tree 0 (1 ∷ 0xFE ∷ []) (branch (tree 6 (0xFF ∷ []) leaf) leaf)

printed :
    print some_tree [] ≡ 0xFE ∷ 0 ∷ 1 ∷ 0xFD ∷ 0xFE ∷ 0xFE ∷ 6 ∷ 0xFD ∷ 0xFF ∷ 0xFF ∷ 0xFF ∷ []
unfolding print escape
printed = refl

load-print_example :
    (n : Node) × (load otbm (otbm ++ print some_tree []) ≡ some n) × Shows n some_tree
load-print_example = load-print otbm some_tree refl (rw printed (omega arith))

-- The least tree is one byte too short for the constructor's check.
smallest_refused : load otbm (otbm ++ 0xFE ∷ 0 ∷ 0xFF ∷ []) ≡ none
unfolding load
smallest_refused = refl
