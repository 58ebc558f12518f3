-- ===== src/Geometry/Tests.antt =====
-- The theorems of Geometry at concrete positions.
use xynera_ots.Prelude.{◌≡◌, refl, true, arith}
use xynera_ots.Net.Message.{Pos}
use xynera_ots.Geometry.{north, northwest, get_next_position, get_direction_to, before, after}
use xynera_ots.Geometry.Walk.{direction-next, follow, follow_arrives}

abbrev temple : Pos
temple = record { x = 100; y = 200; z = 7 }

abbrev depot : Pos
depot = record { x = 103; y = 198; z = 7 }

abbrev roof : Pos
roof = record { x = 100; y = 200; z = 6 }

-- A place straight above lies in the north-west.
straight_up : get_direction_to temple roof ≡ northwest
unfolding get_direction_to
straight_up = refl

-- A position is after itself.
after_itself : after temple temple ≡ true
unfolding after before
after_itself = refl

direction-next_example : get_direction_to temple (get_next_position north temple) ≡ north
direction-next_example =
    direction-next north temple (λ e. ground arith) (omega arith) (omega arith) (omega arith)
      (omega arith)

follow_arrives_example : ((follow 3 depot temple).x ≡ 103) × ((follow 3 depot temple).y ≡ 198)
follow_arrives_example =
    follow_arrives 3 temple depot (omega arith) (omega arith) (omega arith) (omega arith) refl
