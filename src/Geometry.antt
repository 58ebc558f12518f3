-- ===== src/Geometry.antt =====
-- Positions and directions: src/position.h, and getNextPosition and getDirectionTo of
-- src/tools.cpp. A coordinate is a number below 2^16, a floor one below 2^8; the signed offsets of
-- the code show up as comparisons and absolute differences.
pub mod Order
pub mod Walk
mod Tests
use xynera_ots.Prelude.{
  ℕ, ◌+◌, ◌-◌, ◌%◌, ◌^◌, Bool, true, false, ◌&&◌, not, ltb, leb, ◌==◌, if◌then◌else◌,
}
use xynera_ots.Net.Message.{Pos}

pub data Direction : Type 0 where
  north east south west southwest southeast northwest northeast no_direction : Direction

abbrev pub up16 : ℕ → ℕ
up16 n = (n + 1) % 2 ^ 16

abbrev pub down16 : ℕ → ℕ
down16 n = (n + 2 ^ 16 - 1) % 2 ^ 16

unfoldable pub get_next_position : Direction → Pos → Pos
get_next_position north p = record p { y = down16 p.y }
get_next_position south p = record p { y = up16 p.y }
get_next_position west p = record p { x = down16 p.x }
get_next_position east p = record p { x = up16 p.x }
get_next_position southwest p = record p { x = down16 p.x; y = up16 p.y }
get_next_position northwest p = record p { x = down16 p.x; y = down16 p.y }
get_next_position northeast p = record p { x = up16 p.x; y = down16 p.y }
get_next_position southeast p = record p { x = up16 p.x; y = up16 p.y }
get_next_position no_direction p = p

-- The absolute value of the difference.
abbrev pub gap : ℕ → ℕ → ℕ
gap a b = (a - b) + (b - a)

abbrev pub get_distance_x : Pos → Pos → ℕ
get_distance_x p1 p2 = gap p1.x p2.x

abbrev pub get_distance_y : Pos → Pos → ℕ
get_distance_y p1 p2 = gap p1.y p2.y

abbrev pub get_distance_z : Pos → Pos → ℕ
get_distance_z p1 p2 = gap p1.z p2.z

-- The bounds are the template's arguments.
abbrev pub are_in_range : ℕ → ℕ → ℕ → Pos → Pos → Bool
are_in_range dx dy dz p1 p2 =
    leb (get_distance_x p1 p2) dx && leb (get_distance_y p1 p2) dy && leb (get_distance_z p1 p2) dz

-- operator==
abbrev pub same_position : Pos → Pos → Bool
same_position p q = q.x == p.x && q.y == p.y && q.z == p.z

-- operator<
unfoldable pub before : Pos → Pos → Bool
before p q =
    if ltb p.z q.z
    then true
    else (if ltb q.z p.z
        then false
        else (if ltb p.y q.y
            then true
            else (if ltb q.y p.y
                then false
                else (if ltb p.x q.x then true else (if ltb q.x p.x then false else false)))))

-- operator>
unfoldable pub after : Pos → Pos → Bool
unfolding before
after p q = not (before p q)

-- The part behind the choice of `dir` from the sign of the first offset; `upwards` tells that the
-- second one is not negative.
turn : Bool → Bool → ℕ → ℕ → Direction
turn eastward true dx dy =
    if ltb dx dy
    then north
    else (if dy == dx
        then (if eastward then northeast else northwest)
        else (if eastward then east else west))
turn eastward false dx dy =
    if ltb dx dy
    then south
    else (if dy == dx
        then (if eastward then southeast else southwest)
        else (if eastward then east else west))

unfoldable pub get_direction_to : Pos → Pos → Direction
unfolding turn
get_direction_to from to =
    if same_position from to
    then no_direction
    else turn (ltb from.x to.x) (leb to.y from.y) (get_distance_x from to) (get_distance_y from to)
