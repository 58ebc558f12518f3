-- ===== src/Wheel.antt =====
-- The skill wheel: its slots from src/enums.h, and getWheelNeighbours of src/tools.cpp. A slot is
-- the number it has in the source. The table is a static map that the first call fills; what a
-- call returns does not depend on that.
pub mod Links
mod Tests
use xynera_ots.Prelude.{ℕ, Bool, List, [], ◌∷◌, ◌==◌, if◌then◌else◌}

abbrev pub skillwheel_none : ℕ
skillwheel_none = 0

abbrev pub strawberry_1 : ℕ
strawberry_1 = 16

abbrev pub strawberry_2_top : ℕ
strawberry_2_top = 10

abbrev pub strawberry_2_bottom : ℕ
strawberry_2_bottom = 17

abbrev pub strawberry_3_top : ℕ
strawberry_3_top = 4

abbrev pub strawberry_3_middle : ℕ
strawberry_3_middle = 11

abbrev pub strawberry_3_bottom : ℕ
strawberry_3_bottom = 18

abbrev pub strawberry_4_top : ℕ
strawberry_4_top = 5

abbrev pub strawberry_4_bottom : ℕ
strawberry_4_bottom = 12

abbrev pub strawberry_5 : ℕ
strawberry_5 = 6

abbrev pub grape_1 : ℕ
grape_1 = 22

abbrev pub grape_2_top : ℕ
grape_2_top = 23

abbrev pub grape_2_bottom : ℕ
grape_2_bottom = 28

abbrev pub grape_3_top : ℕ
grape_3_top = 24

abbrev pub grape_3_middle : ℕ
grape_3_middle = 29

abbrev pub grape_3_bottom : ℕ
grape_3_bottom = 34

abbrev pub grape_4_top : ℕ
grape_4_top = 30

abbrev pub grape_4_bottom : ℕ
grape_4_bottom = 35

abbrev pub grape_5 : ℕ
grape_5 = 36

abbrev pub mint_1 : ℕ
mint_1 = 21

abbrev pub mint_2_top : ℕ
mint_2_top = 20

abbrev pub mint_2_bottom : ℕ
mint_2_bottom = 27

abbrev pub mint_3_top : ℕ
mint_3_top = 19

abbrev pub mint_3_middle : ℕ
mint_3_middle = 26

abbrev pub mint_3_bottom : ℕ
mint_3_bottom = 33

abbrev pub mint_4_top : ℕ
mint_4_top = 25

abbrev pub mint_4_bottom : ℕ
mint_4_bottom = 32

abbrev pub mint_5 : ℕ
mint_5 = 31

abbrev pub lime_1 : ℕ
lime_1 = 15

abbrev pub lime_2_top : ℕ
lime_2_top = 9

abbrev pub lime_2_bottom : ℕ
lime_2_bottom = 14

abbrev pub lime_3_top : ℕ
lime_3_top = 3

abbrev pub lime_3_middle : ℕ
lime_3_middle = 8

abbrev pub lime_3_bottom : ℕ
lime_3_bottom = 13

abbrev pub lime_4_top : ℕ
lime_4_top = 2

abbrev pub lime_4_bottom : ℕ
lime_4_bottom = 7

abbrev pub lime_5 : ℕ
lime_5 = 1

-- The filled map, in the order of the assignments.
abbrev pub wheel_neighbours : List (ℕ × List ℕ)
wheel_neighbours =
    (strawberry_1, strawberry_2_top ∷ strawberry_2_bottom ∷ [])
    ∷ (
      strawberry_2_top,
      strawberry_2_bottom ∷ strawberry_3_top ∷ strawberry_3_middle ∷ lime_2_top ∷ [],
    )
    ∷ (
      strawberry_2_bottom,
      strawberry_2_top ∷ strawberry_3_middle ∷ strawberry_3_bottom ∷ grape_2_top ∷ [],
    )
    ∷ (
      strawberry_3_top,
      strawberry_2_top ∷ strawberry_3_middle ∷ strawberry_4_top ∷ lime_3_top ∷ [],
    )
    ∷ (
      strawberry_3_middle,
      strawberry_2_top ∷ strawberry_2_bottom ∷ strawberry_3_top ∷ strawberry_3_bottom
          ∷ strawberry_4_top ∷ strawberry_4_bottom ∷ [],
    )
    ∷ (
      strawberry_3_bottom,
      strawberry_2_bottom ∷ strawberry_3_middle ∷ strawberry_4_bottom ∷ grape_3_top ∷ [],
    )
    ∷ (
      strawberry_4_top,
      strawberry_3_top ∷ strawberry_3_middle ∷ strawberry_4_bottom ∷ strawberry_5 ∷ [],
    )
    ∷ (
      strawberry_4_bottom,
      strawberry_3_middle ∷ strawberry_3_bottom ∷ strawberry_4_top ∷ strawberry_5 ∷ [],
    )
    ∷ (strawberry_5, strawberry_4_top ∷ strawberry_4_bottom ∷ [])
    ∷ (grape_1, grape_2_top ∷ grape_2_bottom ∷ [])
    ∷ (grape_2_top, grape_2_bottom ∷ grape_3_top ∷ grape_3_middle ∷ strawberry_2_bottom ∷ [])
    ∷ (grape_2_bottom, grape_2_top ∷ grape_3_middle ∷ grape_3_bottom ∷ mint_2_bottom ∷ [])
    ∷ (grape_3_top, grape_2_top ∷ grape_3_middle ∷ grape_4_top ∷ strawberry_3_bottom ∷ [])
    ∷ (
      grape_3_middle,
      grape_2_top ∷ grape_2_bottom ∷ grape_3_top ∷ grape_3_bottom ∷ grape_4_top ∷ grape_4_bottom
          ∷ [],
    )
    ∷ (grape_3_bottom, grape_2_bottom ∷ grape_3_middle ∷ grape_4_bottom ∷ mint_3_bottom ∷ [])
    ∷ (grape_4_top, grape_3_top ∷ grape_3_middle ∷ grape_4_bottom ∷ grape_5 ∷ [])
    ∷ (grape_4_bottom, grape_3_middle ∷ grape_3_bottom ∷ grape_4_top ∷ grape_5 ∷ [])
    ∷ (grape_5, grape_4_top ∷ grape_4_bottom ∷ [])
    ∷ (mint_1, mint_2_top ∷ mint_2_bottom ∷ [])
    ∷ (mint_2_top, mint_2_bottom ∷ mint_3_top ∷ mint_3_middle ∷ lime_2_bottom ∷ [])
    ∷ (mint_2_bottom, mint_2_top ∷ mint_3_middle ∷ mint_3_bottom ∷ grape_2_bottom ∷ [])
    ∷ (mint_3_top, mint_2_top ∷ mint_3_middle ∷ mint_4_top ∷ lime_3_bottom ∷ [])
    ∷ (
      mint_3_middle,
      mint_2_top ∷ mint_2_bottom ∷ mint_3_top ∷ mint_3_bottom ∷ mint_4_top ∷ mint_4_bottom ∷ [],
    )
    ∷ (mint_3_bottom, mint_2_bottom ∷ lime_3_bottom ∷ mint_4_bottom ∷ grape_3_bottom ∷ [])
    ∷ (mint_4_top, lime_3_top ∷ mint_3_middle ∷ mint_4_bottom ∷ mint_5 ∷ [])
    ∷ (mint_4_bottom, mint_3_middle ∷ mint_3_bottom ∷ mint_4_top ∷ mint_5 ∷ [])
    ∷ (mint_5, mint_4_top ∷ mint_4_bottom ∷ [])
    ∷ (lime_1, lime_2_top ∷ lime_2_bottom ∷ [])
    ∷ (lime_2_top, lime_2_bottom ∷ lime_3_top ∷ lime_3_middle ∷ strawberry_2_top ∷ [])
    ∷ (lime_2_bottom, lime_2_top ∷ lime_3_middle ∷ lime_3_bottom ∷ mint_2_top ∷ [])
    ∷ (lime_3_top, lime_2_top ∷ lime_3_middle ∷ lime_4_top ∷ strawberry_3_top ∷ [])
    ∷ (
      lime_3_middle,
      lime_2_top ∷ lime_2_bottom ∷ lime_3_top ∷ lime_2_bottom ∷ lime_4_top ∷ lime_4_bottom ∷ [],
    )
    ∷ (lime_3_bottom, lime_2_bottom ∷ lime_3_middle ∷ lime_4_bottom ∷ mint_3_top ∷ [])
    ∷ (lime_4_top, lime_3_top ∷ lime_3_middle ∷ lime_4_bottom ∷ lime_5 ∷ [])
    ∷ (lime_4_bottom, lime_3_middle ∷ lime_3_bottom ∷ lime_4_top ∷ lime_5 ∷ [])
    ∷ (lime_5, lime_4_top ∷ lime_4_bottom ∷ [])
    ∷ []

-- `operator[]` of a map gives an empty vector for a missing key.
abbrev pub look_up : ℕ → List (ℕ × List ℕ) → List ℕ
look_up k [] = []
look_up k ((j, v) ∷ m) = if j == k then v else look_up k m

unfoldable pub get_wheel_neighbours : ℕ → List ℕ
get_wheel_neighbours wheel_pos = look_up wheel_pos wheel_neighbours
