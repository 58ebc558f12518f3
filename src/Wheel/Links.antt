-- ===== src/Wheel/Links.antt =====
-- Which slots of the skill wheel are linked.
use xynera_ots.Prelude.{
  ℕ, ◌≡◌, ◌≤◌, inl, inr, refl, Bool, true, false, arith, ◌&&◌, ◌||◌, not, List, [], ◌∷◌, leb, ◌==◌,
  if◌then◌else◌, Bool-cases, leb→le,
}
use xynera_ots.Wheel.{
  look_up, wheel_neighbours, get_wheel_neighbours, strawberry_1, grape_1, mint_1, lime_1,
  mint_3_top, mint_3_middle, mint_3_bottom, mint_4_top, lime_3_top, lime_3_middle, lime_3_bottom,
}

unfoldable pub member : ℕ → List ℕ → Bool
member a [] = false
member a (b ∷ bs) = b == a || member a bs

unfoldable pub starts : ℕ → Bool
unfolding member
starts a = member a (strawberry_1 ∷ grape_1 ∷ mint_1 ∷ lime_1 ∷ [])

-- The links that only one end lists.
unfoldable pub one_sided : ℕ → ℕ → Bool
one_sided a b =
    (a == mint_3_top && b == mint_4_top)
    || (a == mint_3_middle && b == mint_3_bottom)
    || (a == mint_3_bottom && b == lime_3_bottom)
    || (a == mint_4_top && b == lime_3_top)
    || (a == lime_3_bottom && b == lime_3_middle)

abbrev back : ℕ → ℕ → Bool
back a b = member a (get_wheel_neighbours b)

-- A good link: another slot, no start, and listed back but at the exceptions, which are not.
good : ℕ → ℕ → Bool
unfolding member starts one_sided get_wheel_neighbours
good a b =
    leb 1 b
    && leb b 36
    && not (a == b)
    && not (starts b)
    && (if starts a || one_sided a b then not (back a b) else back a b)

all_good : ℕ → List ℕ → Bool
all_good a [] = true
all_good a (b ∷ bs) = good a b && all_good a bs

table_good : List (ℕ × List ℕ) → Bool
table_good [] = true
table_good ((a, bs) ∷ m) = all_good a bs && table_good m

all_good_sound :
    (a b : ℕ) (bs : List ℕ) → all_good a bs ≡ true → member b bs ≡ true → good a b ≡ true
unfolding all_good member
all_good_sound a b [] h k = cc
all_good_sound a b (c ∷ bs) h k = elim (Bool-cases (c == b)) [
  | inl y ↦ let same : c ≡ b = ground arith in rw (← same) (ground arith)
  | inr n ↦ all_good_sound a b bs (ground arith) (ground arith)
]

table_good_sound :
    (a b : ℕ) (m : List (ℕ × List ℕ))
    → table_good m ≡ true
    → member b (look_up a m) ≡ true
    → good a b ≡ true
unfolding table_good member
table_good_sound a b [] h k = cc
table_good_sound a b ((j, bs) ∷ m) h k = elim (Bool-cases (j == a)) [
  | inl y ↦
      let same : j ≡ a = ground arith in
      all_good_sound a b bs (rw (← same) (ground arith)) (ground arith)
  | inr n ↦ table_good_sound a b m (ground arith) (ground arith)
]

the_table : table_good wheel_neighbours ≡ true
unfolding table_good all_good good get_wheel_neighbours member starts one_sided
the_table = refl

good_parts :
    (low high other fresh lone mutual_link : Bool)
    → (low && high && not other && not fresh && (if lone then not mutual_link else mutual_link))
      ≡ true
    → (low ≡ true) × (high ≡ true) × (other ≡ false) × (fresh ≡ false) × (mutual_link ≡ not lone)
good_parts low high other fresh lone mutual_link h = ground arith

good_linked :
    (a b : ℕ)
    → good a b ≡ true
    → ((1 ≤ b) × (b ≤ 36) × (starts b ≡ false) × (a == b ≡ false))
      × (member a (get_wheel_neighbours b) ≡ not (starts a || one_sided a b))
unfolding good
good_linked a b g =
    let (low, high, other, fresh, mutual_link) =
      good_parts (leb 1 b) (leb b 36) (a == b) (starts b) (starts a || one_sided a b) (back a b)
        g in
    ((leb→le 1 b low, leb→le b 36 high, fresh, other), mutual_link)

-- Every neighbour of a slot is another slot from 1 to 36 and none of the four that the wheel starts
-- with. It has the slot as its neighbour, unless the slot is one of those four or the link is one
-- of five one-sided ones; then it has not.
pub neighbours-linked :
    (a b : ℕ)
    → member b (get_wheel_neighbours a) ≡ true
    → ((1 ≤ b) × (b ≤ 36) × (starts b ≡ false) × (a == b ≡ false))
      × (member a (get_wheel_neighbours b) ≡ not (starts a || one_sided a b))
unfolding get_wheel_neighbours
neighbours-linked a b h = good_linked a b (table_good_sound a b wheel_neighbours the_table h)
