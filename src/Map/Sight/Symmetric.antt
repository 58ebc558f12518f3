-- ===== src/Map/Sight/Symmetric.antt =====
-- On one floor the line of sight of src/map.cpp is the same both ways.
use xynera_ots.Prelude.{
  ℕ, ◌-◌, ◌≡◌, refl, sym, ap, ap₂, ◌∙◌, Bool, true, false, ◌&&◌, ◌||◌, not, ltb, ◌==◌,
  if◌then◌else◌, arith,
}
use xynera_ots.Net.Message.{Pos}
use xynera_ots.Geometry.{gap}
use xynera_ots.Map.Sight.{
  Sight, is_tile_clear, check_sight_line, same_floor_clear, is_sight_clear, can_throw_object_to,
}

gap_comm : (x y : ℕ) → gap x y ≡ gap y x
gap_comm x y = ground arith

and_swap : (a b c : Bool) → (a && (b && c)) ≡ (b && (a && c))
and_swap true true c = refl
and_swap true false c = refl
and_swap false true c = refl
and_swap false false c = refl

check_sight_line-symmetric :
    (a : Sight) (x0 y0 x1 y1 z : ℕ)
    → check_sight_line a x0 y0 x1 y1 z ≡ check_sight_line a x1 y1 x0 y0 z
unfolding check_sight_line
check_sight_line-symmetric a x0 y0 x1 y1 z = ground arith

same_floor_clear-symmetric :
    (a : Sight) (p q : Pos) (s : Bool)
    → p.z ≡ q.z
    → same_floor_clear a p q s ≡ same_floor_clear a q p s
unfolding same_floor_clear
same_floor_clear-symmetric a p q s e =
    let near = λ (x y : ℕ). ltb x 2 && ltb y 2 in
    let one = check_sight_line a p.x p.y q.x q.y p.z in
    let two = check_sight_line a q.x q.y p.x p.y q.z in
    let same : one ≡ two =
      check_sight_line-symmetric a p.x p.y q.x q.y p.z
      ∙ ap (check_sight_line a q.x q.y p.x p.y) e in
    let over = λ (z : ℕ).
      is_tile_clear a p.x p.y z true
      && (is_tile_clear a q.x q.y z true && check_sight_line a p.x p.y q.x q.y z) in
    let back = λ (z : ℕ).
      is_tile_clear a q.x q.y z true
      && (is_tile_clear a p.x p.y z true && check_sight_line a q.x q.y p.x p.y z) in
    let turned : (z : ℕ) → over z ≡ back z = λ z.
      and_swap (is_tile_clear a p.x p.y z true) (is_tile_clear a q.x q.y z true)
        (check_sight_line a p.x p.y q.x q.y z)
      ∙ ap (λ c. is_tile_clear a q.x q.y z true && (is_tile_clear a p.x p.y z true && c))
          (check_sight_line-symmetric a p.x p.y q.x q.y z) in
    ap₂
      (λ x y.
        if near x y
        then true
        else (if one || s then one else (if p.z == 0 then true else over (p.z - 1))))
      (gap_comm p.x q.x) (gap_comm p.y q.y)
    ∙ ap₂
        (λ c o.
          if near (gap q.x p.x) (gap q.y p.y)
          then true
          else (if c || s then c else (if p.z == 0 then true else o)))
        same (turned (p.z - 1))
    ∙ ap
        (λ z.
          if near (gap q.x p.x) (gap q.y p.y)
          then true
          else (if two || s then two else (if z == 0 then true else back (z - 1))))
        e

is_sight_clear-same_floor :
    (a : Sight) (p q : Pos) (s : Bool)
    → p.z ≡ q.z
    → is_sight_clear a p q s ≡ same_floor_clear a p q s
unfolding is_sight_clear
is_sight_clear-same_floor a p q s e = ground (arith, e)

-- Between two positions of one floor canThrowObjectTo answers the same both ways, with and without
-- the line of sight, and whether the line may go over an obstacle or not.
pub can_throw_object_to-symmetric :
    (a : Sight) (p q : Pos) (c s : Bool) (range_x range_y : ℕ)
    → p.z ≡ q.z
    → can_throw_object_to a p q c s range_x range_y ≡ can_throw_object_to a q p c s range_x range_y
unfolding can_throw_object_to
can_throw_object_to-symmetric a p q c s rx ry e =
    let clear =
      is_sight_clear-same_floor a p q s e
      ∙ same_floor_clear-symmetric a p q s e
      ∙ sym (is_sight_clear-same_floor a q p s (sym e)) in
    ap₂ (λ x y. if ltb rx x || ltb ry y then false else not c || is_sight_clear a p q s)
      (gap_comm p.x q.x) (gap_comm p.y q.y)
    ∙ ap (λ b. if ltb rx (gap q.x p.x) || ltb ry (gap q.y p.y) then false else not c || b) clear
