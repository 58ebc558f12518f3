-- ===== src/Geometry/Walk.antt =====
-- Walking from one position to another along `getDirectionTo`.
use xynera_ots.Prelude.{
  ℕ, zero, suc, ◌+◌, ◌-◌, ◌≡◌, ◌≢◌, refl, Bool, true, false, arith, ◌<◌, ltb, leb, ◌^◌,
  if◌then◌else◌,
}
use xynera_ots.Net.Message.{Pos}
use xynera_ots.Geometry.{
  Direction, no_direction, north, east, south, west, southwest, southeast, northwest, northeast,
  gap, turn, get_next_position, get_direction_to,
}

-- Off the border of the map, the direction to the next position is the one it was reached by.
pub direction-next :
    (d : Direction) (p : Pos)
    → d ≢ no_direction
    → 0 < p.x
    → p.x < 65535
    → 0 < p.y
    → p.y < 65535
    → get_direction_to p (get_next_position d p) ≡ d
unfolding get_direction_to get_next_position turn
direction-next north p n a b c e = ground arith
direction-next east p n a b c e = ground arith
direction-next south p n a b c e = ground arith
direction-next west p n a b c e = ground arith
direction-next southwest p n a b c e = ground arith
direction-next southeast p n a b c e = ground arith
direction-next northwest p n a b c e = ground arith
direction-next northeast p n a b c e = ground arith
direction-next no_direction p n a b c e = elim (n refl) [ ]

abbrev pub furthest : Pos → Pos → ℕ
furthest p q = if leb (gap p.x q.x) (gap p.y q.y) then gap p.y q.y else gap p.x q.x

-- One closer.
abbrev pub towards : ℕ → ℕ → ℕ
towards a b = if ltb a b then a + 1 else a - 1

next_x :
    (p q : Pos)
    → p.x < 2 ^ 16
    → q.x < 2 ^ 16
    → 0 < furthest p q
    → (get_next_position (get_direction_to p q) p).x
      ≡ (if leb (gap p.y q.y) (gap p.x q.x) then towards p.x q.x else p.x)
unfolding get_direction_to get_next_position turn
next_x p q a c h = ground arith

next_y :
    (p q : Pos)
    → p.y < 2 ^ 16
    → q.y < 2 ^ 16
    → 0 < furthest p q
    → (get_next_position (get_direction_to p q) p).y
      ≡ (if leb (gap p.x q.x) (gap p.y q.y) then towards p.y q.y else p.y)
unfolding get_direction_to get_next_position turn
next_y p q b d h = ground arith

gap-towards : (a b : ℕ) → 0 < gap a b → gap (towards a b) b + 1 ≡ gap a b
gap-towards a b h = ground arith

gap-step :
    (t : Bool) (a b c : ℕ)
    → c ≡ (if t then towards a b else a)
    → (t ≡ true → 0 < gap a b)
    → gap c b + (if t then 1 else 0) ≡ gap a b
gap-step true a b c e h = rw e (gap-towards a b (h refl))
gap-step false a b c e h = rw e (omega arith)

fewer :
    (dx dy x y : ℕ)
    → x + (if leb dy dx then 1 else 0) ≡ dx
    → y + (if leb dx dy then 1 else 0) ≡ dy
    → 0 < (if leb dx dy then dy else dx)
    → (if leb x y then y else x) + 1 ≡ (if leb dx dy then dy else dx)
fewer dx dy x y ex ey h = ground arith

-- One step towards a position of another row or column brings it one step closer.
pub approach :
    (p q : Pos)
    → p.x < 2 ^ 16
    → p.y < 2 ^ 16
    → q.x < 2 ^ 16
    → q.y < 2 ^ 16
    → 0 < furthest p q
    → furthest (get_next_position (get_direction_to p q) p) q + 1 ≡ furthest p q
approach p q a b c d h =
    fewer (gap p.x q.x) (gap p.y q.y) _ _
      (gap-step (leb (gap p.y q.y) (gap p.x q.x)) p.x q.x _ (next_x p q a c h) (λ t. ground arith))
      (gap-step (leb (gap p.x q.x) (gap p.y q.y)) p.y q.y _ (next_y p q b d h) (λ t. ground arith))
      h

-- Follow the direction to `q` for a number of steps.
pub follow : ℕ → Pos → Pos → Pos
follow zero q p = p
follow (suc n) q p = follow n q (get_next_position (get_direction_to p q) p)

-- The larger of the two distances is the number of steps after which the place is reached.
pub follow_arrives :
    (n : ℕ) (p q : Pos)
    → p.x < 2 ^ 16
    → p.y < 2 ^ 16
    → q.x < 2 ^ 16
    → q.y < 2 ^ 16
    → furthest p q ≡ n
    → ((follow n q p).x ≡ q.x) × ((follow n q p).y ≡ q.y)
unfolding follow
follow_arrives zero p q a b c d h = (ground arith, ground arith)
follow_arrives (suc n) p q a b c d h =
    let p' = get_next_position (get_direction_to p q) p in
    let ex = next_x p q a c (omega (arith, h)) in
    let ey = next_y p q b d (omega (arith, h)) in
    follow_arrives n p' q (ground (arith, ex)) (ground (arith, ey)) c d
      (ground (arith, approach p q a b c d))
