-- ===== src/Map/Path/Find/Trace.antt =====
-- The way back from a node to the first one, in the last loop of getPathMatching of src/map.cpp.
use xynera_ots.Prelude.{
  ℕ, zero, suc, ◌^◌, ◌≤◌, ◌<◌, ◌≡◌, ◌≢◌, refl, sym, ap, ap₂, subst, ◌∙◌, Option, none, some, List,
  [], ◌∷◌, arith,
}
use xynera_ots.Net.Message.{Pos}
use xynera_ots.Geometry.{
  Direction, no_direction, north, east, south, west, southwest, southeast, northwest, northeast,
  get_next_position,
}
use xynera_ots.Map.Nodes.{Node, Nodes}
use xynera_ots.Map.Path.{Search}
use xynera_ots.Map.Path.Linked.{at, IsAllowed, Stepped, Kin, Linked}
use xynera_ots.Map.Target.{path_condition}
use xynera_ots.Map.Path.Find.{
  Outcome, no_path, out_of_fuel, bad_tile, path, push_direction, to_path, push_to, trace,
  trace_fuel, finish,
}

-- The creature can walk from its position along the directions, from the last one to the first, and
-- comes to the given position; the search skips no place on the way.
pub data Walk (a : Search) : List Direction → Pos → Type 0 where
  here : Walk a [] a.creature.position
  onto :
      (d : Direction) (ds : List Direction) (p : Pos)
      → Walk a ds p
      → d ≢ no_direction
      → IsAllowed a (get_next_position d p)
      → Walk a (d ∷ ds) (get_next_position d p)

-- Where the creature can walk is not at the border of the map's coordinates.
unfoldable pub Inner : Search → Type 0
Inner a = (p : Pos) → IsAllowed a p → (0 < p.x) × (p.x < 65535) × (0 < p.y) × (p.y < 65535)

push_direction_lem :
    (d : Direction) (n : Node) (nx ny z : ℕ) (ds : List Direction)
    → d ≢ no_direction
    → n.x < 2 ^ 16
    → n.y < 2 ^ 16
    → (0 < nx) × (nx < 65535) × (0 < ny) × (ny < 65535)
    → nx ≡ (get_next_position d (record { x = n.x; y = n.y; z = z })).x
    → ny ≡ (get_next_position d (record { x = n.x; y = n.y; z = z })).y
    → push_direction n nx ny ds ≡ d ∷ ds
unfolding push_direction get_next_position
push_direction_lem north n nx ny z ds m hx hy h ex ey = ground arith
push_direction_lem east n nx ny z ds m hx hy h ex ey = ground arith
push_direction_lem south n nx ny z ds m hx hy h ex ey = ground arith
push_direction_lem west n nx ny z ds m hx hy h ex ey = ground arith
push_direction_lem southwest n nx ny z ds m hx hy h ex ey = ground arith
push_direction_lem southeast n nx ny z ds m hx hy h ex ey = ground arith
push_direction_lem northwest n nx ny z ds m hx hy h ex ey = ground arith
push_direction_lem northeast n nx ny z ds m hx hy h ex ey = ground arith
push_direction_lem no_direction n nx ny z ds m hx hy h ex ey = absurd (m refl)

pub trace-Walk :
    (a : Search) (s : Nodes) (fuel : ℕ) (n : Node) (o : Option ℕ)
    → Inner a
    → Linked a s
    → Kin a s n o
    → n.f ≤ fuel
    → (ds : List Direction) × (trace fuel s.nodes n.x n.y o ≡ some ds) × Walk a ds (at a n.x n.y)
unfolding trace Kin Stepped Inner
trace-Walk a s zero n none i h (ex, ey, z) l =
    ([], refl, subst (Walk a []) (ap₂ (at a) (sym ex) (sym ey)) here)
trace-Walk a s (suc fuel) n none i h (ex, ey, z) l =
    ([], refl, subst (Walk a []) (ap₂ (at a) (sym ex) (sym ey)) here)
trace-Walk a s zero n (some j) i h (lj, c, st) l = absurd (omega (arith, c, l))
trace-Walk a s (suc fuel) n (some j) i h (lj, c, (d, m, e, w)) l =
    let nj = s.nodes j in
    let (ds, q, walk) = trace-Walk a s fuel nj nj.parent i h (h.kin j lj) (omega (arith, c, l)) in
    let (px, py) = h.placed j lj in
    let pushed =
      push_direction_lem d nj n.x n.y a.creature.position.z ds m px py (i (at a n.x n.y) w)
        (ap (λ p. p.x) e) (ap (λ p. p.y) e) in
    (
      d ∷ ds,
      ap (push_to nj n.x n.y) q ∙ ap some pushed,
      subst (Walk a (d ∷ ds)) (sym e) (onto d ds (at a nj.x nj.y) walk m (subst (IsAllowed a) e w)),
    )

-- The place meets the search's condition, for some best match.
unfoldable pub Meets : Search → Pos → Type 0
Meets a p =
    (m : ℕ) × (b : ℕ) × (path_condition a.sight a.fpp a.target a.creature.position p m ≡ some b)

-- The directions lead to a place that meets the condition.
unfoldable pub Reaches : Search → List Direction → Type 0
Reaches a ds = (p : Pos) × Walk a ds p × Meets a p

-- A result is that there is no path, or a path that reaches the target.
unfoldable pub Sound : Search → Outcome → Type 0
Sound a no_path = Unit
Sound a out_of_fuel = ⊥
Sound a bad_tile = ⊥
Sound a (path ds) = Reaches a ds

-- The node that was found, with its position.
unfoldable pub Found : Search → Nodes → Option (ℕ × Pos) → Type 0
Found a s none = Unit
Found a s (some (k, p)) = (k < s.cur_node) × (p ≡ at a (s.nodes k).x (s.nodes k).y) × Meets a p

pub finish-Sound :
    (a : Search) (s : Nodes) (o : Option (ℕ × Pos))
    → Inner a
    → Linked a s
    → Found a s o
    → Sound a (finish s o)
unfolding finish Found Sound Reaches
finish-Sound a s none i h f = tt
finish-Sound a s (some (k, p)) i h (l, e, m) =
    let n = s.nodes k in
    let (ds, q, walk) =
      trace-Walk a s trace_fuel n n.parent i h (h.kin k l) (omega (arith, h.bound k l, h.room)) in
    let done : finish s (some (k, p)) ≡ path ds =
      ap (λ p. to_path (trace trace_fuel s.nodes p.x p.y n.parent)) e ∙ ap to_path q in
    subst (Sound a) (sym done) (p, subst (Walk a ds) (sym e) walk, m)
