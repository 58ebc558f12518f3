-- ===== src/Map/Path/Linked/Neighbours.antt =====
-- All neighbours of a node.
use xynera_ots.Prelude.{
  ℕ, ◌+◌, ◌*◌, ◌≤◌, ◌<◌, ◌≡◌, ◌≢◌, refl, sym, ap, ap₂, subst, ◌∙◌, inl, inr, false, Bool-cases,
  Option, none, some, List, [], ◌∷◌, leb, ◌==◌, if◌then◌else◌, arith,
}
use xynera_ots.Net.Message.{Pos}
use xynera_ots.Geometry.{Direction, no_direction, get_next_position, get_distance_x, get_distance_y}
use xynera_ots.Map.Nodes.{Node, Nodes, key, change_node, get_map_walk_cost}
use xynera_ots.Map.Path.{
  Search, Tile, can_walk_to, admitted, search_flags, get_tile_walk_cost, Reached, go_on, full,
  null_tile, offer_node, on_tile, tile_of, reach, reach_all, is_skipped, and_then,
}
use xynera_ots.Map.Path.Linked.{
  at, IsAllowed, IsThere, Stepped, Kin, Linked, Grows, Grows-refl, Grows-trans, step_cost, key-inj,
  Looks, Good, looked-Placed,
}
use xynera_ots.Map.Path.Linked.Created.{create-Good}
use xynera_ots.Map.Path.Linked.Relinked.{change-Good}

offer-Good :
    (a : Search) (n f : ℕ) (p : Pos) (s : Nodes) (o : Option ℕ) (t : Tile)
    → Linked a s
    → Looks a n f p s
    → s.node_table (key p.x p.y) ≡ o
    → (o ≡ none → IsAllowed a p)
    → Good a s (offer_node a n f p s o t)
unfolding offer_node Good
offer-Good a n f p s none t h k e w =
    let (lo, hi) = step_cost a (s.nodes n) p t f _ refl in
    create-Good a n f p s _ ((get_distance_x a.target p + get_distance_y a.target p) * 10) h k
      (w refl) lo hi
offer-Good a n f p s (some j) t h k e w =
    let newf = f + get_map_walk_cost (s.nodes n) p.x p.y + get_tile_walk_cost a.creature t in
    let (lo, hi) = step_cost a (s.nodes n) p t f newf refl in
    let (l, q) = h.table (key p.x p.y) j e in
    let (px, py, z) = looked-Placed a n f p s h k in
    let (hx, hy) = h.placed j l in
    let (ex, ey) = key-inj p.x p.y (s.nodes j).x (s.nodes j).y py hy (sym q) in
    elim (Bool-cases (leb (s.nodes j).f newf)) [
      | inl y ↦
          subst (λ b. Good a s (if b then go_on s else go_on (change_node j newf n s))) (sym y)
            (h, Grows-refl s)
      | inr v ↦
          subst (λ b. Good a s (if b then go_on s else go_on (change_node j newf n s))) (sym v)
            (change-Good a n f p s newf j h k l ex ey lo (ground (arith, v)))
    ]

-- The directions of a list lead somewhere.
unfoldable pub AllMove : List Direction → Type 0
AllMove [] = Unit
AllMove (d ∷ ds) = (d ≢ no_direction) × AllMove ds

none-some : (t : Tile) → none ≡ some t → ⊥
none-some t e = cc

admitted-there :
    (flags : ℕ) (o : Option Tile) (t : Tile) → admitted flags o ≡ some t → (u : Tile) × (o ≡ some u)
admitted-there flags none t e = absurd cc
admitted-there flags (some u) t e = (u, refl)

pub IsAllowed-IsThere : (a : Search) (p : Pos) → IsAllowed a p → IsThere a p
unfolding IsAllowed IsThere can_walk_to
IsAllowed-IsThere a p (t, e, skip) =
    let c = a.creature.walk_cache p in
    let flags = search_flags a.creature in
    let o = a.get_tile p in
    elim (Bool-cases (c == 0)) [
      | inl y ↦ absurd (
          none-some t
            (sym (ap (λ b. if b then none else (if c == 1 then o else admitted flags o)) y) ∙ e))
      | inr n ↦
          let e' =
            sym (ap (λ b. if b then none else (if c == 1 then o else admitted flags o)) n) ∙ e in
          elim (Bool-cases (c == 1)) [
            | inl z ↦ (t, sym (ap (λ b. if b then o else admitted flags o) z) ∙ e')
            | inr m ↦
                admitted-there flags o t (sym (ap (λ b. if b then o else admitted flags o) m) ∙ e')
          ]
    ]

-- A node that is there has a tile.
node-IsThere :
    (a : Search) (s : Nodes) (n : Node) (o : Option ℕ)
    → IsThere a a.creature.position
    → Kin a s n o
    → IsThere a (at a n.x n.y)
unfolding Kin Stepped
node-IsThere a s n none home (x, y, z) = subst (IsThere a) (ap₂ (at a) (sym x) (sym y)) home
node-IsThere a s n (some j) home (l, c, st) = IsAllowed-IsThere a (at a n.x n.y) st.3

on_tile-Good :
    (a : Search) (n f : ℕ) (p : Pos) (s : Nodes) (o : Option ℕ) (tile : Option Tile)
    → IsThere a a.creature.position
    → Linked a s
    → Looks a n f p s
    → s.node_table (key p.x p.y) ≡ o
    → tile ≡ tile_of a p o
    → is_skipped a p ≡ false
    → Good a s (on_tile a n f p s o tile)
unfolding Good IsAllowed IsThere on_tile can_walk_to tile_of
on_tile-Good a n f p s none (some t) home h k e q v =
    offer-Good a n f p s none t h k e (λ r. (t, sym q, v))
on_tile-Good a n f p s (some j) (some t) home h k e q v =
    offer-Good a n f p s (some j) t h k e (λ r. absurd cc)
on_tile-Good a n f p s none none home h k e q v = (h, Grows-refl s)
on_tile-Good a n f p s (some j) none home h k e q v =
    let (l, r) = h.table (key p.x p.y) j e in
    let (px, py, z) = looked-Placed a n f p s h k in
    let (ex, ey) = key-inj p.x p.y (s.nodes j).x (s.nodes j).y py (h.placed j l).1 (sym r) in
    let there = node-IsThere a s (s.nodes j) (s.nodes j).parent home (h.kin j l) in
    let (t, g) = subst (IsThere a) (ap₂ (at a) (sym ex) (sym ey) ∙ z) there in
    absurd (none-some t (q ∙ g))

reach-Good :
    (a : Search) (n f : ℕ) (p : Pos) (s : Nodes)
    → IsThere a a.creature.position
    → Linked a s
    → Looks a n f p s
    → Good a s (reach a n f p s)
unfolding reach Good
reach-Good a n f p s home h k =
    let o = s.node_table (key p.x p.y) in
    let t = tile_of a p o in
    elim (Bool-cases (is_skipped a p)) [
      | inl y ↦
          subst (λ b. Good a s (if b then go_on s else on_tile a n f p s o t)) (sym y)
            (h, Grows-refl s)
      | inr v ↦
          subst (λ b. Good a s (if b then go_on s else on_tile a n f p s o t)) (sym v)
            (on_tile-Good a n f p s o t home h k refl refl v)
    ]

-- The search stands at the node `n`.
pub record Stands (a : Search) (n f : ℕ) (p : Pos) (s : Nodes) : Type 0 where
  pub there : n < s.cur_node
  pub cheap : (s.nodes n).f ≤ f
  pub bound : f ≤ 235 * n
  pub place : p ≡ at a (s.nodes n).x (s.nodes n).y

Stands-Grows :
    (a : Search) (n f : ℕ) (p : Pos) {s s' : Nodes}
    → Grows s s'
    → Stands a n f p s
    → Stands a n f p s'
Stands-Grows a n f p g t = record {
  there = omega (arith, t.there, g.more);
  cheap = omega (arith, t.cheap, g.cheaper n t.there);
  bound = t.bound;
  place = t.place ∙ ap₂ (at a) (sym (g.same_x n t.there)) (sym (g.same_y n t.there));
}

Good-after : (a : Search) {s s' : Nodes} (r : Reached) → Grows s s' → Good a s' r → Good a s r
unfolding Good
Good-after a (go_on u) g (h, k) = (h, Grows-trans g k)
Good-after a (full u) g (h, k) = (h, Grows-trans g k)
Good-after a null_tile g t = t

Good-then :
    (a : Search) (s : Nodes) (r : Reached) (h : Nodes → Reached)
    → Good a s r
    → ((u : Nodes) → Linked a u → Grows s u → Good a u (h u))
    → Good a s (and_then r h)
unfolding Good
Good-then a s (go_on u) h (l, g) k = Good-after a (h u) g (k u l g)
Good-then a s (full u) h g k = g
Good-then a s null_tile h g k = g

pub reach_all-Good :
    (a : Search) (n f : ℕ) (p : Pos) (ds : List Direction) (s : Nodes)
    → IsThere a a.creature.position
    → Linked a s
    → Stands a n f p s
    → AllMove ds
    → Good a s (reach_all a n f p ds s)
unfolding reach_all AllMove Good
reach_all-Good a n f p [] s home h t m = (h, Grows-refl s)
reach_all-Good a n f p (d ∷ ds) s home h t (moves, m) =
    Good-then a s (reach a n f (get_next_position d p) s) (λ u. reach_all a n f p ds u)
      (reach-Good a n f (get_next_position d p) s home h (record {
        there = t.there;
        cheap = t.cheap;
        bound = t.bound;
        dir = d;
        moves = moves;
        next = ap (get_next_position d) t.place;
      }))
      (λ u l g. reach_all-Good a n f p ds u home l (Stands-Grows a n f p g t) m)
