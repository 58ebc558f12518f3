-- ===== src/Map/Path/Linked.antt =====
-- The nodes of the search: each but the first was reached by a step of the creature from a node of
-- lower cost.
pub mod Created
pub mod Relinked
pub mod Neighbours
use xynera_ots.Prelude.{
  ℕ, zero, suc, ◌+◌, ◌-◌, ◌*◌, ◌%◌, ◌^◌, ◌≤◌, ◌<◌, ◌≡◌, ◌≢◌, refl, sym, ap, ap₂, subst, ◌∙◌, inl,
  inr, Bool, true, false, Bool-cases, Option-cases, Option, none, some, List, [], ◌∷◌, leb, ltb,
  ◌==◌, if◌then◌else◌, arith,
}
use xynera_ots.Net.Message.{Pos}
use xynera_ots.Geometry.{
  Direction, no_direction, north, east, south, west, southwest, southeast, northwest, northeast,
  get_next_position, gap, get_distance_x, get_distance_y,
}
use xynera_ots.Map.Nodes.{
  Node, Nodes, key, put, start_nodes, create_open_node, open_node, close_node, change_node,
  get_map_walk_cost, max_nodes,
}
use xynera_ots.Map.Nodes.Weight.{
  open_count, open_count-le, open_count-put, open_count-next, open_count-above, total, bit,
  put_every, measure, entry, weight,
}
use xynera_ots.Map.Path.{
  Search, Tile, can_walk_to, get_tile_walk_cost, field_cost, burn_cost, Creature, Reached, go_on,
  full, null_tile, offer_node, created, on_tile, tile_of, reach, reach_all, is_skipped, and_then,
}

abbrev pub at : Search → ℕ → ℕ → Pos
at a x y = record { x = x; y = y; z = a.creature.position.z }

-- The creature can walk to the place, and the search does not skip it.
unfoldable pub IsAllowed : Search → Pos → Type 0
IsAllowed a p = (t : Tile) × (can_walk_to a p ≡ some t) × (is_skipped a p ≡ false)

-- There is a tile.
unfoldable pub IsThere : Search → Pos → Type 0
IsThere a p = (t : Tile) × (a.get_tile p ≡ some t)

-- A step of the creature from the first place to the second, which is allowed.
unfoldable pub Stepped : Search → ℕ → ℕ → ℕ → ℕ → Type 0
Stepped a mx my nx ny =
    (d : Direction) × (d ≢ no_direction)
    × (at a nx ny ≡ get_next_position d (at a mx my))
    × IsAllowed a (at a nx ny)

-- What a node's parent is to it.
unfoldable pub Kin : Search → Nodes → Node → Option ℕ → Type 0
Kin a s n none = (n.x ≡ a.creature.position.x) × (n.y ≡ a.creature.position.y) × (n.f ≡ 0)
Kin a s n (some j) =
    (j < s.cur_node) × ((s.nodes j).f < n.f) × Stepped a (s.nodes j).x (s.nodes j).y n.x n.y

abbrev pub Placed : Node → Type 0
Placed n = (n.x < 2 ^ 16) × (n.y < 2 ^ 16)

pub record Linked (a : Search) (s : Nodes) : Type 0 where
  pub some_node : 0 < s.cur_node
  pub room : s.cur_node ≤ max_nodes
  pub table :
      (k i : ℕ) → s.node_table k ≡ some i → (i < s.cur_node) × (key (s.nodes i).x (s.nodes i).y ≡ k)
  pub placed : (i : ℕ) → i < s.cur_node → Placed (s.nodes i)
  pub bound : (i : ℕ) → i < s.cur_node → (s.nodes i).f ≤ 235 * i
  pub counted : s.closed_nodes + open_count s.open_nodes s.cur_node ≡ s.cur_node
  pub kin : (i : ℕ) → i < s.cur_node → Kin a s (s.nodes i) (s.nodes i).parent

-- Nodes are added, their costs go down, and their places stay; what is open stays so, and the
-- measure does not grow.
pub record Grows (s s' : Nodes) : Type 0 where
  pub more : s.cur_node ≤ s'.cur_node
  pub cheaper : (i : ℕ) → i < s.cur_node → (s'.nodes i).f ≤ (s.nodes i).f
  pub same_x : (i : ℕ) → i < s.cur_node → (s'.nodes i).x ≡ (s.nodes i).x
  pub same_y : (i : ℕ) → i < s.cur_node → (s'.nodes i).y ≡ (s.nodes i).y
  pub still_open : (i : ℕ) → s.open_nodes i ≡ true → s'.open_nodes i ≡ true
  pub lighter : measure s' ≤ measure s

pub Grows-refl : (s : Nodes) → Grows s s
Grows-refl s = record {
  more = omega arith;
  cheaper = λ i h. omega arith;
  same_x = λ i h. refl;
  same_y = λ i h. refl;
  still_open = λ i o. o;
  lighter = omega arith;
}

pub Grows-trans : {s t u : Nodes} → Grows s t → Grows t u → Grows s u
Grows-trans g h = record {
  more = omega (arith, g.more, h.more);
  cheaper = λ i l. omega (arith, g.cheaper i l, h.cheaper i (omega (arith, l, g.more)));
  same_x = λ i l. h.same_x i (omega (arith, l, g.more)) ∙ g.same_x i l;
  same_y = λ i l. h.same_y i (omega (arith, l, g.more)) ∙ g.same_y i l;
  still_open = λ i o. h.still_open i (g.still_open i o);
  lighter = omega (arith, g.lighter, h.lighter);
}

pub Kin-Grows :
    (a : Search) {s s' : Nodes} (n : Node) (o : Option ℕ) → Grows s s' → Kin a s n o → Kin a s' n o
unfolding Kin
Kin-Grows a n none g h = h
Kin-Grows a {s} {s'} n (some j) g (l, c, st) = (
  omega (arith, l, g.more),
  omega (arith, c, g.cheaper j l),
  subst (λ x. Stepped a x (s'.nodes j).y n.x n.y) (sym (g.same_x j l))
      (subst (λ y. Stepped a (s.nodes j).x y n.x n.y) (sym (g.same_y j l)) st),
)

start_count : 0 + open_count (put 0 true (λ i. false)) 1 ≡ 1
unfolding open_count total
start_count = refl

pub start_nodes-Linked :
    (a : Search)
    → a.creature.position.x < 2 ^ 16
    → a.creature.position.y < 2 ^ 16
    → Linked a (start_nodes a.creature.position.x a.creature.position.y)
unfolding start_nodes Kin
start_nodes-Linked a hx hy = record {
  some_node = omega arith;
  room = omega arith;
  table = λ k i e. ground (arith, e);
  placed = λ i l. (hx, hy);
  bound = λ i l. omega arith;
  counted = start_count;
  kin = λ i l. (refl, refl, refl);
}

pub burn_cost-le : (c : Creature) (n : ℕ) (o : Option (ℕ → Bool)) → burn_cost c n o ≤ 180
burn_cost-le c n none = omega arith
burn_cost-le c n (some w) = ground arith

pub field_cost-le : (c : Creature) (o : Option ℕ) → field_cost c o ≤ 180
field_cost-le c none = omega arith
field_cost-le c (some n) = burn_cost-le c n c.monster

pub get_tile_walk_cost-le : (c : Creature) (t : Tile) → get_tile_walk_cost c t ≤ 210
unfolding get_tile_walk_cost
get_tile_walk_cost-le c t = ground (arith, field_cost-le c t.field)

-- A step costs between 10 and 235.
pub step_cost :
    (a : Search) (m : Node) (p : Pos) (t : Tile) (f newf : ℕ)
    → newf ≡ f + get_map_walk_cost m p.x p.y + get_tile_walk_cost a.creature t
    → (f + 10 ≤ newf) × (newf ≤ f + 235)
step_cost a m p t f newf e =
    let c = get_tile_walk_cost-le a.creature t in (ground (arith, c), ground (arith, c))

pub key-inj : (x y x' y' : ℕ) → y < 2 ^ 16 → y' < 2 ^ 16 → key x y ≡ key x' y' → (x ≡ x') × (y ≡ y')
key-inj x y x' y' h h' e = (omega arith, omega arith)

-- Where the search stands when it looks at a neighbour `p` of the node `n`, whose cost was `f`.
pub record Looks (a : Search) (n f : ℕ) (p : Pos) (s : Nodes) : Type 0 where
  pub there : n < s.cur_node
  pub cheap : (s.nodes n).f ≤ f
  pub bound : f ≤ 235 * n
  pub dir : Direction
  pub moves : dir ≢ no_direction
  pub next : p ≡ get_next_position dir (at a (s.nodes n).x (s.nodes n).y)

pub next-Placed :
    (d : Direction) (p : Pos)
    → p.x < 2 ^ 16
    → p.y < 2 ^ 16
    → ((get_next_position d p).x < 2 ^ 16) × ((get_next_position d p).y < 2 ^ 16)
unfolding get_next_position
next-Placed north p h k = (omega arith, omega arith)
next-Placed east p h k = (omega arith, omega arith)
next-Placed south p h k = (omega arith, omega arith)
next-Placed west p h k = (omega arith, omega arith)
next-Placed southwest p h k = (omega arith, omega arith)
next-Placed southeast p h k = (omega arith, omega arith)
next-Placed northwest p h k = (omega arith, omega arith)
next-Placed northeast p h k = (omega arith, omega arith)
next-Placed no_direction p h k = (omega arith, omega arith)

pub next-floor : (d : Direction) (p : Pos) → (get_next_position d p).z ≡ p.z
unfolding get_next_position
next-floor north p = refl
next-floor east p = refl
next-floor south p = refl
next-floor west p = refl
next-floor southwest p = refl
next-floor southeast p = refl
next-floor northwest p = refl
next-floor northeast p = refl
next-floor no_direction p = refl

unfoldable pub Good : Search → Nodes → Reached → Type 0
Good a s (go_on s') = Linked a s' × Grows s s'
Good a s (full s') = Linked a s' × Grows s s'
Good a s null_tile = ⊥

-- The place of a node that is offered.
pub looked-Placed :
    (a : Search) (n f : ℕ) (p : Pos) (s : Nodes)
    → Linked a s
    → Looks a n f p s
    → (p.x < 2 ^ 16) × (p.y < 2 ^ 16) × (at a p.x p.y ≡ p)
looked-Placed a n f p s h k =
    let (hx, hy) = h.placed n k.there in
    let (px, py) = next-Placed k.dir (at a (s.nodes n).x (s.nodes n).y) hx hy in
    let z = next-floor k.dir (at a (s.nodes n).x (s.nodes n).y) in
    (
      subst (λ q. q.x < 2 ^ 16) (sym k.next) px,
      subst (λ q. q.y < 2 ^ 16) (sym k.next) py,
      ap (λ c. record { x = p.x; y = p.y; z = c }) (sym (ap (λ q. q.z) k.next ∙ z)),
    )

pub looked-Stepped :
    (a : Search) (n f : ℕ) (p : Pos) (s s' : Nodes)
    → Linked a s
    → Looks a n f p s
    → Grows s s'
    → IsAllowed a p
    → Stepped a (s'.nodes n).x (s'.nodes n).y p.x p.y
unfolding Stepped
looked-Stepped a n f p s s' h k g w =
    let (px, py, e) = looked-Placed a n f p s h k in
    (
      k.dir,
      k.moves,
      e
          ∙ k.next
          ∙ ap₂ (λ x y. get_next_position k.dir (at a x y)) (sym (g.same_x n k.there))
              (sym (g.same_y n k.there)),
      subst (IsAllowed a) (sym e) w,
    )
