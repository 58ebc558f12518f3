-- ===== src/Map/Path/Linked/Created.antt =====
-- A neighbour that has no node yet gets one.
use xynera_ots.Prelude.{
  ℕ, ◌+◌, ◌*◌, ◌≤◌, ◌<◌, ◌≡◌, refl, sym, ap, subst, inl, inr, true, false, Bool-cases, some, leb,
  ◌==◌, if◌then◌else◌, arith,
}
use xynera_ots.Net.Message.{Pos}
use xynera_ots.Map.Nodes.{Node, Nodes, key, put, create_open_node, max_nodes}
use xynera_ots.Map.Nodes.Weight.{
  open_count, open_count-next, open_count-above, bit, put_every, weight, measure, grown-measure,
}
use xynera_ots.Map.Path.{Search, created}
use xynera_ots.Map.Path.Linked.{
  IsAllowed, Kin, Placed, Linked, Grows, Grows-refl, Kin-Grows, Looks, Good, looked-Placed,
  looked-Stepped,
}

-- A new node.
module _ (a : Search) (n f : ℕ) (p : Pos) (s : Nodes) (newf g : ℕ) (h : Linked a s)
    (k : Looks a n f p s) (w : IsAllowed a p) (lo : f + 10 ≤ newf) (hi : newf ≤ f + 235)
    (free : s.cur_node < max_nodes) where
  abbrev new_node : Node
  new_node = record { parent = some n; f = newf; g = g; x = p.x; y = p.y }

  abbrev extended : Nodes
  extended = record s {
    nodes = put s.cur_node new_node s.nodes;
    open_nodes = put s.cur_node true s.open_nodes;
    node_table = put (key p.x p.y) (some s.cur_node) s.node_table;
    cur_node = s.cur_node + 1;
  }

  lighter_node :
      (i : ℕ)
      → i < s.cur_node
      → weight extended.nodes extended.open_nodes i ≤ weight s.nodes s.open_nodes i
  lighter_node i l =
      let c : i == s.cur_node ≡ false = ground arith in
      subst
        (λ b.
          2 * (if b then new_node else s.nodes i).f + bit (if b then true else s.open_nodes i)
          ≤ weight s.nodes s.open_nodes i)
        (sym c) (omega arith)

  new_weight : weight extended.nodes extended.open_nodes s.cur_node ≡ 2 * newf + 1
  new_weight =
      let c : s.cur_node == s.cur_node ≡ true = ground arith in
      ap
        (λ b.
          2 * (if b then new_node else s.nodes s.cur_node).f
          + bit (if b then true else s.open_nodes s.cur_node))
        c

  extended-measure : measure extended ≤ measure s
  unfolding measure
  extended-measure =
      grown-measure s (weight extended.nodes extended.open_nodes) (s.cur_node + 1) refl free
        lighter_node (omega (arith, new_weight, hi, k.bound, k.there, free))

  extended-Grows : Grows s extended
  extended-Grows = record {
    more = omega arith;
    cheaper = λ i l.
        put_every (λ m. m.f ≤ (s.nodes i).f) s.cur_node new_node s.nodes i
          (λ e. absurd (omega arith)) (λ e. omega arith);
    same_x = λ i l.
        put_every (λ m. m.x ≡ (s.nodes i).x) s.cur_node new_node s.nodes i
          (λ e. absurd (omega arith)) (λ e. refl);
    same_y = λ i l.
        put_every (λ m. m.y ≡ (s.nodes i).y) s.cur_node new_node s.nodes i
          (λ e. absurd (omega arith)) (λ e. refl);
    still_open =
        λ i o. put_every (λ b. b ≡ true) s.cur_node true s.open_nodes i (λ e. refl) (λ e. o);
    lighter = extended-measure;
  }

  new-Kin : Kin a extended new_node (some n)
  unfolding Kin
  new-Kin = (
    omega (arith, k.there),
    omega (arith, extended-Grows.cheaper n k.there, k.cheap, lo),
    looked-Stepped a n f p s extended h k extended-Grows w,
  )

  extended_count :
      open_count extended.open_nodes (s.cur_node + 1) ≡ open_count s.open_nodes s.cur_node + 1
  extended_count =
      let new : bit (put s.cur_node true s.open_nodes s.cur_node) ≡ 1 =
        put_every (λ c. bit c ≡ 1) s.cur_node true s.open_nodes s.cur_node (λ e. refl)
          (λ e. absurd (e refl)) in
      let old = open_count-above s.open_nodes s.cur_node s.cur_node true (omega arith) in
      let next = open_count-next (put s.cur_node true s.open_nodes) s.cur_node in
      omega (arith, new, old, next)

  extended-Linked : Linked a extended
  extended-Linked = record {
    some_node = omega arith;
    room = omega arith;
    table = λ q i e.
        put_every
          (λ o.
            o ≡ some i → (i < s.cur_node + 1) × (key (extended.nodes i).x (extended.nodes i).y ≡ q))
          (key p.x p.y) (some s.cur_node) s.node_table q
          (λ at_p here. (
            ground (arith, here),
            put_every (λ m. key m.x m.y ≡ q) s.cur_node new_node s.nodes i (λ u. sym at_p)
                (λ u. absurd (ground (arith, here, u))),
          ))
          (λ off_p there. (
            omega (arith, (h.table q i there).0),
            put_every (λ m. key m.x m.y ≡ q) s.cur_node new_node s.nodes i
                (λ u. absurd (omega (arith, u, (h.table q i there).0)))
                (λ u. (h.table q i there).1),
          ))
          e;
    placed = λ i l.
        put_every Placed s.cur_node new_node s.nodes i
          (λ e. let (px, py, q) = looked-Placed a n f p s h k in (px, py))
          (λ e. h.placed i (omega arith));
    bound = λ i l.
        put_every (λ m. m.f ≤ 235 * i) s.cur_node new_node s.nodes i
          (λ e. omega (arith, e, hi, k.bound, k.there)) (λ e. h.bound i (omega arith));
    counted = omega (arith, extended_count, h.counted);
    kin = λ i l.
        put_every (λ m. Kin a extended m m.parent) s.cur_node new_node s.nodes i (λ e. new-Kin)
          (λ e. Kin-Grows a (s.nodes i) (s.nodes i).parent extended-Grows (h.kin i (omega arith)));
  }

pub create-Good :
    (a : Search) (n f : ℕ) (p : Pos) (s : Nodes) (newf g : ℕ)
    → Linked a s
    → Looks a n f p s
    → IsAllowed a p
    → f + 10 ≤ newf
    → newf ≤ f + 235
    → Good a s (created s (create_open_node n p.x p.y newf g s))
unfolding create_open_node Good
create-Good a n f p s newf g h k w lo hi = elim (Bool-cases (leb max_nodes s.cur_node)) [
  | inl y ↦ rw y (h, Grows-refl s)
  | inr v ↦
      let free : s.cur_node < max_nodes = ground (arith, v) in
      rw v (
        extended-Linked a n f p s newf g h k w lo hi free,
        extended-Grows a n f p s newf g h k w lo hi free,
      )
]
