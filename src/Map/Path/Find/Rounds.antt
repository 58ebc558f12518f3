-- ===== src/Map/Path/Find/Rounds.antt =====
-- What a round of getPathMatching of src/map.cpp keeps, and that it leaves less to search.
use xynera_ots.Prelude.{
  ℕ, ◌<◌, ◌≡◌, refl, sym, ap₂, ap, subst, ◌∙◌, inl, inr, true, false, ◌||◌, not, ltb, ◌==◌,
  Bool-cases, Option, none, some, if◌then◌else◌, arith,
}
use xynera_ots.Net.Message.{Pos}
use xynera_ots.Map.Nodes.{Node, Nodes, get_best_node, close_node}
use xynera_ots.Map.Nodes.Best.{Usable, get_best_node-Usable}
use xynera_ots.Map.Nodes.Weight.{open_count-put, bit, measure, close_node-measure}
use xynera_ots.Map.Path.{Search, Reached, go_on, full, null_tile, reach_all, neighbors_of}
use xynera_ots.Map.Path.Linked.{at, IsThere, Kin, Linked, Grows, Good}
use xynera_ots.Map.Path.Linked.Neighbours.{reach_all-Good}
use xynera_ots.Map.Target.{path_condition}
use xynera_ots.Map.Path.Find.{
  State, Outcome, no_path, finish, found_by, is_final, has_found, node_pos, Round, again, ended,
  after_all, round_at, round_best, round,
}
use xynera_ots.Map.Path.Find.Trace.{Inner, Found, Meets, Sound, finish-Sound}
use xynera_ots.Map.Path.Find.Moves.{neighbors_of-AllMove}

-- What holds between the rounds.
pub record Sane (a : Search) (s : State) : Type 0 where
  pub linked : Linked a s.nodes
  pub is_found : Found a s.nodes s.found

-- The round goes on with less to search, or ends well.
unfoldable pub RoundSound : Search → State → Round → Type 0
RoundSound a s (again s') = Sane a s' × (measure s'.nodes < measure s.nodes)
RoundSound a s (ended o) = Sound a o

Found-Grows :
    (a : Search) {s s' : Nodes} (o : Option (ℕ × Pos)) → Grows s s' → Found a s o → Found a s' o
unfolding Found
Found-Grows a none g f = tt
Found-Grows a (some (k, p)) g (l, e, m) =
    (omega (arith, l, g.more), e ∙ ap₂ (at a) (sym (g.same_x k l)) (sym (g.same_y k l)), m)

found_by-Sane :
    (a : Search) (s : State) (n : ℕ) (o : Option ℕ)
    → Sane a s
    → n < s.nodes.cur_node
    → path_condition a.sight a.fpp a.target a.creature.position
        (node_pos a (s.nodes.nodes n))
        s.best_match
      ≡ o
    → Sane a (found_by o n (node_pos a (s.nodes.nodes n)) s)
unfolding Found Meets
found_by-Sane a s n none h l e = h
found_by-Sane a s n (some b) h l e = record {
  linked = h.linked;
  is_found = (l, refl, (s.best_match, b, e));
}

found_by-nodes : (s : State) (n : ℕ) (p : Pos) (o : Option ℕ) → (found_by o n p s).nodes ≡ s.nodes
found_by-nodes s n p none = refl
found_by-nodes s n p (some b) = refl

close_node-Kin :
    (a : Search) (n : ℕ) (s : Nodes) (m : Node) (o : Option ℕ)
    → Kin a s m o
    → Kin a (close_node n s) m o
unfolding close_node Kin
close_node-Kin a n s m none h = h
close_node-Kin a n s m (some j) h = h

close_node-Linked :
    (a : Search) (n : ℕ) (s : Nodes)
    → Linked a s
    → n < s.cur_node
    → s.open_nodes n ≡ true
    → Linked a (close_node n s)
unfolding close_node
close_node-Linked a n s h l o = record {
  some_node = h.some_node;
  room = h.room;
  table = h.table;
  placed = h.placed;
  bound = h.bound;
  counted =
      let here = ap bit o in
      omega (arith, h.counted, here, open_count-put s.open_nodes s.cur_node n false l);
  kin = λ i l. close_node-Kin a n s (s.nodes i) (s.nodes i).parent (h.kin i l);
}

close_node-Found :
    (a : Search) (n : ℕ) (s : Nodes) (o : Option (ℕ × Pos))
    → Found a s o
    → Found a (close_node n s) o
unfolding close_node Found
close_node-Found a n s none h = h
close_node-Found a n s (some e) h = h

closed-Sane :
    (a : Search) (n : ℕ) (s : State) (ns : Nodes)
    → Sane a s
    → n < s.nodes.cur_node
    → s.nodes.open_nodes n ≡ true
    → Linked a ns
    → Grows s.nodes ns
    → RoundSound a s (again (record s { nodes = close_node n ns }))
unfolding RoundSound
closed-Sane a n s ns h l o k g = (
  record {
    linked = close_node-Linked a n ns k (omega (arith, l, g.more)) (g.still_open n o);
    is_found = close_node-Found a n ns s.found (Found-Grows a s.found g h.is_found);
  },
  omega (arith, close_node-measure ns n (omega (arith, l, g.more)) (g.still_open n o), g.lighter),
)

after_all-Sound :
    (a : Search) (n : ℕ) (s : State) (r : Reached)
    → Sane a s
    → n < s.nodes.cur_node
    → s.nodes.open_nodes n ≡ true
    → Good a s.nodes r
    → RoundSound a s (after_all n s r)
unfolding Good RoundSound Sound
after_all-Sound a n s (go_on ns) h l o (k, g) = closed-Sane a n s ns h l o k g
after_all-Sound a n s (full ns) h l o (k, g) = elim (Bool-cases (has_found s.found)) [
  | inl y ↦
      subst
        (λ b.
          RoundSound a s
            (if b then again (record s { nodes = close_node n ns }) else ended no_path))
        (sym y) (closed-Sane a n s ns h l o k g)
  | inr v ↦
      subst
        (λ b.
          RoundSound a s
            (if b then again (record s { nodes = close_node n ns }) else ended no_path))
        (sym v) tt
]
after_all-Sound a n s null_tile h l o t = t

-- The nodes alone say whether a round leaves less.
RoundSound-nodes :
    (a : Search) (s s' : State) (r : Round)
    → s'.nodes ≡ s.nodes
    → RoundSound a s' r
    → RoundSound a s r
unfolding RoundSound
RoundSound-nodes a s s' (again u) e (h, l) = (h, subst (λ ns. measure u.nodes < measure ns) e l)
RoundSound-nodes a s s' (ended o) e h = h

-- The search of the section, from a place with a tile, away from the border.
module _ (a : Search) (home : IsThere a a.creature.position) (inner : Inner a) where
  -- The round after the condition's answer.
  answered : State → ℕ → Option ℕ → Round
  answered s n met =
      let nd = s.nodes.nodes n in
      let p = node_pos a nd in
      let s' = found_by met n p s in
      if is_final met
      then ended (finish s'.nodes s'.found)
      else after_all n s'
          (reach_all a n nd.f p (neighbors_of a.fpp s'.nodes.nodes nd nd.parent) s'.nodes)

  ended-Sound : (s : State) (o : Outcome) → Sound a o → RoundSound a s (ended o)
  unfolding RoundSound
  ended-Sound s o h = h

  onward :
      (s : State) (n : ℕ)
      → Sane a s
      → n < s.nodes.cur_node
      → s.nodes.open_nodes n ≡ true
      → RoundSound a s (
          after_all n s (
            reach_all a n
              (s.nodes.nodes n).f
              (node_pos a (s.nodes.nodes n))
              (neighbors_of a.fpp s.nodes.nodes (s.nodes.nodes n) (s.nodes.nodes n).parent)
              s.nodes))
  onward s n h l o =
      let nd = s.nodes.nodes n in
      let ds = neighbors_of a.fpp s.nodes.nodes nd nd.parent in
      after_all-Sound a n s (reach_all a n nd.f (node_pos a nd) ds s.nodes) h l o (
        reach_all-Good a n nd.f (node_pos a nd) ds s.nodes home h.linked
          (record { there = l; cheap = omega arith; bound = h.linked.bound n l; place = refl })
          (neighbors_of-AllMove a.fpp s.nodes.nodes nd nd.parent))

  answered-Sound :
      (s : State) (n : ℕ) (met : Option ℕ)
      → Sane a s
      → n < s.nodes.cur_node
      → s.nodes.open_nodes n ≡ true
      → Sane a (found_by met n (node_pos a (s.nodes.nodes n)) s)
      → RoundSound a s (answered s n met)
  unfolding answered
  answered-Sound s n none h l o k = onward s n h l o
  answered-Sound s n (some b) h l o k =
      let nd = s.nodes.nodes n in
      let p = node_pos a nd in
      let s' : State = record s { best_match = b; found = some (n, p) } in
      let go =
        after_all n s'
          (reach_all a n nd.f p (neighbors_of a.fpp s.nodes.nodes nd nd.parent) s.nodes) in
      let stop = ended (finish s.nodes (some (n, p))) in
      elim (Bool-cases (b == 0)) [
        | inl y ↦
            subst (λ c. RoundSound a s (if c then stop else go)) (sym y)
              (RoundSound-nodes a s s' stop refl (
                ended-Sound s' (finish s.nodes (some (n, p)))
                  (finish-Sound a s.nodes (some (n, p)) inner k.linked k.is_found)))
        | inr v ↦
            subst (λ c. RoundSound a s (if c then stop else go)) (sym v)
              (RoundSound-nodes a s s' go refl (onward s' n k l o))
      ]

  round_best-Sound :
      (s : State) (o : Option ℕ) → Sane a s → Usable s.nodes o → RoundSound a s (round_best a s o)
  unfolding round_best round_at answered Usable
  round_best-Sound s none h u =
      ended-Sound s (finish s.nodes s.found)
        (finish-Sound a s.nodes s.found inner h.linked h.is_found)
  round_best-Sound s (some n) h (l, o) =
      let nd = s.nodes.nodes n in
      let met =
        path_condition a.sight a.fpp a.target a.creature.position (node_pos a nd) s.best_match in
      answered-Sound s n met h l o (found_by-Sane a s n met h l refl)

  -- Under the conditions of the section a round of the search keeps its nodes in order and leaves less
  -- to search, or ends the search with a sound result. The nodes are in order if there is one and at
  -- most 512, the table leads to the node of its position, and each node but those at the start costs
  -- more than its parent, from which it is a step that the creature is let to make; the node that was
  -- found, if any, met the condition, and `closed_nodes` counts the nodes that are not open.
  pub round-Sound : (s : State) → Sane a s → RoundSound a s (round a s)
  unfolding round
  round-Sound s h =
      let go = round_best a s (get_best_node s.nodes) in
      let stop = ended (finish s.nodes s.found) in
      elim (Bool-cases (not (a.fpp.max_search_dist == 0) || ltb s.nodes.closed_nodes 100)) [
        | inl y ↦
            subst (λ c. RoundSound a s (if c then go else stop)) (sym y)
              (round_best-Sound s (get_best_node s.nodes) h (get_best_node-Usable s.nodes))
        | inr v ↦
            subst (λ c. RoundSound a s (if c then go else stop)) (sym v)
              (ended-Sound s (finish s.nodes s.found)
                (finish-Sound a s.nodes s.found inner h.linked h.is_found))
      ]
