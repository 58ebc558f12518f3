-- ===== src/Map/Path/Linked/Relinked.antt =====
-- A node that is reached at a lower cost gets another parent.
use xynera_ots.Prelude.{
  ℕ, ◌+◌, ◌-◌, ◌*◌, ◌^◌, ◌≤◌, ◌<◌, ◌≡◌, ◌≢◌, refl, sym, ap, ap₂, subst, ◌∙◌, inl, inr, Bool, true,
  false, Bool-cases, Option, none, some, arith,
}
use xynera_ots.Net.Message.{Pos}
use xynera_ots.Map.Nodes.{Node, Nodes, key, put, open_node, change_node}
use xynera_ots.Map.Nodes.Weight.{
  open_count, open_count-le, open_count-put, bit, put_every, weight, bit-le, measure, total-le,
}
use xynera_ots.Map.Path.{Search}
use xynera_ots.Map.Path.Linked.{
  at, IsAllowed, Stepped, Kin, Linked, Grows, Kin-Grows, Looks, looked-Placed, looked-Stepped,
}

-- A node `j` that is there, with a lower cost.
module _ (a : Search) (n f : ℕ) (p : Pos) (s : Nodes) (newf j : ℕ) (h : Linked a s)
    (k : Looks a n f p s) (there : j < s.cur_node) (px : p.x ≡ (s.nodes j).x)
    (py : p.y ≡ (s.nodes j).y) (lo : f + 10 ≤ newf) (lower : newf < (s.nodes j).f) where
  abbrev cheaper_node : Node
  cheaper_node = record (s.nodes j) { f = newf; parent = some n }

  -- Whatever becomes of the flags and the count of closed nodes.
  module _ (flags : ℕ → Bool) (closed : ℕ) (kept : (i : ℕ) → s.open_nodes i ≡ true → flags i ≡ true)
      (counted_too : closed + open_count flags s.cur_node ≡ s.cur_node)
      (flag_of : (i : ℕ) → i ≢ j → flags i ≡ s.open_nodes i) where
    abbrev relinked : Nodes
    relinked = record s {
      nodes = put j cheaper_node s.nodes;
      open_nodes = flags;
      closed_nodes = closed;
    }

    relinked-measure : measure relinked ≤ measure s
    unfolding measure
    relinked-measure = omega (
      arith,
      total-le (weight relinked.nodes flags) (weight s.nodes s.open_nodes) s.cur_node (λ i l.
          put_every (λ m. 2 * m.f + bit (flags i) ≤ weight s.nodes s.open_nodes i) j cheaper_node
            s.nodes i
            (λ e.
              subst (λ q. 2 * newf + bit (flags i) ≤ weight s.nodes s.open_nodes q) (sym e)
                (omega (arith, lower, bit-le (flags i))))
            (λ e.
              subst (λ b. 2 * (s.nodes i).f + bit b ≤ weight s.nodes s.open_nodes i)
                (sym (flag_of i e)) (omega arith))),
    )

    relinked-Grows : Grows s relinked
    relinked-Grows = record {
      more = omega arith;
      cheaper = λ i l.
          put_every (λ m. m.f ≤ (s.nodes i).f) j cheaper_node s.nodes i
            (λ e. subst (λ q. newf ≤ (s.nodes q).f) (sym e) (omega (arith, lower)))
            (λ e. omega arith);
      same_x = λ i l.
          put_every (λ m. m.x ≡ (s.nodes i).x) j cheaper_node s.nodes i
            (λ e. ap (λ q. (s.nodes q).x) (sym e)) (λ e. refl);
      same_y = λ i l.
          put_every (λ m. m.y ≡ (s.nodes i).y) j cheaper_node s.nodes i
            (λ e. ap (λ q. (s.nodes q).y) (sym e)) (λ e. refl);
      still_open = kept;
      lighter = relinked-measure;
    }

    walkable :
        (o : Option ℕ) → Kin a s (s.nodes j) o → IsAllowed a (at a (s.nodes j).x (s.nodes j).y)
    unfolding Kin Stepped
    walkable none (x, y, z) = absurd (omega (arith, z, lower))
    walkable (some i) (l, c, st) = st.3

    relinked-Kin : Kin a relinked cheaper_node (some n)
    unfolding Kin
    relinked-Kin =
        let (qx, qy, e) = looked-Placed a n f p s h k in
        let w = walkable (s.nodes j).parent (h.kin j there) in
        let w' : IsAllowed a p = subst (IsAllowed a) (ap₂ (at a) (sym px) (sym py) ∙ e) w in
        (
          k.there,
          omega (arith, relinked-Grows.cheaper n k.there, k.cheap, lo),
          subst (λ x. Stepped a (relinked.nodes n).x (relinked.nodes n).y x (s.nodes j).y) px
              (subst (λ y. Stepped a (relinked.nodes n).x (relinked.nodes n).y p.x y) py
                (looked-Stepped a n f p s relinked h k relinked-Grows w')),
        )

    relinked-Linked : Linked a relinked
    relinked-Linked = record {
      some_node = h.some_node;
      room = h.room;
      table = λ q i e.
          let (l, m) = h.table q i e in
          (l, ap₂ key (relinked-Grows.same_x i l) (relinked-Grows.same_y i l) ∙ m);
      placed = λ i l. (
        subst (λ x. x < 2 ^ 16) (sym (relinked-Grows.same_x i l)) (h.placed i l).0,
        subst (λ x. x < 2 ^ 16) (sym (relinked-Grows.same_y i l)) (h.placed i l).1,
      );
      counted = counted_too;
      bound = λ i l. omega (arith, relinked-Grows.cheaper i l, h.bound i l);
      kin = λ i l.
          put_every (λ m. Kin a relinked m m.parent) j cheaper_node s.nodes i (λ e. relinked-Kin)
            (λ e. Kin-Grows a (s.nodes i) (s.nodes i).parent relinked-Grows (h.kin i l));
    }

pub change-Good :
    (a : Search) (n f : ℕ) (p : Pos) (s : Nodes) (newf j : ℕ)
    → Linked a s
    → Looks a n f p s
    → j < s.cur_node
    → p.x ≡ (s.nodes j).x
    → p.y ≡ (s.nodes j).y
    → f + 10 ≤ newf
    → newf < (s.nodes j).f
    → Linked a (change_node j newf n s) × Grows s (change_node j newf n s)
unfolding change_node open_node
change-Good a n f p s newf j h k there px py lo lower =
    let kept : (i : ℕ) → s.open_nodes i ≡ true → put j true s.open_nodes i ≡ true =
      λ i o. put_every (λ b. b ≡ true) j true s.open_nodes i (λ e. refl) (λ e. o) in
    let flag_of : (i : ℕ) → i ≢ j → put j true s.open_nodes i ≡ s.open_nodes i = λ i m.
      put_every (λ b. b ≡ s.open_nodes i) j true s.open_nodes i (λ e. absurd (m e)) (λ e. refl) in
    let opened = put j true s.open_nodes in
    let c = s.closed_nodes in
    let one_less : s.open_nodes j ≡ false → c - 1 + open_count opened s.cur_node ≡ s.cur_node = λ v.
      let closed = ap bit v in
      let put_one = open_count-put s.open_nodes s.cur_node j true there in
      omega (arith, h.counted, closed, put_one, open_count-le opened s.cur_node) in
    elim (Bool-cases (s.open_nodes j)) [
      | inl y ↦ rw y (
        relinked-Linked a n f p s newf j h k there px py lo lower s.open_nodes c (λ i o. o)
            h.counted (λ i m. refl),
        relinked-Grows a n f p s newf j h k there px py lo lower s.open_nodes c (λ i o. o) h.counted
            (λ i m. refl),
      )
      | inr v ↦ rw v (
        relinked-Linked a n f p s newf j h k there px py lo lower opened (c - 1) kept (one_less v)
            flag_of,
        relinked-Grows a n f p s newf j h k there px py lo lower opened (c - 1) kept (one_less v)
            flag_of,
      )
    ]
