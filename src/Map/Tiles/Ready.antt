-- ===== src/Map/Tiles/Ready.antt =====
-- What setTile of src/map.cpp has after createLeaf.
use xynera_ots.Prelude.{
  ℕ, ◌<◌, ◌≡◌, ◌⊎◌, refl, sym, ap, subst, ◌∙◌, inl, inr, true, false, Bool-cases, Option, none,
  some, if◌then◌else◌, arith,
}
use xynera_ots.Map.Nodes.Weight.{put_every}
use xynera_ots.Map.Tree.{get_leaf, Made}
use xynera_ots.Map.Tree.Leaves.{same_way, Done}
use xynera_ots.Map.Tree.Blocks.{same_way-join, get_leaf-same_way}
use xynera_ots.Map.Tiles.{Tiles, blank, floor_tile, link, with_leaf, made_leaf}
use xynera_ots.Map.Tiles.Formed.{Formed, held, link-Alike, Formed-Alike, held-Alike}

some-inj : {a b : ℕ} → some a ≡ some b → a ≡ b
some-inj e = cc

module _ {T : Type 0} where
  -- After createLeaf: the tree finds the leaf where the way is the same, and the leaf has the floors
  -- that its place had.
  pub record Ready (x y : ℕ) (m : Tiles T) (i : ℕ) (n : Tiles T) : Type 0 where
    pub formed : Formed n
    pub finds :
        (u v : ℕ)
        → get_leaf u v n.root ≡ (if same_way 13 x y u v then some i else get_leaf u v m.root)
    pub here :
        (u v z a b : ℕ)
        → same_way 13 x y u v ≡ true
        → held n (some i) z a b ≡ held m (get_leaf u v m.root) z a b
    pub elsewhere :
        (u v z a b : ℕ)
        → same_way 13 x y u v ≡ false
        → held n (get_leaf u v m.root) z a b ≡ held m (get_leaf u v m.root) z a b

  -- The leaf that createLeaf gives, which was there or not.
  module _ (x y : ℕ) (m : Tiles T) (h : Formed m) (d : Made)
      (done : Done 13 x y m.next_leaf m.root d) where
    lookup-yes : (u v : ℕ) → same_way 13 x y u v ≡ true → get_leaf u v d.tree ≡ some d.at_leaf
    lookup-yes u v w =
        done.lookup u v ∙ ap (λ b. if b then some d.at_leaf else get_leaf u v m.root) w

    lookup-no : (u v : ℕ) → same_way 13 x y u v ≡ false → get_leaf u v d.tree ≡ get_leaf u v m.root
    lookup-no u v w =
        done.lookup u v ∙ ap (λ b. if b then some d.at_leaf else get_leaf u v m.root) w

    -- The leaf was there.
    module _ (old : d.is_new ≡ false) where
      found : (u v : ℕ) → same_way 13 x y u v ≡ true → get_leaf u v m.root ≡ some d.at_leaf
      found u v w = sym (get_leaf-same_way 13 x y u v m.root h.shape w) ∙ done.old old

      unchanged : (u v : ℕ) → get_leaf u v d.tree ≡ get_leaf u v m.root
      unchanged u v = elim (Bool-cases (same_way 13 x y u v)) [
        | inl w ↦ lookup-yes u v w ∙ sym (found u v w)
        | inr w ↦ lookup-no u v w
      ]

      old-Ready : Ready x y m d.at_leaf (record m { root = d.tree })
      old-Ready = record {
        formed = record {
          shape = done.shape;
          there = done.there;
          below = λ u v i e. h.below u v i (sym (unchanged u v) ∙ e);
          apart = λ u v u' v' i e e'.
              h.apart u v u' v' i (sym (unchanged u v) ∙ e) (sym (unchanged u' v') ∙ e');
        };
        finds = done.lookup;
        here = λ u v z a b w. ap (λ o. held m o z a b) (sym (found u v w));
        elsewhere = λ u v z a b w. refl;
      }

    -- The leaf is new.
    module _ (new : d.is_new ≡ true) where
      absent : (u v : ℕ) → same_way 13 x y u v ≡ true → get_leaf u v m.root ≡ none
      absent u v w = sym (get_leaf-same_way 13 x y u v m.root h.shape w) ∙ (done.new new).1

      taken :
          (u v i : ℕ)
          → get_leaf u v d.tree ≡ some i
          → ((same_way 13 x y u v ≡ true) × (i ≡ m.next_leaf))
            ⊎ ((get_leaf u v m.root ≡ some i) × (i < m.next_leaf))
      taken u v i e = elim (Bool-cases (same_way 13 x y u v)) [
        | inl w ↦ inl (w, some-inj (sym e ∙ lookup-yes u v w) ∙ (done.new new).0)
        | inr w ↦ let q = sym (lookup-no u v w) ∙ e in inr (q, h.below u v i q)
      ]

      new-Formed : Formed (with_leaf d m)
      new-Formed = record {
        shape = done.shape;
        there = done.there;
        below = λ u v i e. elim (taken u v i e) [
          | inl (w, q) ↦ omega (arith, q)
          | inr (q, l) ↦ omega (arith, l)
        ];
        apart = λ u v u' v' i e e'. elim (taken u v i e) [
          | inl (w, q) ↦ elim (taken u' v' i e') [
            | inl (w', q') ↦ same_way-join 13 x y u v u' v' w w'
            | inr (q', l) ↦ absurd (omega (arith, q, l))
          ]
          | inr (q, l) ↦ elim (taken u' v' i e') [
            | inl (w', q') ↦ absurd (omega (arith, q', l))
            | inr (q', l') ↦ h.apart u v u' v' i q q'
          ]
        ];
      }

      -- The new leaf is empty, and the others are as they were.
      new-here : (z a b : ℕ) → held (with_leaf d m) (some d.at_leaf) z a b ≡ none
      new-here z a b =
          put_every (λ l. floor_tile (l.floors z) a b ≡ none) d.at_leaf blank m.leaves d.at_leaf
            (λ e. refl) (λ e. absurd (e refl))

      new-elsewhere :
          (o : Option ℕ) (z a b : ℕ)
          → ((i : ℕ) → o ≡ some i → i < m.next_leaf)
          → held (with_leaf d m) o z a b ≡ held m o z a b
      new-elsewhere none z a b l = refl
      new-elsewhere (some i) z a b l =
          put_every (λ q. floor_tile (q.floors z) a b ≡ held m (some i) z a b) d.at_leaf blank
            m.leaves i (λ e. absurd (omega (arith, e, l i refl, (done.new new).0))) (λ e. refl)

      new-Ready : Ready x y m d.at_leaf (link x y d.at_leaf (with_leaf d m))
      new-Ready =
          let g = link-Alike x y d.at_leaf (with_leaf d m) in
          record {
            formed = Formed-Alike g new-Formed;
            finds = λ u v. ap (get_leaf u v) g.same_root ∙ done.lookup u v;
            here = λ u v z a b w.
                held-Alike (some d.at_leaf) z a b g
                ∙ new-here z a b
                ∙ ap (λ o. held m o z a b) (sym (absent u v w));
            elsewhere = λ u v z a b w.
                held-Alike (get_leaf u v m.root) z a b g
                ∙ new-elsewhere (get_leaf u v m.root) z a b (h.below u v);
          }

    pub made_leaf-Ready : Ready x y m d.at_leaf (made_leaf x y d m)
    unfolding made_leaf
    made_leaf-Ready = elim (Bool-cases d.is_new) [
      | inl n ↦
          subst
            (λ b.
              Ready x y m d.at_leaf
                (if b then link x y d.at_leaf (with_leaf d m) else record m { root = d.tree }))
            (sym n) (new-Ready n)
      | inr o ↦
          subst
            (λ b.
              Ready x y m d.at_leaf
                (if b then link x y d.at_leaf (with_leaf d m) else record m { root = d.tree }))
            (sym o) (old-Ready o)
    ]
