-- ===== src/Map/Tiles/Formed.antt =====
-- The order of the leaves in the tiles of src/map.cpp, which links leave alone.
use xynera_ots.Prelude.{
  ℕ, ◌+◌, ◌<◌, ◌≡◌, refl, sym, ap, subst, ◌∙◌, true, false, Option, none, some,
}
use xynera_ots.Map.Nodes.{put}
use xynera_ots.Map.Nodes.Weight.{put_every}
use xynera_ots.Map.Tree.{is_null, get_leaf}
use xynera_ots.Map.Tree.Leaves.{Shaped, same_way}
use xynera_ots.Map.Tiles.{
  Leaf, Tiles, empty_tiles, floor_tile, leaf_tile, set_leaf_s, set_leaf_e, link_south, link_east,
  before, link,
}

module _ {T : Type 0} where
  -- The leaves are in use, and each is at one place of the tree.
  pub record Formed (m : Tiles T) : Type 0 where
    pub shape : Shaped 13 m.root
    pub there : is_null m.root ≡ false
    pub below : (x y i : ℕ) → get_leaf x y m.root ≡ some i → i < m.next_leaf
    pub apart :
        (x y u v i : ℕ)
        → get_leaf x y m.root ≡ some i
        → get_leaf u v m.root ≡ some i
        → same_way 13 x y u v ≡ true

  pub empty_tiles-Formed : Formed (empty_tiles {T = T})
  unfolding Shaped get_leaf
  empty_tiles-Formed = record {
    shape = λ k. tt;
    there = refl;
    below = λ x y i e. absurd cc;
    apart = λ x y u v i e e'. absurd cc;
  }

  -- What a tree's leaves hold.
  abbrev pub held : Tiles T → Option ℕ → ℕ → ℕ → ℕ → Option T
  held m o z a b = leaf_tile m.leaves o z a b

  abbrev pub floors_of : Tiles T → ℕ → ℕ → Option (ℕ → ℕ → Option T)
  floors_of m i = (m.leaves i).floors

  -- Links change no floors and no tree.
  pub record Alike (m n : Tiles T) : Type 0 where
    pub same_root : n.root ≡ m.root
    pub same_next : n.next_leaf ≡ m.next_leaf
    pub same_floors : (i : ℕ) → floors_of n i ≡ floors_of m i

  Alike-refl : (m : Tiles T) → Alike m m
  Alike-refl m = record { same_root = refl; same_next = refl; same_floors = λ i. refl }

  Alike-trans : {m n k : Tiles T} → Alike m n → Alike n k → Alike m k
  Alike-trans g h = record {
    same_root = h.same_root ∙ g.same_root;
    same_next = h.same_next ∙ g.same_next;
    same_floors = λ i. h.same_floors i ∙ g.same_floors i;
  }

  put-floors :
      (k : ℕ) (l : Leaf T) (m : Tiles T) (i : ℕ)
      → l.floors ≡ floors_of m k
      → (put k l m.leaves i).floors ≡ floors_of m i
  put-floors k l m i e =
      put_every (λ q. q.floors ≡ floors_of m i) k l m.leaves i (λ u. e ∙ ap (floors_of m) (sym u))
        (λ u. refl)

  set_leaf_s-Alike : (o v : Option ℕ) (m : Tiles T) → Alike m (set_leaf_s o v m)
  set_leaf_s-Alike none v m = Alike-refl m
  set_leaf_s-Alike (some i) v m = record {
    same_root = refl;
    same_next = refl;
    same_floors = λ j. put-floors i (record (m.leaves i) { leaf_s = v }) m j refl;
  }

  set_leaf_e-Alike : (o v : Option ℕ) (m : Tiles T) → Alike m (set_leaf_e o v m)
  set_leaf_e-Alike none v m = Alike-refl m
  set_leaf_e-Alike (some i) v m = record {
    same_root = refl;
    same_next = refl;
    same_floors = λ j. put-floors i (record (m.leaves i) { leaf_e = v }) m j refl;
  }

  link_south-Alike : (i : ℕ) (o : Option ℕ) (m : Tiles T) → Alike m (link_south i o m)
  link_south-Alike i none m = Alike-refl m
  link_south-Alike i (some j) m = set_leaf_s-Alike (some i) (some j) m

  link_east-Alike : (i : ℕ) (o : Option ℕ) (m : Tiles T) → Alike m (link_east i o m)
  link_east-Alike i none m = Alike-refl m
  link_east-Alike i (some j) m = set_leaf_e-Alike (some i) (some j) m

  pub link-Alike : (x y i : ℕ) (m : Tiles T) → Alike m (link x y i m)
  unfolding link
  link-Alike x y i m =
      let n1 = set_leaf_s (get_leaf x (before y) m.root) (some i) m in
      let n2 = set_leaf_e (get_leaf (before x) y m.root) (some i) n1 in
      let n3 = link_south i (get_leaf x (y + 8) m.root) n2 in
      Alike-trans (set_leaf_s-Alike (get_leaf x (before y) m.root) (some i) m) (
        Alike-trans (set_leaf_e-Alike (get_leaf (before x) y m.root) (some i) n1) (
          Alike-trans (link_south-Alike i (get_leaf x (y + 8) m.root) n2)
            (link_east-Alike i (get_leaf (x + 8) y m.root) n3)))

  pub Formed-Alike : {m n : Tiles T} → Alike m n → Formed m → Formed n
  Formed-Alike {m} {n} g h = record {
    shape = subst (Shaped 13) (sym g.same_root) h.shape;
    there = ap is_null g.same_root ∙ h.there;
    below = λ x y i e.
        subst (λ q. i < q) (sym g.same_next)
          (h.below x y i (ap (get_leaf x y) (sym g.same_root) ∙ e));
    apart = λ x y u v i e e'.
        h.apart x y u v i (ap (get_leaf x y) (sym g.same_root) ∙ e)
          (ap (get_leaf u v) (sym g.same_root) ∙ e');
  }

  pub held-Alike :
      {m n : Tiles T} (o : Option ℕ) (z a b : ℕ) → Alike m n → held n o z a b ≡ held m o z a b
  held-Alike none z a b g = refl
  held-Alike (some i) z a b g = ap (λ f. floor_tile (f z) a b) (g.same_floors i)
