-- ===== src/Map/Tree/Leaves.antt =====
-- createLeaf of src/map.cpp gives a position its leaf and leaves every other one alone.
use xynera_ots.Prelude.{
  ℕ, zero, suc, ◌≡◌, refl, sym, ap, subst, ◌∙◌, inl, inr, Bool, true, false, ◌&&◌, ◌||◌, Bool-cases,
  Option, none, some, ◌==◌, if◌then◌else◌, arith,
}
use xynera_ots.Map.Nodes.{put}
use xynera_ots.Map.Nodes.Weight.{put_every}
use xynera_ots.Map.Tree.{
  QTree, null, node, leaf, index, shift, get_leaf, Made, made, is_null, with_made, create_leaf,
}

-- All leaves are `d` levels down.
unfoldable pub Shaped : ℕ → QTree → Type 0
Shaped d null = Unit
Shaped zero (leaf i) = Unit
Shaped zero (node child) = ⊥
Shaped (suc d) (leaf i) = ⊥
Shaped (suc d) (node child) = (k : ℕ) → Shaped d (child k)

-- Two positions have the same way down.
unfoldable pub same_way : ℕ → ℕ → ℕ → ℕ → ℕ → Bool
same_way zero x y u v = true
same_way (suc d) x y u v =
    (index x y == index u v) && same_way d (shift x) (shift y) (shift u) (shift v)

pub same_way_refl : (d x y : ℕ) → same_way d x y x y ≡ true
unfolding same_way
same_way_refl zero x y = refl
same_way_refl (suc d) x y =
    let e : index x y == index x y ≡ true = ground arith in
    ap (λ b. b && same_way d (shift x) (shift y) (shift x) (shift y)) e
    ∙ same_way_refl d (shift x) (shift y)

-- What a child that is made leads to.
get_leaf-nulls : (x y : ℕ) → get_leaf x y (node (λ k. null)) ≡ none
unfolding get_leaf
get_leaf-nulls x y = refl

deep : (d : ℕ) → suc (suc (suc (suc d))) == 3 ≡ false
deep d = ground arith

true-false : true ≡ false → ⊥
true-false e = cc

module _ (next : ℕ) where
  made-Shaped : (d : ℕ) (c : QTree) → Shaped d c → Shaped d (made (suc (suc (suc d))) next c)
  unfolding Shaped
  made-Shaped zero null h = tt
  made-Shaped (suc d) null h =
      subst (λ b. Shaped (suc d) (if b then leaf next else node (λ k. null))) (sym (deep d))
        (λ k. tt)
  made-Shaped zero (leaf i) h = tt
  made-Shaped zero (node child) h = h
  made-Shaped (suc d) (leaf i) h = h
  made-Shaped (suc d) (node child) h = h

  made-there : (d : ℕ) (c : QTree) → is_null (made (suc (suc (suc d))) next c) ≡ false
  made-there zero null = refl
  made-there (suc d) null = ap (λ b. is_null (if b then leaf next else node (λ k. null))) (deep d)
  made-there d (leaf i) = refl
  made-there d (node child) = refl

  made-old :
      (d u v : ℕ) (c : QTree)
      → (is_null c && suc (suc (suc d)) == 3) ≡ false
      → get_leaf u v (made (suc (suc (suc d))) next c) ≡ get_leaf u v c
  unfolding get_leaf
  made-old zero u v null h = absurd cc
  made-old (suc d) u v null h =
      ap (λ b. get_leaf u v (if b then leaf next else node (λ k. null))) (deep d)
  made-old d u v (leaf i) h = refl
  made-old d u v (node child) h = refl

  made-new :
      (d u v : ℕ) (c : QTree)
      → (is_null c && suc (suc (suc d)) == 3) ≡ true
      → (d ≡ 0)
        × (get_leaf u v (made (suc (suc (suc d))) next c) ≡ some next)
        × (get_leaf u v c ≡ none)
  unfolding get_leaf
  made-new zero u v null h = (refl, refl, refl)
  made-new (suc d) u v null h = absurd (true-false (sym h ∙ deep d))
  made-new d u v (leaf i) h = absurd cc
  made-new d u v (node child) h = absurd cc

-- What createLeaf gives at a position for a tree of `d` levels.
pub record Done (d x y next : ℕ) (t : QTree) (m : Made) : Type 0 where
  pub shape : Shaped d m.tree
  pub there : is_null m.tree ≡ false
  pub lookup :
      (u v : ℕ)
      → get_leaf u v m.tree ≡ (if same_way d x y u v then some m.at_leaf else get_leaf u v t)
  pub old : m.is_new ≡ false → get_leaf x y t ≡ some m.at_leaf
  pub new : m.is_new ≡ true → (m.at_leaf ≡ next) × (get_leaf x y t ≡ none)

some-inj : {a b : ℕ} → some a ≡ some b → a ≡ b
some-inj e = cc

neither : (a b : Bool) → (a || b) ≡ false → (a ≡ false) × (b ≡ false)
neither true b e = absurd cc
neither false b e = (refl, e)

second : (a b : Bool) → a ≡ false → (a || b) ≡ true → b ≡ true
second true b f e = absurd (true-false f)
second false b f e = e

choose-yes :
    (b w : Bool) (s g g' : Option ℕ)
    → b ≡ true
    → (w ≡ false → g ≡ g')
    → (if w then s else g) ≡ (if b && w then s else g')
choose-yes true true s g g' e h = refl
choose-yes true false s g g' e h = h refl
choose-yes false w s g g' e h = absurd (true-false (sym e))

choose-no : (b w : Bool) (s g : Option ℕ) → b ≡ false → g ≡ (if b && w then s else g)
choose-no true w s g e = absurd (true-false e)
choose-no false w s g e = refl

no-node : (child : ℕ → QTree) → Shaped 0 (node child) → ⊥
unfolding Shaped
no-node child h = h

no-leaf : (d i : ℕ) → Shaped (suc d) (leaf i) → ⊥
unfolding Shaped
no-leaf d i h = h

children : (d : ℕ) (child : ℕ → QTree) → Shaped (suc d) (node child) → (k : ℕ) → Shaped d (child k)
unfolding Shaped
children d child h = h

leaf-Done :
    (x y next i : ℕ)
    → Done 0 x y next (leaf i) (record { tree = leaf i; at_leaf = i; is_new = false })
unfolding Shaped get_leaf same_way
leaf-Done x y next i = record {
  shape = tt;
  there = refl;
  lookup = λ u v. refl;
  old = λ e. refl;
  new = λ e. absurd (true-false (sym e));
}

-- A node, when its child is done.
module _ (d x y next : ℕ) (child : ℕ → QTree) (h : (k : ℕ) → Shaped d (child k)) (m : Made)
    (done : Done d
      (shift x)
      (shift y)
      next
      (made (suc (suc (suc d))) next (child (index x y)))
      m) where
  abbrev fresh : Bool
  fresh = is_null (child (index x y)) && suc (suc (suc d)) == 3

  abbrev above : Made
  above = record m { tree = node (put (index x y) m.tree child); is_new = fresh || m.is_new }

  above-old : above.is_new ≡ false → get_leaf x y (node child) ≡ some m.at_leaf
  unfolding get_leaf
  above-old e =
      let (f, n) = neither fresh m.is_new e in
      sym (made-old next d (shift x) (shift y) (child (index x y)) f) ∙ done.old n

  above-new : above.is_new ≡ true → (m.at_leaf ≡ next) × (get_leaf x y (node child) ≡ none)
  unfolding get_leaf
  above-new e = elim (Bool-cases fresh) [
    | inl y' ↦
        let (z, g, n) = made-new next d (shift x) (shift y) (child (index x y)) y' in
        (
          elim (Bool-cases m.is_new) [
            | inl a ↦ (done.new a).0
            | inr b ↦ some-inj (sym (done.old b) ∙ g)
          ],
          n,
        )
    | inr f ↦
        let (l, n) = done.new (second fresh m.is_new f e) in
        (l, sym (made-old next d (shift x) (shift y) (child (index x y)) f) ∙ n)
  ]

  above-shape : Shaped (suc d) (node (put (index x y) m.tree child))
  unfolding Shaped
  above-shape = λ k. put_every (Shaped d) (index x y) m.tree child k (λ e. done.shape) (λ e. h k)

  unmade :
      (u v : ℕ)
      → same_way d (shift x) (shift y) u v ≡ false
      → get_leaf u v (made (suc (suc (suc d))) next (child (index x y)))
        ≡ get_leaf u v (child (index x y))
  unfolding same_way
  unmade u v w = elim (Bool-cases fresh) [
    | inl f ↦
        let (z, g, n) = made-new next d u v (child (index x y)) f in
        absurd (true-false (sym (ap (λ q. same_way q (shift x) (shift y) u v) z) ∙ w))
    | inr f ↦ made-old next d u v (child (index x y)) f
  ]

  above-lookup :
      (u v : ℕ)
      → get_leaf u v above.tree
        ≡ (if same_way (suc d) x y u v then some m.at_leaf else get_leaf u v (node child))
  unfolding get_leaf same_way
  above-lookup u v =
      let w = same_way d (shift x) (shift y) (shift u) (shift v) in
      let g = get_leaf (shift u) (shift v) in
      let away = g (child (index u v)) in
      let b = index x y == index u v in
      elim (Bool-cases (index u v == index x y)) [
        | inl e ↦
            let same : index x y ≡ index u v = ground (arith, e) in
            ap (λ c. g (if c then m.tree else child (index u v))) e
            ∙ done.lookup (shift u) (shift v)
            ∙ choose-yes b w (some m.at_leaf) _ away (ground (arith, same))
                (λ n. unmade (shift u) (shift v) n ∙ ap (λ k. g (child k)) same)
        | inr n ↦
            ap (λ c. g (if c then m.tree else child (index u v))) n
            ∙ choose-no b w (some m.at_leaf) away (ground (arith, n))
      ]

  above-Done : Done (suc d) x y next (node child) above
  above-Done = record {
    shape = above-shape;
    there = refl;
    lookup = above-lookup;
    old = above-old;
    new = above-new;
  }

pub create_leaf-Done :
    (d x y next : ℕ) (t : QTree)
    → Shaped d t
    → is_null t ≡ false
    → (m : Made) × (create_leaf (suc (suc d)) x y next t ≡ some m) × Done d x y next t m
unfolding create_leaf
create_leaf-Done d x y next null h n = absurd (true-false n)
create_leaf-Done zero x y next (leaf i) h n =
    (record { tree = leaf i; at_leaf = i; is_new = false }, refl, leaf-Done x y next i)
create_leaf-Done zero x y next (node child) h n = absurd (no-node child h)
create_leaf-Done (suc d) x y next (leaf i) h n = absurd (no-leaf d i h)
create_leaf-Done (suc d) x y next (node child) h n =
    let c = child (index x y) in
    let hc = children d child h in
    let (m, e, done) =
      create_leaf-Done d (shift x) (shift y) next (made (suc (suc (suc d))) next c)
        (made-Shaped next d c (hc (index x y))) (made-there next d c) in
    (
      above d x y next child hc m done,
      ap (with_made child (index x y) (is_null c && suc (suc (suc d)) == 3)) e,
      above-Done d x y next child hc m done,
    )
