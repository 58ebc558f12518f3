-- ===== src/Map/Nodes/Least.antt =====
-- getBestNode of src/map.cpp finds the least sum of costs among the open nodes.
use xynera_ots.Prelude.{
  ℕ, zero, suc, ◌+◌, ◌-◌, ◌%◌, ◌^◌, ◌≤◌, ◌<◌, ◌≡◌, refl, sym, ap, subst, ◌∙◌, inl, inr, Bool, true,
  false, ◌&&◌, Bool-cases, Option, none, some, if◌then◌else◌, ◌==◌, arith,
}
use xynera_ots.Map.Nodes.{Nodes, is_less, best_from, get_best_node}

abbrev pub cost : Nodes → ℕ → ℕ
cost s i = (s.nodes i).f + (s.nodes i).g

-- The node is open and no other open one costs less; with no node, none is open.
unfoldable pub Best : Nodes → Option ℕ → Type 0
Best s none = (j : ℕ) → j < s.cur_node → s.open_nodes j ≡ false
Best s (some n) =
    (n < s.cur_node)
    × (s.open_nodes n ≡ true)
    × ((j : ℕ) → j < s.cur_node → s.open_nodes j ≡ true → cost s n ≤ cost s j)

-- The same of the nodes before `i`.
Seen : Nodes → ℕ → ℕ → Option ℕ → Type 0
Seen s i b none = (b ≡ 2 ^ 31 - 1) × ((j : ℕ) → j < i → s.open_nodes j ≡ false)
Seen s i b (some n) =
    (n < i)
    × (s.open_nodes n ≡ true)
    × (b ≡ cost s n)
    × ((j : ℕ) → j < i → s.open_nodes j ≡ true → b ≤ cost s j)

-- What the test says of the node `i`, whose cost is `c`.
Tells : Nodes → ℕ → ℕ → ℕ → Bool → Type 0
Tells s i b c true = (s.open_nodes i ≡ true) × (c < b)
Tells s i b c false = s.open_nodes i ≡ true → b ≤ c

tells :
    (s : Nodes) (i b c : ℕ) (o : Bool)
    → s.open_nodes i ≡ o
    → c < 2 ^ 31
    → b < 2 ^ 31
    → Tells s i b c (o && is_less c b)
unfolding Tells
tells s i b c false e hc hb = λ o. absurd cc
tells s i b c true e hc hb = elim (Bool-cases (is_less c b)) [
  | inl y ↦ subst (Tells s i b c) (sym y) (e, ground (arith, y))
  | inr n ↦ subst (Tells s i b c) (sym n) (λ o. ground (arith, n))
]

same : (i j : ℕ) → i == j ≡ true → i ≡ j
same i j y = ground (arith, y)

true-false : true ≡ false → ⊥
true-false e = cc

Seen-next :
    (s : Nodes) (i b : ℕ) (best : Option ℕ) (better : Bool)
    → Seen s i b best
    → Tells s i b (cost s i) better
    → cost s i < 2 ^ 31 - 1
    → Seen s (i + 1) (if better then cost s i else b) (if better then some i else best)
unfolding Seen Tells
Seen-next s i b none true (e, h) (o, l) small = (
  omega arith,
  o,
  refl,
  λ j k q. elim (Bool-cases (j == i)) [
    | inl y ↦ subst (λ m. cost s i ≤ cost s m) (sym (same j i y)) (omega arith)
    | inr n ↦ absurd (true-false (sym q ∙ h j (ground (arith, k, n))))
  ],
)
Seen-next s i b (some m) true (lm, om, e, h) (o, l) small = (
  omega arith,
  o,
  refl,
  λ j k q. elim (Bool-cases (j == i)) [
    | inl y ↦ subst (λ m. cost s i ≤ cost s m) (sym (same j i y)) (omega arith)
    | inr n ↦ omega (arith, h j (ground (arith, k, n)) q, l)
  ],
)
Seen-next s i b none false (e, h) t small = (
  e,
  λ j k. elim (Bool-cases (j == i)) [
    | inl y ↦ elim (Bool-cases (s.open_nodes i)) [
      | inl o ↦ absurd (omega (arith, t o, e, small))
      | inr o ↦ ap s.open_nodes (same j i y) ∙ o
    ]
    | inr n ↦ h j (ground (arith, k, n))
  ],
)
Seen-next s i b (some m) false (lm, om, e, h) t small = (
  omega (arith, lm),
  om,
  e,
  λ j k q. elim (Bool-cases (j == i)) [
    | inl y ↦
        subst (λ m. b ≤ cost s m) (sym (same j i y)) (t (sym (ap s.open_nodes (same j i y)) ∙ q))
    | inr n ↦ h j (ground (arith, k, n)) q
  ],
)

Seen-Best : (s : Nodes) (i b : ℕ) (o : Option ℕ) → i ≡ s.cur_node → Seen s i b o → Best s o
unfolding Seen Best
Seen-Best s i b none e (q, h) = λ j l. h j (omega (arith, l, e))
Seen-Best s i b (some n) e (l, o, q, h) =
    (omega (arith, l, e), o, λ j k p. omega (arith, q, h j (omega (arith, k, e)) p))

best_from-Best :
    (s : Nodes) (left i b : ℕ) (best : Option ℕ)
    → ((j : ℕ) → cost s j < 2 ^ 31 - 1)
    → i + left ≡ s.cur_node
    → b < 2 ^ 31
    → Seen s i b best
    → Best s (best_from s left i b best)
unfolding best_from
best_from-Best s zero i b best small e lb h = Seen-Best s i b best (omega (arith, e)) h
best_from-Best s (suc left) i b best small e lb h =
    let wide : cost s i % 2 ^ 32 ≡ cost s i = omega (arith, small i) in
    let better = s.open_nodes i && is_less (cost s i % 2 ^ 32) b in
    let t : Tells s i b (cost s i) better =
      subst (λ c. Tells s i b (cost s i) (s.open_nodes i && is_less c b)) (sym wide)
        (tells s i b (cost s i) (s.open_nodes i) refl (omega (arith, small i)) lb) in
    best_from-Best s left (i + 1) (if better then cost s i % 2 ^ 32 else b)
      (if better then some i else best) small (omega (arith, e)) (ground (arith, small i))
      (subst (λ c. Seen s (i + 1) (if better then c else b) (if better then some i else best))
        (sym wide) (Seen-next s i b best better h t (small i)))

-- If the sum of the costs of every node is below 2 ^ 31 - 1, getBestNode gives an open node of the
-- least sum, and none only if no node is open.
pub get_best_node-Best : (s : Nodes) → ((j : ℕ) → cost s j < 2 ^ 31 - 1) → Best s (get_best_node s)
unfolding get_best_node Seen
get_best_node-Best s small =
    best_from-Best s s.cur_node 0 (2 ^ 31 - 1) none small (omega arith) (omega arith)
      (refl, λ j l. absurd (omega (arith, l)))
