-- ===== src/Map/Nodes/Weight.antt =====
-- A measure of the nodes that a search has before it: the entries of `nodes` that are not in use,
-- the costs of the nodes and whether they are open.
use xynera_ots.Prelude.{
  ℕ, zero, suc, ◌+◌, ◌-◌, ◌*◌, ◌≤◌, ◌<◌, ◌≡◌, ◌≢◌, refl, sym, ap, ap₂, subst, ◌∙◌, inl, inr, Bool,
  true, false, if◌then◌else◌, ◌==◌, Bool-cases, arith,
}
use xynera_ots.Map.Nodes.{Node, Nodes, max_nodes, put, close_node}

-- A property of what `put` gives, by where it is looked at.
pub put_every :
    {A : Type 0} (P : A → Type 0) (k : ℕ) (v : A) (h : ℕ → A) (i : ℕ)
    → (i ≡ k → P v)
    → (i ≢ k → P (h i))
    → P (put k v h i)
put_every P k v h i at_k off_k = elim (Bool-cases (i == k)) [
  | inl y ↦ subst (λ b. P (if b then v else h i)) (sym y) (at_k (ground (arith, y)))
  | inr n ↦ subst (λ b. P (if b then v else h i)) (sym n) (off_k (λ e. ground (arith, n, e)))
]

-- The sum of the first `n` values.
unfoldable pub total : (ℕ → ℕ) → ℕ → ℕ
total w zero = 0
total w (suc n) = total w n + w n

pub total-next : (w : ℕ → ℕ) (n : ℕ) → total w (n + 1) ≡ total w n + w n
unfolding total
total-next w n = let e : n + 1 ≡ suc n = omega arith in ap (total w) e

abbrev pub bit : Bool → ℕ
bit true = 1
bit false = 0

pub bit-le : (b : Bool) → bit b ≤ 1
bit-le true = omega arith
bit-le false = omega arith

abbrev pub weight : (ℕ → Node) → (ℕ → Bool) → ℕ → ℕ
weight nodes opens i = 2 * (nodes i).f + bit (opens i)

-- More than a node can weigh.
abbrev pub entry : ℕ
entry = 240700

unfoldable pub measure : Nodes → ℕ
unfolding total
measure s = (max_nodes - s.cur_node) * entry + total (weight s.nodes s.open_nodes) s.cur_node

pub total-le : (w v : ℕ → ℕ) (n : ℕ) → ((i : ℕ) → i < n → w i ≤ v i) → total w n ≤ total v n
unfolding total
total-le w v zero h = omega arith
total-le w v (suc n) h =
    omega (arith, total-le w v n (λ i l. h i (omega (arith, l))), h n (omega arith))

pub total-lt :
    (w v : ℕ → ℕ) (n k : ℕ)
    → ((i : ℕ) → i < n → w i ≤ v i)
    → k < n
    → w k < v k
    → total w n < total v n
unfolding total
total-lt w v zero k h l c = absurd (omega (arith, l))
total-lt w v (suc n) k h l c = elim (Bool-cases (k == n)) [
  | inl y ↦
      let e : k ≡ n = ground (arith, y) in
      let c' = subst (λ q. w q < v q) e c in
      omega (arith, total-le w v n (λ i l. h i (omega (arith, l))), c')
  | inr m ↦ omega (
    arith,
    total-lt w v n k (λ i l. h i (omega (arith, l))) (ground (arith, l, m)) c,
    h n (omega arith),
  )
]

-- How many of the first `n` nodes are open.
unfoldable pub open_count : (ℕ → Bool) → ℕ → ℕ
unfolding total
open_count o n = total (λ i. bit (o i)) n

pub open_count-le : (o : ℕ → Bool) (n : ℕ) → open_count o n ≤ n
unfolding open_count total
open_count-le o zero = omega arith
open_count-le o (suc n) = omega (arith, open_count-le o n, bit-le (o n))

pub open_count-next : (o : ℕ → Bool) (n : ℕ) → open_count o (n + 1) ≡ open_count o n + bit (o n)
unfolding open_count
open_count-next o n = total-next (λ i. bit (o i)) n

pub open_count-above :
    (o : ℕ → Bool) (n k : ℕ) (b : Bool) → n ≤ k → open_count (put k b o) n ≡ open_count o n
unfolding open_count total
open_count-above o zero k b l = refl
open_count-above o (suc n) k b l =
    let c : n == k ≡ false = ground (arith, l) in
    ap₂ (λ x y. x + bit (if y then b else o n)) (open_count-above o n k b (omega (arith, l))) c

-- One flag is set.
pub open_count-put :
    (o : ℕ → Bool) (n k : ℕ) (b : Bool)
    → k < n
    → open_count (put k b o) n + bit (o k) ≡ open_count o n + bit b
unfolding open_count total
open_count-put o zero k b l = absurd (omega (arith, l))
open_count-put o (suc n) k b l = elim (Bool-cases (n == k)) [
  | inl y ↦
      let e : k ≡ n = ground (arith, y) in
      let here : bit (put k b o n) ≡ bit b = ap (λ c. bit (if c then b else o n)) y in
      let same = ap (λ q. bit (o q)) e in
      let rest = open_count-above o n k b (omega (arith, e)) in omega (arith, here, same, rest)
  | inr m ↦
      let here : bit (put k b o n) ≡ bit (o n) = ap (λ c. bit (if c then b else o n)) m in
      let rest = open_count-put o n k b (ground (arith, l, m)) in omega (arith, here, rest)
]

-- A node is added.
pub grown-measure :
    (s : Nodes) (w : ℕ → ℕ) (c : ℕ)
    → c ≡ s.cur_node + 1
    → s.cur_node < max_nodes
    → ((i : ℕ) → i < s.cur_node → w i ≤ weight s.nodes s.open_nodes i)
    → w s.cur_node ≤ entry
    → (max_nodes - c) * entry + total w c ≤ measure s
unfolding measure
grown-measure s w c e l h m =
    let here : total w c ≡ total w s.cur_node + w s.cur_node =
      ap (total w) e ∙ total-next w s.cur_node in
    omega (arith, total-le w (weight s.nodes s.open_nodes) s.cur_node h, here)

-- A node is closed.
module _ (s : Nodes) (k : ℕ) (o : s.open_nodes k ≡ true) where
  closed_le : (i : ℕ) → weight s.nodes (put k false s.open_nodes) i ≤ weight s.nodes s.open_nodes i
  closed_le i =
      put_every (λ b. 2 * (s.nodes i).f + bit b ≤ weight s.nodes s.open_nodes i) k false
        s.open_nodes i (λ e. omega arith) (λ e. omega arith)

  closed_lt : weight s.nodes (put k false s.open_nodes) k < weight s.nodes s.open_nodes k
  closed_lt =
      put_every (λ b. 2 * (s.nodes k).f + bit b < weight s.nodes s.open_nodes k) k false
        s.open_nodes k
        (λ e. subst (λ b. 2 * (s.nodes k).f + 0 < 2 * (s.nodes k).f + bit b) (sym o) (omega arith))
        (λ e. absurd (e refl))

pub close_node-measure :
    (s : Nodes) (k : ℕ)
    → k < s.cur_node
    → s.open_nodes k ≡ true
    → measure (close_node k s) < measure s
unfolding measure close_node
close_node-measure s k l o =
    let w = weight s.nodes (put k false s.open_nodes) in
    let v = weight s.nodes s.open_nodes in
    let lower = total-lt w v s.cur_node k (λ i h. closed_le s k o i) l (closed_lt s k o) in
    omega (arith, lower)
