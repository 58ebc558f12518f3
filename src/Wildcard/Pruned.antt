-- ===== src/Wildcard/Pruned.antt =====
-- Insertions and removals leave no dead branches in the trie.

use xynera_ots.Prelude.{
  ℕ, ◌≡◌, refl, Bool, true, false, Option, none, some, List, [], ◌∷◌, ◌==◌, arith, Bool-cases, inl,
  inr,
}
use xynera_ots.Wildcard.{
  Node, Children, node, nil, cons, find_child, put_child, erase_child, added, insert, is_idle,
  settle, remove_path, remove,
}

-- No node but the root is idle: each has a child or ends a name.
mutual
  pub data Pruned : Node → Type 0 where
    pruned : {b : Bool} {ks : Children} → PrunedAll ks → Pruned (node b ks)

  pub data PrunedAll : Children → Type 0 where
    none_left : PrunedAll nil
    one_more :
        {c : ℕ} {n : Node} {ks : Children}
        → is_idle n ≡ false
        → Pruned n
        → PrunedAll ks
        → PrunedAll (cons c n ks)

pub find_child-Pruned :
    (c : ℕ) {n : Node} {ks : Children}
    → PrunedAll ks
    → find_child c ks ≡ some n
    → (is_idle n ≡ false) × Pruned n
unfolding find_child
find_child-Pruned c none_left e = cc
find_child-Pruned c {n} (one_more {c = d} {n = m} i p ps) e = elim (Bool-cases (d == c)) [
  | inl y ↦ let same_node : m ≡ n = ground arith in rw (← same_node) (i, p)
  | inr other ↦ find_child-Pruned c ps (ground arith)
]

put_child-PrunedAll :
    (c : ℕ) {n : Node} {ks : Children}
    → is_idle n ≡ false
    → Pruned n
    → PrunedAll ks
    → PrunedAll (put_child c n ks)
unfolding put_child
put_child-PrunedAll c i p none_left = one_more i p none_left
put_child-PrunedAll c i p (one_more {c = d} i' p' ps) = elim (Bool-cases (d == c)) [
  | inl y ↦ rw y (one_more i p ps)
  | inr other ↦ rw other (one_more i' p' (put_child-PrunedAll c i p ps))
]

erase_child-PrunedAll : (c : ℕ) {ks : Children} → PrunedAll ks → PrunedAll (erase_child c ks)
unfolding erase_child
erase_child-PrunedAll c none_left = none_left
erase_child-PrunedAll c (one_more {c = d} i p ps) = elim (Bool-cases (d == c)) [
  | inl y ↦ rw y (erase_child-PrunedAll c ps)
  | inr other ↦ rw other (one_more i p (erase_child-PrunedAll c ps))
]

put_child-busy :
    (c : ℕ) (b : Bool) (n : Node) (ks : Children) → is_idle (node b (put_child c n ks)) ≡ false
unfolding put_child is_idle
put_child-busy c b n nil = refl
put_child-busy c b n (cons d m ks) = elim (Bool-cases (d == c)) [
  | inl y ↦ rw y refl
  | inr other ↦ rw other refl
]

insert-busy : (c : ℕ) (s : List ℕ) (t : Node) → is_idle (insert c s t) ≡ false
unfolding insert
insert-busy c [] (node b ks) = put_child-busy c b _ ks
insert-busy c (d ∷ s) (node b ks) = put_child-busy c b _ ks

added-true_busy : (o : Option Node) → is_idle (added true o) ≡ false
unfolding added is_idle
added-true_busy none = refl
added-true_busy (some (node b nil)) = ground arith
added-true_busy (some (node b (cons c n ks))) = refl

added-Pruned :
    (a : Bool) (o : Option Node) → ((n : Node) → o ≡ some n → Pruned n) → Pruned (added a o)
unfolding added
added-Pruned a none h = pruned none_left
added-Pruned a (some (node b ks)) h = elim (h (node b ks) refl) [ pruned ps ↦ pruned ps ]

insert-Pruned : (c : ℕ) (s : List ℕ) {t : Node} → Pruned t → Pruned (insert c s t)
unfolding insert
insert-Pruned c [] (pruned {ks = ks} ps) = pruned (
    put_child-PrunedAll c (added-true_busy (find_child c ks))
      (added-Pruned true (find_child c ks) (λ n e. (find_child-Pruned c ps e).1)) ps)
insert-Pruned c (d ∷ s) (pruned {ks = ks} ps) = pruned (
    put_child-PrunedAll c (insert-busy d s (added false (find_child c ks)))
      (insert-Pruned d s
        (added-Pruned false (find_child c ks) (λ n e. (find_child-Pruned c ps e).1)))
      ps)

settle-Pruned :
    (c : ℕ) (b : Bool) {n : Node} {ks : Children}
    → Pruned n
    → PrunedAll ks
    → Pruned (node b (settle c n ks))
settle-Pruned c b {n} p ps = elim (Bool-cases (is_idle n)) [
  | inl y ↦ rw y (pruned (erase_child-PrunedAll c ps))
  | inr busy ↦ rw busy (pruned (put_child-PrunedAll c busy p ps))
]

abbrev PrunedIf : Node → Option Node → Type 0
PrunedIf t none = Pruned t
PrunedIf t (some t') = Pruned t'

module _ (c : ℕ) (s : List ℕ) (b : Bool) (ks : Children) (ps : PrunedAll ks) where
  child_pruned :
      (n : Node) (r : Option Node)
      → PrunedIf n r
      → PrunedIf (node b ks) (elim r [ none ↦ none | some n' ↦ some (node b (settle c n' ks)) ])
  child_pruned n none h = pruned ps
  child_pruned n (some n') h = settle-Pruned c b h ps

  path_pruned :
      (o : Option Node)
      → find_child c ks ≡ o
      → ((n : Node) → Pruned n → PrunedIf n (remove_path s n))
      → PrunedIf (node b ks) (elim o [
        | none ↦ none
        | some n ↦ elim (remove_path s n) [ none ↦ none | some n' ↦ some (node b (settle c n' ks)) ]
      ])
  path_pruned none e ih = pruned ps
  path_pruned (some n) e ih = child_pruned n (remove_path s n) (ih n (find_child-Pruned c ps e).1)

remove_path-Pruned : (s : List ℕ) {t : Node} → Pruned t → PrunedIf t (remove_path s t)
unfolding remove_path
remove_path-Pruned [] (pruned ps) = pruned ps
remove_path-Pruned (c ∷ s) (pruned {b} {ks} ps) =
    path_pruned c s b ks ps (find_child c ks) refl (λ n p. remove_path-Pruned s p)

remove-Pruned : (s : List ℕ) {t : Node} → Pruned t → Pruned (remove s t)
unfolding remove
remove-Pruned s {t} h = by_result (remove_path s t) (remove_path-Pruned s h)
  where
    by_result : (r : Option Node) → PrunedIf t r → Pruned (elim r [ none ↦ t | some t' ↦ t' ])
    by_result none p = p
    by_result (some t') p = p

pub data Change : Type 0 where
  inserts : ℕ → List ℕ → Change
  removes : List ℕ → Change

unfoldable pub change : Change → Node → Node
change (inserts c s) t = insert c s t
change (removes s) t = remove s t

unfoldable pub changes : List Change → Node → Node
changes [] t = t
changes (x ∷ xs) t = changes xs (change x t)

-- However names are inserted and removed, the trie has no dead branch.
pub changes-Pruned : (xs : List Change) {t : Node} → Pruned t → Pruned (changes xs t)
unfolding changes change
changes-Pruned [] h = h
changes-Pruned (inserts c s ∷ xs) h = changes-Pruned xs (insert-Pruned c s h)
changes-Pruned (removes s ∷ xs) h = changes-Pruned xs (remove-Pruned s h)
