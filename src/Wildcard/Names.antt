-- ===== src/Wildcard/Names.antt =====
-- The trie as a set of names.
use xynera_ots.Prelude.{
  ℕ, ◌≡◌, refl, ◌∙◌, Bool, true, false, Option, none, some, List, [], ◌∷◌, ◌==◌, if◌then◌else◌,
  arith, Bool-cases, inl, inr,
}
use xynera_ots.Wildcard.{
  Node, Children, node, nil, cons, find_child, put_child, erase_child, added, insert, is_idle,
  settle, remove_path, remove,
}

-- A name is in the trie.
unfoldable pub contains : List ℕ → Node → Bool
contains [] (node b ks) = b
contains (c ∷ s) (node b ks) = elim (find_child c ks) [ none ↦ false | some n ↦ contains s n ]

abbrev pub same : List ℕ → List ℕ → Bool
same [] [] = true
same (x ∷ xs) (y ∷ ys) = if x == y then same xs ys else false
same _ _ = false

pub find_child-put_child :
    (c d : ℕ) (n : Node) (ks : Children)
    → find_child d (put_child c n ks) ≡ (if c == d then some n else find_child d ks)
unfolding find_child put_child
find_child-put_child c d n nil = refl
find_child-put_child c d n (cons e m ks) = ground (arith, find_child-put_child c d n ks)

pub find_child-erase_child :
    (c d : ℕ) (ks : Children)
    → find_child d (erase_child c ks) ≡ (if c == d then none else find_child d ks)
unfolding find_child erase_child
find_child-erase_child c d nil = ground arith
find_child-erase_child c d (cons e m ks) = ground (arith, find_child-erase_child c d ks)

contains-fresh : (s : List ℕ) → contains s (node false nil) ≡ false
unfolding contains find_child
contains-fresh [] = refl
contains-fresh (c ∷ s) = refl

abbrev pub below : List ℕ → Option Node → Bool
below s o = elim o [ none ↦ false | some n ↦ contains s n ]

pub contains-cons :
    (c : ℕ) (s : List ℕ) (b : Bool) (ks : Children)
    → contains (c ∷ s) (node b ks) ≡ below s (find_child c ks)
unfolding contains
contains-cons c s b ks = refl

contains-added-false : (s : List ℕ) (o : Option Node) → contains s (added false o) ≡ below s o
unfolding added
contains-added-false s none = contains-fresh s
contains-added-false s (some (node b ks)) = refl

contains-added-true :
    (s : List ℕ) (o : Option Node)
    → contains s (added true o) ≡ (if same [] s then true else below s o)
unfolding added contains find_child
contains-added-true [] none = refl
contains-added-true (c ∷ s) none = refl
contains-added-true [] (some (node b ks)) = ground arith
contains-added-true (c ∷ s) (some (node b ks)) = refl

-- Reading a name where one child was written back.
contains-put_child :
    (c d : ℕ) (s : List ℕ) (b : Bool) (n : Node) (ks : Children)
    → contains (d ∷ s) (node b (put_child c n ks))
      ≡ (if c == d then contains s n else contains (d ∷ s) (node b ks))
contains-put_child c d s b n ks =
    rw
      (
        contains-cons d s b (put_child c n ks),
        contains-cons d s b ks,
        find_child-put_child c d n ks,
      )
      (by_test (c == d))
  where
    by_test :
        (t : Bool)
        → below s (if t then some n else find_child d ks)
          ≡ (if t then contains s n else below s (find_child d ks))
    by_test true = refl
    by_test false = refl

contains-erase_child :
    (c d : ℕ) (s : List ℕ) (b : Bool) (ks : Children)
    → contains (d ∷ s) (node b (erase_child c ks))
      ≡ (if c == d then false else contains (d ∷ s) (node b ks))
contains-erase_child c d s b ks =
    rw
      (
        contains-cons d s b (erase_child c ks),
        contains-cons d s b ks,
        find_child-erase_child c d ks,
      )
      (by_test (c == d))
  where
    by_test :
        (t : Bool)
        → below s (if t then none else find_child d ks)
          ≡ (if t then false else below s (find_child d ks))
    by_test true = refl
    by_test false = refl

at_child :
    (c d : ℕ) (s : List ℕ) (b : Bool) (ks : Children)
    → (c == d) ≡ true
    → contains (d ∷ s) (node b ks) ≡ below s (find_child c ks)
at_child c d s b ks e = let e' : d ≡ c = ground arith in rw e' (contains-cons c s b ks)

-- After an insertion the trie holds that name and those that it held before, and no other.
pub contains-insert :
    (c : ℕ) (s j : List ℕ) (t : Node)
    → contains j (insert c s t) ≡ (if same (c ∷ s) j then true else contains j t)
unfolding insert
contains-insert c [] [] (node b ks) = unfold contains in refl
contains-insert c (e ∷ s) [] (node b ks) = unfold contains in refl
contains-insert c [] (d ∷ j) (node b ks) =
    contains-put_child c d j b _ ks ∙ (elim (Bool-cases (c == d)) [
      | inl y ↦ rw (y, at_child c d j b ks y) (contains-added-true j (find_child c ks))
      | inr n ↦ rw n refl
    ])
contains-insert c (e ∷ s) (d ∷ j) (node b ks) =
    let inner = contains-insert e s j (added false (find_child c ks)) in
    contains-put_child c d j b _ ks ∙ (elim (Bool-cases (c == d)) [
      | inl y ↦ rw (y, at_child c d j b ks y, inner, contains-added-false j (find_child c ks)) refl
      | inr n ↦ rw n refl
    ])

idle-contains : (s : List ℕ) (n : Node) → is_idle n ≡ true → contains s n ≡ false
unfolding is_idle contains find_child
idle-contains [] (node b nil) h = ground arith
idle-contains (c ∷ s) (node b nil) h = refl
idle-contains s (node b (cons _ _ _)) h = cc

contains-settle :
    (c d : ℕ) (s : List ℕ) (b : Bool) (n : Node) (ks : Children)
    → contains (d ∷ s) (node b (settle c n ks))
      ≡ (if c == d then contains s n else contains (d ∷ s) (node b ks))
contains-settle c d s b n ks = elim (Bool-cases (is_idle n)) [
  | inl y ↦ rw (y, contains-erase_child c d s b ks, idle-contains s n y) refl
  | inr n' ↦ rw (n', contains-put_child c d s b n ks) refl
]

-- What `remove` does to the trie as a set, and that a walk that fails has nothing to remove.
abbrev Removes : List ℕ → List ℕ → Node → Option Node → Type 0
Removes s j t none = contains s t ≡ false
Removes s j t (some t') = contains j t' ≡ (if same s j then false else contains j t)

module _ (c : ℕ) (s : List ℕ) (b : Bool) (ks : Children) where
  settled :
      (j : List ℕ) (n n' : Node)
      → find_child c ks ≡ some n
      → ((j' : List ℕ) → contains j' n' ≡ (if same s j' then false else contains j' n))
      → contains j (node b (settle c n' ks))
        ≡ (if same (c ∷ s) j then false else contains j (node b ks))
  settled [] n n' e ih = unfold contains in refl
  settled (d ∷ j) n n' e ih = contains-settle c d j b n' ks ∙ (elim (Bool-cases (c == d)) [
    | inl y ↦ rw (y, at_child c d j b ks y, e) (ih j)
    | inr no_match ↦ rw no_match refl
  ])

  child_removed :
      (j : List ℕ) (n : Node) (r : Option Node)
      → find_child c ks ≡ some n
      → ((j' : List ℕ) → Removes s j' n r)
      → Removes
          (c ∷ s)
          j
          (node b ks)
          (elim r [ none ↦ none | some n' ↦ some (node b (settle c n' ks)) ])
  child_removed j n none e ih = rw (contains-cons c s b ks, e) (ih j)
  child_removed j n (some n') e ih = settled j n n' e ih

  path_removed :
      (j : List ℕ) (o : Option Node)
      → find_child c ks ≡ o
      → ((j' : List ℕ) (n : Node) → Removes s j' n (remove_path s n))
      → Removes (c ∷ s) j (node b ks) (elim o [
        | none ↦ none
        | some n ↦ elim (remove_path s n) [ none ↦ none | some n' ↦ some (node b (settle c n' ks)) ]
      ])
  path_removed j none e ih = rw (contains-cons c s b ks, e) refl
  path_removed j (some n) e ih = child_removed j n (remove_path s n) e (λ j'. ih j' n)

remove_path-Removes : (s j : List ℕ) (t : Node) → Removes s j t (remove_path s t)
unfolding remove_path
remove_path-Removes [] [] (node b ks) = unfold contains in refl
remove_path-Removes [] (d ∷ j) (node b ks) = unfold contains in refl
remove_path-Removes (c ∷ s) j (node b ks) =
    path_removed c s b ks j (find_child c ks) refl (λ j' n. remove_path-Removes s j' n)

same→eq : (s j : List ℕ) → same s j ≡ true → j ≡ s
same→eq [] [] h = refl
same→eq [] (y ∷ j) h = cc
same→eq (x ∷ s) [] h = cc
same→eq (x ∷ s) (y ∷ j) h = ground (arith, same→eq s j)

removed-Removes :
    (s j : List ℕ) (t : Node) (r : Option Node)
    → Removes s j t r
    → contains j (elim r [ none ↦ t | some t' ↦ t' ]) ≡ (if same s j then false else contains j t)
removed-Removes s j t (some t') h = h
removed-Removes s j t none h = elim (Bool-cases (same s j)) [
  | inl y ↦ rw (y, same→eq s j y) h
  | inr n ↦ rw n refl
]

-- After a removal the trie holds the names that it held before, without that one.
pub contains-remove :
    (s j : List ℕ) (t : Node) → contains j (remove s t) ≡ (if same s j then false else contains j t)
unfolding remove
contains-remove s j t = removed-Removes s j t (remove_path s t) (remove_path-Removes s j t)
