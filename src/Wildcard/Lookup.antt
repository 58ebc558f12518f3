-- ===== src/Wildcard/Lookup.antt =====
-- What `findOne` promises, in a trie as `insert` and `remove` build it.

use xynera_ots.Prelude.{
  ℕ, ◌≡◌, ◌≢◌, refl, sym, ap, ◌∙◌, Bool, true, false, Option, none, some, List, [], ◌∷◌, ◌++◌, ◌==◌,
  if◌then◌else◌, arith, Bool-cases, inl, inr,
}
use xynera_ots.Wildcard.{
  Node, node, nil, cons, find_child, get_child, is_idle, ReturnValue, no_error, player_not_online,
  walk, chain, find_one,
}
use xynera_ots.Wildcard.Names.{contains, below}
use xynera_ots.Wildcard.Pruned.{Pruned, pruned, one_more, find_child-Pruned}

-- A chain that ends without an error spells the only name below its start.
chain_unique :
    (n : Node)
    → is_idle n ≡ false
    → Pruned n
    → (chain n).0 ≡ no_error
    → (contains (chain n).1 n ≡ true) × ((j : List ℕ) → contains j n ≡ true → j ≡ (chain n).1)
unfolding chain contains find_child is_idle
chain_unique (node b nil) i p e = (ground arith, only_end)
  where
    only_end : (j : List ℕ) → contains j (node b nil) ≡ true → j ≡ []
    only_end [] h = refl
    only_end (d ∷ j) h = cc
chain_unique (node true (cons c n nil)) i p e = cc
chain_unique (node false (cons c n nil)) i (pruned (one_more busy p ps)) e =
    step (chain_unique n busy p e)
  where
    step :
        (contains (chain n).1 n ≡ true) × ((j : List ℕ) → contains j n ≡ true → j ≡ (chain n).1)
        → (contains (c ∷ (chain n).1) (node false (cons c n nil)) ≡ true)
          × ((j : List ℕ) → contains j (node false (cons c n nil)) ≡ true → j ≡ c ∷ (chain n).1)
    step ih = (at_head (c == c) (ground arith) ih.0, only)
      where
        at_head :
            (y : Bool)
            → y ≡ true
            → contains (chain n).1 n ≡ true
            → below (chain n).1 (if y then some n else none) ≡ true
        at_head true e h = h
        at_head false e h = cc

        only : (j : List ℕ) → contains j (node false (cons c n nil)) ≡ true → j ≡ c ∷ (chain n).1
        only [] h = cc
        only (d ∷ j) h = elim (Bool-cases (c == d)) [
          | inl y ↦
              let more : contains j n ≡ true = ground arith in
              let same_char : d ≡ c = ground arith in rw same_char (ap (λ xs. c ∷ xs) (ih.1 j more))
          | inr other ↦ cc
        ]
chain_unique (node b (cons c n (cons d m ks))) i p e = cc

-- The node at the end of a walk.
walk-Live :
    (s : List ℕ) (t m : Node)
    → (is_idle t ≡ false) × Pruned t
    → walk s t ≡ some m
    → (is_idle m ≡ false) × Pruned m
unfolding walk get_child
walk-Live [] t m h e = let same_node : t ≡ m = cc in rw (← same_node) h
walk-Live (c ∷ s) (node b ks) m (i, pruned ps) e =
    by_child (find_child c ks) (λ n f. find_child-Pruned c ps f) (λ n h. walk-Live s n m h) e
  where
    by_child :
        (o : Option Node)
        → ((n : Node) → o ≡ some n → (is_idle n ≡ false) × Pruned n)
        → ((n : Node)
            → (is_idle n ≡ false) × Pruned n
            → walk s n ≡ some m
            → (is_idle m ≡ false) × Pruned m)
        → elim o [ none ↦ none | some n ↦ walk s n ] ≡ some m
        → (is_idle m ≡ false) × Pruned m
    by_child none h ih e = cc
    by_child (some n) h ih e = ih n (h n refl) e

walk-Pruned :
    (c : ℕ) (s : List ℕ) (t m : Node)
    → Pruned t
    → walk (c ∷ s) t ≡ some m
    → (is_idle m ≡ false) × Pruned m
unfolding walk get_child
walk-Pruned c s (node b ks) m (pruned ps) e =
    by_child (find_child c ks) (λ n f. find_child-Pruned c ps f) e
  where
    by_child :
        (o : Option Node)
        → ((n : Node) → o ≡ some n → (is_idle n ≡ false) × Pruned n)
        → elim o [ none ↦ none | some n ↦ walk s n ] ≡ some m
        → (is_idle m ≡ false) × Pruned m
    by_child none h e = cc
    by_child (some n) h e = walk-Live s n m (h n refl) e

chain-online : (n : Node) → (chain n).0 ≢ player_not_online
unfolding chain
chain-online (node b nil) = ground arith
chain-online (node true (cons c n nil)) = ground arith
chain-online (node false (cons c n nil)) = chain-online n
chain-online (node b (cons c n (cons d m ks))) = ground arith

contains-walk : (s j : List ℕ) (t : Node) → contains (s ++ j) t ≡ below j (walk s t)
unfolding walk get_child contains
contains-walk [] j t = refl
contains-walk (c ∷ s) j (node b ks) = by_child (find_child c ks) (λ n. contains-walk s j n)
  where
    by_child :
        (o : Option Node)
        → ((n : Node) → contains (s ++ j) n ≡ below j (walk s n))
        → below (s ++ j) o ≡ below j (elim o [ none ↦ none | some n ↦ walk s n ])
    by_child none h = refl
    by_child (some n) h = h n

abbrev found : List ℕ → Option Node → ReturnValue × Option (List ℕ)
found query o = elim o [
  | none ↦ (player_not_online, none)
  | some m ↦ let (code, more) = chain m in (code, some (query ++ more))
]

-- If `findOne` gives a name for a query of one character or more, the name is in the trie, begins
-- with the query, and is the only one that does; if it says that the player is not online, no name
-- in the trie begins with the query.
pub find_one_unique :
    (c : ℕ) (s : List ℕ) (t : Node)
    → Pruned t
    → (((find_one (c ∷ s) t).0 ≡ no_error)
        → (more : List ℕ) × ((find_one (c ∷ s) t).1 ≡ some ((c ∷ s) ++ more))
          × (contains ((c ∷ s) ++ more) t ≡ true)
          × ((j : List ℕ) → contains ((c ∷ s) ++ j) t ≡ true → j ≡ more))
      × (((find_one (c ∷ s) t).0 ≡ player_not_online)
          → (j : List ℕ) → contains ((c ∷ s) ++ j) t ≡ false)
unfolding find_one
find_one_unique c s t p =
    by_end (walk (c ∷ s) t) (λ m e. walk-Pruned c s t m p e) (λ j. contains-walk (c ∷ s) j t)
  where
    by_end :
        (o : Option Node)
        → ((m : Node) → o ≡ some m → (is_idle m ≡ false) × Pruned m)
        → ((j : List ℕ) → contains ((c ∷ s) ++ j) t ≡ below j o)
        → (((found (c ∷ s) o).0 ≡ no_error)
            → (more : List ℕ) × ((found (c ∷ s) o).1 ≡ some ((c ∷ s) ++ more))
              × (contains ((c ∷ s) ++ more) t ≡ true)
              × ((j : List ℕ) → contains ((c ∷ s) ++ j) t ≡ true → j ≡ more))
          × (((found (c ∷ s) o).0 ≡ player_not_online)
              → (j : List ℕ) → contains ((c ∷ s) ++ j) t ≡ false)
    by_end none h names = (λ e. cc, λ e j. names j)
    by_end (some m) h names = (
      λ e.
          let only = chain_unique m (h m refl).0 (h m refl).1 e in
          ((chain m).1, refl, names (chain m).1 ∙ only.0, λ j y. only.1 j (sym (names j) ∙ y)),
      λ e. elim (chain-online m e) [ ],
    )
