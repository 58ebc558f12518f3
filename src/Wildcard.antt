-- ===== src/Wildcard.antt =====
-- WildcardTreeNode of src/wildcardtree.cpp: the names of the players online as a trie, which a
-- name with a wildcard is looked up in. A name is a list of characters. The children are a map;
-- its order shows nowhere, since the code iterates over one child at most.
pub mod Names
pub mod Pruned
pub mod Lookup
mod Tests
use xynera_ots.Prelude.{
  ℕ, Bool, true, false, ◌&&◌, ◌||◌, not, Option, none, some, List, [], ◌∷◌, ◌++◌, ◌==◌,
  if◌then◌else◌,
}

mutual
  pub data Node : Type 0 where
    node : Bool → Children → Node

  pub data Children : Type 0 where
    nil : Children
    cons : ℕ → Node → Children → Children

unfoldable pub find_child : ℕ → Children → Option Node
find_child c nil = none
find_child c (cons d n ks) = if d == c then some n else find_child c ks

pub get_child : ℕ → Node → Option Node
unfolding find_child
get_child c (node b ks) = find_child c ks

-- Write a child back, or emplace it.
pub put_child : ℕ → Node → Children → Children
put_child c n nil = cons c n nil
put_child c n (cons d m ks) = if d == c then cons c n ks else cons d m (put_child c n ks)

pub erase_child : ℕ → Children → Children
erase_child c nil = nil
erase_child c (cons d m ks) = let rest = erase_child c ks in if d == c then rest else cons d m rest

-- The child that `addChild` returns: a new one has the given breakpoint, an old one keeps its own
-- or gets it.
pub added : Bool → Option Node → Node
added breakpoint none = node breakpoint nil
added breakpoint (some (node b ks)) = node (if breakpoint && not b then true else b) ks

-- A name of one character or more, `insert` of its first character and the others.
pub insert : ℕ → List ℕ → Node → Node
insert c [] (node b ks) = node b (put_child c (added true (find_child c ks)) ks)
insert c (d ∷ s) (node b ks) = node b (put_child c (insert d s (added false (find_child c ks))) ks)

-- No child and no breakpoint: the loop of `remove` erases such a node from its parent and goes on
-- there, and stops at any other.
pub is_idle : Node → Bool
is_idle (node b nil) = not b
is_idle (node b (cons _ _ _)) = false

abbrev pub settle : ℕ → Node → Children → Children
settle c n ks = if is_idle n then erase_child c ks else put_child c n ks

-- `none` where the walk down fails.
pub remove_path : List ℕ → Node → Option Node
remove_path [] (node b ks) = some (node false ks)
remove_path (c ∷ s) (node b ks) = elim (find_child c ks) [
  | none ↦ none
  | some n ↦ elim (remove_path s n) [ none ↦ none | some n' ↦ some (node b (settle c n' ks)) ]
]

pub remove : List ℕ → Node → Node
unfolding remove_path find_child
remove s n = elim (remove_path s n) [ none ↦ n | some n' ↦ n' ]

pub data ReturnValue : Type 0 where
  no_error player_not_online name_ambiguous : ReturnValue

-- `for (char pos : query)`.
pub walk : List ℕ → Node → Option Node
walk [] n = some n
walk (c ∷ s) n = elim (get_child c n) [ none ↦ none | some m ↦ walk s m ]

-- The loop behind it: the code and what is appended to `result`.
pub chain : Node → ReturnValue × List ℕ
chain (node b nil) = (no_error, [])
chain (node b (cons c n nil)) =
    let rest = chain n in if b then (name_ambiguous, []) else (rest.0, c ∷ rest.1)
chain (node b (cons c n (cons _ _ _))) = (name_ambiguous, [])

-- The code, and `result` if it is written.
pub find_one : List ℕ → Node → ReturnValue × Option (List ℕ)
find_one query n = elim (walk query n) [
  | none ↦ (player_not_online, none)
  | some m ↦ let (code, more) = chain m in (code, some (query ++ more))
]
