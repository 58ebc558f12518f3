-- ===== src/Wildcard/Tests.antt =====
-- The theorems of Wildcard, on the names "ana", "anna" and "bo".
use xynera_ots.Prelude.{ℕ, ◌≡◌, refl, true, false, some, List, [], ◌∷◌, ◌++◌}
use xynera_ots.Wildcard.{
  Node, node, nil, find_child, put_child, added, insert, remove, no_error, player_not_online,
  name_ambiguous, walk, chain, find_one, get_child,
}
use xynera_ots.Wildcard.Names.{contains, contains-insert, contains-remove}
use xynera_ots.Wildcard.Pruned.{
  Pruned, pruned, none_left, changes, change, inserts, removes, changes-Pruned,
}
use xynera_ots.Wildcard.Lookup.{find_one_unique}

abbrev names : Node
names =
    insert 97 (110 ∷ 97 ∷ [])
      (insert 97 (110 ∷ 110 ∷ 97 ∷ []) (insert 98 (111 ∷ []) (node false nil)))

abbrev names-Pruned : Pruned names
unfolding changes change
names-Pruned =
    changes-Pruned
      (inserts 98 (111 ∷ []) ∷ inserts 97 (110 ∷ 110 ∷ 97 ∷ []) ∷ inserts 97 (110 ∷ 97 ∷ []) ∷ [])
      (pruned none_left)

only_bo : find_one (98 ∷ []) names ≡ (no_error, some (98 ∷ 111 ∷ []))
unfolding find_one walk get_child insert put_child find_child added chain
only_bo = refl

two_with_a : (find_one (97 ∷ []) names).0 ≡ name_ambiguous
unfolding find_one walk get_child insert put_child find_child added chain
two_with_a = refl

-- The empty query, with nobody online, finds the empty name.
nobody_found : find_one [] (node false nil) ≡ (no_error, some [])
unfolding find_one walk chain
nobody_found = refl

contains-insert_example :
    contains (97 ∷ 110 ∷ []) (insert 98 (111 ∷ []) names) ≡ contains (97 ∷ 110 ∷ []) names
contains-insert_example = contains-insert 98 (111 ∷ []) (97 ∷ 110 ∷ []) names

contains-remove_example : contains (98 ∷ 111 ∷ []) (remove (98 ∷ 111 ∷ []) names) ≡ false
contains-remove_example = contains-remove (98 ∷ 111 ∷ []) (98 ∷ 111 ∷ []) names

changes-Pruned_example :
    Pruned (changes (inserts 97 (98 ∷ []) ∷ removes (97 ∷ 98 ∷ []) ∷ []) (node false nil))
changes-Pruned_example =
    changes-Pruned (inserts 97 (98 ∷ []) ∷ removes (97 ∷ 98 ∷ []) ∷ []) (pruned none_left)

find_one_unique_example :
    (((find_one (98 ∷ []) names).0 ≡ no_error)
      → (more : List ℕ) × ((find_one (98 ∷ []) names).1 ≡ some ((98 ∷ []) ++ more))
        × (contains ((98 ∷ []) ++ more) names ≡ true)
        × ((j : List ℕ) → contains ((98 ∷ []) ++ j) names ≡ true → j ≡ more))
    × (((find_one (98 ∷ []) names).0 ≡ player_not_online)
        → (j : List ℕ) → contains ((98 ∷ []) ++ j) names ≡ false)
find_one_unique_example = find_one_unique 98 [] names names-Pruned
