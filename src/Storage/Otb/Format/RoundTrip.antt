-- ===== src/Storage/Otb/Format/RoundTrip.antt =====
-- The loader reads back what the format prints.

use xynera_ots.Prelude.{
  ℕ, ◌-◌, ◌<◌, ◌≡◌, refl, ap, ◌∙◌, none, some, true, false, List, [], ◌∷◌, ◌++◌, leb, ◌==◌,
  if◌then◌else◌, length, arith, length-append, Bool-cases, inl, inr, take-append, drop-append,
}
use xynera_ots.Storage.Otb.{
  node_escape, node_end, Node, Nodes, node, Open, kind, mark_end, close, child, end_node, at_byte,
  loop, parse_from, same, load, unescape, get_props,
}
use xynera_ots.Storage.Otb.Format.{
  Tree, tree, Trees, leaf, branch, escape, print, print_all, Shows, shows, ShowsAll, none_left,
  one_more, node_of, nodes_of,
}
use xynera_ots.Storage.Otb.Format.Close.{add_all, close-add_all}
use xynera_ots.Storage.Otb.Format.Loop.{loop-escape, loop-print_all}

unescape-escaped :
    (b : ℕ) (k : List ℕ) → unescape false (node_escape ∷ b ∷ k) ≡ b ∷ unescape false k
unfolding unescape
unescape-escaped b k = ground arith

unescape-plain :
    (b : ℕ) (k : List ℕ) → leb node_escape b ≡ false → unescape false (b ∷ k) ≡ b ∷ unescape false k
unfolding unescape
unescape-plain b k e = ground arith

-- getProps gives the properties back.
unescape-escape : (ps : List ℕ) → unescape false (escape ps) ≡ ps
unfolding escape
unescape-escape [] = unfold unescape in refl
unescape-escape (b ∷ ps) = elim (Bool-cases (leb node_escape b)) [
  | inl e ↦ rw (e, unescape-escaped b (escape ps), unescape-escape ps) refl
  | inr e ↦ rw (e, unescape-plain b (escape ps) e, unescape-escape ps) refl
]

escape-nil : (ps : List ℕ) → (length (escape ps) == 0) ≡ (length ps == 0)
unfolding escape
escape-nil [] = refl
escape-nil (b ∷ ps) = ground arith

get_props-escape :
    (t : ℕ) (ps fin : List ℕ) (ns : Nodes)
    → get_props (node t (escape ps ++ fin) (some fin) ns)
      ≡ (if length ps == 0 then none else some ps)
unfolding get_props
get_props-escape t ps fin ns =
    let e : length (escape ps ++ fin) - length fin ≡ length (escape ps) =
      omega (arith, length-append (escape ps) fin) in
    rw (e, escape-nil ps, take-append (length (escape ps)) (escape ps) fin refl, unescape-escape ps)
      refl

mutual
  unfolding node_of print_all

  node_of-Shows : (t : Tree) (k : List ℕ) → Shows (node_of t k) t
  node_of-Shows (tree t ps ts) k =
      shows (get_props-escape t ps (print_all ts (node_end ∷ k)) (nodes_of ts (node_end ∷ k)))
        (nodes_of-ShowsAll ts (node_end ∷ k))

  nodes_of-ShowsAll : (ts : Trees) (k : List ℕ) → ShowsAll (nodes_of ts k) ts
  nodes_of-ShowsAll leaf k = none_left
  nodes_of-ShowsAll (branch t ts) k =
      one_more (node_of-Shows t (print_all ts k)) (nodes_of-ShowsAll ts k)

loop-last :
    (o : Open)
    → loop at_byte (record { stack = o ∷ []; root = none }) (node_end ∷ [])
      ≡ some (close (mark_end (node_end ∷ []) o))
unfolding loop kind end_node
loop-last o = refl

parse_from-print : (t : Tree) → parse_from (print t []) ≡ some (node_of t [])
unfolding parse_from print
parse_from-print (tree t ps ts) =
    loop-escape _ ps (print_all ts (node_end ∷ []))
    ∙ loop-print_all ts (node_end ∷ []) (child t (escape ps ++ print_all ts (node_end ∷ []))) []
        none
    ∙ loop-last (add_all (child t (escape ps ++ print_all ts (node_end ∷ []))) ts (node_end ∷ []))
    ∙ ap some (close-add_all t ps ts [])

same_refl : (xs : List ℕ) → same xs xs ≡ true
unfolding same
same_refl [] = refl
same_refl (x ∷ xs) = ground (arith, same_refl xs)

load-append :
    (accepted rest : List ℕ)
    → length accepted ≡ 4
    → 3 < length rest
    → load accepted (accepted ++ rest) ≡ parse_from rest
unfolding load
load-append accepted rest size long =
    let e : leb (length (accepted ++ rest)) 7 ≡ false =
      ground (arith, length-append accepted rest) in
    rw (e, take-append 4 accepted rest size, drop-append 4 accepted rest size, same_refl accepted)
      refl

-- Every file that holds the accepted identifier and one tree, and is longer than the seven bytes
-- that the constructor refuses, loads as that tree: types, properties and children.
pub load-print :
    (accepted : List ℕ) (t : Tree)
    → length accepted ≡ 4
    → 3 < length (print t [])
    → (n : Node) × (load accepted (accepted ++ print t []) ≡ some n) × Shows n t
load-print accepted t size long = (
  node_of t [],
  load-append accepted (print t []) size long ∙ parse_from-print t,
  node_of-Shows t [],
)
