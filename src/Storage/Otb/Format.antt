-- ===== src/Storage/Otb/Format.antt =====
-- The file format that OTB::Loader reads. A description of its own: the repository has no writer.
pub mod Close
pub mod Loop
pub mod RoundTrip
mod Tests
use mathlib.Core.List.{append_assoc, append-nil}
use xynera_ots.Prelude.{
  ℕ, zero, suc, ◌-◌, ◌+◌, ◌≤◌, ◌<◌, ◌≡◌, ◌≢◌, refl, sym, ap, ap₂, ◌∙◌, Option, none, some, Bool,
  true, false, not, ◌&&◌, List, [], ◌∷◌, ◌++◌, ltb, leb, ◌==◌, if◌then◌else◌, length, take, drop,
  arith, length-append, Bool-cases, inl, inr, take-append, drop-append,
}
use xynera_ots.Storage.Otb.{
  node_escape, node_start, node_end, Node, Nodes, node, nil, cons, push_back, Open, State, Kind,
  starts, ends, escapes, plain, kind, mark_end, close, start_node, child, end_node, at_byte,
  at_type, at_escaped, loop, parse_from, same, load, unescape, get_props,
}

-- A tree of nodes, each with its type byte and the bytes of its properties.
mutual
  pub data Tree : Type 0 where
    tree : ℕ → List ℕ → Trees → Tree

  pub data Trees : Type 0 where
    leaf : Trees
    branch : Tree → Trees → Trees

-- A byte that could be taken for a marker has an escape in front.
pub escape : List ℕ → List ℕ
escape [] = []
escape (b ∷ bs) = if leb node_escape b then node_escape ∷ b ∷ escape bs else b ∷ escape bs

-- What a tree and a row of trees look like in a file, in front of `k`.
mutual
  pub print : Tree → List ℕ → List ℕ
  print (tree t ps ts) k = node_start ∷ t ∷ escape ps ++ print_all ts (node_end ∷ k)

  pub print_all : Trees → List ℕ → List ℕ
  print_all leaf k = k
  print_all (branch t ts) k = print t (print_all ts k)

-- A node of the loader stands for a tree: the same type, the properties that `getProps` gives
-- (`false` where there are none), and children that stand for its children, in order.
mutual
  pub data Shows : Node → Tree → Type 0 where
    shows :
        {t : ℕ} {begin : List ℕ} {fin : Option (List ℕ)} {ns : Nodes} {ps : List ℕ} {ts : Trees}
        → get_props (node t begin fin ns) ≡ (if length ps == 0 then none else some ps)
        → ShowsAll ns ts
        → Shows (node t begin fin ns) (tree t ps ts)

  pub data ShowsAll : Nodes → Trees → Type 0 where
    none_left : ShowsAll nil leaf
    one_more :
        {n : Node} {ns : Nodes} {t : Tree} {ts : Trees}
        → Shows n t
        → ShowsAll ns ts
        → ShowsAll (cons n ns) (branch t ts)

-- Where the properties end: at the first child, or at the end of the node.
mutual
  pub node_of : Tree → List ℕ → Node
  node_of (tree t ps ts) k =
      node t (escape ps ++ print_all ts (node_end ∷ k)) (some (print_all ts (node_end ∷ k)))
        (nodes_of ts (node_end ∷ k))

  pub nodes_of : Trees → List ℕ → Nodes
  nodes_of leaf k = nil
  nodes_of (branch t ts) k = cons (node_of t (print_all ts k)) (nodes_of ts k)
