-- ===== src/Storage/Otb/Format/Close.antt =====
-- What the loader's open node holds once its children have been read.

use xynera_ots.Prelude.{ℕ, ◌≡◌, refl, ap, ◌∙◌, Option, List, ◌∷◌, ◌++◌}
use xynera_ots.Storage.Otb.{
  node_end, Node, Nodes, nil, cons, push_back, Open, mark_end, close, child,
}
use xynera_ots.Storage.Otb.Format.{
  tree, Trees, leaf, branch, escape, print, print_all, node_of, nodes_of,
}

abbrev pub add : Open → Node → Open
add o n = record o { children = push_back o.children n }

-- The open node `o` once the trees of a row have been read into it.
unfoldable pub add_all : Open → Trees → List ℕ → Open
add_all o leaf k = o
add_all o (branch t ts) k =
    add_all (add (mark_end (print t (print_all ts k)) o) (node_of t (print_all ts k))) ts k

pub append : Nodes → Nodes → Nodes
append nil ms = ms
append (cons n ns) ms = cons n (append ns ms)

pub append-push_back :
    (ns : Nodes) (n : Node) (ms : Nodes) → append (push_back ns n) ms ≡ append ns (cons n ms)
unfolding append push_back
append-push_back nil n ms = refl
append-push_back (cons m ns) n ms = ap (cons m) (append-push_back ns n ms)

pub append-nil_lem : (ns : Nodes) → append ns nil ≡ ns
unfolding append
append-nil_lem nil = refl
append-nil_lem (cons n ns) = ap (cons n) (append-nil_lem ns)

-- Only the first child sets the end of the properties.
pub add_all-cons :
    (t : ℕ) (begin : List ℕ) (e : Option (List ℕ)) (n : Node) (ns : Nodes) (ts : Trees) (k : List ℕ)
    → add_all (record { type = t; props_begin = begin; props_end = e; children = cons n ns }) ts k
      ≡ record {
        type = t;
        props_begin = begin;
        props_end = e;
        children = append (cons n ns) (nodes_of ts k);
      }
unfolding add_all nodes_of append push_back mark_end
add_all-cons t begin e n ns leaf k = rw (append-nil_lem ns) refl
add_all-cons t begin e n ns (branch b ts) k =
    add_all-cons t begin e n (push_back ns (node_of b (print_all ts k))) ts k
    ∙ rw (append-push_back ns (node_of b (print_all ts k)) (nodes_of ts k)) refl

pub close-add_all :
    (t : ℕ) (ps : List ℕ) (ts : Trees) (k : List ℕ)
    → close (
        mark_end
          (node_end ∷ k)
          (add_all (child t (escape ps ++ print_all ts (node_end ∷ k))) ts (node_end ∷ k)))
      ≡ node_of (tree t ps ts) k
unfolding close add_all mark_end node_of print_all append push_back
close-add_all t ps leaf k = refl
close-add_all t ps (branch b ts) k =
    ap close (ap (mark_end (node_end ∷ k)) (add_all-cons _ _ _ _ nil ts (node_end ∷ k)))
