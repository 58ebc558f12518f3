-- ===== src/Storage/Otb/Format/Loop.antt =====
-- The loop of `parseTree` over a printed tree.

use xynera_ots.Prelude.{
  ℕ, ◌≡◌, refl, ◌∙◌, Option, false, List, [], ◌∷◌, ◌++◌, leb, arith, Bool-cases, inl, inr,
}
use xynera_ots.Storage.Otb.{
  node_escape, node_start, node_end, Node, Open, State, plain, kind, mark_end, close, start_node,
  child, end_node, at_byte, loop,
}
use xynera_ots.Storage.Otb.Format.{
  Tree, tree, Trees, leaf, branch, escape, print, print_all, node_of,
}
use xynera_ots.Storage.Otb.Format.Close.{add, add_all, close-add_all}

pub kind-plain : (b : ℕ) → leb node_escape b ≡ false → kind b ≡ plain
unfolding kind
kind-plain b h = ground arith

pub loop-plain :
    (s : State) (b : ℕ) (k : List ℕ) → kind b ≡ plain → loop at_byte s (b ∷ k) ≡ loop at_byte s k
unfolding loop
loop-plain s b k e = rw (e, loop) refl

pub loop-escaped :
    (s : State) (b : ℕ) (k : List ℕ) → loop at_byte s (node_escape ∷ b ∷ k) ≡ loop at_byte s k
unfolding loop kind
loop-escaped s b k = refl

-- Properties are passed over.
pub loop-escape : (s : State) (ps k : List ℕ) → loop at_byte s (escape ps ++ k) ≡ loop at_byte s k
unfolding loop escape
loop-escape s [] k = refl
loop-escape s (b ∷ ps) k = elim (Bool-cases (leb node_escape b)) [
  | inl e ↦ rw (e, loop-escaped s b (escape ps ++ k)) (loop-escape s ps k)
  | inr e ↦ rw (e, loop-plain s b (escape ps ++ k) (kind-plain b e)) (loop-escape s ps k)
]

pub loop-start :
    (t : ℕ) (k : List ℕ) (o : Open) (os : List Open) (r : Option Node)
    → loop at_byte (record { stack = o ∷ os; root = r }) (node_start ∷ t ∷ k)
      ≡ loop at_byte
          (record { stack = child t k ∷ mark_end (node_start ∷ t ∷ k) o ∷ os; root = r })
          k
unfolding loop kind start_node
loop-start t k o os r = refl

pub loop-end :
    (k : List ℕ) (o p : Open) (os : List Open) (r : Option Node)
    → loop at_byte (record { stack = o ∷ p ∷ os; root = r }) (node_end ∷ k)
      ≡ loop at_byte (record { stack = add p (close (mark_end (node_end ∷ k) o)) ∷ os; root = r }) k
unfolding loop kind end_node
loop-end k o p os r = refl

mutual
  unfolding print print_all add_all

  pub loop-print :
      (t : Tree) (k : List ℕ) (o : Open) (os : List Open) (r : Option Node)
      → loop at_byte (record { stack = o ∷ os; root = r }) (print t k)
        ≡ loop at_byte
            (record { stack = add (mark_end (print t k) o) (node_of t k) ∷ os; root = r })
            k
  loop-print (tree t ps ts) k o os r =
      loop-start t (escape ps ++ print_all ts (node_end ∷ k)) o os r
      ∙ loop-escape _ ps (print_all ts (node_end ∷ k))
      ∙ loop-print_all ts (node_end ∷ k) (child t (escape ps ++ print_all ts (node_end ∷ k))) _ r
      ∙ loop-end k _ _ os r
      ∙ rw (close-add_all t ps ts k) refl

  pub loop-print_all :
      (ts : Trees) (k : List ℕ) (o : Open) (os : List Open) (r : Option Node)
      → loop at_byte (record { stack = o ∷ os; root = r }) (print_all ts k)
        ≡ loop at_byte (record { stack = add_all o ts k ∷ os; root = r }) k
  loop-print_all leaf k o os r = refl
  loop-print_all (branch t ts) k o os r =
      loop-print t (print_all ts k) o os r ∙ loop-print_all ts k _ os r
