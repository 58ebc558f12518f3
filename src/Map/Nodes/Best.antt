-- ===== src/Map/Nodes/Best.antt =====
-- getBestNode of src/map.cpp gives a node that is in use and open.
use xynera_ots.Prelude.{
  ℕ, zero, suc, ◌+◌, ◌-◌, ◌%◌, ◌^◌, ◌<◌, ◌≡◌, refl, sym, subst, inl, inr, Bool, true, false, ◌&&◌,
  Bool-cases, Option, none, some, if◌then◌else◌, arith,
}
use xynera_ots.Map.Nodes.{Nodes, is_less, best_from, get_best_node}

-- In use and open, if there is one.
unfoldable pub Usable : Nodes → Option ℕ → Type 0
Usable s none = Unit
Usable s (some n) = (n < s.cur_node) × (s.open_nodes n ≡ true)

and-left : (a b : Bool) → (a && b) ≡ true → a ≡ true
and-left true b e = refl
and-left false b e = e

best_from-Usable :
    (s : Nodes) (left i best_f : ℕ) (best : Option ℕ)
    → i + left ≡ s.cur_node
    → Usable s best
    → Usable s (best_from s left i best_f best)
unfolding best_from Usable
best_from-Usable s zero i best_f best e u = u
best_from-Usable s (suc left) i best_f best e u =
    let cost = ((s.nodes i).f + (s.nodes i).g) % 2 ^ 32 in
    let better = s.open_nodes i && is_less cost best_f in
    best_from-Usable s left (i + 1) (if better then cost else best_f)
      (if better then some i else best) (omega (arith, e))
      (elim (Bool-cases better) [
        | inl y ↦
            subst (λ b. Usable s (if b then some i else best)) (sym y)
              (omega (arith, e), and-left (s.open_nodes i) (is_less cost best_f) y)
        | inr n ↦ subst (λ b. Usable s (if b then some i else best)) (sym n) u
      ])

pub get_best_node-Usable : (s : Nodes) → Usable s (get_best_node s)
unfolding get_best_node Usable
get_best_node-Usable s = best_from-Usable s s.cur_node 0 (2 ^ 31 - 1) none (omega arith) tt
