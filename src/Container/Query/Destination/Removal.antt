-- ===== src/Container/Query/Destination/Removal.antt =====
-- When queryRemove lets an item out.
use xynera_ots.Prelude.{
  ℕ, zero, suc, ◌≤◌, ◌<◌, ◌≡◌, refl, sym, ap, ◌∙◌, ◌↔◌, ◌⊎◌, inl, inr, Bool, true, false,
  Bool-cases, Option, none, some, List, [], ◌∷◌, ◌==◌, if◌then◌else◌, arith,
}
use xynera_ots.Container.Query.{
  no_error, not_possible, Item, of_item, Container, flag_ignorenotmoveable, has_bit_set,
  get_item_by_index, get_thing_index, next_index, get_top_parent, is_barred,
}
use xynera_ots.Container.Query.Destination.{remove_item, remove_found, query_remove}

-- One of the items is at the address.
pub Holds : ℕ → List Item → Type 0
Holds a xs = (n : ℕ) × (x : Item) × (get_item_by_index n xs ≡ some x) × (x.address ≡ a)

from_next : (o : Option ℕ) (n : ℕ) → next_index o ≡ some n → (m : ℕ) × (o ≡ some m)
from_next none n h = absurd cc
from_next (some m) n h = (m, refl)

get_thing_index-Holds :
    (a : ℕ) (xs : List Item) (n : ℕ) → get_thing_index a xs ≡ some n → Holds a xs
unfolding get_thing_index Holds get_item_by_index
get_thing_index-Holds a [] n h = absurd cc
get_thing_index-Holds a (x ∷ xs) n h =
    let rest = next_index (get_thing_index a xs) in
    elim (Bool-cases (x.address == a)) [
      | inl here ↦ (0, x, refl, ground (arith, here))
      | inr other ↦
          let next =
            from_next (get_thing_index a xs) n
              (sym (ap (λ b. if b then some 0 else rest) other) ∙ h) in
          let (k, y, g, e) = get_thing_index-Holds a xs next.0 next.1 in (suc k, y, g, e)
    ]

Holds-get_thing_index :
    (a n : ℕ) (x : Item) (xs : List Item)
    → get_item_by_index n xs ≡ some x
    → x.address ≡ a
    → (m : ℕ) × (get_thing_index a xs ≡ some m)
unfolding get_thing_index get_item_by_index
Holds-get_thing_index a n x [] h e = absurd cc
Holds-get_thing_index a zero x (y ∷ ys) h e =
    let same : (y.address == a) ≡ true = ground (arith, h, e) in
    (0, ap (λ b. if b then some 0 else next_index (get_thing_index a ys)) same)
Holds-get_thing_index a (suc n) x (y ∷ ys) h e =
    let (m, g) = Holds-get_thing_index a n x ys h e in
    elim (Bool-cases (y.address == a)) [
      | inl here ↦ (0, ap (λ b. if b then some 0 else next_index (get_thing_index a ys)) here)
      | inr other ↦ (
        suc m,
        ap (λ b. if b then some 0 else next_index (get_thing_index a ys)) other ∙ ap next_index g,
      )
    ]

-- What queryRemove asks of an item that is in the container.
pub Removable : Bool → Container → Item → ℕ → ℕ → Option ℕ → Type 0
Removable only_invited c i count flags actor =
    (0 < count)
    × (i.stackable ≡ true → count ≤ i.count)
    × ((i.moveable ≡ true) ⊎ (has_bit_set flag_ignorenotmoveable flags ≡ true))
    × (is_barred only_invited actor (get_top_parent c) ≡ false)

remove_item_iff :
    (only_invited : Bool) (c : Container) (i : Item) (count flags : ℕ) (actor : Option ℕ)
    → (remove_item only_invited c i count flags actor ≡ no_error)
      ↔ Removable only_invited c i count flags actor
unfolding remove_item Removable
remove_item_iff only_invited c i count flags actor =
    (λ h. (ground arith, (λ s. ground arith), ground arith, ground arith), λ h. ground arith)

remove_found_iff :
    (only_invited : Bool) (c : Container) (i : Item) (count flags : ℕ) (actor : Option ℕ)
    → (o : Option ℕ) → get_thing_index i.address c.itemlist ≡ o
    → (remove_found only_invited c o (of_item i) count flags actor ≡ no_error)
      ↔ (Holds i.address c.itemlist × Removable only_invited c i count flags actor)
unfolding remove_found Holds
remove_found_iff only_invited c i count flags actor none e = (λ h. absurd cc, missing)
  where
    missing :
        Holds i.address c.itemlist × Removable only_invited c i count flags actor
        → not_possible ≡ no_error
    missing ((n, x, g, a), r) =
        let (m, f) = Holds-get_thing_index i.address n x c.itemlist g a in absurd cc
remove_found_iff only_invited c i count flags actor (some m) e =
    let (allows, needs) = remove_item_iff only_invited c i count flags actor in
    (λ h. (get_thing_index-Holds i.address c.itemlist m e, allows h), λ p. needs p.1)

-- queryRemove gives no error for an item just if an item in the container is at its address, the
-- count is not 0 and no more than there are of a stackable item, the item can be moved or the flags
-- do not ask for that, and the actor is not kept out of the house.
pub query_remove_iff :
    (only_invited : Bool) (c : Container) (i : Item) (count flags : ℕ) (actor : Option ℕ)
    → (query_remove only_invited c (of_item i) count flags actor ≡ no_error)
      ↔ (Holds i.address c.itemlist × Removable only_invited c i count flags actor)
unfolding query_remove remove_found
query_remove_iff only_invited c i count flags actor =
    remove_found_iff only_invited c i count flags actor (get_thing_index i.address c.itemlist) refl
