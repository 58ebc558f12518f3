-- ===== src/Container/Query/Destination/Stacks.antt =====
-- What queryDestination says of an unlocked container: the item to stack with.
use xynera_ots.Prelude.{
  ℕ, zero, suc, ◌+◌, ◌-◌, ◌≤◌, ◌<◌, ◌≡◌, ◌≢◌, refl, sym, subst, ◌∙◌, inl, inr, Bool, true, false,
  ◌&&◌, ◌||◌, not, Bool-cases, Option, none, some, List, [], ◌∷◌, ◌==◌, if◌then◌else◌, arith,
}
use xynera_ots.Container.Query.{
  Item, of_item, Container, wherever, flag_nolimit, flag_ignoreautostack, has_bit_set, size,
  get_item_by_index,
}
use xynera_ots.Container.Query.Count.{takes_more}
use xynera_ots.Container.Query.Destination.{
  beyond, this_container, sub_cylinder, unlocked_destination, Destination, find_stack, can_stack,
  stacked, auto_stack, at_index, or_else, destination, query_destination,
}

get_item_by_index-beyond : (n : ℕ) (xs : List Item) → size xs ≤ n → get_item_by_index n xs ≡ none
unfolding get_item_by_index size
get_item_by_index-beyond n [] h = refl
get_item_by_index-beyond zero (x ∷ xs) h = absurd (omega arith)
get_item_by_index-beyond (suc n) (x ∷ xs) h = get_item_by_index-beyond n xs (omega arith)

falsity : true ≡ false → ⊥
falsity h = cc

-- The item that is found stands `k - n` places on and takes more; if none is found, no item does.
Found : (Item → Item → Bool) → Item → ℕ → List Item → Option (ℕ × Item) → Type 0
Found equals i n xs none =
    (k : ℕ) (x : Item) → get_item_by_index k xs ≡ some x → takes_more equals i x ≡ false
Found equals i n xs (some (k, x)) =
    (n ≤ k) × (get_item_by_index (k - n) xs ≡ some x) × (takes_more equals i x ≡ true)

Found-later :
    (equals : Item → Item → Bool) (i : Item) (n : ℕ) (x : Item) (xs : List Item)
    → (o : Option (ℕ × Item)) → takes_more equals i x ≡ false
    → Found equals i (n + 1) xs o
    → Found equals i n (x ∷ xs) o
unfolding Found get_item_by_index
Found-later equals i n x xs none e f = none_here
  where
    none_here :
        (k : ℕ) (y : Item) → get_item_by_index k (x ∷ xs) ≡ some y → takes_more equals i y ≡ false
    none_here zero y h = cc
    none_here (suc k) y h = f k y h
Found-later equals i n x xs (some (k, y)) e f =
    let s : k - n ≡ suc (k - (n + 1)) = omega (arith, f.0) in (omega (arith, f.0), rw s f.1, f.2)

find_stack-Found :
    (equals : Item → Item → Bool) (i : Item) (n : ℕ) (xs : List Item)
    → Found equals i n xs (find_stack equals i n xs)
unfolding find_stack Found get_item_by_index
find_stack-Found equals i n [] = λ k x h. absurd cc
find_stack-Found equals i n (x ∷ xs) =
    let start : n - n ≡ 0 = omega arith in
    elim (Bool-cases (takes_more equals i x)) [
      | inl more ↦ rw more (omega arith, (rw start refl), more)
      | inr full ↦ rw full (
          Found-later equals i n x xs (find_stack equals i (n + 1) xs) full
            (find_stack-Found equals i (n + 1) xs))
    ]

-- `dest_item` is what stands at the index, and it can take more of the item if any item can, that
-- is in the container and another one, where the flags and the item ask for that.
pub Stands : (Item → Item → Bool) → Container → Item → ℕ → Destination → Type 0
Stands equals c i flags d =
    d.target ≡ this_container
    → (d.dest_item ≡ get_item_by_index d.index c.itemlist)
      × (has_bit_set flag_ignoreautostack flags ≡ false
          → i.stackable ≡ true
          → i.parent ≢ c.self.cylinder_address
          → (k : ℕ) (x : Item) → get_item_by_index k c.itemlist ≡ some x
          → takes_more equals i x ≡ true
          → can_stack equals i d.dest_item ≡ true)

stacked-stands :
    (equals : Item → Item → Bool) (i : Item) (index : ℕ) (dest : Option Item) (xs : List Item)
    → (o : Option (ℕ × Item)) → Found equals i 0 xs o
    → dest ≡ get_item_by_index index xs
    → (stacked index dest o).dest_item ≡ get_item_by_index (stacked index dest o).index xs
unfolding stacked Found
stacked-stands equals i index dest xs none f h = h
stacked-stands equals i index dest xs (some (k, x)) f h =
    let e : k - 0 ≡ k = omega arith in subst (λ m. some x ≡ get_item_by_index m xs) e (sym f.1)

stacked-can :
    (equals : Item → Item → Bool) (i : Item) (index : ℕ) (dest : Option Item) (xs : List Item)
    → (o : Option (ℕ × Item)) → Found equals i 0 xs o
    → (k : ℕ) (x : Item) → get_item_by_index k xs ≡ some x
    → takes_more equals i x ≡ true
    → can_stack equals i (stacked index dest o).dest_item ≡ true
unfolding stacked Found takes_more
stacked-can equals i index dest xs none f k x h t = absurd (falsity (sym t ∙ f k x h))
stacked-can equals i index dest xs (some (j, y)) f k x h t = ground (arith, f.2)

auto_stack-Stands :
    (equals : Item → Item → Bool) (c : Container) (i : Item) (flags index : ℕ) (dest : Option Item)
    → dest ≡ get_item_by_index index c.itemlist
    → Stands equals c i flags (auto_stack equals c i flags index dest)
unfolding auto_stack Stands
auto_stack-Stands equals c i flags index dest h =
    let o = find_stack equals i 0 c.itemlist in
    let found = find_stack-Found equals i 0 c.itemlist in
    let s = stacked-stands equals i index dest c.itemlist o found h in
    let looking =
      not (has_bit_set flag_ignoreautostack flags)
      && (i.stackable
          && (not (i.parent == c.self.cylinder_address) && not (can_stack equals i dest))) in
    elim (Bool-cases looking) [
      | inl looks ↦
          rw looks
            (λ t. (s, λ a b p k x g m. stacked-can equals i index dest c.itemlist o found k x g m))
      | inr keeps ↦ rw keeps (λ t. (h, λ a b p k x g m. ground (arith, keeps, a, b, p)))
    ]

or_else-none : (o : Option Item) → or_else o none ≡ o
or_else-none none = refl
or_else-none (some x) = refl

either :
    (equals : Item → Item → Bool) (c : Container) (i : Item) (flags : ℕ) (b : Bool)
    → (d d' : Destination) → Stands equals c i flags d
    → Stands equals c i flags d'
    → Stands equals c i flags (if b then d else d')
either equals c i flags true d d' s s' = s
either equals c i flags false d d' s s' = s'

at_index-Stands :
    (equals : Item → Item → Bool) (c : Container) (i : Item) (flags index : ℕ) (dest : Option Item)
    → dest ≡ get_item_by_index index c.itemlist
    → Stands equals c i flags (at_index equals c i flags index dest)
unfolding at_index Stands
at_index-Stands equals c i flags index none h = auto_stack-Stands equals c i flags index none h
at_index-Stands equals c i flags index (some x) h =
    either equals c i flags x.cylinder _ _ below
      (auto_stack-Stands equals c i flags index (some x) h)
  where
    below :
        Stands equals c i flags
          (record { target = sub_cylinder x; index = wherever; dest_item = none })
    below t = absurd cc

destination-Stands :
    (equals : Item → Item → Bool) (c : Container) (i : Item) (flags index : ℕ)
    → size c.itemlist < wherever
    → Stands equals c i flags (destination equals c (of_item i) flags index none)
unfolding destination
destination-Stands equals c i flags index h = elim (Bool-cases (index == wherever)) [
  | inl w ↦ rw w (
      auto_stack-Stands equals c i flags index none
        (sym (get_item_by_index-beyond index c.itemlist (ground (arith, h, w)))))
  | inr s ↦ rw s (
      at_index-Stands equals c i flags index (or_else (get_item_by_index index c.itemlist) none)
        (or_else-none (get_item_by_index index c.itemlist)))
]

unlocked_destination-Stands :
    (equals : Item → Item → Bool) (c : Container) (i : Item) (flags index : ℕ)
    → size c.itemlist < wherever
    → index ≢ 254
    → Stands equals c i flags (unlocked_destination equals c index (of_item i) none flags)
unfolding unlocked_destination
unlocked_destination-Stands equals c i flags index h a =
    let e : (index == 254) ≡ false = ground (arith, a) in
    rw e (
      either equals c i flags (index == 255 || beyond index c.max_size) _ _
        (destination-Stands equals c i flags wherever h)
        (destination-Stands equals c i flags index h))

-- Where queryDestination of a container that is not locked, asked with no item to go to and an index
-- other than the one for moving up, keeps an item in the container, the item it is to go on is what
-- stands at the index; and if an item in the container can take more of it, the one it is to go on
-- can, where the item can be stacked, comes from elsewhere and the flags allow it.
pub query_destination-Stands :
    (equals : Item → Item → Bool) (c : Container) (i : Item) (flags index : ℕ)
    → size c.itemlist < wherever
    → c.unlocked ≡ true
    → index ≢ 254
    → Stands equals c i flags (query_destination equals c index (of_item i) none flags)
unfolding query_destination
query_destination-Stands equals c i flags index h u a =
    let free : (not c.unlocked && not (has_bit_set flag_nolimit flags)) ≡ false =
      ground (arith, u) in
    rw free (unlocked_destination-Stands equals c i flags index h a)
