-- ===== src/Container/Iterator.antt =====
-- ContainerIterator of src/container.h and src/container.cpp, and the functions of Container that
-- are loops over it. An item is known by a number; a container is an item with a list of items.
pub mod Visits
mod Tests
use xynera_ots.Prelude.{
  ℕ, zero, suc, ◌+◌, Bool, true, false, ◌||◌, not, List, [], ◌∷◌, ◌++◌, ◌==◌, if◌then◌else◌,
}

mutual
  pub data Item : Type 0 where
    item : ℕ → Item
    container : ℕ → Items → Item

  pub data Items : Type 0 where
    nil : Items
    cons : Item → Items → Items

abbrev pub address : Item → ℕ
address (item a) = a
address (container a is) = a

-- `over`, whose containers are never empty, and the rest of the first one's list from `cur` on.
pub record Iterator : Type 0 where
  pub over : List Items
  pub cur : Items

unfoldable pub iterator : Items → Iterator
iterator nil = record { over = []; cur = nil }
iterator (cons i is) = record { over = cons i is ∷ []; cur = cons i is }

abbrev pub has_next : Iterator → Bool
has_next it = elim (it.over) [ [] ↦ false | l ∷ ls ↦ true ]

-- What `advance` puts behind `over` for the current item.
unfoldable pub pushed : Item → List Items
pushed (item a) = []
pushed (container a nil) = []
pushed (container a (cons i is)) = cons i is ∷ []

abbrev pub next_container : List Items → Iterator
next_container [] = record { over = []; cur = nil }
next_container (l ∷ ls) = record { over = l ∷ ls; cur = l }

-- The end of `advance`: `cur` has reached the end of the first container or not.
unfoldable pub settle : List Items → Items → Iterator
settle [] rest = record { over = []; cur = rest }
settle (l ∷ ls) nil = next_container ls
settle (l ∷ ls) (cons i is) = record { over = l ∷ ls; cur = cons i is }

unfoldable pub advance : Iterator → Iterator
unfolding pushed settle
advance it = elim (it.cur) [ nil ↦ it | cons i is ↦ settle (it.over ++ pushed i) is ]

-- A loop `for (it = iterator(); it.hasNext(); it.advance())` that keeps every `*it`, as `getItems`
-- does.
unfoldable pub visit : ℕ → Iterator → List ℕ
unfolding advance
visit zero it = []
visit (suc fuel) it = elim (it.over) [
  | [] ↦ []
  | l ∷ ls ↦ elim (it.cur) [ nil ↦ [] | cons i is ↦ address i ∷ visit fuel (advance it) ]
]

mutual
  -- How many items there are, the containers among them.
  pub size : Item → ℕ
  size (item a) = 1
  size (container a is) = suc (size_all is)

  pub size_all : Items → ℕ
  size_all nil = 0
  size_all (cons i is) = size i + size_all is

-- Enough fuel for the walk.
unfoldable pub get_items : Items → List ℕ
unfolding size_all visit iterator
get_items is = visit (size_all is) (iterator is)

abbrev pub count_all : List ℕ → ℕ
count_all [] = 0
count_all (a ∷ as') = suc (count_all as')

pub get_item_holding_count : Items → ℕ
unfolding get_items
get_item_holding_count is = count_all (get_items is)

abbrev pub any : (ℕ → Bool) → List ℕ → Bool
any p [] = false
any p (a ∷ as') = if p a then true else any p as'

pub is_holding_item : ℕ → Items → Bool
unfolding get_items
is_holding_item a is = any (λ b. b == a) (get_items is)

pub has_store_items : (ℕ → Bool) → Items → Bool
unfolding get_items
has_store_items is_store_item is = any is_store_item (get_items is)
