-- ===== src/Container/Iterator/Visits.antt =====
-- The iterator visits everything below the container, each item as often as it is there.
use xynera_ots.Prelude.{
  ℕ, zero, suc, ◌+◌, ◌≤◌, ◌<◌, ◌≡◌, ◌↔◌, refl, ap, ◌∙◌, true, arith, List, [], ◌∷◌, ◌++◌, ◌==◌,
  if◌then◌else◌, Bool-cases, inl, inr,
}
use xynera_ots.Container.Iterator.{
  Item, Items, item, container, nil, cons, address, Iterator, iterator, pushed, settle, advance,
  visit, size, size_all, get_items, count_all, get_item_holding_count, any, is_holding_item,
}

abbrev pub count : ℕ → List ℕ → ℕ
count a [] = 0
count a (b ∷ bs) = (if b == a then 1 else 0) + count a bs

abbrev pub sum : (ℕ → ℕ) → List ℕ → ℕ
sum own [] = 0
sum own (a ∷ bs) = own a + sum own bs

mutual
  -- How often an item is below, the item itself included.
  pub occurs : ℕ → Item → ℕ
  occurs a (item b) = if b == a then 1 else 0
  occurs a (container b is) = (if b == a then 1 else 0) + occurs_all a is

  pub occurs_all : ℕ → Items → ℕ
  occurs_all a nil = 0
  occurs_all a (cons i is) = occurs a i + occurs_all a is

-- What a measure of items gives for lists that wait.
abbrev pub total : (Items → ℕ) → List Items → ℕ
total f [] = 0
total f (l ∷ ls) = f l + total f ls

pub total-append :
    (f : Items → ℕ) (xs ys : List Items) → total f (xs ++ ys) ≡ total f xs + total f ys
total-append f [] ys = omega arith
total-append f (x ∷ xs) ys = omega (arith, total-append f xs ys)

abbrev pub waiting : List Items → List Items
waiting [] = []
waiting (l ∷ ls) = ls

-- What an iterator has still to visit.
abbrev pub left : (Items → ℕ) → Iterator → ℕ
left f it = f it.cur + total f (waiting it.over)

-- The lists of `over` behind the first are not empty, and `cur` is empty only with `over`.
abbrev IsFull : Items → Type 0
IsFull nil = ⊥
IsFull (cons i is) = Unit {0}

abbrev AllFull : List Items → Type 0
AllFull [] = Unit {0}
AllFull (l ∷ ls) = IsFull l × AllFull ls

abbrev Sound : Iterator → Type 0
Sound it = elim (it.over) [ [] ↦ it.cur ≡ nil | l ∷ ls ↦ IsFull it.cur × AllFull ls ]

AllFull-append : (xs ys : List Items) → AllFull xs → AllFull ys → AllFull (xs ++ ys)
AllFull-append [] ys h k = k
AllFull-append (x ∷ xs) ys h k = (h.0, AllFull-append xs ys h.1 k)

pushed-AllFull : (i : Item) → AllFull (pushed i)
unfolding pushed
pushed-AllFull (item a) = tt
pushed-AllFull (container a nil) = tt
pushed-AllFull (container a (cons i is)) = (tt, tt)

-- A measure of items that is a sum over them, `own` for each.
module _ (own : ℕ → ℕ) (f : Items → ℕ) (none_there : f nil ≡ 0)
    (inside : (i : Item) (is : Items)
      → f (cons i is) ≡ own (address i) + total f (pushed i) + f is) where
  settle-left :
      (l : Items) (ls : List Items) (rest : Items)
      → left f (settle (l ∷ ls) rest) ≡ f rest + total f ls
  unfolding settle
  settle-left l [] nil = omega (arith, none_there)
  settle-left l (m ∷ ms) nil = omega (arith, none_there)
  settle-left l ls (cons i is) = refl

  advance-left :
      (l : Items) (ls : List Items) (i : Item) (is : Items)
      → own (address i) + left f (advance (record { over = l ∷ ls; cur = cons i is }))
        ≡ left f (record { over = l ∷ ls; cur = cons i is })
  unfolding advance
  advance-left l ls i is =
      omega (arith, settle-left l (ls ++ pushed i) is, total-append f ls (pushed i), inside i is)

settle-Sound :
    (l : Items) (ls : List Items) (rest : Items) → AllFull ls → Sound (settle (l ∷ ls) rest)
unfolding settle
settle-Sound l [] nil h = refl
settle-Sound l (m ∷ ms) nil h = h
settle-Sound l ls (cons i is) h = (tt, h)

size_inside :
    (i : Item) (is : Items) → size_all (cons i is) ≡ 1 + total size_all (pushed i) + size_all is
unfolding size size_all pushed
size_inside (item a) is = omega arith
size_inside (container a nil) is = omega arith
size_inside (container a (cons j js)) is = omega arith

occurs_inside :
    (a : ℕ) (i : Item) (is : Items)
    → occurs_all a (cons i is)
      ≡ (if address i == a then 1 else 0) + total (occurs_all a) (pushed i) + occurs_all a is
unfolding occurs occurs_all pushed
occurs_inside a (item b) is = omega arith
occurs_inside a (container b nil) is = omega arith
occurs_inside a (container b (cons j js)) is = omega arith

none_of_size : size_all nil ≡ 0
unfolding size_all
none_of_size = refl

none_occurs : (a : ℕ) → occurs_all a nil ≡ 0
unfolding occurs_all
none_occurs a = refl

-- With as much fuel as there are items the walk visits what is left and ends.
sum-visit :
    (own : ℕ → ℕ) (f : Items → ℕ) (none_there : f nil ≡ 0)
    → (inside : (i : Item) (is : Items)
        → f (cons i is) ≡ own (address i) + total f (pushed i) + f is)
    → (fuel : ℕ) (over : List Items) (cur : Items) → Sound (record { over = over; cur = cur })
    → left size_all (record { over = over; cur = cur }) ≤ fuel
    → sum own (visit fuel (record { over = over; cur = cur }))
      ≡ left f (record { over = over; cur = cur })
unfolding visit advance
sum-visit own f none_there inside zero [] cur h e = omega (arith, ap f h, none_there)
sum-visit own f none_there inside (suc fuel) [] cur h e = omega (arith, ap f h, none_there)
sum-visit own f none_there inside fuel (l ∷ ls) nil h e = elim (h.0) [ ]
sum-visit own f none_there inside zero (l ∷ ls) (cons i is) h e =
    absurd (omega (arith, size_inside i is))
sum-visit own f none_there inside (suc fuel) (l ∷ ls) (cons i is) h e =
    let it = advance (record { over = l ∷ ls; cur = cons i is }) in
    let s = advance-left (λ b. 1) size_all none_of_size size_inside l ls i is in
    let o = advance-left own f none_there inside l ls i is in
    let ih =
      sum-visit own f none_there inside fuel it.over it.cur
        (settle-Sound l (ls ++ pushed i) is (AllFull-append ls (pushed i) h.1 (pushed-AllFull i)))
        (omega (arith, s, e)) in
    omega (arith, ih, o)

iterator-Sound : (is : Items) → Sound (iterator is)
unfolding iterator
iterator-Sound nil = refl
iterator-Sound (cons i is) = (tt, tt)

iterator-left : (f : Items → ℕ) (is : Items) → f nil ≡ 0 → left f (iterator is) ≡ f is
unfolding iterator
iterator-left f nil e = omega (arith, e)
iterator-left f (cons i is) e = omega arith

-- A sum over the items is the sum over what `get_items` gives.
pub sum-get_items :
    (own : ℕ → ℕ) (f : Items → ℕ) (none_there : f nil ≡ 0)
    → (inside : (i : Item) (is : Items)
        → f (cons i is) ≡ own (address i) + total f (pushed i) + f is)
    → (is : Items) → sum own (get_items is) ≡ f is
unfolding get_items
sum-get_items own f none_there inside is =
    let it = iterator is in
    let small = iterator-left size_all is none_of_size in
    let here = iterator-left f is none_there in
    omega (
      arith,
      sum-visit own f none_there inside (size_all is) it.over it.cur (iterator-Sound is)
          (omega (arith, small)),
      here,
    )

count-sum : (a : ℕ) (bs : List ℕ) → count a bs ≡ sum (λ b. if b == a then 1 else 0) bs
count-sum a [] = refl
count-sum a (b ∷ bs) = omega (arith, count-sum a bs)

count_all-sum : (bs : List ℕ) → count_all bs ≡ sum (λ b. 1) bs
count_all-sum [] = refl
count_all-sum (b ∷ bs) = omega (arith, count_all-sum bs)

any-count : (a : ℕ) (bs : List ℕ) → (any (λ b. b == a) bs ≡ true) ↔ (0 < count a bs)
any-count a [] = (λ e. cc, λ e. absurd (omega arith))
any-count a (b ∷ bs) =
    let ih = any-count a bs in
    elim (Bool-cases (b == a)) [
      | inl y ↦ rw y (λ e. omega arith, λ e. refl)
      | inr n ↦ rw n (λ e. omega (arith, ih.0 e), λ e. ih.1 (omega arith))
    ]

-- `getItems` of everything gives each item as often as it lies below the container, at whatever
-- depth; `getItemHoldingCount` is the number of items below; and `isHoldingItem` tells whether an
-- item is one of them.
pub get_items-count :
    (a : ℕ) (is : Items)
    → (count a (get_items is) ≡ occurs_all a is)
      × (get_item_holding_count is ≡ size_all is)
      × ((is_holding_item a is ≡ true) ↔ (0 < occurs_all a is))
unfolding get_item_holding_count is_holding_item
get_items-count a is =
    let found = any-count a (get_items is) in
    let occurring : count a (get_items is) ≡ occurs_all a is =
      count-sum a (get_items is)
      ∙ sum-get_items (λ b. if b == a then 1 else 0) (occurs_all a) (none_occurs a)
          (occurs_inside a) is in
    (
      occurring,
      count_all-sum (get_items is) ∙ sum-get_items (λ b. 1) size_all none_of_size size_inside is,
      (λ e. omega (arith, found.0 e, occurring), λ e. found.1 (omega (arith, occurring))),
    )
