-- ===== src/Container/Iterator/Tests.antt =====
-- A bag with a coin, a pouch with two rings, and a lamp: the walk goes breadth first.
use xynera_ots.Prelude.{◌≡◌, ◌↔◌, ◌<◌, refl, true, [], ◌∷◌}
use xynera_ots.Container.Iterator.{
  Items, item, container, nil, cons, get_items, get_item_holding_count, is_holding_item, size_all,
}
use xynera_ots.Container.Iterator.Visits.{count, occurs_all, get_items-count}

abbrev bag : Items
bag = cons (item 1) (cons (container 2 (cons (item 3) (cons (item 4) nil))) (cons (item 5) nil))

breadth_first : get_items bag ≡ 1 ∷ 2 ∷ 5 ∷ 3 ∷ 4 ∷ []
unfolding get_items
breadth_first = refl

get_items-count_example :
    (count 4 (get_items bag) ≡ occurs_all 4 bag)
    × (get_item_holding_count bag ≡ size_all bag)
    × ((is_holding_item 4 bag ≡ true) ↔ (0 < occurs_all 4 bag))
get_items-count_example = get_items-count 4 bag
