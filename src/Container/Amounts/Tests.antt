-- ===== src/Container/Amounts/Tests.antt =====
-- Arrows in a quiver and in the bag around it.
use xynera_ots.Prelude.{ℕ, ◌+◌, ◌*◌, ◌%◌, ◌^◌, ◌≡◌, refl, false, none, ◌==◌, if◌then◌else◌, arith}
use xynera_ots.Container.Iterator.{Items, item, container, nil, cons, get_items}
use xynera_ots.Container.Amounts.{Kind, get_item_type_count, get_all_item_type_count}
use xynera_ots.Container.Amounts.All.{below_all, counted, get_all_item_type_count-counted}

abbrev bag : Items
bag = cons (item 1) (cons (container 2 (cons (item 3) nil)) nil)

-- Address 2 is the quiver.
abbrev kind : ℕ → Kind
kind a = record { id = if a == 2 then 35562 else 3447; tier = 0; sub_type = 0; item_count = a * 10 }

-- getItemTypeCount does not look into the quiver.
arrows : get_item_type_count kind 3447 none none bag ≡ 10
unfolding get_item_type_count
arrows = refl

all_arrows : get_all_item_type_count kind false bag (λ i t. 0) 3447 0 ≡ 40
unfolding get_all_item_type_count get_items
all_arrows = refl

get_all_item_type_count-counted_example :
    get_all_item_type_count kind false bag (λ i t. 0) 3447 0
    ≡ (0 + below_all (λ a. counted false 3447 0 (kind a)) bag) % 2 ^ 32
get_all_item_type_count-counted_example =
    get_all_item_type_count-counted kind false 3447 0 bag (λ i t. 0) (omega arith)
