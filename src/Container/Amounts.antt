-- ===== src/Container/Amounts.antt =====
-- getItemTypeCount and getAllItemTypeCount of src/container.cpp: how much a container holds of each
-- kind of item. The items are those of Container/Iterator, with what is asked of them by address.
pub mod All
mod Tests
use xynera_ots.Prelude.{
  ℕ, ◌+◌, ◌%◌, ◌^◌, Bool, true, false, ◌&&◌, ◌||◌, not, Option, none, some, List, [], ◌∷◌, ◌==◌,
  if◌then◌else◌,
}
use xynera_ots.Container.Iterator.{Item, Items, item, container, nil, cons, address, get_items}

pub record Kind : Type 0 where
  pub id : ℕ
  pub tier : ℕ
  pub sub_type : ℕ
  pub item_count : ℕ

-- Item::countByType; `none` is the sub type -1.
abbrev pub count_by_type : Kind → Option ℕ → ℕ
count_by_type k none = k.item_count
count_by_type k (some s) = if s == k.sub_type then k.item_count else 0

-- `tier` is the one asked for, if `hasTier`.
unfoldable pub get_item_type_count : (ℕ → Kind) → ℕ → Option ℕ → Option ℕ → Items → ℕ
get_item_type_count kind id sub_type tier nil = 0
get_item_type_count kind id sub_type tier (cons i is) =
    let k = kind (address i) in
    let rest = get_item_type_count kind id sub_type tier is in
    let wanted = elim tier as (λ o. Bool) [ none ↦ true | some t ↦ k.tier == t ] in
    if k.id == id && wanted then (count_by_type k sub_type + rest) % 2 ^ 32 else rest

-- countMap, by id and tier.
abbrev pub CountMap : Type 0
CountMap = ℕ → ℕ → ℕ

unfoldable pub add_count : Kind → CountMap → CountMap
add_count k m id tier =
    if k.id == id && k.tier == tier then (m id tier + count_by_type k none) % 2 ^ 32 else m id tier

unfoldable pub take_one : Bool → Kind → CountMap → CountMap
unfolding add_count
take_one skip_tiered k m = if not skip_tiered || k.tier == 0 then add_count k m else m

unfoldable pub take_list : (ℕ → Kind) → Bool → List ℕ → CountMap → CountMap
unfolding take_one
take_list kind skip_tiered [] m = m
take_list kind skip_tiered (a ∷ bs) m =
    take_list kind skip_tiered bs (take_one skip_tiered (kind a) m)

-- What the inner loop goes through.
unfoldable pub inside : Item → List ℕ
unfolding get_items
inside (item a) = []
inside (container a is) = get_items is

unfoldable pub get_all_item_type_count : (ℕ → Kind) → Bool → Items → CountMap → CountMap
unfolding take_list inside
get_all_item_type_count kind skip_tiered nil m = m
get_all_item_type_count kind skip_tiered (cons i is) m =
    get_all_item_type_count kind skip_tiered is
      (take_list kind skip_tiered (inside i) (take_one skip_tiered (kind (address i)) m))
